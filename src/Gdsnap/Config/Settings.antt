-- ===== src/Gdsnap/Config/Settings.antt =====
-- readconfig sets each flag to what the last line for it says.
use cfg.Base.{
  All, All-map, Bool, Bool-cases, List, Option, [], ap, arith, false, if◌then◌else◌, inl, inr, map,
  none, not, refl, some, true, ◌&&◌, ◌++◌, ◌||◌, ◌∙◌, ◌∷◌, ◌≡◌, ◌≢◌, ◌⊎◌,
}
use cfg.Text.{Text, before, codes, split, text_eq, text_eq-ne, trim_space}
use cfg.Dict.{Dict, get_or, insert, lookup, lookup-insert}
use cfg.Gdsnap.Config.{
  Contents, FlagPackage, Flags, Line, Result, apply_line, contents, fatal, is_comment, not_exist,
  ok, passes_over, read_line, read_lines, readconfig, ◌>>=◌,
}

-- A line of a file: empty or a comment, or a setting
pub data Entry : Type 0 where
  blank : Text → Entry
  setting : Text → Line → Entry

abbrev pub text_of : Entry → Text
text_of (blank s) = s
text_of (setting s l) = s

abbrev pub settings : List Entry → List Line
settings [] = []
settings (blank s ∷ es) = settings es
settings (setting s l ∷ es) = l ∷ settings es

-- A file that is read, or is not there
pub data File : Type 0 where
  missing : File
  present : Text → List Entry → File

abbrev pub contents_of : File → Contents
contents_of missing = not_exist
contents_of (present s es) = contents s

abbrev pub all_settings : List File → List Line
all_settings [] = []
all_settings (missing ∷ fs) = all_settings fs
all_settings (present s es ∷ fs) = settings es ++ all_settings fs

module _ (pkg : FlagPackage) where
  abbrev pub IsEntry : Entry → Type 0
  IsEntry (blank s) = is_comment (trim_space s) ≡ true
  IsEntry (setting s l) =
      (is_comment (trim_space s) ≡ false) × (pkg.scan_line (trim_space s) ≡ some l)

  -- The text of a file is that of its lines.
  abbrev pub IsFile : File → Type 0
  IsFile missing = Unit
  IsFile (present s es) = (split 10 s ≡ map text_of es) × All IsEntry es

module _ (overridden : Dict Bool) where
  -- Whether a line sets a flag in the run of a profile
  abbrev pub is_for : (profile : Text) → Line → Bool
  is_for profile l =
      (text_eq l.matcher (codes "*") || text_eq l.matcher profile)
      && not (get_or false l.flagname overridden)

  -- The value that the last line for a flag gives it, or the one that it has
  abbrev pub last_value : (profile name : Text) → List Line → Option Text → Option Text
  last_value profile name [] before = before
  last_value profile name (l ∷ ls) before =
      last_value profile name ls
        (if text_eq l.flagname name && is_for profile l then some l.value else before)

  -- What one line leaves
  abbrev pub set_by : (profile : Text) → Flags → Line → Flags
  set_by profile flags l = if is_for profile l then insert l.flagname l.value flags else flags

module _ (pkg : FlagPackage) (overridden : Dict Bool) where
  -- A line that sets nothing, or a known flag to a value that it takes; the profile is not set.
  abbrev pub IsFine : (profile : Text) → Flags → Line → Type 0
  IsFine profile flags l =
      (l.flagname ≢ codes "profile")
      × ((is_for overridden profile l ≡ false)
          ⊎ ((old : Text) × (lookup l.flagname flags ≡ some old)
              × (pkg.accepts l.flagname l.value ≡ true)))

  passes_over-is_for :
      (profile : Text) (flags : Flags) (l : Line)
      → get_or [] (codes "profile") flags ≡ profile
      → passes_over pkg overridden flags l ≡ not (is_for overridden profile l)
  unfolding passes_over
  passes_over-is_for profile flags l h = rw h (ground arith)

  apply_line-set_by :
      (profile : Text) (flags : Flags) (l : Line)
      → get_or [] (codes "profile") flags ≡ profile
      → IsFine profile flags l
      → apply_line pkg overridden flags (some l) ≡ ok (set_by overridden profile flags l)
  apply_line-set_by profile flags l h (ne, inl off) =
      rw (passes_over-is_for profile flags l h, off) refl
  apply_line-set_by profile flags l h (ne, inr (old, known, taken)) =
      elim (Bool-cases (is_for overridden profile l)) [
        | inl on ↦ rw (passes_over-is_for profile flags l h, on, known, taken) refl
        | inr off ↦ rw (passes_over-is_for profile flags l h, off) refl
      ]

  lookup-set_by :
      (profile name : Text) (flags : Flags) (l : Line)
      → lookup name (set_by overridden profile flags l) ≡ (
          if text_eq l.flagname name && is_for overridden profile l
          then some l.value
          else lookup name flags)
  lookup-set_by profile name flags l = ground (arith, lookup-insert l.flagname name l.value flags)

  profile-set_by :
      (profile : Text) (flags : Flags) (l : Line)
      → get_or [] (codes "profile") flags ≡ profile
      → l.flagname ≢ codes "profile"
      → get_or [] (codes "profile") (set_by overridden profile flags l) ≡ profile
  unfolding get_or
  profile-set_by profile flags l h ne =
      let same : lookup (codes "profile") (set_by overridden profile flags l)
          ≡ lookup (codes "profile") flags =
        lookup-set_by profile (codes "profile") flags l
        ∙ rw (text_eq-ne l.flagname (codes "profile") ne) refl in
      ap (λ (o : Option Text). elim o [ none ↦ [] | some w ↦ w ]) same ∙ h

  IsFine-set_by :
      (profile : Text) (flags : Flags) (l m : Line)
      → IsFine profile flags m
      → IsFine profile (set_by overridden profile flags l) m
  IsFine-set_by profile flags l m (ne, inl off) = (ne, inl off)
  IsFine-set_by profile flags l m (ne, inr (old, known, taken)) =
      elim (Bool-cases (text_eq l.flagname m.flagname && is_for overridden profile l)) [
        | inl now ↦
            (ne, inr (l.value, lookup-set_by profile m.flagname flags l ∙ rw (now) refl, taken))
        | inr other ↦
            (ne, inr (old, lookup-set_by profile m.flagname flags l ∙ rw (other) known, taken))
      ]

  -- The lines one after the other
  abbrev apply_all : List Line → Flags → Result Flags
  apply_all [] flags = ok flags
  apply_all (l ∷ ls) flags = apply_line pkg overridden flags (some l) >>= apply_all ls

  apply_all-last_value :
      (profile : Text) (ls : List Line) (flags : Flags)
      → get_or [] (codes "profile") flags ≡ profile
      → All (IsFine profile flags) ls
      → (flags' : Flags) × (apply_all ls flags ≡ ok flags')
        × ((name : Text)
            → lookup name flags' ≡ last_value overridden profile name ls (lookup name flags))
  apply_all-last_value profile [] flags h fine = (flags, refl, λ name. refl)
  apply_all-last_value profile (l ∷ ls) flags h (now, fine) =
      let (flags', e, values) =
        apply_all-last_value profile ls (set_by overridden profile flags l)
          (profile-set_by profile flags l h now.0)
          (All-map ls (IsFine-set_by profile flags l) fine) in
      (
        flags',
        ap (λ r. r >>= apply_all ls) (apply_line-set_by profile flags l h now) ∙ e,
        λ name.
            values name
            ∙ ap (last_value overridden profile name ls) (lookup-set_by profile name flags l),
      )

  bind_cong :
      (r : Result Flags) {f g : Flags → Result Flags}
      → ((x : Flags) → f x ≡ g x)
      → (r >>= f) ≡ (r >>= g)
  bind_cong (ok flags) h = h flags
  bind_cong (fatal e) h = refl

  >>=-assoc :
      (r : Result Flags) (f g : Flags → Result Flags) → (r >>= f >>= g) ≡ (r >>= λ x. f x >>= g)
  >>=-assoc (ok flags) f g = refl
  >>=-assoc (fatal e) f g = refl

  apply_all-append :
      (ls ms : List Line) (flags : Flags)
      → (apply_all ls flags >>= apply_all ms) ≡ apply_all (ls ++ ms) flags
  apply_all-append [] ms flags = refl
  apply_all-append (l ∷ ls) ms flags =
      >>=-assoc (apply_line pkg overridden flags (some l)) (apply_all ls) (apply_all ms)
      ∙ bind_cong (apply_line pkg overridden flags (some l)) (λ x. apply_all-append ls ms x)

  read_lines-settings :
      (es : List Entry) (flags : Flags)
      → All (IsEntry pkg) es
      → read_lines pkg overridden (map text_of es) flags ≡ apply_all (settings es) flags
  unfolding read_lines read_line
  read_lines-settings [] flags h = refl
  read_lines-settings (blank s ∷ es) flags (e, h) = rw e (read_lines-settings es flags h)
  read_lines-settings (setting s l ∷ es) flags ((e, scanned), h) =
      rw (e, scanned)
        (bind_cong (apply_line pkg overridden flags (some l)) (λ x. read_lines-settings es x h))

  readconfig-settings :
      (fs : List File) (flags : Flags)
      → All (IsFile pkg) fs
      → readconfig pkg overridden (map contents_of fs) flags ≡ apply_all (all_settings fs) flags
  unfolding readconfig
  readconfig-settings [] flags h = refl
  readconfig-settings (missing ∷ fs) flags (f, h) = readconfig-settings fs flags h
  readconfig-settings (present s es ∷ fs) flags ((lines, entries), h) = rw lines (
      ap (λ r. r >>= readconfig pkg overridden (map contents_of fs))
        (read_lines-settings es flags entries)
      ∙ bind_cong (apply_all (settings es) flags) (λ x. readconfig-settings fs x h)
      ∙ apply_all-append (settings es) (all_settings fs) flags)

-- Where each line of the config files that is no comment can be scanned, none sets the profile, and
-- those that are for the profile of the run set known flags to values that they take, readconfig
-- ends with each flag at the value of the last line for it, or at the one that it had if there is
-- no such line or the flag is given on the command line.
pub readconfig-last_value :
    (pkg : FlagPackage) (overridden : Dict Bool) (fs : List File) (flags : Flags)
    → All (IsFile pkg) fs
    → All (IsFine pkg overridden (get_or [] (codes "profile") flags) flags) (all_settings fs)
    → (flags' : Flags) × (readconfig pkg overridden (map contents_of fs) flags ≡ ok flags')
      × ((name : Text)
          → lookup name flags'
            ≡ last_value overridden
                (get_or [] (codes "profile") flags)
                name
                (all_settings fs)
                (lookup name flags))
readconfig-last_value pkg overridden fs flags files fine =
    let (flags', e, values) =
      apply_all-last_value pkg overridden (get_or [] (codes "profile") flags) (all_settings fs)
        flags refl fine in
    (flags', readconfig-settings pkg overridden fs flags files ∙ e, values)
