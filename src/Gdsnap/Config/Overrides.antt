-- ===== src/Gdsnap/Config/Overrides.antt =====
-- The command line wins over the config files, and these set known flags only.
use cfg.Base.{
  Bool, List, Option, [], ap, arith, false, if_split, none, refl, some, true, ◌∙◌, ◌∷◌, ◌≡◌, ◌≢◌,
}
use cfg.Text.{Text, split, trim_space}
use cfg.Dict.{Dict, get_or, lookup, lookup-insert_other}
use cfg.Gdsnap.Config.{
  Contents, FlagPackage, Flags, Line, Result, apply_line, contents, failed, fatal, is_comment,
  not_exist, ok, passes_over, read_file, read_line, read_lines, readconfig, set_flag, ◌>>=◌,
}

module _ (pkg : FlagPackage) (overridden : Dict Bool) (name : Text)
    (on_command_line : get_or false name overridden ≡ true) where
  -- The flag has the value that it had.
  abbrev Keeps : Flags → Result Flags → Type 0
  Keeps flags (ok flags') = lookup name flags' ≡ lookup name flags
  Keeps flags (fatal e) = Unit

  set_flag-Keeps :
      (flags : Flags) (l : Line) (o : Option Text)
      → l.flagname ≢ name
      → Keeps flags (set_flag pkg l flags o)
  set_flag-Keeps flags l none ne = tt
  set_flag-Keeps flags l (some old) ne =
      if_split (Keeps flags) (pkg.accepts l.flagname l.value)
        (λ _. lookup-insert_other l.flagname name l.value flags ne) (λ _. tt)

  passes-given :
      (flags : Flags) (l : Line)
      → get_or false l.flagname overridden ≡ true
      → passes_over pkg overridden flags l ≡ false
      → ⊥
  unfolding passes_over
  passes-given flags l given e = ground arith

  apply_line-Keeps :
      (flags : Flags) (o : Option Line) → Keeps flags (apply_line pkg overridden flags o)
  apply_line-Keeps flags none = tt
  apply_line-Keeps flags (some l) =
      if_split (Keeps flags) (passes_over pkg overridden flags l) (λ _. refl)
        (λ e. set_flag-Keeps flags l (lookup l.flagname flags) (other l e))
    where
      other : (l : Line) → passes_over pkg overridden flags l ≡ false → l.flagname ≢ name
      other l e same =
          passes-given flags l (ap (λ k. get_or false k overridden) same ∙ on_command_line) e

  read_line-Keeps :
      (flags : Flags) (line : Text) → Keeps flags (read_line pkg overridden flags line)
  unfolding read_line
  read_line-Keeps flags line =
      if_split (Keeps flags) (is_comment (trim_space line)) (λ _. refl)
        (λ _. apply_line-Keeps flags (pkg.scan_line (trim_space line)))

  >>=-Keeps :
      (flags : Flags) (r : Result Flags) (next : Flags → Result Flags)
      → Keeps flags r
      → ((flags' : Flags) → Keeps flags' (next flags'))
      → Keeps flags (r >>= next)
  >>=-Keeps flags (fatal e) next h k = tt
  >>=-Keeps flags (ok flags') next h k = trans (next flags') h (k flags')
    where
      trans :
          (r : Result Flags)
          → lookup name flags' ≡ lookup name flags
          → Keeps flags' r
          → Keeps flags r
      trans (ok g) h k = k ∙ h
      trans (fatal e) h k = tt

  read_lines-Keeps :
      (ls : List Text) (flags : Flags) → Keeps flags (read_lines pkg overridden ls flags)
  unfolding read_lines
  read_lines-Keeps [] flags = refl
  read_lines-Keeps (l ∷ ls) flags =
      >>=-Keeps flags (read_line pkg overridden flags l) (read_lines pkg overridden ls)
        (read_line-Keeps flags l) (read_lines-Keeps ls)

  read_file-Keeps : (flags : Flags) (f : Contents) → Keeps flags (read_file pkg overridden flags f)
  read_file-Keeps flags not_exist = refl
  read_file-Keeps flags failed = tt
  read_file-Keeps flags (contents s) = read_lines-Keeps (split 10 s) flags

  readconfig-Keeps :
      (fs : List Contents) (flags : Flags) → Keeps flags (readconfig pkg overridden fs flags)
  unfolding readconfig
  readconfig-Keeps [] flags = refl
  readconfig-Keeps (f ∷ fs) flags =
      >>=-Keeps flags (read_file pkg overridden flags f) (readconfig pkg overridden fs)
        (read_file-Keeps flags f) (readconfig-Keeps fs)

-- A flag that is given on the command line keeps its value, whatever the config files say.
pub readconfig-overridden :
    (pkg : FlagPackage) (overridden : Dict Bool) (fs : List Contents) (flags flags' : Flags)
    (name : Text)
    → get_or false name overridden ≡ true
    → readconfig pkg overridden fs flags ≡ ok flags'
    → lookup name flags' ≡ lookup name flags
readconfig-overridden pkg overridden fs flags flags' name given e =
    rw e at (readconfig-Keeps pkg overridden name given fs flags)
