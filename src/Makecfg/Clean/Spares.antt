-- ===== src/Makecfg/Clean/Spares.antt =====
-- makecfg/makecfg.go: ClearUtils leaves the tools that are wanted where they are.
use cfg.Base.{
  All, Bool, Bool-cases, List, Option, Option-cases, [], ap, append-cancel, append_assoc, clash,
  false, if_split, inl, inr, keep, map, none, not, refl, some, sym, true, ◌++◌, ◌∙◌, ◌∷◌, ◌≡◌, ◌≢◌,
}
use cfg.Text.{
  Text, codes, has_prefix, has_prefix-append, has_prefix_sound, has_prefix_trans, text_eq,
}
use cfg.Text.Sort.{member}
use cfg.Paths.{base, dir, path_join}
use cfg.Paths.Laws.{HasNoSlash}
use cfg.Makecfg.Files.{Files, is_below, rename}
use cfg.Makecfg.Link.Laws.{IsApart, moved-apart, rename-some}
use cfg.Makecfg.Workflow.{Environment, Outcome, Workflow, answered, done, failed}
use cfg.Makecfg.Clean.{clear_unwanted, clear_utils, trash_bins, unwanted, wanted}

-- The files as a section leaves them, whether it fails or not
abbrev pub files_after : Outcome → Files
files_after (done wf) = wf.files
files_after (failed why wf) = wf.files

trash_bins-apart :
    (bins : List Text) (wf : Workflow) (p : Text)
    → All (λ u. IsApart (path_join wf.bindir u) (path_join wf.trashdir u) p) bins
    → files_after (trash_bins bins wf) p ≡ wf.files p
unfolding trash_bins
trash_bins-apart [] wf p h = refl
trash_bins-apart (bin ∷ bins) wf p (apart, h) =
    elim (Option-cases (rename (path_join wf.bindir bin) (path_join wf.trashdir bin) wf.files)) [
      | inl e ↦ rw e refl
      | inr (files, e) ↦ rw e (
          trash_bins-apart bins (record wf { files = files }) p h
          ∙ ap (λ (fs : Files). fs p)
              (rename-some (path_join wf.bindir bin) (path_join wf.trashdir bin) wf.files files e)
          ∙ moved-apart (path_join wf.bindir bin) (path_join wf.trashdir bin) wf.files p apart)
    ]

answered-apart :
    (action : Workflow → Outcome) (wf : Workflow) (o : Option Text) (p : Text)
    → files_after (action wf) p ≡ wf.files p
    → files_after (answered action wf o) p ≡ wf.files p
answered-apart action wf none p h = refl
answered-apart action wf (some r) p h =
    if_split (λ (w : Outcome). files_after w p ≡ wf.files p) (text_eq r (codes "y")) (λ _. h)
      (λ _. refl)

-- The path of a name in a directory
abbrev pub within : (dir name : Text) → Text
within dir name = dir ++ b'/' ∷ name

-- A name that is joined to both directories without being cleaned
abbrev pub IsEntry : Workflow → Text → Type 0
IsEntry wf u =
    (path_join wf.bindir u ≡ within wf.bindir u) × (path_join wf.trashdir u ≡ within wf.trashdir u)

not_inside : (u n r : Text) → HasNoSlash n → n ≢ u ++ b'/' ∷ r
not_inside [] [] r free e = cc
not_inside [] (c ∷ n) r (ne, free) e = ne (cc)
not_inside (x ∷ u) [] r free e = cc
not_inside (x ∷ u) (c ∷ n) r (ne, free) e = not_inside u n r free (cc)

false-of : {b : Bool} → (b ≡ true → ⊥) → b ≡ false
false-of {b} h = elim (Bool-cases b) [ inl e ↦ absurd (h e) | inr e ↦ e ]

-- A path in the directory of the binaries that is not in the trash
abbrev pub IsOutside : Workflow → Text → Type 0
IsOutside wf n = is_below wf.trashdir (within wf.bindir n) ≡ false

append_within : (dir name : Text) → dir ++ b'/' ∷ name ≡ (dir ++ b'/' ∷ []) ++ name
append_within dir name = sym (append_assoc dir (b'/' ∷ []) name)

below_within : (dir name : Text) → is_below dir (within dir name) ≡ true
unfolding is_below
below_within dir name =
    ap (λ s. has_prefix s (dir ++ b'/' ∷ [])) (append_within dir name)
    ∙ has_prefix-append (dir ++ b'/' ∷ []) name

-- What is below an entry of a directory is below the directory.
below_entry : (dir u p : Text) → is_below (within dir u) p ≡ true → is_below dir p ≡ true
unfolding is_below
below_entry dir u p h = has_prefix_trans p (within dir u ++ b'/' ∷ []) (dir ++ b'/' ∷ []) h (
    ap (λ s. has_prefix s (dir ++ b'/' ∷ []))
      (append_assoc dir (b'/' ∷ u) (b'/' ∷ []) ∙ append_within dir (u ++ b'/' ∷ []))
    ∙ has_prefix-append (dir ++ b'/' ∷ []) (u ++ b'/' ∷ []))

-- Nothing is below an entry but what has one more slash.
below_sibling : (dir u n : Text) → HasNoSlash n → is_below (within dir u) (within dir n) ≡ true → ⊥
unfolding is_below
below_sibling dir u n free h =
    let (r, e) = has_prefix_sound (within dir n) (within dir u ++ b'/' ∷ []) h in
    let names : b'/' ∷ n ≡ b'/' ∷ (u ++ b'/' ∷ r) =
      append-cancel dir
        (e ∙ append_assoc (within dir u) (b'/' ∷ []) r ∙ append_assoc dir (b'/' ∷ u) (b'/' ∷ r)) in
    not_inside u n r free (tail names)
  where
    tail : {m k : Text} → b'/' ∷ m ≡ b'/' ∷ k → m ≡ k
    tail h = cc

wanted-IsApart :
    (wf : Workflow) (n u : Text)
    → HasNoSlash n
    → n ≢ u
    → IsEntry wf u
    → IsOutside wf n
    → IsApart (path_join wf.bindir u) (path_join wf.trashdir u) (within wf.bindir n)
wanted-IsApart wf n u free ne (e, f) out = rw (e, f) (other, not_trash, not_in_entry, not_in_trash)
  where
    other : within wf.bindir n ≢ within wf.bindir u
    other h = ne (tail (append-cancel wf.bindir h))
      where
        tail : b'/' ∷ n ≡ b'/' ∷ u → n ≡ u
        tail h = cc

    not_trash : within wf.bindir n ≢ within wf.trashdir u
    not_trash h = clash (ap (is_below wf.trashdir) h ∙ below_within wf.trashdir u) out

    not_in_entry : is_below (within wf.bindir u) (within wf.bindir n) ≡ false
    not_in_entry = false-of (below_sibling wf.bindir u n free)

    not_in_trash : is_below (within wf.trashdir u) (within wf.bindir n) ≡ false
    not_in_trash = false-of (λ h. clash (below_entry wf.trashdir u (within wf.bindir n) h) out)

unwanted-ne :
    (env : Environment) (utils : List Text) (names : List Text) (n : Text)
    → member n (wanted env utils) ≡ true
    → All (λ u. n ≢ u) (keep (λ u. not (member u (wanted env utils))) names)
unwanted-ne env utils [] n h = tt
unwanted-ne env utils (u ∷ names) n h = elim (Bool-cases (member u (wanted env utils))) [
  | inl e ↦ rw e (unwanted-ne env utils names n h)
  | inr e ↦ rw e (
    (λ same. clash (ap (λ w. member w (wanted env utils)) (sym same) ∙ h) e),
    unwanted-ne env utils names n h,
  )
]

All-keep : (P : Text → Type 0) (p : Text → Bool) (xs : List Text) → All P xs → All P (keep p xs)
All-keep P p [] h = tt
All-keep P p (x ∷ xs) (now, h) =
    if_split (All P) (p x) (λ _. (now, All-keep P p xs h)) (λ _. All-keep P p xs h)

All-both :
    (P Q R : Text → Type 0) (xs : List Text)
    → ((x : Text) → P x → Q x → R x)
    → All P xs
    → All Q xs
    → All R xs
All-both P Q R [] f h k = tt
All-both P Q R (x ∷ xs) f (p, h) (q, k) = (f x p q, All-both P Q R xs f h k)

-- Whatever is answered, ClearUtils leaves a tool that is wanted as it is: one of utils, of the tools
-- of ybb, amutt or yt-dlp, with a name without a slash and outside of the trash.
pub clear_utils-spares :
    (env : Environment) (wf : Workflow) (utils bins : List Text) (n : Text)
    → env.glob wf.files (path_join wf.cfgdir (codes "utils")) ≡ some utils
    → env.glob wf.files wf.bindir ≡ some bins
    → All (IsEntry wf) (map base bins)
    → member n (wanted env utils) ≡ true
    → HasNoSlash n
    → IsOutside wf n
    → files_after (clear_utils env wf) (within wf.bindir n) ≡ wf.files (within wf.bindir n)
unfolding clear_utils
clear_utils-spares env wf utils bins n in_utils in_bin entries want free out =
    rw (in_utils, in_bin) (cleared (unwanted env utils bins) apart)
  where
    apart :
        All
          (λ u. IsApart (path_join wf.bindir u) (path_join wf.trashdir u) (within wf.bindir n))
          (unwanted env utils bins)
    apart =
        unfold unwanted in
        All-both (λ u. n ≢ u) (IsEntry wf) _ (unwanted env utils bins)
          (λ u ne entry. wanted-IsApart wf n u free ne entry out)
          (unwanted-ne env utils (map base bins) n want)
          (All-keep (IsEntry wf) (λ name. not (member name (wanted env utils))) (map base bins)
            entries)

    cleared :
        (us : List Text)
        → All
            (λ u. IsApart (path_join wf.bindir u) (path_join wf.trashdir u) (within wf.bindir n))
            us
        → files_after (clear_unwanted env us wf) (within wf.bindir n)
          ≡ wf.files (within wf.bindir n)
    cleared [] h = refl
    cleared (u ∷ us) h =
        answered-apart (trash_bins (u ∷ us)) wf
          (env.answer (codes "Delete unwanted binaries from ~/.bin?")) (within wf.bindir n)
          (trash_bins-apart (u ∷ us) wf (within wf.bindir n) h)
