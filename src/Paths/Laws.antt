-- ===== src/Paths/Laws.antt =====
-- A path and a last element, joined by a slash, are taken apart again.
use cfg.Base.{
  All, Bool, Bool-cases, List, [], ap, ap₂, arith, false, foldl, foldl-append, if◌then◌else◌, inl,
  inr, refl, reverse, true, ℕ, ◌++◌, ◌==◌, ◌∙◌, ◌∷◌, ◌≡◌, ◌≢◌,
}
use cfg.Text.{Text, codes, cons_head, has_prefix, join, split, text_eq, trim_byte, trim_right}
use cfg.Paths.{base, clean, dir, elements, last_element, or_dot, push, split_path}

abbrev pub HasNoSlash : Text → Type 0
HasNoSlash = All (λ c. c ≢ b'/')

-- The text is the path of one place: cleaning leaves it alone.
abbrev pub IsClean : Text → Type 0
IsClean s = clean s ≡ s

split-ne-nil : (s : Text) → split b'/' s ≢ []
unfolding split cons_head
split-ne-nil [] e = cc
split-ne-nil (c ∷ s) e = ground (arith, cons_head-ne c (split b'/' s))
  where
    cons_head-ne : (c : ℕ) (ls : List Text) → cons_head c ls ≢ []
    cons_head-ne c [] e = cc
    cons_head-ne c (l ∷ ls) e = cc

split_path-no_slash : (s : Text) → HasNoSlash s → split_path s ≡ ([], s)
unfolding split_path
split_path-no_slash [] h = refl
split_path-no_slash (c ∷ s) h = rw (split_path-no_slash s h.1) (ground arith)

split_path-append : (s t : Text) → HasNoSlash t → split_path (s ++ b'/' ∷ t) ≡ (s ++ b'/' ∷ [], t)
unfolding split_path
split_path-append [] t h = rw (split_path-no_slash t h) refl
split_path-append (c ∷ []) t h = rw (split_path-append [] t h) refl
split_path-append (c ∷ d ∷ s) t h = rw (split_path-append (d ∷ s) t h) refl

-- Behind a slash the split begins anew.
split-append : (s t : Text) → split b'/' (s ++ b'/' ∷ t) ≡ split b'/' s ++ split b'/' t
unfolding split
split-append [] t = refl
split-append (c ∷ s) t = elim (Bool-cases (c == b'/')) [
  | inl e ↦ rw (e, split-append s t)
  | inr e ↦
      rw (e, split-append s t) (cons_head-append c (split b'/' s) (split b'/' t) (split-ne-nil s))
]
  where
    cons_head-append :
        (c : ℕ) (ls ms : List Text) → ls ≢ [] → cons_head c (ls ++ ms) ≡ cons_head c ls ++ ms
    cons_head-append c [] ms ne = absurd (ne refl)
    cons_head-append c (l ∷ ls) ms ne = refl

push-empty : (rooted : Bool) (stack : List Text) → push rooted stack [] ≡ stack
unfolding push text_eq
push-empty rooted stack = refl

elements-trailing_slash :
    (rooted : Bool) (s : Text) → elements rooted (s ++ b'/' ∷ []) ≡ elements rooted s
unfolding elements
elements-trailing_slash rooted s =
    rw (split-append s [], foldl-append (push rooted) [] (split b'/' s) (split b'/' []))
      (ap reverse (push-empty rooted (foldl (push rooted) [] (split b'/' s))))

clean-trailing_slash : (c : ℕ) (s : Text) → clean ((c ∷ s) ++ b'/' ∷ []) ≡ clean (c ∷ s)
unfolding clean
clean-trailing_slash c s =
    ap₂
      (λ es fs.
        if has_prefix (c ∷ s) (codes "/") then b'/' ∷ join b'/' es else or_dot (join b'/' fs))
      (elements-trailing_slash true (c ∷ s)) (elements-trailing_slash false (c ∷ s))

not-IsClean-nil : ¬ IsClean []
unfolding clean split text_eq
not-IsClean-nil e = cc

-- The directory of a cleaned path with one more element is that path.
pub dir-append : (s t : Text) → IsClean s → HasNoSlash t → dir (s ++ b'/' ∷ t) ≡ s
unfolding dir
dir-append [] t cl free = absurd (not-IsClean-nil cl)
dir-append (c ∷ s) t cl free =
    ap (λ p. clean p.0) (split_path-append (c ∷ s) t free) ∙ (clean-trailing_slash c s ∙ cl)

abbrev is_slash : ℕ → Bool
is_slash d = d == b'/'

trim_right-no_slash : (s : Text) → HasNoSlash s → trim_right is_slash s ≡ s
unfolding trim_right
trim_right-no_slash [] h = refl
trim_right-no_slash (c ∷ []) h = ground arith
trim_right-no_slash (c ∷ d ∷ s) h = rw (trim_right-no_slash (d ∷ s) h.1)

keeps :
    (c e : ℕ) (v : Text)
    → trim_right is_slash (e ∷ v) ≡ e ∷ v
    → trim_right is_slash (c ∷ e ∷ v) ≡ c ∷ e ∷ v
unfolding trim_right
keeps c e v h = ap (trim_byte is_slash c) h

trim_right-append :
    (s : Text) (x : ℕ) (u : Text)
    → trim_right is_slash (x ∷ u) ≡ x ∷ u
    → trim_right is_slash (s ++ x ∷ u) ≡ s ++ x ∷ u
trim_right-append [] x u h = h
trim_right-append (c ∷ []) x u h = keeps c x u h
trim_right-append (c ∷ e ∷ s) x u h = keeps c e (s ++ x ∷ u) (trim_right-append (e ∷ s) x u h)

last_element-append :
    (s : Text) (d : ℕ) (t : Text) → HasNoSlash (d ∷ t) → last_element (s ++ b'/' ∷ d ∷ t) ≡ d ∷ t
unfolding last_element
last_element-append [] d t h = ap (λ p. p.1) (split_path-append [] (d ∷ t) h)
last_element-append (c ∷ s) d t h = ap (λ p. p.1) (split_path-append (c ∷ s) (d ∷ t) h)

base_trimmed : (s : Text) → s ≢ [] → trim_right is_slash s ≡ s → base s ≡ last_element s
unfolding base
base_trimmed [] ne e = absurd (ne refl)
base_trimmed (c ∷ s) ne e = ap last_element e

-- The base of a path is its last element, if that is not empty.
pub base-append :
    (s : Text) (d : ℕ) (t : Text) → HasNoSlash (d ∷ t) → base (s ++ b'/' ∷ d ∷ t) ≡ d ∷ t
base-append s d t h =
    base_trimmed (s ++ b'/' ∷ d ∷ t) (not_empty s) (
      trim_right-append s b'/' (d ∷ t)
        (trim_right-append (b'/' ∷ []) d t (trim_right-no_slash (d ∷ t) h)))
    ∙ last_element-append s d t h
  where
    not_empty : (s : Text) → s ++ b'/' ∷ d ∷ t ≢ []
    not_empty [] e = cc
    not_empty (c ∷ s) e = cc
