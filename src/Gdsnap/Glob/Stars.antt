-- ===== src/Gdsnap/Glob/Stars.antt =====
-- gdsnap/gdsnap.go, matchglob: a run of stars in the pattern means the same as one or two of them.
use cfg.Base.{==_iff, Bool-cases, [], arith, inl, inr, refl, true, ℕ, ◌==◌, ◌∷◌, ◌≡◌, ◌≤◌}
use cfg.Text.{Text}
use cfg.Gdsnap.Glob.{count_stars, only_stars, skip_stars, star}
use cfg.Gdsnap.Glob.Meaning.{Matches, byte, empty, leave, take_any, take_one}

pub only_stars-Matches : (p : Text) → only_stars p ≡ true → Matches p []
unfolding only_stars
only_stars-Matches [] h = empty
only_stars-Matches (x ∷ p) h = leave (ground arith) (only_stars-Matches p (ground arith))

pub skip_stars-Matches : (p s : Text) → Matches (skip_stars p) s → Matches p s
unfolding skip_stars
skip_stars-Matches [] s m = m
skip_stars-Matches (x ∷ p) s m = elim (Bool-cases (x == star)) [
  | inl e ↦ leave ((==_iff x star).0 e) (skip_stars-Matches p s (rw e at m))
  | inr e ↦ (rw e at m)
]

-- A star more takes no less.
pub add_star :
    {x : ℕ} {p : Text} (s : Text) → x ≡ star → Matches (x ∷ p) s → Matches (x ∷ star ∷ p) s
add_star s e (byte ne m) = absurd (ne e)
add_star s e (leave _ m) = leave e (leave refl m)
add_star (c ∷ s) e (take_one _ ne m) = take_one e ne (add_star s e m)
add_star (c ∷ s) e (take_any _ _ m) = take_any e refl (add_star s e m)

under_star : (p s : Text) → Matches (star ∷ skip_stars p) s → Matches (star ∷ p) s
unfolding skip_stars
under_star [] s m = m
under_star (x ∷ p) s m = elim (Bool-cases (x == star)) [
  | inl e ↦ rw ((==_iff x star).0 e) (add_star s refl (under_star p s (rw e at m)))
  | inr e ↦ (rw e at m)
]

under_stars : (p s : Text) → Matches (star ∷ star ∷ skip_stars p) s → Matches (star ∷ star ∷ p) s
unfolding skip_stars
under_stars [] s m = m
under_stars (x ∷ p) s m = elim (Bool-cases (x == star)) [
  | inl e ↦ rw ((==_iff x star).0 e) (add_star s refl (under_stars p s (rw e at m)))
  | inr e ↦ (rw e at m)
]

-- A run of stars takes what one of its stars takes.
pub one_star-Matches :
    (p s : Text) → 1 ≤ count_stars p → Matches (star ∷ skip_stars p) s → Matches p s
unfolding skip_stars count_stars
one_star-Matches [] s h m = absurd (omega arith)
one_star-Matches (x ∷ p) s h m = elim (Bool-cases (x == star)) [
  | inl e ↦ rw ((==_iff x star).0 e) (under_star p s (rw e at m))
  | inr e ↦ absurd (ground arith)
]

-- A run of two stars or more takes what two of its stars take.
pub two_stars-Matches :
    (p s : Text) → 2 ≤ count_stars p → Matches (star ∷ star ∷ skip_stars p) s → Matches p s
unfolding skip_stars count_stars
two_stars-Matches [] s h m = absurd (omega arith)
two_stars-Matches (x ∷ []) s h m = absurd (ground arith)
two_stars-Matches (x ∷ y ∷ p) s h m = elim (Bool-cases (x == star)) [
  | inr e ↦ absurd (ground arith)
  | inl e ↦ elim (Bool-cases (y == star)) [
    | inr f ↦ absurd (ground arith)
    | inl f ↦ rw ((==_iff x star).0 e, (==_iff y star).0 f) (under_stars p s (rw (e, f) at m))
  ]
]

pub count_stars-pos : (x : ℕ) (p : Text) → x == star ≡ true → 1 ≤ count_stars (x ∷ p)
unfolding count_stars
count_stars-pos x p e = ground arith
