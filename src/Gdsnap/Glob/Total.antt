-- ===== src/Gdsnap/Glob/Total.antt =====
-- The loop ends within its fuel.
use cfg.Base.{
  Bool, Option, [], arith, false, if_split, if◌then◌else◌, length, none, refl, some, suc, true,
  zero, ℕ, ◌*◌, ◌+◌, ◌<◌, ◌==◌, ◌∷◌, ◌≡◌, ◌≤◌,
}
use cfg.Text.{Text}
use cfg.Gdsnap.Glob.{
  Round, Scan, at_byte, at_end, at_star, body, continue, enough, loop, matchglob, mismatch,
  only_stars, resume_dstar, return, round, skip_stars, slash, star, start,
}

-- One where the pattern begins with a star, whose round takes no byte of the name.
waits : Text → ℕ
waits [] = 0
waits (x ∷ p) = if x == star then 1 else 0

waits-le : (p : Text) → waits p ≤ 1
unfolding waits
waits-le [] = omega arith
waits-le (x ∷ p) = ground arith

waits-skip_stars : (p : Text) → waits (skip_stars p) ≡ 0
unfolding waits skip_stars
waits-skip_stars [] = refl
waits-skip_stars (x ∷ p) = ground (arith, waits-skip_stars p)

-- The rounds that a state may still take.
abbrev rounds_left : Text → Text → ℕ
rounds_left p n = 2 * length n + waits p

abbrev Falls : ℕ → Round → Type 0
Falls m (return b) = Unit
Falls m (continue s) = rounds_left s.pattern s.name < m

module _ (c : ℕ) (n : Text) (q d : Option Text) where
  at_end-Falls : Falls (2 * length (c ∷ n)) (at_end c n q d)
  unfolding at_end
  at_end-Falls =
      if_split (Falls (2 * length (c ∷ n))) (c == slash) (λ _. with_dstar d) (λ _. with_star q)
    where
      with_dstar :
          (d : Option Text)
          → Falls
              (2 * length (c ∷ n))
              (elim d [ some d' ↦ resume_dstar d' n | none ↦ return false ])
      with_dstar none = tt
      with_dstar (some d) = omega (arith, waits-le d)

      with_star :
          (q : Option Text)
          → Falls (2 * length (c ∷ n)) (elim q [
            | some q' ↦
                continue (record { pattern = q'; name = n; last_star = some q'; last_dstar = d })
            | none ↦ return false
          ])
      with_star none = tt
      with_star (some q) = omega (arith, waits-le q)

mismatch-Falls :
    (c : ℕ) (n : Text) (q d : Option Text) → Falls (2 * length (c ∷ n)) (mismatch n q d)
unfolding mismatch
mismatch-Falls c n (some q) d = omega (arith, waits-le q)
mismatch-Falls c n none (some d) = omega (arith, waits-le d)
mismatch-Falls c n none none = tt

Falls-mono : (m k : ℕ) (r : Round) → m ≤ k → Falls m r → Falls k r
Falls-mono m k (return b) h f = tt
Falls-mono m k (continue s) h f = omega arith

at_star-Falls :
    (p : Text) (c : ℕ) (n : Text) (d : Option Text)
    → Falls (2 * length (c ∷ n) + 1) (at_star p c n d)
unfolding at_star
at_star-Falls p c n d = omega (arith, waits-skip_stars p)

at_byte-Falls :
    (x : ℕ) (p : Text) (c : ℕ) (n : Text) (q d : Option Text)
    → Falls (2 * length (c ∷ n)) (at_byte x p c n q d)
unfolding at_byte
at_byte-Falls x p c n q d =
    if_split (Falls (2 * length (c ∷ n))) (c == x) (λ _. omega (arith, waits-le p))
      (λ _. mismatch-Falls c n (if c == slash then none else q) d)

round-Falls :
    (p : Text) (c : ℕ) (n : Text) (q d : Option Text)
    → Falls (rounds_left p (c ∷ n)) (round p c n q d)
unfolding round
round-Falls [] c n q d =
    Falls-mono (2 * length (c ∷ n)) _ (at_end c n q d) (omega arith) (at_end-Falls c n q d)
round-Falls (x ∷ p) c n q d =
    if_split (Falls (rounds_left (x ∷ p) (c ∷ n))) (x == star)
      (λ e.
        Falls-mono _ _ (at_star (x ∷ p) c n d) (omega (arith, waits-star x p e))
          (at_star-Falls (x ∷ p) c n d))
      (λ _. Falls-mono _ _ (at_byte x p c n q d) (omega arith) (at_byte-Falls x p c n q d))
  where
    waits-star : (x : ℕ) (p : Text) → x == star ≡ true → waits (x ∷ p) ≡ 1
    waits-star x p e = unfold waits in ground arith

-- The rounds end with an answer.
abbrev pub Answers : Option Bool → Type 0
Answers o = (b : Bool) × (o ≡ some b)

after-Answers :
    (m : ℕ) (next : Scan → Option Bool)
    → ((s : Scan) → rounds_left s.pattern s.name < m → Answers (next s))
    → (r : Round) → Falls m r
    → Answers (elim r [ return b ↦ some b | continue s ↦ next s ])
after-Answers m next ih (return b) h = (b, refl)
after-Answers m next ih (continue s) h = ih s h

body-Answers :
    (next : Scan → Option Bool) (p n : Text) (q d : Option Text)
    → ((s : Scan) → rounds_left s.pattern s.name < rounds_left p n → Answers (next s))
    → Answers (body next p n q d)
body-Answers next p [] q d ih = (only_stars p, refl)
body-Answers next p (c ∷ n) q d ih =
    after-Answers (rounds_left p (c ∷ n)) next ih (round p c n q d) (round-Falls p c n q d)

loop-Answers : (f : ℕ) (s : Scan) → rounds_left s.pattern s.name < f → Answers (loop f s)
unfolding loop
loop-Answers zero s h = absurd (omega arith)
loop-Answers (suc f) s h =
    body-Answers (loop f) s.pattern s.name s.last_star s.last_dstar
      (λ t less. loop-Answers f t (omega arith))

-- The fuel of `matchglob` is enough: its loop returns, and returns what `matchglob` answers.
pub loop-matchglob :
    (pattern name : Text) → loop (enough name) (start pattern name) ≡ some (matchglob pattern name)
unfolding matchglob
loop-matchglob pattern name =
    let (b, e) =
      loop-Answers (enough name) (start pattern name) (omega (arith, waits-le pattern)) in
    rw e
