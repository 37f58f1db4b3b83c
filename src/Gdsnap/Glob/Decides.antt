-- ===== src/Gdsnap/Glob/Decides.antt =====
-- The globs whose stars end a path element: the loop decides what they mean.
use cfg.Base.{
  Bool, Bool-cases, List, Option, [], ap, arith, false, inl, inr, none, refl, some, suc, true, zero,
  ℕ, ◌↔◌, ◌∙◌, ◌∷◌, ◌≡◌, ◌≢◌, ◌⊎◌,
}
use cfg.Text.{Text}
use cfg.Gdsnap.Glob.{
  Scan, at_byte, at_end, at_star, count_stars, enough, loop, matchglob, mismatch, only_stars, round,
  skip_stars, slash, star, start,
}
use cfg.Gdsnap.Glob.Meaning.{Matches, byte, empty, leave, take_any, take_one}
use cfg.Gdsnap.Glob.Sound.{matchglob-Matches}
use cfg.Gdsnap.Glob.Total.{loop-matchglob}
use cfg.Gdsnap.Glob.Exact.{HasNoSlash, after_star, loop-byte, loop-dstar, loop-star}

-- A byte, or a star and the slash behind it
pub data Part : Type 0 where
  char : ℕ → Part
  element : Part

-- How the glob ends
pub data Ending : Type 0 where
  nothing one_star two_stars : Ending

abbrev pub ending_of : Ending → Text
ending_of nothing = []
ending_of one_star = star ∷ []
ending_of two_stars = star ∷ star ∷ []

abbrev pub glob_of : List Part → Ending → Text
glob_of [] e = ending_of e
glob_of (char x ∷ ps) e = x ∷ glob_of ps e
glob_of (element ∷ ps) e = star ∷ slash ∷ glob_of ps e

-- No byte of the parts is a star.
abbrev pub ArePlain : List Part → Type 0
ArePlain [] = Unit
ArePlain (char x ∷ ps) = (x ≢ star) × ArePlain ps
ArePlain (element ∷ ps) = ArePlain ps

Matches-nil : {n : Text} → Matches [] n → n ≡ []
Matches-nil empty = refl

Matches-byte :
    {x : ℕ} {p n : Text} → x ≢ star → Matches (x ∷ p) n → (m : Text) × (n ≡ x ∷ m) × Matches p m
Matches-byte ne (byte {s = s} _ m) = (s, refl, m)
Matches-byte ne (leave e m) = absurd (ne e)
Matches-byte ne (take_one e _ m) = absurd (ne e)
Matches-byte ne (take_any e _ m) = absurd (ne e)

-- The first byte of a name that an element and the rest `p` of a glob match
abbrev Steps : Text → Text → Type 0
Steps p n =
    ((m : Text) × (n ≡ slash ∷ m) × Matches p m)
    ⊎ (c : ℕ) × (m : Text) × (n ≡ c ∷ m) × (c ≢ slash) × Matches (star ∷ slash ∷ p) m

Steps-nil : {p : Text} → ¬ Steps p []
Steps-nil (inl (m, same, _)) = cc
Steps-nil (inr (c, m, same, _, _)) = cc

Matches-element : {p n : Text} → Matches (star ∷ slash ∷ p) n → Steps p n
Matches-element (byte ne m) = absurd (ne refl)
Matches-element (leave e m) = inl (Matches-byte (λ e. absurd (omega (arith, e))) m)
Matches-element (take_one {c = c} {s = s} e ne m) = inr (c, s, refl, ne, m)
Matches-element (take_any e f m) = absurd (omega (arith, f))

Matches-one_star : {n : Text} → Matches (star ∷ []) n → HasNoSlash n
Matches-one_star (byte ne m) = absurd (ne refl)
Matches-one_star (leave e m) = rw (Matches-nil m) tt
Matches-one_star (take_one e ne m) = (ne, Matches-one_star m)

-- The loop behind a star whose slash is still to come
abbrev waiting : Text → Text → Scan
waiting p n = record {
  pattern = slash ∷ p;
  name = n;
  last_star = some (slash ∷ p);
  last_dstar = none;
}

loop-element :
    (f : ℕ) (p : Text) (c : ℕ) (n : Text)
    → loop (suc f) (start (star ∷ slash ∷ p) (c ∷ n)) ≡ loop f (waiting p (c ∷ n))
unfolding loop round at_star skip_stars count_stars
loop-element f p c n = refl

loop-waiting_slash :
    (f : ℕ) (p n : Text) → loop (suc f) (waiting p (slash ∷ n)) ≡ loop f (start p n)
unfolding loop round at_byte
loop-waiting_slash f p n = refl

loop-waiting_other :
    (f : ℕ) (p : Text) (c : ℕ) (n : Text)
    → c ≢ slash
    → loop (suc f) (waiting p (c ∷ n)) ≡ loop f (waiting p n)
unfolding loop round at_byte mismatch
loop-waiting_other f p c n ne = ground arith

-- The loop may run out of fuel, and does not refuse.
abbrev Accepts : Option Bool → Type 0
Accepts o = o ≢ some false

Accepts-any : (f : ℕ) (n : Text) → Accepts (loop f (after_star n (some [])))
unfolding loop round at_end only_stars
Accepts-any zero n e = cc
Accepts-any (suc f) [] e = cc
Accepts-any (suc f) (c ∷ n) e = ground (arith, Accepts-any f n)

Accepts-no_slash : (f : ℕ) (n : Text) → HasNoSlash n → Accepts (loop f (after_star n none))
unfolding loop round at_end only_stars
Accepts-no_slash zero n free e = cc
Accepts-no_slash (suc f) [] free e = cc
Accepts-no_slash (suc f) (c ∷ n) free e = ground (arith, Accepts-no_slash f n free.1)

Accepts-nil : (f : ℕ) (p : Text) → only_stars p ≡ true → Accepts (loop f (start p []))
unfolding loop
Accepts-nil zero p h e = cc
Accepts-nil (suc f) p h e = cc

Accepts-ending :
    (e : Ending) (f : ℕ) (n : Text)
    → Matches (ending_of e) n
    → Accepts (loop f (start (ending_of e) n))
unfolding only_stars
Accepts-ending nothing f n m = rw (Matches-nil m) (Accepts-nil f [] refl)
Accepts-ending one_star f [] m = Accepts-nil f (star ∷ []) refl
Accepts-ending one_star zero (c ∷ n) m = unfold loop in λ e. cc
Accepts-ending one_star (suc f) (c ∷ n) m =
    rw (loop-star f c n) (Accepts-no_slash f (c ∷ n) (Matches-one_star m))
Accepts-ending two_stars f [] m = Accepts-nil f (star ∷ star ∷ []) refl
Accepts-ending two_stars zero (c ∷ n) m = unfold loop in λ e. cc
Accepts-ending two_stars (suc f) (c ∷ n) m = rw (loop-dstar f c n) (Accepts-any f (c ∷ n))

Accepts-zero : (s : Scan) → Accepts (loop zero s)
unfolding loop
Accepts-zero s e = cc

mutual
  Accepts-parts :
      (f : ℕ) (ps : List Part) (e : Ending) (n : Text)
      → ArePlain ps
      → Matches (glob_of ps e) n
      → Accepts (loop f (start (glob_of ps e) n))
  Accepts-parts zero ps e n plain m = Accepts-zero (start (glob_of ps e) n)
  Accepts-parts (suc f) [] e n plain m = Accepts-ending e (suc f) n m
  Accepts-parts (suc f) (char x ∷ ps) e n (ne, plain) m =
      let (rest, same, m') = Matches-byte ne m in
      rw same (rw (loop-byte f x (glob_of ps e) ne rest) (Accepts-parts f ps e rest plain m'))
  Accepts-parts (suc f) (element ∷ ps) e [] plain m = absurd (Steps-nil (Matches-element m))
  Accepts-parts (suc f) (element ∷ ps) e (c ∷ n) plain m =
      rw (loop-element f (glob_of ps e) c n)
        (Accepts-waiting f ps e (c ∷ n) plain (Matches-element m))

  Accepts-waiting :
      (f : ℕ) (ps : List Part) (e : Ending) (n : Text)
      → ArePlain ps
      → Steps (glob_of ps e) n
      → Accepts (loop f (waiting (glob_of ps e) n))
  Accepts-waiting zero ps e n plain s = Accepts-zero (waiting (glob_of ps e) n)
  Accepts-waiting (suc f) ps e n plain (inl (rest, same, m)) =
      rw same (rw (loop-waiting_slash f (glob_of ps e) rest) (Accepts-parts f ps e rest plain m))
  Accepts-waiting (suc f) ps e n plain (inr (c, rest, same, ne, m)) = rw same (
      rw (loop-waiting_other f (glob_of ps e) c rest ne)
        (Accepts-waiting f ps e rest plain (Matches-element m)))

-- For a glob in which each star but those at its end is a single one with a slash behind it, and
-- which ends with at most two stars, matchglob accepts exactly the names that match it.
pub matchglob-decides :
    (ps : List Part) (e : Ending) (name : Text)
    → ArePlain ps
    → (matchglob (glob_of ps e) name ≡ true) ↔ Matches (glob_of ps e) name
matchglob-decides ps e name plain = (
  matchglob-Matches (glob_of ps e) name,
  λ m. elim (Bool-cases (matchglob (glob_of ps e) name)) [
    | inl yes' ↦ yes'
    | inr refused ↦ absurd (
        Accepts-parts (enough name) ps e name plain m
          (loop-matchglob (glob_of ps e) name ∙ ap some refused))
  ],
)
