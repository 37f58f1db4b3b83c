-- ===== src/Gdsnap/Glob/Sound.antt =====
-- The loop ends within its fuel, and a name that it accepts does match.
use cfg.Base.{
  ==_iff, Bool, Bool-cases, Option, [], ap, arith, false, if_split, if◌then◌else◌, inl, inr, leb,
  leb→le, none, refl, some, suc, true, zero, ℕ, ◌==◌, ◌∷◌, ◌≡◌, ◌≢◌, ◌≤◌,
}
use cfg.Text.{Text}
use cfg.Gdsnap.Glob.{
  Round, Scan, answered, at_byte, at_end, at_star, body, continue, count_stars, enough, loop,
  matchglob, mismatch, resume_dstar, return, round, slash, star, start,
}
use cfg.Gdsnap.Glob.Meaning.{Matches, byte, leave, take_any, take_one}
use cfg.Gdsnap.Glob.Stars.{
  count_stars-pos, one_star-Matches, only_stars-Matches, skip_stars-Matches, two_stars-Matches,
}

-- The question asked at the start is `G`: what the loop's variables say of it.
module _ (G : Type 0) where
  abbrev StarOk : Text → Option Text → Type 0
  StarOk n none = Unit
  StarOk n (some q) = Matches (star ∷ q) n → G

  abbrev DstarOk : Text → Option Text → Type 0
  DstarOk n none = Unit
  DstarOk n (some d) = Matches (star ∷ star ∷ d) n → G

  record Inv (s : Scan) : Type 0 where
    now : Matches s.pattern s.name → G
    starred : StarOk s.name s.last_star
    dstarred : DstarOk s.name s.last_dstar

  abbrev RoundOk : Round → Type 0
  RoundOk (return b) = b ≡ true → G
  RoundOk (continue s) = Inv s

  DstarOk-byte : (c : ℕ) (n : Text) (d : Option Text) → DstarOk (c ∷ n) d → DstarOk n d
  DstarOk-byte c n none h = tt
  DstarOk-byte c n (some d) h = λ m. h (take_any refl refl m)

  StarOk-byte : (c : ℕ) (n : Text) (q : Option Text) → c ≢ slash → StarOk (c ∷ n) q → StarOk n q
  StarOk-byte c n none ne h = tt
  StarOk-byte c n (some q) ne h = λ m. h (take_one refl ne m)

  resume_star-Ok :
      (c : ℕ) (n q : Text) (d : Option Text)
      → c ≢ slash
      → StarOk (c ∷ n) (some q)
      → DstarOk (c ∷ n) d
      → Inv (record { pattern = q; name = n; last_star = some q; last_dstar = d })
  resume_star-Ok c n q d ne h k = record {
    now = λ m. h (take_one refl ne (leave refl m));
    starred = λ m. h (take_one refl ne m);
    dstarred = DstarOk-byte c n d k;
  }

  resume_dstar-Ok : (c : ℕ) (n d : Text) → DstarOk (c ∷ n) (some d) → RoundOk (resume_dstar d n)
  resume_dstar-Ok c n d h = record {
    now = λ m. h (take_any refl refl (leave refl (leave refl m)));
    starred = λ m. h (take_any refl refl (leave refl m));
    dstarred = λ m. h (take_any refl refl m);
  }

  at_end-Ok :
      (c : ℕ) (n : Text) (q d : Option Text)
      → StarOk (c ∷ n) q
      → DstarOk (c ∷ n) d
      → RoundOk (at_end c n q d)
  unfolding at_end
  at_end-Ok c n q d h k = elim (Bool-cases (c == slash)) [
    | inl e ↦ rw e (at_slash d k)
    | inr e ↦ rw e (at_other e q h)
  ]
    where
      at_slash :
          (d : Option Text)
          → DstarOk (c ∷ n) d
          → RoundOk (elim d [ some d' ↦ resume_dstar d' n | none ↦ return false ])
      at_slash none k = λ e. cc
      at_slash (some d) k = resume_dstar-Ok c n d k

      at_other :
          c == slash ≡ false
          → (q : Option Text) → StarOk (c ∷ n) q
          → RoundOk (elim q [
            | some q' ↦
                continue (record { pattern = q'; name = n; last_star = some q'; last_dstar = d })
            | none ↦ return false
          ])
      at_other _ none h = λ e. cc
      at_other other (some q) h = resume_star-Ok c n q d (λ f. ground arith) h k

  mismatch-Ok :
      (c : ℕ) (n : Text) (q d : Option Text)
      → (c ≡ slash → q ≡ none)
      → StarOk (c ∷ n) q
      → DstarOk (c ∷ n) d
      → RoundOk (mismatch n q d)
  unfolding mismatch
  mismatch-Ok c n (some q) d ne h k = resume_star-Ok c n q d (λ e. ground (arith, ne e)) h k
  mismatch-Ok c n none (some d) ne h k = resume_dstar-Ok c n d k
  mismatch-Ok c n none none ne h k = λ e. cc

  at_star-Ok :
      (p : Text) (c : ℕ) (n : Text) (d : Option Text)
      → 1 ≤ count_stars p
      → (Matches p (c ∷ n) → G)
      → DstarOk (c ∷ n) d
      → RoundOk (at_star p c n d)
  unfolding at_star
  at_star-Ok p c n d some_star now k = record {
    now = λ m. now (skip_stars-Matches p (c ∷ n) m);
    starred = λ m. now (one_star-Matches p (c ∷ n) some_star m);
    dstarred = elim (Bool-cases (leb 2 (count_stars p))) [
      | inl e ↦ rw e (λ m. now (two_stars-Matches p (c ∷ n) (leb→le _ _ e) m))
      | inr e ↦ rw e k
    ];
  }

  -- A slash ends what a single star can take.
  kept-Ok :
      (c : ℕ) (n : Text) (q : Option Text)
      → StarOk (c ∷ n) q
      → (kept : Option Text) → kept ≡ (if c == slash then none else q)
      → (c ≡ slash → kept ≡ none) × StarOk (c ∷ n) kept
  kept-Ok c n q h kept e = elim (Bool-cases (c == slash)) [
    | inl f ↦ rw (e, f) (λ _. refl, tt)
    | inr f ↦ rw (e, f) (λ g. absurd (ground arith), h)
  ]

  kept-byte :
      (c : ℕ) (n : Text) (kept : Option Text)
      → (c ≡ slash → kept ≡ none)
      → StarOk (c ∷ n) kept
      → StarOk n kept
  kept-byte c n none ne h = tt
  kept-byte c n (some q) ne h = StarOk-byte c n (some q) (λ e. ground (arith, ne e)) h

  at_byte-Ok :
      (x : ℕ) (p : Text) (c : ℕ) (n : Text) (q d : Option Text)
      → x ≢ star
      → (Matches (x ∷ p) (c ∷ n) → G)
      → StarOk (c ∷ n) q
      → DstarOk (c ∷ n) d
      → RoundOk (at_byte x p c n q d)
  unfolding at_byte
  at_byte-Ok x p c n q d ne now h k =
      let kept : Option Text = if c == slash then none else q in
      let (cleared, ok) = kept-Ok c n q h kept refl in
      if_split RoundOk (c == x)
        (λ e. record {
          now = λ m. now (rw ((==_iff c x).0 e) (byte ne m));
          starred = kept-byte c n kept cleared ok;
          dstarred = DstarOk-byte c n d k;
        })
        (λ e. mismatch-Ok c n kept d cleared ok k)

  round-Ok :
      (p : Text) (c : ℕ) (n : Text) (q d : Option Text)
      → (Matches p (c ∷ n) → G)
      → StarOk (c ∷ n) q
      → DstarOk (c ∷ n) d
      → RoundOk (round p c n q d)
  unfolding round
  round-Ok [] c n q d now h k = at_end-Ok c n q d h k
  round-Ok (x ∷ p) c n q d now h k =
      if_split RoundOk (x == star) (λ e. at_star-Ok (x ∷ p) c n d (count_stars-pos x p e) now k)
        (λ e. at_byte-Ok x p c n q d (λ f. ground arith) now h k)

  -- What a round hands to `next`, a sound rest of the loop.
  after-sound :
      (next : Scan → Option Bool)
      → ((s : Scan) → Inv s → next s ≡ some true → G)
      → (r : Round) → RoundOk r
      → elim r [ return b ↦ some b | continue s ↦ next s ] ≡ some true
      → G
  after-sound next ih (return b) ok h = ok (ground arith)
  after-sound next ih (continue s) ok h = ih s ok h

  body-sound :
      (next : Scan → Option Bool)
      → ((s : Scan) → Inv s → next s ≡ some true → G)
      → (p n : Text) (q d : Option Text) → (Matches p n → G)
      → StarOk n q
      → DstarOk n d
      → body next p n q d ≡ some true
      → G
  body-sound next ih p [] q d now h k e = now (only_stars-Matches p (ground arith))
  body-sound next ih p (c ∷ n) q d now h k e =
      after-sound next ih (round p c n q d) (round-Ok p c n q d now h k) e

  loop-sound : (f : ℕ) (s : Scan) → Inv s → loop f s ≡ some true → G
  unfolding loop
  loop-sound zero s i h = cc
  loop-sound (suc f) s i h =
      body-sound (loop f) (loop-sound f) s.pattern s.name s.last_star s.last_dstar i.now i.starred
        i.dstarred h

-- A name that `matchglob` accepts matches the pattern.
pub matchglob-Matches : (pattern name : Text) → matchglob pattern name ≡ true → Matches pattern name
unfolding matchglob
matchglob-Matches pattern name h =
    loop-sound (Matches pattern name) (enough name) (start pattern name)
      (record { now = λ m. m; starred = tt; dstarred = tt })
      (answered-true (loop (enough name) (start pattern name)) h)
  where
    answered-true : (o : Option Bool) → answered o ≡ true → o ≡ some true
    answered-true none h = cc
    answered-true (some b) h = ap some h
