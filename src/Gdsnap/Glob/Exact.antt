-- ===== src/Gdsnap/Glob/Exact.antt =====
-- The globs for which the loop decides matching: no star, or one run of stars at the end.
use cfg.Base.{
  ==_iff, All, Bool, Bool-cases, Option, [], ap, append-cancel, append-nil, arith, false, inl, inr,
  length, none, refl, some, subst, suc, sym, true, zero, ℕ, ◌++◌, ◌+◌, ◌<◌, ◌==◌, ◌↔◌, ◌∙◌, ◌∷◌,
  ◌≡◌, ◌≢◌, ◌⊎◌,
}
use cfg.Text.{Text, split}
use cfg.Gdsnap.Glob.{
  Scan, at_byte, at_end, at_star, count_stars, enough, loop, matchglob, only_stars, round,
  skip_stars, slash, star, start,
}
use cfg.Gdsnap.Glob.Total.{loop-matchglob}

abbrev pub IsLiteral : Text → Type 0
IsLiteral = All (λ x. x ≢ star)

abbrev pub HasNoSlash : Text → Type 0
HasNoSlash = All (λ x. x ≢ slash)

module _ (f x : ℕ) (p : Text) (ne : x ≢ star) where
  pub loop-byte : (n : Text) → loop (suc f) (start (x ∷ p) (x ∷ n)) ≡ loop f (start p n)
  unfolding loop round at_byte
  loop-byte n = ground arith

  loop-differs : (c : ℕ) (n : Text) → c ≢ x → loop (suc f) (start (x ∷ p) (c ∷ n)) ≡ some false
  unfolding loop round at_byte
  loop-differs c n differs = ground arith

  loop-short : loop (suc f) (start (x ∷ p) []) ≡ some false
  unfolding loop only_stars
  loop-short = ground arith

-- What the loop makes of a literal `a` before the rest `r` of the pattern.
record Consumed (a r n : Text) (f : ℕ) : Type 0 where
  rest : Text
  fuel : ℕ
  split_at : n ≡ a ++ rest
  same : loop f (start (a ++ r) n) ≡ loop fuel (start r rest)
  enough_left : length rest + 1 < fuel

record Refused (a r n : Text) (f : ℕ) : Type 0 where
  no_prefix : (m : Text) → n ≢ a ++ m
  fails : loop f (start (a ++ r) n) ≡ some false

-- The loop takes a literal off the name, or fails because the name does not begin with it.
literal_run :
    (a r n : Text) (f : ℕ) → IsLiteral a → length n + 1 < f → Consumed a r n f ⊎ Refused a r n f
literal_run [] r n f lit h =
    inl (record { rest = n; fuel = f; split_at = refl; same = refl; enough_left = h })
literal_run (x ∷ a) r n zero lit h = absurd (omega arith)
literal_run (x ∷ a) r [] (suc f) lit h =
    inr (record { no_prefix = λ m e. cc; fails = loop-short f x (a ++ r) lit.0 })
literal_run (x ∷ a) r (c ∷ n) (suc f) lit h = elim (Bool-cases (c == x)) [
  | inl e ↦ rw ((==_iff c x).0 e) (onward (literal_run a r n f lit.1 (omega arith)))
  | inr e ↦ inr (record {
    no_prefix = λ m g. ground arith;
    fails = loop-differs f x (a ++ r) lit.0 c n (λ g. ground arith);
  })
]
  where
    onward :
        Consumed a r n f ⊎ Refused a r n f
        → Consumed (x ∷ a) r (x ∷ n) (suc f) ⊎ Refused (x ∷ a) r (x ∷ n) (suc f)
    onward (inl k) = inl (record {
      rest = k.rest;
      fuel = k.fuel;
      split_at = ap (λ t. x ∷ t) k.split_at;
      same = loop-byte f x (a ++ r) lit.0 n ∙ k.same;
      enough_left = k.enough_left;
    })
    onward (inr k) = inr (record {
      no_prefix = λ m g. k.no_prefix m (cc);
      fails = loop-byte f x (a ++ r) lit.0 n ∙ k.fails;
    })

-- The end of the pattern with nothing to go back to.
loop-end : (f c : ℕ) (n : Text) → loop (suc f) (start [] (c ∷ n)) ≡ some false
unfolding loop round at_end
loop-end f c n = ground arith

abbrev pub after_star : Text → Option Text → Scan
after_star n d = record { pattern = []; name = n; last_star = some []; last_dstar = d }

-- The end of the pattern behind a `**`: any rest is taken.
loop-any : (f : ℕ) (n : Text) → length n < f → loop f (after_star n (some [])) ≡ some true
unfolding loop round at_end only_stars
loop-any zero n h = absurd (omega arith)
loop-any (suc f) [] h = refl
loop-any (suc f) (c ∷ n) h = ground (arith, loop-any f n)

-- The end of the pattern behind a `*`: a rest without a slash is taken.
loop-no_slash :
    (f : ℕ) (n : Text) → length n < f → HasNoSlash n → loop f (after_star n none) ≡ some true
unfolding loop round at_end only_stars
loop-no_slash zero n h free = absurd (omega arith)
loop-no_slash (suc f) [] h free = refl
loop-no_slash (suc f) (c ∷ n) h free = ground (arith, loop-no_slash f n)

loop-slash : (f : ℕ) (n : Text) → loop f (after_star n none) ≡ some true → HasNoSlash n
unfolding loop round at_end only_stars
loop-slash zero n e = cc
loop-slash (suc f) [] e = tt
loop-slash (suc f) (c ∷ n) e = elim (Bool-cases (c == slash)) [
  | inl s ↦ absurd (ground arith)
  | inr s ↦ (λ g. ground arith, loop-slash f n (ground arith))
]

pub loop-star :
    (f c : ℕ) (n : Text)
    → loop (suc f) (start (star ∷ []) (c ∷ n)) ≡ loop f (after_star (c ∷ n) none)
unfolding loop round at_star skip_stars count_stars
loop-star f c n = refl

pub loop-dstar :
    (f c : ℕ) (n : Text)
    → loop (suc f) (start (star ∷ star ∷ []) (c ∷ n)) ≡ loop f (after_star (c ∷ n) (some []))
unfolding loop round at_star skip_stars count_stars
loop-dstar f c n = refl

dstar_tail : (f : ℕ) (m : Text) → length m + 1 < f → loop f (start (star ∷ star ∷ []) m) ≡ some true
unfolding loop only_stars
dstar_tail zero m h = absurd (omega arith)
dstar_tail (suc f) [] h = refl
dstar_tail (suc f) (c ∷ m) h = loop-dstar f c m ∙ loop-any f (c ∷ m) (omega arith)

literal_tail : (f : ℕ) (m : Text) → length m + 1 < f → (loop f (start [] m) ≡ some true) ↔ (m ≡ [])
unfolding loop only_stars
literal_tail zero m h = absurd (omega arith)
literal_tail (suc f) [] h = (λ _. refl, λ _. refl)
literal_tail (suc f) (c ∷ m) h = (λ e. cc (loop-end f c m), λ e. cc)

star_tail :
    (f : ℕ) (m : Text)
    → length m + 1 < f
    → (loop f (start (star ∷ []) m) ≡ some true) ↔ HasNoSlash m
unfolding loop only_stars
star_tail zero m h = absurd (omega arith)
star_tail (suc f) [] h = (λ _. tt, λ _. refl)
star_tail (suc f) (c ∷ m) h = (
  λ e. loop-slash f (c ∷ m) (sym (loop-star f c m) ∙ e),
  λ free. loop-star f c m ∙ loop-no_slash f (c ∷ m) (omega arith) free,
)

-- A literal and a tail that accepts `T`: the loop accepts what the literal begins and `T` ends.
module _ (a r : Text) (lit : IsLiteral a) (T : Text → Type 0)
    (tail : (f : ℕ) (m : Text) → length m + 1 < f → (loop f (start r m) ≡ some true) ↔ T m) where
  accepts : (name : Text) → matchglob (a ++ r) name ≡ true → (m : Text) × (name ≡ a ++ m) × T m
  accepts name e = elim (literal_run a r name (enough name) lit (omega arith)) [
    | inl k ↦ (
      k.rest,
      k.split_at,
      (tail k.fuel k.rest k.enough_left).0
          (sym k.same ∙ (loop-matchglob (a ++ r) name ∙ ap some e)),
    )
    | inr k ↦ absurd (clash (loop-matchglob (a ++ r) name) k.fails e)
  ]
    where
      clash : {o : Option Bool} {b : Bool} → o ≡ some b → o ≡ some false → b ≡ true → ⊥
      clash p q h = cc

  accepted : (m : Text) → T m → matchglob (a ++ r) (a ++ m) ≡ true
  accepted m t = elim (literal_run a r (a ++ m) (enough (a ++ m)) lit (omega arith)) [
    | inl k ↦
        answer (loop-matchglob (a ++ r) (a ++ m)) k.same
          ((tail k.fuel k.rest k.enough_left).1 (subst T (append-cancel a k.split_at) t))
    | inr k ↦ absurd (k.no_prefix m refl)
  ]
    where
      answer : {o o' : Option Bool} {b : Bool} → o ≡ some b → o ≡ o' → o' ≡ some true → b ≡ true
      answer p q h = cc

  decides : (name : Text) → (matchglob (a ++ r) name ≡ true) ↔ ((m : Text) × (name ≡ a ++ m) × T m)
  decides name = (accepts name, λ (m, e, t). rw e (accepted m t))

-- A glob without stars accepts itself alone.
pub matchglob-literal : (a name : Text) → IsLiteral a → (matchglob a name ≡ true) ↔ (name ≡ a)
matchglob-literal a name lit =
    let (from, to) = decides a [] lit (λ m. m ≡ []) literal_tail name in
    (
      λ e.
          let (m, split, nothing) = from (rw append-nil e) in
          split ∙ (ap (λ t. a ++ t) nothing ∙ append-nil a),
      λ e.
          subst (λ p. matchglob p name ≡ true) (append-nil a)
            (to ([], e ∙ sym (append-nil a), refl)),
    )

-- A literal and `*` accept the names that add to the literal a text without a slash.
pub matchglob-star :
    (a name : Text)
    → IsLiteral a
    → (matchglob (a ++ star ∷ []) name ≡ true) ↔ ((m : Text) × (name ≡ a ++ m) × HasNoSlash m)
matchglob-star a name lit = decides a (star ∷ []) lit HasNoSlash star_tail name

-- A literal and `**` accept the names that begin with the literal.
pub matchglob-dstar :
    (a name : Text)
    → IsLiteral a
    → (matchglob (a ++ star ∷ star ∷ []) name ≡ true) ↔ ((m : Text) × (name ≡ a ++ m))
matchglob-dstar a name lit =
    let (from, to) =
      decides a (star ∷ star ∷ []) lit (λ m. Unit {0}) (λ f m h. (λ _. tt, λ _. dstar_tail f m h))
        name in
    (λ e. let (m, split, _) = from e in (m, split), λ (m, split). to (m, split, tt))
