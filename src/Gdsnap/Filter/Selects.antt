-- ===== src/Gdsnap/Filter/Selects.antt =====
-- filterfiles gives the archived files that match, in order, and no other.
use cfg.Base.{
  &&-eq-true, Bool, Bool-cases, List, Option, [], ap, arith, inl, inr, keep, map, refl, sym, true,
  ◌&&◌, ◌↔◌, ◌∙◌, ◌∷◌, ◌≡◌, ◌⊎◌,
}
use cfg.Text.{Text, text_eq, text_eq_iff, text_eq_refl}
use cfg.Text.Sort.{IsSorted, member, member-sort, sort-IsSorted}
use cfg.Dict.{Dict, has_key, keys, lookup}
use cfg.Gdsnap.Glob.{matchglob}
use cfg.Gdsnap.Glob.Meaning.{Matches}
use cfg.Gdsnap.Glob.Sound.{matchglob-Matches}
use cfg.Gdsnap.State.{FileInfo}
use cfg.Gdsnap.Filter.{filterfiles, full_glob, fullglobs, match_any, selected}

member-keep :
    (k : Text) (p : Text → Bool) (ss : List Text) → member k (keep p ss) ≡ (member k ss && p k)
unfolding member
member-keep k p [] = refl
member-keep k p (s ∷ ss) = elim (Bool-cases (text_eq s k)) [
  | inl e ↦ rw ((text_eq_iff s k).0 e) (ground (arith, member-keep k p ss, text_eq_refl k))
  | inr e ↦ ground (arith, member-keep k p ss)
]

member-keys {ℓ} : {V : Type ℓ} (k : Text) (m : Dict V) → member k (keys m) ≡ has_key k m
unfolding member keys has_key lookup
member-keys k [] = refl
member-keys k ((j, v) ∷ m) = ground (arith, member-keys k m)

member-filterfiles :
    (relative : Option Text) (files : Dict FileInfo) (args : List Text) (k : Text)
    → member k (filterfiles relative files args)
      ≡ (has_key k files && selected (fullglobs relative args) k)
unfolding filterfiles
member-filterfiles relative files args k =
    let chosen : List Text = keep (selected (fullglobs relative args)) (keys files) in
    member-sort k chosen
    ∙ (member-keep k (selected (fullglobs relative args)) (keys files)
        ∙ ap (λ b. b && selected (fullglobs relative args) k) (member-keys k files))

-- One of the arguments has a full glob that matchglob accepts for the file, or there are none.
abbrev pub IsAsked : Option Text → List Text → Text → Type 0
IsAsked relative args k =
    (args ≡ [])
    ⊎ ((a : Text) × (member a args ≡ true) × (matchglob (full_glob relative a) k ≡ true))

match_any-asked :
    (relative : Option Text) (args : List Text) (k : Text)
    → match_any (map (full_glob relative) args) k ≡ true
    → (a : Text) × (member a args ≡ true) × (matchglob (full_glob relative a) k ≡ true)
unfolding match_any member
match_any-asked relative [] k h = cc
match_any-asked relative (a ∷ args) k h = elim (Bool-cases (matchglob (full_glob relative a) k)) [
  | inl e ↦ (a, rw (text_eq_refl a) refl, e)
  | inr e ↦
      let (b, among, accepts) = match_any-asked relative args k (rw e at h) in
      (b, ground arith, accepts)
]

asked-match_any :
    (relative : Option Text) (a : Text) (args : List Text) (k : Text)
    → member a args ≡ true
    → matchglob (full_glob relative a) k ≡ true
    → match_any (map (full_glob relative) args) k ≡ true
unfolding match_any member
asked-match_any relative a [] k among accepts = cc
asked-match_any relative a (b ∷ args) k among accepts = elim (Bool-cases (text_eq b a)) [
  | inl e ↦ rw ((text_eq_iff b a).0 e, accepts) refl
  | inr e ↦
      let rest = asked-match_any relative a args k (ground (arith, among, e)) accepts in
      ground (arith, rest)
]

selected_iff :
    (relative : Option Text) (args : List Text) (k : Text)
    → (selected (fullglobs relative args) k ≡ true) ↔ IsAsked relative args k
unfolding fullglobs
selected_iff relative [] k = (λ h. inl refl, λ h. refl)
selected_iff relative (a ∷ args) k = (
  λ h. inr (match_any-asked relative (a ∷ args) k h),
  λ h. elim h [
    | inl e ↦ absurd (cc)
    | inr (b, among, accepts) ↦ asked-match_any relative b (a ∷ args) k among accepts
  ],
)

-- A file is among the results exactly when it is in the archive and there are no arguments or
-- matchglob accepts it for the full glob of one of them, and the results are sorted.
pub filterfiles-selects :
    (relative : Option Text) (files : Dict FileInfo) (args : List Text) (k : Text)
    → ((member k (filterfiles relative files args) ≡ true)
        ↔ ((has_key k files ≡ true) × IsAsked relative args k))
      × IsSorted (filterfiles relative files args)
unfolding filterfiles
filterfiles-selects relative files args k =
    let (from, to) = selected_iff relative args k in
    (
      (
        λ h.
            let (held, chosen) =
              &&-eq-true _ _ (sym (member-filterfiles relative files args k) ∙ h) in
            (held, from chosen),
        λ (held, asked). member-filterfiles relative files args k ∙ rw (held, to asked) refl,
      ),
      sort-IsSorted (keep (selected (fullglobs relative args)) (keys files)),
    )

abbrev pub SomeMatches : List Text → Text → Type 0
SomeMatches [] f = ⊥
SomeMatches (glob ∷ globs) f = Matches glob f ⊎ SomeMatches globs f

match_any-SomeMatches :
    (globs : List Text) (f : Text) → match_any globs f ≡ true → SomeMatches globs f
unfolding match_any
match_any-SomeMatches [] f h = cc
match_any-SomeMatches (glob ∷ globs) f h = elim (Bool-cases (matchglob glob f)) [
  | inl e ↦ inl (matchglob-Matches glob f e)
  | inr e ↦ inr (match_any-SomeMatches globs f (rw e at h))
]

-- A command that is given globs works only on archived files that match one of them.
pub filterfiles-SomeMatches :
    (relative : Option Text) (files : Dict FileInfo) (a : Text) (args : List Text) (k : Text)
    → member k (filterfiles relative files (a ∷ args)) ≡ true
    → (has_key k files ≡ true) × SomeMatches (fullglobs relative (a ∷ args)) k
unfolding fullglobs
filterfiles-SomeMatches relative files a args k h =
    let found : (has_key k files ≡ true) × (selected (fullglobs relative (a ∷ args)) k ≡ true) =
      &&-eq-true _ _ (sym (member-filterfiles relative files (a ∷ args) k) ∙ h) in
    (found.0, match_any-SomeMatches (fullglobs relative (a ∷ args)) k found.1)
