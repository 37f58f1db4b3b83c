-- ===== src/Bm/Server/Stale.antt =====
-- utils/bm.go: the request that makes room for another, and how often requests wait and are answered.
use mathlib.Core.Option.{some_inj}
use cfg.Base.{
  All, Bool, Bool-cases, List, Option, Option-cases, [], ap, arith, false, if◌then◌else◌, inl, inr,
  length, none, refl, some, subst, suc, sym, true, ℕ, ◌++◌, ◌+◌, ◌==◌, ◌∙◌, ◌∷◌, ◌≡◌,
}
use cfg.Text.{Text}
use cfg.Bm.Server.{Reply, Request, replace_stale, send_all}

-- What the loop over the waiting requests comes to: one of them makes room.
pub data Replaced (gone : Request → Bool) (req : Request)
    : List Request → List Request → Request → Type 0 where
  here : (r : Request) (rs : List Request) → gone r ≡ true → Replaced gone req (r ∷ rs) (req ∷ rs) r
  later :
      (r : Request) (rs rest : List Request) (old : Request)
      → Replaced gone req rs rest old
      → Replaced gone req (r ∷ rs) (r ∷ rest) old

pub replace_stale-gone :
    (gone : Request → Bool) (req r : Request) (rs : List Request)
    → gone r ≡ true
    → replace_stale gone req (r ∷ rs) ≡ some (req ∷ rs, r)
unfolding replace_stale
replace_stale-gone gone req r rs g = elim (Option-cases (replace_stale gone req rs)) [
  | inl q ↦ rw (q, g)
  | inr (p, q) ↦ rw (q, g)
]

pub replace_stale-kept :
    (gone : Request → Bool) (req r : Request) (rs : List Request)
    → gone r ≡ false
    → replace_stale gone req (r ∷ rs)
      ≡ elim (replace_stale gone req rs) as (λ k. Option (List Request × Request)) [
        | none ↦ none
        | some p ↦ some (r ∷ p.0, p.1)
      ]
unfolding replace_stale
replace_stale-kept gone req r rs g = elim (Option-cases (replace_stale gone req rs)) [
  | inl q ↦ rw (q, g)
  | inr (p, q) ↦ rw (q, g)
]

pub replace_stale-Replaced :
    (gone : Request → Bool) (req : Request) (rs rest : List Request) (old : Request)
    → replace_stale gone req rs ≡ some (rest, old)
    → Replaced gone req rs rest old
unfolding replace_stale
replace_stale-Replaced gone req [] rest old e = cc
replace_stale-Replaced gone req (r ∷ rs) rest old e = elim (Bool-cases (gone r)) [
  | inl g ↦ first_gone g (some_inj.0 (sym (replace_stale-gone gone req r rs g) ∙ e))
  | inr g ↦
      onward g (replace_stale gone req rs)
        (λ rest' old' q. replace_stale-Replaced gone req rs rest' old' q)
        (sym (replace_stale-kept gone req r rs g) ∙ e)
]
  where
    first_gone :
        (g : gone r ≡ true)
        → ◌≡◌ {A = List Request × Request} (req ∷ rs, r) (rest, old)
        → Replaced gone req (r ∷ rs) rest old
    first_gone g k = subst (λ p. Replaced gone req (r ∷ rs) p.0 p.1) k (here r rs g)

    onward :
        (g : gone r ≡ false) (o : Option (List Request × Request))
        → ((rest' : List Request) (old' : Request)
            → ◌≡◌ {A = Option (List Request × Request)} o (some (rest', old'))
            → Replaced gone req rs rest' old')
        → elim o as (λ k. Option (List Request × Request)) [
          | none ↦ none
          | some p ↦ some (r ∷ p.0, p.1)
        ]
          ≡ some (rest, old)
        → Replaced gone req (r ∷ rs) rest old
    onward g none q k = absurd (cc)
    onward g (some p) q k =
        subst (λ p'. Replaced gone req (r ∷ rs) p'.0 p'.1) (some_inj.0 k)
          (later r rs p.0 p.1 (q p.0 p.1 refl))

pub Replaced-length :
    (gone : Request → Bool) (req : Request) (rs rest : List Request) (old : Request)
    → Replaced gone req rs rest old
    → length rest ≡ length rs
Replaced-length gone req _ _ _ (here r rs g) = refl
Replaced-length gone req _ _ _ (later r rs rest old h) =
    ap suc (Replaced-length gone req rs rest old h)

pub Replaced-All :
    (P : Request → Type 0) (gone : Request → Bool) (req : Request) (rs rest : List Request)
    (old : Request)
    → Replaced gone req rs rest old
    → P req
    → All P rs
    → All P rest
Replaced-All P gone req _ _ _ (here r rs g) q (a, h) = (q, h)
Replaced-All P gone req _ _ _ (later r rs rest old k) q (a, h) =
    (a, Replaced-All P gone req rs rest old k q h)

-- How often a request waits, and how often it is answered
unfoldable pub times_in : ℕ → List Request → ℕ
times_in i [] = 0
times_in i (r ∷ rs) = (if r.id == i then 1 else 0) + times_in i rs

unfoldable pub times_answered : ℕ → List Reply → ℕ
times_answered i [] = 0
times_answered i (r ∷ rs) = (if r.to.id == i then 1 else 0) + times_answered i rs

pub Replaced-times :
    (i : ℕ) (gone : Request → Bool) (req : Request) (rs rest : List Request) (old : Request)
    → Replaced gone req rs rest old
    → times_in i rest + times_in i (old ∷ []) ≡ times_in i rs + times_in i (req ∷ [])
unfolding times_in
Replaced-times i gone req _ _ _ (here r rs g) = omega arith
Replaced-times i gone req _ _ _ (later r rs rest old h) =
    omega (arith, Replaced-times i gone req rs rest old h)

pub times_in-append :
    (i : ℕ) (rs qs : List Request) → times_in i (rs ++ qs) ≡ times_in i rs + times_in i qs
unfolding times_in
times_in-append i [] qs = omega arith
times_in-append i (r ∷ rs) qs = omega (arith, times_in-append i rs qs)

pub times_answered-append :
    (i : ℕ) (rs qs : List Reply)
    → times_answered i (rs ++ qs) ≡ times_answered i rs + times_answered i qs
unfolding times_answered
times_answered-append i [] qs = omega arith
times_answered-append i (r ∷ rs) qs = omega (arith, times_answered-append i rs qs)

pub times_answered-send_all :
    (i stamp : ℕ) (content : Text) (rs : List Request)
    → times_answered i (send_all stamp content rs) ≡ times_in i rs
unfolding times_answered times_in
times_answered-send_all i stamp content [] = refl
times_answered-send_all i stamp content (r ∷ rs) =
    omega (arith, times_answered-send_all i stamp content rs)
