-- ===== src/Todo/Resolve/Ready.antt =====
-- A task is ready exactly when none of its blockers holds.
use cfg.Base.{
  All, Bool, Bool-cases, List, [], ap, arith, drop, false, inl, inr, not, refl, some, subst, sym,
  true, ◌++◌, ◌↔◌, ◌∙◌, ◌∷◌, ◌≡◌, ◌⊎◌,
}
use cfg.Text.{Text, codes, has_prefix, has_prefix-append, has_prefix_sound, split, text_lt}
use cfg.Dict.{Dict, has_key, lookup, lookup-insert_self}
use cfg.Todo.Resolve.{
  State, Verdict, activate, no_blocker, read_blocker, read_token, read_tokens, resolve, settle,
}

-- What stands behind b: begins with 20 and is above the time, a text of the form 20060102.150405, or
-- is a task that there is. A date with dashes is not above the time in its own year.
abbrev pub Holds : Text → Dict Bool → Text → Type 0
Holds now taskready d =
    ((has_prefix d (codes "20") ≡ true) × (text_lt now d ≡ true))
    ⊎ ((has_prefix d (codes "#") ≡ true) × (has_key d taskready ≡ true))

-- The token is a blocker that holds.
abbrev pub Blocks : Text → Dict Bool → Text → Type 0
Blocks now taskready token = (d : Text) × (token ≡ codes "b:" ++ d) × Holds now taskready d

-- A date begins with no hash.
date-not-hash : (d : Text) → has_prefix d (codes "20") ≡ true → has_prefix d (codes "#") ≡ false
unfolding has_prefix
date-not-hash [] h = cc
date-not-hash (c ∷ d) h = ground arith

module _ (now : Text) (taskready : Dict Bool) where
  read_blocker-ready :
      (d : Text) (v : Verdict)
      → (read_blocker now taskready d v).ready ≡ true
      → (v.ready ≡ true) × (¬ Holds now taskready d)
  unfolding read_blocker
  read_blocker-ready d v h = (ground arith, λ p. ground (arith, date-not-hash d))

  ready-read_blocker :
      (d : Text) (v : Verdict)
      → v.ready ≡ true
      → ¬ Holds now taskready d
      → (read_blocker now taskready d v).ready ≡ true
  unfolding read_blocker
  ready-read_blocker d v r n = elim (Bool-cases (has_prefix d (codes "20"))) [
    | inl p ↦ elim (Bool-cases (text_lt now d)) [
      | inl q ↦ absurd (n (inl (p, q)))
      | inr q ↦ rw (p, q) r
    ]
    | inr p ↦ elim (Bool-cases (has_prefix d (codes "#"))) [
      | inl q ↦ elim (Bool-cases (has_key d taskready)) [
        | inl k ↦ absurd (n (inr (q, k)))
        | inr k ↦ rw (p, q, k) r
      ]
      | inr q ↦ rw (p, q) (ground arith)
    ]
  ]

  read_token-ready :
      (token : Text) (v : Verdict)
      → ((read_token now taskready token v).ready ≡ true)
        ↔ ((v.ready ≡ true) × (¬ Blocks now taskready token))
  unfolding read_token
  read_token-ready token v = elim (Bool-cases (has_prefix token (codes "b:"))) [
    | inl e ↦ rw e (
      λ h.
          let (r, n) = read_blocker-ready (drop 2 token) (record v { hadblocker = true }) h in
          (r, λ (d, split, hd). n (subst (Holds now taskready) (sym (ap (drop 2) split)) hd)),
      λ (r, n).
          ready-read_blocker (drop 2 token) (record v { hadblocker = true }) r
            (λ hd. n (drop 2 token, prefixed (has_prefix_sound token (codes "b:") e), hd)),
    )
    | inr e ↦ rw e (λ r. (r, λ (d, split, h). never d e split), λ p. p.0)
  ]
    where
      never : (d : Text) → has_prefix token (codes "b:") ≡ false → token ≡ codes "b:" ++ d → ⊥
      never d e split =
          let h : false ≡ true =
            sym e
            ∙ (ap (λ t. has_prefix t (codes "b:")) split ∙ has_prefix-append (codes "b:") d) in
          cc

      prefixed : (r : Text) × (token ≡ codes "b:" ++ r) → token ≡ codes "b:" ++ drop 2 token
      prefixed (r, split) = split ∙ ap (λ t. codes "b:" ++ t) (sym (ap (drop 2) split))

  read_tokens-ready :
      (ts : List Text) (v : Verdict)
      → ((read_tokens now taskready ts v).ready ≡ true)
        ↔ ((v.ready ≡ true) × All (λ t. ¬ Blocks now taskready t) ts)
  unfolding read_tokens
  read_tokens-ready [] v = (λ r. (r, tt), λ p. p.0)
  read_tokens-ready (t ∷ ts) v =
      let one = read_token-ready t v in
      let rest = read_tokens-ready ts (read_token now taskready t v) in
      (
        λ r. ((one.0 (rest.0 r).0).0, ((one.0 (rest.0 r).0).1, (rest.0 r).1)),
        λ (r, ns). rest.1 (one.1 (r, ns.0), ns.1),
      )

pub activate-taskready :
    (tasktitle : Dict Text) (task : Text) (s : State)
    → (activate tasktitle task s).taskready ≡ s.taskready
unfolding activate
activate-taskready tasktitle task s = ground arith

settle-lookup :
    (task : Text) (v : Verdict) (s : State)
    → v.hadblocker ≡ true
    → (lookup task (settle task v s).taskready ≡ some true)
      ↔ ((v.ready ≡ true) × (v.isbacklog ≡ true → s.hadbacklog ≡ false))
unfolding settle
settle-lookup task v s had = ground (
  arith,
  lookup-insert_self task (not s.hadbacklog) s.taskready,
  lookup-insert_self task v.ready s.taskready,
)

-- After its title is read, a task with a blocker is ready exactly when no blocker holds, which is a
-- text that begins with 20 and is, as a text, above the time in the form 20060102.150405, or a known
-- task, and, where it waits in the backlog, no task of the backlog was found ready before.
pub resolve-ready :
    (now : Text) (tasktitle : Dict Text) (task : Text) (tokens : List Text) (s : State)
    → (read_tokens now s.taskready (task ∷ tokens) no_blocker).hadblocker ≡ true
    → (lookup task (resolve now tasktitle (task ∷ tokens) s).taskready ≡ some true) ↔ (
        All (λ t. ¬ Blocks now s.taskready t) (task ∷ tokens)
        × ((read_tokens now s.taskready (task ∷ tokens) no_blocker).isbacklog ≡ true
            → s.hadbacklog ≡ false))
unfolding resolve
resolve-ready now tasktitle task tokens s had =
    let v = read_tokens now s.taskready (task ∷ tokens) no_blocker in
    let (from, to) = settle-lookup task v s had in
    let (free_of, ready_if) = read_tokens-ready now s.taskready (task ∷ tokens) no_blocker in
    rw (activate-taskready tasktitle task (settle task v s))
      (λ h. let (r, b) = from h in ((free_of r).1, b), λ (n, b). to (ready_if (refl, n), b))
