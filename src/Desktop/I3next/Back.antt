-- ===== src/Desktop/I3next/Back.antt =====
-- Going to the next window and back.
use native.Mathlib.Nat.{add-mod_right, mod-add-mod, mod-eq_of_lt, mod-lt}
use cfg.Base.{
  Bool-cases, List, Option-cases, [], ap, arith, false, inl, inr, leb, length, none, some, suc, sym,
  true, zero, ℕ, ◌%◌, ◌+◌, ◌-◌, ◌<◌, ◌==◌, ◌∙◌, ◌∷◌, ◌≡◌, ◌≢◌,
}
use cfg.Desktop.I3next.{focus, not_found, nothing, nth, position, step}

-- No window stands twice in the list.
abbrev pub IsDistinct : List ℕ → Type 0
IsDistinct [] = Unit
IsDistinct (w ∷ ws) = (position w ws ≡ none) × IsDistinct ws

position-bound :
    (x : ℕ) (ws : List ℕ) {i : ℕ} → position x ws ≡ some i → (i < length ws) × (nth i ws ≡ x)
unfolding position nth
position-bound x [] h = cc
position-bound x (w ∷ ws) {i} h = elim (Bool-cases (w == x)) [
  | inl e ↦ ground arith
  | inr e ↦ elim (Option-cases (position x ws)) [
    | inl n ↦ ground arith
    | inr (j, p) ↦ ground (arith, position-bound x ws p)
  ]
]

nth-found : (i : ℕ) (ws : List ℕ) → i < length ws → position (nth i ws) ws ≢ none
unfolding position nth
nth-found i [] h e = absurd (omega arith)
nth-found zero (w ∷ ws) h e = ground arith
nth-found (suc i) (w ∷ ws) h e = ground (arith, nth-found i ws)

position-nth :
    (i : ℕ) (ws : List ℕ) → IsDistinct ws → i < length ws → position (nth i ws) ws ≡ some i
unfolding position nth
position-nth i [] d h = absurd (omega arith)
position-nth zero (w ∷ ws) d h = ground arith
position-nth (suc i) (w ∷ ws) d h = elim (Bool-cases (w == nth i ws)) [
  | inl e ↦ absurd (nth-found i ws (omega arith) (ap (λ x. position x ws) (sym (same e)) ∙ d.0))
  | inr e ↦ rw (e, position-nth i ws d.1 (omega arith))
]
  where
    same : (w == nth i ws) ≡ true → w ≡ nth i ws
    same e = ground arith

-- A step forward and one backward around a circle of n.
around : (i n : ℕ) → i < n → ((i + 1) % n + (n - 1)) % n ≡ i
around i n h =
    mod-add-mod (i + 1) n (n - 1)
    ∙ (ap (λ k. k % n) one_round ∙ (add-mod_right i n ∙ mod-eq_of_lt h))
  where
    one_round : i + 1 + (n - 1) ≡ i + n
    one_round = omega arith

-- Where the windows are distinct, focusing the next window and then the previous one comes back to
-- the window that was focused.
pub step_back :
    (ws : List ℕ) (f g : ℕ)
    → IsDistinct ws
    → step false (some f, ws) ≡ focus g
    → step true (some g, ws) ≡ focus f
unfolding step
step_back ws f g d h = elim (Bool-cases (leb (length ws) 1)) [
  | inl e ↦ absurd (never (rw e at h))
  | inr e ↦ elim (Option-cases (position f ws)) [
    | inl p ↦ absurd (lost (rw (e, p) at h))
    | inr (i, p) ↦
        let (bound, here) = position-bound f ws p in
        let there : nth ((i + 1) % length ws) ws ≡ g = reached (rw (e, p) at h) in
        let back : position g ws ≡ some ((i + 1) % length ws) =
          ap (λ x. position x ws) (sym there)
          ∙ position-nth ((i + 1) % length ws) ws d (mod-lt (i + 1) (omega arith)) in
        rw (e, back, around i (length ws) bound, here)
  ]
]
  where
    never : nothing ≡ focus g → ⊥
    never e = cc

    lost : not_found ≡ focus g → ⊥
    lost e = cc

    reached : {x : ℕ} → focus x ≡ focus g → x ≡ g
    reached e = cc
