-- ===== src/Gdsnap/Config/TimeFlag.antt =====
-- gdsnap/gdsnap.go, Run: a prefix of a time is completed to a whole time in UTC.
use cfg.Base.{
  Bool-cases, String, [], ap, append-nil, append_assoc, arith, drop, if◌then◌else◌, inl, inr,
  length, length-append, refl, ℕ, ◌++◌, ◌+◌, ◌-◌, ◌==◌, ◌∙◌, ◌≡◌, ◌≢◌, ◌⊎◌,
}
use cfg.Text.{Text, codes}

-- `if len(*tFlag) == n { *tFlag += more }`
unfoldable pub complete_at : ℕ → String → Text → Text
complete_at n more t = if length t == n then t ++ codes more else t

-- The seven steps, by which 2022 becomes 2022-01-01T00:00:00.000Z.
unfoldable pub complete_time : Text → Text
unfolding complete_at
complete_time t = complete_at 23 "Z" (
    complete_at 19 ".000" (
      complete_at 16 ":00" (
        complete_at 13 ":00" (complete_at 10 "T00" (complete_at 7 "-01" (complete_at 4 "-01" t))))))

complete_at-prefix :
    (n : ℕ) (more : String) (t : Text) → (r : Text) × (complete_at n more t ≡ t ++ r)
unfolding complete_at
complete_at-prefix n more t = elim (Bool-cases (length t == n)) [
  | inl e ↦ (codes more, rw e)
  | inr e ↦ ([], rw (e, append-nil))
]

stay : (n : ℕ) (more : String) (t : Text) → length t ≢ n → complete_at n more t ≡ t
unfolding complete_at
stay n more t ne = ground arith

grow : (n : ℕ) (more : String) (t : Text) → length t ≡ n → complete_at n more t ≡ t ++ codes more
unfolding complete_at
grow n more t e = ground arith

-- One step and what the later steps add.
stage :
    (rest : Text → Text) (k k' : ℕ) (more : String) (tail : Text)
    → k + length (codes more) ≡ k'
    → ((u : Text) → length u ≡ k' → rest u ≡ u ++ tail)
    → (t : Text) → length t ≡ k
    → rest (complete_at k more t) ≡ t ++ (codes more ++ tail)
stage rest k k' more tail sum later t e =
    ap rest (grow k more t e)
    ∙ (later (t ++ codes more) (omega (arith, length-append t (codes more)))
        ∙ append_assoc t (codes more) tail)

abbrev from_23 : Text → Text
from_23 t = complete_at 23 "Z" t

abbrev from_19 : Text → Text
from_19 t = from_23 (complete_at 19 ".000" t)

abbrev from_16 : Text → Text
from_16 t = from_19 (complete_at 16 ":00" t)

abbrev from_13 : Text → Text
from_13 t = from_16 (complete_at 13 ":00" t)

abbrev from_10 : Text → Text
from_10 t = from_13 (complete_at 10 "T00" t)

abbrev from_7 : Text → Text
from_7 t = from_10 (complete_at 7 "-01" t)

at_23 : (t : Text) → length t ≡ 23 → from_23 t ≡ t ++ codes "Z"
at_23 t e = grow 23 "Z" t e

at_19 : (t : Text) → length t ≡ 19 → from_19 t ≡ t ++ codes ".000Z"
at_19 = stage from_23 19 23 ".000" (codes "Z") refl at_23

at_16 : (t : Text) → length t ≡ 16 → from_16 t ≡ t ++ codes ":00.000Z"
at_16 = stage from_19 16 19 ":00" (codes ".000Z") refl at_19

at_13 : (t : Text) → length t ≡ 13 → from_13 t ≡ t ++ codes ":00:00.000Z"
at_13 = stage from_16 13 16 ":00" (codes ":00.000Z") refl at_16

at_10 : (t : Text) → length t ≡ 10 → from_10 t ≡ t ++ codes "T00:00:00.000Z"
at_10 = stage from_13 10 13 "T00" (codes ":00:00.000Z") refl at_13

at_7 : (t : Text) → length t ≡ 7 → from_7 t ≡ t ++ codes "-01T00:00:00.000Z"
at_7 = stage from_10 7 10 "-01" (codes "T00:00:00.000Z") refl at_10

module _ (t : Text) where
  past_4 : length t ≢ 4 → complete_time t ≡ from_7 t
  unfolding complete_time
  past_4 n4 = ap from_7 (stay 4 "-01" t n4)

  past_7 : length t ≢ 4 → length t ≢ 7 → complete_time t ≡ from_10 t
  past_7 n4 n7 = past_4 n4 ∙ ap from_10 (stay 7 "-01" t n7)

  past_10 : length t ≢ 4 → length t ≢ 7 → length t ≢ 10 → complete_time t ≡ from_13 t
  past_10 n4 n7 n10 = past_7 n4 n7 ∙ ap from_13 (stay 10 "T00" t n10)

  past_13 :
      length t ≢ 4 → length t ≢ 7 → length t ≢ 10 → length t ≢ 13 → complete_time t ≡ from_16 t
  past_13 n4 n7 n10 n13 = past_10 n4 n7 n10 ∙ ap from_16 (stay 13 ":00" t n13)

  past_16 :
      length t ≢ 4
      → length t ≢ 7
      → length t ≢ 10
      → length t ≢ 13
      → length t ≢ 16
      → complete_time t ≡ from_19 t
  past_16 n4 n7 n10 n13 n16 = past_13 n4 n7 n10 n13 ∙ ap from_19 (stay 16 ":00" t n16)

  past_19 :
      length t ≢ 4
      → length t ≢ 7
      → length t ≢ 10
      → length t ≢ 13
      → length t ≢ 16
      → length t ≢ 19
      → complete_time t ≡ from_23 t
  past_19 n4 n7 n10 n13 n16 n19 = past_16 n4 n7 n10 n13 n16 ∙ ap from_23 (stay 19 ".000" t n19)

  past_23 :
      length t ≢ 4
      → length t ≢ 7
      → length t ≢ 10
      → length t ≢ 13
      → length t ≢ 16
      → length t ≢ 19
      → length t ≢ 23
      → complete_time t ≡ t
  past_23 n4 n7 n10 n13 n16 n19 n23 = past_19 n4 n7 n10 n13 n16 n19 ∙ (stay 23 "Z" t n23)

at_4 : (t : Text) → length t ≡ 4 → complete_time t ≡ t ++ codes "-01-01T00:00:00.000Z"
unfolding complete_time
at_4 = stage from_7 4 7 "-01" (codes "-01T00:00:00.000Z") refl at_7

-- A time is cut behind its year, month, day, hour, minute, second or millisecond.
abbrev pub IsCut : ℕ → Type 0
IsCut n = (n ≡ 4) ⊎ (n ≡ 7) ⊎ (n ≡ 10) ⊎ (n ≡ 13) ⊎ (n ≡ 16) ⊎ (n ≡ 19) ⊎ (n ≡ 23)

-- A time that is cut behind one of its parts gets the rest of the first moment that it may mean:
-- the first of January, midnight, and so on.
pub complete_time-cut :
    (t : Text)
    → IsCut (length t)
    → complete_time t ≡ t ++ drop (length t - 4) (codes "-01-01T00:00:00.000Z")
complete_time-cut t (inl e) = rw e (at_4 t e)
complete_time-cut t (inr (inl e)) = rw e (past_4 t (λ f. omega arith) ∙ at_7 t e)
complete_time-cut t (inr (inr (inl e))) =
    rw e (past_7 t (λ f. omega arith) (λ f. omega arith) ∙ at_10 t e)
complete_time-cut t (inr (inr (inr (inl e)))) =
    rw e (past_10 t (λ f. omega arith) (λ f. omega arith) (λ f. omega arith) ∙ at_13 t e)
complete_time-cut t (inr (inr (inr (inr (inl e))))) = rw e (
    past_13 t (λ f. omega arith) (λ f. omega arith) (λ f. omega arith) (λ f. omega arith)
    ∙ at_16 t e)
complete_time-cut t (inr (inr (inr (inr (inr (inl e)))))) = rw e (
    past_16 t (λ f. omega arith) (λ f. omega arith) (λ f. omega arith) (λ f. omega arith)
      (λ f. omega arith)
    ∙ at_19 t e)
complete_time-cut t (inr (inr (inr (inr (inr (inr e)))))) = rw e (
    past_19 t (λ f. omega arith) (λ f. omega arith) (λ f. omega arith) (λ f. omega arith)
      (λ f. omega arith) (λ f. omega arith)
    ∙ at_23 t e)

-- A text that is cut elsewhere stays as it is.
pub complete_time-other : (t : Text) → ¬ IsCut (length t) → complete_time t ≡ t
complete_time-other t n =
    past_23 t (λ e. n (inl e)) (λ e. n (inr (inl e))) (λ e. n (inr (inr (inl e))))
      (λ e. n (inr (inr (inr (inl e))))) (λ e. n (inr (inr (inr (inr (inl e))))))
      (λ e. n (inr (inr (inr (inr (inr (inl e))))))) (λ e. n (inr (inr (inr (inr (inr (inr e)))))))
