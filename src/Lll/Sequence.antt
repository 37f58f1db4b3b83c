-- ===== src/Lll/Sequence.antt =====
-- The arguments as a sequence of settings that are carried out in order.
use cfg.Base.{
  Bool-cases, List, Option, [], if◌then◌else◌, inl, inr, none, refl, some, ℕ, ◌++◌, ◌-◌, ◌∷◌, ◌≡◌,
}
use cfg.Text.{Text}
use cfg.Lll.{Devices, Effect, Fault, Outcome, followed, is_digit, run, set_brightness}

-- The settings that the arguments ask for: each digit is a level for the lamp named last.
unfoldable pub settings : ℕ → Text → List (ℕ × ℕ)
settings lamp [] = []
settings lamp (c ∷ s) =
    let rest = settings (if is_digit c then lamp else c) s in
    if is_digit c then (lamp, c - b'0') ∷ rest else rest

-- Settings are carried out one after the other: the first that fails is the last, and its error is
-- the outcome.
pub data Performed (devices : Devices) : List (ℕ × ℕ) → Outcome → Type 0 where
  ended : Performed devices [] ([], none)
  stopped :
      {lamp level : ℕ} {rest : List (ℕ × ℕ)} {es : List Effect} {why : Fault}
      → set_brightness devices lamp level ≡ (es, some why)
      → Performed devices ((lamp, level) ∷ rest) (es, some why)
  went_on :
      {lamp level : ℕ} {rest : List (ℕ × ℕ)} {es fs : List Effect} {o : Option Fault}
      → set_brightness devices lamp level ≡ (es, none)
      → Performed devices rest (fs, o)
      → Performed devices ((lamp, level) ∷ rest) (es ++ fs, o)

followed-Performed :
    (devices : Devices) (lamp level : ℕ) (rest : List (ℕ × ℕ)) (now later : Outcome)
    → set_brightness devices lamp level ≡ now
    → Performed devices rest later
    → Performed devices ((lamp, level) ∷ rest) (followed now later)
followed-Performed devices lamp level rest (es, some why) later e h = stopped e
followed-Performed devices lamp level rest (es, none) (fs, o) e h = went_on e h

-- A run carries out the settings of its arguments in order, and stops at the first error, which is
-- the one that it returns.
pub run-Performed :
    (devices : Devices) (lamp : ℕ) (s : Text)
    → Performed devices (settings lamp s) (run devices lamp s)
unfolding run settings
run-Performed devices lamp [] = ended
run-Performed devices lamp (c ∷ s) = elim (Bool-cases (is_digit c)) [
  | inl e ↦ rw e (
      followed-Performed devices lamp (c - b'0') (settings lamp s) _ (run devices lamp s) refl
        (run-Performed devices lamp s))
  | inr e ↦ rw e (run-Performed devices c s)
]
