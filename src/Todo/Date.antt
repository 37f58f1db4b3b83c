-- ===== src/Todo/Date.antt =====
-- todotool/todo.go, normalizedate and the .rems file: dates that begin a line. The scan by
-- "%4d%2d%2d" and the calendar of package time are a parameter.
pub mod Again
use cfg.Base.{
  ==_iff, Bool, Bool-cases, List, Option, Option-cases, [], ap, arith, drop, false, if◌then◌else◌,
  inl, inr, leb, length, length-append, ltb, none, not, some, take, take-append, true, ◌&&◌, ◌++◌,
  ◌==◌, ◌∷◌, ◌≡◌, ◌⊎◌,
}
use cfg.Text.{Text, text_eq, text_eq_refl, text_lt}

-- The date that the first eight bytes stand for, formatted as 20060102; `none` if they do not scan.
abbrev pub Calendar : Type 0
Calendar = Text → Option Text

abbrev pub with_date : Text → Option Text → Text
with_date s none = s
with_date s (some norm) = if text_eq norm (take 8 s) then s else norm ++ drop 8 s

unfoldable pub normalizedate : Calendar → Text → Text
unfolding text_eq
normalizedate calendar s = if ltb (length s) 8 then s else with_date s (calendar s)

-- The date has eight bytes when it is formatted: its year has four digits.
unfoldable pub is_short : Calendar → Text → Bool
is_short calendar s = elim (calendar s) [ none ↦ true | some norm ↦ length norm == 8 ]

-- What the documentation of package time says: a date that is formatted in eight bytes is scanned as
-- itself.
pub record IsCalendar (calendar : Calendar) : Type 0 where
  pub stable :
      (s norm r : Text)
      → calendar s ≡ some norm
      → length norm ≡ 8
      → calendar (norm ++ r) ≡ some norm

-- A line of the .rems file as it is written back.
unfoldable pub normalize_rem : Calendar → Text → Text
normalize_rem calendar [] = []
normalize_rem calendar (c ∷ line) =
    if leb 8 (length (c ∷ line)) && not (c == b'#')
    then normalizedate calendar (c ∷ line)
    else c ∷ line

-- `len(norm) > 0 && norm[0] != '#' && norm <= now`
unfoldable pub is_due : Text → Text → Bool
is_due now [] = false
is_due now (c ∷ norm) = not (c == b'#') && not (text_lt now (c ∷ norm))

-- The loop over the lines: the reminders that are due, and the lines of the new content.
unfoldable pub read_rems : Calendar → Text → List Text → List Text × List Text
unfolding normalize_rem is_due
read_rems calendar now [] = ([], [])
read_rems calendar now (line ∷ lines) =
    let (rems, norms) = read_rems calendar now lines in
    let norm = normalize_rem calendar line in
    (if is_due now norm then norm ∷ rems else rems, norm ∷ norms)

-- A text that begins with a date as the calendar formats it is left alone.
normalizedate-formatted :
    (calendar : Calendar) (norm r : Text)
    → length norm ≡ 8
    → calendar (norm ++ r) ≡ some norm
    → normalizedate calendar (norm ++ r) ≡ norm ++ r
unfolding normalizedate
normalizedate-formatted calendar norm r eight known = rw (long, known, first, text_eq_refl norm)
  where
    long : ltb (length (norm ++ r)) 8 ≡ false
    long = ground (arith, length-append norm r)

    first : take 8 (norm ++ r) ≡ norm
    first = rw (← eight) (take-append norm r)

normalized :
    (calendar : Calendar) (s norm : Text)
    → calendar s ≡ some norm
    → (normalizedate calendar s ≡ s) ⊎ (normalizedate calendar s ≡ norm ++ drop 8 s)
unfolding normalizedate
normalized calendar s norm e = elim (Bool-cases (ltb (length s) 8)) [
  | inl l ↦ inl (rw l)
  | inr l ↦ elim (Bool-cases (text_eq norm (take 8 s))) [
    | inl q ↦ inl (rw (l, e, q))
    | inr q ↦ inr (rw (l, e, q))
  ]
]

-- A date of a year up to 9999 that was normalized is left alone.
pub normalizedate_idem :
    (calendar : Calendar)
    → IsCalendar calendar
    → (s : Text) → is_short calendar s ≡ true
    → normalizedate calendar (normalizedate calendar s) ≡ normalizedate calendar s
normalizedate_idem calendar law s short = elim (Option-cases (calendar s)) [
  | inl e ↦ same (unchanged e)
  | inr (norm, e) ↦ elim (normalized calendar s norm e) [
    | inl u ↦ same u
    | inr u ↦ rw u (
        normalizedate-formatted calendar norm (drop 8 s) (eight norm e)
          (law.stable s norm (drop 8 s) e (eight norm e)))
  ]
]
  where
    eight : (norm : Text) → calendar s ≡ some norm → length norm ≡ 8
    eight norm e = unfold is_short in ground (arith, ==_iff (length norm) 8)

    same :
        normalizedate calendar s ≡ s
        → normalizedate calendar (normalizedate calendar s) ≡ normalizedate calendar s
    same u = ap (normalizedate calendar) u

    unchanged : calendar s ≡ none → normalizedate calendar s ≡ s
    unchanged e = unfold normalizedate in ground arith
