-- ===== src/Tools/Cal.antt =====
-- utils/cal.go. A time is the number of its day; what package time tells of it is a parameter. Years
-- are not negative.
pub mod Days
use cfg.Base.{
  Bool, List, Option, [], if◌then◌else◌, leb, length, ltb, map, none, some, suc, zero, ℕ, ◌%◌, ◌&&◌,
  ◌*◌, ◌++◌, ◌+◌, ◌-◌, ◌/◌, ◌==◌, ◌∷◌,
}
use cfg.Text.{Text, codes, itoa, join}

pub record Calendar : Type 0 where
  -- time.Date of the first day of a month, whose number may be beyond twelve
  pub date : (year month : ℕ) → ℕ
  pub year : ℕ → ℕ
  pub month : ℕ → ℕ
  pub month_name : ℕ → Text
  pub weekday : ℕ → ℕ
  -- the day in its month
  pub day : ℕ → ℕ

abbrev pub blanks : ℕ → Text
blanks zero = []
blanks (suc n) = b' ' ∷ blanks n

-- fmt.Sprintf("%2d", n)
unfoldable pub pad2 : ℕ → Text
unfolding itoa
pad2 n = blanks (2 - length (itoa n)) ++ itoa n

-- What stands for one day of the week
pub data Cell : Type 0 where
  empty : Cell
  shown : ℕ → Cell

module _ (c : Calendar) where
  -- The year and the month, in the middle of 21 columns; a count below zero panics.
  unfoldable pub header : ℕ → Option Text
  unfolding itoa
  header a =
      let title = itoa (c.year a) ++ b' ' ∷ c.month_name a in
      let text = blanks (10 - length title / 2) ++ title in
      if ltb 10 (length title / 2) then none else some (text ++ blanks (21 - length text))

  -- The test of the inner loop, for the month that begins at `a`
  abbrev pub stands : (a day t : ℕ) → Bool
  stands a day t = c.month t == c.month a && c.weekday t == day % 7

  -- The inner loop over weekdays: the cells, and the time behind it
  unfoldable pub cells : (a : ℕ) → List ℕ → ℕ → List Cell
  cells a [] t = []
  cells a (day ∷ days) t =
      let onward = cells a days (suc t) in
      let same = cells a days t in if stands a day t then shown t ∷ onward else empty ∷ same

  unfoldable pub time_behind : (a : ℕ) → List ℕ → ℕ → ℕ
  time_behind a [] t = t
  time_behind a (day ∷ days) t = time_behind a days (if stands a day t then suc t else t)

  -- The outer loop
  unfoldable pub grid : (rows : ℕ) → (a t : ℕ) → List (List Cell)
  unfolding cells time_behind
  grid zero a t = []
  grid (suc rows) a t =
      cells a (1 ∷ 2 ∷ 3 ∷ 4 ∷ 5 ∷ 6 ∷ 7 ∷ []) t
      ∷ grid rows a (time_behind a (1 ∷ 2 ∷ 3 ∷ 4 ∷ 5 ∷ 6 ∷ 7 ∷ []) t)

  -- A day, and today in reverse
  unfoldable pub print_cell : (today : ℕ) → Cell → Text
  unfolding pad2
  print_cell today empty = codes "   "
  print_cell today (shown t) =
      if t == today
      then 27 ∷ codes "[7m" ++ (pad2 (c.day t) ++ (27 ∷ codes "[0m "))
      else pad2 (c.day t) ++ codes " "

  unfoldable pub print_row : (today : ℕ) → List Cell → Text
  unfolding print_cell
  print_row today [] = []
  print_row today (cell ∷ row) = print_cell today cell ++ print_row today row

  unfoldable pub fmtmonth : (today year month : ℕ) → Option (List Text)
  unfolding header grid print_row
  fmtmonth today year month =
      let a = c.date year month in
      elim (header a) [
        | none ↦ none
        | some top ↦ some (top ∷ codes "Mo Tu We Th Fr Sa Su " ∷ map (print_row today) (grid 6 a a))
      ]

  -- The year and the quarters that are printed, by the argument, 0 if there is none, and -e
  unfoldable pub quarters : (today y : ℕ) → (extended : Bool) → ℕ × ℕ × ℕ
  quarters today y extended =
      let startyear = if y == 0 then c.year today else y in
      let startq = if y == 0 then (c.month today - 1) / 3 else 0 in
      let endq = if y == 0 then startq + 2 else 4 in
      if extended then (startyear - 1, 0, 12) else (startyear, startq, endq)

  -- The eight lines of three months side by side
  unfoldable pub beside : (a b c : List Text) → List Text
  beside (x ∷ xs) (y ∷ ys) (z ∷ zs) =
      (x ++ (codes "  " ++ (y ++ (codes "  " ++ z)))) ∷ beside xs ys zs
  beside _ _ _ = []

  unfoldable pub print_quarter : (today year q : ℕ) → Option Text
  unfolding fmtmonth beside join
  print_quarter today year q = elim (fmtmonth today year (q * 3 + 1)) [
    | none ↦ none
    | some x ↦ elim (fmtmonth today year (q * 3 + 2)) [
      | none ↦ none
      | some y ↦ elim (fmtmonth today year (q * 3 + 3)) [
        | none ↦ none
        | some z ↦ some (join b'\n' (beside x y z) ++ b'\n' ∷ [])
      ]
    ]
  ]

  -- The loop over the quarters, `left` of them
  unfoldable pub print_quarters : (left : ℕ) → (today year q : ℕ) → Option Text
  unfolding print_quarter
  print_quarters zero today year q = some []
  print_quarters (suc left) today year q = elim (print_quarter today year q) [
    | none ↦ none
    | some text ↦ elim (print_quarters left today year (suc q)) [
      | none ↦ none
      | some rest ↦ some (text ++ rest)
    ]
  ]

  abbrev pub print_range : (today : ℕ) → ℕ × ℕ × ℕ → Option Text
  print_range today (startyear, startq, endq) =
      print_quarters (endq - startq) today startyear startq

pub data Outcome : Type 0 where
  printed : Text → Outcome
  panicked too_many_arguments : Outcome

-- run, with the number that fmt.Sscan makes of the argument, 0 if it makes none
unfoldable pub run : Calendar → (today : ℕ) → (narg y : ℕ) → (extended : Bool) → Outcome
unfolding quarters print_quarters
run c today narg y extended =
    if leb 2 narg
    then too_many_arguments
    else elim (print_range c today (quarters c today y extended)) [
      | none ↦ panicked
      | some text ↦ printed text
    ]
