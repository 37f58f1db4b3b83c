-- ===== src/Tools/Cal/Days.antt =====
-- utils/cal.go: the days that fmtmonth shows.
use cfg.Base.{
  ==_ne, All, Bool-cases, List, [], ap, arith, false, if_split, inl, inr, length, refl, suc, sym,
  true, zero, ℕ, ◌%◌, ◌++◌, ◌+◌, ◌<◌, ◌∙◌, ◌∷◌, ◌≡◌, ◌≢◌, ◌≤◌,
}
use cfg.Tools.Cal.{Calendar, Cell, cells, empty, grid, shown, stands, time_behind}

-- The times that cells show, in their order
unfoldable pub times : List Cell → List ℕ
times [] = []
times (empty ∷ row) = times row
times (shown t ∷ row) = t ∷ times row

unfoldable pub flatten : List (List Cell) → List Cell
flatten [] = []
flatten (row ∷ rows) = row ++ flatten rows

-- The days from `t` on, `n` of them
unfoldable pub days_from : ℕ → ℕ → List ℕ
days_from t zero = []
days_from t (suc n) = t ∷ days_from (suc t) n

-- A month of `n` days that begins at `a`
pub record IsMonth (c : Calendar) (a n : ℕ) : Type 0 where
  pub inside : (i : ℕ) → i < n → c.month (a + i) ≡ c.month a
  pub behind : c.month (a + n) ≢ c.month a

-- Days of the week one after the other
abbrev AreSuccessive : ℕ → List ℕ → Type 0
AreSuccessive k [] = Unit
AreSuccessive k (d ∷ ds) = (d % 7 ≡ k % 7) × AreSuccessive (suc k) ds

-- Each time that is shown stands under its day of the week.
abbrev pub InColumns : Calendar → List ℕ → List Cell → Type 0
InColumns c ds [] = Unit
InColumns c [] (cell ∷ row) = ⊥
InColumns c (d ∷ ds) (empty ∷ row) = InColumns c ds row
InColumns c (d ∷ ds) (shown t ∷ row) = (c.weekday t ≡ d % 7) × InColumns c ds row

abbrev pub week_days : List ℕ
week_days = 1 ∷ 2 ∷ 3 ∷ 4 ∷ 5 ∷ 6 ∷ 7 ∷ []

cells-InColumns : (c : Calendar) (a : ℕ) (ds : List ℕ) (t : ℕ) → InColumns c ds (cells c a ds t)
unfolding cells
cells-InColumns c a [] t = tt
cells-InColumns c a (d ∷ ds) t =
    if_split (InColumns c (d ∷ ds)) (stands c a d t)
      (λ e. (ground arith, cells-InColumns c a ds (suc t))) (λ e. cells-InColumns c a ds t)

grid-InColumns : (c : Calendar) (n a t : ℕ) → All (InColumns c week_days) (grid c n a t)
unfolding grid
grid-InColumns c zero a t = tt
grid-InColumns c (suc n) a t =
    (cells-InColumns c a week_days t, grid-InColumns c n a (time_behind c a week_days t))

module _ (c : Calendar) (week : (t : ℕ) → c.weekday (suc t) ≡ suc (c.weekday t) % 7) where
  cells-append :
      (a : ℕ) (ds es : List ℕ) (t : ℕ)
      → cells c a (ds ++ es) t ≡ cells c a ds t ++ cells c a es (time_behind c a ds t)
  unfolding cells time_behind
  cells-append a [] es t = refl
  cells-append a (d ∷ ds) es t = elim (Bool-cases (stands c a d t)) [
    | inl e ↦ rw e (ap (λ l. shown t ∷ l) (cells-append a ds es (suc t)))
    | inr e ↦ rw e (ap (λ l. empty ∷ l) (cells-append a ds es t))
  ]

  times-none : (a : ℕ) (ds : List ℕ) (t : ℕ) → c.month t ≢ c.month a → times (cells c a ds t) ≡ []
  unfolding cells times
  times-none a [] t h = refl
  times-none a (d ∷ ds) t h = rw (==_ne _ _ h) (times-none a ds t h)

  -- `r` days of the month are left at `t`, whose day of the week comes `j` cells later.
  times-cells :
      (a : ℕ) (ds : List ℕ) (t k j r : ℕ)
      → j < 7
      → j + r ≤ length ds
      → AreSuccessive k ds
      → c.weekday t ≡ (k + j) % 7
      → ((i : ℕ) → i < r → c.month (t + i) ≡ c.month a)
      → c.month (t + r) ≢ c.month a
      → times (cells c a ds t) ≡ days_from t r
  unfolding cells times days_from
  times-cells a ds t k j zero small fits row at inside behind =
      times-none a ds t (λ h. behind (ap c.month (t_plus t) ∙ h))
    where
      t_plus : (t : ℕ) → t + 0 ≡ t
      t_plus t = omega arith
  times-cells a [] t k j (suc r) small fits row at inside behind = absurd (omega (arith, fits))
  times-cells a (d ∷ ds) t k zero (suc r) small fits (e, row) at inside behind =
      let same_month : c.month t ≡ c.month a = ap c.month (t_plus t) ∙ inside 0 (omega arith) in
      let same_day : c.weekday t ≡ d % 7 = omega (arith, at, e) in
      let now : stands c a d t ≡ true = ground arith in
      rw now (
        ap (λ l. t ∷ l)
          (times-cells a ds (suc t) (suc k) 0 r (omega arith) (omega (arith, fits)) row
            (omega (arith, at, week t))
            (λ i h. ap c.month (shift t i) ∙ inside (suc i) (omega (arith, h)))
            (λ h. behind (ap c.month (sym (shift t r)) ∙ h))))
    where
      t_plus : (t : ℕ) → t ≡ t + 0
      t_plus t = omega arith

      shift : (t i : ℕ) → suc t + i ≡ t + suc i
      shift t i = omega arith
  times-cells a (d ∷ ds) t k (suc j) (suc r) small fits (e, row) at inside behind =
      let other_day : c.weekday t ≢ d % 7 = (λ h. omega (arith, small, at, e, h)) in
      let later : stands c a d t ≡ false = ground arith in
      rw later (
        times-cells a ds t (suc k) j (suc r) (omega (arith, small)) (omega (arith, fits)) row
          (omega (arith, at)) inside behind)

  abbrev weeks : ℕ → List ℕ
  weeks zero = []
  weeks (suc n) = week_days ++ weeks n

  flatten-grid : (n a t : ℕ) → flatten (grid c n a t) ≡ cells c a (weeks n) t
  unfolding flatten grid
  flatten-grid zero a t = refl
  flatten-grid (suc n) a t =
      ap (λ l. cells c a week_days t ++ l) (flatten-grid n a (time_behind c a week_days t))
      ∙ sym (cells-append a week_days (weeks n) t)

  -- Where the days of the week follow one another, the six rows of a month of at most 31 days show
  -- each of its days once, in their order and under its day of the week, and nothing else.
  pub grid-IsMonth :
      (a n : ℕ)
      → c.weekday a < 7
      → n ≤ 31
      → IsMonth c a n
      → (times (flatten (grid c 6 a a)) ≡ days_from a n)
        × All (InColumns c week_days) (grid c 6 a a)
  grid-IsMonth a n day short month = (
    ap times (flatten-grid 6 a a)
        ∙ times-cells a (weeks 6) a 1 ((c.weekday a + 6) % 7) n (omega arith) (omega arith)
            (omega arith) (omega (arith, day)) month.inside month.behind,
    grid-InColumns c 6 a a,
  )
