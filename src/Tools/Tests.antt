-- ===== src/Tools/Tests.antt =====
-- The small tools on small inputs.
use cfg.Base.{
  All, [], arith, false, get_elem?, none, refl, some, suc, true, ℕ, ◌%◌, ◌*◌, ◌+◌, ◌/◌, ◌∷◌, ◌≡◌,
}
use cfg.Text.{before, codes, text_eq}
use cfg.Tools.Cal.{Calendar, empty, grid, run, shown, too_many_arguments}
use cfg.Tools.Cal.Days.{InColumns, IsMonth, days_from, flatten, grid-IsMonth, times, week_days}
use cfg.Tools.Httpd.{listening, public_ip}
use cfg.Tools.Ybb.{find_tool}
use cfg.Tools.Tlog.{append_note, empty_note, logged, look, lost, main, notified, pause}

second_tool : find_tool (codes "lll") (codes "gdsnap: a" ∷ codes "lll: b" ∷ []) ≡ some 1
unfolding find_tool text_eq before
second_tool = refl

fresh_note : pause 12 0 300 ≡ (1440, false)
unfolding pause
fresh_note = refl

stale_note : pause 12 0 3000 ≡ (60, true)
unfolding pause
stale_note = refl

appended : append_note (codes "T") (codes " a\n\n b") [] ≡ codes "T a\nT b\n"
unfolding append_note
appended = refl

-- Months of thirty days, and years of twelve of them.
abbrev calendar : Calendar
calendar = record {
  date = λ y m. (y * 12 + m) * 30;
  year = λ t. t / 360;
  month = λ t. t / 30 % 12;
  month_name = λ t. codes "May";
  weekday = λ t. t % 7;
  day = λ t. t % 30 + 1;
}

week : (t : ℕ) → calendar.weekday (suc t) ≡ suc (calendar.weekday t) % 7
week t = omega arith

month : IsMonth calendar 60 30
month = record { inside = λ i h. omega (arith, h); behind = λ h. omega (arith, h) }

grid-IsMonth_example :
    (times (flatten (grid calendar 6 60 60)) ≡ days_from 60 30)
    × All (InColumns calendar week_days) (grid calendar 6 60 60)
grid-IsMonth_example = grid-IsMonth calendar week 60 30 (omega arith) (omega arith) month

last_row :
    get_elem? (grid calendar 6 60 60) 4
    ≡ some (shown 85 ∷ shown 86 ∷ shown 87 ∷ shown 88 ∷ shown 89 ∷ empty ∷ empty ∷ [])
unfolding grid
last_row = refl

one_too_many : run calendar 60 2 0 false ≡ too_many_arguments
unfolding run
one_too_many = refl

joined_note :
    main (codes "T") (some (codes "old\n")) true none [] (codes "a" ∷ codes "b" ∷ [])
    ≡ logged (codes "old\nT a b\n")
unfolding main
joined_note = refl

nothing_edited : main (codes "T") (some []) true (some []) [] [] ≡ empty_note
unfolding main
nothing_edited = refl

notifier :
    main (codes "T") none true none (look 12 0 300 ∷ lost ∷ []) (codes "-w" ∷ [])
    ≡ notified ((1440, false) ∷ [])
unfolding main
notifier = refl

announced :
    listening (codes ":8080") (codes "1.1.1.1") (public_ip [] (some (some (codes "2.2.2.2\n"))))
    ≡ codes "listening on :8080 (1.1.1.1:8080, 2.2.2.2:8080)."
unfolding listening public_ip
announced = refl
