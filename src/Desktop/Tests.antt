-- ===== src/Desktop/Tests.antt =====
-- The tools of the desktop on small inputs.
use cfg.Base.{Bool, List, [], false, none, refl, some, true, ℕ, ◌∷◌, ◌≡◌}
use cfg.Text.{Text, codes, contains, text_eq}
use cfg.Desktop.Disw.{command, next}
use cfg.Desktop.Disw.LeavesOn.{SwitchesOn, next-SwitchesOn}
use cfg.Desktop.I3next.{
  Tree, branch, findwsdata, focus, gather, is_window, leaf, node, nth, position, returned, step,
  window_id,
}
use cfg.Desktop.I3next.Back.{IsDistinct, step_back}

abbrev two_displays : Text
two_displays =
    codes
      "DP-2 connected x\n  2200x1650 40.00 +\nDP-3 connected y\n  2560x1440 59.95*+\n  1920x1080 60.00\n"

abbrev expected : List Text
expected =
    codes "--output"
    ∷ codes "DP-2"
    ∷ codes "--mode"
    ∷ codes "2200x1650"
    ∷ codes "--output"
    ∷ codes "DP-3"
    ∷ codes "--off"
    ∷ []

switches : next two_displays ≡ command expected
unfolding next contains
switches = refl

next-SwitchesOn_example : SwitchesOn expected
next-SwitchesOn_example = next-SwitchesOn two_displays expected switches

abbrev window : ℕ → Bool → Tree
window id focused = node (codes "con") (some id) focused leaf leaf

-- A workspace with three windows, of which the floating one is focused.
abbrev workspace : Tree
workspace =
    node (codes "workspace") none false (branch (window 5 false) (branch (window 6 false) leaf))
      (branch (window 7 true) leaf)

focused_7 : findwsdata workspace ≡ (some 7, 5 ∷ 6 ∷ 7 ∷ [])
unfolding findwsdata returned window_id text_eq gather is_window
focused_7 = refl

three_windows : IsDistinct (5 ∷ 6 ∷ 7 ∷ [])
unfolding position
three_windows = (refl, (refl, (refl, tt)))

forward : step false (some 7, 5 ∷ 6 ∷ 7 ∷ []) ≡ focus 5
unfolding step position nth
forward = refl

step_back_example : step true (some 5, 5 ∷ 6 ∷ 7 ∷ []) ≡ focus 7
step_back_example = step_back (5 ∷ 6 ∷ 7 ∷ []) 7 5 three_windows forward
