-- ===== src/Desktop/I3next.antt =====
-- utils/i3next.go: the next window of the focused workspace, from the tree of the window manager.
pub mod Focused
pub mod Back
use cfg.Base.{
  Bool, List, Option, [], false, if◌then◌else◌, leb, length, ltb, none, not, some, suc, true, zero,
  ℕ, ◌%◌, ◌&&◌, ◌++◌, ◌+◌, ◌-◌, ◌==◌, ◌||◌, ◌∷◌,
}
use cfg.Text.{Text, codes, text_eq}

-- A container of i3: its type, its window where it has one, whether it is focused, and its nodes
-- and floating nodes.
mutual
  pub data Tree : Type 0 where
    node : (kind : Text) → (window : Option ℕ) → (focused : Bool) → (nodes floating : Forest) → Tree

  pub data Forest : Type 0 where
    leaf : Forest
    branch : Tree → Forest → Forest

-- The focused window, -1 as `none`, and the windows.
abbrev pub Found : Type 0
Found = Option ℕ × List ℕ

unfoldable pub window_id : Option ℕ → ℕ
window_id none = 0
window_id (some w) = w

-- `af > 0`
unfoldable pub is_window : Option ℕ → Bool
is_window none = false
is_window (some zero) = false
is_window (some (suc n)) = true

-- The body of the loop over the nodes.
unfoldable pub gather : Text → Found → Found → Found
gather kind (f, ws) (af, aws) =
    if not (text_eq kind (codes "output")) || is_window af
    then (if is_window af then af else f, ws ++ aws)
    else (f, ws)

-- The returns at the top, and the one behind the loop.
unfoldable pub returned : Text → ℕ → Bool → Found → Found
returned kind id focused (f, ws) =
    if focused
    then (some id, id ∷ [])
    else if ltb 0 id
    then (none, id ∷ [])
    else if text_eq kind (codes "workspace") && elim f [ none ↦ true | some w ↦ false ]
    then (none, [])
    else (f, ws)

unfoldable mutual
  pub findwsdata : Tree → Found
  findwsdata (node kind window focused nodes floating) =
      returned kind (window_id window) focused
        (gather_all kind floating (gather_all kind nodes (none, [])))

  pub gather_all : Text → Forest → Found → Found
  gather_all kind leaf found = found
  gather_all kind (branch t ts) found = gather_all kind ts (gather kind found (findwsdata t))

-- What main does with the windows.
pub data Action : Type 0 where
  nothing not_found : Action
  focus : ℕ → Action

unfoldable pub position : ℕ → List ℕ → Option ℕ
position x [] = none
position x (w ∷ ws) =
    let rest = position x ws in
    if w == x then some 0 else elim rest [ none ↦ none | some i ↦ some (suc i) ]

-- ws[i], which is only taken in range
unfoldable pub nth : ℕ → List ℕ → ℕ
nth i [] = 0
nth zero (w ∷ ws) = w
nth (suc i) (w ∷ ws) = nth i ws

abbrev pub offset : Bool → List ℕ → ℕ
offset prev ws = if prev then length ws - 1 else 1

abbrev pub focus_from : Bool → List ℕ → Option ℕ → Action
focus_from prev ws none = not_found
focus_from prev ws (some i) = focus (nth ((i + offset prev ws) % length ws) ws)

unfoldable pub step : Bool → Found → Action
unfolding position nth
step prev (f, ws) =
    if leb (length ws) 1
    then nothing
    else elim f [ none ↦ not_found | some w ↦ focus_from prev ws (position w ws) ]

unfoldable pub run : Bool → Tree → Action
unfolding step findwsdata
run prev root = step prev (findwsdata root)
