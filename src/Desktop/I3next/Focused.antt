-- ===== src/Desktop/I3next/Focused.antt =====
-- The focused window is one of the windows that are found.
use cfg.Base.{
  Bool, List, Option, [], arith, false, if_split, inl, inr, ltb, none, not, refl, some, suc, true,
  zero, ℕ, ◌&&◌, ◌++◌, ◌||◌, ◌∷◌, ◌≡◌, ◌≢◌, ◌⊎◌,
}
use cfg.Text.{Text, codes, text_eq}
use cfg.Desktop.I3next.{
  Forest, Found, Tree, branch, findwsdata, gather, gather_all, is_window, leaf, node, position,
  returned, window_id,
}

-- The focused window, if there is one with an id, is among the windows.
abbrev pub IsListed : Found → Type 0
IsListed (none, ws) = Unit
IsListed (some zero, ws) = Unit
IsListed (some (suc n), ws) = position (suc n) ws ≢ none

position-append_left :
    (x : ℕ) (us ws : List ℕ) → position x us ≢ none → position x (us ++ ws) ≢ none
unfolding position
position-append_left x [] ws h = λ e. h refl
position-append_left x (u ∷ us) ws h = λ e. h (ground (arith, position-append_left x us ws))

position-append_right :
    (x : ℕ) (us ws : List ℕ) → position x ws ≢ none → position x (us ++ ws) ≢ none
unfolding position
position-append_right x [] ws h = h
position-append_right x (u ∷ us) ws h = λ e. position-append_right x us ws h (ground arith)

grown : (f : Option ℕ) (ws aws : List ℕ) → IsListed (f, ws) → IsListed (f, ws ++ aws)
grown none ws aws p = tt
grown (some zero) ws aws p = tt
grown (some (suc n)) ws aws p = position-append_left (suc n) ws aws p

gather-IsListed : (kind : Text) (g h : Found) → IsListed g → IsListed h → IsListed (gather kind g h)
unfolding gather is_window
gather-IsListed kind (f, ws) (some (suc n), aws) p q =
    if_split IsListed (not (text_eq kind (codes "output")) || true)
      (λ _. position-append_right (suc n) ws aws q) (λ _. p)
gather-IsListed kind (f, ws) (some zero, aws) p q =
    if_split IsListed (not (text_eq kind (codes "output")) || false) (λ _. grown f ws aws p)
      (λ _. p)
gather-IsListed kind (f, ws) (none, aws) p q =
    if_split IsListed (not (text_eq kind (codes "output")) || false) (λ _. grown f ws aws p)
      (λ _. p)

alone : (w : ℕ) → IsListed (some w, w ∷ [])
unfolding position
alone zero = tt
alone (suc n) = λ e. ground arith

returned-IsListed :
    (kind : Text) (id : ℕ) (focused : Bool) (g : Found)
    → IsListed g
    → IsListed (returned kind id focused g)
unfolding returned
returned-IsListed kind id focused (f, ws) p =
    if_split IsListed focused (λ _. alone id)
      (λ _.
        if_split IsListed (ltb 0 id) (λ _. tt)
          (λ _.
            if_split IsListed
              (text_eq kind (codes "workspace") && elim f [ none ↦ true | some w ↦ false ])
              (λ _. tt) (λ _. p)))

mutual
  unfolding findwsdata

  -- The focused window that is found is among the windows that are found.
  pub findwsdata-IsListed : (t : Tree) → IsListed (findwsdata t)
  findwsdata-IsListed (node kind window focused nodes floating) =
      returned-IsListed kind (window_id window) focused _
        (gather_all-IsListed kind floating _ (gather_all-IsListed kind nodes (none, []) tt))

  gather_all-IsListed :
      (kind : Text) (ts : Forest) (found : Found)
      → IsListed found
      → IsListed (gather_all kind ts found)
  gather_all-IsListed kind leaf found h = h
  gather_all-IsListed kind (branch t ts) found h =
      gather_all-IsListed kind ts _
        (gather-IsListed kind found (findwsdata t) h (findwsdata-IsListed t))

zero_apart : {n : ℕ} → ◌≡◌ {A = Option ℕ} (some zero) (some (suc n)) → ⊥
zero_apart e = cc

-- A focused window is in the tree: only containers that are no windows and are not focused stand
-- above it, among their nodes or their floating nodes.
unfoldable mutual
  pub HasFocused : Tree → Type 0
  HasFocused (node kind window focused nodes floating) =
      ((focused ≡ true) × (n : ℕ) × (window ≡ some (suc n)))
      ⊎ ((focused ≡ false)
          × (window_id window ≡ 0)
          × (SomeHasFocused nodes ⊎ SomeHasFocused floating))

  pub SomeHasFocused : Forest → Type 0
  SomeHasFocused leaf = ⊥
  SomeHasFocused (branch t ts) = HasFocused t ⊎ SomeHasFocused ts

abbrev IsFound : Found → Type 0
IsFound g = (n : ℕ) × (g.0 ≡ some (suc n))

gather-new : (kind : Text) (g h : Found) → IsFound h → IsFound (gather kind g h)
unfolding gather is_window
gather-new kind (f, ws) (some (suc m), aws) (n, e) = (m, ground arith)
gather-new kind (f, ws) (some zero, aws) (n, e) = absurd (zero_apart e)
gather-new kind (f, ws) (none, aws) (n, e) = absurd (cc)

gather-old : (kind : Text) (g h : Found) → IsFound g → IsFound (gather kind g h)
unfolding gather is_window
gather-old kind (f, ws) (some (suc m), aws) p = (m, ground arith)
gather-old kind (f, ws) (some zero, aws) (n, e) = (n, ground (arith, e))
gather-old kind (f, ws) (none, aws) (n, e) = (n, ground (arith, e))

returned-IsFound :
    (kind : Text) (id : ℕ) (g : Found) → id ≡ 0 → IsFound g → IsFound (returned kind id false g)
unfolding returned
returned-IsFound kind id (none, ws) z (n, e) = absurd (cc)
returned-IsFound kind id (some w, ws) z (n, e) = (n, ground (arith, z, e))

old-IsFound :
    (kind : Text) (ts : Forest) (found : Found) → IsFound found → IsFound (gather_all kind ts found)
unfolding findwsdata
old-IsFound kind leaf found p = p
old-IsFound kind (branch t ts) found p =
    old-IsFound kind ts _ (gather-old kind found (findwsdata t) p)

focused-IsFound :
    (kind : Text) (window : Option ℕ) (n : ℕ) (g : Found)
    → window ≡ some (suc n)
    → IsFound (returned kind (window_id window) true g)
unfolding returned window_id
focused-IsFound kind window n g e = (n, rw e refl)

mutual
  unfolding findwsdata HasFocused

  findwsdata-IsFound : (t : Tree) → HasFocused t → IsFound (findwsdata t)
  findwsdata-IsFound (node kind window focused nodes floating) (inl (is_focused, n, e)) =
      rw is_focused (focused-IsFound kind window n _ e)
  findwsdata-IsFound (node kind window focused nodes floating)
        (inr (not_focused, no_window, inl p)) =
      rw not_focused (
        returned-IsFound kind (window_id window) _ no_window
          (old-IsFound kind floating _ (new-IsFound kind nodes (none, []) p)))
  findwsdata-IsFound (node kind window focused nodes floating)
        (inr (not_focused, no_window, inr p)) =
      rw not_focused (
        returned-IsFound kind (window_id window) _ no_window
          (new-IsFound kind floating (gather_all kind nodes (none, [])) p))

  new-IsFound :
      (kind : Text) (ts : Forest) (found : Found)
      → SomeHasFocused ts
      → IsFound (gather_all kind ts found)
  new-IsFound kind leaf found p = absurd p
  new-IsFound kind (branch t ts) found (inl p) =
      old-IsFound kind ts _ (gather-new kind found (findwsdata t) (findwsdata-IsFound t p))
  new-IsFound kind (branch t ts) found (inr p) = new-IsFound kind ts _ p
