-- ===== src/Huepush/Extract.antt =====
-- huepush/huepush.go: Run, from the local configuration to the action mappings. Ranging over a map
-- goes through its list.
pub mod Unmarked
use cfg.Base.{
  List, Option, [], foldl, if◌then◌else◌, length, ltb, map, none, set, some, suc, ℕ, ◌==◌, ◌||◌,
  ◌∷◌,
}
use cfg.Text.{Text, codes, fields, split, text_eq}
use cfg.Dict.{Dict, get_or, insert, lookup}
use cfg.Huepush.State.{
  Bridge, Button, Result, Scenes, Switch, empty_bridge, fail, missing_bridge_data, missing_scene,
  new_switch, no_scenes, ok, panics, set_scene, ◌>>=◌,
}
use cfg.Huepush.Json.{
  Fields, Json, array, as_fields, as_items, boolean, field, get_string, is_text, items_list, jget,
  no_fields, null, number, object, string,
}

-- The address and the key by the lines of hue.cfg
unfoldable pub config_line : Text × Text → List Text → Text × Text
unfolding text_eq
config_line s [] = s
config_line s (k ∷ []) = s
config_line (address, key) (k ∷ v ∷ rest) =
    if text_eq k (codes "hueaddress")
    then (v, key)
    else if text_eq k (codes "huekey")
    then (address, v)
    else (address, key)

unfoldable pub bridge_data : Text → Result (Text × Text)
unfolding config_line fields split
bridge_data cfg =
    let found = foldl config_line ([], []) (map fields (split b'\n' cfg)) in
    if text_eq found.0 [] || text_eq found.1 [] then fail missing_bridge_data else ok found

-- A loop whose body may fail
unfoldable pub for_each :
    {A : Type 0} → (A → Bridge → Result Bridge) → List A → Bridge → Result Bridge
for_each f [] b = ok b
for_each f (a ∷ rest) b = f a b >>= for_each f rest

unfoldable pub add_room : Json → Bridge → Result Bridge
unfolding get_string text_eq insert
add_room d b = do
  kind ← get_string (codes "type" ∷ []) d
  if text_eq kind (codes "room")
      then (do
        name ← get_string (codes "metadata" ∷ codes "name" ∷ []) d
        id ← get_string (codes "id" ∷ []) d
        ok (record b {
          room_names = insert id name b.room_names;
          room_ids = insert name id b.room_ids;
        }))
      else ok b

-- The loop over the services: the buttons are numbered in their order.
unfoldable pub add_buttons : ℕ → List Json → Bridge → Result Bridge
unfolding jget get_string is_text insert
add_buttons n [] b = ok b
add_buttons n (s ∷ ss) b = do
  rtype ← jget (codes "rtype" ∷ []) s
  if is_text rtype (codes "button")
      then (do
        id ← get_string (codes "rid" ∷ []) s
        add_buttons (suc n) ss (record b { button_indexes = insert id n b.button_indexes }))
      else add_buttons n ss b

unfoldable pub add_switch : Json → Bridge → Result Bridge
unfolding jget get_string is_text as_items text_eq insert add_buttons
add_switch d b = do
  kind ← get_string (codes "type" ∷ []) d
  model ←
      if text_eq kind (codes "device")
      then jget (codes "product_data" ∷ codes "model_id" ∷ []) d
      else ok null
  if is_text model (codes "RWL022")
      then (do
        name ← get_string (codes "metadata" ∷ codes "name" ∷ []) d
        id ← get_string (codes "id" ∷ []) d
        services ← jget (codes "services" ∷ []) d >>= as_items
        add_buttons 0 services (record b {
          switch_ids = insert name id b.switch_ids;
          switches = insert id (new_switch id name) b.switches;
        }))
      else ok b

abbrev pub level_names : List Text
level_names = codes "low" ∷ codes "mid" ∷ codes "high" ∷ []

-- slices.Index
unfoldable pub index_of : Text → List Text → Option ℕ
unfolding text_eq
index_of t [] = none
index_of t (s ∷ ss) = elim (index_of t ss) [
  | none ↦ if text_eq s t then some 0 else none
  | some i ↦ if text_eq s t then some 0 else some (suc i)
]

unfoldable pub add_level : (room id : Text) → Bridge → Option ℕ → Bridge
unfolding insert get_or set_scene
add_level room id b none = b
add_level room id b (some level) = record b {
  room_scenes =
      insert room (set_scene level id (get_or no_scenes room b.room_scenes)) b.room_scenes;
}

unfoldable pub add_scene : Json → Bridge → Result Bridge
unfolding jget get_string is_text insert index_of add_level
add_scene d b = do
  kind ← jget (codes "type" ∷ []) d
  if is_text kind (codes "scene")
      then (do
        name ← get_string (codes "metadata" ∷ codes "name" ∷ []) d
        room ← get_string (codes "group" ∷ codes "rid" ∷ []) d
        id ← get_string (codes "id" ∷ []) d
        ok (
            add_level room id (record b { scene_names = insert id name b.scene_names })
              (index_of name level_names)))
      else ok b

-- Each room has its three scenes.
unfoldable pub check_scenes : (room : Text) → Scenes → Result Unit
unfolding text_eq
check_scenes room s =
    if text_eq s.low []
    then fail (missing_scene room (codes "low"))
    else if text_eq s.mid []
    then fail (missing_scene room (codes "mid"))
    else if text_eq s.high []
    then fail (missing_scene room (codes "high"))
    else ok tt

unfoldable pub verify : Dict Text → Bridge → Result Bridge
unfolding check_scenes get_or
verify [] b = ok b
verify ((id, name) ∷ rooms) b =
    check_scenes name (get_or no_scenes id b.room_scenes) >>= λ u. verify rooms b

-- The scenes of the slots; a slot without a scene is passed over.
unfoldable pub slot_scenes : ℕ → List Json → Scenes → Result Scenes
unfolding jget set_scene
slot_scenes i [] s = ok s
slot_scenes i (slot ∷ slots) s = do
  rid ← jget (codes "0" ∷ codes "action" ∷ codes "recall" ∷ codes "rid" ∷ []) slot
  slot_scenes (suc i) slots (elim rid [
    | string id ↦ set_scene i id s
    | null ↦ s
    | boolean v ↦ s
    | number n ↦ s
    | array vs ↦ s
    | object fs ↦ s
  ])

unfoldable pub cycle : Json → Result Scenes
unfolding slot_scenes
cycle (array vs) =
    if length (items_list vs) == 3 then slot_scenes 0 (items_list vs) no_scenes else ok no_scenes
cycle _ = ok no_scenes

-- The buttons of a behavior, by their numbers; one that is not known has the number 0, and a number
-- above 3 panics.
unfoldable pub add_mappings : Dict ℕ → Fields → List (Option Button) → Result (List (Option Button))
unfolding jget get_string cycle get_or
add_mappings indexes no_fields buttons = ok buttons
add_mappings indexes (field id button fs) buttons = do
  room ← get_string (codes "where" ∷ codes "0" ∷ codes "group" ∷ codes "rid" ∷ []) button
  slots ←
      if ltb (get_or 0 id indexes) (length buttons)
      then jget (codes "on_short_release" ∷ codes "scene_cycle_extended" ∷ codes "slots" ∷ [])
          button
      else fail panics
  scenes ← cycle slots
  add_mappings indexes fs (
      set buttons (get_or 0 id indexes)
        (some (record { button_id = id; room_id = room; scenes = scenes })))

-- switches[switchID], whose fields cannot be set where it is nil
abbrev pub known : Option Switch → Result Switch
known none = fail panics
known (some sw) = ok sw

unfoldable pub add_behavior : Json → Bridge → Result Bridge
unfolding jget get_string is_text as_fields lookup insert add_mappings
add_behavior d b = do
  kind ← jget (codes "type" ∷ []) d
  if is_text kind (codes "behavior_instance")
      then (do
        switch_id ← get_string (codes "configuration" ∷ codes "device" ∷ codes "rid" ∷ []) d
        sw ← known (lookup switch_id b.switches)
        id ← get_string (codes "id" ∷ []) d
        mapped ← jget (codes "configuration" ∷ codes "buttons" ∷ []) d >>= as_fields
        buttons ← add_mappings b.button_indexes mapped sw.buttons
        ok (record b {
          switches =
              insert switch_id (record sw { behavior_id = id; buttons = buttons }) b.switches;
        }))
      else ok b

-- All that is extracted of the bridge's data
unfoldable pub extract : List Json → Result Bridge
unfolding for_each add_room add_switch add_scene verify add_behavior
extract entries = do
  rooms ← for_each add_room entries empty_bridge
  switches ← for_each add_switch entries rooms
  scenes ← for_each add_scene entries switches
  verified ← verify scenes.room_names scenes
  for_each add_behavior entries verified
