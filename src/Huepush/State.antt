-- ===== src/Huepush/State.antt =====
-- huepush/huepush.go: the switches, rooms and scenes of the bridge.
use cfg.Base.{Bool, List, Option, [], ap, false, none, refl, suc, zero, ℕ, ◌&&◌, ◌∷◌, ◌≡◌}
use cfg.Text.{Text, text_eq}
use cfg.Dict.{Dict}

pub data Fault : Type 0 where
  panics missing_bridge_data : Fault
  unreadable request_failed unmarshal_failed : Fault
  missing_scene : (room scene : Text) → Fault
  parse_line : (lineno : ℕ) → Fault
  switch_not_found : (switch : Text) (lineno : ℕ) → Fault
  room_not_found : (room : Text) (lineno : ℕ) → Fault
  invalid_button_index : (lineno : ℕ) → Fault
  update_failed : (switch : Text) → Fault

pub data Result (A : Type 0) : Type 0 where
  ok : A → Result A
  fail : Fault → Result A

infixl 5 ◌>>=◌
abbrev pub ◌>>=◌ : {A B : Type 0} → Result A → (A → Result B) → Result B
ok a >>= f = f a
fail e >>= f = fail e

-- The type [3]SceneID
pub record Scenes : Type 0 where
  pub low : Text
  pub mid : Text
  pub high : Text

abbrev pub no_scenes : Scenes
no_scenes = record { low = []; mid = []; high = [] }

unfoldable pub scenes_eq : Scenes → Scenes → Bool
unfolding text_eq
scenes_eq a b = text_eq a.low b.low && text_eq a.mid b.mid && text_eq a.high b.high

-- scenes[level] = id
unfoldable pub set_scene : ℕ → Text → Scenes → Scenes
set_scene zero id s = record s { low = id }
set_scene (suc zero) id s = record s { mid = id }
set_scene (suc (suc level)) id s = record s { high = id }

-- buttondesc
pub record Button : Type 0 where
  pub button_id : Text
  pub room_id : Text
  pub scenes : Scenes

-- switchdesc; `none` is a nil pointer.
pub record Switch : Type 0 where
  pub behavior_id : Text
  pub switch_id : Text
  pub switch_name : Text
  pub buttons : List (Option Button)
  pub changed : Bool

abbrev pub new_switch : (id name : Text) → Switch
new_switch id name = record {
  behavior_id = [];
  switch_id = id;
  switch_name = name;
  buttons = none ∷ none ∷ none ∷ none ∷ [];
  changed = false;
}

-- The maps of Run
pub record Bridge : Type 0 where
  pub switches : Dict Switch
  pub switch_ids : Dict Text
  pub room_names : Dict Text
  pub room_ids : Dict Text
  pub room_scenes : Dict Scenes
  pub scene_names : Dict Text
  pub button_indexes : Dict ℕ

abbrev pub empty_bridge : Bridge
empty_bridge = record {
  switches = [];
  switch_ids = [];
  room_names = [];
  room_ids = [];
  room_scenes = [];
  scene_names = [];
  button_indexes = [];
}

abbrev pub result_of : {A : Type 0} → A → Result A → A
result_of d (ok a) = a
result_of d (fail e) = d

pub ok_inj : {A : Type 0} (a b : A) → ok a ≡ ok b → a ≡ b
ok_inj a b e = ap (result_of a) e

pub bind-ok :
    {A B : Type 0} (r : Result A) (f : A → Result B) (b : B)
    → (r >>= f) ≡ ok b
    → (a : A) × (r ≡ ok a) × (f a ≡ ok b)
bind-ok (ok a) f b h = (a, refl, h)
bind-ok (fail e) f b h = absurd (cc)
