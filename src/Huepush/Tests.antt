-- ===== src/Huepush/Tests.antt =====
-- huepush/huepush.go on a bridge with a room and a switch.
use cfg.Base.{Bool, List, Option, [], false, inl, inr, none, refl, some, true, ◌∷◌, ◌≡◌}
use cfg.Text.{Text, codes, split, text_eq, trim_space}
use cfg.Text.Sort.{sort}
use cfg.Dict.{get_or, keys, lookup}
use cfg.Huepush.State.{Bridge, Button, Scenes, Switch, fail, no_scenes, ok, panics, update_failed}
use cfg.Huepush.Json.{Fields, Items, Json, array, field, item, no_fields, no_items, object, string}
use cfg.Huepush.Extract.{extract}
use cfg.Huepush.Intent.{Wish, at_button, at_switch, grant, grant_all, is_skipped}
use cfg.Huepush.Intent.Reaches.{HasWish, grant-HasWish, grant_all-unmarked, grant_twice}
use cfg.Huepush.Dump.{dump}
use cfg.Huepush.Push.Quiet.{run_with-satisfied}
use cfg.Huepush.Template.{push_switch-unmapped, render, render_scene}
use cfg.Huepush.Push.{Environment, load_bridge, push, push_switch, run, run_with}

abbrev named : Text → Text → Fields → Json
named kind id more =
    object (field (codes "type") (string kind) (field (codes "id") (string id) more))

abbrev metadata : Text → Fields
metadata name =
    field (codes "metadata") (object (field (codes "name") (string name) no_fields)) no_fields

abbrev rid : Text → Json
rid id = object (field (codes "rid") (string id) no_fields)

abbrev scene : Text → Text → Json
scene name id = named (codes "scene") id (field (codes "group") (rid (codes "r1")) (metadata name))

abbrev device : Json
device = named (codes "device") (codes "s1") (
    field (codes "product_data")
      (object (field (codes "model_id") (string (codes "RWL022")) no_fields))
      (field (codes "services")
        (array (
          item
            (object (
              field (codes "rtype") (string (codes "button"))
                (field (codes "rid") (string (codes "b0")) no_fields)))
            no_items))
        (metadata (codes "Door"))))

abbrev behavior : Text → Json
behavior device_id = named (codes "behavior_instance") (codes "i1") (
    field (codes "configuration")
      (object (
        field (codes "device") (rid device_id) (
          field (codes "buttons")
            (object (
              field (codes "b0")
                (object (
                  field (codes "where")
                    (array
                      (item (object (field (codes "group") (rid (codes "r1")) no_fields)) no_items))
                    no_fields))
                no_fields))
            no_fields)))
      no_fields)

abbrev entries : Text → List Json
entries device_id =
    named (codes "room") (codes "r1") (metadata (codes "Den"))
    ∷ device
    ∷ scene (codes "low") (codes "l")
    ∷ scene (codes "mid") (codes "m")
    ∷ scene (codes "high") (codes "h")
    ∷ behavior device_id
    ∷ []

abbrev button : Scenes → Button
button s = record { button_id = codes "b0"; room_id = codes "r1"; scenes = s }

abbrev switch : Scenes → Bool → Switch
switch s c = record {
  behavior_id = codes "i1";
  switch_id = codes "s1";
  switch_name = codes "Door";
  buttons = some (button s) ∷ none ∷ none ∷ none ∷ [];
  changed = c;
}

abbrev levels : Scenes
levels = record { low = codes "l"; mid = codes "m"; high = codes "h" }

abbrev bridge : Scenes → Bool → Bridge
bridge s c = record {
  switches = (codes "s1", switch s c) ∷ [];
  switch_ids = (codes "Door", codes "s1") ∷ [];
  room_names = (codes "r1", codes "Den") ∷ [];
  room_ids = (codes "Den", codes "r1") ∷ [];
  room_scenes = (codes "r1", levels) ∷ [];
  scene_names =
      (codes "l", codes "low") ∷ (codes "m", codes "mid") ∷ (codes "h", codes "high") ∷ [];
  button_indexes = (codes "b0", 0) ∷ [];
}

extracted : extract (entries (codes "s1")) ≡ ok (bridge no_scenes false)
unfolding extract
extracted = refl

-- A behavior of a device that is no switch of this kind panics.
other_device : extract (entries (codes "s2")) ≡ fail panics
unfolding extract
other_device = refl

abbrev wish : Wish
wish = record { switch = codes "Door"; index = some 0; room = codes "Den" }

granted_wish : grant 1 wish (bridge no_scenes false) ≡ ok (bridge levels true)
unfolding grant at_switch at_button
granted_wish = refl

grant-HasWish_example : HasWish wish (bridge levels true)
grant-HasWish_example =
    grant-HasWish 1 wish (bridge no_scenes false) (bridge levels true) granted_wish

granted_again : grant 1 wish (bridge levels true) ≡ ok (bridge levels true)
granted_again = grant_twice 1 wish (bridge no_scenes false) (bridge levels true) granted_wish

abbrev scan : Text → Option Wish
scan s = some wish

at_intent :
    grant_all scan 0
      (codes "# me" ∷ codes "huekey k" ∷ codes "Door 0 Den" ∷ [])
      (bridge levels false)
    ≡ ok (bridge levels false)
unfolding grant_all
at_intent = refl

grant_all-unmarked_example :
    lookup (codes "s1") (bridge levels false).switches ≡ some (switch levels false)
unfolding lookup text_eq
grant_all-unmarked_example =
    grant_all-unmarked scan 0 (codes "# me" ∷ codes "huekey k" ∷ codes "Door 0 Den" ∷ [])
      (bridge levels false) (bridge levels false) (codes "s1") (switch levels false) at_intent refl
      refl

abbrev environment : Environment
environment = record {
  execute = λ sw. some sw.switch_name;
  put = λ address body. some 200;
  get = λ address. some (200, object (field (codes "data") (array no_items) no_fields));
  scan = scan;
  cfg_bytes = some (codes "hueaddress a\nhuekey k\n");
}

pushed : push environment true (codes "a") (ok (bridge levels true)) ≡ (
  record { address = codes "a/clip/v2/resource/behavior_instance/i1"; body = codes "Door" } ∷ [],
  ok tt,
)
unfolding push text_eq
pushed = refl

nothing_to_do : run environment true ≡ ([], ok tt)
unfolding run
nothing_to_do = refl

dumped :
    dump (entries (codes "s1")) (bridge levels false)
    ≡ ok (record { room = codes "Den"; group = codes "?"; scenes = levels } ∷ [])
unfolding dump sort get_or keys
dumped = refl

abbrev slot : Text → Json
slot id = array (
    item
      (object
        (field (codes "action") (object (field (codes "recall") (rid id) no_fields)) no_fields))
      no_items)

abbrev slots : Json
slots = array (item (slot (codes "l")) (item (slot (codes "m")) (item (slot (codes "h")) no_items)))

-- The room of a button, and the scenes that a press goes through
abbrev action : Json
action = object (
    field (codes "where")
      (array (item (object (field (codes "group") (rid (codes "r1")) no_fields)) no_items))
      (field (codes "on_short_release")
        (object (
          field (codes "scene_cycle_extended") (object (field (codes "slots") slots no_fields))
            no_fields))
        no_fields))

abbrev behaving : Json
behaving = named (codes "behavior_instance") (codes "i1") (
    field (codes "configuration")
      (object (
        field (codes "device") (rid (codes "s1"))
          (field (codes "buttons") (object (field (codes "b0") action no_fields)) no_fields)))
      no_fields)

abbrev items_of : List Json → Items
items_of [] = no_items
items_of (d ∷ ds) = item d (items_of ds)

-- A bridge whose switch has the room and its scenes
abbrev settled_environment : Environment
settled_environment = record environment {
  get = λ address. some (
    200,
    object (
        field (codes "data")
          (array (
            items_of (
              named (codes "room") (codes "r1") (metadata (codes "Den"))
              ∷ device
              ∷ scene (codes "low") (codes "l")
              ∷ scene (codes "mid") (codes "m")
              ∷ scene (codes "high") (codes "h")
              ∷ behaving
              ∷ [])))
          no_fields),
  );
}

loaded : load_bridge settled_environment (codes "a") ≡ ok (bridge levels false)
unfolding load_bridge
loaded = refl

run_with-satisfied_example :
    run_with settled_environment true (codes "# me\nDoor 0 Den") (ok (codes "a", codes "k"))
    ≡ ([], ok tt)
unfolding split is_skipped trim_space get_or text_eq
run_with-satisfied_example =
    run_with-satisfied settled_environment (codes "# me\nDoor 0 Den") (codes "a") (codes "k")
      (bridge levels false) loaded
      (
        inl refl,
        (
          inr (
            wish,
            refl,
            record {
              has_wish = record {
                switch = switch levels false;
                i = 0;
                button = button levels;
                is_known = refl;
                at_index = refl;
                is_there = refl;
                in_room = refl;
                has_scenes = refl;
              };
              has_switch = λ e. cc;
              has_room = λ e. cc;
            },
          ),
          tt,
        ),
      )

-- Only the first of the four buttons is mapped.
unmapped :
    push_switch
      (record environment { execute = render })
      (codes "a")
      (codes "Door")
      (some (switch levels true))
      ([], ok tt)
    ≡ ([], fail (update_failed (codes "Door")))
unmapped =
    push_switch-unmapped environment (codes "a") (codes "Door") (switch levels true)
      (some (button levels) ∷ []) (none ∷ none ∷ []) ([], ok tt) refl

rendered_slot :
    render_scene 2 (codes "h")
    ≡ codes
        "\n\t\t\t\t\t\t\t[{\n\t\t\t\t\t\t\t\t\"action\": {\n\t\t\t\t\t\t\t\t\t\"recall\": {\"rtype\": \"scene\", \"rid\": \"h\"}\n\t\t\t\t\t\t\t\t}\n\t\t\t\t\t\t\t}]\n\t\t\t\t\t\t\t"
unfolding render_scene
rendered_slot = refl
