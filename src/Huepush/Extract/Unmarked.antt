-- ===== src/Huepush/Extract/Unmarked.antt =====
-- huepush/huepush.go: no switch is marked for an update when the bridge's data is read.
use mathlib.Core.Option.{some_inj}
use cfg.Base.{
  Bool-cases, List, Option, [], ap, false, if_split, if◌then◌else◌, inl, inr, none, refl, some,
  subst, suc, sym, ℕ, ◌∙◌, ◌∷◌, ◌≡◌,
}
use cfg.Text.{Text, codes, text_eq}
use cfg.Dict.{Dict, get_or, insert, lookup, lookup-insert}
use cfg.Huepush.State.{
  Bridge, Result, Switch, empty_bridge, fail, new_switch, no_scenes, ok, ok_inj, ◌>>=◌,
}
use cfg.Huepush.Json.{Json, as_fields, as_items, get_string, is_text, jget, null}
use cfg.Huepush.Extract.{
  add_behavior, add_buttons, add_level, add_mappings, add_room, add_scene, add_switch, check_scenes,
  extract, for_each, index_of, known, level_names, verify,
}

-- What holds of a result, if there is one
abbrev Ensures : {A : Type 0} → (A → Type 0) → Result A → Type 0
Ensures P (ok a) = P a
Ensures P (fail e) = Unit

Ensures-then :
    {A B : Type 0} (P : B → Type 0) (r : Result A) (f : A → Result B)
    → ((a : A) → Ensures P (f a))
    → Ensures P (r >>= f)
Ensures-then P (ok a) f h = h a
Ensures-then P (fail e) f h = tt

Ensures-bind :
    {A B : Type 0} (Q : A → Type 0) (P : B → Type 0) (r : Result A) (f : A → Result B)
    → Ensures Q r
    → ((a : A) → Q a → Ensures P (f a))
    → Ensures P (r >>= f)
Ensures-bind Q P (ok a) f q h = h a q
Ensures-bind Q P (fail e) f q h = tt

ensured : {A : Type 0} (P : A → Type 0) (r : Result A) (a : A) → Ensures P r → r ≡ ok a → P a
ensured P (ok b) a h e = subst P (ok_inj b a e) h
ensured P (fail e) a h k = absurd (cc)

-- No switch has to be updated.
abbrev pub AreUnmarked : Bridge → Type 0
AreUnmarked b = (id : Text) (sw : Switch) → lookup id b.switches ≡ some sw → sw.changed ≡ false

for_each-Ensures :
    {A : Type 0} (f : A → Bridge → Result Bridge)
    → ((a : A) (b : Bridge) → AreUnmarked b → Ensures AreUnmarked (f a b))
    → (l : List A) (b : Bridge) → AreUnmarked b
    → Ensures AreUnmarked (for_each f l b)
unfolding for_each
for_each-Ensures f h [] b u = u
for_each-Ensures f h (a ∷ l) b u =
    Ensures-bind AreUnmarked AreUnmarked (f a b) (for_each f l) (h a b u) (for_each-Ensures f h l)

add_room-Ensures : (d : Json) (b : Bridge) → AreUnmarked b → Ensures AreUnmarked (add_room d b)
unfolding add_room
add_room-Ensures d b u = Ensures-then AreUnmarked (get_string (codes "type" ∷ []) d) _ (λ kind.
    if_split (Ensures AreUnmarked) (text_eq kind (codes "room"))
      (λ _.
        Ensures-then AreUnmarked (get_string (codes "metadata" ∷ codes "name" ∷ []) d) _
          (λ name. Ensures-then AreUnmarked (get_string (codes "id" ∷ []) d) _ (λ id. u)))
      (λ _. u))

add_buttons-Ensures :
    (n : ℕ) (ss : List Json) (b : Bridge) → AreUnmarked b → Ensures AreUnmarked (add_buttons n ss b)
unfolding add_buttons
add_buttons-Ensures n [] b u = u
add_buttons-Ensures n (s ∷ ss) b u =
    Ensures-then AreUnmarked (jget (codes "rtype" ∷ []) s) _ (λ rtype.
      if_split (Ensures AreUnmarked) (is_text rtype (codes "button"))
        (λ _. Ensures-then AreUnmarked (get_string (codes "rid" ∷ []) s) _ (λ id.
          add_buttons-Ensures (suc n) ss
            (record b { button_indexes = insert id n b.button_indexes }) u))
        (λ _. add_buttons-Ensures n ss b u))

insert-AreUnmarked :
    (id : Text) (sw : Switch) (b : Bridge)
    → sw.changed ≡ false
    → AreUnmarked b
    → AreUnmarked (record b { switches = insert id sw b.switches })
insert-AreUnmarked id sw b h u j w there = elim (Bool-cases (text_eq id j)) [
  | inl e ↦
      let same : sw ≡ w = some_inj.0 (rw (lookup-insert id j sw b.switches, e) at there) in
      ap (λ (v : Switch). v.changed) (sym same) ∙ h
  | inr e ↦ u j w (rw (lookup-insert id j sw b.switches, e) at there)
]

add_switch-Ensures : (d : Json) (b : Bridge) → AreUnmarked b → Ensures AreUnmarked (add_switch d b)
unfolding add_switch
add_switch-Ensures d b u = Ensures-then AreUnmarked (get_string (codes "type" ∷ []) d) _ (λ kind.
    Ensures-then AreUnmarked
      (if text_eq kind (codes "device")
        then jget (codes "product_data" ∷ codes "model_id" ∷ []) d
        else ok null)
      _ with_model)
  where
    with_model :
        (model : Json)
        → Ensures AreUnmarked (
            if is_text model (codes "RWL022")
            then (get_string (codes "metadata" ∷ codes "name" ∷ []) d >>= λ name.
                get_string (codes "id" ∷ []) d >>= λ id.
                (jget (codes "services" ∷ []) d >>= as_items) >>= λ services.
                add_buttons 0 services (record b {
                  switch_ids = insert name id b.switch_ids;
                  switches = insert id (new_switch id name) b.switches;
                }))
            else ok b)
    with_model model =
        if_split (Ensures AreUnmarked) (is_text model (codes "RWL022"))
          (λ _.
            Ensures-then AreUnmarked (get_string (codes "metadata" ∷ codes "name" ∷ []) d) _
              (λ name. Ensures-then AreUnmarked (get_string (codes "id" ∷ []) d) _ (λ id.
                Ensures-then AreUnmarked (jget (codes "services" ∷ []) d >>= as_items) _
                  (λ services.
                    add_buttons-Ensures 0 services _
                      (insert-AreUnmarked id (new_switch id name) b refl u)))))
          (λ _. u)

add_level-AreUnmarked :
    (room id : Text) (b : Bridge) (level : Option ℕ)
    → AreUnmarked b
    → AreUnmarked (add_level room id b level)
unfolding add_level
add_level-AreUnmarked room id b none u = u
add_level-AreUnmarked room id b (some level) u = u

add_scene-Ensures : (d : Json) (b : Bridge) → AreUnmarked b → Ensures AreUnmarked (add_scene d b)
unfolding add_scene
add_scene-Ensures d b u = Ensures-then AreUnmarked (jget (codes "type" ∷ []) d) _ (λ kind.
    if_split (Ensures AreUnmarked) (is_text kind (codes "scene"))
      (λ _.
        Ensures-then AreUnmarked (get_string (codes "metadata" ∷ codes "name" ∷ []) d) _ (λ name.
          Ensures-then AreUnmarked (get_string (codes "group" ∷ codes "rid" ∷ []) d) _ (λ room.
            Ensures-then AreUnmarked (get_string (codes "id" ∷ []) d) _ (λ id.
              add_level-AreUnmarked room id
                (record b { scene_names = insert id name b.scene_names })
                (index_of name level_names) u))))
      (λ _. u))

verify-Ensures :
    (rooms : Dict Text) (b : Bridge) → AreUnmarked b → Ensures AreUnmarked (verify rooms b)
unfolding verify
verify-Ensures [] b u = u
verify-Ensures ((id, name) ∷ rooms) b u =
    Ensures-then AreUnmarked (check_scenes name (get_or no_scenes id b.room_scenes)) _
      (λ _. verify-Ensures rooms b u)

known-Ensures :
    (o : Option Switch) (P : Switch → Type 0)
    → ((sw : Switch) → o ≡ some sw → P sw)
    → Ensures P (known o)
known-Ensures none P h = tt
known-Ensures (some sw) P h = h sw refl

add_behavior-Ensures :
    (d : Json) (b : Bridge) → AreUnmarked b → Ensures AreUnmarked (add_behavior d b)
unfolding add_behavior
add_behavior-Ensures d b u = Ensures-then AreUnmarked (jget (codes "type" ∷ []) d) _ (λ kind.
    if_split (Ensures AreUnmarked) (is_text kind (codes "behavior_instance"))
      (λ _.
        Ensures-then AreUnmarked
          (get_string (codes "configuration" ∷ codes "device" ∷ codes "rid" ∷ []) d) _
          (λ id.
            Ensures-bind (λ sw. sw.changed ≡ false) AreUnmarked (known (lookup id b.switches)) _
              (known-Ensures (lookup id b.switches) (λ sw. sw.changed ≡ false) (u id))
              (λ sw unmarked.
                Ensures-then AreUnmarked (get_string (codes "id" ∷ []) d) _
                  (λ instance_id. mapping id sw unmarked instance_id))))
      (λ _. u))
  where
    mapping :
        (id : Text) (sw : Switch)
        → sw.changed ≡ false
        → (instance_id : Text)
        → Ensures AreUnmarked (
            (jget (codes "configuration" ∷ codes "buttons" ∷ []) d >>= as_fields) >>= λ mapped.
            add_mappings b.button_indexes mapped sw.buttons >>= λ buttons. ok (record b {
              switches =
                  insert id (record sw { behavior_id = instance_id; buttons = buttons }) b.switches;
            }))
    mapping id sw unmarked instance_id =
        Ensures-then AreUnmarked
          (jget (codes "configuration" ∷ codes "buttons" ∷ []) d >>= as_fields) _
          (λ mapped.
            Ensures-then AreUnmarked (add_mappings b.button_indexes mapped sw.buttons) _ (λ buttons.
              insert-AreUnmarked id (record sw { behavior_id = instance_id; buttons = buttons }) b
                unmarked u))

extract-Ensures : (entries : List Json) → Ensures AreUnmarked (extract entries)
unfolding extract
extract-Ensures entries =
    Ensures-bind AreUnmarked AreUnmarked (for_each add_room entries empty_bridge) _
      (for_each-Ensures add_room add_room-Ensures entries empty_bridge none_yet)
      (λ rooms u1.
        Ensures-bind AreUnmarked AreUnmarked (for_each add_switch entries rooms) _
          (for_each-Ensures add_switch add_switch-Ensures entries rooms u1)
          (λ switches u2.
            Ensures-bind AreUnmarked AreUnmarked (for_each add_scene entries switches) _
              (for_each-Ensures add_scene add_scene-Ensures entries switches u2)
              (λ scenes u3.
                Ensures-bind AreUnmarked AreUnmarked (verify scenes.room_names scenes) _
                  (verify-Ensures scenes.room_names scenes u3)
                  (λ verified u4.
                    for_each-Ensures add_behavior add_behavior-Ensures entries verified u4))))
  where
    none_yet : AreUnmarked empty_bridge
    none_yet id sw there = unfold lookup in cc

-- Whatever the bridge answers, no switch is marked for an update by reading it.
pub extract-AreUnmarked :
    (entries : List Json) (b : Bridge) → extract entries ≡ ok b → AreUnmarked b
extract-AreUnmarked entries b h =
    ensured AreUnmarked (extract entries) b (extract-Ensures entries) h
