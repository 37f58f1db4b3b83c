-- ===== src/Huepush/Template.antt =====
-- huepush/huepush.go, switchTemplate: the body of an update, as package text/template fills it in.
use cfg.Base.{
  List, Option, [], ap, if◌then◌else◌, ltb, none, refl, some, suc, ℕ, ◌++◌, ◌∙◌, ◌∷◌, ◌≡◌,
}
use cfg.Text.{Text, codes}
use cfg.Huepush.Push.{Environment, Pushed, push_switch}
use cfg.Huepush.State.{Button, Scenes, Switch, fail, update_failed}

-- The text behind an item of a range, but for the last one
abbrev pub comma : (i last : ℕ) → Text
comma i last = if ltb i last then codes "," else []

unfoldable pub render_scene : (j : ℕ) → (scene : Text) → Text
render_scene j scene =
    codes
      "\n\t\t\t\t\t\t\t[{\n\t\t\t\t\t\t\t\t\"action\": {\n\t\t\t\t\t\t\t\t\t\"recall\": {\"rtype\": \"scene\", \"rid\": \""
    ++ (scene
        ++ (codes "\"}\n\t\t\t\t\t\t\t\t}\n\t\t\t\t\t\t\t}]"
            ++ (comma j 2 ++ codes "\n\t\t\t\t\t\t\t")))

unfoldable pub render_scenes : Scenes → Text
unfolding render_scene
render_scenes s = render_scene 0 s.low ++ (render_scene 1 s.mid ++ render_scene 2 s.high)

unfoldable pub render_button : (i : ℕ) → Button → Text
unfolding render_scenes
render_button i b =
    codes "\n\t\t\t\""
    ++ (b.button_id
        ++ (codes "\": {\n\t\t\t\t\"where\": [{\"group\": {\"rtype\": \"room\", \"rid\": \""
            ++ (b.room_id
                ++ (codes
                      "\"}}],\n\t\t\t\t\"on_long_press\": {\"action\": \"do_nothing\"},\n\t\t\t\t\"on_short_release\": {\n\t\t\t\t\t\"scene_cycle_extended\": {\n\t\t\t\t\t\t\"repeat_timeout\": {\"seconds\": 2},\n\t\t\t\t\t\t\"with_off\": {\"enabled\": true},\n\t\t\t\t\t\t\"slots\": [\n\t\t\t\t\t\t\t"
                    ++ (render_scenes b.scenes
                        ++ (codes "\n\t\t\t\t\t\t]\n\t\t\t\t\t}\n\t\t\t\t}\n\t\t\t}"
                            ++ (comma i 3 ++ codes "\n\t\t\t")))))))

-- The range over the buttons; the fields of a nil pointer cannot be filled in.
unfoldable pub render_buttons : (i : ℕ) → List (Option Button) → Option Text
unfolding render_button
render_buttons i [] = some []
render_buttons i (none ∷ bs) = none
render_buttons i (some b ∷ bs) = elim (render_buttons (suc i) bs) [
  | none ↦ none
  | some rest ↦ some (render_button i b ++ rest)
]

abbrev pub rendered : Switch → Option Text → Option Text
rendered sw none = none
rendered sw (some buttons) = some (
    codes "{\n\t\"enabled\": true,\n\t\"metadata\": {\"name\": \""
    ++ (sw.switch_name
        ++ (codes
              "\"},\n\t\"configuration\": {\n\t\t\"model_id\": \"RWL022\",\n\t\t\"device\": {\"rid\": \""
            ++ (sw.switch_id
                ++ (codes "\", \"rtype\": \"device\"},\n\t\t\"buttons\": {\n\t\t\t"
                    ++ (buttons ++ codes "\n\t\t}\n\t}\n}\n"))))))

-- tmpl.Execute
unfoldable pub render : Switch → Option Text
unfolding render_buttons
render sw = rendered sw (render_buttons 0 sw.buttons)

render_buttons-unmapped :
    (i : ℕ) (first later : List (Option Button)) → render_buttons i (first ++ none ∷ later) ≡ none
unfolding render_buttons
render_buttons-unmapped i [] later = refl
render_buttons-unmapped i (none ∷ first) later = refl
render_buttons-unmapped i (some b ∷ first) later =
    rw (render_buttons-unmapped (suc i) first later) refl

render-unmapped :
    (sw : Switch) (first later : List (Option Button))
    → sw.buttons ≡ first ++ none ∷ later
    → render sw ≡ none
unfolding render
render-unmapped sw first later h =
    ap (λ bs. rendered sw (render_buttons 0 bs)) h
    ∙ ap (rendered sw) (render_buttons-unmapped 0 first later)

-- Where a button of a switch is not mapped the template fails, so that the update ends with a fault
-- and sends nothing for that switch or a later one.
pub push_switch-unmapped :
    (env : Environment) (host name : Text) (sw : Switch) (first later : List (Option Button))
    (rest : Pushed)
    → sw.buttons ≡ first ++ none ∷ later
    → push_switch (record env { execute = render }) host name (some sw) rest
      ≡ ([], fail (update_failed name))
push_switch-unmapped env host name sw first later rest h =
    rw (render-unmapped sw first later h, push_switch) refl
