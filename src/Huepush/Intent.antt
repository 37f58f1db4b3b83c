-- ===== src/Huepush/Intent.antt =====
-- huepush/huepush.go: the loop that loads and checks the intent.
pub mod Laws
pub mod Reaches
use cfg.Base.{
  Bool, List, Option, [], get_elem?, if◌then◌else◌, none, not, set, some, suc, true, ℕ, ◌==◌, ◌||◌,
  ◌∷◌,
}
use cfg.Text.{Text, codes, has_prefix, text_eq, trim_space}
use cfg.Dict.{get_or, insert, lookup}
use cfg.Huepush.State.{
  Bridge, Button, Result, Scenes, Switch, fail, invalid_button_index, no_scenes, ok, panics,
  parse_line, room_not_found, scenes_eq, switch_not_found, ◌>>=◌,
}

-- A line of the intent. The index is `none` where it is negative.
pub record Wish : Type 0 where
  pub switch : Text
  pub index : Option ℕ
  pub room : Text

-- The button after a wish for its room, and whether its switch has to be updated.
unfoldable pub settle : (room_id : Text) → Scenes → (changed : Bool) → Button → Button × Bool
unfolding text_eq scenes_eq
settle room_id scenes changed bd =
    let want = record bd { room_id = room_id; scenes = scenes } in
    if not (text_eq bd.room_id room_id)
    then (want, true)
    else if changed || not (scenes_eq bd.scenes scenes)
    then (want, true)
    else (bd, changed)

abbrev pub put_button : ℕ → Switch → Button × Bool → Switch
put_button i sw (bd, changed) = record sw {
  buttons = set sw.buttons i (some bd);
  changed = changed;
}

-- sw.Buttons[buttonIndex], whose fields cannot be read where it is nil; out of range is `none`.
unfoldable pub at_button :
    ℕ → (room_id : Text) → Scenes → Switch → ℕ → Option (Option Button) → Result Switch
unfolding settle
at_button lineno room_id scenes sw i none = fail (invalid_button_index lineno)
at_button lineno room_id scenes sw i (some none) = fail panics
at_button lineno room_id scenes sw i (some (some bd)) =
    ok (put_button i sw (settle room_id scenes sw.changed bd))

unfoldable pub at_switch : ℕ → (room_id : Text) → Scenes → Switch → Option ℕ → Result Switch
unfolding at_button
at_switch lineno room_id scenes sw none = fail (invalid_button_index lineno)
at_switch lineno room_id scenes sw (some i) =
    at_button lineno room_id scenes sw i (get_elem? sw.buttons i)

-- switches[switchID], whose fields cannot be read where it is nil
abbrev pub found : Option Switch → Result Switch
found none = fail panics
found (some sw) = ok sw

-- The body of the loop, behind the parsing of the line.
unfoldable pub grant : ℕ → Wish → Bridge → Result Bridge
unfolding get_or lookup insert at_switch text_eq
grant lineno wish b =
    let switch_id = get_or [] wish.switch b.switch_ids in
    let room_id = get_or [] wish.room b.room_ids in
    if text_eq switch_id []
    then fail (switch_not_found wish.switch lineno)
    else if text_eq room_id []
    then fail (room_not_found wish.room lineno)
    else found (lookup switch_id b.switches) >>= λ sw.
        at_switch lineno room_id (get_or no_scenes room_id b.room_scenes) sw wish.index >>= λ after.
        ok (record b { switches = insert switch_id after b.switches })

-- The lines that are no wishes
unfoldable pub is_skipped : Text → Bool
unfolding has_prefix
is_skipped [] = true
is_skipped (c ∷ s) = c == b'#' || has_prefix (c ∷ s) (codes "hue")

unfoldable pub granted : ℕ → Bridge → Option Wish → Result Bridge
unfolding grant
granted lineno b none = fail (parse_line lineno)
granted lineno b (some wish) = grant lineno wish b

-- The loop over the lines. `scan` stands for fmt.Fscanf.
unfoldable pub grant_all : (scan : Text → Option Wish) → ℕ → List Text → Bridge → Result Bridge
unfolding granted is_skipped trim_space
grant_all scan n [] b = ok b
grant_all scan n (line ∷ lines) b =
    let text = trim_space line in
    (if is_skipped text then ok b else granted (suc n) b (scan text))
    >>= grant_all scan (suc n) lines
