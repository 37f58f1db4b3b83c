-- ===== src/Huepush/Dump.antt =====
-- huepush/huepush.go: what the flag -dump prints, a row for each room in the order of the names.
use cfg.Base.{List, [], if◌then◌else◌, none, some, ◌∷◌}
use cfg.Text.{Text, codes, text_eq}
use cfg.Text.Sort.{sort}
use cfg.Dict.{get_or, keys}
use cfg.Huepush.State.{Bridge, Result, Scenes, no_scenes, ok, ◌>>=◌}
use cfg.Huepush.Json.{Json, get_string, is_text, jget}

pub record Row : Type 0 where
  pub room : Text
  pub group : Text
  pub scenes : Scenes

-- The first grouped light that the room owns; a value of another shape panics.
unfoldable pub group_of : (room_id : Text) → List Json → Result Text
unfolding jget get_string is_text text_eq
group_of room_id [] = ok (codes "?")
group_of room_id (d ∷ ds) = do
  kind ← jget (codes "type" ∷ []) d
  owner ←
      if is_text kind (codes "grouped_light")
      then get_string (codes "owner" ∷ codes "rid" ∷ []) d >>= (λ t. ok (some t))
      else ok none
  elim owner [
    | none ↦ group_of room_id ds
    | some t ↦ if text_eq t room_id then get_string (codes "id" ∷ []) d else group_of room_id ds
  ]

unfoldable pub rows_of : List Json → Bridge → List Text → Result (List Row)
unfolding group_of get_or
rows_of entries b [] = ok []
rows_of entries b (name ∷ names) = do
  group ← group_of (get_or [] name b.room_ids) entries
  rest ← rows_of entries b names
  ok (
      record {
        room = name;
        group = group;
        scenes = get_or no_scenes (get_or [] name b.room_ids) b.room_scenes;
      }
      ∷ rest)

unfoldable pub dump : List Json → Bridge → Result (List Row)
unfolding rows_of sort keys
dump entries b = rows_of entries b (sort (keys b.room_ids))
