-- ===== src/Huepush/Json.antt =====
-- huepush/huepush.go: jget on the values that package encoding/json makes of a text.
use cfg.Base.{Bool, List, Option, [], false, if◌then◌else◌, none, some, suc, zero, ℕ, ◌∷◌}
use cfg.Text.{Text, codes, text_eq}
use cfg.Huepush.State.{Result, fail, ok, panics, ◌>>=◌}

mutual
  pub data Json : Type 0 where
    null : Json
    boolean : Bool → Json
    number : Text → Json
    string : Text → Json
    array : Items → Json
    object : Fields → Json

  pub data Items : Type 0 where
    no_items : Items
    item : Json → Items → Items

  pub data Fields : Type 0 where
    no_fields : Fields
    field : Text → Json → Fields → Fields

abbrev pub items_list : Items → List Json
items_list no_items = []
items_list (item v vs) = v ∷ items_list vs

-- An index out of range panics.
unfoldable pub item_at : ℕ → Items → Result Json
item_at n no_items = fail panics
item_at zero (item v vs) = ok v
item_at (suc n) (item v vs) = item_at n vs

unfoldable pub field_at : Text → Fields → Json
unfolding text_eq
field_at k no_fields = null
field_at k (field j v fs) = let later = field_at k fs in if text_eq j k then v else later

-- strconv.Atoi for the elements of the paths, of which only "0" is a number
unfoldable pub path_index : Text → Option ℕ
unfolding text_eq
path_index p = if text_eq p (codes "0") then some 0 else none

-- One element of a path, on a value that is not nil
abbrev pub step_into : Option ℕ → Text → Json → Result Json
step_into (some i) p (array vs) = item_at i vs
step_into none p (object fs) = ok (field_at p fs)
step_into _ p _ = fail panics

-- jget
unfoldable pub jget : List Text → Json → Result Json
unfolding item_at field_at path_index
jget [] v = ok v
jget (p ∷ ps) null = ok null
jget (p ∷ ps) (boolean b) = fail panics
jget (p ∷ ps) (number t) = fail panics
jget (p ∷ ps) (string t) = fail panics
jget (p ∷ ps) (array vs) = step_into (path_index p) p (array vs) >>= jget ps
jget (p ∷ ps) (object fs) = step_into (path_index p) p (object fs) >>= jget ps

-- v.(string), which panics
unfoldable pub as_string : Json → Result Text
as_string (string t) = ok t
as_string _ = fail panics

-- v.([]any), which panics
unfoldable pub as_items : Json → Result (List Json)
as_items (array vs) = ok (items_list vs)
as_items _ = fail panics

unfoldable pub as_fields : Json → Result Fields
as_fields (object fs) = ok fs
as_fields _ = fail panics

-- v == "text", which is false of another kind of value
unfoldable pub is_text : Json → Text → Bool
unfolding text_eq
is_text (string s) t = text_eq s t
is_text _ t = false

unfoldable pub get_string : List Text → Json → Result Text
unfolding jget as_string
get_string path v = jget path v >>= as_string
