-- ===== src/Bm/Item.antt =====
-- utils/bm.go: readContent, which picks an item of a todo file.
pub mod Section
use cfg.Base.{
  Bool, Option, [], foldl, if◌then◌else◌, leb, length, ltb, none, some, ℕ, ◌&&◌, ◌++◌, ◌+◌, ◌==◌,
  ◌||◌, ◌∷◌,
}
use cfg.Text.{Text, is_space, split, text_eq}

-- unicode.IsSpace of one byte
unfoldable pub is_space_byte : ℕ → Bool
unfolding is_space
is_space_byte c = is_space c || c == 133 || c == 160

-- The bytes up to white space
unfoldable pub name_of : Text → Text
unfolding is_space_byte
name_of [] = []
name_of (c ∷ s) = let rest = name_of s in if is_space_byte c then [] else c ∷ rest

pub data Line : Type 0 where
  passed_over plain : Line
  header : (name : Text) → Line

abbrev pub named : Text → Line
named [] = plain
named (c ∷ s) = header (c ∷ s)

-- What a line is to the loop.
unfoldable pub kind_of : Text → Line
unfolding name_of
kind_of [] = plain
kind_of (c ∷ []) = plain
kind_of (c ∷ d ∷ s) =
    if c == b'#' && leb b'0' d
    then (if ltb b'z' d then passed_over else named (name_of (d ∷ s)))
    else plain

-- curItem and todoContent
pub record Picked : Type 0 where
  pub current : Text
  pub content : Text

unfoldable pub add_line : Text → Picked → Text → Picked
unfolding text_eq
add_line tag p line =
    if text_eq p.current tag && ltb 0 (length p.content + length line)
    then record p { content = p.content ++ line ++ b'\n' ∷ [] }
    else p

abbrev pub pick_as : Text → Picked → Text → Line → Picked
pick_as tag p line passed_over = p
pick_as tag p line plain = add_line tag p line
pick_as tag p line (header name) = record p { current = name }

-- The body of the loop.
unfoldable pub pick_line : Text → Picked → Text → Picked
unfolding add_line kind_of
pick_line tag p line = pick_as tag p line (kind_of line)

unfoldable pub pick_item : Text → Text → Text
unfolding pick_line split
pick_item tag content =
    (foldl (pick_line tag) (record { current = []; content = [] }) (split b'\n' content)).content

abbrev pub found : Text → Option Text
found [] = none
found (c ∷ s) = some (c ∷ s)

-- readContent, with the file's contents or `none` for an error
unfoldable pub read_content : (tag : Text) → Option Text → Option Text
unfolding pick_item
read_content tag none = none
read_content [] (some content) = some content
read_content (c ∷ tag) (some content) = found (pick_item (c ∷ tag) content)
