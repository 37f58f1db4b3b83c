-- ===== src/Tools/Ybb.antt =====
-- ybb/ybb.go: the choice of the tool by the name of the program or its first argument.
use cfg.Base.{Bool, List, Option, [], false, if◌then◌else◌, leb, length, none, some, suc, ℕ, ◌∷◌}
use cfg.Text.{Text, before, codes, text_eq}
use cfg.Paths.{base}

pub data Choice : Type 0 where
  -- the tool's number in the list, and its arguments
  run_tool : ℕ → List Text → Choice
  -- the list of tools, and whether the program ends with an error
  list_tools : (fails : Bool) → Choice

-- The arguments without the name ybb, if more stand behind it
unfoldable pub tool_args : List Text → List Text
unfolding base text_eq
tool_args [] = []
tool_args (name ∷ []) = name ∷ []
tool_args (name ∷ a ∷ args) =
    if text_eq (base name) (codes "ybb") then a ∷ args else name ∷ a ∷ args

-- The loop over the tools by their descriptions
unfoldable pub find_tool : Text → List Text → Option ℕ
unfolding before text_eq
find_tool name [] = none
find_tool name (desc ∷ descs) =
    let later = find_tool name descs in
    if text_eq (before b':' desc) name
    then some 0
    else elim later [ none ↦ none | some i ↦ some (suc i) ]

abbrev pub chosen : List Text → Option ℕ → Choice
chosen args none = list_tools (leb 2 (length args))
chosen args (some i) = run_tool i args

-- run; a program has a name at least.
unfoldable pub run : (tools : List Text) → List Text → Choice
unfolding tool_args find_tool base
run tools args = elim (tool_args args) [
  | [] ↦ list_tools false
  | name ∷ rest ↦ chosen (name ∷ rest) (find_tool (base name) tools)
]
