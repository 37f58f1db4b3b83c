-- ===== src/Bm/Command.antt =====
-- utils/bm.go: main up to the server, and what it does with its input.
pub mod Again
use cfg.Base.{
  Bool, List, Option, [], false, if◌then◌else◌, none, not, some, true, ◌&&◌, ◌++◌, ◌||◌, ◌∷◌,
}
use cfg.Text.{Text, codes, has_prefix}
use cfg.Bm.Html.{item, to_html}
use cfg.Bm.Markdown.{to_markdown}

-- The flags -q, -r, -f and -t
pub record Flags : Type 0 where
  pub q : Bool
  pub r : Bool
  pub f : Text
  pub t : Text

unfoldable pub is_set : Text → Bool
is_set [] = false
is_set (c ∷ s) = true

-- The file and the item by the arguments, or `none` for an incorrect usage. `exists` stands for os.Stat.
unfoldable pub by_args : (exists : Text → Bool) → Flags → List Text → Option Flags
unfolding is_set
by_args exists flags [] = some flags
by_args exists flags (a ∷ args) = if is_set flags.t || is_set flags.f then none else elim args [
  | [] ↦ if exists a then some (record flags { f = a }) else some (record flags { t = a })
  | b ∷ rest ↦ elim rest [ [] ↦ some (record flags { f = a; t = b }) | c ∷ more ↦ none ]
]

-- The item of the todo file where no file is given
unfoldable pub with_todo : (home : Text) → Flags → Flags
unfolding is_set
with_todo home flags =
    if is_set flags.t && not (is_set flags.f)
    then record flags { f = home ++ codes "/todo" }
    else flags

pub data Action : Type 0 where
  print_usage quote_input convert_input : Action
  quote_file serve_file : (file item : Text) → Action

unfoldable pub act : Option Flags → Action
unfolding is_set
act none = print_usage
act (some flags) =
    if is_set flags.f
    then (if flags.q then quote_file flags.f flags.t else serve_file flags.f flags.t)
    else if flags.q
    then quote_input
    else convert_input

unfoldable pub main : (exists : Text → Bool) (home : Text) → Flags → List Text → Action
unfolding by_args with_todo act
main exists home flags args = elim (by_args exists flags args) [
  | none ↦ act none
  | some chosen ↦ act (some (with_todo home chosen))
]

-- The conversion of standard input, or `none` for log.Fatal
unfoldable pub convert : (linkify : Text → Text) (restore : Bool) → Text → Option Text
unfolding has_prefix to_html to_markdown
convert linkify restore input =
    let is_html = has_prefix input (codes "<") in
    if restore && is_html
    then some (to_markdown input)
    else if not restore && not is_html
    then to_html linkify input
    else some input
