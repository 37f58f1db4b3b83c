-- ===== src/Bm/Html.antt =====
-- utils/bm.go: toHTML.
pub mod Escape
pub mod Paragraph
use mathlib.Core.Option.{map as map_some}
use cfg.Base.{List, Option, [], drop, if◌then◌else◌, none, some, ◌++◌, ◌==◌, ◌||◌, ◌∷◌}
use cfg.Text.{Text, codes, has_prefix, split, text_eq, trim_left, trim_right, trim_space}
use cfg.Bm.Replace.{Pairs, replace}

pub data Mode : Type 0 where
  none_mode blockquote_mode p_mode pre_mode ul_mode : Mode

unfoldable pub close : Mode → Text
close none_mode = []
close blockquote_mode = codes "</p></blockquote>"
close p_mode = codes "</p>"
close pre_mode = codes "</pre>"
close ul_mode = codes "</li></ul>"

abbrev pub escapes : Pairs
escapes =
    (codes "&", codes "&amp;")
    ∷ (codes "<", codes "&lt;")
    ∷ (codes ">", codes "&gt;")
    ∷ (codes "\"", codes "&quot;")
    ∷ (codes "'", codes "&#039;")
    ∷ []

-- The mode after a line and what is written for it, or `none` for log.Fatal.
abbrev pub Step : Type 0
Step = Option (Mode × Text)

-- A line that starts with a blank
unfoldable pub blank_line : Mode → Text → Step
unfolding trim_space text_eq
blank_line none_mode line = some (
  pre_mode,
  (if text_eq (trim_space line) [] then line ++ codes "<pre>" else codes "<pre>" ++ line),
)
blank_line blockquote_mode line = some (blockquote_mode, line)
blank_line p_mode line = some (p_mode, line)
blank_line pre_mode line = some (pre_mode, line)
blank_line ul_mode line = some (ul_mode, line)

unfoldable pub item : Text → Text
unfolding trim_left
item line = codes "<!-- - -->" ++ trim_left (λ c. c == b' ') (drop 2 line)

abbrev pub item_line : Mode → Text → Step
item_line none_mode line = some (ul_mode, codes "<ul><li>" ++ item line)
item_line ul_mode line = some (ul_mode, codes "</li><li>" ++ item line)
item_line blockquote_mode line = some (blockquote_mode, line)
item_line p_mode line = some (p_mode, line)
item_line pre_mode line = some (pre_mode, line)

abbrev pub heading_line : Mode → Text → Step
heading_line none_mode line =
    some (none_mode, codes "<!-- # --><p style=font-weight:bold>" ++ drop 2 line ++ codes "</p>")
heading_line blockquote_mode line = none
heading_line p_mode line = none
heading_line pre_mode line = none
heading_line ul_mode line = none

abbrev pub open_quote : Text
open_quote =
    codes "<blockquote style='border-left:solid 0.25em darkgray;padding:0 0.5em;margin:1em 0'><p>"

abbrev pub quote_line : Mode → Text → Step
quote_line none_mode line =
    some
      (blockquote_mode, open_quote ++ codes "<span style=display:none>&gt; </span>" ++ drop 5 line)
quote_line blockquote_mode line = some (blockquote_mode, codes "<!-- &gt; -->" ++ drop 5 line)
quote_line p_mode line = some (p_mode, line)
quote_line pre_mode line = some (pre_mode, line)
quote_line ul_mode line = some (ul_mode, line)

-- Any other line; a quote has empty lines.
unfoldable pub text_line : Mode → Text → Step
unfolding text_eq
text_line none_mode line = some (p_mode, codes "<p>" ++ line)
text_line blockquote_mode line = some (
  blockquote_mode,
  (if text_eq line (codes "&gt;")
      then codes "</p><p><span style=display:none>&gt;</span>"
      else line),
)
text_line p_mode line = some (p_mode, line)
text_line pre_mode line = some (pre_mode, line)
text_line ul_mode line = some (ul_mode, line)

unfoldable pub step : Mode → Text → Step
unfolding close blank_line text_line has_prefix
step m [] = some (none_mode, close m)
step m (c ∷ s) =
    if c == b' '
    then blank_line m (c ∷ s)
    else if has_prefix (c ∷ s) (codes "- ")
    then item_line m (c ∷ s)
    else if has_prefix (c ∷ s) (codes "# ") || has_prefix (c ∷ s) (codes "## ")
    then heading_line m (c ∷ s)
    else if has_prefix (c ∷ s) (codes "&gt; ")
    then quote_line m (c ∷ s)
    else text_line m (c ∷ s)

-- The loop over the lines and the close after it.
unfoldable pub htmlize : Mode → List Text → Option Text
unfolding step close
htmlize m [] = some (close m)
htmlize m (line ∷ lines) = elim (step m line) [
  | none ↦ none
  | some s ↦ map_some (λ rest. s.1 ++ b'\n' ∷ rest) (htmlize s.0 lines)
]

unfoldable pub finish : Text → Text
unfolding replace trim_right
finish output =
    trim_right (λ c. c == b'\n') (replace ((codes "</pre>\n<pre>", codes "\n") ∷ []) output)
    ++ codes "</div>\n"

-- `linkify` stands for the regular expression of package regexp that puts links into tags.
unfoldable pub to_html : (linkify : Text → Text) → Text → Option Text
unfolding replace htmlize finish split
to_html linkify input =
    map_some (λ html. finish (codes "<div style=max-width:50em>" ++ html))
      (htmlize none_mode (split b'\n' (linkify (replace escapes input))))
