-- ===== src/Bm/Markdown.antt =====
-- utils/bm.go: toMarkdown. The three regular expressions are written out as scans.
use cfg.Base.{
  Bool, Option, [], any, drop, false, if◌then◌else◌, leb, length, none, some, suc, true, zero, ℕ,
  ◌&&◌, ◌++◌, ◌+◌, ◌==◌, ◌∷◌,
}
use cfg.Text.{Text, before, codes, has_prefix, trim_space}
use cfg.Bm.Replace.{Pairs, replace}

-- <!-- ([^ ]*) --> at the start of a text: the word, if there is a match.
unfoldable pub marker : Text → Option Text
unfolding before has_prefix
marker s =
    let word = before b' ' (drop 5 s) in
    if has_prefix s (codes "<!-- ") && has_prefix (drop (5 + length word) s) (codes " -->")
    then some word
    else none

-- The markers are replaced by their words and a blank; the first bytes are passed over.
unfoldable pub uncomment_from : ℕ → Text → Text
unfolding marker
uncomment_from n [] = []
uncomment_from (suc n) (c ∷ s) = uncomment_from n s
uncomment_from zero (c ∷ s) = elim (marker (c ∷ s)) [
  | none ↦ c ∷ uncomment_from 0 s
  | some word ↦ word ++ b' ' ∷ uncomment_from (8 + length word) s
]

-- <[^>]*> is replaced by nothing.
unfoldable pub strip_tags : (inside : Bool) → Text → Text
strip_tags inside [] = []
strip_tags true (c ∷ s) =
    let within = strip_tags true s in
    let outside = strip_tags false s in if c == b'>' then outside else within
strip_tags false (c ∷ s) =
    let within = strip_tags true s in
    let outside = strip_tags false s in
    if c == b'<' && any (λ d. d == b'>') s then within else c ∷ outside

-- \n\n\n+ is replaced by two of them; `n` newlines stand before.
unfoldable pub squeeze : ℕ → Text → Text
squeeze n [] = []
squeeze n (c ∷ s) =
    let at_end = squeeze n s in
    let one_more = squeeze (suc n) s in
    let anew = squeeze 0 s in
    if c == b'\n' then (if leb 2 n then at_end else c ∷ one_more) else c ∷ anew

abbrev pub restores : Pairs
restores =
    (codes "&lt;", codes "<")
    ∷ (codes "&gt;", codes ">")
    ∷ (codes "&quot;", codes "\"")
    ∷ (codes "&#039;", codes "'")
    ∷ []

-- The escaped bytes are restored, the ampersand last.
unfoldable pub unescape : Text → Text
unfolding replace
unescape s = replace ((codes "&amp;", codes "&") ∷ []) (replace restores s)

unfoldable pub to_markdown : Text → Text
unfolding uncomment_from strip_tags squeeze trim_space unescape
to_markdown input =
    unescape (squeeze 0 (trim_space (strip_tags false (uncomment_from 0 input)) ++ b'\n' ∷ []))
