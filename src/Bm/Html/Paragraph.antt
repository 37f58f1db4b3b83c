-- ===== src/Bm/Html/Paragraph.antt =====
-- utils/bm.go: a text of one line through toHTML and back through toMarkdown.
use cfg.Base.{
  ==_ne, All, Bool, List, [], ap, append_assoc, arith, false, none, refl, some, sym, ℕ, ◌++◌, ◌==◌,
  ◌∙◌, ◌∷◌, ◌≡◌, ◌≢◌,
}
use cfg.Text.{
  Text, before, codes, cons_head, has_prefix, is_space, split, trim_byte, trim_left, trim_right,
  trim_space,
}
use cfg.Bm.Replace.{match_pair, replace, replace_from}
use cfg.Bm.Html.{close, escapes, finish, htmlize, item, none_mode, p_mode, step, text_line, to_html}
use cfg.Bm.Html.Escape.{
  IsHarmless, replace-escapes-IsHarmless, replace-escapes-NoNewline, replace-escapes-append,
  unescape-replace,
}
use cfg.Bm.Markdown.{marker, squeeze, strip_tags, to_markdown, uncomment_from, unescape}

-- No byte is a newline.
abbrev pub HasNoNewline : Text → Type 0
HasNoNewline = All (λ c. c ≢ 10)

abbrev AreHarmless : Text → Type 0
AreHarmless = All IsHarmless

abbrev joint : List (Text × Text)
joint = (codes "</pre>\n<pre>", codes "\n") ∷ []

marker-none : (c : ℕ) (s : Text) → c ≢ b'<' → marker (c ∷ s) ≡ none
unfolding marker has_prefix
marker-none c s ne = rw (==_ne c b'<' ne) refl

match_pair-none : (c : ℕ) (s : Text) → c ≢ b'<' → match_pair joint (c ∷ s) ≡ none
unfolding match_pair has_prefix
match_pair-none c s ne = rw (==_ne c b'<' ne) refl

uncomment-harmless :
    (e t : Text) → AreHarmless e → uncomment_from 0 (e ++ t) ≡ e ++ uncomment_from 0 t
unfolding uncomment_from marker has_prefix
uncomment-harmless [] t h = refl
uncomment-harmless (c ∷ e) t (harmless, h) =
    rw (uncomment_from, marker-none c (e ++ t) harmless.0)
      (ap (λ r. c ∷ r) (uncomment-harmless e t h))

strip-harmless : (e t : Text) → AreHarmless e → strip_tags false (e ++ t) ≡ e ++ strip_tags false t
unfolding strip_tags
strip-harmless [] t h = refl
strip-harmless (c ∷ e) t (harmless, h) =
    rw (==_ne c b'<' harmless.0) (ap (λ r. c ∷ r) (strip-harmless e t h))

joint-harmless :
    (e t : Text) → AreHarmless e → replace_from joint 0 (e ++ t) ≡ e ++ replace_from joint 0 t
unfolding replace_from match_pair has_prefix
joint-harmless [] t h = refl
joint-harmless (c ∷ e) t (harmless, h) =
    rw (replace_from, match_pair-none c (e ++ t) harmless.0)
      (ap (λ r. c ∷ r) (joint-harmless e t h))

squeeze-line : (e : Text) → HasNoNewline e → squeeze 0 (e ++ b'\n' ∷ []) ≡ e ++ b'\n' ∷ []
unfolding squeeze
squeeze-line [] h = refl
squeeze-line (c ∷ e) (ne, h) = rw (==_ne c b'\n' ne) (ap (λ r. c ∷ r) (squeeze-line e h))

split-line : (e : Text) → HasNoNewline e → split b'\n' e ≡ e ∷ []
unfolding split cons_head
split-line [] h = refl
split-line (c ∷ e) (ne, h) = rw (==_ne c b'\n' ne, split-line e h) refl

-- Behind a text that ends with no newline, the newlines are trimmed.
trim_right-behind :
    (test : ℕ → Bool) (e t : Text)
    → trim_right test t ≡ []
    → trim_right test (e ++ t) ≡ trim_right test e
unfolding trim_right
trim_right-behind test [] t h = h
trim_right-behind test (c ∷ e) t h = ap (trim_byte test c) (trim_right-behind test e t h)

trim_right-kept :
    (test : ℕ → Bool) (e : Text) (d : ℕ) (t : Text)
    → trim_right test (d ∷ t) ≡ d ∷ t
    → trim_right test (e ++ d ∷ t) ≡ e ++ d ∷ t
unfolding trim_right
trim_right-kept test [] d t h = h
trim_right-kept test (c ∷ e) d t h = ap (trim_byte test c) (trim_right-kept test e d t h) ∙ onward e
  where
    onward : (e : Text) → trim_byte test c (e ++ d ∷ t) ≡ c ∷ (e ++ d ∷ t)
    onward [] = unfold trim_byte in refl
    onward (x ∷ e) = unfold trim_byte in refl

-- A line that is no heading, item or quote, with no white space at its ends
abbrev pub IsPlain : Text → Type 0
IsPlain [] = ⊥
IsPlain (c ∷ e) =
    (is_space c ≡ false)
    × (trim_right is_space (c ∷ e) ≡ c ∷ e)
    × (has_prefix (c ∷ e) (codes "- ") ≡ false)
    × (has_prefix (c ∷ e) (codes "# ") ≡ false)
    × (has_prefix (c ∷ e) (codes "## ") ≡ false)
    × (has_prefix (c ∷ e) (codes "&gt; ") ≡ false)

step-plain : (l : Text) → IsPlain l → step none_mode l ≡ some (p_mode, codes "<p>" ++ l)
unfolding step text_line is_space
step-plain [] p = absurd p
step-plain (c ∷ e) (first, last, item, heading, second, quote) =
    rw (no_blank, item, heading, second, quote) refl
  where
    no_blank : c == b' ' ≡ false
    no_blank = ground arith

htmlize-plain :
    (l : Text)
    → IsPlain l
    → HasNoNewline l
    → htmlize none_mode (split b'\n' l) ≡ some ((codes "<p>" ++ l) ++ codes "\n</p>")
unfolding htmlize close
htmlize-plain l p free = rw (split-line l free, htmlize, step-plain l p) refl

finish-plain :
    (l : Text)
    → AreHarmless l
    → finish (codes "<div style=max-width:50em>" ++ ((codes "<p>" ++ l) ++ codes "\n</p>"))
      ≡ (codes "<div style=max-width:50em><p>" ++ l ++ codes "\n</p>") ++ codes "</div>\n"
unfolding finish replace replace_from match_pair has_prefix
finish-plain l h =
    ap (λ r. trim_right (λ c. c == b'\n') r ++ codes "</div>\n")
      (ap (λ r. codes "<div style=max-width:50em><p>" ++ r) (joint-harmless l (codes "\n</p>") h))
    ∙ ap (λ r. r ++ codes "</div>\n")
        (trim_right-kept (λ c. c == b'\n') (codes "<div style=max-width:50em><p>" ++ l) b'\n'
          (codes "</p>") ends)
  where
    ends : trim_right (λ c. c == b'\n') (codes "\n</p>") ≡ codes "\n</p>"
    ends = unfold trim_right trim_byte in refl

trim_space-plain : (l : Text) → IsPlain l → trim_space (l ++ codes "\n\n") ≡ l
unfolding trim_space trim_left
trim_space-plain [] p = absurd p
trim_space-plain (c ∷ e) (first, last, _, _, _, _) =
    rw first (trim_right-behind is_space (c ∷ e) (codes "\n\n") blank ∙ last)
  where
    blank : trim_right is_space (codes "\n\n") ≡ []
    blank = unfold trim_right trim_byte is_space in refl

strip-plain :
    (l : Text)
    → AreHarmless l
    → strip_tags false (
        uncomment_from 0
          ((codes "<div style=max-width:50em><p>" ++ l ++ codes "\n</p>") ++ codes "</div>\n"))
      ≡ l ++ codes "\n\n"
unfolding strip_tags uncomment_from marker has_prefix before
strip-plain l h =
    ap (λ r. strip_tags false (codes "<div style=max-width:50em><p>" ++ r))
      (ap (uncomment_from 0) (append_assoc l (codes "\n</p>") (codes "</div>\n"))
        ∙ uncomment-harmless l (codes "\n</p></div>\n") h)
    ∙ strip-harmless l (codes "\n</p></div>\n") h

-- A text of one line that, once its special characters are replaced, is no heading, item or quote,
-- has no white space at its ends and no links, comes back from toHTML through toMarkdown, with a
-- newline at its end.
pub to_markdown-to_html :
    (linkify : Text → Text) (s : Text)
    → HasNoNewline s
    → IsPlain (replace escapes s)
    → linkify (replace escapes s) ≡ replace escapes s
    → (html : Text) × (to_html linkify s ≡ some html) × (to_markdown html ≡ s ++ b'\n' ∷ [])
unfolding to_html to_markdown
to_markdown-to_html linkify s free plain no_links =
    let l : Text = replace escapes s in
    let harmless : AreHarmless l = replace-escapes-IsHarmless s in
    let lines : HasNoNewline l = replace-escapes-NoNewline s free in
    (
      (codes "<div style=max-width:50em><p>" ++ l ++ codes "\n</p>") ++ codes "</div>\n",
      rw (no_links, htmlize-plain l plain lines, finish-plain l harmless) refl,
      ap (λ r. unescape (squeeze 0 (trim_space r ++ b'\n' ∷ []))) (strip-plain l harmless)
          ∙ ap (λ r. unescape (squeeze 0 (r ++ b'\n' ∷ []))) (trim_space-plain l plain)
          ∙ ap unescape (squeeze-line l lines ∙ sym (newline_behind s))
          ∙ unescape-replace (s ++ b'\n' ∷ []),
    )
  where
    newline_behind :
        (s : Text) → replace escapes (s ++ b'\n' ∷ []) ≡ replace escapes s ++ b'\n' ∷ []
    newline_behind s =
        replace-escapes-append s (b'\n' ∷ [])
        ∙ ap (λ r. replace escapes s ++ r)
            (unfold replace replace_from match_pair has_prefix in refl)
