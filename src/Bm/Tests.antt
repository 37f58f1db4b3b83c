-- ===== src/Bm/Tests.antt =====
-- utils/bm.go on small texts.
use cfg.Base.{All, List, [], ap, arith, false, none, refl, some, true, ℕ, ◌++◌, ◌∷◌, ◌≡◌}
use cfg.Text.{Text, codes, has_prefix, is_space, split, text_eq, text_eq-false, trim_right}
use cfg.Bm.Replace.{replace}
use cfg.Bm.Html.{escapes, item, to_html}
use cfg.Bm.Html.Paragraph.{to_markdown-to_html}
use cfg.Bm.Html.Escape.{all-NoNewline, unescape-replace}
use cfg.Bm.Markdown.{to_markdown, unescape}
use cfg.Bm.Item.{Line, header, kind_of, passed_over, pick_item, plain}
use cfg.Bm.Item.Section.{IsOther, pick_item-section}
use cfg.Bm.Server.{Request, Round, first, fresh, invalid, nanos, reply, serve}
use cfg.Bm.Server.Laws.{Turn, arrivals, serve-Turn}
use cfg.Bm.Command.{convert}
use cfg.Bm.Command.Again.{convert_twice}

abbrev no_links : Text → Text
no_links s = s

abbrev document : Text
document = codes "# a\n\n- b & c\n- d\n\n> e\n\n  f\n"

abbrev html : Text
html =
    codes
      "<div style=max-width:50em><!-- # --><p style=font-weight:bold>a</p>\n\n<ul><li><!-- - -->b &amp; c\n</li><li><!-- - -->d\n</li></ul>\n<blockquote style='border-left:solid 0.25em darkgray;padding:0 0.5em;margin:1em 0'><p><span style=display:none>&gt; </span>e\n</p></blockquote>\n<pre>  f\n</pre></div>\n"

converts : to_html no_links document ≡ some html
unfolding to_html item
converts = refl

-- The way back has one newline less than the document's three.
goes_back : to_markdown html ≡ document
unfolding to_markdown
goes_back = refl

-- A heading of the second level is not the same on the way back.
second_level :
    convert no_links true
      (codes "<div style=max-width:50em><!-- # --><p style=font-weight:bold> a</p></div>\n")
    ≡ some (codes "#  a\n")
unfolding convert
second_level = refl

second_level_html :
    convert no_links false (codes "## a")
    ≡ some (codes "<div style=max-width:50em><!-- # --><p style=font-weight:bold> a</p></div>\n")
unfolding convert
second_level_html = refl

escaped_back : unescape (replace escapes (codes "a &lt; <b>")) ≡ codes "a &lt; <b>"
escaped_back = unescape-replace (codes "a &lt; <b>")

to_markdown-to_html_example :
    (back : Text) × (to_html no_links (codes "a < b & \"c\"") ≡ some back)
    × (to_markdown back ≡ codes "a < b & \"c\"\n")
unfolding replace is_space trim_right has_prefix
to_markdown-to_html_example =
    to_markdown-to_html no_links (codes "a < b & \"c\"")
      (all-NoNewline (codes "a < b & \"c\"") refl) (refl, refl, refl, refl, refl, refl) refl

converted_once : convert no_links false html ≡ some html
unfolding convert
converted_once = convert_twice no_links document html converts

abbrev todo : Text
todo = codes "#x one\na\n#y two\n\nb\n\nc\n#z three"

abbrev first_byte : Line → ℕ
first_byte passed_over = 0
first_byte plain = 1
first_byte (header []) = 0
first_byte (header (c ∷ s)) = c

before_y : All (IsOther (codes "y")) (codes "#x one" ∷ codes "a" ∷ [])
unfolding kind_of
before_y = ((λ e. absurd (differ (ap first_byte e))), ((λ e. cc), tt))
  where
    differ : ◌≡◌ {A = ℕ} 120 121 → ⊥
    differ e = omega (arith, e)

pick_item-section_example : pick_item (codes "y") todo ≡ codes "b\n\nc\n"
unfolding kind_of split text_eq
pick_item-section_example =
    pick_item-section (codes "y") todo (codes "#x one" ∷ codes "a" ∷ []) (codes "#y two")
      ([] ∷ codes "b" ∷ [] ∷ codes "c" ∷ []) (codes "#z three" ∷ []) (λ e. cc) refl before_y refl
      (refl, (refl, (refl, (refl, tt))))
      ((codes "z", refl, text_eq-false (codes "z") (codes "y") refl), tt)

abbrev asks : ℕ → ℕ → Request
asks id ts = record { id = id; ts = nanos ts }

abbrev rounds : List Round
rounds =
    record {
      mod_time = some 5;
      html = some (codes "v1");
      request = some (asks 1 0);
      gone = λ r. false;
    }
    ∷ record {
      mod_time = some 5;
      html = some (codes "v1");
      request = some (asks 2 5);
      gone = λ r. false;
    }
    ∷ record {
      mod_time = some 6;
      html = some (codes "v2");
      request = some (asks 3 9);
      gone = λ r. false;
    }
    ∷ record { mod_time = none; html = none; request = some (asks 4 9); gone = λ r. false }
    ∷ []

serve-Turn_example :
    Turn
      (first 5 (codes "v1"))
      (serve rounds (first 5 (codes "v1"))).0
      (arrivals rounds (first 5 (codes "v1")))
      (serve rounds (first 5 (codes "v1"))).1
serve-Turn_example =
    serve-Turn rounds (first 5 (codes "v1")) (record { few = omega arith; current = tt })

served :
    (serve rounds (first 5 (codes "v1"))).1
    ≡ reply (asks 1 0) (fresh 5 (codes "v1"))
      ++ reply (asks 2 5) (fresh 6 (codes "v2"))
      ++ reply (asks 3 9) invalid
unfolding serve
served = refl
