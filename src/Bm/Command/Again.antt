-- ===== src/Bm/Command/Again.antt =====
-- utils/bm.go: a text that was converted is not converted once more.
use mathlib.Core.Option.{map as map_some, some_inj}
use cfg.Base.{
  Bool, Bool-cases, Option, [], arith, false, inl, inr, none, refl, some, subst, sym, true, ℕ, ◌++◌,
  ◌==◌, ◌∷◌, ◌≡◌,
}
use cfg.Text.{Text, codes, has_prefix, split, trim_byte, trim_right}
use cfg.Bm.Replace.{Pairs, match_pair, replace, replace_from}
use cfg.Bm.Html.{escapes, finish, htmlize, none_mode, to_html}
use cfg.Bm.Command.{convert}

trim_byte-head :
    (test : ℕ → Bool) (c : ℕ) (s t : Text)
    → test c ≡ false
    → has_prefix (trim_byte test c s ++ t) (c ∷ []) ≡ true
unfolding trim_byte has_prefix
trim_byte-head test c [] t h = rw h (ground arith)
trim_byte-head test c (d ∷ s) t h = ground arith

abbrev closing : Pairs
closing = (codes "</pre>\n<pre>", codes "\n") ∷ []

replace-tag :
    (s : Text)
    → has_prefix s (codes "/") ≡ false
    → replace closing (b'<' ∷ s) ≡ b'<' ∷ replace closing s
unfolding replace replace_from match_pair has_prefix
replace-tag [] h = refl
replace-tag (c ∷ s) h = ground (arith, h)

trim_right-head :
    (test : ℕ → Bool) (c : ℕ) (s t : Text)
    → test c ≡ false
    → has_prefix (trim_right test (c ∷ s) ++ t) (c ∷ []) ≡ true
unfolding trim_right
trim_right-head test c s t h = trim_byte-head test c (trim_right test s) t h

finish-html :
    (html : Text)
    → has_prefix (finish (codes "<div style=max-width:50em>" ++ html)) (codes "<") ≡ true
unfolding finish has_prefix
finish-html html =
    subst (λ r. has_prefix (trim_right (λ c. c == b'\n') r ++ codes "</div>\n") (codes "<") ≡ true)
      (sym (replace-tag (codes "div style=max-width:50em>" ++ html) refl))
      (trim_right-head (λ c. c == b'\n') b'<'
        (replace closing (codes "div style=max-width:50em>" ++ html)) (codes "</div>\n") refl)

to_html-html :
    (linkify : Text → Text) (input output : Text)
    → to_html linkify input ≡ some output
    → has_prefix output (codes "<") ≡ true
unfolding to_html
to_html-html linkify input output h =
    made (htmlize none_mode (split b'\n' (linkify (replace escapes input)))) h
  where
    made :
        (o : Option Text)
        → map_some (λ html. finish (codes "<div style=max-width:50em>" ++ html)) o ≡ some output
        → has_prefix output (codes "<") ≡ true
    made none k = absurd (cc)
    made (some html) k = rw (sym (some_inj.0 k)) (finish-html html)

-- Whatever input becomes, a second conversion leaves it as it is.
pub convert_twice :
    (linkify : Text → Text) (input output : Text)
    → convert linkify false input ≡ some output
    → convert linkify false output ≡ some output
unfolding convert
convert_twice linkify input output h = elim (Bool-cases (has_prefix input (codes "<"))) [
  | inl e ↦
      let same : input ≡ output = some_inj.0 (rw e at h) in
      rw (subst (λ t. has_prefix t (codes "<") ≡ true) same e)
  | inr e ↦ rw (to_html-html linkify input output (rw e at h))
]
