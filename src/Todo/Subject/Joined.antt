-- ===== src/Todo/Subject/Joined.antt =====
-- todotool/todo.go, decodeRFC2047: the white space between two encoded words is ignored.
use cfg.Base.{
  List, Option, [], ap, append-nil, arith, false, length, length-append, ltb, none, refl, some,
  subst, suc, true, ℕ, ◌++◌, ◌∙◌, ◌∷◌, ◌≡◌, ◌≤◌,
}
use cfg.Text.{Text, codes, has_prefix, text_eq, trim_left, trim_right, trim_space}
use cfg.Todo.Subject.{
  Decoded, Decoders, add_part, complete, cut_marker, decode_as, decode_part, decode_parts,
  decode_rfc2047, in_charset, kept, onward, round, round_from, split_rounds, split_subject, word_of,
}
use cfg.Todo.Subject.Encoded.{
  HasNoQuestion, encoded, has_suffix-encoded, round-blank, round-encoded, split-encoded,
  trim_space-encoded,
}

split_rounds-onward :
    (fuel : ℕ) (s rest : Text) (parts more : List Text)
    → round s ≡ onward parts rest
    → split_rounds fuel rest ≡ some more
    → split_rounds (suc fuel) s ≡ some (parts ++ more)
unfolding split_rounds
split_rounds-onward fuel s rest parts more h k =
    ap
      (λ r. elim r as (λ q. Option (List Text)) [
        | complete ps ↦ some ps
        | onward ps t ↦ elim (split_rounds fuel t) [ none ↦ none | some qs ↦ some (ps ++ qs) ]
      ])
      h
    ∙ ap (λ o. elim o as (λ q. Option (List Text)) [ none ↦ none | some qs ↦ some (parts ++ qs) ]) k

-- An encoded word whose parts have no question mark
pub record Word : Type 0 where
  pub charset : Text
  pub encoding : Text
  pub text : Text
  pub in_charset_name : HasNoQuestion charset
  pub in_encoding : HasNoQuestion encoding
  pub in_text : HasNoQuestion text

abbrev pub written : Word → Text
written w = encoded w.charset w.encoding w.text

-- What the word's text is decoded to
unfoldable pub Means : Decoders → Word → Text → Type 0
unfolding in_charset decode_as
Means decoders w d = in_charset decoders w.charset (decode_as decoders w.encoding w.text) ≡ some d

split_rounds-empty : (fuel : ℕ) → split_rounds (suc fuel) [] ≡ some []
unfolding split_rounds round round_from cut_marker kept text_eq trim_space trim_left trim_right
split_rounds-empty fuel = refl

split_subject-joined :
    (v w : Word) → split_subject (written v ++ b' ' ∷ written w) ≡ some (written v ∷ written w ∷ [])
unfolding split_subject
split_subject-joined v w =
    let body : Text = v.charset ++ b'?' ∷ (v.encoding ++ b'?' ∷ (v.text ++ codes "?=")) in
    let left : ℕ = length (body ++ b' ' ∷ written w) in
    let second : round (b' ' ∷ written w) ≡ onward (written w ∷ []) [] =
      subst (λ t. round (b' ' ∷ t) ≡ onward (written w ∷ []) []) (append-nil (written w))
        (round-blank w.charset w.encoding w.text w.in_charset_name w.in_encoding w.in_text []) in
    split_rounds-onward (suc (suc left)) (written v ++ b' ' ∷ written w) (b' ' ∷ written w)
      (written v ∷ []) (written w ∷ [])
      (round-encoded v.charset v.encoding v.text v.in_charset_name v.in_encoding v.in_text
        (b' ' ∷ written w))
      (split_rounds-onward (suc left) (b' ' ∷ written w) [] (written w ∷ []) [] second
        (split_rounds-empty left))

module _ (decoders : Decoders) where
  decode_part-written :
      (subject : Text) (w : Word) (d : Text)
      → 6 ≤ length subject
      → Means decoders w d
      → decode_part decoders subject (written w) ≡ some d
  unfolding decode_part Means word_of has_prefix
  decode_part-written subject w d long h =
      rw
        (
          le→ltb-false,
          has_suffix-encoded w.charset w.encoding w.text w.in_charset_name w.in_encoding w.in_text,
        )
        (ap (λ ts. word_of decoders ts)
            (split-encoded w.charset w.encoding w.text w.in_charset_name w.in_encoding w.in_text)
          ∙ h)
    where
      le→ltb-false : ltb (length subject) 6 ≡ false
      le→ltb-false = ground (arith, long)

  add_second :
      (r : Text) (d part : Text)
      → (add_part decoders (record { text = r; was_quoted = true }) part (some d)).text ≡ r ++ d
  add_second r d part = ap (λ t. t ++ d) (append-nil r)

  decode_parts-cons :
      (subject : Text) (r : Decoded decoders) (w : Word) (d : Text) (parts : List Text)
      → 6 ≤ length subject
      → Means decoders w d
      → decode_parts decoders subject r (written w ∷ parts)
        ≡ decode_parts decoders subject (add_part decoders r (written w) (some d)) parts
  unfolding decode_parts
  decode_parts-cons subject r w d parts long h =
      ap
        (λ t.
          decode_parts decoders subject (add_part decoders r t (decode_part decoders subject t))
            parts)
        (trim_space-encoded w.charset w.encoding w.text w.in_charset_name w.in_encoding w.in_text)
      ∙ ap (λ o. decode_parts decoders subject (add_part decoders r (written w) o) parts)
          (decode_part-written subject w d long h)

  -- Two encoded words that a blank separates are decoded to what the words mean, without a blank.
  pub decode_rfc2047-joined :
      (v w : Word) (c d : Text)
      → Means decoders v c
      → Means decoders w d
      → decode_rfc2047 decoders (written v ++ b' ' ∷ written w) ≡ some (c ++ d)
  unfolding decode_rfc2047
  decode_rfc2047-joined v w c d hv hw =
      let subject : Text = written v ++ b' ' ∷ written w in
      let start : Decoded decoders = record { text = []; was_quoted = false } in
      let long : 6 ≤ length subject = omega (
        arith,
        length-append (v.charset ++ b'?' ∷ (v.encoding ++ b'?' ∷ (v.text ++ codes "?=")))
            (b' ' ∷ written w),
        length-append w.charset (b'?' ∷ (w.encoding ++ b'?' ∷ (w.text ++ codes "?="))),
      ) in
      ap
        (λ o. elim o as (λ q. Option Text) [
          | none ↦ none
          | some parts ↦ some (decode_parts decoders subject start parts)
        ])
        (split_subject-joined v w)
      ∙ ap (λ t. some t)
          (decode_parts-cons subject start v c (written w ∷ []) long hv
            ∙ decode_parts-cons subject (record { text = c; was_quoted = true }) w d [] long hw
            ∙ add_second c d (written w))
