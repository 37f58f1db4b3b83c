-- ===== src/Todo/Subject.antt =====
-- todotool/todo.go, splitSubject and decodeRFC2047: the encoded words of a mail's subject.
pub mod Words
pub mod Encoded
pub mod Joined
use cfg.Base.{
  Bool, List, Option, [], drop, false, if◌then◌else◌, length, ltb, map, none, not, some, suc, true,
  zero, ℕ, ◌++◌, ◌==◌, ◌||◌, ◌∷◌,
}
use cfg.Text.{Text, codes, contains, has_prefix, has_suffix, join, split, text_eq, trim_space}

-- A byte before what a cut gives
abbrev pub cons_cut : ℕ → Option (Text × Text) → Option (Text × Text)
cons_cut c none = none
cons_cut c (some (pf, sf)) = some (c ∷ pf, sf)

-- strings.Cut(s, "=?")
unfoldable pub cut_marker : Text → Option (Text × Text)
unfolding has_prefix
cut_marker [] = none
cut_marker (c ∷ s) =
    let later = cut_marker s in
    if has_prefix (c ∷ s) (codes "=?") then some ([], drop 1 s) else cons_cut c later

-- strings.Cut for one byte
unfoldable pub cut_byte : ℕ → Text → Option (Text × Text)
cut_byte sep [] = none
cut_byte sep (c ∷ s) =
    let later = cut_byte sep s in if c == sep then some ([], s) else cons_cut c later

-- strings.SplitN(s, "?", n), for n that is not 0
unfoldable pub split_n : ℕ → Text → List Text
unfolding cut_byte
split_n zero s = []
split_n (suc zero) s = s ∷ []
split_n (suc (suc n)) s = elim (cut_byte b'?' s) [
  | none ↦ s ∷ []
  | some p ↦ p.0 ∷ split_n (suc n) p.1
]

-- What a round of the loop comes to: the parts are complete, or the loop goes on with the rest.
pub data Round : Type 0 where
  complete : List Text → Round
  onward : List Text → Text → Round

-- The parts of an encoded word and what stands behind it
abbrev pub encoded_word : (sf : Text) → List Text → Round
encoded_word sf (a ∷ b ∷ c ∷ (d ∷ rest) ∷ []) =
    if d == b'='
    then onward ((codes "=?" ++ join b'?' (a ∷ b ∷ c ∷ []) ++ codes "?=") ∷ []) rest
    else complete (sf ∷ [])
encoded_word sf _ = complete (sf ∷ [])

unfoldable pub kept : Text → List Text
unfolding trim_space text_eq
kept pf = if text_eq (trim_space pf) [] then [] else pf ∷ []

abbrev pub prepend : List Text → Round → Round
prepend parts (complete more) = complete (parts ++ more)
prepend parts (onward more rest) = onward (parts ++ more) rest

unfoldable pub round_from : Text → Option (Text × Text) → Round
unfolding kept split_n join
round_from subject none = complete (kept subject)
round_from subject (some (pf, sf)) = prepend (kept pf) (encoded_word sf (split_n 4 sf))

unfoldable pub round : Text → Round
unfolding round_from cut_marker
round subject = round_from subject (cut_marker subject)

-- The loop of splitSubject; `none` where there is no fuel.
unfoldable pub split_rounds : ℕ → Text → Option (List Text)
unfolding round
split_rounds zero subject = none
split_rounds (suc fuel) subject = elim (round subject) [
  | complete parts ↦ some parts
  | onward parts rest ↦ elim (split_rounds fuel rest) [
    | none ↦ none
    | some more ↦ some (parts ++ more)
  ]
]

-- splitSubject. Each round but the last takes off more than a byte.
unfoldable pub split_subject : Text → Option (List Text)
unfolding split_rounds
split_subject subject = split_rounds (suc (length subject)) subject

-- The decoders of the packages base64 and quotedprintable, and the bytes of a rune
pub record Decoders : Type 0 where
  pub base64 : Text → Option Text
  pub quoted_printable : Text → Option Text
  pub rune : ℕ → Text

-- The loop for iso-8859
unfoldable pub latin : (ℕ → Text) → Text → Text
latin rune [] = []
latin rune (c ∷ s) = (if ltb c 128 then c ∷ [] else rune c) ++ latin rune s

unfoldable pub underscores : Text → Text
underscores s = map (λ c. if c == b'_' then b' ' else c) s

module _ (decoders : Decoders) where
  unfoldable pub decode_as : (encoding text : Text) → Option Text
  unfolding underscores text_eq
  decode_as encoding text =
      if text_eq encoding (codes "B")
      then decoders.base64 text
      else if text_eq encoding (codes "q") || text_eq encoding (codes "Q")
      then decoders.quoted_printable (underscores text)
      else none

  unfoldable pub in_charset : Text → Option Text → Option Text
  unfolding latin contains
  in_charset charset none = none
  in_charset charset (some d) =
      some (if contains charset (codes "8859") then latin decoders.rune d else d)

  -- What a part of the subject is decoded to, `none` where it is taken as it is
  unfoldable pub word_of : List Text → Option Text
  unfolding in_charset decode_as
  word_of (a ∷ charset ∷ encoding ∷ text ∷ b ∷ []) = in_charset charset (decode_as encoding text)
  word_of _ = none

  unfoldable pub decode_part : (subject part : Text) → Option Text
  unfolding word_of has_prefix has_suffix split
  decode_part subject part =
      if ltb (length subject) 6
        || not (has_prefix part (codes "=?"))
        || not (has_suffix part (codes "?="))
      then none
      else word_of (split b'?' part)

  -- The text so far, and whether the last part was an encoded word
  pub record Decoded : Type 0 where
    pub text : Text
    pub was_quoted : Bool

  abbrev pub space_of : Decoded → Text
  space_of r = if ltb 0 (length r.text) then codes " " else []

  abbrev pub add_part : Decoded → Text → Option Text → Decoded
  add_part r part none = record { text = r.text ++ space_of r ++ part; was_quoted = false }
  add_part r part (some d) = record {
    text = r.text ++ (if r.was_quoted then [] else space_of r) ++ d;
    was_quoted = true;
  }

  unfoldable pub decode_parts : (subject : Text) → Decoded → List Text → Text
  unfolding decode_part trim_space
  decode_parts subject r [] = r.text
  decode_parts subject r (ss ∷ parts) =
      let part = trim_space ss in
      decode_parts subject (add_part r part (decode_part subject part)) parts

  -- decodeRFC2047
  unfoldable pub decode_rfc2047 : Text → Option Text
  unfolding split_subject decode_parts
  decode_rfc2047 s = elim (split_subject s) [
    | none ↦ none
    | some parts ↦ some (decode_parts s (record { text = []; was_quoted = false }) parts)
  ]
