-- ===== src/Text.antt =====
-- Go strings as lists of bytes, with the functions of package strings that the tools call.
pub mod Order
pub mod Sort
use cfg.Base.{
  Bool, List, Option, String, [], ap₂, arith, code, drop, false, if◌then◌else◌, leb, length, ltb,
  none, refl, reverse, some, suc, take, true, zero, ℕ, ◌%◌, ◌&&◌, ◌++◌, ◌+◌, ◌-◌, ◌/◌, ◌==◌, ◌||◌,
  ◌↔◌, ◌∷◌, ◌≡◌, ◌≢◌,
}

abbrev pub Text : Type 0
Text = List ℕ

-- The bytes of an ASCII literal.
abbrev pub codes : String → Text
codes String.[] = []
codes (String.◌∷◌ c s) = code c ∷ codes s

-- s == t
unfoldable pub text_eq : Text → Text → Bool
text_eq [] [] = true
text_eq (a ∷ s) (b ∷ t) = a == b && text_eq s t
text_eq _ _ = false

-- s < t, byte by byte
unfoldable pub text_lt : Text → Text → Bool
text_lt [] [] = false
text_lt [] (b ∷ t) = true
text_lt (a ∷ s) [] = false
text_lt (a ∷ s) (b ∷ t) = ltb a b || (a == b && text_lt s t)

-- strings.HasPrefix
unfoldable pub has_prefix : Text → Text → Bool
has_prefix s [] = true
has_prefix [] (b ∷ t) = false
has_prefix (a ∷ s) (b ∷ t) = a == b && has_prefix s t

-- strings.Contains
unfoldable pub contains : Text → Text → Bool
unfolding has_prefix
contains [] t = has_prefix [] t
contains (a ∷ s) t = has_prefix (a ∷ s) t || contains s t

-- unicode.IsSpace on the ASCII range
unfoldable pub is_space : ℕ → Bool
is_space c = c == 32 || (leb 9 c && leb c 13)

-- The first line of a split, and the lines after it.
unfoldable pub cons_head : ℕ → List Text → List Text
cons_head c [] = (c ∷ []) ∷ []
cons_head c (l ∷ ls) = (c ∷ l) ∷ ls

-- strings.Split(s, sep) for a separator of one byte
unfoldable pub split : ℕ → Text → List Text
unfolding cons_head
split sep [] = [] ∷ []
split sep (c ∷ s) = let rest = split sep s in if c == sep then [] ∷ rest else cons_head c rest

-- strings.Join(parts, sep) for a separator of one byte
unfoldable pub join : ℕ → List Text → Text
join sep [] = []
join sep (l ∷ []) = l
join sep (l ∷ m ∷ ls) = l ++ (sep ∷ join sep (m ∷ ls))

-- strings.TrimLeftFunc(s, test)
unfoldable pub trim_left : (ℕ → Bool) → Text → Text
trim_left test [] = []
trim_left test (c ∷ s) = let rest = trim_left test s in if test c then rest else c ∷ s

-- A byte before a text whose end is trimmed.
unfoldable pub trim_byte : (ℕ → Bool) → ℕ → Text → Text
trim_byte test c [] = if test c then [] else c ∷ []
trim_byte test c (d ∷ r) = c ∷ d ∷ r

-- strings.TrimRightFunc(s, test)
unfoldable pub trim_right : (ℕ → Bool) → Text → Text
unfolding trim_byte
trim_right test [] = []
trim_right test (c ∷ s) = trim_byte test c (trim_right test s)

-- strings.TrimSpace
unfoldable pub trim_space : Text → Text
unfolding trim_left trim_right is_space
trim_space s = trim_right is_space (trim_left is_space s)

-- strings.Fields: the maximal runs of bytes that are no white space.
unfoldable pub fields_from : Text → Text → List Text
fields_from word [] = if text_eq word [] then [] else word ∷ []
fields_from word (c ∷ s) =
    let onward = fields_from (word ++ c ∷ []) s in
    let next = fields_from [] s in
    if is_space c then (if text_eq word [] then next else word ∷ next) else onward

unfoldable pub fields : Text → List Text
unfolding fields_from is_space text_eq
fields s = fields_from [] s

-- strings.IndexByte, with `none` for -1
unfoldable pub index_byte : Text → ℕ → Option ℕ
index_byte [] c = none
index_byte (a ∷ s) c =
    let later = index_byte s c in
    if a == c then some 0 else elim later [ none ↦ none | some i ↦ some (suc i) ]

-- strings.LastIndexByte, with `none` for -1
unfoldable pub last_index_byte : Text → ℕ → Option ℕ
last_index_byte [] c = none
last_index_byte (a ∷ s) c = elim (last_index_byte s c) [
  | some i ↦ some (suc i)
  | none ↦ if a == c then some 0 else none
]

-- The text before the first `sep`, which is the first result of strings.Cut.
unfoldable pub before : ℕ → Text → Text
before sep [] = []
before sep (c ∷ s) = let rest = before sep s in if c == sep then [] else c ∷ rest

pub text_eq_sound : (s t : Text) → text_eq s t ≡ true → s ≡ t
unfolding text_eq
text_eq_sound [] [] h = refl
text_eq_sound [] (b ∷ t) h = cc
text_eq_sound (a ∷ s) [] h = cc
text_eq_sound (a ∷ s) (b ∷ t) h = ground (arith, text_eq_sound s t)

pub text_eq_refl : (s : Text) → text_eq s s ≡ true
unfolding text_eq
text_eq_refl [] = refl
text_eq_refl (a ∷ s) = ground (arith, text_eq_refl s)

-- The test decides equality.
pub text_eq_iff : (s t : Text) → (text_eq s t ≡ true) ↔ (s ≡ t)
text_eq_iff s t = (text_eq_sound s t, λ e. rw e (text_eq_refl t))

pub text_eq-ne : (s t : Text) → s ≢ t → text_eq s t ≡ false
text_eq-ne s t h = ground (arith, text_eq_iff s t)

pub text_eq-false : (s t : Text) → text_eq s t ≡ false → s ≢ t
text_eq-false s t h e = absurd (ground (arith, h, text_eq_iff s t))

pub has_prefix_sound : (s t : Text) → has_prefix s t ≡ true → (r : Text) × (s ≡ t ++ r)
unfolding has_prefix
has_prefix_sound s [] h = (s, refl)
has_prefix_sound [] (b ∷ t) h = cc
has_prefix_sound (a ∷ s) (b ∷ t) h =
    let hs : (a ≡ b) × (has_prefix s t ≡ true) = ground arith in
    let (r, e) = has_prefix_sound s t hs.1 in (r, ap₂ ◌∷◌ hs.0 e)

pub has_prefix-append : (t r : Text) → has_prefix (t ++ r) t ≡ true
unfolding has_prefix
has_prefix-append [] r = refl
has_prefix-append (b ∷ t) r = ground (arith, has_prefix-append t r)

pub has_prefix_trans :
    (a b c : Text) → has_prefix a b ≡ true → has_prefix b c ≡ true → has_prefix a c ≡ true
unfolding has_prefix
has_prefix_trans a b [] h k = refl
has_prefix_trans a [] (z ∷ c) h k = cc
has_prefix_trans [] (y ∷ b) (z ∷ c) h k = cc
has_prefix_trans (x ∷ a) (y ∷ b) (z ∷ c) h k = ground (arith, has_prefix_trans a b c)

pub has_prefix_refl : (s : Text) → has_prefix s s ≡ true
unfolding has_prefix
has_prefix_refl [] = refl
has_prefix_refl (x ∷ s) = ground (arith, has_prefix_refl s)

-- strings.HasSuffix
unfoldable pub has_suffix : Text → Text → Bool
unfolding has_prefix
has_suffix s t = has_prefix (reverse s) (reverse t)

-- strings.TrimPrefix and strings.TrimSuffix
unfoldable pub trim_prefix : Text → Text → Text
unfolding has_prefix
trim_prefix s t = if has_prefix s t then drop (length t) s else s

unfoldable pub trim_suffix : Text → Text → Text
unfolding has_suffix
trim_suffix s t = if has_suffix s t then take (length s - length t) s else s

-- strconv.Itoa of a natural number, on fuel
unfoldable pub digits : ℕ → ℕ → Text
digits zero n = []
digits (suc f) n =
    let more = digits f (n / 10) in (if ltb n 10 then [] else more) ++ (b'0' + n % 10) ∷ []

unfoldable pub itoa : ℕ → Text
unfolding digits
itoa n = digits (suc n) n
