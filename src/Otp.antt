-- ===== src/Otp.antt =====
-- utils/otp.go: one-time passwords from the urls in ~/.config/.otps.
pub mod Digits
mod Tests
use cfg.Base.{
  List, Option, [], code, drop, if◌then◌else◌, leb, ltb, negsuc, none, pos, some, suc, zero, ℕ, ℤ,
  ◌%◌, ◌*◌, ◌++◌, ◌+◌, ◌-◌, ◌/◌, ◌^◌, ◌∷◌,
}
use cfg.Text.{Text}

-- The difference of two natural numbers, which does not overflow here
unfoldable pub minus : ℕ → ℕ → ℤ
minus a b = if leb b a then pos (a - b) else negsuc (b - a - 1)

-- The bytes 40 to 43 of the reply count the seconds since 1900.
unfoldable pub seconds : (b40 b41 b42 b43 : ℕ) → ℤ
unfolding minus
seconds b40 b41 b42 b43 =
    minus (b40 * 16777216 + b41 * 65536 + b42 * 256 + b43) ((70 * 365 + 17) * 86400)

abbrev pub negated : ℕ → ℤ
negated zero = pos 0
negated (suc n) = negsuc n

-- The quotient, which is cut towards zero; a division by zero panics.
unfoldable pub quotient : ℤ → ℤ → Option ℤ
quotient a (pos zero) = none
quotient (pos a) (pos (suc b)) = some (pos (a / suc b))
quotient (negsuc a) (pos (suc b)) = some (negated (suc a / suc b))
quotient (pos a) (negsuc b) = some (negated (a / suc b))
quotient (negsuc a) (negsuc b) = some (pos (suc a / suc b))

-- uint64(n)
unfoldable pub uint64 : ℤ → ℕ
uint64 (pos n) = n % 2 ^ 64
uint64 (negsuc n) = 2 ^ 64 - 1 - n % 2 ^ 64

-- The last `n` bytes of a number, the highest first: binary.BigEndian.PutUint64 for eight.
unfoldable pub big_endian : ℕ → ℕ → Text
big_endian zero c = []
big_endian (suc n) c = big_endian n (c / 256) ++ c % 256 ∷ []

-- The four bytes behind an offset as a number without its highest bit
abbrev pub number_at : List ℕ → Option ℕ
number_at (a ∷ b ∷ c ∷ d ∷ rest) = some ((a % 128) * 16777216 + b * 65536 + c * 256 + d)
number_at _ = none

unfoldable pub last_byte : Text → ℕ
last_byte [] = 0
last_byte (c ∷ []) = c
last_byte (c ∷ d ∷ s) = last_byte (d ∷ s)

-- The code in the digest; `none` is an index out of range.
unfoldable pub code_of : Text → Option ℕ
unfolding last_byte
code_of digest = number_at (drop (last_byte digest % 16) digest)

-- The last `n` decimal digits of a number: "%010d" for ten, as no code has more.
unfoldable pub decimal : ℕ → ℕ → Text
decimal zero c = []
decimal (suc n) c = decimal n (c / 10) ++ (b'0' + c % 10) ∷ []

-- What the run of an entry comes to
pub data Entry : Type 0 where
  -- a message in the log, and the next entry
  passed_over : Entry
  panics : Entry
  printed : (name code : Text) → Entry

-- codestr[len(codestr)-digits:], which panics for a negative number of digits
unfoldable pub format : (name : Text) → (digits : ℤ) → ℕ → Entry
unfolding decimal
format name (negsuc n) code = panics
format name (pos n) code =
    if ltb 10 n then passed_over else printed name (drop (10 - n) (decimal 10 code))

-- The parts of a url that are read; package net/url and strconv.Atoi make them.
pub record Url : Type 0 where
  pub path : Text
  pub secret : Text
  pub digits : ℤ
  pub period : ℤ

-- What the packages base32, hmac and sha1 compute
pub record Crypto : Type 0 where
  pub decode : Text → Option Text
  pub hmac_sha1 : (key message : Text) → Text

-- cfgurl.Path[1:], which panics for an empty path
unfoldable pub from_code : Url → Option ℕ → Entry
unfolding format
from_code url none = panics
from_code url (some code) = elim url.path [ [] ↦ panics | c ∷ name ↦ format name url.digits code ]

unfoldable pub from_counter : Crypto → Url → (key : Text) → Option ℤ → Entry
unfolding from_code code_of big_endian uint64
from_counter crypto url key none = panics
from_counter crypto url key (some counter) =
    from_code url (code_of (crypto.hmac_sha1 key (big_endian 8 (uint64 counter))))

-- The body of the loop. The test of the url only logs a message.
unfoldable pub entry : Crypto → (ts : ℤ) → Url → Entry
unfolding from_counter quotient
entry crypto ts url = elim (crypto.decode url.secret) [
  | none ↦ passed_over
  | some key ↦ from_counter crypto url key (quotient ts url.period)
]

-- The loop, up to an entry that panics
unfoldable pub entries : Crypto → (ts : ℤ) → List Url → List Entry
unfolding entry
entries crypto ts [] = []
entries crypto ts (url ∷ urls) =
    let rest = entries crypto ts urls in
    elim (entry crypto ts url) [
      | panics ↦ panics ∷ []
      | passed_over ↦ passed_over ∷ rest
      | printed name code ↦ printed name code ∷ rest
    ]
