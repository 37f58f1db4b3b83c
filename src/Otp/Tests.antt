-- ===== src/Otp/Tests.antt =====
-- utils/otp.go on the test values of RFC 4226.
use cfg.Base.{
  &&-eq-true, [], all, arith, length, ltb, ltb→lt, pos, refl, some, true, ℕ, ℤ, ◌%◌, ◌<◌, ◌^◌, ◌∷◌,
  ◌≡◌,
}
use cfg.Text.{Text, codes}
use cfg.Otp.{Crypto, Url, code_of, entries, entry, format, panics, printed, seconds}
use cfg.Otp.Digits.{AreBytes, AreDigits, code_of-bounds, format-digits, value_from}

abbrev digest : Text
digest =
    204 ∷ 147 ∷ 207 ∷ 24 ∷ 80 ∷ 141 ∷ 148 ∷ 147 ∷ 76 ∷ 100 ∷ 182 ∷ 93 ∷ 139 ∷ 167 ∷ 102 ∷ 127 ∷ 183
    ∷ 205 ∷ 228 ∷ 176 ∷ []

are_bytes : (s : Text) → all (λ c. ltb c 256) s ≡ true → AreBytes s
are_bytes [] h = tt
are_bytes (c ∷ s) h =
    let (a, rest) = &&-eq-true (ltb c 256) (all (λ d. ltb d 256) s) h in
    (ltb→lt c 256 a, are_bytes s rest)

bytes : AreBytes digest
bytes = are_bytes digest refl

rfc_code : code_of digest ≡ some 1284755224
unfolding code_of
rfc_code = refl

code_bounded : (code : ℕ) × (code_of digest ≡ some code) × (code < 2147483648)
code_bounded = code_of-bounds digest refl bytes

format-digits_example :
    (s : Text) × (format (codes "me") (pos 6) 1284755224 ≡ printed (codes "me") s)
    × (length s ≡ 6)
    × AreDigits s
    × (value_from 0 s ≡ 1284755224 % 10 ^ 6)
format-digits_example = format-digits (codes "me") 6 1284755224 (omega arith)

abbrev crypto : Crypto
crypto = record { decode = λ s. some s; hmac_sha1 = λ k m. digest }

abbrev url : (period : ℕ) → Url
url period = record { path = codes "/me"; secret = codes "k"; digits = pos 6; period = pos period }

prints : entry crypto (pos 59) (url 30) ≡ printed (codes "me") (codes "755224")
unfolding entry
prints = refl

-- A url without a period only gets a message in the log, and then the division panics.
no_period : entries crypto (pos 59) (url 0 ∷ url 30 ∷ []) ≡ panics ∷ []
unfolding entries
no_period = refl

abbrev epoch : ℤ
unfolding seconds
epoch = seconds 131 170 126 128

at_epoch : epoch ≡ pos 0
unfolding epoch
at_epoch = refl
