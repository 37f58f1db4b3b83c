-- ===== src/Otp/Digits.antt =====
-- utils/otp.go: the code that is printed.
use native.Mathlib.Omega.{mod_fact}
use native.Mathlib.Nat.{add-mul-mod_self_left, mod-add-div, mod-eq_of_lt, mod-lt, pow-suc}
use cfg.Base.{
  All, All-append, All-drop, [], ap, arith, code, drop, drop-append_le, false, length,
  length-append, length-drop, ltb, pos, refl, some, suc, sym, zero, ℕ, ◌%◌, ◌*◌, ◌++◌, ◌+◌, ◌-◌,
  ◌/◌, ◌<◌, ◌^◌, ◌∙◌, ◌∷◌, ◌≡◌, ◌≤◌,
}
use cfg.Text.{Text}
use cfg.Otp.{code_of, decimal, format, last_byte, number_at, printed}

-- A byte is below 256.
abbrev pub AreBytes : Text → Type 0
AreBytes = All (λ c. c < 256)

-- Twenty bytes have four at each of the offsets, and the code has 31 bits.
pub code_of-bounds :
    (digest : Text)
    → length digest ≡ 20
    → AreBytes digest
    → (code : ℕ) × (code_of digest ≡ some code) × (code < 2147483648)
unfolding code_of
code_of-bounds digest l h =
    let offset : ℕ = last_byte digest % 16 in
    number (drop offset digest)
      (omega (arith, l, length-drop offset digest, mod_fact (last_byte digest) 15))
      (All-drop (λ c. c < 256) offset digest h)
  where
    number :
        (s : Text)
        → 4 ≤ length s
        → AreBytes s
        → (code : ℕ) × (number_at s ≡ some code) × (code < 2147483648)
    number [] k q = absurd (omega (arith, k))
    number (a ∷ []) k q = absurd (omega (arith, k))
    number (a ∷ b ∷ []) k q = absurd (omega (arith, k))
    number (a ∷ b ∷ c ∷ []) k q = absurd (omega (arith, k))
    number (a ∷ b ∷ c ∷ d ∷ s) k (ha, (hb, (hc, (hd, q)))) =
        ((a % 128) * 16777216 + b * 65536 + c * 256 + d, refl, omega (arith, hb, hc, hd))

-- A text of decimal digits as a number
unfoldable pub value_from : ℕ → Text → ℕ
value_from n [] = n
value_from n (c ∷ s) = value_from (n * 10 + (c - b'0')) s

value_from-append :
    (n : ℕ) (s : Text) (c : ℕ) → value_from n (s ++ c ∷ []) ≡ value_from n s * 10 + (c - b'0')
unfolding value_from
value_from-append n [] c = refl
value_from-append n (d ∷ s) c = value_from-append (n * 10 + (d - b'0')) s c

pow_positive : (n : ℕ) → 0 < 10 ^ n
pow_positive zero = omega arith
pow_positive (suc n) = omega (arith, pow-suc 10 n, pow_positive n)

last_digit :
    (p : ℕ) → 0 < p → (c v : ℕ) → v ≡ (c / 10) % p → v * 10 + (b'0' + c % 10 - b'0') ≡ c % (p * 10)
last_digit p h c v e =
    let q : ℕ = c / 10 / p in
    let w : ℕ = v * 10 + c % 10 in
    let split_c : w + p * 10 * q ≡ c = omega (arith, e, mod-add-div (c / 10) p) in
    omega arith
    ∙ sym (mod-eq_of_lt {n = w} {m = p * 10} (omega (arith, e, mod-lt (c / 10) h)))
    ∙ sym (add-mul-mod_self_left w (p * 10) q)
    ∙ ap (λ d. d % (p * 10)) split_c

value-decimal : (n c : ℕ) → value_from 0 (decimal n c) ≡ c % 10 ^ n
unfolding decimal value_from
value-decimal zero c = omega arith
value-decimal (suc n) c =
    value_from-append 0 (decimal n (c / 10)) (b'0' + c % 10)
    ∙ last_digit (10 ^ n) (pow_positive n) c (value_from 0 (decimal n (c / 10)))
        (value-decimal n (c / 10))
    ∙ ap (λ p. c % p) (sym (pow-suc 10 n))

length-decimal : (n c : ℕ) → length (decimal n c) ≡ n
unfolding decimal
length-decimal zero c = refl
length-decimal (suc n) c =
    omega
      (arith, length-append (decimal n (c / 10)) ((b'0' + c % 10) ∷ []), length-decimal n (c / 10))

drop-all : (s : Text) (k : ℕ) → k ≡ length s → drop k s ≡ []
drop-all [] zero e = refl
drop-all [] (suc k) e = refl
drop-all (c ∷ s) zero e = absurd (omega (arith, e))
drop-all (c ∷ s) (suc k) e = drop-all s k (omega (arith, e))

drop-decimal : (k n m c : ℕ) → m ≡ k + n → drop k (decimal m c) ≡ decimal n c
unfolding decimal
drop-decimal k zero m c e = drop-all (decimal m c) k (omega (arith, e, length-decimal m c))
drop-decimal k (suc n) zero c e = absurd (omega (arith, e))
drop-decimal k (suc n) (suc m) c e =
    drop-append_le k (decimal m (c / 10)) ((b'0' + c % 10) ∷ [])
      (omega (arith, e, length-decimal m (c / 10)))
    ∙ ap (λ s. s ++ (b'0' + c % 10) ∷ []) (drop-decimal k n m (c / 10) (omega (arith, e)))

-- A byte is a decimal digit.
abbrev pub AreDigits : Text → Type 0
AreDigits = All (λ c. (b'0' ≤ c) × (c ≤ b'9'))

decimal-AreDigits : (n c : ℕ) → AreDigits (decimal n c)
unfolding decimal
decimal-AreDigits zero c = tt
decimal-AreDigits (suc n) c =
    All-append (λ d. (b'0' ≤ d) × (d ≤ b'9')) (decimal n (c / 10)) ((b'0' + c % 10) ∷ [])
      (decimal-AreDigits n (c / 10)) ((omega arith, omega (arith, mod_fact c 9)), tt)

at_most : (n : ℕ) → n ≤ 10 → ltb 10 n ≡ false
at_most n h = ground (arith, h)

-- With at most ten digits, the code is printed with that many decimal digits, and they are the
-- last ones of the code, zeros at its head included.
pub format-digits :
    (name : Text) (n code : ℕ)
    → n ≤ 10
    → (s : Text) × (format name (pos n) code ≡ printed name s)
      × (length s ≡ n)
      × AreDigits s
      × (value_from 0 s ≡ code % 10 ^ n)
unfolding format
format-digits name n code h = (
  decimal n code,
  rw (at_most n h) (ap (printed name) (drop-decimal (10 - n) n 10 code (omega (arith, h)))),
  length-decimal n code,
  decimal-AreDigits n code,
  value-decimal n code,
)
