-- ===== src/Gdsnap/Quota.antt =====
-- gdsnap/gdsnap.go, getquota and checkQuota: bytes to megabytes on 64-bit integers.
use cfg.Base.{
  Bool, Bool-cases, Option, arith, if◌then◌else◌, inl, inr, leb, ltb, none, refl, some, suc, true,
  zero, ℕ, ◌*◌, ◌+◌, ◌-◌, ◌/◌, ◌<◌, ◌==◌, ◌^◌, ◌↔◌, ◌≡◌, ◌≤◌,
}
use cfg.Text.{Text}

-- An int64: `negsuc n` is -(n + 1).
pub data ℤ : Type 0 where
  pos : ℕ → ℤ
  negsuc : ℕ → ℤ

abbrev pub neg : ℕ → ℤ
neg zero = pos 0
neg (suc n) = negsuc n

abbrev pub megabyte : ℕ
megabyte = 1_000_000

-- What the drive reports, as scanned: 0 for a text that is no int64.
pub record StorageQuota : Type 0 where
  pub usage : ℕ
  pub limit : ℕ
  pub usage_in_drive : ℕ
  pub usage_in_drive_trash : ℕ

-- The struct quota.
pub record Quota : Type 0 where
  pub usage_mb : ℤ
  pub limit_mb : ℤ
  pub free_mb : ℤ
  pub drive_mb : ℤ
  pub trash_mb : ℤ

-- An int64 sum, from 2^63 on negative, over a megabyte; Go's division goes towards zero.
unfoldable pub over_mb : ℕ → ℤ
over_mb s = if ltb s (2 ^ 63) then pos (s / megabyte) else neg ((2 ^ 64 - s) / megabyte)

-- `q.LimitMB += 1e6 - 1; q.LimitMB /= 1e6`
unfoldable pub round_up : ℕ → ℤ
unfolding over_mb
round_up n = over_mb (n + (megabyte - 1))

-- `(q.LimitMB - q.UsageMB) / 1e6`
unfoldable pub free : ℕ → ℕ → ℤ
free limit usage =
    if leb usage limit then pos ((limit - usage) / megabyte) else neg ((usage - limit) / megabyte)

unfoldable pub getquota : StorageQuota → Quota
unfolding round_up free
getquota q = record {
  usage_mb = round_up q.usage;
  limit_mb = round_up q.limit;
  free_mb = free q.limit q.usage;
  drive_mb = round_up q.usage_in_drive;
  trash_mb = round_up q.usage_in_drive_trash;
}

-- How the request for the quota ends; all but the last end the program.
pub data Answer : Type 0 where
  query_failed bad_status unreadable unparsed : Answer
  quota_of : Quota → Answer

abbrev pub parsed : Option StorageQuota → Answer
parsed none = unparsed
parsed (some q) = quota_of (getquota q)

abbrev pub read_body : (parse : Text → Option StorageQuota) → Option Text → Answer
read_body parse none = unreadable
read_body parse (some body) = parsed (parse body)

-- The request of getquota, by the status and the body of the answer. `parse` stands for
-- json.Unmarshal and the scanning of the four texts.
unfoldable pub ask_quota : (parse : Text → Option StorageQuota) → Option (ℕ × Option Text) → Answer
unfolding getquota
ask_quota parse none = query_failed
ask_quota parse (some (status, body)) = if status == 200 then read_body parse body else bad_status

-- `q.FreeMB < 4000`
unfoldable pub is_low : ℤ → Bool
is_low (pos n) = ltb n 4000
is_low (negsuc n) = true

-- Whether checkQuota warns.
unfoldable pub check_quota : StorageQuota → Bool
unfolding getquota is_low
check_quota q = is_low (getquota q).free_mb

-- Below the int64 range the megabytes are the least number of them that holds the bytes.
pub round_up-ceiling :
    (n : ℕ)
    → n + megabyte ≤ 2 ^ 63
    → (k : ℕ) × (round_up n ≡ pos k) × (n ≤ k * megabyte) × (k * megabyte < n + megabyte)
unfolding round_up
round_up-ceiling n h = ((n + (megabyte - 1)) / megabyte, ground arith, omega arith, omega arith)

is_low-neg : (n : ℕ) → is_low (neg n) ≡ true
unfolding is_low
is_low-neg zero = refl
is_low-neg (suc n) = refl

is_low-free :
    (limit usage : ℕ) → (is_low (free limit usage) ≡ true) ↔ (limit < usage + 4000 * megabyte)
unfolding is_low free
is_low-free limit usage = elim (Bool-cases (leb usage limit)) [
  | inl e ↦ rw e (ground arith)
  | inr e ↦ rw e (λ _. ground arith, λ _. is_low-neg ((usage - limit) / megabyte))
]

-- checkQuota warns exactly when less than 4000 megabytes are free.
pub check_quota_iff :
    (q : StorageQuota) → (check_quota q ≡ true) ↔ (q.limit < q.usage + 4000 * megabyte)
unfolding check_quota
check_quota_iff q = is_low-free q.limit q.usage
