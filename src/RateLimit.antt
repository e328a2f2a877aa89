-- ===== src/RateLimit.antt =====
-- gateway/middleware/ratelimit.py: the sliding window of requests of one tenant from one address.
-- `now` is the synchronised wall clock in milliseconds, a window has a length in seconds, and the
-- estimate of the rate, which the source computes in floats, is exact here: it is kept multiplied
-- by the length of the window in milliseconds.
pub mod Window
use m_gate.Prelude.{
  Bool, Dict, Option, String, clamp, false, if◌then◌else◌, insert, lookup, ltb, max, negsuc, none,
  pos, some, starts_with, true, ℕ, ℤ, ◌*◌, ◌+◌, ◌-◌, ◌/◌, ◌==◌, ◌||◌, string_eq, nat_eq, pair_eq,
}
use m_gate.Settings.{Settings}

pub record Bucket : Type 0 where
  pub count : ℕ
  pub created_at : ℕ
  pub updated_at : ℕ
  pub expires_at : ℕ

-- `rate_limit_buckets`, by tenant, address and the second in which the window begins.
abbrev pub Buckets : Type 0
Buckets = Dict (String × (String × ℕ)) Bucket

-- What the headers tell.
pub record Headers : Type 0 where
  pub retry_after : ℕ
  pub limit : ℤ
  pub remaining : ℕ
  pub reset : ℕ

pub data Verdict : Type 0 where
  exempt : Verdict
  passed : Headers → Verdict
  too_many : Headers → Verdict

abbrev pub is_passed : Verdict → Bool
is_passed exempt = true
is_passed (passed headers) = true
is_passed (too_many headers) = false

abbrev pub is_exempt : String → Bool
is_exempt path = starts_with path "/health" || (path == "/metrics")

abbrev pub window_seconds : Settings → ℕ
window_seconds settings = max 1 (clamp settings.rate_limit_window_seconds)

-- `int(now_ts // window_seconds) * window_seconds`
unfoldable pub current_epoch : ℕ → ℕ → ℕ
current_epoch window now = now / (window * 1000) * window

-- The upsert that counts the request.
abbrev pub hit : ℕ → ℕ → Option Bucket → Bucket
hit now expires_at none = record {
  count = 1;
  created_at = now;
  updated_at = now;
  expires_at = expires_at;
}
hit now expires_at (some bucket) = record bucket {
  count = bucket.count + 1;
  updated_at = now;
  expires_at = expires_at;
}

abbrev pub count_in : Option Bucket → ℕ
count_in none = 0
count_in (some bucket) = bucket.count

-- The count of the window before; the first window has none.
unfoldable pub previous_count : Buckets → String → String → ℕ → ℕ → ℕ
previous_count buckets tenant ip window epoch =
    if ltb epoch window then 0 else count_in (lookup (tenant, (ip, epoch - window)) buckets)

-- The estimate, in requests times milliseconds: the window before weighs what is left of this one.
unfoldable pub effective : ℕ → ℕ → ℕ → ℕ → ℕ → ℕ
effective window epoch now current previous =
    current * (window * 1000) + previous * (window * 1000 - (now - epoch * 1000))

-- `effective > limit`; a negative limit is exceeded by any request.
unfoldable pub exceeds : ℕ → ℕ → ℤ → Bool
exceeds window estimate (pos limit) = ltb (limit * (window * 1000)) estimate
exceeds window estimate (negsuc n) = true

-- `-(-n // d)`
abbrev ceil_div : ℕ → ℕ → ℕ
ceil_div n d = (n + (d - 1)) / d

abbrev pub headers_of : ℕ → ℕ → ℕ → ℕ → ℤ → Headers
headers_of window epoch now estimate limit = record {
  retry_after = ceil_div ((epoch + window) * 1000 - now) 1000;
  limit = limit;
  remaining = clamp limit - ceil_div estimate (window * 1000);
  reset = epoch + window;
}

abbrev pub verdict_of : Bool → Headers → Verdict
verdict_of true headers = too_many headers
verdict_of false headers = passed headers

unfoldable pub handle : Settings → Buckets → String → String → String → ℕ → Verdict × Buckets
unfolding current_epoch previous_count effective exceeds
handle settings buckets path tenant ip now =
    let window = window_seconds settings in
    let epoch = current_epoch window now in
    let bucket =
      hit now ((epoch + window + window) * 1000) (lookup (tenant, (ip, epoch)) buckets) in
    let buckets' = insert (tenant, (ip, epoch)) bucket buckets in
    let estimate =
      effective window epoch now bucket.count (previous_count buckets' tenant ip window epoch) in
    if is_exempt path then (exempt, buckets) else (
      verdict_of (exceeds window estimate settings.rate_limit_max_requests)
          (headers_of window epoch now estimate settings.rate_limit_max_requests),
      buckets',
    )
