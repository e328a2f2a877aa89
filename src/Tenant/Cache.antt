-- ===== src/Tenant/Cache.antt =====
-- The per-process cache that services/tenant_status.py, tenant_tool_policy.py, account_tier.py and
-- tenant_pip_policy.py each keep: a value and the monotonic time at which it expires. Times are
-- milliseconds of `time.monotonic()`.
pub mod Fresh
pub mod Propagation
use m_gate.Prelude.{
  Dict, Option, String, delete, if◌then◌else◌, insert, lookup, ltb, none, some, ℕ, ◌+◌, string_eq,
}

abbrev pub Cache : Type 0 → Type 0
Cache V = Dict String (V × ℕ)

module _ {V : Type 0} where
  -- An entry serves while its expiry lies ahead.
  abbrev pub alive : ℕ → Option (V × ℕ) → Option V
  alive now none = none
  alive now (some (v, expiry)) = if ltb now expiry then some v else none

  unfoldable pub cached : Cache V → String → ℕ → Option V
  cached c tenant now = alive now (lookup tenant c)

  -- What a read does to the cache after it went to the collection.
  unfoldable pub fill : ℕ → ℕ → String → V → Cache V → Cache V
  fill ttl now tenant v c = if ltb 0 ttl then insert tenant (v, now + ttl) c else c

  -- What a setter does to the cache of the process that writes.
  unfoldable pub write_through : ℕ → ℕ → String → V → Cache V → Cache V
  write_through ttl now tenant v c =
      if ltb 0 ttl then insert tenant (v, now + ttl) c else delete tenant c

  abbrev serve : Option V → V → Cache V → Cache V → V × Cache V
  serve (some v) stored same filled = (v, same)
  serve none stored same filled = (stored, filled)

  -- A read, where `stored` is what the collection holds.
  unfoldable pub read : ℕ → ℕ → String → V → Cache V → V × Cache V
  unfolding cached fill
  read ttl now tenant stored c = serve (cached c tenant now) stored c (fill ttl now tenant stored c)
