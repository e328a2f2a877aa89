-- ===== src/Tenant/Cache/Fresh.antt =====
-- On the process that writes, a write is seen at once, and nothing else is disturbed.
use m_gate.Prelude.{
  String, arith, eq_iff, lookup, lookup-delete, lookup-insert, some, ℕ, ◌+◌, ◌≡◌, ◌≢◌, ◌⊎◌,
  string_eq,
}
use m_gate.Tenant.Cache.{Cache, cached, read, write_through}

module _ {V : Type 0} (ttl now : ℕ) (tenant : String) (v : V) (c : Cache V) where
  -- Whenever the read comes: before the expiry from the cache, after it from the collection.
  pub read-write_through :
      (later : ℕ) → (read ttl later tenant v (write_through ttl now tenant v c)).0 ≡ v
  unfolding read write_through
  read-write_through later = ground (
    arith,
    eq_iff tenant tenant,
    lookup-insert tenant tenant (v, now + ttl) c,
    lookup-delete tenant tenant c,
  )

  pub lookup-write_through_ne :
      (other : String)
      → tenant ≢ other
      → lookup other (write_through ttl now tenant v c) ≡ lookup other c
  unfolding write_through
  lookup-write_through_ne other h = ground (
    arith,
    eq_iff tenant other,
    lookup-insert tenant other (v, now + ttl) c,
    lookup-delete tenant other c,
  )

  pub cached-write_through_ne :
      (other : String) (later : ℕ)
      → tenant ≢ other
      → cached (write_through ttl now tenant v c) other later ≡ cached c other later
  unfolding cached
  cached-write_through_ne other later h = ground (arith, lookup-write_through_ne other h)

  pub lookup-read_ne :
      (other : String) → tenant ≢ other → lookup other (read ttl now tenant v c).1 ≡ lookup other c
  unfolding read
  lookup-read_ne other h =
      ground (arith, eq_iff tenant other, lookup-insert tenant other (v, now + ttl) c)

  -- A read leaves the tenant's entry, or makes it anew.
  pub lookup-read :
      (lookup tenant (read ttl now tenant v c).1 ≡ lookup tenant c)
      ⊎ (lookup tenant (read ttl now tenant v c).1 ≡ some (v, now + ttl))
  unfolding read
  lookup-read = ground (arith, eq_iff tenant tenant, lookup-insert tenant tenant (v, now + ttl) c)
