-- ===== src/Tenant/Cache/Propagation.antt =====
-- On another process a write is seen after the lifetime of a cache entry at the latest.
use m_gate.Prelude.{
  List, Option, String, [], arith, eq_iff, inr, lookup, lookup-delete, lookup-insert, none, some, ℕ,
  ◌+◌, ◌∷◌, ◌≡◌, ◌≤◌, ◌⊎◌, string_eq,
}
use m_gate.Tenant.Cache.{Cache, cached, read, write_through}

module _ {V : Type 0} where
  -- The entry, if there is one, expires at `bound` at the latest.
  abbrev pub Expires : ℕ → Option (V × ℕ) → Type 0
  Expires bound none = Unit
  Expires bound (some (w, expiry)) = expiry ≤ bound

  -- Each entry of the cache does, for the tenant in question.
  abbrev pub Bounded : ℕ → ℕ → String → Cache V → Type 0
  Bounded ttl now tenant c = Expires (now + ttl) (lookup tenant c)

  pub read-Bounded :
      (ttl now later : ℕ) (tenant : String) (stored : V) (c : Cache V)
      → now ≤ later
      → Bounded ttl now tenant c
      → Bounded ttl later tenant (read ttl later tenant stored c).1
  unfolding read
  read-Bounded ttl now later tenant stored c h b =
      ground (arith, eq_iff tenant tenant, lookup-insert tenant tenant (stored, later + ttl) c)

  pub write_through-Bounded :
      (ttl now later : ℕ) (tenant : String) (v : V) (c : Cache V)
      → Bounded ttl later tenant (write_through ttl later tenant v c)
  unfolding write_through
  write_through-Bounded ttl now later tenant v c = ground (
    arith,
    eq_iff tenant tenant,
    lookup-insert tenant tenant (v, later + ttl) c,
    lookup-delete tenant tenant c,
  )

  -- The entry is out of date until `bound` only.
  abbrev Settles : ℕ → V → Option (V × ℕ) → Type 0
  Settles bound v none = Unit
  Settles bound v (some (w, expiry)) = (w ≡ v) ⊎ (expiry ≤ bound)

  -- Reads of one tenant at the times `times`, while the collection holds `v`.
  unfoldable pub reads : ℕ → String → V → List ℕ → Cache V → Cache V
  reads ttl tenant v [] c = c
  reads ttl tenant v (t ∷ times) c = reads ttl tenant v times (read ttl t tenant v c).1

  Expires→Settles : (bound : ℕ) (v : V) (o : Option (V × ℕ)) → Expires bound o → Settles bound v o
  Expires→Settles bound v none h = tt
  Expires→Settles bound v (some (w, expiry)) h = inr h

  read-Settles :
      (ttl bound now : ℕ) (tenant : String) (v : V) (c : Cache V)
      → Settles bound v (lookup tenant c)
      → Settles bound v (lookup tenant (read ttl now tenant v c).1)
  unfolding read
  read-Settles ttl bound now tenant v c h =
      ground (arith, eq_iff tenant tenant, lookup-insert tenant tenant (v, now + ttl) c)

  reads-Settles :
      (ttl bound : ℕ) (tenant : String) (v : V) (times : List ℕ) (c : Cache V)
      → Settles bound v (lookup tenant c)
      → Settles bound v (lookup tenant (reads ttl tenant v times c))
  unfolding reads
  reads-Settles ttl bound tenant v [] c h = h
  reads-Settles ttl bound tenant v (t ∷ times) c h =
      reads-Settles ttl bound tenant v times (read ttl t tenant v c).1
        (read-Settles ttl bound t tenant v c h)

  read_settled :
      (ttl bound now : ℕ) (tenant : String) (v : V) (c : Cache V)
      → bound ≤ now
      → Settles bound v (lookup tenant c)
      → (read ttl now tenant v c).0 ≡ v
  unfolding read cached
  read_settled ttl bound now tenant v c h s = ground arith

  pub read_after_lifetime :
      (ttl written now : ℕ) (tenant : String) (v : V) (times : List ℕ) (c : Cache V)
      → Bounded ttl written tenant c
      → written + ttl ≤ now
      → (read ttl now tenant v (reads ttl tenant v times c)).0 ≡ v
  read_after_lifetime ttl written now tenant v times c b h =
      read_settled ttl (written + ttl) now tenant v (reads ttl tenant v times c) h (
        reads-Settles ttl (written + ttl) tenant v times c
          (Expires→Settles (written + ttl) v (lookup tenant c) b))
