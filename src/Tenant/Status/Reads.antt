-- ===== src/Tenant/Status/Reads.antt =====
-- What a read of the status returns after a write, on this process and on another.
use m_gate.Prelude.{
  ==_refl, Bool-cases, List, Option, String, [], elem, eq_iff, false, if-eq-ok, inl, inr, lookup,
  lookup-modify, lower, modify, ok, refl, some, strip, true, ℕ, ◌+◌, ◌==◌, ◌∷◌, ◌≡◌, ◌≤◌, string_eq,
}
use m_gate.Settings.{Settings}
use m_gate.Tenant.Cache.{write_through}
use m_gate.Tenant.Cache.Fresh.{read-write_through}
use m_gate.Tenant.Cache.Propagation.{Bounded, read_after_lifetime, reads}
use m_gate.Tenant.Status.{
  get_tenant_status, invalid_status, normalize_status, set_tenant_status, status_update,
  stored_status, valid_statuses,
}
use m_gate.Tenant.Store.{ControlPlane, TenantDoc, cache_ttl, field}

normalize_status_valid :
    (status n : String) → normalize_status status ≡ ok n → elem n valid_statuses ≡ true
unfolding normalize_status
normalize_status_valid status n h =
    let (valid, e) =
      if-eq-ok (elem (lower (strip status)) valid_statuses) (lower (strip status))
        (invalid_status status) h in
    rw e at valid

valid_ne_empty : (n : String) → elem n valid_statuses ≡ true → (n == "") ≡ false
valid_ne_empty n h = elim (Bool-cases (n == "")) [
  | inl e ↦ let bad : elem "" valid_statuses ≡ true = rw ((eq_iff n "").0 e) at h in cc
  | inr e ↦ e
]

stored_status_valid :
    (n : String) (doc : Option TenantDoc)
    → elem n valid_statuses ≡ true
    → field doc (λ d. d.status) ≡ some n
    → stored_status doc ≡ n
unfolding stored_status
stored_status_valid n doc h e = rw (e, valid_ne_empty n h, h)

-- A write to a tenant that exists.
module _ (settings : Settings) (plane : ControlPlane) (tenant status n : String)
    (updated_by reason : Option String) (extra : TenantDoc → TenantDoc) (wall now : ℕ)
    (doc : TenantDoc) (found : lookup tenant plane.tenants ≡ some doc)
    (parsed : normalize_status status ≡ ok n) where
  pub set_tenant_status_lem :
      set_tenant_status settings plane tenant status updated_by reason extra wall now ≡ (
        ok (some (status_update n updated_by reason extra wall doc)),
        record plane {
          tenants = modify tenant (status_update n updated_by reason extra wall) plane.tenants;
          status_cache = write_through (cache_ttl settings) now tenant n plane.status_cache;
        },
      )
  unfolding set_tenant_status
  set_tenant_status_lem = rw (parsed, set_tenant_status, found, set_tenant_status)

  -- A valid status is written for a tenant that has a document, with further fields that leave the
  -- status alone. A read on the process that wrote returns the normalized status, at any time
  -- after.
  pub get-set_tenant_status :
      ((d : TenantDoc) → (extra d).status ≡ d.status)
      → (later : ℕ)
      → (get_tenant_status settings
          (set_tenant_status settings plane tenant status updated_by reason extra wall now).1
          tenant
          later).0
        ≡ n
  unfolding get_tenant_status
  get-set_tenant_status kept later =
      rw (set_tenant_status_lem, stored)
        (read-write_through (cache_ttl settings) now tenant n plane.status_cache later)
    where
      stored :
          stored_status (
            lookup tenant
              (modify tenant (status_update n updated_by reason extra wall) plane.tenants))
          ≡ n
      stored =
          rw (lookup-modify, ==_refl tenant, found)
            (stored_status_valid n _ (normalize_status_valid status n parsed)
              (unfold status_update in kept _))

-- Reads of one tenant's status, one after another, at the given times.
pub read_statuses : Settings → String → List ℕ → ControlPlane → ControlPlane
read_statuses settings tenant [] plane = plane
read_statuses settings tenant (t ∷ times) plane =
    read_statuses settings tenant times (get_tenant_status settings plane tenant t).1

read_statuses_lem :
    (settings : Settings) (tenant : String) (times : List ℕ) (plane : ControlPlane)
    → read_statuses settings tenant times plane ≡ record plane {
      status_cache =
          reads
            (cache_ttl settings)
            tenant
            (stored_status (lookup tenant plane.tenants))
            times
            plane.status_cache;
    }
unfolding read_statuses get_tenant_status reads
read_statuses_lem settings tenant [] plane = refl
read_statuses_lem settings tenant (t ∷ times) plane =
    read_statuses_lem settings tenant times (get_tenant_status settings plane tenant t).1

-- A process whose cached status expires within a lifetime of the write may serve the old one,
-- however often it reads in between; a read a lifetime after the write or later returns what the
-- document holds.
pub status_propagates :
    (settings : Settings) (plane : ControlPlane) (tenant : String) (written : ℕ) (times : List ℕ)
    (now : ℕ)
    → Bounded (cache_ttl settings) written tenant plane.status_cache
    → written + cache_ttl settings ≤ now
    → (get_tenant_status settings (read_statuses settings tenant times plane) tenant now).0
      ≡ stored_status (lookup tenant plane.tenants)
unfolding get_tenant_status
status_propagates settings plane tenant written times now b h =
    rw (read_statuses_lem settings tenant times plane)
      (read_after_lifetime (cache_ttl settings) written now tenant _ times plane.status_cache b h)
