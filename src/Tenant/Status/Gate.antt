-- ===== src/Tenant/Status/Gate.antt =====
-- Which requests the two gates let through.
use m_gate.Prelude.{
  Bool, Bool-cases, Option, Option-cases, Result, String, arith, elem, eq_iff, err, false, inl, inr,
  lookup, ltb, none, ok, or_default, some, true, ℕ, ◌==◌, ◌||◌, ◌↔◌, ◌≡◌, string_eq,
}
use m_gate.Settings.{Settings}
use m_gate.Tenant.Cache.{Cache, alive, cached, read}
use m_gate.Tenant.Cache.Fresh.{lookup-read}
use m_gate.Tenant.Status.{
  TenantInactive, assert_tenant_active, assert_tenant_writable, get_tenant_read_only,
  get_tenant_status, status_active, status_deleted, status_suspended, stored_status, tenant_deleted,
  tenant_read_only, tenant_suspended, valid_statuses,
}
use m_gate.Tenant.Store.{ControlPlane, TenantDoc, cache_ttl, field}

-- The status that a read returns is one of the three, if the cache holds no other.
abbrev pub IsValidEntry : Option (String × ℕ) → Type 0
IsValidEntry none = Unit
IsValidEntry (some (status, expiry)) = elem status valid_statuses ≡ true

stored_status-valid : (doc : Option TenantDoc) → elem (stored_status doc) valid_statuses ≡ true
unfolding stored_status
stored_status-valid doc =
    elim (Bool-cases (elem (or_default (field doc (λ d. d.status)) status_active) valid_statuses)) [
      | inl e ↦ rw (e, e)
      | inr e ↦ rw e
    ]

read-valid :
    (ttl now : ℕ) (tenant stored : String) (c : Cache String)
    → elem stored valid_statuses ≡ true
    → IsValidEntry (lookup tenant c)
    → elem (read ttl now tenant stored c).0 valid_statuses ≡ true
unfolding read cached
read-valid ttl now tenant stored c s h = elim (Option-cases (lookup tenant c)) [
  | inl e ↦ rw (e, alive) s
  | inr ((w, expiry), e) ↦ elim (Bool-cases (ltb now expiry)) [
    | inl live ↦ rw (e, alive, live) (rw e at h)
    | inr dead ↦ rw (e, alive, dead) s
  ]
]

pub get_tenant_status-valid :
    (settings : Settings) (plane : ControlPlane) (tenant : String) (now : ℕ)
    → IsValidEntry (lookup tenant plane.status_cache)
    → elem (get_tenant_status settings plane tenant now).0 valid_statuses ≡ true
unfolding get_tenant_status
get_tenant_status-valid settings plane tenant now h =
    read-valid (cache_ttl settings) now tenant _ plane.status_cache
      (stored_status-valid (lookup tenant plane.tenants)) h

-- What the gate answers, by the status that was read.
abbrev pub Opens : String → Result TenantInactive (Unit {0}) → Type 0
Opens status (ok _) = status ≡ status_active
Opens status (err tenant_deleted) = status ≡ status_deleted
Opens status (err (tenant_suspended _)) = status ≡ status_suspended
Opens status (err (tenant_read_only _)) = ⊥

middle_of_three :
    (x y z : Bool) → (x || (y || (z || false))) ≡ true → x ≡ false → z ≡ false → y ≡ true
middle_of_three x y z h a d = ground arith

three_statuses :
    (s : String)
    → elem s valid_statuses ≡ true
    → (s == status_active) ≡ false
    → (s == status_deleted) ≡ false
    → s ≡ status_suspended
three_statuses s h a d =
    (eq_iff s status_suspended).0
      (middle_of_three (s == status_active) (s == status_suspended) (s == status_deleted) h a d)

-- If the cached status, if any, is one of the three, the gate lets a request through only if the
-- status read is active, reports a deleted tenant only if it is deleted and a suspended one only if
-- it is suspended, and never raises the read-only error.
pub assert_tenant_active-Opens :
    (settings : Settings) (plane : ControlPlane) (tenant : String) (now : ℕ)
    → IsValidEntry (lookup tenant plane.status_cache)
    → Opens
        (get_tenant_status settings plane tenant now).0
        (assert_tenant_active settings plane tenant now).0
unfolding assert_tenant_active
assert_tenant_active-Opens settings plane tenant now h =
    let status = (get_tenant_status settings plane tenant now).0 in
    ground (
      arith,
      eq_iff status status_active,
      eq_iff status status_deleted,
      three_statuses status (get_tenant_status-valid settings plane tenant now h),
    )

-- Writes and reads keep the cached statuses valid.
pub get_tenant_status-IsValidEntry :
    (settings : Settings) (plane : ControlPlane) (tenant : String) (now : ℕ)
    → IsValidEntry (lookup tenant plane.status_cache)
    → IsValidEntry (lookup tenant (get_tenant_status settings plane tenant now).1.status_cache)
unfolding get_tenant_status
get_tenant_status-IsValidEntry settings plane tenant now h =
    elim (lookup-read (cache_ttl settings) now tenant stored plane.status_cache) [
      | inl e ↦ rw e h
      | inr e ↦ rw e (stored_status-valid (lookup tenant plane.tenants))
    ]
  where
    stored : String
    stored = stored_status (lookup tenant plane.tenants)

-- A read-only tenant is refused, with its reason, and any other is let through.
pub assert_tenant_writable_lem :
    (settings : Settings) (plane : ControlPlane) (tenant : String) (now : ℕ)
    → ((assert_tenant_writable settings plane tenant now).0 ≡ ok tt)
      ↔ ((get_tenant_read_only settings plane tenant now).0 ≡ false)
unfolding assert_tenant_writable
assert_tenant_writable_lem settings plane tenant now = ground arith
