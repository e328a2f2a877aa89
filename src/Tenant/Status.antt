-- ===== src/Tenant/Status.antt =====
-- services/tenant_status.py: a tenant's status and its read-only flag. `now` is the monotonic
-- clock and `wall` the clock of the timestamps.
pub mod Reads
pub mod Gate
use m_gate.Prelude.{
  Bool, List, Option, Result, String, [], elem, err, false, find_and_modify, if◌then◌else◌, lookup,
  lower, none, ok, or_default, some, strip, ℕ, ◌==◌, ◌∷◌, string_eq, nat_eq, pair_eq,
}
use m_gate.Settings.{Settings}
use m_gate.Tenant.Cache.{read, write_through}
use m_gate.Tenant.Store.{ControlPlane, TenantDoc, cache_ttl, field, stamp}

abbrev pub status_active : String
status_active = "active"

abbrev pub status_suspended : String
status_suspended = "suspended"

abbrev pub status_deleted : String
status_deleted = "deleted"

abbrev pub valid_statuses : List String
valid_statuses = status_active ∷ status_suspended ∷ status_deleted ∷ []

-- The subclasses of `TenantInactiveError`, with their `reason`, where none means the class's text.
pub data TenantInactive : Type 0 where
  tenant_suspended : Option String → TenantInactive
  tenant_deleted : TenantInactive
  tenant_read_only : Option String → TenantInactive

-- `ValueError`
pub data InvalidStatus : Type 0 where
  invalid_status : String → InvalidStatus

unfoldable pub normalize_status : String → Result InvalidStatus String
unfolding strip lower
normalize_status status =
    let normalized = lower (strip status) in
    if elem normalized valid_statuses then ok normalized else err (invalid_status status)

-- What a read makes of the stored field.
unfoldable pub stored_status : Option TenantDoc → String
stored_status doc =
    let status = or_default (field doc (λ d. d.status)) status_active in
    if elem status valid_statuses then status else status_active

unfoldable pub get_tenant_status : Settings → ControlPlane → String → ℕ → String × ControlPlane
get_tenant_status settings plane tenant now =
    let (status, cache) =
      read (cache_ttl settings) now tenant (stored_status (lookup tenant plane.tenants))
        plane.status_cache in
    (status, record plane { status_cache = cache })

-- `str(...) or None`
abbrev reason_of : Option String → Option String
reason_of none = none
reason_of (some r) = if r == "" then none else some r

unfoldable pub assert_tenant_active :
    Settings → ControlPlane → String → ℕ → Result TenantInactive (Unit {0}) × ControlPlane
assert_tenant_active settings plane tenant now =
    let (status, plane') = get_tenant_status settings plane tenant now in
    let reason = reason_of (field (lookup tenant plane'.tenants) (λ d. d.suspended_reason)) in
    (
      if status == status_active
          then ok tt
          else if status == status_deleted
          then err tenant_deleted
          else err (tenant_suspended reason),
      plane',
    )

-- The `$set` of `set_tenant_status`, with the fields of `extra` laid over it.
unfoldable pub status_update :
    String → Option String → Option String → (TenantDoc → TenantDoc) → ℕ → TenantDoc → TenantDoc
unfolding strip
status_update status updated_by reason extra wall doc = extra (record doc {
  status = some status;
  status_stamp = stamp wall updated_by;
  updated_at = wall;
  suspended_reason = some (if status == status_suspended then strip (or_default reason "") else "");
})

-- `none` where the tenant is missing; the cache is left alone there.
abbrev pub settle : {V : Type 0} → Option TenantDoc → V → V → V
settle none same written = same
settle (some doc) same written = written

unfoldable pub set_tenant_status :
    Settings
    → ControlPlane
    → String
    → String
    → Option String
    → Option String
    → (TenantDoc → TenantDoc)
    → ℕ
    → ℕ
    → Result InvalidStatus (Option TenantDoc) × ControlPlane
unfolding status_update
set_tenant_status settings plane tenant status updated_by reason extra wall now =
    elim (normalize_status status) [
      | err e ↦ (err e, plane)
      | ok normalized ↦
          let (doc, tenants) =
            find_and_modify tenant (status_update normalized updated_by reason extra wall)
              plane.tenants in
          (
            ok doc,
            record plane {
              tenants = tenants;
              status_cache =
                  settle doc plane.status_cache
                    (write_through (cache_ttl settings) now tenant normalized plane.status_cache);
            },
          )
    ]

-- `bool(doc.get("read_only", False))`
unfoldable pub stored_read_only : Option TenantDoc → Bool
stored_read_only doc = elim (field doc (λ d. d.read_only)) [ none ↦ false | some b ↦ b ]

unfoldable pub get_tenant_read_only : Settings → ControlPlane → String → ℕ → Bool × ControlPlane
get_tenant_read_only settings plane tenant now =
    let (read_only, cache) =
      read (cache_ttl settings) now tenant (stored_read_only (lookup tenant plane.tenants))
        plane.read_only_cache in
    (read_only, record plane { read_only_cache = cache })

unfoldable pub assert_tenant_writable :
    Settings → ControlPlane → String → ℕ → Result TenantInactive (Unit {0}) × ControlPlane
assert_tenant_writable settings plane tenant now =
    let (flag, plane') = get_tenant_read_only settings plane tenant now in
    let reason = reason_of (field (lookup tenant plane'.tenants) (λ d. d.read_only_reason)) in
    (if flag then err (tenant_read_only reason) else ok tt, plane')

pub read_only_update : Bool → Option String → Option String → ℕ → TenantDoc → TenantDoc
unfolding strip
read_only_update enabled updated_by reason wall doc = record doc {
  read_only = some enabled;
  read_only_reason = some (if enabled then strip (or_default reason "") else "");
  read_only_stamp = stamp wall updated_by;
  updated_at = wall;
}

pub set_tenant_read_only :
    Settings
    → ControlPlane
    → String
    → Bool
    → Option String
    → Option String
    → ℕ
    → ℕ
    → Option TenantDoc × ControlPlane
unfolding read_only_update
set_tenant_read_only settings plane tenant enabled updated_by reason wall now =
    let (doc, tenants) =
      find_and_modify tenant (read_only_update enabled updated_by reason wall) plane.tenants in
    (
      doc,
      record plane {
        tenants = tenants;
        read_only_cache =
            settle doc plane.read_only_cache
              (write_through (cache_ttl settings) now tenant enabled plane.read_only_cache);
      },
    )
