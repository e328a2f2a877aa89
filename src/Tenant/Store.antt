-- ===== src/Tenant/Store.antt =====
-- The `tenants` collection of the control database, as far as the services under services/ that
-- start with `tenant_` and account_tier.py read and write it, and their caches. `none` is a field
-- that is not set. Times are milliseconds.
use m_gate.Prelude.{Bool, Dict, List, Option, String, clamp, none, or_default, some, ℕ, ℤ, ◌*◌}
use m_gate.Settings.{Settings}
use m_gate.Tenant.Cache.{Cache}

pub record Stamp : Type 0 where
  pub updated_at : ℕ
  pub updated_by : String

pub record TenantDoc : Type 0 where
  pub status : Option String
  pub status_stamp : Option Stamp
  pub suspended_reason : Option String
  pub read_only : Option Bool
  pub read_only_stamp : Option Stamp
  pub read_only_reason : Option String
  pub confirmation : Option String
  pub confirmation_stamp : Option Stamp
  pub tool_allowlist : Option (List String)
  pub max_tools : Option ℤ
  pub disabled_tools : Option (List String)
  pub tool_policy_stamp : Option Stamp
  pub code_requirements_allowlist : Option (List String)
  pub code_requirements_stamp : Option Stamp
  pub deleted_at : Option ℕ
  pub purge_at : Option ℕ
  pub purge_started_at : Option ℕ
  pub updated_at : ℕ

-- A tenant's tool policy, normalized.
pub record ToolPolicy : Type 0 where
  pub allowlist : List String
  pub max_tools : ℕ
  pub disabled_tools : List String

-- The collection, by `tenant_id`, and the caches of one process.
pub record ControlPlane : Type 0 where
  pub tenants : Dict String TenantDoc
  pub status_cache : Cache String
  pub read_only_cache : Cache Bool
  pub policy_cache : Cache ToolPolicy
  pub confirmation_cache : Cache String
  pub allowlist_cache : Cache (List String)

-- A field of the document that `find_one` returns; `(doc or {})` reads a missing one as empty.
abbrev pub field : {A : Type 0} → Option TenantDoc → (TenantDoc → Option A) → Option A
field none get = none
field (some doc) get = get doc

-- `str(updated_by or "admin")`
abbrev pub stamp : ℕ → Option String → Option Stamp
stamp now updated_by =
    some (record { updated_at = now; updated_by = or_default updated_by "admin" })

-- `max(0.0, float(settings.tenant_status_cache_ttl_seconds))`, in milliseconds
abbrev pub cache_ttl : Settings → ℕ
cache_ttl settings = clamp settings.tenant_status_cache_ttl_seconds * 1000

-- A tenant of which nothing is set.
abbrev pub blank_doc : TenantDoc
blank_doc = record {
  status = none;
  status_stamp = none;
  suspended_reason = none;
  read_only = none;
  read_only_stamp = none;
  read_only_reason = none;
  confirmation = none;
  confirmation_stamp = none;
  tool_allowlist = none;
  max_tools = none;
  disabled_tools = none;
  tool_policy_stamp = none;
  code_requirements_allowlist = none;
  code_requirements_stamp = none;
  deleted_at = none;
  purge_at = none;
  purge_started_at = none;
  updated_at = 0;
}
