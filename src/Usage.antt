-- ===== src/Usage.antt =====
-- services/usage_metering.py and services/data_plane.py: counters, quotas and billing events. The
-- `strftime("%Y-%m")` of a time is the parameter `month_of`; times are milliseconds.
pub mod Counting
pub mod Billing
pub mod Events
use m_gate.Prelude.{
  Dict, List, Option, String, [], clamp, if◌then◌else◌, insert, leb, lookup, ltb, nat_beq, none,
  or_default, pos, some, ℕ, ℤ, ◌&&◌, ◌*◌, ◌++◌, ◌+◌, ◌∷◌, string_eq, nat_eq, pair_eq,
}
use m_gate.Settings.{Settings}
use m_gate.Tenant.Store.{field}

-- A counter document is only ever incremented; `none` is a field that was not.
pub record Counter : Type 0 where
  pub calls : Option ℕ
  pub sandbox_ms : Option ℕ
  pub created_at : ℕ
  pub updated_at : ℕ

pub record QuotaDoc : Type 0 where
  pub calls_limit : Option ℤ
  pub sandbox_seconds_limit : Option ℤ
  pub updated_at : ℕ
  pub updated_by : Option String

pub record BillingEvent : Type 0 where
  pub tenant_id : String
  pub period : String
  pub kind : String
  pub amount : ℕ
  pub ts : ℕ
  pub server : String
  pub tool : String
  pub source : String

-- The three collections; events in the order of insertion.
pub record Metering : Type 0 where
  pub usage_counters : Dict (String × String) Counter
  pub tenant_quotas : Dict String QuotaDoc
  pub usage_events : List BillingEvent

pub record Usage : Type 0 where
  pub tenant_id : String
  pub period : String
  pub calls : ℕ
  pub sandbox_ms : ℕ

pub record Quota : Type 0 where
  pub calls_limit : ℕ
  pub sandbox_seconds_limit : ℕ

-- `none` is a value of which `int` raises, or none.
abbrev pub non_negative_int : Option ℤ → ℕ → ℕ
non_negative_int none default = default
non_negative_int (some n) default = clamp n

abbrev count_of : Option ℕ → ℕ
count_of none = 0
count_of (some n) = n

-- Both branches of the source give the month.
abbrev pub current_period : (ℕ → String) → ℕ → String
current_period month_of now = month_of now

abbrev pub usage_snapshot : Option Counter → String → String → Usage
usage_snapshot none tenant period = record {
  tenant_id = tenant;
  period = period;
  calls = 0;
  sandbox_ms = 0;
}
usage_snapshot (some doc) tenant period = record {
  tenant_id = tenant;
  period = period;
  calls = count_of doc.calls;
  sandbox_ms = count_of doc.sandbox_ms;
}

abbrev pub quota_snapshot : Settings → Option QuotaDoc → Quota
quota_snapshot settings none = record {
  calls_limit = clamp settings.default_quota_calls_per_period;
  sandbox_seconds_limit = clamp settings.default_quota_sandbox_seconds_per_period;
}
quota_snapshot settings (some doc) = record {
  calls_limit = non_negative_int doc.calls_limit (clamp settings.default_quota_calls_per_period);
  sandbox_seconds_limit =
      non_negative_int doc.sandbox_seconds_limit
        (clamp settings.default_quota_sandbox_seconds_per_period);
}

unfoldable pub get_usage : Metering → String → String → Usage
get_usage db tenant period =
    usage_snapshot (lookup (tenant, period) db.usage_counters) tenant period

-- `$inc` by a positive number, else nothing.
abbrev inc : ℕ → Option ℕ → Option ℕ
inc delta field = if ltb 0 delta then some (count_of field + delta) else field

-- The update of an upsert, on the document or on a new one.
abbrev pub increment : ℕ → ℕ → ℕ → Option Counter → Counter
increment calls sandbox_ms now none = record {
  calls = inc calls none;
  sandbox_ms = inc sandbox_ms none;
  created_at = now;
  updated_at = now;
}
increment calls sandbox_ms now (some doc) = record doc {
  calls = inc calls doc.calls;
  sandbox_ms = inc sandbox_ms doc.sandbox_ms;
  updated_at = now;
}

unfoldable pub record_usage : Metering → String → ℤ → ℤ → String → ℕ → Usage × Metering
unfolding get_usage
record_usage db tenant calls sandbox_ms period now =
    let call_delta = clamp calls in
    let sandbox_delta = clamp sandbox_ms in
    let doc = increment call_delta sandbox_delta now (lookup (tenant, period) db.usage_counters) in
    if nat_beq call_delta 0 && nat_beq sandbox_delta 0 then (get_usage db tenant period, db) else (
      usage_snapshot (some doc) tenant period,
      record db { usage_counters = insert (tenant, period) doc db.usage_counters },
    )

unfoldable pub get_effective_quota : Settings → Metering → String → Quota
get_effective_quota settings db tenant = quota_snapshot settings (lookup tenant db.tenant_quotas)

unfoldable pub set_quota : Metering → String → ℤ → ℤ → Option String → ℕ → Quota × Metering
set_quota db tenant calls_limit sandbox_seconds_limit updated_by now =
    let calls_cap = clamp calls_limit in
    let sandbox_cap = clamp sandbox_seconds_limit in
    (
      record { calls_limit = calls_cap; sandbox_seconds_limit = sandbox_cap },
      record db {
        tenant_quotas =
            insert tenant
              (record {
                calls_limit = some (pos calls_cap);
                sandbox_seconds_limit = some (pos sandbox_cap);
                updated_at = now;
                updated_by = updated_by;
              })
              db.tenant_quotas;
      },
    )

-- Why a call is refused.
pub data QuotaReason : Type 0 where
  calls_limit_exceeded sandbox_seconds_limit_exceeded sandbox_quota_preflight : QuotaReason

abbrev pub over_quota : Usage → Quota → Option QuotaReason
over_quota usage quota =
    if ltb 0 quota.calls_limit && leb quota.calls_limit usage.calls
    then some calls_limit_exceeded
    else if ltb 0 quota.sandbox_seconds_limit
        && leb (quota.sandbox_seconds_limit * 1000) usage.sandbox_ms
    then some sandbox_seconds_limit_exceeded
    else none

-- The reason, none where the call may go on, with the usage and the quota.
unfoldable pub check_quota :
    Settings → Metering → String → String → Option QuotaReason × Usage × Quota
unfolding get_usage get_effective_quota
check_quota settings db tenant period =
    let usage = get_usage db tenant period in
    let quota = get_effective_quota settings db tenant in (over_quota usage quota, usage, quota)

-- `projected > limit * 1000 - used` on integers, written without the subtraction.
unfoldable pub check_sandbox_preflight : Usage → Quota → ℤ → Option QuotaReason
check_sandbox_preflight usage quota projected_ms =
    if nat_beq quota.sandbox_seconds_limit 0
    then none
    else if ltb (quota.sandbox_seconds_limit * 1000) (clamp projected_ms + usage.sandbox_ms)
    then some sandbox_quota_preflight
    else none

unfoldable pub emit_billing_event :
    Metering → String → String → ℤ → String → String → String → String → ℕ → Metering
emit_billing_event db tenant kind amount period server tool source now =
    let event_amount = clamp amount in
    if nat_beq event_amount 0 then db else record db {
      usage_events =
          db.usage_events
          ++ (record {
            tenant_id = tenant;
            period = period;
            kind = kind;
            amount = event_amount;
            ts = now;
            server = server;
            tool = tool;
            source = source;
          }
              ∷ []);
    }

-- `str(usage.get("period", "")) or None`, and the default of `emit_billing_event`.
unfoldable pub record_billable_call :
    (ℕ → String) → Metering → String → String → String → String → ℕ → Metering
unfolding record_usage emit_billing_event
record_billable_call month_of db tenant server tool source now =
    let (usage, db') = record_usage db tenant (pos 1) (pos 0) (current_period month_of now) now in
    emit_billing_event db' tenant "calls" (pos 1)
      (or_default (some usage.period) (current_period month_of now)) server tool source now
