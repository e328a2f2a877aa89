-- ===== src/Tests/Tenants.antt =====
-- Overlays, authorization and requirements at concrete inputs.
use m_gate.Prelude.{
  [], all, arith, elem, false, lookup, lower, none, ok, refl, some, strip, true, ◌+◌, ◌∷◌, ◌≡◌, ◌≤◌,
  string_eq, nat_eq, pair_eq,
}
use m_gate.Authorization.{authorize_tool_call, decide, get_tool, tool_disabled}
use m_gate.Authorization.Decision.{decide-may_call, may_call}
use m_gate.Authorization.KillSwitch.{authorize-set_tool_disabled}
use m_gate.Catalog.{find_tool}
use m_gate.Tenant.Cache.Propagation.{Bounded}
use m_gate.Tenant.PipPolicy.{effective_allowlist, evaluate_requirements, is_ok, requested_from}
use m_gate.Tenant.PipPolicy.Ceiling.{is_ok-evaluate_requirements}
use m_gate.Tenant.Status.{get_tenant_status, normalize_status, stored_status}
use m_gate.Tenant.Status.Gate.{IsValidEntry}
use m_gate.Tenant.Status.Reads.{read_statuses, status_propagates}
use m_gate.Tenant.Store.{ControlPlane, ToolPolicy, cache_ttl}
use m_gate.Tenant.ToolPolicy.{fq_name, is_tool_available, matches_allowlist, set_tool_enabled}
use m_gate.Tests.Fixtures.{acme, catalogs, plane, send, settings}

-- Another process has read the status at 4000; the operator suspended the tenant at 5000.
abbrev suspended_elsewhere : ControlPlane
suspended_elsewhere = record plane {
  tenants = ("acme", record acme { status = some "suspended" }) ∷ [];
  status_cache = ("acme", ("active", 9000)) ∷ [];
}

in_time : 9000 ≤ 5000 + cache_ttl settings
in_time = omega arith

at_last : 5000 + cache_ttl settings ≤ 10000
at_last = omega arith

status_cache-Bounded : Bounded (cache_ttl settings) 5000 "acme" suspended_elsewhere.status_cache
unfolding lookup
status_cache-Bounded = in_time

status_propagates_example :
    (get_tenant_status settings
      (read_statuses settings "acme" (6000 ∷ 7000 ∷ []) suspended_elsewhere)
      "acme"
      10000).0
    ≡ stored_status (lookup "acme" suspended_elsewhere.tenants)
status_propagates_example =
    status_propagates settings suspended_elsewhere "acme" 5000 (6000 ∷ 7000 ∷ []) 10000
      status_cache-Bounded at_last

acme_found : lookup "acme" plane.tenants ≡ some acme
unfolding lookup
acme_found = refl

suspended_parses : normalize_status " Suspended " ≡ ok "suspended"
unfolding normalize_status strip lower
suspended_parses = refl

cold : IsValidEntry (lookup "acme" plane.status_cache)
unfolding lookup
cold = tt

abbrev policy : ToolPolicy
policy = record { allowlist = "mail/*" ∷ []; max_tools = 0; disabled_tools = "mail/old" ∷ [] }

decide-may_call_example :
    (decide send policy "mail" "send"
      ("server:mail" ∷ "mail:send" ∷ [])
      ("tool:invoke" ∷ [])).allowed
    ≡ may_call send policy "mail" "send" ("server:mail" ∷ "mail:send" ∷ []) ("tool:invoke" ∷ [])
decide-may_call_example =
    decide-may_call send policy "mail" "send" ("server:mail" ∷ "mail:send" ∷ [])
      ("tool:invoke" ∷ [])

hidden : is_tool_available policy "web" "get" ≡ false
unfolding is_tool_available matches_allowlist
hidden = refl

admin_may : (decide send policy "web" "get" [] ("admin" ∷ [])).allowed ≡ true
unfolding decide
admin_may = refl

send_known : get_tool settings catalogs (some "acme") "mail" "send" ≡ some send
unfolding get_tool find_tool lookup
send_known = refl

send_trimmed : strip (fq_name "mail" "send") ≡ fq_name "mail" "send"
unfolding strip
send_trimmed = refl

authorize-set_tool_disabled_example :
    (authorize_tool_call settings catalogs
      (set_tool_enabled settings plane "acme" "mail" "send" false none 1000 2000).1
      (some "acme")
      "mail"
      "send"
      none
      (some ("admin" ∷ []))
      3000).0
    ≡ record { allowed = false; reason = tool_disabled; tool = some send }
authorize-set_tool_disabled_example =
    authorize-set_tool_disabled settings catalogs plane (some "acme") "mail" "send" none
      (some ("admin" ∷ [])) none 1000 2000 3000 acme send acme_found send_known send_trimmed

is_ok-evaluate_requirements_example :
    is_ok (evaluate_requirements settings ("requests==2.0" ∷ []) ("requests" ∷ []))
    ≡ all
        (λ n. elem n (effective_allowlist settings ("requests" ∷ [])))
        (requested_from [] ("requests==2.0" ∷ []))
is_ok-evaluate_requirements_example =
    is_ok-evaluate_requirements settings ("requests==2.0" ∷ []) ("requests" ∷ [])
