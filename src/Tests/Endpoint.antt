-- ===== src/Tests/Endpoint.antt =====
-- Requests of the endpoint at concrete inputs.
use m_gate.Prelude.{
  Option, String, [], arith, concat, eq_iff, err, false, insert, is_space, lookup, lower, modify,
  none, ok, refl, some, sorted_set, strip, suc, true, ℕ, ◌+◌, ◌∷◌, ◌≡◌, ◌≢◌, string_eq, nat_eq,
  pair_eq,
}
use m_gate.Authorization.{authorize_tool_call, decide, get_tool}
use m_gate.Catalog.{CatalogTool, find_tool}
use m_gate.PendingActions.{approved, consume_approved_action, create_pending_action}
use m_gate.Rpc.{Exit, Request, Response, Surroundings, World, done}
use m_gate.Rpc.Approved.{IsGated, one_approval_one_result}
use m_gate.Rpc.Billed.{result-CountsOne}
use m_gate.Rpc.Delivery.{IsServed, result-IsServed}
use m_gate.Rpc.Dispatch.{
  dispatch, ensure_tenant_ready, preconditions, run_handler, tenant_active, tenant_writable,
  tools_call, with_params, writable_for_call,
}
use m_gate.Rpc.Exits.{is_result}
use m_gate.Rpc.Gate.{Gate, ◌>>>◌}
use m_gate.Rpc.Ledger.{dispatch-Reconciled}
use m_gate.Rpc.Refused.{is_refusal, refused-Free}
use m_gate.Rpc.Suspended.{IsInactive, set_tenant_status_refuses}
use m_gate.Rpc.ToolsCall.{
  admitted, ask_confirmation, authorized, bill, code_enabled, confirm_with, confirmed, deliver,
  execute_downstream, handle_tools_call, meter_sandbox, refresh_cache, run, sandbox_fits,
  try_cache_lookup, within_quota,
}
use m_gate.Tenant.Cache.{cached, fill, read}
use m_gate.Tenant.Status.{
  assert_tenant_active, assert_tenant_writable, get_tenant_read_only, get_tenant_status,
  normalize_status, set_tenant_status, status_active, stored_read_only, stored_status,
}
use m_gate.Tenant.ToolPolicy.{
  clean_entries, coerce_cap, get_tool_policy, matches_allowlist, normalize_policy,
}
use m_gate.Tests.Fixtures.{acme, catalogs, empty_metering, plane, settings}
use m_gate.Usage.{
  check_quota, check_sandbox_preflight, emit_billing_event, get_effective_quota, get_usage,
  record_billable_call, record_usage,
}
use m_gate.Usage.Billing.{Reconciled, billed}

-- The outside counts the tool runs; there is no cache.
abbrev outside : Surroundings ℕ
outside = record {
  sha256 = λ arguments. concat ("sha256:" ∷ arguments ∷ []);
  month_of = λ now. "2024-05";
  provision_tenant = λ tenant plane runs. (err "no database", runs);
  cache_lookup = λ tool arguments tenant runs. (none, runs);
  cache_store = λ tool arguments payload tenant ttl runs. runs;
  cache_invalidate = λ tenant tools runs. runs;
  call_tool = λ request params runs. ((none, done "sent"), suc runs);
}

abbrev handlers : String → Option (Gate (World ℕ) Exit Response)
handlers method = none

-- Alice sends a mail with the approval that Bob gave.
abbrev confirmed_call : Request
confirmed_call = record {
  method = "tools/call";
  params =
      some
        (record { server = "mail"; name = "send"; arguments = "{}"; confirmation_id = some "a1" });
  tenant_id = "acme";
  user_id = "alice";
  scopes = "server:mail" ∷ "mail:send" ∷ [];
  roles = "tool:invoke" ∷ [];
  now = 5000;
  wall = 3000;
  new_id = "a2";
}

abbrev bare_call : Request
bare_call = record confirmed_call {
  params =
      some (record { server = "mail"; name = "send"; arguments = "{}"; confirmation_id = none });
}

abbrev world : World ℕ
world = record {
  plane = plane;
  ready_tenants = [];
  catalogs = catalogs;
  actions =
      (
        ("acme", "a1"),
        record {
          tenant_id = "acme";
          user_id = "alice";
          server = "mail";
          tool = "send";
          arguments = "{}";
          args_fingerprint = "sha256:{}";
          action_type = "destructive";
          status = approved;
          created_at = 1000;
          expires_at = 901000;
          decided_at = some 2000;
          decided_by = some "bob";
          consumed_at = none;
        },
      )
      ∷ [];
  metering = empty_metering;
  ext = 0;
}

world_acme : lookup "acme" world.plane.tenants ≡ some acme
unfolding lookup
world_acme = refl

gets_result : is_result (dispatch settings outside confirmed_call handlers world).0 ≡ true
unfolding dispatch lookup assert_tenant_active get_tenant_status read stored_status
    assert_tenant_writable get_tenant_read_only stored_read_only authorize_tool_call get_tool
    find_tool decide get_tool_policy normalize_policy clean_entries matches_allowlist check_quota
    consume_approved_action create_pending_action insert modify is_space sorted_set strip
    ensure_tenant_ready preconditions run_handler tenant_active tenant_writable tools_call
    with_params writable_for_call ◌>>>◌ admitted ask_confirmation authorized bill code_enabled
    confirm_with confirmed deliver execute_downstream handle_tools_call meter_sandbox refresh_cache
    run sandbox_fits try_cache_lookup within_quota cached fill coerce_cap check_sandbox_preflight
    emit_billing_event get_effective_quota get_usage record_billable_call record_usage
gets_result = refl

is_refused : is_refusal (dispatch settings outside bare_call handlers world).0 ≡ true
unfolding dispatch lookup assert_tenant_active get_tenant_status read stored_status
    assert_tenant_writable get_tenant_read_only stored_read_only authorize_tool_call get_tool
    find_tool decide get_tool_policy normalize_policy clean_entries matches_allowlist check_quota
    consume_approved_action create_pending_action insert modify is_space sorted_set strip
    ensure_tenant_ready preconditions run_handler tenant_active tenant_writable tools_call
    with_params writable_for_call ◌>>>◌ admitted ask_confirmation authorized bill code_enabled
    confirm_with confirmed deliver execute_downstream handle_tools_call meter_sandbox refresh_cache
    run sandbox_fits try_cache_lookup within_quota cached fill coerce_cap check_sandbox_preflight
    emit_billing_event get_effective_quota get_usage record_billable_call record_usage
is_refused = refl

result-IsServed_example : IsServed settings outside confirmed_call handlers world
result-IsServed_example =
    result-IsServed settings outside confirmed_call handlers world acme refl world_acme gets_result

result-CountsOne_example :
    (get_usage
      (dispatch settings outside confirmed_call handlers world).1.metering
      "acme"
      "2024-05").calls
    ≡ (get_usage world.metering "acme" "2024-05").calls + 1
result-CountsOne_example =
    result-CountsOne settings outside confirmed_call handlers world acme refl world_acme gets_result
      "acme" "2024-05"

no-events-Reconciled : Reconciled world.metering
unfolding billed get_usage lookup
no-events-Reconciled tenant period = refl

dispatch-Reconciled_example :
    Reconciled (dispatch settings outside confirmed_call handlers world).1.metering
dispatch-Reconciled_example =
    dispatch-Reconciled settings outside confirmed_call handlers world refl no-events-Reconciled

refused-Free_example :
    ((dispatch settings outside bare_call handlers world).1.metering ≡ world.metering)
    × ((dispatch settings outside bare_call handlers world).1.ext ≡ world.ext)
refused-Free_example =
    refused-Free settings outside bare_call handlers world acme refl world_acme is_refused

suspended_parse : normalize_status "suspended" ≡ ok "suspended"
unfolding normalize_status strip lower
suspended_parse = refl

suspended-ne-active : ◌≢◌ {A = String} "suspended" status_active
suspended-ne-active = ground (arith, eq_iff "suspended" status_active)

set_tenant_status_refuses_example :
    IsInactive settings outside confirmed_call
      (dispatch settings outside confirmed_call handlers (record world {
        plane =
            (set_tenant_status settings world.plane "acme" "suspended" none none
              (λ d. d)
              1000
              2000).1;
      })).0
set_tenant_status_refuses_example =
    set_tenant_status_refuses settings outside confirmed_call handlers
      (tools_call settings outside confirmed_call) world acme "suspended" "suspended" none none
      (λ d. d) 1000 2000 refl refl world_acme suspended_parse suspended-ne-active (λ d. refl)

-- The one tool of the catalog asks for a confirmation.
found_send :
    (server name : String) (tool : CatalogTool)
    → get_tool settings catalogs (some "acme") server name ≡ some tool
    → tool.metadata.requires_confirmation ≡ true
unfolding get_tool find_tool lookup
found_send server name tool h = ground (arith)

confirmed_call-IsGated : IsGated settings world.catalogs confirmed_call
confirmed_call-IsGated params tool given found = found_send params.server params.name tool found

one_approval_one_result_example :
    is_result
      (dispatch settings outside confirmed_call handlers
        (dispatch settings outside confirmed_call handlers world).1).0
    ≡ false
one_approval_one_result_example =
    one_approval_one_result settings outside handlers confirmed_call confirmed_call refl refl world
      acme refl refl world_acme confirmed_call-IsGated confirmed_call-IsGated gets_result
