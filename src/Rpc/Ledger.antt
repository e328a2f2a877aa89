-- ===== src/Rpc/Ledger.antt =====
-- The billing ledger across the requests of the endpoint.
use m_gate.Prelude.{
  Bool, Bool-cases, Option, String, ap, arith, if◌then◌else◌, inl, inr, none, pos, refl, some,
  subst, sym, ℕ, ◌&&◌, ◌+◌, ◌==◌, ◌∙◌, ◌≡◌, string_eq, nat_eq, pair_eq,
}
use m_gate.Catalog.{Metadata}
use m_gate.Rpc.{Exit, Request, Response, Surroundings, ToolCallParams, World}
use m_gate.Rpc.Delivery.{dispatch-whole}
use m_gate.Rpc.Dispatch.{dispatch, preconditions, tools_call, with_params}
use m_gate.Rpc.Frame.{admitted-Keeps}
use m_gate.Rpc.Gate.{>>>-Keeps, Gate, Keeps}
use m_gate.Rpc.Preconditions.{preconditions-metering}
use m_gate.Rpc.ToolsCall.{
  admitted, bill, deliver, execute_downstream, handle_tools_call, meter_sandbox, refresh_cache, run,
  serve_cached, try_cache_lookup, uses_cache,
}
use m_gate.Settings.{Settings}
use m_gate.Usage.{Metering, emit_billing_event, get_usage, record_usage}
use m_gate.Usage.Billing.{Reconciled, billed, record_billable_call-Reconciled}
use m_gate.Usage.Counting.{calls-record_usage, events-record_usage}
use m_gate.Usage.Events.{billed-emit_other, usage-emit_billing_event}

cond_zero : (b : Bool) (n : ℕ) → n + (if b then 0 else 0) ≡ n
cond_zero b n = ground arith

-- A sandbox run counts no call and bills none.
module _ {E : Type 0} (settings : Settings) (x : Surroundings E) (request : Request)
    (params : ToolCallParams) where
  pub calls-meter_sandbox :
      (elapsed : Option ℕ) (db : Metering) (t p : String)
      → (get_usage (meter_sandbox settings x request params elapsed db) t p).calls
        ≡ (get_usage db t p).calls
  unfolding meter_sandbox emit_billing_event
  calls-meter_sandbox none db t p = refl
  calls-meter_sandbox (some ms) db t p =
      rw
        (usage-emit_billing_event
          (record_usage db request.tenant_id (pos 0) (pos ms) (x.month_of request.wall)
            request.wall).1
          request.tenant_id "sandbox_ms" (pos ms) (x.month_of request.wall) params.server
          params.name "" request.wall t p)
        (calls-record_usage db request.tenant_id (x.month_of request.wall) (pos 0) (pos ms)
            request.wall t p
          ∙ cond_zero ((request.tenant_id == t) && (x.month_of request.wall == p))
              (get_usage db t p).calls)

  billed-meter_sandbox :
      (elapsed : Option ℕ) (db : Metering) (t p : String)
      → billed t p (meter_sandbox settings x request params elapsed db).usage_events
        ≡ billed t p db.usage_events
  unfolding meter_sandbox
  billed-meter_sandbox none db t p = refl
  billed-meter_sandbox (some ms) db t p =
      billed-emit_other
        (record_usage db request.tenant_id (pos 0) (pos ms) (x.month_of request.wall)
          request.wall).1
        request.tenant_id "sandbox_ms" (pos ms) (x.month_of request.wall) params.server params.name
        "" request.wall t p refl
      ∙ ap (billed t p) (
          events-record_usage db request.tenant_id (x.month_of request.wall) (pos 0) (pos ms)
            request.wall)

  abbrev Balanced : World E → Type 0
  Balanced w = Reconciled w.metering

  bill-Balanced :
      (source : String) (w : World E)
      → Balanced w
      → Balanced (bill settings x request params source w)
  unfolding bill
  bill-Balanced source w h =
      record_billable_call-Reconciled x.month_of w.metering request.tenant_id params.server
        params.name source request.wall h

  execute-Balanced : Keeps Balanced (execute_downstream settings x request params)
  unfolding execute_downstream
  execute-Balanced w h t p =
      billed-meter_sandbox (x.call_tool request params w.ext).0.0 w.metering t p
      ∙ h t p
      ∙ sym (calls-meter_sandbox (x.call_tool request params w.ext).0.0 w.metering t p)

  serve_cached-Balanced :
      (found : Option String × E) (w : World E)
      → Balanced w
      → Balanced (serve_cached settings x request params found w).1
  serve_cached-Balanced (none, ext) w h = h
  serve_cached-Balanced (some payload, ext) w h =
      bill-Balanced "cache_hit" (record w { ext = ext }) h

  cache-Balanced :
      (metadata : Metadata) → Keeps Balanced (try_cache_lookup settings x request params metadata)
  unfolding try_cache_lookup
  cache-Balanced metadata w h = elim (Bool-cases (uses_cache settings x request params metadata)) [
    | inl e ↦ rw e (
        serve_cached-Balanced (x.cache_lookup params.name params.arguments request.tenant_id w.ext)
          w h)
    | inr e ↦ rw e h
  ]

  deliver-Balanced :
      (metadata : Metadata) (payload : String)
      → Keeps Balanced (deliver settings x request params metadata payload)
  unfolding deliver
  deliver-Balanced metadata payload w h =
      bill-Balanced "live_execution"
        (record w { ext = refresh_cache settings x request params metadata payload w.ext }) h

  handle-Balanced : Keeps Balanced (handle_tools_call settings x request params)
  unfolding handle_tools_call run
  handle-Balanced =
      >>>-Keeps Balanced (admitted settings x request params) _
        (admitted-Keeps settings x request params (λ m e c d. Reconciled m))
        λ metadata.
          >>>-Keeps Balanced (try_cache_lookup settings x request params metadata) _
            (cache-Balanced metadata)
            λ _.
              >>>-Keeps Balanced (execute_downstream settings x request params) _ execute-Balanced
                (deliver-Balanced metadata)

module _ {E : Type 0} (settings : Settings) (x : Surroundings E) (request : Request) where
  with_params-Balanced :
      (given : Option ToolCallParams) (w : World E)
      → Reconciled w.metering
      → Reconciled (with_params settings x request given w).1.metering
  unfolding with_params
  with_params-Balanced none w h = h
  with_params-Balanced (some params) w h = handle-Balanced settings x request params w h

  -- If for every tenant and month the billing events bill as many calls as the counter counts, they
  -- still do after any tools/call, however it ends.
  pub dispatch-Reconciled :
      (handlers : String → Option (Gate (World E) Exit Response)) (w : World E)
      → request.method ≡ "tools/call"
      → Reconciled w.metering
      → Reconciled (dispatch settings x request handlers w).1.metering
  unfolding tools_call
  dispatch-Reconciled handlers w call h =
      subst (λ r. Reconciled r.1.metering) (sym (dispatch-whole settings x request handlers w call))
        (>>>-Keeps (λ u. Reconciled u.metering) (preconditions settings x request)
          (λ _. tools_call settings x request)
          (λ u balanced.
            subst Reconciled (sym (preconditions-metering settings x request u)) balanced)
          (λ _. with_params-Balanced request.params) w h)
