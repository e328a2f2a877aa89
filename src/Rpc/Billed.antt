-- ===== src/Rpc/Billed.antt =====
-- A call that gets a result is paid for once.
use m_gate.Prelude.{
  Bool-cases, Option, Result, String, ap, err, if◌then◌else◌, inl, inr, lookup, none, ok, refl,
  some, subst, sym, true, ◌&&◌, ◌+◌, ◌==◌, ◌∙◌, ◌≡◌, string_eq, nat_eq, pair_eq,
}
use m_gate.Catalog.{Metadata}
use m_gate.Rpc.{Exit, Request, Response, Surroundings, ToolCallParams, World}
use m_gate.Rpc.Delivery.{result-IsServed}
use m_gate.Rpc.Dispatch.{dispatch, reply}
use m_gate.Rpc.Exits.{execute-Never, is_result, is_result-reply}
use m_gate.Rpc.Gate.{>>>-cases, Gate, ◌>>>◌}
use m_gate.Rpc.Ledger.{calls-meter_sandbox}
use m_gate.Rpc.ToolsCall.{
  bill, deliver, execute_downstream, refresh_cache, run, serve_cached, try_cache_lookup, uses_cache,
}
use m_gate.Settings.{Settings}
use m_gate.Tenant.Store.{TenantDoc}
use m_gate.Usage.{Metering, get_usage}
use m_gate.Usage.Billing.{calls-record_billable_call}

module _ {E : Type 0} (settings : Settings) (x : Surroundings E) (request : Request)
    (params : ToolCallParams) where
  -- The counter of `t` and `p` in `after` stands above that in `before` by one for this request's
  -- tenant and month, and is the same for others.
  abbrev pub CountsOne : Metering → Metering → Type 0
  CountsOne before after =
      (t p : String)
      → (get_usage after t p).calls
        ≡ (get_usage before t p).calls
          + (if (request.tenant_id == t) && (x.month_of request.wall == p) then 1 else 0)

  bill-CountsOne :
      (source : String) (w : World E)
      → CountsOne w.metering (bill settings x request params source w).metering
  unfolding bill
  bill-CountsOne source w t p =
      calls-record_billable_call x.month_of w.metering request.tenant_id params.server params.name
        source request.wall t p

  -- The lookup either misses and bills nothing, or hits and bills once.
  abbrev Looked : World E → Result Exit Unit × World E → Type 0
  Looked w (ok _, v) = v.metering ≡ w.metering
  Looked w (err e, v) = CountsOne w.metering v.metering

  serve_cached-Looked :
      (found : Option String × E) (w : World E)
      → Looked w (serve_cached settings x request params found w)
  serve_cached-Looked (none, ext) w = refl
  serve_cached-Looked (some payload, ext) w = bill-CountsOne "cache_hit" (record w { ext = ext })

  try_cache_lookup-Looked :
      (metadata : Metadata) (w : World E)
      → Looked w (try_cache_lookup settings x request params metadata w)
  unfolding try_cache_lookup
  try_cache_lookup-Looked metadata w =
      elim (Bool-cases (uses_cache settings x request params metadata)) [
        | inl e ↦ rw e (
            serve_cached-Looked
              (x.cache_lookup params.name params.arguments request.tenant_id w.ext) w)
        | inr e ↦ rw e refl
      ]

  execute-calls :
      (w v : World E) (payload : String) (t p : String)
      → execute_downstream settings x request params w ≡ (ok payload, v)
      → (get_usage v.metering t p).calls ≡ (get_usage w.metering t p).calls
  unfolding execute_downstream
  execute-calls w v payload t p h =
      subst (λ r. (get_usage r.1.metering t p).calls ≡ (get_usage w.metering t p).calls) h
        (calls-meter_sandbox settings x request params (x.call_tool request params w.ext).0.0
          w.metering t p)

  deliver-CountsOne :
      (metadata : Metadata) (payload : String) (w : World E)
      → CountsOne w.metering (deliver settings x request params metadata payload w).1.metering
  unfolding deliver
  deliver-CountsOne metadata payload w =
      bill-CountsOne "live_execution"
        (record w { ext = refresh_cache settings x request params metadata payload w.ext })

  live-CountsOne :
      (metadata : Metadata) (w : World E)
      → let after =
          (execute_downstream settings x request params
              >>> deliver settings x request params metadata)
            w in
        is_result (reply after.0) ≡ true → CountsOne w.metering after.1.metering
  live-CountsOne metadata w h =
      elim (>>>-cases (execute_downstream settings x request params)
        (deliver settings x request params metadata) w) [
          | inl (e, v, stop, same) ↦
              let good : is_result (reply (err e)) ≡ true =
                subst (λ r. is_result (reply r.0) ≡ true) same h in
              let no =
                is_result-reply (execute_downstream settings x request params) w
                  (execute-Never settings x request params) stop in
              cc
          | inr (payload, v, go, same) ↦ λ t p.
              subst
                (λ r.
                  (get_usage r.1.metering t p).calls
                  ≡ (get_usage w.metering t p).calls
                    + (if (request.tenant_id == t) && (x.month_of request.wall == p) then 1 else 0))
                (sym same)
                (deliver-CountsOne metadata payload v t p
                  ∙ ap
                      (λ n.
                        n
                        + (if (request.tenant_id == t) && (x.month_of request.wall == p)
                            then 1
                            else 0))
                      (execute-calls w v payload t p go))
        ]

  run-CountsOne :
      (metadata : Metadata) (w : World E)
      → let after = run settings x request params metadata w in
        is_result (reply after.0) ≡ true → CountsOne w.metering after.1.metering
  unfolding run
  run-CountsOne metadata w h =
      let look = try_cache_lookup-Looked metadata w in
      elim (>>>-cases (try_cache_lookup settings x request params metadata)
        (λ _.
          execute_downstream settings x request params
          >>> deliver settings x request params metadata)
        w) [
          | inl (e, v, stop, same) ↦
              subst (λ r. CountsOne w.metering r.1.metering) (sym same) (subst (Looked w) stop look)
          | inr (_, v, go, same) ↦
              let missed : v.metering ≡ w.metering = subst (Looked w) go look in
              subst (λ r. CountsOne w.metering r.1.metering) (sym same)
                (subst (λ m. CountsOne m (after v).1.metering) missed
                  (live-CountsOne metadata v (subst (λ r. is_result (reply r.0) ≡ true) same h)))
        ]
    where
      after : World E → Result Exit Response × World E
      after v =
          (execute_downstream settings x request params
              >>> deliver settings x request params metadata)
            v

-- For a tenant that has a document, a tools/call that gets a result, from the tool or from the
-- cache, raises the call counter of its tenant in its month by one and that of no other tenant or
-- month.
pub result-CountsOne :
    {E : Type 0} (settings : Settings) (x : Surroundings E) (request : Request)
    (handlers : String → Option (Gate (World E) Exit Response)) (w : World E) (doc : TenantDoc)
    → request.method ≡ "tools/call"
    → lookup request.tenant_id w.plane.tenants ≡ some doc
    → is_result (dispatch settings x request handlers w).0 ≡ true
    → (t p : String)
    → (get_usage (dispatch settings x request handlers w).1.metering t p).calls
      ≡ (get_usage w.metering t p).calls
        + (if (request.tenant_id == t) && (x.month_of request.wall == p) then 1 else 0)
result-CountsOne settings x request handlers w doc call found h =
    let s = result-IsServed settings x request handlers w doc call found h in
    subst (λ r. CountsOne settings x request s.params w.metering r.1.metering) (sym s.ran)
      (subst
        (λ m.
          CountsOne settings x request s.params m
            (run settings x request s.params s.metadata s.after).1.metering)
        s.metering_kept
        (run-CountsOne settings x request s.params s.metadata s.after
          (subst (λ r. is_result r.0 ≡ true) s.ran h)))
