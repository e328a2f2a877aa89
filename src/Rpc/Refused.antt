-- ===== src/Rpc/Refused.antt =====
-- A call that is refused costs nothing and reaches no tool.
use m_gate.Prelude.{
  Bool, Bool-cases, Option, Result, String, arith, err, false, inl, inr, lookup, none, refl, some,
  subst, sym, true, ◌∙◌, ◌≡◌, string_eq, nat_eq, pair_eq,
}
use m_gate.Catalog.{Metadata}
use m_gate.Rpc.{
  Exit, Request, Response, Surroundings, ToolCallParams, World, error, internal_error,
  method_not_found, result, upstream_timeout,
}
use m_gate.Rpc.Delivery.{dispatch-whole}
use m_gate.Rpc.Dispatch.{dispatch, preconditions, reply, tools_call, with_params}
use m_gate.Rpc.Frame.{admitted-Keeps}
use m_gate.Rpc.Gate.{>>>-cases, Gate, Never, ends, kept, ◌>>>◌}
use m_gate.Rpc.Preconditions.{preconditions-ext, preconditions-metering}
use m_gate.Rpc.ToolsCall.{
  admitted, deliver, execute_downstream, handle_tools_call, run, serve_cached, try_cache_lookup,
  uses_cache,
}
use m_gate.Settings.{Settings}
use m_gate.Tenant.Store.{TenantDoc}

-- All responses but a result and the three that may tell of a tool that failed; the third of these is
-- also the answer to an unknown method.
abbrev pub is_refusal : Response → Bool
is_refusal (result payload) = false
is_refusal (error upstream_timeout detail) = false
is_refusal (error internal_error detail) = false
is_refusal (error method_not_found detail) = false
is_refusal _ = true

abbrev exit_is_refusal : Exit → Bool
exit_is_refusal e = is_refusal (reply (err e))

module _ {E : Type 0} (settings : Settings) (x : Surroundings E) (request : Request) where
  module _ (params : ToolCallParams) where
    serve_cached-Never :
        (found : Option String × E) (w : World E)
        → ends exit_is_refusal (serve_cached settings x request params found w).0 ≡ false
    serve_cached-Never (none, ext) w = refl
    serve_cached-Never (some payload, ext) w = refl

    cache-Never :
        (metadata : Metadata)
        → Never exit_is_refusal (try_cache_lookup settings x request params metadata)
    unfolding try_cache_lookup
    cache-Never metadata w = elim (Bool-cases (uses_cache settings x request params metadata)) [
      | inl e ↦ rw e (
          serve_cached-Never (x.cache_lookup params.name params.arguments request.tenant_id w.ext)
            w)
      | inr e ↦ rw e
    ]

    execute-Never : Never exit_is_refusal (execute_downstream settings x request params)
    unfolding execute_downstream
    execute-Never w = ground arith

    deliver-refusal :
        (metadata : Metadata) (payload : String) (w : World E)
        → is_refusal (reply (deliver settings x request params metadata payload w).0) ≡ false
    unfolding deliver
    deliver-refusal metadata payload w = refl

    abbrev live : Metadata → Gate (World E) Exit Response
    live metadata =
        execute_downstream settings x request params >>> deliver settings x request params metadata

    live-refusal :
        (metadata : Metadata) (w : World E) → is_refusal (reply (live metadata w).0) ≡ false
    live-refusal metadata w =
        elim (>>>-cases (execute_downstream settings x request params)
          (deliver settings x request params metadata) w) [
            | inl (e, v, stop, same) ↦
                subst (λ r. is_refusal (reply r.0) ≡ false) (sym same)
                  (subst (λ p. ends exit_is_refusal p.0 ≡ false) stop (execute-Never w))
            | inr (payload, v, go, same) ↦
                subst (λ r. is_refusal (reply r.0) ≡ false) (sym same)
                  (deliver-refusal metadata payload v)
          ]

    -- Once the guards are passed the answer is no refusal.
    run-refusal :
        (metadata : Metadata) (w : World E)
        → is_refusal (reply (run settings x request params metadata w).0) ≡ false
    unfolding run
    run-refusal metadata w =
        elim (>>>-cases (try_cache_lookup settings x request params metadata) (λ _. live metadata)
          w) [
            | inl (e, v, stop, same) ↦
                subst (λ r. is_refusal (reply r.0) ≡ false) (sym same)
                  (subst (λ p. ends exit_is_refusal p.0 ≡ false) stop (cache-Never metadata w))
            | inr (_, v, go, same) ↦
                subst (λ r. is_refusal (reply r.0) ≡ false) (sym same) (live-refusal metadata v)
          ]

  -- The ledger and the outside are as they were.
  abbrev Free : World E → Result Exit Response × World E → Type 0
  Free w r = is_refusal (reply r.0) ≡ true → (r.1.metering ≡ w.metering) × (r.1.ext ≡ w.ext)

  handle-Free :
      (params : ToolCallParams) (w : World E)
      → Free w (handle_tools_call settings x request params w)
  unfolding handle_tools_call
  handle-Free params w =
      elim (>>>-cases (admitted settings x request params) (run settings x request params) w) [
        | inl (e, v, stop, same) ↦ λ h.
            subst (λ r. (r.1.metering ≡ w.metering) × (r.1.ext ≡ w.ext)) (sym same)
              (kept (λ u. (u.metering ≡ w.metering) × (u.ext ≡ w.ext))
                (admitted settings x request params) w
                (admitted-Keeps settings x request params
                  (λ m o c d. (m ≡ w.metering) × (o ≡ w.ext)))
                (refl, refl) stop)
        | inr (metadata, v, go, same) ↦ λ h.
            let no = run-refusal params metadata v in
            let bad : is_refusal (reply (run settings x request params metadata v).0) ≡ true =
              subst (λ r. is_refusal (reply r.0) ≡ true) same h in
            absurd cc
      ]

  with_params-Free :
      (given : Option ToolCallParams) (w : World E)
      → Free w (with_params settings x request given w)
  unfolding with_params
  with_params-Free none w h = (refl, refl)
  with_params-Free (some params) w h = handle-Free params w h

  abbrev whole_of : World E → Result Exit Response × World E
  whole_of = preconditions settings x request >>> λ _. tools_call settings x request

  whole-Free :
      (w : World E) (doc : TenantDoc)
      → lookup request.tenant_id w.plane.tenants ≡ some doc
      → Free w (whole_of w)
  unfolding tools_call
  whole-Free w doc found =
      elim (>>>-cases (preconditions settings x request) (λ _. tools_call settings x request) w) [
        | inl (e, v, stop, same) ↦ λ h.
            subst (λ r. (r.1.metering ≡ w.metering) × (r.1.ext ≡ w.ext)) (sym same)
              (subst (λ r. (r.1.metering ≡ w.metering) × (r.1.ext ≡ w.ext)) stop
                (
                  preconditions-metering settings x request w,
                  preconditions-ext settings x request w doc found,
                ))
        | inr (_, v, go, same) ↦ λ h.
            let (money, ext) : (v.metering ≡ w.metering) × (v.ext ≡ w.ext) =
              subst (λ r. (r.1.metering ≡ w.metering) × (r.1.ext ≡ w.ext)) go
                (
                  preconditions-metering settings x request w,
                  preconditions-ext settings x request w doc found,
                ) in
            let (money', ext') =
              with_params-Free request.params v
                (subst (λ r. is_refusal (reply r.0) ≡ true) same h) in
            subst (λ r. (r.1.metering ≡ w.metering) × (r.1.ext ≡ w.ext)) (sym same)
              (money' ∙ money, ext' ∙ ext)
      ]

  -- For a tenant that has a document, a tools/call that is answered with anything but a result, a
  -- timeout of the tool, an internal error or an unknown method leaves the metering and all that
  -- lies outside as they were: no tool ran, no cache was asked and nothing was billed. The four are
  -- what a tool that was asked may give, the last for a server that is not mounted or lacks the
  -- tool.
  pub refused-Free :
      (handlers : String → Option (Gate (World E) Exit Response)) (w : World E) (doc : TenantDoc)
      → request.method ≡ "tools/call"
      → lookup request.tenant_id w.plane.tenants ≡ some doc
      → is_refusal (dispatch settings x request handlers w).0 ≡ true
      → ((dispatch settings x request handlers w).1.metering ≡ w.metering)
        × ((dispatch settings x request handlers w).1.ext ≡ w.ext)
  refused-Free handlers w doc call found h =
      subst (λ r. (r.1.metering ≡ w.metering) × (r.1.ext ≡ w.ext))
        (sym (dispatch-whole settings x request handlers w call))
        (whole-Free w doc found (
          subst (λ r. is_refusal r.0 ≡ true) (dispatch-whole settings x request handlers w call) h))
