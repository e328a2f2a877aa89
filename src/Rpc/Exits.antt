-- ===== src/Rpc/Exits.antt =====
-- No guard ends a call with a tool's result.
use m_gate.Prelude.{
  Bool, Bool-cases, arith, elem, err, false, inl, inr, refl, subst, true, ◌≡◌, string_eq, nat_eq,
  pair_eq,
}
use m_gate.Catalog.{Metadata}
use m_gate.Rpc.{Exit, Request, Response, Surroundings, ToolCallParams, World, result}
use m_gate.Rpc.Dispatch.{
  ensure_tenant_ready, preconditions, reply, tenant_active, tenant_scoped_methods, tenant_writable,
  writable_for_call,
}
use m_gate.Rpc.Gate.{>>>-Never, Gate, Never, ends}
use m_gate.Rpc.ToolsCall.{
  admitted, ask_confirmation, authorized, code_enabled, confirm_with, confirmed, execute_downstream,
  sandbox_fits, within_quota,
}
use m_gate.Settings.{Settings}
use m_gate.Usage.{Quota, Usage}

-- The response carries a tool's result.
abbrev pub is_result : Response → Bool
is_result (result payload) = true
is_result _ = false

abbrev pub exit_is_result : Exit → Bool
exit_is_result e = is_result (reply (err e))

pub is_result-reply :
    {E A : Type 0} (m : Gate (World E) Exit A) (w : World E) {e : Exit} {v : World E}
    → Never exit_is_result m
    → m w ≡ (err e, v)
    → is_result (reply (err e)) ≡ false
is_result-reply m w never h = subst (λ p. ends exit_is_result p.0 ≡ false) h (never w)

module _ {E : Type 0} (settings : Settings) (x : Surroundings E) (request : Request) where
  ready-Never : Never exit_is_result (ensure_tenant_ready settings x request)
  unfolding ensure_tenant_ready
  ready-Never w = ground arith

  active-Never : Never exit_is_result (tenant_active settings x request)
  unfolding tenant_active
  active-Never w = ground arith

  writable-Never : Never exit_is_result (writable_for_call settings x request)
  unfolding writable_for_call tenant_writable
  writable-Never w = ground arith

  -- The preconditions raise, and no exception is a result.
  pub preconditions-Never : Never exit_is_result (preconditions settings x request)
  unfolding preconditions
  preconditions-Never w = elim (Bool-cases (elem request.method tenant_scoped_methods)) [
    | inl e ↦ rw e (
        >>>-Never exit_is_result (ensure_tenant_ready settings x request) _ ready-Never
          (λ _.
            >>>-Never exit_is_result (tenant_active settings x request) _ active-Never
              (λ _. writable-Never))
          w)
    | inr e ↦ rw e
  ]

  module _ (params : ToolCallParams) where
    authorized-Never : Never exit_is_result (authorized settings x request params)
    unfolding authorized
    authorized-Never w = ground arith

    quota-Never : Never exit_is_result (within_quota settings x request params)
    unfolding within_quota
    quota-Never w = ground arith

    code-Never :
        (metadata : Metadata)
        → Never exit_is_result (code_enabled settings x request params metadata)
    unfolding code_enabled
    code-Never metadata w = ground arith

    fits-Never :
        (metadata : Metadata) (budget : Usage × Quota)
        → Never exit_is_result (sandbox_fits settings x request params metadata budget)
    unfolding sandbox_fits
    fits-Never metadata (usage, quota) w = ground arith

    confirmed-Never :
        (metadata : Metadata) → Never exit_is_result (confirmed settings x request params metadata)
    unfolding confirmed ask_confirmation confirm_with
    confirmed-Never metadata w = ground arith

    pub execute-Never : Never exit_is_result (execute_downstream settings x request params)
    unfolding execute_downstream
    execute-Never w = ground arith

    pub admitted-Never : Never exit_is_result (admitted settings x request params)
    unfolding admitted
    admitted-Never =
        >>>-Never exit_is_result (authorized settings x request params) _ authorized-Never
          λ metadata.
            >>>-Never exit_is_result (within_quota settings x request params) _ quota-Never
              λ budget.
                >>>-Never exit_is_result (code_enabled settings x request params metadata) _
                  (code-Never metadata)
                  λ _.
                    >>>-Never exit_is_result
                      (sandbox_fits settings x request params metadata budget) _
                      (fits-Never metadata budget)
                      λ _.
                        >>>-Never exit_is_result (confirmed settings x request params metadata) _
                          (confirmed-Never metadata) λ _ w. refl
