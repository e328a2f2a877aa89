-- ===== src/Rpc/Dispatch.antt =====
-- `_dispatch` of gateway/routers/rpc.py, and `ensure_tenant_ready` of services/tenant_provisioner.py.
use m_gate.Prelude.{
  List, Option, Result, String, [], elem, err, if◌then◌else◌, lookup, none, ok, some, ◌==◌, ◌∷◌,
  string_eq, nat_eq, pair_eq,
}
use m_gate.Rpc.{
  Exit, Raised, Request, Response, Surroundings, ToolCallParams, World, error, exception, failed,
  forbidden, inactive, internal_error, invalid_params, invalid_request, key_error, method_not_found,
  missing_key, params_errors, raise, respond, tenant_inactive, tenant_not_provisioned,
  unknown_tenant, unsupported_method, validation_error,
}
use m_gate.Rpc.Gate.{Gate, ◌>>>◌}
use m_gate.Rpc.ToolsCall.{handle_tools_call}
use m_gate.Settings.{Settings}
use m_gate.Tenant.Status.{TenantInactive, assert_tenant_active, assert_tenant_writable}
use m_gate.Tenant.Store.{ControlPlane}

abbrev pub tenant_scoped_methods : List String
tenant_scoped_methods = "tools/call" ∷ "tools/list" ∷ "tools/search" ∷ []

-- The one mapper of exceptions.
abbrev pub response_of : Raised → Response
response_of validation_error = error invalid_params params_errors
response_of (key_error key) = error method_not_found (missing_key key)
response_of (unknown_tenant tenant) = error invalid_request tenant_not_provisioned
response_of (tenant_inactive e) = error forbidden (inactive e)
response_of (exception text) = error internal_error (failed text)

abbrev pub reply : Result Exit Response → Response
reply (ok response) = response
reply (err (respond response)) = response
reply (err (raise raised)) = response_of raised

module _ {E : Type 0} (settings : Settings) (x : Surroundings E) (request : Request) where
  abbrev pub provisioned : Result String ControlPlane × E → World E → Result Exit Unit × World E
  provisioned (ok plane', ext') w = (
    ok tt,
    record w { plane = plane'; ready_tenants = request.tenant_id ∷ w.ready_tenants; ext = ext' },
  )
  provisioned (err text, ext') w = (err (raise (exception text)), record w { ext = ext' })

  unfoldable pub ensure_tenant_ready : Gate (World E) Exit Unit
  ensure_tenant_ready w =
      if elem request.tenant_id w.ready_tenants
      then (ok tt, w)
      else elim (lookup request.tenant_id w.plane.tenants) [
        | some doc ↦ (ok tt, record w { ready_tenants = request.tenant_id ∷ w.ready_tenants })
        | none ↦
            if settings.auto_provision_tenants
            then provisioned (x.provision_tenant request.tenant_id w.plane w.ext) w
            else (err (raise (unknown_tenant request.tenant_id)), w)
      ]

  abbrev pub raising : Result TenantInactive Unit → Result Exit Unit
  raising (ok _) = ok tt
  raising (err e) = err (raise (tenant_inactive e))

  unfoldable pub tenant_active : Gate (World E) Exit Unit
  tenant_active w =
      let (r, plane') = assert_tenant_active settings w.plane request.tenant_id request.now in
      (raising r, record w { plane = plane' })

  unfoldable pub tenant_writable : Gate (World E) Exit Unit
  tenant_writable w =
      let (r, plane') = assert_tenant_writable settings w.plane request.tenant_id request.now in
      (raising r, record w { plane = plane' })

  unfoldable pub writable_for_call : Gate (World E) Exit Unit
  unfolding tenant_writable
  writable_for_call w = if request.method == "tools/call" then tenant_writable w else (ok tt, w)

  unfoldable pub preconditions : Gate (World E) Exit Unit
  unfolding ◌>>>◌ ensure_tenant_ready tenant_active writable_for_call
  preconditions w =
      if elem request.method tenant_scoped_methods
      then (ensure_tenant_ready >>> λ _. tenant_active >>> λ _. writable_for_call) w
      else (ok tt, w)

  unfoldable pub run_handler : Option (Gate (World E) Exit Response) → World E → Response × World E
  unfolding ◌>>>◌ preconditions
  run_handler none w = (error method_not_found unsupported_method, w)
  run_handler (some handler) w = let (r, w') = (preconditions >>> λ _. handler) w in (reply r, w')

  -- `ToolCallParams(**request.params)`
  unfoldable pub with_params : Option ToolCallParams → Gate (World E) Exit Response
  unfolding handle_tools_call
  with_params none w = (err (raise validation_error), w)
  with_params (some params) w = handle_tools_call settings x request params w

  unfoldable pub tools_call : Gate (World E) Exit Response
  unfolding with_params
  tools_call = with_params request.params

  -- The other handlers of the table are a parameter.
  unfoldable pub dispatch :
      (String → Option (Gate (World E) Exit Response)) → World E → Response × World E
  unfolding run_handler tools_call
  dispatch handlers w =
      run_handler
        (if request.method == "tools/call" then some tools_call else handlers request.method) w
