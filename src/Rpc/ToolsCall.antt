-- ===== src/Rpc/ToolsCall.antt =====
-- `_handle_tools_call` of gateway/routers/rpc.py, guard by guard, and the part of
-- services/proxy_registry.py that meters a sandbox run.
use m_gate.Prelude.{
  Bool, List, Option, Result, String, [], clamp, err, false, if◌then◌else◌, is_empty, ltb,
  map_option, none, nonzero_or, not, ok, or_default, pos, some, ℕ, ℤ, ◌&&◌, ◌==◌, string_eq, nat_eq,
  pair_eq,
}
use m_gate.Authorization.{Reason, authorize_tool_call}
use m_gate.Catalog.{CatalogTool, Metadata}
use m_gate.PendingActions.{
  Action, ConsumeOutcome, consume_approved_action, consume_ok, create_pending_action, mismatch,
}
use m_gate.Rpc.{
  Exit, Outcome, Request, Response, Surroundings, ToolCallParams, World, code_execution_not_enabled,
  key_error, not_mounted, confirmation_mismatch, confirmation_required, done, downstream_failed,
  downstream_timeout, error, exception, forbidden, not_authorized, over_limit, raise, rate_limited,
  respond, result, server_error, timed_out, upstream_timeout,
}
use m_gate.Rpc.Gate.{Gate, ◌>>>◌}
use m_gate.Settings.{Settings}
use m_gate.Usage.{
  Metering, Quota, QuotaReason, Usage, check_quota, check_sandbox_preflight, current_period,
  emit_billing_event, record_billable_call, record_usage,
}

-- `(authz.tool or {}).get("metadata", {})`
abbrev pub metadata_of : Option CatalogTool → Metadata
metadata_of (some tool) = tool.metadata
metadata_of none = record {
  transport = none;
  wall_timeout_ms = none;
  requires_confirmation = false;
  action_type = none;
  always_included = false;
  cacheable = false;
  cache_ttl_seconds = none;
  invalidates = [];
}

abbrev pub is_code_tool : Metadata → Bool
is_code_tool metadata = or_default metadata.transport "" == "code"

-- `metadata.get("wall_timeout_ms") or settings.sandbox_wall_timeout_ms`
abbrev pub projected_ms : Settings → Metadata → ℤ
projected_ms settings metadata = elim metadata.wall_timeout_ms [
  | none ↦ settings.sandbox_wall_timeout_ms
  | some n ↦ nonzero_or n settings.sandbox_wall_timeout_ms
]

-- `int(metadata.get("cache_ttl_seconds", 24 * 3600) or 0)`
abbrev pub cache_ttl_seconds : Metadata → ℕ
cache_ttl_seconds metadata = elim metadata.cache_ttl_seconds [ none ↦ 86400 | some n ↦ clamp n ]

-- The scopes of a request that has none are `None`.
abbrev pub caller_scopes : Request → Option (List String)
caller_scopes request = if is_empty request.scopes then none else some request.scopes

module _ {E : Type 0} (settings : Settings) (x : Surroundings E) (request : Request)
    (params : ToolCallParams) where
  abbrev pub forbid : Reason → Exit
  forbid reason = respond (error forbidden (not_authorized reason))

  unfoldable pub authorized : Gate (World E) Exit Metadata
  authorized w =
      let (authz, plane') =
        authorize_tool_call settings w.catalogs w.plane (some request.tenant_id) params.server
          params.name (caller_scopes request) (some request.roles) request.now in
      (
        if authz.allowed then ok (metadata_of authz.tool) else err (forbid authz.reason),
        record w { plane = plane' },
      )

  abbrev pub limited : {A : Type 0} → A → Option QuotaReason → Result Exit A
  limited a none = ok a
  limited a (some reason) = err (respond (error rate_limited (over_limit reason)))

  unfoldable pub within_quota : Gate (World E) Exit (Usage × Quota)
  within_quota w =
      let (reason, usage, quota) =
        check_quota settings w.metering request.tenant_id
          (current_period x.month_of request.wall) in
      (limited (usage, quota) reason, w)

  unfoldable pub code_enabled : Metadata → Gate (World E) Exit Unit
  code_enabled metadata w = (
    if is_code_tool metadata && not settings.code_tool_execution_enabled
        then err (respond (error server_error code_execution_not_enabled))
        else ok tt,
    w,
  )

  unfoldable pub sandbox_fits : Metadata → Usage × Quota → Gate (World E) Exit Unit
  sandbox_fits metadata (usage, quota) w = (
    if is_code_tool metadata && settings.quota_preflight_enabled
        then limited tt (check_sandbox_preflight usage quota (projected_ms settings metadata))
        else ok tt,
    w,
  )

  -- The reply to what `consume_approved_action` says.
  abbrev pub consumption : String → ConsumeOutcome × Option Action → Result Exit Unit
  consumption id (consume_ok, doc) = ok tt
  consumption id (mismatch, doc) = err (respond (error forbidden confirmation_mismatch))
  consumption id (status, doc) =
      err (respond (confirmation_required (some status) id (map_option (λ d. d.expires_at) doc)))

  unfoldable pub confirm_with : String → Gate (World E) Exit Unit
  confirm_with id w =
      let (outcome, actions') =
        consume_approved_action x.sha256 w.actions request.tenant_id id request.user_id
          params.server params.name params.arguments request.wall in
      (consumption id outcome, record w { actions = actions' })

  unfoldable pub ask_confirmation : Metadata → Gate (World E) Exit Unit
  ask_confirmation metadata w =
      let (doc, actions') =
        create_pending_action x.sha256 w.actions request.new_id request.tenant_id request.user_id
          params.server params.name params.arguments
          (some (or_default metadata.action_type "destructive")) settings.confirmation_ttl_seconds
          request.wall in
      (
        err (respond (confirmation_required none request.new_id (some doc.expires_at))),
        record w { actions = actions' },
      )

  -- A missing or an empty `confirmation_id` is the same.
  unfoldable pub confirmed : Metadata → Gate (World E) Exit Unit
  confirmed metadata w =
      let id = or_default params.confirmation_id "" in
      if metadata.requires_confirmation
      then (if id == "" then ask_confirmation metadata w else confirm_with id w)
      else (ok tt, w)

  abbrev pub uses_cache : Metadata → Bool
  uses_cache metadata = metadata.cacheable && ltb 0 (cache_ttl_seconds metadata)

  unfoldable pub bill : String → World E → World E
  bill source w = record w {
    metering =
        record_billable_call x.month_of w.metering request.tenant_id params.server params.name
          source request.wall;
  }

  abbrev pub serve_cached : Option String × E → World E → Result Exit Unit × World E
  serve_cached (none, ext') w = (ok tt, record w { ext = ext' })
  serve_cached (some payload, ext') w =
      (err (respond (result payload)), bill "cache_hit" (record w { ext = ext' }))

  unfoldable pub try_cache_lookup : Metadata → Gate (World E) Exit Unit
  unfolding bill
  try_cache_lookup metadata w =
      if uses_cache metadata
      then serve_cached (x.cache_lookup params.name params.arguments request.tenant_id w.ext) w
      else (ok tt, w)

  -- A sandbox run that ended is metered, whatever it returned.
  unfoldable pub meter_sandbox : Option ℕ → Metering → Metering
  meter_sandbox none db = db
  meter_sandbox (some elapsed_ms) db =
      let period = current_period x.month_of request.wall in
      let (usage, db') =
        record_usage db request.tenant_id (pos 0) (pos elapsed_ms) period request.wall in
      emit_billing_event db' request.tenant_id "sandbox_ms" (pos elapsed_ms) period params.server
        params.name "" request.wall

  abbrev pub outcome_of : Outcome → Result Exit String
  outcome_of (done payload) = ok payload
  outcome_of (downstream_timeout text) = err (respond (error upstream_timeout (timed_out text)))
  outcome_of (downstream_failed text) = err (raise (exception text))
  outcome_of (not_mounted key) = err (raise (key_error key))

  unfoldable pub execute_downstream : Gate (World E) Exit String
  unfolding meter_sandbox
  execute_downstream w =
      let ((elapsed, outcome), ext') = x.call_tool request params w.ext in
      (outcome_of outcome, record w { metering = meter_sandbox elapsed w.metering; ext = ext' })

  unfoldable pub refresh_cache : Metadata → String → E → E
  refresh_cache metadata payload ext =
      let stored =
        if uses_cache metadata
        then x.cache_store params.name params.arguments payload request.tenant_id
            (cache_ttl_seconds metadata) ext
        else ext in
      if is_empty metadata.invalidates
      then stored
      else x.cache_invalidate request.tenant_id metadata.invalidates stored

  unfoldable pub deliver : Metadata → String → Gate (World E) Exit Response
  unfolding bill refresh_cache
  deliver metadata payload w = (
    ok (result payload),
    bill "live_execution" (record w { ext = refresh_cache metadata payload w.ext }),
  )

  -- The guards, in the order of the handler.
  unfoldable pub admitted : Gate (World E) Exit Metadata
  unfolding ◌>>>◌ authorized within_quota code_enabled sandbox_fits confirmed
  admitted = authorized >>> λ metadata. within_quota >>> λ budget. code_enabled metadata >>> λ _.
      sandbox_fits metadata budget >>> λ _. confirmed metadata >>> λ _ w. (ok metadata, w)

  unfoldable pub run : Metadata → Gate (World E) Exit Response
  unfolding ◌>>>◌ try_cache_lookup execute_downstream deliver
  run metadata = try_cache_lookup metadata >>> λ _. execute_downstream >>> deliver metadata

  unfoldable pub handle_tools_call : Gate (World E) Exit Response
  unfolding ◌>>>◌ admitted run
  handle_tools_call = admitted >>> run
