-- ===== src/Authorization/Decision.antt =====
-- The ladder of `authorize_tool_call`, told as one condition.
use m_gate.Prelude.{
  Bool, List, String, [], arith, elem, false, is_empty, not, refl, some, true, ◌&&◌, ◌||◌, ◌∷◌, ◌≡◌,
  ◌≢◌, string_eq, nat_eq, pair_eq,
}
use m_gate.Authorization.{
  Reason, admin_override, decide, intersects, invoke_not_permitted, invoke_role, missing_scope,
  no_scope_required, scope_match, scope_mismatch, server_scope, server_scope_required,
  tool_disabled, tool_not_allowlisted,
}
use m_gate.Catalog.{CatalogTool}
use m_gate.Tenant.Store.{ToolPolicy}
use m_gate.Tenant.ToolPolicy.{fq_name, matches_allowlist}

-- Who may call the tool: an admin, or a caller with the invoke role, for a tool of the curated set,
-- on a server of its scopes, and with one of the tool's own scopes if it has any.
unfoldable pub may_call :
    CatalogTool → ToolPolicy → String → String → List String → List String → Bool
may_call tool policy server name scopes roles =
    not (elem (fq_name server name) policy.disabled_tools)
    && (elem "admin" roles
        || (elem invoke_role roles
            && (matches_allowlist server name policy.allowlist
                && ((elem (server_scope server) scopes || elem "server:*" scopes)
                    && (is_empty tool.scopes || intersects tool.scopes scopes)))))

not-empty_of_elem : (a : String) (xs : List String) → elem a xs ≡ true → is_empty xs ≡ false
not-empty_of_elem a [] h = cc
not-empty_of_elem a (x ∷ xs) h = refl

no_scope_no_server :
    (server : String) (scopes : List String)
    → is_empty scopes ≡ true
    → (elem (server_scope server) scopes ≡ false) × (elem "server:*" scopes ≡ false)
no_scope_no_server server [] h = (refl, refl)
no_scope_no_server server (x ∷ xs) h = cc

module _ (tool : CatalogTool) (policy : ToolPolicy) (server name : String)
    (scopes roles : List String) where
  -- The decision allows a call exactly if the tool is not disabled and the caller is an admin, or
  -- has the invoke role, for a tool of the allowlist, on a server of its scopes, and has one of the
  -- tool's own scopes if it has any.
  pub decide-may_call :
      (decide tool policy server name scopes roles).allowed
      ≡ may_call tool policy server name scopes roles
  unfolding decide may_call
  decide-may_call = ground (arith, no_scope_no_server server scopes)

  -- No decision gives the reason missing_scope: the branch for a caller without any scope is never
  -- reached.
  pub decide-ne-missing_scope : (decide tool policy server name scopes roles).reason ≢ missing_scope
  unfolding decide
  decide-ne-missing_scope = ground (arith, no_scope_no_server server scopes)

  -- Each reason for a refusal is told truly.
  abbrev pub Because : Reason → Type 0
  Because tool_disabled = elem (fq_name server name) policy.disabled_tools ≡ true
  Because invoke_not_permitted = elem invoke_role roles ≡ false
  Because tool_not_allowlisted = matches_allowlist server name policy.allowlist ≡ false
  Because server_scope_required =
      (elem (server_scope server) scopes ≡ false) × (elem "server:*" scopes ≡ false)
  Because scope_mismatch = intersects tool.scopes scopes ≡ false
  Because admin_override = elem "admin" roles ≡ true
  Because no_scope_required = is_empty tool.scopes ≡ true
  Because scope_match = intersects tool.scopes scopes ≡ true
  Because _ = ⊥

  -- Each reason that a decision gives is true of the request, and a decision on a tool that was
  -- found never gives tool_not_found or missing_scope.
  pub decide-Because : Because (decide tool policy server name scopes roles).reason
  unfolding decide
  decide-Because = ground (arith, no_scope_no_server server scopes)

  pub decide-tool : (decide tool policy server name scopes roles).tool ≡ some tool
  unfolding decide
  decide-tool = ground arith
