-- ===== src/Lib.antt =====
-- The access-control, confirmation and metering core of m-gate, a multi-tenant gateway for MCP
-- tools.
--
-- A request passes the rate limiter and the door of the middlewares, and reaches the JSON-RPC
-- endpoint with a tenant and a caller. The endpoint makes sure that the tenant exists, is in
-- service and may be written to, asks whether the caller may call the tool, whether the quota has
-- room, and whether a second person has approved a tool that asks for it; only then does it look
-- into the cache or run the tool, and bills one call.
--
-- Parts, and the code they model (paths from the repository's root):
--   Settings            config/settings.py: the settings that the parts below read, under their names
--   Catalog             the documents of a tenant's `tool_catalog`, as the services read them
--   Tenant.Store        the `tenants` documents of the control database, and the caches of a process
--   Tenant.Cache        the cache that each overlay keeps, with its lifetime
--   Tenant.Status       services/tenant_status.py (get_tenant_status, assert_tenant_active,
--                       set_tenant_status, get_tenant_read_only, assert_tenant_writable,
--                       set_tenant_read_only)
--   Tenant.ToolPolicy   services/tenant_tool_policy.py (get_tool_policy, matches_allowlist,
--                       is_tool_available, filter_available_tools, set_tool_policy,
--                       set_tool_enabled)
--   Tenant.Tier         services/account_tier.py (tier_caps, get_tenant_confirmation,
--                       get_tenant_tier_caps, set_tenant_confirmation)
--   Tenant.PipPolicy    services/tenant_pip_policy.py (normalize_requirement_name,
--                       validate_allowlist_entries, effective_allowlist, evaluate_requirements and
--                       the reads and the write of a tenant's list)
--   Tenant.Lifecycle    services/tenant_provisioner.py (soft_delete_tenant, restore_tenant,
--                       deprovision_tenant and purge_expired_tenants)
--   Authorization       services/authorization.py (get_tool, authorize_tool_call)
--   PendingActions      services/pending_actions.py (create_pending_action,
--                       consume_approved_action, approve_action, reject_action)
--   Usage               services/usage_metering.py and services/data_plane.py (record_usage,
--                       get_usage, set_quota, check_quota, check_sandbox_preflight,
--                       emit_billing_event, record_billable_call)
--   Passwords           services/passwords.py: how a password is stored and compared
--   Users               services/users.py: the managed users and the sessions that mirror them;
--                       Users.Scopes has the scopes of the presets
--   Console             gateway/routers/admin/_common.py and gateway/routers/admin/users.py: the
--                       guards of the console and what it does to users; Console.Accounts has the
--                       one-click accounts, and Console.Tenants, Console.Creating and Console.Curating
--                       the endpoints of gateway/routers/admin/tenants.py that create or change a
--                       tenant
--   Registration        services/registration.py: the public sign-up, with the document that
--                       provision_tenant of services/tenant_provisioner.py writes
--   Guardrails          services/guardrails.py: the screening of what comes in, with the breaker of
--                       its semantic detector; Guardrails.Luhn is the check of a card number
--   SandboxPool         services/sandbox_pool.py: the pool of workers, as steps between two awaits
--   Search              services/hybrid_search.py: the query that a caller's scopes make, the full
--                       list, and pinned tools before ranked ones; Search.Pipelines has the
--                       aggregations, Search.Ranked the modes, their fallbacks and the fusion
--   RateLimit           gateway/middleware/ratelimit.py: the sliding window of the limiter
--   Rbac                gateway/middleware/rbac.py: the door to the console and to the tools
--   Egress              services/egress_policy.py: lists, rules and their evaluation, for the proxy
--                       and for code tools
--   ServerGuard         services/server_guard.py: which servers a tenant may register
--   Rpc                 gateway/routers/rpc.py: Rpc.ToolsCall is _handle_tools_call, guard by guard,
--                       with the metering of a sandbox run of services/proxy_registry.py;
--                       Rpc.ToolsList is the full list of _handle_tools_list;
--                       Rpc.Dispatch is _dispatch, with ensure_tenant_ready of
--                       services/tenant_provisioner.py
--   Prelude             names and lemmas that the parts share
--   Tests               the theorems at concrete inputs
--
-- How the code becomes definitions. A database collection is an association list by its key, and
-- `find_one_and_update` one atomic step on it. A service's caches stand with the collection in one
-- record, ControlPlane, which a call takes and returns. A step of the endpoint's handler is a Gate:
-- it changes the world and may end the handler, with a response or an exception. An `int` that may
-- be negative is a ℤ; a number that the code clamps at 0 is a ℕ; Python's integers are unbounded,
-- so nothing wraps around. Times are milliseconds on a clock that a call is given: `now` for
-- `time.monotonic()`, `wall` for `datetime.now(UTC)`; a request reads each clock once. JSON values
-- are their texts. `lower` and `strip` treat ASCII.
--
-- Parameters. The digest SHA-256, `strftime("%Y-%m")` and the identifiers of `uuid4` are
-- parameters, and so are the provisioning of a tenant's database, the semantic cache, the tools
-- behind the proxy registry (Rpc.Surroundings), the handlers of the other methods, and Python's
-- `ipaddress`, `fnmatch`, `urlparse` and name resolution (Egress.Addresses, ServerGuard.Network).
-- PBKDF2 and the salt of a password are the record Passwords.Crypto. What is drawn at random, and
-- whether the work on a database succeeds, comes with the call (Console.Accounts.Draws,
-- Registration.SignUp); what a vector search returns and when comes with the text
-- (Guardrails.Probe); a search of tools has its embedding, its database and its arithmetic on
-- floats in Search.Ranked.Engine, and the database obeys the filters of a pipeline (Search.Pipelines.admits); what the processes of the pool do comes with each step
-- (SandboxPool.Event). There is no fuel: every loop runs over a list or a string, and a history is
-- a list of calls or steps.
--
-- Not modelled: embeddings, the scores that the answers of a search carry, the runs in the sandbox and its bridges,
-- the proxy's transports, the rest of the admin interface, token verification, the redaction of
-- what goes out, seeding, telemetry and metrics. The limiter's floats are exact numbers here, and a
-- score of the guardrails counts millionths. A write of a service and the refresh of its cache are
-- one step here, so no other request of the process comes between them; nor does one come between
-- the steps of a sign-up, or between a write of a user and its mirror. What follows the
-- creation of the user in a sign-up is taken not to fail. A sandbox run is metered once, under the
-- tenant of the request; the tool calls that it makes itself are left out. A shutdown of the pool is
-- four steps, and other steps may come between them.
pub mod Prelude
pub mod Settings
pub mod Catalog
pub mod Tenant
pub mod Authorization
pub mod PendingActions
pub mod Usage
pub mod Passwords
pub mod Users
pub mod Console
pub mod Registration
pub mod Guardrails
pub mod SandboxPool
pub mod Search
pub mod RateLimit
pub mod Rbac
pub mod Egress
pub mod ServerGuard
pub mod Rpc
pub mod Tests
