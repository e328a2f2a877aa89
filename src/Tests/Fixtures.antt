-- ===== src/Tests/Fixtures.antt =====
-- One tenant, one tool and one caller, for the tests.
use m_gate.Prelude.{[], false, none, pos, some, true, ◌∷◌}
use m_gate.Authorization.{Catalogs}
use m_gate.Catalog.{CatalogTool}
use m_gate.Settings.{Settings}
use m_gate.Tenant.Store.{ControlPlane, TenantDoc, blank_doc}
use m_gate.Usage.{Metering}

abbrev pub settings : Settings
settings = record {
  admin_ui_enabled = true;
  admin_ui_path = "/admin";
  default_tenant_id = "default";
  tenant_retention_days = pos 30;
  auto_provision_tenants = false;
  code_tool_execution_enabled = false;
  confirmation_ttl_seconds = pos 900;
  default_quota_calls_per_period = pos 100;
  default_quota_sandbox_seconds_per_period = pos 60;
  quota_preflight_enabled = true;
  tenant_status_cache_ttl_seconds = pos 5;
  sandbox_wall_timeout_ms = pos 5000;
  sandbox_allowed_requirements = "requests,httpx";
  sandbox_pool_size = pos 2;
  sandbox_worker_max_jobs = pos 10;
  sandbox_worker_max_age_seconds = pos 60;
  route_top_k = pos 5;
  catalog_list_limit = pos 200;
  rate_limit_window_seconds = pos 60;
  rate_limit_max_requests = pos 10;
  unconfirmed_max_servers = pos 1;
  unconfirmed_max_tools = pos 5;
  unconfirmed_allowed_transports = "code";
  unconfirmed_quota_calls_per_period = pos 50;
  unconfirmed_quota_sandbox_seconds_per_period = pos 10;
  confirmed_max_servers = pos 0;
  confirmed_max_tools = pos 0;
  confirmed_allowed_transports = "code,sse";
  confirmed_quota_calls_per_period = pos 0;
  confirmed_quota_sandbox_seconds_per_period = pos 0;
  tenant_endpoint_ssrf_guard = true;
  egress_allowlist_enabled = false;
  egress_global_allowlist = "";
  egress_default_deny = false;
  platform_admin_role = "platform-admin";
  self_registration_enabled = true;
  self_registration_tenant_prefix = "selfsvc-";
  self_registration_min_password_length = pos 10;
  self_registration_window_seconds = pos 3600;
  self_registration_max_per_ip = pos 5;
  self_registration_max_tenants = pos 100;
  hybrid_output_limit = pos 10;
  hybrid_pin_always_included = true;
  hybrid_num_candidates = pos 100;
  hybrid_pipeline_limit = pos 20;
  include_score_details = true;
  fusion_strategy = "rank_fusion";
  guardrail_injection_threshold = 850000;
  guardrail_ml_enabled = true;
  guardrail_fail_mode = "closed";
  guardrail_circuit_failures = pos 5;
  guardrail_circuit_reset_seconds = pos 30;
}

abbrev pub acme : TenantDoc
acme = record blank_doc {
  tool_allowlist = some ("mail/*" ∷ []);
  disabled_tools = some ("mail/old" ∷ []);
}

abbrev pub plane : ControlPlane
plane = record {
  tenants = ("acme", acme) ∷ [];
  status_cache = [];
  read_only_cache = [];
  policy_cache = [];
  confirmation_cache = [];
  allowlist_cache = [];
}

-- A tool that needs a confirmation.
abbrev pub send : CatalogTool
send = record {
  server = "mail";
  name = "send";
  scopes = "mail:send" ∷ [];
  metadata = record {
    transport = none;
    wall_timeout_ms = none;
    requires_confirmation = true;
    action_type = none;
    always_included = false;
    cacheable = false;
    cache_ttl_seconds = none;
    invalidates = [];
  };
}

abbrev pub catalogs : Catalogs
catalogs = ("acme", send ∷ []) ∷ []

abbrev pub empty_metering : Metering
empty_metering = record { usage_counters = []; tenant_quotas = []; usage_events = [] }
