-- ===== src/Settings.antt =====
-- config/settings.py: the settings that the modelled services read, under their names.
-- An `int` is a `ℤ`, since nothing stops an operator from setting a negative number.
use m_gate.Prelude.{Bool, String, ℕ, ℤ}

pub record Settings : Type 0 where
  pub admin_ui_enabled : Bool
  pub admin_ui_path : String
  pub default_tenant_id : String
  pub tenant_retention_days : ℤ
  pub auto_provision_tenants : Bool
  pub code_tool_execution_enabled : Bool
  pub confirmation_ttl_seconds : ℤ
  pub default_quota_calls_per_period : ℤ
  pub default_quota_sandbox_seconds_per_period : ℤ
  pub quota_preflight_enabled : Bool
  pub tenant_status_cache_ttl_seconds : ℤ
  pub sandbox_wall_timeout_ms : ℤ
  pub sandbox_allowed_requirements : String
  pub sandbox_pool_size : ℤ
  pub sandbox_worker_max_jobs : ℤ
  pub sandbox_worker_max_age_seconds : ℤ
  pub route_top_k : ℤ
  pub catalog_list_limit : ℤ
  pub rate_limit_window_seconds : ℤ
  pub rate_limit_max_requests : ℤ
  pub unconfirmed_max_servers : ℤ
  pub unconfirmed_max_tools : ℤ
  pub unconfirmed_allowed_transports : String
  pub unconfirmed_quota_calls_per_period : ℤ
  pub unconfirmed_quota_sandbox_seconds_per_period : ℤ
  pub confirmed_max_servers : ℤ
  pub confirmed_max_tools : ℤ
  pub confirmed_allowed_transports : String
  pub confirmed_quota_calls_per_period : ℤ
  pub confirmed_quota_sandbox_seconds_per_period : ℤ
  pub tenant_endpoint_ssrf_guard : Bool
  pub egress_allowlist_enabled : Bool
  pub egress_global_allowlist : String
  pub egress_default_deny : Bool
  pub platform_admin_role : String
  pub self_registration_enabled : Bool
  pub self_registration_tenant_prefix : String
  pub self_registration_min_password_length : ℤ
  pub self_registration_window_seconds : ℤ
  pub self_registration_max_per_ip : ℤ
  pub self_registration_max_tenants : ℤ
  pub hybrid_output_limit : ℤ
  pub hybrid_pin_always_included : Bool
  pub hybrid_num_candidates : ℤ
  pub hybrid_pipeline_limit : ℤ
  pub include_score_details : Bool
  pub fusion_strategy : String
  -- The threshold and the scores are in millionths.
  pub guardrail_injection_threshold : ℕ
  pub guardrail_ml_enabled : Bool
  pub guardrail_fail_mode : String
  pub guardrail_circuit_failures : ℤ
  pub guardrail_circuit_reset_seconds : ℤ
