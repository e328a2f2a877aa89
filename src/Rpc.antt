-- ===== src/Rpc.antt =====
-- gateway/routers/rpc.py: the JSON-RPC endpoint, where the components meet. A request is taken to
-- run at one instant of each clock, and a JSON value is its text.
pub mod Gate
pub mod ToolsCall
pub mod Guards
pub mod Frame
pub mod Preconditions
pub mod Exits
pub mod Admission
pub mod Delivery
pub mod Ledger
pub mod Billed
pub mod Approved
pub mod Suspended
pub mod Refused
pub mod ToolsList
pub mod Dispatch
use m_gate.Prelude.{List, Option, Result, String, ℕ}
use m_gate.Authorization.{Catalogs, Reason}
use m_gate.PendingActions.{Actions, ConsumeOutcome}
use m_gate.Tenant.Status.{TenantInactive}
use m_gate.Tenant.Store.{ControlPlane}
use m_gate.Usage.{Metering, QuotaReason}

-- What a caller sends, and what the middlewares know of the caller.
pub record ToolCallParams : Type 0 where
  pub server : String
  pub name : String
  pub arguments : String
  pub confirmation_id : Option String

pub record Request : Type 0 where
  pub method : String
  -- `none` where the parameters do not validate.
  pub params : Option ToolCallParams
  pub tenant_id : String
  pub user_id : String
  pub scopes : List String
  pub roles : List String
  -- The monotonic clock, the clock of the timestamps, and the next `uuid4`.
  pub now : ℕ
  pub wall : ℕ
  pub new_id : String

-- models/jsonrpc.py
pub data ErrorCode : Type 0 where
  invalid_request method_not_found invalid_params internal_error : ErrorCode
  server_error rate_limited forbidden upstream_timeout : ErrorCode

-- The `reason` in the data of an error.
pub data Detail : Type 0 where
  unsupported_method params_errors tenant_not_provisioned : Detail
  missing_key : String → Detail
  inactive : TenantInactive → Detail
  not_authorized : Reason → Detail
  over_limit : QuotaReason → Detail
  code_execution_not_enabled : Detail
  confirmation_mismatch : Detail
  timed_out failed : String → Detail

-- `confirmation_required` carries the reason, none for "pending", the action and its expiry.
pub data Response : Type 0 where
  result : String → Response
  confirmation_required : Option ConsumeOutcome → String → Option ℕ → Response
  error : ErrorCode → Detail → Response

-- The exceptions that `_dispatch` tells apart.
pub data Raised : Type 0 where
  validation_error : Raised
  key_error : String → Raised
  unknown_tenant : String → Raised
  tenant_inactive : TenantInactive → Raised
  exception : String → Raised

-- What ends a handler early.
pub data Exit : Type 0 where
  respond : Response → Exit
  raise : Raised → Exit

-- What the process and its databases hold; `ext` is the state of all that is not modelled.
pub record World (E : Type 0) : Type 0 where
  pub plane : ControlPlane
  pub ready_tenants : List String
  pub catalogs : Catalogs
  pub actions : Actions
  pub metering : Metering
  pub ext : E

-- How `call_tool` of the proxy registry ends.
pub data Outcome : Type 0 where
  done : String → Outcome
  downstream_timeout downstream_failed : String → Outcome
  -- A `KeyError`: the server is not mounted, or its routing document lacks the tool.
  not_mounted : String → Outcome

-- The parts that are not modelled: the provisioner, the semantic cache, the tools. `call_tool` also
-- tells how long a sandbox ran, if one did to its end.
pub record Surroundings (E : Type 0) : Type 0 where
  pub sha256 : String → String
  pub month_of : ℕ → String
  pub provision_tenant : String → ControlPlane → E → Result String ControlPlane × E
  pub cache_lookup : String → String → String → E → Option String × E
  pub cache_store : String → String → String → String → ℕ → E → E
  pub cache_invalidate : String → List String → E → E
  pub call_tool : Request → ToolCallParams → E → (Option ℕ × Outcome) × E
