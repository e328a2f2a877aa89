-- ===== src/PendingActions.antt =====
-- services/pending_actions.py: tool calls that wait for a second person's approval. The collection
-- is that of all tenant databases, by the tenant and `_id`. Times are milliseconds. `arguments` is
-- the text that `json.dumps` makes of the arguments, with sorted keys; its digest `sha256` is a
-- parameter, and so is the identifier that `uuid4` draws.
pub mod Lifecycle
pub mod Once
pub mod Approval
use m_gate.Prelude.{
  Bool, Dict, Option, String, clamp, false, find_one_and_update, if◌then◌else◌, insert, leb, lookup,
  ltb, max, none, not, or_default, some, true, ℕ, ℤ, ◌&&◌, ◌*◌, ◌+◌, ◌==◌, string_eq, nat_eq,
  pair_eq,
}

pub data Status : Type 0 where
  pending approved rejected consumed : Status

pub data ConsumeOutcome : Type 0 where
  consume_ok consume_not_found not_approved mismatch consume_expired already_consumed :
      ConsumeOutcome

pub data DecisionOutcome : Type 0 where
  decision_ok decision_not_found not_pending self_approval_forbidden decision_expired :
      DecisionOutcome

pub record Action : Type 0 where
  pub tenant_id : String
  pub user_id : String
  pub server : String
  pub tool : String
  pub arguments : String
  pub args_fingerprint : String
  pub action_type : String
  pub status : Status
  pub created_at : ℕ
  pub expires_at : ℕ
  pub decided_at : Option ℕ
  pub decided_by : Option String
  pub consumed_at : Option ℕ

abbrev pub Actions : Type 0
Actions = Dict (String × String) Action

abbrev pub status_eq : Status → Status → Bool
status_eq pending pending = true
status_eq approved approved = true
status_eq rejected rejected = true
status_eq consumed consumed = true
status_eq _ _ = false

module _ (sha256 : String → String) where
  abbrev pub arguments_fingerprint : String → String
  arguments_fingerprint arguments = sha256 arguments

  -- The action as it is stored.
  abbrev pub new_action :
      String → String → String → String → String → Option String → ℤ → ℕ → Action
  new_action tenant user server tool arguments action_type ttl_seconds now = record {
    tenant_id = tenant;
    user_id = user;
    server = server;
    tool = tool;
    arguments = arguments;
    args_fingerprint = arguments_fingerprint arguments;
    action_type = or_default action_type "destructive";
    status = pending;
    created_at = now;
    expires_at = now + max 1 (clamp ttl_seconds) * 1000;
    decided_at = none;
    decided_by = none;
    consumed_at = none;
  }

  -- `id` is the new identifier.
  unfoldable pub create_pending_action :
      Actions
      → String
      → String
      → String
      → String
      → String
      → String
      → Option String
      → ℤ
      → ℕ
      → Action × Actions
  create_pending_action actions id tenant user server tool arguments action_type ttl_seconds now =
      let doc = new_action tenant user server tool arguments action_type ttl_seconds now in
      (doc, insert (tenant, id) doc actions)

  -- The request is the one that the action was created for.
  abbrev pub same_request : String → String → String → String → Action → Bool
  same_request user server tool arguments doc =
      (doc.user_id == user)
      && ((doc.server == server)
          && ((doc.tool == tool) && (doc.args_fingerprint == arguments_fingerprint arguments)))

  abbrev pub consumable : String → String → String → String → String → ℕ → Action → Bool
  consumable tenant user server tool arguments now doc =
      (doc.tenant_id == tenant)
      && (same_request user server tool arguments doc
          && (status_eq doc.status approved && ltb now doc.expires_at))

  abbrev pub consume : ℕ → Action → Action
  consume now doc = record doc { status = consumed; consumed_at = some now }

  -- Why the update matched nothing.
  abbrev refusal :
      String
      → String
      → String
      → String
      → String
      → ℕ
      → Option Action
      → ConsumeOutcome × Option Action
  refusal tenant user server tool arguments now none = (consume_not_found, none)
  refusal tenant user server tool arguments now (some raw) =
      if not (raw.tenant_id == tenant)
      then (consume_not_found, none)
      else if leb raw.expires_at now
      then (consume_expired, some raw)
      else if status_eq raw.status consumed
      then (already_consumed, some raw)
      else if not (status_eq raw.status approved)
      then (not_approved, some raw)
      else if not (same_request user server tool arguments raw)
      then (mismatch, some raw)
      else (not_approved, some raw)

  abbrev consume_reply :
      Option Action × Actions
      → ConsumeOutcome × Option Action
      → (ConsumeOutcome × Option Action) × Actions
  consume_reply (some doc, actions) refused = ((consume_ok, some doc), actions)
  consume_reply (none, actions) refused = (refused, actions)

  unfoldable pub consume_approved_action :
      Actions
      → String
      → String
      → String
      → String
      → String
      → String
      → ℕ
      → (ConsumeOutcome × Option Action) × Actions
  consume_approved_action actions tenant id user server tool arguments now =
      consume_reply
        (find_one_and_update (tenant, id) (consumable tenant user server tool arguments now)
          (consume now) actions)
        (refusal tenant user server tool arguments now (lookup (tenant, id) actions))

abbrev pub decidable : String → String → ℕ → Action → Bool
decidable tenant approver now doc =
    (doc.tenant_id == tenant)
    && (status_eq doc.status pending && (ltb now doc.expires_at && not (doc.user_id == approver)))

abbrev pub apply_decision : Status → String → ℕ → Action → Action
apply_decision new_status approver now doc = record doc {
  status = new_status;
  decided_at = some now;
  decided_by = some approver;
}

abbrev decision_refusal : String → String → ℕ → Option Action → DecisionOutcome × Option Action
decision_refusal tenant approver now none = (decision_not_found, none)
decision_refusal tenant approver now (some raw) =
    if not (raw.tenant_id == tenant)
    then (decision_not_found, none)
    else if raw.user_id == approver
    then (self_approval_forbidden, some raw)
    else if leb raw.expires_at now
    then (decision_expired, some raw)
    else (not_pending, some raw)

abbrev decision_reply :
    Option Action × Actions
    → DecisionOutcome × Option Action
    → (DecisionOutcome × Option Action) × Actions
decision_reply (some doc, actions) refused = ((decision_ok, some doc), actions)
decision_reply (none, actions) refused = (refused, actions)

unfoldable pub decide_action :
    Actions → String → String → String → Status → ℕ → (DecisionOutcome × Option Action) × Actions
decide_action actions tenant id approver new_status now =
    decision_reply
      (find_one_and_update (tenant, id) (decidable tenant approver now)
        (apply_decision new_status approver now) actions)
      (decision_refusal tenant approver now (lookup (tenant, id) actions))

unfoldable pub approve_action :
    Actions → String → String → String → ℕ → (DecisionOutcome × Option Action) × Actions
unfolding decide_action
approve_action actions tenant id approver now =
    decide_action actions tenant id approver approved now

unfoldable pub reject_action :
    Actions → String → String → String → ℕ → (DecisionOutcome × Option Action) × Actions
unfolding decide_action
reject_action actions tenant id approver now = decide_action actions tenant id approver rejected now
