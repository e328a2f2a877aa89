-- ===== src/PendingActions/Lifecycle.antt =====
-- An action goes from pending to approved to consumed, and each step needs the right person.
use m_gate.Prelude.{
  Everywhere, Everywhere-find_one_and_update, Everywhere-insert, List, Option, String, [], arith,
  eq_iff, find_one_and_update, lookup, none, refl, some, true, ℕ, ℤ, ◌<◌, ◌||◌, ◌∷◌, ◌≡◌, ◌≢◌,
  string_eq, nat_eq, pair_eq,
}
use m_gate.PendingActions.{
  Action, Actions, ConsumeOutcome, DecisionOutcome, Status, apply_decision, approve_action,
  approved, consumable, consume, consume_approved_action, consume_reply, consumed,
  create_pending_action, decidable, decide_action, decision_refusal, decision_reply, new_action,
  pending, refusal, reject_action, rejected, status_eq,
}

-- The calls that write the collection, with the time of each.
pub data Call : Type 0 where
  create :
      (id tenant user server tool arguments : String) (action_type : Option String) (ttl : ℤ) → Call
  approve reject : (tenant id approver : String) → Call
  use_up : (tenant id user server tool arguments : String) → Call

-- The decision on `doc` was another person's than the one who asked, and came in time.
pub record IsDecided (doc : Action) : Type 0 where
  pub approver : String
  pub decided : ℕ
  pub by : doc.decided_by ≡ some approver
  pub at : doc.decided_at ≡ some decided
  pub other : approver ≢ doc.user_id
  pub in_time : decided < doc.expires_at

pub record IsConsumed (doc : Action) : Type 0 where
  pub decision : IsDecided doc
  pub used : ℕ
  pub when : doc.consumed_at ≡ some used
  pub before : used < doc.expires_at

abbrev pub StatusHolds : Status → Action → Type 0
StatusHolds pending doc = Unit
StatusHolds approved doc = IsDecided doc
StatusHolds rejected doc = IsDecided doc
StatusHolds consumed doc = IsConsumed doc

-- What the status says of an action is so.
abbrev pub IsSound : Action → Type 0
IsSound doc = StatusHolds doc.status doc

abbrev pub Sound : Actions → Type 0
Sound = Everywhere IsSound

apply_decision-IsDecided :
    (tenant approver : String) (new_status : Status) (now : ℕ) (doc : Action)
    → decidable tenant approver now doc ≡ true
    → IsDecided (apply_decision new_status approver now doc)
apply_decision-IsDecided tenant approver new_status now doc h = record {
  approver = approver;
  decided = now;
  by = refl;
  at = refl;
  other = λ e. ground (arith, eq_iff doc.user_id approver);
  in_time = ground arith;
}

-- What the filter of a consumption passes was decided on.
pub consumable-IsDecided :
    (sha256 : String → String) (tenant user server tool arguments : String) (now : ℕ) (doc : Action)
    → IsSound doc
    → consumable sha256 tenant user server tool arguments now doc ≡ true
    → IsDecided doc
consumable-IsDecided sha256 tenant user server tool arguments now doc s h =
    decided_of doc.status s (ground arith)
  where
    decided_of : (t : Status) → StatusHolds t doc → status_eq t approved ≡ true → IsDecided doc
    decided_of pending d e = cc
    decided_of approved d e = d
    decided_of rejected d e = d
    decided_of consumed d e = cc

consume-IsConsumed :
    (sha256 : String → String) (tenant user server tool arguments : String) (now : ℕ) (doc : Action)
    → IsSound doc
    → consumable sha256 tenant user server tool arguments now doc ≡ true
    → IsConsumed (consume sha256 now doc)
consume-IsConsumed sha256 tenant user server tool arguments now doc s h =
    let d = consumable-IsDecided sha256 tenant user server tool arguments now doc s h in
    record {
      decision = record {
        approver = d.approver;
        decided = d.decided;
        by = d.by;
        at = d.at;
        other = d.other;
        in_time = d.in_time;
      };
      used = now;
      when = refl;
      before = ground arith;
    }

module _ (sha256 : String → String) where
  unfoldable pub perform : Call → ℕ → Actions → Actions
  perform (create id tenant user server tool arguments action_type ttl) now actions =
      (create_pending_action sha256 actions id tenant user server tool arguments action_type ttl
        now).1
  perform (approve tenant id approver) now actions =
      (approve_action actions tenant id approver now).1
  perform (reject tenant id approver) now actions = (reject_action actions tenant id approver now).1
  perform (use_up tenant id user server tool arguments) now actions =
      (consume_approved_action sha256 actions tenant id user server tool arguments now).1

  unfoldable pub history : List (Call × ℕ) → Actions → Actions
  history [] actions = actions
  history ((call, now) ∷ calls) actions = history calls (perform call now actions)

decision_reply-actions :
    (r : Option Action × Actions) (refused : DecisionOutcome × Option Action)
    → (decision_reply r refused).1 ≡ r.1
decision_reply-actions (none, actions) refused = refl
decision_reply-actions (some doc, actions) refused = refl

decide_action-Sound :
    (tenant id approver : String) (new_status : Status) (now : ℕ) (actions : Actions)
    → (status_eq new_status approved || status_eq new_status rejected) ≡ true
    → Sound actions
    → Sound (decide_action actions tenant id approver new_status now).1
unfolding decide_action
decide_action-Sound tenant id approver new_status now actions decision h =
    rw
      (decision_reply-actions
        (find_one_and_update (tenant, id) (decidable tenant approver now)
          (apply_decision new_status approver now) actions)
        (decision_refusal tenant approver now (lookup (tenant, id) actions)))
      (Everywhere-find_one_and_update IsSound (tenant, id) (decidable tenant approver now)
        (apply_decision new_status approver now) actions
        (λ doc s e.
          decided new_status decision doc
            (apply_decision-IsDecided tenant approver new_status now doc e))
        h)
  where
    decided :
        (t : Status)
        → (status_eq t approved || status_eq t rejected) ≡ true
        → (doc : Action) → IsDecided (apply_decision t approver now doc)
        → IsSound (apply_decision t approver now doc)
    decided pending e doc d = tt
    decided approved e doc d = d
    decided rejected e doc d = d
    decided consumed e doc d = cc

module _ (sha256 : String → String) where
  consume_reply-actions :
      (r : Option Action × Actions) (refused : ConsumeOutcome × Option Action)
      → (consume_reply sha256 r refused).1 ≡ r.1
  consume_reply-actions (none, actions) refused = refl
  consume_reply-actions (some doc, actions) refused = refl

  consume_approved_action-Sound :
      (tenant id user server tool arguments : String) (now : ℕ) (actions : Actions)
      → Sound actions
      → Sound (consume_approved_action sha256 actions tenant id user server tool arguments now).1
  unfolding consume_approved_action
  consume_approved_action-Sound tenant id user server tool arguments now actions h =
      rw
        (consume_reply-actions
          (find_one_and_update (tenant, id)
            (consumable sha256 tenant user server tool arguments now) (consume sha256 now) actions)
          (refusal sha256 tenant user server tool arguments now (lookup (tenant, id) actions)))
        (Everywhere-find_one_and_update IsSound (tenant, id)
          (consumable sha256 tenant user server tool arguments now) (consume sha256 now) actions
          (consume-IsConsumed sha256 tenant user server tool arguments now) h)

  perform-Sound :
      (call : Call) (now : ℕ) (actions : Actions)
      → Sound actions
      → Sound (perform sha256 call now actions)
  unfolding perform create_pending_action approve_action reject_action
  perform-Sound (create id tenant user server tool arguments action_type ttl) now actions h =
      Everywhere-insert IsSound (tenant, id)
        (new_action sha256 tenant user server tool arguments action_type ttl now) actions tt h
  perform-Sound (approve tenant id approver) now actions h =
      decide_action-Sound tenant id approver approved now actions refl h
  perform-Sound (reject tenant id approver) now actions h =
      decide_action-Sound tenant id approver rejected now actions refl h
  perform-Sound (use_up tenant id user server tool arguments) now actions h =
      consume_approved_action-Sound tenant id user server tool arguments now actions h

  -- Any calls at any times, whoever makes them, keep every stored action sound: an approved or
  -- rejected one was decided on in time by somebody other than its user, and a consumed one was so
  -- decided on and used before it expired.
  pub history-Sound :
      (calls : List (Call × ℕ)) (actions : Actions)
      → Sound actions
      → Sound (history sha256 calls actions)
  unfolding history
  history-Sound [] actions h = h
  history-Sound ((call, now) ∷ calls) actions h =
      history-Sound calls (perform sha256 call now actions) (perform-Sound call now actions h)
