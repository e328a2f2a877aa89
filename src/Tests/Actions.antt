-- ===== src/Tests/Actions.antt =====
-- Confirmations at concrete inputs.
use m_gate.Prelude.{
  Everywhere-nil, List, String, [], concat, insert, lookup, modify, none, pos, refl, some, ℕ, ◌∷◌,
  ◌≡◌, ◌⊎◌, string_eq, nat_eq, pair_eq,
}
use m_gate.PendingActions.{
  Action, Actions, already_consumed, approve_action, consume_approved_action, consume_expired,
  create_pending_action, decide_action,
}
use m_gate.PendingActions.Approval.{IsApproved, two_person_rule}
use m_gate.PendingActions.Lifecycle.{
  Call, IsSound, Sound, approve, create, history, history-Sound, perform,
}
use m_gate.PendingActions.Once.{consume_twice}

abbrev digest : String → String
digest arguments = concat ("sha256:" ∷ arguments ∷ [])

-- Alice asks, Bob approves.
abbrev approved_history : List (Call × ℕ)
approved_history =
    (create "a1" "acme" "alice" "mail" "send" "{}" none (pos 900), 1000)
    ∷ (approve "acme" "a1" "bob", 2000)
    ∷ []

history-Sound_example : Sound (history digest approved_history [])
history-Sound_example = history-Sound digest approved_history [] (Everywhere-nil IsSound)

two_person_rule_example :
    (doc : Action) × (lookup ("acme", "a1") (history digest approved_history []) ≡ some doc)
    × IsApproved digest "alice" "mail" "send" "{}" 3000 doc
unfolding history perform create_pending_action approve_action decide_action consume_approved_action
    insert lookup modify
two_person_rule_example =
    two_person_rule digest approved_history "acme" "a1" "alice" "mail" "send" "{}" 3000 refl

abbrev waiting : Actions
waiting = history digest approved_history []

consume_twice_example :
    let first =
      consume_approved_action digest waiting "acme" "a1" "alice" "mail" "send" "{}" 3000 in
    let second =
      consume_approved_action digest first.1 "acme" "a1" "alice" "mail" "send" "{}" 4000 in
    ((second.0.0 ≡ consume_expired) ⊎ (second.0.0 ≡ already_consumed)) × (second.1 ≡ first.1)
unfolding history perform create_pending_action approve_action decide_action consume_approved_action
    insert lookup modify
consume_twice_example =
    consume_twice digest waiting "acme" "a1" "alice" "mail" "send" "{}" 3000 "alice" "mail" "send"
      "{}" 4000 refl
