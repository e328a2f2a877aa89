-- ===== src/PendingActions/Once.antt =====
-- An approval is good for one call, and only for the call that it was asked for.
use m_gate.Prelude.{
  ==_refl, Bool-cases, Option, Option-cases, String, arith, eq_iff, inl, inr, lookup, lookup-modify,
  modify, none, refl, some, true, ℕ, ◌≡◌, ◌≢◌, ◌⊎◌, string_eq, nat_eq, pair_eq,
}
use m_gate.PendingActions.{
  Action, Actions, ConsumeOutcome, already_consumed, consumable, consume, consume_approved_action,
  consume_expired, consume_not_found, consume_ok, consumed, refusal,
}
use m_gate.Rpc.Dispatch.{reply}

module _ (sha256 : String → String) (actions : Actions) (tenant id : String) where
  -- The action has been consumed, and expired or not it cannot be consumed again.
  abbrev Spent : (ConsumeOutcome × Option Action) × Actions → Actions → Type 0
  Spent reply before =
      ((reply.0.0 ≡ consume_expired) ⊎ (reply.0.0 ≡ already_consumed)) × (reply.1 ≡ before)

  spent :
      (user server tool arguments : String) (later : ℕ) (doc : Action)
      → lookup (tenant, id) actions ≡ some doc
      → doc.tenant_id ≡ tenant
      → doc.status ≡ consumed
      → Spent
          (consume_approved_action sha256 actions tenant id user server tool arguments later)
          actions
  unfolding consume_approved_action
  spent user server tool arguments later doc found own s =
      rw (found, consume_approved_action) (ground (arith, eq_iff doc.tenant_id tenant))

  refusal-ne-ok :
      (user server tool arguments : String) (now : ℕ) (o : Option Action)
      → (refusal sha256 tenant user server tool arguments now o).0 ≢ consume_ok
  refusal-ne-ok user server tool arguments now none = λ h. cc
  refusal-ne-ok user server tool arguments now (some raw) = ground arith

  -- What a successful call finds and leaves.
  pub consumed_by :
      (user server tool arguments : String) (now : ℕ)
      → (consume_approved_action sha256 actions tenant id user server tool arguments now).0.0
        ≡ consume_ok
      → (doc : Action) × (lookup (tenant, id) actions ≡ some doc)
        × (consumable sha256 tenant user server tool arguments now doc ≡ true)
        × ((consume_approved_action sha256 actions tenant id user server tool arguments now).1
            ≡ modify (tenant, id) (consume sha256 now) actions)
  unfolding consume_approved_action
  consumed_by user server tool arguments now h = elim (Option-cases (lookup (tenant, id) actions)) [
    | inl e ↦
        let bad : ◌≡◌ {A = ConsumeOutcome} consume_not_found consume_ok =
          rw (e, consume_approved_action) at h in
        cc
    | inr (doc, e) ↦
        elim (Bool-cases (consumable sha256 tenant user server tool arguments now doc)) [
          | inl good ↦ (doc, e, good, rw (e, consume_approved_action, good))
          | inr bad ↦ absurd (
              refusal-ne-ok user server tool arguments now (some doc)
                (rw (e, consume_approved_action, bad) at h))
        ]
  ]

-- Once a confirmation has been consumed, a second call with it is answered as expired or as already
-- consumed, whoever makes it, at whatever time and for whatever call, and changes nothing.
pub consume_twice :
    (sha256 : String → String) (actions : Actions) (tenant id user server tool arguments : String)
    (now : ℕ) (user' server' tool' arguments' : String) (later : ℕ)
    → (consume_approved_action sha256 actions tenant id user server tool arguments now).0.0
      ≡ consume_ok
    → let first = consume_approved_action sha256 actions tenant id user server tool arguments now in
      let second =
        consume_approved_action sha256 first.1 tenant id user' server' tool' arguments' later in
      ((second.0.0 ≡ consume_expired) ⊎ (second.0.0 ≡ already_consumed)) × (second.1 ≡ first.1)
consume_twice sha256 actions tenant id user server tool arguments now user' server' tool' arguments'
      later h =
    let (doc, found, good, after) =
      consumed_by sha256 actions tenant id user server tool arguments now h in
    rw after (
      spent sha256 (modify (tenant, id) (consume sha256 now) actions) tenant id user' server' tool'
        arguments' later (consume sha256 now doc)
        (rw (lookup-modify, ==_refl {A = String × String} (tenant, id), found))
        (ground (arith, eq_iff doc.tenant_id tenant)) refl)
