-- ===== src/Usage/Events.antt =====
-- What an event adds to the bill, and a record to the counter of calls.
use m_gate.Prelude.{
  Bool-cases, String, [], arith, clamp, false, inl, inr, nat_beq, ℕ, ℤ, ◌==◌, ◌∷◌, ◌≡◌, string_eq,
  nat_eq, pair_eq,
}
use m_gate.Usage.{Metering, emit_billing_event, get_usage}
use m_gate.Usage.Billing.{billed, billed-append}

module _ (db : Metering) (tenant kind : String) (amount : ℤ) (period server tool source : String)
    (now : ℕ) (t p : String) where
  abbrev after : Metering
  after = emit_billing_event db tenant kind amount period server tool source now

  pub usage-emit_billing_event : get_usage after t p ≡ get_usage db t p
  unfolding emit_billing_event get_usage
  usage-emit_billing_event = ground arith

  -- An event of another kind bills no calls.
  pub billed-emit_other :
      (kind == "calls") ≡ false → billed t p after.usage_events ≡ billed t p db.usage_events
  unfolding emit_billing_event billed
  billed-emit_other h = elim (Bool-cases (nat_beq (clamp amount) 0)) [
    | inl e ↦ rw e
    | inr e ↦ rw (e, billed-append) (omega (arith, lone))
  ]
    where
      lone :
          billed t p (
            (record {
              tenant_id = tenant;
              period = period;
              kind = kind;
              amount = clamp amount;
              ts = now;
              server = server;
              tool = tool;
              source = source;
            })
            ∷ [])
          ≡ 0
      lone = ground arith
