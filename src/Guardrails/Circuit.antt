-- ===== src/Guardrails/Circuit.antt =====
-- When the breaker of the semantic detector is open.
use m_gate.Prelude.{
  List, [], ap, arith, clamp, false, length, ltb, lt→ltb, none, true, ◌+◌, ◌<◌, ◌∙◌, ◌∷◌, ◌≡◌, ◌≤◌,
}
use m_gate.Guardrails.{Breaker, Probe, failed_lookup, reset_ms, screen_semantic}
use m_gate.Settings.{Settings}

module _ (settings : Settings) where
  -- Calls of the detector, one after the other.
  unfoldable pub run_probes : List Probe → Breaker → Breaker
  unfolding screen_semantic
  run_probes [] breaker = breaker
  run_probes (probe ∷ probes) breaker = run_probes probes (screen_semantic settings probe breaker).1

  -- Each call is made, since the breaker lets it, and fails.
  abbrev pub Failing : List Probe → Breaker → Type 0
  unfolding screen_semantic
  Failing [] breaker = Unit {0}
  Failing (probe ∷ probes) breaker =
      (ltb probe.started breaker.circuit_open_until ≡ false)
      × (probe.found ≡ none)
      × Failing probes (screen_semantic settings probe breaker).1

  failing_step :
      (probe : Probe) (breaker : Breaker)
      → ltb probe.started breaker.circuit_open_until ≡ false
      → probe.found ≡ none
      → (screen_semantic settings probe breaker).1 ≡ failed_lookup settings probe breaker
  unfolding screen_semantic
  failing_step probe breaker made failed = rw (made, failed)

  failures-run_probes :
      (probes : List Probe) (breaker : Breaker)
      → Failing probes breaker
      → (run_probes probes breaker).consecutive_failures
        ≡ breaker.consecutive_failures + length probes
  unfolding run_probes
  failures-run_probes [] breaker h = omega arith
  failures-run_probes (probe ∷ probes) breaker (made, failed, rest) =
      let step = failing_step probe breaker made failed in
      omega (
        arith,
        failures-run_probes probes (screen_semantic settings probe breaker).1 rest,
        ap (λ b. b.consecutive_failures) step,
      )

  shut :
      (next : Probe) (breaker : Breaker)
      → ltb next.started breaker.circuit_open_until ≡ true
      → screen_semantic settings next breaker ≡ (none, breaker)
  unfolding screen_semantic
  shut next breaker h = rw h

  tripped :
      (last : Probe) (breaker : Breaker)
      → clamp settings.guardrail_circuit_failures ≤ breaker.consecutive_failures + 1
      → (failed_lookup settings last breaker).circuit_open_until ≡ last.ended + reset_ms settings
  tripped last breaker enough = ground arith

  -- Calls that were made one after the other have all failed, and with one more that fails too there
  -- are as many in a row as the settings allow, or more. Then until the reset time after that last
  -- one has gone by, the detector makes no further call: it reports that it is unavailable and its
  -- state stays as it is.
  pub screen_semantic-refused :
      (probes : List Probe) (last next : Probe) (breaker : Breaker)
      → Failing probes breaker
      → Failing (last ∷ []) (run_probes probes breaker)
      → clamp settings.guardrail_circuit_failures ≤ breaker.consecutive_failures + length probes + 1
      → next.started < last.ended + reset_ms settings
      → let tripped = run_probes (last ∷ []) (run_probes probes breaker) in
        screen_semantic settings next tripped ≡ (none, tripped)
  unfolding run_probes
  screen_semantic-refused probes last next breaker failing (made, failed, _) enough soon =
      let before = run_probes probes breaker in
      let counted = failures-run_probes probes breaker failing in
      let until : (screen_semantic settings last before).1.circuit_open_until
          ≡ last.ended + reset_ms settings =
        ap (λ b. b.circuit_open_until) (failing_step last before made failed)
        ∙ tripped last before (omega (arith, counted)) in
      shut next (screen_semantic settings last before).1 (rw until (lt→ltb _ _ soon))
