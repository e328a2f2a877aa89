-- ===== src/Tests/Screening.antt =====
-- The guardrails at concrete inputs.
use m_gate.Prelude.{List, String, [], arith, false, none, refl, some, ℕ, ◌+◌, ◌∷◌, ◌≡◌}
use m_gate.Guardrails.{Breaker, Probe, check_inbound, matches_pattern, screen_semantic}
use m_gate.Guardrails.Circuit.{run_probes, screen_semantic-refused}
use m_gate.Guardrails.Inbound.{Screened, check_inbound-Screened}
use m_gate.Guardrails.Luhn.{luhn_checksum-one_digit, luhn_checksum_is_valid}
use m_gate.Tests.Fixtures.{settings}

abbrev quiet : Breaker
quiet = record { circuit_open_until = 0; consecutive_failures = 0 }

-- A search that finds a signature with a low score.
abbrev answered : Probe
answered = record {
  started = 100;
  ended = 120;
  found = some (record { category = "jailbreak"; signature_id = "s1"; score = 310000 } ∷ []);
}

abbrev spans : List (String × Probe)
spans = ("please list my invoices", answered) ∷ ("", answered) ∷ []

check_inbound-Screened_example : Screened settings spans
unfolding check_inbound matches_pattern
check_inbound-Screened_example = check_inbound-Screened settings refl refl spans quiet refl

abbrev failed_at : ℕ → Probe
failed_at t = record { started = t; ended = t + 50; found = none }

abbrev four_failures : List Probe
four_failures = failed_at 100 ∷ failed_at 200 ∷ failed_at 300 ∷ failed_at 400 ∷ []

abbrev tripped : Breaker
unfolding run_probes
tripped = run_probes settings (failed_at 500 ∷ []) (run_probes settings four_failures quiet)

screen_semantic-refused_example :
    screen_semantic settings (failed_at 30500) tripped ≡ (none, tripped)
unfolding run_probes
screen_semantic-refused_example =
    screen_semantic-refused settings four_failures (failed_at 500) (failed_at 30500) quiet
      (refl, refl, (refl, refl, (refl, refl, (refl, refl, tt)))) (refl, refl, tt) (omega arith)
      (omega arith)

luhn_checksum-one_digit_example : luhn_checksum_is_valid "4111111111111112" ≡ false
unfolding luhn_checksum_is_valid
luhn_checksum-one_digit_example =
    luhn_checksum-one_digit "411111111111111" "" "1" "2" refl refl (λ e. omega (arith, e)) refl
