-- ===== src/Guardrails.antt =====
-- services/guardrails.py: what is screened before a request goes on. The embedding of a text and the
-- vector search that follows it are a parameter, with the times at which they start and end. Scores
-- and their threshold are in millionths, times in milliseconds; a pattern is matched without regard
-- to the case of ASCII letters.
pub mod Luhn
pub mod Inbound
pub mod Circuit
use Prim.Native.String
use Prim.Native.Char.{code}
use m_gate.Prelude.{
  Bool, List, Option, String, [], clamp, false, if◌then◌else◌, is_empty, is_space, keep, leb, lower,
  ltb, map, nat_beq, none, not, some, true, ℕ, ◌*◌, ◌++◌, ◌+◌, ◌==◌, ◌||◌, ◌∷◌, string_eq, nat_eq,
  pair_eq,
}
use m_gate.Settings.{Settings}

-- A part of a pattern: a word; white space, at least one; a word with white space that may be
-- missing, `(w\s+)?`; a word that may be missing, `w?`.
pub data Piece : Type 0 where
  word : String → Piece
  gap : Piece
  optional_gap : String → Piece
  optional : String → Piece

strip_prefix : String → String → Option String
strip_prefix String.[] s = some s
strip_prefix (String.◌∷◌ c w) String.[] = none
strip_prefix (String.◌∷◌ c w) (String.◌∷◌ d s) =
    let rest = strip_prefix w s in if nat_beq (code c) (code d) then rest else none

skip_spaces : String → String
unfolding is_space
skip_spaces String.[] = String.[]
skip_spaces (String.◌∷◌ c s) =
    let rest = skip_spaces s in if is_space c then rest else String.◌∷◌ c s

-- The text after the white space it starts with, if it starts with any.
some_space : String → Option String
unfolding skip_spaces is_space
some_space String.[] = none
some_space (String.◌∷◌ c s) = if is_space c then some (skip_spaces s) else none

-- In the patterns below white space is followed by a letter, so it is read as far as it goes.
match_at : List Piece → String → Bool
unfolding strip_prefix some_space
match_at [] s = true
match_at (word w ∷ pieces) s = elim (strip_prefix w s) [
  | none ↦ false
  | some rest ↦ match_at pieces rest
]
match_at (gap ∷ pieces) s = elim (some_space s) [ none ↦ false | some rest ↦ match_at pieces rest ]
match_at (optional_gap w ∷ pieces) s =
    let without = match_at pieces s in
    elim (strip_prefix w s) [
      | none ↦ without
      | some spaced ↦ elim (some_space spaced) [
        | none ↦ without
        | some rest ↦ match_at pieces rest || without
      ]
    ]
match_at (optional w ∷ pieces) s =
    let without = match_at pieces s in
    elim (strip_prefix w s) [ none ↦ without | some rest ↦ match_at pieces rest || without ]

-- `pattern.search(text)`, where the text is in lower case.
search_in : List Piece → String → Bool
unfolding match_at
search_in pieces String.[] = match_at pieces String.[]
search_in pieces (String.◌∷◌ c s) =
    let rest = search_in pieces s in match_at pieces (String.◌∷◌ c s) || rest

abbrev pub ignore_previous : List Piece
ignore_previous =
    word "ignore"
    ∷ gap
    ∷ optional_gap "all"
    ∷ word "previous"
    ∷ gap
    ∷ word "instruction"
    ∷ optional "s"
    ∷ []

abbrev pub reveal_prompt : List Piece
reveal_prompt = word "reveal" ∷ gap ∷ optional_gap "the" ∷ word "system" ∷ gap ∷ word "prompt" ∷ []

abbrev pub developer_message : List Piece
developer_message = word "developer" ∷ gap ∷ word "message" ∷ []

abbrev pub script_tag : List Piece
script_tag = word "<script" ∷ []

abbrev pub prompt_injection_patterns : List (List Piece)
prompt_injection_patterns = ignore_previous ∷ reveal_prompt ∷ developer_message ∷ script_tag ∷ []

unfoldable pub matches_pattern : String → List Piece → Bool
unfolding search_in lower
matches_pattern text pattern = search_in pattern (lower text)

-- A document that the vector search returns.
pub record Signature : Type 0 where
  pub category : String
  pub signature_id : String
  pub score : ℕ

-- The texts in `reasons`, as what they tell.
pub data BlockReason : Type 0 where
  blocked_pattern : List Piece → BlockReason
  blocked_semantic : Signature → BlockReason
  guardrail_unavailable : BlockReason

-- RegexInboundDetector.screen
unfoldable pub screen_patterns : String → List BlockReason
screen_patterns text = map blocked_pattern (keep (matches_pattern text) prompt_injection_patterns)

-- The two fields of a SemanticInjectionDetector.
pub record Breaker : Type 0 where
  pub circuit_open_until : ℕ
  pub consecutive_failures : ℕ

-- One call of the embedding and the search: when it starts and ends, and what it returns, `none` for
-- an exception or a timeout.
pub record Probe : Type 0 where
  pub started : ℕ
  pub ended : ℕ
  pub found : Option (List Signature)

abbrev pub reset_ms : Settings → ℕ
reset_ms settings = clamp settings.guardrail_circuit_reset_seconds * 1000

abbrev pub failed_lookup : Settings → Probe → Breaker → Breaker
failed_lookup settings probe breaker =
    let failures = breaker.consecutive_failures + 1 in
    record {
      circuit_open_until =
          if leb (clamp settings.guardrail_circuit_failures) failures
          then probe.ended + reset_ms settings
          else breaker.circuit_open_until;
      consecutive_failures = failures;
    }

-- SemanticInjectionDetector.screen; `none` is GuardrailUnavailableError.
unfoldable pub screen_semantic : Settings → Probe → Breaker → Option (List BlockReason) × Breaker
screen_semantic settings probe breaker =
    if ltb probe.started breaker.circuit_open_until then (none, breaker) else elim probe.found [
      | none ↦ (none, failed_lookup settings probe breaker)
      | some docs ↦ (
        some (
            map blocked_semantic
              (keep (λ doc. leb settings.guardrail_injection_threshold doc.score) docs)),
        record breaker { consecutive_failures = 0 },
      )
    ]

-- What a detector adds to the reasons, an unavailable one under the fail mode.
abbrev pub or_unavailable : Settings → Option (List BlockReason) → List BlockReason
or_unavailable settings (some reasons) = reasons
or_unavailable settings none =
    if settings.guardrail_fail_mode == "closed" then guardrail_unavailable ∷ [] else []

-- One span, by the detectors that the settings give, in order.
unfoldable pub screen_span : Settings → String → Probe → Breaker → List BlockReason × Breaker
unfolding screen_patterns screen_semantic
screen_span settings span probe breaker =
    if not settings.guardrail_ml_enabled
    then (screen_patterns span, breaker)
    else let (semantic, breaker') = screen_semantic settings probe breaker in
      (screen_patterns span ++ or_unavailable settings semantic, breaker')

-- The loop of `check_inbound`; each span comes with the call that its screening may make.
unfoldable pub screen_spans :
    Settings → List (String × Probe) → Breaker → List BlockReason × Breaker
unfolding screen_span
screen_spans settings [] breaker = ([], breaker)
screen_spans settings ((span, probe) ∷ spans) breaker = elim (span == "") [
  | true ↦ screen_spans settings spans breaker
  | false ↦
      let (reasons, breaker') = screen_span settings span probe breaker in
      let (more, last) = screen_spans settings spans breaker' in (reasons ++ more, last)
]

-- `check_inbound(...).blocked`: taking out repeated reasons leaves none if there were none.
unfoldable pub check_inbound : Settings → List (String × Probe) → Breaker → Bool × Breaker
unfolding screen_spans
check_inbound settings spans breaker =
    let (reasons, breaker') = screen_spans settings spans breaker in
    (not (is_empty reasons), breaker')
