-- ===== src/Semantic.antt =====
-- `executeSemanticIntent` of index.ts, as the steps that it takes and the result that it returns.
-- What the code measures comes in as arguments: the latest frame before the steps, the frames
-- observed after them and the number of those that are buffered then.
pub mod Safety
mod Tests
use openclaw_serial_adapter.Prelude.{
  ℕ, ◌+◌, ◌*◌, Bool, true, false, Option, none, some, List, [], ◌∷◌, ◌++◌, if◌then◌else◌, or_else,
  last?,
}
use mathlib.Core.Option
use openclaw_serial_adapter.Prelude.Int.{ℤ, pos, abs, clamp_ℕ, ◌+ℤ◌, ◌-ℤ◌}
use openclaw_serial_adapter.Number.{Number}
use openclaw_serial_adapter.Text.{Text, codes}
use openclaw_serial_adapter.Verify.{
  TelemetryFrame, StopVerification, StopMode, target, stop, read_numeric_field,
  evaluate_stop_verification,
}
use openclaw_serial_adapter.Json.{Json}
use openclaw_serial_adapter.Summary.{Summary, summarize_telemetry_frames}
use openclaw_serial_adapter.Intent.{
  SemanticIntent, SemanticIntensity, status, center, nudge_left, nudge_right, nod, shake, unknown,
  intensity_to_delta, normalize_intent_text, detect_semantic_intent, parse_semantic_intensity,
  parse_delta_override, parse_absolute_angle, finite_argument,
}
use openclaw_serial_adapter.Intent

abbrev pub stop_target_default : ℕ
stop_target_default = 90

-- `flushTelemetryBacklog`, `sendBestEffortStopSequence`, `sendServoAngleBestEffort`, `sleep` and
-- `observeTelemetryWindow`, with their numbers
pub data Step : Type 0 where
  flush_backlog : Step
  stop_sequence : ℕ → ℕ → ℕ → Step
  servo_angle : ℕ → Step
  pause : ℕ → Step
  observe : ℕ → Step

pub record Options (F : Type 0) : Type 0 where
  pub instruction : Text
  pub verify_ms : Option F
  pub intensity : Option SemanticIntensity
  pub delta : Option F
  pub target_angle : Option F
  pub include_frames : Bool

pub data Action (F : Type 0) : Type 0 where
  intent_unrecognized observe_only : Action F
  best_effort_stop : ℕ → StopVerification F → Action F
  set_center : ℕ → StopVerification F → Action F
  -- from, target, delta, intensity, verification
  nudge_servo : ℕ → ℕ → ℕ → SemanticIntensity → StopVerification F → Action F
  motion : List ℕ → StopVerification F → Action F

pub record Outcome (F : Type 0) : Type 0 where
  pub intent : SemanticIntent
  pub steps : List Step
  pub action : Action F
  pub summary : Option (Summary F)
  pub frames : Option (List (TelemetryFrame F))

-- the summary of the branches that observe
abbrev pub optional_summary : {F : Type 0} → Action F → Summary F → Option (Summary F)
optional_summary intent_unrecognized summary = none
optional_summary _ summary = some summary

-- `optionalFrames` of the branches that observe
abbrev pub optional_frames :
    {F : Type 0} → Action F → Bool → List (TelemetryFrame F) → Option (List (TelemetryFrame F))
optional_frames intent_unrecognized include_frames frames = none
optional_frames _ include_frames frames = if include_frames then some frames else none

-- the loop over the angles of a motion
pub motion_steps : List ℕ → List Step
motion_steps [] = []
motion_steps (angle ∷ angles) = servo_angle angle ∷ (pause 180 ∷ motion_steps angles)

abbrev pub nod_sequence : List ℕ
nod_sequence = 90 ∷ 75 ∷ 100 ∷ 80 ∷ 90 ∷ []

abbrev pub shake_sequence : List ℕ
shake_sequence = 90 ∷ 70 ∷ 110 ∷ 75 ∷ 105 ∷ 90 ∷ []

-- `clamp(current + sign * delta, 0, 180)`, where the intent is `nudge_left` or `nudge_right`
abbrev pub nudged : SemanticIntent → ℕ → ℕ → ℕ
nudged nudge_left current delta = clamp_ℕ 0 180 (pos current -ℤ pos delta)
nudged _ current delta = clamp_ℕ 0 180 (pos current +ℤ pos delta)

module _ (N : Number) where
  open N use {F}

  unfoldable pub verify_window : Option F → ℕ
  verify_window ms =
      or_else (Option.map (λ x. clamp_ℕ 300 8000 (N.floor x)) (finite_argument N ms)) 1000

  -- the target of a nudge
  unfoldable pub nudge_target : SemanticIntent → Text → Options F → ℕ → ℕ
  unfolding parse_delta_override parse_absolute_angle parse_semantic_intensity
  nudge_target intent text options current =
      let intensity = parse_semantic_intensity text options.intensity in
      let delta =
        or_else (parse_delta_override N text options.delta) (intensity_to_delta intensity) in
      or_else (parse_absolute_angle N text options.target_angle) (nudged intent current delta)

module _ (N : Number) (number_of : Text → N.F) (to_lower_case : Text → Text) where
  open N use {F, of_int}

  unfoldable pub resolve_servo_angle : Option (TelemetryFrame F) → ℕ
  unfolding read_numeric_field
  resolve_servo_angle latest = elim latest [
    | none ↦ stop_target_default
    | some frame ↦ elim (read_numeric_field N number_of frame (codes "servo")) [
      | none ↦ stop_target_default
      | some measured ↦ clamp_ℕ 0 180 (N.round measured)
    ]
  ]

  -- the branches, by the intent
  unfoldable pub execute :
      SemanticIntent
      → Text
      → Options F
      → Option (TelemetryFrame F)
      → List (TelemetryFrame F)
      → List Step × Action F
  unfolding nudge_target verify_window resolve_servo_angle evaluate_stop_verification motion_steps
      parse_semantic_intensity parse_absolute_angle
  execute unknown text options latest observed = ([], intent_unrecognized)
  execute status text options latest observed =
      (observe (verify_window N options.verify_ms) ∷ [], observe_only)
  execute Intent.stop text options latest observed =
      let verdict =
        evaluate_stop_verification N number_of observed (of_int (pos stop_target_default)) stop in
      (
        flush_backlog
            ∷ (stop_sequence stop_target_default 2 120
                ∷ (observe (verify_window N options.verify_ms) ∷ [])),
        best_effort_stop stop_target_default verdict,
      )
  execute center text options latest observed =
      let angle = or_else (parse_absolute_angle N text options.target_angle) stop_target_default in
      let verdict = evaluate_stop_verification N number_of observed (of_int (pos angle)) target in
      (
        flush_backlog ∷ (servo_angle angle ∷ (observe (verify_window N options.verify_ms) ∷ [])),
        set_center angle verdict,
      )
  execute nod text options latest observed =
      let verdict = evaluate_stop_verification N number_of observed (of_int (pos 90)) target in
      (
        flush_backlog ∷ motion_steps nod_sequence
            ++ observe (verify_window N options.verify_ms) ∷ [],
        motion nod_sequence verdict,
      )
  execute shake text options latest observed =
      let verdict = evaluate_stop_verification N number_of observed (of_int (pos 90)) target in
      (
        flush_backlog ∷ motion_steps shake_sequence
            ++ observe (verify_window N options.verify_ms) ∷ [],
        motion shake_sequence verdict,
      )
  execute intent text options latest observed =
      let current = resolve_servo_angle latest in
      let angle = nudge_target N intent text options current in
      let verdict = evaluate_stop_verification N number_of observed (of_int (pos angle)) target in
      (
        flush_backlog ∷ (servo_angle angle ∷ (observe (verify_window N options.verify_ms) ∷ [])),
        nudge_servo current angle (abs (pos angle -ℤ pos current))
            (parse_semantic_intensity text options.intensity) verdict,
      )

  unfoldable pub execute_semantic_intent :
      (Json F → Text)
      → Options F
      → Option (TelemetryFrame F)
      → List (TelemetryFrame F)
      → ℕ
      → Outcome F
  unfolding normalize_intent_text detect_semantic_intent execute summarize_telemetry_frames
  execute_semantic_intent string_of options latest observed buffered =
      let summary =
        summarize_telemetry_frames N number_of to_lower_case string_of observed buffered in
      let text = normalize_intent_text to_lower_case options.instruction in
      let intent = detect_semantic_intent to_lower_case text in
      let done = execute intent text options latest observed in
      record {
        intent = intent;
        steps = done.0;
        action = done.1;
        summary = optional_summary done.1 summary;
        frames = optional_frames done.1 options.include_frames observed;
      }
