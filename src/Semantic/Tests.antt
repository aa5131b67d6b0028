-- ===== src/Semantic/Tests.antt =====
-- Runs of `executeSemanticIntent`, and the theorems at them.
use openclaw_serial_adapter.Prelude.{ℕ, ◌+◌, ◌≡◌, ◌≤◌, refl, none, some, [], ◌∷◌, All, true, arith}
use openclaw_serial_adapter.Number.Natural.{natural}
use openclaw_serial_adapter.Text.{Text, codes}
use openclaw_serial_adapter.Json.{Json, num}
use openclaw_serial_adapter.Verify.{TelemetryFrame}
use openclaw_serial_adapter.Intent.{nudge_left, nudge_right, parse_absolute_angle}
use openclaw_serial_adapter.Semantic.{
  Options, execute_semantic_intent, nudge_target, flush_backlog, servo_angle, observe,
}
use openclaw_serial_adapter.Semantic.Safety.{
  IsSafe, execute_semantic_intent-IsSafe, nudge_target_lem,
}

abbrev number_of : Text → ℕ
number_of s = 0

abbrev lower : Text → Text
lower s = s

abbrev asked : Text → Options ℕ
asked instruction = record {
  instruction = instruction;
  verify_ms = none;
  intensity = none;
  delta = none;
  target_angle = none;
  include_frames = true;
}

abbrev string_of : Json ℕ → Text
string_of j = []

abbrev latest : TelemetryFrame ℕ
latest = (codes "servo", num 100) ∷ []

execute_semantic_intent-IsSafe_example :
    All IsSafe
      (execute_semantic_intent natural number_of lower string_of
        (asked (codes "turn left a little"))
        (some latest)
        []
        0).steps
execute_semantic_intent-IsSafe_example =
    execute_semantic_intent-IsSafe natural number_of lower string_of
      (asked (codes "turn left a little")) (some latest) [] 0

execute_runs :
    (execute_semantic_intent natural number_of lower string_of
      (asked (codes "turn left a little"))
      (some latest)
      []
      0).steps
    ≡ flush_backlog ∷ servo_angle 92 ∷ observe 1000 ∷ []
unfolding execute_semantic_intent
execute_runs = refl

nudge_target_lem_example :
    (nudge_target natural nudge_left (codes "turn left") (asked []) 100 ≤ 100
      × 100 ≤ nudge_target natural nudge_left (codes "turn left") (asked []) 100 + 60)
    × (100 ≤ nudge_target natural nudge_right (codes "turn left") (asked []) 100
        × nudge_target natural nudge_right (codes "turn left") (asked []) 100 ≤ 100 + 60)
nudge_target_lem_example =
    nudge_target_lem natural (codes "turn left") (asked []) 100 (omega arith)
      (unfold parse_absolute_angle in refl)
