-- ===== src/Verify/Tests.antt =====
-- The verification of motion on frames with natural numbers, and the theorems at them.
use openclaw_serial_adapter.Prelude.{ℕ, ◌≡◌, refl, some, List, [], ◌∷◌, ◌++◌, true, arith}
use openclaw_serial_adapter.Number.Natural.{natural}
use openclaw_serial_adapter.Text.{Text, codes}
use openclaw_serial_adapter.Json.{num}
use openclaw_serial_adapter.Verify.{
  TelemetryFrame, target, stop, numeric_values, evaluate_stop_verification,
}
use openclaw_serial_adapter.Verify.Tail.{
  evaluate_stop_verification-append, evaluate_stop_verification-stop,
}

abbrev number_of : Text → ℕ
number_of s = 0

abbrev servo_at : ℕ → TelemetryFrame ℕ
servo_at angle = (codes "servo", num angle) ∷ []

abbrev settled : List (TelemetryFrame ℕ)
settled = servo_at 89 ∷ servo_at 90 ∷ servo_at 90 ∷ servo_at 91 ∷ servo_at 90 ∷ servo_at 90 ∷ []

abbrev moving : List (TelemetryFrame ℕ)
moving = servo_at 20 ∷ servo_at 60 ∷ []

evaluate_stop_verification-append_example :
    (evaluate_stop_verification natural number_of (moving ++ settled) 90 target).verified
    ≡ (evaluate_stop_verification natural number_of settled 90 target).verified
evaluate_stop_verification-append_example =
    evaluate_stop_verification-append natural number_of moving settled 90 target
      (unfold numeric_values in omega arith)

evaluate_stop_verification-stop_example :
    (evaluate_stop_verification natural number_of settled 90 stop).verified ≡ some true
evaluate_stop_verification-stop_example =
    evaluate_stop_verification-stop natural number_of settled 90
      (unfold evaluate_stop_verification in refl)
