-- ===== src/Blocks/Tests.antt =====
-- The blocks on frames with natural numbers, and the theorems at them.
use openclaw_serial_adapter.Prelude.{
  ℕ, ◌++◌, ◌≡◌, refl, Option, none, some, List, [], ◌∷◌, false, last?, if◌then◌else◌, or_some,
  arith,
}
use mathlib.Core.Option
use openclaw_serial_adapter.Prelude.Last.{take_last}
use openclaw_serial_adapter.Number.Natural.{natural, sub-foldl}
use openclaw_serial_adapter.Text.{codes, same_text}
use openclaw_serial_adapter.Json.{Json, num}
use openclaw_serial_adapter.Frame.{Frame, get_field, get_optional, features_of, read_numeric}
use openclaw_serial_adapter.Blocks.MovingAverage
use openclaw_serial_adapter.Blocks.MovingAverage.Average.{average-process_all, process_features}
use openclaw_serial_adapter.Blocks.MovingAverage.Holds.{total, average}
use openclaw_serial_adapter.Blocks.MovingAverage.Average
use openclaw_serial_adapter.Blocks.Pid
use openclaw_serial_adapter.Blocks.Pid.Control.{
  errors_of-process_all, process_bounds, integrate, errors_of,
}
use openclaw_serial_adapter.Blocks.Pid.Control

abbrev with_velocity : ℕ → Frame ℕ
with_velocity v = record {
  timestamp = 0;
  raw = none;
  parsed = some ((codes "velocity", num v) ∷ []);
  meta = none;
  features = none;
}

abbrev drive : List (Frame ℕ)
drive = with_velocity 3 ∷ with_velocity 5 ∷ with_velocity 10 ∷ []

abbrev of_two : MovingAverage.Config natural
of_two = record { source_key = none; output_key = none; window = some 2 }

average-process_all_example :
    let start = MovingAverage.init natural of_two (MovingAverage.new_block natural) in
    let after = Average.process_all natural drive start in
    let held = take_last start.window (Average.values_all natural start.source_key drive) in
    (after.sum ≡ total natural held) × (after.last_average ≡ average natural held)
average-process_all_example =
    average-process_all natural of_two (MovingAverage.new_block natural) drive
      (λ before xs after x e l. sub-foldl x xs)

average_runs :
    (Average.process_all natural drive
      (MovingAverage.init natural of_two (MovingAverage.new_block natural))).last_average
    ≡ some 7
unfolding MovingAverage.process MovingAverage.init
average_runs = refl

process_features_example :
    let (after, out) =
      MovingAverage.process natural (with_velocity 4) (MovingAverage.new_block natural) in
    let before =
      get_field (codes "moving_average.velocity") (features_of natural (with_velocity 4)) in
    let average_now : Option (Json ℕ) =
      elim (read_numeric natural (with_velocity 4) (codes "velocity")) [
        | none ↦ none
        | some _ ↦ Option.map num after.last_average
      ] in
    (get_optional natural (codes "moving_average.velocity") out.features ≡ (
      if same_text (codes "moving_average.velocity") (codes "moving_average.velocity")
      then or_some average_now before
      else before))
    × (out ≡ record (with_velocity 4) { features = out.features })
process_features_example =
    process_features natural (with_velocity 4) (MovingAverage.new_block natural)
      (codes "moving_average.velocity")

abbrev controller : Pid.Block natural
controller = record (Pid.new_block natural (codes "pid")) { setpoint = 8; max_output = 4 }

irreflexive : (x : ℕ) → natural.lt x x ≡ false
irreflexive x = ground arith

process_bounds_example :
    let (after, out) = Pid.process natural (with_velocity 2) controller in
    (output : ℕ) × (after.last_output ≡ some output)
    × (natural.lt output controller.min_output ≡ false)
    × (natural.lt controller.max_output output ≡ false)
    × (get_optional natural (codes "pid" ++ codes ".output") out.features ≡ some (num output))
process_bounds_example =
    process_bounds natural irreflexive (with_velocity 2) controller 2 refl
      (unfold read_numeric in refl)

abbrev to_eight : Pid.Config natural
to_eight = record {
  measurement_key = none;
  output_key = none;
  setpoint = some 8;
  kp = none;
  ki = none;
  kd = none;
  dt_seconds = none;
  min_output = none;
  max_output = none;
}

errors_of-process_all_example :
    let start = Pid.init natural to_eight (Pid.new_block natural (codes "pid")) in
    let after = Control.process_all natural drive start in
    let errors = errors_of natural start (Control.values_all natural start.measurement_key drive) in
    (after.integral ≡ integrate natural start.dt_seconds 0 errors)
    × (after.prev_error ≡ last? errors)
errors_of-process_all_example =
    errors_of-process_all natural to_eight (Pid.new_block natural (codes "pid")) drive
