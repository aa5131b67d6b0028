-- ===== src/Verify.antt =====
-- The verification of motion in index.ts: `asFiniteNumber`, `readNumericField`, `rangeOf` and
-- `evaluateStopVerification`. A telemetry frame is the object of its JSON line. `number_of` is
-- `Number(s)` of a string. The numbers compared are finite, so that `a <= b` is `!(b < a)`.
pub mod Tail
mod Tests
use openclaw_serial_adapter.Prelude.{
  ℕ, Bool, true, false, ◌&&◌, not, Option, none, some, List, [], ◌∷◌, foldl, length, last?, min,
  if◌then◌else◌, is_some, or_else, or_some,
}
use openclaw_serial_adapter.Prelude.Int.{ℤ, pos}
use openclaw_serial_adapter.Prelude.Last.{take_last}
use openclaw_serial_adapter.Number.{Number}
use openclaw_serial_adapter.Text.{Text, codes, trim, is_empty}
use openclaw_serial_adapter.Json.{Json, num, str, obj, Entries, entries}
use openclaw_serial_adapter.Frame.{get_field}

abbrev pub TelemetryFrame : Type 0 → Type 0
TelemetryFrame F = Entries F

pub data StopMode : Type 0 where
  target stop : StopMode

pub data FeedbackMode : Type 0 where
  servo_feedback motor_pwm_feedback unverifiable : FeedbackMode

pub data StopReason : Type 0 where
  servo_tail_stable_no_motion servo_still_moving : StopReason
  servo_tail_stable_near_target servo_not_stable_or_not_near_target : StopReason
  motor_pwm_stable_near_zero motor_pwm_not_stable_or_not_zero : StopReason
  no_servo_or_motor_feedback_fields : StopReason
  -- `unverifiable_runtime_${code}`
  unverifiable_runtime : Text → StopReason

pub record StopVerification (F : Type 0) : Type 0 where
  pub verified : Option Bool
  pub mode : FeedbackMode
  pub reason : StopReason
  pub last_servo : Option F
  pub servo_range : Option F
  pub servo_tail_range : Option F
  pub target_angle : Option F
  pub last_motor_pwm : Option F
  pub motor_pwm_range : Option F

-- The list with the value in front, where there is one.
abbrev pub keep : {A : Type 0} → Option A → List A → List A
keep none xs = xs
keep (some x) xs = x ∷ xs

module _ (N : Number) (number_of : Text → N.F) where
  open N use {F, is_finite, lt, sub, abs, of_int}

  -- `a <= b`
  abbrev pub at_most : F → F → Bool
  at_most a b = not (lt b a)

  abbrev pub as_finite_number : Option (Json F) → Option F
  as_finite_number (some (num x)) = if is_finite x then some x else none
  as_finite_number (some (str s)) =
      let parsed = number_of s in
      if not (is_empty (trim s)) && is_finite parsed then some parsed else none
  as_finite_number _ = none

  abbrev pub get_parsed_record : TelemetryFrame F → Entries F
  get_parsed_record frame = elim (get_field (codes "parsed") frame) [
    | some (obj o) ↦ entries o
    | _ ↦ []
  ]

  unfoldable pub read_numeric_field : TelemetryFrame F → Text → Option F
  unfolding get_field trim
  read_numeric_field frame key =
      or_some (as_finite_number (get_field key frame))
        (as_finite_number (get_field key (get_parsed_record frame)))

  -- `frames.map(readNumericField).filter(value !== null)`
  unfoldable pub numeric_values : Text → List (TelemetryFrame F) → List F
  unfolding read_numeric_field
  numeric_values key [] = []
  numeric_values key (frame ∷ frames) =
      keep (read_numeric_field frame key) (numeric_values key frames)

  unfoldable pub range_of : List F → Option F
  range_of [] = none
  range_of (x ∷ xs) =
      let least = foldl (λ m y. if lt y m then y else m) x xs in
      let greatest = foldl (λ m y. if lt m y then y else m) x xs in some (sub greatest least)

  abbrev pub servo_reason : StopMode → Bool → StopReason
  servo_reason stop verified = if verified then servo_tail_stable_no_motion else servo_still_moving
  servo_reason target verified =
      if verified then servo_tail_stable_near_target else servo_not_stable_or_not_near_target

  abbrev pub zero_F : F
  zero_F = of_int (pos 0)

  -- the branch of `evaluateStopVerification` with servo readings, of which `last` is the last
  unfoldable pub servo_verdict : List F → F → F → StopMode → StopVerification F
  unfolding range_of
  servo_verdict values last target_angle mode =
      let servo_range = or_else (range_of values) zero_F in
      let tail_window = take_last (min 6 (length values)) values in
      let servo_tail_range = or_else (range_of tail_window) servo_range in
      let near_target = at_most (abs (sub last target_angle)) (of_int (pos 4)) in
      let stable = at_most servo_tail_range (of_int (pos 3)) in
      let verified : Bool = (elim mode [ stop ↦ stable | target ↦ near_target && stable ]) in
      record {
        verified = some verified;
        mode = servo_feedback;
        reason = servo_reason mode verified;
        last_servo = some last;
        servo_range = some servo_range;
        servo_tail_range = some servo_tail_range;
        target_angle = some target_angle;
        last_motor_pwm = none;
        motor_pwm_range = none;
      }

  unfoldable pub motor_verdict : List F → F → StopVerification F
  unfolding range_of
  motor_verdict values last =
      let motor_range = or_else (range_of values) zero_F in
      let near_zero = at_most (abs last) (of_int (pos 1)) in
      let stable = at_most motor_range (of_int (pos 2)) in
      record {
        verified = some (near_zero && stable);
        mode = motor_pwm_feedback;
        reason =
            if near_zero && stable
            then motor_pwm_stable_near_zero
            else motor_pwm_not_stable_or_not_zero;
        last_servo = none;
        servo_range = none;
        servo_tail_range = none;
        target_angle = none;
        last_motor_pwm = some last;
        motor_pwm_range = some motor_range;
      }

  abbrev pub no_verdict : StopVerification F
  no_verdict = record {
    verified = none;
    mode = unverifiable;
    reason = no_servo_or_motor_feedback_fields;
    last_servo = none;
    servo_range = none;
    servo_tail_range = none;
    target_angle = none;
    last_motor_pwm = none;
    motor_pwm_range = none;
  }

  -- which of the three verdicts is given, by the last servo reading and the last motor reading
  unfoldable pub verdict_of :
      List F → Option F → List F → Option F → F → StopMode → StopVerification F
  unfolding servo_verdict motor_verdict
  verdict_of servo_values (some last) motor_values last_motor target_angle mode =
      servo_verdict servo_values last target_angle mode
  verdict_of servo_values none motor_values (some last) target_angle mode =
      motor_verdict motor_values last
  verdict_of servo_values none motor_values none target_angle mode = no_verdict

  unfoldable pub evaluate_stop_verification :
      List (TelemetryFrame F) → F → StopMode → StopVerification F
  unfolding numeric_values verdict_of
  evaluate_stop_verification frames target_angle mode =
      let servo_values = numeric_values (codes "servo") frames in
      let motor_values = numeric_values (codes "motor_pwm") frames in
      verdict_of servo_values (last? servo_values) motor_values (last? motor_values) target_angle
        mode
