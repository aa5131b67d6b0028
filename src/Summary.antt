-- ===== src/Summary.antt =====
-- `summarizeTelemetryFrames` and `buildFramePreview` of index.ts. A set of keys is the list of its
-- elements in the order of insertion; `to_lower_case` and `string_of`, which is `String(v)`, are
-- parameters.
pub mod Keys
pub mod Detection
mod Tests
use openclaw_serial_adapter.Prelude.{
  ℕ, zero, suc, Bool, true, false, ◌&&◌, ◌||◌, not, Option, none, some, List, [], ◌∷◌, ◌++◌, length,
  last?, take, ltb, if◌then◌else◌, is_some, or_some, or_else, ◌==◌,
}
use openclaw_serial_adapter.Prelude.Int.{pos}
use openclaw_serial_adapter.Number.{Number}
use openclaw_serial_adapter.Text.{Text, codes, same_text}
use openclaw_serial_adapter.Json.{Json, null, bool, num, str, Entries}
use openclaw_serial_adapter.Frame.{get_field}
use openclaw_serial_adapter.Verify.{
  TelemetryFrame, as_finite_number, get_parsed_record, read_numeric_field, range_of,
}

abbrev pub imu_accel_keys : List Text
imu_accel_keys = codes "ax" ∷ (codes "ay" ∷ (codes "az" ∷ []))

abbrev pub imu_gyro_keys : List Text
imu_gyro_keys = codes "gx" ∷ (codes "gy" ∷ (codes "gz" ∷ []))

unfoldable pub has : Text → List Text → Bool
unfolding same_text
has key [] = false
has key (k ∷ ks) = same_text k key || has key ks

-- `set.add(key)`
unfoldable pub add : Text → List Text → List Text
unfolding has
add key keys = if has key keys then keys else keys ++ key ∷ []

-- the order of `sort()`, by code units
unfoldable pub text_less : Text → Text → Bool
text_less s [] = false
text_less [] (d ∷ t) = true
text_less (c ∷ s) (d ∷ t) = ltb c d || ((c == d) && text_less s t)

unfoldable pub insert_sorted : Text → List Text → List Text
unfolding text_less
insert_sorted key [] = key ∷ []
insert_sorted key (k ∷ ks) =
    let rest = k ∷ insert_sorted key ks in if text_less k key then rest else key ∷ (k ∷ ks)

unfoldable pub sort : List Text → List Text
unfolding insert_sorted
sort [] = []
sort (k ∷ ks) = insert_sorted k (sort ks)

-- every key of a set
unfoldable pub has_all : List Text → List Text → Bool
unfolding has
has_all [] seen = true
has_all (key ∷ keys) seen = has key seen && has_all keys seen

-- What the loop over the frames gathers.
pub record Seen (F : Type 0) : Type 0 where
  pub numeric_keys : List Text
  pub accel : List Text
  pub gyro : List Text
  pub servo : List F
  pub motor : List F

pub data Diagnosis : Type 0 where
  no_telemetry_frames telemetry_present_but_no_imu_fields imu_telemetry_detected : Diagnosis

pub record FramePreview (F : Type 0) : Type 0 where
  pub ts : Option (Json F)
  pub raw : Text
  pub parsed : Entries F

pub record Summary (F : Type 0) : Type 0 where
  pub frame_count : ℕ
  pub buffered_count : ℕ
  pub observed_numeric_keys : List Text
  pub imu_detected : Bool
  pub accel_detected : Bool
  pub gyro_detected : Bool
  pub servo_samples : ℕ
  pub servo_last : Option F
  pub servo_range : Option F
  pub servo_moving : Option Bool
  pub motor_samples : ℕ
  pub motor_last : Option F
  pub motor_range : Option F
  pub latest : Option (FramePreview F)
  pub diagnosis : Diagnosis

-- the three diagnoses, by whether there are frames and IMU fields
abbrev pub diagnose : {A : Type 0} → List A → Bool → Diagnosis
diagnose [] imu = no_telemetry_frames
diagnose (x ∷ xs) imu = if imu then imu_telemetry_detected else telemetry_present_but_no_imu_fields

abbrev pub next_step : Diagnosis → Text
next_step no_telemetry_frames =
    codes "Call serial_connect, then ensure firmware emits telemetry lines over serial."
next_step telemetry_present_but_no_imu_fields =
    codes "Firmware is streaming, but no ax/ay/az(/gx/gy/gz) fields were seen. "
    ++ codes "Enable IMU output in firmware (for example IMU_ON / TELEMETRY_ON)."
next_step imu_telemetry_detected = codes "IMU telemetry is flowing."

abbrev pub new_seen : {F : Type 0} → Seen F
new_seen = record { numeric_keys = []; accel = []; gyro = []; servo = []; motor = [] }

abbrev pub push_some : {A : Type 0} → Option A → List A → List A
push_some none xs = xs
push_some (some x) xs = xs ++ x ∷ []

module _ {F : Type 0} where
  abbrev pub is_scalar : Json F → Bool
  is_scalar (num x) = true
  is_scalar (str s) = true
  is_scalar (bool b) = true
  is_scalar _ = false

  -- the first `n` entries with a scalar
  unfoldable pub take_scalars : ℕ → Entries F → Entries F
  take_scalars zero fields = []
  take_scalars (suc n) [] = []
  take_scalars (suc n) ((key, value) ∷ fields) =
      let kept = (key, value) ∷ take_scalars n fields in
      let passed = take_scalars (suc n) fields in if is_scalar value then kept else passed

  -- `value ?? ...`
  abbrev pub not_null : Option (Json F) → Option (Json F)
  not_null (some null) = none
  not_null v = v

module _ (N : Number) (number_of : Text → N.F) (to_lower_case : Text → Text)
    (string_of : Json (N.F) → Text) where
  open N use {F, lt, of_int}

  unfoldable pub build_frame_preview : TelemetryFrame F → FramePreview F
  unfolding take_scalars get_field
  build_frame_preview frame =
      let raw : Text = elim (not_null (get_field (codes "raw") frame)) [
        | none ↦ []
        | some value ↦ string_of value
      ] in
      record {
        ts =
            or_some (not_null (get_field (codes "ts") frame))
              (not_null (get_field (codes "timestamp") frame));
        raw = take 160 raw;
        parsed = take_scalars 10 (get_parsed_record N number_of frame);
      }

  -- the numeric keys of the parsed fields of a frame
  unfoldable pub add_numeric : Entries F → List Text → List Text
  unfolding add
  add_numeric [] keys = keys
  add_numeric ((key, value) ∷ fields) keys = add_numeric fields (
      if is_some (as_finite_number N number_of (some value))
      then add (to_lower_case key) keys
      else keys)

  -- those of the given keys that a frame has a reading of
  unfoldable pub add_read : List Text → TelemetryFrame F → List Text → List Text
  unfolding add read_numeric_field
  add_read [] frame seen = seen
  add_read (key ∷ keys) frame seen =
      add_read keys frame
        (if is_some (read_numeric_field N number_of frame key) then add key seen else seen)

  unfoldable pub see : Seen F → TelemetryFrame F → Seen F
  unfolding add_numeric add_read read_numeric_field
  see seen frame = record {
    numeric_keys = add_numeric (get_parsed_record N number_of frame) seen.numeric_keys;
    accel = add_read imu_accel_keys frame seen.accel;
    gyro = add_read imu_gyro_keys frame seen.gyro;
    servo = push_some (read_numeric_field N number_of frame (codes "servo")) seen.servo;
    motor = push_some (read_numeric_field N number_of frame (codes "motor_pwm")) seen.motor;
  }

  unfoldable pub see_all : List (TelemetryFrame F) → Seen F → Seen F
  unfolding see
  see_all [] seen = seen
  see_all (frame ∷ frames) seen = see_all frames (see seen frame)

  -- `servoRange > 2`
  abbrev pub is_moving : Option F → Option Bool
  is_moving none = none
  is_moving (some range) = some (lt (of_int (pos 2)) range)

  abbrev pub preview_of : Option (TelemetryFrame F) → Option (FramePreview F)
  preview_of none = none
  preview_of (some frame) = some (build_frame_preview frame)

  unfoldable pub summarize_telemetry_frames : List (TelemetryFrame F) → ℕ → Summary F
  unfolding see_all has_all sort range_of build_frame_preview
  summarize_telemetry_frames frames buffered_count =
      let seen = see_all frames new_seen in
      let accel_detected = has_all imu_accel_keys seen.accel in
      let gyro_detected = has_all imu_gyro_keys seen.gyro in
      let imu_detected = accel_detected || gyro_detected in
      let servo_range = range_of N number_of seen.servo in
      record {
        frame_count = length frames;
        buffered_count = buffered_count;
        observed_numeric_keys = sort seen.numeric_keys;
        imu_detected = imu_detected;
        accel_detected = accel_detected;
        gyro_detected = gyro_detected;
        servo_samples = length seen.servo;
        servo_last = last? seen.servo;
        servo_range = servo_range;
        servo_moving = is_moving servo_range;
        motor_samples = length seen.motor;
        motor_last = last? seen.motor;
        motor_range = range_of N number_of seen.motor;
        latest = preview_of (last? frames);
        diagnosis = diagnose frames imu_detected;
      }
