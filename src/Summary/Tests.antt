-- ===== src/Summary/Tests.antt =====
-- A summary of two frames, and its theorems at them.
use openclaw_serial_adapter.Prelude.{ℕ, ◌≡◌, refl, List, [], ◌∷◌}
use openclaw_serial_adapter.Number.Natural.{natural}
use openclaw_serial_adapter.Text.{Text, codes}
use openclaw_serial_adapter.Json.{Json, num, obj, from_entries}
use openclaw_serial_adapter.Verify.{TelemetryFrame}
use openclaw_serial_adapter.Summary.{
  has, imu_accel_keys, imu_gyro_keys, imu_telemetry_detected, summarize_telemetry_frames,
}
use openclaw_serial_adapter.Summary.Keys.{IsAscending, any_lists}
use openclaw_serial_adapter.Summary.Detection.{all_read, summarize_telemetry_frames_lem}

-- No text is a number, and every letter is a small one.
abbrev number_of : Text → ℕ
number_of s = 0

abbrev lower : Text → Text
lower s = s

abbrev string_of : Json ℕ → Text
string_of j = []

abbrev frame_of : List (Text × Json ℕ) → TelemetryFrame ℕ
frame_of fields = (codes "parsed", obj (from_entries fields)) ∷ []

abbrev frames : List (TelemetryFrame ℕ)
frames =
    frame_of ((codes "servo", num 90) ∷ ((codes "ay", num 2) ∷ ((codes "ax", num 1) ∷ [])))
    ∷ frame_of ((codes "az", num 3) ∷ ((codes "ax", num 1) ∷ []))
    ∷ []

summarize_telemetry_frames_lem_example :
    let summary = summarize_telemetry_frames natural number_of lower string_of frames 2 in
    let accel = all_read natural number_of lower string_of imu_accel_keys frames in
    let gyro = all_read natural number_of lower string_of imu_gyro_keys frames in
    IsAscending summary.observed_numeric_keys
    × ((k : Text)
        → has k summary.observed_numeric_keys
          ≡ any_lists natural number_of lower string_of k frames)
    × (summary.accel_detected ≡ accel)
    × (summary.gyro_detected ≡ gyro)
    × (summary.diagnosis ≡ imu_telemetry_detected)
unfolding all_read
summarize_telemetry_frames_lem_example =
    summarize_telemetry_frames_lem natural number_of lower string_of frames 2

-- the three axes stand in two frames
detected_test :
    (summarize_telemetry_frames natural number_of lower string_of frames 2).diagnosis
    ≡ imu_telemetry_detected
unfolding summarize_telemetry_frames
detected_test = refl

keys_test :
    (summarize_telemetry_frames natural number_of lower string_of frames 2).observed_numeric_keys
    ≡ codes "ax" ∷ (codes "ay" ∷ (codes "az" ∷ (codes "servo" ∷ [])))
unfolding summarize_telemetry_frames
keys_test = refl
