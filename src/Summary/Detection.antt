-- ===== src/Summary/Detection.antt =====
-- What the summary of index.ts says of an inertial unit, against all frames at once.
use openclaw_serial_adapter.Prelude.{
  ℕ, Bool, true, false, ◌&&◌, ◌||◌, List, [], ◌∷◌, ◌≡◌, refl, ap, ap₂, ◌∙◌, arith, is_some,
  if◌then◌else◌, Bool-cases, inl, inr,
}
use openclaw_serial_adapter.Number.{Number}
use openclaw_serial_adapter.Text.{Text, same_text}
use openclaw_serial_adapter.Text.Laws.{same_text_sound}
use openclaw_serial_adapter.Json.{Json}
use openclaw_serial_adapter.Verify.{TelemetryFrame, read_numeric_field}
use openclaw_serial_adapter.Summary.{
  has, add, has_all, add_read, Seen, diagnose, new_seen, see, see_all, imu_accel_keys, Diagnosis,
  no_telemetry_frames, imu_telemetry_detected, telemetry_present_but_no_imu_fields, imu_gyro_keys,
  summarize_telemetry_frames,
}
use openclaw_serial_adapter.Summary.Keys.{
  IsAscending, any_lists, summarize_telemetry_frames-keys, has-if_add, or_assoc,
}

module _ (N : Number) (number_of : Text → N.F) (to_lower_case : Text → Text)
    (string_of : Json (N.F) → Text) where
  open N use {F}

  abbrev reads : Text → TelemetryFrame F → Bool
  reads key frame = is_some (read_numeric_field N number_of frame key)

  -- Some frame has a reading of the key.
  unfoldable pub any_reads : Text → List (TelemetryFrame F) → Bool
  unfolding read_numeric_field
  any_reads key [] = false
  any_reads key (frame ∷ frames) =
      is_some (read_numeric_field N number_of frame key) || any_reads key frames

  -- Each of the keys has a reading in some frame.
  unfoldable pub all_read : List Text → List (TelemetryFrame F) → Bool
  unfolding any_reads
  all_read [] frames = true
  all_read (key ∷ keys) frames = any_reads key frames && all_read keys frames

  -- what one frame adds of the keys
  hits : Text → List Text → TelemetryFrame F → Bool
  hits k [] frame = false
  hits k (y ∷ ys) frame = (reads y frame && same_text y k) || hits k ys frame

  hits-one :
      (k y : Text) (frame : TelemetryFrame F)
      → (reads y frame && same_text y k) ≡ (same_text y k && reads k frame)
  hits-one k y frame = elim (Bool-cases (same_text y k)) [
    | inl e ↦
        let same : reads y frame ≡ reads k frame =
          ap (λ z. reads z frame) (same_text_sound y k e) in
        ground (arith, e, same)
    | inr e ↦ ground (arith, e)
  ]

  hits_lem :
      (k : Text) (keys : List Text) (frame : TelemetryFrame F)
      → hits k keys frame ≡ (has k keys && reads k frame)
  unfolding hits has
  hits_lem k [] frame = refl
  hits_lem k (y ∷ ys) frame = ground (arith, hits-one k y frame, hits_lem k ys frame)

  has-add_read :
      (k : Text) (keys : List Text) (frame : TelemetryFrame F) (seen : List Text)
      → has k (add_read N number_of to_lower_case string_of keys frame seen)
        ≡ (has k seen || hits k keys frame)
  unfolding add_read hits
  has-add_read k [] frame seen = ground arith
  has-add_read k (y ∷ ys) frame seen =
      has-add_read k ys frame (if reads y frame then add y seen else seen)
      ∙ ap (λ b. b || hits k ys frame) (has-if_add k (reads y frame) y seen)
      ∙ or_assoc (has k seen) (reads y frame && same_text y k) (hits k ys frame)

  -- what all the frames add of the keys
  read_all : List Text → List (TelemetryFrame F) → List Text → List Text
  read_all keys [] seen = seen
  read_all keys (frame ∷ frames) seen =
      read_all keys frames (add_read N number_of to_lower_case string_of keys frame seen)

  has-read_all :
      (k : Text) (keys : List Text) (frames : List (TelemetryFrame F)) (seen : List Text)
      → has k keys ≡ true
      → has k (read_all keys frames seen) ≡ (has k seen || any_reads k frames)
  unfolding read_all any_reads
  has-read_all k keys [] seen h = ground arith
  has-read_all k keys (frame ∷ frames) seen h =
      let hit : hits k keys frame ≡ reads k frame =
        hits_lem k keys frame ∙ ap (λ b. b && reads k frame) h in
      has-read_all k keys frames _ h
      ∙ ap (λ b. b || any_reads k frames)
          (has-add_read k keys frame seen ∙ ap (◌||◌ (has k seen)) hit)
      ∙ or_assoc (has k seen) (reads k frame) (any_reads k frames)

  -- The keys that are among others.
  abbrev AllAmong : List Text → List Text → Type 0
  AllAmong keys [] = Unit
  AllAmong keys (k ∷ ks) = (has k keys ≡ true) × AllAmong keys ks

  has_all-read_all :
      (ks keys : List Text) (frames : List (TelemetryFrame F))
      → AllAmong keys ks
      → has_all ks (read_all keys frames []) ≡ all_read ks frames
  unfolding has_all all_read has
  has_all-read_all [] keys frames h = refl
  has_all-read_all (k ∷ ks) keys frames h =
      ap₂ ◌&&◌ (has-read_all k keys frames [] h.0) (has_all-read_all ks keys frames h.1)

  see_all-accel :
      (frames : List (TelemetryFrame F)) (seen : Seen F)
      → (see_all N number_of to_lower_case string_of frames seen).accel
        ≡ read_all imu_accel_keys frames seen.accel
  unfolding see_all see read_all
  see_all-accel [] seen = refl
  see_all-accel (frame ∷ frames) seen =
      see_all-accel frames (see N number_of to_lower_case string_of seen frame)

  see_all-gyro :
      (frames : List (TelemetryFrame F)) (seen : Seen F)
      → (see_all N number_of to_lower_case string_of frames seen).gyro
        ≡ read_all imu_gyro_keys frames seen.gyro
  unfolding see_all see read_all
  see_all-gyro [] seen = refl
  see_all-gyro (frame ∷ frames) seen =
      see_all-gyro frames (see N number_of to_lower_case string_of seen frame)

  -- The diagnosis of frames of which it is known whether a unit was detected.
  abbrev pub diagnosis_of : List (TelemetryFrame F) → Bool → Diagnosis
  diagnosis_of [] imu = no_telemetry_frames
  diagnosis_of (frame ∷ frames) true = imu_telemetry_detected
  diagnosis_of (frame ∷ frames) false = telemetry_present_but_no_imu_fields

  diagnose-diagnosis_of :
      (frames : List (TelemetryFrame F)) (imu : Bool)
      → diagnose frames imu ≡ diagnosis_of frames imu
  diagnose-diagnosis_of [] imu = refl
  diagnose-diagnosis_of (frame ∷ frames) true = refl
  diagnose-diagnosis_of (frame ∷ frames) false = refl

  detects :
      (frames : List (TelemetryFrame F)) (buffered : ℕ)
      → let summary =
          summarize_telemetry_frames N number_of to_lower_case string_of frames buffered in
        let accel = all_read imu_accel_keys frames in
        let gyro = all_read imu_gyro_keys frames in
        (summary.accel_detected ≡ accel)
        × (summary.gyro_detected ≡ gyro)
        × (summary.diagnosis ≡ diagnosis_of frames (accel || gyro))
  unfolding summarize_telemetry_frames has
  detects frames buffered =
      let accel =
        ap (has_all imu_accel_keys) (see_all-accel frames new_seen)
        ∙ has_all-read_all imu_accel_keys imu_accel_keys frames (refl, (refl, (refl, tt))) in
      let gyro =
        ap (has_all imu_gyro_keys) (see_all-gyro frames new_seen)
        ∙ has_all-read_all imu_gyro_keys imu_gyro_keys frames (refl, (refl, (refl, tt))) in
      (
        accel,
        gyro,
        diagnose-diagnosis_of frames _ ∙ ap₂ (λ a b. diagnosis_of frames (a || b)) accel gyro,
      )

  -- The summary, which looks at one frame after another, says what holds of all of them. Its numeric
  -- keys are in strictly ascending order, each once, and a key is among them exactly if some frame
  -- has a parsed field with a finite number whose name is that key in lower case. An accelerometer is
  -- detected exactly if each of its three keys has a reading in some frame, and a gyroscope likewise.
  -- The diagnosis is "no_telemetry_frames" if there are no frames, "imu_telemetry_detected" if there
  -- are and one of the two is detected, and "telemetry_present_but_no_imu_fields" otherwise.
  pub summarize_telemetry_frames_lem :
      (frames : List (TelemetryFrame F)) (buffered : ℕ)
      → let summary =
          summarize_telemetry_frames N number_of to_lower_case string_of frames buffered in
        let accel = all_read imu_accel_keys frames in
        let gyro = all_read imu_gyro_keys frames in
        IsAscending summary.observed_numeric_keys
        × ((k : Text)
            → has k summary.observed_numeric_keys
              ≡ any_lists N number_of to_lower_case string_of k frames)
        × (summary.accel_detected ≡ accel)
        × (summary.gyro_detected ≡ gyro)
        × (summary.diagnosis ≡ diagnosis_of frames (accel || gyro))
  summarize_telemetry_frames_lem frames buffered =
      let keys =
        summarize_telemetry_frames-keys N number_of to_lower_case string_of frames buffered in
      let found = detects frames buffered in (keys.0, keys.1, found.0, found.1, found.2)
