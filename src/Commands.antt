-- ===== src/Commands.antt =====
-- The commands that index.ts sends: `normalizeSerialSendCommand`, `buildMotionSequence`,
-- `toControlSourceContext`, `buildControlSourceMeta`, `sendManagedRawLine`,
-- `sendManagedJsonCommand`, `sendProbeBurst`, `sendBestEffortStopSequence` and
-- `sendServoAngleBestEffort`. `JSON.parse` and `toUpperCase` are parameters.
pub mod Motion
pub mod Sequences
mod Tests
use openclaw_serial_adapter.Prelude.{
  ℕ, zero, suc, ◌+◌, ◌*◌, ◌-◌, ◌/◌, ◌%◌, Bool, true, false, ◌&&◌, ◌||◌, not, Option, none, some,
  List, [], ◌∷◌, ◌++◌, map, take, leb, ltb, ◌==◌, length, if◌then◌else◌, or_some,
}
use openclaw_serial_adapter.Prelude.Int.{ℤ, pos, negsuc, clamp_ℕ, ltb_ℤ, ◌+ℤ◌, ◌-ℤ◌}
use openclaw_serial_adapter.Number.{Number}
use openclaw_serial_adapter.Text.{Text, codes, trim, is_empty}
use openclaw_serial_adapter.Json.{Json, num, str, obj, Entries, entries, from_entries}
use openclaw_serial_adapter.Frame.{put_field}
use openclaw_serial_adapter.Control.{
  Client, Sent, ok, not_connected, empty_line, send_command, send_raw_line,
}
use openclaw_serial_adapter.Control

-- `clamp(value, min, max)` of an integer
abbrev pub clamp_ℤ : ℤ → ℤ → ℤ → ℤ
clamp_ℤ lo hi x = let low = (if ltb_ℤ lo x then x else lo) in if ltb_ℤ hi low then hi else low

-- the digits of a number before those given, where it has at most `fuel` digits
pub digits : ℕ → ℕ → Text → Text
digits zero n s = s
digits (suc fuel) n s =
    let longer = digits fuel (n / 10) ((48 + n % 10) ∷ s) in
    if ltb n 10 then (48 + n) ∷ s else longer

-- `String(n)`
unfoldable pub decimal : ℕ → Text
unfolding digits
decimal n = digits (suc n) n []

unfoldable pub decimal_ℤ : ℤ → Text
unfolding decimal
decimal_ℤ (pos n) = decimal n
decimal_ℤ (negsuc n) = 45 ∷ decimal (suc n)

pub data MotionTemplateName : Type 0 where
  slow_sway fast_jitter sweep center_stop : MotionTemplateName

module _ (N : Number) where
  open N use {F, is_nan, lt, add, sub, of_int}

  -- `Math.max(a, b)` and `Math.min(a, b)`
  unfoldable pub max_of : F → F → F
  max_of a b = if lt a b then b else if is_nan b then b else a

  unfoldable pub min_of : F → F → F
  min_of a b = if lt b a then b else if is_nan b then b else a

  -- `clamp(value, min, max)`, where the bounds are numbers
  unfoldable pub clamp : F → F → F → F
  unfolding max_of min_of
  clamp value min max = min_of max (max_of min value)

  abbrev pub pwm : F → F
  pwm value = clamp value (of_int (pos 500)) (of_int (pos 2500))

  unfoldable pub build_motion_sequence : MotionTemplateName → F → F → F → List F
  unfolding clamp
  build_motion_sequence template min max center =
      let min_pwm = pwm min in
      let max_pwm = pwm max in
      let center_pwm = pwm center in
      elim template [
        | slow_sway ↦ min_pwm ∷ (center_pwm ∷ (max_pwm ∷ (center_pwm ∷ [])))
        | fast_jitter ↦ map pwm (
            sub center_pwm (of_int (pos 120))
            ∷ (add center_pwm (of_int (pos 120))
                ∷ (sub center_pwm (of_int (pos 80))
                    ∷ (add center_pwm (of_int (pos 80)) ∷ (center_pwm ∷ [])))))
        | sweep ↦ min_pwm ∷ (max_pwm ∷ [])
        | center_stop ↦ center_pwm ∷ (of_int (pos 0) ∷ [])
      ]

-- `/^[0-9]{1,k}$/`
pub digits_up_to : ℕ → Text → Bool
digits_up_to zero s = false
digits_up_to (suc k) [] = false
digits_up_to (suc k) (c ∷ s) =
    let longer = digits_up_to k s in leb 48 c && leb c 57 && (is_empty s || longer)

-- `/^-?[0-9]{1,k}$/`
pub signed_digits : ℕ → Text → Bool
unfolding digits_up_to
signed_digits k [] = false
signed_digits k (c ∷ s) = if c == 45 then digits_up_to k s else digits_up_to k (c ∷ s)

-- one of the three shorthands: `A-?\d{1,4}`, `P-?\d{1,5}` or `-?\d{1,4}`
unfoldable pub is_shorthand : Text → Text → Bool
unfolding signed_digits
is_shorthand [] text = signed_digits 4 text
is_shorthand (c ∷ upper) text =
    (c == 65 && signed_digits 4 upper) || (c == 80 && signed_digits 5 upper) || signed_digits 4 text

abbrev pub starts_with_a_or_p : Text → Bool
starts_with_a_or_p [] = false
starts_with_a_or_p (c ∷ s) = c == 65 || c == 80

pub data CommandSource : Type 0 where
  json_object numeric_scalar json_string raw_shorthand raw_text : CommandSource

pub data NormalizedSerialCommand (F : Type 0) : Type 0 where
  json : Entries F → CommandSource → NormalizedSerialCommand F
  raw : Text → CommandSource → NormalizedSerialCommand F

module _ (N : Number) (parse : Text → Option (Json N.F)) (to_upper_case : Text → Text)
    (trunc : N.F → ℤ) where
  open N use {F, is_finite}

  -- the branch for text that is no JSON object
  unfoldable pub raw_command : Text → NormalizedSerialCommand F
  unfolding is_shorthand
  raw_command text =
      let upper = to_upper_case text in
      let shorthand = (if starts_with_a_or_p upper then upper else text) in
      if is_shorthand upper text then raw shorthand raw_shorthand else raw text raw_text

  unfoldable pub text_command : Text → NormalizedSerialCommand F
  unfolding raw_command
  text_command text = elim (parse text) [
    | some (obj o) ↦ json (entries o) json_string
    | _ ↦ raw_command text
  ]

  -- `candidate` is undefined or a value of JSON; `trunc` is `Math.trunc`, and `String` writes its
  -- value in digits, as it does below 10^21
  unfoldable pub normalize_serial_send_command :
      Option (Json F) → Option (NormalizedSerialCommand F)
  unfolding text_command decimal_ℤ trim
  normalize_serial_send_command (some (obj o)) = some (json (entries o) json_object)
  normalize_serial_send_command (some (num x)) =
      if is_finite x then some (raw (decimal_ℤ (trunc x)) numeric_scalar) else none
  normalize_serial_send_command (some (str s)) =
      let text = trim s in if is_empty text then none else some (text_command text)
  normalize_serial_send_command _ = none

pub record ControlSourceContext (F : Type 0) : Type 0 where
  pub source_id : Option Text
  pub priority : Option F
  pub lease_ms : Option F

-- `context?.field`
abbrev pub optional :
    {F A : Type 0}
    → (ControlSourceContext F → Option A)
    → Option (ControlSourceContext F)
    → Option A
optional f none = none
optional f (some c) = f c

module _ (N : Number) where
  open N use {F, is_finite, floor, of_int}

  abbrev pub source_text : Option (Json F) → Option Text
  source_text (some (str s)) = if is_empty (trim s) then none else some (trim s)
  source_text _ = none

  abbrev pub finite_value : Option (Json F) → Option F
  finite_value (some (num x)) = if is_finite x then some x else none
  finite_value _ = none

  -- a context in which nothing is given is undefined
  abbrev pub context_of : Option Text → Option F → Option F → Option (ControlSourceContext F)
  context_of none none none = none
  context_of source_id priority lease_ms =
      some (record { source_id = source_id; priority = priority; lease_ms = lease_ms })

  unfoldable pub to_control_source_context :
      Option (Json F)
      → Option (Json F)
      → Option (Json F)
      → Option (ControlSourceContext F)
      → Option (ControlSourceContext F)
  unfolding trim
  to_control_source_context source_id priority lease_ms defaults =
      context_of (or_some (source_text source_id) (optional (λ c. c.source_id) defaults))
        (or_some (finite_value priority) (optional (λ c. c.priority) defaults))
        (or_some (finite_value lease_ms) (optional (λ c. c.lease_ms) defaults))

  abbrev pub put_source_id : Option Text → Entries F → Entries F
  put_source_id none meta = meta
  put_source_id (some s) meta =
      if is_empty (trim s)
      then meta
      else put_field (codes "source_id") (str (take 64 (trim s))) meta

  -- a finite number is rounded down and clamped
  abbrev pub put_clamped : Text → ℤ → ℤ → Option F → Entries F → Entries F
  put_clamped key lo hi none meta = meta
  put_clamped key lo hi (some x) meta =
      if is_finite x then put_field key (num (of_int (clamp_ℤ lo hi (floor x)))) meta else meta

  unfoldable pub build_control_source_meta : Option (ControlSourceContext F) → Entries F
  unfolding trim put_field
  build_control_source_meta context =
      put_clamped (codes "lease_ms") (pos 200) (pos 120000) (optional (λ c. c.lease_ms) context) (
        put_clamped (codes "priority") (negsuc 99) (pos 100) (optional (λ c. c.priority) context)
          (put_source_id (optional (λ c. c.source_id) context) []))

  -- `{...o, ...meta}`
  unfoldable pub spread : Entries F → Entries F → Entries F
  unfolding put_field
  spread o [] = o
  spread o ((k, v) ∷ meta) = spread (put_field k v o) meta

-- What a row of commands does: lines, JSON commands, and pauses in between.
pub data Action (F : Type 0) : Type 0 where
  raw_line : Text → Action F
  json_command : Entries F → Action F
  pause : ℕ → Action F

abbrev pub auto_probe_sequence : List Text
auto_probe_sequence =
    codes "STATUS?" ∷ codes "IMU_ON" ∷ codes "TELEMETRY_ON" ∷ codes "STREAM_ON" ∷ codes "IMU?" ∷ []

module _ (N : Number) where
  open N use {F, is_finite, floor, of_int}

  -- one turn of the loop of `sendBestEffortStopSequence`
  unfoldable pub stop_turn : ℕ → ℕ → List (Action F)
  unfolding decimal
  stop_turn target_angle interval_ms =
      json_command ((codes "motor_pwm", num (of_int (pos 0))) ∷ [])
      ∷ json_command ((codes "target_velocity", num (of_int (pos 0))) ∷ [])
      ∷ raw_line (codes "STOP")
      ∷ raw_line (codes "SWEEP_OFF")
      ∷ raw_line (codes "CENTER")
      ∷ raw_line (decimal target_angle)
      ∷ raw_line (65 ∷ decimal target_angle)
      ∷ raw_line (codes "HOLD")
      ∷ pause interval_ms
      ∷ []

  unfoldable pub stop_turns : ℕ → ℕ → ℕ → List (Action F)
  unfolding stop_turn
  stop_turns zero target_angle interval_ms = []
  stop_turns (suc n) target_angle interval_ms =
      stop_turn target_angle interval_ms ++ stop_turns n target_angle interval_ms

  -- `sendBestEffortStopSequence`, of the rounded angle and the floors of the other two options
  unfoldable pub stop_sequence : ℤ → ℤ → ℤ → List (Action F)
  unfolding stop_turns
  stop_sequence target_angle repeats interval_ms =
      stop_turns (clamp_ℕ 1 8 repeats) (clamp_ℕ 0 180 target_angle) (clamp_ℕ 20 1000 interval_ms)

  -- `sendServoAngleBestEffort`, of the rounded angle
  unfoldable pub servo_angle_best_effort : ℤ → List (Action F)
  unfolding decimal
  servo_angle_best_effort target_angle =
      let clamped = clamp_ℕ 0 180 target_angle in
      raw_line (decimal clamped) ∷ pause 20 ∷ raw_line (65 ∷ decimal clamped) ∷ []

  abbrev pub spacing_of : Option F → ℕ
  spacing_of none = 60
  spacing_of (some ms) = if is_finite ms then clamp_ℕ 0 500 (floor ms) else 60

  -- the loop of `sendProbeBurst`
  unfoldable pub probe_lines : ℕ → List Text → List (Action F)
  probe_lines spacing_ms [] = []
  probe_lines zero (line ∷ lines) = raw_line line ∷ probe_lines zero lines
  probe_lines (suc ms) (line ∷ lines) =
      raw_line line ∷ (pause (suc ms) ∷ probe_lines (suc ms) lines)

  unfoldable pub probe_burst : Option (List Text) → Option F → List (Action F)
  unfolding probe_lines
  probe_burst (some (line ∷ lines)) spacing_ms = probe_lines (spacing_of spacing_ms) (line ∷ lines)
  probe_burst _ spacing_ms = probe_lines (spacing_of spacing_ms) auto_probe_sequence

  module _ (stringify : Json F → Text) (context : Option (ControlSourceContext F)) where
    -- `sendManagedRawLine`
    unfoldable pub send_managed_raw_line : Text → Client F → Client F × Sent (Unit {0})
    unfolding build_control_source_meta spread send_raw_line send_command
    send_managed_raw_line line c = elim (build_control_source_meta N context) [
      | [] ↦ send_raw_line line c
      | entry ∷ meta ↦
          send_command stringify
            (obj (
              from_entries (
                spread N ((codes "cmd", str (codes "raw_line")) ∷ ((codes "line", str line) ∷ []))
                  (entry ∷ meta))))
            c
    ]

    -- `sendManagedJsonCommand`
    unfoldable pub send_managed_json_command : Entries F → Client F → Client F × Sent (Unit {0})
    unfolding build_control_source_meta spread send_command
    send_managed_json_command payload c =
        send_command stringify
          (obj (from_entries (spread N payload (build_control_source_meta N context)))) c

    -- A row of commands, with `controlClient` there, up to the first that throws. While the code sleeps, events change the
    -- client; `meanwhile` says how.
    unfoldable pub perform :
        (ℕ → Client F → Client F) → List (Action F) → Client F → Client F × Sent (Unit {0})
    unfolding send_managed_raw_line send_managed_json_command
    perform meanwhile [] c = (c, ok tt)
    perform meanwhile (raw_line line ∷ actions) c =
        let (sent, result) = send_managed_raw_line line c in
        let later = perform meanwhile actions sent in
        elim result [ ok _ ↦ later | error ↦ (sent, error) ]
    perform meanwhile (json_command payload ∷ actions) c =
        let (sent, result) = send_managed_json_command payload c in
        let later = perform meanwhile actions sent in
        elim result [ ok _ ↦ later | error ↦ (sent, error) ]
    perform meanwhile (pause ms ∷ actions) c = perform meanwhile actions (meanwhile ms c)
