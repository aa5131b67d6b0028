-- ===== src/LlmCommands.antt =====
-- plugins/openclaw_ts_bridge/llm_command_translator.js: `LlmRateLimiter`, `validateLlmCommand` and
-- `translateLlmCommand`. Times are whole milliseconds of the clock.
pub mod Rate
pub mod Translation
mod Tests
use openclaw_serial_adapter.Prelude.{
  ℕ, ◌+◌, ◌-◌, Bool, true, false, ◌&&◌, ◌||◌, not, Option, none, some, List, [], ◌∷◌, ◌++◌, ltb,
  leb, length, max, min, if◌then◌else◌,
}
use openclaw_serial_adapter.Prelude.Int.{ℤ, pos, pos_part, clamp_ℕ}
use openclaw_serial_adapter.Number.{Number}
use openclaw_serial_adapter.Text.{Text, codes, same_text}
use openclaw_serial_adapter.Json.{Json, num, str, obj, Entries, entries, from_entries}
use openclaw_serial_adapter.Frame.{get_field, finite_number}

pub record RateLimiter : Type 0 where
  pub max_commands_per_sec : ℕ
  pub timestamps : List ℕ

-- the constructor, of the floor of a finite number
abbrev pub new_limiter : ℤ → RateLimiter
new_limiter most = record { max_commands_per_sec = max 1 (pos_part most); timestamps = [] }

-- `while (timestamps.length > 0 && timestamps[0] < cutoff) timestamps.shift()`, with the cutoff
-- 1000 ms before `now`
unfoldable pub drop_old : ℕ → List ℕ → List ℕ
drop_old now [] = []
drop_old now (t ∷ ts) = let rest = drop_old now ts in if ltb (t + 1000) now then rest else t ∷ ts

abbrev pub first_or : ℕ → List ℕ → ℕ
first_or d [] = d
first_or d (t ∷ ts) = t

-- the branches of `consume`, on whether the window is full and the timestamps kept; the result is
-- none, or the time to wait
abbrev pub consume_kept : Bool → ℕ → RateLimiter → List ℕ → RateLimiter × Option ℕ
consume_kept true now l kept =
    (record l { timestamps = kept }, some (max 1 (first_or 0 kept + 1000 - now)))
consume_kept false now l kept = (record l { timestamps = kept ++ now ∷ [] }, none)

unfoldable pub consume : ℕ → RateLimiter → RateLimiter × Option ℕ
unfolding drop_old
consume now l =
    let kept = drop_old now l.timestamps in
    consume_kept (leb l.max_commands_per_sec (length kept)) now l kept

-- `state`: how many are in the window, and how many more would be let through
unfoldable pub limiter_state : ℕ → RateLimiter → RateLimiter × ℕ × ℕ
unfolding drop_old
limiter_state now l =
    let kept = drop_old now l.timestamps in
    (record l { timestamps = kept }, length kept, l.max_commands_per_sec - length kept)

pub data LlmTarget : Type 0 where
  target_velocity motor_pwm servo_pos : LlmTarget

pub data LlmError : Type 0 where
  not_an_object bad_cmd bad_target bad_value : LlmError
  not_allowlisted : LlmTarget → LlmError

abbrev pub target_name : LlmTarget → Text
target_name target_velocity = codes "target_velocity"
target_name motor_pwm = codes "motor_pwm"
target_name servo_pos = codes "servo_pos"

unfoldable pub target_of : Text → Option LlmTarget
unfolding same_text
target_of s =
    if same_text s (codes "target_velocity")
    then some target_velocity
    else (if same_text s (codes "motor_pwm")
        then some motor_pwm
        else (if same_text s (codes "servo_pos") then some servo_pos else none))

pub record LlmPolicy : Type 0 where
  pub unsafe_passthrough : Bool
  pub allow_targets : List Text
  pub max_commands_per_sec : ℕ

abbrev pub default_llm_policy : LlmPolicy
default_llm_policy = record {
  unsafe_passthrough = false;
  allow_targets = codes "target_velocity" ∷ (codes "motor_pwm" ∷ (codes "servo_pos" ∷ []));
  max_commands_per_sec = 5;
}

-- `policy.allowTargets.includes(target)`
unfoldable pub has_text : Text → List Text → Bool
unfolding same_text
has_text s [] = false
has_text s (t ∷ ts) = same_text t s || has_text s ts

-- A command that passes validation, its finite value with it.
pub data LlmCommand (F : Type 0) : Type 0 where
  stop : LlmCommand F
  set : LlmTarget → F → LlmCommand F

-- What is sent to the runtime: JSON, or a line with the servo's angle.
pub data Translated (F : Type 0) : Type 0 where
  fields : Entries F → Translated F
  angle_line : ℕ → Translated F

pub data Checked (A : Type 0) : Type 0 where
  ok : A → Checked A
  refused : LlmError → Checked A

module _ (N : Number) where
  open N use {F, is_finite, round, of_int}

  abbrev pub set_command : Option LlmTarget → Option (Json F) → Checked (LlmCommand F)
  set_command none value = refused bad_target
  set_command (some t) value = elim (finite_number N value) [
    | none ↦ refused bad_value
    | some x ↦ ok (set t x)
  ]

  abbrev pub target_field : Option (Json F) → Option LlmTarget
  target_field (some (str s)) = target_of s
  target_field _ = none

  abbrev pub command_of : Option (Json F) → Entries F → Checked (LlmCommand F)
  command_of (some (str cmd)) o =
      let set_or_error =
        (if same_text cmd (codes "set")
          then set_command (target_field (get_field (codes "target") o))
              (get_field (codes "value") o)
          else refused bad_cmd) in
      if same_text cmd (codes "stop") then ok stop else set_or_error
  command_of _ o = refused bad_cmd

  -- `validateLlmCommand`, with the command that was read
  unfoldable pub validate_llm_command : Json F → Checked (LlmCommand F)
  unfolding target_of same_text get_field
  validate_llm_command (obj o) = command_of (get_field (codes "cmd") (entries o)) (entries o)
  validate_llm_command _ = refused not_an_object

  abbrev pub set_json : LlmTarget → F → Json F
  set_json t x = obj (
      from_entries (
        (codes "cmd", str (codes "set"))
        ∷ (codes "target", str (target_name t))
        ∷ (codes "value", num x)
        ∷ []))

  -- the cases of the `switch`, with `normalized`
  unfoldable pub translate_set : LlmTarget → F → Translated F × Json F
  translate_set target_velocity x =
      (fields ((codes "target_velocity", num x) ∷ []), set_json target_velocity x)
  translate_set motor_pwm x =
      let pwm = of_int (round x) in
      (fields ((codes "motor_pwm", num pwm) ∷ []), set_json motor_pwm pwm)
  translate_set servo_pos x =
      let angle = clamp_ℕ 0 180 (round x) in
      (angle_line angle, set_json servo_pos (of_int (pos angle)))

  abbrev pub center : Translated F
  center = fields (
      (codes "servo_action", str (codes "center"))
      ∷ (codes "target_velocity", num (of_int (pos 0)))
      ∷ (codes "motor_pwm", num (of_int (pos 0)))
      ∷ [])

  unfoldable pub translate_command : LlmPolicy → LlmCommand F → Checked (Translated F × Json F)
  unfolding translate_set has_text
  translate_command policy stop =
      ok (center, obj (from_entries ((codes "cmd", str (codes "stop")) ∷ [])))
  translate_command policy (set t x) =
      if policy.unsafe_passthrough || has_text (target_name t) policy.allow_targets
      then ok (translate_set t x)
      else refused (not_allowlisted t)

  abbrev pub then_translate : LlmPolicy → Checked (LlmCommand F) → Checked (Translated F × Json F)
  then_translate policy (ok command) = translate_command policy command
  then_translate policy (refused error) = refused error

  unfoldable pub translate_llm_command : LlmPolicy → Json F → Checked (Translated F × Json F)
  unfolding validate_llm_command translate_command
  translate_llm_command policy command = then_translate policy (validate_llm_command command)
