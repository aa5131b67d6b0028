-- ===== src/ControlPlane.antt =====
-- plugins/openclaw_ts_bridge/control_plane.js: `validateCommand`, and the line protocol that
-- `startControlPlane` speaks on its input. `JSON.parse`, `applyCommand` and `getState` are
-- parameters; a value or an error goes with what they do.
pub mod Chunks
mod Tests
use openclaw_serial_adapter.Prelude.{
  ℕ, Bool, true, false, ◌&&◌, not, Option, none, some, List, [], ◌∷◌, ◌++◌, ◌==◌, if◌then◌else◌,
  is_some,
}
use openclaw_serial_adapter.Prelude.Int.{pos}
use openclaw_serial_adapter.Number.{Number}
use openclaw_serial_adapter.Text.{Text, codes, trim, is_empty, same_text}
use openclaw_serial_adapter.Json.{
  Json, null, bool, num, str, arr, obj, Items, nil, cons, Entries, entries,
}
use openclaw_serial_adapter.Frame.{get_field}

pub data CommandName : Type 0 where
  enable_block disable_block set_param set_keys set_window set_interval_ms : CommandName
  set_profile save_state load_state set_autosave : CommandName

-- The errors of `validateCommand`.
pub data CommandError : Type 0 where
  not_an_object missing_cmd bad_block_name bad_key value_required bad_keys : CommandError
  bad_window bad_interval_ms bad_profile bad_path bad_enabled : CommandError
  unsupported : Text → CommandError

abbrev pub command_names : List (Text × CommandName)
command_names =
    (codes "enable_block", enable_block)
    ∷ (codes "disable_block", disable_block)
    ∷ (codes "set_param", set_param)
    ∷ (codes "set_keys", set_keys)
    ∷ (codes "set_window", set_window)
    ∷ (codes "set_interval_ms", set_interval_ms)
    ∷ (codes "set_profile", set_profile)
    ∷ (codes "save_state", save_state)
    ∷ (codes "load_state", load_state)
    ∷ (codes "set_autosave", set_autosave)
    ∷ []

-- `typeof value === "string" && value.trim()`
unfoldable pub is_filled : {F : Type 0} → Option (Json F) → Bool
unfolding trim
is_filled (some (str s)) = not (is_empty (trim s))
is_filled _ = false

-- `normalizeKeys(keys) !== null`: one of the items is a string that is not blank
unfoldable pub has_key : {F : Type 0} → Items F → Bool
unfolding is_filled
has_key nil = false
has_key (cons v vs) = let later = has_key vs in if is_filled (some v) then true else later

abbrev pub are_keys : {F : Type 0} → Option (Json F) → Bool
are_keys (some (arr keys)) = has_key keys
are_keys _ = false

abbrev pub is_boolean : {F : Type 0} → Option (Json F) → Bool
is_boolean (some (bool b)) = true
is_boolean _ = false

abbrev pub unless : Bool → CommandError → Option CommandError
unless true error = none
unless false error = some error

-- the first error of two tests
abbrev pub then_unless : Option CommandError → Bool → CommandError → Option CommandError
then_unless none test error = unless test error
then_unless (some first) test error = some first

module _ (N : Number) where
  open N use {F, is_finite, lt, of_int, floor}

  -- `Number.isInteger(x)`
  abbrev pub is_integer : F → Bool
  is_integer x = is_finite x && not (lt (of_int (floor x)) x)

  -- an integer of at least `least`
  abbrev pub is_count : ℕ → Option (Json F) → Bool
  is_count least (some (num x)) = is_integer x && not (lt x (of_int (pos least)))
  is_count least _ = false

  abbrev pub is_path : Option (Json F) → Bool
  is_path none = true
  is_path (some path) = is_filled (some path)

  -- the cases of the `switch`; `none` is `{ ok: true }`
  unfoldable pub validate_fields : CommandName → Entries F → Option CommandError
  unfolding get_field is_filled has_key
  validate_fields enable_block o =
      unless (is_filled (get_field (codes "block_name") o)) bad_block_name
  validate_fields disable_block o =
      unless (is_filled (get_field (codes "block_name") o)) bad_block_name
  validate_fields set_param o =
      let named = unless (is_filled (get_field (codes "block_name") o)) bad_block_name in
      let keyed = then_unless named (is_filled (get_field (codes "key") o)) bad_key in
      then_unless keyed (is_some (get_field (codes "value") o)) value_required
  validate_fields set_keys o = unless (are_keys (get_field (codes "keys") o)) bad_keys
  validate_fields set_window o = unless (is_count 1 (get_field (codes "window") o)) bad_window
  validate_fields set_interval_ms o =
      unless (is_count 100 (get_field (codes "interval_ms") o)) bad_interval_ms
  validate_fields set_profile o = unless (is_filled (get_field (codes "profile") o)) bad_profile
  validate_fields save_state o = unless (is_path (get_field (codes "path") o)) bad_path
  validate_fields load_state o = unless (is_path (get_field (codes "path") o)) bad_path
  validate_fields set_autosave o = unless (is_boolean (get_field (codes "enabled") o)) bad_enabled

  abbrev pub validate_named : Text → Option CommandName → Entries F → Option CommandError
  validate_named cmd none o = some (unsupported cmd)
  validate_named cmd (some name) o = validate_fields name o

  -- by `command.cmd`
  unfoldable pub validate_cmd : Option (Json F) → Entries F → Option CommandError
  unfolding validate_fields get_field
  validate_cmd (some (str cmd)) o = validate_named cmd (get_field cmd command_names) o
  validate_cmd _ o = some missing_cmd

  unfoldable pub validate_command : Json F → Option CommandError
  unfolding validate_cmd get_field
  validate_command (obj o) = validate_cmd (get_field (codes "cmd") (entries o)) (entries o)
  validate_command _ = some not_an_object

-- What `JSON.parse` and `applyCommand` come to: a value, or what they throw.
pub data Tried (A : Type 0) : Type 0 where
  done : A → Tried A
  threw : Text → Tried A

-- The lines that `writeAck` writes. `cmd` is `parsed?.cmd`.
pub data Ack (F : Type 0) : Type 0 where
  invalid_json : Text → Ack F
  rejected : Option (Json F) → CommandError → Ack F
  applied : Option (Json F) → Json F → Json F → Ack F
  apply_failed : Option (Json F) → Text → Json F → Ack F

-- a code unit in front of the lines of a text, where it ends a line or not
abbrev pub put_unit : Bool → ℕ → List Text × Text → List Text × Text
put_unit true c (lines, rest) = ([] ∷ lines, rest)
put_unit false c ([], rest) = ([], c ∷ rest)
put_unit false c (line ∷ lines, rest) = ((c ∷ line) ∷ lines, rest)

-- The lines that end in the text, each without its end, and what follows the last end.
unfoldable pub take_lines : Text → List Text × Text
take_lines [] = ([], [])
take_lines (c ∷ s) = put_unit (c == 10) c (take_lines s)

-- The state: `buffer`, what was written, and the state `app` that `applyCommand` works on.
pub record Plane (F S : Type 0) : Type 0 where
  pub buffer : Text
  pub acks : List (Ack F)
  pub app : S

module _ (N : Number) {S : Type 0} (parse : Text → Tried (Json N.F))
    (apply_command : Json N.F → S → S × Tried (Json N.F)) (get_state : S → Json N.F) where
  open N use {F}

  abbrev pub cmd_of : Json F → Option (Json F)
  cmd_of (obj o) = get_field (codes "cmd") (entries o)
  cmd_of _ = none

  abbrev pub write_ack : Ack F → Plane F S → Plane F S
  write_ack ack p = record p { acks = p.acks ++ ack ∷ [] }

  -- what comes of `applyCommand`
  abbrev pub write_result : Json F → S × Tried (Json F) → Plane F S → Plane F S
  write_result parsed (app, done value) p =
      write_ack (applied (cmd_of parsed) value (get_state app)) (record p { app = app })
  write_result parsed (app, threw detail) p =
      write_ack (apply_failed (cmd_of parsed) detail (get_state app)) (record p { app = app })

  abbrev pub answer : Option CommandError → Json F → Plane F S → Plane F S
  answer (some error) parsed p = write_ack (rejected (cmd_of parsed) error) p
  answer none parsed p = write_result parsed (apply_command parsed p.app) p

  -- what comes of `JSON.parse`
  unfoldable pub on_parsed : Tried (Json F) → Plane F S → Plane F S
  unfolding validate_command
  on_parsed (threw detail) p = write_ack (invalid_json detail) p
  on_parsed (done parsed) p = answer (validate_command N parsed) parsed p

  -- the body of the loop, for one line
  unfoldable pub on_line : Text → Plane F S → Plane F S
  unfolding on_parsed trim
  on_line line p =
      let raw_line = trim line in if is_empty raw_line then p else on_parsed (parse raw_line) p

  unfoldable pub on_lines : List Text → Plane F S → Plane F S
  unfolding on_line
  on_lines [] p = p
  on_lines (line ∷ lines) p = on_lines lines (on_line line p)

  -- `onData`: the loop handles the lines that end in the buffer and keeps what follows
  unfoldable pub on_data : Text → Plane F S → Plane F S
  unfolding take_lines on_lines
  on_data chunk p =
      let (lines, rest) = take_lines (p.buffer ++ chunk) in
      record (on_lines lines p) { buffer = rest }
