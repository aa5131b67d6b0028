-- ===== src/Startup.antt =====
-- What src/launcher.ts decides before and after it starts Python: `resolvePython`, `ensureVenv`,
-- `resolveLaunchPort`, `formatPortsForMessage` and `classifyStartupFailure`. The file system and the
-- commands that are tried are parameters, as is `toLowerCase`.
use openclaw_serial_adapter.Prelude.{
  Bool, true, false, ◌&&◌, ◌||◌, not, Option, none, some, List, [], ◌∷◌, ◌++◌, map, if◌then◌else◌,
  or_else,
}
use openclaw_serial_adapter.Text.{Text, codes, trim, is_empty, same_text, includes}
use openclaw_serial_adapter.Ports.{SerialPortInfo, choose_best_serial_port}

-- `parts.join(separator)`
unfoldable pub join : Text → List Text → Text
join separator [] = []
join separator (s ∷ []) = s
join separator (s ∷ (t ∷ parts)) = s ++ separator ++ join separator (t ∷ parts)

-- `.filter((part) => part.length > 0)`
unfoldable pub drop_empty : List Text → List Text
drop_empty [] = []
drop_empty ([] ∷ parts) = drop_empty parts
drop_empty ((c ∷ s) ∷ parts) = (c ∷ s) ∷ drop_empty parts

abbrev pub present : List (Option Text) → List Text
present [] = []
present (none ∷ ts) = present ts
present (some t ∷ ts) = t ∷ present ts

module _ {F : Type 0} where
  -- a port with its details in brackets, where it has some
  unfoldable pub format_port : SerialPortInfo F → Text
  unfolding join drop_empty
  format_port port =
      let details =
        join (codes " | ")
          (drop_empty (present (port.product ∷ port.description ∷ port.manufacturer ∷ []))) in
      if is_empty details then port.device else port.device ++ codes " (" ++ details ++ codes ")"

  unfoldable pub format_ports_for_message : List (SerialPortInfo F) → Text
  unfolding format_port join
  format_ports_for_message [] = codes "<none>"
  format_ports_for_message (port ∷ ports) = join (codes ", ") (map format_port (port ∷ ports))

-- The errors that a start is rejected with, with what their messages name.
pub data StartError (F : Type 0) : Type 0 where
  already_running no_stdout entrypoint_missing : StartError F
  probe_failed : Text → StartError F
  no_port : List (SerialPortInfo F) → StartError F
  python_missing : Text → StartError F
  pyserial_missing : Text → StartError F
  port_busy : Text → List (SerialPortInfo F) → StartError F
  startup_failed : Text → List (SerialPortInfo F) → Text → StartError F
  not_ready : Text → StartError F

unfoldable pub includes_one : Text → List Text → Bool
unfolding includes
includes_one text [] = false
includes_one text (part ∷ parts) = includes text part || includes_one text parts

module _ {F : Type 0} (to_lower_case : Text → Text) where
  unfoldable pub classify_startup_failure :
      Text → List (SerialPortInfo F) → Text → Text → StartError F
  unfolding includes_one
  classify_startup_failure launch_port ports python_path details =
      let text = to_lower_case details in
      let busy = includes_one text (
        codes "failed to open serial port"
        ∷ codes "could not open port"
        ∷ codes "access is denied"
        ∷ codes "permissionerror"
        ∷ codes "resource busy"
        ∷ codes "device or resource busy"
        ∷ []) in
      let pyserial = includes_one text (
        codes "required python package 'pyserial'"
        ∷ codes "no module named 'serial'"
        ∷ codes "no module named \"serial\""
        ∷ []) in
      let other =
        (if busy then port_busy launch_port ports else startup_failed launch_port ports details) in
      if pyserial then pyserial_missing python_path else other

-- `.endsWith(".exe")`
unfoldable pub ends_in_exe : Text → Bool
unfolding same_text
ends_in_exe [] = false
ends_in_exe (c ∷ s) = same_text (c ∷ s) (codes ".exe") || ends_in_exe s

-- The configuration of a start, as far as the choice of the port and of Python goes.
pub record StartConfig : Type 0 where
  pub python_path : Option Text
  pub serial_port : Option Text
  pub auto_detect_serial_port : Option Bool
  pub port_hints : Option (List Text)

-- `config.field?.trim()` where that is not empty
unfoldable pub trimmed : Option Text → Option Text
unfolding trim
trimmed none = none
trimmed (some s) = if is_empty (trim s) then none else some (trim s)

-- the two candidates that stand for "python3" on Windows, and those tried where none is configured
abbrev pub candidates_of : Bool → List Text
candidates_of true = codes "python" ∷ (codes "py" ∷ (codes "python3" ∷ []))
candidates_of false = codes "python3" ∷ (codes "python" ∷ [])

module _ (to_lower_case : Text → Text) where
  unfoldable pub is_likely_path : Text → Bool
  unfolding includes same_text trim ends_in_exe
  is_likely_path value =
      let text = trim value in
      not (is_empty text)
      && (includes text (codes "/")
          || includes text (codes "\\")
          || ends_in_exe (to_lower_case text))

  module _ (windows : Bool) (can_run : Text → Bool) (venv_ready : Bool) (venv_python : Text) where
    -- the first candidate that runs
    unfoldable pub first_running : List Text → Text → Text
    first_running [] default = default
    first_running (candidate ∷ candidates) default =
        let later = first_running candidates default in
        if can_run candidate then candidate else later

    unfoldable pub resolve_configured : Text → Text
    unfolding first_running is_likely_path same_text
    resolve_configured configured =
        let on_windows = first_running (codes "python" ∷ (codes "py" ∷ [])) configured in
        let is_python3 = windows && same_text (to_lower_case configured) (codes "python3") in
        if is_likely_path configured || can_run configured
        then configured
        else (if is_python3 then on_windows else configured)

    -- `resolvePython`; `venv_ready` is what `ensureVenv` returns
    unfoldable pub resolve_python : Option Text → Text
    unfolding resolve_configured first_running trimmed
    resolve_python python_path = elim (trimmed python_path) [
      | some configured ↦ resolve_configured configured
      | none ↦
          let default = (if windows then codes "python" else codes "python3") in
          if venv_ready then venv_python else first_running (candidates_of windows) default
    ]

-- `ensureVenv`, by whether the interpreter is there, whether `uv --version` and `uv sync` run, and
-- whether the interpreter is there after
unfoldable pub ensure_venv : Bool → Bool → Bool → Bool → Bool
ensure_venv there uv_runs uv_syncs there_after = there || (uv_runs && uv_syncs && there_after)

-- `resolveLaunchPort`, with the ports that were listed: none, where it does not list them
unfoldable pub resolve_launch_port :
    {F : Type 0}
    → (Text → Text)
    → StartConfig
    → List (SerialPortInfo F)
    → Option (List (SerialPortInfo F)) × Option Text
unfolding trimmed choose_best_serial_port
resolve_launch_port to_lower_case config listed =
    let chosen = choose_best_serial_port to_lower_case listed config.port_hints in
    let device : Option Text = elim chosen [ none ↦ none | some port ↦ some port.device ] in
    elim (trimmed config.serial_port) [
      | some port ↦ (none, some port)
      | none ↦
          if or_else config.auto_detect_serial_port true
          then (some listed, device)
          else (none, none)
    ]
