-- ===== src/Launcher.antt =====
-- `PythonLauncher` of src/launcher.ts: the Python processes that it starts, and what their output,
-- their exits and the timers do to it. The state holds the fields of the class and every process
-- that was spawned; a process is named by its place in the list.
pub mod Starting
pub mod Settling
pub mod Later
pub mod Exits
mod Tests
use openclaw_serial_adapter.Prelude.{
  ℕ, zero, suc, Bool, true, false, ◌&&◌, not, Option, none, some, List, [], ◌∷◌, ◌++◌, length, ltb,
  if◌then◌else◌, is_some, or_else, get_elem?,
}
use openclaw_serial_adapter.Text.{Text, codes, trim, is_empty, same_text}
use openclaw_serial_adapter.Json.{Json, str, obj, Entries, entries}
use openclaw_serial_adapter.Frame.{get_field}
use openclaw_serial_adapter.Ports.{SerialPortInfo}
use openclaw_serial_adapter.Prelude.Updates.{update_at}
use openclaw_serial_adapter.Startup.{
  StartError, already_running, no_port, python_missing, not_ready, classify_startup_failure, join,
  drop_empty,
}

-- How the promise of `waitForReady` settles.
pub data Ready (F : Type 0) : Type 0 where
  ready : Entries F → Ready F
  failed : StartError F → Ready F

pub data Signal : Type 0 where
  sigterm sigkill : Signal

-- A process with its `waitForReady`: every call of `resolveReady` or `rejectReady`, oldest first;
-- whether the two timers are armed; and the signals sent to it.
pub record Child (F : Type 0) : Type 0 where
  pub launch_port : Text
  pub settled : Bool
  pub outcomes : List (Ready F)
  pub ready_timer : Bool
  pub stderr : Text
  pub stdout_preview : List Text
  pub exited : Bool
  pub signals : List Signal
  pub kill_timer : Bool

pub record Launcher (F : Type 0) : Type 0 where
  pub process : Option ℕ
  pub ready_message : Option (Entries F)
  pub resolved_port : Option Text
  pub last_probe_ports : List (SerialPortInfo F)
  pub python_path_in_use : Option Text
  pub children : List (Child F)

module _ {F : Type 0} where
  abbrev pub new_launcher : Launcher F
  new_launcher = record {
    process = none;
    ready_message = none;
    resolved_port = none;
    last_probe_ports = [];
    python_path_in_use = none;
    children = [];
  }

  abbrev pub new_child : Text → Child F
  new_child launch_port = record {
    launch_port = launch_port;
    settled = false;
    outcomes = [];
    ready_timer = true;
    stderr = [];
    stdout_preview = [];
    exited = false;
    signals = [];
    kill_timer = false;
  }

  abbrev pub with_child : ℕ → (Child F → Child F) → Launcher F → Launcher F
  with_child i f l = record l { children = update_at i f l.children }

  -- `settleReject` and `settleResolve`
  unfoldable pub settle : Ready F → Child F → Child F
  settle outcome c =
      if c.settled
      then c
      else record c { settled = true; outcomes = c.outcomes ++ outcome ∷ []; ready_timer = false }

  -- the part of `start` that follows the choice of the port and of Python, where `spawn` succeeds
  unfoldable pub spawned : Text → Text → List (SerialPortInfo F) → Launcher F → Launcher F
  spawned launch_port python_path ports l = record l {
    process = some (length l.children);
    resolved_port = some launch_port;
    last_probe_ports = ports;
    python_path_in_use = some python_path;
    children = l.children ++ new_child launch_port ∷ [];
  }

  abbrev pub is_ready : Option (Json F) → Bool
  is_ready (some (str s)) = same_text s (codes "ready")
  is_ready _ = false

  -- the message that a line holds: `JSON.parse` is a parameter, none where it throws
  unfoldable pub ready_of : Option (Json F) → Option (Entries F)
  unfolding get_field same_text
  ready_of (some (obj o)) =
      if is_ready (get_field (codes "status") (entries o)) then some (entries o) else none
  ready_of _ = none

  abbrev pub preview : Text → Child F → Child F
  preview text c =
      if ltb (length c.stdout_preview) 3
      then record c { stdout_preview = c.stdout_preview ++ text ∷ [] }
      else c

  -- `resolveReady(msg)`; the code that waits for it in `start` then sets `readyMessage`
  abbrev pub on_message : ℕ → Text → Option (Entries F) → Launcher F → Launcher F
  on_message i text none l = with_child i (preview text) l
  on_message i text (some msg) l =
      record (with_child i (λ c. settle (ready msg) (preview text c)) l) {
        ready_message = some msg;
      }

  abbrev pub is_waiting : Option (Child F) → Bool
  is_waiting none = false
  is_waiting (some c) = not c.settled

  -- a line of stdout, which the reader delivers until the promise settles
  unfoldable pub on_stdout_line : (Text → Option (Json F)) → ℕ → Text → Launcher F → Launcher F
  unfolding update_at settle ready_of trim
  on_stdout_line parse i line l =
      let text = trim line in
      let read = on_message i text (ready_of (parse text)) l in
      let reads = is_waiting (get_elem? l.children i) in
      if reads && not (is_empty text) then read else l

  unfoldable pub on_stderr : ℕ → Text → Launcher F → Launcher F
  unfolding update_at
  on_stderr i chunk = with_child i (λ c. record c { stderr = c.stderr ++ chunk })

  abbrev pub python_or_default : Launcher F → Text
  python_or_default l = or_else l.python_path_in_use (codes "python3")

  unfoldable pub stop_process : Option ℕ → Launcher F → Launcher F
  unfolding update_at
  stop_process none l = l
  stop_process (some i) l =
      record (with_child i
        (λ c. record c { signals = c.signals ++ sigterm ∷ []; kill_timer = true }) l) {
          process = none;
          ready_message = none;
          resolved_port = none;
          python_path_in_use = none;
        }

  -- `stop`, up to the point where the signal is sent
  unfoldable pub stop : Launcher F → Launcher F
  unfolding stop_process
  stop l = stop_process l.process l

  -- the timer of `stop`
  unfoldable pub on_stop_timeout : ℕ → Launcher F → Launcher F
  unfolding update_at
  on_stop_timeout i = with_child i (λ c.
      if c.kill_timer
      then record c { signals = c.signals ++ sigkill ∷ []; kill_timer = false }
      else c)

  unfoldable pub expire : ℕ → Option (Child F) → Launcher F → Launcher F
  unfolding update_at settle stop
  expire i none l = l
  expire i (some c) l =
      if c.ready_timer then stop (with_child i (settle (failed (not_ready c.launch_port))) l) else l

  -- the timer of `waitForReady`, if it is armed
  unfoldable pub on_ready_timeout : ℕ → Launcher F → Launcher F
  unfolding expire
  on_ready_timeout i l = expire i (get_elem? l.children i) l

  module _ (to_lower_case : Text → Text) where
    abbrev pub failure : Text → Launcher F → Child F → Ready F
    failure details l c = failed (
        classify_startup_failure to_lower_case c.launch_port l.last_probe_ports
          (python_or_default l) details)

    -- the event "error" of the process, by whether its code is ENOENT
    unfoldable pub on_error : ℕ → Bool → Text → Launcher F → Launcher F
    unfolding update_at settle classify_startup_failure
    on_error i enoent message l =
        with_child i
          (λ c.
            settle
              (if enoent
                then failed (python_missing (python_or_default l))
                else failure message l c)
              c)
          l

    -- `detail`, or the exit code where it is empty
    abbrev pub exit_details : Text → Child F → Text
    exit_details code c =
        let detail =
          join (codes " | ")
            (drop_empty (trim c.stderr ∷ (trim (join (codes " | ") c.stdout_preview) ∷ []))) in
        if is_empty detail then codes "process exited with code " ++ code else detail

    -- the three handlers of "exit": that of `start`, then that of `waitForReady`, and that of
    -- `stop`; `code` is the exit code in digits
    unfoldable pub on_exit : ℕ → Text → Launcher F → Launcher F
    unfolding update_at settle classify_startup_failure join drop_empty trim
    on_exit i code l =
        let cleared : Launcher F = record l {
          process = none;
          ready_message = none;
          resolved_port = none;
          python_path_in_use = none;
        } in
        with_child i
          (λ c. record (settle (failure (exit_details code c) cleared c) c) {
            exited = true;
            kill_timer = false;
          })
          cleared

-- What can happen to a launcher whose starts have chosen a port and an interpreter.
pub data Event (F : Type 0) : Type 0 where
  starts : Text → Text → List (SerialPortInfo F) → Event F
  stops : Event F
  stdout_line stderr_chunk exit : ℕ → Text → Event F
  error : ℕ → Bool → Text → Event F
  ready_timeout stop_timeout : ℕ → Event F

module _ {F : Type 0} (parse : Text → Option (Json F)) (to_lower_case : Text → Text) where
  unfoldable pub step : Launcher F → Event F → Launcher F
  unfolding spawned stop on_stdout_line on_stderr on_exit on_error on_ready_timeout on_stop_timeout
  step l (starts launch_port python_path ports) = spawned launch_port python_path ports l
  step l stops = stop l
  step l (stdout_line i line) = on_stdout_line parse i line l
  step l (stderr_chunk i chunk) = on_stderr i chunk l
  step l (exit i code) = on_exit to_lower_case i code l
  step l (error i enoent message) = on_error to_lower_case i enoent message l
  step l (ready_timeout i) = on_ready_timeout i l
  step l (stop_timeout i) = on_stop_timeout i l

  unfoldable pub run : List (Event F) → Launcher F → Launcher F
  unfolding step
  run [] l = l
  run (e ∷ es) l = run es (step l e)
