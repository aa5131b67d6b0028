-- ===== src/Session/Ensure.antt =====
-- `ensureBridgeReady` of index.ts with the options that it resolves, and the tool `serial_connect`.
use openclaw_serial_adapter.Prelude.{
  ℕ, Bool, true, false, ◌&&◌, not, Option, none, some, List, [], ◌∷◌, if◌then◌else◌, or_else,
  or_some, ◌⊎◌, inl, inr,
}
use openclaw_serial_adapter.Number.{Number}
use openclaw_serial_adapter.Text.{Text, codes, is_empty}
use openclaw_serial_adapter.Json.{Json, bool, Entries}
use openclaw_serial_adapter.Runtime.{key_of, resolve_known_serial_port}
use openclaw_serial_adapter.Frame.{get_field}
use openclaw_serial_adapter.Session.{
  PluginConfig, ReadyMessage, World, Session, SessionState, get_bridge_session_state,
  is_bridge_connected, attach_adapter_channels, request_runtime_status,
  send_runtime_command_with_ack, adapter_cmd,
}
use openclaw_serial_adapter.Session.Connect.{
  Connected, launched_port, null_launcher, connect_adapter, disconnect_adapter,
}

pub record BridgeEnsureOptions (F : Type 0) : Type 0 where
  pub auto_connect : Option Bool
  pub auto_resume : Option Bool
  pub port : Option Text
  pub baudrate : Option F
  pub port_hints : Option (List Text)

-- The errors, with the next step that goes with each.
pub data EnsureError : Type 0 where
  auto_connect_disabled : EnsureError
  connect_failed : Text → EnsureError
  channel_missing : EnsureError

pub record BridgeEnsureResult (F : Type 0) : Type 0 where
  pub connected : Bool
  pub auto_connected : Bool
  pub resumed : Bool
  pub serial_port : Option Text
  pub runtime_status : Option (Entries F)
  pub bridge_session : SessionState
  pub error : Option EnsureError

-- `error` and `next_step`
abbrev pub error_text : EnsureError → Text × Text
error_text auto_connect_disabled = (
  codes "Not connected and autoConnect is disabled.",
  codes "Call serial_connect or enable toolAutoConnect.",
)
error_text (connect_failed message) = (
  message,
  codes "Run serial_probe, close Arduino Serial Monitor/uploader on the same COM, then retry.",
)
error_text channel_missing = (
  codes "Adapter is not connected (missing telemetry/control channel).",
  codes "Call serial_connect and verify adapter startup logs.",
)

module _ {F : Type 0} where
  abbrev pub resolve_tool_auto_connect : PluginConfig F → Option Bool → Bool
  resolve_tool_auto_connect config override =
      or_else (or_some override config.tool_auto_connect) true

  abbrev pub resolve_auto_resume_on_use : PluginConfig F → Option Bool → Bool
  resolve_auto_resume_on_use config override =
      or_else (or_some override config.auto_resume_on_use) true

  abbrev pub build_dynamic_config : PluginConfig F → BridgeEnsureOptions F → PluginConfig F
  build_dynamic_config config options = record config {
    serial_port = or_some options.port config.serial_port;
    baudrate = or_some options.baudrate config.baudrate;
    port_hints = or_some options.port_hints config.port_hints;
    auto_detect_serial_port = some (or_else config.auto_detect_serial_port true);
  }

  -- `runtimeStatus?.serial_paused === true`
  abbrev pub is_true : Option (Json F) → Bool
  is_true (some (bool b)) = b
  is_true _ = false

  unfoldable pub is_paused : Option (Entries F) → Bool
  unfolding get_field
  is_paused status = is_true (key_of (codes "serial_paused") status)

-- What the tool `serial_connect` answers.
pub data ConnectAnswer (F : Type 0) : Type 0 where
  already_connected : Option Text → SessionState → ConnectAnswer F
  channels_reattached : Option Text → ReadyMessage → SessionState → ConnectAnswer F
  reattach_failed : Text → ConnectAnswer F
  new_connection : Connected F → ConnectAnswer F
  connect_error : Text → ConnectAnswer F

module _ (N : Number) (to_lower_case : Text → Text) {W : Type 0} (world : World W (N.F)) where
  open N use {F}

  -- how a task of connecting settles: the message that it rejects with, if it does
  abbrev pub message_of : (Text ⊎ Connected F) × Session W → Option Text × Session W
  message_of (inl message, s) = (some message, s)
  message_of (inr c, s) = (none, s)

  -- `launcher?.isRunning()`, and its ready message then
  abbrev pub running : Option ℕ → W → Bool
  running none w = false
  running (some l) w = world.is_running l w

  abbrev pub ready_now : Option ℕ → W → Option ReadyMessage
  ready_now none w = none
  ready_now (some l) w = world.ready_message l w

  unfoldable pub connect_running :
      PluginConfig F → Option ReadyMessage → Session W → Option Text × Session W
  unfolding attach_adapter_channels connect_adapter disconnect_adapter
  connect_running config (some ready) s =
      attach_adapter_channels world config ready.telemetry_port ready.control_port s
  connect_running config none s =
      message_of
        (connect_adapter N to_lower_case world config (disconnect_adapter N to_lower_case world s))

  unfoldable pub connect_task : PluginConfig F → Session W → Option Text × Session W
  unfolding connect_running connect_adapter
  connect_task config s =
      if running s.launcher s.world
      then connect_running config (ready_now s.launcher s.world) s
      else message_of (connect_adapter N to_lower_case world config s)

  abbrev pub refusal :
      PluginConfig F → EnsureError → Bool → Option Text → Session W → BridgeEnsureResult F
  refusal config error auto_connected port s = record {
    connected = false;
    auto_connected = auto_connected;
    resumed = false;
    serial_port = port;
    runtime_status = none;
    bridge_session = get_bridge_session_state s;
    error = some error;
  }

  abbrev pub known_port : PluginConfig F → Option (Entries F) → Session W → Option Text
  known_port config status s =
      resolve_known_serial_port (launched_port N to_lower_case world s.launcher s.world)
        config.serial_port status

  unfoldable pub resume : PluginConfig F → Session W → Option (Entries F) × Session W
  unfolding send_runtime_command_with_ack request_runtime_status
  resume config s =
      let (ack, t) =
        send_runtime_command_with_ack N world (adapter_cmd N world (codes "resume")) config s in
      request_runtime_status N world config t

  -- the answer, by the status of the runtime, and the resuming where it is paused
  unfoldable pub after_status :
      PluginConfig F
      → Bool
      → Bool
      → Option (Entries F) × Session W
      → BridgeEnsureResult F × Session W
  unfolding is_paused resume
  after_status config auto_resume auto_connected (status, s) =
      let resumes = auto_resume && is_paused status in
      let (last_status, t) = (if resumes then resume config s else (status, s)) in
      (
        record {
          connected = true;
          auto_connected = auto_connected;
          resumed = resumes;
          serial_port = known_port config last_status t;
          runtime_status = last_status;
          bridge_session = get_bridge_session_state t;
          error = none;
        },
        t,
      )

  unfoldable pub check_runtime :
      PluginConfig F → Bool → Bool → Session W → BridgeEnsureResult F × Session W
  unfolding request_runtime_status after_status
  check_runtime config auto_resume auto_connected s =
      after_status config auto_resume auto_connected (request_runtime_status N world config s)

  -- what follows the connecting
  unfoldable pub finish :
      PluginConfig F → Bool → Bool → Session W → BridgeEnsureResult F × Session W
  unfolding is_bridge_connected check_runtime
  finish config auto_resume auto_connected s =
      let port =
        or_some (launched_port N to_lower_case world s.launcher s.world) config.serial_port in
      if is_bridge_connected world s
      then check_runtime config auto_resume auto_connected s
      else (refusal config channel_missing auto_connected port s, s)

  unfoldable pub after_connect :
      PluginConfig F → Bool → Option Text × Session W → BridgeEnsureResult F × Session W
  unfolding finish
  after_connect config auto_resume (none, s) = finish config auto_resume true s
  after_connect config auto_resume (some message, s) =
      (refusal config (connect_failed message) false (known_port config none s) s, s)

  -- `inFlight` is what the connecting that another call has begun does until it settles
  unfoldable pub ensure_bridge_ready :
      PluginConfig F
      → BridgeEnsureOptions F
      → Option (Session W → Option Text × Session W)
      → Session W
      → BridgeEnsureResult F × Session W
  unfolding is_bridge_connected after_connect connect_task finish
  ensure_bridge_ready config options in_flight s =
      let auto_connect = resolve_tool_auto_connect config options.auto_connect in
      let auto_resume = resolve_auto_resume_on_use config options.auto_resume in
      let dynamic = build_dynamic_config config options in
      let task = or_else in_flight (connect_task dynamic) in
      let connecting =
        (if auto_connect
          then after_connect dynamic auto_resume (task s)
          else (refusal dynamic auto_connect_disabled false (known_port dynamic none s) s, s)) in
      if is_bridge_connected world s then finish dynamic auto_resume false s else connecting

  -- the answer where the channels are attached again; the launcher may be gone by then
  unfoldable pub reattached : PluginConfig F → ReadyMessage → Option ℕ → Session W → ConnectAnswer F
  reattached config ready none s =
      reattach_failed (null_launcher N to_lower_case world (codes "getResolvedPort"))
  reattached config ready (some l) s =
      let port = or_some (world.resolved_port l s.world) config.serial_port in
      channels_reattached port ready (get_bridge_session_state s)

  unfoldable pub after_reattach :
      PluginConfig F → ReadyMessage → Option Text × Session W → ConnectAnswer F × Session W
  unfolding reattached
  after_reattach config ready (none, s) = (reattached config ready s.launcher s, s)
  after_reattach config ready (some message, s) = (reattach_failed message, s)

  unfoldable pub answer_of : (Text ⊎ Connected F) × Session W → ConnectAnswer F × Session W
  answer_of (inl message, s) = (connect_error message, s)
  answer_of (inr c, s) = (new_connection c, s)

  unfoldable pub reattach :
      PluginConfig F → Option ReadyMessage → Session W → ConnectAnswer F × Session W
  unfolding after_reattach attach_adapter_channels answer_of connect_adapter disconnect_adapter
  reattach config (some ready) s =
      after_reattach config ready
        (attach_adapter_channels world config ready.telemetry_port ready.control_port s)
  reattach config none s =
      answer_of
        (connect_adapter N to_lower_case world config (disconnect_adapter N to_lower_case world s))

  -- `execute` of `serial_connect`, with the configuration that its parameters give
  unfoldable pub serial_connect : PluginConfig F → Session W → ConnectAnswer F × Session W
  unfolding is_bridge_connected reattach answer_of connect_adapter
  serial_connect config s =
      let port =
        or_some (launched_port N to_lower_case world s.launcher s.world) config.serial_port in
      let connects = answer_of (connect_adapter N to_lower_case world config s) in
      let attaches = reattach config (ready_now s.launcher s.world) s in
      let is_connected = is_bridge_connected world s in
      let runs =
        (if is_connected
          then (already_connected port (get_bridge_session_state s), s)
          else attaches) in
      if running s.launcher s.world then runs else connects

  -- `start` of the service
  unfoldable pub service_start : PluginConfig F → Session W → Session W
  unfolding connect_adapter
  service_start config s =
      let stays_idle =
        is_empty (or_else config.serial_port [])
        && not (or_else config.auto_detect_serial_port true) in
      let (result, t) = connect_adapter N to_lower_case world config s in
      if stays_idle then s else t

-- What can happen to the session: the service starts or stops, a tool connects or needs the bridge,
-- while it may have to wait for the connecting of another, or the world changes.
pub data Op (W F : Type 0) : Type 0 where
  starts connects : PluginConfig F → Op W F
  stops : Op W F
  ensures : PluginConfig F → BridgeEnsureOptions F → Option (PluginConfig F) → Op W F
  outside : (W → W) → Op W F

module _ (N : Number) (to_lower_case : Text → Text) {W : Type 0} (world : World W (N.F)) where
  open N use {F}

  abbrev pub in_flight_of : Option (PluginConfig F) → Option (Session W → Option Text × Session W)
  in_flight_of none = none
  in_flight_of (some other) = some (connect_task N to_lower_case world other)

  unfoldable pub step : Session W → Op W F → Session W
  unfolding service_start serial_connect disconnect_adapter ensure_bridge_ready connect_task
  step s (starts config) = service_start N to_lower_case world config s
  step s (connects config) = (serial_connect N to_lower_case world config s).1
  step s stops = disconnect_adapter N to_lower_case world s
  step s (ensures config options other) =
      (ensure_bridge_ready N to_lower_case world config options (in_flight_of other) s).1
  step s (outside change) = record s { world = change s.world }

  unfoldable pub run : List (Op W F) → Session W → Session W
  unfolding step
  run [] s = s
  run (op ∷ ops) s = run ops (step s op)
