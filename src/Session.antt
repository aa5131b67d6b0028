-- ===== src/Session.antt =====
-- The state that index.ts keeps of its bridge, and the attaching of its two channels:
-- `attachAdapterChannels`, `markNewBridgeSession` and the commands to the runtime. The clients and
-- the launchers are numbered in the order in which they are made; what they do, the two channels'
-- connections included, is the record `World`.
pub mod Connect
pub mod Ensure
pub mod Alone
pub mod Channels
pub mod Connecting
pub mod Coherent
pub mod Counters
pub mod Tools
mod Tests
use openclaw_serial_adapter.Prelude.{
  ℕ, suc, Bool, true, false, ◌+◌, ◌&&◌, Option, none, some, List, [], ◌∷◌, ◌++◌, if◌then◌else◌,
  or_else, ◌⊎◌,
}
use openclaw_serial_adapter.Prelude.Int.{clamp_ℕ}
use openclaw_serial_adapter.Number.{Number}
use openclaw_serial_adapter.Text.{Text, codes}
use openclaw_serial_adapter.Json.{Json, str, Entries}
use openclaw_serial_adapter.Runtime.{extract_runtime_status, extract_runtime_capabilities}

-- `PluginConfig`, as far as the session reads it.
pub record PluginConfig (F : Type 0) : Type 0 where
  pub serial_port : Option Text
  pub baudrate : Option F
  pub telemetry_port : Option ℕ
  pub control_port : Option ℕ
  pub host : Option Text
  pub auto_detect_serial_port : Option Bool
  pub port_hints : Option (List Text)
  pub tool_auto_connect : Option Bool
  pub auto_resume_on_use : Option Bool
  pub bridge_ack_timeout_ms : Option F

pub record ReadyMessage : Type 0 where
  pub telemetry_port : ℕ
  pub control_port : ℕ
  pub pid : ℕ

-- What other calls of the module do to its variables while one waits: they drop both clients, mark a
-- new session, make clients or launchers, put two clients in place, or set the launcher.
pub data Stretch : Type 0 where
  drops marks : Stretch
  makes : ℕ → Stretch
  installs : ℕ → ℕ → Stretch
  launches : Option ℕ → Stretch

-- What lies outside: `W` is its state. An operation that may reject gives the message of its error.
pub record World (W F : Type 0) : Type 0 where
  -- `isConnected()` of a client, `connect(host, port)` of each kind and `disconnect()`
  pub is_open : ℕ → W → Bool
  pub connect_telemetry : ℕ → Text → ℕ → W → Option Text × W
  pub connect_control : ℕ → Text → ℕ → W → Option Text × W
  pub close : ℕ → W → W
  -- `sendCommandWithAck(command, timeout)` of a control client, with none where it rejects
  pub ask : ℕ → Entries F → ℕ → W → Option (Json F) × W
  -- the methods of a launcher, and the devices of `getLastProbePorts()`
  pub start : ℕ → PluginConfig F → W → (Text ⊎ ReadyMessage) × W
  pub stop : ℕ → W → W
  pub is_running : ℕ → W → Bool
  pub ready_message : ℕ → W → Option ReadyMessage
  pub resolved_port : ℕ → W → Option Text
  pub probed_ports : ℕ → W → List Text
  -- the devices of `listSerialPorts(config)`, with none where it rejects
  pub list_ports : PluginConfig F → W → Option (List Text) × W
  -- `Date.now()`
  pub now : W → ℕ
  -- what other calls do while a call waits for one of the operations above, which has ended in the
  -- state given
  pub meanwhile : W → List Stretch

-- The variables of the module; `made` counts the clients and launchers made.
pub record Session (W : Type 0) : Type 0 where
  pub world : W
  pub made : ℕ
  pub telemetry : Option ℕ
  pub control : Option ℕ
  pub launcher : Option ℕ
  pub session_id : ℕ
  pub started_at_ms : Option ℕ
  pub reconnect_count : ℕ

abbrev pub new_session : {W : Type 0} → W → Session W
new_session world = record {
  world = world;
  made = 0;
  telemetry = none;
  control = none;
  launcher = none;
  session_id = 0;
  started_at_ms = none;
  reconnect_count = 0;
}

-- `getBridgeSessionState`: the number, the start and the count of reconnects
abbrev pub SessionState : Type 0
SessionState = ℕ × Option ℕ × ℕ

abbrev pub get_bridge_session_state : {W : Type 0} → Session W → SessionState
get_bridge_session_state s = (s.session_id, s.started_at_ms, s.reconnect_count)

module _ (N : Number) where
  open N use {F, is_finite, floor}

  unfoldable pub resolve_ack_timeout_ms : PluginConfig F → ℕ
  resolve_ack_timeout_ms config = elim config.bridge_ack_timeout_ms [
    | none ↦ 1200
    | some x ↦ if is_finite x then clamp_ℕ 100 5000 (floor x) else 1200
  ]

module _ {W F : Type 0} (world : World W F) where
  -- `client?.isConnected()`
  abbrev pub opened : Option ℕ → W → Bool
  opened none w = false
  opened (some i) w = world.is_open i w

  unfoldable pub is_bridge_connected : Session W → Bool
  is_bridge_connected s = opened s.telemetry s.world && opened s.control s.world

  unfoldable pub mark_new_bridge_session : Session W → Session W
  mark_new_bridge_session s = record s {
    session_id = s.session_id + 1;
    reconnect_count = s.reconnect_count + 1;
    started_at_ms = some (world.now s.world);
  }

  -- `client?.disconnect()`
  abbrev pub release : Option ℕ → W → W
  release none w = w
  release (some i) w = world.close i w

  -- both clients are disconnected and forgotten
  unfoldable pub drop_clients : Session W → Session W
  drop_clients s = record s {
    world = release s.control (release s.telemetry s.world);
    telemetry = none;
    control = none;
  }

  unfoldable pub stretch : Stretch → Session W → Session W
  unfolding drop_clients mark_new_bridge_session
  stretch drops s = drop_clients s
  stretch marks s = mark_new_bridge_session s
  stretch (makes n) s = record s { made = s.made + n }
  stretch (installs t c) s = record s { telemetry = some t; control = some c }
  stretch (launches l) s = record s { launcher = l }

  unfoldable pub stretches : List Stretch → Session W → Session W
  unfolding stretch
  stretches [] s = s
  stretches (x ∷ xs) s = stretches xs (stretch x s)

  -- an `await` that ends in the given state of the world
  unfoldable pub await : W → Session W → Session W
  unfolding stretches
  await w s = stretches (world.meanwhile w) (record s { world = w })

  abbrev pub reattach_failed : Text → Text
  reattach_failed message =
      codes "Adapter subprocess is running, but channel re-attach failed." ++ codes " " ++ message

  -- the new clients are `t` and `c`; the first argument is what the connecting came to
  unfoldable pub after_control : ℕ → ℕ → Option Text × W → Session W → Option Text × Session W
  unfolding await
  after_control t c (none, w) s =
      (none, record (await w s) { telemetry = some t; control = some c })
  after_control t c (some message, w) s =
      let waited = await w s in
      (
        some (reattach_failed message),
        record waited { world = world.close c (world.close t waited.world) },
      )

  unfoldable pub after_telemetry :
      ℕ → ℕ → Text → ℕ → Option Text × W → Session W → Option Text × Session W
  unfolding after_control await
  after_telemetry t c host port (none, w) s =
      let waited = await w s in
      after_control t c (world.connect_control c host port waited.world) waited
  after_telemetry t c host port (some message, w) s =
      let waited = await w s in
      (
        some (reattach_failed message),
        record waited { world = world.close c (world.close t waited.world) },
      )

  -- the clients' numbers are the next two
  unfoldable pub attach_adapter_channels :
      PluginConfig F → ℕ → ℕ → Session W → Option Text × Session W
  unfolding drop_clients after_telemetry
  attach_adapter_channels config telemetry_port control_port s =
      let host = or_else config.host (codes "127.0.0.1") in
      let cleared : Session W = record (drop_clients s) { made = suc (suc s.made) } in
      after_telemetry s.made (suc s.made) host control_port
        (world.connect_telemetry s.made host telemetry_port cleared.world) cleared

module _ (N : Number) {W : Type 0} (world : World W (N.F)) where
  open N use {F}

  unfoldable pub ask_control :
      Option ℕ → Entries F → PluginConfig F → Session W → Option (Json F) × Session W
  unfolding resolve_ack_timeout_ms await
  ask_control none command config s = (none, s)
  ask_control (some c) command config s =
      let (ack, w) = world.ask c command (resolve_ack_timeout_ms N config) s.world in
      (ack, await world w s)

  unfoldable pub send_runtime_command_with_ack :
      Entries F → PluginConfig F → Session W → Option (Json F) × Session W
  unfolding ask_control
  send_runtime_command_with_ack command config s = ask_control s.control command config s

  abbrev pub adapter_cmd : Text → Entries F
  adapter_cmd name = (codes "__adapter_cmd", str name) ∷ []

  unfoldable pub request_runtime_status :
      PluginConfig F → Session W → Option (Entries F) × Session W
  unfolding send_runtime_command_with_ack
  request_runtime_status config s =
      let (ack, t) = send_runtime_command_with_ack (adapter_cmd (codes "status")) config s in
      (extract_runtime_status ack, t)

  unfoldable pub request_runtime_capabilities :
      PluginConfig F → Session W → Option (Entries F) × Session W
  unfolding send_runtime_command_with_ack
  request_runtime_capabilities config s =
      let (ack, t) = send_runtime_command_with_ack (adapter_cmd (codes "capabilities")) config s in
      (extract_runtime_capabilities ack, t)
