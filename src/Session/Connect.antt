-- ===== src/Session/Connect.antt =====
-- `tryAttachExistingBridge`, `connectAdapter` and `disconnectAdapter` of index.ts.
use openclaw_serial_adapter.Prelude.{
  ℕ, suc, Bool, true, false, ◌&&◌, ◌||◌, not, Option, none, some, List, [], ◌∷◌, ◌++◌,
  if◌then◌else◌, or_else, or_some, is_some, ◌⊎◌, inl, inr,
}
use openclaw_serial_adapter.Prelude.Int.{pos}
use openclaw_serial_adapter.Number.{Number}
use openclaw_serial_adapter.Text.{Text, codes, trim, is_empty, same_text}
use openclaw_serial_adapter.Json.{Json, null, bool, num, str, arr, obj, Entries}
use openclaw_serial_adapter.Runtime.{key_of, extract_serial_port, resolve_known_serial_port}
use openclaw_serial_adapter.Frame.{get_field}
use openclaw_serial_adapter.Session.{
  PluginConfig, ReadyMessage, World, Session, SessionState, get_bridge_session_state,
  mark_new_bridge_session, drop_clients, attach_adapter_channels, request_runtime_status,
  request_runtime_capabilities, await,
}

-- What `tryAttachExistingBridge` answers.
pub record ExistingBridge (F : Type 0) : Type 0 where
  pub attached : Bool
  pub runtime_status : Option (Entries F)
  pub serial_port : Option Text

-- What `connectAdapter` answers; `attached_existing` is its `bridge_mode`.
pub record Connected (F : Type 0) : Type 0 where
  pub attached_existing : Bool
  pub serial_port : Option Text
  pub serial_ports_available : List Text
  pub telemetry_port : ℕ
  pub control_port : ℕ
  pub pid : Option ℕ
  pub runtime_status : Option (Entries F)
  pub bridge_session : SessionState

abbrev pub not_attached : {F : Type 0} → ExistingBridge F
not_attached = record { attached = false; runtime_status = none; serial_port = none }

unfoldable pub has_device : Text → List Text → Bool
unfolding same_text
has_device device [] = false
has_device device (d ∷ ds) = same_text d device || has_device device ds

-- `[resolvedPort, ...availablePorts]` where the port is not among them
unfoldable pub put_first : Option Text → List Text → List Text
unfolding has_device
put_first none ports = ports
put_first (some port) ports = if is_empty port || has_device port ports then ports else port ∷ ports

module _ (N : Number) where
  open N use {F, lt, of_int}

  -- `Boolean(v)`
  unfoldable pub truthy : Option (Json F) → Bool
  truthy none = false
  truthy (some null) = false
  truthy (some (bool b)) = b
  truthy (some (num x)) = lt x (of_int (pos 0)) || lt (of_int (pos 0)) x
  truthy (some (str s)) = not (is_empty s)
  truthy (some (arr xs)) = true
  truthy (some (obj o)) = true

  unfoldable pub looks_like_adapter : Option (Entries F) → Option (Entries F) → Bool
  unfolding truthy get_field
  looks_like_adapter capabilities status =
      truthy (key_of (codes "runtime_protocol_version") capabilities)
      || (is_some (key_of (codes "serial_connected") status)
          && is_some (key_of (codes "serial_port") status))

-- the bridge owns another port than the one that was asked for
unfoldable pub is_other_port : (Text → Text) → Option Text → Option Text → Bool
unfolding trim same_text
is_other_port to_lower_case configured none = false
is_other_port to_lower_case configured (some port) =
    let requested = trim (or_else configured []) in
    not (is_empty requested) && not (same_text (to_lower_case requested) (to_lower_case port))

module _ (N : Number) (to_lower_case : Text → Text) {W : Type 0} (world : World W (N.F)) where
  open N use {F}

  -- what a bridge to which the channels are attached says of itself
  unfoldable pub examine : PluginConfig F → Session W → ExistingBridge F × Session W
  unfolding request_runtime_capabilities request_runtime_status looks_like_adapter is_other_port
      drop_clients
  examine config s =
      let (capabilities, asked) = request_runtime_capabilities N world config s in
      let (status, t) = request_runtime_status N world config asked in
      let port = extract_serial_port status in
      let found : ExistingBridge F = record {
        attached = true;
        runtime_status = status;
        serial_port = port;
      } in
      if looks_like_adapter N capabilities status
        && not (is_other_port to_lower_case config.serial_port port)
      then (found, t)
      else (not_attached, drop_clients world t)

  unfoldable pub after_attach :
      PluginConfig F → Option Text × Session W → ExistingBridge F × Session W
  unfolding examine
  after_attach config (none, s) = examine config s
  after_attach config (some message, s) = (not_attached, s)

  unfoldable pub try_attach_existing_bridge :
      PluginConfig F → Session W → ExistingBridge F × Session W
  unfolding after_attach attach_adapter_channels
  try_attach_existing_bridge config s = after_attach config (
      attach_adapter_channels world config (or_else config.telemetry_port 9000)
        (or_else config.control_port 9001) s)

  -- `launcher?.getResolvedPort()`
  abbrev pub launched_port : Option ℕ → W → Option Text
  launched_port none w = none
  launched_port (some l) w = world.resolved_port l w

  -- the answer where a bridge was there
  unfoldable pub attached_to :
      PluginConfig F → ExistingBridge F → Session W → Connected F × Session W
  unfolding mark_new_bridge_session put_first await
  attached_to config existing s =
      let marked = mark_new_bridge_session world s in
      let (listed, w) = world.list_ports config marked.world in
      let waited = await world w marked in
      let known =
        resolve_known_serial_port (launched_port waited.launcher waited.world) config.serial_port
          existing.runtime_status in
      let port = or_some existing.serial_port known in
      (
        record {
          attached_existing = true;
          serial_port = port;
          serial_ports_available = put_first port (or_else listed []);
          telemetry_port = or_else config.telemetry_port 9000;
          control_port = or_else config.control_port 9001;
          pid = none;
          runtime_status = existing.runtime_status;
          bridge_session = get_bridge_session_state waited;
        },
        waited,
      )

  abbrev pub attachment_failed : Text → Text
  attachment_failed message =
      codes "Adapter subprocess started, but channel attachment failed." ++ codes " " ++ message

  -- a method called on `launcher` where that is null
  abbrev pub null_launcher : Text → Text
  null_launcher method = codes "Cannot read properties of null (reading '" ++ method ++ codes "')"

  -- where the attaching has rejected
  unfoldable pub give_up : Text → Option ℕ → Session W → (Text ⊎ Connected F) × Session W
  unfolding await
  give_up message none s = (inl (null_launcher (codes "stop")), s)
  give_up message (some l) s = (
    inl (attachment_failed message),
    record (await world (world.stop l s.world) s) { launcher = none },
  )

  -- the answer where a launcher was started; the last argument is what the attaching came to
  unfoldable pub after_start :
      Connected F → Option Text × Session W → (Text ⊎ Connected F) × Session W
  unfolding give_up
  after_start connected (none, s) =
      (inr (record connected { bridge_session = get_bridge_session_state s }), s)
  after_start connected (some message, s) = give_up message s.launcher s

  -- the answer where the launcher `l` is ready, but for the attaching
  abbrev pub started : ℕ → PluginConfig F → ReadyMessage → Session W → Connected F
  started l config ready s = record {
    attached_existing = false;
    serial_port = or_some (world.resolved_port l s.world) config.serial_port;
    serial_ports_available = world.probed_ports l s.world;
    telemetry_port = ready.telemetry_port;
    control_port = ready.control_port;
    pid = some ready.pid;
    runtime_status = none;
    bridge_session = get_bridge_session_state s;
  }

  -- the attaching to the launcher that is there
  unfoldable pub attach_started :
      Option ℕ → PluginConfig F → ReadyMessage → Session W → (Text ⊎ Connected F) × Session W
  unfolding attach_adapter_channels after_start
  attach_started none config ready s = (inl (null_launcher (codes "getResolvedPort")), s)
  attach_started (some l) config ready s =
      after_start (started l config ready s)
        (attach_adapter_channels world config ready.telemetry_port ready.control_port s)

  -- the second argument is what the launcher's start came to
  unfoldable pub started_as :
      PluginConfig F → Text ⊎ ReadyMessage → Session W → (Text ⊎ Connected F) × Session W
  unfolding mark_new_bridge_session attach_started
  started_as config (inl message) s = (inl message, s)
  started_as config (inr ready) s =
      let marked = mark_new_bridge_session world s in
      attach_started marked.launcher config ready marked

  -- `launcher = new PythonLauncher(config)` and what follows
  unfoldable pub start_adapter : PluginConfig F → Session W → (Text ⊎ Connected F) × Session W
  unfolding started_as await
  start_adapter config s =
      let (result, w) = world.start s.made config s.world in
      started_as config result
        (await world w (record s { made = suc s.made; launcher = some s.made }))

  unfoldable pub connect_adapter : PluginConfig F → Session W → (Text ⊎ Connected F) × Session W
  unfolding try_attach_existing_bridge attached_to start_adapter
  connect_adapter config s =
      let (existing, t) = try_attach_existing_bridge config s in
      let (connected, u) = attached_to config existing t in
      if existing.attached then (inr connected, u) else start_adapter config t

  -- `launcher?.stop()`
  abbrev pub halt : Option ℕ → W → W
  halt none w = w
  halt (some l) w = world.stop l w

  unfoldable pub disconnect_adapter : Session W → Session W
  unfolding drop_clients await
  disconnect_adapter s =
      let dropped = drop_clients world s in
      record (await world (halt dropped.launcher dropped.world) dropped) { launcher = none }
