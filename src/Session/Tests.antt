-- ===== src/Session/Tests.antt =====
-- A world in which clients connect unless told not to, and the theorems on the session at it.
use openclaw_serial_adapter.Prelude.{ℕ, suc, ◌==◌, true, ◌≡◌, refl, none, some, List, [], ◌∷◌, inr}
use openclaw_serial_adapter.Number.Natural.{natural, natural-IsOrder}
use openclaw_serial_adapter.Text.{Text, codes}
use openclaw_serial_adapter.Json.{Json, bool, str, obj, from_entries}
use openclaw_serial_adapter.Session.{
  drops, PluginConfig, ReadyMessage, World, Session, new_session, attach_adapter_channels,
  adapter_cmd,
}
use openclaw_serial_adapter.Session.Connect.{connect_adapter}
use openclaw_serial_adapter.Session.Ensure.{
  BridgeEnsureOptions, ensure_bridge_ready, Op, starts, connects, ensures, stops, run,
}
use openclaw_serial_adapter.Session.Tools.{
  ArbitrationParams, serial_pause, serial_yield, serial_resume,
}
use openclaw_serial_adapter.Session.Tools.Arbitration.{IsPositive, AsksFor, Asks, serial_pause-Asks}
use openclaw_serial_adapter.Session.Alone.{IsAlone}
use openclaw_serial_adapter.Session.Coherent.{IsCoherent}
use openclaw_serial_adapter.Session.Counters.{run-new_session-IsCoherent}
use openclaw_serial_adapter.Session.Connecting.{Connects, connect_adapter-Connects}
use openclaw_serial_adapter.Session.Channels.{
  Checks, ensure_bridge_ready-Checks, IsAnswer, ensure_bridge_ready-IsAnswer,
}

-- The state: the commands that were asked. The adapter is paused until it has been asked twice.
abbrev paused_status : ℕ → Json ℕ
paused_status asked =
    let status : Json ℕ = obj (
      from_entries (
        (codes "serial_connected", bool true)
        ∷ (codes "serial_port", str (codes "COM3"))
        ∷ (codes "serial_paused", bool (asked == 0))
        ∷ [])) in
    obj (from_entries ((codes "status", status) ∷ []))

abbrev ready_on : ℕ → ReadyMessage
ready_on l = record { telemetry_port = 9000; control_port = 9001; pid = l }

-- Every client is connected, and none is ever closed.
abbrev world : World ℕ ℕ
world = record {
  is_open = λ i w. true;
  connect_telemetry = λ i host port w. (none, w);
  connect_control = λ i host port w. (none, w);
  close = λ i w. w;
  ask = λ c command timeout w. (some (paused_status w), suc w);
  start = λ l config w. (inr (ready_on l), w);
  stop = λ l w. w;
  is_running = λ l w. true;
  ready_message = λ l w. some (ready_on l);
  resolved_port = λ l w. some (codes "COM3");
  probed_ports = λ l w. [];
  list_ports = λ config w. (none, w);
  now = λ w. w;
  meanwhile = λ w. [];
}

world-IsAlone : IsAlone world
world-IsAlone w = refl

abbrev config : PluginConfig ℕ
config = record {
  serial_port = none;
  baudrate = none;
  telemetry_port = none;
  control_port = none;
  host = none;
  auto_detect_serial_port = none;
  port_hints = none;
  tool_auto_connect = none;
  auto_resume_on_use = none;
  bridge_ack_timeout_ms = none;
}

abbrev options : BridgeEnsureOptions ℕ
options = record {
  auto_connect = none;
  auto_resume = none;
  port = none;
  baudrate = none;
  port_hints = none;
}

abbrev lower : Text → Text
lower s = s

abbrev ops : List (Op ℕ ℕ)
ops = starts config ∷ (ensures config options (some config) ∷ (stops ∷ (connects config ∷ [])))

run-new_session-IsCoherent_example : IsCoherent (run natural lower world ops (new_session 0))
run-new_session-IsCoherent_example = run-new_session-IsCoherent natural lower world ops 0

connect_adapter-Connects_example :
    Connects (connect_adapter natural lower world config (new_session 0))
connect_adapter-Connects_example =
    connect_adapter-Connects natural lower world world-IsAlone config (new_session 0)

-- A session with two clients.
abbrev attached : Session ℕ
attached = record (new_session 0) { made = 2; telemetry = some 0; control = some 1 }

ensure_bridge_ready-Checks_example :
    Checks natural lower world config true 1 attached
      (ensure_bridge_ready natural lower world config options none attached)
unfolding openclaw_serial_adapter.Session.is_bridge_connected
ensure_bridge_ready-Checks_example =
    ensure_bridge_ready-Checks natural lower world world-IsAlone config options none attached refl
      refl

ensure_bridge_ready-IsAnswer_example :
    IsAnswer natural lower world
      (ensure_bridge_ready natural lower world config options none (new_session 0))
ensure_bridge_ready-IsAnswer_example =
    ensure_bridge_ready-IsAnswer natural lower world world-IsAlone config options none
      (new_session 0)

-- it was paused, and is resumed
resumed_test :
    (ensure_bridge_ready natural lower world config options none attached).0.resumed ≡ true
unfolding ensure_bridge_ready openclaw_serial_adapter.Runtime.extract_runtime_status
resumed_test = refl

abbrev params : ArbitrationParams ℕ
params = record {
  auto_connect = none;
  seconds = some 400;
  requested_by = some (codes " ide ");
  reason = none;
}

natural-IsPositive : IsPositive natural
natural-IsPositive = record { least = refl; most = refl; pause = refl; yield = refl }

serial_pause-Asks_example :
    AsksFor natural lower world
      (codes "pause")
      25
      (codes "serial_pause_tool")
      (codes "manual_pause")
      config
      params
      1
      attached
      (serial_pause natural lower world config params none attached)
    × AsksFor natural lower world
        (codes "yield")
        30
        (codes "serial_yield_tool")
        (codes "com_arbitration_request")
        config
        params
        1
        attached
        (serial_yield natural lower world config params none attached)
    × Asks natural lower world config 1
        ((codes "__adapter_cmd", str (codes "resume")) ∷ [])
        attached
        (serial_resume natural lower world config params.auto_connect none attached)
unfolding openclaw_serial_adapter.Session.is_bridge_connected
serial_pause-Asks_example =
    serial_pause-Asks natural lower world natural-IsOrder natural-IsPositive world-IsAlone config
      params none attached refl refl

-- another call drops the clients while the status is waited for, and the answer is still that the
-- bridge is connected
dropped_test :
    let (answer, after) =
      ensure_bridge_ready natural lower
        (record world { meanwhile = λ w. drops ∷ [] })
        config
        options
        none
        attached in
    (answer.connected ≡ true) × (after.telemetry ≡ none) × (after.control ≡ none)
unfolding ensure_bridge_ready openclaw_serial_adapter.Runtime.extract_runtime_status
dropped_test = (refl, refl, refl)
