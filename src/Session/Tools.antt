-- ===== src/Session/Tools.antt =====
-- The tools of index.ts that ask the bridge to release its serial port and to take it again:
-- `serial_pause`, `serial_yield` and `serial_resume`. A field that is `undefined` is left out of the
-- command.
pub mod Arbitration
use openclaw_serial_adapter.Prelude.{
  ℕ, Bool, true, false, ◌&&◌, Option, none, some, [], ◌∷◌, ◌++◌, ◌≡◌, refl, ap, sym, subst, ◌∙◌,
  arith, is_some, or_else, if◌then◌else◌,
}
use openclaw_serial_adapter.Prelude.Int.{pos}
use openclaw_serial_adapter.Number.{Number}
use openclaw_serial_adapter.Text.{Text, codes}
use openclaw_serial_adapter.Json.{Json, num, str, Entries}
use openclaw_serial_adapter.Startup.{trimmed}
use openclaw_serial_adapter.Session.{
  PluginConfig, World, Session, is_bridge_connected, resolve_ack_timeout_ms, ask_control,
  send_runtime_command_with_ack, adapter_cmd,
}
use openclaw_serial_adapter.Session.Alone.{IsAlone, await-alone}
use openclaw_serial_adapter.Session.Ensure.{
  BridgeEnsureOptions, BridgeEnsureResult, EnsureError, ensure_bridge_ready,
}
use openclaw_serial_adapter.Session.Channels.{if-true, Checks, ensure_bridge_ready-Checks, asks}

-- The parameters of the tools; `serial_resume` reads the first.
pub record ArbitrationParams (F : Type 0) : Type 0 where
  pub auto_connect : Option Bool
  pub seconds : Option F
  pub requested_by : Option Text
  pub reason : Option Text

-- What the tools answer: that the bridge is not connected, or the request with its acknowledgement.
pub data ArbitrationAnswer (F : Type 0) : Type 0 where
  unavailable : Option EnsureError → ArbitrationAnswer F
  requested : Text → Option F → BridgeEnsureResult F → Option (Json F) → ArbitrationAnswer F

-- `[key, value]` where there is a value
abbrev pub optional_entry : {F : Type 0} → Text → Option (Json F) → Entries F
optional_entry key none = []
optional_entry key (some value) = (key, value) ∷ []

module _ (N : Number) where
  open N use {F, lt, of_int}

  -- `Math.max(0, Math.min(seconds, 300))`, and the default
  unfoldable pub hold_seconds : ℕ → Option F → F
  hold_seconds default none = of_int (pos default)
  hold_seconds default (some x) =
      let least = (if lt (of_int (pos 300)) x then of_int (pos 300) else x) in
      if lt least (of_int (pos 0)) then of_int (pos 0) else least

  -- `holdS > 0 ? holdS : undefined`
  unfoldable pub hold_s : ℕ → Option F → Option F
  unfolding hold_seconds
  hold_s default seconds =
      let hold = hold_seconds default seconds in
      if lt (of_int (pos 0)) hold then some hold else none

  abbrev pub json_number : Option F → Option (Json F)
  json_number none = none
  json_number (some x) = some (num x)

  -- the command, by its name and the defaults
  unfoldable pub arbitration_command : Text → ℕ → Text → Text → ArbitrationParams F → Entries F
  unfolding hold_s trimmed
  arbitration_command name default_s requester reason params =
      (codes "__adapter_cmd", str name)
      ∷ (optional_entry (codes "hold_s") (json_number (hold_s default_s params.seconds))
          ++ ((codes "requested_by", str (or_else (trimmed params.requested_by) requester))
              ∷ ((codes "reason", str (or_else (trimmed params.reason) reason)) ∷ [])))

  abbrev pub pause_command : ArbitrationParams F → Entries F
  pause_command =
      arbitration_command (codes "pause") 25 (codes "serial_pause_tool") (codes "manual_pause")

  abbrev pub yield_command : ArbitrationParams F → Entries F
  yield_command =
      arbitration_command (codes "yield") 30 (codes "serial_yield_tool")
        (codes "com_arbitration_request")

module _ (N : Number) (to_lower_case : Text → Text) {W : Type 0} (world : World W (N.F)) where
  open N use {F}

  -- the options of the three tools
  abbrev pub without_resume : Option Bool → BridgeEnsureOptions F
  without_resume auto_connect = record {
    auto_connect = auto_connect;
    auto_resume = some false;
    port = none;
    baudrate = none;
    port_hints = none;
  }

  -- the request once the bridge has been seen to
  unfoldable pub request :
      Text
      → Option F
      → Entries F
      → PluginConfig F
      → BridgeEnsureResult F × Session W
      → ArbitrationAnswer F × Session W
  unfolding send_runtime_command_with_ack
  request status hold command config (bridge, s) =
      let (ack, t) = send_runtime_command_with_ack N world command config s in
      if bridge.connected && is_some s.control
      then (requested status hold bridge ack, t)
      else (unavailable bridge.error, s)

  unfoldable pub serial_pause :
      PluginConfig F
      → ArbitrationParams F
      → Option (Session W → Option Text × Session W)
      → Session W
      → ArbitrationAnswer F × Session W
  unfolding request ensure_bridge_ready arbitration_command hold_s
  serial_pause config params in_flight s =
      request (codes "pause_requested") (hold_s N 25 params.seconds) (pause_command N params) config
        (ensure_bridge_ready N to_lower_case world config (without_resume params.auto_connect)
          in_flight s)

  unfoldable pub serial_yield :
      PluginConfig F
      → ArbitrationParams F
      → Option (Session W → Option Text × Session W)
      → Session W
      → ArbitrationAnswer F × Session W
  unfolding request ensure_bridge_ready arbitration_command hold_s
  serial_yield config params in_flight s =
      request (codes "yield_requested") (hold_s N 30 params.seconds) (yield_command N params) config
        (ensure_bridge_ready N to_lower_case world config (without_resume params.auto_connect)
          in_flight s)

  unfoldable pub serial_resume :
      PluginConfig F
      → Option Bool
      → Option (Session W → Option Text × Session W)
      → Session W
      → ArbitrationAnswer F × Session W
  unfolding request ensure_bridge_ready
  serial_resume config auto_connect in_flight s =
      request (codes "resume_requested") none (adapter_cmd N world (codes "resume")) config
        (ensure_bridge_ready N to_lower_case world config (without_resume auto_connect) in_flight s)
