-- ===== src/Telemetry.antt =====
-- `TelemetryClient` of src/tcp-client.ts: frames come in as lines of JSON, and the last hundred are
-- kept until they are polled. `net` and `readline` are seen through the events that they raise.
-- Counts are given as the integer part of a finite number.
pub mod Buffer
mod Tests
use openclaw_serial_adapter.Prelude.{
  ℕ, Bool, true, false, ◌&&◌, not, Option, none, some, List, [], ◌∷◌, ◌++◌, ◌==◌, if◌then◌else◌,
  length, take, drop, is_some,
}
use openclaw_serial_adapter.Prelude.Int.{ℤ, pos_part}
use openclaw_serial_adapter.Prelude.Last.{take_last, push_bounded}
use openclaw_serial_adapter.Text.{Text}
use openclaw_serial_adapter.Json.{Json}
use openclaw_serial_adapter.Channel.{
  established, crashed, rejected, Socket, fresh_socket, format_connect_error, update, destroy,
  settle, is_settled, attempt_of, is_destroyed, is_open, leave_open,
}

pub record Client (F : Type 0) : Type 0 where
  pub socket : Option ℕ
  -- the current `readline` interface: interfaces are named by the order in which they were made
  pub rl : Option ℕ
  pub frames : List (Json F)
  pub connected : Bool
  -- the sockets made so far; the input of each interface made, and the interfaces that were
  -- replaced while they were open, which nothing closes
  pub sockets : List Socket
  pub inputs : List ℕ
  pub left_open : List ℕ

abbrev pub max_buffered : ℕ
max_buffered = 100

module _ {F : Type 0} where
  abbrev pub new_client : Client F
  new_client = record {
    socket = none;
    rl = none;
    frames = [];
    connected = false;
    sockets = [];
    inputs = [];
    left_open = [];
  }

  pub on_socket_closed : Client F → Client F
  on_socket_closed c = record c { connected = false; rl = none; socket = none }

  -- `connect`, up to the point where the socket is made
  pub connect : Client F → Client F
  connect c = record c {
    socket = some (length c.sockets);
    sockets = c.sockets ++ fresh_socket ∷ [];
  }

  -- the callback of `createConnection`: `createInterface` throws where `this.socket` is null
  pub on_connected : ℕ → Client F → Client F
  unfolding attempt_of update leave_open
  on_connected i c = if is_settled (attempt_of i c.sockets) then c else elim c.socket [
    | none ↦ record c { connected = true; sockets = update i (settle crashed) c.sockets }
    | some input ↦ record c {
      connected = true;
      rl = some (length c.inputs);
      left_open = leave_open c.rl c.left_open;
      inputs = c.inputs ++ input ∷ [];
      sockets = update i (settle established) c.sockets;
    }
  ]

  -- the handlers of "timeout" (code ETIMEDOUT) and "error"
  pub on_connect_failed : ℕ → Option Text → Client F → Client F
  unfolding attempt_of update format_connect_error
  on_connect_failed i code c = if is_settled (attempt_of i c.sockets) then c else record c {
    sockets = update i destroy (update i (settle (rejected (format_connect_error code))) c.sockets);
  }

  -- a line that an open interface delivers, over `JSON.parse` (`none` where it throws)
  pub on_line : (Text → Option (Json F)) → Text → Client F → Client F
  on_line parse text c = elim (parse text) [
    | none ↦ c
    | some frame ↦ record c { frames = push_bounded max_buffered c.frames frame }
  ]

  unfoldable pub poll_frames : Option ℤ → Client F → Client F × List (Json F)
  poll_frames none c = (record c { frames = [] }, c.frames)
  poll_frames (some count) c =
      (record c { frames = drop (pos_part count) c.frames }, take (pos_part count) c.frames)

  unfoldable pub snapshot_frames : Option ℤ → Client F → List (Json F)
  snapshot_frames none c = c.frames
  snapshot_frames (some count) c = take_last (pos_part count) c.frames

  unfoldable pub buffered_count : Client F → ℕ
  buffered_count c = length c.frames

  unfoldable pub is_connected : Client F → Bool
  unfolding is_destroyed
  is_connected c =
      c.connected && elim c.socket [ none ↦ false | some i ↦ not (is_destroyed i c.sockets) ]

  pub disconnect : Client F → Client F
  unfolding update
  disconnect c = record c {
    connected = false;
    rl = none;
    sockets = elim c.socket [ none ↦ c.sockets | some i ↦ update i destroy c.sockets ];
    socket = none;
    frames = [];
  }

-- A socket is destroyed when it closes. The number of a line is that of its interface.
pub data Event : Type 0 where
  connects disconnects : Event
  polls snapshots : Option ℤ → Event
  connection close : ℕ → Event
  connect_fails : ℕ → Option Text → Event
  line : ℕ → Text → Event

-- A run, with the frames that calls of `pollFrames` returned and those that lines brought in.
pub record Trace (F : Type 0) : Type 0 where
  pub client : Client F
  pub polled : List (Json F)
  pub received : List (Json F)

module _ {F : Type 0} (parse : Text → Option (Json F)) where
  abbrev to_list : Option (Json F) → List (Json F)
  to_list none = []
  to_list (some frame) = frame ∷ []

  abbrev at : Client F → Trace F → Trace F
  at c t = record t { client = c }

  pub step : Trace F → Event → Trace F
  unfolding connect disconnect on_connected on_connect_failed on_socket_closed on_line update
      is_open
  step t connects = at (connect t.client) t
  step t disconnects = at (disconnect t.client) t
  step t (polls count) =
      let (c, frames) = poll_frames count t.client in
      record t { client = c; polled = t.polled ++ frames }
  step t (snapshots count) = t
  step t (connection i) = at (on_connected i t.client) t
  step t (connect_fails i code) = at (on_connect_failed i code t.client) t
  step t (close i) =
      at (on_socket_closed (record (t.client) { sockets = update i destroy t.client.sockets })) t
  step t (line k text) =
      if is_open k t.client.rl t.client.left_open
      then record t {
        client = on_line parse text t.client;
        received = t.received ++ to_list (parse text);
      }
      else t

  pub run : List Event → Trace F → Trace F
  run [] t = t
  run (e ∷ es) t = run es (step t e)
