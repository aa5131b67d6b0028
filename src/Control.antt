-- ===== src/Control.antt =====
-- `ControlClient` of src/tcp-client.ts: the line channel on which commands go out and
-- acknowledgements come in. The state holds the fields of the class, the sockets that it has made
-- and a log of what its promises came to.
--
-- A `PendingAck` is the ticket number of its `waitForAck` call: promise and timer of one call share
-- it. `net`, `readline` and the clock are seen through the events that they raise. Limits and
-- timeouts are given as the floor of a finite number.
mod Log
pub mod Invariant
pub mod Answers
pub mod Interfaces
pub mod Failures
mod Tests
use openclaw_serial_adapter.Prelude.{
  ℕ, zero, suc, ◌+◌, Bool, true, false, ◌&&◌, not, Option, none, some, List, [], ◌∷◌, ◌++◌, map,
  ◌==◌, ltb, if◌then◌else◌, length, last?, foldl, max,
}
use openclaw_serial_adapter.Prelude.Int.{ℤ, pos, clamp_ℕ, pos_part}
use openclaw_serial_adapter.Prelude.Last.{take_last, push_bounded}
use openclaw_serial_adapter.Text.{Text, trim, strip_newlines, is_empty}
use openclaw_serial_adapter.Json.{Json, null, str}
use openclaw_serial_adapter.Channel.{
  Attempt, waiting, established, crashed, rejected, Socket, fresh_socket, format_connect_error,
  ConnectError, update, destroy, write, settle, is_settled, attempt_of, is_destroyed, is_open,
  leave_open,
}

-- The errors with which a promise of `waitForAck` is rejected.
pub data AckError : Type 0 where
  disconnected send_failed : AckError
  timed_out : ℕ → AckError

pub data Outcome (F : Type 0) : Type 0 where
  resolved : Json F → Outcome F
  failed : AckError → Outcome F

pub record Timer : Type 0 where
  pub ticket : ℕ
  pub ms : ℕ

pub record Client (F : Type 0) : Type 0 where
  pub socket : Option ℕ
  -- the current `readline` interface: interfaces are named by the order in which they were made
  pub rl : Option ℕ
  pub pending_acks : List ℕ
  pub ack_history : List (Json F)
  pub connected : Bool
  -- the sockets made so far; the input of each interface made, and the interfaces that were
  -- replaced while they were open, which nothing closes; the timers that are armed, the next
  -- ticket, and every call of a promise's `resolve` or `reject`, oldest first
  pub sockets : List Socket
  pub inputs : List ℕ
  pub left_open : List ℕ
  pub armed : List Timer
  pub next_ticket : ℕ
  pub settled : List (ℕ × Outcome F)

abbrev pub default_control_ack_timeout_ms : ℕ
default_control_ack_timeout_ms = 1200

abbrev pub control_ack_history_max : ℕ
control_ack_history_max = 40

-- A call that may throw.
pub data Sent (A : Type 0) : Type 0 where
  ok : A → Sent A
  not_connected empty_line : Sent A

-- `clearTimeout`
pub clear_timeout : ℕ → List Timer → List Timer
clear_timeout t [] = []
clear_timeout t (x ∷ xs) = let rest = clear_timeout t xs in if x.ticket == t then rest else x ∷ rest

pub find_timer : ℕ → List Timer → Option Timer
find_timer t [] = none
find_timer t (x ∷ xs) = let later = find_timer t xs in if x.ticket == t then some x else later

-- `findIndex` and `splice(index, 1)`: the list less the ticket, or `none` where it does not stand
pub splice_out : ℕ → List ℕ → Option (List ℕ)
splice_out t [] = none
splice_out t (x ∷ xs) =
    let later = splice_out t xs in
    if x == t then some xs else elim later [ none ↦ none | some rest ↦ some (x ∷ rest) ]

-- `safeTimeout` of `waitForAck`
pub safe_timeout : Option ℤ → ℕ
safe_timeout none = default_control_ack_timeout_ms
safe_timeout (some ms) = max 100 (pos_part ms)

module _ {F : Type 0} where
  abbrev pub new_client : Client F
  new_client = record {
    socket = none;
    rl = none;
    pending_acks = [];
    ack_history = [];
    connected = false;
    sockets = [];
    inputs = [];
    left_open = [];
    armed = [];
    next_ticket = 0;
    settled = [];
  }

  -- `parseAckLine`, over `JSON.parse` (`none` where it throws)
  unfoldable pub parse_ack_line : (Text → Option (Json F)) → Text → Json F
  unfolding trim
  parse_ack_line parse line =
      let trimmed = trim line in
      if is_empty trimmed
      then null
      else elim (parse trimmed) [ none ↦ str trimmed | some payload ↦ payload ]

  pub push_ack_history : Json F → Client F → Client F
  push_ack_history payload c = record c {
    ack_history = push_bounded control_ack_history_max c.ack_history payload;
  }

  pub resolve_next_pending_ack : Json F → Client F → Client F
  unfolding clear_timeout
  resolve_next_pending_ack payload c = elim c.pending_acks [
    | [] ↦ c
    | next ∷ rest ↦ record c {
      pending_acks = rest;
      armed = clear_timeout next c.armed;
      settled = c.settled ++ (next, resolved payload) ∷ [];
    }
  ]

  -- the loop of `rejectAllPendingAcks` over the spliced entries
  pub reject_each : AckError → List ℕ → Client F → Client F
  unfolding clear_timeout
  reject_each e [] c = c
  reject_each e (t ∷ ts) c =
      reject_each e ts
        (record c { armed = clear_timeout t c.armed; settled = c.settled ++ (t, failed e) ∷ [] })

  pub reject_all_pending_acks : AckError → Client F → Client F
  unfolding reject_each
  reject_all_pending_acks e c = reject_each e c.pending_acks (record c { pending_acks = [] })

  pub on_socket_closed : Client F → Client F
  unfolding reject_all_pending_acks
  on_socket_closed c =
      let rejected_all = reject_all_pending_acks disconnected (record c { connected = false }) in
      record rejected_all { rl = none; socket = none }

  -- `waitForAck`, up to the point where the timer is armed and the entry is pushed
  pub wait_for_ack : Option ℤ → Client F → Client F
  unfolding safe_timeout
  wait_for_ack timeout_ms c = record c {
    pending_acks = c.pending_acks ++ c.next_ticket ∷ [];
    armed = c.armed ++ record { ticket = c.next_ticket; ms = safe_timeout timeout_ms } ∷ [];
    next_ticket = suc c.next_ticket;
  }

  -- the callback of the timer, which `setTimeout` has disarmed
  pub on_ack_timeout : ℕ → Client F → Client F
  unfolding clear_timeout find_timer splice_out
  on_ack_timeout t c = elim (find_timer t c.armed) [
    | none ↦ c
    | some timer ↦
        let fired : Client F = record c {
          armed = clear_timeout t c.armed;
          settled = c.settled ++ (t, failed (timed_out timer.ms)) ∷ [];
        } in
        elim (splice_out t c.pending_acks) [
          | none ↦ fired
          | some rest ↦ record fired { pending_acks = rest }
        ]
  ]

  -- `connect`, up to the point where the socket is made
  pub connect : Client F → Client F
  connect c = record c {
    socket = some (length c.sockets);
    sockets = c.sockets ++ fresh_socket ∷ [];
  }

  -- the callback of `createConnection`: `createInterface` throws where `this.socket` is null
  pub on_connected : ℕ → Client F → Client F
  unfolding attempt_of update leave_open
  on_connected i c = if is_settled (attempt_of i c.sockets) then c else elim c.socket [
    | none ↦ record c { connected = true; sockets = update i (settle crashed) c.sockets }
    | some input ↦ record c {
      connected = true;
      rl = some (length c.inputs);
      left_open = leave_open c.rl c.left_open;
      inputs = c.inputs ++ input ∷ [];
      sockets = update i (settle established) c.sockets;
    }
  ]

  -- the handlers of "timeout" (code ETIMEDOUT) and "error"
  pub on_connect_failed : ℕ → Option Text → Client F → Client F
  unfolding attempt_of update format_connect_error
  on_connect_failed i code c = if is_settled (attempt_of i c.sockets) then c else record c {
    sockets = update i destroy (update i (settle (rejected (format_connect_error code))) c.sockets);
  }

  -- a line that an interface delivers; a closed one delivers none
  pub on_line : (Text → Option (Json F)) → ℕ → Text → Client F → Client F
  unfolding parse_ack_line push_ack_history resolve_next_pending_ack is_open
  on_line parse k line c =
      let payload = parse_ack_line parse line in
      if is_open k c.rl c.left_open
      then resolve_next_pending_ack payload (push_ack_history payload c)
      else c

  unfoldable pub send_command : (Json F → Text) → Json F → Client F → Client F × Sent (Unit {0})
  unfolding update
  send_command stringify command c = elim c.socket [
    | none ↦ (c, not_connected)
    | some i ↦
        (record c { sockets = update i (write (stringify command ++ 10 ∷ [])) c.sockets }, ok tt)
  ]

  unfoldable pub send_raw_line : Text → Client F → Client F × Sent (Unit {0})
  unfolding update trim strip_newlines
  send_raw_line line c = elim c.socket [
    | none ↦ (c, not_connected)
    | some i ↦
        let normalized = trim (strip_newlines line) in
        if is_empty normalized
        then (c, empty_line)
        else (record c { sockets = update i (write (normalized ++ 10 ∷ [])) c.sockets }, ok tt)
  ]

  -- the common body of `sendCommandWithAck` and `sendRawLineWithAck`: the result is the ticket
  pub send_with_ack :
      (Client F → Client F × Sent (Unit {0})) → Option ℤ → Client F → Client F × Sent ℕ
  unfolding wait_for_ack reject_all_pending_acks
  send_with_ack send timeout_ms c = elim c.socket [
    | none ↦ (c, not_connected)
    | some _ ↦
        let (sent, result) = send (wait_for_ack timeout_ms c) in
        elim result [
          | ok _ ↦ (sent, ok c.next_ticket)
          | not_connected ↦ (reject_all_pending_acks send_failed sent, not_connected)
          | empty_line ↦ (reject_all_pending_acks send_failed sent, empty_line)
        ]
  ]

  pub send_command_with_ack : (Json F → Text) → Json F → Option ℤ → Client F → Client F × Sent ℕ
  unfolding send_with_ack send_command
  send_command_with_ack stringify command = send_with_ack (send_command stringify command)

  pub send_raw_line_with_ack : Text → Option ℤ → Client F → Client F × Sent ℕ
  unfolding send_with_ack send_raw_line
  send_raw_line_with_ack line = send_with_ack (send_raw_line line)

  pub get_latest_ack : Client F → Json F
  get_latest_ack c = elim (last? c.ack_history) [ none ↦ null | some ack ↦ ack ]

  -- `limit` is 10 where the caller gives none
  pub get_ack_history : ℤ → Client F → List (Json F)
  get_ack_history limit c = take_last (clamp_ℕ 1 control_ack_history_max limit) c.ack_history

  pub is_connected : Client F → Bool
  unfolding is_destroyed
  is_connected c =
      c.connected && elim c.socket [ none ↦ false | some i ↦ not (is_destroyed i c.sockets) ]

  pub disconnect : Client F → Client F
  unfolding reject_all_pending_acks update
  disconnect c =
      let idle = reject_all_pending_acks disconnected (record c { connected = false }) in
      record idle {
        rl = none;
        sockets = elim c.socket [ none ↦ idle.sockets | some i ↦ update i destroy idle.sockets ];
        socket = none;
        ack_history = [];
      }

-- What can happen to a client: calls of its public methods, and events of its sockets, interfaces and
-- timers. A socket is destroyed when it closes. The number of a line is that of its interface.
pub data Event (F : Type 0) : Type 0 where
  connects disconnects : Event F
  sends : Json F → Event F
  sends_raw : Text → Event F
  sends_with_ack : Json F → Option ℤ → Event F
  sends_raw_with_ack : Text → Option ℤ → Event F
  connection : ℕ → Event F
  connect_fails : ℕ → Option Text → Event F
  close : ℕ → Event F
  line : ℕ → Text → Event F
  ack_timeout : ℕ → Event F

module _ {F : Type 0} (parse : Text → Option (Json F)) (stringify : Json F → Text) where
  pub step : Client F → Event F → Client F
  unfolding connect disconnect send_command send_raw_line send_command_with_ack
      send_raw_line_with_ack on_connected on_connect_failed on_socket_closed on_line on_ack_timeout
      update
  step c connects = connect c
  step c disconnects = disconnect c
  step c (sends command) = (send_command stringify command c).0
  step c (sends_raw text) = (send_raw_line text c).0
  step c (sends_with_ack command ms) = (send_command_with_ack stringify command ms c).0
  step c (sends_raw_with_ack text ms) = (send_raw_line_with_ack text ms c).0
  step c (connection i) = on_connected i c
  step c (connect_fails i code) = on_connect_failed i code c
  step c (close i) = on_socket_closed (record c { sockets = update i destroy c.sockets })
  step c (line i text) = on_line parse i text c
  step c (ack_timeout t) = on_ack_timeout t c

  pub run : List (Event F) → Client F → Client F
  run [] c = c
  run (e ∷ es) c = run es (step c e)
