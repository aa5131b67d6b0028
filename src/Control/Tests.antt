-- ===== src/Control/Tests.antt =====
-- Runs of a control client whose payloads are texts, and the theorems at them.
use openclaw_serial_adapter.Prelude.{
  ℕ, ◌≡◌, refl, Option, none, some, List, [], ◌∷◌, ◌++◌, map, true, false, ◌==◌, arith,
}
use openclaw_serial_adapter.Prelude.Int.{pos}
use openclaw_serial_adapter.Text.{Text, codes, trim, strip_newlines}
use openclaw_serial_adapter.Json.{Json, null, num, str}
use openclaw_serial_adapter.Channel.{established, is_destroyed, is_open}
use openclaw_serial_adapter.Control.{
  Client, resolved, failed, timed_out, disconnected, send_failed, new_client, not_connected,
  empty_line, Event, connects, sends_with_ack, sends_raw_with_ack, connection, line, ack_timeout,
  close, step, run, parse_ack_line, is_connected, get_ack_history, disconnect, send_command,
  send_raw_line_with_ack, find_timer,
}
use openclaw_serial_adapter.Control.Invariant.{IsAccounted, run-new_client-IsAccounted}
use openclaw_serial_adapter.Control.Answers.{run-line, run-sends-lines}
use openclaw_serial_adapter.Control.Interfaces.{run-lines}
use openclaw_serial_adapter.Control.Failures.{
  disconnect_lem, send_raw_line_with_ack-blank, on_socket_closed_lem, late_ack,
}

-- A `JSON.parse` that knows the number 7, and a `JSON.stringify` that writes every value as it.
abbrev parse : Text → Option (Json ℕ)
parse [] = none
parse (c ∷ []) = elim (c == 55) [ true ↦ some (num 7) | false ↦ none ]
parse (_ ∷ (_ ∷ _)) = none

abbrev stringify : Json ℕ → Text
stringify j = codes "7"

abbrev opening : List (Event ℕ)
opening = connects ∷ connection 0 ∷ []

abbrev opened : Client ℕ
opened = record new_client {
  socket = some 0;
  rl = some 0;
  inputs = 0 ∷ [];
  connected = true;
  sockets = record { destroyed = false; written = []; attempt = established } ∷ [];
}

run-opening : run parse stringify opening new_client ≡ opened
unfolding run step
run-opening = refl

-- Two commands sent, and no answer so far.
abbrev busy : Client ℕ
busy = record opened {
  pending_acks = 0 ∷ 1 ∷ [];
  armed = record { ticket = 0; ms = 1200 } ∷ record { ticket = 1; ms = 5000 } ∷ [];
  next_ticket = 2;
}

abbrev script : List (Event ℕ)
script =
    connects
    ∷ connection 0
    ∷ sends_with_ack null none
    ∷ sends_raw_with_ack (codes "A90") (some (pos 5000))
    ∷ line 0 (codes "7")
    ∷ ack_timeout 1
    ∷ ack_timeout 1
    ∷ []

run-script :
    (run parse stringify script new_client).settled
    ≡ (0, resolved (num 7)) ∷ (1, failed (timed_out 5000)) ∷ []
unfolding run step
run-script = refl

run-new_client-IsAccounted_example : IsAccounted 1 (run parse stringify script new_client)
run-new_client-IsAccounted_example = run-new_client-IsAccounted parse stringify script 1

run-line_example :
    let after =
      run parse stringify (map (line 0) (codes "7" ∷ codes " ok " ∷ codes "7" ∷ [])) busy in
    (after.settled ≡ (0, resolved (num 7)) ∷ (1, resolved (str (codes "ok"))) ∷ [])
    × (after.pending_acks ≡ [])
    × (get_ack_history (pos 2) after ≡ str (codes "ok") ∷ num 7 ∷ [])
unfolding parse_ack_line
run-line_example =
    run-line parse stringify 0 (codes "7" ∷ codes " ok " ∷ codes "7" ∷ []) busy [] (pos 2) refl refl

run-sends-lines_example :
    let after =
      run parse stringify
        (map (λ j. sends_with_ack j none) (null ∷ num 3 ∷ [])
          ++ map (line 0) (codes "7" ∷ codes "b" ∷ []))
        opened in
    (after.settled ≡ (0, resolved (num 7)) ∷ (1, resolved (str (codes "b"))) ∷ [])
    × (after.pending_acks ≡ [])
unfolding parse_ack_line
run-sends-lines_example =
    run-sends-lines parse stringify 0 (null ∷ num 3 ∷ []) none (codes "7" ∷ codes "b" ∷ []) opened 0
      refl refl refl refl

disconnect_lem_example :
    let d = disconnect busy in
    (d.settled ≡ (0, failed disconnected) ∷ (1, failed disconnected) ∷ [])
    × (d.pending_acks ≡ [])
    × (d.ack_history ≡ [])
    × (is_connected d ≡ false)
    × (send_command stringify null d ≡ (d, not_connected))
    × (disconnect d ≡ d)
disconnect_lem_example = disconnect_lem stringify null busy

send_raw_line_with_ack-blank_example :
    let (d, result) = send_raw_line_with_ack (codes " \r\n") none busy in
    (result ≡ empty_line)
    × (d.pending_acks ≡ [])
    × (d.settled ≡ (0, failed send_failed) ∷ (1, failed send_failed) ∷ (2, failed send_failed) ∷ [])
    × (d.sockets ≡ busy.sockets)
unfolding trim strip_newlines
send_raw_line_with_ack-blank_example =
    send_raw_line_with_ack-blank (codes " \r\n") none busy 0 refl refl

-- A client that connected again while it was connected, so that its first interface is still open.
abbrev replaced : Client ℕ
replaced = record busy {
  socket = some 1;
  rl = some 1;
  inputs = 0 ∷ 1 ∷ [];
  left_open = 0 ∷ [];
  sockets =
      record { destroyed = false; written = []; attempt = established }
      ∷ record { destroyed = false; written = []; attempt = established }
      ∷ [];
}

-- a line of the interface that was replaced is still read
run-replaced :
    (run parse stringify
      (connects ∷ connection 0 ∷ connects ∷ connection 1 ∷ line 0 (codes "7") ∷ [])
      new_client).ack_history
    ≡ num 7 ∷ []
unfolding run step
run-replaced = refl

-- Both interfaces deliver the one line, which settles both commands.
run-lines_example :
    let after =
      run parse stringify
        (map (λ (l : ℕ × Text). line l.0 l.1) ((0, codes "7") ∷ (1, codes "7") ∷ []))
        replaced in
    (after.settled ≡ (0, resolved (num 7)) ∷ (1, resolved (num 7)) ∷ []) × (after.pending_acks ≡ [])
unfolding parse_ack_line is_open
run-lines_example =
    run-lines parse stringify ((0, codes "7") ∷ (1, codes "7") ∷ []) replaced (refl, (refl, tt))

on_socket_closed_lem_example :
    let d = step parse stringify replaced (close 0) in
    (is_connected d ≡ false)
    × (d.settled ≡ (0, failed disconnected) ∷ (1, failed disconnected) ∷ [])
    × (d.pending_acks ≡ [])
    × (is_destroyed 1 d.sockets ≡ false)
unfolding is_connected
on_socket_closed_lem_example =
    on_socket_closed_lem parse stringify 0 1 replaced (omega arith) refl refl

late_ack_example :
    (run parse stringify
      (ack_timeout 0 ∷ sends_with_ack null none ∷ line 0 (codes "7") ∷ [])
      (record busy { pending_acks = 0 ∷ [] })).settled
    ≡ (0, failed (timed_out 1200)) ∷ (2, resolved (num 7)) ∷ []
unfolding parse_ack_line find_timer
late_ack_example =
    late_ack parse stringify null none (codes "7") (record busy { pending_acks = 0 ∷ [] }) 0 0 0
      (record { ticket = 0; ms = 1200 }) refl refl refl refl
