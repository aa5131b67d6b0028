-- ===== src/Control/Failures.antt =====
-- Disconnection, and the ways in which an acknowledgement goes astray.
use openclaw_serial_adapter.Prelude.{
  ℕ, ◌≡◌, ◌≢◌, Option, some, [], ◌∷◌, ◌++◌, true, false, arith, append_assoc, append-nil,
}
use openclaw_serial_adapter.Prelude.Int.{ℤ}
use openclaw_serial_adapter.Text.{Text, trim, strip_newlines}
use openclaw_serial_adapter.Json.{Json}
use openclaw_serial_adapter.Channel.{is_destroyed, is_destroyed-update, is_open, update, destroy}
use openclaw_serial_adapter.Control.{
  Client, Timer, AckError, resolved, failed, timed_out, disconnected, send_failed, parse_ack_line,
  find_timer, push_ack_history, resolve_next_pending_ack, reject_all_pending_acks, on_socket_closed,
  on_ack_timeout, on_line, wait_for_ack, send_command, send_raw_line_with_ack,
  send_command_with_ack, is_connected, disconnect, not_connected, empty_line, sends_with_ack, line,
  close, ack_timeout, step, run,
}
use openclaw_serial_adapter.Control.Log.{clear_all, rejections, reject_each_lem}

module _ {F : Type 0} where
  reject_all_pending_acks_lem :
      (e : AckError) (c : Client F)
      → reject_all_pending_acks e c ≡ record c {
        pending_acks = [];
        armed = clear_all c.pending_acks c.armed;
        settled = c.settled ++ rejections e c.pending_acks;
      }
  unfolding reject_all_pending_acks
  reject_all_pending_acks_lem e c =
      reject_each_lem e c.pending_acks (record c { pending_acks = [] })

  -- `disconnect` rejects every pending promise, oldest first, settles no other, empties the history
  -- and leaves the client disconnected, so that a send then throws; doing it again changes nothing.
  pub disconnect_lem :
      (stringify : Json F → Text) (j : Json F) (c : Client F)
      → let d = disconnect c in
        (d.settled ≡ c.settled ++ rejections disconnected c.pending_acks)
        × (d.pending_acks ≡ [])
        × (d.ack_history ≡ [])
        × (is_connected d ≡ false)
        × (send_command stringify j d ≡ (d, not_connected))
        × (disconnect d ≡ d)
  unfolding disconnect is_connected send_command
  disconnect_lem stringify j c =
      let d = disconnect c in
      ground (
        arith,
        reject_all_pending_acks_lem disconnected (record c { connected = false }),
        reject_all_pending_acks_lem disconnected (record d { connected = false }),
        append-nil d.settled,
      )

  -- Sending an empty raw line for an acknowledgement throws, and on the way rejects the promises of
  -- all the commands sent before that still wait for theirs.
  pub send_raw_line_with_ack-blank :
      (text : Text) (ms : Option ℤ) (c : Client F) (k : ℕ)
      → c.socket ≡ some k
      → trim (strip_newlines text) ≡ []
      → let (d, result) = send_raw_line_with_ack text ms c in
        (result ≡ empty_line)
        × (d.pending_acks ≡ [])
        × (d.settled ≡ c.settled ++ rejections send_failed (c.pending_acks ++ c.next_ticket ∷ []))
        × (d.sockets ≡ c.sockets)
  unfolding send_raw_line_with_ack wait_for_ack
  send_raw_line_with_ack-blank text ms c k e blank =
      ground (arith, reject_all_pending_acks_lem send_failed (wait_for_ack ms c))

  -- The close event of a socket that a connected client has replaced takes down the client's current
  -- connection: what waits is rejected and the client counts as disconnected, while the current
  -- socket is not destroyed.
  pub on_socket_closed_lem :
      (parse : Text → Option (Json F)) (stringify : Json F → Text) (stale current : ℕ)
      (c : Client F)
      → stale ≢ current
      → c.socket ≡ some current
      → is_connected c ≡ true
      → let d = step parse stringify c (close stale) in
        (is_connected d ≡ false)
        × (d.settled ≡ c.settled ++ rejections disconnected c.pending_acks)
        × (d.pending_acks ≡ [])
        × (is_destroyed current d.sockets ≡ false)
  unfolding step on_socket_closed is_connected
  on_socket_closed_lem parse stringify stale current c ne e h =
      let sockets = update stale destroy c.sockets in
      ground (
        arith,
        is_destroyed-update stale current destroy c.sockets ne,
        reject_all_pending_acks_lem disconnected
            (record c { connected = false; sockets = sockets }),
      )

  -- If the only command that waits times out, then the next command is sent, and then a line comes in
  -- from the client's current interface, the line is taken for the answer to that next command, also
  -- where it answers the one that timed out.
  pub late_ack :
      (parse : Text → Option (Json F)) (stringify : Json F → Text) (j : Json F) (ms : Option ℤ)
      (text : Text) (c : Client F) (k i t : ℕ) (timer : Timer)
      → c.socket ≡ some k
      → c.rl ≡ some i
      → c.pending_acks ≡ t ∷ []
      → find_timer t c.armed ≡ some timer
      → (run parse stringify (ack_timeout t ∷ sends_with_ack j ms ∷ line i text ∷ []) c).settled
        ≡ c.settled
          ++ (t, failed (timed_out timer.ms))
            ∷ (c.next_ticket, resolved (parse_ack_line parse text))
            ∷ []
  unfolding run step on_ack_timeout send_command_with_ack wait_for_ack on_line push_ack_history
      resolve_next_pending_ack is_open
  late_ack parse stringify j ms text c k i t timer e r p f = ground (
    arith,
    append_assoc c.settled ((t, failed (timed_out timer.ms)) ∷ [])
        ((c.next_ticket, resolved (parse_ack_line parse text)) ∷ []),
  )
