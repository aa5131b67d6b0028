-- ===== src/Control/Invariant.antt =====
-- The accounts of a control client: what became of the ticket of every `waitForAck` call, which
-- timers are armed, and how long the history is.
use openclaw_serial_adapter.Prelude.{
  ℕ, ◌+◌, ◌≤◌, ◌≡◌, Option, List, [], ◌∷◌, ltb, if◌then◌else◌, arith, length, Option-cases,
  List-cases, inl, inr, false,
}
use openclaw_serial_adapter.Prelude.Int.{ℤ}
use openclaw_serial_adapter.Prelude.Last.{length-push_bounded}
use openclaw_serial_adapter.Prelude.Counting.{count, count-append}
use openclaw_serial_adapter.Text.{Text}
use openclaw_serial_adapter.Json.{Json}
use openclaw_serial_adapter.Channel.{update, destroy}
use openclaw_serial_adapter.Control.{
  Client, AckError, disconnected, send_failed, resolved, failed, timed_out, control_ack_history_max,
  new_client, find_timer, splice_out, push_ack_history, resolve_next_pending_ack,
  reject_all_pending_acks, on_socket_closed, wait_for_ack, safe_timeout, on_ack_timeout, connect,
  on_connected, on_connect_failed, on_line, send_command, send_raw_line, send_with_ack,
  send_command_with_ack, send_raw_line_with_ack, disconnect, Sent, parse_ack_line, Event, connects,
  disconnects, sends, sends_raw, sends_with_ack, sends_raw_with_ack, connection, connect_fails,
  close, line, ack_timeout, step, run,
}
use openclaw_serial_adapter.Control.Log.{
  tickets, settled_tickets, rejections, count-clear_timeout, count-clear_all, count-splice_out,
  splice_out-none, find_timer-count, reject_each_lem, count-rejections, count-settled,
  count-tickets,
}

module _ {F : Type 0} where
  -- Of the ticket `t`: it is pending or settled, once, if it was issued; its timer is armed while
  -- it is pending, and at no other time.
  pub record IsAccounted (t : ℕ) (c : Client F) : Type 0 where
    pub once :
        count t c.pending_acks + count t (settled_tickets c.settled)
        ≡ (if ltb t c.next_ticket then 1 else 0)
    pub timed : count t (tickets c.armed) ≡ count t c.pending_acks
    pub bounded : length c.ack_history ≤ control_ack_history_max

  module _ (t : ℕ) where
    pub new_client-IsAccounted : IsAccounted t new_client
    new_client-IsAccounted = ground arith

    push_ack_history-IsAccounted :
        (p : Json F) {c : Client F} → IsAccounted t c → IsAccounted t (push_ack_history p c)
    unfolding push_ack_history
    push_ack_history-IsAccounted p {c} v = record {
      once = v.once;
      timed = v.timed;
      bounded = length-push_bounded control_ack_history_max c.ack_history p v.bounded;
    }

    resolve_next_pending_ack-IsAccounted :
        (p : Json F) {c : Client F} → IsAccounted t c → IsAccounted t (resolve_next_pending_ack p c)
    unfolding resolve_next_pending_ack
    resolve_next_pending_ack-IsAccounted p {c} v = elim (List-cases c.pending_acks) [
      | inl e ↦ ground arith
      | inr (u, r, e) ↦
          ground (
            arith,
            count-clear_timeout t u c.armed,
            count-settled t c.settled ((u, resolved p) ∷ []),
          )
    ]

    reject_all_pending_acks-IsAccounted :
        (e : AckError) {c : Client F}
        → IsAccounted t c
        → IsAccounted t (reject_all_pending_acks e c)
    unfolding reject_all_pending_acks
    reject_all_pending_acks-IsAccounted e {c} v =
        rw (reject_each_lem e c.pending_acks (record c { pending_acks = [] })) (
          ground (
            arith,
            count-clear_all t c.pending_acks c.armed,
            count-settled t c.settled (rejections e c.pending_acks),
            count-rejections F t e c.pending_acks,
          ))

    wait_for_ack-IsAccounted :
        (ms : Option ℤ) {c : Client F} → IsAccounted t c → IsAccounted t (wait_for_ack ms c)
    unfolding wait_for_ack
    wait_for_ack-IsAccounted ms {c} v = ground (
      arith,
      count-append t c.pending_acks (c.next_ticket ∷ []),
      count-tickets t c.armed (record { ticket = c.next_ticket; ms = safe_timeout ms } ∷ []),
    )

    on_ack_timeout-IsAccounted :
        (u : ℕ) {c : Client F} → IsAccounted t c → IsAccounted t (on_ack_timeout u c)
    unfolding on_ack_timeout
    on_ack_timeout-IsAccounted u {c} v = elim (Option-cases (find_timer u c.armed)) [
      | inl e ↦ ground arith
      | inr (timer, e) ↦ elim (Option-cases (splice_out u c.pending_acks)) [
        | inl absent ↦ ground (
          arith,
          count-clear_timeout t u c.armed,
          find_timer-count u c.armed timer e,
          splice_out-none u c.pending_acks absent,
          count-settled t c.settled ((u, failed (timed_out timer.ms)) ∷ []),
        )
        | inr (rest, found) ↦ ground (
          arith,
          count-clear_timeout t u c.armed,
          count-splice_out t u c.pending_acks rest,
          count-settled t c.settled ((u, failed (timed_out timer.ms)) ∷ []),
        )
      ]
    ]

    -- A method that sends leaves the tickets alone.
    send_command-IsAccounted :
        (stringify : Json F → Text) (j : Json F) {c : Client F}
        → IsAccounted t c
        → IsAccounted t (send_command stringify j c).0
    unfolding send_command
    send_command-IsAccounted stringify j {c} v = ground arith

    send_raw_line-IsAccounted :
        (text : Text) {c : Client F} → IsAccounted t c → IsAccounted t (send_raw_line text c).0
    unfolding send_raw_line
    send_raw_line-IsAccounted text {c} v = ground arith

    send_with_ack-IsAccounted :
        (send : Client F → Client F × Sent (Unit {0})) (ms : Option ℤ)
        → ((d : Client F) → IsAccounted t d → IsAccounted t (send d).0)
        → {c : Client F} → IsAccounted t c
        → IsAccounted t (send_with_ack send ms c).0
    unfolding send_with_ack
    send_with_ack-IsAccounted send ms keep {c} v =
        let issued = wait_for_ack ms c in
        ground (
          arith,
          keep issued (wait_for_ack-IsAccounted ms v),
          reject_all_pending_acks-IsAccounted send_failed {c = (send issued).0},
        )

    closed-IsAccounted : (c : Client F) → IsAccounted t c → IsAccounted t (on_socket_closed c)
    unfolding on_socket_closed
    closed-IsAccounted c v = ground (
      arith,
      reject_all_pending_acks-IsAccounted disconnected {c = record c { connected = false }},
    )

    disconnect-IsAccounted : (c : Client F) → IsAccounted t c → IsAccounted t (disconnect c)
    unfolding disconnect
    disconnect-IsAccounted c v = ground (
      arith,
      reject_all_pending_acks-IsAccounted disconnected {c = record c { connected = false }},
    )

    on_line-IsAccounted :
        (parse : Text → Option (Json F)) (i : ℕ) (text : Text) (c : Client F)
        → IsAccounted t c
        → IsAccounted t (on_line parse i text c)
    unfolding on_line
    on_line-IsAccounted parse i text c v =
        let payload = parse_ack_line parse text in
        ground (
          arith,
          resolve_next_pending_ack-IsAccounted payload (push_ack_history-IsAccounted payload v),
        )

    on_connected-IsAccounted :
        (i : ℕ) (c : Client F) → IsAccounted t c → IsAccounted t (on_connected i c)
    unfolding on_connected
    on_connected-IsAccounted i c v = ground arith

    on_connect_failed-IsAccounted :
        (i : ℕ) (code : Option Text) (c : Client F)
        → IsAccounted t c
        → IsAccounted t (on_connect_failed i code c)
    unfolding on_connect_failed
    on_connect_failed-IsAccounted i code c v = ground arith

    module _ (parse : Text → Option (Json F)) (stringify : Json F → Text) where
      pub step-IsAccounted :
          (e : Event F) (c : Client F) → IsAccounted t c → IsAccounted t (step parse stringify c e)
      unfolding step
      step-IsAccounted connects c v = unfold connect in ground arith
      step-IsAccounted disconnects c v = disconnect-IsAccounted c v
      step-IsAccounted (sends j) c v = send_command-IsAccounted stringify j v
      step-IsAccounted (sends_raw text) c v = send_raw_line-IsAccounted text v
      step-IsAccounted (sends_with_ack j ms) c v =
          unfold send_command_with_ack in
          send_with_ack-IsAccounted (send_command stringify j) ms
            (λ d w. send_command-IsAccounted stringify j w) v
      step-IsAccounted (sends_raw_with_ack text ms) c v =
          unfold send_raw_line_with_ack in
          send_with_ack-IsAccounted (send_raw_line text) ms
            (λ d w. send_raw_line-IsAccounted text w) v
      step-IsAccounted (connection i) c v = on_connected-IsAccounted i c v
      step-IsAccounted (connect_fails i code) c v = on_connect_failed-IsAccounted i code c v
      step-IsAccounted (close i) c v =
          closed-IsAccounted (record c { sockets = update i destroy c.sockets })
            (record { once = v.once; timed = v.timed; bounded = v.bounded })
      step-IsAccounted (line i text) c v = on_line-IsAccounted parse i text c v
      step-IsAccounted (ack_timeout u) c v = on_ack_timeout-IsAccounted u v

      pub run-IsAccounted :
          (es : List (Event F)) (c : Client F)
          → IsAccounted t c
          → IsAccounted t (run parse stringify es c)
      unfolding run
      run-IsAccounted [] c v = v
      run-IsAccounted (e ∷ es) c v =
          run-IsAccounted es (step parse stringify c e) (step-IsAccounted e c v)

module _ {F : Type 0} (parse : Text → Option (Json F)) (stringify : Json F → Text) where
  -- Whatever calls and events a new client sees, in whatever order: a ticket that was issued is
  -- either pending or was settled exactly once, never both and never twice; one that was not issued
  -- is neither; the timer of a ticket is armed while the ticket is pending, and at no other time;
  -- and the history holds at most 40 acknowledgements.
  pub run-new_client-IsAccounted :
      (es : List (Event F)) (t : ℕ) → IsAccounted t (run parse stringify es new_client)
  run-new_client-IsAccounted es t =
      run-IsAccounted t parse stringify es new_client (new_client-IsAccounted t)
