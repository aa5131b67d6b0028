-- ===== src/Telemetry/Buffer.antt =====
-- The buffer of frames: what a poll hands out, and what is kept.
use openclaw_serial_adapter.Prelude.{
  ℕ, ◌+◌, ◌-◌, ◌≤◌, ltb, ◌≡◌, refl, ap, sym, ◌∙◌, Option, none, some, List, [], ◌∷◌, ◌++◌, arith,
  length, take, drop, min, take-append-drop, length-take, length-drop, append_assoc, append-nil,
  Option-cases, inl, inr, Bool-cases, map, foldl,
}
use openclaw_serial_adapter.Prelude.Int.{ℤ, pos, pos_part}
use openclaw_serial_adapter.Prelude.Last.{
  take_last, push_bounded, length-push_bounded, foldl-push_bounded,
}
use openclaw_serial_adapter.Text.{Text}
use openclaw_serial_adapter.Json.{Json}
use openclaw_serial_adapter.Channel.{is_open, update, destroy}
use openclaw_serial_adapter.Telemetry.{
  Client, Trace, Event, connects, disconnects, polls, snapshots, connection, close, connect_fails,
  line, max_buffered, new_client, connect, disconnect, on_connected, on_connect_failed,
  on_socket_closed, on_line, poll_frames, snapshot_frames, buffered_count, step, run, to_list,
}
use mathlib.Core.List.{Sublist, filter_map, nil-sublist}
use mathlib.Core.List.Sublist

module _ {F : Type 0} where
  -- A poll of `n` frames hands out the oldest `n` that are buffered, or all if they are fewer, and
  -- leaves the others: a poll with no count then hands out those, in order. A snapshot of `n` shows
  -- the newest `n`, or all if they are fewer.
  pub poll_frames-poll_frames :
      (n : ℕ) (c : Client F)
      → let (d, first) = poll_frames (some (pos n)) c in
        let (e, rest) = poll_frames none d in
        (first ++ rest ≡ c.frames)
        × (length first ≡ min n (buffered_count c))
        × (buffered_count d + length first ≡ buffered_count c)
        × (buffered_count e ≡ 0)
        × (length (snapshot_frames (some (pos n)) c) ≡ length first)
        × (take (buffered_count c - n) c.frames ++ snapshot_frames (some (pos n)) c ≡ c.frames)
  unfolding poll_frames buffered_count snapshot_frames
  poll_frames-poll_frames n c = ground (
    arith,
    take-append-drop n c.frames,
    take-append-drop (length c.frames - n) c.frames,
    length-take n c.frames,
    length-drop n c.frames,
    length-drop (length c.frames - n) c.frames,
  )

  drop-one-sublist : (xs : List (Json F)) → Sublist (drop 1 xs) xs
  drop-one-sublist [] = Sublist.refl []
  drop-one-sublist (x ∷ xs) = Sublist.cons x (Sublist.refl xs)

  push_bounded-sublist :
      (n : ℕ) (xs : List (Json F)) (x : Json F) → Sublist (push_bounded n xs x) (xs ++ x ∷ [])
  push_bounded-sublist n xs x = elim (Bool-cases (ltb n (length (xs ++ x ∷ [])))) [
    | inl more ↦ rw more (drop-one-sublist (xs ++ x ∷ []))
    | inr fits ↦ rw fits (Sublist.refl (xs ++ x ∷ []))
  ]

  -- What was polled, then what is buffered, was delivered in that order, each from its own delivery.
  pub record IsOrdered (t : Trace F) : Type 0 where
    pub in_order : Sublist (t.polled ++ t.client.frames) t.received
    pub bounded : length t.client.frames ≤ max_buffered

  abbrev pub start : Trace F
  start = record { client = new_client; polled = []; received = [] }

  start-IsOrdered : IsOrdered start
  start-IsOrdered = record { in_order = Sublist.refl []; bounded = omega arith }

  disconnect-IsOrdered :
      (t : Trace F) → IsOrdered t → IsOrdered (record t { client = disconnect t.client })
  unfolding disconnect
  disconnect-IsOrdered t v = record {
    in_order =
        Sublist.trans (Sublist.append (Sublist.refl t.polled) (nil-sublist t.client.frames))
          v.in_order;
    bounded = omega arith;
  }

  kept-IsOrdered :
      (t : Trace F) (c : Client F)
      → c.frames ≡ t.client.frames
      → IsOrdered t
      → IsOrdered (record t { client = c })
  kept-IsOrdered t c e v = record { in_order = rw e v.in_order; bounded = rw e v.bounded }

  module _ (parse : Text → Option (Json F)) where
    polls-IsOrdered :
        (count : Option ℤ) (t : Trace F) → IsOrdered t → IsOrdered (step parse t (polls count))
    unfolding step poll_frames
    polls-IsOrdered none t v = record { in_order = rw append-nil v.in_order; bounded = omega arith }
    polls-IsOrdered (some count) t v =
        let n = pos_part count in
        record {
          in_order =
              rw
                (
                  append_assoc t.polled (take n t.client.frames) (drop n t.client.frames),
                  take-append-drop n t.client.frames,
                )
                v.in_order;
          bounded = omega (arith, length-drop n t.client.frames);
        }

    pushed-IsOrdered :
        (x : Json F) (t : Trace F)
        → IsOrdered t
        → IsOrdered (record t {
          client = record (t.client) { frames = push_bounded max_buffered t.client.frames x };
          received = t.received ++ x ∷ [];
        })
    pushed-IsOrdered x t v = record {
      in_order =
          Sublist.trans
            (Sublist.append (Sublist.refl t.polled)
              (push_bounded-sublist max_buffered t.client.frames x))
            (rw (← append_assoc t.polled t.client.frames (x ∷ []))
              (Sublist.append v.in_order (Sublist.refl (x ∷ []))));
      bounded = length-push_bounded max_buffered t.client.frames x v.bounded;
    }

    read-IsOrdered :
        (text : Text) (t : Trace F)
        → IsOrdered t
        → IsOrdered (record t {
          client = on_line parse text t.client;
          received = t.received ++ to_list parse (parse text);
        })
    unfolding on_line
    read-IsOrdered text t v = elim (Option-cases (parse text)) [
      | inl bad ↦ rw (bad, on_line) (rw append-nil v)
      | inr (x, good) ↦ rw (good, on_line) (pushed-IsOrdered x t v)
    ]

    line-IsOrdered :
        (i : ℕ) (text : Text) (t : Trace F) → IsOrdered t → IsOrdered (step parse t (line i text))
    unfolding step
    line-IsOrdered k text t v = elim (Bool-cases (is_open k t.client.rl t.client.left_open)) [
      | inl opened ↦ rw opened (read-IsOrdered text t v)
      | inr shut ↦ rw shut v
    ]

    frames-on_connected : (i : ℕ) (c : Client F) → (on_connected i c).frames ≡ c.frames
    unfolding on_connected
    frames-on_connected i c = ground arith

    frames-on_connect_failed :
        (i : ℕ) (code : Option Text) (c : Client F) → (on_connect_failed i code c).frames ≡ c.frames
    unfolding on_connect_failed
    frames-on_connect_failed i code c = ground arith

    step-IsOrdered : (e : Event) (t : Trace F) → IsOrdered t → IsOrdered (step parse t e)
    unfolding step
    step-IsOrdered connects t v = kept-IsOrdered t (connect t.client) (unfold connect in refl) v
    step-IsOrdered disconnects t v = disconnect-IsOrdered t v
    step-IsOrdered (polls count) t v = polls-IsOrdered count t v
    step-IsOrdered (snapshots count) t v = v
    step-IsOrdered (connection i) t v =
        kept-IsOrdered t (on_connected i t.client) (frames-on_connected i t.client) v
    step-IsOrdered (connect_fails i code) t v =
        kept-IsOrdered t (on_connect_failed i code t.client)
          (frames-on_connect_failed i code t.client) v
    step-IsOrdered (close i) t v =
        kept-IsOrdered t
          (on_socket_closed (record (t.client) { sockets = update i destroy t.client.sockets }))
          (unfold on_socket_closed in refl) v
    step-IsOrdered (line i text) t v = line-IsOrdered i text t v

    run_keeps_order : (es : List Event) (t : Trace F) → IsOrdered t → IsOrdered (run parse es t)
    unfolding run
    run_keeps_order [] t v = v
    run_keeps_order (e ∷ es) t v = run_keeps_order es (step parse t e) (step-IsOrdered e t v)

    -- Whatever calls and events a new client sees, in whatever order: the frames that polls handed
    -- out followed by those still buffered are among the frames that the client's open interfaces
    -- delivered, in the order of delivery, each delivery counting once; and at most 100 are buffered.
    pub run-IsOrdered : (es : List Event) → IsOrdered (run parse es start)
    run-IsOrdered es = run_keeps_order es start start-IsOrdered

    step_line :
        (i : ℕ) (text : Text) (t : Trace F)
        → t.client.rl ≡ some i
        → let d = (step parse t (line i text)).client in
          (d.rl ≡ some i)
          × (d.frames
              ≡ foldl (push_bounded max_buffered) t.client.frames (to_list parse (parse text)))
    unfolding step on_line is_open
    step_line i text t e = ground arith

    foldl-filter_map :
        {S : Type 0} (f : S → Json F → S) (s : S) (x : Text) (xs : List Text)
        → foldl f s (filter_map parse (x ∷ xs))
          ≡ foldl f (foldl f s (to_list parse (parse x))) (filter_map parse xs)
    unfolding filter_map
    foldl-filter_map f s x xs = elim (Option-cases (parse x)) [
      | inl bad ↦ rw bad
      | inr (frame, good) ↦ rw good
    ]

    run_lines :
        (i : ℕ) (texts : List Text) (t : Trace F)
        → t.client.rl ≡ some i
        → (run parse (map (line i) texts) t).client.frames
          ≡ foldl (push_bounded max_buffered) t.client.frames (filter_map parse texts)
    unfolding run filter_map
    run_lines i [] t e = refl
    run_lines i (x ∷ texts) t e =
        let d = step parse t (line i x) in
        let (reads, pushed) = step_line i x t e in
        run_lines i texts d reads
        ∙ ap (λ h. foldl (push_bounded max_buffered) h (filter_map parse texts)) pushed
        ∙ sym (foldl-filter_map (push_bounded max_buffered) t.client.frames x texts)

    -- Of the lines that come in from the current interface between two polls, those that are not JSON are skipped and the
    -- newest 100 of the frames in the others are kept, the oldest first, after what was buffered
    -- before.
    pub frames-run :
        (i : ℕ) (texts : List Text) (t : Trace F) (seen : List (Json F))
        → t.client.rl ≡ some i
        → t.client.frames ≡ take_last max_buffered seen
        → (run parse (map (line i) texts) t).client.frames
          ≡ take_last max_buffered (seen ++ filter_map parse texts)
    frames-run i texts t seen reads buffered =
        run_lines i texts t reads
        ∙ ap (λ h. foldl (push_bounded max_buffered) h (filter_map parse texts)) buffered
        ∙ foldl-push_bounded max_buffered seen (filter_map parse texts)
