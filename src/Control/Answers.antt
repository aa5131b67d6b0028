-- ===== src/Control/Answers.antt =====
-- Which acknowledgement answers which command, and what the history shows.
use openclaw_serial_adapter.Prelude.{
  ℕ, zero, suc, ◌≡◌, refl, ap, ap₂, ◌∙◌, Option, some, List, [], ◌∷◌, ◌++◌, map, foldl, length,
  drop, drop-nil, arith, append_assoc, append-nil, List-cases, inl, inr, length-map,
}
use openclaw_serial_adapter.Prelude.Int.{ℤ, clamp_ℕ}
use openclaw_serial_adapter.Prelude.Last.{
  take_last, push_bounded, foldl-push_bounded, take_last-take_last,
}
use openclaw_serial_adapter.Text.{Text}
use openclaw_serial_adapter.Json.{Json}
use openclaw_serial_adapter.Channel.{is_open}
use openclaw_serial_adapter.Control.{
  Client, Outcome, resolved, control_ack_history_max, parse_ack_line, push_ack_history,
  resolve_next_pending_ack, on_line, get_ack_history, wait_for_ack, send_command_with_ack, Event,
  sends_with_ack, line, step, run,
}

abbrev pub tickets_from : ℕ → ℕ → List ℕ
tickets_from t zero = []
tickets_from t (suc n) = t ∷ tickets_from (suc t) n

pub drop-tail : {A : Type 0} (n : ℕ) (xs : List A) → drop n (drop 1 xs) ≡ drop (suc n) xs
drop-tail n [] = drop-nil n
drop-tail n (x ∷ xs) = refl

drop-tickets_from : (t n : ℕ) → drop n (tickets_from t n) ≡ []
drop-tickets_from t zero = refl
drop-tickets_from t (suc n) = drop-tickets_from (suc t) n

module _ {F : Type 0} where
  -- The tickets paired with the payloads, as far as both go.
  abbrev pub answers : List ℕ → List (Json F) → List (ℕ × Outcome F)
  answers [] ps = []
  answers (t ∷ ts) [] = []
  answers (t ∷ ts) (p ∷ ps) = (t, resolved p) ∷ answers ts ps

  pub answers-nil : (ts : List ℕ) → answers ts [] ≡ []
  answers-nil [] = refl
  answers-nil (t ∷ ts) = refl

  pub answers-cons :
      (ts : List ℕ) (p : Json F) (ps : List (Json F))
      → answers ts (p ∷ []) ++ answers (drop 1 ts) ps ≡ answers ts (p ∷ ps)
  answers-cons [] p ps = refl
  answers-cons (t ∷ ts) p ps = rw (answers-nil ts)

  -- What the payloads of the lines that came in made of a client.
  record Lined (c d : Client F) (ps : List (Json F)) : Type 0 where
    reads : d.rl ≡ c.rl
    waits : d.pending_acks ≡ drop (length ps) c.pending_acks
    past : d.settled ≡ c.settled ++ answers c.pending_acks ps
    history : d.ack_history ≡ foldl (push_bounded control_ack_history_max) c.ack_history ps

  module _ (parse : Text → Option (Json F)) (stringify : Json F → Text) (i : ℕ) where
    step_line :
        (text : Text) (c : Client F)
        → c.rl ≡ some i
        → Lined c (step parse stringify c (line i text)) (parse_ack_line parse text ∷ [])
    unfolding step on_line push_ack_history resolve_next_pending_ack is_open
    step_line text c e = elim (List-cases c.pending_acks) [
      | inl idle ↦ ground (arith, append-nil c.settled)
      | inr (t, ts, busy) ↦ ground (arith, answers-nil ts)
    ]

    run_lines :
        (texts : List Text) (c : Client F)
        → c.rl ≡ some i
        → Lined c (run parse stringify (map (line i) texts) c) (map (parse_ack_line parse) texts)
    unfolding run
    run_lines [] c e = ground (arith, answers-nil c.pending_acks, append-nil c.settled)
    run_lines (x ∷ texts) c e =
        let p = parse_ack_line parse x in
        let ps = map (parse_ack_line parse) texts in
        let d = step parse stringify c (line i x) in
        let first = step_line x c e in
        let later = run_lines texts d (first.reads ∙ e) in
        record {
          reads = later.reads ∙ first.reads;
          waits =
              later.waits
              ∙ ap (drop (length ps)) first.waits
              ∙ drop-tail (length ps) c.pending_acks;
          past =
              later.past
              ∙ ap₂ (λ l ts. l ++ answers ts ps) first.past first.waits
              ∙ append_assoc c.settled (answers c.pending_acks (p ∷ []))
                  (answers (drop 1 c.pending_acks) ps)
              ∙ ap (λ l. c.settled ++ l) (answers-cons c.pending_acks p ps);
          history =
              later.history
              ∙ ap (λ h. foldl (push_bounded control_ack_history_max) h ps) first.history;
        }

    -- Lines that come in from the client's current interface settle the pending tickets oldest
    -- first, each by the payload of its own line and no other; tickets that no line reaches stay
    -- pending, and lines that find no ticket settle nothing. The history then shows, for a limit
    -- between 1 and 40, the last payloads received since it was empty, so many as the limit says,
    -- and a limit outside is taken to the nearer bound.
    pub run-line :
        (texts : List Text) (c : Client F) (seen : List (Json F)) (limit : ℤ)
        → c.rl ≡ some i
        → c.ack_history ≡ take_last control_ack_history_max seen
        → let after = run parse stringify (map (line i) texts) c in
          let payloads = map (parse_ack_line parse) texts in
          (after.settled ≡ c.settled ++ answers c.pending_acks payloads)
          × (after.pending_acks ≡ drop (length texts) c.pending_acks)
          × (get_ack_history limit after
              ≡ take_last (clamp_ℕ 1 control_ack_history_max limit) (seen ++ payloads))
    unfolding get_ack_history
    run-line texts c seen limit reads history =
        let n = clamp_ℕ 1 control_ack_history_max limit in
        let payloads = map (parse_ack_line parse) texts in
        let lined = run_lines texts c reads in
        (
          lined.past,
          lined.waits ∙ ap (λ k. drop k c.pending_acks) (length-map (parse_ack_line parse) texts),
          ap (take_last n) (
                lined.history
                ∙ ap (λ h. foldl (push_bounded control_ack_history_max) h payloads) history
                ∙ foldl-push_bounded control_ack_history_max seen payloads)
              ∙ take_last-take_last n control_ack_history_max (seen ++ payloads) (ground arith),
        )

    record Issued (c d : Client F) (k : ℕ) (n : ℕ) : Type 0 where
      writes : d.socket ≡ some k
      reads : d.rl ≡ c.rl
      waits : d.pending_acks ≡ c.pending_acks ++ tickets_from c.next_ticket n
      past : d.settled ≡ c.settled
      history : d.ack_history ≡ c.ack_history

    step_send :
        (j : Json F) (ms : Option ℤ) (c : Client F) (k : ℕ)
        → c.socket ≡ some k
        → let d = step parse stringify c (sends_with_ack j ms) in
          Issued c d k 1 × (d.next_ticket ≡ suc c.next_ticket)
    unfolding step send_command_with_ack wait_for_ack
    step_send j ms c k e = ground arith

    run_sends :
        (js : List (Json F)) (ms : Option ℤ) (c : Client F) (k : ℕ)
        → c.socket ≡ some k
        → Issued c (run parse stringify (map (λ j. sends_with_ack j ms) js) c) k (length js)
    unfolding run
    run_sends [] ms c k e = ground (arith, append-nil c.pending_acks)
    run_sends (j ∷ js) ms c k e =
        let d = step parse stringify c (sends_with_ack j ms) in
        ground (
          arith,
          step_send j ms c k,
          run_sends js ms d k,
          append_assoc c.pending_acks (c.next_ticket ∷ []) (tickets_from d.next_ticket (length js)),
        )

    run-append :
        (xs ys : List (Event F)) (c : Client F)
        → run parse stringify (xs ++ ys) c ≡ run parse stringify ys (run parse stringify xs c)
    unfolding run
    run-append [] ys c = refl
    run-append (x ∷ xs) ys c = run-append xs ys (step parse stringify c x)

    -- Commands that a client with a socket and nothing pending sends one after the other, before any
    -- answer, are answered in the order in which they were sent: when as many lines have come in
    -- from its current interface, the n-th command's promise is resolved with the payload of the n-th line, and nothing
    -- is pending.
    pub run-sends-lines :
        (js : List (Json F)) (ms : Option ℤ) (texts : List Text) (c : Client F) (k : ℕ)
        → c.socket ≡ some k
        → c.rl ≡ some i
        → c.pending_acks ≡ []
        → length js ≡ length texts
        → let after =
            run parse stringify (map (λ j. sends_with_ack j ms) js ++ map (line i) texts) c in
          (after.settled
            ≡ c.settled
              ++ answers
                  (tickets_from c.next_ticket (length js))
                  (map (parse_ack_line parse) texts))
          × (after.pending_acks ≡ [])
    run-sends-lines js ms texts c k writes reads idle same =
        let d = run parse stringify (map (λ j. sends_with_ack j ms) js) c in
        let issued = run_sends js ms c k writes in
        let waits : d.pending_acks ≡ tickets_from c.next_ticket (length js) =
          ground (arith, issued) in
        ground (
          arith,
          issued,
          waits,
          run-append (map (λ j. sends_with_ack j ms) js) (map (line i) texts) c,
          run_lines texts d (issued.reads ∙ reads),
          length-map (parse_ack_line parse) texts,
          drop-tickets_from c.next_ticket (length js),
        )
