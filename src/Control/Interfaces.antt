-- ===== src/Control/Interfaces.antt =====
-- Lines of all the `readline` interfaces that a client has left open.
use openclaw_serial_adapter.Prelude.{
  ℕ, ◌≡◌, refl, ap, ap₂, sym, ◌∙◌, true, Option, List, [], ◌∷◌, ◌++◌, map, length, drop, All, arith,
  append_assoc, append-nil, List-cases, inl, inr,
}
use openclaw_serial_adapter.Text.{Text}
use openclaw_serial_adapter.Json.{Json}
use openclaw_serial_adapter.Channel.{is_open}
use openclaw_serial_adapter.Control.{
  Client, parse_ack_line, push_ack_history, resolve_next_pending_ack, on_line, line, step, run,
}
use openclaw_serial_adapter.Control.Answers.{answers, answers-nil, answers-cons, drop-tail}

module _ {F : Type 0} (parse : Text → Option (Json F)) (stringify : Json F → Text) where
  -- The interface is the current one, or one that was replaced and is still open.
  abbrev pub Delivers : Client F → ℕ × Text → Type 0
  Delivers c l = is_open l.0 c.rl c.left_open ≡ true

  -- a line, and what is open after it
  record Read (c d : Client F) (p : Json F) : Type 0 where
    current : d.rl ≡ c.rl
    others : d.left_open ≡ c.left_open
    waits : d.pending_acks ≡ drop 1 c.pending_acks
    past : d.settled ≡ c.settled ++ answers c.pending_acks (p ∷ [])

  step_open :
      (l : ℕ × Text) (c : Client F)
      → Delivers c l
      → Read c (step parse stringify c (line l.0 l.1)) (parse_ack_line parse l.1)
  unfolding step on_line push_ack_history resolve_next_pending_ack
  step_open l c o = elim (List-cases c.pending_acks) [
    | inl idle ↦ ground (arith, append-nil c.settled)
    | inr (t, ts, busy) ↦ ground (arith, answers-nil {F = F} ts)
  ]

  still-Delivers :
      (c d : Client F) (p : Json F) (ls : List (ℕ × Text))
      → Read c d p
      → All (Delivers c) ls
      → All (Delivers d) ls
  still-Delivers c d p [] r h = tt
  still-Delivers c d p (l ∷ ls) r h =
      (ap₂ (is_open l.0) r.current r.others ∙ h.0, still-Delivers c d p ls r h.1)

  -- Lines that the open interfaces of a client deliver, in any order and those of interfaces included
  -- that a later connecting has replaced, settle the pending tickets oldest first, one ticket for
  -- each delivery as long as any is left, so that a line which two interfaces deliver is taken for
  -- the answer to two commands. The other tickets stay pending.
  pub run-lines :
      (ls : List (ℕ × Text)) (c : Client F)
      → All (Delivers c) ls
      → let after = run parse stringify (map (λ l. line l.0 l.1) ls) c in
        (after.settled
          ≡ c.settled ++ answers c.pending_acks (map (λ l. parse_ack_line parse l.1) ls))
        × (after.pending_acks ≡ drop (length ls) c.pending_acks)
  unfolding run
  run-lines [] c h = (
    sym (append-nil c.settled) ∙ ap (λ l. c.settled ++ l) (sym (answers-nil c.pending_acks)),
    refl,
  )
  run-lines (l ∷ ls) c h =
      let d = step parse stringify c (line l.0 l.1) in
      let p = parse_ack_line parse l.1 in
      let ps = map (λ l. parse_ack_line parse l.1) ls in
      let first = step_open l c h.0 in
      let (past, waits) = run-lines ls d (still-Delivers c d p ls first h.1) in
      (
        past
            ∙ ap₂ (λ s ts. s ++ answers ts ps) first.past first.waits
            ∙ append_assoc c.settled (answers c.pending_acks (p ∷ []))
                (answers (drop 1 c.pending_acks) ps)
            ∙ ap (λ s. c.settled ++ s) (answers-cons c.pending_acks p ps),
        waits ∙ ap (drop (length ls)) first.waits ∙ drop-tail (length ls) c.pending_acks,
      )
