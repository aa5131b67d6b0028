-- ===== src/Launcher/Exits.antt =====
-- What the exit of a process does to the launcher of src/launcher.ts and to that process's promise.
use openclaw_serial_adapter.Prelude.{
  ℕ, true, false, none, some, [], ◌∷◌, ◌++◌, ◌≡◌, ◌≢◌, ◌∙◌, refl, sym, subst, ap, append_assoc,
  get_elem?, arith,
}
use openclaw_serial_adapter.Prelude.Updates.{update_at, get_elem-update_at, get_elem-update_at_ne}
use openclaw_serial_adapter.Text.{Text, codes}
use openclaw_serial_adapter.Startup.{classify_startup_failure}
use openclaw_serial_adapter.Launcher.{
  Ready, failed, Child, Launcher, sigterm, sigkill, settle, exit_details, on_exit, stop,
  stop_process, on_stop_timeout,
}

settle-rejects :
    {F : Type 0} (o : Ready F) (c : Child F)
    → c.settled ≡ false
    → (settle o c).outcomes ≡ c.outcomes ++ o ∷ []
unfolding settle
settle-rejects o c e = ground (arith, e)

module _ {F : Type 0} (to_lower_case : Text → Text) where
  -- The exit of a process whose `waitForReady` has not settled rejects it with the error that its
  -- output is classified as, on its own port and the ports that were probed last. The interpreter
  -- that the error names is "python3", whichever the launcher had started.
  pub on_exit-outcome :
      (i : ℕ) (code : Text) (l : Launcher F) {c : Child F}
      → get_elem? l.children i ≡ some c
      → c.settled ≡ false
      → (d : Child F) × (get_elem? (on_exit to_lower_case i code l).children i ≡ some d)
        × (d.exited ≡ true)
        × (d.outcomes
            ≡ c.outcomes
              ++ failed (
                  classify_startup_failure to_lower_case c.launch_port l.last_probe_ports
                    (codes "python3")
                    (exit_details to_lower_case code c))
                ∷ [])
  unfolding on_exit
  on_exit-outcome i code l {c} h e =
      (_, get_elem-update_at i _ l.children h, refl, settle-rejects _ c e)

  -- The exit of any process leaves the launcher with no current process, whichever was the current one
  -- and whether it runs: every other process goes on as it was, and a stop that follows sends no
  -- signal and changes nothing.
  pub on_exit-forgets :
      (i j : ℕ) (code : Text) (l : Launcher F)
      → i ≢ j
      → ((on_exit to_lower_case i code l).process ≡ none)
        × (get_elem? (on_exit to_lower_case i code l).children j ≡ get_elem? l.children j)
        × (stop (on_exit to_lower_case i code l) ≡ on_exit to_lower_case i code l)
  unfolding on_exit stop stop_process
  on_exit-forgets i j code l n = (refl, get_elem-update_at_ne _ l.children n, refl)

module _ {F : Type 0} where
  -- what a stop of `i` leaves, where `c` was its process, and what the kill timer leaves then
  abbrev pub Stopped : ℕ → Child F → Launcher F → Type 0
  Stopped i c l =
      (l.process ≡ none)
      × (l.ready_message ≡ none)
      × (l.resolved_port ≡ none)
      × (l.python_path_in_use ≡ none)
      × (get_elem? (on_stop_timeout i l).children i
          ≡ some
              (record c { signals = c.signals ++ (sigterm ∷ (sigkill ∷ [])); kill_timer = false }))

  -- A stop of a launcher with a process sends that process SIGTERM, arms its kill timer, leaves its
  -- promise as it is and clears every field that speaks of it; if the timer fires before the process
  -- has exited, SIGKILL follows.
  pub stop-signals :
      (i : ℕ) (l : Launcher F) {c : Child F}
      → l.process ≡ some i
      → get_elem? l.children i ≡ some c
      → Stopped i c (stop l)
  unfolding stop stop_process on_stop_timeout
  stop-signals i l {c} h at =
      let terminate : Child F → Child F =
        λ c. record c { signals = c.signals ++ sigterm ∷ []; kill_timer = true } in
      let terminated = get_elem-update_at i terminate l.children at in
      let killed = get_elem-update_at i _ (update_at i terminate l.children) terminated in
      let signals = append_assoc c.signals (sigterm ∷ []) (sigkill ∷ []) in
      subst (λ o. Stopped i c (stop_process o l)) (sym h)
        (
          refl,
          refl,
          refl,
          refl,
          killed ∙ ap (λ s. some (record c { signals = s; kill_timer = false })) signals,
        )
