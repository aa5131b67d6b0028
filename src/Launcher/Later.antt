-- ===== src/Launcher/Later.antt =====
-- What a later state of the launcher in src/launcher.ts keeps of each process: an outcome of
-- `waitForReady` is never changed and never followed by another.
use openclaw_serial_adapter.Prelude.{
  ℕ, zero, suc, Bool, true, false, Option, none, some, List, [], ◌∷◌, ◌++◌, ◌≡◌, refl, ◌∙◌, subst,
  get_elem?, arith, if◌then◌else◌, Bool-cases, inl, inr, ltb, length,
}
use mathlib.Core.Option.{none-ne-some, some-injective}
use openclaw_serial_adapter.Prelude.Updates.{update_at}
use openclaw_serial_adapter.Text.{Text}
use openclaw_serial_adapter.Json.{Json, Entries}
use openclaw_serial_adapter.Startup.{not_ready}
use openclaw_serial_adapter.Launcher.Settling.{IsSettling, run-IsSettling}
use openclaw_serial_adapter.Launcher.{
  new_launcher, Ready, ready, failed, sigkill, Child, Launcher, settle, spawned, on_stdout_line,
  on_stderr, stop, stop_process, expire, on_stop_timeout, on_ready_timeout, on_error, on_exit,
  preview, on_message, with_child, Event, starts, stops, stdout_line, stderr_chunk, exit, error,
  ready_timeout, stop_timeout, step, run,
}

module _ {F : Type 0} where
  -- of a process, before and after
  pub record Keeps (c d : Child F) : Type 0 where
    pub port : d.launch_port ≡ c.launch_port
    pub settled : c.settled ≡ true → d.settled ≡ true
    pub outcomes : c.settled ≡ true → d.outcomes ≡ c.outcomes
    pub exited : c.exited ≡ true → d.exited ≡ true

  Keeps-refl : (c : Child F) → Keeps c c
  Keeps-refl c = record { port = refl; settled = λ h. h; outcomes = λ h. refl; exited = λ h. h }

  Keeps-trans : {c d e : Child F} → Keeps c d → Keeps d e → Keeps c e
  Keeps-trans v w = record {
    port = w.port ∙ v.port;
    settled = λ h. w.settled (v.settled h);
    outcomes = λ h. w.outcomes (v.settled h) ∙ v.outcomes h;
    exited = λ h. w.exited (v.exited h);
  }

  -- of the processes, each kept in its place
  abbrev pub AllKept : List (Child F) → List (Child F) → Type 0
  AllKept [] ds = Unit
  AllKept (c ∷ cs) [] = ⊥
  AllKept (c ∷ cs) (d ∷ ds) = Keeps c d × AllKept cs ds

  AllKept-refl : (cs : List (Child F)) → AllKept cs cs
  AllKept-refl [] = tt
  AllKept-refl (c ∷ cs) = (Keeps-refl c, AllKept-refl cs)

  AllKept-trans : (cs ds es : List (Child F)) → AllKept cs ds → AllKept ds es → AllKept cs es
  AllKept-trans [] ds es v w = tt
  AllKept-trans (c ∷ cs) [] es v w = absurd v
  AllKept-trans (c ∷ cs) (d ∷ ds) [] v w = absurd w
  AllKept-trans (c ∷ cs) (d ∷ ds) (e ∷ es) v w =
      (Keeps-trans v.0 w.0, AllKept-trans cs ds es v.1 w.1)

  AllKept-append : (cs ds : List (Child F)) → AllKept cs (cs ++ ds)
  AllKept-append [] ds = tt
  AllKept-append (c ∷ cs) ds = (Keeps-refl c, AllKept-append cs ds)

  AllKept-update_at :
      (i : ℕ) (f : Child F → Child F)
      → ((c : Child F) → Keeps c (f c))
      → (cs : List (Child F)) → AllKept cs (update_at i f cs)
  unfolding update_at
  AllKept-update_at i f h [] = tt
  AllKept-update_at zero f h (c ∷ cs) = (h c, AllKept-refl cs)
  AllKept-update_at (suc i) f h (c ∷ cs) = (Keeps-refl c, AllKept-update_at i f h cs)

  get_elem-AllKept :
      (cs ds : List (Child F)) (i : ℕ) {c : Child F}
      → AllKept cs ds
      → get_elem? cs i ≡ some c
      → (d : Child F) × (get_elem? ds i ≡ some d) × Keeps c d
  get_elem-AllKept [] ds i v h = absurd (none-ne-some _ h)
  get_elem-AllKept (b ∷ cs) [] i v h = absurd v
  get_elem-AllKept (b ∷ cs) (d ∷ ds) zero v h =
      (d, refl, subst (λ c. Keeps c d) (some-injective _ _ h) v.0)
  get_elem-AllKept (b ∷ cs) (d ∷ ds) (suc i) v h = get_elem-AllKept cs ds i v.1 h

  settle-Keeps : (o : Ready F) (c : Child F) → Keeps c (settle o c)
  unfolding settle
  settle-Keeps o c = elim (Bool-cases c.settled) [ inl e ↦ ground arith | inr e ↦ ground arith ]

  preview-Keeps : (text : Text) (c : Child F) → Keeps c (preview text c)
  preview-Keeps text c = elim (Bool-cases (ltb (length c.stdout_preview) 3)) [
    | inl e ↦ ground arith
    | inr e ↦ ground arith
  ]

  kill-Keeps :
      (c : Child F)
      → Keeps c (
          if c.kill_timer
          then record c { signals = c.signals ++ sigkill ∷ []; kill_timer = false }
          else c)
  kill-Keeps c = elim (Bool-cases c.kill_timer) [ inl e ↦ ground arith | inr e ↦ ground arith ]

  stop_process-AllKept :
      (o : Option ℕ) (l : Launcher F) → AllKept l.children (stop_process o l).children
  unfolding stop_process
  stop_process-AllKept none l = AllKept-refl l.children
  stop_process-AllKept (some i) l =
      AllKept-update_at i _
        (λ c. record { port = refl; settled = λ h. h; outcomes = λ h. refl; exited = λ h. h })
        l.children

  if-AllKept :
      (cs : List (Child F)) (b : Bool) (l m : Launcher F)
      → AllKept cs l.children
      → AllKept cs m.children
      → AllKept cs (if b then l else m).children
  if-AllKept cs true l m v w = v
  if-AllKept cs false l m v w = w

  expire-AllKept :
      (i : ℕ) (o : Option (Child F)) (l : Launcher F) → AllKept l.children (expire i o l).children
  unfolding expire stop
  expire-AllKept i none l = AllKept-refl l.children
  expire-AllKept i (some c) l =
      let settles : Launcher F = with_child i (settle (failed (not_ready c.launch_port))) l in
      if-AllKept l.children c.ready_timer _ l
        (AllKept-trans l.children settles.children _
          (AllKept-update_at i _ (settle-Keeps _) l.children)
          (stop_process-AllKept settles.process settles))
        (AllKept-refl l.children)

  on_message-AllKept :
      (i : ℕ) (text : Text) (o : Option (Entries F)) (l : Launcher F)
      → AllKept l.children (on_message i text o l).children
  on_message-AllKept i text none l = AllKept-update_at i _ (preview-Keeps text) l.children
  on_message-AllKept i text (some msg) l =
      AllKept-update_at i _
        (λ c. Keeps-trans (preview-Keeps text c) (settle-Keeps (ready msg) (preview text c)))
        l.children

module _ {F : Type 0} (parse : Text → Option (Json F)) (to_lower_case : Text → Text) where
  step-AllKept :
      (l : Launcher F) (e : Event F) → AllKept l.children (step parse to_lower_case l e).children
  unfolding step spawned stop on_stdout_line on_stderr on_exit on_error on_ready_timeout
      on_stop_timeout
  step-AllKept l (starts launch_port python_path ports) = AllKept-append l.children _
  step-AllKept l stops = stop_process-AllKept l.process l
  step-AllKept l (stdout_line i line) =
      if-AllKept l.children _ _ l (on_message-AllKept i _ _ l) (AllKept-refl l.children)
  step-AllKept l (stderr_chunk i chunk) =
      AllKept-update_at i _
        (λ c. record { port = refl; settled = λ h. h; outcomes = λ h. refl; exited = λ h. h })
        l.children
  step-AllKept l (exit i code) =
      AllKept-update_at i _
        (λ c.
          Keeps-trans (settle-Keeps _ c)
            (record { port = refl; settled = λ h. h; outcomes = λ h. refl; exited = λ h. refl }))
        l.children
  step-AllKept l (error i enoent message) = AllKept-update_at i _ (λ c. settle-Keeps _ c) l.children
  step-AllKept l (ready_timeout i) = expire-AllKept i _ l
  step-AllKept l (stop_timeout i) = AllKept-update_at i _ kill-Keeps l.children

  run-AllKept :
      (es : List (Event F)) (l : Launcher F)
      → AllKept l.children (run parse to_lower_case es l).children
  unfolding run
  run-AllKept [] l = AllKept-refl l.children
  run-AllKept (e ∷ es) l =
      AllKept-trans l.children (step parse to_lower_case l e).children _ (step-AllKept l e)
        (run-AllKept es (step parse to_lower_case l e))

  -- In every run of a launcher, each process's `waitForReady` has settled at most once, its timer is
  -- armed exactly while it has not settled, and it has settled if the process has exited. However the
  -- launcher goes on, the process keeps its place and its port; once its `waitForReady` has settled it
  -- stays settled, with the same outcome and no other; and once it has exited it stays so.
  pub run-run-Keeps :
      (es later : List (Event F)) (i : ℕ) {c : Child F}
      → let l = run parse to_lower_case es new_launcher in
        get_elem? l.children i ≡ some c
        → IsSettling c
          × ((d : Child F) × (get_elem? (run parse to_lower_case later l).children i ≡ some d)
              × Keeps c d)
  run-run-Keeps es later i h =
      let l = run parse to_lower_case es new_launcher in
      (
        run-IsSettling parse to_lower_case es i h,
        get_elem-AllKept l.children (run parse to_lower_case later l).children i
            (run-AllKept later l) h,
      )
