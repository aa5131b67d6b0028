-- ===== src/Launcher/Settling.antt =====
-- How the promises of `waitForReady` in src/launcher.ts settle over a run of events.
use openclaw_serial_adapter.Prelude.{
  ltb, ℕ, zero, suc, Bool, true, false, ◌&&◌, not, Option, none, some, List, [], ◌∷◌, ◌++◌, ◌≡◌,
  subst, refl, ap, sym, ◌∙◌, length, get_elem?, All, arith, if◌then◌else◌, Bool-cases, List-cases,
  inl, inr, length-append,
}
use openclaw_serial_adapter.Prelude.Updates.{
  update_at, update_at-All, append-All, get_elem-All, get_elem-update_at,
}
use mathlib.Core.Bool.{false≢true}
use mathlib.Core.Option.{none-ne-some, some-injective}
use openclaw_serial_adapter.Text.{Text, trim, is_empty}
use openclaw_serial_adapter.Json.{Json, Entries}
use openclaw_serial_adapter.Startup.{not_ready}
use openclaw_serial_adapter.Launcher.{
  Ready, ready, failed, sigkill, Child, Launcher, new_launcher, settle, spawned, on_stdout_line,
  on_stderr, stop, on_stop_timeout, on_ready_timeout, on_error, on_exit, preview, on_message,
  with_child, stop_process, expire, is_waiting, ready_of, Event, starts, stops, stdout_line,
  stderr_chunk, exit, error, ready_timeout, stop_timeout, step, run,
}

module _ {F : Type 0} where
  -- The promise has settled at most once, its timer is armed until then, and it has settled once the
  -- process has exited.
  pub record IsSettling (c : Child F) : Type 0 where
    pub once : length c.outcomes ≡ (if c.settled then 1 else 0)
    pub timed : c.ready_timer ≡ not c.settled
    pub ended : c.exited ≡ true → c.settled ≡ true

  pub settle-IsSettling : (o : Ready F) (c : Child F) → IsSettling c → IsSettling (settle o c)
  unfolding settle
  settle-IsSettling o c v = elim (Bool-cases c.settled) [
    | inl e ↦ ground (arith, v.once, v.timed, v.ended)
    | inr e ↦ ground (arith, v.once, v.timed, v.ended, length-append c.outcomes (o ∷ []))
  ]

  exited-IsSettling :
      (c : Child F)
      → c.settled ≡ true
      → IsSettling c
      → IsSettling (record c { exited = true; kill_timer = false })
  exited-IsSettling c e v = record { once = v.once; timed = v.timed; ended = λ h. e }

  settle-settled : (o : Ready F) (c : Child F) → (settle o c).settled ≡ true
  unfolding settle
  settle-settled o c = elim (Bool-cases c.settled) [ inl e ↦ ground arith | inr e ↦ ground arith ]

  -- every child of a launcher
  abbrev AllSettling : Launcher F → Type 0
  AllSettling l = All IsSettling l.children

  with_child-AllSettling :
      (i : ℕ) (f : Child F → Child F)
      → ((c : Child F) → IsSettling c → IsSettling (f c))
      → (l : Launcher F) → AllSettling l
      → AllSettling (with_child i f l)
  with_child-AllSettling i f h l = update_at-All IsSettling i f h l.children

  stop_process-AllSettling :
      (o : Option ℕ) (l : Launcher F) → AllSettling l → AllSettling (stop_process o l)
  unfolding stop_process
  stop_process-AllSettling none l v = v
  stop_process-AllSettling (some i) l v =
      with_child-AllSettling i _ (λ c w. record { once = w.once; timed = w.timed; ended = w.ended })
        l v

  stop-AllSettling : (l : Launcher F) → AllSettling l → AllSettling (stop l)
  unfolding stop
  stop-AllSettling l v = stop_process-AllSettling l.process l v

  if-AllSettling :
      (b : Bool) (l m : Launcher F)
      → AllSettling l
      → AllSettling m
      → AllSettling (if b then l else m)
  if-AllSettling true l m v w = v
  if-AllSettling false l m v w = w

  expire-AllSettling :
      (i : ℕ) (o : Option (Child F)) (l : Launcher F) → AllSettling l → AllSettling (expire i o l)
  unfolding expire
  expire-AllSettling i none l v = v
  expire-AllSettling i (some c) l v =
      if-AllSettling c.ready_timer _ l
        (stop-AllSettling _ (with_child-AllSettling i _ (settle-IsSettling _) l v)) v

  preview-IsSettling : (text : Text) (c : Child F) → IsSettling c → IsSettling (preview text c)
  preview-IsSettling text c v = elim (Bool-cases (ltb (length c.stdout_preview) 3)) [
    | inl e ↦ ground (arith, v.once, v.timed, v.ended)
    | inr e ↦ ground (arith, v.once, v.timed, v.ended)
  ]

  on_message-AllSettling :
      (i : ℕ) (text : Text) (o : Option (Entries F)) (l : Launcher F)
      → AllSettling l
      → AllSettling (on_message i text o l)
  on_message-AllSettling i text none l v = with_child-AllSettling i _ (preview-IsSettling text) l v
  on_message-AllSettling i text (some msg) l v =
      with_child-AllSettling i _
        (λ c w. settle-IsSettling (ready msg) _ (preview-IsSettling text c w)) l v

  kill-IsSettling :
      (c : Child F)
      → IsSettling c
      → IsSettling (
          if c.kill_timer
          then record c { signals = c.signals ++ sigkill ∷ []; kill_timer = false }
          else c)
  kill-IsSettling c v = elim (Bool-cases c.kill_timer) [
    | inl e ↦ ground (arith, v.once, v.timed, v.ended)
    | inr e ↦ ground (arith, v.once, v.timed, v.ended)
  ]

  settle-outcomes :
      (o : Ready F) (c : Child F)
      → IsSettling c
      → (length (settle o c).outcomes ≡ 1)
        × ((settle o c).outcomes ≡ (if c.settled then c.outcomes else o ∷ []))
  unfolding settle
  settle-outcomes o c v = elim (Bool-cases c.settled) [
    | inl e ↦ ground (arith, v.once)
    | inr e ↦ elim (List-cases c.outcomes) [
      | inl f ↦ ground (arith, v.once)
      | inr (x, r, f) ↦ ground (arith, v.once)
    ]
  ]

  update_at-outcomes :
      (i j : ℕ) (f : Child F → Child F)
      → ((c : Child F) → (f c).outcomes ≡ c.outcomes)
      → (cs : List (Child F)) {c : Child F} → get_elem? cs i ≡ some c
      → (d : Child F) × (get_elem? (update_at j f cs) i ≡ some d) × (d.outcomes ≡ c.outcomes)
  unfolding update_at
  update_at-outcomes i j f p [] h = absurd (none-ne-some _ h)
  update_at-outcomes zero zero f p (c ∷ cs) h =
      (f c, refl, p c ∙ ap (λ b. b.outcomes) (some-injective _ _ h))
  update_at-outcomes zero (suc j) f p (b ∷ cs) {c} h = (c, h, refl)
  update_at-outcomes (suc i) zero f p (b ∷ cs) {c} h = (c, h, refl)
  update_at-outcomes (suc i) (suc j) f p (c ∷ cs) h = update_at-outcomes i j f p cs h

  stop_process-outcomes :
      (o : Option ℕ) (i : ℕ) (l : Launcher F) {c : Child F}
      → get_elem? l.children i ≡ some c
      → (d : Child F) × (get_elem? (stop_process o l).children i ≡ some d)
        × (d.outcomes ≡ c.outcomes)
  unfolding stop_process
  stop_process-outcomes none i l {c} h = (c, h, refl)
  stop_process-outcomes (some j) i l h = update_at-outcomes i j _ (λ c. refl) l.children h

  -- what the timer leaves of a child that may have settled
  Expired : ℕ → Child F → Launcher F → Type 0
  Expired i c m =
      (d : Child F) × (get_elem? m.children i ≡ some d)
      × (length d.outcomes ≡ 1)
      × (d.outcomes ≡ (if c.settled then c.outcomes else failed (not_ready c.launch_port) ∷ []))

  if-Expired :
      (i : ℕ) (c : Child F) (b : Bool) (l m : Launcher F)
      → (b ≡ true → Expired i c l)
      → (b ≡ false → Expired i c m)
      → Expired i c (if b then l else m)
  if-Expired i c true l m v w = v refl
  if-Expired i c false l m v w = w refl

  expire-outcomes :
      (i : ℕ) (l : Launcher F) {c : Child F}
      → get_elem? l.children i ≡ some c
      → IsSettling c
      → Expired i c (expire i (some c) l)
  unfolding expire stop Expired
  expire-outcomes i l {c} h v =
      let settles : Launcher F = with_child i (settle (failed (not_ready c.launch_port))) l in
      let (d, at, same) =
        stop_process-outcomes settles.process i settles (get_elem-update_at i _ l.children h) in
      let (one, is) = settle-outcomes (failed (not_ready c.launch_port)) c v in
      if-Expired i c c.ready_timer (stop settles) l (λ e. (d, at, ap length same ∙ one, same ∙ is))
        (λ e. (c, h, ground (arith, v.once, v.timed, e), ground (arith, v.timed, e)))

  on_ready_timeout-outcomes :
      (i : ℕ) (l : Launcher F) {c : Child F}
      → get_elem? l.children i ≡ some c
      → IsSettling c
      → Expired i c (on_ready_timeout i l)
  unfolding on_ready_timeout expire
  on_ready_timeout-outcomes i l {c} h v =
      subst (λ o. Expired i c (expire i o l)) (sym h) (expire-outcomes i l h v)

module _ {F : Type 0} (parse : Text → Option (Json F)) (to_lower_case : Text → Text) where
  on_stdout_line-AllSettling :
      (i : ℕ) (line : Text) (l : Launcher F)
      → AllSettling l
      → AllSettling (on_stdout_line parse i line l)
  unfolding on_stdout_line
  on_stdout_line-AllSettling i line l v =
      let text = trim line in
      let message = ready_of (parse text) in
      if-AllSettling (is_waiting (get_elem? l.children i) && not (is_empty text))
        (on_message i text message l) l (on_message-AllSettling i text message l v) v

  step-AllSettling :
      (l : Launcher F) (e : Event F) → AllSettling l → AllSettling (step parse to_lower_case l e)
  unfolding step spawned on_stderr on_exit on_error on_ready_timeout on_stop_timeout
  step-AllSettling l (starts launch_port python_path ports) v =
      append-All IsSettling l.children _ v
        (record { once = refl; timed = refl; ended = λ h. absurd (false≢true h) }, tt)
  step-AllSettling l stops v = stop-AllSettling l v
  step-AllSettling l (stdout_line i line) v = on_stdout_line-AllSettling i line l v
  step-AllSettling l (stderr_chunk i chunk) v =
      with_child-AllSettling i _ (λ c w. record { once = w.once; timed = w.timed; ended = w.ended })
        l v
  step-AllSettling l (exit i code) v =
      with_child-AllSettling i _
        (λ c w. exited-IsSettling _ (settle-settled _ c) (settle-IsSettling _ c w)) l v
  step-AllSettling l (error i enoent message) v =
      with_child-AllSettling i _ (λ c w. settle-IsSettling _ c w) l v
  step-AllSettling l (ready_timeout i) v = expire-AllSettling i _ l v
  step-AllSettling l (stop_timeout i) v = with_child-AllSettling i _ (kill-IsSettling) l v

  run-AllSettling :
      (es : List (Event F)) (l : Launcher F)
      → AllSettling l
      → AllSettling (run parse to_lower_case es l)
  unfolding run
  run-AllSettling [] l v = v
  run-AllSettling (e ∷ es) l v = run-AllSettling es _ (step-AllSettling l e v)

  pub run-IsSettling :
      (es : List (Event F)) (i : ℕ) {c : Child F}
      → get_elem? (run parse to_lower_case es new_launcher).children i ≡ some c
      → IsSettling c
  run-IsSettling es i h = get_elem-All IsSettling _ i (run-AllSettling es new_launcher tt) h

  -- If the ready timer of a process fires, at the end of any run, then the process's `waitForReady`
  -- has settled, exactly once: with what it had settled with before, or else with the error that the
  -- adapter was not ready on its port.
  pub on_ready_timeout-settles :
      (es : List (Event F)) (i : ℕ) {c : Child F}
      → get_elem? (run parse to_lower_case es new_launcher).children i ≡ some c
      → (d : Child F) × (get_elem?
            (on_ready_timeout i (run parse to_lower_case es new_launcher)).children
            i
          ≡ some d)
        × (length d.outcomes ≡ 1)
        × (d.outcomes ≡ (if c.settled then c.outcomes else failed (not_ready c.launch_port) ∷ []))
  unfolding Expired
  on_ready_timeout-settles es i h =
      let l = run parse to_lower_case es new_launcher in
      on_ready_timeout-outcomes i l h (run-IsSettling es i h)
