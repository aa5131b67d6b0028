-- ===== src/Session/Channels.antt =====
-- What the answers of `ensureBridgeReady` in index.ts say of the two channels, and what is asked of a
-- bridge that is connected.
use openclaw_serial_adapter.Prelude.{
  ℕ, Bool, true, false, ◌&&◌, Option, none, some, ◌≡◌, refl, ap, sym, subst, ◌∙◌, is_some, or_else,
  if◌then◌else◌, ◌⊎◌, inl, inr, Bool-cases,
}
use mathlib.Core.Bool.{false≢true}
use openclaw_serial_adapter.Number.{Number}
use openclaw_serial_adapter.Text.{Text, codes}
use openclaw_serial_adapter.Json.{Json, Entries}
use openclaw_serial_adapter.Runtime.{extract_runtime_status}
use openclaw_serial_adapter.Session.{
  opened, is_bridge_connected, PluginConfig, World, Session, adapter_cmd, resolve_ack_timeout_ms,
  ask_control, send_runtime_command_with_ack, request_runtime_status,
}
use openclaw_serial_adapter.Session.Alone.{IsAlone, await-alone}
use openclaw_serial_adapter.Session.Ensure.{
  resolve_auto_resume_on_use, resolve_tool_auto_connect, build_dynamic_config, BridgeEnsureOptions,
  BridgeEnsureResult, resume, after_status, check_runtime, finish, after_connect,
  ensure_bridge_ready, connect_task, is_paused,
}

pub if-true : {A : Type 0} (b : Bool) (x y : A) → b ≡ true → (if b then x else y) ≡ x
if-true true x y h = refl
if-true false x y h = absurd (false≢true h)

if-false : {A : Type 0} (b : Bool) (x y : A) → b ≡ false → (if b then x else y) ≡ y
if-false true x y h = absurd (false≢true (sym h))
if-false false x y h = refl

and-right : (a b : Bool) → (a && b) ≡ true → b ≡ true
and-right true b h = h
and-right false b h = absurd (false≢true h)

module _ (N : Number) (to_lower_case : Text → Text) {W : Type 0} (world : World W (N.F)) where
  open N use {F}

  -- a command to the runtime over the control client `c`
  abbrev pub asks : ℕ → PluginConfig F → Text → W → Option (Json F) × W
  asks c config name w = world.ask c (adapter_cmd N world name) (resolve_ack_timeout_ms N config) w

  request_runtime_status-some :
      IsAlone world
      → (config : PluginConfig F) (s : Session W) {c : ℕ} → s.control ≡ some c
      → request_runtime_status N world config s ≡ (
        extract_runtime_status (asks c config (codes "status") s.world).0,
        record s { world = (asks c config (codes "status") s.world).1 },
      )
  unfolding request_runtime_status send_runtime_command_with_ack ask_control
  request_runtime_status-some alone config s {c} h =
      ap
        (λ o.
          let r = ask_control N world o (adapter_cmd N world (codes "status")) config s in
          (extract_runtime_status r.0, r.1))
        h
      ∙ ap (λ t. (extract_runtime_status (asks c config (codes "status") s.world).0, t))
          (await-alone world alone (asks c config (codes "status") s.world).1 s)

  resume-some :
      IsAlone world
      → (config : PluginConfig F) (s : Session W) {c : ℕ} → s.control ≡ some c
      → let w = (asks c config (codes "resume") s.world).1 in
        resume N to_lower_case world config s ≡ (
          extract_runtime_status (asks c config (codes "status") w).0,
          record s { world = (asks c config (codes "status") w).1 },
        )
  unfolding resume send_runtime_command_with_ack ask_control
  resume-some alone config s {c} h =
      let w = (asks c config (codes "resume") s.world).1 in
      let resumed : Session W = record s { world = w } in
      ap
        (λ o.
          request_runtime_status N world config
            (ask_control N world o (adapter_cmd N world (codes "resume")) config s).1)
        h
      ∙ ap (request_runtime_status N world config) (await-alone world alone w s)
      ∙ request_runtime_status-some alone config resumed h

  resumed-if :
      (b : Bool) (s : Session W) (first last : Option (Json F) × W)
      (x : Option (Entries F) × Session W)
      → x ≡ (extract_runtime_status last.0, record s { world = last.1 })
      → let y = (if b then x else (extract_runtime_status first.0, record s { world = first.1 })) in
        (y.1 ≡ record s { world = if b then last.1 else first.1 })
        × (y.0 ≡ extract_runtime_status (if b then last.0 else first.0))
  resumed-if true s first last x e = (ap (λ p. p.1) e, ap (λ p. p.0) e)
  resumed-if false s first last x e = (refl, refl)

  -- What a connected bridge is asked: its status and, where it is paused and may be resumed, to
  -- resume and its status again. The answer says so, with the last status, and nothing else changes.
  abbrev pub Checks :
      PluginConfig F → Bool → ℕ → Session W → BridgeEnsureResult F × Session W → Type 0
  Checks config auto_resume c s x =
      let first = asks c config (codes "status") s.world in
      let last = asks c config (codes "status") (asks c config (codes "resume") first.1).1 in
      let resumes = auto_resume && is_paused (extract_runtime_status first.0) in
      (x.1 ≡ record s { world = if resumes then last.1 else first.1 })
      × (x.0.connected ≡ true)
      × (x.0.error ≡ none)
      × (x.0.resumed ≡ resumes)
      × (x.0.runtime_status ≡ extract_runtime_status (if resumes then last.0 else first.0))

  check_runtime-Checks :
      IsAlone world
      → (config : PluginConfig F) (auto_resume auto_connected : Bool) (s : Session W) {c : ℕ}
      → s.control ≡ some c
      → Checks config auto_resume c s
          (check_runtime N to_lower_case world config auto_resume auto_connected s)
  unfolding check_runtime after_status
  check_runtime-Checks alone config auto_resume auto_connected s {c} h =
      let first = asks c config (codes "status") s.world in
      let asked : Session W = record s { world = first.1 } in
      let status = extract_runtime_status first.0 in
      let (same, answer) =
        resumed-if (auto_resume && is_paused status) s first
          (asks c config (codes "status") (asks c config (codes "resume") first.1).1)
          (resume N to_lower_case world config asked) (resume-some alone config asked h) in
      subst
        (λ x.
          Checks config auto_resume c s
            (after_status N to_lower_case world config auto_resume auto_connected x))
        (sym (request_runtime_status-some alone config s h)) (same, refl, refl, refl, answer)

  -- A bridge that is connected, and any other, as `ensureBridgeReady` answers for it.
  finish-connected :
      IsAlone world
      → (config : PluginConfig F) (a b : Bool) (s : Session W) {c : ℕ}
      → is_bridge_connected world s ≡ true
      → s.control ≡ some c
      → Checks config a c s (finish N to_lower_case world config a b s)
  unfolding finish
  finish-connected alone config a b s {c} h e =
      subst (Checks config a c s) (sym (if-true (is_bridge_connected world s) _ _ h))
        (check_runtime-Checks alone config a b s e)

  -- Where the bridge is connected, and no other call changes the session while the status is waited
  -- for, `ensureBridgeReady` connects nothing, also where a connecting is under way: it asks the
  -- status and, where resuming is wanted and the status says paused, it asks to resume and for the
  -- status again, in this order; the answer is that the bridge is connected, with the last status;
  -- and nothing else of the session changes.
  pub ensure_bridge_ready-Checks :
      IsAlone world
      → (config : PluginConfig F) (options : BridgeEnsureOptions F)
        (other : Option (Session W → Option Text × Session W)) (s : Session W) {c : ℕ}
      → is_bridge_connected world s ≡ true
      → s.control ≡ some c
      → Checks config
          (resolve_auto_resume_on_use config options.auto_resume)
          c
          s
          (ensure_bridge_ready N to_lower_case world config options other s)
  unfolding ensure_bridge_ready
  ensure_bridge_ready-Checks alone config options other s {c} h e =
      let dynamic = build_dynamic_config config options in
      let a = resolve_auto_resume_on_use config options.auto_resume in
      subst (Checks dynamic a c s) (sym (if-true (is_bridge_connected world s) _ _ h))
        (finish-connected alone dynamic a false s h e)

  -- An answer that the bridge is connected, with two clients and no error; or that it is not, with an
  -- error and without a resuming.
  abbrev pub IsAnswer : BridgeEnsureResult F × Session W → Type 0
  IsAnswer x =
      ((x.0.connected ≡ true)
        × (x.0.error ≡ none)
        × (is_some x.1.telemetry ≡ true)
        × (is_some x.1.control ≡ true))
      ⊎ ((x.0.connected ≡ false) × (is_some x.0.error ≡ true) × (x.0.resumed ≡ false))

  clients-opened :
      (t c : Option ℕ) (w : W)
      → (opened world t w && opened world c w) ≡ true
      → (is_some t ≡ true) × ((i : ℕ) × (c ≡ some i))
  clients-opened none c w h = absurd (false≢true h)
  clients-opened (some t) (some c) w h = (refl, (c, refl))
  clients-opened (some t) none w h = absurd (false≢true (and-right (world.is_open t w) false h))

  finish-IsAnswer :
      IsAlone world
      → (config : PluginConfig F) (a b : Bool) (s : Session W)
      → IsAnswer (finish N to_lower_case world config a b s)
  unfolding finish is_bridge_connected
  finish-IsAnswer alone config a b s = elim (Bool-cases (is_bridge_connected world s)) [
    | inl e ↦
        let (t, (c, f)) = clients-opened s.telemetry s.control s.world e in
        let (same, is, none_is, resumed_is, status_is) = finish-connected alone config a b s e f in
        inl (
          is,
          none_is,
          ap (λ u. is_some u.telemetry) same ∙ t,
          ap (λ u. is_some u.control) same ∙ ap is_some f,
        )
    | inr e ↦
        subst IsAnswer (sym (if-false (is_bridge_connected world s) _ _ e)) (inr (refl, refl, refl))
  ]

  after_connect-IsAnswer :
      IsAlone world
      → (config : PluginConfig F) (a : Bool) (r : Option Text × Session W)
      → IsAnswer (after_connect N to_lower_case world config a r)
  unfolding after_connect
  after_connect-IsAnswer alone config a (none, s) = finish-IsAnswer alone config a true s
  after_connect-IsAnswer alone config a (some message, s) = inr (refl, refl, refl)

  if-IsAnswer :
      (b : Bool) (x y : BridgeEnsureResult F × Session W)
      → IsAnswer x
      → IsAnswer y
      → IsAnswer (if b then x else y)
  if-IsAnswer true x y p q = p
  if-IsAnswer false x y p q = q

  -- Whether it finds the bridge connected, connects it or waits for another call's connecting, which
  -- may do anything until it settles: if `ensureBridgeReady` answers that the bridge is connected,
  -- then both clients are there and there is no error; otherwise it gives an error and has resumed
  -- nothing. It is assumed that no other call changes the session while it waits for anything else.
  pub ensure_bridge_ready-IsAnswer :
      IsAlone world
      → (config : PluginConfig F) (options : BridgeEnsureOptions F)
        (other : Option (Session W → Option Text × Session W)) (s : Session W)
      → IsAnswer (ensure_bridge_ready N to_lower_case world config options other s)
  unfolding ensure_bridge_ready
  ensure_bridge_ready-IsAnswer alone config options other s =
      let dynamic = build_dynamic_config config options in
      let a = resolve_auto_resume_on_use config options.auto_resume in
      let task = or_else other (connect_task N to_lower_case world dynamic) in
      if-IsAnswer (is_bridge_connected world s) _ _ (finish-IsAnswer alone dynamic a false s) (
        if-IsAnswer (resolve_tool_auto_connect config options.auto_connect) _ _
          (after_connect-IsAnswer alone dynamic a (task s)) (inr (refl, refl, refl)))
