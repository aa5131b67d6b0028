-- ===== src/Session/Connecting.antt =====
-- Which clients a `connectAdapter` of index.ts leaves, on each of its ways.
use openclaw_serial_adapter.Prelude.{
  ℕ, suc, Bool, true, false, Option, none, some, ◌≡◌, refl, sym, subst, ◌∙◌, is_some, if◌then◌else◌,
  ◌⊎◌, inl, inr,
}
use mathlib.Core.Bool.{false≢true}
use openclaw_serial_adapter.Number.{Number}
use openclaw_serial_adapter.Text.{Text}
use openclaw_serial_adapter.Json.{Entries}
use openclaw_serial_adapter.Session.{
  PluginConfig, ReadyMessage, World, Session, mark_new_bridge_session, drop_clients, after_control,
  after_telemetry, attach_adapter_channels, ask_control, send_runtime_command_with_ack,
  request_runtime_status, request_runtime_capabilities, await,
}
use openclaw_serial_adapter.Session.Alone.{IsAlone, await-alone}
use openclaw_serial_adapter.Session.Connect.{
  started, not_attached, ExistingBridge, Connected, examine, after_attach,
  try_attach_existing_bridge, attached_to, give_up, after_start, attach_started, started_as,
  start_adapter, connect_adapter,
}

abbrev HasClients : {W : Type 0} → Session W → Type 0
HasClients s = (is_some s.telemetry ≡ true) × (is_some s.control ≡ true)

abbrev HasNone : {W : Type 0} → Session W → Type 0
HasNone s = (s.telemetry ≡ none) × (s.control ≡ none)

-- the two clients by the message of an attaching, by whether a bridge was there, and by the result
abbrev Attached : {W : Type 0} → Option Text × Session W → Type 0
Attached (none, s) = HasClients s
Attached (some message, s) = HasNone s

abbrev Found : {W F : Type 0} → ExistingBridge F × Session W → Type 0
Found (existing, s) =
    (existing.attached ≡ true → HasClients s) × (existing.attached ≡ false → HasNone s)

-- The result of a connecting: there are two clients, or an error and no client.
unfoldable pub Connects : {W F : Type 0} → (Text ⊎ Connected F) × Session W → Type 0
Connects (inl message, s) = HasNone s
Connects (inr connected, s) = HasClients s

module _ {W F : Type 0} (world : World W F) (alone : IsAlone world) where
  -- what holds of the clients holds after a wait
  await-keeps :
      (P : Option ℕ → Option ℕ → Type 0) (w : W) (s : Session W)
      → P s.telemetry s.control
      → P (await world w s).telemetry (await world w s).control
  await-keeps P w s h = subst (λ t. P t.telemetry t.control) (sym (await-alone world alone w s)) h

  await-HasNone : (w : W) (s : Session W) → HasNone s → HasNone (await world w s)
  await-HasNone w s h = await-keeps (λ t c. (t ≡ none) × (c ≡ none)) w s h

  await-HasClients : (w : W) (s : Session W) → HasClients s → HasClients (await world w s)
  await-HasClients w s h = await-keeps (λ t c. (is_some t ≡ true) × (is_some c ≡ true)) w s h

  after_control-Attached :
      (t c : ℕ) (r : Option Text × W) (s : Session W)
      → HasNone s
      → Attached (after_control world t c r s)
  unfolding after_control
  after_control-Attached t c (none, w) s h = (refl, refl)
  after_control-Attached t c (some message, w) s h = await-HasNone w s h

  after_telemetry-Attached :
      (t c : ℕ) (host : Text) (port : ℕ) (r : Option Text × W) (s : Session W)
      → HasNone s
      → Attached (after_telemetry world t c host port r s)
  unfolding after_telemetry
  after_telemetry-Attached t c host port (none, w) s h =
      after_control-Attached t c (world.connect_control c host port (await world w s).world)
        (await world w s) (await-HasNone w s h)
  after_telemetry-Attached t c host port (some message, w) s h = await-HasNone w s h

  attach-Attached :
      (config : PluginConfig F) (t c : ℕ) (s : Session W)
      → Attached (attach_adapter_channels world config t c s)
  unfolding attach_adapter_channels drop_clients
  attach-Attached config t c s = after_telemetry-Attached _ _ _ _ _ _ (refl, refl)

module _ (N : Number) (to_lower_case : Text → Text) {W : Type 0} (world : World W (N.F))
    (alone : IsAlone world) where
  open N use {F}

  ask_control-clients :
      (o : Option ℕ) (command : Entries F) (config : PluginConfig F) (s : Session W)
      → HasClients s
      → HasClients (ask_control N world o command config s).1
  unfolding ask_control
  ask_control-clients none command config s h = h
  ask_control-clients (some c) command config s h = await-HasClients world alone _ s h

  if-Found :
      (b : Bool) (existing : ExistingBridge F) (s t : Session W)
      → existing.attached ≡ true
      → HasClients s
      → HasNone t
      → Found (if b then (existing, s) else (not_attached, t))
  if-Found true existing s t e h n = ((λ f. h), λ f. absurd (false≢true (sym f ∙ e)))
  if-Found false existing s t e h n = ((λ f. absurd (false≢true f)), λ f. n)

  examine-Found :
      (config : PluginConfig F) (s : Session W)
      → HasClients s
      → Found (examine N to_lower_case world config s)
  unfolding examine request_runtime_capabilities request_runtime_status
      send_runtime_command_with_ack drop_clients
  examine-Found config s h =
      let asked = ask_control-clients s.control _ config s h in
      if-Found _ _ _ _ refl (ask_control-clients _ _ config _ asked) (refl, refl)

  after_attach-Found :
      (config : PluginConfig F) (r : Option Text × Session W)
      → Attached r
      → Found (after_attach N to_lower_case world config r)
  unfolding after_attach
  after_attach-Found config (none, s) h = examine-Found config s h
  after_attach-Found config (some message, s) h = ((λ f. absurd (false≢true f)), λ f. h)

  give_up-Connects :
      (message : Text) (l : Option ℕ) (s : Session W)
      → HasNone s
      → Connects (give_up N to_lower_case world message l s)
  unfolding give_up Connects
  give_up-Connects message none s h = h
  give_up-Connects message (some l) s h = await-HasNone world alone _ s h

  after_start-Connects :
      (connected : Connected F) (r : Option Text × Session W)
      → Attached r
      → Connects (after_start N to_lower_case world connected r)
  unfolding after_start Connects
  after_start-Connects connected (none, s) h = h
  after_start-Connects connected (some message, s) h = give_up-Connects message s.launcher s h

  attach_started-Connects :
      (l : Option ℕ) (config : PluginConfig F) (ready : ReadyMessage) (s : Session W)
      → HasNone s
      → Connects (attach_started N to_lower_case world l config ready s)
  unfolding attach_started Connects
  attach_started-Connects none config ready s h = h
  attach_started-Connects (some l) config ready s h =
      after_start-Connects (started N to_lower_case world l config ready s)
        (attach_adapter_channels world config ready.telemetry_port ready.control_port s)
        (attach-Attached world alone config ready.telemetry_port ready.control_port s)

  started_as-Connects :
      (config : PluginConfig F) (r : Text ⊎ ReadyMessage) (s : Session W)
      → HasNone s
      → Connects (started_as N to_lower_case world config r s)
  unfolding started_as mark_new_bridge_session Connects
  started_as-Connects config (inl message) s h = h
  started_as-Connects config (inr ready) s h =
      attach_started-Connects s.launcher config ready (mark_new_bridge_session world s) h

  start_adapter-Connects :
      (config : PluginConfig F) (s : Session W)
      → HasNone s
      → Connects (start_adapter N to_lower_case world config s)
  unfolding start_adapter
  start_adapter-Connects config s h =
      started_as-Connects config (world.start s.made config s.world).0 _ (
        await-HasNone world alone (world.start s.made config s.world).1
          (record s { made = suc s.made; launcher = some s.made }) h)

  if-Connects :
      (b : Bool) (x y : (Text ⊎ Connected F) × Session W)
      → (b ≡ true → Connects x)
      → (b ≡ false → Connects y)
      → Connects (if b then x else y)
  if-Connects true x y p q = p refl
  if-Connects false x y p q = q refl

  -- Where no other call changes the session while it waits: a connecting that succeeds, by a bridge
  -- that was there or by one that it started, leaves a telemetry and a control client; one that
  -- rejects, because the start or the attaching failed, leaves neither, whatever clients there were
  -- before.
  pub connect_adapter-Connects :
      (config : PluginConfig F) (s : Session W)
      → Connects (connect_adapter N to_lower_case world config s)
  unfolding connect_adapter try_attach_existing_bridge attached_to mark_new_bridge_session Connects
  connect_adapter-Connects config s =
      let tried = try_attach_existing_bridge N to_lower_case world config s in
      let found = after_attach-Found config _ (attach-Attached world alone config _ _ s) in
      if-Connects tried.0.attached _ _
        (λ e.
          await-HasClients world alone
            (world.list_ports config (mark_new_bridge_session world tried.1).world).1
            (mark_new_bridge_session world tried.1) (found.0 e))
        (λ e. start_adapter-Connects config tried.1 (found.1 e))
