-- ===== src/Session/Coherent.antt =====
-- What attaching, connecting and disconnecting in index.ts keep of the session.
use openclaw_serial_adapter.Prelude.{
  ℕ, ◌+◌, suc, Bool, true, false, Option, none, some, List, [], ◌∷◌, ◌≡◌, refl, ap, arith, ltb,
  is_some, if◌then◌else◌, ◌⊎◌, inl, inr,
}
use openclaw_serial_adapter.Number.{Number}
use openclaw_serial_adapter.Text.{Text}
use openclaw_serial_adapter.Json.{Entries}
use openclaw_serial_adapter.Session.{
  PluginConfig, ReadyMessage, World, Session, new_session, mark_new_bridge_session, drop_clients,
  after_control, after_telemetry, attach_adapter_channels, ask_control, Stretch, drops, marks,
  makes, installs, launches, stretch, stretches, await, send_runtime_command_with_ack,
  request_runtime_status, request_runtime_capabilities,
}
use openclaw_serial_adapter.Session.Connect.{
  ExistingBridge, Connected, examine, after_attach, try_attach_existing_bridge, attached_to,
  started, give_up, after_start, attach_started, started_as, start_adapter, connect_adapter,
  disconnect_adapter,
}

-- There is a telemetry client exactly if there is a control client; the two counters are the same;
-- and there is a time of the start exactly if there was a session.
pub record IsCoherent {W : Type 0} (s : Session W) : Type 0 where
  pub paired : is_some s.telemetry ≡ is_some s.control
  pub counted : s.session_id ≡ s.reconnect_count
  pub begun : is_some s.started_at_ms ≡ ltb 0 s.session_id

module _ {W : Type 0} where
  pub new_session-IsCoherent : (w : W) → IsCoherent (new_session w)
  new_session-IsCoherent w = record { paired = refl; counted = refl; begun = refl }

  -- the world, the count and the launcher do not matter
  pub moved-IsCoherent :
      (w : W) (n : ℕ) (l : Option ℕ) (s : Session W)
      → IsCoherent s
      → IsCoherent (record s { world = w; made = n; launcher = l })
  moved-IsCoherent w n l s v = record { paired = v.paired; counted = v.counted; begun = v.begun }

  pub chosen-IsCoherent :
      (b : Bool) (s t : Session W) → IsCoherent s → IsCoherent t → IsCoherent (if b then s else t)
  chosen-IsCoherent true s t v w = v
  chosen-IsCoherent false s t v w = w

  pub if-IsCoherent :
      {A : Type 0} (b : Bool) (x y : A × Session W)
      → IsCoherent x.1
      → IsCoherent y.1
      → IsCoherent (if b then x else y).1
  if-IsCoherent true x y v w = v
  if-IsCoherent false x y v w = w

module _ {W F : Type 0} (world : World W F) where
  mark-IsCoherent : (s : Session W) → IsCoherent s → IsCoherent (mark_new_bridge_session world s)
  unfolding mark_new_bridge_session
  mark-IsCoherent s v = record {
    paired = v.paired;
    counted = ap (λ n. n + 1) v.counted;
    begun = ground arith;
  }

  drop_clients-IsCoherent : (s : Session W) → IsCoherent s → IsCoherent (drop_clients world s)
  unfolding drop_clients
  drop_clients-IsCoherent s v = record { paired = refl; counted = v.counted; begun = v.begun }

  stretch-IsCoherent : (x : Stretch) (s : Session W) → IsCoherent s → IsCoherent (stretch world x s)
  unfolding stretch
  stretch-IsCoherent drops s v = drop_clients-IsCoherent s v
  stretch-IsCoherent marks s v = mark-IsCoherent s v
  stretch-IsCoherent (makes n) s v = moved-IsCoherent _ _ _ s v
  stretch-IsCoherent (installs t c) s v = record {
    paired = refl;
    counted = v.counted;
    begun = v.begun;
  }
  stretch-IsCoherent (launches l) s v = moved-IsCoherent _ _ _ s v

  stretches-IsCoherent :
      (xs : List Stretch) (s : Session W) → IsCoherent s → IsCoherent (stretches world xs s)
  unfolding stretches
  stretches-IsCoherent [] s v = v
  stretches-IsCoherent (x ∷ xs) s v =
      stretches-IsCoherent xs (stretch world x s) (stretch-IsCoherent x s v)

  pub await-IsCoherent : (w : W) (s : Session W) → IsCoherent s → IsCoherent (await world w s)
  unfolding await
  await-IsCoherent w s v =
      stretches-IsCoherent (world.meanwhile w) (record s { world = w })
        (moved-IsCoherent w s.made s.launcher s v)

  after_control-IsCoherent :
      (t c : ℕ) (r : Option Text × W) (s : Session W)
      → IsCoherent s
      → IsCoherent (after_control world t c r s).1
  unfolding after_control
  after_control-IsCoherent t c (none, w) s v =
      let waited = await-IsCoherent w s v in
      record { paired = refl; counted = waited.counted; begun = waited.begun }
  after_control-IsCoherent t c (some message, w) s v =
      moved-IsCoherent _ _ _ (await world w s) (await-IsCoherent w s v)

  after_telemetry-IsCoherent :
      (t c : ℕ) (host : Text) (port : ℕ) (r : Option Text × W) (s : Session W)
      → IsCoherent s
      → IsCoherent (after_telemetry world t c host port r s).1
  unfolding after_telemetry
  after_telemetry-IsCoherent t c host port (none, w) s v =
      after_control-IsCoherent t c (world.connect_control c host port (await world w s).world)
        (await world w s) (await-IsCoherent w s v)
  after_telemetry-IsCoherent t c host port (some message, w) s v =
      moved-IsCoherent _ _ _ (await world w s) (await-IsCoherent w s v)

  pub attach-IsCoherent :
      (config : PluginConfig F) (t c : ℕ) (s : Session W)
      → IsCoherent s
      → IsCoherent (attach_adapter_channels world config t c s).1
  unfolding attach_adapter_channels
  attach-IsCoherent config t c s v =
      after_telemetry-IsCoherent _ _ _ _ _ _
        (moved-IsCoherent _ _ _ (drop_clients world s) (drop_clients-IsCoherent s v))

module _ (N : Number) {W : Type 0} (world : World W (N.F)) where
  open N use {F}

  pub ask_control-IsCoherent :
      (c : Option ℕ) (command : Entries F) (config : PluginConfig F) (s : Session W)
      → IsCoherent s
      → IsCoherent (ask_control N world c command config s).1
  unfolding ask_control
  ask_control-IsCoherent none command config s v = v
  ask_control-IsCoherent (some c) command config s v = await-IsCoherent world _ s v

  pub status-IsCoherent :
      (config : PluginConfig F) (s : Session W)
      → IsCoherent s
      → IsCoherent (request_runtime_status N world config s).1
  unfolding request_runtime_status send_runtime_command_with_ack
  status-IsCoherent config s v = ask_control-IsCoherent s.control _ config s v

  capabilities-IsCoherent :
      (config : PluginConfig F) (s : Session W)
      → IsCoherent s
      → IsCoherent (request_runtime_capabilities N world config s).1
  unfolding request_runtime_capabilities send_runtime_command_with_ack
  capabilities-IsCoherent config s v = ask_control-IsCoherent s.control _ config s v

module _ (N : Number) (to_lower_case : Text → Text) {W : Type 0} (world : World W (N.F)) where
  open N use {F}

  examine-IsCoherent :
      (config : PluginConfig F) (s : Session W)
      → IsCoherent s
      → IsCoherent (examine N to_lower_case world config s).1
  unfolding examine
  examine-IsCoherent config s v =
      let asked = capabilities-IsCoherent N world config s v in
      let answered = status-IsCoherent N world config _ asked in
      if-IsCoherent _ _ _ answered (drop_clients-IsCoherent world _ answered)

  after_attach-IsCoherent :
      (config : PluginConfig F) (r : Option Text × Session W)
      → IsCoherent r.1
      → IsCoherent (after_attach N to_lower_case world config r).1
  unfolding after_attach
  after_attach-IsCoherent config (none, s) v = examine-IsCoherent config s v
  after_attach-IsCoherent config (some message, s) v = v

  try_attach-IsCoherent :
      (config : PluginConfig F) (s : Session W)
      → IsCoherent s
      → IsCoherent (try_attach_existing_bridge N to_lower_case world config s).1
  unfolding try_attach_existing_bridge
  try_attach-IsCoherent config s v =
      after_attach-IsCoherent config _ (attach-IsCoherent world config _ _ s v)

  attached_to-IsCoherent :
      (config : PluginConfig F) (existing : ExistingBridge F) (s : Session W)
      → IsCoherent s
      → IsCoherent (attached_to N to_lower_case world config existing s).1
  unfolding attached_to
  attached_to-IsCoherent config existing s v =
      await-IsCoherent world _ _ (mark-IsCoherent world s v)

  give_up-IsCoherent :
      (message : Text) (l : Option ℕ) (s : Session W)
      → IsCoherent s
      → IsCoherent (give_up N to_lower_case world message l s).1
  unfolding give_up
  give_up-IsCoherent message none s v = v
  give_up-IsCoherent message (some l) s v =
      moved-IsCoherent _ _ _ (await world (world.stop l s.world) s) (await-IsCoherent world _ s v)

  after_start-IsCoherent :
      (connected : Connected F) (r : Option Text × Session W)
      → IsCoherent r.1
      → IsCoherent (after_start N to_lower_case world connected r).1
  unfolding after_start
  after_start-IsCoherent connected (none, s) v = v
  after_start-IsCoherent connected (some message, s) v = give_up-IsCoherent message s.launcher s v

  attach_started-IsCoherent :
      (l : Option ℕ) (config : PluginConfig F) (ready : ReadyMessage) (s : Session W)
      → IsCoherent s
      → IsCoherent (attach_started N to_lower_case world l config ready s).1
  unfolding attach_started
  attach_started-IsCoherent none config ready s v = v
  attach_started-IsCoherent (some l) config ready s v =
      after_start-IsCoherent (started N to_lower_case world l config ready s) _
        (attach-IsCoherent world config _ _ s v)

  started_as-IsCoherent :
      (config : PluginConfig F) (r : Text ⊎ ReadyMessage) (s : Session W)
      → IsCoherent s
      → IsCoherent (started_as N to_lower_case world config r s).1
  unfolding started_as
  started_as-IsCoherent config (inl message) s v = v
  started_as-IsCoherent config (inr ready) s v =
      attach_started-IsCoherent _ config ready _ (mark-IsCoherent world s v)

  start_adapter-IsCoherent :
      (config : PluginConfig F) (s : Session W)
      → IsCoherent s
      → IsCoherent (start_adapter N to_lower_case world config s).1
  unfolding start_adapter
  start_adapter-IsCoherent config s v =
      let start = world.start s.made config s.world in
      started_as-IsCoherent config start.0 _
        (await-IsCoherent world start.1 _ (moved-IsCoherent s.world (suc s.made) (some s.made) s v))

  pub connect_adapter-IsCoherent :
      (config : PluginConfig F) (s : Session W)
      → IsCoherent s
      → IsCoherent (connect_adapter N to_lower_case world config s).1
  unfolding connect_adapter
  connect_adapter-IsCoherent config s v =
      let tried = try_attach_existing_bridge N to_lower_case world config s in
      let attached = attached_to N to_lower_case world config tried.0 tried.1 in
      let w = try_attach-IsCoherent config s v in
      if-IsCoherent tried.0.attached (inr attached.0, attached.1)
        (start_adapter N to_lower_case world config tried.1)
        (attached_to-IsCoherent config tried.0 tried.1 w)
        (start_adapter-IsCoherent config tried.1 w)

  pub disconnect_adapter-IsCoherent :
      (s : Session W) → IsCoherent s → IsCoherent (disconnect_adapter N to_lower_case world s)
  unfolding disconnect_adapter
  disconnect_adapter-IsCoherent s v =
      moved-IsCoherent _ _ _ (await world _ (drop_clients world s))
        (await-IsCoherent world _ (drop_clients world s) (drop_clients-IsCoherent world s v))
