-- ===== src/Session/Counters.antt =====
-- What holds of the session of index.ts after any row of its operations, whatever the processes and
-- the sockets do between them.
use openclaw_serial_adapter.Prelude.{
  Bool, true, false, Option, none, some, List, [], ◌∷◌, or_else, ◌⊎◌, inl, inr,
}
use openclaw_serial_adapter.Number.{Number}
use openclaw_serial_adapter.Text.{Text}
use openclaw_serial_adapter.Session.{
  is_bridge_connected, PluginConfig, ReadyMessage, World, Session, new_session,
  send_runtime_command_with_ack, request_runtime_status,
}
use openclaw_serial_adapter.Session.Connect.{Connected, connect_adapter}
use openclaw_serial_adapter.Session.Ensure.{
  in_flight_of, resolve_auto_resume_on_use, resolve_tool_auto_connect, build_dynamic_config,
  running, ready_now, Op, starts, connects, stops, ensures, outside, step, run, service_start,
  BridgeEnsureOptions, connect_running, connect_task, message_of, resume, after_status,
  check_runtime, finish, after_connect, ensure_bridge_ready, after_reattach, answer_of, reattach,
  serial_connect,
}
use openclaw_serial_adapter.Session.Coherent.{
  IsCoherent, new_session-IsCoherent, moved-IsCoherent, chosen-IsCoherent, if-IsCoherent,
  attach-IsCoherent, ask_control-IsCoherent, status-IsCoherent, connect_adapter-IsCoherent,
  disconnect_adapter-IsCoherent,
}

module _ (N : Number) (to_lower_case : Text → Text) {W : Type 0} (world : World W (N.F)) where
  open N use {F}

  message_of-IsCoherent :
      (r : (Text ⊎ Connected F) × Session W)
      → IsCoherent r.1
      → IsCoherent (message_of N to_lower_case world r).1
  message_of-IsCoherent (inl message, s) v = v
  message_of-IsCoherent (inr c, s) v = v

  connect_running-IsCoherent :
      (config : PluginConfig F) (r : Option ReadyMessage) (s : Session W)
      → IsCoherent s
      → IsCoherent (connect_running N to_lower_case world config r s).1
  unfolding connect_running
  connect_running-IsCoherent config (some ready) s v = attach-IsCoherent world config _ _ s v
  connect_running-IsCoherent config none s v = message_of-IsCoherent _ (
      connect_adapter-IsCoherent N to_lower_case world config _
        (disconnect_adapter-IsCoherent N to_lower_case world s v))

  connect_task-IsCoherent :
      (config : PluginConfig F) (s : Session W)
      → IsCoherent s
      → IsCoherent (connect_task N to_lower_case world config s).1
  unfolding connect_task
  connect_task-IsCoherent config s v =
      if-IsCoherent _ _
        (message_of N to_lower_case world (connect_adapter N to_lower_case world config s))
        (connect_running-IsCoherent config _ s v)
        (message_of-IsCoherent (connect_adapter N to_lower_case world config s)
          (connect_adapter-IsCoherent N to_lower_case world config s v))

  resume-IsCoherent :
      (config : PluginConfig F) (s : Session W)
      → IsCoherent s
      → IsCoherent (resume N to_lower_case world config s).1
  unfolding resume send_runtime_command_with_ack
  resume-IsCoherent config s v =
      status-IsCoherent N world config _ (ask_control-IsCoherent N world s.control _ config s v)

  check_runtime-IsCoherent :
      (config : PluginConfig F) (a b : Bool) (s : Session W)
      → IsCoherent s
      → IsCoherent (check_runtime N to_lower_case world config a b s).1
  unfolding check_runtime after_status
  check_runtime-IsCoherent config a b s v =
      let w = status-IsCoherent N world config s v in
      if-IsCoherent _ _ (request_runtime_status N world config s) (resume-IsCoherent config _ w) w

  finish-IsCoherent :
      (config : PluginConfig F) (a b : Bool) (s : Session W)
      → IsCoherent s
      → IsCoherent (finish N to_lower_case world config a b s).1
  unfolding finish
  finish-IsCoherent config a b s v =
      if-IsCoherent _ (check_runtime N to_lower_case world config a b s) _
        (check_runtime-IsCoherent config a b s v) v

  after_connect-IsCoherent :
      (config : PluginConfig F) (a : Bool) (r : Option Text × Session W)
      → IsCoherent r.1
      → IsCoherent (after_connect N to_lower_case world config a r).1
  unfolding after_connect
  after_connect-IsCoherent config a (none, s) v = finish-IsCoherent config a true s v
  after_connect-IsCoherent config a (some message, s) v = v

  task-IsCoherent :
      (other : Option (PluginConfig F)) (config : PluginConfig F) (s : Session W)
      → IsCoherent s
      → IsCoherent
          (or_else
            (in_flight_of N to_lower_case world other)
            (connect_task N to_lower_case world config)
            s).1
  task-IsCoherent none config s v = connect_task-IsCoherent config s v
  task-IsCoherent (some other) config s v = connect_task-IsCoherent other s v

  answer_of-IsCoherent :
      (r : (Text ⊎ Connected F) × Session W)
      → IsCoherent r.1
      → IsCoherent (answer_of N to_lower_case world r).1
  unfolding answer_of
  answer_of-IsCoherent (inl message, s) v = v
  answer_of-IsCoherent (inr c, s) v = v

  after_reattach-IsCoherent :
      (config : PluginConfig F) (ready : ReadyMessage) (r : Option Text × Session W)
      → IsCoherent r.1
      → IsCoherent (after_reattach N to_lower_case world config ready r).1
  unfolding after_reattach
  after_reattach-IsCoherent config ready (none, s) v = v
  after_reattach-IsCoherent config ready (some message, s) v = v

  ensure_bridge_ready-IsCoherent :
      (config : PluginConfig F) (options : BridgeEnsureOptions F) (other : Option (PluginConfig F))
      (s : Session W)
      → IsCoherent s
      → IsCoherent
          (ensure_bridge_ready N to_lower_case world config options
            (in_flight_of N to_lower_case world other)
            s).1
  unfolding ensure_bridge_ready
  ensure_bridge_ready-IsCoherent config options other s v =
      let dynamic = build_dynamic_config config options in
      let auto_resume = resolve_auto_resume_on_use config options.auto_resume in
      let task =
        or_else (in_flight_of N to_lower_case world other)
          (connect_task N to_lower_case world dynamic) in
      if-IsCoherent (is_bridge_connected world s)
        (finish N to_lower_case world dynamic auto_resume false s) _
        (finish-IsCoherent dynamic auto_resume false s v)
        (if-IsCoherent (resolve_tool_auto_connect config options.auto_connect)
          (after_connect N to_lower_case world dynamic auto_resume (task s)) _
          (after_connect-IsCoherent dynamic auto_resume (task s)
            (task-IsCoherent other dynamic s v))
          v)

  reattach-IsCoherent :
      (config : PluginConfig F) (r : Option ReadyMessage) (s : Session W)
      → IsCoherent s
      → IsCoherent (reattach N to_lower_case world config r s).1
  unfolding reattach
  reattach-IsCoherent config (some ready) s v =
      after_reattach-IsCoherent config ready _ (attach-IsCoherent world config _ _ s v)
  reattach-IsCoherent config none s v = answer_of-IsCoherent _ (
      connect_adapter-IsCoherent N to_lower_case world config _
        (disconnect_adapter-IsCoherent N to_lower_case world s v))

  serial_connect-IsCoherent :
      (config : PluginConfig F) (s : Session W)
      → IsCoherent s
      → IsCoherent (serial_connect N to_lower_case world config s).1
  unfolding serial_connect
  serial_connect-IsCoherent config s v =
      let connecting = connect_adapter N to_lower_case world config s in
      if-IsCoherent (running N to_lower_case world s.launcher s.world) _
        (answer_of N to_lower_case world connecting)
        (if-IsCoherent (is_bridge_connected world s) _
          (reattach N to_lower_case world config
            (ready_now N to_lower_case world s.launcher s.world) s)
          v (reattach-IsCoherent config _ s v))
        (answer_of-IsCoherent connecting
          (connect_adapter-IsCoherent N to_lower_case world config s v))

  step-IsCoherent :
      (s : Session W) (op : Op W F) → IsCoherent s → IsCoherent (step N to_lower_case world s op)
  unfolding step service_start
  step-IsCoherent s (starts config) v =
      chosen-IsCoherent _ s _ v (connect_adapter-IsCoherent N to_lower_case world config s v)
  step-IsCoherent s (connects config) v = serial_connect-IsCoherent config s v
  step-IsCoherent s stops v = disconnect_adapter-IsCoherent N to_lower_case world s v
  step-IsCoherent s (ensures config options other) v =
      ensure_bridge_ready-IsCoherent config options other s v
  step-IsCoherent s (outside change) v = moved-IsCoherent _ _ _ s v

  run-IsCoherent :
      (ops : List (Op W F)) (s : Session W)
      → IsCoherent s
      → IsCoherent (run N to_lower_case world ops s)
  unfolding run
  run-IsCoherent [] s v = v
  run-IsCoherent (op ∷ ops) s v = run-IsCoherent ops _ (step-IsCoherent s op v)

  -- After any row of starts and stops of the service, of connecting and of needing the bridge, while
  -- the processes and sockets change as they may: the two clients are there together or neither is;
  -- the number of the session and the count of reconnects are the same; and there is a time of the
  -- start exactly if there was a session.
  pub run-new_session-IsCoherent :
      (ops : List (Op W F)) (w : W) → IsCoherent (run N to_lower_case world ops (new_session w))
  run-new_session-IsCoherent ops w = run-IsCoherent ops (new_session w) (new_session-IsCoherent w)
