-- ===== src/Session/Tools/Arbitration.antt =====
-- What the tools `serial_pause`, `serial_yield` and `serial_resume` of index.ts ask of a bridge.
use openclaw_serial_adapter.Prelude.{
  ℕ, true, false, ◌&&◌, Option, none, some, [], ◌∷◌, ◌++◌, ◌≡◌, refl, ap, sym, subst, ◌∙◌, arith,
  is_some, or_else, if◌then◌else◌,
}
use openclaw_serial_adapter.Prelude.Int.{pos}
use openclaw_serial_adapter.Number.{Number, IsOrder}
use openclaw_serial_adapter.Number.Order.{lt_asym}
use openclaw_serial_adapter.Text.{Text, codes, same_text}
use openclaw_serial_adapter.Json.{Json, num, str, Entries}
use openclaw_serial_adapter.Frame.{get_field}
use openclaw_serial_adapter.Startup.{trimmed}
use openclaw_serial_adapter.Session.{
  PluginConfig, World, Session, is_bridge_connected, resolve_ack_timeout_ms, ask_control,
  send_runtime_command_with_ack,
}
use openclaw_serial_adapter.Session.Alone.{IsAlone, await-alone}
use openclaw_serial_adapter.Session.Ensure.{BridgeEnsureResult}
use openclaw_serial_adapter.Session.Channels.{if-true, Checks, ensure_bridge_ready-Checks, asks}
use openclaw_serial_adapter.Session.Tools.{
  ArbitrationParams, ArbitrationAnswer, unavailable, requested, hold_seconds, hold_s, json_number,
  optional_entry, arbitration_command, pause_command, yield_command, without_resume, request,
  serial_pause, serial_yield, serial_resume,
}

module _ (N : Number) where
  open N use {F, lt, of_int}

  -- The time to hold that a command is to name: the default where none is given; otherwise what is
  -- given, but at most 300 seconds, and none where it is not more than 0.
  abbrev pub held_for : ℕ → Option F → Option (Json F)
  held_for default none = some (num (of_int (pos default)))
  held_for default (some x) =
      if lt (of_int (pos 300)) x
      then some (num (of_int (pos 300)))
      else if lt (of_int (pos 0)) x
      then some (num x)
      else none

  -- What the fields of a command to the bridge are to be, by its name and the defaults.
  unfoldable pub IsRequest : Text → ℕ → Text → Text → ArbitrationParams F → Entries F → Type 0
  IsRequest name default_s requester reason params command =
      (get_field (codes "__adapter_cmd") command ≡ some (str name))
      × (get_field (codes "hold_s") command ≡ held_for default_s params.seconds)
      × (get_field (codes "requested_by") command
          ≡ some (str (or_else (trimmed params.requested_by) requester)))
      × (get_field (codes "reason") command ≡ some (str (or_else (trimmed params.reason) reason)))

  -- The comparisons that the tools make between their own constants.
  pub record IsPositive : Type 0 where
    pub least : lt (of_int (pos 300)) (of_int (pos 0)) ≡ false
    pub most : lt (of_int (pos 0)) (of_int (pos 300)) ≡ true
    pub pause : lt (of_int (pos 0)) (of_int (pos 25)) ≡ true
    pub yield : lt (of_int (pos 0)) (of_int (pos 30)) ≡ true

  hold_s-held_for :
      IsOrder N
      → IsPositive
      → (default : ℕ) (seconds : Option F) → lt (of_int (pos 0)) (of_int (pos default)) ≡ true
      → json_number N (hold_s N default seconds) ≡ held_for default seconds
  unfolding hold_s hold_seconds
  hold_s-held_for o p default none h = ground (arith, h)
  hold_s-held_for o p default (some x) h = ground (
    arith,
    p.least,
    p.most,
    o.lt_irrefl (of_int (pos 0)),
    lt_asym N o x (of_int (pos 0)),
    lt_asym N o (of_int (pos 0)) x,
  )

  -- the fields of a command with a time to hold or without one
  fields-of :
      (name requester reason : Text) (hold : Option F)
      → let command : Entries F =
          (codes "__adapter_cmd", str name)
          ∷ (optional_entry (codes "hold_s") (json_number N hold)
              ++ ((codes "requested_by", str requester) ∷ ((codes "reason", str reason) ∷ []))) in
        (get_field (codes "__adapter_cmd") command ≡ some (str name))
        × (get_field (codes "hold_s") command ≡ json_number N hold)
        × (get_field (codes "requested_by") command ≡ some (str requester))
        × (get_field (codes "reason") command ≡ some (str reason))
  unfolding get_field same_text
  fields-of name requester reason none = (refl, refl, refl, refl)
  fields-of name requester reason (some x) = (refl, refl, refl, refl)

  fields-IsRequest :
      (name requester reason : Text) (default : ℕ) (params : ArbitrationParams F)
      → json_number N (hold_s N default params.seconds) ≡ held_for default params.seconds
      → IsRequest name default requester reason params
          (arbitration_command N name default requester reason params)
  unfolding arbitration_command IsRequest
  fields-IsRequest name requester reason default params h =
      let (is_name, is_hold, is_requester, is_reason) =
        fields-of name (or_else (trimmed params.requested_by) requester)
          (or_else (trimmed params.reason) reason) (hold_s N default params.seconds) in
      (is_name, is_hold ∙ h, is_requester, is_reason)

module _ (N : Number) (to_lower_case : Text → Text) {W : Type 0} (world : World W (N.F)) where
  open N use {F}

  abbrev pub ack_of : ArbitrationAnswer F → Option (Option (Json F))
  ack_of (unavailable error) = none
  ack_of (requested status hold bridge ack) = some ack

  -- After a connected bridge has been asked for its status, the command is asked, and nothing else;
  -- the answer has its acknowledgement.
  abbrev pub Asks :
      PluginConfig F → ℕ → Entries F → Session W → ArbitrationAnswer F × Session W → Type 0
  Asks config c command s x =
      let w = (asks N to_lower_case world c config (codes "status") s.world).1 in
      let asked = world.ask c command (resolve_ack_timeout_ms N config) w in
      (x.1 ≡ record s { world = asked.1 }) × (ack_of x.0 ≡ some asked.0)

  request-some :
      IsAlone world
      → (status : Text) (hold : Option F) (command : Entries F) (config : PluginConfig F)
        (bridge : BridgeEnsureResult F) (s : Session W) {c : ℕ}
      → bridge.connected ≡ true
      → s.control ≡ some c
      → let asked = world.ask c command (resolve_ack_timeout_ms N config) s.world in
        request N to_lower_case world status hold command config (bridge, s)
        ≡ (requested status hold bridge asked.0, record s { world = asked.1 })
  unfolding request send_runtime_command_with_ack ask_control
  request-some alone status hold command config bridge s {c} is h =
      ap
        (λ o.
          let r = ask_control N world o command config s in
          if bridge.connected && is_some o
          then (requested status hold bridge r.0, r.1)
          else (unavailable bridge.error, s))
        h
      ∙ if-true (bridge.connected && true) _ _ (ap (λ b. b && true) is)
      ∙ ap
          (λ t. (
            requested status hold bridge
                (world.ask c command (resolve_ack_timeout_ms N config) s.world).0,
            t,
          ))
          (await-alone world alone _ s)

  request-Asks :
      IsAlone world
      → (status : Text) (hold : Option F) (command : Entries F) (config : PluginConfig F)
        (s : Session W) {c : ℕ} (r : BridgeEnsureResult F × Session W)
      → s.control ≡ some c
      → Checks N to_lower_case world config false c s r
      → Asks config c command s (request N to_lower_case world status hold command config r)
  request-Asks alone status hold command config s {c} (bridge, t) h v =
      let w = (asks N to_lower_case world c config (codes "status") s.world).1 in
      let asked : Session W = record s { world = w } in
      let is : request N to_lower_case world status hold command config (bridge, t) ≡ _ =
        ap (λ u. request N to_lower_case world status hold command config (bridge, u)) v.0
        ∙ request-some alone status hold command config bridge asked v.1 h in
      subst (Asks config c command s) (sym is) (refl, refl)

  -- One tool's request: a command with its name and fields is asked, after the status.
  abbrev pub AsksFor :
      Text
      → ℕ
      → Text
      → Text
      → PluginConfig F
      → ArbitrationParams F
      → ℕ
      → Session W
      → ArbitrationAnswer F × Session W
      → Type 0
  AsksFor name default_s requester reason config params c s x =
      (command : Entries F) × IsRequest N name default_s requester reason params command
      × Asks config c command s x

  -- Where the bridge is connected and no other call changes the session meanwhile, each of the three
  -- tools asks it for its status and then one command, whose acknowledgement, if any, is in the
  -- answer; it does not resume the bridge first, whatever the status says, and nothing but the world
  -- changes. The command of `serial_pause` is "pause" for 25 seconds and that of `serial_yield` is
  -- "yield" for 30, if no time is given; a time given is taken to at most 300 seconds and left out if
  -- it is not more than 0; each names who asks and why, or the tool's own texts where that is not
  -- given or blank. The command of `serial_resume` is "resume" alone. Numbers are taken to be ordered.
  pub serial_pause-Asks :
      IsOrder N
      → IsPositive N
      → IsAlone world
      → (config : PluginConfig F) (params : ArbitrationParams F)
        (in_flight : Option (Session W → Option Text × Session W)) (s : Session W) {c : ℕ}
      → is_bridge_connected world s ≡ true
      → s.control ≡ some c
      → AsksFor
          (codes "pause")
          25
          (codes "serial_pause_tool")
          (codes "manual_pause")
          config
          params
          c
          s
          (serial_pause N to_lower_case world config params in_flight s)
        × AsksFor
            (codes "yield")
            30
            (codes "serial_yield_tool")
            (codes "com_arbitration_request")
            config
            params
            c
            s
            (serial_yield N to_lower_case world config params in_flight s)
        × Asks config c
            ((codes "__adapter_cmd", str (codes "resume")) ∷ [])
            s
            (serial_resume N to_lower_case world config params.auto_connect in_flight s)
  unfolding serial_pause serial_yield serial_resume
  serial_pause-Asks o p alone config params in_flight s {c} h e =
      let checked =
        ensure_bridge_ready-Checks N to_lower_case world alone config
          (without_resume N to_lower_case world params.auto_connect) in_flight s h e in
      (
        (
          pause_command N params,
          fields-IsRequest N _ _ _ 25 params (hold_s-held_for N o p 25 params.seconds p.pause),
          request-Asks alone _ _ _ config s _ e checked,
        ),
        (
          yield_command N params,
          fields-IsRequest N _ _ _ 30 params (hold_s-held_for N o p 30 params.seconds p.yield),
          request-Asks alone _ _ _ config s _ e checked,
        ),
        request-Asks alone _ _ _ config s _ e checked,
      )
