-- ===== src/Launcher/Starting.antt =====
-- `start` of src/launcher.ts from its guard to the moment when it waits for the process to be ready.
-- The ports that the two probes list, the interpreter, the file system and `spawn` are fields of
-- `Host`.
use openclaw_serial_adapter.Prelude.{
  ℕ, Bool, true, false, Option, none, some, List, [], ◌∷◌, ◌++◌, ◌&&◌, ◌≡◌, ◌⊎◌, inl, inr, length,
  not, is_some, refl, or_else, if◌then◌else◌,
}
use mathlib.Core.Bool.{false≢true}
use openclaw_serial_adapter.Text.{Text, same_text}
use openclaw_serial_adapter.Ports.{SerialPortInfo}
use openclaw_serial_adapter.Startup.{
  StartConfig, StartError, already_running, probe_failed, no_port, python_missing,
  entrypoint_missing, classify_startup_failure, is_likely_path, resolve_launch_port, trimmed,
}
use openclaw_serial_adapter.Launcher.{Launcher, new_child, spawned}

-- What a start meets: the results of the first and the second listing of the ports, or the message
-- that the first rejects with; the interpreter that `resolvePython` names, whether it and the
-- entrypoint exist; and the message that `spawn` throws, if it does.
pub record Host (F : Type 0) : Type 0 where
  pub listed : Text ⊎ List (SerialPortInfo F)
  pub listed_again : Option (List (SerialPortInfo F))
  pub python : Text
  pub python_exists : Bool
  pub entrypoint_exists : Bool
  pub spawn_error : Option Text

-- where `resolveLaunchPort` lists no ports, nothing that the listing does matters
abbrev pub does_list : StartConfig → Bool
does_list config =
    not (is_some (trimmed config.serial_port)) && or_else config.auto_detect_serial_port true

module _ {F : Type 0} where
  -- The start of a process: it is the current one and no other was touched, or there was no port, no
  -- interpreter or no entrypoint, and no process was spawned.
  abbrev pub StartsOne : Launcher F → Option (StartError F) × Launcher F → Type 0
  StartsOne l (none, m) =
      (l.process ≡ none)
      × (m.process ≡ some (length l.children))
      × ((port : Text) × ((m.children ≡ l.children ++ new_child port ∷ [])
            × (m.resolved_port ≡ some port)))
  StartsOne l (some e, m) = (m.process ≡ l.process) × (m.children ≡ l.children)

module _ {F : Type 0} (to_lower_case : Text → Text) where
  -- the ports that were probed last, listed once more where there are none
  abbrev pub probed :
      Option (List (SerialPortInfo F)) → List (SerialPortInfo F) → List (SerialPortInfo F)
  probed listed_again [] = or_else listed_again []
  probed listed_again (port ∷ ports) = port ∷ ports

  -- a configured path at which there is no interpreter
  abbrev pub is_missing_python : Host F → StartConfig → Bool
  is_missing_python host config = elim config.python_path [
    | none ↦ false
    | some path ↦
        is_likely_path to_lower_case path && not host.python_exists && same_text host.python path
  ]

  -- `spawn`, by the message that it throws
  unfoldable pub spawn_with :
      Option Text → Text → Text → Launcher F → Option (StartError F) × Launcher F
  unfolding spawned classify_startup_failure
  spawn_with none launch_port python l = (none, spawned launch_port python l.last_probe_ports l)
  spawn_with (some message) launch_port python l = (
    some (classify_startup_failure to_lower_case launch_port l.last_probe_ports python message),
    record l { resolved_port = some launch_port; python_path_in_use = some python },
  )

  -- the checks once a port is chosen, and `spawn`
  unfoldable pub start_on :
      Host F → StartConfig → Text → Launcher F → Option (StartError F) × Launcher F
  unfolding spawn_with is_likely_path same_text
  start_on host config launch_port l =
      let found : Launcher F = record l { python_path_in_use = some host.python } in
      let enters =
        (if host.entrypoint_exists
          then spawn_with host.spawn_error launch_port host.python l
          else (some entrypoint_missing, found)) in
      if is_missing_python host config then (some (python_missing host.python), found) else enters

  -- `start` once the port is chosen, if one is
  unfoldable pub start_at :
      Host F → StartConfig → Launcher F → Option Text → Option (StartError F) × Launcher F
  unfolding start_on
  start_at host config l none = (some (no_port l.last_probe_ports), l)
  start_at host config l (some launch_port) = start_on host config launch_port l

  -- `start` after its guard, by what `resolveLaunchPort` lists and chooses
  unfoldable pub start_with :
      Host F
      → StartConfig
      → List (SerialPortInfo F)
      → Launcher F
      → Option (StartError F) × Launcher F
  unfolding start_at resolve_launch_port
  start_with host config listed l =
      let resolved = resolve_launch_port to_lower_case config listed in
      let ports = probed host.listed_again (or_else resolved.0 l.last_probe_ports) in
      start_at host config (record l { last_probe_ports = ports }) resolved.1

  -- the port is resolved: the first listing may reject
  unfoldable pub start_listed :
      Host F
      → StartConfig
      → Launcher F
      → Text ⊎ List (SerialPortInfo F)
      → Option (StartError F) × Launcher F
  unfolding start_with trimmed
  start_listed host config l (inl message) =
      if does_list config then (some (probe_failed message), l) else start_with host config [] l
  start_listed host config l (inr ports) = start_with host config ports l

  unfoldable pub start : Host F → StartConfig → Launcher F → Option (StartError F) × Launcher F
  unfolding start_listed
  start host config l =
      if is_some l.process
      then (some already_running, l)
      else start_listed host config l host.listed

  if-StartsOne :
      (l : Launcher F) (b : Bool) (x y : Option (StartError F) × Launcher F)
      → StartsOne l x
      → StartsOne l y
      → StartsOne l (if b then x else y)
  if-StartsOne l true x y p q = p
  if-StartsOne l false x y p q = q

  spawn_with-StartsOne :
      (error : Option Text) (port python : Text) (l : Launcher F)
      → l.process ≡ none
      → StartsOne l (spawn_with error port python l)
  unfolding spawn_with spawned
  spawn_with-StartsOne none port python l h = (h, refl, (port, (refl, refl)))
  spawn_with-StartsOne (some message) port python l h = (refl, refl)

  start_on-StartsOne :
      (host : Host F) (config : StartConfig) (port : Text) (l : Launcher F)
      → l.process ≡ none
      → StartsOne l (start_on host config port l)
  unfolding start_on
  start_on-StartsOne host config port l h =
      if-StartsOne l (is_missing_python host config) _ _ (refl, refl)
        (if-StartsOne l host.entrypoint_exists _ _
          (spawn_with-StartsOne host.spawn_error port host.python l h) (refl, refl))

  start_at-StartsOne :
      (host : Host F) (config : StartConfig) (l : Launcher F) (port : Option Text)
      → l.process ≡ none
      → StartsOne l (start_at host config l port)
  unfolding start_at
  start_at-StartsOne host config l none h = (refl, refl)
  start_at-StartsOne host config l (some port) h = start_on-StartsOne host config port l h

  -- the ports that were probed do not matter to a start
  StartsOne-probed :
      (ports : List (SerialPortInfo F)) (l : Launcher F) (x : Option (StartError F) × Launcher F)
      → StartsOne (record l { last_probe_ports = ports }) x
      → StartsOne l x
  StartsOne-probed ports l (none, m) p = p
  StartsOne-probed ports l (some e, m) p = p

  start_with-StartsOne :
      (host : Host F) (config : StartConfig) (listed : List (SerialPortInfo F)) (l : Launcher F)
      → l.process ≡ none
      → StartsOne l (start_with host config listed l)
  unfolding start_with
  start_with-StartsOne host config listed l h =
      let resolved = resolve_launch_port to_lower_case config listed in
      let ports = probed host.listed_again (or_else resolved.0 l.last_probe_ports) in
      StartsOne-probed ports l _ (start_at-StartsOne host config _ _ h)

  start_listed-StartsOne :
      (host : Host F) (config : StartConfig) (l : Launcher F)
      (listed : Text ⊎ List (SerialPortInfo F))
      → l.process ≡ none
      → StartsOne l (start_listed host config l listed)
  unfolding start_listed
  start_listed-StartsOne host config l (inl message) h =
      if-StartsOne l (does_list config) _ _ (refl, refl) (start_with-StartsOne host config [] l h)
  start_listed-StartsOne host config l (inr ports) h = start_with-StartsOne host config ports l h

  -- A start of a launcher with no process spawns one process, which becomes the current one, on the
  -- port that the launcher then names, and touches no other; or it is rejected and spawns none. A
  -- start of a launcher with a process is rejected and changes nothing.
  pub start-StartsOne :
      (host : Host F) (config : StartConfig) (l : Launcher F)
      → StartsOne l (start host config l)
        × (is_some l.process ≡ true → start host config l ≡ (some already_running, l))
  unfolding start
  start-StartsOne host config l = go l.process refl
    where
      go :
          (o : Option ℕ)
          → l.process ≡ o
          → StartsOne l (
              if is_some o
              then (some already_running, l)
              else start_listed host config l host.listed)
            × (is_some o ≡ true
                → (if is_some o
                    then (some already_running, l)
                    else start_listed host config l host.listed)
                  ≡ (some already_running, l))
      go none e = (start_listed-StartsOne host config l host.listed e, λ h. absurd (false≢true h))
      go (some i) e = ((refl, refl), λ h. refl)
