-- ===== src/Launcher/Tests.antt =====
-- A launcher that starts a process, and its theorems at it.
use openclaw_serial_adapter.Prelude.{
  ℕ, ◌≡◌, refl, inl, true, false, Option, none, some, List, [], ◌∷◌, ◌++◌, length, get_elem?,
  if◌then◌else◌, arith,
}
use openclaw_serial_adapter.Text.{Text, codes, same_text}
use openclaw_serial_adapter.Json.{Json, str, obj, from_entries, Entries}
use openclaw_serial_adapter.Startup.{StartConfig, not_ready}
use openclaw_serial_adapter.Launcher.{
  failed, ready, Child, Launcher, new_launcher, new_child, Event, starts, stderr_chunk, stdout_line,
  exit, run, on_ready_timeout, on_exit, stop, spawned,
}
use openclaw_serial_adapter.Launcher.Settling.{IsSettling, on_ready_timeout-settles}
use openclaw_serial_adapter.Launcher.Later.{Keeps, run-run-Keeps}
use openclaw_serial_adapter.Launcher.Exits.{on_exit-forgets}
use openclaw_serial_adapter.Launcher.Starting.{Host, start}

abbrev lower : Text → Text
lower s = s

abbrev is_ready : Entries ℕ
is_ready = (codes "status", str (codes "ready")) ∷ []

-- Reads "R" as the message that the adapter is ready, and throws on anything else.
abbrev parse : Text → Option (Json ℕ)
parse s = if same_text s (codes "R") then some (obj (from_entries is_ready)) else none

abbrev events : List (Event ℕ)
events =
    starts (codes "COM3") (codes "py") []
    ∷ stderr_chunk 0 (codes "log")
    ∷ stdout_line 0 (codes "hello")
    ∷ []

abbrev waiting : Child ℕ
waiting = record (new_child (codes "COM3")) {
  stderr = codes "log";
  stdout_preview = codes "hello" ∷ [];
}

-- the child once its line has been read
abbrev settled_child : Child ℕ
settled_child = record waiting {
  settled = true;
  outcomes = ready is_ready ∷ [];
  ready_timer = false;
  stdout_preview = codes "hello" ∷ (codes "R" ∷ []);
}

abbrev ready_events : List (Event ℕ)
ready_events = events ++ stdout_line 0 (codes "R") ∷ []

on_ready_timeout-settles_example :
    (d : Child ℕ) × (get_elem? (on_ready_timeout 0 (run parse lower events new_launcher)).children 0
      ≡ some d)
    × (length d.outcomes ≡ 1)
    × (d.outcomes ≡ (
        if waiting.settled then waiting.outcomes else failed (not_ready waiting.launch_port) ∷ []))
unfolding run
on_ready_timeout-settles_example = on_ready_timeout-settles parse lower events 0 {c = waiting} refl

abbrev running : Launcher ℕ
running = record new_launcher { process = some 0; children = waiting ∷ [] }

run-run-Keeps_example :
    IsSettling settled_child
    × ((d : Child ℕ) × (get_elem?
            (run parse lower
              (exit 0 (codes "1") ∷ [])
              (run parse lower ready_events new_launcher)).children
            0
          ≡ some d)
        × Keeps settled_child d)
unfolding run
run-run-Keeps_example = run-run-Keeps parse lower ready_events (exit 0 (codes "1") ∷ []) 0 refl

-- a stopped process and the one that was started after it
abbrev restarted : Launcher ℕ
restarted = record new_launcher {
  process = some 1;
  children = waiting ∷ (new_child (codes "COM4") ∷ []);
}

on_exit-forgets_example :
    ((on_exit lower 0 (codes "1") restarted).process ≡ none)
    × (get_elem? (on_exit lower 0 (codes "1") restarted).children 1
        ≡ some (new_child (codes "COM4")))
    × (stop (on_exit lower 0 (codes "1") restarted) ≡ on_exit lower 0 (codes "1") restarted)
on_exit-forgets_example = on_exit-forgets lower 0 1 (codes "1") restarted (omega arith)

abbrev host : Host ℕ
host = record {
  listed = inl (codes "no ports");
  listed_again = none;
  python = codes "py";
  python_exists = true;
  entrypoint_exists = true;
  spawn_error = none;
}

abbrev config : StartConfig
config = record {
  python_path = none;
  serial_port = some (codes " COM3 ");
  auto_detect_serial_port = none;
  port_hints = none;
}

-- the process is on the trimmed port
start_test :
    start lower host config new_launcher
    ≡ (none, spawned (codes "COM3") (codes "py") [] new_launcher)
unfolding start
start_test = refl
