-- ===== src/ControlPlane/Tests.antt =====
-- The control plane on two commands and some noise, and its theorems at them.
use openclaw_serial_adapter.Prelude.{
  ℕ, suc, ◌≡◌, refl, true, some, [], ◌∷◌, ◌++◌, length, if◌then◌else◌,
}
use openclaw_serial_adapter.Number.Natural.{natural}
use openclaw_serial_adapter.Text.{Text, codes, same_text}
use openclaw_serial_adapter.Json.{Json, null, bool, num, str, obj, from_entries}
use openclaw_serial_adapter.ControlPlane.{
  Tried, done, threw, Plane, on_data, validate_command, bad_window,
}
use openclaw_serial_adapter.ControlPlane.Chunks.{on_data-append}

abbrev autosave : Json ℕ
autosave =
    obj
      (from_entries ((codes "cmd", str (codes "set_autosave")) ∷ (codes "enabled", bool true) ∷ []))

-- Reads "on" as a command, and throws on anything else.
abbrev parse : Text → Tried (Json ℕ)
parse s = if same_text s (codes "on") then done autosave else threw (codes "bad")

-- Counts the commands.
abbrev apply_command : Json ℕ → ℕ → ℕ × Tried (Json ℕ)
apply_command command n = (suc n, done null)

abbrev get_state : ℕ → Json ℕ
get_state = num

abbrev fresh : Plane ℕ ℕ
fresh = record { buffer = []; acks = []; app = 0 }

on_data-append_example :
    on_data natural parse apply_command get_state
      (codes "n\n\nx\no")
      (on_data natural parse apply_command get_state (codes "on\n  o") fresh)
    ≡ on_data natural parse apply_command get_state (codes "on\n  o" ++ codes "n\n\nx\no") fresh
on_data-append_example =
    on_data-append natural parse apply_command get_state (codes "on\n  o") (codes "n\n\nx\no") fresh

on_data_runs :
    let p = on_data natural parse apply_command get_state (codes "on\n\nx\non\no") fresh in
    (p.app ≡ 2) × (length p.acks ≡ 3) × (p.buffer ≡ codes "o")
unfolding on_data
on_data_runs = (refl, refl, refl)

validate_runs :
    validate_command natural
      (obj (from_entries ((codes "cmd", str (codes "set_window")) ∷ (codes "window", num 0) ∷ [])))
    ≡ some bad_window
unfolding validate_command
validate_runs = refl
