-- ===== src/Commands/Tests.antt =====
-- Runs of the commands, and the theorems at them.
use openclaw_serial_adapter.Prelude.{ℕ, ◌≡◌, refl, Option, none, some, [], ◌∷◌}
use openclaw_serial_adapter.Prelude.Int.{pos}
use openclaw_serial_adapter.Number.Natural.{natural, natural-IsOrder}
use openclaw_serial_adapter.Text.{Text, codes}
use openclaw_serial_adapter.Json.{Json, str, num}
use openclaw_serial_adapter.Control.{Client, new_client, not_connected}
use openclaw_serial_adapter.Commands.{
  fast_jitter, center_stop, build_motion_sequence, stop_sequence, perform, decimal,
  normalize_serial_send_command, raw, raw_shorthand, raw_text, ControlSourceContext,
  build_control_source_meta,
}
use openclaw_serial_adapter.Commands.Sequences.{perform-stop_sequence}
use openclaw_serial_adapter.Commands.Motion.{IsMotion, build_motion_sequence-IsMotion}

build_motion_sequence-IsMotion_example :
    IsMotion natural natural-IsOrder fast_jitter
      (build_motion_sequence natural fast_jitter 500 2500 2450)
build_motion_sequence-IsMotion_example =
    build_motion_sequence-IsMotion natural natural-IsOrder fast_jitter 500 2500 2450 refl

motion_runs :
    (build_motion_sequence natural fast_jitter 500 2500 2450
      ≡ 2330 ∷ 2500 ∷ 2370 ∷ 2500 ∷ 2450 ∷ [])
    × (build_motion_sequence natural center_stop 0 0 9000 ≡ 2500 ∷ 0 ∷ [])
unfolding build_motion_sequence
motion_runs = (refl, refl)

abbrev silent : Json ℕ → Text
silent j = []

abbrev idle : ℕ → Client ℕ → Client ℕ
idle ms c = c

perform-stop_sequence_example :
    perform natural silent none idle (stop_sequence natural (pos 90) (pos 2) (pos 120)) new_client
    ≡ (new_client, not_connected)
perform-stop_sequence_example =
    perform-stop_sequence natural silent none idle (pos 90) (pos 2) (pos 120) new_client refl

decimal_runs : decimal 1205 ≡ codes "1205"
unfolding decimal
decimal_runs = refl

abbrev no_json : Text → Option (Json ℕ)
no_json s = none

abbrev upper : Text → Text
upper s = s

normalize_runs :
    (normalize_serial_send_command natural no_json upper pos (some (str (codes " A90 ")))
      ≡ some (raw (codes "A90") raw_shorthand))
    × (normalize_serial_send_command natural no_json upper pos (some (str (codes "A90000")))
        ≡ some (raw (codes "A90000") raw_text))
unfolding normalize_serial_send_command
normalize_runs = (refl, refl)

abbrev ranked : ControlSourceContext ℕ
ranked = record { source_id = some (codes " ui "); priority = some 500; lease_ms = some 50 }

build_control_source_meta_runs :
    build_control_source_meta natural (some ranked)
    ≡ (codes "source_id", str (codes "ui"))
      ∷ (codes "priority", num 100)
      ∷ (codes "lease_ms", num 200)
      ∷ []
unfolding build_control_source_meta
build_control_source_meta_runs = refl
