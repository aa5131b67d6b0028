-- ===== src/Intent/Tests.antt =====
-- Runs of the reading of an instruction.
use openclaw_serial_adapter.Prelude.{◌≡◌, refl, some, none}
use openclaw_serial_adapter.Prelude.Int.{negsuc}
use openclaw_serial_adapter.Number.Natural.{natural}
use openclaw_serial_adapter.Text.{Text, codes}
use openclaw_serial_adapter.Intent.{
  detect_semantic_intent, nudge_left, stop, match_number, parse_delta_override,
  parse_absolute_angle,
}

abbrev lower : Text → Text
lower s = s

detect_runs : detect_semantic_intent lower (codes "請往左  一點") ≡ nudge_left
unfolding detect_semantic_intent
detect_runs = refl

detect_stop_runs : detect_semantic_intent lower (codes "stop and turn left") ≡ stop
unfolding detect_semantic_intent
detect_stop_runs = refl

match_number_runs : match_number (codes "move - -1234 deg") ≡ some (negsuc 122)
unfolding match_number
match_number_runs = refl

parse_runs :
    (parse_delta_override natural (codes "left 75") none ≡ some 60)
    × (parse_absolute_angle natural (codes "set 200") none ≡ some 180)
    × (parse_absolute_angle natural (codes "go 200") none ≡ none)
unfolding parse_delta_override parse_absolute_angle
parse_runs = (refl, refl, refl)
