-- ===== src/Pipeline/Tests.antt =====
-- The pipeline on frames with natural numbers, and its theorems at them.
use openclaw_serial_adapter.Prelude.{
  refl, arith, ℕ, ◌≡◌, none, some, List, [], ◌∷◌, min, last?, foldl,
}
use openclaw_serial_adapter.Prelude.Int.{pos}
use openclaw_serial_adapter.Prelude.Last.{take_last}
use openclaw_serial_adapter.Number.Natural.{natural}
use openclaw_serial_adapter.Text.{codes}
use openclaw_serial_adapter.Json.{num}
use openclaw_serial_adapter.Frame.{Frame, get_field}
use openclaw_serial_adapter.Ring.{Ring, new_ring}
use openclaw_serial_adapter.Ring.Contents.{push_all}
use openclaw_serial_adapter.Pipeline.Windows.{shown, snapshot-push_all}
use openclaw_serial_adapter.Pipeline.Stats.{update_stats, snapshot}
use openclaw_serial_adapter.Pipeline.Automatic.{update_stats-parsed}
use openclaw_serial_adapter.Pipeline.{Options, Pipeline, new_pipeline, get_last_n, get_latest}
use openclaw_serial_adapter.Pipeline.History.{process_all, get_last_n-process_all}

abbrev at_time : ℕ → Frame ℕ
at_time t = record { timestamp = t; raw = none; parsed = none; meta = none; features = none }

abbrev short : Options natural
short = record { history_size = some 2; stats_window = none; stats_fields = none }

abbrev times : List (Frame ℕ)
times = at_time 1 ∷ at_time 2 ∷ at_time 3 ∷ []

get_last_n-process_all_example :
    let p : Pipeline natural = record (new_pipeline natural short) { blocks = [] } in
    let (q, outs) = process_all natural times p in
    (get_last_n natural (pos 5) q ≡ take_last (min 5 p.history_size) outs)
    × (get_latest natural q ≡ last? outs)
get_last_n-process_all_example = get_last_n-process_all natural short [] times (pos 5)

abbrev with_speed : ℕ → Frame ℕ
with_speed v = record (at_time v) { parsed = some ((codes "speed", num v) ∷ []) }

-- The tracker of "speed" after one value, 5, in a window of 4.
abbrev one_speed : Ring ℕ
one_speed = record { values = 5 ∷ 0 ∷ 0 ∷ 0 ∷ []; write_index = 1; count = 1 }

update_stats-parsed_example :
    get_field (codes "speed") (
      foldl
        (λ t f. update_stats natural 4 [] f t)
        ((codes "speed", one_speed) ∷ [])
        (with_speed 6 ∷ with_speed 7 ∷ []))
    ≡ some one_speed
update_stats-parsed_example =
    update_stats-parsed natural 4 (codes "speed") one_speed (with_speed 6 ∷ with_speed 7 ∷ [])
      ((codes "speed", one_speed) ∷ []) (refl, (refl, tt)) (unfold get_field in refl)

-- Three frames with a speed each are counted as one.
update_stats_runs :
    get_field (codes "speed") (
      foldl
        (λ t f. update_stats natural 4 [] f t)
        []
        (with_speed 5 ∷ with_speed 6 ∷ with_speed 7 ∷ []))
    ≡ some one_speed
unfolding update_stats get_field
update_stats_runs = refl

snapshot-push_all_example :
    snapshot natural 2 (push_all 0 2 (4 ∷ 9 ∷ 6 ∷ []) (new_ring 0 2))
    ≡ shown natural (take_last 2 (4 ∷ 9 ∷ 6 ∷ []))
snapshot-push_all_example = snapshot-push_all natural 2 (4 ∷ 9 ∷ 6 ∷ []) (omega arith)
