-- ===== src/Telemetry/Tests.antt =====
-- Runs of a telemetry client whose frames are texts, and the theorems at them.
use openclaw_serial_adapter.Prelude.{
  ℕ, ◌+◌, ◌≡◌, refl, Option, none, some, List, [], ◌∷◌, ◌++◌, map, min, take, ◌-◌, length,
}
use openclaw_serial_adapter.Prelude.Int.{pos}
use openclaw_serial_adapter.Text.{Text, codes}
use openclaw_serial_adapter.Json.{Json, num, str}
use openclaw_serial_adapter.Telemetry.{
  Client, Trace, new_client, connects, polls, connection, line, Event, run, step, poll_frames,
  snapshot_frames, buffered_count,
}
use openclaw_serial_adapter.Telemetry.Buffer.{
  poll_frames-poll_frames, IsOrdered, start, run-IsOrdered, frames-run,
}
use mathlib.Core.List.{filter_map}

-- A `JSON.parse` that reads every line but the empty one as a string.
abbrev parse : Text → Option (Json ℕ)
parse [] = none
parse (c ∷ s) = some (str (c ∷ s))

abbrev script : List Event
script =
    connects
    ∷ connection 0
    ∷ line 0 (codes "a")
    ∷ line 0 []
    ∷ line 0 (codes "b")
    ∷ polls (some (pos 1))
    ∷ line 0 (codes "c")
    ∷ line 5 (codes "d")
    ∷ []

run-script :
    let t = run parse script start in
    (t.polled ≡ str (codes "a") ∷ []) × (t.client.frames ≡ str (codes "b") ∷ str (codes "c") ∷ [])
unfolding run step poll_frames
run-script = (refl, refl)

-- two interfaces that are open on one socket deliver its line twice, and the frame is kept twice
run-twice :
    (run parse
      (connects
        ∷ connects
        ∷ connection 0
        ∷ connection 1
        ∷ line 0 (codes "a")
        ∷ line 1 (codes "a")
        ∷ [])
      start).client.frames
    ≡ str (codes "a") ∷ str (codes "a") ∷ []
unfolding run step
run-twice = refl

run-IsOrdered_example : IsOrdered (run parse script start)
run-IsOrdered_example = run-IsOrdered parse script

abbrev reading : Trace ℕ
reading = record start { client = record (start.client) { rl = some 0; frames = num 1 ∷ [] } }

frames-run_example :
    (run parse (map (line 0) (codes "a" ∷ [] ∷ codes "b" ∷ [])) reading).client.frames
    ≡ num 1 ∷ str (codes "a") ∷ str (codes "b") ∷ []
unfolding filter_map
frames-run_example =
    frames-run parse 0 (codes "a" ∷ [] ∷ codes "b" ∷ []) reading (num 1 ∷ []) refl refl

abbrev three : Client ℕ
three = record new_client { frames = num 1 ∷ num 2 ∷ num 3 ∷ [] }

poll_frames-poll_frames_example :
    let (d, first) = poll_frames (some (pos 2)) three in
    let (e, rest) = poll_frames none d in
    (first ++ rest ≡ num 1 ∷ num 2 ∷ num 3 ∷ [])
    × (length first ≡ min 2 (buffered_count three))
    × (buffered_count d + length first ≡ buffered_count three)
    × (buffered_count e ≡ 0)
    × (length (snapshot_frames (some (pos 2)) three) ≡ length first)
    × (take (buffered_count three - 2) three.frames ++ snapshot_frames (some (pos 2)) three
        ≡ num 1 ∷ num 2 ∷ num 3 ∷ [])
poll_frames-poll_frames_example = poll_frames-poll_frames 2 three
