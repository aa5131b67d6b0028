-- ===== src/Observe/Tests.antt =====
-- A window over three buffered frames, and its theorem at it.
use openclaw_serial_adapter.Prelude.{
  ℕ, ◌+◌, ◌*◌, ◌≡◌, refl, Option, none, some, [], ◌∷◌, take, arith,
}
use openclaw_serial_adapter.Prelude.Int.{pos, clamp_ℕ}
use openclaw_serial_adapter.Json.{num}
use openclaw_serial_adapter.Telemetry.{Client, new_client}
use openclaw_serial_adapter.Observe.{gathered, threw, collect_telemetry_frames}
use openclaw_serial_adapter.Observe.Window.{Ends, collect_telemetry_frames-Ends}

abbrev clock : ℕ → ℕ
clock i = 1000 + 40 * i

-- In each sleep a frame comes in.
abbrev meanwhile : ℕ → Option (Client ℕ) → Option (Client ℕ)
meanwhile i none = none
meanwhile i (some c) = some (record c { frames = num i ∷ [] })

abbrev buffered : Client ℕ
buffered = record new_client { frames = num 7 ∷ (num 8 ∷ (num 9 ∷ [])) }

collect_telemetry_frames-Ends_example :
    Ends clock meanwhile
      (clamp_ℕ 1 400 (pos 2))
      (take (clamp_ℕ 1 400 (pos 2)) buffered.frames)
      (collect_telemetry_frames clock meanwhile 201 1000 (pos 500) (pos 2) (some buffered))
    × (collect_telemetry_frames clock meanwhile 201 1000 (pos 500) (pos 2) none
        ≡ some (gathered none []))
collect_telemetry_frames-Ends_example =
    collect_telemetry_frames-Ends clock meanwhile 201 1000 (pos 500) (pos 2) buffered (omega arith)
      (omega arith) (λ i. omega arith)

-- at the deadline of 80 ms the third round is the last
deadline_test :
    collect_telemetry_frames clock meanwhile 5 1000 (pos 80) (pos 9) (some buffered)
    ≡ some (
        gathered
          (some (record buffered { frames = [] }))
          (num 7 ∷ (num 8 ∷ (num 9 ∷ (num 0 ∷ (num 1 ∷ []))))))
unfolding collect_telemetry_frames
deadline_test = refl

abbrev stopped : ℕ → Option (Client ℕ) → Option (Client ℕ)
stopped i c = none

-- a client that is null after the first sleep
stopped_test :
    collect_telemetry_frames clock stopped 5 1000 (pos 80) (pos 9) (some buffered) ≡ some threw
unfolding collect_telemetry_frames
stopped_test = refl
