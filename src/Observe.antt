-- ===== src/Observe.antt =====
-- `collectTelemetryFrames` and `flushTelemetryBacklog` of index.ts, over the telemetry client, which
-- is null where there is none. The clock and what the client goes through while the loop sleeps are
-- parameters: `clock i` is what `Date.now()` gives in round `i`, and `meanwhile i` is what happens in
-- the sleep that ends it, which may leave the client null or put another in its place.
pub mod Window
mod Tests
use openclaw_serial_adapter.Prelude.{
  ℕ, zero, suc, ◌+◌, ◌-◌, Bool, Option, none, some, List, [], ◌++◌, length, take, ltb, leb,
  if◌then◌else◌,
}
use openclaw_serial_adapter.Prelude.Int.{ℤ, pos, clamp_ℕ}
use openclaw_serial_adapter.Json.{Json}
use openclaw_serial_adapter.Telemetry.{Client, poll_frames}

-- What the promise comes to: the frames, with the client as it is then; or the TypeError of a poll of
-- null.
pub data Gathered (F : Type 0) : Type 0 where
  gathered : Option (Client F) → List (Json F) → Gathered F
  threw : Gathered F

module _ {F : Type 0} where
  module _ (clock : ℕ → ℕ) (meanwhile : ℕ → Option (Client F) → Option (Client F)) where
    -- the loop, from the given round: none where the fuel does not suffice
    unfoldable pub collect_from :
        ℕ → ℕ → ℕ → ℕ → List (Json F) → Option (Client F) → Option (Gathered F)
    unfolding poll_frames
    collect_from zero round safe_max deadline collected c = none
    collect_from (suc fuel) round safe_max deadline collected none =
        some (if ltb (length collected) safe_max then threw else gathered none collected)
    collect_from (suc fuel) round safe_max deadline collected (some c) =
        let (polled, batch) = poll_frames (some (pos (safe_max - length collected))) c in
        let extended = collected ++ batch in
        let stops = some (gathered (some polled) extended) in
        let later =
          collect_from fuel (suc round) safe_max deadline extended
            (meanwhile round (some polled)) in
        let goes_on = (if leb deadline (clock round) then stops else later) in
        let polls = (if leb safe_max (length extended) then stops else goes_on) in
        if ltb (length collected) safe_max then polls else some (gathered (some c) collected)

    abbrev pub cut : ℕ → Option (Gathered F) → Option (Gathered F)
    cut safe_max none = none
    cut safe_max (some threw) = some threw
    cut safe_max (some (gathered c frames)) = some (gathered c (take safe_max frames))

    -- the durations and counts are the integer parts; `start` is the time when it is called
    unfoldable pub collect_telemetry_frames :
        ℕ → ℕ → ℤ → ℤ → Option (Client F) → Option (Gathered F)
    unfolding collect_from
    collect_telemetry_frames fuel start duration_ms max_frames none = some (gathered none [])
    collect_telemetry_frames fuel start duration_ms max_frames (some c) =
        let safe_duration = clamp_ℕ 0 8000 duration_ms in
        let safe_max = clamp_ℕ 1 400 max_frames in
        cut safe_max (collect_from fuel 0 safe_max (start + safe_duration) [] (some c))

  unfoldable pub flush_telemetry_backlog : ℤ → Option (Client F) → Option (Client F) × ℕ
  unfolding poll_frames
  flush_telemetry_backlog max_frames none = (none, 0)
  flush_telemetry_backlog max_frames (some c) =
      let (flushed, frames) = poll_frames (some (pos (clamp_ℕ 1 1000 max_frames))) c in
      (some flushed, length frames)
