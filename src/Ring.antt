-- ===== src/Ring.antt =====
-- The ring of a `Float64Array` with a write index and a count, which `RollingFieldStats` of
-- plugins/algorithm_blocks_ts/src/pipeline.ts and `KeyWindow` of blocks/summarizer.ts share, and
-- which `MovingAverageBlock` and the history of `AlgorithmPipeline` repeat.
pub mod Contents
pub mod Scan
use openclaw_serial_adapter.Prelude.{
  ℕ, zero, suc, ◌+◌, ◌%◌, List, [], ◌∷◌, ltb, if◌then◌else◌, set, get_or, replicate,
}

pub record Ring (A : Type 0) : Type 0 where
  pub values : List A
  pub write_index : ℕ
  pub count : ℕ

-- `blank` is the value of a cell that was not written: 0 in a `Float64Array`.
module _ {A : Type 0} (blank : A) (window : ℕ) where
  unfoldable pub new_ring : Ring A
  new_ring = record { values = replicate window blank; write_index = 0; count = 0 }

  unfoldable pub push : A → Ring A → Ring A
  push value r = record {
    values = set r.values r.write_index value;
    write_index = (r.write_index + 1) % window;
    count = if ltb r.count window then r.count + 1 else r.count;
  }

  -- `startIndex`
  abbrev pub start_index : Ring A → ℕ
  start_index r = if ltb r.count window then 0 else r.write_index

  -- the loop `for (let i = 0; i < count; i += 1)` over `values[(startIndex + i) % window]`
  unfoldable pub for_each : {S : Type 0} → (ℕ → A → S → S) → Ring A → ℕ → ℕ → S → S
  for_each body r i zero s = s
  for_each body r i (suc n) s =
      for_each body r (i + 1) n (body i (get_or r.values ((start_index r + i) % window) blank) s)
