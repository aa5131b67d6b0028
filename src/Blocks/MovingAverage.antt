-- ===== src/Blocks/MovingAverage.antt =====
-- `MovingAverageBlock` of plugins/algorithm_blocks_ts/src/blocks/moving_average.ts.
pub mod Holds
pub mod Average
use openclaw_serial_adapter.Prelude.{
  or_else, ℕ, ◌+◌, ◌%◌, ◌≡◌, Option, none, some, List, [], ◌∷◌, ◌==◌, if◌then◌else◌, set, get_or,
  max,
}
use openclaw_serial_adapter.Prelude.Int.{ℤ, pos, pos_part}
use openclaw_serial_adapter.Number.{Number}
use openclaw_serial_adapter.Text.{Text, codes}
use openclaw_serial_adapter.Json.{Json, num}
use openclaw_serial_adapter.Frame.{Frame, put_field, read_numeric, features_of, with_features}
use openclaw_serial_adapter.Ring.{Ring, new_ring}

module _ (N : Number) where
  open N use {F, add, sub, div, of_int, floor}

  -- `count`, `writeIndex` and the array are those of `ring`.
  pub record Block : Type 0 where
    pub source_key : Text
    pub output_key : Text
    pub window : ℕ
    pub ring : Ring F
    pub sum : F
    pub last_average : Option F

  pub record Config : Type 0 where
    pub source_key : Option Text
    pub output_key : Option Text
    pub window : Option F

  unfoldable pub reset : Block → Block
  unfolding new_ring
  reset b = record b {
    ring = new_ring (of_int (pos 0)) b.window;
    sum = of_int (pos 0);
    last_average = none;
  }

  abbrev pub new_block : Block
  new_block = record {
    source_key = codes "velocity";
    output_key = codes "moving_average.velocity";
    window = 16;
    ring = new_ring (of_int (pos 0)) 16;
    sum = of_int (pos 0);
    last_average = none;
  }

  -- `Math.max(1, Math.floor(cfg.window ?? this.window))`, of a finite number
  abbrev pub window_of : Option F → ℕ → ℕ
  window_of none window = max 1 window
  window_of (some w) window = max 1 (pos_part (floor w))

  unfoldable pub init : Config → Block → Block
  unfolding reset
  init cfg b = reset (record b {
    source_key = or_else cfg.source_key b.source_key;
    output_key = or_else cfg.output_key b.output_key;
    window = window_of cfg.window b.window;
  })

  -- `process` from the point where the frame has a value
  unfoldable pub accept : F → Block → Block
  accept value b =
      let r = b.ring in
      let full = r.count == b.window in
      let old = get_or r.values r.write_index (of_int (pos 0)) in
      let count = if full then r.count else r.count + 1 in
      let kept = if full then sub b.sum old else b.sum in
      let sum = add kept value in
      record b {
        ring = record {
          values = set r.values r.write_index value;
          write_index = (r.write_index + 1) % b.window;
          count = count;
        };
        sum = sum;
        last_average = some (div sum (of_int (pos count)));
      }

  unfoldable pub process : Frame F → Block → Block × Frame F
  unfolding accept read_numeric put_field
  process frame b =
      let features = features_of N frame in
      elim (read_numeric N frame b.source_key) [
        | none ↦ (b, with_features N frame features)
        | some value ↦
            let b' = accept value b in
            (
              b',
              with_features N frame
                  (put_field b.output_key (num (div b'.sum (of_int (pos b'.ring.count)))) features),
            )
      ]
