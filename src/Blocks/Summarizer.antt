-- ===== src/Blocks/Summarizer.antt =====
-- `SummarizerBlock` and `KeyWindow` of plugins/algorithm_blocks_ts/src/blocks/summarizer.ts.
use openclaw_serial_adapter.Prelude.{
  ℕ, Option, none, some, List, [], ◌∷◌, ◌==◌, if◌then◌else◌, max, or_else,
}
use openclaw_serial_adapter.Prelude.Int.{pos, pos_part}
use openclaw_serial_adapter.Number.{Number}
use openclaw_serial_adapter.Text.{Text, codes}
use openclaw_serial_adapter.Json.{Json, num, obj, Entries, from_entries}
use openclaw_serial_adapter.Frame.{
  Frame, get_field, put_field, read_numeric, features_of, with_features,
}
use openclaw_serial_adapter.Ring.{Ring, new_ring, push}
use openclaw_serial_adapter.Ring.Scan.{scan}

module _ (N : Number) where
  open N use {F, is_finite, sub, div, abs, of_int, floor}

  pub record KeySummary : Type 0 where
    pub mean : F
    pub delta : F
    pub abs_delta : F
    pub min : F
    pub max : F

  -- `KeyWindow.summary`
  unfoldable pub summary : ℕ → Ring F → Option KeySummary
  unfolding scan
  summary window r =
      let found = scan N window r in
      let delta = sub found.last found.first in
      let made : KeySummary = record {
        mean = div found.sum (of_int (pos r.count));
        delta = delta;
        abs_delta = abs delta;
        min = found.min;
        max = found.max;
      } in
      if r.count == 0 then none else some made

  abbrev pub summary_json : KeySummary → Json F
  summary_json s = obj (
      from_entries (
        (codes "mean", num s.mean)
        ∷ (codes "delta", num s.delta)
        ∷ (codes "abs_delta", num s.abs_delta)
        ∷ (codes "min", num s.min)
        ∷ (codes "max", num s.max)
        ∷ []))

  -- `windows` is a `Map`, which keeps the order of insertion.
  pub record Block : Type 0 where
    pub keys : List Text
    pub output_key : Text
    pub window : ℕ
    pub windows : List (Text × Ring F)

  -- `keys` is `none` where it is no array; its items that are no strings are `none`.
  pub record Config : Type 0 where
    pub keys : Option (List (Option Text))
    pub window : Option F
    pub output_key : Option Text

  abbrev pub strings : List (Option Text) → List Text
  strings [] = []
  strings (none ∷ r) = strings r
  strings (some k ∷ r) = k ∷ strings r

  abbrev pub keys_or : Option (List (Option Text)) → List Text → List Text
  keys_or none old = old
  keys_or (some []) old = old
  keys_or (some (k ∷ r)) old = strings (k ∷ r)

  abbrev pub window_or : Option F → ℕ → ℕ
  window_or none old = old
  window_or (some w) old = if is_finite w then max 1 (pos_part (floor w)) else old

  -- the loop of `reset`
  unfoldable pub fresh_windows : ℕ → List Text → List (Text × Ring F) → List (Text × Ring F)
  unfolding put_field new_ring
  fresh_windows window [] ws = ws
  fresh_windows window (k ∷ ks) ws =
      fresh_windows window ks (put_field k (new_ring (of_int (pos 0)) window) ws)

  unfoldable pub reset : Block → Block
  unfolding fresh_windows
  reset b = record b { windows = fresh_windows b.window b.keys [] }

  unfoldable pub init : Config → Block → Block
  unfolding reset
  init cfg b = reset (record b {
    keys = keys_or cfg.keys b.keys;
    output_key = or_else cfg.output_key b.output_key;
    window = window_or cfg.window b.window;
  })

  -- `this.windows.get(key)?.push(value)`, if there is a value
  unfoldable pub push_value : ℕ → Text → Option F → List (Text × Ring F) → List (Text × Ring F)
  unfolding get_field put_field push
  push_value window key none ws = ws
  push_value window key (some value) ws = elim (get_field key ws) [
    | none ↦ ws
    | some r ↦ put_field key (push (of_int (pos 0)) window value r) ws
  ]

  -- `this.windows.get(key)?.summary()`, set in the summary if there is one
  unfoldable pub add_summary : ℕ → Text → List (Text × Ring F) → Entries F → Entries F
  unfolding get_field put_field summary
  add_summary window key ws out = elim (get_field key ws) [
    | none ↦ out
    | some r ↦ elim (summary window r) [ none ↦ out | some s ↦ put_field key (summary_json s) out ]
  ]

  -- the loop of `process` over the keys
  unfoldable pub for_keys :
      Frame F → ℕ → List Text → List (Text × Ring F) → Entries F → List (Text × Ring F) × Entries F
  unfolding push_value add_summary read_numeric
  for_keys frame window [] ws out = (ws, out)
  for_keys frame window (k ∷ ks) ws out =
      let ws' = push_value window k (read_numeric N frame k) ws in
      for_keys frame window ks ws' (add_summary window k ws' out)

  unfoldable pub process : Frame F → Block → Block × Frame F
  unfolding for_keys put_field
  process frame b =
      let (ws, out) = for_keys frame b.window b.keys b.windows [] in
      (
        record b { windows = ws },
        with_features N frame
            (put_field b.output_key (obj (from_entries out)) (features_of N frame)),
      )
