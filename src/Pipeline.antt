-- ===== src/Pipeline.antt =====
-- `AlgorithmPipeline` of plugins/algorithm_blocks_ts/src/pipeline.ts. A block is its `process`
-- function with the state that it keeps; a frame is a value, so that the copies of `cloneFrame`
-- are equal to what they copy.
pub mod Stats
pub mod History
pub mod Automatic
pub mod Windows
mod Tests
use openclaw_serial_adapter.Prelude.{
  ℕ, zero, suc, ◌+◌, ◌-◌, ◌%◌, Bool, true, false, Option, none, some, List, [], ◌∷◌, ◌++◌, ltb,
  if◌then◌else◌, max, min, or_else, get_or, is_some,
}
use openclaw_serial_adapter.Prelude.Int.{ℤ, pos, pos_part}
use openclaw_serial_adapter.Number.{Number}
use openclaw_serial_adapter.Text.{Text, same_text}
use openclaw_serial_adapter.Json.{Json, num, Entries}
use openclaw_serial_adapter.Frame.{Frame, get_field, put_field}
use openclaw_serial_adapter.Ring.{Ring, new_ring, push}
use Stats.{Trackers, new_trackers, update_stats}

unfoldable pub without_text : Text → List Text → List Text
unfolding same_text
without_text k [] = []
without_text k (j ∷ r) = let rest = without_text k r in if same_text j k then rest else j ∷ rest

-- `new Set(fields)`
unfoldable pub set_of : List Text → List Text
unfolding without_text
set_of [] = []
set_of (k ∷ ks) = k ∷ without_text k (set_of ks)

-- `map.delete(k)`
unfoldable pub delete_field {ℓ} : {A : Type ℓ} → Text → List (Text × A) → List (Text × A)
unfolding same_text
delete_field k [] = []
delete_field k ((j, v) ∷ r) =
    let rest = delete_field k r in if same_text j k then r else (j, v) ∷ rest

module _ (N : Number) where
  open N use {F, of_int}

  -- A block's state is of a type of its own; its `process` gives the next state and frame.
  pub record AlgorithmBlock : Type 1 where
    pub State : Type 0
    pub state : State
    pub process : Frame F → State → State × Frame F

  pub record Options : Type 0 where
    pub history_size : Option F
    pub stats_window : Option F
    pub stats_fields : Option (List Text)

  -- `blocks` is a `Map`, which keeps the order of insertion. `history`, `historyCount` and
  -- `historyWriteIndex` make up a ring, whose cells are undefined until they are written.
  pub record Pipeline : Type 1 where
    pub blocks : List (Text × AlgorithmBlock)
    pub history_size : ℕ
    pub history : Ring (Option (Frame F))
    pub latest : Option (Frame F)
    pub stats_window : ℕ
    pub explicit_stats_fields : List Text
    pub stats_trackers : Trackers N

  -- `Math.max(1, Math.floor(value ?? default))`, of a finite number
  abbrev pub size_of : Option F → ℕ → ℕ
  size_of none default = max 1 default
  size_of (some x) default = max 1 (pos_part (N.floor x))

  unfoldable pub new_pipeline : Options → Pipeline
  unfolding set_of new_trackers new_ring
  new_pipeline options =
      let history_size = size_of options.history_size 256 in
      let stats_window = size_of options.stats_window 128 in
      let fields = set_of (or_else options.stats_fields []) in
      record {
        blocks = [];
        history_size = history_size;
        history = new_ring none history_size;
        latest = none;
        stats_window = stats_window;
        explicit_stats_fields = fields;
        stats_trackers = new_trackers N stats_window fields [];
      }

  unfoldable pub add_block : Text → AlgorithmBlock → Pipeline → Pipeline
  unfolding put_field
  add_block name block p = record p { blocks = put_field name block p.blocks }

  unfoldable pub remove_block : Text → Pipeline → Pipeline × Bool
  unfolding get_field delete_field
  remove_block name p =
      (record p { blocks = delete_field name p.blocks }, is_some (get_field name p.blocks))

  -- the loop of `process` over the blocks
  unfoldable pub run_blocks :
      List (Text × AlgorithmBlock) → Frame F → List (Text × AlgorithmBlock) × Frame F
  run_blocks [] current = ([], current)
  run_blocks ((name, block) ∷ r) current =
      let (state, next) = block.process current block.state in
      let (rest, last) = run_blocks r next in ((name, record block { state = state }) ∷ rest, last)

  unfoldable pub process : Frame F → Pipeline → Pipeline × Frame F
  unfolding run_blocks push update_stats
  process frame p =
      let (blocks, current) = run_blocks p.blocks frame in
      (
        record p {
          blocks = blocks;
          latest = some current;
          history = push none p.history_size (some current) p.history;
          stats_trackers =
              update_stats N p.stats_window p.explicit_stats_fields current p.stats_trackers;
        },
        current,
      )

  unfoldable pub get_latest : Pipeline → Option (Frame F)
  get_latest p = p.latest

  -- the loop of `getLastN`; a cell that was not written reads as a frame with timestamp 0
  abbrev pub frame_or_blank : Option (Frame F) → Frame F
  frame_or_blank (some frame) = frame
  frame_or_blank none = record {
    timestamp = of_int (pos 0);
    raw = none;
    parsed = none;
    meta = none;
    features = none;
  }

  unfoldable pub read_last : ℕ → List (Option (Frame F)) → ℕ → ℕ → List (Frame F)
  read_last size values read_index zero = []
  read_last size values read_index (suc n) =
      frame_or_blank (get_or values read_index none)
      ∷ read_last size values ((read_index + 1) % size) n

  -- `getLastN`, of the floor of a finite number
  unfoldable pub get_last_n : ℤ → Pipeline → List (Frame F)
  unfolding read_last
  get_last_n n p =
      let count = min (pos_part n) p.history.count in
      let start = (p.history.write_index + p.history_size - count) % p.history_size in
      read_last p.history_size p.history.values start count
