-- ===== src/Pipeline/Stats.antt =====
-- `RollingFieldStats` and the statistics of `AlgorithmPipeline`, of
-- plugins/algorithm_blocks_ts/src/pipeline.ts.
use openclaw_serial_adapter.Prelude.{
  ℕ, ◌+◌, ◌-◌, ◌*◌, leb, ◌&&◌, length, get_elem?, Option, none, some, List, [], ◌∷◌, ◌++◌, ◌==◌,
  if◌then◌else◌, is_some,
}
use openclaw_serial_adapter.Prelude.Int.{pos}
use openclaw_serial_adapter.Number.{Number}
use openclaw_serial_adapter.Text.{Text, codes, same_text}
use openclaw_serial_adapter.Json.{
  Json, arr, obj, num, Entries, Items, nil, cons, entries, from_entries,
}
use openclaw_serial_adapter.Frame.{Frame, get_field, put_field, finite_number}
use openclaw_serial_adapter.Ring.{Ring, new_ring, push}
use openclaw_serial_adapter.Ring.Scan.{scan}

-- `path.split(".")`
unfoldable pub split_dot : Text → List Text → Text → List Text
split_dot part parts [] = parts ++ part ∷ []
split_dot part parts (c ∷ s) =
    let closed = split_dot [] (parts ++ part ∷ []) s in
    let longer = split_dot (part ++ c ∷ []) parts s in if c == 46 then closed else longer

-- the array index that a key in canonical decimal form stands for
unfoldable pub index_from : ℕ → Text → Option ℕ
index_from n [] = some n
index_from n (c ∷ s) =
    let later = index_from (n * 10 + (c - 48)) s in if leb 48 c && leb c 57 then later else none

unfoldable pub array_index : Text → Option ℕ
unfolding index_from
array_index [] = none
array_index (c ∷ []) = index_from 0 (c ∷ [])
array_index (c ∷ (d ∷ s)) = if c == 48 then none else index_from 0 (c ∷ (d ∷ s))

abbrev pub items : {F : Type 0} → Items F → List (Json F)
items nil = []
items (cons v vs) = v ∷ items vs

module _ (N : Number) where
  open N use {F, sub, div, of_int}

  pub record RollingFieldSnapshot : Type 0 where
    pub count : ℕ
    pub mean : Option F
    pub min : Option F
    pub max : Option F
    pub delta : Option F
    pub last : Option F

  -- `RollingFieldStats.snapshot`
  unfoldable pub snapshot : ℕ → Ring F → RollingFieldSnapshot
  unfolding scan
  snapshot window r =
      let found = scan N window r in
      let empty : RollingFieldSnapshot = record {
        count = 0;
        mean = none;
        min = none;
        max = none;
        delta = none;
        last = none;
      } in
      if r.count == 0 then empty else record {
        count = r.count;
        mean = some (div found.sum (of_int (pos r.count)));
        min = some found.min;
        max = some found.max;
        delta = some (sub found.last found.first);
        last = some found.last;
      }

  -- `statsTrackers` is a `Map`, which keeps the order of insertion.
  abbrev pub Trackers : Type 0
  Trackers = List (Text × Ring F)

  -- `pushStat`, and the body of the loop over the explicit fields
  unfoldable pub push_stat : ℕ → Text → F → Trackers → Trackers
  unfolding get_field put_field push new_ring
  push_stat window field value ts = elim (get_field field ts) [
    | none ↦
        put_field field (push (of_int (pos 0)) window value (new_ring (of_int (pos 0)) window)) ts
    | some r ↦ put_field field (push (of_int (pos 0)) window value r) ts
  ]

  unfoldable pub array_key : Text → Items F → Option (Json F)
  unfolding same_text array_index
  array_key part xs =
      let at : Option (Json F) = elim (array_index part) [
        | none ↦ none
        | some i ↦ get_elem? (items xs) i
      ] in
      if same_text part (codes "length") then some (num (of_int (pos (length (items xs))))) else at

  -- `current[part]` of an object; an array has a `length` and its indices as keys
  unfoldable pub walk : Json F → List Text → Option (Json F)
  unfolding get_field array_key
  walk current [] = some current
  walk (obj o) (part ∷ parts) = elim (get_field part (entries o)) [
    | none ↦ none
    | some next ↦ walk next parts
  ]
  walk (arr xs) (part ∷ parts) = elim (array_key part xs) [
    | none ↦ none
    | some next ↦ walk next parts
  ]
  walk _ (part ∷ parts) = none

  -- `getByPath`; a path with no "." is one part
  unfoldable pub get_by_path : Option (Entries F) → Text → Option (Json F)
  unfolding walk split_dot
  get_by_path none path = none
  get_by_path (some source) path = walk (obj (from_entries source)) (split_dot [] [] path)

  -- `AlgorithmPipeline.readNumericField`
  unfoldable pub read_numeric_field : Frame F → Text → Option F
  unfolding get_by_path
  read_numeric_field frame field =
      let from_parsed = finite_number N (get_by_path frame.parsed field) in
      elim (finite_number N (get_by_path frame.features field)) [
        | some x ↦ some x
        | none ↦ from_parsed
      ]

  -- the loop of `updateStats` over the explicit fields
  unfoldable pub update_explicit : ℕ → Frame F → List Text → Trackers → Trackers
  unfolding push_stat read_numeric_field
  update_explicit window frame [] ts = ts
  update_explicit window frame (field ∷ fields) ts =
      let ts' : Trackers = elim (read_numeric_field frame field) [
        | none ↦ ts
        | some value ↦ push_stat window field value ts
      ] in
      update_explicit window frame fields ts'

  -- the loop of the automatic mode over `frame.features`
  unfoldable pub update_features : ℕ → Entries F → Trackers → Trackers
  unfolding push_stat
  update_features window [] ts = ts
  update_features window ((field, value) ∷ r) ts =
      let ts' : Trackers = elim (finite_number N (some value)) [
        | none ↦ ts
        | some x ↦ push_stat window field x ts
      ] in
      update_features window r ts'

  -- the loop of the automatic mode over `frame.parsed`, which passes over a field with a tracker
  unfoldable pub update_parsed : ℕ → Entries F → Trackers → Trackers
  unfolding push_stat get_field
  update_parsed window [] ts = ts
  update_parsed window ((field, value) ∷ r) ts =
      let ts' : Trackers = elim (finite_number N (some value)) [
        | none ↦ ts
        | some x ↦ if is_some (get_field field ts) then ts else push_stat window field x ts
      ] in
      update_parsed window r ts'

  abbrev pub entries_of : Option (Entries F) → Entries F
  entries_of none = []
  entries_of (some o) = o

  unfoldable pub update_stats : ℕ → List Text → Frame F → Trackers → Trackers
  unfolding update_explicit update_features update_parsed
  update_stats window (field ∷ fields) frame ts = update_explicit window frame (field ∷ fields) ts
  update_stats window [] frame ts =
      update_parsed window (entries_of frame.parsed)
        (update_features window (entries_of frame.features) ts)

  -- the loop of the constructor
  unfoldable pub new_trackers : ℕ → List Text → Trackers → Trackers
  unfolding put_field new_ring
  new_trackers window [] ts = ts
  new_trackers window (field ∷ fields) ts =
      new_trackers window fields (put_field field (new_ring (of_int (pos 0)) window) ts)

  -- `getStats`
  unfoldable pub get_stats : ℕ → Trackers → List (Text × RollingFieldSnapshot)
  unfolding snapshot
  get_stats window [] = []
  get_stats window ((field, r) ∷ ts) = (field, snapshot window r) ∷ get_stats window ts
