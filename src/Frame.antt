-- ===== src/Frame.antt =====
-- Frames of the algorithm blocks: plugins/algorithm_blocks_ts/src/types.ts, and the reading of
-- numeric fields that the three blocks repeat. An object lists its properties in the order in which
-- they were set; the spread `{...o}` copies it, so that a frame is a value.
pub mod Laws
use openclaw_serial_adapter.Prelude.{
  Bool, true, false, Option, none, some, List, [], ◌∷◌, ◌≡◌, if◌then◌else◌,
}
use openclaw_serial_adapter.Number.{Number}
use openclaw_serial_adapter.Text.{Text, same_text}
use openclaw_serial_adapter.Json.{Json, num, Entries}

-- `o[k]`
unfoldable pub get_field {ℓ} : {A : Type ℓ} → Text → List (Text × A) → Option A
unfolding same_text
get_field k [] = none
get_field k ((j, v) ∷ r) = let later = get_field k r in if same_text j k then some v else later

-- `o[k] = v`
unfoldable pub put_field {ℓ} : {A : Type ℓ} → Text → A → List (Text × A) → List (Text × A)
unfolding same_text
put_field k v [] = (k, v) ∷ []
put_field k v ((j, w) ∷ r) =
    let rest = put_field k v r in if same_text j k then (j, v) ∷ r else (j, w) ∷ rest

pub record Frame (F : Type 0) : Type 0 where
  pub timestamp : F
  pub raw : Option Text
  pub parsed : Option (Entries F)
  pub meta : Option (Entries F)
  pub features : Option (Entries F)

module _ (N : Number) where
  open N use {F, is_finite}

  -- `isFiniteNumber`, with the number
  abbrev pub finite_number : Option (Json F) → Option F
  finite_number (some (num x)) = if is_finite x then some x else none
  finite_number _ = none

  -- `o?.[k]`
  abbrev pub get_optional : Text → Option (Entries F) → Option (Json F)
  get_optional k none = none
  get_optional k (some o) = get_field k o

  unfoldable pub read_numeric : Frame F → Text → Option F
  unfolding get_field
  read_numeric frame key =
      let from_parsed = finite_number (get_optional key frame.parsed) in
      elim (finite_number (get_optional key frame.features)) [
        | some x ↦ some x
        | none ↦ from_parsed
      ]

  -- `frame.features ? { ...frame.features } : {}`
  abbrev pub features_of : Frame F → Entries F
  features_of frame = elim frame.features [ none ↦ [] | some o ↦ o ]

  -- the frame `next` with which each block's `process` starts
  abbrev pub with_features : Frame F → Entries F → Frame F
  with_features frame features = record frame { features = some features }
