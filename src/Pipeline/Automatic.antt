-- ===== src/Pipeline/Automatic.antt =====
-- The automatic mode of `updateStats`, of plugins/algorithm_blocks_ts/src/pipeline.ts.
use openclaw_serial_adapter.Prelude.{
  ℕ, ◌≡◌, ap, ◌∙◌, sym, false, none, some, List, [], ◌∷◌, All, arith, Bool-cases, Option-cases, inl,
  inr, is_some, if◌then◌else◌, foldl,
}
use openclaw_serial_adapter.Prelude.Int.{pos}
use openclaw_serial_adapter.Number.{Number}
use openclaw_serial_adapter.Text.{Text, same_text}
use openclaw_serial_adapter.Text.Laws.{same_text_iff}
use openclaw_serial_adapter.Json.{Entries}
use openclaw_serial_adapter.Frame.{Frame, get_field, finite_number}
use openclaw_serial_adapter.Frame.Laws.{get_field-put_field}
use openclaw_serial_adapter.Ring.{Ring, push, new_ring}
use openclaw_serial_adapter.Pipeline.Stats.{
  Trackers, push_stat, update_parsed, update_stats, update_features, entries_of,
}

module _ (N : Number) (window : ℕ) (field : Text) where
  open N use {F, of_int}

  abbrev Kept : Ring F → Trackers N → Type 0
  Kept r ts = get_field field ts ≡ some r

  abbrev add_new : Text → F → Trackers N → Trackers N
  add_new k x ts = if is_some (get_field k ts) then ts else push_stat N window k x ts

  other_field :
      (r : Ring F) (k : Text) (ts : Trackers N)
      → get_field k ts ≡ none
      → Kept r ts
      → same_text k field ≡ false
  other_field r k ts absent h = elim (Bool-cases (same_text k field)) [
    | inl same ↦
        let clash : none ≡ some r =
          sym absent ∙ ap (λ j. get_field j ts) ((same_text_iff k field).0 same) ∙ h in
        absurd (ground (arith, clash))
    | inr other ↦ other
  ]

  push_stat-Kept :
      (r : Ring F) (k : Text) (x : F) (ts : Trackers N)
      → get_field k ts ≡ none
      → Kept r ts
      → Kept r (push_stat N window k x ts)
  unfolding push_stat
  push_stat-Kept r k x ts absent h =
      let fresh = push (of_int (pos 0)) window x (new_ring (of_int (pos 0)) window) in
      rw (absent, push_stat)
        (get_field-put_field k field fresh ts
          ∙ ap (λ b. if b then some fresh else get_field field ts) (other_field r k ts absent h)
          ∙ h)

  add_new-Kept :
      (r : Ring F) (k : Text) (x : F) (ts : Trackers N) → Kept r ts → Kept r (add_new k x ts)
  add_new-Kept r k x ts h = elim (Option-cases (get_field k ts)) [
    | inl absent ↦
        ap (λ o. get_field field (if is_some o then ts else push_stat N window k x ts)) absent
        ∙ push_stat-Kept r k x ts absent h
    | inr (held, present) ↦
        ap (λ o. get_field field (if is_some o then ts else push_stat N window k x ts)) present ∙ h
  ]

  update_parsed-Kept :
      (r : Ring F) (o : Entries F) (ts : Trackers N)
      → Kept r ts
      → Kept r (update_parsed N window o ts)
  unfolding update_parsed
  update_parsed-Kept r [] ts h = h
  update_parsed-Kept r ((k, v) ∷ o) ts h =
      elim (finite_number N (some v))
        as (λ n. Kept r (
          update_parsed N window o (elim n [
            | none ↦ ts
            | some x ↦ if is_some (get_field k ts) then ts else push_stat N window k x ts
          ]))) [
            | none ↦ update_parsed-Kept r o ts h
            | some x ↦ update_parsed-Kept r o (add_new k x ts) (add_new-Kept r k x ts h)
          ]

  -- In the automatic mode, frames without features never change the statistics of a field that has
  -- a tracker, whatever value they have for it: a field that stands in `parsed` alone is counted
  -- once.
  pub update_stats-parsed :
      (r : Ring F) (fs : List (Frame F)) (ts : Trackers N)
      → All (λ f. f.features ≡ none) fs
      → get_field field ts ≡ some r
      → get_field field (foldl (λ t f. update_stats N window [] f t) ts fs) ≡ some r
  unfolding update_stats update_features
  update_stats-parsed r [] ts no_features h = h
  update_stats-parsed r (f ∷ fs) ts no_features h =
      let after_features = update_features N window (entries_of N f.features) ts in
      let kept : Kept r after_features =
        ap (λ o. get_field field (update_features N window (entries_of N o) ts)) no_features.0
        ∙ h in
      update_stats-parsed r fs (update_parsed N window (entries_of N f.parsed) after_features)
        no_features.1 (update_parsed-Kept r (entries_of N f.parsed) after_features kept)
