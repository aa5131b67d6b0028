-- ===== src/Pipeline/Windows.antt =====
-- `RollingFieldStats.snapshot` of plugins/algorithm_blocks_ts/src/pipeline.ts against the values
-- that were pushed.
use openclaw_serial_adapter.Prelude.{
  ℕ, ◌≡◌, refl, ap, ap₂, ◌∙◌, sym, ◌<◌, none, some, List, [], ◌∷◌, arith, foldl, length, last?,
  ◌==◌, if◌then◌else◌, or_else, false,
}
use openclaw_serial_adapter.Prelude.Int.{pos}
use openclaw_serial_adapter.Prelude.Last.{take_last}
use openclaw_serial_adapter.Number.{Number}
use openclaw_serial_adapter.Ring.{Ring, new_ring}
use openclaw_serial_adapter.Ring.Contents.{
  contents, length-contents, push_all, contents-push_all_new,
}
use openclaw_serial_adapter.Ring.Scan.{Scan, scan_of, scan_lem, lesser, greater}
use openclaw_serial_adapter.Pipeline.Stats.{RollingFieldSnapshot, snapshot}

-- The last value of a list, after a first one.
abbrev pub newest : {A : Type 0} → A → List A → A
newest x [] = x
newest x (y ∷ ys) = newest y ys

last?-newest : {A : Type 0} (x z : A) (xs : List A) → or_else (last? (x ∷ xs)) z ≡ newest x xs
last?-newest x z [] = refl
last?-newest x z (y ∷ ys) = last?-newest y z ys

module _ (N : Number) where
  open N use {F, sub, add, div, of_int, infinity, neg_infinity}

  abbrev zero_F : F
  zero_F = of_int (pos 0)

  -- What a window of values is to show: nothing of no values.
  abbrev pub shown : List F → RollingFieldSnapshot N
  shown [] = record { count = 0; mean = none; min = none; max = none; delta = none; last = none }
  shown (x ∷ xs) = record {
    count = length (x ∷ xs);
    mean = some (div (foldl add zero_F (x ∷ xs)) (of_int (pos (length (x ∷ xs)))));
    min = some (foldl (lesser N) infinity (x ∷ xs));
    max = some (foldl (greater N) neg_infinity (x ∷ xs));
    delta = some (sub (newest x xs) x);
    last = some (newest x xs);
  }

  abbrev filled : ℕ → Scan N → RollingFieldSnapshot N
  filled count found = record {
    count = count;
    mean = some (div found.sum (of_int (pos count)));
    min = some found.min;
    max = some found.max;
    delta = some (sub found.last found.first);
    last = some found.last;
  }

  abbrev summarize : ℕ → Scan N → RollingFieldSnapshot N
  summarize count found = if count == 0 then shown [] else filled count found

  summarize-scan_of : (xs : List F) → summarize (length xs) (scan_of N xs) ≡ shown xs
  summarize-scan_of [] = refl
  summarize-scan_of (x ∷ xs) =
      let count = length (x ∷ xs) in
      let is_new : (count == 0) ≡ false = ground arith in
      ap (λ b. if b then shown [] else filled count (scan_of N (x ∷ xs))) is_new
      ∙ ap (λ l. filled count (record (scan_of N (x ∷ xs)) { last = l })) (last?-newest x zero_F xs)

  snapshot-contents :
      (window : ℕ) (r : Ring F) → snapshot N window r ≡ shown (contents zero_F window r)
  unfolding snapshot
  snapshot-contents window r =
      ap₂ summarize (sym (length-contents zero_F window r)) (scan_lem N window r)
      ∙ summarize-scan_of (contents zero_F window r)

  -- After any values were pushed to a new window, its snapshot shows the number, the mean, the
  -- least, the greatest, the newest and the newest less the oldest of the last `window` of them,
  -- and nulls as long as there are none.
  pub snapshot-push_all :
      (window : ℕ) (xs : List F)
      → 0 < window
      → snapshot N window (push_all zero_F window xs (new_ring zero_F window))
        ≡ shown (take_last window xs)
  snapshot-push_all window xs h =
      snapshot-contents window (push_all zero_F window xs (new_ring zero_F window))
      ∙ ap shown (contents-push_all_new zero_F window xs h)
