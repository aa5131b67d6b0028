-- ===== src/Blocks/Pid/Control.antt =====
-- What the controller puts out, and what it remembers.
use mathlib.Core.List.{filter_map}
use openclaw_serial_adapter.Prelude.{
  ◌≡◌, refl, ap, sym, ◌∙◌, false, Option, none, some, List, [], ◌∷◌, ◌++◌, map, foldl, last?, arith,
  Option-cases, inl, inr, or_some,
}
use openclaw_serial_adapter.Prelude.Int.{pos}
use openclaw_serial_adapter.Number.{Number}
use openclaw_serial_adapter.Text.{Text, codes}
use openclaw_serial_adapter.Text.Laws.{same_text_refl}
use openclaw_serial_adapter.Json.{num}
use openclaw_serial_adapter.Frame.{Frame, read_numeric, get_optional}
use openclaw_serial_adapter.Frame.Laws.{get_field-put_field}
use openclaw_serial_adapter.Blocks.Pid.{Block, Config, init, control, process}

or_some-none : {A : Type 0} (o : Option A) → or_some o none ≡ o
or_some-none none = refl
or_some-none (some a) = refl

module _ (N : Number) where
  open N use {F, is_finite, lt, add, sub, mul, div, of_int}

  control_bounds :
      ((x : F) → lt x x ≡ false)
      → (measurement : F) (b : Block N) → lt b.max_output b.min_output ≡ false
      → let output = (control N measurement b).2 in
        (lt output b.min_output ≡ false) × (lt b.max_output output ≡ false)
  unfolding control
  control_bounds irrefl measurement b ordered =
      ground (arith, irrefl b.min_output, irrefl b.max_output)

  -- Where the bounds are in order and `<` is irreflexive, the output of every frame with a
  -- measurement is not below the least output and not above the greatest, whatever the arithmetic
  -- made of the three terms; it is remembered, and put under the block's own output feature.
  pub process_bounds :
      ((x : F) → lt x x ≡ false)
      → (f : Frame F) (b : Block N) (measurement : F) → lt b.max_output b.min_output ≡ false
      → read_numeric N f b.measurement_key ≡ some measurement
      → let (after, out) = process N f b in
        (output : F) × (after.last_output ≡ some output)
        × (lt output b.min_output ≡ false)
        × (lt b.max_output output ≡ false)
        × (get_optional N (b.name ++ codes ".output") out.features ≡ some (num output))
  unfolding process
  process_bounds irrefl f b measurement ordered found =
      let (after, error, output) = control N measurement b in
      let remembered : after.last_output ≡ some output = unfold control in refl in
      let (low, high) = control_bounds irrefl measurement b ordered in
      rw (found, process)
        (
          output,
          remembered,
          low,
          high,
          get_field-put_field (b.name ++ codes ".output") (b.name ++ codes ".output") (num output) _
              ∙ rw (same_text_refl (b.name ++ codes ".output")),
        )

  -- The block after a row of frames, and the values that the frames have for a key.
  abbrev pub process_all : List (Frame F) → Block N → Block N
  process_all [] b = b
  process_all (f ∷ fs) b = process_all fs (process N f b).0

  abbrev pub values_all : Text → List (Frame F) → List F
  values_all key fs = filter_map (λ f. read_numeric N f key) fs

  process_missing :
      (f : Frame F) (b : Block N)
      → read_numeric N f b.measurement_key ≡ none
      → (process N f b).0 ≡ b
  unfolding process
  process_missing f b e = rw (e, process)

  process_found :
      (f : Frame F) (b : Block N) (value : F)
      → read_numeric N f b.measurement_key ≡ some value
      → (process N f b).0 ≡ (control N value b).0
  unfolding process
  process_found f b value e = rw (e, process)

  -- The sum that the controller keeps, and the error that it remembers.
  abbrev pub integrate : F → F → List F → F
  integrate dt i errors = foldl (λ sum error. add sum (mul error dt)) i errors

  abbrev pub errors_of : Block N → List F → List F
  errors_of b = map (sub b.setpoint)

  abbrev regulate : Block N → F → Block N
  regulate b value = (control N value b).0

  filter_map-missing :
      (key : Text) (f : Frame F) (fs : List (Frame F))
      → read_numeric N f key ≡ none
      → values_all key (f ∷ fs) ≡ values_all key fs
  unfolding filter_map
  filter_map-missing key f fs e = rw e

  filter_map-found :
      (key : Text) (f : Frame F) (fs : List (Frame F)) (value : F)
      → read_numeric N f key ≡ some value
      → values_all key (f ∷ fs) ≡ value ∷ values_all key fs
  unfolding filter_map
  filter_map-found key f fs value e = rw e

  process_all-foldl :
      (fs : List (Frame F)) (b : Block N)
      → process_all fs b ≡ foldl regulate b (values_all b.measurement_key fs)
  unfolding control
  process_all-foldl [] b = unfold filter_map in refl
  process_all-foldl (f ∷ fs) b = elim (Option-cases (read_numeric N f b.measurement_key)) [
    | inl missing ↦
        ap (process_all fs) (process_missing f b missing)
        ∙ process_all-foldl fs b
        ∙ ap (foldl regulate b) (sym (filter_map-missing b.measurement_key f fs missing))
    | inr (value, found) ↦
        ap (process_all fs) (process_found f b value found)
        ∙ process_all-foldl fs (control N value b).0
        ∙ ap (foldl regulate b) (sym (filter_map-found b.measurement_key f fs value found))
  ]

  regulated :
      (values : List F) (b : Block N)
      → let after = foldl regulate b values in
        (after.integral ≡ integrate b.dt_seconds b.integral (errors_of b values))
        × (after.prev_error ≡ or_some (last? (errors_of b values)) b.prev_error)
  unfolding control
  regulated [] b = (refl, refl)
  regulated (v ∷ []) b = (refl, refl)
  regulated (v ∷ (w ∷ vs)) b =
      let (summed, last) = regulated (w ∷ vs) (control N v b).0 in (summed, last ∙ last_error w vs)
    where
      last_error :
          (w : F) (vs : List F)
          → or_some (last? (errors_of b (w ∷ vs))) (some (sub b.setpoint v))
            ≡ or_some (last? (errors_of b (w ∷ vs))) b.prev_error
      last_error w [] = refl
      last_error w (u ∷ us) = last_error u us

  -- After `init` and any frames, the controller has summed the error of every measurement in the
  -- frames, each times the step width, and remembers the error of the last one; a frame with no
  -- measurement counts for neither.
  pub errors_of-process_all :
      (cfg : Config N) (b : Block N) (fs : List (Frame F))
      → let start = init N cfg b in
        let after = process_all fs start in
        let errors = errors_of start (values_all start.measurement_key fs) in
        (after.integral ≡ integrate start.dt_seconds (of_int (pos 0)) errors)
        × (after.prev_error ≡ last? errors)
  unfolding init
  errors_of-process_all cfg b fs =
      let start = init N cfg b in
      let values = values_all start.measurement_key fs in
      let (summed, last) = regulated values start in
      let run = process_all-foldl fs start in
      (ap (λ d. d.integral) run ∙ summed, ap (λ d. d.prev_error) run ∙ last ∙ or_some-none _)
