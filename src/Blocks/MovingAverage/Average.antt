-- ===== src/Blocks/MovingAverage/Average.antt =====
-- The running sum of a moving average is the sum of its window.
use mathlib.Core.Option
use mathlib.Core.List.{filter_map}
use openclaw_serial_adapter.Prelude.{
  ℕ, drop, ltb, Bool-cases, append_assoc, or_some, ◌<◌, ◌≡◌, refl, ap, sym, ◌∙◌, Option, none, some,
  List, [], ◌∷◌, ◌++◌, foldl, length, if◌then◌else◌, arith, Option-cases, inl, inr,
}
use openclaw_serial_adapter.Prelude.Int.{pos}
use openclaw_serial_adapter.Prelude.Last.{take_last, push_bounded, foldl-push_bounded_nil}
use openclaw_serial_adapter.Number.{Number}
use openclaw_serial_adapter.Text.{Text, same_text}
use openclaw_serial_adapter.Json.{Json, num}
use openclaw_serial_adapter.Frame.{Frame, get_field, get_optional, read_numeric, features_of}
use openclaw_serial_adapter.Frame.Laws.{get_field-put_field}
use openclaw_serial_adapter.Ring.Contents.{new_ring-IsValid, contents-new_ring}
use openclaw_serial_adapter.Blocks.MovingAverage.{
  Block, accept, process, init, reset, Config, window_of,
}
use openclaw_serial_adapter.Blocks.MovingAverage.Holds.{total, average, Holds, accept-Holds}

module _ (N : Number) where
  open N use {F, add, sub, div, of_int}

  -- The sums of the full windows of these values are exact, as those of integers are that do not grow
  -- too large: taking the first summand of a window away leaves the sum of the others.
  abbrev pub IsExact : ℕ → List F → Type 0
  IsExact window values =
      (before xs after : List F) (x : F)
      → values ≡ before ++ ((x ∷ xs) ++ after)
      → length (x ∷ xs) ≡ window
      → sub (total N (x ∷ xs)) x ≡ total N xs

  -- The block after a row of frames, and the values that the frames have for a key.
  abbrev pub process_all : List (Frame F) → Block N → Block N
  process_all [] b = b
  process_all (f ∷ fs) b = process_all fs (process N f b).0

  abbrev pub values_all : Text → List (Frame F) → List F
  values_all key fs = filter_map (λ f. read_numeric N f key) fs

  process_missing :
      (f : Frame F) (b : Block N) → read_numeric N f b.source_key ≡ none → (process N f b).0 ≡ b
  unfolding process
  process_missing f b e = rw (e, process)

  process_found :
      (f : Frame F) (b : Block N) (value : F)
      → read_numeric N f b.source_key ≡ some value
      → (process N f b).0 ≡ accept N value b
  unfolding process
  process_found f b value e = rw (e, process)

  -- A list ends with another.
  abbrev EndsWith : List F → List F → Type 0
  EndsWith held seen = (before : List F) × (seen ≡ before ++ held)

  drop_one-EndsWith : (xs : List F) → EndsWith (drop 1 xs) xs
  drop_one-EndsWith [] = ([], refl)
  drop_one-EndsWith (x ∷ xs) = (x ∷ [], refl)

  push_bounded-EndsWith :
      (n : ℕ) (xs : List F) (x : F) → EndsWith (push_bounded n xs x) (xs ++ x ∷ [])
  push_bounded-EndsWith n xs x = elim (Bool-cases (ltb n (length (xs ++ x ∷ [])))) [
    | inl more ↦ rw more (drop_one-EndsWith (xs ++ x ∷ []))
    | inr fits ↦ rw fits ([], refl)
  ]

  pushed-EndsWith :
      (n : ℕ) (held seen : List F) (x : F)
      → EndsWith held seen
      → EndsWith (push_bounded n held x) (seen ++ x ∷ [])
  pushed-EndsWith n held seen x (before, e) =
      let (more, f) = push_bounded-EndsWith n held x in
      (
        before ++ more,
        ap (λ l. l ++ x ∷ []) e
            ∙ append_assoc before held (x ∷ [])
            ∙ ap (λ l. before ++ l) f
            ∙ sym (append_assoc before more (push_bounded n held x)),
      )

  -- the window that is full is one of all the values
  window-IsExact :
      (n : ℕ) (held seen rest values : List F)
      → IsExact n values
      → EndsWith held seen
      → values ≡ seen ++ rest
      → (x : F) (xs : List F) → held ≡ x ∷ xs
      → length (x ∷ xs) ≡ n
      → sub (total N (x ∷ xs)) x ≡ total N xs
  window-IsExact n held seen rest values exact (before, e) all x xs is full =
      exact before xs rest x
        (all
          ∙ ap (λ l. l ++ rest) (e ∙ ap (λ l. before ++ l) is)
          ∙ append_assoc before (x ∷ xs) rest)
        full

  values_found :
      (f : Frame F) (fs : List (Frame F)) (key : Text) (value : F)
      → read_numeric N f key ≡ some value
      → values_all key (f ∷ fs) ≡ value ∷ values_all key fs
  unfolding filter_map
  values_found f fs key value e = rw e

  values_missing :
      (f : Frame F) (fs : List (Frame F)) (key : Text)
      → read_numeric N f key ≡ none
      → values_all key (f ∷ fs) ≡ values_all key fs
  unfolding filter_map
  values_missing f fs key e = rw e

  process_all-Holds :
      (n : ℕ) (values : List F)
      → IsExact n values
      → (fs : List (Frame F)) (b : Block N) (held seen : List F) → n ≡ b.window
      → EndsWith held seen
      → values ≡ seen ++ values_all b.source_key fs
      → Holds N b held
      → Holds N (process_all fs b) (foldl (push_bounded b.window) held (values_all b.source_key fs))
  unfolding accept filter_map
  process_all-Holds n values exact [] b held seen w s all h = h
  process_all-Holds n values exact (f ∷ fs) b held seen w s all h =
      let key = b.source_key in
      elim (Option-cases (read_numeric N f key)) [
        | inl missing ↦
            let same = values_missing f fs key missing in
            rw (process_missing f b missing, same)
              (process_all-Holds n values exact fs b held seen w s (all ∙ ap (λ l. seen ++ l) same)
                h)
        | inr (value, found) ↦
            let more = values_found f fs key value found in
            let split = all ∙ ap (λ l. seen ++ l) more in
            rw (process_found f b value found, more)
              (process_all-Holds n values exact fs (accept N value b)
                (push_bounded b.window held value) (seen ++ value ∷ []) w
                (pushed-EndsWith b.window held seen value s)
                (split ∙ sym (append_assoc seen (value ∷ []) (values_all key fs)))
                (accept-Holds N value b
                  (λ x xs is full.
                    window-IsExact n held seen (value ∷ values_all key fs) values exact s split x xs
                      is (full ∙ sym w))
                  h))
      ]

  init-Holds : (cfg : Config N) (b : Block N) → Holds N (init N cfg b) []
  unfolding init
  init-Holds cfg b =
      let positive : 0 < window_of N cfg.window b.window = ground arith in
      record {
        positive = positive;
        valid =
            unfold reset in
            new_ring-IsValid (of_int (pos 0)) (window_of N cfg.window b.window) positive;
        inside = contents-new_ring (of_int (pos 0)) (window_of N cfg.window b.window);
        summed = refl;
        averaged = refl;
      }

  -- After `init` and any frames, the running sum is the sum of the last `window` of the values that
  -- the frames had for the source key, and the last average is that sum divided by how many they are,
  -- and is null as long as no frame had a value. It is assumed that no sum of a full window of these
  -- values was rounded: taking its first value away leaves the sum of the others.
  pub average-process_all :
      (cfg : Config N) (b : Block N) (fs : List (Frame F))
      → IsExact (init N cfg b).window (values_all (init N cfg b).source_key fs)
      → let start = init N cfg b in
        let after = process_all fs start in
        let held = take_last start.window (values_all start.source_key fs) in
        (after.sum ≡ total N held) × (after.last_average ≡ average N held)
  average-process_all cfg b fs exact =
      let start = init N cfg b in
      let values = values_all start.source_key fs in
      let h =
        process_all-Holds start.window values exact fs start [] [] refl ([], refl) refl
          (init-Holds cfg b) in
      let e = foldl-push_bounded_nil start.window (values_all start.source_key fs) in
      (h.summed ∙ ap (total N) e, h.averaged ∙ ap (average N) e)

  -- `process` hands back the frame with the new average under the output key, where it has a value
  -- for the source key, and otherwise with its features as they were; it sets no other feature and
  -- leaves the other parts of the frame alone.
  pub process_features :
      (f : Frame F) (b : Block N) (key : Text)
      → let (after, out) = process N f b in
        let before = get_field key (features_of N f) in
        let average_now : Option (Json F) = elim (read_numeric N f b.source_key) [
          | none ↦ none
          | some _ ↦ Option.map num after.last_average
        ] in
        (get_optional N key out.features
          ≡ (if same_text b.output_key key then or_some average_now before else before))
        × (out ≡ record f { features = out.features })
  unfolding process accept
  process_features f b key = ground (
    arith,
    get_field-put_field b.output_key key
        (num (div (process N f b).0.sum (of_int (pos (process N f b).0.ring.count))))
        (features_of N f),
  )
