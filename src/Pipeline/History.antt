-- ===== src/Pipeline/History.antt =====
-- The history of a pipeline: `getLastN` and `getLatest` after any frames.
use openclaw_serial_adapter.Prelude.{
  ℕ, zero, suc, ◌+◌, ◌-◌, ◌%◌, ◌≤◌, ◌<◌, ◌≡◌, refl, ap, ap₂, sym, ◌∙◌, Option, none, some, List, [],
  ◌∷◌, ◌++◌, map, last?, min, length, length-map, drop, drop-nil, get_or, arith, dec_lt, append-nil,
  append_assoc, subst,
}
use openclaw_serial_adapter.Prelude.Int.{ℤ, pos_part}
use openclaw_serial_adapter.Prelude.Last.{
  take_last, length-take_last, take_last-take_last, push_bounded, push_bounded-take_last,
}
use openclaw_serial_adapter.Number.{Number}
use openclaw_serial_adapter.Text.{Text}
use openclaw_serial_adapter.Frame.{Frame}
use openclaw_serial_adapter.Ring.{Ring, start_index}
use openclaw_serial_adapter.Ring.Contents.{
  IsValid, contents, length-contents, reads, reads-mod, new_ring-IsValid, contents-new_ring,
  push-IsValid, contents-push,
}
use openclaw_serial_adapter.Pipeline.{
  AlgorithmBlock, Pipeline, Options, new_pipeline, process, frame_or_blank, read_last, get_last_n,
  get_latest,
}
use mathlib.Core.List.{map-append}
use native.Mathlib.Nat.{mod-add-mod, add-mod_right}

module _ {A : Type 0} (blank : A) (window : ℕ) where
  drop-reads :
      (values : List A) (s n k : ℕ)
      → k ≤ n
      → drop k (reads blank window values s n) ≡ reads blank window values (s + k) (n - k)
  drop-reads values s n zero h =
      let e : s ≡ s + 0 = omega arith in
      let e' : n ≡ n - 0 = omega arith in ap₂ (reads blank window values) e e'
  drop-reads values s zero (suc k) h = absurd (omega arith)
  drop-reads values s (suc n) (suc k) h =
      let e : s + 1 + k ≡ s + suc k = omega arith in
      let e' : n - k ≡ suc n - suc k = omega arith in
      drop-reads values (s + 1) n k (omega arith) ∙ ap₂ (reads blank window values) e e'

  -- The last `c` values that a ring holds, by the index at which they begin.
  take_last-contents :
      (r : Ring A) (c : ℕ)
      → IsValid blank window r
      → c ≤ r.count
      → reads blank window r.values (r.write_index + window - c) c
        ≡ take_last c (contents blank window r)
  take_last-contents r c v h =
      let s = start_index blank window r in
      let n = r.count in
      let same_cell : (s + (n - c)) % window ≡ (r.write_index + window - c) % window =
        elim (dec_lt n window) [
          | yes p ↦
              let zero_start : s + (n - c) ≡ r.write_index - c = ground (arith, v.filling p) in
              let round : r.write_index + window - c ≡ r.write_index - c + window =
                omega (arith, v.filling p) in
              ap (λ k. k % window) zero_start
              ∙ sym (add-mod_right (r.write_index - c) window)
              ∙ ap (λ k. k % window) (sym round)
          | no p ↦
              let at_index : s + (n - c) ≡ r.write_index + window - c =
                ground (arith, v.count_in) in
              ap (λ k. k % window) at_index
        ] in
      let left : n - (n - c) ≡ c = omega arith in
      let skipped : length (contents blank window r) - c ≡ n - c =
        ap (λ l. l - c) (length-contents blank window r) in
      reads-mod blank window r.values (r.write_index + window - c) (s + (n - c)) c (sym same_cell)
      ∙ ap (reads blank window r.values (s + (n - c))) (sym left)
      ∙ sym (drop-reads r.values s n (n - c) (omega arith))
      ∙ ap (λ k. drop k (contents blank window r)) (sym skipped)

last?-append : {A : Type 0} (xs : List A) (x : A) → last? (xs ++ x ∷ []) ≡ some x
last?-append [] x = refl
last?-append (y ∷ []) x = refl
last?-append (y ∷ (z ∷ zs)) x = last?-append (z ∷ zs) x

module _ (N : Number) where
  open N use {F, of_int}

  read_last-reads :
      (size i n : ℕ) (values : List (Option (Frame F)))
      → read_last N size values (i % size) n ≡ map (frame_or_blank N) (reads none size values i n)
  unfolding read_last
  read_last-reads size i zero values = refl
  read_last-reads size i (suc n) values =
      ap (◌∷◌ (frame_or_blank N (get_or values (i % size) none))) (
        ap (λ k. read_last N size values k n) (mod-add-mod i size 1)
        ∙ read_last-reads size (i + 1) n values)

  drop-map :
      {A B : Type 0} (f : A → B) (k : ℕ) (xs : List A) → drop k (map f xs) ≡ map f (drop k xs)
  drop-map f zero xs = refl
  drop-map f (suc k) [] = refl
  drop-map f (suc k) (x ∷ xs) = drop-map f k xs

  map-frame_or_blank : (xs : List (Frame F)) → map (frame_or_blank N) (map some xs) ≡ xs
  map-frame_or_blank [] = refl
  map-frame_or_blank (x ∷ xs) = ap (◌∷◌ x) (map-frame_or_blank xs)

  take_last-map :
      (k : ℕ) (xs : List (Frame F)) → take_last k (map some xs) ≡ map some (take_last k xs)
  take_last-map k xs =
      ap (λ n. drop (n - k) (map some xs)) (length-map some xs) ∙ drop-map some (length xs - k) xs

  -- What the pipeline keeps of the frames that it gave out.
  record Keeps (p : Pipeline N) (outs : List (Frame F)) : Type 0 where
    valid : IsValid none p.history_size p.history
    kept : contents none p.history_size p.history ≡ take_last p.history_size (map some outs)
    newest : p.latest ≡ last? outs

  get_last_n_lem :
      (n : ℤ) (p : Pipeline N) (outs : List (Frame F))
      → Keeps p outs
      → get_last_n N n p ≡ take_last (min (pos_part n) p.history_size) outs
  unfolding get_last_n
  get_last_n_lem n p outs k =
      let size = p.history_size in
      let c = min (pos_part n) p.history.count in
      let counted : p.history.count ≡ min size (length outs) = omega (
        arith,
        length-contents none size p.history,
        ap length k.kept,
        length-take_last size (map some outs),
        length-map {B = Option (Frame F)} some outs,
      ) in
      let skipped : length outs - c ≡ length outs - min (pos_part n) size = omega arith in
      read_last-reads size (p.history.write_index + size - c) c p.history.values
      ∙ ap (map (frame_or_blank N)) (
          take_last-contents none size p.history c k.valid (omega arith)
          ∙ ap (take_last c) k.kept
          ∙ take_last-take_last c size (map some outs) (omega (arith, k.valid.count_in))
          ∙ take_last-map c outs)
      ∙ map-frame_or_blank (take_last c outs)
      ∙ ap (λ j. drop j outs) skipped

  process-Keeps :
      (f : Frame F) (p : Pipeline N) (outs : List (Frame F))
      → Keeps p outs
      → let (q, out) = process N f p in
        Keeps q (outs ++ out ∷ []) × (q.history_size ≡ p.history_size)
  unfolding process
  process-Keeps f p outs k =
      let out = (process N f p).1 in
      let size = p.history_size in
      (
        record {
          valid = push-IsValid none size (some out) p.history k.valid;
          kept =
              contents-push none size (some out) p.history k.valid
              ∙ ap (λ l. push_bounded size l (some out)) k.kept
              ∙ push_bounded-take_last size (map some outs) (some out)
              ∙ ap (take_last size) (sym (map-append some outs (out ∷ [])));
          newest = sym (last?-append outs out);
        },
        refl,
      )

  -- The pipeline after a row of frames, with what `process` gave out for each.
  abbrev pub process_all : List (Frame F) → Pipeline N → Pipeline N × List (Frame F)
  process_all [] p = (p, [])
  process_all (f ∷ fs) p =
      let (q, out) = process N f p in let (last, outs) = process_all fs q in (last, out ∷ outs)

  process_all-Keeps :
      (fs : List (Frame F)) (p : Pipeline N) (outs : List (Frame F))
      → Keeps p outs
      → let (q, new) = process_all fs p in Keeps q (outs ++ new) × (q.history_size ≡ p.history_size)
  process_all-Keeps [] p outs k = (rw append-nil k, refl)
  process_all-Keeps (f ∷ fs) p outs k =
      let (q, out) = process N f p in
      let (later, new) = process_all fs q in
      let (first, same) = process-Keeps f p outs k in
      let (rest, same') = process_all-Keeps fs q (outs ++ out ∷ []) first in
      (subst (Keeps later) (append_assoc outs (out ∷ []) new) rest, same' ∙ same)

  -- A pipeline that was made with any options and given any blocks and then any frames shows the
  -- frames that `process` gave out: `getLastN` the last of them in order, as many as it is asked
  -- for but no more than the size of the history, and `getLatest` the last one.
  pub get_last_n-process_all :
      (options : Options N) (blocks : List (Text × AlgorithmBlock N)) (fs : List (Frame F)) (n : ℤ)
      → let p : Pipeline N = record (new_pipeline N options) { blocks = blocks } in
        let (q, outs) = process_all fs p in
        (get_last_n N n q ≡ take_last (min (pos_part n) p.history_size) outs)
        × (get_latest N q ≡ last? outs)
  unfolding new_pipeline get_latest
  get_last_n-process_all options blocks fs n =
      let p : Pipeline N = record (new_pipeline N options) { blocks = blocks } in
      let (q, outs) = process_all fs p in
      let positive : 0 < p.history_size = ground arith in
      let start : Keeps p [] = record {
        valid = new_ring-IsValid none p.history_size positive;
        kept = contents-new_ring none p.history_size ∙ sym (drop-nil (0 - p.history_size));
        newest = refl;
      } in
      let (k, same) = process_all-Keeps fs p [] start in
      (get_last_n_lem n q outs k ∙ ap (λ m. take_last (min (pos_part n) m) outs) same, k.newest)
