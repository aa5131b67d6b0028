-- ===== src/Blocks/MovingAverage/Holds.antt =====
-- The block of moving_average.ts and the window that it holds, from one value to the next.

use openclaw_serial_adapter.Prelude.{
  ◌+◌, ◌-◌, ◌<◌, ◌≡◌, ◌≢◌, refl, ap, ap₂, sym, ◌∙◌, Option, none, some, List, [], ◌∷◌, ◌++◌, foldl,
  length, get_or, arith, length-append, dec_lt,
}
use openclaw_serial_adapter.Prelude.Int.{pos}
use openclaw_serial_adapter.Prelude.Last.{push_bounded}
use openclaw_serial_adapter.Number.{Number}
use openclaw_serial_adapter.Ring.{push}
use openclaw_serial_adapter.Ring.Contents.{
  IsValid, contents, length-contents, push-IsValid, contents-push, contents_of_full, reads,
}
use openclaw_serial_adapter.Blocks.MovingAverage.{Block, accept}

module _ (N : Number) where
  open N use {F, add, sub, div, of_int}

  -- `xs.reduce((a, b) => a + b, 0)`
  abbrev pub total : List F → F
  total xs = foldl add (of_int (pos 0)) xs

  abbrev pub average : List F → Option F
  average [] = none
  average (x ∷ xs) = some (div (total (x ∷ xs)) (of_int (pos (length (x ∷ xs)))))

  total-append : (a : F) (xs : List F) (y : F) → foldl add a (xs ++ y ∷ []) ≡ add (foldl add a xs) y
  total-append a [] y = refl
  total-append a (x ∷ xs) y = total-append (add a x) xs y

  -- The block holds the window `held`.
  pub record Holds (b : Block N) (held : List F) : Type 0 where
    pub positive : 0 < b.window
    pub valid : IsValid (of_int (pos 0)) b.window b.ring
    pub inside : contents (of_int (pos 0)) b.window b.ring ≡ held
    pub summed : b.sum ≡ total held
    pub averaged : b.last_average ≡ average held

  abbrev IsPush : F → Block N → Type 0
  IsPush value b = (accept N value b).ring ≡ push (of_int (pos 0)) b.window value b.ring

  accept-IsPush :
      (value : F) (b : Block N) → IsValid (of_int (pos 0)) b.window b.ring → IsPush value b
  unfolding accept push
  accept-IsPush value b v = ground arith

  module _ (value : F) (b : Block N) {held : List F}
      (exact : (x : F) (xs : List F)
        → held ≡ x ∷ xs
        → length (x ∷ xs) ≡ b.window
        → sub (total (x ∷ xs)) x ≡ total xs)
      (h : Holds b held) where
    length-held : length held ≡ b.ring.count
    length-held = ap length (sym h.inside) ∙ length-contents (of_int (pos 0)) b.window b.ring

    sum_filling :
        b.ring.count < b.window → (accept N value b).sum ≡ total (push_bounded b.window held value)
    unfolding accept
    sum_filling p = ground (
      arith,
      length-held,
      length-append held (value ∷ []),
      total-append (of_int (pos 0)) held value,
    )

    sum_full :
        b.ring.count ≡ b.window → (accept N value b).sum ≡ total (push_bounded b.window held value)
    unfolding accept
    sum_full p =
        let x = get_or b.ring.values b.ring.write_index (of_int (pos 0)) in
        let xs =
          reads (of_int (pos 0)) b.window b.ring.values (b.ring.write_index + 1) (b.window - 1) in
        let split : held ≡ x ∷ xs =
          sym h.inside ∙ contents_of_full (of_int (pos 0)) b.window b.ring h.valid p in
        ground (
          arith,
          length-held,
          exact x xs split (sym (ap length split) ∙ length-held ∙ p),
          length-append xs (value ∷ []),
          total-append (of_int (pos 0)) xs value,
        )

    average_of :
        (ys : List F) → ys ≢ [] → average ys ≡ some (div (total ys) (of_int (pos (length ys))))
    average_of [] ne = absurd (ne refl)
    average_of (y ∷ ys) ne = refl

    abbrev held' : List F
    held' = push_bounded b.window held value

    accept-IsValid : IsValid (of_int (pos 0)) b.window (accept N value b).ring
    accept-IsValid =
        rw (accept-IsPush value b h.valid)
          (push-IsValid (of_int (pos 0)) b.window value b.ring h.valid)

    accept-inside : contents (of_int (pos 0)) b.window (accept N value b).ring ≡ held'
    accept-inside =
        ap (contents (of_int (pos 0)) b.window) (accept-IsPush value b h.valid)
        ∙ contents-push (of_int (pos 0)) b.window value b.ring h.valid
        ∙ ap (λ l. push_bounded b.window l value) h.inside

    accept-summed : (accept N value b).sum ≡ total held'
    accept-summed = elim (dec_lt b.ring.count b.window) [
      | yes p ↦ sum_filling p
      | no p ↦ sum_full (omega (arith, h.valid.count_in))
    ]

    accept-counted : (accept N value b).ring.count ≡ length held'
    accept-counted =
        sym (length-contents (of_int (pos 0)) b.window (accept N value b).ring)
        ∙ ap length accept-inside

    accept-averaged : (accept N value b).last_average ≡ average held'
    unfolding accept
    accept-averaged =
        let counted = accept-counted in
        let some_count : 0 < (accept N value b).ring.count = ground (arith, h.positive) in
        let ne : held' ≢ [] = λ e. absurd (omega (arith, ap length e)) in
        ap₂ (λ s n. some (div s (of_int (pos n)))) accept-summed counted ∙ sym (average_of held' ne)

    pub accept-Holds : Holds (accept N value b) held'
    unfolding accept
    accept-Holds = record {
      positive = h.positive;
      valid = accept-IsValid;
      inside = accept-inside;
      summed = accept-summed;
      averaged = accept-averaged;
    }
