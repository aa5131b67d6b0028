-- ===== src/Ring/Scan.antt =====
-- The loop of `RollingFieldStats.snapshot` and `KeyWindow.summary`: sum, least, greatest, first and
-- last value of a ring.
use openclaw_serial_adapter.Prelude.{
  ℕ, suc, ◌+◌, ◌-◌, ◌≡◌, refl, ap, ◌∙◌, true, false, List, [], ◌∷◌, ◌==◌, if◌then◌else◌, foldl,
  length, last?, arith, All, or_else, ap₂, Bool-cases, inl, inr,
}
use openclaw_serial_adapter.Prelude.Int.{pos}
use openclaw_serial_adapter.Number.{Number, IsOrder}
use openclaw_serial_adapter.Ring.{Ring, for_each}
use openclaw_serial_adapter.Ring.Contents.{contents, length-contents, fold_index, for_each-contents}

All-both :
    {A : Type 0} (P Q : A → Type 0) (xs : List A) → All P xs → All Q xs → All (λ x. P x × Q x) xs
All-both P Q [] p q = tt
All-both P Q (x ∷ xs) p q = ((p.0, q.0), All-both P Q xs p.1 q.1)

last?-some :
    {A : Type 0} (x a b : A) (xs : List A) → or_else (last? (x ∷ xs)) a ≡ or_else (last? (x ∷ xs)) b
last?-some x a b [] = refl
last?-some x a b (y ∷ ys) = last?-some y a b ys

last-cons :
    {A : Type 0} (x a b : A) (xs : List A)
    → (xs ≡ [] → a ≡ x)
    → or_else (last? xs) a ≡ or_else (last? (x ∷ xs)) b
last-cons x a b [] h = h refl
last-cons x a b (y ∷ ys) h = last?-some y a b ys

module _ (N : Number) where
  open N use {F, lt, is_nan, add, of_int, infinity, neg_infinity}

  pub record Scan : Type 0 where
    pub sum : F
    pub min : F
    pub max : F
    pub first : F
    pub last : F

  abbrev pub scan_start : Scan
  scan_start = record {
    sum = of_int (pos 0);
    min = infinity;
    max = neg_infinity;
    first = of_int (pos 0);
    last = of_int (pos 0);
  }

  abbrev pub lesser : F → F → F
  lesser m x = if lt x m then x else m

  abbrev pub greater : F → F → F
  greater m x = if lt m x then x else m

  abbrev pub scan_body : ℕ → ℕ → F → Scan → Scan
  scan_body count i value s = record {
    sum = add s.sum value;
    min = lesser s.min value;
    max = greater s.max value;
    first = if i == 0 then value else s.first;
    last = if i == count - 1 then value else s.last;
  }

  unfoldable pub scan : ℕ → Ring F → Scan
  unfolding for_each
  scan window r = for_each (of_int (pos 0)) window (scan_body r.count) r 0 r.count scan_start

  -- What the loop is to find in a list of values.
  abbrev pub scan_of : List F → Scan
  scan_of xs = record {
    sum = foldl add (of_int (pos 0)) xs;
    min = foldl lesser infinity xs;
    max = foldl greater neg_infinity xs;
    first = elim xs [ [] ↦ of_int (pos 0) | x ∷ _ ↦ x ];
    last = or_else (last? xs) (of_int (pos 0));
  }

  fold_later :
      (n i : ℕ) (xs : List F) (s : Scan)
      → suc i + length xs ≡ n
      → fold_index (scan_body n) (suc i) xs s ≡ record {
        sum = foldl add s.sum xs;
        min = foldl lesser s.min xs;
        max = foldl greater s.max xs;
        first = s.first;
        last = or_else (last? xs) s.last;
      }
  fold_later n i [] s e = refl
  fold_later n i (x ∷ xs) s e =
      let t = scan_body n (suc i) x s in
      let next : suc i + 1 ≡ suc (suc i) = omega arith in
      let settled : or_else (last? xs) t.last ≡ or_else (last? (x ∷ xs)) s.last =
        last-cons x t.last s.last xs (λ none_left. ground (arith, ap length none_left)) in
      ap (λ k. fold_index (scan_body n) k xs t) next
      ∙ fold_later n (suc i) xs t (omega arith)
      ∙ ap₂
          (λ f l. record {
            sum = foldl add s.sum (x ∷ xs);
            min = foldl lesser s.min (x ∷ xs);
            max = foldl greater s.max (x ∷ xs);
            first = f;
            last = l;
          })
          (ground arith) settled

  fold_all :
      (n : ℕ) (xs : List F) → length xs ≡ n → fold_index (scan_body n) 0 xs scan_start ≡ scan_of xs
  fold_all n [] e = refl
  fold_all n (x ∷ xs) e =
      let t = scan_body n 0 x scan_start in
      let next : 0 + 1 ≡ 1 = refl in
      let settled : or_else (last? xs) t.last ≡ or_else (last? (x ∷ xs)) (of_int (pos 0)) =
        last-cons x t.last (of_int (pos 0)) xs (λ none_left. ground (arith, ap length none_left)) in
      fold_later n 0 xs t (omega arith)
      ∙ ap
          (λ l. record {
            sum = foldl add (of_int (pos 0)) (x ∷ xs);
            min = foldl lesser infinity (x ∷ xs);
            max = foldl greater neg_infinity (x ∷ xs);
            first = x;
            last = l;
          })
          settled

  -- The loop over a ring finds the sum, least, greatest, first and last of the values held.
  pub scan_lem :
      (window : ℕ) (r : Ring F) → scan window r ≡ scan_of (contents (of_int (pos 0)) window r)
  unfolding scan
  scan_lem window r =
      for_each-contents (of_int (pos 0)) window (scan_body r.count) r scan_start
      ∙ fold_all r.count (contents (of_int (pos 0)) window r)
          (length-contents (of_int (pos 0)) window r)

  module _ (o : IsOrder N) where
    abbrev IsNotLess : F → F → Type 0
    IsNotLess x y = lt x y ≡ false

    below : (x y z : F) → lt x y ≡ true → IsNotLess x z → IsNotLess y z
    below x y z h k = ground (arith, o.lt_trans x y z h)

    least :
        (r m : F) (xs : List F)
        → r ≡ foldl lesser m xs
        → is_nan m ≡ false
        → IsNotLess m r × All (λ x. IsNotLess x r) xs
    least r m [] e n = (rw e (o.lt_irrefl m), tt)
    least r m (x ∷ xs) e n = elim (Bool-cases (lt x m)) [
      | inl less ↦
          let ih =
            least r x xs (e ∙ ap (λ b. foldl lesser (if b then x else m) xs) less)
              (o.lt_left x m less) in
          (below x m r less ih.0, (ih.0, ih.1))
      | inr other ↦
          let ih = least r m xs (e ∙ ap (λ b. foldl lesser (if b then x else m) xs) other) n in
          (ih.0, (ground (arith, ih.0, o.lt_split x r m n), ih.1))
    ]

    greatest :
        (r m : F) (xs : List F)
        → r ≡ foldl greater m xs
        → is_nan m ≡ false
        → IsNotLess r m × All (λ x. IsNotLess r x) xs
    greatest r m [] e n = (rw e (o.lt_irrefl m), tt)
    greatest r m (x ∷ xs) e n = elim (Bool-cases (lt m x)) [
      | inl more ↦
          let ih =
            greatest r x xs (e ∙ ap (λ b. foldl greater (if b then x else m) xs) more)
              (o.lt_right m x more) in
          (ground (arith, ih.0, o.lt_trans r m x), (ih.0, ih.1))
      | inr other ↦
          let ih = greatest r m xs (e ∙ ap (λ b. foldl greater (if b then x else m) xs) other) n in
          (ih.0, (ground (arith, ih.0, o.lt_split r x m n), ih.1))
    ]

    -- No value lies below the least one that the loop finds, and none above the greatest.
    pub scan_of-bounds :
        (xs : List F) → All (λ x. IsNotLess x (scan_of xs).min × IsNotLess (scan_of xs).max x) xs
    scan_of-bounds xs =
        All-both (λ x. IsNotLess x (scan_of xs).min) (λ x. IsNotLess (scan_of xs).max x) xs
          (least (scan_of xs).min infinity xs refl o.infinity_lem).1
          (greatest (scan_of xs).max neg_infinity xs refl o.neg_infinity_lem).1
