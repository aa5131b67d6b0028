-- ===== src/Ring/Contents.antt =====
-- A ring holds the last `window` values pushed, oldest first.
use openclaw_serial_adapter.Prelude.{
  ℕ, zero, suc, ◌+◌, ◌-◌, ◌%◌, ◌≤◌, ◌<◌, ◌≡◌, ◌≢◌, refl, ap, ap₂, sym, ◌∙◌, List, [], ◌∷◌, ◌++◌,
  foldl, set, get_or, replicate, length, length-set, length-append, drop-append_le, get_or-set_self,
  get_or-set_ne, arith, dec_lt, drop,
}
use openclaw_serial_adapter.Prelude.Last.{take_last, push_bounded, foldl-push_bounded_nil}
use openclaw_serial_adapter.Ring.{Ring, new_ring, push, start_index, for_each}
use native.Mathlib.Nat.{
  mod-add-mod, mod-eq_of_lt, mod-eq-sub-mod, mod-lt, mod-mod, add-mod_left, add-mod_right,
}

-- Fewer than `w` steps round a ring of `w` cells lead to another cell.
step-mod-ne : (w s m : ℕ) → 0 < m → m < w → s % w ≢ (s + m) % w
step-mod-ne w s m pos small =
    let r = s % w in
    let small_r : r < w = mod-lt s (omega arith) in
    rw (← mod-add-mod s w m) (elim (dec_lt (r + m) w) [
      | yes p ↦ omega (arith, mod-eq_of_lt p)
      | no p ↦ omega (
        arith,
        mod-eq-sub-mod {n = r + m} {m = w} (omega arith),
        mod-eq_of_lt {n = r + m - w} {m = w} (omega arith),
      )
    ])

step_next : (i w : ℕ) → i + 1 < w → (i + 1) % w ≡ i + 1
step_next i w h = mod-eq_of_lt h

step_last : (i w : ℕ) → i + 1 ≡ w → (i + 1) % w ≡ 0
step_last i w h =
    let whole : (w + 0) % w ≡ 0 = add-mod_left w 0 ∙ mod-eq_of_lt (omega arith) in
    ap (λ j. j % w) (omega arith) ∙ whole

step_round : (i w : ℕ) → i < w → (i + w) % w ≡ i
step_round i w h = add-mod_right i w ∙ mod-eq_of_lt h

-- The loop body over a list, with the index of each element.
abbrev pub fold_index : {A S : Type 0} → (ℕ → A → S → S) → ℕ → List A → S → S
fold_index body i [] s = s
fold_index body i (x ∷ xs) s = fold_index body (i + 1) xs (body i x s)

module _ {A : Type 0} (blank : A) (window : ℕ) where
  -- The `n` values from index `s` on, as the loops read them.
  abbrev pub reads : List A → ℕ → ℕ → List A
  reads values s zero = []
  reads values s (suc n) = get_or values (s % window) blank ∷ reads values (s + 1) n

  length-reads : (values : List A) (s n : ℕ) → length (reads values s n) ≡ n
  length-reads values s zero = refl
  length-reads values s (suc n) = ap suc (length-reads values (s + 1) n)

  pub reads-mod :
      (values : List A) (s t n : ℕ) → s % window ≡ t % window → reads values s n ≡ reads values t n
  reads-mod values s t zero e = refl
  reads-mod values s t (suc n) e = ap₂ ◌∷◌ (ap (λ k. get_or values k blank) e) (
      reads-mod values (s + 1) (t + 1) n
        (sym (mod-add-mod s window 1) ∙ ap (λ k. (k + 1) % window) e ∙ mod-add-mod t window 1))

  reads-suc :
      (values : List A) (s n : ℕ)
      → reads values s (suc n) ≡ reads values s n ++ get_or values ((s + n) % window) blank ∷ []
  reads-suc values s zero = let e : s ≡ s + 0 = omega arith in ap (λ k. cell k ∷ []) e
    where
      cell : ℕ → A
      cell k = get_or values (k % window) blank
  reads-suc values s (suc n) =
      let e : s + 1 + n ≡ s + suc n = omega arith in
      ap (◌∷◌ (cell s))
        (reads-suc values (s + 1) n ∙ ap (λ k. reads values (s + 1) n ++ cell k ∷ []) e)
    where
      cell : ℕ → A
      cell k = get_or values (k % window) blank

  reads-set :
      (values : List A) (x : A) (i s n m : ℕ)
      → i ≡ (s + m) % window
      → n ≤ m
      → m < window
      → reads (set values i x) s n ≡ reads values s n
  reads-set values x i s zero m e h k = refl
  reads-set values x i s (suc n) m e h k =
      let apart : i ≢ s % window = λ p. step-mod-ne window s m (omega arith) k (sym p ∙ e) in
      ap₂ ◌∷◌ (get_or-set_ne values x blank apart) (
        reads-set values x i (s + 1) n (m - 1) (e ∙ ap (λ j. j % window) (omega arith))
          (omega arith) (omega arith))

  -- The values that a ring holds, oldest first.
  abbrev pub contents : Ring A → List A
  contents r = reads r.values (start_index blank window r) r.count

  pub length-contents : (r : Ring A) → length (contents r) ≡ r.count
  length-contents r = length-reads r.values (start_index blank window r) r.count

  pub record IsValid (r : Ring A) : Type 0 where
    pub storage : length r.values ≡ window
    pub index_in : r.write_index < window
    pub count_in : r.count ≤ window
    pub filling : r.count < window → r.write_index ≡ r.count

  length-replicate : (n : ℕ) → length (replicate n blank) ≡ n
  length-replicate zero = refl
  length-replicate (suc n) = ap suc (length-replicate n)

  pub new_ring-IsValid : 0 < window → IsValid (new_ring blank window)
  unfolding new_ring
  new_ring-IsValid h = record {
    storage = length-replicate window;
    index_in = h;
    count_in = omega arith;
    filling = λ p. refl;
  }

  pub contents-new_ring : contents (new_ring blank window) ≡ []
  unfolding new_ring
  contents-new_ring = refl

  module _ (x : A) (r : Ring A) (v : IsValid r) where
    pub push-IsValid : IsValid (push blank window x r)
    unfolding push
    push-IsValid = record {
      storage = length-set r.values r.write_index x ∙ v.storage;
      index_in = mod-lt (r.write_index + 1) (omega (arith, v.index_in));
      count_in = ground arith;
      filling = λ p. ground (arith, step_next r.write_index window);
    }

    push_filling : r.count < window → contents (push blank window x r) ≡ contents r ++ x ∷ []
    unfolding push
    push_filling h =
        let n = r.count in
        let vs = set r.values r.write_index x in
        let last : r.write_index ≡ n = v.filling h in
        let here : r.write_index ≡ (0 + n) % window =
          omega (arith, mod-eq_of_lt {n = 0 + n} {m = window} (omega arith)) in
        let now : start_index blank window (push blank window x r) ≡ 0 =
          ground (arith, step_last r.write_index window) in
        let before : start_index blank window r ≡ 0 = ground arith in
        let more : (push blank window x r).count ≡ suc n = ground arith in
        let written : get_or vs ((0 + n) % window) blank ≡ x =
          rw (← here) (get_or-set_self r.values r.write_index x blank (omega arith)) in
        ap₂ (reads vs) now more
        ∙ reads-suc vs 0 n
        ∙ ap₂ (λ l y. l ++ y ∷ []) (reads-set r.values x r.write_index 0 n n here (omega arith) h)
            written
        ∙ ap (λ k. reads r.values k n ++ x ∷ []) (sym before)

    push_full : r.count ≡ window → contents (push blank window x r) ≡ drop 1 (contents r) ++ x ∷ []
    unfolding push
    push_full h =
        let k = r.write_index in
        let m = window - 1 in
        let vs = set r.values k x in
        let here : k ≡ (k + 1 + m) % window =
          sym (ap (λ j. j % window) (omega arith) ∙ step_round k window v.index_in) in
        let now : start_index blank window (push blank window x r) ≡ (k + 1) % window =
          ground arith in
        let before : start_index blank window r ≡ k = ground arith in
        let same : (push blank window x r).count ≡ suc m = ground arith in
        let full : r.count ≡ suc m = omega arith in
        let written : get_or vs ((k + 1 + m) % window) blank ≡ x =
          rw (← here) (get_or-set_self r.values k x blank (omega arith)) in
        ap₂ (reads vs) now same
        ∙ reads-mod vs ((k + 1) % window) (k + 1) (suc m) (mod-mod (k + 1) window)
        ∙ reads-suc vs (k + 1) m
        ∙ ap₂ (λ l y. l ++ y ∷ [])
            (reads-set r.values x k (k + 1) m m here (omega arith) (omega arith)) written
        ∙ ap₂ (λ j n. drop 1 (reads r.values j n) ++ x ∷ []) (sym before) (sym full)

    -- A push appends the value, and drops the oldest where the ring was full.
    pub contents-push : contents (push blank window x r) ≡ push_bounded window (contents r) x
    contents-push = elim (dec_lt r.count window) [
      | yes p ↦
          ground (arith, push_filling p, length-contents r, length-append (contents r) (x ∷ []))
      | no p ↦ ground (
        arith,
        push_full (omega (arith, v.count_in)),
        length-contents r,
        length-append (contents r) (x ∷ []),
        drop-append_le 1 (contents r) (x ∷ []),
      )
    ]

  -- The cell that the next push overwrites holds the oldest value.
  pub contents_of_full :
      (r : Ring A)
      → IsValid r
      → r.count ≡ window
      → contents r
        ≡ get_or r.values r.write_index blank ∷ reads r.values (r.write_index + 1) (window - 1)
  contents_of_full r v full =
      let start : start_index blank window r ≡ r.write_index = ground arith in
      let some_count : r.count ≡ suc (window - 1) = omega (arith, v.index_in) in
      ap₂ (reads r.values) start some_count
      ∙ ap (λ k. get_or r.values k blank ∷ reads r.values (r.write_index + 1) (window - 1))
          (mod-eq_of_lt v.index_in)

  -- `values.forEach(v => ring.push(v))`
  abbrev pub push_all : List A → Ring A → Ring A
  push_all [] r = r
  push_all (x ∷ xs) r = push_all xs (push blank window x r)

  pub push_all-IsValid : (xs : List A) (r : Ring A) → IsValid r → IsValid (push_all xs r)
  push_all-IsValid [] r v = v
  push_all-IsValid (x ∷ xs) r v = push_all-IsValid xs (push blank window x r) (push-IsValid x r v)

  contents-push_all :
      (xs : List A) (r : Ring A)
      → IsValid r
      → contents (push_all xs r) ≡ foldl (push_bounded window) (contents r) xs
  contents-push_all [] r v = refl
  contents-push_all (x ∷ xs) r v =
      contents-push_all xs (push blank window x r) (push-IsValid x r v)
      ∙ ap (λ l. foldl (push_bounded window) l xs) (contents-push x r v)

  -- What a ring of `window` cells holds after some values were pushed to it: the last `window`.
  pub contents-push_all_new :
      (xs : List A)
      → 0 < window
      → contents (push_all xs (new_ring blank window)) ≡ take_last window xs
  contents-push_all_new xs h =
      contents-push_all xs (new_ring blank window) (new_ring-IsValid h)
      ∙ ap (λ l. foldl (push_bounded window) l xs) contents-new_ring
      ∙ foldl-push_bounded_nil window xs

  module _ {S : Type 0} (body : ℕ → A → S → S) where
    for_each-reads :
        (r : Ring A) (i n : ℕ) (s : S)
        → for_each blank window body r i n s
          ≡ fold_index body i (reads r.values (start_index blank window r + i) n) s
    unfolding for_each
    for_each-reads r i zero s = refl
    for_each-reads r i (suc n) s =
        let start = start_index blank window r in
        let e : start + (i + 1) ≡ start + i + 1 = omega arith in
        let x = get_or r.values ((start + i) % window) blank in
        for_each-reads r (i + 1) n (body i x s)
        ∙ ap (λ k. fold_index body (i + 1) (reads r.values k n) (body i x s)) e

    -- The loops over a ring see the values that it holds, oldest first.
    pub for_each-contents :
        (r : Ring A) (s : S)
        → for_each blank window body r 0 r.count s ≡ fold_index body 0 (contents r) s
    for_each-contents r s =
        let start = start_index blank window r in
        let e : start + 0 ≡ start = omega arith in
        for_each-reads r 0 r.count s ∙ ap (λ k. fold_index body 0 (reads r.values k r.count) s) e
