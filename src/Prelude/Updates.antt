-- ===== src/Prelude/Updates.antt =====
-- A function applied to one element of a list, and what that leaves.
use openclaw_serial_adapter.Prelude.Lists.{length, get_elem?, All}
use Prim.Native.Nat.{ℕ, zero, suc}
use mathlib.Core.Path.{◌≡◌, refl, ap, subst}
use mathlib.Core.Logic.{◌≢◌}
use mathlib.Core.List.{List, [], ◌∷◌, ◌++◌}
use mathlib.Core.Option.{some, some-injective, none-ne-some}

module _ {ℓ} {A : Type ℓ} where
  -- The element at an index with a function applied to it; nothing happens out of bounds.
  unfoldable pub update_at : ℕ → (A → A) → List A → List A
  update_at i f [] = []
  update_at zero f (x ∷ xs) = f x ∷ xs
  update_at (suc i) f (x ∷ xs) = x ∷ update_at i f xs

  pub get_elem-update_at :
      (i : ℕ) (f : A → A) (xs : List A) {x : A}
      → get_elem? xs i ≡ some x
      → get_elem? (update_at i f xs) i ≡ some (f x)
  unfolding update_at
  get_elem-update_at i f [] h = absurd (none-ne-some _ h)
  get_elem-update_at zero f (x ∷ xs) h = ap some (ap f (some-injective _ _ h))
  get_elem-update_at (suc i) f (x ∷ xs) h = get_elem-update_at i f xs h

  pub get_elem-update_at_ne :
      {i j : ℕ} (f : A → A) (xs : List A) → i ≢ j → get_elem? (update_at i f xs) j ≡ get_elem? xs j
  unfolding update_at
  get_elem-update_at_ne f [] h = refl
  get_elem-update_at_ne {i = zero} {j = zero} f (x ∷ xs) h = absurd (h refl)
  get_elem-update_at_ne {i = zero} {j = suc j} f (x ∷ xs) h = refl
  get_elem-update_at_ne {i = suc i} {j = zero} f (x ∷ xs) h = refl
  get_elem-update_at_ne {i = suc i} {j = suc j} f (x ∷ xs) h =
      get_elem-update_at_ne f xs (λ e. h (ap suc e))

  pub length-update_at : (i : ℕ) (f : A → A) (xs : List A) → length (update_at i f xs) ≡ length xs
  unfolding update_at
  length-update_at i f [] = refl
  length-update_at zero f (x ∷ xs) = refl
  length-update_at (suc i) f (x ∷ xs) = ap suc (length-update_at i f xs)

  pub get_elem-append_left :
      (xs ys : List A) (i : ℕ) {x : A} → get_elem? xs i ≡ some x → get_elem? (xs ++ ys) i ≡ some x
  get_elem-append_left [] ys i h = absurd (none-ne-some _ h)
  get_elem-append_left (x ∷ xs) ys zero h = h
  get_elem-append_left (x ∷ xs) ys (suc i) h = get_elem-append_left xs ys i h

module _ {ℓ κ} {A : Type ℓ} (P : A → Type κ) where
  pub update_at-All :
      (i : ℕ) (f : A → A)
      → ((x : A) → P x → P (f x))
      → (xs : List A) → All P xs
      → All P (update_at i f xs)
  unfolding update_at
  update_at-All i f h [] p = p
  update_at-All zero f h (x ∷ xs) p = (h x p.0, p.1)
  update_at-All (suc i) f h (x ∷ xs) p = (p.0, update_at-All i f h xs p.1)

  pub append-All : (xs ys : List A) → All P xs → All P ys → All P (xs ++ ys)
  append-All [] ys p q = q
  append-All (x ∷ xs) ys p q = (p.0, append-All xs ys p.1 q)

  pub get_elem-All : (xs : List A) (i : ℕ) {x : A} → All P xs → get_elem? xs i ≡ some x → P x
  get_elem-All [] i p h = absurd (none-ne-some _ h)
  get_elem-All (x ∷ xs) zero p h = subst P (some-injective _ _ h) p.0
  get_elem-All (x ∷ xs) (suc i) p h = get_elem-All xs i p.1 h
