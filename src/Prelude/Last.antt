-- ===== src/Prelude/Last.antt =====
-- The last elements of a list, and the bounded log that keeps just those: `push`, then `shift` when
-- the length exceeds the bound.
use openclaw_serial_adapter.Prelude.Tests.{ltb, if◌then◌else◌}
use openclaw_serial_adapter.Prelude.Lists.{
  length, drop, drop-nil, length-append, length-drop, drop-drop, drop-append_le,
}
use Prim.Native.Nat.{ℕ, ◌-◌, ◌≤◌, min}
use mathlib.Core.Path.{◌≡◌, ap, sym, ◌∙◌}
use mathlib.Core.List.{List, [], ◌∷◌, ◌++◌, foldl, append-nil, append_assoc}
use native.Mathlib.Omega.{arith}

module _ {A : Type 0} where
  -- `xs.slice(-n)` for a positive `n`, and the empty list for 0.
  abbrev pub take_last : ℕ → List A → List A
  take_last n xs = drop (length xs - n) xs

  -- `xs.push(x); if (xs.length > n) xs.shift();`
  abbrev pub push_bounded : ℕ → List A → A → List A
  push_bounded n xs x =
      let longer = xs ++ x ∷ [] in if ltb n (length longer) then drop 1 longer else longer

  pub length-take_last : (n : ℕ) (xs : List A) → length (take_last n xs) ≡ min n (length xs)
  length-take_last n xs = omega (arith, length-drop (length xs - n) xs)

  pub push_bounded-take_last :
      (n : ℕ) (xs : List A) (x : A) → push_bounded n (take_last n xs) x ≡ take_last n (xs ++ x ∷ [])
  push_bounded-take_last n xs x =
      let k = length xs - n in
      ground (
        arith,
        drop-append_le k xs (x ∷ []) (omega arith),
        length-append xs (x ∷ []),
        length-drop k (xs ++ x ∷ []),
        drop-drop 1 k (xs ++ x ∷ []),
      )

  -- The bounded log of a sequence of pushes is the end of the whole sequence.
  pub foldl-push_bounded :
      (n : ℕ) (xs ys : List A) → foldl (push_bounded n) (take_last n xs) ys ≡ take_last n (xs ++ ys)
  foldl-push_bounded n xs [] = ap (take_last n) (sym (append-nil xs))
  foldl-push_bounded n xs (y ∷ ys) =
      ap (λ s. foldl (push_bounded n) s ys) (push_bounded-take_last n xs y)
      ∙ foldl-push_bounded n (xs ++ y ∷ []) ys
      ∙ ap (take_last n) (append_assoc xs (y ∷ []) ys)

  pub foldl-push_bounded_nil : (n : ℕ) (ys : List A) → foldl (push_bounded n) [] ys ≡ take_last n ys
  foldl-push_bounded_nil n ys =
      ap (λ l. foldl (push_bounded n) l ys) (sym (drop-nil (0 - n))) ∙ foldl-push_bounded n [] ys

  pub length-push_bounded :
      (n : ℕ) (xs : List A) (x : A) → length xs ≤ n → length (push_bounded n xs x) ≤ n
  length-push_bounded n xs x h =
      ground (arith, length-append xs (x ∷ []), length-drop 1 (xs ++ x ∷ []))

  pub take_last-take_last :
      (m n : ℕ) (xs : List A) → m ≤ n → take_last m (take_last n xs) ≡ take_last m xs
  take_last-take_last m n xs h = ground (
    arith,
    drop-drop (length (take_last n xs) - m) (length xs - n) xs,
    length-drop (length xs - n) xs,
  )
