-- ===== src/Number/Natural.antt =====
-- The natural numbers as an instance of the numbers, on which the theorems can be run.
use openclaw_serial_adapter.Prelude.{
  ℕ, ◌+◌, ◌-◌, ◌*◌, ◌/◌, ◌≡◌, refl, List, [], ◌∷◌, foldl, true, false, ltb, arith, ◌⊎◌, inl, inr,
  Bool-cases,
}
use openclaw_serial_adapter.Prelude.Int.{pos, pos_part}
use openclaw_serial_adapter.Number.{Number, IsOrder}

abbrev pub natural : Number
natural = record {
  F = ℕ;
  is_finite = λ x. true;
  is_nan = λ x. false;
  lt = ltb;
  add = λ x y. x + y;
  sub = λ x y. x - y;
  mul = λ x y. x * y;
  div = λ x y. x / y;
  abs = λ x. x;
  floor = pos;
  round = pos;
  of_int = pos_part;
  infinity = 1000000;
  neg_infinity = 0;
}

ltb-split : (x y z : ℕ) → ltb x y ≡ true → (ltb x z ≡ true) ⊎ (ltb z y ≡ true)
ltb-split x y z h = elim (Bool-cases (ltb x z)) [ inl e ↦ inl e | inr e ↦ inr (ground arith) ]

pub natural-IsOrder : IsOrder natural
natural-IsOrder = record {
  lt_irrefl = λ x. ground arith;
  lt_trans = λ x y z h k. ground arith;
  lt_left = λ x y h. refl;
  lt_right = λ x y h. refl;
  lt_split = λ x y z n h. ltb-split x y z h;
  infinity_lem = refl;
  neg_infinity_lem = refl;
}

foldl-add : (a : ℕ) (xs : List ℕ) → foldl (λ x y. x + y) a xs ≡ a + foldl (λ x y. x + y) 0 xs
foldl-add a [] = omega arith
foldl-add a (x ∷ xs) = omega (arith, foldl-add (a + x) xs, foldl-add (0 + x) xs)

-- Sums of natural numbers are exact.
pub sub-foldl :
    (x : ℕ) (xs : List ℕ) → foldl (λ x y. x + y) 0 (x ∷ xs) - x ≡ foldl (λ x y. x + y) 0 xs
sub-foldl x xs = omega (arith, foldl-add (0 + x) xs)
