-- ===== src/Number.antt =====
-- The numbers of JavaScript, as the adapter uses them: the type and its operations are a parameter
-- of the modules that compute with them. Nothing is assumed of the arithmetic, which may round;
-- what a theorem needs of an order or of exact sums it takes as a hypothesis.
pub mod Natural
pub mod Order
use openclaw_serial_adapter.Prelude.{Bool, true, false, ◌≡◌, ◌⊎◌}
use openclaw_serial_adapter.Prelude.Int.{ℤ}

pub record Number : Type 1 where
  pub F : Type 0
  -- `Number.isFinite`, `Number.isNaN` and `a < b`
  pub is_finite : F → Bool
  pub is_nan : F → Bool
  pub lt : F → F → Bool
  pub add : F → F → F
  pub sub : F → F → F
  pub mul : F → F → F
  pub div : F → F → F
  pub abs : F → F
  -- `Math.floor` and `Math.round` of a finite number, and an integer as a number
  pub floor : F → ℤ
  pub round : F → ℤ
  pub of_int : ℤ → F
  pub infinity : F
  pub neg_infinity : F

module _ (N : Number) where
  open N use {F, lt, is_nan, infinity, neg_infinity}

  -- What `<` does: it is irreflexive and transitive; it holds of no NaN; and a number that is not
  -- NaN lies above the lesser or below the greater of two.
  pub record IsOrder : Type 0 where
    pub lt_irrefl : (x : F) → lt x x ≡ false
    pub lt_trans : (x y z : F) → lt x y ≡ true → lt y z ≡ true → lt x z ≡ true
    pub lt_left : (x y : F) → lt x y ≡ true → is_nan x ≡ false
    pub lt_right : (x y : F) → lt x y ≡ true → is_nan y ≡ false
    pub lt_split :
        (x y z : F) → is_nan z ≡ false → lt x y ≡ true → (lt x z ≡ true) ⊎ (lt z y ≡ true)
    pub infinity_lem : is_nan infinity ≡ false
    pub neg_infinity_lem : is_nan neg_infinity ≡ false
