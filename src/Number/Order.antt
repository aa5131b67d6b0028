-- ===== src/Number/Order.antt =====
-- What follows for `<` from the laws of the order.
use openclaw_serial_adapter.Prelude.{◌≡◌, true, false, Bool-cases, inl, inr, arith}
use openclaw_serial_adapter.Number.{Number, IsOrder}

module _ (N : Number) (o : IsOrder N) where
  open N use {F, is_nan, lt}

  pub lt_asym : (x y : F) → lt x y ≡ true → lt y x ≡ false
  lt_asym x y h = elim (Bool-cases (lt y x)) [
    | inl e ↦ ground (arith, o.lt_irrefl x, o.lt_trans x y x h e)
    | inr e ↦ e
  ]

  pub lt_nan : (x y : F) → is_nan x ≡ true → lt x y ≡ false
  lt_nan x y h = elim (Bool-cases (lt x y)) [
    | inl e ↦ ground (arith, h, o.lt_left x y e)
    | inr e ↦ e
  ]

  pub nan_lt : (x y : F) → is_nan y ≡ true → lt x y ≡ false
  nan_lt x y h = elim (Bool-cases (lt x y)) [
    | inl e ↦ ground (arith, h, o.lt_right x y e)
    | inr e ↦ e
  ]
