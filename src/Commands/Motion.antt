-- ===== src/Commands/Motion.antt =====
-- `buildMotionSequence` of index.ts: the widths of a motion are bounded.
use openclaw_serial_adapter.Prelude.{◌≡◌, refl, false, List, [], ◌∷◌, map, All, arith}
use openclaw_serial_adapter.Prelude.Int.{pos}
use openclaw_serial_adapter.Number.{Number, IsOrder}
use openclaw_serial_adapter.Number.Order.{lt_asym, lt_nan, nan_lt}
use openclaw_serial_adapter.Commands.{
  MotionTemplateName, slow_sway, fast_jitter, sweep, center_stop, max_of, min_of, clamp, pwm,
  build_motion_sequence,
}

module _ (N : Number) (o : IsOrder N) where
  open N use {F, is_nan, lt, add, sub, of_int}

  -- It is neither below the one nor above the other; of NaN both are true.
  abbrev pub IsBetween : F → F → F → Type 0
  IsBetween lo hi x = (lt x lo ≡ false) × (lt hi x ≡ false)

  max_of-bound : (a b : F) → lt (max_of N a b) a ≡ false
  unfolding max_of
  max_of-bound a b = ground (arith, lt_asym N o a b, lt_nan N o b a, o.lt_irrefl a)

  min_of-bounds : (lo a b : F) → lt a lo ≡ false → lt b lo ≡ false → IsBetween lo a (min_of N a b)
  unfolding min_of
  min_of-bounds lo a b h k = ground (arith, lt_asym N o b a, nan_lt N o a b, o.lt_irrefl a, h, k)

  clamp-bounds : (x lo hi : F) → lt hi lo ≡ false → IsBetween lo hi (clamp N x lo hi)
  unfolding clamp
  clamp-bounds x lo hi h = min_of-bounds lo hi (max_of N lo x) h (max_of-bound lo x)

  module _ (h : lt (of_int (pos 2500)) (of_int (pos 500)) ≡ false) where
    abbrev IsPwm : F → Type 0
    IsPwm x = IsBetween (of_int (pos 500)) (of_int (pos 2500)) x

    pwm-IsPwm : (x : F) → IsPwm (pwm N x)
    pwm-IsPwm x = clamp-bounds x (of_int (pos 500)) (of_int (pos 2500)) h

    map-pwm-IsPwm : (xs : List F) → All IsPwm (map (pwm N) xs)
    map-pwm-IsPwm [] = tt
    map-pwm-IsPwm (x ∷ xs) = (pwm-IsPwm x, map-pwm-IsPwm xs)

  -- What a motion has to be: all widths between 500 and 2500, and for "center_stop" just one of
  -- them and then 0.
  abbrev pub IsMotion : MotionTemplateName → List F → Type 0
  IsMotion center_stop widths =
      (x : F) × IsBetween (of_int (pos 500)) (of_int (pos 2500)) x
      × (widths ≡ x ∷ (of_int (pos 0) ∷ []))
  IsMotion template widths = All (IsBetween (of_int (pos 500)) (of_int (pos 2500))) widths

  -- Whatever numbers are asked for, no width of a motion lies below 500 or above 2500, where the
  -- template is not "center_stop"; the motion of that is one such width followed by 0.
  pub build_motion_sequence-IsMotion :
      (template : MotionTemplateName) (min max center : F)
      → lt (of_int (pos 2500)) (of_int (pos 500)) ≡ false
      → IsMotion template (build_motion_sequence N template min max center)
  unfolding build_motion_sequence
  build_motion_sequence-IsMotion slow_sway min max center h =
      (pwm-IsPwm h min, (pwm-IsPwm h center, (pwm-IsPwm h max, (pwm-IsPwm h center, tt))))
  build_motion_sequence-IsMotion fast_jitter min max center h = map-pwm-IsPwm h (
      sub (pwm N center) (of_int (pos 120))
      ∷ (add (pwm N center) (of_int (pos 120))
          ∷ (sub (pwm N center) (of_int (pos 80))
              ∷ (add (pwm N center) (of_int (pos 80)) ∷ (pwm N center ∷ [])))))
  build_motion_sequence-IsMotion sweep min max center h = (pwm-IsPwm h min, (pwm-IsPwm h max, tt))
  build_motion_sequence-IsMotion center_stop min max center h =
      (pwm N center, pwm-IsPwm h center, refl)
