-- ===== src/Verify/Tail.antt =====
-- What the verdict of `evaluateStopVerification` in index.ts rests on.
use openclaw_serial_adapter.Prelude.{
  ℕ, suc, ◌-◌, ◌+◌, ◌≡◌, refl, ap, ◌∙◌, sym, ◌≤◌, Bool, true, false, Option, none, some, List, [],
  ◌∷◌, ◌++◌, arith, min, length, last?, drop, length-append, ◌&&◌, or_else,
}
use openclaw_serial_adapter.Prelude.Last.{take_last, length-take_last}
use openclaw_serial_adapter.Prelude.Int.{pos}
use openclaw_serial_adapter.Number.{Number}
use openclaw_serial_adapter.Text.{Text, codes}
use openclaw_serial_adapter.Verify.{
  TelemetryFrame, StopMode, target, stop, read_numeric_field, numeric_values, servo_verdict,
  evaluate_stop_verification, range_of, keep, verdict_of, at_most,
}

drop-append : {A : Type 0} (xs ys : List A) (n : ℕ) → drop (length xs + n) (xs ++ ys) ≡ drop n ys
drop-append [] ys n = ap (λ k. drop k ys) (omega arith)
drop-append (x ∷ xs) ys n =
    let e : suc (length xs) + n ≡ suc (length xs + n) = omega arith in
    ap (λ k. drop k (x ∷ (xs ++ ys))) e ∙ drop-append xs ys n

take_last-append :
    {A : Type 0} (n : ℕ) (xs ys : List A) → n ≤ length ys → take_last n (xs ++ ys) ≡ take_last n ys
take_last-append n xs ys h =
    ap (λ k. drop k (xs ++ ys)) (omega (arith, length-append xs ys))
    ∙ drop-append xs ys (length ys - n)

last?-append :
    {A : Type 0} (xs : List A) (y : A) (ys : List A) → last? (xs ++ y ∷ ys) ≡ last? (y ∷ ys)
last?-append [] y ys = refl
last?-append (x ∷ []) y ys = refl
last?-append (x ∷ (z ∷ xs)) y ys = last?-append (z ∷ xs) y ys

last?-append_long : {A : Type 0} (xs ys : List A) → 1 ≤ length ys → last? (xs ++ ys) ≡ last? ys
last?-append_long xs [] h = absurd (omega arith)
last?-append_long xs (y ∷ ys) h = last?-append xs y ys

some_and : (a b : Bool) → some (a && b) ≡ some true → some b ≡ some true
some_and true b h = h
some_and false b h = ground arith

last?-is_some : {A : Type 0} (xs : List A) → 1 ≤ length xs → (x : A) × (last? xs ≡ some x)
last?-is_some [] h = absurd (omega arith)
last?-is_some (x ∷ []) h = (x, refl)
last?-is_some (x ∷ (y ∷ ys)) h = last?-is_some (y ∷ ys) (omega arith)

keep-append : {A : Type 0} (o : Option A) (xs ys : List A) → keep o (xs ++ ys) ≡ keep o xs ++ ys
keep-append none xs ys = refl
keep-append (some x) xs ys = refl

module _ (N : Number) (number_of : Text → N.F) where
  open N use {F, abs, sub, of_int}

  numeric_values-append :
      (key : Text) (older frames : List (TelemetryFrame F))
      → numeric_values N number_of key (older ++ frames)
        ≡ numeric_values N number_of key older ++ numeric_values N number_of key frames
  unfolding numeric_values
  numeric_values-append key [] frames = refl
  numeric_values-append key (f ∷ older) frames =
      ap (keep (read_numeric_field N number_of f key)) (numeric_values-append key older frames)
      ∙ keep-append (read_numeric_field N number_of f key) (numeric_values N number_of key older)
          (numeric_values N number_of key frames)

  range_or :
      (values : List F) (d e : F)
      → 1 ≤ length values
      → or_else (range_of N number_of values) d ≡ or_else (range_of N number_of values) e
  unfolding range_of
  range_or [] d e h = absurd (omega arith)
  range_or (x ∷ values) d e h = refl

  tail_range-append :
      (older values : List F) (d e : F)
      → 6 ≤ length values
      → or_else
          (range_of N number_of (take_last (min 6 (length (older ++ values))) (older ++ values)))
          d
        ≡ or_else (range_of N number_of (take_last (min 6 (length values)) values)) e
  tail_range-append older values d e h =
      let longer : min 6 (length (older ++ values)) ≡ 6 =
        omega (arith, length-append older values) in
      let long : min 6 (length values) ≡ 6 = omega arith in
      ap (λ n. or_else (range_of N number_of (take_last n (older ++ values))) d) longer
      ∙ ap (λ w. or_else (range_of N number_of w) d) (take_last-append 6 older values h)
      ∙ range_or (take_last 6 values) d e (omega (arith, length-take_last 6 values))
      ∙ ap (λ n. or_else (range_of N number_of (take_last n values)) e) (sym long)

  servo_verdict-tail :
      (older values : List F) (last target_angle : F) (mode : StopMode)
      → 6 ≤ length values
      → (servo_verdict N number_of (older ++ values) last target_angle mode).verified
        ≡ (servo_verdict N number_of values last target_angle mode).verified
  unfolding servo_verdict
  servo_verdict-tail older values last target_angle target h =
      ap
        (λ r. some (
          at_most N number_of (abs (sub last target_angle)) (of_int (pos 4))
          && at_most N number_of r (of_int (pos 3))))
        (tail_range-append older values _ _ h)
  servo_verdict-tail older values last target_angle stop h =
      ap (λ r. some (at_most N number_of r (of_int (pos 3)))) (tail_range-append older values _ _ h)

  verdict_of-tail :
      (older values motor motor' : List F) (target_angle : F) (mode : StopMode)
      → 6 ≤ length values
      → (verdict_of N number_of
          (older ++ values)
          (last? (older ++ values))
          motor
          (last? motor)
          target_angle
          mode).verified
        ≡ (verdict_of N number_of values
            (last? values)
            motor'
            (last? motor')
            target_angle
            mode).verified
  unfolding verdict_of
  verdict_of-tail older values motor motor' target_angle mode h =
      let (l, e) = last?-is_some values (omega arith) in
      ap
        (λ o.
          (verdict_of N number_of (older ++ values) o motor (last? motor) target_angle
            mode).verified)
        (last?-append_long older values (omega arith) ∙ e)
      ∙ servo_verdict-tail older values l target_angle mode h
      ∙ ap (λ o. (verdict_of N number_of values o motor' (last? motor') target_angle mode).verified)
          (sym e)

  verdict_of-stop :
      (servo : List F) (o : Option F) (motor : List F) (m : Option F) (target_angle : F)
      → (verdict_of N number_of servo o motor m target_angle target).verified ≡ some true
      → (verdict_of N number_of servo o motor m target_angle stop).verified ≡ some true
  unfolding verdict_of servo_verdict
  verdict_of-stop servo (some last) motor m target_angle h = some_and _ _ h
  verdict_of-stop servo none motor (some last) target_angle h = h
  verdict_of-stop servo none motor none target_angle h = h

  -- Where at least six frames carry a servo reading, the frames before them do not change whether
  -- the motion counts as verified, whatever the mode and the target.
  pub evaluate_stop_verification-append :
      (older frames : List (TelemetryFrame F)) (target_angle : F) (mode : StopMode)
      → 6 ≤ length (numeric_values N number_of (codes "servo") frames)
      → (evaluate_stop_verification N number_of (older ++ frames) target_angle mode).verified
        ≡ (evaluate_stop_verification N number_of frames target_angle mode).verified
  unfolding evaluate_stop_verification
  evaluate_stop_verification-append older frames target_angle mode h =
      let servo = numeric_values N number_of (codes "servo") in
      let motor = numeric_values N number_of (codes "motor_pwm") in
      ap
        (λ vs.
          (verdict_of N number_of vs (last? vs) (motor (older ++ frames))
            (last? (motor (older ++ frames))) target_angle mode).verified)
        (numeric_values-append (codes "servo") older frames)
      ∙ verdict_of-tail (servo older) (servo frames) (motor (older ++ frames)) (motor frames)
          target_angle mode h

  -- Motion that is verified at a target is verified as stopped, on the same frames.
  pub evaluate_stop_verification-stop :
      (frames : List (TelemetryFrame F)) (target_angle : F)
      → (evaluate_stop_verification N number_of frames target_angle target).verified ≡ some true
      → (evaluate_stop_verification N number_of frames target_angle stop).verified ≡ some true
  unfolding evaluate_stop_verification
  evaluate_stop_verification-stop frames target_angle h =
      let servo = numeric_values N number_of (codes "servo") frames in
      let motor = numeric_values N number_of (codes "motor_pwm") frames in
      verdict_of-stop servo (last? servo) motor (last? motor) target_angle h
