-- ===== src/Blocks/Pid.antt =====
-- `PidBlock` of plugins/algorithm_blocks_ts/src/blocks/pid.ts.
pub mod Control
use openclaw_serial_adapter.Prelude.{
  Option, none, some, List, [], ◌∷◌, ◌++◌, if◌then◌else◌, or_else,
}
use openclaw_serial_adapter.Prelude.Int.{ℤ, pos}
use openclaw_serial_adapter.Number.{Number}
use openclaw_serial_adapter.Text.{Text, codes}
use openclaw_serial_adapter.Json.{Json, num}
use openclaw_serial_adapter.Frame.{Frame, put_field, read_numeric, features_of, with_features}

module _ (N : Number) where
  open N use {F, is_finite, lt, add, sub, mul, div, of_int, infinity, neg_infinity}

  pub record Block : Type 0 where
    pub name : Text
    pub measurement_key : Text
    pub output_key : Text
    pub setpoint : F
    pub kp : F
    pub ki : F
    pub kd : F
    pub dt_seconds : F
    pub min_output : F
    pub max_output : F
    pub integral : F
    pub prev_error : Option F
    pub last_output : Option F

  pub record Config : Type 0 where
    pub measurement_key : Option Text
    pub output_key : Option Text
    pub setpoint : Option F
    pub kp : Option F
    pub ki : Option F
    pub kd : Option F
    pub dt_seconds : Option F
    pub min_output : Option F
    pub max_output : Option F

  -- `new PidBlock(name)`; 0.01 is the number nearest to 1 / 100, as the quotient is.
  abbrev pub new_block : Text → Block
  new_block name = record {
    name = name;
    measurement_key = codes "velocity";
    output_key = codes "control.target_pwm";
    setpoint = of_int (pos 0);
    kp = of_int (pos 1);
    ki = of_int (pos 0);
    kd = of_int (pos 0);
    dt_seconds = div (of_int (pos 1)) (of_int (pos 100));
    min_output = neg_infinity;
    max_output = infinity;
    integral = of_int (pos 0);
    prev_error = none;
    last_output = none;
  }

  unfoldable pub reset : Block → Block
  reset b = record b { integral = of_int (pos 0); prev_error = none; last_output = none }

  -- `if (isFiniteNumber(value)) this.field = value`
  abbrev pub finite_or : Option F → F → F
  finite_or none old = old
  finite_or (some x) old = if is_finite x then x else old

  -- `Math.max(1e-6, value)` of a finite value
  abbrev pub at_least_micro : F → F
  at_least_micro x =
      let micro = div (of_int (pos 1)) (of_int (pos 1000000)) in if lt micro x then x else micro

  abbrev pub dt_or : Option F → F → F
  dt_or none old = old
  dt_or (some x) old = if is_finite x then at_least_micro x else old

  unfoldable pub init : Config → Block → Block
  unfolding reset
  init cfg b = reset (record b {
    measurement_key = or_else cfg.measurement_key b.measurement_key;
    output_key = or_else cfg.output_key b.output_key;
    setpoint = finite_or cfg.setpoint b.setpoint;
    kp = finite_or cfg.kp b.kp;
    ki = finite_or cfg.ki b.ki;
    kd = finite_or cfg.kd b.kd;
    dt_seconds = dt_or cfg.dt_seconds b.dt_seconds;
    min_output = finite_or cfg.min_output b.min_output;
    max_output = finite_or cfg.max_output b.max_output;
  })

  -- the two tests that bound the output
  abbrev pub bound_output : Block → F → F
  bound_output b output =
      let low = (if lt output b.min_output then b.min_output else output) in
      if lt b.max_output low then b.max_output else low

  -- `process` from the point where the frame has a measurement: the block, the error, the output
  unfoldable pub control : F → Block → Block × F × F
  control measurement b =
      let error = sub b.setpoint measurement in
      let integral = add b.integral (mul error b.dt_seconds) in
      let derivative : F = elim b.prev_error [
        | none ↦ of_int (pos 0)
        | some prev ↦ div (sub error prev) b.dt_seconds
      ] in
      let output =
        bound_output b (add (add (mul b.kp error) (mul b.ki integral)) (mul b.kd derivative)) in
      (
        record b { integral = integral; prev_error = some error; last_output = some output },
        error,
        output,
      )

  unfoldable pub process : Frame F → Block → Block × Frame F
  unfolding control read_numeric put_field
  process frame b =
      let features = features_of N frame in
      elim (read_numeric N frame b.measurement_key) [
        | none ↦ (b, with_features N frame features)
        | some measurement ↦
            let (b', error, output) = control measurement b in
            (
              b',
              with_features N frame (
                  put_field (b.name ++ codes ".output") (num output) (
                    put_field (b.name ++ codes ".error") (num error)
                      (put_field b.output_key (num output) features))),
            )
      ]
