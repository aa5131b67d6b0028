-- ===== src/Semantic/Safety.antt =====
-- The limits that `executeSemanticIntent` of index.ts keeps, whatever it is asked for.
use openclaw_serial_adapter.Prelude.{
  ℕ, ◌+◌, ◌≡◌, ◌≤◌, Option, none, some, List, [], ◌∷◌, ◌++◌, All, or_else, arith, ap, sym, subst,
}
use mathlib.Core.Option
use openclaw_serial_adapter.Prelude.Int.{pos, clamp_ℕ, ◌+ℤ◌, ◌-ℤ◌}
use openclaw_serial_adapter.Number.{Number}
use openclaw_serial_adapter.Text.{Text}
use openclaw_serial_adapter.Json.{Json}
use openclaw_serial_adapter.Verify.{TelemetryFrame}
use openclaw_serial_adapter.Intent.{
  SemanticIntent, status, center, nudge_left, nudge_right, nod, shake, unknown,
  detect_semantic_intent, normalize_intent_text, finite_argument, parse_absolute_angle,
  parse_delta_override, parse_semantic_intensity, intensity_to_delta, SemanticIntensity, small,
  medium, large,
}
use openclaw_serial_adapter.Intent
use openclaw_serial_adapter.Intent.Ranges.{
  OnSome, OnSome-map, clamp_ℕ-bounds, parse_absolute_angle-bounds, parse_delta_override-bounds,
}
use openclaw_serial_adapter.Semantic.{
  Step, stop_sequence, servo_angle, observe, Options, execute, execute_semantic_intent,
  nudge_target, verify_window, nudged, motion_steps, nod_sequence, shake_sequence,
}

-- What a step may do: angles lie in 0..180 and observation takes from 300 to 8000 ms.
abbrev pub IsSafe : Step → Type 0
IsSafe (servo_angle angle) = angle ≤ 180
IsSafe (stop_sequence angle repeats interval_ms) = angle ≤ 180
IsSafe (observe ms) = 300 ≤ ms × ms ≤ 8000
IsSafe _ = Unit

or_else-holds :
    {A : Type 0} (P : A → Type 0) (o : Option A) (a : A) → OnSome P o → P a → P (or_else o a)
or_else-holds P none a h k = k
or_else-holds P (some b) a h k = h

pub intensity_to_delta-bounds :
    (i : SemanticIntensity) → 1 ≤ intensity_to_delta i × intensity_to_delta i ≤ 60
intensity_to_delta-bounds small = (omega arith, omega arith)
intensity_to_delta-bounds medium = (omega arith, omega arith)
intensity_to_delta-bounds large = (omega arith, omega arith)

motion_steps-IsSafe :
    (angles : List ℕ) (rest : List Step)
    → All (λ a. a ≤ 180) angles
    → All IsSafe rest
    → All IsSafe (motion_steps angles ++ rest)
unfolding motion_steps
motion_steps-IsSafe [] rest h k = k
motion_steps-IsSafe (a ∷ angles) rest h k = (h.0, (tt, motion_steps-IsSafe angles rest h.1 k))

nudged_le : (i : SemanticIntent) (current delta : ℕ) → nudged i current delta ≤ 180
nudged_le nudge_left current delta =
    (clamp_ℕ-bounds 0 180 (pos current -ℤ pos delta) (omega arith)).1
nudged_le _ current delta = (clamp_ℕ-bounds 0 180 (pos current +ℤ pos delta) (omega arith)).1

nudged-left :
    (current delta : ℕ)
    → current ≤ 180
    → delta ≤ 60
    → nudged nudge_left current delta ≤ current × current ≤ nudged nudge_left current delta + 60
nudged-left current delta h k = (ground arith, ground arith)

nudged-right :
    (current delta : ℕ)
    → current ≤ 180
    → delta ≤ 60
    → current ≤ nudged nudge_right current delta × nudged nudge_right current delta ≤ current + 60
nudged-right current delta h k = (ground arith, ground arith)

module _ (N : Number) where
  open N use {F}

  abbrev IsWindow : ℕ → Type 0
  IsWindow ms = 300 ≤ ms × ms ≤ 8000

  verify_window-bounds : (ms : Option F) → IsWindow (verify_window N ms)
  unfolding verify_window
  verify_window-bounds ms =
      or_else-holds IsWindow (Option.map (λ x. clamp_ℕ 300 8000 (N.floor x)) (finite_argument N ms))
        1000
        (OnSome-map _ IsWindow (finite_argument N ms)
          (λ x. clamp_ℕ-bounds 300 8000 (N.floor x) (omega arith)))
        (omega arith, omega arith)

  nudge_target_le :
      (i : SemanticIntent) (text : Text) (options : Options F) (current : ℕ)
      → nudge_target N i text options current ≤ 180
  unfolding nudge_target
  nudge_target_le i text options current =
      or_else-holds (λ a. a ≤ 180) (parse_absolute_angle N text options.target_angle) _
        (parse_absolute_angle-bounds N text options.target_angle) (nudged_le i current _)

  delta_le :
      (text : Text) (options : Options F) (i : SemanticIntensity)
      → or_else (parse_delta_override N text options.delta) (intensity_to_delta i) ≤ 60
  delta_le text options i =
      (or_else-holds (λ d. 1 ≤ d × d ≤ 60) (parse_delta_override N text options.delta)
        (intensity_to_delta i) (parse_delta_override-bounds N text options.delta)
        (intensity_to_delta-bounds i)).1

  -- Without an absolute angle a nudge goes the way that it is asked to: from a servo angle of at
  -- most 180 degrees, to the left it does not raise the angle, to the right it does not lower it,
  -- and either way it changes it by at most 60 degrees.
  pub nudge_target_lem :
      (text : Text) (options : Options F) (current : ℕ)
      → current ≤ 180
      → parse_absolute_angle N text options.target_angle ≡ none
      → (nudge_target N nudge_left text options current ≤ current
          × current ≤ nudge_target N nudge_left text options current + 60)
        × (current ≤ nudge_target N nudge_right text options current
            × nudge_target N nudge_right text options current ≤ current + 60)
  unfolding nudge_target
  nudge_target_lem text options current h e =
      let i = parse_semantic_intensity text options.intensity in
      let d = or_else (parse_delta_override N text options.delta) (intensity_to_delta i) in
      let left : nudge_target N nudge_left text options current ≡ nudged nudge_left current d =
        ap (λ o. or_else o (nudged nudge_left current d)) e in
      let right : nudge_target N nudge_right text options current ≡ nudged nudge_right current d =
        ap (λ o. or_else o (nudged nudge_right current d)) e in
      (
        subst (λ a. a ≤ current × current ≤ a + 60) (sym left)
            (nudged-left current d h (delta_le text options i)),
        subst (λ a. current ≤ a × a ≤ current + 60) (sym right)
            (nudged-right current d h (delta_le text options i)),
      )

  module _ (number_of : Text → F) (to_lower_case : Text → Text) where
    -- The steps of each branch are safe.
    execute-IsSafe :
        (i : SemanticIntent) (text : Text) (options : Options F)
        (latest : Option (TelemetryFrame F)) (observed : List (TelemetryFrame F))
        → All IsSafe (execute N number_of to_lower_case i text options latest observed).0
    unfolding execute motion_steps
    execute-IsSafe unknown text options latest observed = tt
    execute-IsSafe status text options latest observed =
        (verify_window-bounds options.verify_ms, tt)
    execute-IsSafe Intent.stop text options latest observed =
        (tt, (omega arith, (verify_window-bounds options.verify_ms, tt)))
    execute-IsSafe center text options latest observed = (
      tt,
      (
        or_else-holds (λ a. a ≤ 180) (parse_absolute_angle N text options.target_angle) 90
            (parse_absolute_angle-bounds N text options.target_angle) (omega arith),
        (verify_window-bounds options.verify_ms, tt),
      ),
    )
    execute-IsSafe nudge_left text options latest observed = (
      tt,
      (nudge_target_le nudge_left text options _, (verify_window-bounds options.verify_ms, tt)),
    )
    execute-IsSafe nudge_right text options latest observed = (
      tt,
      (nudge_target_le nudge_right text options _, (verify_window-bounds options.verify_ms, tt)),
    )
    execute-IsSafe nod text options latest observed = (
      tt,
      motion_steps-IsSafe nod_sequence (observe (verify_window N options.verify_ms) ∷ [])
          (omega arith, (omega arith, (omega arith, (omega arith, (omega arith, tt)))))
          (verify_window-bounds options.verify_ms, tt),
    )
    execute-IsSafe shake text options latest observed = (
      tt,
      motion_steps-IsSafe shake_sequence (observe (verify_window N options.verify_ms) ∷ [])
          (
            omega arith,
            (omega arith, (omega arith, (omega arith, (omega arith, (omega arith, tt))))),
          )
          (verify_window-bounds options.verify_ms, tt),
    )

    -- Whatever the instruction and the arguments, each angle sent to the servo lies between 0 and
    -- 180 degrees, and the frames are observed for at least 300 and at most 8000 ms.
    pub execute_semantic_intent-IsSafe :
        (string_of : Json F → Text) (options : Options F) (latest : Option (TelemetryFrame F))
        (observed : List (TelemetryFrame F)) (buffered : ℕ)
        → All IsSafe
            (execute_semantic_intent N number_of to_lower_case string_of options latest observed
              buffered).steps
    unfolding execute_semantic_intent
    execute_semantic_intent-IsSafe string_of options latest observed buffered =
        execute-IsSafe _ _ options latest observed
