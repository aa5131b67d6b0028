-- ===== src/Commands/Sequences.antt =====
-- The rows of commands of index.ts: their bounds, and what they write.
use openclaw_serial_adapter.Prelude.{
  ℕ, zero, suc, ◌+◌, ◌≡◌, refl, ap, ◌∙◌, ◌≤◌, ◌<◌, sym, ◌/◌, ◌%◌, Bool-cases, ltb, if◌then◌else◌,
  inl, inr, [], ◌∷◌, arith, Option, none,
}
use openclaw_serial_adapter.Prelude.Int.{ℤ, pos, clamp_ℕ}
use openclaw_serial_adapter.Number.{Number}
use openclaw_serial_adapter.Text.{Text, codes}
use openclaw_serial_adapter.Json.{Json, Entries, num}
use openclaw_serial_adapter.Control.{Client, not_connected, send_command}
use openclaw_serial_adapter.Intent.Ranges.{clamp_ℕ-bounds}
use openclaw_serial_adapter.Commands.{
  stop_turn, stop_turns, stop_sequence, perform, ControlSourceContext, send_managed_json_command,
  digits, decimal,
}

digits_step : (fuel n : ℕ) (s : Text) → n < fuel → digits fuel n s ≡ digits (suc fuel) n s
unfolding digits
digits_step zero n s h = absurd (omega arith)
digits_step (suc fuel) n s h = elim (Bool-cases (ltb n 10)) [
  | inl small ↦
      ap (λ b. if b then (48 + n) ∷ s else digits fuel (n / 10) ((48 + n % 10) ∷ s)) small
      ∙ sym (
          ap (λ b. if b then (48 + n) ∷ s else digits (suc fuel) (n / 10) ((48 + n % 10) ∷ s))
            small)
  | inr large ↦
      ap (λ b. if b then (48 + n) ∷ s else digits fuel (n / 10) ((48 + n % 10) ∷ s)) large
      ∙ digits_step fuel (n / 10) ((48 + n % 10) ∷ s) (ground arith)
      ∙ sym (
          ap (λ b. if b then (48 + n) ∷ s else digits (suc fuel) (n / 10) ((48 + n % 10) ∷ s))
            large)
]

-- `decimal` reads off all the digits of a number: with any more fuel it gives the same text.
pub decimal-fuel : (more n : ℕ) → digits (more + suc n) n [] ≡ decimal n
unfolding decimal
decimal-fuel zero n = let e : 0 + suc n ≡ suc n = omega arith in ap (λ f. digits f n []) e
decimal-fuel (suc more) n =
    let e : suc more + suc n ≡ suc (more + suc n) = omega arith in
    ap (λ f. digits f n []) e
    ∙ sym (digits_step (more + suc n) n [] (omega arith))
    ∙ decimal-fuel more n

module _ (N : Number) where
  open N use {F}

  send_managed_json_command-none :
      (stringify : Json F → Text) (context : Option (ControlSourceContext F)) (payload : Entries F)
      (c : Client F)
      → c.socket ≡ none
      → send_managed_json_command N stringify context payload c ≡ (c, not_connected)
  unfolding send_managed_json_command send_command
  send_managed_json_command-none stringify context payload c h = rw h refl

  perform-stop_turns :
      (stringify : Json F → Text) (context : Option (ControlSourceContext F))
      (meanwhile : ℕ → Client F → Client F) (n target_angle interval_ms : ℕ) (c : Client F)
      → 1 ≤ n
      → c.socket ≡ none
      → perform N stringify context meanwhile (stop_turns N n target_angle interval_ms) c
        ≡ (c, not_connected)
  unfolding perform stop_turns stop_turn
  perform-stop_turns stringify context meanwhile zero target_angle interval_ms c p h =
      absurd (omega arith)
  perform-stop_turns stringify context meanwhile (suc n) target_angle interval_ms c p h =
      let none_sent =
        send_managed_json_command-none stringify context
          ((codes "motor_pwm", num (N.of_int (pos 0))) ∷ []) c h in
      rw (none_sent, perform) (ap (λ o. (o.0, not_connected)) none_sent)

  -- A best-effort stop on a client without a socket throws at its first command, and the client is
  -- as it was, whatever the source and whatever would happen in the pauses.
  pub perform-stop_sequence :
      (stringify : Json F → Text) (context : Option (ControlSourceContext F))
      (meanwhile : ℕ → Client F → Client F) (target_angle repeats interval_ms : ℤ) (c : Client F)
      → c.socket ≡ none
      → perform N stringify context meanwhile (stop_sequence N target_angle repeats interval_ms) c
        ≡ (c, not_connected)
  unfolding perform stop_sequence
  perform-stop_sequence stringify context meanwhile target_angle repeats interval_ms c h =
      perform-stop_turns stringify context meanwhile (clamp_ℕ 1 8 repeats)
        (clamp_ℕ 0 180 target_angle) (clamp_ℕ 20 1000 interval_ms) c
        (clamp_ℕ-bounds 1 8 repeats (omega arith)).0 h
