-- ===== src/LlmCommands/Translation.antt =====
-- `translateLlmCommand` of plugins/openclaw_ts_bridge/llm_command_translator.js.
use openclaw_serial_adapter.Prelude.{
  ℕ, ◌≡◌, refl, ap, ◌∙◌, sym, ◌≤◌, ◌⊎◌, inl, inr, Bool, true, false, ◌||◌, Option, none, some, [],
  ◌∷◌, arith, Bool-cases, if◌then◌else◌, subst,
}
use openclaw_serial_adapter.Prelude.Int.{ℤ, pos, clamp_ℕ}
use openclaw_serial_adapter.Number.{Number}
use openclaw_serial_adapter.Text.{codes, same_text}
use openclaw_serial_adapter.Json.{
  Json, null, bool, arr, num, str, obj, Entries, entries, from_entries,
}
use openclaw_serial_adapter.Frame.{get_field, finite_number}
use openclaw_serial_adapter.LlmCommands.{
  LlmTarget, target_velocity, motor_pwm, servo_pos, LlmPolicy, set_command, command_of, bad_cmd,
  center, then_translate, LlmCommand, stop, set, Translated, fields, angle_line, Checked, ok,
  refused, translate_set, translate_command, translate_llm_command, validate_llm_command,
  target_name, has_text, set_json, not_allowlisted,
}

-- What holds of a result that is there.
abbrev pub OnOk : {A : Type 0} → (A → Type 0) → Checked A → Type 0
OnOk P (ok a) = P a
OnOk P (refused e) = Unit

OnOk-if :
    {A : Type 0} (P : A → Type 0) (b : Bool) (c d : Checked A)
    → OnOk P c
    → OnOk P d
    → OnOk P (if b then c else d)
OnOk-if P true c d h k = h
OnOk-if P false c d h k = k

module _ (N : Number) where
  open N use {F, is_finite, round, of_int}

  -- What `round` and `isFinite` do: a finite number is rounded to one that is finite and is rounded to
  -- itself, and so are the integers from 0 to 180.
  pub record IsRounding : Type 0 where
    pub finite : (x : F) → is_finite x ≡ true → is_finite (of_int (round x)) ≡ true
    pub rounded : (x : F) → is_finite x ≡ true → round (of_int (round x)) ≡ round x
    pub angle_finite : (n : ℕ) → n ≤ 180 → is_finite (of_int (pos n)) ≡ true
    pub angle_whole : (n : ℕ) → n ≤ 180 → round (of_int (pos n)) ≡ pos n

  set_command-finite :
      (t : LlmTarget) (x : F)
      → is_finite x ≡ true
      → set_command N (some t) (some (num x)) ≡ ok (set t x)
  set_command-finite t x h = rw (set_command, h) refl

  validate-set_json :
      (t : LlmTarget) (x : F)
      → is_finite x ≡ true
      → validate_llm_command N (set_json N t x) ≡ ok (set t x)
  unfolding validate_llm_command
  validate-set_json target_velocity x h = set_command-finite target_velocity x h
  validate-set_json motor_pwm x h = set_command-finite motor_pwm x h
  validate-set_json servo_pos x h = set_command-finite servo_pos x h

  -- A servo's angle lies between 0 and 180 degrees.
  abbrev pub IsWithin : Translated F → Type 0
  IsWithin (angle_line angle) = angle ≤ 180
  IsWithin (fields o) = Unit

  translate_set-again :
      IsRounding
      → (t : LlmTarget) (x : F) → is_finite x ≡ true
      → (y : F) × ((translate_set N t x).1 ≡ set_json N t y)
        × (is_finite y ≡ true)
        × (translate_set N t y ≡ translate_set N t x)
  unfolding translate_set
  translate_set-again r target_velocity x h = (x, refl, h, refl)
  translate_set-again r motor_pwm x h =
      let y = of_int (round x) in
      (
        y,
        refl,
        r.finite x h,
        ap
            (λ n.
              (fields ((codes "motor_pwm", num (of_int n)) ∷ []), set_json N motor_pwm (of_int n)))
            (r.rounded x h),
      )
  translate_set-again r servo_pos x h =
      let angle = clamp_ℕ 0 180 (round x) in
      let same : clamp_ℕ 0 180 (round (of_int (pos angle))) ≡ angle =
        ap (clamp_ℕ 0 180) (r.angle_whole angle (clamp_le (round x))) ∙ clamp_again (round x) in
      (
        of_int (pos angle),
        refl,
        r.angle_finite angle (clamp_le (round x)),
        ap (λ a. (angle_line a, set_json N servo_pos (of_int (pos a)))) same,
      )
    where
      clamp_again : (n : ℤ) → clamp_ℕ 0 180 (pos (clamp_ℕ 0 180 n)) ≡ clamp_ℕ 0 180 n
      clamp_again n = ground arith

      clamp_le : (n : ℤ) → clamp_ℕ 0 180 n ≤ 180
      clamp_le n = ground arith

  IsWithin-translate_set : (t : LlmTarget) (x : F) → IsWithin (translate_set N t x).0
  unfolding translate_set
  IsWithin-translate_set target_velocity x = tt
  IsWithin-translate_set motor_pwm x = tt
  IsWithin-translate_set servo_pos x = ground arith

  abbrev IsValid : LlmCommand F → Type 0
  IsValid stop = Unit
  IsValid (set t x) = is_finite x ≡ true

  set_command-IsValid :
      (o : Option LlmTarget) (value : Option (Json F)) → OnOk IsValid (set_command N o value)
  set_command-IsValid none value = tt
  set_command-IsValid (some t) value = elim (finite_number-cases value) [
    | inl e ↦ rw (set_command, e) tt
    | inr (x, e, h) ↦ rw (set_command, e) h
  ]
    where
      finite_number-cases :
          (value : Option (Json F))
          → (finite_number N value ≡ none)
            ⊎ ((x : F) × (finite_number N value ≡ some x) × (is_finite x ≡ true))
      finite_number-cases none = inl refl
      finite_number-cases (some (num x)) = elim (Bool-cases (is_finite x)) [
        | inl e ↦ inr (x, rw e, e)
        | inr e ↦ inl (rw e)
      ]
      finite_number-cases (some null) = inl refl
      finite_number-cases (some (bool b)) = inl refl
      finite_number-cases (some (str s)) = inl refl
      finite_number-cases (some (arr xs)) = inl refl
      finite_number-cases (some (obj o)) = inl refl

  command_of-IsValid : (cmd : Option (Json F)) (o : Entries F) → OnOk IsValid (command_of N cmd o)
  command_of-IsValid none o = tt
  command_of-IsValid (some null) o = tt
  command_of-IsValid (some (bool b)) o = tt
  command_of-IsValid (some (num x)) o = tt
  command_of-IsValid (some (arr xs)) o = tt
  command_of-IsValid (some (obj r)) o = tt
  command_of-IsValid (some (str cmd)) o =
      OnOk-if IsValid (same_text cmd (codes "stop")) (ok stop) _ tt (
        OnOk-if IsValid (same_text cmd (codes "set")) (set_command N _ _) (refused bad_cmd)
          (set_command-IsValid _ _) tt)

  validate_llm_command-IsValid : (j : Json F) → OnOk IsValid (validate_llm_command N j)
  unfolding validate_llm_command
  validate_llm_command-IsValid null = tt
  validate_llm_command-IsValid (bool b) = tt
  validate_llm_command-IsValid (num x) = tt
  validate_llm_command-IsValid (str s) = tt
  validate_llm_command-IsValid (arr xs) = tt
  validate_llm_command-IsValid (obj o) =
      command_of-IsValid (get_field (codes "cmd") (entries o)) (entries o)

  module _ (r : IsRounding) (policy : LlmPolicy) where
    -- The normalized command is translated to the same, and to nothing out of range.
    abbrev Repeats : Translated F × Json F → Type 0
    Repeats out = (translate_llm_command N policy out.1 ≡ ok out) × IsWithin out.0

    translate_set-Repeats :
        (t : LlmTarget) (x : F)
        → (policy.unsafe_passthrough || has_text (target_name t) policy.allow_targets) ≡ true
        → is_finite x ≡ true
        → Repeats (translate_set N t x)
    unfolding translate_llm_command translate_command
    translate_set-Repeats t x allowed h =
        let (y, normalized, finite, same) = translate_set-again r t x h in
        (
          ap (translate_llm_command N policy) normalized
              ∙ ap (then_translate N policy) (validate-set_json t y finite)
              ∙ ap (λ b. if b then ok (translate_set N t y) else refused (not_allowlisted t))
                  allowed
              ∙ ap ok same,
          IsWithin-translate_set t x,
        )

    stop_again :
        let normalized : Json F = obj (from_entries ((codes "cmd", str (codes "stop")) ∷ [])) in
        translate_llm_command N policy normalized ≡ ok (center N, normalized)
    unfolding translate_llm_command
    stop_again = refl

    then_translate-Repeats :
        (c : Checked (LlmCommand F)) → OnOk IsValid c → OnOk Repeats (then_translate N policy c)
    unfolding translate_llm_command translate_command
    then_translate-Repeats (refused e) h = tt
    then_translate-Repeats (ok stop) h = (stop_again, tt)
    then_translate-Repeats (ok (set t x)) h =
        let allowed = policy.unsafe_passthrough || has_text (target_name t) policy.allow_targets in
        elim (Bool-cases allowed) [
          | inl e ↦
              subst (OnOk Repeats)
                (sym
                  (ap (λ b. if b then ok (translate_set N t x) else refused (not_allowlisted t)) e))
                (translate_set-Repeats t x e h)
          | inr e ↦
              subst (OnOk Repeats)
                (sym
                  (ap (λ b. if b then ok (translate_set N t x) else refused (not_allowlisted t)) e))
                tt
        ]

  -- A command that is accepted is normalized to one that, given again under the same policy, is
  -- accepted, sends the same and is already normal; and no servo angle sent lies outside 0..180.
  -- Of the numbers it is assumed that what `Math.round` makes of a finite number, and the integers
  -- from 0 to 180, are finite and are rounded to themselves.
  pub translate_llm_command-normalized :
      IsRounding
      → (policy : LlmPolicy) (command normalized : Json F) (sent : Translated F)
      → translate_llm_command N policy command ≡ ok (sent, normalized)
      → (translate_llm_command N policy normalized ≡ ok (sent, normalized)) × IsWithin sent
  unfolding translate_llm_command
  translate_llm_command-normalized r policy command normalized sent e =
      subst (OnOk (Repeats r policy)) e (
        then_translate-Repeats r policy (validate_llm_command N command)
          (validate_llm_command-IsValid command))
