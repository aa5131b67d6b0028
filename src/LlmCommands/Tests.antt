-- ===== src/LlmCommands/Tests.antt =====
-- The rate limiter and the translation at concrete inputs.
use openclaw_serial_adapter.Prelude.{ℕ, ◌+◌, ◌≡◌, ◌<◌, refl, List, [], ◌∷◌, arith}
use openclaw_serial_adapter.Prelude.Int.{pos}
use openclaw_serial_adapter.Number.Natural.{natural}
use openclaw_serial_adapter.Json.{Json}
use openclaw_serial_adapter.LlmCommands.{
  RateLimiter, new_limiter, consume, default_llm_policy, servo_pos, set_json, ok, angle_line,
  translate_llm_command, drop_old,
}
use openclaw_serial_adapter.LlmCommands.Rate.{consume_all, consume_all-spaced}
use openclaw_serial_adapter.LlmCommands.Translation.{
  IsRounding, IsWithin, translate_llm_command-normalized,
}

abbrev calls : List ℕ
calls = 10 ∷ 20 ∷ 30 ∷ 1010 ∷ 1011 ∷ 1500 ∷ []

consume_all_runs : (consume_all calls (new_limiter (pos 2))).1 ≡ 10 ∷ 20 ∷ 1011 ∷ 1500 ∷ []
unfolding consume drop_old
consume_all_runs = refl

consume_all-spaced_example : 10 + 1000 < 1011
consume_all-spaced_example =
    consume_all-spaced (pos 2) calls 0 10 1011
      (omega arith, (omega arith, (omega arith, (omega arith, (omega arith, (omega arith, tt))))))
      (unfold consume drop_old in refl) (unfold consume drop_old in refl)

abbrev busy : RateLimiter
busy = record { max_commands_per_sec = 2; timestamps = 100 ∷ 300 ∷ [] }

natural-IsRounding : IsRounding natural
natural-IsRounding = record {
  finite = λ x h. refl;
  rounded = λ x h. refl;
  angle_finite = λ n h. refl;
  angle_whole = λ n h. refl;
}

abbrev turn : Json ℕ
turn = set_json natural servo_pos 200

translate_runs :
    translate_llm_command natural default_llm_policy turn
    ≡ ok (angle_line 180, set_json natural servo_pos 180)
unfolding translate_llm_command
translate_runs = refl

translate_llm_command-normalized_example :
    (translate_llm_command natural default_llm_policy (set_json natural servo_pos 180)
      ≡ ok (angle_line 180, set_json natural servo_pos 180))
    × IsWithin natural (angle_line 180)
translate_llm_command-normalized_example =
    translate_llm_command-normalized natural natural-IsRounding default_llm_policy turn
      (set_json natural servo_pos 180) (angle_line 180) translate_runs
