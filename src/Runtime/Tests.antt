-- ===== src/Runtime/Tests.antt =====
-- The diagnosis of the runtime at concrete values.
use openclaw_serial_adapter.Prelude.{ℕ, ◌≡◌, refl, none, some, [], ◌∷◌}
use openclaw_serial_adapter.Text.{codes}
use openclaw_serial_adapter.Json.{str, obj, Entries, from_entries}
use openclaw_serial_adapter.Frame.{get_field}
use openclaw_serial_adapter.Verify.{
  StopVerification, unverifiable, no_servo_or_motor_feedback_fields,
}
use openclaw_serial_adapter.Runtime.{
  extract_runtime_diagnosis, merge_runtime_diagnosis_into_summary, enrich_unverifiable_verification,
}
use openclaw_serial_adapter.Runtime.Diagnosis.{
  shown_diagnosis, merge_runtime_diagnosis_into_summary_lem, Keeps,
  enrich_unverifiable_verification-Keeps,
}

abbrev busy : Entries ℕ
busy = (codes "diagnosis", obj (from_entries ((codes "code", str (codes "port_busy")) ∷ []))) ∷ []

abbrev observed : Entries ℕ
observed = (codes "diagnosis", str (codes "no_telemetry_frames")) ∷ []

merge_runtime_diagnosis_into_summary_lem_example :
    get_field (codes "diagnosis") (merge_runtime_diagnosis_into_summary observed (some busy) 3)
    ≡ shown_diagnosis observed (extract_runtime_diagnosis (some busy)) 3
merge_runtime_diagnosis_into_summary_lem_example =
    merge_runtime_diagnosis_into_summary_lem observed (some busy) 3

merge_runs :
    get_field (codes "diagnosis") (merge_runtime_diagnosis_into_summary observed (some busy) 3)
    ≡ some (str (codes "port_busy"))
unfolding merge_runtime_diagnosis_into_summary
merge_runs = refl

abbrev nothing_measured : StopVerification ℕ
nothing_measured = record {
  verified = none;
  mode = unverifiable;
  reason = no_servo_or_motor_feedback_fields;
  last_servo = none;
  servo_range = none;
  servo_tail_range = none;
  target_angle = none;
  last_motor_pwm = none;
  motor_pwm_range = none;
}

enrich_unverifiable_verification-Keeps_example :
    Keeps nothing_measured nothing_measured.mode
      (enrich_unverifiable_verification nothing_measured (some busy)).verification
enrich_unverifiable_verification-Keeps_example =
    enrich_unverifiable_verification-Keeps nothing_measured (some busy)
