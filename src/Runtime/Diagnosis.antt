-- ===== src/Runtime/Diagnosis.antt =====
-- What the diagnosis of the runtime in index.ts does to a summary and to a verification.
use openclaw_serial_adapter.Prelude.{
  ℕ, ◌≡◌, refl, ap, ◌∙◌, Bool, true, false, Option, none, some, if◌then◌else◌, Bool-cases, inl, inr,
  arith, ◌==◌,
}
use openclaw_serial_adapter.Text.{Text, codes, same_text, is_empty}
use openclaw_serial_adapter.Json.{Json, null, bool, num, arr, obj, str, Entries}
use openclaw_serial_adapter.Frame.{get_field, put_field}
use openclaw_serial_adapter.Frame.Laws.{get_field-put_field}
use openclaw_serial_adapter.Verify.{
  StopVerification, FeedbackMode, unverifiable, servo_feedback, motor_pwm_feedback,
}
use openclaw_serial_adapter.Runtime.{
  RuntimeDiagnosis, as_text, extract_runtime_diagnosis, should_override, put_next_step,
  json_of_diagnosis, merge_runtime_diagnosis_into_summary, enrich_unverifiable_verification,
  enrich_with, merge_diagnosis, override_summary,
}

module _ {F : Type 0} where
  -- An observed diagnosis that gives way: none, one that is not a text, or "no_telemetry_frames".
  abbrev pub gives_way : Option (Json F) → Bool
  gives_way (some (str s)) = same_text s (codes "no_telemetry_frames")
  gives_way _ = true

  -- The diagnosis that a merged summary is to show.
  abbrev pub shown_diagnosis : Entries F → Option (RuntimeDiagnosis F) → ℕ → Option (Json F)
  shown_diagnosis summary none frame_count = get_field (codes "diagnosis") summary
  shown_diagnosis summary (some d) frame_count =
      let observed = get_field (codes "diagnosis") summary in
      if same_text d.code (codes "ok")
      then observed
      else if frame_count == 0
      then some (str d.code)
      else if gives_way observed
      then some (str d.code)
      else observed

  shown_diagnosis-should_override :
      (code : Text) (o : Option (Json F)) (n : ℕ)
      → (if should_override code (as_text o) n then some (str code) else o) ≡ (
          if same_text code (codes "ok")
          then o
          else if n == 0
          then some (str code)
          else if gives_way o
          then some (str code)
          else o)
  unfolding should_override
  shown_diagnosis-should_override code none n = ground arith
  shown_diagnosis-should_override code (some null) n = ground arith
  shown_diagnosis-should_override code (some (bool b)) n = ground arith
  shown_diagnosis-should_override code (some (num x)) n = ground arith
  shown_diagnosis-should_override code (some (str s)) n = ground arith
  shown_diagnosis-should_override code (some (arr xs)) n = ground arith
  shown_diagnosis-should_override code (some (obj o)) n = ground arith

  get_field-put_next_step :
      (next_step : Option Text) (summary : Entries F)
      → get_field (codes "diagnosis") (put_next_step next_step summary)
        ≡ get_field (codes "diagnosis") summary
  unfolding same_text
  get_field-put_next_step none summary = refl
  get_field-put_next_step (some s) summary = elim (Bool-cases (is_empty s)) [
    | inl e ↦
        ap
          (λ b.
            get_field (codes "diagnosis")
              (if b then summary else put_field (codes "next_step") (str s) summary))
          e
    | inr e ↦
        ap
          (λ b.
            get_field (codes "diagnosis")
              (if b then summary else put_field (codes "next_step") (str s) summary))
          e
        ∙ get_field-put_field (codes "next_step") (codes "diagnosis") (str s) summary
  ]

  get_field-override_summary :
      (b : Bool) (d : RuntimeDiagnosis F) (summary : Entries F)
      → get_field (codes "diagnosis") (override_summary b d summary)
        ≡ (if b then some (str d.code) else get_field (codes "diagnosis") summary)
  unfolding override_summary same_text
  get_field-override_summary true d summary =
      get_field-put_next_step d.next_step (put_field (codes "diagnosis") (str d.code) summary)
      ∙ get_field-put_field (codes "diagnosis") (codes "diagnosis") (str d.code) summary
  get_field-override_summary false d summary = refl

  get_field-merge_diagnosis :
      (summary : Entries F) (frame_count : ℕ) (o : Option (RuntimeDiagnosis F))
      → get_field (codes "diagnosis") (merge_diagnosis summary frame_count o)
        ≡ shown_diagnosis summary o frame_count
  unfolding merge_diagnosis same_text
  get_field-merge_diagnosis summary frame_count none = refl
  get_field-merge_diagnosis summary frame_count (some d) =
      let overrides =
        should_override d.code (as_text (get_field (codes "diagnosis") summary)) frame_count in
      get_field-put_field (codes "runtime_diagnosis") (codes "diagnosis") (json_of_diagnosis d)
        (override_summary overrides d summary)
      ∙ get_field-override_summary overrides d summary
      ∙ shown_diagnosis-should_override d.code (get_field (codes "diagnosis") summary) frame_count

  -- The diagnosis of a merged summary is the code of the runtime's diagnosis, where there is one,
  -- it is not "ok", and the summary has no frames, no diagnosis that is a text, or the diagnosis
  -- "no_telemetry_frames"; in every other case it is the diagnosis that was observed.
  pub merge_runtime_diagnosis_into_summary_lem :
      (summary : Entries F) (status : Option (Entries F)) (frame_count : ℕ)
      → get_field
          (codes "diagnosis")
          (merge_runtime_diagnosis_into_summary summary status frame_count)
        ≡ shown_diagnosis summary (extract_runtime_diagnosis status) frame_count
  unfolding merge_runtime_diagnosis_into_summary
  merge_runtime_diagnosis_into_summary_lem summary status frame_count =
      get_field-merge_diagnosis summary frame_count (extract_runtime_diagnosis status)

  -- What enriching keeps: the verdict, and all of a verification that is not "unverifiable".
  abbrev pub Keeps : StopVerification F → FeedbackMode → StopVerification F → Type 0
  Keeps v unverifiable w = w.verified ≡ v.verified × w.mode ≡ v.mode
  Keeps v _ w = w ≡ v

  enrich_with-Keeps :
      (v : StopVerification F) (mode : FeedbackMode) (o : Option (RuntimeDiagnosis F))
      → Keeps v mode (enrich_with v mode o).verification
  unfolding enrich_with
  enrich_with-Keeps v unverifiable none = (refl, refl)
  enrich_with-Keeps v servo_feedback none = refl
  enrich_with-Keeps v motor_pwm_feedback none = refl
  enrich_with-Keeps v servo_feedback (some d) = refl
  enrich_with-Keeps v motor_pwm_feedback (some d) = refl
  enrich_with-Keeps v unverifiable (some d) = (ground arith, ground arith)

  -- Enriching a verification by the runtime's status keeps its verdict and its mode, and keeps all
  -- of it where the mode is not "unverifiable".
  pub enrich_unverifiable_verification-Keeps :
      (v : StopVerification F) (status : Option (Entries F))
      → Keeps v v.mode (enrich_unverifiable_verification v status).verification
  unfolding enrich_unverifiable_verification
  enrich_unverifiable_verification-Keeps v status =
      enrich_with-Keeps v v.mode (extract_runtime_diagnosis status)
