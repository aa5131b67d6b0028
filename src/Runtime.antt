-- ===== src/Runtime.antt =====
-- What index.ts reads from the acknowledgements and the status of the runtime: `asRecord`,
-- `extractRuntimeStatus`, `extractRuntimeCapabilities`, `extractSerialPort`,
-- `extractRuntimeDiagnosis`, `mergeRuntimeDiagnosisIntoSummary` and
-- `enrichUnverifiableVerification`. A key that is `undefined` is one that is missing.
pub mod Diagnosis
mod Tests
use openclaw_serial_adapter.Prelude.{
  ℕ, Bool, true, false, ◌&&◌, ◌||◌, not, Option, none, some, List, [], ◌∷◌, if◌then◌else◌, ◌==◌,
  or_some,
}
use openclaw_serial_adapter.Text.{Text, codes, trim, is_empty, same_text}
use openclaw_serial_adapter.Json.{Json, null, str, obj, Entries, entries, from_entries}
use openclaw_serial_adapter.Frame.{get_field, put_field}
use openclaw_serial_adapter.Verify.{
  StopVerification, FeedbackMode, unverifiable, servo_feedback, motor_pwm_feedback,
  unverifiable_runtime,
}

abbrev pub text_or_null : {F : Type 0} → Option Text → Json F
text_or_null none = null
text_or_null (some s) = str s

module _ {F : Type 0} where
  abbrev pub as_record : Option (Json F) → Option (Entries F)
  as_record (some (obj o)) = some (entries o)
  as_record _ = none

  abbrev pub as_text : Option (Json F) → Option Text
  as_text (some (str s)) = some s
  as_text _ = none

  -- `record?.[key]`
  abbrev pub key_of : Text → Option (Entries F) → Option (Json F)
  key_of key none = none
  key_of key (some o) = get_field key o

  unfoldable pub extract_runtime_status : Option (Json F) → Option (Entries F)
  unfolding get_field
  extract_runtime_status ack = as_record (key_of (codes "status") (as_record ack))

  unfoldable pub extract_runtime_capabilities : Option (Json F) → Option (Entries F)
  unfolding get_field
  extract_runtime_capabilities ack = as_record (key_of (codes "capabilities") (as_record ack))

  unfoldable pub extract_serial_port : Option (Entries F) → Option Text
  unfolding get_field trim
  extract_serial_port status = elim (as_text (key_of (codes "serial_port") status)) [
    | none ↦ none
    | some port ↦ if is_empty (trim port) then none else some port
  ]

  -- `resolveKnownSerialPort`, by the port that the launcher has resolved and the one configured
  unfoldable pub resolve_known_serial_port :
      Option Text → Option Text → Option (Entries F) → Option Text
  unfolding extract_serial_port
  resolve_known_serial_port launched configured status =
      or_some launched (or_some (extract_serial_port status) configured)

-- A runtime diagnosis; its code is not empty.
pub record RuntimeDiagnosis (F : Type 0) : Type 0 where
  pub code : Text
  pub severity : Option Text
  pub detail : Option Text
  pub next_step : Option Text
  pub auto_repair : Option (Entries F)

abbrev pub is_absent_or_no_frames : Option Text → Bool
is_absent_or_no_frames none = true
is_absent_or_no_frames (some s) = same_text s (codes "no_telemetry_frames")

unfoldable pub should_override : Text → Option Text → ℕ → Bool
unfolding same_text
should_override code observed frame_count =
    not (same_text code (codes "ok")) && (frame_count == 0 || is_absent_or_no_frames observed)

pub record Enriched (F : Type 0) : Type 0 where
  pub verification : StopVerification F
  pub runtime_diagnosis : Option (RuntimeDiagnosis F)
  pub next_step : Option Text

module _ {F : Type 0} where
  abbrev pub diagnosis_of : Entries F → Option Text → Option (RuntimeDiagnosis F)
  diagnosis_of diag none = none
  diagnosis_of diag (some code) =
      if is_empty code
      then none
      else some (record {
        code = code;
        severity = as_text (get_field (codes "severity") diag);
        detail = as_text (get_field (codes "detail") diag);
        next_step = as_text (get_field (codes "next_step") diag);
        auto_repair = as_record (get_field (codes "auto_repair") diag);
      })

  unfoldable pub extract_runtime_diagnosis : Option (Entries F) → Option (RuntimeDiagnosis F)
  unfolding get_field
  extract_runtime_diagnosis status = elim (as_record (key_of (codes "diagnosis") status)) [
    | none ↦ none
    | some diag ↦ diagnosis_of diag (as_text (get_field (codes "code") diag))
  ]

  abbrev pub json_of_record : Option (Entries F) → Json F
  json_of_record none = null
  json_of_record (some o) = obj (from_entries o)

  abbrev pub json_of_diagnosis : RuntimeDiagnosis F → Json F
  json_of_diagnosis d = obj (
      from_entries (
        (codes "code", str d.code)
        ∷ (codes "severity", text_or_null d.severity)
        ∷ (codes "detail", text_or_null d.detail)
        ∷ (codes "next_step", text_or_null d.next_step)
        ∷ (codes "auto_repair", json_of_record d.auto_repair)
        ∷ []))

  -- `if (runtimeNextStep) merged.next_step = runtimeNextStep;`
  abbrev pub put_next_step : Option Text → Entries F → Entries F
  put_next_step none summary = summary
  put_next_step (some s) summary =
      if is_empty s then summary else put_field (codes "next_step") (str s) summary

  -- the summary with the code and the next step of the diagnosis, where it overrides
  unfoldable pub override_summary : Bool → RuntimeDiagnosis F → Entries F → Entries F
  unfolding put_field
  override_summary false d summary = summary
  override_summary true d summary =
      put_next_step d.next_step (put_field (codes "diagnosis") (str d.code) summary)

  unfoldable pub merge_diagnosis : Entries F → ℕ → Option (RuntimeDiagnosis F) → Entries F
  unfolding override_summary should_override put_field get_field
  merge_diagnosis summary frame_count none = summary
  merge_diagnosis summary frame_count (some d) =
      let observed = as_text (get_field (codes "diagnosis") summary) in
      put_field (codes "runtime_diagnosis") (json_of_diagnosis d)
        (override_summary (should_override d.code observed frame_count) d summary)

  unfoldable pub merge_runtime_diagnosis_into_summary :
      Entries F → Option (Entries F) → ℕ → Entries F
  unfolding extract_runtime_diagnosis merge_diagnosis
  merge_runtime_diagnosis_into_summary summary status frame_count =
      merge_diagnosis summary frame_count (extract_runtime_diagnosis status)

  -- the branches on `verification.mode` and on the code
  unfoldable pub enrich_with :
      StopVerification F → FeedbackMode → Option (RuntimeDiagnosis F) → Enriched F
  unfolding same_text
  enrich_with v mode none = record { verification = v; runtime_diagnosis = none; next_step = none }
  enrich_with v unverifiable (some d) =
      let noted : Enriched F = record {
        verification = v;
        runtime_diagnosis = some d;
        next_step = none;
      } in
      if same_text d.code (codes "ok") then noted else record {
        verification = record v { reason = unverifiable_runtime d.code };
        runtime_diagnosis = some d;
        next_step = d.next_step;
      }
  enrich_with v _ (some d) = record {
    verification = v;
    runtime_diagnosis = some d;
    next_step = none;
  }

  unfoldable pub enrich_unverifiable_verification :
      StopVerification F → Option (Entries F) → Enriched F
  unfolding extract_runtime_diagnosis enrich_with
  enrich_unverifiable_verification v status =
      enrich_with v v.mode (extract_runtime_diagnosis status)
