-- ===== src/Shared/Telemetry.antt =====
-- The telemetry span (shared/telemetry.py): the record of a stage, and its events. Clock readings,
-- resource samples and the reporting fields are left out: nothing that is modelled branches on
-- them.
use leanlm.Common.{String, str_append, List, [], ◌∷◌, ◌++◌}
use leanlm.Shared.Errors.{
  ErrorRecord, Exception, leanlm_error, value_error, type_error, unexpected, runtime, critical,
  Result, ok, raise,
}
use leanlm.Shared.Events.{
  EventBus, capability_started, capability_completed, capability_failed, text, emit,
}

pub record StageRecord : Type 0 where
  pub stage : String
  pub capability : String
  pub status : String
  pub errors : List ErrorRecord

abbrev pub name_of : StageRecord → String
name_of r = r.stage

pub record Telemetry : Type 0 where
  pub bus : EventBus
  pub session_id : String
  pub records : List StageRecord

-- f"{type(exc).__name__}: {exc}"
abbrev pub describe : Exception → String
describe (leanlm_error r) = str_append "LeanLMError: " r.message
describe (value_error m) = str_append "ValueError: " m
describe (type_error m) = str_append "TypeError: " m
describe (unexpected m) = m

-- The record that a failed span keeps: a foreign exception is recorded as RT-999.
abbrev pub error_record : String → String → Exception → ErrorRecord
error_record stage capability (leanlm_error r) = r
error_record stage capability other = record {
  code = "RT-999";
  category = runtime;
  severity = critical;
  message = describe other;
  capability = capability;
  stage = stage;
  recommended_action = "inspect logs and re-run with --log-level debug";
}

-- The record of the span whose body ended so.
abbrev pub record_of {ℓ} : {A : Type ℓ} → String → String → Result A → StageRecord
record_of stage capability (ok _) = record {
  stage = stage;
  capability = capability;
  status = "completed";
  errors = [];
}
record_of stage capability (raise e) = record {
  stage = stage;
  capability = capability;
  status = "failed";
  errors = error_record stage capability e ∷ [];
}

-- The event that closes the span.
abbrev pub close_span {ℓ} : {A : Type ℓ} → String → String → String → Result A → EventBus → EventBus
close_span session stage capability (ok _) bus =
    emit capability_completed session capability (("stage", text stage) ∷ []) bus
close_span session stage capability (raise e) bus =
    emit capability_failed session capability
      (("stage", text stage) ∷ ("code", text (error_record stage capability e).code) ∷ []) bus

-- `with telemetry.span(…): body`. What the body raises is raised again, after it was recorded.
unfoldable pub span {ℓ} :
    {A : Type ℓ}
    → String
    → String
    → (EventBus → Result A × EventBus)
    → Telemetry
    → Result A × Telemetry
span stage capability body t =
    let bus = emit capability_started t.session_id capability (("stage", text stage) ∷ []) t.bus in
    let (result, after) = body bus in
    (
      result,
      record t {
        bus = close_span t.session_id stage capability result after;
        records = t.records ++ record_of stage capability result ∷ [];
      },
    )
