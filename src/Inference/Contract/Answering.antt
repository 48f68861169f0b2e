-- ===== src/Inference/Contract/Answering.antt =====
-- What the inference stage (packages/inference/contracts.py) does to a context.
use leanlm.Common.{
  String, false, sym, subst, ◌+◌, ◌<◌, ◌≡◌, refl, ap, ◌∙◌, some, [], ◌∷◌, ◌++◌, if-ind,
  if◌then◌else◌, Bool-cases, inl, inr, arith,
}
use leanlm.Shared.Errors.{
  leanlm_error, value_error, type_error, unexpected, Result, ok, raise, Option-ind,
}
use leanlm.Shared.Text.{Text}
use leanlm.Shared.Events.{EventBus}
use leanlm.Contracts.Dto.{PromptPackage}
use leanlm.Contracts.Iec.{
  InferenceExecutionContext, PipelineStage-discrete, model_inference, evolve, with_warning,
  apply_all, apply_change, put_entry,
}
use leanlm.Contracts.Capability.{execute, accept, owns}
use leanlm.Contracts.Capability.Laws.{execute_accepts, execute_raises, accept_enriched}
use leanlm.Inference.Contract.{
  GenerationResult, InferenceStage, response_of, response_missing, simulated_note, announce_start,
  announce_end, retry, generate, record_response, returned, conclude, infer, run_inference,
  inference_capability,
}

module _ (c : InferenceStage) where
  -- The context with the response of a generation.
  abbrev pub answered : GenerationResult → InferenceExecutionContext → InferenceExecutionContext
  answered g iec =
      let entries = put_entry "inference" (c.describe_generation g) iec.trace in
      if g.is_simulated
      then record iec {
        revision = iec.revision + 1 + 1;
        response = some (response_of g);
        trace = entries;
        warnings = iec.warnings ++ simulated_note ∷ [];
      }
      else record iec {
        revision = iec.revision + 1;
        response = some (response_of g);
        trace = entries;
      }

  -- What the stage gives for what the backend gives.
  abbrev pub outcome_for :
      InferenceExecutionContext → Result GenerationResult → Result InferenceExecutionContext
  outcome_for iec (ok g) = ok (answered g iec)
  outcome_for iec (raise e) = raise e

  record_response-eq-ok :
      (g : GenerationResult) (iec : InferenceExecutionContext)
      → record_response c g iec ≡ ok (answered g iec)
  unfolding record_response evolve with_warning apply_all apply_change
  record_response-eq-ok g iec = elim (Bool-cases g.is_simulated) [
    | inl e ↦ rw e refl
    | inr e ↦ rw e refl
  ]

  answered-revision :
      (g : GenerationResult) (iec : InferenceExecutionContext)
      → iec.revision < (answered g iec).revision
  answered-revision g iec =
      if-ind (λ (x : InferenceExecutionContext). iec.revision < x.revision) g.is_simulated
        (λ _. omega arith) (λ _. omega arith)

  answered-response :
      (g : GenerationResult) (iec : InferenceExecutionContext)
      → response_missing (answered g iec).response model_inference ≡ ok tt
  answered-response g iec =
      if-ind
        (λ (x : InferenceExecutionContext). response_missing x.response model_inference ≡ ok tt)
        g.is_simulated (λ _. refl) (λ _. refl)

  -- The generation of the stage, on the bus that has its start.
  abbrev pub generated :
      PromptPackage → InferenceExecutionContext → EventBus → Result GenerationResult × EventBus
  generated prompt iec bus =
      generate c prompt.rendered iec.session_id (announce_start c iec.session_id bus)

  abbrev Runs : InferenceExecutionContext → Result GenerationResult × EventBus → Type 0
  Runs iec (ok g, bus) = (conclude c iec (ok g, bus)).0 ≡ ok (some (answered g iec))
  Runs iec (raise e, bus) = (conclude c iec (raise e, bus)).0 ≡ raise e

  conclude-Runs :
      (iec : InferenceExecutionContext) (t : Result GenerationResult × EventBus) → Runs iec t
  conclude-Runs iec (ok g, bus) =
      ap (λ r. (returned c r (announce_end c g iec.session_id bus)).0) (record_response-eq-ok g iec)
  conclude-Runs iec (raise e, bus) = refl

  run_inference-infer :
      (prompt : PromptPackage) (iec : InferenceExecutionContext) (bus : EventBus)
      → iec.prompt ≡ some prompt
      → run_inference c iec model_inference bus ≡ conclude c iec (generated prompt iec bus)
  unfolding run_inference infer PipelineStage-discrete
  run_inference-infer prompt iec bus e =
      Option-ind (λ t. t ≡ conclude c iec (generated prompt iec bus)) iec.prompt
        (λ given held.
          let same : given ≡ prompt = cc (e, held) in
          ap (λ p. conclude c iec (generated p iec bus)) same)
        (λ missing. absurd (cc (e, missing)))

  check-eq-ok :
      (prompt : PromptPackage) (iec : InferenceExecutionContext)
      → iec.prompt ≡ some prompt
      → (inference_capability c).check_preconditions iec model_inference ≡ ok tt
  unfolding inference_capability
  check-eq-ok prompt iec e = rw e refl

  accept-eq-ok :
      (g : GenerationResult) (iec : InferenceExecutionContext)
      → accept (inference_capability c) iec model_inference (some (answered g iec))
        ≡ ok (answered g iec)
  unfolding inference_capability
  accept-eq-ok g iec =
      accept_enriched (inference_capability c) iec (answered g iec) model_inference
        (answered-revision g iec) (answered-response g iec)

  execute-concludes :
      (iec : InferenceExecutionContext) (bus : EventBus) (t : Result GenerationResult × EventBus)
      → (inference_capability c).check_preconditions iec model_inference ≡ ok tt
      → run_inference c iec model_inference bus ≡ conclude c iec t
      → (execute (inference_capability c) iec model_inference bus).0 ≡ outcome_for iec t.0
  unfolding owns inference_capability
  execute-concludes iec bus (ok g, b) checked ran =
      execute_accepts (inference_capability c) iec (answered g iec) model_inference bus refl checked
        (ap (λ p. p.0) ran ∙ conclude-Runs iec (ok g, b)) (accept-eq-ok g iec)
  execute-concludes iec bus (raise e, b) checked ran =
      execute_raises (inference_capability c) iec model_inference bus e refl checked
        (ap (λ p. p.0) ran ∙ conclude-Runs iec (raise e, b))

  -- What the stage ends with when the backend's first call and its call without the hooks would
  -- give these results.
  abbrev pub Ends :
      Result GenerationResult
      → Result GenerationResult
      → InferenceExecutionContext
      → Result InferenceExecutionContext
      → Type 0
  Ends (ok g) plain iec out = out ≡ ok (answered g iec)
  Ends (raise (type_error m)) (ok g) iec out = out ≡ ok (answered g iec)
  Ends (raise (type_error m)) (raise e) iec out = out ≡ raise e
  Ends (raise e) plain iec out = out ≡ raise e

  outcome_for-Ends :
      (prompt : Text) (session : String) (iec : InferenceExecutionContext) (bus : EventBus)
      (first plain : Result GenerationResult)
      → (c.backend.generate false prompt).result ≡ plain
      → Ends first plain iec (outcome_for iec (retry c prompt session (first, bus)).0)
  outcome_for-Ends prompt session iec bus (ok g) plain e = refl
  outcome_for-Ends prompt session iec bus (raise (type_error m)) (ok g) e = ap (outcome_for iec) e
  outcome_for-Ends prompt session iec bus (raise (type_error m)) (raise x) e =
      ap (outcome_for iec) e
  outcome_for-Ends prompt session iec bus (raise (leanlm_error x)) plain e = refl
  outcome_for-Ends prompt session iec bus (raise (value_error m)) plain e = refl
  outcome_for-Ends prompt session iec bus (raise (unexpected m)) plain e = refl

  -- With a prompt in the context, the inference stage goes by the backend's first call, and by its
  -- call without the hooks when the first raises a `TypeError`: it raises just what that call raises,
  -- and when the call returns a generation, the stage succeeds and only adds the response, with the
  -- text as it is, its entry of the trace, and a warning when the backend is a simulated one.
  pub execute-answered :
      (prompt : PromptPackage) (iec : InferenceExecutionContext) (bus : EventBus)
      → iec.prompt ≡ some prompt
      → Ends
          (c.backend.generate c.has_hooks prompt.rendered).result
          (c.backend.generate false prompt.rendered).result
          iec
          (execute (inference_capability c) iec model_inference bus).0
  unfolding generate
  execute-answered prompt iec bus e =
      subst
        (Ends (c.backend.generate c.has_hooks prompt.rendered).result
          (c.backend.generate false prompt.rendered).result iec)
        (sym (
          execute-concludes iec bus (generated prompt iec bus) (check-eq-ok prompt iec e)
            (run_inference-infer prompt iec bus e)))
        (outcome_for-Ends prompt.rendered iec.session_id iec _ _ _ refl)
