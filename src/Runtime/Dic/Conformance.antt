-- ===== src/Runtime/Dic/Conformance.antt =====
-- What a context without violations is, and what a pipeline run guarantees (runtime/dic.py).
use leanlm.Common.{
  ℕ, ◌<◌, String, ◌≡◌, refl, ap, ◌∙◌, true, false, Option, some, List, [], ◌∷◌, ◌++◌, map, arith,
  All,
}
use leanlm.Shared.Telemetry.{name_of}
use leanlm.Contracts.Iec.{
  PipelineStage, stage_value, stage_order, InferenceExecutionContext, completed_stages,
}
use leanlm.Shared.Events.{EventBus}
use leanlm.Runtime.StateMachine.{StateMachine}
use leanlm.Runtime.Pipeline.{InferencePipeline, flow_run, run}
use leanlm.Runtime.Pipeline.Order.{Sub, nil, take, skip, KeepsStages, run-Records}
use leanlm.Runtime.Dic.{
  index_in, canonical, positions, insert, sorted, same_list, unknown, check_lifecycle,
}

-- The place of a stage in the canonical order.
stage_index : PipelineStage → ℕ
stage_index PipelineStage.session_creation = 0
stage_index PipelineStage.resource_assessment = 1
stage_index PipelineStage.document_discovery = 2
stage_index PipelineStage.context_optimization = 3
stage_index PipelineStage.evidence_retrieval = 4
stage_index PipelineStage.prompt_assembly = 5
stage_index PipelineStage.model_inference = 6
stage_index PipelineStage.response_validation = 7
stage_index PipelineStage.metrics_finalization = 8
stage_index PipelineStage.session_cleanup = 9

index_in-canonical : (s : PipelineStage) → index_in (stage_value s) canonical ≡ some (stage_index s)
unfolding index_in stage_index
index_in-canonical PipelineStage.session_creation = refl
index_in-canonical _ = refl

positions-stages : (ss : List PipelineStage) → positions (map stage_value ss) ≡ map stage_index ss
unfolding positions
positions-stages [] = refl
positions-stages (s ∷ ss) = ground (arith, index_in-canonical s, positions-stages ss)

unknown-stages : (ss : List PipelineStage) → unknown (map stage_value ss) ≡ false
unfolding unknown
unknown-stages [] = refl
unknown-stages (s ∷ ss) = ground (arith, index_in-canonical s, unknown-stages ss)

-- Each number is below all that follow it.
abbrev IsAscending : List ℕ → Type 0
IsAscending [] = Unit
IsAscending (x ∷ xs) = All (λ y. x < y) xs × IsAscending xs

insert-least : (x : ℕ) (xs : List ℕ) → All (λ y. x < y) xs → insert x xs ≡ x ∷ xs
unfolding insert
insert-least x [] h = refl
insert-least x (y ∷ ys) h = ground arith

sorted-IsAscending : (xs : List ℕ) → IsAscending xs → sorted xs ≡ xs
unfolding sorted
sorted-IsAscending [] h = refl
sorted-IsAscending (x ∷ xs) h = rw (sorted-IsAscending xs h.1) (insert-least x xs h.0)

same_list_refl : (xs : List ℕ) → same_list xs xs ≡ true
unfolding same_list
same_list_refl [] = refl
same_list_refl (x ∷ xs) = ground (arith, same_list_refl xs)

Sub-All :
    (x : ℕ) (ss ts : List PipelineStage)
    → Sub ss ts
    → All (λ y. x < y) (map stage_index ts)
    → All (λ y. x < y) (map stage_index ss)
Sub-All x ss ts nil h = tt
Sub-All x ss ts (take a s) h = (h.0, Sub-All x _ _ s h.1)
Sub-All x ss ts (skip a s) h = Sub-All x _ _ s h.1

Sub-IsAscending :
    (ss ts : List PipelineStage)
    → Sub ss ts
    → IsAscending (map stage_index ts)
    → IsAscending (map stage_index ss)
Sub-IsAscending ss ts nil h = tt
Sub-IsAscending ss ts (take a s) h = (Sub-All (stage_index a) _ _ s h.0, Sub-IsAscending _ _ s h.1)
Sub-IsAscending ss ts (skip a s) h = Sub-IsAscending _ _ s h.1

-- Stages in canonical order pass both tests of DIC-01.
pub check_lifecycle-Sub :
    (ss : List PipelineStage) → Sub ss stage_order → check_lifecycle (map stage_value ss) ≡ []
unfolding check_lifecycle stage_index
check_lifecycle-Sub ss s =
    let up : IsAscending (map stage_index ss) = Sub-IsAscending ss stage_order s (omega arith) in
    rw (
      positions-stages ss,
      sorted-IsAscending (map stage_index ss) up,
      same_list_refl (map stage_index ss),
      unknown-stages ss,
    )

-- The context of any run of the pipeline that started with no stages recorded, completed or
-- stopped or failed or left by an exception, passes the verifier's two lifecycle tests (DIC-01),
-- if no handler and no capability writes the list of stages itself.
pub run-check_lifecycle :
    (p : InferencePipeline) (now : String) (stop : Option PipelineStage)
    (iec : InferenceExecutionContext) (machine : StateMachine) (bus : EventBus)
    → KeepsStages p
    → iec.stages ≡ []
    → check_lifecycle (completed_stages (flow_run (run p now stop iec machine bus)).iec) ≡ []
run-check_lifecycle p now stop iec machine bus keeps fresh =
    let (done, sub, names) = run-Records p now stop keeps iec machine bus in
    let start : completed_stages iec ≡ [] = unfold completed_stages in ap (map name_of) fresh in
    let all = names ∙ ap (λ l. l ++ map stage_value done) start in
    ap check_lifecycle all ∙ check_lifecycle-Sub done sub
