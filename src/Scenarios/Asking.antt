-- ===== src/Scenarios/Asking.antt =====
-- A loaded runtime that is asked two questions, with a model that is served by the machine itself for the second.
use leanlm.Common.{◌≡◌, refl, true, List, [], ◌∷◌, All, none, map, inr}
use leanlm.Shared.Errors.{ok}
use leanlm.Shared.Text.{codes}
use leanlm.Contracts.Iec.{
  PipelineStage, session_creation, resource_assessment, document_discovery, context_optimization,
  evidence_retrieval, prompt_assembly, model_inference, response_validation, metrics_finalization,
  session_cleanup, InferenceExecutionContext,
}
use leanlm.Trust.OfflineGuard.{system, connect, Attempt, host_of, is_loopback}
use leanlm.Runtime.Corpus.{new_store}
use leanlm.Runtime.Asking.{Service, Setting, ask_all}
use leanlm.Runtime.Asking.Serving.{Asked, call_of, IsServing, ask_all-IsServing}
use leanlm.Scenarios.Wiring.{wiring, wiring-IsWired, ready_machine, bus}
use leanlm.Scenarios.Loading.{working}
use leanlm.Scenarios.Storing.{library}

abbrev setting : Setting
setting = record {
  pipeline = wiring;
  backend = working;
  library = library;
  profile_id = "laptop";
  enforce_offline = true;
  now = "t";
  strip = λ t. t;
  format = λ n. "0001";
  report = λ violation. violation.detail;
  runtime_entry = "laptop" ∷ [];
  payload = λ m. "{}";
  violations_entry = λ vs. [];
}

abbrev service : Service
service = record {
  core = record { machine = ready_machine; loaded = true; bus = bus };
  corpus = new_store;
  sessions = [];
  current = none;
  sockets = record { connect_hook = system; getaddrinfo_hook = system };
}

-- The model runs in a server of the same machine.
abbrev local_model : PipelineStage → List Attempt
local_model model_inference = connect (codes "127.0.0.1") "8080" ∷ []
local_model stage = []

local_model-local :
    (stage : PipelineStage) → All (λ a. is_loopback (host_of a) ≡ true) (local_model stage)
unfolding is_loopback
local_model-local session_creation = tt
local_model-local resource_assessment = tt
local_model-local document_discovery = tt
local_model-local context_optimization = tt
local_model-local evidence_retrieval = tt
local_model-local prompt_assembly = tt
local_model-local model_inference = (refl, tt)
local_model-local response_validation = tt
local_model-local metrics_finalization = tt
local_model-local session_cleanup = tt

abbrev questions : List Asked
questions =
    record { question = "Quel est le délai ?"; check = true; fresh = "s1"; attempts = λ stage. [] }
    ∷ record { question = "Et le prix ?"; check = true; fresh = "s2"; attempts = local_model }
    ∷ []

ask_all-IsServing_example :
    All
      (λ r. (iec : InferenceExecutionContext) × (r ≡ ok iec))
      (ask_all setting (map call_of questions) service).0
    × IsServing (ask_all setting (map call_of questions) service).1
    × ((ask_all setting (map call_of questions) service).1.sockets ≡ service.sockets)
ask_all-IsServing_example =
    ask_all-IsServing setting questions service wiring-IsWired
      ((refl, inr (λ stage. tt)), ((refl, inr local_model-local), tt))
      (record { loaded = refl; ready_state = refl; session = tt })
