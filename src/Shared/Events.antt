-- ===== src/Shared/Events.antt =====
-- The event bus (src/leanlm/shared/events.py): a bounded history and synchronous delivery.
-- Timestamps are left out. A subscriber is a callback of the caller: it stands here as its
-- identity, and what the bus does to it is the sequence of calls in `delivered`.
pub mod History
use leanlm.Common.{
  ℕ, ◌-◌, String, Bool, Option, none, some, List, [], ◌∷◌, ◌++◌, map, ltb, ◌==◌, str_eq,
  if◌then◌else◌, length, drop, keep,
}

pub data EventName : Type 0 where
  session_started model_loaded resources_assessed capability_started : EventName
  capability_completed capability_failed document_loaded context_loaded : EventName
  context_optimized evidence_retrieved prompt_built inference_started first_token : EventName
  inference_finished validation_completed pipeline_completed resource_warning : EventName
  benchmark_completed submission_generated session_closed : EventName

pub data Value : Type 0 where
  text : String → Value
  number : ℕ → Value

pub record Event : Type 0 where
  pub name : EventName
  pub session_id : String
  pub capability : String
  pub payload : List (String × Value)

abbrev pub Subscriber : Type 0
Subscriber = ℕ

pub record EventBus : Type 0 where
  pub subscribers : List Subscriber
  pub events : List Event
  pub keep_last : ℕ
  pub delivered : List (Subscriber × Event)

unfoldable pub new : ℕ → EventBus
new keep_last = record { subscribers = []; events = []; keep_last = keep_last; delivered = [] }

unfoldable pub subscribe : Subscriber → EventBus → EventBus
subscribe s b = record b { subscribers = b.subscribers ++ s ∷ [] }

-- `list.remove`: the first occurrence; `none` is Python's ValueError.
remove_first : Subscriber → List Subscriber → Option (List Subscriber)
remove_first s [] = none
remove_first s (x ∷ xs) =
    let rest = remove_first s xs in
    if x == s then some xs else elim rest [ none ↦ none | some ys ↦ some (x ∷ ys) ]

-- The function that `subscribe` returns.
unfoldable pub unsubscribe : Subscriber → EventBus → Option EventBus
unfolding remove_first
unsubscribe s b = elim (remove_first s b.subscribers) [
  | none ↦ none
  | some rest ↦ some (record b { subscribers = rest })
]

-- The history after `append` and the `del` of what stands before the last `keep_last`.
unfoldable pub remember : ℕ → List Event → Event → List Event
remember keep_last old e =
    let grown = old ++ e ∷ [] in
    if ltb keep_last (length grown) then drop (length grown - keep_last) grown else grown

unfoldable pub publish : Event → EventBus → EventBus
unfolding remember
publish e b = record b {
  events = remember b.keep_last b.events e;
  delivered = b.delivered ++ map (λ s. (s, e)) b.subscribers;
}

unfoldable pub emit : EventName → String → String → List (String × Value) → EventBus → EventBus
unfolding publish
emit name session capability payload =
    publish
      (record { name = name; session_id = session; capability = capability; payload = payload })

unfoldable pub history : Option String → EventBus → List Event
history none b = b.events
history (some session) b = keep (λ e. str_eq e.session_id session) b.events

unfoldable pub clear : EventBus → EventBus
clear b = record b { events = [] }
