-- ===== src/Mesh.antt =====
-- common/state-events.cpp: `EventsMeshNode`. Nodes and queues live at addresses; a node holds a shared
-- pointer to its queue, and a queue holds the dispatcher of its master node with a plain pointer to it.
-- Calls of the users' callbacks are recorded in a log. A dispatcher of a destroyed node is a fault.
pub mod Queue
pub mod Delivery
pub mod Departure
pub mod Safety
mod Examples
use toolchain_cpp.Common.{
  ℕ, ◌+◌, Bool, true, false, List, [], ◌∷◌, ◌++◌, Option, none, some, ◌==◌, if◌then◌else◌, Bytes,
  Result, ok, undefined,
}
use Queue.{StateEvent, StateEventType, StateEventQueue, no_event}
use Queue

-- `events_queue` is the address of a queue, `on_event_handler` the user's function.
pub record EventsMeshNode : Type 0 where
  pub events_queue : Option ℕ
  pub on_event_handler : Option ℕ
  pub alive : Bool

pub record World : Type 0 where
  pub nodes : ℕ → EventsMeshNode
  pub queues : ℕ → StateEventQueue ℕ
  pub next_queue : ℕ
  pub log : List (ℕ × StateEvent)

abbrev pub update {ℓ} : {A : Type ℓ} → (ℕ → A) → ℕ → A → ℕ → A
update f k a j = if j == k then a else f j

abbrev pub set_node : World → ℕ → EventsMeshNode → World
set_node w n node = record w { nodes = update w.nodes n node }

abbrev pub set_queue : World → ℕ → StateEventQueue ℕ → World
set_queue w q queue = record w { queues = update w.queues q queue }

-- The constructor, at address `n`.
pub construct : World → ℕ → World
construct w n = set_node w n (record { events_queue = none; on_event_handler = none; alive = true })

pub make : World → ℕ → World
make w n =
    let q = w.next_queue in
    record (set_node w n (record (w.nodes n) { events_queue = some q })) {
      queues = update w.queues q Queue.empty;
      next_queue = q + 1;
    }

pub set_master : World → ℕ → ℕ → World
set_master w n handler =
    let w' = set_node w n (record (w.nodes n) { on_event_handler = some handler }) in
    elim ((w.nodes n).events_queue) [
      | none ↦ w'
      | some q ↦ set_queue w' q (Queue.set_on_push_event_handler (w.queues q) (some n) (some n))
    ]

pub attach_to_mesh : World → ℕ → ℕ → World
attach_to_mesh w n m = set_node w n (record (w.nodes n) { events_queue = (w.nodes m).events_queue })

pub detach : World → ℕ → World
detach w n =
    let w' = set_node w n (record (w.nodes n) { events_queue = none }) in
    elim ((w.nodes n).events_queue) [
      | none ↦ w'
      | some q ↦ set_queue w' q (Queue.clear_owned_on_push_event_handler (w.queues q) n)
    ]

-- The destructor.
pub destroy : World → ℕ → World
destroy w n = let w' = detach w n in set_node w' n (record (w'.nodes n) { alive = false })

pub event_dispatcher : World → ℕ → StateEvent → World
event_dispatcher w n event = elim ((w.nodes n).on_event_handler) [
  | none ↦ w
  | some handler ↦ record w { log = w.log ++ (handler, event) ∷ [] }
]

-- `StateEventQueue::push_event`, with the call of the dispatcher that it holds.
pub queue_push : World → ℕ → StateEvent → Result World
queue_push w q event =
    let w' = set_queue w q (Queue.store_event (w.queues q) event) in
    elim ((w.queues q).on_push_event) [
      | none ↦ ok w'
      | some n ↦ if (w.nodes n).alive then ok (event_dispatcher w' n event) else undefined
    ]

pub push_event : World → ℕ → StateEvent → Result World
push_event w n event = elim ((w.nodes n).events_queue) [
  | none ↦ ok w
  | some q ↦ queue_push w q event
]

pub push_error : World → ℕ → ℕ → Bytes → Bytes → Result World
push_error w n code human_class message = push_event w n (record {
  code = code;
  human_class = human_class;
  message = message;
  type = StateEventType.error;
})

pub get_events : World → ℕ → List StateEvent
get_events w n = elim ((w.nodes n).events_queue) [
  | none ↦ []
  | some q ↦ Queue.get_events (w.queues q)
]

pub get_events_and_clear : World → ℕ → World × List StateEvent
get_events_and_clear w n = elim ((w.nodes n).events_queue) [
  | none ↦ (w, [])
  | some q ↦
      let (queue, events) = Queue.get_events_and_clear (w.queues q) in (set_queue w q queue, events)
]

pub get_first_event : World → ℕ → StateEvent
get_first_event w n = Queue.first_event (get_events w n)

pub get_last_event : World → ℕ → StateEvent
get_last_event w n = Queue.last_event (get_events w n)

pub get_first_error : World → ℕ → StateEvent
get_first_error w n = Queue.first_error (get_events w n)

pub clear : World → ℕ → World
clear w n = elim ((w.nodes n).events_queue) [
  | none ↦ w
  | some q ↦ set_queue w q (Queue.clear (w.queues q))
]
