-- ===== src/Mesh/Examples.antt =====
-- A small mesh, and the theorems at it.
use toolchain_cpp.Common.{ℕ, ◌≡◌, refl, arith, false, List, [], ◌∷◌, none, codes, ok, undefined}
use toolchain_cpp.Mesh.{
  World, construct, make, attach_to_mesh, set_master, destroy, push_event, set_queue,
}
use toolchain_cpp.Mesh.Queue.{StateEvent, StateEventType, store_event, set_on_push_event_handler}
use toolchain_cpp.Mesh.Queue
use toolchain_cpp.Mesh.Delivery.{push_all, set_master-Receives}
use toolchain_cpp.Mesh.Safety.{IsSafe, pushes, step, step-IsSafe, stale_master_faults}

abbrev nothing : World
nothing = record {
  nodes = λ _. record { events_queue = none; on_event_handler = none; alive = false };
  queues = λ _. Queue.empty;
  next_queue = 0;
  log = [];
}

-- Nodes 0 and 1 share queue 0.
abbrev pair : World
unfolding construct make attach_to_mesh
pair = attach_to_mesh (construct (make (construct nothing 0) 0) 1) 1 0

abbrev door : StateEvent
door = record {
  code = 7;
  human_class = codes "door";
  message = codes "open";
  type = StateEventType.error;
}

abbrev light : StateEvent
light = record {
  code = 8;
  human_class = codes "light";
  message = codes "on";
  type = StateEventType.state;
}

abbrev both : List (ℕ × StateEvent)
both = (1, door) ∷ (0, light) ∷ []

pair-IsSafe : IsSafe pair
unfolding construct make attach_to_mesh
pair-IsSafe q n h = ground arith

abbrev after_door : World
unfolding construct make attach_to_mesh
after_door = set_queue pair 0 (store_event (pair.queues 0) door)

set_master-Receives_example :
    (w' : World) × (push_all (set_master pair 0 5) both ≡ ok w')
    × ((w'.queues 0).state_events ≡ door ∷ light ∷ [])
    × (w'.log ≡ (5, door) ∷ (5, light) ∷ [])
unfolding construct make attach_to_mesh
set_master-Receives_example = set_master-Receives pair 0 0 5 both refl refl (refl, (refl, tt))

step-IsSafe_example : (w' : World) × (step pair (pushes 1 door) ≡ ok w') × IsSafe w'
step-IsSafe_example = step-IsSafe pair (pushes 1 door) tt pair-IsSafe

stale_master_faults_example :
    push_event (destroy (make (set_master pair 0 5) 0) 0) 1 door ≡ undefined
unfolding construct make attach_to_mesh set_master set_on_push_event_handler
stale_master_faults_example =
    stale_master_faults (set_master pair 0 5) 0 1 0 door refl refl refl (λ e. absurd (omega arith))
      (λ e. absurd (omega arith))
