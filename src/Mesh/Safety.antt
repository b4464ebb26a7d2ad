-- ===== src/Mesh/Safety.antt =====
-- When the dispatchers that the queues hold are those of living nodes.
use toolchain_cpp.Common.{
  ℕ, ◌≡◌, ◌≢◌, refl, arith, inl, inr, true, false, some, ◌==◌, if◌then◌else◌, Option-cases, Result,
  ok, undefined,
}
use toolchain_cpp.Mesh.{
  World, construct, make, set_master, attach_to_mesh, detach, destroy, push_event, queue_push,
  event_dispatcher, get_events_and_clear, clear,
}
use toolchain_cpp.Mesh.Queue
use toolchain_cpp.Mesh.Queue.{
  StateEvent, store_event, clear_owned_on_push_event_handler, set_on_push_event_handler,
}

-- The dispatcher of `n` may be called by queue `q`, and `n` will take it back when it leaves.
pub record Registered (w : World) (q n : ℕ) : Type 0 where
  pub alive : (w.nodes n).alive ≡ true
  pub attached : (w.nodes n).events_queue ≡ some q
  pub owned : (w.queues q).callback_owner ≡ some n

abbrev pub IsSafe : World → Type 0
IsSafe w = (q n : ℕ) → (w.queues q).on_push_event ≡ some n → Registered w q n

-- No queue holds the dispatcher of `n`.
abbrev pub IsNoMaster : World → ℕ → Type 0
IsNoMaster w n = (q : ℕ) → (w.queues q).on_push_event ≢ some n

set_master-IsSafe :
    (w : World) (n handler : ℕ)
    → (w.nodes n).alive ≡ true
    → IsSafe w
    → IsSafe (set_master w n handler)
unfolding set_master set_on_push_event_handler
set_master-IsSafe w n handler l s q k h = ground (arith, s q k)

detach-IsSafe : (w : World) (n : ℕ) → IsSafe w → IsSafe (detach w n)
unfolding detach clear_owned_on_push_event_handler
detach-IsSafe w n s q k h = ground (arith, s q k)

destroy-IsSafe : (w : World) (n : ℕ) → IsSafe w → IsSafe (destroy w n)
unfolding destroy detach clear_owned_on_push_event_handler
destroy-IsSafe w n s q k h = ground (arith, s q k)

construct-IsSafe :
    (w : World) (n : ℕ) → (w.nodes n).alive ≡ false → IsSafe w → IsSafe (construct w n)
unfolding construct
construct-IsSafe w n d s q k h = ground (arith, s q k)

make-IsSafe : (w : World) (n : ℕ) → IsNoMaster w n → IsSafe w → IsSafe (make w n)
unfolding make
make-IsSafe w n m s q k h = ground (arith, s q k, m q)

attach_to_mesh-IsSafe :
    (w : World) (n m : ℕ) → IsNoMaster w n → IsSafe w → IsSafe (attach_to_mesh w n m)
unfolding attach_to_mesh
attach_to_mesh-IsSafe w n m free s q k h = ground (arith, s q k, free q)

abbrev stored : World → ℕ → StateEvent → World
stored w q event = record w {
  queues = λ j. if j == q then store_event (w.queues q) event else w.queues j;
}

stored-IsSafe : (w : World) (q : ℕ) (event : StateEvent) → IsSafe w → IsSafe (stored w q event)
unfolding store_event
stored-IsSafe w q event s p k h = ground (arith, s p k, s q k)

event_dispatcher-IsSafe :
    (w : World) (n : ℕ) (event : StateEvent) → IsSafe w → IsSafe (event_dispatcher w n event)
unfolding event_dispatcher
event_dispatcher-IsSafe w n event s p k h = ground (arith, s p k)

push_event-IsSafe :
    (w : World) (n : ℕ) (event : StateEvent)
    → IsSafe w
    → (w' : World) × (push_event w n event ≡ ok w') × IsSafe w'
unfolding push_event queue_push
push_event-IsSafe w n event s = elim (Option-cases ((w.nodes n).events_queue)) [
  | inl e ↦ (w, rw (e, push_event), s)
  | inr (q, e) ↦ elim (Option-cases ((w.queues q).on_push_event)) [
    | inl quiet ↦ (stored w q event, ground arith, stored-IsSafe w q event s)
    | inr (k, called) ↦ (
      event_dispatcher (stored w q event) k event,
      ground (arith, s q k),
      event_dispatcher-IsSafe _ k event (stored-IsSafe w q event s),
    )
  ]
]

get_events_and_clear-IsSafe : (w : World) (n : ℕ) → IsSafe w → IsSafe (get_events_and_clear w n).0
unfolding get_events_and_clear Queue.get_events_and_clear
get_events_and_clear-IsSafe w n s p k h = ground (arith, s p k)

clear-IsSafe : (w : World) (n : ℕ) → IsSafe w → IsSafe (clear w n)
unfolding clear Queue.clear
clear-IsSafe w n s p k h = ground (arith, s p k)

-- A call of a method, the constructor and the destructor among them.
pub data Call : Type 0 where
  constructs makes detaches destroys takes clears : ℕ → Call
  masters attaches : ℕ → ℕ → Call
  pushes : ℕ → StateEvent → Call

pub step : World → Call → Result World
step w (constructs n) = ok (construct w n)
step w (makes n) = ok (make w n)
step w (detaches n) = ok (detach w n)
step w (destroys n) = ok (destroy w n)
step w (takes n) = ok (get_events_and_clear w n).0
step w (clears n) = ok (clear w n)
step w (masters n handler) = ok (set_master w n handler)
step w (attaches n m) = ok (attach_to_mesh w n m)
step w (pushes n event) = push_event w n event

-- What the safety of the mesh asks of the callers: an object is not constructed over a living one, a
-- master is set on a living object, and a master does not change its queue; the other calls are allowed on destroyed
-- objects as well.
abbrev pub Allowed : World → Call → Type 0
Allowed w (constructs n) = (w.nodes n).alive ≡ false
Allowed w (makes n) = IsNoMaster w n
Allowed w (masters n handler) = (w.nodes n).alive ≡ true
Allowed w (attaches n m) = IsNoMaster w n
Allowed w _ = Unit

-- From a state in which every registered dispatcher belongs to a living node of the mesh, every call that the
-- rules allow succeeds, pushes included, and leads to such a state again.
pub step-IsSafe :
    (w : World) (c : Call) → Allowed w c → IsSafe w → (w' : World) × (step w c ≡ ok w') × IsSafe w'
unfolding step
step-IsSafe w (constructs n) a s = (construct w n, refl, construct-IsSafe w n a s)
step-IsSafe w (makes n) a s = (make w n, refl, make-IsSafe w n a s)
step-IsSafe w (detaches n) a s = (detach w n, refl, detach-IsSafe w n s)
step-IsSafe w (destroys n) a s = (destroy w n, refl, destroy-IsSafe w n s)
step-IsSafe w (takes n) a s =
    ((get_events_and_clear w n).0, refl, get_events_and_clear-IsSafe w n s)
step-IsSafe w (clears n) a s = (clear w n, refl, clear-IsSafe w n s)
step-IsSafe w (masters n handler) a s =
    (set_master w n handler, refl, set_master-IsSafe w n handler a s)
step-IsSafe w (attaches n m) a s = (attach_to_mesh w n m, refl, attach_to_mesh-IsSafe w n m a s)
step-IsSafe w (pushes n event) a s = push_event-IsSafe w n event s

-- A master that makes itself a new mesh, at a new address, leaves its dispatcher in the old one: once it is destroyed, a
-- push of any other node that stayed calls a destroyed object.
pub stale_master_faults :
    (w : World) (n m q : ℕ) (event : StateEvent)
    → (w.nodes n).events_queue ≡ some q
    → (w.queues q).on_push_event ≡ some n
    → (w.nodes m).events_queue ≡ some q
    → m ≢ n
    → q ≢ w.next_queue
    → push_event (destroy (make w n) n) m event ≡ undefined
unfolding push_event queue_push destroy detach make clear_owned_on_push_event_handler
stale_master_faults w n m q event a c b d f = ground arith
