-- ===== src/Mesh/Delivery.antt =====
-- What the nodes of a mesh see of one another's events, and what the master's callback sees.
use toolchain_cpp.Common.{
  ℕ, ◌≡◌, refl, ap, sym, ◌∙◌, arith, true, List, [], ◌∷◌, ◌++◌, map, append_assoc, append-nil, some,
  ◌==◌, if◌then◌else◌, Result, ok, ◌>>=◌, All,
}
use toolchain_cpp.Mesh.{World, set_master, push_event, queue_push, event_dispatcher, get_events}
use toolchain_cpp.Mesh.Queue.{StateEvent, store_event, set_on_push_event_handler}

-- Node `n` is attached to queue `q`.
abbrev pub Attached : World → ℕ → ℕ → Type 0
Attached w n q = (w.nodes n).events_queue ≡ some q

-- An event pushed by one node is the last in the list of every node of the same mesh, and in no other list.
pub get_events-push_event :
    (w w' : World) (n m q r : ℕ) (event : StateEvent)
    → Attached w n q
    → Attached w m r
    → push_event w n event ≡ ok w'
    → get_events w' m ≡ (if r == q then get_events w m ++ event ∷ [] else get_events w m)
unfolding push_event queue_push event_dispatcher get_events store_event
get_events-push_event w w' n m q r event a b e = ground arith

-- The pushes of several nodes, one after another.
unfoldable pub push_all : World → List (ℕ × StateEvent) → Result World
push_all w [] = ok w
push_all w ((n, event) ∷ rest) = push_event w n event >>= λ w'. push_all w' rest

-- Queue `q` calls the callback `handler` of its master `m`.
pub record IsMaster (w : World) (m q handler : ℕ) : Type 0 where
  pub attached : Attached w m q
  pub alive : (w.nodes m).alive ≡ true
  pub called : (w.queues q).on_push_event ≡ some m
  pub handles : (w.nodes m).on_event_handler ≡ some handler

set_master-IsMaster :
    (w : World) (m q handler : ℕ)
    → Attached w m q
    → (w.nodes m).alive ≡ true
    → IsMaster (set_master w m handler) m q handler
unfolding set_master set_on_push_event_handler
set_master-IsMaster w m q handler a l = ground arith

pub set_master-nodes :
    (w : World) (m n handler : ℕ)
    → ((set_master w m handler).nodes n).events_queue ≡ (w.nodes n).events_queue
unfolding set_master
set_master-nodes w m n handler = ground arith

pub then_append {ℓ} :
    {A : Type ℓ} (xs : List A) (x : A) (rest : List A) {between last : List A}
    → between ≡ xs ++ x ∷ []
    → last ≡ between ++ rest
    → last ≡ xs ++ x ∷ rest
then_append xs x rest h k = k ∙ rw h (append_assoc xs (x ∷ []) rest)

abbrev pushed : World → ℕ → ℕ → StateEvent → World
pushed w q handler event = record w {
  queues = λ j. if j == q then store_event (w.queues q) event else w.queues j;
  log = w.log ++ (handler, event) ∷ [];
}

push_event-IsMaster :
    (w : World) (m n q handler : ℕ) (event : StateEvent)
    → IsMaster w m q handler
    → Attached w n q
    → (push_event w n event ≡ ok (pushed w q handler event))
      × IsMaster (pushed w q handler event) m q handler
unfolding push_event queue_push event_dispatcher store_event
push_event-IsMaster w m n q handler event h a = (
  ground arith,
  record { attached = h.attached; alive = h.alive; called = ground arith; handles = h.handles },
)

pushed-state_events :
    (w : World) (q handler : ℕ) (event : StateEvent)
    → ((pushed w q handler event).queues q).state_events ≡ (w.queues q).state_events ++ event ∷ []
unfolding store_event
pushed-state_events w q handler event = ground arith

-- What is left after the pushes: every event is in the list of the mesh, and the master's callback has had
-- every event, both in order.
pub record Receives (w w' : World) (q handler : ℕ) (events : List StateEvent) : Type 0 where
  pub listed : (w'.queues q).state_events ≡ (w.queues q).state_events ++ events
  pub delivered : w'.log ≡ w.log ++ map (λ e. (handler, e)) events
  pub same_nodes : w'.nodes ≡ w.nodes

push_all-Receives :
    (w : World) (m q handler : ℕ) (events : List (ℕ × StateEvent))
    → IsMaster w m q handler
    → All (λ p. Attached w p.0 q) events
    → (w' : World) × (push_all w events ≡ ok w') × Receives w w' q handler (map (λ p. p.1) events)
unfolding push_all
push_all-Receives w m q handler [] h a = (
  w,
  refl,
  record { listed = sym (append-nil _); delivered = sym (append-nil _); same_nodes = refl },
)
push_all-Receives w m q handler ((n, event) ∷ rest) h a =
    let one = push_event-IsMaster w m n q handler event h a.0 in
    let (w', e, r) = push_all-Receives (pushed w q handler event) m q handler rest one.1 a.1 in
    (
      w',
      rw (one.0, e) refl,
      record {
        listed = then_append _ event _ (pushed-state_events w q handler event) r.listed;
        delivered = then_append w.log (handler, event) _ refl r.delivered;
        same_nodes = r.same_nodes;
      },
    )

All-Attached :
    (w w0 : World) (q : ℕ) (events : List (ℕ × StateEvent))
    → ((n : ℕ) → (w0.nodes n).events_queue ≡ (w.nodes n).events_queue)
    → All (λ p. Attached w p.0 q) events
    → All (λ p. Attached w0 p.0 q) events
All-Attached w w0 q [] same a = tt
All-Attached w w0 q ((n, e) ∷ rest) same a = (same n ∙ a.0, All-Attached w w0 q rest same a.1)

pub set_master-state_events :
    (w : World) (m q handler : ℕ)
    → ((set_master w m handler).queues q).state_events ≡ (w.queues q).state_events
unfolding set_master set_on_push_event_handler
set_master-state_events w m q handler = ground arith

pub set_master-log : (w : World) (m handler : ℕ) → (set_master w m handler).log ≡ w.log
unfolding set_master
set_master-log w m handler = ground arith

-- Once an attached and living node has become the master, every sequence of pushes by nodes of the mesh succeeds,
-- lengthens the list of the mesh by the events in order, and hands each event to the master's callback, in order.
pub set_master-Receives :
    (w : World) (m q handler : ℕ) (events : List (ℕ × StateEvent))
    → Attached w m q
    → (w.nodes m).alive ≡ true
    → All (λ p. Attached w p.0 q) events
    → (w' : World) × (push_all (set_master w m handler) events ≡ ok w')
      × ((w'.queues q).state_events ≡ (w.queues q).state_events ++ map (λ p. p.1) events)
      × (w'.log ≡ w.log ++ map (λ e. (handler, e)) (map (λ p. p.1) events))
set_master-Receives w m q handler events a l all =
    let w0 = set_master w m handler in
    let calls : List (ℕ × StateEvent) = map (λ e. (handler, e)) (map (λ p. p.1) events) in
    let (w', e, r) =
      push_all-Receives w0 m q handler events (set_master-IsMaster w m q handler a l)
        (All-Attached w w0 q events (λ n. set_master-nodes w m n handler) all) in
    (
      w',
      e,
      r.listed ∙ ap (λ es. es ++ map (λ p. p.1) events) (set_master-state_events w m q handler),
      r.delivered ∙ ap (λ l. l ++ calls) (set_master-log w m handler),
    )
