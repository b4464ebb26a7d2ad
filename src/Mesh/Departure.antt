-- ===== src/Mesh/Departure.antt =====
-- What is left of a mesh whose master has gone.
use toolchain_cpp.Common.{
  ℕ, ◌≡◌, ◌≢◌, refl, ap, sym, ◌∙◌, arith, List, [], ◌∷◌, ◌++◌, map, append-nil, none, ◌==◌,
  if◌then◌else◌, ok, All,
}
use toolchain_cpp.Mesh.{World, set_master, detach, destroy, push_event, queue_push}
use toolchain_cpp.Mesh.Queue.{
  StateEvent, store_event, clear_owned_on_push_event_handler, set_on_push_event_handler,
}
use toolchain_cpp.Mesh.Delivery.{Attached, push_all, then_append}

abbrev stored : World → ℕ → StateEvent → World
stored w q event = record w {
  queues = λ j. if j == q then store_event (w.queues q) event else w.queues j;
}

stored-on_push_event :
    (w : World) (q : ℕ) (event : StateEvent)
    → (w.queues q).on_push_event ≡ none
    → ((stored w q event).queues q).on_push_event ≡ none
unfolding store_event
stored-on_push_event w q event h = ground arith

stored-state_events :
    (w : World) (q : ℕ) (event : StateEvent)
    → ((stored w q event).queues q).state_events ≡ (w.queues q).state_events ++ event ∷ []
unfolding store_event
stored-state_events w q event = ground arith

push_event_silent :
    (w : World) (n q : ℕ) (event : StateEvent)
    → (w.queues q).on_push_event ≡ none
    → Attached w n q
    → push_event w n event ≡ ok (stored w q event)
unfolding push_event queue_push
push_event_silent w n q event h a = ground arith

-- With no callback in the queue the pushes succeed and call nothing.
push_all_silent :
    (w : World) (q : ℕ) (events : List (ℕ × StateEvent))
    → (w.queues q).on_push_event ≡ none
    → All (λ p. Attached w p.0 q) events
    → (w' : World) × (push_all w events ≡ ok w')
      × ((w'.queues q).state_events ≡ (w.queues q).state_events ++ map (λ p. p.1) events)
      × (w'.log ≡ w.log)
unfolding push_all
push_all_silent w q [] h a = (w, refl, sym (append-nil _), refl)
push_all_silent w q ((n, event) ∷ rest) h a =
    let w1 = stored w q event in
    let (w', e, r, l) = push_all_silent w1 q rest (stored-on_push_event w q event h) a.1 in
    (
      w',
      rw (push_event_silent w n q event h a.0, e) refl,
      then_append _ event _ (stored-state_events w q event) r,
      l,
    )

module _ (w : World) (m q handler : ℕ) (a : Attached w m q) where
  abbrev destroyed : World
  destroyed = destroy (set_master w m handler) m

  destroyed-on_push_event : (destroyed.queues q).on_push_event ≡ none
  unfolding destroy detach set_master set_on_push_event_handler clear_owned_on_push_event_handler
  destroyed-on_push_event = ground arith

  destroyed-state_events : (destroyed.queues q).state_events ≡ (w.queues q).state_events
  unfolding destroy detach set_master set_on_push_event_handler clear_owned_on_push_event_handler
  destroyed-state_events = ground arith

destroyed-log : (w : World) (m handler : ℕ) → (destroy (set_master w m handler) m).log ≡ w.log
unfolding destroy detach set_master
destroyed-log w m handler = ground arith

destroyed-nodes :
    (w : World) (m n handler : ℕ)
    → n ≢ m
    → ((destroy (set_master w m handler) m).nodes n).events_queue ≡ (w.nodes n).events_queue
unfolding destroy detach set_master
destroyed-nodes w m n handler h = ground arith

All-remaining :
    (w : World) (m q handler : ℕ) (events : List (ℕ × StateEvent))
    → All (λ p. (p.0 ≢ m) × Attached w p.0 q) events
    → All (λ p. Attached (destroy (set_master w m handler) m) p.0 q) events
All-remaining w m q handler [] a = tt
All-remaining w m q handler ((n, e) ∷ rest) a =
    (destroyed-nodes w m n handler a.0.0 ∙ a.0.1, All-remaining w m q handler rest a.1)

-- After an attached master has been destroyed the other nodes of the mesh go on: their pushes succeed and lengthen the
-- list in order, and no callback is called.
pub destroy_silent :
    (w : World) (m q handler : ℕ) (events : List (ℕ × StateEvent))
    → Attached w m q
    → All (λ p. (p.0 ≢ m) × Attached w p.0 q) events
    → (w' : World) × (push_all (destroy (set_master w m handler) m) events ≡ ok w')
      × ((w'.queues q).state_events ≡ (w.queues q).state_events ++ map (λ p. p.1) events)
      × (w'.log ≡ w.log)
destroy_silent w m q handler events a all =
    let w0 = destroy (set_master w m handler) m in
    let (w', e, r, l) =
      push_all_silent w0 q events (destroyed-on_push_event w m q handler a)
        (All-remaining w m q handler events all) in
    (
      w',
      e,
      r ∙ ap (λ es. es ++ map (λ p. p.1) events) (destroyed-state_events w m q handler a),
      l ∙ destroyed-log w m handler,
    )
