-- ===== src/Mesh/Queue.antt =====
-- common/state-events.cpp: `StateEvent` and `StateEventQueue`. The type `H` stands for the callback
-- functions, and an owner is the address of an object. Each method holds the mutex of what it
-- touches, so it is one step.
use toolchain_cpp.Common.{
  ℕ, Bool, true, false, List, [], ◌∷◌, ◌++◌, Option, none, some, ◌==◌, if◌then◌else◌, Bytes,
}

pub data StateEventType : Type 0 where
  common state warning error : StateEventType

pub record StateEvent : Type 0 where
  pub code : ℕ
  pub human_class : Bytes
  pub message : Bytes
  pub type : StateEventType

abbrev pub empty_status_event : ℕ
empty_status_event = 0

-- The default constructor.
abbrev pub no_event : StateEvent
no_event = record { code = empty_status_event; human_class = []; message = []; type = common }

pub record StateEventQueue (H : Type 0) : Type 0 where
  pub state_events : List StateEvent
  pub on_push_event : Option H
  pub callback_owner : Option ℕ

-- `owner == callback_owner`, for an owner that is not null.
abbrev pub is_owner : ℕ → Option ℕ → Bool
is_owner owner none = false
is_owner owner (some o) = owner == o

module _ {H : Type 0} where
  abbrev pub empty : StateEventQueue H
  empty = record { state_events = []; on_push_event = none; callback_owner = none }

  -- The first critical section of `push_event`; the second calls `on_push_event`, if it is set.
  unfoldable pub store_event : StateEventQueue H → StateEvent → StateEventQueue H
  store_event q event = record q { state_events = q.state_events ++ event ∷ [] }

  abbrev pub get_events : StateEventQueue H → List StateEvent
  get_events q = q.state_events

  unfoldable pub get_events_and_clear : StateEventQueue H → StateEventQueue H × List StateEvent
  get_events_and_clear q = (record q { state_events = [] }, q.state_events)

  unfoldable pub clear : StateEventQueue H → StateEventQueue H
  clear q = record q { state_events = [] }

  unfoldable pub set_on_push_event_handler :
      StateEventQueue H → Option H → Option ℕ → StateEventQueue H
  set_on_push_event_handler q (some h) (some owner) = record q {
    on_push_event = some h;
    callback_owner = some owner;
  }
  set_on_push_event_handler q _ _ = record q { on_push_event = none; callback_owner = none }

  -- The owner stays behind when its function is removed.
  unfoldable pub clear_owned_on_push_event_handler : StateEventQueue H → ℕ → StateEventQueue H
  clear_owned_on_push_event_handler q owner =
      if is_owner owner q.callback_owner then record q { on_push_event = none } else q

-- `front` and `back`, with the default event for an empty list.
unfoldable pub first_event : List StateEvent → StateEvent
first_event [] = no_event
first_event (e ∷ es) = e

unfoldable pub last_event : List StateEvent → StateEvent
last_event [] = no_event
last_event (e ∷ []) = e
last_event (e ∷ es) = last_event es

abbrev pub is_error : StateEventType → Bool
is_error error = true
is_error _ = false

unfoldable pub first_error : List StateEvent → StateEvent
first_error [] = no_event
first_error (e ∷ es) = if is_error e.type then e else first_error es
