-- ===== src/Connection/Stopping.antt =====
-- A `stop` from another thread reaches the loop, wherever the loop stands.
use toolchain_cpp.Common.{ℕ, Bool, true, false, some, ◌≡◌, refl, sym, ◌∙◌, ok, arith}
use toolchain_cpp.Connection.{NetworkConnection, reset_error_status}
use toolchain_cpp.Connection.Keeping.{handle-Keeps}
use toolchain_cpp.Connection.Lifecycle.{begin_stop}
use toolchain_cpp.Connection.Loop.{
  Place, testing, preparing, posting, serving, ending, checking, finished, failed, Stopper,
  not_called, flagged, returned, World, LoopStep, leave, enter, log_fails, break, prepare, post,
  post_throws, serve, serve_ends, clean, repeat, finish, Step, loop, stop_flags, stop_closes, Steps,
  none_more, then_step,
}
use toolchain_cpp.Connection.Session.{
  is_set, close_current_session, open_log_file, setup_session_resources, cleanup_session_resources,
  post_connection_task_to_io_service,
}
use toolchain_cpp.Connection.Timers.{
  cancel_all_timers, attach_timers_to_io_service, detach_timers_from_io_service,
}

-- Behind `stop`, a session that is set up has a service that is stopped.
abbrev pub HasStopped : Place → NetworkConnection → Type 0
HasStopped posting s = s.io_service ≡ some true
HasStopped serving s = s.io_service ≡ some true
HasStopped _ s = Unit

-- In these places there are a service and a socket.
pub record IsSetUp (s : NetworkConnection) : Type 0 where
  pub stopped : Bool
  pub io_service : s.io_service ≡ some stopped
  pub socket : is_set s.socket ≡ true

abbrev pub HasService : Place → NetworkConnection → Type 0
HasService posting s = IsSetUp s
HasService serving s = IsSetUp s
HasService _ s = Unit

abbrev pub Flags : Stopper → Place → NetworkConnection → Type 0
Flags not_called p s = Unit
Flags flagged p s = s.full_stop_flag ≡ true
Flags returned p s = (s.full_stop_flag ≡ true) × HasStopped p s

pub record IsValid (k : Stopper) (c : Place × NetworkConnection) : Type 0 where
  pub service : HasService c.0 c.1
  pub flags : Flags k c.0 c.1

Flags-map :
    (k : Stopper) (p q : Place) (s t : NetworkConnection)
    → (s.full_stop_flag ≡ true → t.full_stop_flag ≡ true)
    → (HasStopped p s → HasStopped q t)
    → Flags k p s
    → Flags k q t
Flags-map not_called p q s t f g h = tt
Flags-map flagged p q s t f g h = f h
Flags-map returned p q s t f g h = (f h.0, g h.1)

-- A step that is taken only before `stop`.
Flags-absurd :
    (k : Stopper) (p q : Place) (s t : NetworkConnection)
    → s.full_stop_flag ≡ false
    → Flags k p s
    → Flags k q t
Flags-absurd not_called p q s t e h = tt
Flags-absurd flagged p q s t e h = absurd (ground arith)
Flags-absurd returned p q s t e h = let f = h.0 in absurd (ground arith)

-- A service that still serves has not been stopped.
Flags-serving :
    (k : Stopper) (s t : NetworkConnection)
    → (s.full_stop_flag ≡ true → t.full_stop_flag ≡ true)
    → s.io_service ≡ some false
    → Flags k serving s
    → Flags k serving t
Flags-serving not_called s t f e h = tt
Flags-serving flagged s t f e h = f h
Flags-serving returned s t f e h = let both : some true ≡ some false = sym h.1 ∙ e in cc

open_log_file-full_stop_flag :
    (s t : NetworkConnection) (opens : Bool)
    → open_log_file (reset_error_status s) opens ≡ ok t
    → t.full_stop_flag ≡ s.full_stop_flag
unfolding open_log_file reset_error_status
open_log_file-full_stop_flag s t opens h = ground arith

posted_service :
    (s : NetworkConnection) → (post_connection_task_to_io_service s).io_service ≡ s.io_service
unfolding post_connection_task_to_io_service
posted_service s = ground arith

posted_socket :
    (s : NetworkConnection) → is_set (post_connection_task_to_io_service s).socket ≡ is_set s.socket
unfolding post_connection_task_to_io_service
posted_socket s = ground arith

posted_flag :
    (s : NetworkConnection)
    → (post_connection_task_to_io_service s).full_stop_flag ≡ s.full_stop_flag
unfolding post_connection_task_to_io_service
posted_flag s = ground arith

LoopStep-IsValid :
    (k : Stopper) (c d : Place × NetworkConnection) → LoopStep k c d → IsValid k c → IsValid k d
unfolding setup_session_resources attach_timers_to_io_service cleanup_session_resources
    detach_timers_from_io_service post_connection_task_to_io_service reset_error_status
LoopStep-IsValid k c d (leave s e) h = record {
  service = tt;
  flags = Flags-map k testing finished s s (λ f. f) (λ u. tt) h.flags;
}
LoopStep-IsValid k c d (enter s t opens e o) h = record {
  service = tt;
  flags =
      Flags-map k testing preparing s t (λ f. open_log_file-full_stop_flag s t opens o ∙ f)
        (λ u. tt) h.flags;
}
LoopStep-IsValid k c d (log_fails s opens e o) h = record {
  service = tt;
  flags = Flags-map k testing failed s (reset_error_status s) (λ f. f) (λ u. tt) h.flags;
}
LoopStep-IsValid k c d (break s e) h = record {
  service = tt;
  flags = Flags-map k preparing finished s s (λ f. f) (λ u. tt) h.flags;
}
LoopStep-IsValid k c d (prepare s e) h = record {
  service = record { stopped = false; io_service = refl; socket = refl };
  flags = Flags-absurd k preparing posting s _ e h.flags;
}
LoopStep-IsValid k c d (post s) h = record {
  service = record {
    stopped = h.service.stopped;
    io_service = posted_service s ∙ h.service.io_service;
    socket = posted_socket s ∙ h.service.socket;
  };
  flags =
      Flags-map k posting serving s _ (λ f. posted_flag s ∙ f) (λ u. posted_service s ∙ u) h.flags;
}
LoopStep-IsValid k c d (post_throws s) h = record {
  service = tt;
  flags = Flags-map k posting failed s s (λ f. f) (λ u. tt) h.flags;
}
LoopStep-IsValid k c d (serve s t buffer e i o) h =
    let keeps = handle-Keeps buffer s t e o in
    record {
      service = record {
        stopped = (keeps.service false i).0;
        io_service = (keeps.service false i).1;
        socket = keeps.socket h.service.socket;
      };
      flags = Flags-serving k s t keeps.full i h.flags;
    }
LoopStep-IsValid k c d (serve_ends s) h = record {
  service = tt;
  flags = Flags-map k serving ending s s (λ f. f) (λ u. tt) h.flags;
}
LoopStep-IsValid k c d (clean s) h = record {
  service = tt;
  flags = Flags-map k ending checking s _ (λ f. f) (λ u. tt) h.flags;
}
LoopStep-IsValid k c d (repeat s e) h = record {
  service = tt;
  flags = Flags-map k checking testing s s (λ f. f) (λ u. tt) h.flags;
}
LoopStep-IsValid k c d (finish s e) h = record {
  service = tt;
  flags = Flags-map k checking finished s s (λ f. f) (λ u. tt) h.flags;
}

abbrev pub IsSound : World → Type 0
IsSound w = IsValid w.stopper (w.place, w.connection)

closed-IsSetUp : (s : NetworkConnection) → IsSetUp s → IsSetUp (close_current_session s)
unfolding close_current_session cancel_all_timers
closed-IsSetUp s h = record {
  stopped = true;
  io_service = let service = h.io_service in ground arith;
  socket = let set = h.socket in ground arith;
}

close_current_session-HasService :
    (p : Place) (s : NetworkConnection) → HasService p s → HasService p (close_current_session s)
unfolding close_current_session cancel_all_timers
close_current_session-HasService posting s h = closed-IsSetUp s h
close_current_session-HasService serving s h = closed-IsSetUp s h
close_current_session-HasService testing s h = tt
close_current_session-HasService preparing s h = tt
close_current_session-HasService ending s h = tt
close_current_session-HasService checking s h = tt
close_current_session-HasService finished s h = tt
close_current_session-HasService failed s h = tt

close_current_session-HasStopped :
    (p : Place) (s : NetworkConnection) → HasService p s → HasStopped p (close_current_session s)
unfolding close_current_session cancel_all_timers
close_current_session-HasStopped posting s h = let service = h.io_service in ground arith
close_current_session-HasStopped serving s h = let service = h.io_service in ground arith
close_current_session-HasStopped testing s h = tt
close_current_session-HasStopped preparing s h = tt
close_current_session-HasStopped ending s h = tt
close_current_session-HasStopped checking s h = tt
close_current_session-HasStopped finished s h = tt
close_current_session-HasStopped failed s h = tt

begin_stop-HasService :
    (p : Place) (s : NetworkConnection)
    → HasService p s
    → HasService p (record (begin_stop s) { full_stop_flag = true })
unfolding begin_stop reset_error_status
begin_stop-HasService posting s h = record {
  stopped = h.stopped;
  io_service = h.io_service;
  socket = h.socket;
}
begin_stop-HasService serving s h = record {
  stopped = h.stopped;
  io_service = h.io_service;
  socket = h.socket;
}
begin_stop-HasService testing s h = tt
begin_stop-HasService preparing s h = tt
begin_stop-HasService ending s h = tt
begin_stop-HasService checking s h = tt
begin_stop-HasService finished s h = tt
begin_stop-HasService failed s h = tt

close_current_session-full_stop_flag :
    (s : NetworkConnection) → (close_current_session s).full_stop_flag ≡ s.full_stop_flag
unfolding close_current_session cancel_all_timers
close_current_session-full_stop_flag s = refl

pub Step-IsSound : (u v : World) → Step u v → IsSound u → IsSound v
Step-IsSound u v (loop k p q s t step) h = LoopStep-IsValid k (p, s) (q, t) step h
Step-IsSound u v (stop_flags p s) h = record {
  service = begin_stop-HasService p s h.service;
  flags = refl;
}
Step-IsSound u v (stop_closes p s) h = record {
  service = close_current_session-HasService p s h.service;
  flags = (
    close_current_session-full_stop_flag s ∙ h.flags,
    close_current_session-HasStopped p s h.service,
  );
}

pub Steps-IsSound : (n : ℕ) (u v : World) → Steps n u v → IsSound u → IsSound v
Steps-IsSound n u v (none_more w) h = h
Steps-IsSound n u v (then_step m x y z first rest) h =
    Steps-IsSound m y z rest (Step-IsSound x y first h)
