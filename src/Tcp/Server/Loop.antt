-- ===== src/Tcp/Server/Loop.antt =====
-- `TcpServer::main_loop` as a thread of its own, whose steps interleave with the two halves of the calls of `stop`
-- from other threads and with what the sessions do, and the invariant of the states that it passes through. The
-- second half of a `stop` is not tied to a first one, so any number of calls can overlap.
use toolchain_cpp.Common.{
  List, Option, ℕ, ◌≡◌, refl, ◌∙◌, arith, Bool, true, false, [], some, ok, set, get_elem?,
}
use toolchain_cpp.Tcp.Session.{TcpSession}
use toolchain_cpp.Tcp.Session.Once.{Call, call}
use toolchain_cpp.Tcp.Server.{
  TcpServer, init, begin_stop, end_stop, close_server, asio_accept_handler, accepted,
}

-- Where the thread stands: before the test of the loop, before `init`, in `io_service->run()`, before
-- `close_server`, before the test that follows it, and behind the loop.
pub data Place : Type 0 where
  testing starting serving closing checking finished : Place

pub data Step (create_session : TcpSession) : Place × TcpServer → Place × TcpServer → Type 0 where
  enter :
      (s : TcpServer) → s.full_stop_flag ≡ false → Step create_session (testing, s) (starting, s)
  leave : (s : TcpServer) → s.full_stop_flag ≡ true → Step create_session (testing, s) (finished, s)
  start : (s : TcpServer) → Step create_session (starting, s) (serving, init create_session s)
  -- Binding the port throws: the service and the acceptor are new.
  start_throws :
      (s : TcpServer)
      → Step create_session
          (starting, s)
          (closing, record s { io_service = some false; acceptor = true })
  accept :
      (s t : TcpServer) (ec : Bool)
      → s.io_service ≡ some false
      → asio_accept_handler create_session s ec ≡ ok t
      → Step create_session (serving, s) (serving, t)
  -- A handler or a method of the session at `i`.
  use_session :
      (s : TcpServer) (i : ℕ) (session session' : TcpSession) (c : Call)
      → get_elem? s.sessions i ≡ some session
      → call session c ≡ ok session'
      → Step create_session
          (serving, s)
          (serving, record s { sessions = set s.sessions i session' })
  serve_ends :
      (s : TcpServer) → s.io_service ≡ some true → Step create_session (serving, s) (closing, s)
  -- A handler throws, and so does `io_service->run()`; it may have changed the sessions before.
  serve_throws :
      (s : TcpServer) (sessions : List TcpSession) (new_session : Option TcpSession)
      → Step create_session
          (serving, s)
          (closing, record s { sessions = sessions; new_session = new_session })
  close : (s : TcpServer) → Step create_session (closing, s) (checking, close_server s)
  break :
      (s : TcpServer) → s.full_stop_flag ≡ true → Step create_session (checking, s) (finished, s)
  repeat :
      (s : TcpServer) → s.full_stop_flag ≡ false → Step create_session (checking, s) (testing, s)
  stop_begins :
      (place : Place) (s : TcpServer) → Step create_session (place, s) (place, begin_stop s)
  stop_ends : (place : Place) (s : TcpServer) → Step create_session (place, s) (place, end_stop s)

pub data Steps (create_session : TcpSession) : Place × TcpServer → Place × TcpServer → Type 0 where
  none_more : (p : Place × TcpServer) → Steps create_session p p
  then_step :
      (p q r : Place × TcpServer)
      → Step create_session p q
      → Steps create_session q r
      → Steps create_session p r

abbrev pub At : Place → TcpServer → Type 0
At testing s = s.server_is_run ≡ false
At starting s = s.server_is_run ≡ false
At serving s = s.server_is_run ≡ true
At closing s = Unit
At checking s = s.server_is_run ≡ false
At finished s = (s.server_is_run ≡ false) × (s.full_stop_flag ≡ true)

-- A server that does not run has no sessions, and it runs in the place where it serves and in no other, with
-- the exception of the call of `close_server`.
pub record IsValid (p : Place × TcpServer) : Type 0 where
  pub stopped : p.1.server_is_run ≡ false → p.1.sessions ≡ []
  pub at : At p.0 p.1

asio_accept_handler-server_is_run :
    (create : TcpSession) (s t : TcpServer) (ec : Bool)
    → asio_accept_handler create s ec ≡ ok t
    → t.server_is_run ≡ s.server_is_run
unfolding asio_accept_handler accepted
asio_accept_handler-server_is_run create s t ec e = ground arith

begin_stop-At : (place : Place) (s : TcpServer) → At place s → At place (begin_stop s)
unfolding begin_stop
begin_stop-At testing s h = h
begin_stop-At starting s h = h
begin_stop-At serving s h = h
begin_stop-At closing s h = tt
begin_stop-At checking s h = h
begin_stop-At finished s h = h

end_stop-At : (place : Place) (s : TcpServer) → At place s → At place (end_stop s)
unfolding end_stop
end_stop-At testing s h = h
end_stop-At starting s h = h
end_stop-At serving s h = h
end_stop-At closing s h = tt
end_stop-At checking s h = h
end_stop-At finished s h = (h.0, refl)

Step-IsValid :
    (create : TcpSession) (p q : Place × TcpServer) → Step create p q → IsValid p → IsValid q
unfolding init begin_stop end_stop close_server
Step-IsValid create p q (enter s e) h = record { stopped = h.stopped; at = h.at }
Step-IsValid create p q (leave s e) h = record { stopped = h.stopped; at = (h.at, e) }
Step-IsValid create p q (start s) h = record { stopped = λ e. cc; at = refl }
Step-IsValid create p q (start_throws s) h = record { stopped = h.stopped; at = tt }
Step-IsValid create p q (accept s t ec _ e) h =
    let same = asio_accept_handler-server_is_run create s t ec e in
    record { stopped = λ f. absurd (ground arith); at = same ∙ h.at }
Step-IsValid create p q (use_session s i session session' c e f) h = record {
  stopped = λ f. absurd (ground arith);
  at = h.at;
}
Step-IsValid create p q (serve_ends s e) h = record { stopped = h.stopped; at = tt }
Step-IsValid create p q (serve_throws s sessions new_session) h = record {
  stopped = λ e. absurd (ground (arith, h.at));
  at = tt;
}
Step-IsValid create p q (close s) h = record { stopped = λ e. ground arith; at = ground arith }
Step-IsValid create p q (break s e) h = record { stopped = h.stopped; at = (h.at, e) }
Step-IsValid create p q (repeat s e) h = record { stopped = h.stopped; at = h.at }
Step-IsValid create p q (stop_begins place s) h = record {
  stopped = h.stopped;
  at = begin_stop-At place s h.at;
}
Step-IsValid create p q (stop_ends place s) h = record {
  stopped = h.stopped;
  at = end_stop-At place s h.at;
}

pub Steps-IsValid :
    (create_session : TcpSession) (p q : Place × TcpServer)
    → Steps create_session p q
    → IsValid p
    → IsValid q
Steps-IsValid create p q (none_more _) h = h
Steps-IsValid create p q (then_step _ q' r e es) h =
    Steps-IsValid create q' r es (Step-IsValid create p q' e h)

-- A server that is entered without sessions and not running, and leaves the main loop after any steps of the
-- loop, halves of calls of `stop` at any place and uses of its sessions, has been stopped, and has no sessions left.
pub finished_without_sessions :
    (create_session : TcpSession) (s t : TcpServer)
    → s.server_is_run ≡ false
    → s.sessions ≡ []
    → Steps create_session (testing, s) (finished, t)
    → (t.sessions ≡ []) × (t.full_stop_flag ≡ true) × (t.server_is_run ≡ false)
finished_without_sessions create s t r n steps =
    let h = Steps-IsValid create _ _ steps (record { stopped = λ e. n; at = r }) in
    (h.stopped h.at.0, h.at.1, h.at.0)
