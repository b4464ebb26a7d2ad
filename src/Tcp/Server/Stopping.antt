-- ===== src/Tcp/Server/Stopping.antt =====
-- What a call of `stop` does while the server serves, and where it is lost.
use toolchain_cpp.Common.{
  ℕ, ◌<◌, ◌≡◌, ◌⊎◌, inl, inr, refl, arith, Bool, true, false, [], none, some,
}
use toolchain_cpp.Tcp.Session.{TcpSession}
use toolchain_cpp.Tcp.Server.{TcpServer, begin_stop, end_stop, stop, close_server}
use toolchain_cpp.Tcp.Server.Loop.{
  Place, testing, starting, serving, closing, checking, finished, Step, enter, leave, start,
  start_throws, accept, use_session, serve_ends, serve_throws, close, break, repeat, stop_begins,
  stop_ends, Steps, none_more, then_step, IsValid,
}

-- How many steps of the thread are left once a `stop` has taken effect.
abbrev pub left : Place → ℕ
left serving = 3
left closing = 2
left checking = 1
left finished = 0
left _ = 4

-- The states that lead behind the loop.
abbrev Ending : Place → TcpServer → Type 0
Ending serving s = (s.full_stop_flag ≡ true) × (s.server_is_run ≡ true) × (s.io_service ≡ some true)
Ending closing s = (s.full_stop_flag ≡ true) × (s.server_is_run ≡ true)
Ending checking s = (s.full_stop_flag ≡ true) × (s.sessions ≡ []) × (s.io_service ≡ none)
Ending finished s = (s.full_stop_flag ≡ true) × (s.sessions ≡ []) × (s.io_service ≡ none)
Ending _ s = ⊥

begin_stop-Ending : (place : Place) (s : TcpServer) → Ending place s → Ending place (begin_stop s)
unfolding begin_stop
begin_stop-Ending testing s h = h
begin_stop-Ending starting s h = h
begin_stop-Ending serving s h = (h.0, h.1, ground (arith, h.2))
begin_stop-Ending closing s h = h
begin_stop-Ending checking s h = (h.0, h.1, ground (arith, h.2))
begin_stop-Ending finished s h = (h.0, h.1, ground (arith, h.2))

end_stop-Ending : (place : Place) (s : TcpServer) → Ending place s → Ending place (end_stop s)
unfolding end_stop
end_stop-Ending testing s h = h
end_stop-Ending starting s h = h
end_stop-Ending serving s h = (refl, h.1, h.2)
end_stop-Ending closing s h = (refl, h.1)
end_stop-Ending checking s h = (refl, h.1, h.2)
end_stop-Ending finished s h = (refl, h.1, h.2)

Step-Ending :
    (create : TcpSession) (p q : Place × TcpServer)
    → Step create p q
    → Ending p.0 p.1
    → Ending q.0 q.1 × ((q.0 ≡ p.0) ⊎ (left q.0 < left p.0))
unfolding close_server
Step-Ending create p q (enter s e) h = absurd h
Step-Ending create p q (leave s e) h = absurd h
Step-Ending create p q (start s) h = absurd h
Step-Ending create p q (start_throws s) h = absurd h
Step-Ending create p q (accept s t ec f e) h = absurd (ground (arith, h.2))
Step-Ending create p q (use_session s i session session' c e f) h = (h, inl refl)
Step-Ending create p q (serve_ends s e) h = ((h.0, h.1), inr (omega arith))
Step-Ending create p q (serve_throws s sessions new_session) h = ((h.0, h.1), inr (omega arith))
Step-Ending create p q (close s) h =
    ((ground (arith, h.0), ground (arith, h.1), ground (arith, h.1)), inr (omega arith))
Step-Ending create p q (break s e) h = (h, inr (omega arith))
Step-Ending create p q (repeat s e) h = absurd (ground (arith, h.0))
Step-Ending create p q (stop_begins place s) h = (begin_stop-Ending place s h, inl refl)
Step-Ending create p q (stop_ends place s) h = (end_stop-Ending place s h, inl refl)

Steps-Ending :
    (create : TcpSession) (p q : Place × TcpServer)
    → Steps create p q
    → Ending p.0 p.1
    → Ending q.0 q.1
Steps-Ending create p q (none_more _) h = h
Steps-Ending create p q (then_step _ r _ e es) h =
    Steps-Ending create r q es (Step-Ending create p r e h).0

-- No step leads back, and the thread has a step that leads on until it is behind the loop, without sessions and
-- without a service.
pub record Finishes (create_session : TcpSession) (p : Place × TcpServer) : Type 0 where
  pub nearer :
      (q : Place × TcpServer) → Step create_session p q → (q.0 ≡ p.0) ⊎ (left q.0 < left p.0)
  pub goes_on :
      ((p.0 ≡ finished)
        × (p.1.full_stop_flag ≡ true)
        × (p.1.sessions ≡ [])
        × (p.1.io_service ≡ none))
      ⊎ ((q : Place × TcpServer) × Step create_session p q × (left q.0 < left p.0))

goes_on_lem :
    (create : TcpSession) (place : Place) (s : TcpServer)
    → Ending place s
    → ((place ≡ finished) × (s.full_stop_flag ≡ true) × (s.sessions ≡ []) × (s.io_service ≡ none))
      ⊎ ((q : Place × TcpServer) × Step create (place, s) q × (left q.0 < left place))
goes_on_lem create testing s h = absurd h
goes_on_lem create starting s h = absurd h
goes_on_lem create serving s h = inr ((closing, s), serve_ends s h.2, omega arith)
goes_on_lem create closing s h = inr ((checking, close_server s), close s, omega arith)
goes_on_lem create checking s h = inr ((finished, s), break s h.0, omega arith)
goes_on_lem create finished s h = inl (refl, h.0, h.1, h.2)

-- Both halves of a call of `stop` fall while the server serves with the same service. Then, whatever follows, with
-- handlers, exceptions and further calls of `stop`, no step of the loop leads back, and as long as it is not behind its
-- end there is a step that leads on, of which it has at most three; behind it the server has no sessions and no service.
pub stop-Finishes :
    (create_session : TcpSession) (s : TcpServer) (stopped : Bool) (p : Place × TcpServer)
    → IsValid (serving, s)
    → s.io_service ≡ some stopped
    → Steps create_session (serving, stop s) p
    → Finishes create_session p
unfolding stop begin_stop end_stop
stop-Finishes create s stopped p h e steps =
    let ending = Steps-Ending create (serving, stop s) p steps (refl, h.at, ground arith) in
    record {
      nearer = λ q step. (Step-Ending create p q step ending).1;
      goes_on = goes_on_lem create p.0 p.1 ending;
    }

-- A state in which a call of `stop` has ended and is lost.
abbrev pub ServesOn : TcpServer → Type 0
ServesOn t = (t.full_stop_flag ≡ true) × (t.io_service ≡ some false)
