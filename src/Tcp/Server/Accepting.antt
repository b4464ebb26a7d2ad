-- ===== src/Tcp/Server/Accepting.antt =====
-- The sessions of the server after a connection has been accepted.
use toolchain_cpp.Common.{
  ◌+◌, ◌≡◌, inl, inr, refl, sym, ap, ◌∙◌, subst, arith, Bool, true, false, List, [], ◌∷◌, ◌++◌,
  some, ok, Bool-cases, All, append-nil,
}
use toolchain_cpp.Tcp.Session.{TcpSession, is_close, open_async_read, reset_connection_timeout}
use toolchain_cpp.Tcp.Server.{TcpServer, asio_accept_handler, accepted, remove_close_sessions}

remove_closed :
    (x : TcpSession) (xs : List TcpSession)
    → is_close x ≡ true
    → remove_close_sessions (x ∷ xs) ≡ remove_close_sessions xs
unfolding remove_close_sessions
remove_closed x xs h = ground arith

keep_open :
    (x : TcpSession) (xs : List TcpSession)
    → is_close x ≡ false
    → remove_close_sessions (x ∷ xs) ≡ x ∷ remove_close_sessions xs
unfolding remove_close_sessions
keep_open x xs h = ground arith

remove_close_sessions-append :
    (xs ys : List TcpSession)
    → remove_close_sessions (xs ++ ys) ≡ remove_close_sessions xs ++ remove_close_sessions ys
unfolding remove_close_sessions
remove_close_sessions-append [] ys = refl
remove_close_sessions-append (x ∷ xs) ys = elim (Bool-cases (is_close x)) [
  | inl h ↦
      rw (remove_closed x (xs ++ ys) h, remove_closed x xs h) (remove_close_sessions-append xs ys)
  | inr h ↦
      rw (keep_open x (xs ++ ys) h, keep_open x xs h)
        (ap (λ zs. x ∷ zs) (remove_close_sessions-append xs ys))
]

remove_close_sessions-open :
    (xs : List TcpSession) → All (λ x. is_close x ≡ false) (remove_close_sessions xs)
unfolding remove_close_sessions
remove_close_sessions-open [] = tt
remove_close_sessions-open (x ∷ xs) = elim (Bool-cases (is_close x)) [
  | inl h ↦ rw (remove_closed x xs h) (remove_close_sessions-open xs)
  | inr h ↦ rw (keep_open x xs h) (h, remove_close_sessions-open xs)
]

-- What an accepted connection adds to the list.
unfoldable pub joined : TcpSession → Bool → List TcpSession
joined session true = []
joined session false = reset_connection_timeout (record session { reads = session.reads + 1 }) ∷ []

joined-open :
    (session : TcpSession) (ec : Bool)
    → session.is_close_flag ≡ false
    → remove_close_sessions (joined session ec) ≡ joined session ec
unfolding joined remove_close_sessions reset_connection_timeout
joined-open session true h = refl
joined-open session false h = keep_open _ [] (ground arith)

asio_accept_handler-sessions :
    (create session : TcpSession) (s t : TcpServer) (ec : Bool)
    → s.new_session ≡ some session
    → asio_accept_handler create s ec ≡ ok t
    → t.sessions ≡ remove_close_sessions (s.sessions ++ joined session ec)
unfolding asio_accept_handler accepted open_async_read joined
asio_accept_handler-sessions create session s t true n e = rw (append-nil s.sessions) (ground arith)
asio_accept_handler-sessions create session s t false n e = ground arith

-- When `asio_accept_handler` returns, the list holds the sessions that were open before, in their order, and
-- then the accepted one, unless there was an error; no session in it is closed.
pub asio_accept_handler-open_sessions :
    (create_session session : TcpSession) (s t : TcpServer) (ec : Bool)
    → s.new_session ≡ some session
    → session.is_close_flag ≡ false
    → asio_accept_handler create_session s ec ≡ ok t
    → (t.sessions ≡ remove_close_sessions s.sessions ++ joined session ec)
      × All (λ x. is_close x ≡ false) t.sessions
asio_accept_handler-open_sessions create session s t ec n o e =
    let h = asio_accept_handler-sessions create session s t ec n e in
    (
      h
          ∙ remove_close_sessions-append s.sessions (joined session ec)
          ∙ ap (λ xs. remove_close_sessions s.sessions ++ xs) (joined-open session ec o),
      subst (λ xs. All (λ x. is_close x ≡ false) xs) (sym h)
          (remove_close_sessions-open (s.sessions ++ joined session ec)),
    )
