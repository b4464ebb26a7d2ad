-- ===== src/Connection/Keeping.antt =====
-- What the handlers leave alone: none of them clears the flag of `stop` or destroys the service or the socket.
use toolchain_cpp.Common.{
  ℕ, Bool, true, false, ◌||◌, not, Option, none, some, ◌==◌, ◌≡◌, refl, ◌∙◌, subst, inl, inr,
  if◌then◌else◌, Bytes, codes, Result, ok, bind-Passes, ok-injective, arith, Bool-cases, if-cases,
  ◌+◌,
}
use toolchain_cpp.Connection.{
  NetworkConnection, ErrorStatus, signal_error, connect_timeout, set_error_status, set_ok_status,
}
use toolchain_cpp.Connection.Handlers.{
  ErrorCode, no_error, operation_aborted, connection_reset, connection_aborted, other_error,
  connection_failed, connected, transfer_failed, received, is_error, asio_accept_handler,
  asio_connect_handler, asio_read_handler, asio_write_handler, asio_signal_handler,
  asio_iddle_timer_handler,
}
use toolchain_cpp.Connection.Loop.{
  Event, accept_done, connect_done, read_done, write_done, signal_done, idle_wait_done, handle,
}
use toolchain_cpp.Connection.Session.{
  is_set, close_current_session, stop_work, restart_iddle_timer, async_read_some_from_socket,
  write_buffer_to_log_file, new_accept,
}
use toolchain_cpp.Connection.Timers.{cancel_all_timers}

pub record Keeps (s t : NetworkConnection) : Type 0 where
  pub full : s.full_stop_flag ≡ true → t.full_stop_flag ≡ true
  pub service :
      (b : Bool) → s.io_service ≡ some b → (stopped : Bool) × (t.io_service ≡ some stopped)
  pub socket : is_set s.socket ≡ true → is_set t.socket ≡ true
  pub acceptor : t.acceptor ≡ s.acceptor

Keeps-refl : (s : NetworkConnection) → Keeps s s
Keeps-refl s = record { full = λ h. h; service = λ b h. (b, h); socket = λ h. h; acceptor = refl }

Keeps-trans : {s t u : NetworkConnection} → Keeps s t → Keeps t u → Keeps s u
Keeps-trans k l = record {
  full = λ h. l.full (k.full h);
  service = λ b h. let (c, e) = k.service b h in l.service c e;
  socket = λ h. l.socket (k.socket h);
  acceptor = l.acceptor ∙ k.acceptor;
}

Keeps-close : (s : NetworkConnection) → Keeps s (close_current_session s)
unfolding close_current_session cancel_all_timers
Keeps-close s = record {
  full = λ h. h;
  service = λ b h. (true, rw h refl);
  socket = λ h. ground arith;
  acceptor = refl;
}

Keeps-stop_work : (s : NetworkConnection) → Keeps s (stop_work s)
unfolding close_current_session cancel_all_timers stop_work
Keeps-stop_work s = record {
  full = λ h. refl;
  service = λ b h. (true, rw h refl);
  socket = λ h. ground arith;
  acceptor = refl;
}

Keeps-set_ok_status : (s : NetworkConnection) → Keeps s (set_ok_status (restart_iddle_timer s))
unfolding set_ok_status restart_iddle_timer
Keeps-set_ok_status s = elim (Bool-cases s.iddle_timer) [
  | inl e ↦ record {
    full = λ h. ground arith;
    service = λ b h. (b, ground arith);
    socket = λ h. ground arith;
    acceptor = ground arith;
  }
  | inr e ↦ record {
    full = λ h. ground arith;
    service = λ b h. (b, ground arith);
    socket = λ h. ground arith;
    acceptor = ground arith;
  }
]

Keeps-set_error_status :
    (s : NetworkConnection) (reason : ErrorStatus) (m : Bytes)
    → Keeps s (set_error_status s reason m)
unfolding set_error_status
Keeps-set_error_status s reason m = record {
  full = λ h. ground arith;
  service = λ b h. (b, ground arith);
  socket = λ h. ground arith;
  acceptor = ground arith;
}

Keeps-failure :
    (s : NetworkConnection) (reason : ErrorStatus) (m : Bytes)
    → Keeps s (set_error_status (close_current_session s) reason m)
Keeps-failure s reason m =
    Keeps-trans (Keeps-close s) (Keeps-set_error_status (close_current_session s) reason m)

Keeps-connection_failed :
    (s : NetworkConnection) (ec : ErrorCode) (m : Bytes) → Keeps s (connection_failed s ec m)
Keeps-connection_failed s no_error m = Keeps-refl s
Keeps-connection_failed s operation_aborted m = Keeps-close s
Keeps-connection_failed s connection_reset m = Keeps-failure s _ m
Keeps-connection_failed s connection_aborted m = Keeps-failure s _ m
Keeps-connection_failed s other_error m = Keeps-failure s _ m

Keeps-transfer_failed :
    (s : NetworkConnection) (ec : ErrorCode) (m : Bytes) → Keeps s (transfer_failed s ec m)
Keeps-transfer_failed s no_error m = Keeps-failure s _ m
Keeps-transfer_failed s operation_aborted m = Keeps-close s
Keeps-transfer_failed s connection_reset m = Keeps-failure s _ _
Keeps-transfer_failed s connection_aborted m = Keeps-failure s _ _
Keeps-transfer_failed s other_error m = Keeps-failure s _ m

Keeps-async_read :
    (buffer : Option ℕ) (s t : NetworkConnection)
    → async_read_some_from_socket buffer s ≡ ok t
    → Keeps s t
unfolding async_read_some_from_socket
Keeps-async_read none s t h =
    let same : s ≡ t = ground arith in subst (λ u. Keeps s u) same (Keeps-refl s)
Keeps-async_read (some size) s t h =
    let same : record s { read_buffer_size = size; reads = s.reads + 1 } ≡ t = ground arith in
    subst (λ u. Keeps s u) same
      (record { full = λ e. e; service = λ b e. (b, e); socket = λ e. e; acceptor = refl })

Keeps-connected :
    (buffer : Option ℕ) (s t : NetworkConnection) → connected buffer s ≡ ok t → Keeps s t
Keeps-connected buffer s t h =
    let r =
      bind-Passes _ (async_read_some_from_socket buffer (record s { is_connected_flag = true }))
        h in
    let start : Keeps s (record s { is_connected_flag = true }) = record {
      full = λ e. e;
      service = λ b e. (b, e);
      socket = λ e. e;
      acceptor = refl;
    } in
    Keeps-trans start (
      Keeps-trans (Keeps-async_read buffer _ r.between r.before)
        (subst (λ u. Keeps r.between u) (ok-injective r.after) (Keeps-set_ok_status r.between)))

Keeps-log : (s : NetworkConnection) (octets : Bytes) → Keeps s (write_buffer_to_log_file s octets)
unfolding write_buffer_to_log_file
Keeps-log s octets = record {
  full = λ h. ground arith;
  service = λ b h. (b, ground arith);
  socket = λ h. ground arith;
  acceptor = ground arith;
}

Keeps-new_accept : (s t : NetworkConnection) → new_accept s ≡ ok t → Keeps s t
unfolding new_accept
Keeps-new_accept s t h = record {
  full = λ e. ground arith;
  service = λ b e. (b, ground arith);
  socket = λ e. ground arith;
  acceptor = ground arith;
}

Keeps-received :
    (buffer : Option ℕ) (s t : NetworkConnection) (octets : Bytes)
    → received buffer s octets ≡ ok t
    → Keeps s t
Keeps-received buffer s t octets h =
    let s' = write_buffer_to_log_file s octets in
    let r =
      bind-Passes _
        (if not s'.new_accept_flag then async_read_some_from_socket buffer s' else new_accept s')
        h in
    let last =
      subst (λ u. Keeps r.between u) (ok-injective r.after) (Keeps-set_ok_status r.between) in
    let middle : Keeps s' r.between = elim (if-cases (not s'.new_accept_flag) _ _ r.before) [
      | inl (_, e) ↦ Keeps-async_read buffer s' r.between e
      | inr (_, e) ↦ Keeps-new_accept s' r.between e
    ] in
    Keeps-trans (Keeps-log s octets) (Keeps-trans middle last)

-- A handler that stops at a session that has ended, or goes on with `next`.
Keeps-unless_ended :
    (s s' t : NetworkConnection) (next : Result NetworkConnection)
    → Keeps s s'
    → (next ≡ ok t → Keeps s' t)
    → (if s'.session_stop_flag then ok s' else next) ≡ ok t
    → Keeps s t
Keeps-unless_ended s s' t next k n h = elim (if-cases s'.session_stop_flag (ok s') next h) [
  | inl (_, e) ↦ subst (λ u. Keeps s u) (ok-injective e) k
  | inr (_, e) ↦ Keeps-trans k (n e)
]

Keeps-if : (b : Bool) (s s' : NetworkConnection) → Keeps s s' → Keeps s (if b then s' else s)
Keeps-if true s s' k = k
Keeps-if false s s' k = Keeps-refl s

Keeps-else : (b : Bool) (s s' : NetworkConnection) → Keeps s s' → Keeps s (if b then s else s')
Keeps-else true s s' k = Keeps-refl s
Keeps-else false s s' k = k

pub handle-Keeps :
    (buffer : Option ℕ) (s t : NetworkConnection) (e : Event) → handle buffer s e ≡ ok t → Keeps s t
unfolding handle asio_accept_handler asio_connect_handler asio_read_handler asio_write_handler
    asio_signal_handler asio_iddle_timer_handler
handle-Keeps buffer s t (accept_done ec) h =
    Keeps-unless_ended s _ t _ (Keeps-connection_failed s ec _) (Keeps-connected buffer _ t) h
handle-Keeps buffer s t (connect_done ec) h =
    Keeps-unless_ended s _ t _ (Keeps-connection_failed s ec _) (Keeps-connected buffer _ t) h
handle-Keeps buffer s t (read_done ec octets) h =
    Keeps-unless_ended s _ t _ (Keeps-if (is_error ec) s _ (Keeps-transfer_failed s ec _))
      (λ e. Keeps-received buffer _ t octets e) h
handle-Keeps buffer s t (write_done ec n m) h =
    let failed = transfer_failed s ec (codes "Failed to write data to the socket.") in
    let s' = if is_error ec || not (n == m) then failed else s in
    let first = Keeps-if (is_error ec || not (n == m)) s failed (Keeps-transfer_failed s ec _) in
    elim (if-cases s'.session_stop_flag s' _ (ok-injective h)) [
      | inl (_, e) ↦ subst (λ u. Keeps s u) e first
      | inr (_, e) ↦ Keeps-trans first (subst (λ u. Keeps s' u) e (Keeps-set_ok_status s'))
    ]
handle-Keeps buffer s t (signal_done ec) h =
    subst (λ u. Keeps s u) (ok-injective h)
      (Keeps-else (is_error ec) s _
        (Keeps-trans (Keeps-set_error_status s signal_error _) (Keeps-stop_work _)))
handle-Keeps buffer s t (idle_wait_done ec) h =
    subst (λ u. Keeps s u) (ok-injective h)
      (Keeps-else (is_error ec) s _
        (Keeps-trans (Keeps-set_error_status s connect_timeout _) (Keeps-close _)))
