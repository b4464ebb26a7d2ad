-- ===== src/Connection/Errors.antt =====
-- The error of a session: the first one that is reported stays until the next session or `stop`.
use toolchain_cpp.Common.{
  ℕ, Bool, true, false, not, ◌||◌, ◌==◌, Option, ◌≡◌, refl, sym, ◌∙◌, subst, if◌then◌else◌, if_true,
  Bytes, codes, Result, ok, ok-injective,
}
use toolchain_cpp.Connection.{
  NetworkConnection, ErrorStatus, signal_error, connect_timeout, set_error_status,
}
use toolchain_cpp.Connection.Handlers.{
  ErrorCode, no_error, operation_aborted, connection_reset, connection_aborted, other_error,
  connection_failed, transfer_failed, is_error, asio_accept_handler, asio_connect_handler,
  asio_read_handler, asio_write_handler, asio_signal_handler, asio_iddle_timer_handler,
}
use toolchain_cpp.Connection.Loop.{
  Event, accept_done, connect_done, read_done, write_done, signal_done, idle_wait_done, handle,
}
use toolchain_cpp.Connection.Session.{close_current_session, stop_work}
use toolchain_cpp.Connection.Timers.{cancel_all_timers}

-- A session that has ended with an error.
pub record HasFailed (s : NetworkConnection) : Type 0 where
  pub ended : s.session_stop_flag ≡ true
  pub flagged : s.error_flag ≡ true

-- The error is the same in both.
pub record SameError (s t : NetworkConnection) : Type 0 where
  pub message : t.error_message ≡ s.error_message
  pub status : t.error_status ≡ s.error_status
  pub failed : HasFailed t

SameError-close : (s : NetworkConnection) → HasFailed s → SameError s (close_current_session s)
unfolding close_current_session cancel_all_timers
SameError-close s h = record {
  message = refl;
  status = refl;
  failed = record { ended = refl; flagged = h.flagged };
}

SameError-stop_work : (s : NetworkConnection) → HasFailed s → SameError s (stop_work s)
unfolding close_current_session cancel_all_timers stop_work
SameError-stop_work s h = record {
  message = refl;
  status = refl;
  failed = record { ended = refl; flagged = h.flagged };
}

SameError-refl : (s : NetworkConnection) → HasFailed s → SameError s s
SameError-refl s h = record { message = refl; status = refl; failed = h }

set_error_status-failed :
    (s : NetworkConnection) (reason : ErrorStatus) (m : Bytes)
    → s.error_flag ≡ true
    → set_error_status s reason m ≡ s
unfolding set_error_status
set_error_status-failed s reason m h = if_true s.error_flag s _ h

-- Where the session has ended, the failure of a handler changes nothing more of the error.
SameError-failure :
    (s : NetworkConnection) (reason : ErrorStatus) (m : Bytes)
    → HasFailed s
    → SameError s (set_error_status (close_current_session s) reason m)
SameError-failure s reason m h =
    let closed = SameError-close s h in
    subst (λ u. SameError s u)
      (sym (set_error_status-failed (close_current_session s) reason m closed.failed.flagged))
      closed

SameError-connection_failed :
    (s : NetworkConnection) (ec : ErrorCode) (m : Bytes)
    → HasFailed s
    → SameError s (connection_failed s ec m)
SameError-connection_failed s no_error m h = SameError-refl s h
SameError-connection_failed s operation_aborted m h = SameError-close s h
SameError-connection_failed s connection_reset m h = SameError-failure s _ m h
SameError-connection_failed s connection_aborted m h = SameError-failure s _ m h
SameError-connection_failed s other_error m h = SameError-failure s _ m h

SameError-transfer_failed :
    (s : NetworkConnection) (ec : ErrorCode) (m : Bytes)
    → HasFailed s
    → SameError s (transfer_failed s ec m)
SameError-transfer_failed s no_error m h = SameError-failure s _ m h
SameError-transfer_failed s operation_aborted m h = SameError-close s h
SameError-transfer_failed s connection_reset m h = SameError-failure s _ _ h
SameError-transfer_failed s connection_aborted m h = SameError-failure s _ _ h
SameError-transfer_failed s other_error m h = SameError-failure s _ m h

SameError-if :
    (b : Bool) (s x y : NetworkConnection)
    → SameError s x
    → SameError s y
    → SameError s (if b then x else y)
SameError-if true s x y h k = h
SameError-if false s x y h k = k

-- A handler that stops at a session that has ended stops here.
SameError-unless_ended :
    (s s' t : NetworkConnection) (next : Result NetworkConnection)
    → SameError s s'
    → (if s'.session_stop_flag then ok s' else next) ≡ ok t
    → SameError s t
SameError-unless_ended s s' t next k h =
    subst (λ u. SameError s u)
      (ok-injective (sym (if_true s'.session_stop_flag (ok s') next k.failed.ended) ∙ h)) k

-- In a session that has ended with an error, a handler that returns, whatever it was called with, leaves the message and the
-- status of that error, and the session as one that has ended with an error.
pub handle-SameError :
    (buffer : Option ℕ) (s t : NetworkConnection) (e : Event)
    → HasFailed s
    → handle buffer s e ≡ ok t
    → SameError s t
unfolding handle asio_accept_handler asio_connect_handler asio_read_handler asio_write_handler
    asio_signal_handler asio_iddle_timer_handler
handle-SameError buffer s t (accept_done ec) f h =
    SameError-unless_ended s _ t _ (SameError-connection_failed s ec _ f) h
handle-SameError buffer s t (connect_done ec) f h =
    SameError-unless_ended s _ t _ (SameError-connection_failed s ec _ f) h
handle-SameError buffer s t (read_done ec octets) f h =
    SameError-unless_ended s _ t _
      (SameError-if (is_error ec) s _ s (SameError-transfer_failed s ec _ f) (SameError-refl s f)) h
handle-SameError buffer s t (write_done ec n m) f h =
    let failed = transfer_failed s ec (codes "Failed to write data to the socket.") in
    let s' = if is_error ec || not (n == m) then failed else s in
    let k =
      SameError-if (is_error ec || not (n == m)) s failed s (SameError-transfer_failed s ec _ f)
        (SameError-refl s f) in
    subst (λ u. SameError s u)
      (sym (if_true s'.session_stop_flag s' _ k.failed.ended) ∙ ok-injective h) k
handle-SameError buffer s t (signal_done ec) f h =
    let kept =
      sym (set_error_status-failed s signal_error (codes "Got the system signal.") f.flagged) in
    subst (λ u. SameError s u) (ok-injective h)
      (SameError-if (is_error ec) s s _ (SameError-refl s f)
        (subst (λ u. SameError s (stop_work u)) kept (SameError-stop_work s f)))
handle-SameError buffer s t (idle_wait_done ec) f h =
    let kept = sym (set_error_status-failed s connect_timeout _ f.flagged) in
    subst (λ u. SameError s u) (ok-injective h)
      (SameError-if (is_error ec) s s _ (SameError-refl s f)
        (subst (λ u. SameError s (close_current_session u)) kept (SameError-close s f)))
