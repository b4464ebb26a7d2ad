-- ===== src/Connection/Returning.antt =====
-- The assertions of the handlers hold in every session that the loop serves.
use toolchain_cpp.Common.{
  ℕ, Bool, true, false, not, Option, ◌≡◌, refl, if◌then◌else◌, Bytes, codes, Result, ok, ◌>>=◌,
  ◌>>◌, af_assert, ap, subst, arith, ◌∙◌,
}
use toolchain_cpp.Connection.{NetworkConnection, ErrorStatus, set_error_status, set_ok_status}
use toolchain_cpp.Connection.Handlers.{
  ErrorCode, no_error, operation_aborted, connection_reset, connection_aborted, other_error,
  connection_failed, connected, transfer_failed, received, is_error, asio_accept_handler,
  asio_connect_handler, asio_read_handler,
}
use toolchain_cpp.Connection.Loop.{
  Event, accept_done, connect_done, read_done, write_done, signal_done, idle_wait_done, handle,
  World, at, testing, serving, not_called, Steps,
}
use toolchain_cpp.Connection.Session.{
  is_set, close_current_session, restart_iddle_timer, async_read_some_from_socket,
  write_buffer_to_log_file, new_accept,
}
use toolchain_cpp.Connection.Stopping.{HasService, Steps-IsSound}
use toolchain_cpp.Connection.Timers.{cancel_all_timers}

abbrev Returns : Result NetworkConnection → Type 0
Returns r = (t : NetworkConnection) × (r ≡ ok t)

assert-Returns :
    (test : Bool) (s : NetworkConnection) → test ≡ true → Returns (af_assert test >> ok s)
assert-Returns true s h = (s, refl)
assert-Returns false s h = cc

bind-Returns :
    (m : Result NetworkConnection) (f : NetworkConnection → NetworkConnection)
    → Returns m
    → Returns (m >>= λ t. ok (f t))
bind-Returns m f (t, e) = (f t, ap (λ r. r >>= λ u. ok (f u)) e)

if-Returns :
    (b : Bool) (x y : Result NetworkConnection)
    → (b ≡ true → Returns x)
    → (b ≡ false → Returns y)
    → Returns (if b then x else y)
if-Returns true x y h k = h refl
if-Returns false x y h k = k refl

async_read-Returns :
    (buffer : Option ℕ) (s : NetworkConnection)
    → is_set s.socket ≡ true
    → Returns (async_read_some_from_socket buffer s)
unfolding async_read_some_from_socket
async_read-Returns buffer s h = assert-Returns (is_set s.socket) _ h

connected-Returns :
    (buffer : Option ℕ) (s : NetworkConnection)
    → is_set s.socket ≡ true
    → Returns (connected buffer s)
connected-Returns buffer s h =
    bind-Returns (async_read_some_from_socket buffer (record s { is_connected_flag = true }))
      (λ t. set_ok_status (restart_iddle_timer t))
      (async_read-Returns buffer (record s { is_connected_flag = true }) h)

log_keeps :
    (s : NetworkConnection) (octets : Bytes)
    → ((write_buffer_to_log_file s octets).socket ≡ s.socket)
      × ((write_buffer_to_log_file s octets).new_accept_flag ≡ s.new_accept_flag)
unfolding write_buffer_to_log_file
log_keeps s octets = (ground arith, ground arith)

received-Returns :
    (buffer : Option ℕ) (s : NetworkConnection) (octets : Bytes)
    → is_set s.socket ≡ true
    → s.new_accept_flag ≡ false
    → Returns (received buffer s octets)
received-Returns buffer s octets h k =
    let s' = write_buffer_to_log_file s octets in
    let keeps = log_keeps s octets in
    let same_flag : s'.new_accept_flag ≡ false = keeps.1 ∙ k in
    bind-Returns
      (if not s'.new_accept_flag then async_read_some_from_socket buffer s' else new_accept s')
      (λ t. set_ok_status (restart_iddle_timer t))
      (if-Returns (not s'.new_accept_flag) _ _
        (λ e. async_read-Returns buffer s' (ap is_set keeps.0 ∙ h)) (λ e. absurd (ground arith)))

-- What an error code leaves of the socket and of the flag of `new_accept`.
record Still (s t : NetworkConnection) : Type 0 where
  socket : is_set t.socket ≡ is_set s.socket
  new_accept : t.new_accept_flag ≡ s.new_accept_flag

Still-close : (s : NetworkConnection) → Still s (close_current_session s)
unfolding close_current_session cancel_all_timers
Still-close s = record { socket = ground arith; new_accept = refl }

Still-failure :
    (s : NetworkConnection) (reason : ErrorStatus) (m : Bytes)
    → Still s (set_error_status (close_current_session s) reason m)
unfolding set_error_status
Still-failure s reason m =
    let k = Still-close s in
    let socket = k.socket in
    let flag = k.new_accept in record { socket = ground arith; new_accept = ground arith }

Still-connection_failed :
    (s : NetworkConnection) (ec : ErrorCode) (m : Bytes) → Still s (connection_failed s ec m)
Still-connection_failed s no_error m = record { socket = refl; new_accept = refl }
Still-connection_failed s operation_aborted m = Still-close s
Still-connection_failed s connection_reset m = Still-failure s _ m
Still-connection_failed s connection_aborted m = Still-failure s _ m
Still-connection_failed s other_error m = Still-failure s _ m

Still-transfer_failed :
    (s : NetworkConnection) (ec : ErrorCode) (m : Bytes) → Still s (transfer_failed s ec m)
Still-transfer_failed s no_error m = Still-failure s _ m
Still-transfer_failed s operation_aborted m = Still-close s
Still-transfer_failed s connection_reset m = Still-failure s _ _
Still-transfer_failed s connection_aborted m = Still-failure s _ _
Still-transfer_failed s other_error m = Still-failure s _ m

Still-if : (b : Bool) (s t : NetworkConnection) → Still s t → Still s (if b then t else s)
Still-if true s t k = k
Still-if false s t k = record { socket = refl; new_accept = refl }

unless_ended-Returns :
    (s : NetworkConnection) (next : Result NetworkConnection)
    → Returns next
    → Returns (if s.session_stop_flag then ok s else next)
unless_ended-Returns s next h = if-Returns s.session_stop_flag (ok s) next (λ e. (s, refl)) (λ e. h)

handle-Returns :
    (buffer : Option ℕ) (s : NetworkConnection) (e : Event)
    → is_set s.socket ≡ true
    → s.new_accept_flag ≡ false
    → Returns (handle buffer s e)
unfolding handle asio_accept_handler asio_connect_handler asio_read_handler
handle-Returns buffer s (accept_done ec) h k =
    let message = codes "Error while waiting for client connection." in
    let s' = connection_failed s ec message in
    let still = Still-connection_failed s ec message in
    unless_ended-Returns s' (connected buffer s') (connected-Returns buffer s' (still.socket ∙ h))
handle-Returns buffer s (connect_done ec) h k =
    let message = codes "Unable connect to the host." in
    let s' = connection_failed s ec message in
    let still = Still-connection_failed s ec message in
    unless_ended-Returns s' (connected buffer s') (connected-Returns buffer s' (still.socket ∙ h))
handle-Returns buffer s (read_done ec octets) h k =
    let message = codes "An error occurred while reading data from the socket." in
    let failed = transfer_failed s ec message in
    let s' = if is_error ec then failed else s in
    let still = Still-if (is_error ec) s failed (Still-transfer_failed s ec message) in
    unless_ended-Returns s' (received buffer s' octets)
      (received-Returns buffer s' octets (still.socket ∙ h) (still.new_accept ∙ k))
handle-Returns buffer s (write_done ec n m) h k = (_, refl)
handle-Returns buffer s (signal_done ec) h k = (_, refl)
handle-Returns buffer s (idle_wait_done ec) h k = (_, refl)

-- In every session that the loop serves, from its beginning and through any handlers, reconnections and a `stop`, each handler
-- returns, unless the derived class has asked for a new accept: its assertion that there is a socket holds.
pub serving-Returns :
    (s : NetworkConnection) (n : ℕ) (w : World) (buffer : Option ℕ) (e : Event)
    → Steps n (at testing not_called s) w
    → w.place ≡ serving
    → w.connection.new_accept_flag ≡ false
    → (t : NetworkConnection) × (handle buffer w.connection e ≡ ok t)
serving-Returns s n w buffer e steps p k =
    let sound =
      Steps-IsSound n (at testing not_called s) w steps (record { service = tt; flags = tt }) in
    let set_up = subst (λ q. HasService q w.connection) p sound.service in
    handle-Returns buffer w.connection e set_up.socket k
