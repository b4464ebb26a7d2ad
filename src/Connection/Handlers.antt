-- ===== src/Connection/Handlers.antt =====
-- network/network-connection.cpp: the handlers that the service calls. The virtual methods are those of the
-- class itself, which do nothing; `buffer` is what `on_request_buffer` of the derived class returns.
use toolchain_cpp.Common.{
  ℕ, Bool, true, false, ◌||◌, not, Option, ◌==◌, if◌then◌else◌, Bytes, codes, Result, ok, ◌>>=◌,
}
use toolchain_cpp.Connection.{
  NetworkConnection, io_error, connect_error, connect_abort, connect_timeout, signal_error,
  set_error_status, set_ok_status,
}
use toolchain_cpp.Connection.Session.{
  close_current_session, stop_work, restart_iddle_timer, async_read_some_from_socket,
  write_buffer_to_log_file, new_accept,
}

-- The error codes that the handlers tell apart.
pub data ErrorCode : Type 0 where
  no_error operation_aborted connection_reset connection_aborted other_error : ErrorCode

-- The error branch of the handlers of a new connection.
abbrev pub connection_failed : NetworkConnection → ErrorCode → Bytes → NetworkConnection
connection_failed s no_error message = s
connection_failed s operation_aborted message = close_current_session s
connection_failed s _ message = set_error_status (close_current_session s) connect_error message

-- A connection of a session that goes on.
abbrev pub connected : Option ℕ → NetworkConnection → Result NetworkConnection
connected buffer s =
    async_read_some_from_socket buffer (record s { is_connected_flag = true }) >>= λ s'.
    ok (set_ok_status (restart_iddle_timer s'))

unfoldable pub asio_accept_handler :
    Option ℕ → NetworkConnection → ErrorCode → Result NetworkConnection
asio_accept_handler buffer s ec =
    let s' = connection_failed s ec (codes "Error while waiting for client connection.") in
    if s'.session_stop_flag then ok s' else connected buffer s'

unfoldable pub asio_connect_handler :
    Option ℕ → NetworkConnection → ErrorCode → Result NetworkConnection
asio_connect_handler buffer s ec =
    let s' = connection_failed s ec (codes "Unable connect to the host.") in
    if s'.session_stop_flag then ok s' else connected buffer s'

-- The error branch of the handlers of a transfer; the codes that it returns at once leave a session that is stopped.
abbrev pub transfer_failed : NetworkConnection → ErrorCode → Bytes → NetworkConnection
transfer_failed s connection_reset message =
    set_error_status (close_current_session s) connect_abort (codes "Connection reset by peer.")
transfer_failed s connection_aborted message =
    set_error_status (close_current_session s) connect_abort (codes "Connection aborted by peer.")
transfer_failed s operation_aborted message = close_current_session s
transfer_failed s _ message = set_error_status (close_current_session s) io_error message

abbrev pub is_error : ErrorCode → Bool
is_error no_error = false
is_error _ = true

-- Octets that arrived in a session that goes on.
abbrev pub received : Option ℕ → NetworkConnection → Bytes → Result NetworkConnection
received buffer s octets =
    let s' = write_buffer_to_log_file s octets in
    (if not s'.new_accept_flag then async_read_some_from_socket buffer s' else new_accept s')
    >>= λ t. ok (set_ok_status (restart_iddle_timer t))

unfoldable pub asio_read_handler :
    Option ℕ → NetworkConnection → ErrorCode → Bytes → Result NetworkConnection
asio_read_handler buffer s ec octets =
    let s' =
      if is_error ec
      then transfer_failed s ec (codes "An error occurred while reading data from the socket.")
      else s in
    if s'.session_stop_flag then ok s' else received buffer s' octets

unfoldable pub asio_write_handler : NetworkConnection → ErrorCode → ℕ → ℕ → NetworkConnection
asio_write_handler s ec octets_transferred octets_required =
    let s' =
      if is_error ec || not (octets_transferred == octets_required)
      then transfer_failed s ec (codes "Failed to write data to the socket.")
      else s in
    if s'.session_stop_flag then s' else set_ok_status (restart_iddle_timer s')

unfoldable pub asio_signal_handler : NetworkConnection → ErrorCode → NetworkConnection
asio_signal_handler s ec =
    if is_error ec
    then s
    else stop_work (set_error_status s signal_error (codes "Got the system signal."))

unfoldable pub asio_iddle_timer_handler : NetworkConnection → ErrorCode → NetworkConnection
asio_iddle_timer_handler s ec =
    if is_error ec
    then s
    else close_current_session (
        set_error_status s connect_timeout
          (codes "Timer expires due to inactivity of the network connection."))
