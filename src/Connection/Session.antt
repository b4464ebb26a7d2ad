-- ===== src/Connection/Session.antt =====
-- network/network-connection.cpp: the resources of one session, and the operations on its socket.
use toolchain_cpp.Common.{
  ℕ, ◌+◌, Bool, true, false, ◌&&◌, ◌||◌, not, [], ◌++◌, Option, none, some, leb, ◌==◌,
  if◌then◌else◌, Bytes, codes, length, Result, ok, undefined, ◌>>◌, af_assert, unless_throw,
}
use toolchain_cpp.Common.Int.{pos, ltb_ℤ}
use toolchain_cpp.Connection.{NetworkConnection, io_error, set_error_status, set_ok_status}
use toolchain_cpp.Connection.Timers.{
  attach_timers_to_io_service, detach_timers_from_io_service, cancel_all_timers,
}

abbrev pub is_set : Option Bool → Bool
is_set none = false
is_set (some b) = true

abbrev pub close_socket : Option Bool → Option Bool
close_socket none = none
close_socket (some is_open) = some false

abbrev pub stop_service : Option Bool → Option Bool
stop_service none = none
stop_service (some stopped) = some true

unfoldable pub close_current_session : NetworkConnection → NetworkConnection
close_current_session s =
    let s' = cancel_all_timers (record s { session_stop_flag = true }) in
    record s' { socket = close_socket s'.socket; io_service = stop_service s'.io_service }

unfoldable pub stop_work : NetworkConnection → NetworkConnection
stop_work s = close_current_session (record s { full_stop_flag = true })

unfoldable pub restart_iddle_timer : NetworkConnection → NetworkConnection
restart_iddle_timer s = if not s.iddle_timer then s else record s { waits = s.waits + 1 }

-- `buffer` is what `on_request_buffer` returns: the size of a buffer, or none.
unfoldable pub async_read_some_from_socket : Option ℕ → NetworkConnection → Result NetworkConnection
async_read_some_from_socket buffer s =
    af_assert (is_set s.socket)
    >> ok (elim buffer [
      | none ↦ s
      | some size ↦ record s { read_buffer_size = size; reads = s.reads + 1 }
    ])

unfoldable pub async_send_data : NetworkConnection → ℕ → Result NetworkConnection
async_send_data s octets = af_assert (is_set s.socket) >> ok (record s { writes = s.writes + 1 })

-- `sended` is the result of boost's `write`, and none is an exception of it.
unfoldable pub send_data : NetworkConnection → ℕ → Option ℕ → Result NetworkConnection
send_data s octets sended =
    let failed =
      close_current_session
        (set_error_status s io_error (codes "Failed to write data to the socket.")) in
    af_assert (is_set s.socket)
    >> ok (elim sended [
      | none ↦ failed
      | some n ↦ if n == octets then set_ok_status (restart_iddle_timer s) else failed
    ])

-- `opens` is whether the file is open behind `open`.
unfoldable pub open_log_file : NetworkConnection → Bool → Result NetworkConnection
open_log_file s opens =
    if leb (length s.raw_log_file_name) 0
    then ok s
    else unless_throw opens
      >> ok (record s {
        raw_log_file = true;
        log = if s.erase_raw_log_file && s.first_connection then [] else s.log;
      })

-- The octets of the read buffer that were received.
unfoldable pub write_buffer_to_log_file : NetworkConnection → Bytes → NetworkConnection
write_buffer_to_log_file s octets =
    if not s.raw_log_file then s else record s { log = s.log ++ octets }

unfoldable pub setup_session_resources : NetworkConnection → NetworkConnection
setup_session_resources s =
    let s' = record s {
      session_stop_flag = false;
      is_connected_flag = false;
      io_service = some false;
      system_signals = s.handle_signals || s.system_signals;
      iddle_timer = ltb_ℤ (pos 0) s.iddle_timeout_ms || s.iddle_timer;
    } in
    record (attach_timers_to_io_service s') { socket = some false }

unfoldable pub cleanup_session_resources : NetworkConnection → NetworkConnection
cleanup_session_resources s =
    let s' =
      detach_timers_from_io_service
        (record s { session_stop_flag = false; is_connected_flag = false; live_flag = false }) in
    record s' {
      iddle_timer = false;
      system_signals = false;
      socket = none;
      acceptor = false;
      endpoint = false;
      raw_log_file = false;
      io_service = none;
    }

-- The wait for a client of a host, or the connection of a client, when boost does not throw.
unfoldable pub post_connection_task_to_io_service : NetworkConnection → NetworkConnection
post_connection_task_to_io_service s =
    if leb (length s.ip) 0
    then record s { endpoint = true; acceptor = true; accepts = s.accepts + 1 }
    else record s { endpoint = true }

unfoldable pub new_accept : NetworkConnection → Result NetworkConnection
new_accept s =
    af_assert s.acceptor
    >> (if is_set s.socket
        then ok (record s {
          socket = close_socket s.socket;
          accepts = s.accepts + 1;
          new_accept_flag = false;
        })
        else undefined)
