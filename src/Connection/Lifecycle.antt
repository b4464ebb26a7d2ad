-- ===== src/Connection/Lifecycle.antt =====
-- network/network-connection.cpp: the public operations that begin and end the work of a connection. `run` and
-- `async_loop` are what they do before and after the main loop.
use toolchain_cpp.Common.{
  ℕ, true, false, not, Option, [], none, some, if◌then◌else◌, Bytes, Result, ok, ◌>>◌, unless_throw,
}
use toolchain_cpp.Connection.{NetworkConnection, app_error, set_error_status, reset_error_status}
use toolchain_cpp.Connection.Session.{stop_work, cleanup_session_resources}

-- The clock is an argument.
unfoldable pub start_run : NetworkConnection → ℕ → Result NetworkConnection
start_run s now =
    unless_throw s.is_clean_to_run
    >> ok (record s {
      idle_flag = false;
      is_clean_to_run = false;
      is_run_flag = true;
      start_timestamp = now;
      start_flag = true;
    })

unfoldable pub run_async : NetworkConnection → ℕ → Result NetworkConnection
run_async s now =
    unless_throw s.is_clean_to_run
    >> ok (record s {
      idle_flag = false;
      is_clean_to_run = false;
      is_run_flag = true;
      start_timestamp = now;
      start_flag = true;
      async_thread = true;
    })

-- Behind the main loop; the message of an exception of it, if there was one.
unfoldable pub end_run : NetworkConnection → Option Bytes → NetworkConnection
end_run s thrown =
    let s' = record s {
      is_run_flag = false;
      is_connected_flag = false;
      live_flag = false;
      idle_flag = true;
    } in
    elim thrown [ none ↦ s' | some message ↦ set_error_status s' app_error message ]

-- `stop` up to `stop_work`, and as a whole.
unfoldable pub begin_stop : NetworkConnection → NetworkConnection
begin_stop s = reset_error_status (record s { is_clean_to_run = false; start_flag = false })

unfoldable pub stop : NetworkConnection → NetworkConnection
stop s = stop_work (begin_stop s)

-- The thread has ended when `join` returns.
unfoldable pub join : NetworkConnection → NetworkConnection
join s = record s { async_thread = false }

unfoldable pub reset : NetworkConnection → Result NetworkConnection
reset s =
    unless_throw (not s.async_thread)
    >> ok (record (cleanup_session_resources (reset_error_status s)) {
      read_buffer_size = 0;
      is_run_flag = false;
      session_stop_flag = false;
      full_stop_flag = false;
      first_connection = true;
      is_connected_flag = false;
      is_clean_to_run = true;
      start_flag = false;
      live_flag = false;
      idle_flag = true;
    })

unfoldable pub shutdown : NetworkConnection → NetworkConnection
shutdown s =
    if s.shutdown_flag
    then s
    else record (stop_work (record s { start_flag = false; live_flag = false })) {
      async_thread = false;
      timers = [];
      iddle_timer = false;
      system_signals = false;
      socket = none;
      acceptor = false;
      endpoint = false;
      raw_log_file = false;
      io_service = none;
      shutdown_flag = true;
    }
