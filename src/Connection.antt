-- ===== src/Connection.antt =====
-- network/network-connection.cpp: the state of `NetworkConnection`, its settings and its error status. The flags
-- of boost's objects that the code asks for are kept: whether the service is stopped, whether the socket is
-- open; the waits, reads and accepts that were started are counted. Strings in the log file are octets.
pub mod Timers
pub mod Handles
pub mod Session
pub mod Handlers
pub mod Lifecycle
pub mod Loop
pub mod Keeping
pub mod Stopping
pub mod Finishing
pub mod Errors
pub mod Returning
mod Examples
use toolchain_cpp.Common.{
  ℕ, suc, ◌+◌, Bool, true, false, ◌&&◌, ◌||◌, not, List, [], ◌∷◌, ◌++◌, Option, none, some, ltb,
  leb, if◌then◌else◌, Bytes, codes, length, Result, ok, raised, ◌>>◌, unless_throw, af_assert,
}
use toolchain_cpp.Common.Int.{ℤ, pos, sub_ℕ}

-- network/asio-timer.hpp: a timer, with the waits that were started since it was attached, if it is attached.
pub record AsioTimer : Type 0 where
  pub handle : ℕ
  pub timer : Option ℕ

pub data ErrorStatus : Type 0 where
  status_ok idle io_error connect_error connect_abort connect_timeout signal_error app_error :
      ErrorStatus

abbrev pub error_desc : ErrorStatus → Bytes
error_desc status_ok = codes "ok"
error_desc idle = codes "idle"
error_desc io_error = codes "io_error"
error_desc connect_error = codes "connect_error"
error_desc connect_abort = codes "connect_abort"
error_desc connect_timeout = codes "connect_timeout"
error_desc signal_error = codes "signal_error"
error_desc app_error = codes "app_error"

-- `socket` is whether it is open, if there is one. `log` is what the log file holds.
pub record NetworkConnection : Type 0 where
  pub ip : Bytes
  pub raw_log_file_name : Bytes
  pub erase_raw_log_file : Bool
  pub first_connection : Bool
  pub iddle_timeout_ms : ℤ
  pub read_buffer_size : ℕ
  pub full_stop_flag : Bool
  pub is_run_flag : Bool
  pub is_connected_flag : Bool
  pub session_stop_flag : Bool
  pub reconnection_flag : Bool
  pub handle_signals : Bool
  pub is_clean_to_run : Bool
  pub shutdown_flag : Bool
  pub async_thread : Bool
  pub io_service : Option Bool
  pub system_signals : Bool
  pub iddle_timer : Bool
  pub socket : Option Bool
  pub endpoint : Bool
  pub acceptor : Bool
  pub raw_log_file : Bool
  pub log : Bytes
  pub timers : List AsioTimer
  pub start_timestamp : ℕ
  pub last_live_timestamp : ℕ
  pub live_flag : Bool
  pub start_flag : Bool
  pub idle_flag : Bool
  pub new_accept_flag : Bool
  pub error_message : Bytes
  pub error_flag : Bool
  pub error_status : ErrorStatus
  pub reads : ℕ
  pub writes : ℕ
  pub accepts : ℕ
  pub waits : ℕ

-- The constructor of a client, and that of a host for the empty `ip`: the members that a constructor leaves
-- without a value are arguments.
abbrev pub initial : Bytes → Bool → ErrorStatus → NetworkConnection
initial ip new_accept error_status = record {
  ip = ip;
  raw_log_file_name = [];
  erase_raw_log_file = false;
  first_connection = true;
  iddle_timeout_ms = pos 0;
  read_buffer_size = 0;
  full_stop_flag = false;
  is_run_flag = false;
  is_connected_flag = false;
  session_stop_flag = false;
  reconnection_flag = false;
  handle_signals = false;
  is_clean_to_run = true;
  shutdown_flag = false;
  async_thread = false;
  io_service = none;
  system_signals = false;
  iddle_timer = false;
  socket = none;
  endpoint = false;
  acceptor = false;
  raw_log_file = false;
  log = [];
  timers = [];
  start_timestamp = 0;
  last_live_timestamp = 0;
  live_flag = false;
  start_flag = false;
  idle_flag = true;
  new_accept_flag = new_accept;
  error_message = [];
  error_flag = false;
  error_status = error_status;
  reads = 0;
  writes = 0;
  accepts = 0;
  waits = 0;
}

abbrev pub startup_timeout : ℕ
startup_timeout = 60000

abbrev pub live_timeout : ℕ
live_timeout = 45000

-- `held` is what the file of the new name holds.
pub set_raw_log_file : NetworkConnection → Bytes → Bytes → Bool → NetworkConnection
set_raw_log_file s file_name held erase = record s {
  raw_log_file = false;
  raw_log_file_name = file_name;
  erase_raw_log_file = erase;
  log = held;
}

pub set_reconnection_mode : NetworkConnection → Bool → NetworkConnection
set_reconnection_mode s auto_reconnect = record s { reconnection_flag = auto_reconnect }

pub set_handle_signals_mode : NetworkConnection → Bool → NetworkConnection
set_handle_signals_mode s mode = record s { handle_signals = mode }

-- The conversion of `uint64_t` to `int64_t`.
pub set_timeout : NetworkConnection → ℕ → NetworkConnection
set_timeout s timeout_ms = record s {
  iddle_timeout_ms =
      if ltb timeout_ms 9223372036854775808
      then pos timeout_ms
      else sub_ℕ timeout_ms 18446744073709551616;
}

-- The clock is an argument, in milliseconds.
unfoldable pub is_live_stream : NetworkConnection → ℕ → Bool
is_live_stream s now = s.live_flag && leb now (s.last_live_timestamp + live_timeout)

unfoldable pub possible_need_restart : NetworkConnection → ℕ → Bool
possible_need_restart s now =
    if not s.start_flag
    then false
    else if not s.live_flag
    then ltb (s.start_timestamp + startup_timeout) now
    else ltb (s.last_live_timestamp + live_timeout) now

unfoldable pub update_live_timestamp : NetworkConnection → ℕ → NetworkConnection
update_live_timestamp s now = record s { live_flag = true; last_live_timestamp = now }

abbrev pub status_after : ErrorStatus → ErrorStatus → ErrorStatus
status_after app_error status_ok = app_error
status_after app_error idle = app_error
status_after app_error current = current
status_after status current = status

unfoldable pub set_error_status : NetworkConnection → ErrorStatus → Bytes → NetworkConnection
set_error_status s status message = if s.error_flag then s else record s {
  error_message = message;
  error_flag = true;
  error_status = status_after status s.error_status;
}

unfoldable pub reset_error_status : NetworkConnection → NetworkConnection
reset_error_status s = record s { error_message = []; error_flag = false; error_status = idle }

unfoldable pub set_ok_status : NetworkConnection → NetworkConnection
set_ok_status s = record s { error_status = status_ok }

abbrev pub is_status_ok : ErrorStatus → Bool
is_status_ok status_ok = true
is_status_ok _ = false

unfoldable pub get_error_status : NetworkConnection → ℕ → Bytes
get_error_status s now =
    if is_live_stream s now
    then codes "ok"
    else if not (is_status_ok s.error_status)
    then error_desc s.error_status
    else error_desc app_error
