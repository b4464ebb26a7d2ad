-- ===== src/Tcp/Session.antt =====
-- network/tcp-server.cpp: `TcpSession`. What a method asks of boost::asio is kept in the state: the
-- buffer of the write under way, the octets written so far, and the number of reads and waits started.
-- The virtual methods are those of the class itself, and `on_debug_msg` does nothing.
pub mod Transfer
pub mod Delivery
pub mod Once
mod Examples
use toolchain_cpp.Common.{
  ℕ, ◌+◌, ◌-◌, Bool, true, false, ◌||◌, not, List, [], ◌∷◌, ◌++◌, Option, none, some, ltb, ◌==◌,
  if◌then◌else◌, Bytes, length, take, drop, min, Result, ok, undefined, ◌>>=◌, ◌>>◌, af_assert,
}
use toolchain_cpp.Common.Int.{ℤ, pos, sub_ℕ, ltb_ℤ}

abbrev pub send_package_size : ℕ
send_package_size = 512

-- `socket` and `iddle_timer`: the pointer is set. `after_sends` counts the calls of `on_after_send`.
pub record TcpSession : Type 0 where
  pub iddle_timeout_ms : ℤ
  pub shutdown_flag : Bool
  pub is_close_flag : Bool
  pub async_send_flag : Bool
  pub send_buffer : Bytes
  pub send_buffer_cursor : ℕ
  pub socket : Bool
  pub iddle_timer : Bool
  pub outgoing : Option Bytes
  pub wire : Bytes
  pub reads : ℕ
  pub waits : ℕ
  pub after_sends : ℕ

-- The constructor.
abbrev pub initial : TcpSession
initial = record {
  iddle_timeout_ms = pos 0;
  shutdown_flag = false;
  is_close_flag = false;
  async_send_flag = false;
  send_buffer = [];
  send_buffer_cursor = 0;
  socket = true;
  iddle_timer = false;
  outgoing = none;
  wire = [];
  reads = 0;
  waits = 0;
  after_sends = 0;
}

-- The conversion of `uint64_t` to `int64_t`.
pub set_timeout : TcpSession → ℕ → TcpSession
set_timeout s timeout_ms = record s {
  iddle_timeout_ms =
      if ltb timeout_ms 9223372036854775808
      then pos timeout_ms
      else sub_ℕ timeout_ms 18446744073709551616;
}

pub shutdown : TcpSession → TcpSession
shutdown s =
    if s.shutdown_flag
    then s
    else record s { iddle_timer = false; socket = false; shutdown_flag = true }

unfoldable pub close_session : TcpSession → TcpSession
close_session s = record s { socket = false; iddle_timer = false; is_close_flag = true }

unfoldable pub reset_connection_timeout : TcpSession → TcpSession
reset_connection_timeout s =
    if not s.iddle_timer
    then s
    else if ltb_ℤ (pos 0) s.iddle_timeout_ms
    then record s { waits = s.waits + 1 }
    else s

-- `async_write` of the octets of the send buffer from `cursor` on, as many as fit into a package.
unfoldable pub write_package : TcpSession → ℕ → TcpSession
write_package s cursor =
    let octets_required = min (length s.send_buffer - cursor) send_package_size in
    record s {
      send_buffer_cursor = cursor;
      outgoing = some (take octets_required (drop cursor s.send_buffer));
    }

unfoldable pub async_send_data : TcpSession → Result (TcpSession × Bool)
async_send_data s =
    if s.async_send_flag
    then ok (s, false)
    else af_assert s.socket >> ok (write_package (record s { async_send_flag = true }) 0, true)

unfoldable pub async_send_string : TcpSession → Bytes → Result (TcpSession × Bool)
async_send_string s octets = async_send_data (record s { send_buffer = s.send_buffer ++ octets })

-- `send_data`; `written` is the result of boost's `write`, and none is an exception of it.
pub send_data : TcpSession → Bytes → Option ℕ → Result TcpSession
send_data s buffer written =
    af_assert s.socket
    >> ok (elim written [
      | none ↦ close_session s
      | some n ↦
          let s' = record s { wire = s.wire ++ take n buffer } in
          if n == length buffer then reset_connection_timeout s' else close_session s'
    ])

unfoldable pub open_async_read : TcpSession → Result TcpSession
open_async_read s = af_assert s.socket >> ok (record s { reads = s.reads + 1 })

-- `ec` is true when there is an error; `on_read_socket` does nothing, `on_after_read` reads again.
pub asio_read_handler : TcpSession → Bool → Result TcpSession
asio_read_handler s ec =
    if s.is_close_flag
    then ok s
    else if ec
    then ok (close_session s)
    else open_async_read s >>= λ s'. ok (reset_connection_timeout s')

-- All of the package is written: the next package, or `on_after_send`.
pub next_package : TcpSession → Result TcpSession
next_package s =
    if ltb s.send_buffer_cursor (length s.send_buffer)
    then (if s.socket then ok (write_package s s.send_buffer_cursor) else undefined)
    else ok (record s { after_sends = s.after_sends + 1 })

pub asio_write_handler : TcpSession → Bool → ℕ → ℕ → Result TcpSession
asio_write_handler s ec octets_transferred octets_required =
    if s.is_close_flag
    then ok s
    else if ec || not (octets_transferred == octets_required)
    then ok (close_session s)
    else next_package (record s { send_buffer_cursor = s.send_buffer_cursor + octets_transferred })
      >>= λ s'. ok (reset_connection_timeout s')

pub asio_iddle_timer_handler : TcpSession → Bool → TcpSession
asio_iddle_timer_handler s ec = close_session s

pub setup_session_resources : TcpSession → TcpSession
setup_session_resources s = record s {
  iddle_timer = if ltb_ℤ (pos 0) s.iddle_timeout_ms then true else s.iddle_timer;
  socket = true;
}

pub cleanup_session_resources : TcpSession → TcpSession
cleanup_session_resources s = record s { iddle_timer = false; socket = false }

abbrev pub is_close : TcpSession → Bool
is_close s = s.is_close_flag
