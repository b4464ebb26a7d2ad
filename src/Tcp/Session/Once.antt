-- ===== src/Tcp/Session/Once.antt =====
-- What any sequence of calls on a session leaves of the flag of a transfer under way.
use toolchain_cpp.Common.{
  ℕ, ◌≡◌, arith, Bool, true, false, List, [], ◌∷◌, ◌++◌, Option, Bytes, Result, ok, ◌>>=◌,
  bind-Passes,
}
use toolchain_cpp.Tcp.Session
use toolchain_cpp.Tcp.Session.{TcpSession}

-- The calls: the methods of the class, and the handlers with what boost passes to them.
pub data Call : Type 0 where
  set_timeout : ℕ → Call
  shutdown : Call
  async_send_data : Call
  async_send_string : Bytes → Call
  send_data : Bytes → Option ℕ → Call
  close_session : Call
  reset_connection_timeout : Call
  open_async_read : Call
  asio_read_handler : Bool → Call
  asio_write_handler : Bool → ℕ → ℕ → Call
  asio_iddle_timer_handler : Bool → Call
  setup_session_resources : Call
  cleanup_session_resources : Call

unfoldable pub call : TcpSession → Call → Result TcpSession
call s (set_timeout n) = ok (Session.set_timeout s n)
call s shutdown = ok (Session.shutdown s)
call s async_send_data = Session.async_send_data s >>= λ r. ok r.0
call s (async_send_string octets) = Session.async_send_string s octets >>= λ r. ok r.0
call s (send_data buffer written) = Session.send_data s buffer written
call s close_session = ok (Session.close_session s)
call s reset_connection_timeout = ok (Session.reset_connection_timeout s)
call s open_async_read = Session.open_async_read s
call s (asio_read_handler ec) = Session.asio_read_handler s ec
call s (asio_write_handler ec transferred required) =
    Session.asio_write_handler s ec transferred required
call s (asio_iddle_timer_handler ec) = ok (Session.asio_iddle_timer_handler s ec)
call s setup_session_resources = ok (Session.setup_session_resources s)
call s cleanup_session_resources = ok (Session.cleanup_session_resources s)

unfoldable pub calls : TcpSession → List Call → Result TcpSession
calls s [] = ok s
calls s (c ∷ cs) = call s c >>= λ s'. calls s' cs

call-async_send_flag :
    (s s' : TcpSession) (c : Call)
    → s.async_send_flag ≡ true
    → call s c ≡ ok s'
    → s'.async_send_flag ≡ true
unfolding call Session.set_timeout Session.shutdown Session.async_send_data
    Session.async_send_string Session.send_data Session.close_session
    Session.reset_connection_timeout Session.open_async_read Session.asio_read_handler
    Session.asio_write_handler Session.asio_iddle_timer_handler Session.setup_session_resources
    Session.cleanup_session_resources Session.next_package Session.write_package
call-async_send_flag s s' (set_timeout n) h e = ground arith
call-async_send_flag s s' shutdown h e = ground arith
call-async_send_flag s s' async_send_data h e = ground arith
call-async_send_flag s s' (async_send_string octets) h e = ground arith
call-async_send_flag s s' (send_data buffer written) h e = ground arith
call-async_send_flag s s' close_session h e = ground arith
call-async_send_flag s s' reset_connection_timeout h e = ground arith
call-async_send_flag s s' open_async_read h e = ground arith
call-async_send_flag s s' (asio_read_handler ec) h e = ground arith
call-async_send_flag s s' (asio_write_handler ec transferred required) h e = ground arith
call-async_send_flag s s' (asio_iddle_timer_handler ec) h e = ground arith
call-async_send_flag s s' setup_session_resources h e = ground arith
call-async_send_flag s s' cleanup_session_resources h e = ground arith

calls-async_send_flag :
    (s s' : TcpSession) (cs : List Call)
    → s.async_send_flag ≡ true
    → calls s cs ≡ ok s'
    → s'.async_send_flag ≡ true
unfolding calls
calls-async_send_flag s s' [] h e = ground arith
calls-async_send_flag s s' (c ∷ cs) h e =
    let p = bind-Passes (λ t. calls t cs) (call s c) e in
    calls-async_send_flag p.between s' cs (call-async_send_flag s p.between c h p.before) p.after

started-async_send_flag :
    (s s' : TcpSession) (octets : Bytes)
    → Session.async_send_string s octets ≡ ok (s', true)
    → s'.async_send_flag ≡ true
unfolding Session.async_send_string Session.async_send_data Session.write_package
started-async_send_flag s s' octets e = ground arith

-- Once an asynchronous transfer has begun, a session refuses every later one: after any sequence of calls,
-- those of the handlers that end the transfer included, it only stores the octets and starts no write.
pub calls_send_nothing :
    (s s' s'' : TcpSession) (first later : Bytes) (cs : List Call)
    → Session.async_send_string s first ≡ ok (s', true)
    → calls s' cs ≡ ok s''
    → Session.async_send_string s'' later
      ≡ ok (record s'' { send_buffer = s''.send_buffer ++ later }, false)
unfolding Session.async_send_string Session.async_send_data
calls_send_nothing s s' s'' first later cs e f =
    let h : s''.async_send_flag ≡ true =
      calls-async_send_flag s' s'' cs (started-async_send_flag s s' first e) f in
    ground arith
