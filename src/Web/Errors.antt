-- ===== src/Web/Errors.antt =====
-- The requests that get no answer: a second one, those that cannot be parsed and those of other methods.
use toolchain_cpp.Common.{
  ℕ, suc, ◌+◌, ◌*◌, ◌≤◌, ◌∙◌, ap, not, none, length, true, false, ◌++◌, some, ◌≡◌, arith, Bytes, ok,
  raised, returns,
}
use toolchain_cpp.Http.Request.{SimpleHttpRequest, parse_url}
use toolchain_cpp.Http.Splitter.{HttpStreamSplitter, initial, reset}
use toolchain_cpp.Http.Text.{BoostAlgorithm}
use toolchain_cpp.Tcp.Session.{
  TcpSession, async_send_data, async_send_string, close_session, reset_connection_timeout,
  send_package_size,
}
use toolchain_cpp.Web.{
  WebApiSession, Handler, accept_query, answer, asio_read_handler, cur_handler, dispatch,
  empty_request, feed, has_handler, on_after_read, on_read_socket, response_500,
}
use toolchain_cpp.Web.Answer.{Open, answered, answers, response, send-Open, sent}
use toolchain_cpp.Web.Serving.{answered-Served, write_all}

-- The session closes while the response of `octets` is under way.
abbrev pub cut_off : WebApiSession → HttpStreamSplitter → TcpSession → WebApiSession
cut_off s t tcp = record s { tcp = close_session tcp; http_splitter = t; request_ready = false }

abbrev pub appended : TcpSession → Bytes → TcpSession
appended tcp octets = record tcp { send_buffer = tcp.send_buffer ++ octets }

module _ (boost : BoostAlgorithm) (unescape : Bytes → Bytes) where
  -- A request ends in a session that has begun to send an answer, whether or not all of it is sent by now; its URL
  -- can be parsed, its method has handlers, and there is a handler for its path. Then the session closes. The
  -- response of the handler and that of an internal error stand in the send buffer, and no write is started.
  pub second_request_closes :
      (s : WebApiSession) (octets : Bytes) (t : HttpStreamSplitter) (r : SimpleHttpRequest)
      (handler : Handler)
      → s.tcp.is_close_flag ≡ false
      → s.tcp.async_send_flag ≡ true
      → feed boost s.request_ready s.http_splitter octets ≡ (t, true)
      → parse_url empty_request t.request_url ≡ ok r
      → has_handler t.request_method ≡ true
      → cur_handler s (unescape r.relative_path) ≡ some handler
      → asio_read_handler boost unescape s false octets
        ≡ returns
            (cut_off s t (appended (appended s.tcp (response unescape handler t r)) response_500))
  unfolding asio_read_handler on_read_socket on_after_read answer dispatch accept_query
      async_send_string async_send_data close_session reset_connection_timeout
  second_request_closes s octets t r handler closed flag fed parsed method found = ground arith

  -- A request ends in an open session that has sent nothing yet, and its URL cannot be parsed. Then the write of the response
  -- of an internal error is started and the session closes at once, with its socket reset. The splitter does not
  -- begin anew.
  pub raised-closes :
      (s : WebApiSession) (octets : Bytes) (t : HttpStreamSplitter)
      → Open s.tcp
      → feed boost s.request_ready s.http_splitter octets ≡ (t, true)
      → parse_url empty_request t.request_url ≡ raised
      → asio_read_handler boost unescape s false octets
        ≡ returns (cut_off s t (sent s.tcp response_500))
  unfolding asio_read_handler on_read_socket on_after_read answer close_session
      reset_connection_timeout
  raised-closes s octets t opened fed parsed =
      let send = send-Open s.tcp response_500 opened in ground arith

  -- A request ends in a session that is not closed. Its URL can be parsed and its method is not one of GET, POST and
  -- PUT. Then the session sends nothing, starts no further read and stays as open as it was.
  pub unknown_method_hangs :
      (s : WebApiSession) (octets : Bytes) (t : HttpStreamSplitter) (r : SimpleHttpRequest)
      → s.tcp.is_close_flag ≡ false
      → feed boost s.request_ready s.http_splitter octets ≡ (t, true)
      → parse_url empty_request t.request_url ≡ ok r
      → has_handler t.request_method ≡ false
      → asio_read_handler boost unescape s false octets
        ≡ returns (record s {
          tcp = reset_connection_timeout s.tcp;
          http_splitter = initial;
          request_ready = false;
        })
  unfolding asio_read_handler on_read_socket on_after_read answer dispatch reset
  unknown_method_hangs s octets t r closed fed parsed method = ground arith

  -- A request ends in an open session with keep-alive that has sent nothing yet; its URL can be parsed, its method has
  -- handlers, and there is a handler for its path. Then the session answers, and when the writes succeed, as many of
  -- them as packages of 512 octets hold the send buffer and the response (at least one) put these octets on the wire,
  -- leave no write under way and the session open with its socket, and from the read to the end of the sending no
  -- further read is started.
  pub keep_alive_stops_reading :
      (s : WebApiSession) (octets : Bytes) (t : HttpStreamSplitter) (r : SimpleHttpRequest)
      (handler : Handler) (fuel : ℕ)
      → s.keep_alive_flag ≡ true
      → s.request_ready ≡ false
      → Open s.tcp
      → feed boost false s.http_splitter octets ≡ (t, true)
      → parse_url empty_request t.request_url ≡ ok r
      → has_handler t.request_method ≡ true
      → cur_handler s (unescape r.relative_path) ≡ some handler
      → length (s.tcp.send_buffer ++ response unescape handler t r) ≤ send_package_size * (fuel + 1)
      → (u v : WebApiSession) × (asio_read_handler boost unescape s false octets ≡ returns u)
        × (write_all (suc fuel) u ≡ ok v)
        × (v.tcp.wire ≡ s.tcp.wire ++ (s.tcp.send_buffer ++ response unescape handler t r))
        × (v.tcp.outgoing ≡ none)
        × (v.tcp.is_close_flag ≡ false)
        × (v.tcp.socket ≡ true)
        × (v.tcp.reads ≡ s.tcp.reads)
  keep_alive_stops_reading s octets t r handler fuel keep ready opened fed parsed method found l =
      let answer = response unescape handler t r in
      let (v, e, wire, idle, closed, connected, reads) = answered-Served s answer fuel opened l in
      (
        answered s answer,
        v,
        answers boost unescape s octets t r handler ready opened fed parsed method found,
        e,
        wire,
        idle,
        closed ∙ ap not keep,
        connected ∙ keep,
        reads,
      )
