-- ===== src/Web/Answer.antt =====
-- What a read does to the session, and a request over several reads.
use toolchain_cpp.Common.{
  ℕ, ◌+◌, true, false, List, [], ◌∷◌, ◌++◌, some, ◌≡◌, refl, ◌∙◌, arith, Bytes, length, ok, returns,
}
use toolchain_cpp.Http.Request.{SimpleHttpRequest, parse_url}
use toolchain_cpp.Http.Splitter.{HttpStreamSplitter, initial, reset, push_chars}
use toolchain_cpp.Http.Splitter.Frame.{ends_at_last}
use toolchain_cpp.Http.Text.{BoostAlgorithm}
use toolchain_cpp.Tcp.Session.{
  TcpSession, async_send_data, async_send_string, open_async_read, reset_connection_timeout,
  write_package,
}
use toolchain_cpp.Web.{
  WebApiSession, Handler, accept_query, answer, asio_read_handler, cur_handler, dispatch,
  empty_request, escape_percent, feed, has_handler, on_after_read, on_read_socket, unescape_params,
}
use toolchain_cpp.Web.Chunks.{joined, listen, listen_for, run_reads, feed-joined, feed-ends_at_last}

-- The session can start a read and send an answer.
pub record Open (tcp : TcpSession) : Type 0 where
  pub is_open : tcp.is_close_flag ≡ false
  pub connected : tcp.socket ≡ true
  pub idle : tcp.async_send_flag ≡ false

-- The session after a send is started.
abbrev pub sent : TcpSession → Bytes → TcpSession
sent tcp octets =
    write_package (record tcp { send_buffer = tcp.send_buffer ++ octets; async_send_flag = true }) 0

abbrev pub heard : WebApiSession → HttpStreamSplitter → WebApiSession
heard s splitter = record s { tcp = listen s.tcp; http_splitter = splitter; request_ready = false }

pub listen-Open : (tcp : TcpSession) → Open tcp → Open (listen tcp)
unfolding reset_connection_timeout
listen-Open tcp opened = record {
  is_open = ground arith;
  connected = ground arith;
  idle = ground arith;
}

pub send-Open :
    (tcp : TcpSession) (octets : Bytes)
    → Open tcp
    → async_send_string tcp octets ≡ ok (sent tcp octets, true)
unfolding async_send_string async_send_data
send-Open tcp octets opened = ground arith

pub read-Open :
    (tcp : TcpSession) → Open tcp → open_async_read tcp ≡ ok (record tcp { reads = tcp.reads + 1 })
unfolding open_async_read
read-Open tcp opened = ground arith

-- The response to a request.
abbrev pub response : (Bytes → Bytes) → Handler → HttpStreamSplitter → SimpleHttpRequest → Bytes
response unescape handler t r =
    handler (unescape_params unescape [] r.params) t.content_buffer (escape_percent r.url)

abbrev pub answered : WebApiSession → Bytes → WebApiSession
answered s octets = record s {
  tcp = reset_connection_timeout (sent s.tcp octets);
  http_splitter = initial;
  request_ready = false;
}

module _ (boost : BoostAlgorithm) (unescape : Bytes → Bytes) where
  hears :
      (s : WebApiSession) (octets : Bytes) (next : HttpStreamSplitter)
      → s.request_ready ≡ false
      → Open s.tcp
      → feed boost false s.http_splitter octets ≡ (next, false)
      → asio_read_handler boost unescape s false octets ≡ returns (heard s next)
  unfolding asio_read_handler on_read_socket on_after_read
  hears s octets next ready opened fed =
      let read = read-Open s.tcp opened in let closed = opened.is_open in ground arith

  pub answers :
      (s : WebApiSession) (octets : Bytes) (t : HttpStreamSplitter) (r : SimpleHttpRequest)
      (handler : Handler)
      → s.request_ready ≡ false
      → Open s.tcp
      → feed boost false s.http_splitter octets ≡ (t, true)
      → parse_url empty_request t.request_url ≡ ok r
      → has_handler t.request_method ≡ true
      → cur_handler s (unescape r.relative_path) ≡ some handler
      → asio_read_handler boost unescape s false octets
        ≡ returns (answered s (response unescape handler t r))
  unfolding asio_read_handler on_read_socket on_after_read answer dispatch accept_query reset
  answers s octets t r handler ready opened fed parsed method found =
      let send = send-Open s.tcp (response unescape handler t r) opened in
      let closed = opened.is_open in ground arith

module _ (boost : BoostAlgorithm) (unescape : Bytes → Bytes) where
  run_reads-hears :
      (s u : WebApiSession) (octets : Bytes) (chunks : List Bytes)
      → asio_read_handler boost unescape s false octets ≡ returns u
      → run_reads boost unescape s (octets ∷ chunks) ≡ run_reads boost unescape u chunks
  unfolding run_reads
  run_reads-hears s u octets chunks h = rw h refl

  run_reads-last :
      (s u : WebApiSession) (octets : Bytes)
      → asio_read_handler boost unescape s false octets ≡ returns u
      → run_reads boost unescape s (octets ∷ []) ≡ returns u
  unfolding run_reads
  run_reads-last s u octets h = rw h refl

  -- An open session that is to be sent nothing yet reads octets in any number of reads, some of them perhaps empty. They
  -- are a request, which ends for the splitter at the last octet of the last read, with an URL that can be parsed
  -- and a method that has handlers, and there is a handler for its path. Then each read before the last starts the
  -- next one and nothing is sent. After the last the octets that the handler returns for the request are being
  -- sent, no read is started, and the splitter begins anew.
  pub request_in_chunks :
      (s : WebApiSession) (chunks : List Bytes) (c : ℕ) (rest : Bytes) (t : HttpStreamSplitter)
      (r : SimpleHttpRequest) (handler : Handler)
      → s.request_ready ≡ false
      → Open s.tcp
      → push_chars boost s.http_splitter (joined chunks (c ∷ rest))
        ≡ (t, ends_at_last (length (joined chunks rest)))
      → parse_url empty_request t.request_url ≡ ok r
      → has_handler t.request_method ≡ true
      → cur_handler s (unescape r.relative_path) ≡ some handler
      → run_reads boost unescape s (chunks ++ (c ∷ rest) ∷ [])
        ≡ returns
            (answered (record s { tcp = listen_for chunks s.tcp }) (response unescape handler t r))
  request_in_chunks s [] c rest t r handler ready opened framed parsed method found =
      let fed = feed-ends_at_last boost s.http_splitter t false c rest framed in
      run_reads-last s _ (c ∷ rest)
        (answers boost unescape s (c ∷ rest) t r handler ready opened fed parsed method found)
  request_in_chunks s (octets ∷ chunks) c rest t r handler ready opened framed parsed method found =
      let (next, fed, later) = feed-joined boost s.http_splitter t octets chunks c rest framed in
      run_reads-hears s (heard s next) octets (chunks ++ (c ∷ rest) ∷ [])
        (hears boost unescape s octets next ready opened fed)
      ∙ request_in_chunks (heard s next) chunks c rest t r handler refl (listen-Open s.tcp opened)
          later parsed method found
