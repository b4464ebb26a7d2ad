-- ===== src/Web.antt =====
-- network/netserver.cpp: `HttpSession` and `WebApiSession`, a TCP session that feeds what it reads to the stream
-- splitter and answers each request. The handlers of the URLs are functions, since `WebApiHandler` is
-- abstract; curl's unescape is an argument. The debug messages are left out.
pub mod Chunks
pub mod Answer
pub mod Errors
pub mod Serving
mod Examples
use toolchain_cpp.Common.{
  ℕ, ◌+◌, Bool, true, false, ◌||◌, not, List, [], ◌∷◌, ◌++◌, map, Option, none, some, ◌==◌,
  if◌then◌else◌, Bytes, codes, same, length, ltb, ◌>>=◌, Result, ok, raised, aborted, undefined,
  Outcome, returns, throws, aborts, faults,
}
use toolchain_cpp.Http.Request.{SimpleHttpRequest, unknown, set_param, parse_url}
use toolchain_cpp.Http.Splitter.{HttpStreamSplitter, push_char, reset}
use toolchain_cpp.Http.Text.{BoostAlgorithm}
use toolchain_cpp.Tcp.Session.{
  TcpSession, async_send_string, close_session, open_async_read, reset_connection_timeout,
  write_package,
}

abbrev pub Params : Type 0
Params = List (Bytes × Bytes)

-- `WebApiHandler::accept_query`: the parameters, the content and the URL for messages.
abbrev pub Handler : Type 0
Handler = Params → Bytes → Bytes → Bytes

pub response_200 : Bytes
response_200 = codes "HTTP/1.1 200 OK\r\n\r\n"

pub response_400 : Bytes
response_400 = codes "HTTP/1.1 400 Bad Request\r\n\r\n"

unfoldable pub response_500 : Bytes
response_500 = codes "HTTP/1.1 500 Internal Server Error\r\n\r\n"

-- `Http400Handler`.
pub http_400_handler : Handler
http_400_handler params content debug_url = response_400

-- `unexpected_url_handler` is none when it is not set.
pub record WebApiSession : Type 0 where
  pub tcp : TcpSession
  pub keep_alive_flag : Bool
  pub http_splitter : HttpStreamSplitter
  pub request_ready : Bool
  pub web_handler_map : List (Bytes × Handler)
  pub unexpected_url_handler : Option Handler

-- The constructor.
pub make : TcpSession → HttpStreamSplitter → WebApiSession
make tcp splitter = record {
  tcp = tcp;
  keep_alive_flag = false;
  http_splitter = splitter;
  request_ready = false;
  web_handler_map = [];
  unexpected_url_handler = some http_400_handler;
}

pub set_keep_alive : WebApiSession → Bool → WebApiSession
set_keep_alive s keep_alive = record s { keep_alive_flag = keep_alive }

unfoldable pub set_handler : List (Bytes × Handler) → Bytes → Handler → List (Bytes × Handler)
set_handler [] url handler = (url, handler) ∷ []
set_handler ((u, h) ∷ rest) url handler =
    let later = set_handler rest url handler in
    if same u url then (url, handler) ∷ rest else (u, h) ∷ later

pub bind : WebApiSession → Bytes → Handler → WebApiSession
bind s short_url handler = record s {
  web_handler_map = set_handler s.web_handler_map short_url handler;
}

pub bind_unexpected_url : WebApiSession → Handler → WebApiSession
bind_unexpected_url s handler = record s { unexpected_url_handler = some handler }

unfoldable pub find_handler : List (Bytes × Handler) → Bytes → Option Handler
find_handler [] url = none
find_handler ((u, h) ∷ rest) url =
    let later = find_handler rest url in if same u url then some h else later

abbrev pub cur_handler : WebApiSession → Bytes → Option Handler
cur_handler s url = elim (find_handler s.web_handler_map url) [
  | none ↦ s.unexpected_url_handler
  | some handler ↦ some handler
]

-- The end of `accept_query`, on the result of `async_send_data`.
abbrev pub after_sending : WebApiSession → Result (TcpSession × Bool) → Outcome WebApiSession
after_sending s (ok (tcp, true)) = returns (record s { tcp = tcp })
after_sending s (ok (tcp, false)) = throws (record s { tcp = tcp })
after_sending s raised = throws s
after_sending s aborted = aborts
after_sending s undefined = faults

unfoldable pub accept_query : WebApiSession → Bytes → Params → Bytes → Bytes → Outcome WebApiSession
accept_query s short_url params content debug_url = elim (cur_handler s short_url) [
  | none ↦ aborts
  | some handler ↦ after_sending s (async_send_string s.tcp (handler params content debug_url))
]

-- The loop over the octets of a buffer: it ends with the character that ends a request.
unfoldable pub feed : BoostAlgorithm → Bool → HttpStreamSplitter → Bytes → HttpStreamSplitter × Bool
feed boost ready s [] = (s, ready)
feed boost ready s (c ∷ octets) =
    let (s', done) = push_char boost s c in
    let more = feed boost false s' octets in if done then (s', true) else more

-- The loop that is to double each `%`; `replace` takes two characters away.
unfoldable pub escape_percent : Bytes → Bytes
escape_percent [] = []
escape_percent (c ∷ []) = if c == b'%' then b'%' ∷ b'%' ∷ [] else c ∷ []
escape_percent (c ∷ d ∷ rest) =
    let cut = escape_percent rest in
    let whole = escape_percent (d ∷ rest) in if c == b'%' then b'%' ∷ b'%' ∷ cut else c ∷ whole

abbrev pub empty_request : SimpleHttpRequest
empty_request = record {
  method = unknown;
  protocol = [];
  host = [];
  port = [];
  url = [];
  relative_path = [];
  params = [];
}

-- The handler of an exception in `on_read_socket`.
abbrev pub answer_500 : WebApiSession → Outcome WebApiSession
answer_500 s = elim (async_send_string s.tcp response_500) [
  | ok (tcp, sent) ↦ returns (record s { tcp = close_session tcp })
  | raised ↦ throws s
  | aborted ↦ aborts
  | undefined ↦ faults
]

-- The methods that have a handler; the others get none.
abbrev pub has_handler : Bytes → Bool
has_handler method =
    same method (codes "GET") || same method (codes "POST") || same method (codes "PUT")

abbrev pub with_tcp : WebApiSession → Result TcpSession → Outcome WebApiSession
with_tcp s (ok tcp) = returns (record s { tcp = tcp })
with_tcp s raised = throws s
with_tcp s aborted = aborts
with_tcp s undefined = faults

abbrev pub restart_timeout : WebApiSession → WebApiSession
restart_timeout s = record s { tcp = reset_connection_timeout s.tcp }

abbrev pub then_outcome :
    Outcome WebApiSession → (WebApiSession → Outcome WebApiSession) → Outcome WebApiSession
then_outcome (returns s) f = f s
then_outcome (throws s) f = throws s
then_outcome aborts f = aborts
then_outcome faults f = faults

-- The end of a request: the splitter begins anew.
abbrev pub after_dispatch : Outcome WebApiSession → Outcome WebApiSession
after_dispatch (returns s) = returns (record s { http_splitter = reset s.http_splitter })
after_dispatch (throws s) = answer_500 s
after_dispatch aborts = aborts
after_dispatch faults = faults

-- `on_after_read` and what follows it in `asio_read_handler`.
unfoldable pub on_after_read : WebApiSession → Outcome WebApiSession
on_after_read s =
    let s' = record s { request_ready = false } in
    if not s.request_ready then with_tcp s' (open_async_read s.tcp) else returns s'

module _ (unescape : Bytes → Bytes) where
  unfoldable pub unescape_params : Params → Params → Params
  unescape_params out [] = out
  unescape_params out ((key, val) ∷ rest) =
      unescape_params (set_param out (unescape key) (unescape val)) rest

  unfoldable pub dispatch : WebApiSession → SimpleHttpRequest → Outcome WebApiSession
  dispatch s request =
      if has_handler s.http_splitter.request_method
      then accept_query s (unescape request.relative_path) (unescape_params [] request.params)
          s.http_splitter.content_buffer (escape_percent request.url)
      else returns s

  unfoldable pub answer : WebApiSession → Outcome WebApiSession
  answer s = elim (parse_url empty_request s.http_splitter.request_url) [
    | ok request ↦ after_dispatch (dispatch s request)
    | raised ↦ answer_500 s
    | aborted ↦ aborts
    | undefined ↦ faults
  ]

module _ (boost : BoostAlgorithm) (unescape : Bytes → Bytes) where
  unfoldable pub on_read_socket : WebApiSession → Bytes → Outcome WebApiSession
  on_read_socket s octets =
      let (splitter, ready) = feed boost s.request_ready s.http_splitter octets in
      let s' = record s { http_splitter = splitter; request_ready = ready } in
      if not ready then returns s' else answer unescape s'

  unfoldable pub asio_read_handler : WebApiSession → Bool → Bytes → Outcome WebApiSession
  asio_read_handler s ec octets =
      if s.tcp.is_close_flag
      then returns s
      else if ec
      then returns (record s { tcp = close_session s.tcp })
      else then_outcome (then_outcome (on_read_socket s octets) on_after_read)
          (λ t. returns (restart_timeout t))

unfoldable pub on_after_send : WebApiSession → WebApiSession
on_after_send s = if not s.keep_alive_flag then record s { tcp = close_session s.tcp } else s

-- All of the package is written: the next package, or `on_after_send`.
pub next_package : WebApiSession → Result WebApiSession
next_package s =
    if ltb s.tcp.send_buffer_cursor (length s.tcp.send_buffer)
    then (if s.tcp.socket
        then ok (record s { tcp = write_package s.tcp s.tcp.send_buffer_cursor })
        else undefined)
    else ok (on_after_send s)

abbrev pub advance : TcpSession → ℕ → TcpSession
advance tcp octets = record tcp { send_buffer_cursor = tcp.send_buffer_cursor + octets }

pub asio_write_handler : WebApiSession → Bool → ℕ → ℕ → Result WebApiSession
asio_write_handler s ec octets_transferred octets_required =
    if s.tcp.is_close_flag
    then ok s
    else if ec || not (octets_transferred == octets_required)
    then ok (record s { tcp = close_session s.tcp })
    else next_package (record s { tcp = advance s.tcp octets_transferred }) >>= λ t.
        ok (restart_timeout t)
