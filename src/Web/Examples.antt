-- ===== src/Web/Examples.antt =====
-- Sessions with one handler, on which the theorems are applied.
use toolchain_cpp.Common.{
  ◌≡◌, refl, true, false, [], ◌∷◌, Bytes, codes, same, ok, raised, returns, none, arith,
}
use toolchain_cpp.Http.Request.{
  SimpleHttpRequest, parse_url, parse_host, parse_path, protocol_path, host_path, set_path, split,
}
use toolchain_cpp.Http.Split.{split_by_substr, split_from, skip_substr, find_substr, is_prefix}
use toolchain_cpp.Http.Splitter
use toolchain_cpp.Http.Splitter.{HttpStreamSplitter, parse_header}
use toolchain_cpp.Http.Splitter.Frame.{with_content, push_chars_frame}
use toolchain_cpp.Http.Text.{BoostAlgorithm}
use toolchain_cpp.Tcp.Session
use toolchain_cpp.Web.{
  WebApiSession, Handler, make, bind, set_keep_alive, asio_read_handler, empty_request, feed,
  response_500, set_handler, find_handler,
}
use toolchain_cpp.Web.Answer.{Open, sent, response}
use toolchain_cpp.Web.Serving.{request_served, write_all}
use toolchain_cpp.Web.Chunks.{run_reads, feed-ends_at_last}
use toolchain_cpp.Web.Errors.{cut_off, keep_alive_stops_reading, raised-closes}

abbrev plain : BoostAlgorithm
plain = record { trim = λ set s. s; split = λ set s. s ∷ []; to_upper = λ s. s }

abbrev same_text : Bytes → Bytes
same_text s = s

abbrev header : Bytes → Bytes → HttpStreamSplitter
header method url = record Splitter.initial {
  state = parse_header;
  content_length = 1;
  request_method = method;
  request_url = url;
}

feed-frame :
    (method url : Bytes)
    → feed plain false (header method url) (codes "\r\nx")
      ≡ (with_content (header method url) (codes "x"), true)
feed-frame method url =
    feed-ends_at_last plain (header method url) (with_content (header method url) (codes "x")) false
      b'\r' (codes "\nx")
      (push_chars_frame plain (header method url) (codes "x") refl refl refl refl refl)

abbrev echo : Handler
echo arguments content debug_url = content

abbrev session : HttpStreamSplitter → WebApiSession
session splitter = bind (make Session.initial splitter) (codes "/a") echo

initial-Open : Open Session.initial
initial-Open = record { is_open = refl; connected = refl; idle = refl }

abbrev request : Bytes → Bytes → SimpleHttpRequest
request url path = record empty_request { url = url; relative_path = path }

parse_a : parse_url empty_request (codes "/a") ≡ ok (request (codes "/a") (codes "/a"))
unfolding parse_url parse_host parse_path protocol_path host_path set_path split split_by_substr
    split_from skip_substr find_substr is_prefix
parse_a = refl

parse_root : parse_url empty_request (codes "/") ≡ raised
unfolding parse_url protocol_path host_path split split_by_substr split_from skip_substr find_substr
    is_prefix
parse_root = refl

abbrev post_a : WebApiSession
post_a = session (header (codes "POST") (codes "/a"))

abbrev read_a : HttpStreamSplitter
read_a = with_content (header (codes "POST") (codes "/a")) (codes "x")

abbrev echoed : Bytes
echoed = response same_text echo read_a (request (codes "/a") (codes "/a"))

request_served_example :
    (u v : WebApiSession) × (run_reads plain same_text post_a (codes "\r" ∷ [] ∷ codes "\nx" ∷ [])
      ≡ returns u)
    × (write_all 1 u ≡ ok v)
    × (v.tcp.wire ≡ codes "x")
    × (v.tcp.outgoing ≡ none)
    × (v.tcp.is_close_flag ≡ true)
unfolding make bind set_handler find_handler same
request_served_example =
    request_served plain same_text post_a (codes "\r" ∷ [] ∷ []) b'\n' (codes "x") read_a
      (request (codes "/a") (codes "/a")) echo 0 refl refl initial-Open
      (push_chars_frame plain (header (codes "POST") (codes "/a")) (codes "x") refl refl refl refl
        refl)
      parse_a refl refl (omega arith)

abbrev kept : WebApiSession
kept = set_keep_alive post_a true

keep_alive_stops_reading_example :
    (u v : WebApiSession) × (asio_read_handler plain same_text kept false (codes "\r\nx")
      ≡ returns u)
    × (write_all 1 u ≡ ok v)
    × (v.tcp.wire ≡ codes "x")
    × (v.tcp.outgoing ≡ none)
    × (v.tcp.is_close_flag ≡ false)
    × (v.tcp.socket ≡ true)
    × (v.tcp.reads ≡ Session.initial.reads)
unfolding make bind set_handler find_handler same set_keep_alive
keep_alive_stops_reading_example =
    keep_alive_stops_reading plain same_text kept (codes "\r\nx") read_a
      (request (codes "/a") (codes "/a")) echo 0 refl refl initial-Open
      (feed-frame (codes "POST") (codes "/a")) parse_a refl refl (omega arith)

abbrev get_root : WebApiSession
get_root = session (header (codes "GET") (codes "/"))

raised-closes_example :
    asio_read_handler plain same_text get_root false (codes "\r\nx")
    ≡ returns (
        cut_off get_root
          (with_content (header (codes "GET") (codes "/")) (codes "x"))
          (sent Session.initial response_500))
unfolding make bind
raised-closes_example =
    raised-closes plain same_text get_root (codes "\r\nx")
      (with_content (header (codes "GET") (codes "/")) (codes "x")) initial-Open
      (feed-frame (codes "GET") (codes "/")) parse_root
