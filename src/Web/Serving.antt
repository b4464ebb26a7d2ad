-- ===== src/Web/Serving.antt =====
-- A request from its first octet to the last octet of its response.
use toolchain_cpp.Common.{
  not, sym, ℕ, zero, suc, ◌+◌, ◌*◌, ◌≤◌, ◌<◌, ◌≡◌, refl, ap, ◌∙◌, arith, true, false, List, [], ◌∷◌,
  ◌++◌, none, some, ltb, ltb→lt, ltb_false→le, Bool-cases, inl, inr, Bytes, length, Result, ok,
  returns, ◌>>=◌,
}
use toolchain_cpp.Http.Request.{SimpleHttpRequest, parse_url}
use toolchain_cpp.Http.Splitter.{HttpStreamSplitter, push_chars}
use toolchain_cpp.Http.Splitter.Frame.{ends_at_last}
use toolchain_cpp.Http.Text.{BoostAlgorithm}
use toolchain_cpp.Tcp.Session.{
  TcpSession, close_session, reset_connection_timeout, send_package_size, write_package,
}
use toolchain_cpp.Tcp.Session.Delivery.{next, next-Sending, next-wire, step-all}
use toolchain_cpp.Tcp.Session.Transfer.{
  advanced, length-step, reset_connection_timeout-waits, rest, Sending, step,
}
use toolchain_cpp.Web.{
  WebApiSession, Handler, asio_write_handler, cur_handler, empty_request, has_handler, next_package,
  on_after_send, restart_timeout,
}
use toolchain_cpp.Web.Answer.{Open, answered, listen-Open, request_in_chunks, response, sent}
use toolchain_cpp.Web.Chunks.{joined, listen, listen_for, run_reads}

-- The write under way ends with all of its octets written and no error.
unfoldable pub end_write : WebApiSession → Result WebApiSession
end_write s = elim (s.tcp.outgoing) [
  | none ↦ ok s
  | some chunk ↦
      asio_write_handler
        (record s { tcp = record s.tcp { outgoing = none; wire = s.tcp.wire ++ chunk } }) false
        (length chunk) (length chunk)
]

unfoldable pub write_all : ℕ → WebApiSession → Result WebApiSession
write_all zero s = ok s
write_all (suc fuel) s = end_write s >>= λ t. write_all fuel t

-- The octets from the cursor on are on the wire, no write and no further read is started, and the session is closed
-- unless it is kept alive.
pub record Served (s t : WebApiSession) : Type 0 where
  pub wire : t.tcp.wire ≡ s.tcp.wire ++ rest s.tcp
  pub idle : t.tcp.outgoing ≡ none
  pub closed : t.tcp.is_close_flag ≡ not s.keep_alive_flag
  pub connected : t.tcp.socket ≡ s.keep_alive_flag
  pub reads : t.tcp.reads ≡ s.tcp.reads

abbrev after : WebApiSession → WebApiSession
after s = record s { tcp = advanced s.tcp }

end_write-after :
    (s : WebApiSession)
    → Sending s.tcp
    → end_write s ≡ (next_package (after s) >>= λ t. ok (restart_timeout t))
unfolding end_write asio_write_handler
end_write-after s h =
    let l = length-step s.tcp h.within in rw h.chunk (rw l (ground (arith, h.opened)))

write_all-idle : (fuel : ℕ) (s : WebApiSession) → s.tcp.outgoing ≡ none → write_all fuel s ≡ ok s
unfolding write_all end_write
write_all-idle zero s h = refl
write_all-idle (suc fuel) s h = let ih = write_all-idle fuel s h in ground arith

next_package-more :
    (s : WebApiSession)
    → s.tcp.socket ≡ true
    → s.tcp.send_buffer_cursor < length s.tcp.send_buffer
    → next_package s ≡ ok (record s { tcp = write_package s.tcp s.tcp.send_buffer_cursor })
unfolding next_package
next_package-more s c k = ground arith

next_package-last :
    (s : WebApiSession)
    → s.keep_alive_flag ≡ false
    → length s.tcp.send_buffer ≤ s.tcp.send_buffer_cursor
    → next_package s ≡ ok (record s { tcp = close_session s.tcp })
unfolding next_package on_after_send
next_package-last s keep k = ground arith

abbrev restarted : Result WebApiSession → Result WebApiSession
restarted r = r >>= λ t. ok (restart_timeout t)

reset-close_session :
    (tcp : TcpSession) → reset_connection_timeout (close_session tcp) ≡ close_session tcp
unfolding reset_connection_timeout close_session
reset-close_session tcp = refl

end_write-more :
    (s : WebApiSession)
    → Sending s.tcp
    → s.tcp.send_buffer_cursor + step s.tcp < length s.tcp.send_buffer
    → (n : ℕ) × (end_write s ≡ ok (record s { tcp = next s.tcp n }))
end_write-more s h k =
    let t = write_package (advanced s.tcp) (s.tcp.send_buffer_cursor + step s.tcp) in
    let (n, w) = reset_connection_timeout-waits t in
    (
      n,
      end_write-after s h
          ∙ ap restarted (next_package-more (after s) h.connected k)
          ∙ ap (λ tcp. ok (record s { tcp = tcp })) w,
    )

next_package-kept :
    (s : WebApiSession)
    → s.keep_alive_flag ≡ true
    → length s.tcp.send_buffer ≤ s.tcp.send_buffer_cursor
    → next_package s ≡ ok s
unfolding next_package on_after_send
next_package-kept s keep k = ground arith

end_write-closing :
    (s : WebApiSession)
    → s.keep_alive_flag ≡ false
    → Sending s.tcp
    → length s.tcp.send_buffer ≤ s.tcp.send_buffer_cursor + step s.tcp
    → (t : WebApiSession) × (end_write s ≡ ok t) × Served s t
unfolding close_session
end_write-closing s keep h k = (
  record s { tcp = close_session (advanced s.tcp) },
  end_write-after s h
      ∙ ap restarted (next_package-last (after s) keep k)
      ∙ ap (λ tcp. ok (record s { tcp = tcp })) (reset-close_session (advanced s.tcp)),
  record {
    wire = ap (λ xs. s.tcp.wire ++ xs) (step-all s.tcp h k);
    idle = refl;
    closed = ground arith;
    connected = sym keep;
    reads = refl;
  },
)

end_write-keeping :
    (s : WebApiSession)
    → s.keep_alive_flag ≡ true
    → Sending s.tcp
    → length s.tcp.send_buffer ≤ s.tcp.send_buffer_cursor + step s.tcp
    → (t : WebApiSession) × (end_write s ≡ ok t) × Served s t
end_write-keeping s keep h k =
    let (n, w) = reset_connection_timeout-waits (advanced s.tcp) in
    (
      record s { tcp = record (advanced s.tcp) { waits = n } },
      end_write-after s h
          ∙ ap restarted (next_package-kept (after s) keep k)
          ∙ ap (λ tcp. ok (record s { tcp = tcp })) w,
      record {
        wire = ap (λ xs. s.tcp.wire ++ xs) (step-all s.tcp h k);
        idle = refl;
        closed = ground (arith, h.opened);
        connected = ground (arith, h.connected);
        reads = refl;
      },
    )

end_write-Served :
    (s : WebApiSession)
    → Sending s.tcp
    → length s.tcp.send_buffer ≤ s.tcp.send_buffer_cursor + step s.tcp
    → (t : WebApiSession) × (end_write s ≡ ok t) × Served s t
end_write-Served s h k = elim (Bool-cases s.keep_alive_flag) [
  | inl keep ↦ end_write-keeping s keep h k
  | inr keep ↦ end_write-closing s keep h k
]

end_at_once :
    (fuel : ℕ) (s : WebApiSession)
    → Sending s.tcp
    → length s.tcp.send_buffer ≤ s.tcp.send_buffer_cursor + step s.tcp
    → (t : WebApiSession) × (write_all (suc fuel) s ≡ ok t) × Served s t
unfolding write_all
end_at_once fuel s h k =
    let (t, e, d) = end_write-Served s h k in
    (t, rw (e, write_all) (write_all-idle fuel t d.idle), d)

write_all-Served :
    (fuel : ℕ) (s : WebApiSession)
    → Sending s.tcp
    → length s.tcp.send_buffer ≤ s.tcp.send_buffer_cursor + send_package_size * (fuel + 1)
    → (t : WebApiSession) × (write_all (suc fuel) s ≡ ok t) × Served s t
unfolding write_all write_package
write_all-Served zero s h k = end_at_once zero s h (omega arith)
write_all-Served (suc fuel) s h k =
    elim (Bool-cases (ltb (s.tcp.send_buffer_cursor + step s.tcp) (length s.tcp.send_buffer))) [
      | inl more ↦
          let k' = ltb→lt _ _ more in
          let (n, e) = end_write-more s h k' in
          let (t, f, d) =
            write_all-Served fuel (record s { tcp = next s.tcp n }) (next-Sending s.tcp n h k')
              (omega arith) in
          (
            t,
            rw (e, write_all) f,
            record {
              wire = next-wire s.tcp t.tcp n d.wire;
              idle = d.idle;
              closed = d.closed;
              connected = d.connected;
              reads = d.reads;
            },
          )
      | inr last ↦ end_at_once (suc fuel) s h (ltb_false→le _ _ last)
    ]

listen-octets :
    (tcp : TcpSession)
    → ((listen tcp).wire ≡ tcp.wire) × ((listen tcp).send_buffer ≡ tcp.send_buffer)
unfolding reset_connection_timeout
listen-octets tcp = (ground arith, ground arith)

listen_for-octets :
    (chunks : List Bytes) (tcp : TcpSession)
    → ((listen_for chunks tcp).wire ≡ tcp.wire)
      × ((listen_for chunks tcp).send_buffer ≡ tcp.send_buffer)
listen_for-octets [] tcp = (refl, refl)
listen_for-octets (octets ∷ chunks) tcp =
    let (wire, buffer) = listen_for-octets chunks (listen tcp) in
    let (wire', buffer') = listen-octets tcp in (wire ∙ wire', buffer ∙ buffer')

listen_for-Open : (chunks : List Bytes) (tcp : TcpSession) → Open tcp → Open (listen_for chunks tcp)
listen_for-Open [] tcp h = h
listen_for-Open (octets ∷ chunks) tcp h = listen_for-Open chunks (listen tcp) (listen-Open tcp h)

-- The session that has begun to answer, with the number of its waits.
abbrev begun : TcpSession → Bytes → ℕ → TcpSession
begun tcp octets n = record (sent tcp octets) { waits = n }

begun-Sending :
    (tcp : TcpSession) (octets : Bytes) (n : ℕ) → Open tcp → Sending (begun tcp octets n)
unfolding write_package
begun-Sending tcp octets n h = record {
  opened = h.is_open;
  connected = h.connected;
  within = omega arith;
  chunk = refl;
}

pub answered-Served :
    (s : WebApiSession) (octets : Bytes) (fuel : ℕ)
    → Open s.tcp
    → length (s.tcp.send_buffer ++ octets) ≤ send_package_size * (fuel + 1)
    → (u : WebApiSession) × (write_all (suc fuel) (answered s octets) ≡ ok u)
      × (u.tcp.wire ≡ s.tcp.wire ++ (s.tcp.send_buffer ++ octets))
      × (u.tcp.outgoing ≡ none)
      × (u.tcp.is_close_flag ≡ not s.keep_alive_flag)
      × (u.tcp.socket ≡ s.keep_alive_flag)
      × (u.tcp.reads ≡ s.tcp.reads)
unfolding write_package
answered-Served s octets fuel h k =
    let (n, w) = reset_connection_timeout-waits (sent s.tcp octets) in
    let (u, e, d) =
      write_all-Served fuel (record (answered s octets) { tcp = begun s.tcp octets n })
        (begun-Sending s.tcp octets n h) (omega arith) in
    (
      u,
      ap (λ tcp. write_all (suc fuel) (record (answered s octets) { tcp = tcp })) w ∙ e,
      d.wire,
      d.idle,
      d.closed,
      d.connected,
      d.reads,
    )

-- An open session without keep-alive that is to be sent nothing yet reads octets in any number of reads, some of them
-- perhaps empty. They are a request, which ends for the splitter at the last octet of the last read, with an URL
-- that can be parsed and a method that has handlers, and there is a handler for its path. Then the reads start an
-- answer. When its writes succeed, as many writes as packages of 512 octets hold the send buffer and the octets that
-- the handler returns for the request (at least one) put exactly these octets on the wire, in order, and close the
-- session.
pub request_served :
    (boost : BoostAlgorithm) (unescape : Bytes → Bytes) (s : WebApiSession) (chunks : List Bytes)
    (c : ℕ) (rest : Bytes) (t : HttpStreamSplitter) (r : SimpleHttpRequest) (handler : Handler)
    (fuel : ℕ)
    → s.keep_alive_flag ≡ false
    → s.request_ready ≡ false
    → Open s.tcp
    → push_chars boost s.http_splitter (joined chunks (c ∷ rest))
      ≡ (t, ends_at_last (length (joined chunks rest)))
    → parse_url empty_request t.request_url ≡ ok r
    → has_handler t.request_method ≡ true
    → cur_handler s (unescape r.relative_path) ≡ some handler
    → length (s.tcp.send_buffer ++ response unescape handler t r) ≤ send_package_size * (fuel + 1)
    → (u v : WebApiSession) × (run_reads boost unescape s (chunks ++ (c ∷ rest) ∷ []) ≡ returns u)
      × (write_all (suc fuel) u ≡ ok v)
      × (v.tcp.wire ≡ s.tcp.wire ++ (s.tcp.send_buffer ++ response unescape handler t r))
      × (v.tcp.outgoing ≡ none)
      × (v.tcp.is_close_flag ≡ true)
request_served boost unescape s chunks c rest t r handler fuel keep ready opened framed parsed
      method found l =
    let octets = response unescape handler t r in
    let heard = record s { tcp = listen_for chunks s.tcp } in
    let (wire, buffer) = listen_for-octets chunks s.tcp in
    let (v, e, written, idle, closed, connected, reads) =
      answered-Served heard octets fuel (listen_for-Open chunks s.tcp opened) (rw buffer l) in
    (
      answered heard octets,
      v,
      request_in_chunks boost unescape s chunks c rest t r handler ready opened framed parsed method
          found,
      e,
      written ∙ rw (wire, buffer) refl,
      idle,
      closed ∙ ap not keep,
    )
