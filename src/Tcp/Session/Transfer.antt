-- ===== src/Tcp/Session/Transfer.antt =====
-- The end of a write of a transfer, with all of its package and without an error, and what follows it.
use toolchain_cpp.Common.{
  ℕ, zero, suc, ◌+◌, ◌-◌, ◌≤◌, ◌<◌, ◌≡◌, arith, Bool, true, false, ◌++◌, none, some, Bytes, length,
  take, drop, length-take, length-drop, take-length, min, Result, ok, ◌>>=◌,
}
use toolchain_cpp.Tcp.Session.{
  TcpSession, send_package_size, asio_write_handler, next_package, write_package,
  reset_connection_timeout,
}

-- The write under way ends with `transferred` octets written and the error `ec`.
unfoldable pub end_write : TcpSession → Bool → ℕ → Result TcpSession
end_write s ec transferred = elim (s.outgoing) [
  | none ↦ ok s
  | some chunk ↦
      asio_write_handler (record s { outgoing = none; wire = s.wire ++ take transferred chunk }) ec
        transferred (length chunk)
]

abbrev pub chunk_length : TcpSession → ℕ
chunk_length s = elim (s.outgoing) [ none ↦ 0 | some chunk ↦ length chunk ]

-- As many writes as `fuel` says end one after another, each with all of its package and no error.
unfoldable pub write_all : ℕ → TcpSession → Result TcpSession
write_all zero s = ok s
write_all (suc fuel) s = end_write s false (chunk_length s) >>= λ s'. write_all fuel s'

-- A package that begins at the cursor is under way.
pub record Sending (s : TcpSession) : Type 0 where
  pub opened : s.is_close_flag ≡ false
  pub connected : s.socket ≡ true
  pub within : s.send_buffer_cursor ≤ length s.send_buffer
  pub chunk :
      s.outgoing
      ≡ some (
          take
            (min (length s.send_buffer - s.send_buffer_cursor) send_package_size)
            (drop s.send_buffer_cursor s.send_buffer))

pub reset_connection_timeout-waits :
    (s : TcpSession) → (n : ℕ) × (reset_connection_timeout s ≡ record s { waits = n })
unfolding reset_connection_timeout
reset_connection_timeout-waits s = ((reset_connection_timeout s).waits, ground arith)

abbrev pub step : TcpSession → ℕ
step s = min (length s.send_buffer - s.send_buffer_cursor) send_package_size

abbrev pub rest : TcpSession → Bytes
rest s = drop s.send_buffer_cursor s.send_buffer

pub length-step :
    (s : TcpSession)
    → s.send_buffer_cursor ≤ length s.send_buffer
    → length (take (step s) (rest s)) ≡ step s
length-step s h =
    omega (arith, length-take (step s) (rest s), length-drop s.send_buffer_cursor s.send_buffer)

-- A session after the whole of its package is written, before its handler looks for more.
abbrev pub advanced : TcpSession → TcpSession
advanced s = record s {
  outgoing = none;
  wire = s.wire ++ take (step s) (rest s);
  send_buffer_cursor = s.send_buffer_cursor + step s;
}

pub end_write-advanced :
    (s : TcpSession)
    → Sending s
    → end_write s false (chunk_length s)
      ≡ (next_package (advanced s) >>= λ t. ok (reset_connection_timeout t))
unfolding end_write asio_write_handler
end_write-advanced s h =
    rw (h.chunk, h.opened, take-length (take (step s) (rest s)), length-step s h.within)
      (ground arith)

pub next_package-more :
    (s : TcpSession)
    → Sending s
    → s.send_buffer_cursor + step s < length s.send_buffer
    → next_package (advanced s) ≡ ok (write_package (advanced s) (s.send_buffer_cursor + step s))
unfolding next_package
next_package-more s h k = ground (arith, h.connected)

pub next_package-done :
    (s : TcpSession)
    → length s.send_buffer ≤ s.send_buffer_cursor + step s
    → next_package (advanced s) ≡ ok (record (advanced s) { after_sends = s.after_sends + 1 })
unfolding next_package
next_package-done s k = ground arith
