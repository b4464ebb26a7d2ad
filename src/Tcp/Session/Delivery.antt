-- ===== src/Tcp/Session/Delivery.antt =====
-- A transfer whose writes all succeed.
use toolchain_cpp.Common.{
  ℕ, zero, suc, ◌+◌, ◌*◌, ◌≤◌, ◌<◌, ◌≡◌, refl, sym, ap, ◌∙◌, arith, true, false, ◌++◌, append_assoc,
  none, ltb, ltb→lt, ltb_false→le, Bool-cases, inl, inr, Bytes, length, take, drop,
  take-append-drop, length-drop, take-length, drop-drop, ok,
}
use toolchain_cpp.Tcp.Session.{
  TcpSession, send_package_size, async_send_data, async_send_string, write_package,
}
use toolchain_cpp.Tcp.Session.Transfer.{
  end_write, chunk_length, write_all, reset_connection_timeout-waits, step, rest, advanced,
  end_write-advanced, next_package-more, next_package-done, Sending,
}

-- The transfer has ended: all the octets from the cursor on are written, and `on_after_send` was called once.
pub record Delivered (s t : TcpSession) : Type 0 where
  pub wire : t.wire ≡ s.wire ++ rest s
  pub idle : t.outgoing ≡ none
  pub told : t.after_sends ≡ s.after_sends + 1

end_write-idle : (s : TcpSession) (n : ℕ) → s.outgoing ≡ none → end_write s false n ≡ ok s
unfolding end_write
end_write-idle s n h = ground arith

write_all-idle : (fuel : ℕ) (s : TcpSession) → s.outgoing ≡ none → write_all fuel s ≡ ok s
unfolding write_all
write_all-idle zero s h = refl
write_all-idle (suc fuel) s h = rw (end_write-idle s (chunk_length s) h) (write_all-idle fuel s h)

abbrev pub next : TcpSession → ℕ → TcpSession
next s n = record (write_package (advanced s) (s.send_buffer_cursor + step s)) { waits = n }

pub next-Sending :
    (s : TcpSession) (n : ℕ)
    → Sending s
    → s.send_buffer_cursor + step s < length s.send_buffer
    → Sending (next s n)
unfolding write_package
next-Sending s n h k = record {
  opened = h.opened;
  connected = h.connected;
  within = omega arith;
  chunk = refl;
}

pub next-wire :
    (s t : TcpSession) (n : ℕ)
    → t.wire ≡ (next s n).wire ++ rest (next s n)
    → t.wire ≡ s.wire ++ rest s
unfolding write_package
next-wire s t n h =
    h
    ∙ append_assoc s.wire (take (step s) (rest s))
        (drop (s.send_buffer_cursor + step s) s.send_buffer)
    ∙ ap (λ xs. s.wire ++ xs)
        (ap (λ ys. take (step s) (rest s) ++ ys)
            (sym (
              drop-drop (step s) s.send_buffer_cursor (s.send_buffer_cursor + step s) s.send_buffer
                refl))
          ∙ take-append-drop (step s) (rest s))

end_write-next :
    (s : TcpSession)
    → Sending s
    → s.send_buffer_cursor + step s < length s.send_buffer
    → (n : ℕ) × (end_write s false (chunk_length s) ≡ ok (next s n))
end_write-next s h k =
    let t = write_package (advanced s) (s.send_buffer_cursor + step s) in
    let w = reset_connection_timeout-waits t in
    (w.0, rw (end_write-advanced s h, next_package-more s h k, w.1))

pub step-all :
    (s : TcpSession)
    → Sending s
    → length s.send_buffer ≤ s.send_buffer_cursor + step s
    → take (step s) (rest s) ≡ rest s
step-all s h k =
    ap (λ n. take n (rest s))
      (omega (arith, h.within, length-drop s.send_buffer_cursor s.send_buffer))
    ∙ take-length (rest s)

end_write-Delivered :
    (s : TcpSession)
    → Sending s
    → length s.send_buffer ≤ s.send_buffer_cursor + step s
    → (t : TcpSession) × (end_write s false (chunk_length s) ≡ ok t) × Delivered s t
end_write-Delivered s h k =
    let t = record (advanced s) { after_sends = s.after_sends + 1 } in
    let w = reset_connection_timeout-waits t in
    (
      record t { waits = w.0 },
      rw (end_write-advanced s h, next_package-done s k, w.1),
      record { wire = ap (λ xs. s.wire ++ xs) (step-all s h k); idle = refl; told = refl },
    )

end_at_once :
    (fuel : ℕ) (s : TcpSession)
    → Sending s
    → length s.send_buffer ≤ s.send_buffer_cursor + step s
    → (t : TcpSession) × (write_all (suc fuel) s ≡ ok t) × Delivered s t
unfolding write_all
end_at_once fuel s h k =
    let (t, e, d) = end_write-Delivered s h k in (t, rw e (write_all-idle fuel t d.idle), d)

pub write_all-Delivered :
    (fuel : ℕ) (s : TcpSession)
    → Sending s
    → length s.send_buffer ≤ s.send_buffer_cursor + send_package_size * (fuel + 1)
    → (t : TcpSession) × (write_all (suc fuel) s ≡ ok t) × Delivered s t
unfolding write_all write_package
write_all-Delivered zero s h k = end_at_once zero s h (omega arith)
write_all-Delivered (suc fuel) s h k =
    elim (Bool-cases (ltb (s.send_buffer_cursor + step s) (length s.send_buffer))) [
      | inl more ↦
          let k' = ltb→lt _ _ more in
          let (n, e) = end_write-next s h k' in
          let (t, f, d) =
            write_all-Delivered fuel (next s n) (next-Sending s n h k') (omega arith) in
          (t, rw e f, record { wire = next-wire s t n d.wire; idle = d.idle; told = d.told })
      | inr last ↦ end_at_once (suc fuel) s h (ltb_false→le _ _ last)
    ]

-- What `async_send_string` starts, on a session that is open and not sending.
started-Sending :
    (s : TcpSession) (octets : Bytes)
    → s.is_close_flag ≡ false
    → s.socket ≡ true
    → s.async_send_flag ≡ false
    → (t : TcpSession) × (async_send_string s octets ≡ ok (t, true))
      × Sending t
      × (t.wire ≡ s.wire)
      × (t.after_sends ≡ s.after_sends)
      × (rest t ≡ s.send_buffer ++ octets)
unfolding async_send_string async_send_data write_package
started-Sending s octets o c f = (
  write_package (record s { async_send_flag = true; send_buffer = s.send_buffer ++ octets }) 0,
  ground (arith, c, f),
  record { opened = o; connected = c; within = omega arith; chunk = refl },
  refl,
  refl,
  refl,
)

-- On an open session that has begun no transfer, `async_send_data` with a text starts one. When its writes
-- succeed, as many writes as packages of 512 octets hold the buffer and the text (at least one) put exactly
-- these octets on the wire, in order, call `on_after_send` once, and leave no write under way.
pub async_send_string-Delivered :
    (s : TcpSession) (octets : Bytes) (fuel : ℕ)
    → s.is_close_flag ≡ false
    → s.socket ≡ true
    → s.async_send_flag ≡ false
    → length (s.send_buffer ++ octets) ≤ send_package_size * (fuel + 1)
    → (t u : TcpSession) × (async_send_string s octets ≡ ok (t, true))
      × (write_all (suc fuel) t ≡ ok u)
      × (u.wire ≡ s.wire ++ (s.send_buffer ++ octets))
      × (u.after_sends ≡ s.after_sends + 1)
      × (u.outgoing ≡ none)
async_send_string-Delivered s octets fuel o c f k =
    let (t, e, h, same_wire, same_sends, all) = started-Sending s octets o c f in
    let (u, r, d) =
      write_all-Delivered fuel t h
        (omega (arith, ap length all, length-drop t.send_buffer_cursor t.send_buffer, k)) in
    (t, u, e, r, d.wire ∙ rw (same_wire, all), d.told ∙ rw same_sends, d.idle)
