-- ===== src/Web/Chunks.antt =====
-- A request that arrives in several reads.
use toolchain_cpp.Common.{
  ℕ, suc, ◌+◌, Bool, true, false, List, [], ◌∷◌, ◌++◌, ◌≡◌, refl, sym, ap, Bytes, length,
  length-append, arith, returns, Outcome, subst,
}
use toolchain_cpp.Http.Splitter.{HttpStreamSplitter, push_char, push_chars}
use toolchain_cpp.Http.Splitter.Frame.{ends_at_last}
use toolchain_cpp.Http.Text.{BoostAlgorithm}
use toolchain_cpp.Tcp.Session.{TcpSession, reset_connection_timeout}
use toolchain_cpp.Web.{WebApiSession, feed, then_outcome, asio_read_handler}

-- Reads one after another.
unfoldable pub run_reads :
    BoostAlgorithm → (Bytes → Bytes) → WebApiSession → List Bytes → Outcome WebApiSession
run_reads boost unescape s [] = returns s
run_reads boost unescape s (octets ∷ chunks) =
    then_outcome (asio_read_handler boost unescape s false octets)
      (λ t. run_reads boost unescape t chunks)

abbrev pub joined : List Bytes → Bytes → Bytes
joined [] last = last
joined (octets ∷ chunks) last = octets ++ joined chunks last

joined-cons :
    (chunks : List Bytes) (c : ℕ) (rest : Bytes)
    → (d : ℕ) × (more : Bytes) × (joined chunks (c ∷ rest) ≡ d ∷ more)
      × (length more ≡ length (joined chunks rest))
joined-cons [] c rest = (c, rest, refl, refl)
joined-cons ([] ∷ chunks) c rest = joined-cons chunks c rest
joined-cons ((x ∷ octets) ∷ chunks) c rest =
    let (d, more, e, l) = joined-cons chunks c rest in
    let shorter : length (joined chunks (c ∷ rest)) ≡ suc (length (joined chunks rest)) =
      omega (arith, l, ap length e) in
    (
      x,
      octets ++ joined chunks (c ∷ rest),
      refl,
      omega (
        arith,
        shorter,
        length-append octets (joined chunks (c ∷ rest)),
        length-append octets (joined chunks rest),
        length-append (x ∷ octets) (joined chunks rest),
      ),
    )

-- The TCP session behind a read that does not end a request: the next read is started.
abbrev pub listen : TcpSession → TcpSession
listen tcp = reset_connection_timeout (record tcp { reads = tcp.reads + 1 })

abbrev pub listen_for : List Bytes → TcpSession → TcpSession
listen_for [] tcp = tcp
listen_for (octets ∷ chunks) tcp = listen_for chunks (listen tcp)

pub pair-eq : {A : Type 0} {B : Type 0} (p : A × B) {a : A} {b : B} → p.0 ≡ a → p.1 ≡ b → p ≡ (a, b)
pair-eq p h k = cc

module _ (boost : BoostAlgorithm) where
  ends_at_last-first :
      (s t : HttpStreamSplitter) (c d : ℕ) (rest : Bytes)
      → push_chars boost s (c ∷ d ∷ rest) ≡ (t, ends_at_last (suc (length rest)))
      → ((push_char boost s c).1 ≡ false)
        × (push_chars boost (push_char boost s c).0 (d ∷ rest) ≡ (t, ends_at_last (length rest)))
  unfolding push_chars
  ends_at_last-first s t c d rest h =
      let state = ap (λ r. r.0) h in let flags = ap (λ r. r.1) h in (cc, pair-eq _ state cc)

  ends_at_last-only :
      (s t : HttpStreamSplitter) (c : ℕ)
      → push_chars boost s (c ∷ []) ≡ (t, true ∷ [])
      → push_char boost s c ≡ (t, true)
  unfolding push_chars
  ends_at_last-only s t c h =
      let state = ap (λ r. r.0) h in
      let flags = ap (λ r. r.1) h in pair-eq (push_char boost s c) state cc

  -- The loop finds the end of a request at the last octet.
  pub feed-ends_at_last :
      (s t : HttpStreamSplitter) (ready : Bool) (c : ℕ) (rest : Bytes)
      → push_chars boost s (c ∷ rest) ≡ (t, ends_at_last (length rest))
      → feed boost ready s (c ∷ rest) ≡ (t, true)
  unfolding feed
  feed-ends_at_last s t ready c [] h = rw (ends_at_last-only s t c h) refl
  feed-ends_at_last s t ready c (d ∷ rest) h =
      let first = ends_at_last-first s t c d rest h in
      let later = feed-ends_at_last (push_char boost s c).0 t false d rest first.1 in
      rw (first.0, later) refl

  -- The loop over the octets in front of the last one finds no end.
  pub feed-part :
      (s t : HttpStreamSplitter) (octets : Bytes) (c : ℕ) (rest : Bytes)
      → push_chars boost s (octets ++ c ∷ rest) ≡ (t, ends_at_last (length (octets ++ rest)))
      → (next : HttpStreamSplitter) × (feed boost false s octets ≡ (next, false))
        × (push_chars boost next (c ∷ rest) ≡ (t, ends_at_last (length rest)))
  unfolding feed
  feed-part s t [] c rest h = (s, refl, h)
  feed-part s t (x ∷ []) c rest h =
      let first = ends_at_last-first s t x c rest h in
      (_, rw (pair-eq (push_char boost s x) refl first.0) refl, first.1)
  feed-part s t (x ∷ y ∷ octets) c rest h =
      let e : length ((y ∷ octets) ++ rest) ≡ length (octets ++ c ∷ rest) =
        omega (arith, length-append octets rest, length-append octets (c ∷ rest)) in
      let first = ends_at_last-first s t x y (octets ++ c ∷ rest) (
        subst (λ n. push_chars boost s (x ∷ y ∷ octets ++ c ∷ rest) ≡ (t, ends_at_last (suc n))) e
          h) in
      let kept =
        subst
          (λ n.
            push_chars boost (push_char boost s x).0 ((y ∷ octets) ++ c ∷ rest)
            ≡ (t, ends_at_last n))
          (sym e) first.1 in
      let (next, found, later) = feed-part (push_char boost s x).0 t (y ∷ octets) c rest kept in
      (next, rw (pair-eq (push_char boost s x) refl first.0, found) refl, later)

  -- The loop over a read that is not the last one.
  pub feed-joined :
      (s t : HttpStreamSplitter) (octets : Bytes) (chunks : List Bytes) (c : ℕ) (rest : Bytes)
      → push_chars boost s (octets ++ joined chunks (c ∷ rest))
        ≡ (t, ends_at_last (length (octets ++ joined chunks rest)))
      → (next : HttpStreamSplitter) × (feed boost false s octets ≡ (next, false))
        × (push_chars boost next (joined chunks (c ∷ rest))
            ≡ (t, ends_at_last (length (joined chunks rest))))
  feed-joined s t octets chunks c rest h =
      let (d, more, e, l) = joined-cons chunks c rest in
      let len : length (octets ++ joined chunks rest) ≡ length (octets ++ more) =
        omega (arith, l, length-append octets more, length-append octets (joined chunks rest)) in
      let (next, fed, later) = feed-part s t octets d more (
        subst
          (λ text.
            push_chars boost s (octets ++ text) ≡ (t, ends_at_last (length (octets ++ more))))
          e
          (subst
            (λ n. push_chars boost s (octets ++ joined chunks (c ∷ rest)) ≡ (t, ends_at_last n)) len
            h)) in
      (
        next,
        fed,
        subst (λ text. push_chars boost next text ≡ (t, ends_at_last (length (joined chunks rest))))
            (sym e) (subst (λ n. push_chars boost next (d ∷ more) ≡ (t, ends_at_last n)) l later),
      )
