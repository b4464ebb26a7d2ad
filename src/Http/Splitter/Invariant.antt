-- ===== src/Http/Splitter/Invariant.antt =====
-- What holds of the splitter between two characters, and where lines and characters agree.
use toolchain_cpp.Common.{
  ℕ, ◌+◌, ◌<◌, ◌≡◌, ◌≢◌, ◌⊎◌, inl, inr, refl, arith, Bool-cases, List, [], ◌∷◌, ◌++◌, Bytes, leb,
  ◌==◌, length, length-append, All, All-append,
}
use toolchain_cpp.Http.Text.{BoostAlgorithm}
use toolchain_cpp.Http.Splitter.{
  HttpStreamSplitter, State, wait_header, parse_header, read_content, initial, process_line_buffer,
  header_char, take_char, complete, push_char, push_chars, process_line, header_line, header_field,
  request_line, disposition,
}

abbrev pub IsText : ℕ → Type 0
IsText c = (c ≢ b'\r') × (c ≢ b'\n')

-- What each state knows of the counter and the announced length.
abbrev pub Counts : State → HttpStreamSplitter → Type 0
Counts wait_header s = Unit
Counts parse_header s = s.content_buffer ≡ []
Counts read_content s = s.content_oktets_counter < s.content_length

pub record IsValid (s : HttpStreamSplitter) : Type 0 where
  pub counted : s.content_oktets_counter ≡ length s.content_buffer
  pub counts : Counts s.state s
  pub text : All IsText s.line_buffer

pub initial-IsValid : IsValid initial
initial-IsValid = record { counted = refl; counts = tt; text = tt }

-- A processed line ends the header or goes on with it; the content is still empty then.
abbrev Lined : HttpStreamSplitter → Type 0
Lined s =
    (s.content_oktets_counter ≡ length s.content_buffer)
    × ((s.state ≡ wait_header) ⊎ (s.content_buffer ≡ []))

complete-IsValid :
    (st : State) (s : HttpStreamSplitter)
    → s.state ≡ st
    → Lined s
    → All IsText s.line_buffer
    → IsValid (complete st s).0
unfolding complete
complete-IsValid wait_header s e l t = record { counted = l.0; counts = rw e tt; text = t }
complete-IsValid parse_header s e l t = record {
  counted = l.0;
  counts = rw e (ground arith);
  text = t;
}
complete-IsValid read_content s e l t =
    elim (Bool-cases (leb s.content_length s.content_oktets_counter)) [
      | inl done ↦ rw done (record { counted = l.0; counts = tt; text = t })
      | inr more ↦ rw more (record { counted = l.0; counts = rw e (ground arith); text = t })
    ]

valid-Lined :
    (st : State) (s : HttpStreamSplitter)
    → s.state ≡ st
    → st ≢ read_content
    → s.content_oktets_counter ≡ length s.content_buffer
    → Counts st s
    → Lined s
valid-Lined wait_header s e ne l c = (l, inl e)
valid-Lined parse_header s e ne l c = (l, inr c)
valid-Lined read_content s e ne l c = absurd (ne refl)

-- A character of the content.
read-IsValid :
    (s : HttpStreamSplitter) (c : ℕ)
    → s.state ≡ read_content
    → IsValid s
    → IsValid
        (complete s.state (record s {
          content_buffer = s.content_buffer ++ c ∷ [];
          content_oktets_counter = s.content_oktets_counter + 1;
        })).0
unfolding complete
read-IsValid s c e v =
    let longer = length-append s.content_buffer (c ∷ []) in
    elim (Bool-cases (leb s.content_length (s.content_oktets_counter + 1))) [
      | inl done ↦
          rw (e, complete, done)
            (record { counted = omega (arith, v.counted); counts = tt; text = v.text })
      | inr more ↦
          rw (e, complete, more)
            (record { counted = omega (arith, v.counted); counts = ground arith; text = v.text })
    ]

module _ (boost : BoostAlgorithm) where
  request_line-Lined :
      (s : HttpStreamSplitter) (tokens : List Bytes)
      → s.state ≡ wait_header
      → s.content_oktets_counter ≡ length s.content_buffer
      → Lined (request_line boost s tokens)
  unfolding request_line
  request_line-Lined s (a ∷ b ∷ c ∷ rest) w h = ground arith
  request_line-Lined s _ w h = (h, inl w)

  header_field-Lined :
      (s : HttpStreamSplitter) (tokens : List Bytes)
      → s.state ≡ parse_header
      → Lined s
      → Lined (header_field boost s tokens)
  unfolding header_field disposition
  header_field-Lined s (a ∷ b ∷ rest) e h = ground arith
  header_field-Lined s _ e h = h

  header_line-Lined :
      (s : HttpStreamSplitter) (line : Bytes)
      → Lined s
      → s.state ≡ parse_header
      → Lined (header_line boost s line)
  unfolding header_line
  header_line-Lined s [] h e = ground arith
  header_line-Lined s (c ∷ line) h e = header_field-Lined s _ e h

  process_line-Lined :
      (st : State) (s : HttpStreamSplitter)
      → s.state ≡ st
      → st ≢ read_content
      → IsValid s
      → Counts st s
      → Lined (process_line boost st s)
  unfolding process_line
  process_line-Lined wait_header s e ne v c = request_line-Lined s _ e v.counted
  process_line-Lined parse_header s e ne v c =
      header_line-Lined s s.line_buffer (v.counted, inr c) e
  process_line-Lined read_content s e ne v c = absurd (ne refl)

  process_line_buffer-Lined :
      (s : HttpStreamSplitter)
      → s.state ≢ read_content
      → IsValid s
      → Lined (process_line_buffer boost s)
  unfolding process_line_buffer
  process_line_buffer-Lined s ne v = process_line-Lined s.state s refl ne v v.counts

  process_line_buffer-IsText :
      (s : HttpStreamSplitter) → All IsText (process_line_buffer boost s).line_buffer
  unfolding process_line_buffer
  process_line_buffer-IsText s = tt

  header_char-Ready :
      (s : HttpStreamSplitter) (c : ℕ)
      → s.state ≢ read_content
      → IsValid s
      → Lined (header_char boost s c) × All IsText (header_char boost s c).line_buffer
  unfolding header_char
  header_char-Ready s c ne v = elim (Bool-cases (c == b'\r')) [
    | inl cr ↦ rw cr (valid-Lined s.state s refl ne v.counted v.counts, v.text)
    | inr other ↦ elim (Bool-cases (c == b'\n')) [
      | inl lf ↦ rw (other, lf) (process_line_buffer-Lined s ne v, process_line_buffer-IsText s)
      | inr plain ↦
          let text : IsText c = (ground arith, ground arith) in
          rw (other, plain)
            (
              valid-Lined s.state s refl ne v.counted v.counts,
              All-append IsText s.line_buffer (c ∷ []) v.text (text, tt),
            )
    ]
  ]

  push_header_char :
      (s : HttpStreamSplitter) (c : ℕ)
      → s.state ≢ read_content
      → IsValid s
      → let t = header_char boost s c in IsValid (complete t.state t).0
  push_header_char s c ne v =
      let ready = header_char-Ready s c ne v in
      complete-IsValid (header_char boost s c).state (header_char boost s c) refl ready.0 ready.1

  -- Whatever character comes, the counter stays the length of the content read so far, the content stays below its announced
  -- length while it is read, and no line terminator is kept in the line.
  pub push_char-IsValid :
      (s : HttpStreamSplitter) (c : ℕ) → IsValid s → IsValid (push_char boost s c).0
  unfolding push_char
  push_char-IsValid s c v = by_state s.state refl
    where
      by_state :
          (st : State)
          → s.state ≡ st
          → let t = take_char boost st s c in IsValid (complete t.state t).0
      by_state wait_header e = unfold take_char in push_header_char s c (λ r. cc) v
      by_state parse_header e = unfold take_char in push_header_char s c (λ r. cc) v
      by_state read_content e = unfold take_char in read-IsValid s c e v

  -- A valid splitter, such as a new one, is valid after every stream of characters: its count is that of the octets of the
  -- content, no content is complete and not reported, and no line end stands in the line buffer.
  pub push_chars-IsValid :
      (s : HttpStreamSplitter) (cs : Bytes) → IsValid s → IsValid (push_chars boost s cs).0
  unfolding push_chars
  push_chars-IsValid s [] v = v
  push_chars-IsValid s (c ∷ cs) v =
      push_chars-IsValid (push_char boost s c).0 cs (push_char-IsValid s c v)
