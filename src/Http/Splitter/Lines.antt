-- ===== src/Http/Splitter/Lines.antt =====
-- A header line given character by character, and given whole.
use toolchain_cpp.Common.{
  ℕ, suc, ◌≡◌, ◌≢◌, refl, ap, sym, ◌∙◌, arith, Bool, true, false, [], ◌∷◌, ◌++◌, append_assoc,
  append-nil, Bytes, length, replicate, All,
}
use toolchain_cpp.Http.Text.{BoostAlgorithm}
use toolchain_cpp.Http.Splitter.{
  HttpStreamSplitter, State, wait_header, parse_header, read_content, process_line_buffer,
  header_char, take_char, complete, push_char, push_chars, push_line, push_line_in, process_line,
  header_line,
}
use toolchain_cpp.Http.Splitter.Frame.{push_chars-cons, push_chars-nil}
use toolchain_cpp.Http.Splitter.Invariant.{IsText}

module _ (boost : BoostAlgorithm) where
  push_char_text :
      (s : HttpStreamSplitter) (c : ℕ)
      → s.state ≢ read_content
      → IsText c
      → push_char boost s c ≡ (record s { line_buffer = s.line_buffer ++ c ∷ [] }, false)
  unfolding push_char take_char header_char complete
  push_char_text s c ne t = ground (arith, t.0, t.1)

  push_char_return :
      (s : HttpStreamSplitter) → s.state ≢ read_content → push_char boost s b'\r' ≡ (s, false)
  unfolding push_char take_char header_char complete
  push_char_return s ne = ground arith

  take_char_newline :
      (st : State) (s : HttpStreamSplitter)
      → st ≢ read_content
      → take_char boost st s b'\n' ≡ process_line_buffer boost s
  unfolding take_char header_char
  take_char_newline wait_header s ne = refl
  take_char_newline parse_header s ne = refl
  take_char_newline read_content s ne = absurd (ne refl)

  push_char_newline :
      (s : HttpStreamSplitter)
      → s.state ≢ read_content
      → push_char boost s b'\n' ≡ (let t = process_line_buffer boost s in complete t.state t)
  unfolding push_char
  push_char_newline s ne =
      ap (λ (t : HttpStreamSplitter). complete t.state t) (take_char_newline s.state s ne)

  abbrev ended : HttpStreamSplitter → HttpStreamSplitter × Bool
  ended t = complete t.state t

  push_chars_text :
      (line : Bytes) (s : HttpStreamSplitter)
      → s.state ≢ read_content
      → All IsText line
      → let t = process_line_buffer boost (record s { line_buffer = s.line_buffer ++ line }) in
        push_chars boost s (line ++ b'\r' ∷ b'\n' ∷ [])
        ≡ ((ended t).0, replicate (suc (length line)) false ++ (ended t).1 ∷ [])
  push_chars_text [] s ne t = rw (append-nil s.line_buffer) (
      push_chars-cons boost s b'\r' _ (push_char_return s ne)
        (push_chars-cons boost s b'\n' _ (push_char_newline s ne) (push_chars-nil boost _)))
  push_chars_text (c ∷ line) s ne t = rw (sym (append_assoc s.line_buffer (c ∷ []) line)) (
      push_chars-cons boost s c _ (push_char_text s c ne t.0)
        (push_chars_text line (record s { line_buffer = s.line_buffer ++ c ∷ [] }) ne t.1))

  push_line_lem :
      (st : State) (s : HttpStreamSplitter) (line : Bytes)
      → st ≢ read_content
      → (push_line_in boost st s line).0
        ≡ process_line_buffer boost (record s { line_buffer = line })
  unfolding push_line_in
  push_line_lem wait_header s line ne = refl
  push_line_lem parse_header s line ne = refl
  push_line_lem read_content s line ne = absurd (ne refl)

  push_line-header :
      (s : HttpStreamSplitter) (line : Bytes)
      → s.state ≢ read_content
      → (push_line boost s line).0 ≡ process_line_buffer boost (record s { line_buffer = line })
  unfolding push_line
  push_line-header s line ne = push_line_lem s.state s line ne

  -- In a header whose line is empty, the characters of a line without line ends and its CRLF do what `push_line` does with
  -- the line, except that a request without content is complete at once.
  pub push_chars-push_line :
      (s : HttpStreamSplitter) (line : Bytes)
      → s.state ≢ read_content
      → s.line_buffer ≡ []
      → All IsText line
      → let t = (push_line boost s line).0 in
        push_chars boost s (line ++ b'\r' ∷ b'\n' ∷ []) ≡ (
          (complete t.state t).0,
          replicate (suc (length line)) false ++ (complete t.state t).1 ∷ [],
        )
  push_chars-push_line s line ne e t =
      rw (push_line-header s line ne) (push_chars_text line s ne t ∙ rw e)

  -- In a header whose line is empty, of a request that announces no content and has none, `push_line` does not end the
  -- request with its blank line: it takes the next line, whatever it is, for content. `push_char` ends it with the blank line.
  pub push_line_overruns :
      (s : HttpStreamSplitter) (line : Bytes)
      → s.state ≡ parse_header
      → s.line_buffer ≡ []
      → s.content_buffer ≡ []
      → s.content_oktets_counter ≡ 0
      → s.content_length ≡ 0
      → ((push_char boost s b'\n').1 ≡ true)
        × ((push_line boost s []).1 ≡ false)
        × ((push_line boost (push_line boost s []).0 line).1 ≡ true)
        × ((push_line boost (push_line boost s []).0 line).0.content_buffer ≡ line)
  unfolding push_char take_char header_char push_line push_line_in process_line_buffer process_line
      header_line complete
  push_line_overruns s line h e b z l = (ground arith, ground arith, ground arith, ground arith)
