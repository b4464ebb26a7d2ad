-- ===== src/Http/Splitter/Frame.antt =====
-- Where a request ends in the stream.
use toolchain_cpp.Common.{
  ℕ, zero, suc, ◌+◌, ◌<◌, ◌≡◌, refl, ap, ◌∙◌, arith, Bool, true, false, List, [], ◌∷◌, ◌++◌,
  append_assoc, Bytes, length,
}
use toolchain_cpp.Http.Text.{BoostAlgorithm}
use toolchain_cpp.Http.Splitter.{
  HttpStreamSplitter, wait_header, parse_header, read_content, process_line_buffer, header_char,
  take_char, complete, push_char, push_chars, process_line, header_line,
}

-- The flags of a run that ends a request with its last character.
abbrev pub ends_at_last : ℕ → List Bool
ends_at_last zero = true ∷ []
ends_at_last (suc n) = false ∷ ends_at_last n

-- The state after the content `body`.
abbrev pub with_content : HttpStreamSplitter → Bytes → HttpStreamSplitter
with_content s body = record s {
  state = wait_header;
  content_buffer = s.content_buffer ++ body;
  content_oktets_counter = s.content_length;
}

abbrev added : HttpStreamSplitter → ℕ → HttpStreamSplitter
added s c = record s {
  content_buffer = s.content_buffer ++ c ∷ [];
  content_oktets_counter = s.content_oktets_counter + 1;
}

module _ (boost : BoostAlgorithm) where
  pub push_chars-cons :
      (s : HttpStreamSplitter) (c : ℕ) (rest : Bytes) {t u : HttpStreamSplitter} {done : Bool}
      {flags : List Bool}
      → push_char boost s c ≡ (t, done)
      → push_chars boost t rest ≡ (u, flags)
      → push_chars boost s (c ∷ rest) ≡ (u, done ∷ flags)
  unfolding push_chars
  push_chars-cons s c rest h k = rw (h, k)

  pub push_chars-nil : (s : HttpStreamSplitter) → push_chars boost s [] ≡ (s, [])
  unfolding push_chars
  push_chars-nil s = refl

  push_char_inside :
      (s : HttpStreamSplitter) (c : ℕ)
      → s.state ≡ read_content
      → s.content_oktets_counter + 1 < s.content_length
      → push_char boost s c ≡ (added s c, false)
  unfolding push_char take_char complete
  push_char_inside s c h l = ground arith

  push_char_last :
      (s : HttpStreamSplitter) (c : ℕ)
      → s.state ≡ read_content
      → s.content_oktets_counter + 1 ≡ s.content_length
      → push_char boost s c ≡ (with_content s (c ∷ []), true)
  unfolding push_char take_char complete
  push_char_last s c h l = ground arith

  push_char_return :
      (s : HttpStreamSplitter) → s.state ≡ parse_header → push_char boost s b'\r' ≡ (s, false)
  unfolding push_char take_char header_char complete
  push_char_return s h = ground arith

  -- The blank line.
  push_char_blank :
      (s : HttpStreamSplitter)
      → s.state ≡ parse_header
      → s.line_buffer ≡ []
      → push_char boost s b'\n' ≡ complete read_content (record s { state = read_content })
  unfolding push_char take_char header_char process_line_buffer process_line header_line complete
  push_char_blank s h e = ground arith

  -- What is missing of the content is read whatever it holds, and its last character ends the request.
  push_chars-content :
      (s : HttpStreamSplitter) (c : ℕ) (body : Bytes)
      → s.state ≡ read_content
      → s.content_oktets_counter + length (c ∷ body) ≡ s.content_length
      → push_chars boost s (c ∷ body) ≡ (with_content s (c ∷ body), ends_at_last (length body))
  push_chars-content s c [] h l =
      push_chars-cons s c [] (push_char_last s c h (omega arith)) (push_chars-nil _)
  push_chars-content s c (d ∷ body) h l =
      push_chars-cons s c (d ∷ body) (push_char_inside s c h (omega arith)) (
        push_chars-content (added s c) d body h (omega arith)
        ∙ ap
            (λ content. (
              record s {
                state = wait_header;
                content_buffer = content;
                content_oktets_counter = s.content_length;
              },
              ends_at_last (length body),
            ))
            (append_assoc s.content_buffer (c ∷ []) (d ∷ body)))

  from_blank :
      (s : HttpStreamSplitter) (body : Bytes)
      → s.state ≡ parse_header
      → s.line_buffer ≡ []
      → s.content_buffer ≡ []
      → s.content_oktets_counter ≡ 0
      → length body ≡ s.content_length
      → push_chars boost s (b'\n' ∷ body) ≡ (with_content s body, ends_at_last (length body))
  unfolding complete
  from_blank s [] h e b z l =
      push_chars-cons s b'\n' [] (push_char_blank s h e ∙ ground arith) (push_chars-nil _)
  from_blank s (c ∷ body) h e b z l =
      push_chars-cons s b'\n' (c ∷ body) (push_char_blank s h e ∙ ground arith)
        (push_chars-content (record s { state = read_content }) c body refl (omega arith))

  -- In a header whose line is empty and whose content has not begun, a blank line ends the header, and the announced number
  -- of characters follows, whatever they are. The request ends with the last of them, or with the blank line if none is
  -- announced, and its content is those characters.
  pub push_chars_frame :
      (s : HttpStreamSplitter) (body : Bytes)
      → s.state ≡ parse_header
      → s.line_buffer ≡ []
      → s.content_buffer ≡ []
      → s.content_oktets_counter ≡ 0
      → length body ≡ s.content_length
      → push_chars boost s (b'\r' ∷ b'\n' ∷ body)
        ≡ (with_content s body, false ∷ ends_at_last (length body))
  push_chars_frame s body h e b z l =
      push_chars-cons s b'\r' (b'\n' ∷ body) (push_char_return s h) (from_blank s body h e b z l)
