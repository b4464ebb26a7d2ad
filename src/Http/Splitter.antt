-- ===== src/Http/Splitter.antt =====
-- network/http-common.cpp: `HttpStreamSplitter`, a state machine that cuts a stream of characters or
-- lines into requests. A request with a Content-Length beyond `size_t` is not considered.
pub mod Frame
pub mod Invariant
pub mod Lines
mod Examples
use toolchain_cpp.Common.{
  ℕ, zero, suc, ◌+◌, ◌-◌, Bool, true, false, List, [], ◌∷◌, ◌++◌, Option, none, some, leb, ltb,
  ◌==◌, if◌then◌else◌, Bytes, codes, same, length, take, drop, map,
}
use toolchain_cpp.Http.Text.{BoostAlgorithm, find_char, substr, nonnegative_atol}

pub data State : Type 0 where
  wait_header parse_header read_content : State

pub record HttpStreamSplitter : Type 0 where
  pub state : State
  pub line_buffer : Bytes
  pub content_buffer : Bytes
  pub content_oktets_counter : ℕ
  pub content_length : ℕ
  pub request_method : Bytes
  pub request_url : Bytes
  pub download_name : Bytes

-- The constructor; `reset` leads to the same state.
abbrev pub initial : HttpStreamSplitter
initial = record {
  state = wait_header;
  line_buffer = [];
  content_buffer = [];
  content_oktets_counter = 0;
  content_length = 0;
  request_method = [];
  request_url = [];
  download_name = [];
}

unfoldable pub reset : HttpStreamSplitter → HttpStreamSplitter
reset s = initial

abbrev pub upper_content_disposition : Bytes
upper_content_disposition = codes "CONTENT-DISPOSITION"

abbrev pub upper_content_length : Bytes
upper_content_length = codes "CONTENT-LENGTH"

abbrev pub blanks : Bytes
blanks = codes " \t"

-- The name between the first two quotes, if there are two.
pub quoted_name : Bytes → Option Bytes
quoted_name value = elim (find_char b'"' value) [
  | none ↦ none
  | some i ↦
      let start_ind = i + 1 in
      elim (find_char b'"' (drop start_ind value)) [
        | none ↦ none
        | some n ↦ some (substr value start_ind n)
      ]
]

pub disposition : HttpStreamSplitter → Bytes → HttpStreamSplitter
disposition s value = elim (quoted_name value) [
  | none ↦ s
  | some name ↦ record s { download_name = name }
]

-- The end of a request: all of its content has been read.
pub complete : State → HttpStreamSplitter → HttpStreamSplitter × Bool
complete read_content s =
    if leb s.content_length s.content_oktets_counter
    then (record s { state = wait_header }, true)
    else (s, false)
complete _ s = (s, false)

module _ (boost : BoostAlgorithm) where
  open boost use {trim, split, to_upper}

  -- The tokens of a request line: method, URL and protocol, and others, which are ignored.
  pub request_line : HttpStreamSplitter → List Bytes → HttpStreamSplitter
  request_line s (method ∷ url ∷ protocol ∷ rest) =
      if same (take 4 (to_upper protocol)) (codes "HTTP")
      then record s {
        state = parse_header;
        request_method = to_upper method;
        request_url = url;
        content_length = 0;
        content_oktets_counter = 0;
        content_buffer = [];
      }
      else s
  request_line s _ = s

  -- The tokens of a header field.
  pub header_field : HttpStreamSplitter → List Bytes → HttpStreamSplitter
  header_field s (name ∷ value ∷ rest) =
      let key = to_upper name in
      let s' = if same key upper_content_disposition then disposition s value else s in
      if same key upper_content_length
      then record s' { content_length = nonnegative_atol value }
      else s'
  header_field s _ = s

  -- The header line in a state other than the first, before it is trimmed.
  pub header_line : HttpStreamSplitter → Bytes → HttpStreamSplitter
  header_line s [] = record s { state = read_content }
  header_line s line = header_field s (map (trim blanks) (split (codes ":") (trim blanks line)))

  pub process_line : State → HttpStreamSplitter → HttpStreamSplitter
  process_line wait_header s = request_line s (split blanks (trim blanks s.line_buffer))
  process_line parse_header s = header_line s s.line_buffer
  process_line read_content s = s

  -- `process_line_buffer`, and the `line_buffer.clear()` that follows each call of it.
  pub process_line_buffer : HttpStreamSplitter → HttpStreamSplitter
  process_line_buffer s = record (process_line s.state s) { line_buffer = [] }

  -- A character of a header.
  pub header_char : HttpStreamSplitter → ℕ → HttpStreamSplitter
  header_char s ch =
      if ch == b'\r'
      then s
      else if ch == b'\n'
      then process_line_buffer s
      else record s { line_buffer = s.line_buffer ++ ch ∷ [] }

  -- The `switch` of `push_char`.
  pub take_char : State → HttpStreamSplitter → ℕ → HttpStreamSplitter
  take_char read_content s ch = record s {
    content_buffer = s.content_buffer ++ ch ∷ [];
    content_oktets_counter = s.content_oktets_counter + 1;
  }
  take_char _ s ch = header_char s ch

  pub push_char : HttpStreamSplitter → ℕ → HttpStreamSplitter × Bool
  push_char s ch = let s' = take_char s.state s ch in complete s'.state s'

  pub push_line_in : State → HttpStreamSplitter → Bytes → HttpStreamSplitter × Bool
  push_line_in read_content s line =
      let content = s.content_buffer ++ line in
      complete read_content
        (record s { content_buffer = content; content_oktets_counter = length content })
  push_line_in _ s line = (process_line_buffer (record s { line_buffer = line }), false)

  pub push_line : HttpStreamSplitter → Bytes → HttpStreamSplitter × Bool
  push_line s line = push_line_in s.state s line

  -- The characters one after another, with the results of the calls.
  unfoldable pub push_chars : HttpStreamSplitter → Bytes → HttpStreamSplitter × List Bool
  push_chars s [] = (s, [])
  push_chars s (ch ∷ rest) =
      let (s', done) = push_char s ch in
      let (s'', flags) = push_chars s' rest in (s'', done ∷ flags)
