-- ===== src/Http/Splitter/Examples.antt =====
-- A request through the splitter, with functions that stand for those of boost, and the theorems there.
use toolchain_cpp.Common.{
  ℕ, ◌-◌, ◌≡◌, refl, arith, Bool, true, false, ◌&&◌, List, [], ◌∷◌, map, Bytes, codes, leb, ◌==◌,
  if◌then◌else◌, same,
}
use toolchain_cpp.Http.Text.{BoostAlgorithm, nonnegative_atol}
use toolchain_cpp.Http.Splitter.{
  HttpStreamSplitter, parse_header, initial, push_char, push_chars, push_line, take_char,
  header_char, process_line_buffer, process_line, request_line, header_line, header_field,
  disposition, complete,
}
use toolchain_cpp.Http.Splitter.Frame.{with_content, push_chars_frame}
use toolchain_cpp.Http.Splitter.Invariant.{IsValid, push_chars-IsValid}
use toolchain_cpp.Http.Splitter.Lines.{push_chars-push_line}

abbrev contains : Bytes → ℕ → Bool
contains [] c = false
contains (x ∷ xs) c = if x == c then true else contains xs c

abbrev skip : Bytes → Bytes → Bytes
skip set [] = []
skip set (c ∷ cs) = if contains set c then skip set cs else c ∷ cs

abbrev backwards : Bytes → Bytes → Bytes
backwards [] out = out
backwards (c ∷ cs) out = backwards cs (c ∷ out)

abbrev add_first : ℕ → List Bytes → List Bytes
add_first c [] = (c ∷ []) ∷ []
add_first c (t ∷ ts) = (c ∷ t) ∷ ts

-- The flag: the character before was a delimiter.
abbrev tokens : Bytes → Bool → Bytes → List Bytes
tokens set delim [] = [] ∷ []
tokens set delim (c ∷ cs) =
    let rest = tokens set (contains set c) cs in
    if contains set c then (if delim then rest else [] ∷ rest) else add_first c rest

abbrev upper : ℕ → ℕ
upper c = if leb b'a' c && leb c b'z' then c - 32 else c

abbrev simple : BoostAlgorithm
simple = record {
  trim = λ set s. backwards (skip set (backwards (skip set s) [])) [];
  split = λ set s. tokens set false s;
  to_upper = map upper;
}

abbrev header : HttpStreamSplitter
header = record initial { state = parse_header; content_length = 3; request_method = codes "POST" }

get_request :
    (push_chars simple initial (codes "post /x HTTP/1.1\r\ncontent-length: 3\r\n")).0
    ≡ record header { request_url = codes "/x" }
unfolding push_chars push_char take_char header_char process_line_buffer process_line request_line
    header_line header_field disposition complete nonnegative_atol same
get_request = refl

header-IsValid : IsValid header
header-IsValid = record { counted = refl; counts = refl; text = tt }

push_chars_frame_example :
    push_chars simple header (codes "\r\nabc")
    ≡ (with_content header (codes "abc"), false ∷ false ∷ false ∷ false ∷ true ∷ [])
push_chars_frame_example = push_chars_frame simple header (codes "abc") refl refl refl refl refl

push_chars-IsValid_example : IsValid (push_chars simple header (codes "\r\nab")).0
push_chars-IsValid_example = push_chars-IsValid simple header (codes "\r\nab") header-IsValid

push_chars-push_line_example : push_chars simple header (codes "a\r\n") ≡ (
    let t = (push_line simple header (codes "a")).0 in
    ((complete t.state t).0, false ∷ false ∷ (complete t.state t).1 ∷ []))
push_chars-push_line_example =
    push_chars-push_line simple header (codes "a") (λ e. cc) refl
      (((λ e. absurd (omega arith)), (λ e. absurd (omega arith))), tt)

abbrev without_content : HttpStreamSplitter
without_content = record header { content_length = 0 }
