-- ===== src/Serve/Http.antt =====
-- Reading a request and writing a response: src/serve/http.rs. A connection is the bytes that it
-- still gives, after which it ends.
pub mod Body
mod Tests
use reinstinct.Base.{
  ℕ, zero, suc, ◌+◌, ◌-◌, ◌*◌, ◌/◌, ◌%◌, ◌^◌, Bool, true, false, not, ◌&&◌, ◌||◌, Option, some,
  none, List, [], ◌∷◌, ◌++◌, map, length, take, ltb, leb, ◌==◌, if◌then◌else◌, Outcome, ok, err,
  ◌>>=◌,
}
use reinstinct.Base.Utf8.{is_utf8, encode_utf8, chars}
use reinstinct.Serve.Json.{digits}
use reinstinct.Serve.Json.Parse.{strip, is_digit}

pub record Request : Type 0 where
  pub method : List ℕ
  pub path : List ℕ
  pub body : List ℕ

pub data HttpError : Type 0 where
  line_not_utf8 request_line_too_long empty_request_line missing_path too_many_headers : HttpError
  header_too_long body_too_long unexpected_eof body_not_utf8 : HttpError

abbrev pub max_body_bytes : ℕ
max_body_bytes = 8 * 1024 * 1024

abbrev pub max_header_bytes : ℕ
max_header_bytes = 16 * 1024

abbrev pub max_headers : ℕ
max_headers = 64

-- The bytes up to a newline and with it, or to the end, and what follows them.
unfoldable pub split_line : List ℕ → List ℕ × List ℕ
split_line [] = ([], [])
split_line (c ∷ cs) =
    let (line, rest) = split_line cs in if c == 10 then (c ∷ [], cs) else (c ∷ line, rest)

unfoldable pub read_line : List ℕ → Outcome HttpError (List ℕ × List ℕ)
unfolding split_line
read_line s =
    let (line, rest) = split_line s in if is_utf8 line then ok (line, rest) else err line_not_utf8

-- `char::is_whitespace`
abbrev pub is_whitespace : ℕ → Bool
is_whitespace c =
    (leb 9 c && leb c 13)
    || c == 0x20
    || c == 0x85
    || c == 0xa0
    || c == 0x1680
    || (leb 0x2000 c && leb c 0x200a)
    || c == 0x2028
    || c == 0x2029
    || c == 0x202f
    || c == 0x205f
    || c == 0x3000

unfoldable pub trim_start : List ℕ → List ℕ
trim_start [] = []
trim_start (c ∷ cs) = let rest = trim_start cs in if is_whitespace c then rest else c ∷ cs

abbrev pub is_nil : List ℕ → Bool
is_nil [] = true
is_nil (c ∷ cs) = false

unfoldable pub trim_end : List ℕ → List ℕ
trim_end [] = []
trim_end (c ∷ cs) =
    let rest = trim_end cs in if is_whitespace c && is_nil rest then [] else c ∷ rest

-- The characters up to the next white space, and what follows them.
unfoldable pub split_word : List ℕ → List ℕ × List ℕ
split_word [] = ([], [])
split_word (c ∷ cs) =
    let (word, rest) = split_word cs in if is_whitespace c then ([], c ∷ cs) else (c ∷ word, rest)

unfoldable pub encode_all : List ℕ → List ℕ
unfolding encode_utf8
encode_all [] = []
encode_all (c ∷ cs) = encode_utf8 c ++ encode_all cs

-- `next` of `split_whitespace`: the word, and the characters behind it.
unfoldable pub next_word : List ℕ → Option (List ℕ × List ℕ)
unfolding trim_start split_word
next_word cs =
    let (word, rest) = split_word (trim_start cs) in if is_nil word then none else some (word, rest)

-- `to_ascii_lowercase`
abbrev pub lower : ℕ → ℕ
lower c = if leb 65 c && leb c 90 then c + 32 else c

unfoldable pub decimal : ℕ → List ℕ → Option ℕ
decimal n [] = if ltb n (2 ^ 64) then some n else none
decimal n (c ∷ cs) = let rest = decimal (n * 10 + (c - 48)) cs in if is_digit c then rest else none

-- `parse::<usize>()`: digits with a plus sign or none in front.
unfoldable pub parse_usize : List ℕ → Option ℕ
unfolding decimal
parse_usize [] = none
parse_usize (c ∷ []) = if is_digit c then some (c - 48) else none
parse_usize (c ∷ d ∷ ds) = if c == b'+' then decimal 0 (d ∷ ds) else decimal 0 (c ∷ d ∷ ds)

-- `content-length:`
abbrev pub content_length_key : List ℕ
content_length_key =
    b'c' ∷ b'o' ∷ b'n' ∷ b't' ∷ b'e' ∷ b'n' ∷ b't' ∷ b'-' ∷ b'l' ∷ b'e' ∷ b'n' ∷ b'g' ∷ b't' ∷ b'h'
    ∷ b':' ∷ []

abbrev pub or_zero : Option ℕ → ℕ
or_zero none = 0
or_zero (some n) = n

-- The content length after a header, given the one before it.
unfoldable pub content_length_of : List ℕ → ℕ → ℕ
unfolding strip trim_start trim_end parse_usize
content_length_of header before = elim (strip content_length_key (map lower header)) [
  | none ↦ before
  | some v ↦ or_zero (parse_usize (trim_end (trim_start v)))
]

-- The loop over the headers, of which the given number may still come.
unfoldable pub read_headers : ℕ → ℕ → List ℕ → Outcome HttpError (ℕ × List ℕ)
unfolding read_line trim_end content_length_of
read_headers zero content_length s = err too_many_headers
read_headers (suc left) content_length s = do
  (h, rest) ← read_line s
  let t = trim_end (chars h)
  let more = read_headers left (content_length_of t content_length) rest
  if is_nil h
      then ok (content_length, rest)
      else if ltb max_header_bytes (length h)
      then err header_too_long
      else if is_nil t
      then ok (content_length, rest)
      else more

unfoldable pub read_body : ℕ → List ℕ → Outcome HttpError (List ℕ)
read_body content_length s =
    let body = take content_length s in
    if ltb max_body_bytes content_length
    then err body_too_long
    else if ltb (length s) content_length
    then err unexpected_eof
    else if is_utf8 body
    then ok body
    else err body_not_utf8

abbrev pub word_or : HttpError → Option (List ℕ × List ℕ) → Outcome HttpError (List ℕ × List ℕ)
word_or why none = err why
word_or why (some w) = ok w

abbrev pub check_line : ℕ → Outcome HttpError (Unit {0})
check_line n = if ltb max_header_bytes n then err request_line_too_long else ok tt

unfoldable pub read_request : List ℕ → Outcome HttpError Request
unfolding read_line next_word encode_all read_headers read_body
read_request s = do
  (line, after_line) ← read_line s
  _ ← check_line (length line)
  (method, after_method) ← word_or empty_request_line (next_word (chars line))
  (path, _) ← word_or missing_path (next_word after_method)
  (content_length, after_head) ← read_headers max_headers 0 after_line
  body ← read_body content_length after_head
  ok (record { method = encode_all method; path = encode_all path; body = body })

abbrev pub version_text : List ℕ
version_text = b'H' ∷ b'T' ∷ b'T' ∷ b'P' ∷ b'/' ∷ b'1' ∷ b'.' ∷ b'1' ∷ b' ' ∷ []

abbrev pub content_type_text : List ℕ
content_type_text =
    13 ∷ 10 ∷ b'C' ∷ b'o' ∷ b'n' ∷ b't' ∷ b'e' ∷ b'n' ∷ b't' ∷ b'-' ∷ b'T' ∷ b'y' ∷ b'p' ∷ b'e'
    ∷ b':' ∷ b' ' ∷ b'a' ∷ b'p' ∷ b'p' ∷ b'l' ∷ b'i' ∷ b'c' ∷ b'a' ∷ b't' ∷ b'i' ∷ b'o' ∷ b'n'
    ∷ b'/' ∷ b'j' ∷ b's' ∷ b'o' ∷ b'n' ∷ 13 ∷ 10 ∷ b'C' ∷ b'o' ∷ b'n' ∷ b't' ∷ b'e' ∷ b'n' ∷ b't'
    ∷ b'-' ∷ b'L' ∷ b'e' ∷ b'n' ∷ b'g' ∷ b't' ∷ b'h' ∷ b':' ∷ b' ' ∷ []

abbrev pub connection_text : List ℕ
connection_text =
    13 ∷ 10 ∷ b'C' ∷ b'o' ∷ b'n' ∷ b'n' ∷ b'e' ∷ b'c' ∷ b't' ∷ b'i' ∷ b'o' ∷ b'n' ∷ b':' ∷ b' '
    ∷ b'c' ∷ b'l' ∷ b'o' ∷ b's' ∷ b'e' ∷ 13 ∷ 10 ∷ 13 ∷ 10 ∷ []

-- What is written of a response; a number has at most 20 digits.
unfoldable pub write_response : ℕ → List ℕ → List ℕ → List ℕ
unfolding digits
write_response status status_text body =
    version_text
    ++ (digits 20 status
        ++ (b' '
            ∷ (status_text
                ++ (content_type_text ++ (digits 20 (length body) ++ (connection_text ++ body))))))
