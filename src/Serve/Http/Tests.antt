-- ===== src/Serve/Http/Tests.antt =====
-- Runs of src/serve/http.rs, and its theorem at a concrete input.
use reinstinct.Base.{ℕ, ◌≡◌, refl, List, [], ◌∷◌, ok, err, Ensures}
use reinstinct.Base.Utf8.{is_utf8, chars}
use reinstinct.Serve.Json.Parse.{strip}
use reinstinct.Serve.Http.{Request, read_request, read_headers, too_many_headers}
use reinstinct.Serve.Http.Body.{IsAccepted, read_request-IsAccepted}

abbrev post : List ℕ
post =
    b'P' ∷ b'O' ∷ b'S' ∷ b'T' ∷ b' ' ∷ b'/' ∷ b'v' ∷ b'1' ∷ b' ' ∷ b'H' ∷ b'T' ∷ b'T' ∷ b'P' ∷ b'/'
    ∷ b'1' ∷ b'.' ∷ b'1' ∷ 13 ∷ 10 ∷ b'C' ∷ b'o' ∷ b'n' ∷ b't' ∷ b'e' ∷ b'n' ∷ b't' ∷ b'-' ∷ b'L'
    ∷ b'e' ∷ b'n' ∷ b'g' ∷ b't' ∷ b'h' ∷ b':' ∷ b' ' ∷ b'2' ∷ 13 ∷ 10 ∷ 13 ∷ 10 ∷ b'h' ∷ b'i' ∷ b'!'
    ∷ []

test_read :
    read_request post
    ≡ ok (record {
      method = b'P' ∷ b'O' ∷ b'S' ∷ b'T' ∷ [];
      path = b'/' ∷ b'v' ∷ b'1' ∷ [];
      body = b'h' ∷ b'i' ∷ [];
    })
unfolding read_request is_utf8 chars strip
test_read = refl

-- After 64 headers the blank line is not looked at.
test_limit : read_headers 0 0 (13 ∷ 10 ∷ []) ≡ err too_many_headers
unfolding read_headers
test_limit = refl

read_request-IsAccepted_example :
    Ensures (λ (r : Request). IsAccepted post r.body) (read_request post)
read_request-IsAccepted_example = read_request-IsAccepted post
