-- ===== src/Serve/Json/Tests.antt =====
-- Runs of src/serve/json.rs with natural numbers in the place of f64, and its theorems at
-- concrete inputs.
use reinstinct.Base.{ℕ, ◌≤◌, ◌≡◌, refl, arith, true, [], ◌∷◌, ok, err, Ensures}
use reinstinct.Base.Utf8.{is_utf8}
use reinstinct.Serve.Json.{
  Json, null, bool, num, str, arr, obj, nil, cons, done, field, write, write_num, to_string,
}
use reinstinct.Serve.Json.Naturals.{naturals}
use reinstinct.Serve.Json.Depth.{depth}
use reinstinct.Serve.Json.Printable.{IsPrintable, IsReadable}
use reinstinct.Serve.Json.Parse.{
  max_depth, value, skip_ws, value_at, object, read_chars, read_escape, string, parse, too_deep,
  trailing_data, unexpected_end,
}
use reinstinct.Serve.Json.RoundTrip.{parse-to_string}
use reinstinct.Serve.Json.Total.{parse-Ensures}
use reinstinct.Serve.Json.Deep.{brackets, parse-too_deep}

-- {"a":[12,"x\n",null],"b":true}
abbrev request : Json ℕ
request = obj (
    field (b'a' ∷ []) (arr (cons (num 12) (cons (str (b'x' ∷ 10 ∷ [])) (cons null nil))))
      (field (b'b' ∷ []) (bool true) done))

test_print : to_string naturals (arr (cons (num 12) nil)) ≡ b'[' ∷ b'1' ∷ b'2' ∷ b']' ∷ []
unfolding to_string write
test_print = refl

test_trailing : parse naturals (b'{' ∷ b'}' ∷ b' ' ∷ b'e' ∷ []) ≡ err trailing_data
unfolding parse value skip_ws value_at object string read_chars read_escape is_utf8
test_trailing = refl

test_empty : parse naturals (b' ' ∷ []) ≡ err unexpected_end
unfolding parse value skip_ws value_at object string read_chars read_escape is_utf8
test_empty = refl

-- Both halves of an emoji's surrogate pair are read as the replacement character.
test_surrogates :
    parse naturals (
      b'"' ∷ b'\\' ∷ b'u' ∷ b'd' ∷ b'8' ∷ b'3' ∷ b'd' ∷ b'\\' ∷ b'u' ∷ b'd' ∷ b'e' ∷ b'0' ∷ b'0'
      ∷ b'"' ∷ [])
    ≡ ok (str (0xef ∷ 0xbf ∷ 0xbd ∷ 0xef ∷ 0xbf ∷ 0xbd ∷ []))
unfolding parse value skip_ws value_at object string read_chars read_escape is_utf8
test_surrogates = refl

-- `\u+041`
test_plus :
    parse naturals (b'"' ∷ b'\\' ∷ b'u' ∷ b'+' ∷ b'0' ∷ b'4' ∷ b'1' ∷ b'"' ∷ [])
    ≡ ok (str (b'A' ∷ []))
unfolding parse value skip_ws value_at object string read_chars read_escape is_utf8
test_plus = refl

twelve : IsReadable naturals 12
unfolding write_num
twelve = record {
  first = b'1';
  others = b'2' ∷ [];
  text = refl;
  starts = refl;
  bytes = (refl, (refl, tt));
  back = refl;
}

request-IsPrintable : IsPrintable naturals request
unfolding IsPrintable is_utf8
request-IsPrintable = (refl, (twelve, (refl, (tt, tt))), (refl, tt, tt))

request_depth : depth request ≤ max_depth
unfolding depth
request_depth = omega arith

parse-to_string_example : parse naturals (to_string naturals request) ≡ ok request
parse-to_string_example = parse-to_string naturals request request-IsPrintable request_depth

parse-Ensures_example :
    Ensures (λ j. depth j ≤ max_depth) (parse naturals (b'[' ∷ b'1' ∷ b',' ∷ []))
parse-Ensures_example = parse-Ensures naturals (b'[' ∷ b'1' ∷ b',' ∷ [])

parse-too_deep_example : parse naturals (brackets 300 (b']' ∷ [])) ≡ err too_deep
parse-too_deep_example = parse-too_deep naturals 300 (b']' ∷ []) (omega arith)
