-- ===== src/Serve/Request/Tests.antt =====
-- Bodies parsed with natural numbers in the place of floats, after the unit tests of
-- src/serve/mod.rs, and the theorems at concrete inputs.
use reinstinct.Base.{ℕ, ◌*◌, ◌≤◌, ◌≡◌, refl, arith, max, min, true, leb, some, List, [], ◌∷◌, ok}
use reinstinct.Base.Text.{codes}
use reinstinct.Base.Utf8.{is_utf8}
use reinstinct.Base.SmallFloats.{small_floats}
use reinstinct.Chat.{ChatMessage, system, user}
use reinstinct.Serve.Json.{Json, Fields, num, bool, obj, done, field, get, find, text_eq, to_string}
use reinstinct.Serve.Json.Naturals.{naturals}
use reinstinct.Serve.Json.Depth.{depth_fields}
use reinstinct.Serve.Json.Printable.{FieldsPrintable, IsPrintable}
use reinstinct.Serve.Request.{Casts, chat, chat_defaults, nanos, top_logprobs}
use reinstinct.Serve.Request.Bodies.{parse_completions, parse_chat_completions, request_of}
use reinstinct.Serve.Request.Bounds.{AreStandard, Answers, IsServable, parse-IsServable}
use reinstinct.Serve.Request.RoundTrip.{chat_body, parse_chat_completions-to_string}

abbrev casts : Casts naturals small_floats
casts = record {
  as_usize = λ n. n;
  as_u64 = λ n. n;
  as_f32 = λ n. n;
  max = max;
  min = min;
  tenth = 1;
  six_hundred = 600;
  from_secs_f64 = λ n. some (n * nanos);
}

casts-AreStandard : AreStandard casts
casts-AreStandard = record {
  at_most = leb;
  nought_nought = refl;
  one_one = refl;
  one_nought = refl;
  max_above = λ n. ground arith;
  min_below = λ n. ground arith;
  min_keeps = λ n h. ground arith;
  seconds = λ n h k. (n * nanos, refl, ground arith);
}

abbrev parse_lp : Json ℕ → ℕ
parse_lp j = top_logprobs (λ n. n) j

logprobs_bool_true_defaults_to_5 : parse_lp (obj (field (codes "logprobs") (bool true) done)) ≡ 5
unfolding top_logprobs get find text_eq
logprobs_bool_true_defaults_to_5 = refl

logprobs_capped_at_20 : parse_lp (obj (field (codes "logprobs") (num 999) done)) ≡ 20
unfolding top_logprobs get find text_eq
logprobs_capped_at_20 = refl

logprobs_omitted_is_zero : parse_lp (obj done) ≡ 0
unfolding top_logprobs get find text_eq
logprobs_omitted_is_zero = refl

-- The separate count plays no part.
logprobs_count_is_ignored :
    parse_lp
      (obj (field (codes "logprobs") (bool true) (field (codes "top_logprobs") (num 2) done)))
    ≡ 5
unfolding top_logprobs get find text_eq
logprobs_count_is_ignored = refl

-- Every number is above its bound.
abbrev body : List ℕ
body =
    codes
      "{\"prompt\":\"a\",\"max_tokens\":9999,\"top_p\":3,\"speculative_k\":9,\"request_timeout_seconds\":900}"

parse-IsServable_example :
    Answers (IsServable small_floats) (parse_completions naturals small_floats casts body)
    × Answers (IsServable small_floats) (parse_chat_completions naturals small_floats casts body)
parse-IsServable_example = parse-IsServable naturals small_floats casts casts-AreStandard body

abbrev hello : ChatMessage
hello = record { role = user; content = codes "hello" }

abbrev rules : ChatMessage
rules = record { role = system; content = codes "be brief" }

hello_utf8 : is_utf8 (codes "hello") ≡ true
unfolding is_utf8
hello_utf8 = refl

rules_utf8 : is_utf8 (codes "be brief") ≡ true
unfolding is_utf8
rules_utf8 = refl

abbrev stream_on : Fields ℕ
stream_on = field (codes "stream") (bool true) done

streamed : FieldsPrintable naturals stream_on
unfolding IsPrintable is_utf8
streamed = (refl, tt, tt)

shallow : depth_fields stream_on ≤ 255
unfolding depth_fields
shallow = omega arith

parse_chat_completions-to_string_example :
    (d : ℕ) × (parse_chat_completions naturals small_floats casts
        (to_string naturals (chat_body (rules ∷ hello ∷ []) stream_on))
      ≡ ok (
          request_of naturals small_floats casts
            (chat_body (rules ∷ hello ∷ []) stream_on)
            (chat_defaults small_floats)
            (chat (rules ∷ hello ∷ []))
            (some d)))
parse_chat_completions-to_string_example =
    parse_chat_completions-to_string naturals small_floats casts casts-AreStandard rules
      (hello ∷ []) stream_on (rules_utf8, (hello_utf8, tt)) streamed shallow
