-- ===== src/Serve/Reply/Tests.antt =====
-- Replies printed with natural numbers in the place of floats, after the unit tests of
-- src/serve/mod.rs, and the theorem at a concrete input.
use reinstinct.Base.{ℕ, zero, suc, ◌≡◌, refl, true, some, List, [], ◌∷◌, ok}
use reinstinct.Base.SmallFloats.{small_floats}
use reinstinct.Base.Text.{codes}
use reinstinct.Base.Utf8.{is_utf8}
use reinstinct.Serve.Json.{Json, null, write_num}
use reinstinct.Serve.Json.Naturals.{naturals}
use reinstinct.Serve.Json.Parse.{parse}
use reinstinct.Serve.Json.Printable.{IsPrintable, IsReadable}
use reinstinct.Serve.Reply.{chat_completion_response, finish_reason, render_chat_logprobs}
use reinstinct.Serve.Reply.Content.{content_of, finish_of, chat_completion_response-content}
use reinstinct.Serve.Thinking.{strip_thinking_channels, best_end, rfind, starts_with, trim_start}

-- A coarse conversion of counts, and of floats.
abbrev of_nat : ℕ → ℕ
of_nat zero = 0
of_nat (suc k) = 12

abbrev widen : ℕ → ℕ
widen n = n

numbers : (k : ℕ) → IsReadable naturals (of_nat k)
unfolding write_num
numbers zero = record {
  first = b'0';
  others = [];
  text = refl;
  starts = refl;
  bytes = (refl, tt);
  back = refl;
}
numbers (suc k) = record {
  first = b'1';
  others = b'2' ∷ [];
  text = refl;
  starts = refl;
  bytes = (refl, (refl, tt));
  back = refl;
}

empty_logprobs_render_as_null : render_chat_logprobs naturals small_floats of_nat widen [] ≡ null
unfolding render_chat_logprobs
empty_logprobs_render_as_null = refl

abbrev reply : List ℕ
reply = codes "<think>well</think> 391"

model_utf8 : is_utf8 (codes "qwen") ≡ true
unfolding is_utf8
model_utf8 = refl

content_utf8 : is_utf8 (strip_thinking_channels reply) ≡ true
unfolding is_utf8 strip_thinking_channels best_end rfind starts_with trim_start
content_utf8 = refl

no_logprobs : IsPrintable naturals (render_chat_logprobs naturals small_floats of_nat widen [])
unfolding IsPrintable render_chat_logprobs
no_logprobs = tt

chat_completion_response-content_example :
    (j : Json ℕ) × (parse naturals (
        chat_completion_response naturals small_floats of_nat widen 3 100
          (codes "qwen")
          reply
          9
          4
          true
          [])
      ≡ ok j)
    × (content_of j ≡ some (strip_thinking_channels reply))
    × (finish_of j ≡ some (finish_reason true))
chat_completion_response-content_example =
    chat_completion_response-content naturals small_floats of_nat widen 3 100 (codes "qwen") reply 9
      4 true [] numbers model_utf8 content_utf8 no_logprobs
