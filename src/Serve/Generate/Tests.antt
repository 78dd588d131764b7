-- ===== src/Serve/Generate/Tests.antt =====
-- Replies generated over a small device, and the theorems at concrete inputs: src/serve/mod.rs.
use reinstinct.Base.{
  ℕ, zero, suc, ◌+◌, ◌≡◌, refl, ap, sym, ◌∙◌, append_assoc, take, ltb, if◌then◌else◌, Outcome, Bool,
  true, false, Option, some, none, List, [], ◌∷◌, ◌++◌, length, min, ok, panic,
}
use reinstinct.Base.Text.{codes}
use reinstinct.Base.Utf8.{chars, encode_utf8}
use reinstinct.Base.SmallFloats.{small_floats}
use reinstinct.Chat.Detect.{qwen35}
use reinstinct.Sampling.Xorshift.{new}
use reinstinct.Serve.Request.{GenReq, raw}
use reinstinct.Serve.Generate.{
  GenError, Generated, Stepper, QwenDevice, Decoding, TokenLogprob, deliver,
}
use reinstinct.Serve.Generate.Qwen.{QwenModel, generate_qwen}
use reinstinct.Serve.Generate.Given.{Replies, generate_qwen-Replies}
use reinstinct.Serve.Generate.Deltas.{IsAppendOnly, StartsChar}
use reinstinct.Tokenizer
use reinstinct.Tokenizer.{Tokenizer, bytes_to_unicode, vocab_of}

abbrev one_token : Tokenizer
one_token = record {
  tokens = (b'a' ∷ []) ∷ [];
  byte_decoder = [];
  byte_encoder = bytes_to_unicode;
  vocab_map = vocab_of 0 ((b'a' ∷ []) ∷ []) [];
  merge_ranks = [];
  find_from_pos = λ text from. some (from, min (from + 1) (length text));
  eos_id = 7;
}

abbrev kept : List ℕ → List ℕ
kept s = s

decode_cons :
    (t : ℕ) (xs : List ℕ)
    → Tokenizer.decode kept one_token (t ∷ xs)
      ≡ Tokenizer.decode kept one_token (t ∷ []) ++ Tokenizer.decode kept one_token xs
unfolding Tokenizer.decode chars encode_utf8
decode_cons zero xs = refl
decode_cons (suc t) xs = refl

abbrev text_of : List ℕ → List ℕ
text_of = Tokenizer.decode kept one_token

decode_snoc : (xs : List ℕ) (t : ℕ) → text_of (xs ++ (t ∷ [])) ≡ text_of xs ++ text_of (t ∷ [])
unfolding Tokenizer.decode chars
decode_snoc [] t = refl
decode_snoc (x ∷ xs) t =
    decode_cons x (xs ++ (t ∷ []))
    ∙ ap (λ s. text_of (x ∷ []) ++ s) (decode_snoc xs t)
    ∙ sym (append_assoc (text_of (x ∷ [])) (text_of xs) (text_of (t ∷ [])))
    ∙ ap (λ s. s ++ text_of (t ∷ [])) (sym (decode_cons x xs))

starts : (t : ℕ) → StartsChar (text_of (t ∷ []))
unfolding Tokenizer.decode chars encode_utf8
starts zero = refl
starts (suc t) = refl

one_token-IsAppendOnly : IsAppendOnly text_of
unfolding Tokenizer.decode chars
one_token-IsAppendOnly = record {
  empty = refl;
  grows = λ xs t. (text_of (t ∷ []), decode_snoc xs t, starts t);
}

-- A device that favours token 0 for two tokens and then token 1.
abbrev logits_at : ℕ → List ℕ
logits_at n = if ltb n 3 then 9 ∷ 4 ∷ [] else 4 ∷ 9 ∷ []

abbrev stepper : Stepper small_floats
stepper = record {
  State = ℕ;
  Graph = ℕ;
  launch = λ t st g. ok (st + 1);
  finish = λ st. ok (logits_at st, st);
  forward_token = λ t st. ok (logits_at (st + 1), st + 1);
}

abbrev qwen_device : QwenDevice stepper
qwen_device = record {
  reset = λ st. ok 0;
  forward_tokens_batched = λ ts st. ok (logits_at (length ts), length ts);
  forward_tokens = λ ts st. ok (logits_at (length ts), length ts);
  capture_forward_graph = λ st. ok (7, st);
}

abbrev model : QwenModel
model = record { tok = one_token; think = qwen35; think_closers = []; eos = 1; max_seq = 64 }

abbrev request : GenReq small_floats
request = record {
  prompt = raw (codes "a");
  max_tokens = 5;
  sampler = record {
    temperature = 1;
    top_k = 1;
    top_p = 2;
    min_p = 1;
    repetition_penalty = 2;
    repetition_window = 0;
    frequency_penalty = 1;
    presence_penalty = 1;
    mirostat = none;
    seed = 3;
  };
  use_speculative = none;
  speculative_k = none;
  think = record { enable_thinking = none; reasoning_effort = none };
  speculative_p_min = 1;
  request_timeout = none;
  stream = true;
  stream_include_usage = false;
  top_logprobs_n = 0;
}

-- The texts so far; the client never leaves.
abbrev collect : List (List ℕ) → List ℕ → Option (TokenLogprob small_floats) → List (List ℕ) × Bool
collect s delta lp = (s ++ (delta ∷ []), true)

abbrev to_bits : ℕ → ℕ
to_bits n = n

abbrev as_listed : List (ℕ × ℕ) → List (ℕ × ℕ)
as_listed xs = xs

abbrev front : ℕ → List (ℕ × ℕ) → List (ℕ × ℕ)
front n xs = take n xs

abbrev reply : List (List ℕ) × Outcome GenError (Generated small_floats × Option ℕ × ℕ)
reply =
    generate_qwen small_floats stepper qwen_device true to_bits to_bits as_listed front kept
      (λ i. false) (List (List ℕ)) collect model request none 0 []

-- A four-byte character that comes in two tokens: the first one was sent as the three bytes of the
-- replacement character, and the slice behind them panics.
abbrev split_glyph : Decoding small_floats stepper
split_glyph = record {
  logits = [];
  sp = request.sampler;
  rng = new 3;
  counts = [];
  out = 5 ∷ 6 ∷ [];
  answer_start = 0;
  prev_text_len = 3;
  full_text = 0xf0 ∷ 0x9f ∷ 0x98 ∷ 0x80 ∷ [];
  all_lp = [];
  state = 2;
}

split_glyph_panics :
    deliver small_floats stepper (List (List ℕ)) collect none split_glyph [] ≡ ([], panic)
unfolding deliver
split_glyph_panics = refl

generate_qwen-Replies_example :
    Replies small_floats stepper qwen_device true to_bits to_bits as_listed front kept
      (λ i. false)
      (List (List ℕ))
      collect
      model
      request
      reply.1
generate_qwen-Replies_example =
    generate_qwen-Replies small_floats stepper qwen_device true to_bits to_bits as_listed front kept
      (λ i. false) (List (List ℕ)) collect model request none 0 []
