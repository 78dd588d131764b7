-- ===== src/Serve/Reply/Content.antt =====
-- The reply to a chat request, read by its client: src/serve/mod.rs.
use reinstinct.Base.{
  ℕ, zero, suc, ◌+◌, ◌/◌, ◌≤◌, ltb, leb, ltb→lt, Bool-cases, inl, inr, All, All-append, ◌≡◌, refl,
  arith, Bool, true, false, Option, some, none, List, [], ◌∷◌, map, ok,
}
use reinstinct.Base.Float.{Floats}
use reinstinct.Base.Text.{codes}
use reinstinct.Base.Utf8.{is_utf8, scan, scan_first, at_start}
use reinstinct.Serve.Generate.{TokenLogprob}
use reinstinct.Serve.Json.{Numbers, Json, arr, cons, get, find, text_eq, as_str, digits}
use reinstinct.Serve.Json.Depth.{depth, depth_items}
use reinstinct.Serve.Json.Parse.{max_depth, parse}
use reinstinct.Serve.Json.Printable.{IsPrintable, IsReadable}
use reinstinct.Serve.Json.RoundTrip.{parse-to_string}
use reinstinct.Serve.Reply.{
  chat_completion_response, chat_completion_response_json, render_chat_logprobs, chat_logprob,
  alternative, items, request_name, finish_reason,
}
use reinstinct.Serve.Thinking.{strip_thinking_channels}

module _ {F : Type 0} where
  abbrev first : Option (Json F) → Option (Json F)
  first (some (arr (cons v vs))) = some v
  first _ = none

  abbrev at : List ℕ → Option (Json F) → Option (Json F)
  at key none = none
  at key (some j) = get key j

  abbrev text_of : Option (Json F) → Option (List ℕ)
  text_of none = none
  text_of (some j) = as_str j

  -- `choices[0].message.content`, as a client reads it.
  unfoldable pub content_of : Json F → Option (List ℕ)
  content_of j =
      text_of (at (codes "content") (at (codes "message") (first (get (codes "choices") j))))

  -- `choices[0].finish_reason`.
  unfoldable pub finish_of : Json F → Option (List ℕ)
  finish_of j = text_of (at (codes "finish_reason") (first (get (codes "choices") j)))

le→leb : (a b : ℕ) → a ≤ b → leb a b ≡ true
le→leb a b h = ground arith

ascii_scan : (s : List ℕ) → All (λ b. b ≤ 127) s → scan at_start s ≡ true
unfolding scan scan_first
ascii_scan [] h = refl
ascii_scan (b ∷ s) (h, hs) = rw (le→leb b 127 h) (ascii_scan s hs)

digits_ascii : (f n : ℕ) → All (λ b. b ≤ 127) (digits f n)
unfolding digits
digits_ascii zero n = tt
digits_ascii (suc f) n = elim (Bool-cases (ltb n 10)) [
  | inl small ↦ let lt = ltb→lt n 10 small in rw small (omega arith, tt)
  | inr large ↦
      rw large (All-append _ (digits f (n / 10)) _ (digits_ascii f (n / 10)) (omega arith, tt))
]

request_name-utf8 : (is_chat : Bool) (n : ℕ) → is_utf8 (request_name is_chat n) ≡ true
unfolding request_name is_utf8
request_name-utf8 true n = ascii_scan (digits 20 n) (digits_ascii 20 n)
request_name-utf8 false n = ascii_scan (digits 20 n) (digits_ascii 20 n)

finish_reason-utf8 : (eos : Bool) → is_utf8 (finish_reason eos) ≡ true
unfolding is_utf8
finish_reason-utf8 true = refl
finish_reason-utf8 false = refl

assistant_utf8 : is_utf8 (codes "assistant") ≡ true
unfolding is_utf8
assistant_utf8 = refl

chat_completion_utf8 : is_utf8 (codes "chat.completion") ≡ true
unfolding is_utf8
chat_completion_utf8 = refl

choices_utf8 : is_utf8 (codes "choices") ≡ true
unfolding is_utf8
choices_utf8 = refl

completion_tokens_utf8 : is_utf8 (codes "completion_tokens") ≡ true
unfolding is_utf8
completion_tokens_utf8 = refl

content_utf8 : is_utf8 (codes "content") ≡ true
unfolding is_utf8
content_utf8 = refl

created_utf8 : is_utf8 (codes "created") ≡ true
unfolding is_utf8
created_utf8 = refl

finish_reason_utf8 : is_utf8 (codes "finish_reason") ≡ true
unfolding is_utf8
finish_reason_utf8 = refl

id_utf8 : is_utf8 (codes "id") ≡ true
unfolding is_utf8
id_utf8 = refl

index_utf8 : is_utf8 (codes "index") ≡ true
unfolding is_utf8
index_utf8 = refl

logprobs_utf8 : is_utf8 (codes "logprobs") ≡ true
unfolding is_utf8
logprobs_utf8 = refl

message_utf8 : is_utf8 (codes "message") ≡ true
unfolding is_utf8
message_utf8 = refl

model_utf8 : is_utf8 (codes "model") ≡ true
unfolding is_utf8
model_utf8 = refl

object_utf8 : is_utf8 (codes "object") ≡ true
unfolding is_utf8
object_utf8 = refl

prompt_tokens_utf8 : is_utf8 (codes "prompt_tokens") ≡ true
unfolding is_utf8
prompt_tokens_utf8 = refl

role_utf8 : is_utf8 (codes "role") ≡ true
unfolding is_utf8
role_utf8 = refl

total_tokens_utf8 : is_utf8 (codes "total_tokens") ≡ true
unfolding is_utf8
total_tokens_utf8 = refl

usage_utf8 : is_utf8 (codes "usage") ≡ true
unfolding is_utf8
usage_utf8 = refl

module _ (nm : Numbers) (fl : Floats) (of_nat : ℕ → nm.F) (widen : fl.F → nm.F) where
  depth-alternatives :
      (alts : List (List ℕ × fl.F))
      → depth_items (items (map (alternative nm fl of_nat widen) alts)) ≤ 1
  unfolding depth
  depth-alternatives [] = omega arith
  depth-alternatives ((tk, l) ∷ alts) = omega (arith, depth-alternatives alts)

  depth-chat_logprobs :
      (ts : List (TokenLogprob fl))
      → depth_items (items (map (chat_logprob nm fl of_nat widen) ts)) ≤ 3
  unfolding depth chat_logprob
  depth-chat_logprobs [] = omega arith
  depth-chat_logprobs (t ∷ ts) =
      omega (arith, depth-alternatives t.top_alts, depth-chat_logprobs ts)

  depth-render :
      (ts : List (TokenLogprob fl)) → depth (render_chat_logprobs nm fl of_nat widen ts) ≤ 5
  unfolding depth render_chat_logprobs
  depth-render [] = omega arith
  depth-render (t ∷ ts) = omega (arith, depth-chat_logprobs (t ∷ ts))

  response-depth :
      (n now : ℕ) (model text : List ℕ) (n_p n_c : ℕ) (eos : Bool) (lps : List (TokenLogprob fl))
      → depth (chat_completion_response_json nm fl of_nat widen n now model text n_p n_c eos lps)
        ≤ max_depth
  unfolding depth chat_completion_response_json
  response-depth n now model text n_p n_c eos lps = omega (arith, depth-render lps)

  -- The logprobs of a reply can be printed.
  abbrev pub Printables : List (TokenLogprob fl) → Type 0
  Printables lps = IsPrintable nm (render_chat_logprobs nm fl of_nat widen lps)

  response-IsPrintable :
      (n now : ℕ) (model text : List ℕ) (n_p n_c : ℕ) (eos : Bool) (lps : List (TokenLogprob fl))
      → ((k : ℕ) → IsReadable nm (of_nat k))
      → is_utf8 model ≡ true
      → is_utf8 (strip_thinking_channels text) ≡ true
      → Printables lps
      → IsPrintable nm
          (chat_completion_response_json nm fl of_nat widen n now model text n_p n_c eos lps)
  unfolding IsPrintable chat_completion_response_json
  response-IsPrintable n now model text n_p n_c eos lps numbers model_ok text_ok lps_ok = (
    id_utf8,
    request_name-utf8 true n,
    (
      object_utf8,
      chat_completion_utf8,
      (
        created_utf8,
        numbers now,
        (
          model_utf8,
          model_ok,
          (
            choices_utf8,
            (
              (
                index_utf8,
                numbers 0,
                (
                  message_utf8,
                  (role_utf8, assistant_utf8, (content_utf8, text_ok, tt)),
                  (logprobs_utf8, lps_ok, (finish_reason_utf8, finish_reason-utf8 eos, tt)),
                ),
              ),
              tt,
            ),
            (
              usage_utf8,
              (
                prompt_tokens_utf8,
                numbers n_p,
                (completion_tokens_utf8, numbers n_c, (total_tokens_utf8, numbers (n_p + n_c), tt)),
              ),
              tt,
            ),
          ),
        ),
      ),
    ),
  )

  -- The reply to a chat request is JSON that a client reads back: its content is the text behind the
  -- thinking preamble, and its finish reason tells whether the reply ended by itself. Natural numbers
  -- and the logprobs are printed as JSON numbers, the model's name and the content are UTF-8.
  pub chat_completion_response-content :
      (n now : ℕ) (model text : List ℕ) (n_p n_c : ℕ) (eos : Bool) (lps : List (TokenLogprob fl))
      → ((k : ℕ) → IsReadable nm (of_nat k))
      → is_utf8 model ≡ true
      → is_utf8 (strip_thinking_channels text) ≡ true
      → Printables lps
      → (j : Json nm.F) × (parse nm
            (chat_completion_response nm fl of_nat widen n now model text n_p n_c eos lps)
          ≡ ok j)
        × (content_of j ≡ some (strip_thinking_channels text))
        × (finish_of j ≡ some (finish_reason eos))
  unfolding chat_completion_response chat_completion_response_json content_of finish_of get find
      as_str text_eq
  chat_completion_response-content n now model text n_p n_c eos lps numbers model_ok text_ok
        lps_ok =
      let j = chat_completion_response_json nm fl of_nat widen n now model text n_p n_c eos lps in
      (
        j,
        parse-to_string nm j
            (response-IsPrintable n now model text n_p n_c eos lps numbers model_ok text_ok lps_ok)
            (response-depth n now model text n_p n_c eos lps),
        refl,
        refl,
      )
