-- ===== src/Serve/Reply.antt =====
-- The JSON of the replies: src/serve/mod.rs. A text is its UTF-8 bytes; the time and the number of
-- the request are arguments.
pub mod Content
mod Tests
use reinstinct.Base.{
  ℕ, ◌+◌, ◌*◌, ◌/◌, ◌^◌, ◌-◌, Bool, true, false, Option, some, none, List, [], ◌∷◌, ◌++◌, map, min,
  ltb, ◌==◌, if◌then◌else◌,
}
use reinstinct.Base.Float.{Floats}
use reinstinct.Base.Text.{codes}
use reinstinct.Serve.Generate.{TokenLogprob}
use reinstinct.Serve.Json.{
  Numbers, Json, Items, Fields, null, str, arr, obj, nil, cons, done, field, num, digits, to_string,
}
use reinstinct.Serve.Thinking.{strip_thinking_channels}

pub record ChatDelta : Type 0 where
  pub role : Option (List ℕ)
  pub content : Option (List ℕ)

module _ {F : Type 0} where
  -- `Json::Obj(vec![...])` and `Json::Arr(...)`
  abbrev pub object : List (List ℕ × Json F) → Json F
  object kv = obj (fields_of kv)
    where
      fields_of : List (List ℕ × Json F) → Fields F
      fields_of [] = done
      fields_of ((k, v) ∷ kv) = field k v (fields_of kv)

  abbrev pub items : List (Json F) → Items F
  items [] = nil
  items (v ∷ vs) = cons v (items vs)

  abbrev pub str_or_null : Option (List ℕ) → Json F
  str_or_null none = null
  str_or_null (some s) = str s

  -- The fields of a delta that it has.
  unfoldable pub delta_fields : ChatDelta → List (List ℕ × Json F)
  delta_fields delta = listed (codes "role") delta.role ++ listed (codes "content") delta.content
    where
      listed : List ℕ → Option (List ℕ) → List (List ℕ × Json F)
      listed key none = []
      listed key (some s) = (key, str s) ∷ []

abbrev pub finish_reason : Bool → List ℕ
finish_reason true = codes "stop"
finish_reason false = codes "length"

-- `format!("cmpl-{}", n)` and `format!("chatcmpl-{}", n)`, for a u64.
unfoldable pub request_name : Bool → ℕ → List ℕ
unfolding digits
request_name is_chat n = (if is_chat then codes "chatcmpl-" else codes "cmpl-") ++ digits 20 n

-- `as f64` of a natural number and of an f32.
module _ (nm : Numbers) (fl : Floats) (of_nat : ℕ → nm.F) (widen : fl.F → nm.F) where
  open nm use {F}

  abbrev pub number : ℕ → Json F
  number n = num (of_nat n)

  abbrev pub alternative : List ℕ × fl.F → Json F
  alternative (tk, l) = object ((codes "token", str tk) ∷ (codes "logprob", num (widen l)) ∷ [])

  unfoldable pub chat_logprob : TokenLogprob fl → Json F
  chat_logprob t = object (
      (codes "token", str t.token)
      ∷ (codes "logprob", num (widen t.logprob))
      ∷ (codes "top_logprobs", arr (items (map alternative t.top_alts)))
      ∷ [])

  unfoldable pub render_chat_logprobs : List (TokenLogprob fl) → Json F
  unfolding chat_logprob
  render_chat_logprobs [] = null
  render_chat_logprobs (t ∷ ts) =
      object ((codes "content", arr (items (map chat_logprob (t ∷ ts)))) ∷ [])

  unfoldable pub render_text_logprobs : List (TokenLogprob fl) → Json F
  render_text_logprobs [] = null
  render_text_logprobs (t ∷ ts) = object (
      (codes "tokens", arr (items (map (λ (t : TokenLogprob fl). str t.token) (t ∷ ts))))
      ∷ (
        codes "token_logprobs",
        arr (items (map (λ (t : TokenLogprob fl). num (widen t.logprob)) (t ∷ ts))),
      )
      ∷ (codes "top_logprobs", arr (items (map ranked (t ∷ ts))))
      ∷ [])
    where
      ranked : TokenLogprob fl → Json F
      ranked t = object (map (λ (tk, l). (tk, num (widen l))) t.top_alts)

  -- The fields that all replies share.
  abbrev pub envelope :
      List ℕ → List ℕ → ℕ → List ℕ → List (Json F) → List (List ℕ × Json F) → Json F
  envelope id kind now model choices rest = object (
      (codes "id", str id)
      ∷ (codes "object", str kind)
      ∷ (codes "created", number now)
      ∷ (codes "model", str model)
      ∷ (codes "choices", arr (items choices))
      ∷ rest)

  abbrev one_text_logprob : Option (TokenLogprob fl) → Json F
  one_text_logprob none = null
  one_text_logprob (some t) = render_text_logprobs (t ∷ [])

  abbrev one_chat_logprob : Option (TokenLogprob fl) → Json F
  one_chat_logprob none = null
  one_chat_logprob (some t) = render_chat_logprobs (t ∷ [])

  unfoldable pub completion_stream_chunk_json :
      ℕ → List ℕ → List ℕ → List ℕ → Option (List ℕ) → Option (TokenLogprob fl) → Json F
  unfolding render_text_logprobs
  completion_stream_chunk_json now id model text finish logprob =
      envelope id (codes "text_completion") now model
        (object (
            (codes "text", str text)
            ∷ (codes "index", number 0)
            ∷ (codes "logprobs", one_text_logprob logprob)
            ∷ (codes "finish_reason", str_or_null finish)
            ∷ [])
          ∷ [])
        []

  unfoldable pub chat_stream_chunk_json :
      ℕ → List ℕ → List ℕ → ChatDelta → Option (List ℕ) → Option (TokenLogprob fl) → Json F
  unfolding render_chat_logprobs delta_fields
  chat_stream_chunk_json now id model delta finish logprob =
      envelope id (codes "chat.completion.chunk") now model
        (object (
            (codes "index", number 0)
            ∷ (codes "delta", object (delta_fields delta))
            ∷ (codes "logprobs", one_chat_logprob logprob)
            ∷ (codes "finish_reason", str_or_null finish)
            ∷ [])
          ∷ [])
        []

  abbrev usage : ℕ → ℕ → List (List ℕ × Json F)
  usage n_prompt n_completion =
      (codes "prompt_tokens", number n_prompt)
      ∷ (codes "completion_tokens", number n_completion)
      ∷ (codes "total_tokens", number (n_prompt + n_completion))
      ∷ []

  unfoldable pub completion_response_json :
      ℕ → ℕ → List ℕ → List ℕ → ℕ → ℕ → Bool → List (TokenLogprob fl) → Json F
  unfolding render_text_logprobs
  completion_response_json req_counter now model text n_prompt n_completion hit_eos logprobs =
      envelope (request_name false req_counter) (codes "text_completion") now model
        (object (
            (codes "text", str text)
            ∷ (codes "index", number 0)
            ∷ (codes "logprobs", render_text_logprobs logprobs)
            ∷ (codes "finish_reason", str (finish_reason hit_eos))
            ∷ [])
          ∷ [])
        ((codes "usage", object (usage n_prompt n_completion)) ∷ [])

  unfoldable pub chat_completion_response_json :
      ℕ → ℕ → List ℕ → List ℕ → ℕ → ℕ → Bool → List (TokenLogprob fl) → Json F
  unfolding render_chat_logprobs
  chat_completion_response_json req_counter now model text n_prompt n_completion hit_eos logprobs =
      envelope (request_name true req_counter) (codes "chat.completion") now model
        (object (
            (codes "index", number 0)
            ∷ (
              codes "message",
              object (
                  (codes "role", str (codes "assistant"))
                  ∷ (codes "content", str (strip_thinking_channels text))
                  ∷ []),
            )
            ∷ (codes "logprobs", render_chat_logprobs logprobs)
            ∷ (codes "finish_reason", str (finish_reason hit_eos))
            ∷ [])
          ∷ [])
        ((codes "usage", object (usage n_prompt n_completion)) ∷ [])

  unfoldable pub error_body_json : List ℕ → List ℕ → Json F
  error_body_json message kind = object (
      (codes "error", object ((codes "message", str message) ∷ (codes "type", str kind) ∷ [])) ∷ [])

  -- The texts: `Json::to_string` of each.
  unfoldable pub completion_stream_chunk :
      ℕ → List ℕ → List ℕ → List ℕ → Option (List ℕ) → Option (TokenLogprob fl) → List ℕ
  unfolding completion_stream_chunk_json
  completion_stream_chunk now id model text finish logprob =
      to_string nm (completion_stream_chunk_json now id model text finish logprob)

  unfoldable pub chat_stream_chunk :
      ℕ → List ℕ → List ℕ → ChatDelta → Option (List ℕ) → Option (TokenLogprob fl) → List ℕ
  unfolding chat_stream_chunk_json
  chat_stream_chunk now id model delta finish logprob =
      to_string nm (chat_stream_chunk_json now id model delta finish logprob)

  unfoldable pub completion_response :
      ℕ → ℕ → List ℕ → List ℕ → ℕ → ℕ → Bool → List (TokenLogprob fl) → List ℕ
  unfolding completion_response_json
  completion_response req_counter now model text n_prompt n_completion hit_eos logprobs =
      to_string nm
        (completion_response_json req_counter now model text n_prompt n_completion hit_eos logprobs)

  unfoldable pub chat_completion_response :
      ℕ → ℕ → List ℕ → List ℕ → ℕ → ℕ → Bool → List (TokenLogprob fl) → List ℕ
  unfolding chat_completion_response_json
  chat_completion_response req_counter now model text n_prompt n_completion hit_eos logprobs =
      to_string nm (
        chat_completion_response_json req_counter now model text n_prompt n_completion hit_eos
          logprobs)

  unfoldable pub error_body : List ℕ → List ℕ → List ℕ
  unfolding error_body_json
  error_body message kind = to_string nm (error_body_json message kind)
