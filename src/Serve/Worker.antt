-- ===== src/Serve/Worker.antt =====
-- The worker that owns the device and its counters: `worker` and `Metrics` of src/serve/mod.rs. A job
-- is served with its messages as a list; whether a message still finds its receiver, the clock and the
-- measured times are arguments.
pub mod Jobs
pub mod Answer
mod Tests
use reinstinct.Base.{
  ℕ, zero, suc, ◌+◌, ◌*◌, ◌-◌, ◌%◌, ◌^◌, ◌⊎◌, inl, inr, Bool, true, false, not, Option, some, none,
  List, [], ◌∷◌, ◌++◌, length, min, ltb, ◌==◌, if◌then◌else◌,
}
use reinstinct.Base.Float.{Floats}
use reinstinct.Base.Text.{codes}
use reinstinct.Serve.Generate.{GenError, Generated, TokenLogprob}
use reinstinct.Serve.Json.{Numbers, Json, num, str, to_string}
use reinstinct.Serve.Reply.{
  chat_stream_chunk, completion_stream_chunk, chat_completion_response, completion_response,
  error_body, request_name, finish_reason, envelope, object, number,
}
use reinstinct.Serve.Request.{GenReq, PromptInput, raw, chat, Refusal, Reason}
use reinstinct.Serve.Thinking
use reinstinct.Serve.Thinking.{ThinkingStripStream, push, flush}

pub data Target : Type 0 where
  big small embed : Target

pub record Metrics : Type 0 where
  pub requests_total : ℕ
  pub requests_ok : ℕ
  pub requests_4xx : ℕ
  pub requests_5xx : ℕ
  pub prompt_tokens : ℕ
  pub completion_tokens : ℕ
  pub decode_us_total : ℕ
  pub requests_eos : ℕ
  pub requests_length : ℕ
  pub panics_recovered : ℕ
  pub start_unix : ℕ

-- `fetch_add` on a u64.
abbrev pub add_u64 : ℕ → ℕ → ℕ
add_u64 n k = (n + k) % 2 ^ 64

pub record HttpReply : Type 0 where
  pub status : ℕ
  pub status_text : List ℕ
  pub body : List ℕ

pub data StreamMsg : Type 0 where
  chunk : List ℕ → StreamMsg
  done : HttpReply → StreamMsg

module _ (fl : Floats) where
  pub record Job : Type 0 where
    pub request_id : ℕ
    pub target : Target
    pub req : Refusal ⊎ GenReq fl

  -- How a call of `generate` ends: by its value, by its error, or by a panic with a message.
  pub data Generation : Type 0 where
    generated : Generated fl → Generation
    failed : GenError → Generation
    panicked : List ℕ → Generation

  -- A resident model. `generate` changes what `on_token` captures by calling it, and in no other way.
  pub record Model : Type 1 where
    pub M : Type 0
    pub name : M → List ℕ
    pub generate :
        (S : Type 0)
        → (S → List ℕ → Option (TokenLogprob fl) → S × Bool)
        → M
        → GenReq fl
        → S
        → S × Generation × M
    pub by_token :
        (S : Type 0) (on_token : S → List ℕ → Option (TokenLogprob fl) → S × Bool) (P : S → Type 0)
        → ((s : S) (x : List ℕ) (lp : Option (TokenLogprob fl)) → P s → P (on_token s x lp).0)
        → (m : M) (req : GenReq fl) (s : S) → P s
        → P (generate S on_token m req s).0

-- The messages sent for a job so far, and the stripper of its stream.
pub record Sink : Type 0 where
  pub stripper : ThinkingStripStream
  pub sent : List StreamMsg

module _ (nm : Numbers) (fl : Floats) (of_nat : ℕ → nm.F) (widen : fl.F → nm.F)
    (reason_text : Reason → List ℕ) (error_text : GenError → List ℕ) (alive : ℕ → Bool)
    (clock : ℕ → ℕ) (wall_ms : ℕ → nm.F) (per_token per_second : ℕ → ℕ → nm.F) where
  -- `reply.send(...)`, which succeeds while the receiver is there.
  unfoldable pub send : StreamMsg → Sink → Sink × Bool
  send m s = (record s { sent = s.sent ++ (m ∷ []) }, alive (length s.sent))

  abbrev now : Sink → ℕ
  now s = clock (length s.sent)

  -- A frame that carries text.
  unfoldable pub text_frame :
      Bool → List ℕ → List ℕ → List ℕ → Option (TokenLogprob fl) → Sink → List ℕ
  text_frame true id model text lp s =
      chat_stream_chunk nm fl of_nat widen (now s) id model
        (record { role = none; content = some text }) none lp
  text_frame false id model text lp s =
      completion_stream_chunk nm fl of_nat widen (now s) id model text none lp

  unfoldable pub is_empty : List ℕ → Bool
  is_empty [] = true
  is_empty (x ∷ xs) = false

  -- The closure `on_token`.
  unfoldable pub on_token :
      Bool → Bool → List ℕ → List ℕ → Sink → List ℕ → Option (TokenLogprob fl) → Sink × Bool
  unfolding text_frame send is_empty
  on_token is_stream is_chat id model s delta lp =
      let (clean, stripper) = push delta s.stripper in
      let held : Sink = record s { stripper = stripper } in
      if not is_stream
      then (s, true)
      else if is_empty clean
      then (held, true)
      else send (chunk (text_frame is_chat id model clean lp held)) held

  -- The opening frame of a chat stream, with the role only.
  unfoldable pub open_stream : Bool → Bool → List ℕ → List ℕ → Sink → Sink
  unfolding send
  open_stream true true id model s =
      (send
        (chunk (
          chat_stream_chunk nm fl of_nat widen (now s) id model
            (record { role = some (codes "assistant"); content = none }) none none))
        s).0
  open_stream is_stream is_chat id model s = s

  -- The text that the stripper still holds.
  unfoldable pub flush_stream : Bool → List ℕ → List ℕ → Sink → Sink
  unfolding send text_frame is_empty
  flush_stream is_chat id model s =
      let (tail, stripper) = flush s.stripper in
      let held : Sink = record s { stripper = stripper } in
      if is_empty tail
      then held
      else (send (chunk (text_frame is_chat id model tail none held)) held).0

  unfoldable pub final_frame : Bool → List ℕ → List ℕ → Bool → Sink → List ℕ
  final_frame true id model eos s =
      chat_stream_chunk nm fl of_nat widen (now s) id model (record { role = none; content = none })
        (some (finish_reason eos)) none
  final_frame false id model eos s =
      completion_stream_chunk nm fl of_nat widen (now s) id model [] (some (finish_reason eos)) none

  abbrev zero_num : Json nm.F
  zero_num = num (of_nat 0)

  -- The usage frame with the fields of the three clients.
  unfoldable pub usage_frame : Bool → List ℕ → List ℕ → ℕ → ℕ → ℕ → Sink → List ℕ
  usage_frame is_chat id model n_p n_c wall_us s =
      let count = λ (n : ℕ). num (of_nat n) in
      let wall_ns = count (min (wall_us * 1000) (2 ^ 64 - 1)) in
      let token_ms = if ltb 0 n_c then num (per_token wall_us n_c) else zero_num in
      let rate =
        if ltb 0 n_c
        then (if ltb 0 wall_us then num (per_second wall_us n_c) else zero_num)
        else zero_num in
      to_string nm (
        envelope nm fl of_nat widen id
          (if is_chat then codes "chat.completion.chunk" else codes "text_completion") (now s) model
          []
          ((
            codes "usage",
            object (
                (codes "prompt_tokens", count n_p)
                ∷ (codes "completion_tokens", count n_c)
                ∷ (codes "total_tokens", count (n_p + n_c))
                ∷ (codes "prompt_eval_count", count n_p)
                ∷ (codes "prompt_eval_duration", zero_num)
                ∷ (codes "eval_count", count n_c)
                ∷ (codes "eval_duration", wall_ns)
                ∷ (codes "total_duration", wall_ns)
                ∷ []),
          )
            ∷ (
              codes "timings",
              object (
                  (codes "prompt_n", count n_p)
                  ∷ (codes "prompt_ms", zero_num)
                  ∷ (codes "prompt_per_token_ms", zero_num)
                  ∷ (codes "prompt_per_second", zero_num)
                  ∷ (codes "predicted_n", count n_c)
                  ∷ (codes "predicted_ms", num (wall_ms wall_us))
                  ∷ (codes "predicted_per_token_ms", token_ms)
                  ∷ (codes "predicted_per_second", rate)
                  ∷ []),
            )
            ∷ []))
