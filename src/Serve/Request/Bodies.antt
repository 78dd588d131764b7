-- ===== src/Serve/Request/Bodies.antt =====
-- The two body parsers of src/serve/mod.rs and the fields they share.
use reinstinct.Base.{
  ℕ, ◌+◌, ◌*◌, Bool, false, Option, some, none, List, [], ◌∷◌, ◌==◌, if◌then◌else◌, Outcome, ok,
  err, panic, stuck, ◌>>=◌, ok_or,
}
use reinstinct.Base.Int.{ℤ, pos, negsuc}
use reinstinct.Base.Text.{codes}
use reinstinct.Base.Float.{Floats}
use reinstinct.Chat.{ChatMessage, Role, system, user, assistant, unwrap_or}
use reinstinct.Sampling.Chain.{SamplerParams, MirostatV2, new_mirostat}
use reinstinct.Serve.Json.{Numbers, Json, Items, arr, nil, cons, get, text_eq}
use reinstinct.Serve.Json.Parse
use reinstinct.Serve.Json.Parse.{JsonError}
use reinstinct.Serve.Request.{
  Casts, PromptInput, raw, chat, invalid_json, no_prompt, no_messages, not_an_array, no_message,
  missing_role, missing_content, unknown_role, Refusal, bad, nanos, default_request_timeout_secs,
  clamp, mapped, GenReq, SamplerDefaults, hundredths, completion_defaults, chat_defaults,
  clamp_unit, number_at, bool_at, text_at, top_logprobs, think_opts, include_usage,
}

module _ (nm : Numbers) (fl : Floats) (cs : Casts nm fl) where
  open nm use {F}

  -- `.map(|n| n as f32).unwrap_or(default)`, and the same for usize and u64.
  unfoldable pub float_or : List ℕ → fl.F → Json F → fl.F
  unfolding number_at
  float_or key default j = unwrap_or (mapped cs.as_f32 (number_at key j)) default

  unfoldable pub usize_or : List ℕ → ℕ → Json F → ℕ
  unfolding number_at
  usize_or key default j = unwrap_or (mapped cs.as_usize (number_at key j)) default

  -- `n as i64 == 2`
  abbrev is_two : ℤ → Bool
  is_two (pos n) = n == 2
  is_two (negsuc n) = false

  unfoldable pub mirostat_of : Json F → Option (MirostatV2 fl)
  unfolding number_at float_or new_mirostat
  mirostat_of j =
      let tau = float_or (codes "mirostat_tau") (fl.of_nat 5) j in
      let eta = float_or (codes "mirostat_eta") (hundredths fl 10) j in
      if unwrap_or (mapped (λ n. is_two (nm.as_i64 n)) (number_at (codes "mirostat") j)) false
      then some (new_mirostat fl tau eta)
      else none

  unfoldable pub sampler_of : SamplerDefaults fl → Json F → SamplerParams fl
  unfolding float_or usize_or clamp_unit number_at mirostat_of
  sampler_of defaults j = record {
    temperature = fl.max (float_or (codes "temperature") defaults.temperature j) fl.nought;
    top_k = usize_or (codes "top_k") 40 j;
    top_p = clamp_unit fl (float_or (codes "top_p") defaults.top_p j);
    min_p = clamp_unit fl (float_or (codes "min_p") defaults.min_p j);
    repetition_penalty =
        fl.max (float_or (codes "repetition_penalty") defaults.repetition_penalty j) fl.nought;
    repetition_window = usize_or (codes "repetition_window") 64 j;
    frequency_penalty = float_or (codes "frequency_penalty") defaults.frequency_penalty j;
    presence_penalty = float_or (codes "presence_penalty") fl.nought j;
    mirostat = mirostat_of j;
    seed = unwrap_or (mapped cs.as_u64 (number_at (codes "seed") j)) 0;
  }

  -- `Duration::from_secs_f64(n.max(0.1).min(600.0))`, or the default.
  unfoldable pub timeout_of {κ} : {E : Type κ} → Option F → Outcome E (Option ℕ)
  timeout_of none = ok (some (default_request_timeout_secs * nanos))
  timeout_of (some n) = elim (cs.from_secs_f64 (cs.min (cs.max n cs.tenth) cs.six_hundred)) [
    | none ↦ panic
    | some d ↦ ok (some d)
  ]

  -- The fields of a request whose prompt and timeout are known.
  unfoldable pub request_of : Json F → SamplerDefaults fl → PromptInput → Option ℕ → GenReq fl
  unfolding sampler_of
  request_of j defaults prompt request_timeout = record {
    prompt = prompt;
    max_tokens = clamp 1 4096 (usize_or (codes "max_tokens") 256 j);
    sampler = sampler_of defaults j;
    use_speculative = bool_at (codes "use_speculative") j;
    speculative_k = mapped (λ n. clamp 1 4 (cs.as_usize n)) (number_at (codes "speculative_k") j);
    think = think_opts j;
    speculative_p_min = clamp_unit fl (float_or (codes "speculative_p_min") fl.nought j);
    request_timeout = request_timeout;
    stream = unwrap_or (bool_at (codes "stream") j) false;
    stream_include_usage = include_usage j;
    top_logprobs_n = top_logprobs cs.as_usize j;
  }

  -- `parse_common_fields`, with the prompt that the caller puts into the request.
  unfoldable pub parse_common_fields {κ} :
      {E : Type κ} → Json F → SamplerDefaults fl → PromptInput → Outcome E (GenReq fl)
  unfolding request_of timeout_of
  parse_common_fields j defaults prompt = do
    request_timeout ← timeout_of (number_at (codes "request_timeout_seconds") j)
    ok (request_of j defaults prompt request_timeout)

  -- `.map_err(|e| bad(format!("invalid JSON: {e}")))`
  unfoldable pub checked : Outcome JsonError (Json F) → Outcome Refusal (Json F)
  checked (ok j) = ok j
  checked (err e) = err (bad (invalid_json e))
  checked panic = panic
  checked stuck = stuck

  unfoldable pub parsed : List ℕ → Outcome Refusal (Json F)
  unfolding checked
  parsed body = checked (Parse.parse nm body)

  unfoldable pub parse_completions : List ℕ → Outcome Refusal (GenReq fl)
  unfolding parsed parse_common_fields text_at completion_defaults
  parse_completions body = do
    j ← parsed body
    prompt ← ok_or (text_at (codes "prompt") j) (bad no_prompt)
    parse_common_fields j (completion_defaults fl) (raw prompt)

  unfoldable pub role_of : ℕ → List ℕ → Outcome Refusal Role
  unfolding text_eq
  role_of i name =
      if text_eq name (codes "system")
      then ok system
      else if text_eq name (codes "user")
      then ok user
      else if text_eq name (codes "assistant")
      then ok assistant
      else err (bad (unknown_role i name))

  unfoldable pub message_of : ℕ → Json F → Outcome Refusal ChatMessage
  unfolding role_of text_at
  message_of i m = do
    name ← ok_or (text_at (codes "role") m) (bad (missing_role i))
    content ← ok_or (text_at (codes "content") m) (bad (missing_content i))
    role ← role_of i name
    ok (record { role = role; content = content })

  -- `for (i, m) in arr.iter().enumerate()`, from message `i` on.
  unfoldable pub messages_of : ℕ → Items F → Outcome Refusal (List ChatMessage)
  unfolding message_of
  messages_of i nil = ok []
  messages_of i (cons m ms) = do
    message ← message_of i m
    rest ← messages_of (i + 1) ms
    ok (message ∷ rest)

  unfoldable pub array_of : Json F → Outcome Refusal (Items F)
  array_of (arr nil) = err (bad no_message)
  array_of (arr (cons m ms)) = ok (cons m ms)
  array_of _ = err (bad not_an_array)

  unfoldable pub parse_chat_completions : List ℕ → Outcome Refusal (GenReq fl)
  unfolding parsed parse_common_fields array_of messages_of chat_defaults
  parse_chat_completions body = do
    j ← parsed body
    found ← ok_or (get (codes "messages") j) (bad no_messages)
    listed ← array_of found
    messages ← messages_of 0 listed
    parse_common_fields j (chat_defaults fl) (chat messages)
