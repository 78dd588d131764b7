-- ===== src/Serve/Request/Bounds.antt =====
-- What every accepted request satisfies, and what every refusal is: src/serve/mod.rs.
use reinstinct.Base.{
  ℕ, suc, ◌+◌, ◌*◌, ◌≤◌, ◌≡◌, refl, ap, arith, Bool, Bool-cases, inl, inr, true, false, Option,
  some, none, List, Outcome, ok, err, ◌>>=◌, ok_or, length, Ensures, holds, rejected,
}
use reinstinct.Base.Text.{codes}
use reinstinct.Base.Float.{Floats}
use reinstinct.Serve.Json.{
  Numbers, Json, Items, null, bool, num, str, arr, obj, nil, cons, get, text_eq,
}
use reinstinct.Serve.Json.Parse
use reinstinct.Serve.Json.Total.{parse-Ensures}
use reinstinct.Serve.Request.{
  Casts, PromptInput, raw, chat, Refusal, bad, nanos, clamp, clamp_unit, GenReq, SamplerDefaults,
  top_logprobs, counted, requested, mapped, number_at, bool_at, text_at, completion_defaults,
  chat_defaults, no_prompt, no_messages, missing_role, missing_content,
  default_request_timeout_secs, Reason,
}
use reinstinct.Serve.Request.Bodies.{
  parse_completions, parse_chat_completions, parse_common_fields, parsed, role_of, message_of,
  messages_of, array_of, timeout_of, sampler_of, request_of, usize_or, float_or, checked,
}

-- IEEE 754 and the standard library: 0 and 1 are ordered, `max` and `min` bound a value, NaN included,
-- and a duration is made from every number of seconds between the two bounds.
pub record AreStandard {nm : Numbers} {fl : Floats} (cs : Casts nm fl) : Type 0 where
  pub at_most : nm.F → nm.F → Bool
  pub nought_nought : fl.less fl.nought fl.nought ≡ false
  pub one_one : fl.less fl.one fl.one ≡ false
  pub one_nought : fl.less fl.one fl.nought ≡ false
  pub max_above : (n : nm.F) → at_most cs.tenth (cs.max n cs.tenth) ≡ true
  pub min_below : (n : nm.F) → at_most (cs.min n cs.six_hundred) cs.six_hundred ≡ true
  pub min_keeps :
      (n : nm.F) → at_most cs.tenth n ≡ true → at_most cs.tenth (cs.min n cs.six_hundred) ≡ true
  pub seconds :
      (n : nm.F)
      → at_most cs.tenth n ≡ true
      → at_most n cs.six_hundred ≡ true
      → (d : ℕ) × (cs.from_secs_f64 n ≡ some d) × (d ≤ 600 * nanos)

-- A run returns: a value of which `P` holds, or a refusal with status 400.
pub data Answers {A : Type 0} (P : A → Type 0) : Outcome Refusal A → Type 0 where
  accepted : {a : A} → P a → Answers P (ok a)
  refused : {r : Refusal} → r.status ≡ 400 → r.status_text ≡ codes "Bad Request" → Answers P (err r)

Answers-bind :
    {A B : Type 0} {P : A → Type 0} {Q : B → Type 0} {m : Outcome Refusal A}
    {f : A → Outcome Refusal B}
    → Answers P m
    → ((a : A) → P a → Answers Q (f a))
    → Answers Q (m >>= f)
Answers-bind (accepted {a} h) k = k a h
Answers-bind (refused s t) k = refused s t

Answers-some :
    {A : Type 0} (o : Option A) (why : Reason) → Answers (λ a. Unit {0}) (ok_or o (bad why))
Answers-some none why = refused refl refl
Answers-some (some a) why = accepted tt

-- Neither below 0 nor above 1; NaN is neither.
abbrev pub InUnit : (fl : Floats) → fl.F → Type 0
InUnit fl x = (fl.less x fl.nought ≡ false) × (fl.less fl.one x ≡ false)

abbrev pub KInRange : Option ℕ → Type 0
KInRange none = Unit {0}
KInRange (some k) = (1 ≤ k) × (k ≤ 4)

abbrev pub HasPrompt : PromptInput → Type 0
HasPrompt (raw text) = Unit {0}
HasPrompt (chat ms) = 1 ≤ length ms

-- What the worker may rely on.
pub record IsServable (fl : Floats) (req : GenReq fl) : Type 0 where
  pub tokens : (1 ≤ req.max_tokens) × (req.max_tokens ≤ 4096)
  pub k_range : KInRange req.speculative_k
  pub alternatives : req.top_logprobs_n ≤ 20
  pub timeout : (d : ℕ) × (req.request_timeout ≡ some d) × (d ≤ 600 * nanos)
  pub nucleus : InUnit fl req.sampler.top_p
  pub floor : InUnit fl req.sampler.min_p
  pub confidence : InUnit fl req.speculative_p_min
  pub prompted : HasPrompt req.prompt

counted-le :
    {F : Type 0} (as_usize : F → ℕ) (b : Option Bool) (n : Option F) → counted as_usize b n ≤ 20
unfolding counted
counted-le as_usize (some true) (some n) = omega arith
counted-le as_usize (some true) none = omega arith
counted-le as_usize (some false) n = omega arith
counted-le as_usize none n = omega arith

requested-le :
    {F : Type 0} (as_usize : F → ℕ) (o : Option (Json F)) (other : ℕ)
    → other ≤ 20
    → requested as_usize o other ≤ 20
unfolding requested
requested-le as_usize none other h = h
requested-le as_usize (some null) other h = h
requested-le as_usize (some (bool true)) other h = omega arith
requested-le as_usize (some (bool false)) other h = omega arith
requested-le as_usize (some (num n)) other h = omega arith
requested-le as_usize (some (str s)) other h = h
requested-le as_usize (some (arr a)) other h = h
requested-le as_usize (some (obj a)) other h = h

clamp_bounds : (lo hi n : ℕ) → lo ≤ hi → (lo ≤ clamp lo hi n) × (clamp lo hi n ≤ hi)
clamp_bounds lo hi n h = ground arith

abbrev items_length : {F : Type 0} → Items F → ℕ
items_length nil = 0
items_length (cons m ms) = suc (items_length ms)

module _ (nm : Numbers) (fl : Floats) (cs : Casts nm fl) (std : AreStandard cs) where
  clamp_unit-InUnit : (x : fl.F) → InUnit fl (clamp_unit fl x)
  unfolding clamp_unit
  clamp_unit-InUnit x = elim (Bool-cases (fl.less x fl.nought)) [
    | inl below ↦ rw below (std.nought_nought, std.one_nought)
    | inr not_below ↦ elim (Bool-cases (fl.less fl.one x)) [
      | inl above ↦ rw (not_below, above) (std.one_nought, std.one_one)
      | inr not_above ↦ rw (not_below, not_above) (not_below, not_above)
    ]
  ]

  k-range : (o : Option nm.F) → KInRange (mapped (λ n. clamp 1 4 (cs.as_usize n)) o)
  k-range none = tt
  k-range (some n) = clamp_bounds 1 4 (cs.as_usize n) (omega arith)

  abbrev Limited : Option ℕ → Type 0
  Limited o = (d : ℕ) × (o ≡ some d) × (d ≤ 600 * nanos)

  timeout_of-Limited : (o : Option nm.F) → Answers Limited (timeout_of nm fl cs o)
  unfolding timeout_of
  timeout_of-Limited none = accepted (default_request_timeout_secs * nanos, refl, omega arith)
  timeout_of-Limited (some n) =
      let big = cs.max n cs.tenth in
      let low = std.min_keeps big (std.max_above n) in
      let (d, made, le) = std.seconds (cs.min big cs.six_hundred) low (std.min_below big) in
      rw (timeout_of, made) (accepted (d, refl, le))

  request_of-IsServable :
      (j : Json nm.F) (defaults : SamplerDefaults fl) (prompt : PromptInput) (o : Option ℕ)
      → HasPrompt prompt
      → Limited o
      → IsServable fl (request_of nm fl cs j defaults prompt o)
  unfolding request_of sampler_of top_logprobs
  request_of-IsServable j defaults prompt o some_prompt limited = record {
    tokens = clamp_bounds 1 4096 (usize_or nm fl cs (codes "max_tokens") 256 j) (omega arith);
    k_range = k-range (number_at (codes "speculative_k") j);
    alternatives =
        let count =
          counted-le cs.as_usize (bool_at (codes "logprobs") j)
            (number_at (codes "top_logprobs") j) in
        requested-le cs.as_usize (get (codes "logprobs") j) _ count;
    timeout = limited;
    nucleus = clamp_unit-InUnit (float_or nm fl cs (codes "top_p") defaults.top_p j);
    floor = clamp_unit-InUnit (float_or nm fl cs (codes "min_p") defaults.min_p j);
    confidence = clamp_unit-InUnit (float_or nm fl cs (codes "speculative_p_min") fl.nought j);
    prompted = some_prompt;
  }

  parse_common_fields-IsServable :
      (j : Json nm.F) (defaults : SamplerDefaults fl) (prompt : PromptInput)
      → HasPrompt prompt
      → Answers (IsServable fl) (parse_common_fields nm fl cs j defaults prompt)
  unfolding parse_common_fields
  parse_common_fields-IsServable j defaults prompt some_prompt =
      Answers-bind (timeout_of-Limited (number_at (codes "request_timeout_seconds") j))
        λ o limited. accepted (request_of-IsServable j defaults prompt o some_prompt limited)

  parsed-Answers : (body : List ℕ) → Answers (λ j. Unit {0}) (parsed nm fl cs body)
  unfolding parsed checked
  parsed-Answers body = outcome (parse-Ensures nm body)
    where
      outcome :
          {P : Json nm.F → Type 0} {m : Outcome Parse.JsonError (Json nm.F)}
          → Ensures P m
          → Answers (λ j. Unit {0}) (checked nm fl cs m)
      outcome (holds h) = accepted tt
      outcome rejected = refused refl refl

  role_of-Answers : (i : ℕ) (name : List ℕ) → Answers (λ r. Unit {0}) (role_of nm fl cs i name)
  unfolding role_of
  role_of-Answers i name = elim (Bool-cases (text_eq name (codes "system"))) [
    | inl a ↦ rw (role_of, a) (accepted tt)
    | inr a ↦ elim (Bool-cases (text_eq name (codes "user"))) [
      | inl b ↦ rw (role_of, a, b) (accepted tt)
      | inr b ↦ elim (Bool-cases (text_eq name (codes "assistant"))) [
        | inl c ↦ rw (role_of, a, b, c) (accepted tt)
        | inr c ↦ rw (role_of, a, b, c) (refused refl refl)
      ]
    ]
  ]

  message_of-Answers : (i : ℕ) (m : Json nm.F) → Answers (λ r. Unit {0}) (message_of nm fl cs i m)
  unfolding message_of
  message_of-Answers i m =
      Answers-bind (Answers-some (text_at (codes "role") m) (missing_role i)) λ name _.
        Answers-bind (Answers-some (text_at (codes "content") m) (missing_content i))
          λ content _. Answers-bind (role_of-Answers i name) λ role _. accepted tt

  -- As many messages as items.
  messages_of-Answers :
      (i : ℕ) (ms : Items nm.F)
      → Answers (λ r. length r ≡ items_length ms) (messages_of nm fl cs i ms)
  unfolding messages_of
  messages_of-Answers i nil = accepted refl
  messages_of-Answers i (cons m ms) =
      Answers-bind (message_of-Answers i m)
        λ message _. Answers-bind (messages_of-Answers (i + 1) ms) λ rest e. accepted (ap suc e)

  array_of-Answers : (j : Json nm.F) → Answers (λ a. 1 ≤ items_length a) (array_of nm fl cs j)
  unfolding array_of
  array_of-Answers null = refused refl refl
  array_of-Answers (bool b) = refused refl refl
  array_of-Answers (num n) = refused refl refl
  array_of-Answers (str s) = refused refl refl
  array_of-Answers (obj kv) = refused refl refl
  array_of-Answers (arr nil) = refused refl refl
  array_of-Answers (arr (cons m ms)) = accepted (omega arith)

  -- On every body the two parsers of a request return: a refusal with the status `400 Bad Request`, or
  -- a request with 1 to 4096 tokens, at most 20 logprobs, 1 to 4 drafted tokens if it says how many, a
  -- timeout of at most 600 seconds, `top_p`, `min_p` and the drafter's threshold neither below 0 nor
  -- above 1, and at least one message if it is a chat. Float comparisons, `max`, `min` and durations are standard.
  pub parse-IsServable :
      (body : List ℕ)
      → Answers (IsServable fl) (parse_completions nm fl cs body)
        × Answers (IsServable fl) (parse_chat_completions nm fl cs body)
  unfolding parse_completions parse_chat_completions
  parse-IsServable body = (
    Answers-bind (parsed-Answers body) λ j _.
        Answers-bind (Answers-some (text_at (codes "prompt") j) no_prompt)
          λ prompt _. parse_common_fields-IsServable j (completion_defaults fl) (raw prompt) tt,
    Answers-bind (parsed-Answers body) λ j _.
        Answers-bind (Answers-some (get (codes "messages") j) no_messages) λ found _.
          Answers-bind (array_of-Answers found) λ listed some_message.
            Answers-bind (messages_of-Answers 0 listed) λ messages e.
              parse_common_fields-IsServable j (chat_defaults fl) (chat messages) (omega arith),
  )
