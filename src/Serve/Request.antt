-- ===== src/Serve/Request.antt =====
-- The parsing of a request's body: src/serve/mod.rs. A text is its UTF-8 bytes, a duration its
-- nanoseconds; the conversions of f64 are the interface `Casts`.
pub mod Bodies
pub mod Bounds
pub mod RoundTrip
mod Tests
use reinstinct.Base.{
  ℕ, zero, suc, ◌+◌, ◌*◌, ◌^◌, ◌≡◌, Bool, true, false, not, ◌&&◌, Option, some, none, List, [], ◌∷◌,
  ◌++◌, min, ltb, ◌==◌, if◌then◌else◌, Outcome, ok, err, panic, stuck, ◌>>=◌, ok_or,
}
use reinstinct.Base.Int.{ℤ, pos, negsuc}
use reinstinct.Base.Text.{codes}
use reinstinct.Base.Float.{Floats}
use reinstinct.Chat.{ChatMessage, Role, system, user, assistant, Qwen3ThinkOpts, unwrap_or}
use reinstinct.Sampling.Chain.{SamplerParams, MirostatV2, default_params, new_mirostat}
use reinstinct.Serve.Json.{
  Numbers, Json, Items, null, bool, num, str, arr, obj, nil, cons, get, as_str, as_f64, as_bool,
  text_eq,
}
use reinstinct.Serve.Json.Parse.{JsonError}

-- `as usize`, `as u64` and `as f32`, which saturate or round; f64's `max` and `min`, the bounds of a
-- timeout, and `Duration::from_secs_f64`, which panics where it gives none.
pub record Casts (nm : Numbers) (fl : Floats) : Type 0 where
  pub as_usize : nm.F → ℕ
  pub as_u64 : nm.F → ℕ
  pub as_f32 : nm.F → fl.F
  pub max : nm.F → nm.F → nm.F
  pub min : nm.F → nm.F → nm.F
  pub tenth : nm.F
  pub six_hundred : nm.F
  pub from_secs_f64 : nm.F → Option ℕ

pub data PromptInput : Type 0 where
  raw : List ℕ → PromptInput
  chat : List ChatMessage → PromptInput

-- What a refused body lacks; the index is that of a message.
pub data Reason : Type 0 where
  invalid_json : JsonError → Reason
  no_prompt no_messages not_an_array no_message : Reason
  missing_role missing_content : ℕ → Reason
  unknown_role : ℕ → List ℕ → Reason
  no_route : List ℕ → List ℕ → Reason

-- `(u16, &'static str, String)`
pub record Refusal : Type 0 where
  pub status : ℕ
  pub status_text : List ℕ
  pub reason : Reason

abbrev pub bad : Reason → Refusal
bad why = record { status = 400; status_text = codes "Bad Request"; reason = why }

abbrev pub nanos : ℕ
nanos = 1000000000

abbrev pub default_request_timeout_secs : ℕ
default_request_timeout_secs = 120

-- `n.clamp(lo, hi)`
abbrev pub clamp : ℕ → ℕ → ℕ → ℕ
clamp lo hi n = if ltb n lo then lo else if ltb hi n then hi else n

-- `o.map(f)` and `o.or(p)`
abbrev pub mapped {ℓ κ} : {A : Type ℓ} {B : Type κ} → (A → B) → Option A → Option B
mapped f none = none
mapped f (some a) = some (f a)

abbrev pub or_else {ℓ} : {A : Type ℓ} → Option A → Option A → Option A
or_else none p = p
or_else (some a) p = some a

abbrev pub and_then {ℓ κ} : {A : Type ℓ} {B : Type κ} → Option A → (A → Option B) → Option B
and_then none f = none
and_then (some a) f = f a

module _ (fl : Floats) where
  pub record GenReq : Type 0 where
    pub prompt : PromptInput
    pub max_tokens : ℕ
    pub sampler : SamplerParams fl
    pub use_speculative : Option Bool
    pub speculative_k : Option ℕ
    pub think : Qwen3ThinkOpts
    pub speculative_p_min : fl.F
    pub request_timeout : Option ℕ
    pub stream : Bool
    pub stream_include_usage : Bool
    pub top_logprobs_n : ℕ

  pub record SamplerDefaults : Type 0 where
    pub temperature : fl.F
    pub top_p : fl.F
    pub min_p : fl.F
    pub repetition_penalty : fl.F
    pub frequency_penalty : fl.F

  -- The literal with so many hundredths, which division rounds to the same float.
  abbrev pub hundredths : ℕ → fl.F
  hundredths n = fl.div (fl.of_nat n) (fl.of_nat 100)

  unfoldable pub completion_defaults : SamplerDefaults
  completion_defaults = record {
    temperature = hundredths 80;
    top_p = fl.one;
    min_p = fl.nought;
    repetition_penalty = fl.one;
    frequency_penalty = fl.nought;
  }

  unfoldable pub chat_defaults : SamplerDefaults
  chat_defaults = record {
    temperature = hundredths 70;
    top_p = hundredths 95;
    min_p = hundredths 5;
    repetition_penalty = hundredths 110;
    frequency_penalty = hundredths 10;
  }

  -- `x.clamp(0.0, 1.0)`
  unfoldable pub clamp_unit : fl.F → fl.F
  clamp_unit x = if fl.less x fl.nought then fl.nought else if fl.less fl.one x then fl.one else x

-- What a field of an object is, if it is there and of the kind.
module _ {F : Type 0} where
  unfoldable pub number_at : List ℕ → Json F → Option F
  number_at key j = and_then (get key j) as_f64

  unfoldable pub bool_at : List ℕ → Json F → Option Bool
  bool_at key j = and_then (get key j) as_bool

  unfoldable pub text_at : List ℕ → Json F → Option (List ℕ)
  text_at key j = and_then (get key j) as_str

  -- `match (logprobs as a Boolean, top_logprobs)`
  unfoldable pub counted : (F → ℕ) → Option Bool → Option F → ℕ
  counted as_usize (some true) (some n) = min (as_usize n) 20
  counted as_usize (some true) none = 5
  counted as_usize (some false) count = 0
  counted as_usize none count = 0

  -- `match j.get("logprobs")`, with what the last arm gives.
  unfoldable pub requested : (F → ℕ) → Option (Json F) → ℕ → ℕ
  requested as_usize (some (bool true)) other = 5
  requested as_usize (some (bool false)) other = 0
  requested as_usize (some (num n)) other = min (as_usize n) 20
  requested as_usize _ other = other

  unfoldable pub top_logprobs : (F → ℕ) → Json F → ℕ
  unfolding number_at bool_at counted requested
  top_logprobs as_usize j =
      requested as_usize (get (codes "logprobs") j)
        (counted as_usize (bool_at (codes "logprobs") j) (number_at (codes "top_logprobs") j))

  unfoldable pub think_opts : Json F → Qwen3ThinkOpts
  unfolding bool_at text_at
  think_opts j =
      let kwargs = get (codes "chat_template_kwargs") j in
      record {
        enable_thinking =
            or_else (bool_at (codes "enable_thinking") j)
              (and_then kwargs (bool_at (codes "enable_thinking")));
        reasoning_effort =
            or_else (text_at (codes "reasoning_effort") j)
              (and_then kwargs (text_at (codes "reasoning_effort")));
      }

  unfoldable pub include_usage : Json F → Bool
  unfolding bool_at
  include_usage j =
      unwrap_or
        (or_else (and_then (get (codes "stream_options") j) (bool_at (codes "include_usage")))
          (bool_at (codes "include_usage") j))
        false
