-- ===== src/Serve/Generate.antt =====
-- The generation of one reply: `ServerModel::generate` of src/serve/mod.rs. The forwards run on the
-- device and are an interface; `expired` tells whether the deadline is past before a round.
pub mod Loop
pub mod Qwen
pub mod Deltas
pub mod Stream
pub mod Given
mod Tests
use reinstinct.Base.{
  ℕ, zero, suc, ◌+◌, ◌-◌, ◌^◌, Bool, true, false, not, ◌&&◌, ◌||◌, Option, some, none, List, [],
  ◌∷◌, ◌++◌, map, length, get_elem?, set, drop, replicate, min, ltb, leb, ◌==◌, if◌then◌else◌,
  Outcome, ok, err, panic, stuck, ◌>>=◌, ◌>>◌,
}
use reinstinct.Base.Float.{Floats}
use reinstinct.Chat.{ChatError, unwrap_or}
use reinstinct.Chat.Detect.{Qwen3ThinkSpec}
use reinstinct.Sampling.Chain.{SamplerParams, SampleResult}
use reinstinct.Sampling.Chain.Request.{sample_chain_lp}
use reinstinct.Sampling.Xorshift
use reinstinct.Sampling.Xorshift.{Rng}
use reinstinct.Tokenizer
use reinstinct.Tokenizer.{Tokenizer}

-- The messages of a request that fails; `device` carries the driver's.
pub data GenError : Type 0 where
  empty_prompt no_drafter : GenError
  exceeds_context : ℕ → ℕ → ℕ → GenError
  template : ChatError → GenError
  device : List ℕ → GenError

pub record TokenLogprob (fl : Floats) : Type 0 where
  pub token : List ℕ
  pub logprob : fl.F
  pub top_alts : List (List ℕ × fl.F)

-- What a decode loop calls of the device: the launch of a captured graph and its logits, or the
-- forward of one token.
pub record Stepper (fl : Floats) : Type 1 where
  pub State : Type 0
  pub Graph : Type 0
  pub launch : ℕ → State → Graph → Outcome GenError State
  pub finish : State → Outcome GenError (List fl.F × State)
  pub forward_token : ℕ → State → Outcome GenError (List fl.F × State)

-- What a Qwen request calls besides.
pub record QwenDevice {fl : Floats} (dv : Stepper fl) : Type 0 where
  pub reset : dv.State → Outcome GenError dv.State
  pub forward_tokens_batched : List ℕ → dv.State → Outcome GenError (List fl.F × dv.State)
  pub forward_tokens : List ℕ → dv.State → Outcome GenError (List fl.F × dv.State)
  pub capture_forward_graph : dv.State → Outcome GenError (dv.Graph × dv.State)

-- The text, the counts of prompt and reply, whether the reply ended by itself, and the logprobs.
pub record Generated (fl : Floats) : Type 0 where
  pub text : List ℕ
  pub n_prompt : ℕ
  pub n_completion : ℕ
  pub hit_eos : Bool
  pub logprobs : List (TokenLogprob fl)

-- Whether a slice may start there: `is_char_boundary`.
abbrev starts_char : Option ℕ → Bool
starts_char none = true
starts_char (some b) = ltb b 0x80 || leb 0xc0 b

unfoldable pub is_boundary : List ℕ → ℕ → Bool
is_boundary text n = leb n (length text) && starts_char (get_elem? text n)

unfoldable pub contains : ℕ → List ℕ → Bool
contains t [] = false
contains t (x ∷ xs) = x == t || contains t xs

-- `counts[t] = counts[t].saturating_add(1)` where there are counts.
unfoldable pub bump {κ} : {E : Type κ} → List ℕ → ℕ → Outcome E (List ℕ)
bump [] t = ok []
bump (c ∷ cs) t = elim (get_elem? (c ∷ cs) t) [
  | none ↦ panic
  | some n ↦ ok (set (c ∷ cs) t (min (n + 1) (2 ^ 16 - 1)))
]

module _ (fl : Floats) where
  unfoldable pub decode_token_logprob : (List ℕ → List ℕ) → ℕ → SampleResult fl → TokenLogprob fl
  decode_token_logprob decode chosen res = record {
    token = decode (chosen ∷ []);
    logprob = unwrap_or res.logprob fl.neg_infinity;
    top_alts = map (λ (id, lp). (decode (id ∷ []), lp)) res.top_logprobs;
  }

  unfoldable pub counts_for : SamplerParams fl → ℕ → List ℕ
  counts_for sp vocab =
      if not (fl.same sp.frequency_penalty fl.nought) || not (fl.same sp.presence_penalty fl.nought)
      then replicate vocab 0
      else []

  module _ (dv : Stepper fl) where
    -- The variables of a decode loop.
    pub record Decoding : Type 0 where
      pub logits : List fl.F
      pub sp : SamplerParams fl
      pub rng : Rng
      pub counts : List ℕ
      pub out : List ℕ
      pub answer_start : ℕ
      pub prev_text_len : ℕ
      pub full_text : List ℕ
      pub all_lp : List (TokenLogprob fl)
      pub state : dv.State

    -- The token goes to the reply; the penalties start over behind a thinking closer.
    unfoldable pub take_token : List ℕ → ℕ → Decoding → Outcome GenError Decoding
    unfolding contains bump
    take_token think_closers t d =
        let out = d.out ++ (t ∷ []) in
        let closes = contains t think_closers in
        let counts = if closes then map (λ c. 0) d.counts else d.counts in
        bump counts t >>= λ counts'. ok (record d {
          out = out;
          answer_start = if closes then length out else d.answer_start;
          counts = counts';
        })

    unfoldable pub start : Option dv.Graph → ℕ → dv.State → Outcome GenError (dv.State × Bool)
    start none t st = ok (st, false)
    start (some g) t st = dv.launch t st g >>= λ st'. ok (st', true)

    unfoldable pub next_logits : Bool → ℕ → dv.State → Outcome GenError (List fl.F × dv.State)
    next_logits true t st = dv.finish st
    next_logits false t st = dv.forward_token t st

    module _ (S : Type 0) (on_token : S → List ℕ → Option (TokenLogprob fl) → S × Bool) where
      -- A run that also changes what `on_token` captures, whatever its outcome is.
      abbrev pub within {ℓ κ} :
          {A : Type ℓ} {B : Type κ}
          → Outcome GenError A
          → (A → S → S × Outcome GenError B)
          → S
          → S × Outcome GenError B
      within (ok a) k s = k a s
      within (err e) k s = (s, err e)
      within panic k s = (s, panic)
      within stuck k s = (s, stuck)

      abbrev pub listed {ℓ} : {A : Type ℓ} → Option A → List A
      listed none = []
      listed (some a) = a ∷ []

      -- The loop's variables after a delta was sent, or when there was none.
      unfoldable pub sent : Option (TokenLogprob fl) → Bool → Decoding → Decoding
      sent tlp go d = record d {
        all_lp = d.all_lp ++ listed tlp;
        prev_text_len = if go then length d.full_text else d.prev_text_len;
      }

      unfoldable pub unsent : Option (TokenLogprob fl) → Decoding → Decoding
      unsent tlp d = record d { all_lp = d.all_lp ++ listed tlp }

      -- The text past `prev_text_len` goes to `on_token`, which says whether to go on.
      unfoldable pub deliver :
          Option (TokenLogprob fl) → Decoding → S → S × Outcome GenError (Decoding × Bool)
      unfolding is_boundary sent unsent
      deliver tlp d s =
          let (s', go) = on_token s (drop d.prev_text_len d.full_text) tlp in
          if ltb d.prev_text_len (length d.full_text)
          then (if is_boundary d.full_text d.prev_text_len
              then (s', ok (sent tlp go d, go))
              else (s, panic))
          else (s, ok (unsent tlp d, true))
