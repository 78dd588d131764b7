-- ===== src/SpecDecode.antt =====
-- The speculative decoding loop: src/runtime/spec_decode.rs. The forwards of the target and of the
-- drafter run on the device and are an interface.
pub mod Round
pub mod Greedy
pub mod Lossless
mod Tests
use reinstinct.Base.{
  ℕ, zero, suc, ◌+◌, ◌-◌, ◌<◌, Bool, true, false, not, ◌&&◌, ◌||◌, Option, some, none, List, [],
  ◌∷◌, ◌++◌, map, length, get_elem?, drop, ltb, leb, ◌==◌, if◌then◌else◌, Outcome, ok, err, panic,
  stuck, ◌>>=◌, ◌>>◌,
}
use reinstinct.Base.Float.{Floats}
use reinstinct.Sampling.{
  first_max, finite_max, sum_from, next_f32, softmax_with_temp, sample_from_logits,
  sample_from_probs,
}
use reinstinct.Sampling.Xorshift.{Rng}

-- The target with its decode state, and the drafter with its own: their forwards may fail with an `E`.
pub record Engine (fl : Floats) (E : Type 0) : Type 1 where
  pub State : Type 0
  pub Drafter : Type 0
  pub position : State → ℕ
  pub truncate : ℕ → State → State
  pub forward_token : ℕ → State → Outcome E (List fl.F × State)
  pub verify_forward : List ℕ → State → Outcome E (List (List fl.F) × State)
  pub verify_via_graph : List ℕ → State → Outcome E (List (List fl.F) × State)
  pub set_h_prev : State → Drafter → Outcome E Drafter
  pub forward_step : State → ℕ → ℕ → Drafter → Outcome E (List fl.F × Drafter)

-- The parameters of a call; `captured_k` is `none` where there is no captured graph.
pub record Config (fl : Floats) : Type 0 where
  pub captured_k : Option ℕ
  pub eos : ℕ
  pub max_tokens : ℕ
  pub k : ℕ
  pub temperature : fl.F
  pub p_min : fl.F
  pub adaptive_min_alpha : fl.F
  pub adaptive_window : ℕ
  pub no_bonus : Bool

pub record SpecStats : Type 0 where
  pub n_drafted : ℕ
  pub n_accepted : ℕ
  pub hit_eos : Bool
  pub adaptive_disabled : Bool

module _ {fl : Floats} {E : Type 0} (en : Engine fl E) where
  -- The variables of the loop.
  pub record Loop : Type 0 where
    pub generated : List ℕ
    pub stats : SpecStats
    pub rng : Rng
    pub verify_logits : List fl.F
    pub last_tok : ℕ
    pub state : en.State
    pub drafter : en.Drafter
    pub accept_window : List fl.F
    pub mtp_off : Bool

module _ {fl : Floats} {E : Type 0} (en : Engine fl E) (cfg : Config fl) where
  open fl use {F, nought, one, neg_infinity, of_nat, less, is_finite, add, sub, div, max, min, exp}
  open en use {
    State, Drafter, position, truncate, forward_token, verify_forward, verify_via_graph, set_h_prev,
    forward_step,
  }

  abbrev pub sampling : Bool
  sampling = less nought cfg.temperature

  -- The token of a logit vector: sampled, or greedy. `argmax` asserts that there is a logit.
  unfoldable pub pick : List F → Rng → Outcome E (ℕ × Rng)
  pick logits rng =
      if sampling
      then ok (sample_from_logits fl logits cfg.temperature rng)
      else if length logits == 0
      then panic
      else ok (first_max fl logits, rng)

  -- `accept_rate`, where f64 is taken with the same interface.
  unfoldable pub accept_rate : SpecStats → F
  accept_rate st =
      if st.n_drafted == 0 then nought else div (of_nat st.n_accepted) (of_nat st.n_drafted)

  -- The probability of token `d` under the drafter's softmax, where its logits have a finite maximum.
  unfoldable pub pick_probability : List F → ℕ → F → F
  pick_probability logits d max_logit =
      let denom =
        sum_from fl nought
          (map (λ v. if is_finite v then exp (sub v max_logit) else nought) logits) in
      elim (get_elem? logits d) [
        | none ↦ nought
        | some v ↦
            if less nought denom && is_finite v then div (exp (sub v max_logit)) denom else nought
      ]

  -- The `p_min` early stop.
  unfoldable pub stops_early : List F → ℕ → Bool
  unfolding pick_probability
  stops_early logits d =
      let max_logit = finite_max fl neg_infinity logits in
      less nought cfg.p_min
      && is_finite max_logit
      && less (pick_probability logits d max_logit) cfg.p_min

  -- The draft phase: at most `n` more drafts, each with the drafter's logits.
  unfoldable pub draft :
      ℕ → State → ℕ → ℕ → Drafter → Rng → Outcome E (List (ℕ × List F) × Drafter × Rng)
  unfolding stops_early
  draft zero state pos_const prev dr rng = ok ([], dr, rng)
  draft (suc n) state pos_const prev dr rng = do
    (logits, dr') ← forward_step state prev pos_const dr
    (d, rng') ← pick logits rng
    let more = draft n state pos_const d dr' rng'
    if stops_early logits d
        then ok ((d, logits) ∷ [], dr', rng')
        else more >>= λ (rest, dr'', rng''). ok ((d, logits) ∷ rest, dr'', rng'')

  -- `xs[i]`, which panics out of range.
  unfoldable pub index : List F → ℕ → Outcome E F
  index xs i = elim (get_elem? xs i) [ none ↦ panic | some x ↦ ok x ]

  abbrev zip_with : (F → F → F) → List F → List F → List F
  zip_with f [] ys = []
  zip_with f (x ∷ xs) [] = []
  zip_with f (x ∷ xs) (y ∷ ys) = f x y ∷ zip_with f xs ys

  -- The replacement after a rejection: a draw from the normalised residual `max(p_t - p_d, 0)`.
  unfoldable pub replace : List F → List F → Rng → ℕ × Rng
  replace p_t p_d rng =
      let residual = zip_with (λ t d. max (sub t d) nought) p_t p_d in
      let s = sum_from fl nought residual in
      sample_from_probs fl (if less nought s then map (λ x. div x s) residual else p_t) rng

  -- Whether draft `d` is accepted, and the token that is committed in its place.
  unfoldable pub decide_draft : List F → List F → ℕ → Rng → Outcome E (Bool × ℕ × Rng)
  unfolding index replace
  decide_draft predicting draft_logits d rng =
      if sampling
      then (do
        let p_t = softmax_with_temp fl predicting cfg.temperature
        let p_d = softmax_with_temp fl draft_logits cfg.temperature
        let (r, rng') = next_f32 fl rng
        q ← index p_d d
        ratio ← (if less nought q then (index p_t d >>= λ p. ok (min (div p q) one)) else ok nought)
        let (t, rng'') = replace p_t p_d rng'
        ok (if less r ratio then (true, d, rng') else (false, t, rng'')))
      else (if length predicting == 0
          then panic
          else let target_pred = first_max fl predicting in
            ok (if d == target_pred then (true, d, rng) else (false, target_pred, rng)))
