-- ===== src/Sampling/Chain.antt =====
-- The request sampler of src/sampling.rs: top-k cut line, nucleus filter, final draw, mirostat and
-- the chain. The bit patterns of f32 and the unstable descending sort are parameters.
pub mod Keys
pub mod Request
use reinstinct.Base.{
  ℕ, zero, suc, ◌+◌, ◌-◌, ◌^◌, Bool, true, false, not, ◌&&◌, ◌||◌, Option, some, none, List, [],
  ◌∷◌, ◌++◌, map, length, get_elem?, set, take, drop, min, ltb, leb, ◌==◌, if◌then◌else◌, Outcome,
  ok, panic, ◌>>=◌,
}
use reinstinct.Base
use reinstinct.Base.Float.{Floats}
use reinstinct.Sampling.Xorshift.{Rng}
use reinstinct.Sampling.{
  first_max, next_f32, sum_from, finite_max, apply_freq_presence_penalty, apply_repetition_penalty,
  apply_min_p,
}

-- Integer order on keys is float order on bit patterns of 32 bits.
unfoldable pub key : ℕ → ℕ
key b = if leb (2 ^ 31) b then 2 ^ 32 - 1 - b else b + 2 ^ 31

unfoldable pub unkey : ℕ → ℕ
unkey k = if leb (2 ^ 31) k then k - 2 ^ 31 else 2 ^ 32 - 1 - k

-- The min-heap of keys as an ascending list.
unfoldable pub push_key : ℕ → List ℕ → List ℕ
push_key k [] = k ∷ []
push_key k (x ∷ xs) = let rest = push_key k xs in if ltb x k then x ∷ rest else k ∷ x ∷ xs

-- A key in the heap of at most `n`; the heap is not empty where it is full.
unfoldable pub heap_step : ℕ → ℕ → List ℕ → List ℕ
heap_step n k heap = if ltb (length heap) n then push_key k heap else replace k heap
  where
    replace : ℕ → List ℕ → List ℕ
    replace k [] = []
    replace k (x ∷ xs) = if ltb x k then push_key k xs else x ∷ xs

module _ (fl : Floats) where
  open fl use {
    F, nought, one, neg_infinity, of_nat, less, at_most, same, is_finite, add, sub, mul, div, max,
    neg, exp, ln,
  }

  pub record MirostatV2 : Type 0 where
    pub tau : F
    pub eta : F
    pub mu : F

  unfoldable pub new_mirostat : F → F → MirostatV2
  new_mirostat tau eta = record { tau = tau; eta = eta; mu = mul (of_nat 2) tau }

  pub record SamplerParams : Type 0 where
    pub temperature : F
    pub top_k : ℕ
    pub top_p : F
    pub min_p : F
    pub repetition_penalty : F
    pub repetition_window : ℕ
    pub frequency_penalty : F
    pub presence_penalty : F
    pub mirostat : Option MirostatV2
    pub seed : ℕ

  -- `Default::default()`; 0.8 is written as a quotient.
  unfoldable pub default_params : SamplerParams
  default_params = record {
    temperature = div (of_nat 8) (of_nat 10);
    top_k = 40;
    top_p = one;
    min_p = nought;
    repetition_penalty = one;
    repetition_window = 64;
    frequency_penalty = nought;
    presence_penalty = nought;
    mirostat = none;
    seed = 0;
  }

  pub record SampleResult : Type 0 where
    pub token : ℕ
    pub logprob : Option F
    pub top_logprobs : List (ℕ × F)

  abbrev pub enumerate_from : ℕ → List F → List (ℕ × F)
  enumerate_from i [] = []
  enumerate_from i (v ∷ vs) = (i, v) ∷ enumerate_from (i + 1) vs

  abbrev pub weights_of : List (ℕ × F) → List F
  weights_of = map (λ (i, w). w)

  -- 1e-3 and 1e-30.
  abbrev least_t : F
  least_t = div one (of_nat 1000)

  abbrev least_p : F
  least_p = div one (of_nat (10 ^ 30))

  module _ (to_bits : F → ℕ) (from_bits : ℕ → F)
      (sort_descending : List (ℕ × F) → List (ℕ × F)) where
    unfoldable pub heap_of : ℕ → List F → List ℕ → List ℕ
    unfolding key heap_step
    heap_of k [] heap = heap
    heap_of k (v ∷ vs) heap =
        heap_of k vs (if is_finite v then heap_step k (key (to_bits v)) heap else heap)

    abbrev lowest : List ℕ → Option F
    lowest [] = none
    lowest (x ∷ xs) = some (from_bits (unkey x))

    unfoldable pub top_k_threshold : List F → ℕ → Option F
    unfolding heap_of unkey
    top_k_threshold logits k =
        if k == 0 || leb (length logits) k
        then none
        else let heap = heap_of k logits [] in if ltb (length heap) k then none else lowest heap

    -- The walk for the cutoff: the rank behind the first entry that covers `p`.
    unfoldable pub cutoff : F → F → ℕ → List (ℕ × F) → ℕ
    cutoff p cum rank [] = rank
    cutoff p cum rank ((i, w) ∷ ws) =
        let cum' = add cum w in
        let rest = cutoff p cum' (rank + 1) ws in if at_most p cum' then rank + 1 else rest

    abbrev mask : List F → List (ℕ × F) → List F
    mask logits [] = logits
    mask logits ((i, w) ∷ ws) = mask (set logits i neg_infinity) ws

    -- The exponentials of the logits against their finite maximum.
    abbrev pub exps : List F → F → F → List (ℕ × F)
    exps logits max_logit scale =
        map (λ (i, v). (i, if is_finite v then exp (mul (sub v max_logit) scale) else nought))
          (enumerate_from 0 logits)

    unfoldable pub apply_top_p : List F → F → List F
    unfolding cutoff
    apply_top_p logits p =
        let max_logit = finite_max fl neg_infinity logits in
        let raw =
          map (λ (i, v). (i, if is_finite v then exp (sub v max_logit) else nought))
            (enumerate_from 0 logits) in
        let total = sum_from fl nought (weights_of raw) in
        let probs = sort_descending (map (λ (i, w). (i, div w total)) raw) in
        if not (less nought p && less p one) || not (is_finite max_logit) || not (less nought total)
        then logits
        else mask logits (drop (cutoff p nought 0 probs) probs)

    abbrev first_index : List (ℕ × F) → ℕ
    first_index [] = 0
    first_index ((i, w) ∷ ws) = i

    -- The walk of a draw; `last` where it falls through.
    unfoldable pub draw_walk : F → F → List (ℕ × F) → ℕ × F → ℕ × F
    draw_walk r cum [] last = last
    draw_walk r cum ((i, w) ∷ ws) last =
        let cum' = add cum w in
        let rest = draw_walk r cum' ws last in if less r cum' then (i, w) else rest

    -- The assertion of `argmax` that there are logits is the caller's.
    unfoldable pub sample_softmax_temp : List F → F → Rng → ℕ × Rng
    unfolding draw_walk
    sample_softmax_temp logits temperature rng =
        let inv_t = div one (max temperature least_t) in
        let max_logit = finite_max fl neg_infinity logits in
        let ws = exps logits max_logit inv_t in
        let total = sum_from fl nought (weights_of ws) in
        let (u, rng') = next_f32 fl rng in
        let (i, w) = draw_walk (mul u total) nought ws (first_index (sort_descending ws), nought) in
        if at_most temperature nought || not (is_finite max_logit) || not (less nought total)
        then (first_max fl logits, rng)
        else (i, rng')

    -- `-p.max(1e-30).ln()`
    abbrev surprise : F → F
    surprise p = neg (ln (max p least_p))

    -- How many of the sorted probabilities are kept: at least one.
    unfoldable pub keep_until : F → ℕ → List (ℕ × F) → ℕ
    keep_until mu rank [] = rank
    keep_until mu rank ((i, p) ∷ ps) =
        let rest = keep_until mu (rank + 1) ps in
        if less mu (surprise p) then (if rank == 0 then 1 else rank) else rest

    abbrev last_entry : ℕ × F → List (ℕ × F) → ℕ × F
    last_entry d [] = d
    last_entry d (x ∷ xs) = last_entry x xs

    unfoldable pub sample_mirostat_v2 : List F → MirostatV2 → Rng → ℕ × MirostatV2 × Rng
    unfolding keep_until draw_walk
    sample_mirostat_v2 logits state rng =
        let max_logit = finite_max fl neg_infinity logits in
        let raw =
          map (λ (i, v). (i, if is_finite v then exp (sub v max_logit) else nought))
            (enumerate_from 0 logits) in
        let s = sum_from fl nought (weights_of raw) in
        let probs = sort_descending (map (λ (i, w). (i, div w s)) raw) in
        let kept = take (keep_until state.mu 0 probs) probs in
        let total = sum_from fl nought (weights_of kept) in
        let (u, rng') = next_f32 fl rng in
        let (picked, picked_p) =
          draw_walk (mul u total) nought kept (last_entry (0, least_p) kept) in
        let mu' = sub state.mu (mul state.eta (sub (surprise picked_p) state.tau)) in
        if not (is_finite max_logit) || not (less nought s)
        then (first_max fl logits, state, rng)
        else (picked, record state { mu = mu' }, rng')
