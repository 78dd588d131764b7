-- ===== src/Sampling/Chain/Request.antt =====
-- The chain that a request runs for each token: src/sampling.rs.
use reinstinct.Base.{
  ℕ, ◌^◌, not, ◌&&◌, some, none, List, [], ◌∷◌, map, length, get_elem?, set, min, ◌==◌,
  if◌then◌else◌, Outcome, ok, panic, ◌>>=◌,
}
use mathlib.Core.List.{foldl}
use reinstinct.Base.Float.{Floats}
use reinstinct.Sampling.Xorshift.{Rng}
use reinstinct.Sampling.{
  first_max, finite_max, apply_freq_presence_penalty, apply_repetition_penalty, apply_min_p,
}
use reinstinct.Sampling.Chain.{
  SamplerParams, SampleResult, enumerate_from, top_k_threshold, apply_top_p, sample_softmax_temp,
  sample_mirostat_v2,
}

-- `largest n` stands for `select_nth_unstable_by(n - 1)` and `truncate(n)`.
module _ (fl : Floats) (to_bits : fl.F → ℕ) (from_bits : ℕ → fl.F)
    (sort_descending : List (ℕ × fl.F) → List (ℕ × fl.F))
    (largest : ℕ → List (ℕ × fl.F) → List (ℕ × fl.F)) where
  open fl use {
    F, nought, one, neg_infinity, of_nat, at_most, is_finite, add, sub, mul, div, max, exp, ln,
  }

  abbrev plain : ℕ → SampleResult fl
  plain picked = record { token = picked; logprob = none; top_logprobs = [] }

  -- `xs[i]`
  abbrev at {ℓ κ} : {A : Type ℓ} {E : Type κ} → List A → ℕ → Outcome E A
  at xs i = elim (get_elem? xs i) [ none ↦ panic | some x ↦ ok x ]

  unfoldable pub finalize_lp {κ} : {E : Type κ} → List F → ℕ → ℕ → F → Outcome E (SampleResult fl)
  finalize_lp logits picked top_n temperature =
      let inv_t = div one temperature in
      let max_logit = finite_max fl neg_infinity logits in
      let scaled =
        map (λ v. if is_finite v then mul (sub v max_logit) inv_t else neg_infinity) logits in
      let sumexp = foldl (λ acc s. if is_finite s then add acc (exp s) else acc) nought scaled in
      let lse = ln (max sumexp (div one (of_nat (10 ^ 30)))) in
      let logps = enumerate_from fl 0 (map (λ s. sub s lse) scaled) in
      let full = at logps picked >>= λ (i, lp). ok (record {
        token = picked;
        logprob = some lp;
        top_logprobs = sort_descending (largest (min top_n (length logps)) logps);
      }) in
      if top_n == 0
      then ok (plain picked)
      else if not (is_finite max_logit)
      then ok (record { token = picked; logprob = some neg_infinity; top_logprobs = [] })
      else full

  -- The logits at or above the cut line, with their indexes.
  unfoldable pub candidates : F → List (ℕ × F) → List (ℕ × F)
  candidates threshold [] = []
  candidates threshold ((i, v) ∷ vs) =
      let rest = candidates threshold vs in
      if is_finite v && at_most threshold v then (i, v) ∷ rest else rest

  -- All logits at -∞ but the candidates.
  unfoldable pub write_back : List (ℕ × F) → List F → List F → List F
  write_back [] cl logits = logits
  write_back (c ∷ cs) [] logits = logits
  write_back ((i, w) ∷ cs) (v ∷ vs) logits = write_back cs vs (set logits i v)

  -- The draw over the candidates of the top-k cut line.
  unfoldable pub sample_candidates {κ} :
      {E : Type κ} → List F → SamplerParams fl → F → Rng → ℕ → Outcome E (SampleResult fl × Rng)
  unfolding candidates write_back finalize_lp
  sample_candidates logits params threshold rng top_n =
      let cand = candidates threshold (enumerate_from fl 0 logits) in
      let cl =
        apply_min_p fl
          (apply_top_p fl to_bits from_bits sort_descending (map (λ (i, v). v) cand) params.top_p)
          params.min_p in
      let (pick, rng') =
        sample_softmax_temp fl to_bits from_bits sort_descending cl params.temperature rng in
      let masked = write_back cand cl (map (λ v. neg_infinity) logits) in
      (if length cl == 0 then panic else at cand pick) >>= λ (token, v).
      if top_n == 0
      then ok (plain token, rng')
      else finalize_lp masked token top_n (max params.temperature (div one (of_nat 1000))) >>= λ r.
          ok (r, rng')

  -- The part behind the penalties, without mirostat.
  unfoldable pub sample_filtered {κ} :
      {E : Type κ} → List F → SamplerParams fl → Rng → ℕ → Outcome E (SampleResult fl × Rng)
  unfolding sample_candidates
  sample_filtered logits params rng top_n =
      let filtered =
        apply_min_p fl (apply_top_p fl to_bits from_bits sort_descending logits params.top_p)
          params.min_p in
      let (token, rng') =
        sample_softmax_temp fl to_bits from_bits sort_descending filtered params.temperature rng in
      let wide =
        finalize_lp filtered token top_n (max params.temperature (div one (of_nat 1000))) >>= λ r.
        ok (r, rng') in
      if at_most params.temperature nought && (top_n == 0)
      then ok (plain (first_max fl logits), rng)
      else elim (top_k_threshold fl to_bits from_bits sort_descending logits params.top_k) [
        | none ↦ wide
        | some threshold ↦ sample_candidates logits params threshold rng top_n
      ]

  unfoldable pub sample_chain_lp {κ} :
      {E : Type κ}
      → List F
      → SamplerParams fl
      → List ℕ
      → List ℕ
      → Rng
      → ℕ
      → Outcome E (SampleResult fl × SamplerParams fl × Rng)
  unfolding sample_filtered
  sample_chain_lp logits params history counts rng top_n =
      let run =
        apply_freq_presence_penalty fl logits counts params.frequency_penalty
          params.presence_penalty
        >>= λ raw.
            let penalised =
              apply_repetition_penalty fl raw history params.repetition_window
                params.repetition_penalty in
            elim params.mirostat [
              | none ↦
                  sample_filtered penalised params rng top_n >>= λ (r, rng'). ok (r, params, rng')
              | some ms ↦
                  let (token, ms', rng') =
                    sample_mirostat_v2 fl to_bits from_bits sort_descending penalised ms rng in
                  finalize_lp penalised token top_n one >>= λ r.
                  ok (r, record params { mirostat = some ms' }, rng')
            ] in
      if length logits == 0 then panic else run

  unfoldable pub sample_chain {κ} :
      {E : Type κ}
      → List F
      → SamplerParams fl
      → List ℕ
      → List ℕ
      → Rng
      → Outcome E (ℕ × SamplerParams fl × Rng)
  unfolding sample_chain_lp
  sample_chain logits params history counts rng =
      sample_chain_lp logits params history counts rng 0 >>= λ (r, params', rng').
      ok (r.token, params', rng')
