-- ===== src/Sampling.antt =====
-- Token samplers: src/sampling.rs, over an interface for f32.
pub mod Xorshift
pub mod Argmax
pub mod Chain
mod Tests
use reinstinct.Base.{
  ℕ, zero, suc, ◌+◌, ◌-◌, ◌*◌, ◌/◌, ◌%◌, ◌^◌, Bool, true, false, not, ◌&&◌, ◌||◌, Option, some,
  none, List, [], ◌∷◌, ◌++◌, map, length, get_or, set, drop, ltb, leb, ◌==◌, if◌then◌else◌, Outcome,
  ok, panic,
}
use mathlib.Core.List.{foldl}
use reinstinct.Base.Float.{Floats}
use reinstinct.Sampling.Xorshift.{Rng, next_bits}

module _ (fl : Floats) where
  open fl use {
    F, nought, one, neg_infinity, of_nat, less, at_most, same, is_finite, add, sub, mul, div, max,
    min, neg, exp, ln,
  }

  -- `next_f32`: 24 bits over 2 ^ 24.
  unfoldable pub next_f32 : Rng → F × Rng
  next_f32 rng = let (bits, rng') = next_bits rng in (div (of_nat bits) (of_nat (2 ^ 24)), rng')

  -- The loop of `argmax` from index `i` on.
  unfoldable pub argmax_loop : List F → ℕ → ℕ → F → ℕ
  argmax_loop [] i best best_v = best
  argmax_loop (v ∷ vs) i best best_v =
      let better = is_finite v && less best_v v in
      argmax_loop vs (i + 1) (if better then i else best) (if better then v else best_v)

  -- What `argmax` computes behind its assertion.
  unfoldable pub first_max : List F → ℕ
  unfolding argmax_loop
  first_max logits = argmax_loop logits 0 0 neg_infinity

  -- `argmax`, which asserts that there is a logit.
  unfoldable pub argmax {κ} : {E : Type κ} → List F → Outcome E ℕ
  unfolding first_max
  argmax logits = if length logits == 0 then panic else ok (first_max logits)

  -- `.iter().sum()`
  unfoldable pub sum_from : F → List F → F
  sum_from acc [] = acc
  sum_from acc (x ∷ xs) = sum_from (add acc x) xs

  -- The maximum of the finite entries, -∞ if there is none.
  unfoldable pub finite_max : F → List F → F
  finite_max acc [] = acc
  finite_max acc (v ∷ vs) = finite_max (if is_finite v then max acc v else acc) vs

  -- `sort_by(|a, b| a.1.partial_cmp(&b.1).unwrap_or(Equal))`: stable and ascending.
  unfoldable pub insert_sorted : ℕ × F → List (ℕ × F) → List (ℕ × F)
  insert_sorted x [] = x ∷ []
  insert_sorted (i, v) ((j, w) ∷ ys) =
      if less w v then (j, w) ∷ insert_sorted (i, v) ys else (i, v) ∷ (j, w) ∷ ys

  unfoldable pub sort : List (ℕ × F) → List (ℕ × F)
  unfolding insert_sorted
  sort [] = []
  sort (x ∷ xs) = insert_sorted x (sort xs)

  -- `top[0] = x`, and the test against `top[0]`.
  abbrev replace_first : ℕ × F → List (ℕ × F) → List (ℕ × F)
  replace_first x [] = []
  replace_first x (y ∷ ys) = x ∷ ys

  abbrev beats_first : F → List (ℕ × F) → Bool
  beats_first v [] = false
  beats_first v ((j, w) ∷ ys) = less w v

  -- One logit in the selection of the `k` largest.
  unfoldable pub select_step : ℕ → ℕ → F → List (ℕ × F) → List (ℕ × F)
  unfolding sort
  select_step k i v top =
      if not (is_finite v)
      then top
      else if ltb (length top) k
      then sort (top ++ ((i, v) ∷ []))
      else if beats_first v top
      then sort (replace_first (i, v) top)
      else top

  unfoldable pub select : ℕ → ℕ → List F → List (ℕ × F) → List (ℕ × F)
  unfolding select_step
  select k i [] top = top
  select k i (v ∷ vs) top = select k (i + 1) vs (select_step k i v top)

  -- The walk along the cumulative weights; `last` where it falls through.
  unfoldable pub walk : F → F → List (ℕ × F) → ℕ → ℕ
  walk r cum [] last = last
  walk r cum ((i, w) ∷ ws) last =
      let cum' = add cum w in let rest = walk r cum' ws last in if less r cum' then i else rest

  abbrev weights : List (ℕ × F) → List F
  weights = map (λ (i, w). w)

  abbrev last_index : ℕ → List (ℕ × F) → ℕ
  last_index d [] = d
  last_index d ((i, w) ∷ ws) = last_index i ws

  -- The value of 1e-3, the least temperature.
  abbrev least_temperature : F
  least_temperature = div one (of_nat 1000)

  -- The draw over the selected logits.
  unfoldable pub draw_top : F → List (ℕ × F) → Rng → ℕ × Rng
  unfolding walk sum_from next_f32
  draw_top temperature top rng =
      let inv_t = div one (max temperature least_temperature) in
      let max_logit = foldl max neg_infinity (weights top) in
      let ws = map (λ (i, v). (i, exp (mul (sub v max_logit) inv_t))) top in
      let total = sum_from nought (weights ws) in
      let (u, rng') = next_f32 rng in
      if less nought total
      then (walk (mul u total) nought ws (last_index 0 ws), rng')
      else (last_index 0 ws, rng)

  -- Behind the assertion that there are logits, which also serves `argmax`.
  abbrev top_k_token : List F → F → ℕ → Rng → ℕ × Rng
  top_k_token logits temperature k rng =
      if at_most temperature nought
      then (first_max logits, rng)
      else let n = length logits in
        let k_eff = if k == 0 || ltb n k then n else k in
        let top = select k_eff 0 logits [] in
        elim top [ [] ↦ (first_max logits, rng) | x ∷ xs ↦ draw_top temperature (x ∷ xs) rng ]

  unfoldable pub sample_temp_topk {κ} : {E : Type κ} → List F → F → ℕ → Rng → Outcome E (ℕ × Rng)
  unfolding first_max select draw_top
  sample_temp_topk logits temperature k rng =
      if length logits == 0 then panic else ok (top_k_token logits temperature k rng)

  -- The loop of `apply_freq_presence_penalty` over the counts.
  unfoldable pub penalise_counts : F → F → List F → List ℕ → List F
  penalise_counts frequency presence [] cs = []
  penalise_counts frequency presence (v ∷ vs) [] = v ∷ vs
  penalise_counts frequency presence (v ∷ vs) (c ∷ cs) =
      let less_frequent = sub v (mul (of_nat c) frequency) in
      let penalised =
        if not (same presence nought) then sub less_frequent presence else less_frequent in
      (if c == 0 then v else penalised) ∷ penalise_counts frequency presence vs cs

  -- The assertion that `counts` is as long as `logits` panics before anything is changed.
  unfoldable pub apply_freq_presence_penalty {κ} :
      {E : Type κ} → List F → List ℕ → F → F → Outcome E (List F)
  unfolding penalise_counts
  apply_freq_presence_penalty logits counts frequency presence =
      if same frequency nought && same presence nought
      then ok logits
      else if length logits == length counts
      then ok (penalise_counts frequency presence logits counts)
      else panic

  -- `logits[i] = if v > 0.0 { v / penalty } else { v * penalty }`
  abbrev penalise : F → F → F
  penalise penalty v = if less nought v then div v penalty else mul v penalty

  unfoldable pub penalise_at : F → ℕ → List F → List F
  penalise_at penalty i [] = []
  penalise_at penalty zero (v ∷ vs) = penalise penalty v ∷ vs
  penalise_at penalty (suc i) (v ∷ vs) = v ∷ penalise_at penalty i vs

  -- A token past the end is skipped by `penalise_at`.
  unfoldable pub penalise_tokens : F → List ℕ → List F → List F
  unfolding penalise_at
  penalise_tokens penalty [] logits = logits
  penalise_tokens penalty (t ∷ ts) logits =
      penalise_tokens penalty ts (penalise_at penalty t logits)

  unfoldable pub apply_repetition_penalty : List F → List ℕ → ℕ → F → List F
  unfolding penalise_tokens
  apply_repetition_penalty logits history window penalty =
      if same penalty one || window == 0 || length history == 0
      then logits
      else penalise_tokens penalty (drop (length history - window) history) logits

  unfoldable pub apply_min_p : List F → F → List F
  unfolding finite_max
  apply_min_p logits min_p =
      let max_logit = finite_max neg_infinity logits in
      let log_min = ln min_p in
      if not (less nought min_p) || not (is_finite max_logit)
      then logits
      else map
          (λ v. if not (is_finite v) || less (sub v max_logit) log_min then neg_infinity else v)
          logits

  -- `max_v` and the sum take every logit, also one that is not finite.
  unfoldable pub raw_max : F → List F → F
  raw_max acc [] = acc
  raw_max acc (x ∷ xs) = raw_max (if less acc x then x else acc) xs

  unfoldable pub softmax_with_temp : List F → F → List F
  unfolding raw_max sum_from
  softmax_with_temp logits temperature =
      let inv_t = div one temperature in
      let max_v = raw_max neg_infinity logits in
      let out = map (λ x. exp (mul (sub x max_v) inv_t)) logits in
      let s = sum_from nought out in if less nought s then map (λ x. div x s) out else out

  unfoldable pub sample_loop : F → F → ℕ → List F → ℕ
  sample_loop r acc i [] = i - 1
  sample_loop r acc i (p ∷ ps) =
      let acc' = add acc p in
      let rest = sample_loop r acc' (i + 1) ps in if less r acc' then i else rest

  -- The caller passes one probability at least, so `probs.len() - 1` does not underflow.
  unfoldable pub sample_from_probs : List F → Rng → ℕ × Rng
  unfolding next_f32 sample_loop
  sample_from_probs probs rng = let (r, rng') = next_f32 rng in (sample_loop r nought 0 probs, rng')

  unfoldable pub sample_from_logits : List F → F → Rng → ℕ × Rng
  unfolding softmax_with_temp sample_from_probs
  sample_from_logits logits temperature rng =
      sample_from_probs (softmax_with_temp logits temperature) rng
