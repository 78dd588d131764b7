-- ===== src/Pipeline/Split.antt =====
-- The ranges of a planned split: src/runtime/pipeline.rs.
use reinstinct.Base.{
  ℕ, zero, suc, ◌+◌, ◌-◌, ◌*◌, ◌/◌, ◌%◌, ◌^◌, ◌≤◌, ◌<◌, ◌≡◌, refl, arith, true, false, Bool-cases,
  inl, inr, List, [], ◌∷◌, length, ltb, leb, ◌==◌, ok,
}
use reinstinct.Pipeline.{grow, split_from, plan_split, sum, at}

-- The ranges from `a` to `b`: none is empty, and each starts where the one before it ends.
pub Covers : ℕ → ℕ → List (ℕ × ℕ) → Type 0
Covers a b [] = a ≡ b
Covers a b ((x, y) ∷ rs) = (x ≡ a) × (x < y) × Covers y b rs

module _ {E : Type 0} where
  at_some : (xs : List ℕ) (i : ℕ) → i < length xs → (x : ℕ) × (at {E = E} xs i ≡ ok x)
  unfolding at
  at_some [] i h = absurd (omega arith)
  at_some (x ∷ xs) zero h = (x, refl)
  at_some (x ∷ xs) (suc i) h = at_some xs i (omega arith)

  grow_lem :
      (f : ℕ) (per_block : List ℕ) (max_end target end cum : ℕ)
      → end + f ≡ max_end
      → max_end ≤ length per_block
      → (e : ℕ) × (c : ℕ) × (grow {E = E} f per_block max_end target end cum ≡ ok (e, c))
        × (end ≤ e)
        × (e ≤ max_end)
  unfolding grow
  grow_lem zero per_block max_end target end cum h k =
      (end, cum, ground arith, omega arith, omega arith)
  grow_lem (suc f) per_block max_end target end cum h k =
      let (b, here) = at_some per_block end (omega arith) in
      let inside : ltb end max_end ≡ true = ground arith in
      elim (Bool-cases (ltb ((cum + b / 2) % 2 ^ 64) target)) [
        | inl joins ↦
            let (e, c, run, lo, hi) =
              grow_lem f per_block max_end target (end + 1) ((cum + b) % 2 ^ 64) (omega arith) k in
            (e, c, rw (inside, here) (rw joins run), omega arith, hi)
        | inr stays ↦ (end, cum, rw (inside, here) (rw stays refl), omega arith, omega arith)
      ]

  split_from_lem :
      (left n_stages : ℕ) (per_block : List ℕ) (total s start cum : ℕ)
      → s + suc left ≡ n_stages
      → start + suc left ≤ length per_block
      → (rs : List (ℕ × ℕ)) × (split_from {E = E} (suc left) n_stages per_block total s start cum
          ≡ ok rs)
        × Covers start (length per_block) rs
        × (length rs ≡ suc left)
  unfolding split_from Covers
  split_from_lem zero n per_block total s start cum h k =
      let last : (s == n - 1) ≡ true = ground arith in
      ((start, length per_block) ∷ [], rw last, (refl, omega arith, refl), refl)
  split_from_lem (suc left) n per_block total s start cum h k =
      let not_last : (s == n - 1) ≡ false = ground arith in
      let max_end = length per_block - (n - 1 - s) in
      let target = (total * (s + 1)) % 2 ^ 64 / n in
      let (b, here) = at_some per_block start (omega arith) in
      let (e, c, run, lo, hi) =
        grow_lem (max_end - (start + 1)) per_block max_end target (start + 1) ((cum + b) % 2 ^ 64)
          (omega arith) (omega arith) in
      let (rs, rest, covers, len) =
        split_from_lem left n per_block total (s + 1) e c (omega arith) (omega arith) in
      (
        (start, e) ∷ rs,
        rw (not_last, here, run, rest) refl,
        (refl, omega arith, covers),
        omega (arith, len),
      )

  -- With at least one stage and at most as many as blocks, the plan is found: one range for each
  -- stage, none of them empty, which together cover the blocks in order, whatever the sizes.
  pub plan_split-Covers :
      (per_block : List ℕ) (embd tail n_stages : ℕ)
      → 1 ≤ n_stages
      → n_stages ≤ length per_block
      → (rs : List (ℕ × ℕ)) × (plan_split {E = E} per_block embd tail n_stages ≡ ok rs)
        × Covers 0 (length per_block) rs
        × (length rs ≡ n_stages)
  unfolding plan_split
  plan_split-Covers per_block embd tail zero h k = absurd (omega arith)
  plan_split-Covers per_block embd tail (suc left) h k =
      let (rs, run, covers, len) =
        split_from_lem left (suc left) per_block (((sum per_block + embd) % 2 ^ 64 + tail) % 2 ^ 64)
          0 0 embd (omega arith) (omega arith) in
      let enough : leb 1 (suc left) ≡ true = ground arith in
      let few : leb (suc left) (length per_block) ≡ true = ground arith in
      (rs, rw (enough, few) run, covers, len)
