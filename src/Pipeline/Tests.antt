-- ===== src/Pipeline/Tests.antt =====
-- Runs of src/runtime/pipeline.rs, and its theorems at concrete inputs.
use reinstinct.Base.{ℕ, ◌+◌, ◌≤◌, ◌<◌, ◌≡◌, refl, arith, List, [], ◌∷◌, length, All, drop, ok}
use reinstinct.Pipeline.{plan_split, cut, slices}
use reinstinct.Pipeline.Bytes.{decimal}
use reinstinct.Pipeline.Split.{Covers, plan_split-Covers}
use reinstinct.Pipeline.Chunks.{joined, total_of, cut_lem, slices-joined}

abbrev blocks : List ℕ
blocks = 10 ∷ 20 ∷ 30 ∷ 10 ∷ []

plan_split-Covers_example :
    (rs : List (ℕ × ℕ)) × (plan_split {E = ℕ} blocks 5 8 2 ≡ ok rs)
    × Covers 0 4 rs
    × (length rs ≡ 2)
plan_split-Covers_example = plan_split-Covers blocks 5 8 2 (omega arith) (omega arith)

cut_lem_example :
    (cs : List ℕ) × (cut {E = ℕ} 5 2 5 ≡ ok cs)
    × (total_of cs ≡ 5)
    × All (λ c. (0 < c) × (c ≤ 2)) cs
cut_lem_example = cut_lem 5 2 5 (omega arith) (omega arith)

adds_up : 0 + total_of (2 ∷ 1 ∷ []) ≡ 3
unfolding total_of
adds_up = refl

abbrev prompt : List ℕ
prompt = 7 ∷ 8 ∷ 9 ∷ []

slices-joined_example :
    (ss : List (List ℕ)) × (slices {E = ℕ} prompt 0 (2 ∷ 1 ∷ []) ≡ ok ss)
    × (joined ss ≡ drop 0 prompt)
slices-joined_example = slices-joined prompt 0 (2 ∷ 1 ∷ []) adds_up

two_digits : decimal 20 27 ≡ 0x32 ∷ 0x37 ∷ []
unfolding decimal
two_digits = refl
