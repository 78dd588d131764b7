-- ===== src/Tokenizer/Lowest.antt =====
-- What the scan of the adjacent pairs finds: src/tokenizer.rs.
use reinstinct.Base.{
  ℕ, zero, suc, ◌+◌, ◌≤◌, ◌<◌, ◌≡◌, refl, ap, ◌∙◌, arith, Bool-cases, Option-cases, inl, inr,
  Option, some, none, List, [], ◌∷◌, ltb, ltb→lt, ltb→le,
}
use reinstinct.Tokenizer.{Ranks, rank_get, Piece, Best, find_best}

-- The rank of the pair at `i`.
unfoldable pub pair_rank : Ranks → List Piece → ℕ → Option ℕ
pair_rank m [] i = none
pair_rank m (l ∷ []) i = none
pair_rank m (l ∷ r ∷ w) zero = rank_get m l r
pair_rank m (l ∷ r ∷ w) (suc i) = pair_rank m (r ∷ w) i

-- The pair at `i` has the lowest rank, and is the first one of that rank.
pub record IsLowest (m : Ranks) (w : List Piece) (i r : ℕ) : Type 0 where
  pub at : pair_rank m w i ≡ some r
  pub least : (j s : ℕ) → pair_rank m w j ≡ some s → r ≤ s
  pub first : (j s : ℕ) → pair_rank m w j ≡ some s → j < i → r < s

-- The scan from pair `o` on keeps what it had, or finds the lowest pair, which is lower than that.
pub data Scanned (m : Ranks) (w : List Piece) (o : ℕ) (before after : Best) : Type 0 where
  kept :
      after ≡ before
      → ((j s : ℕ) → pair_rank m w j ≡ some s → before.rank ≤ s)
      → Scanned m w o before after
  found :
      (i r : ℕ)
      → after ≡ record { rank = r; idx = some (o + i) }
      → r < before.rank
      → IsLowest m w i r
      → Scanned m w o before after

-- The pairs in front of `r ∷ w` are the first one and those behind it.
all_pairs :
    (m : Ranks) (l r : Piece) (w : List Piece) (P : ℕ → ℕ → Type 0)
    → ((s : ℕ) → rank_get m l r ≡ some s → P 0 s)
    → ((j s : ℕ) → pair_rank m (r ∷ w) j ≡ some s → P (suc j) s)
    → (j s : ℕ) → pair_rank m (l ∷ r ∷ w) j ≡ some s
    → P j s
unfolding pair_rank
all_pairs m l r w P h k zero s e = h s e
all_pairs m l r w P h k (suc j) s e = k j s e

-- A first pair that is not lower than what there was changes nothing.
scan-passed :
    (m : Ranks) (l r : Piece) (w : List Piece) (o : ℕ) (before after : Best)
    → ((s : ℕ) → rank_get m l r ≡ some s → before.rank ≤ s)
    → Scanned m (r ∷ w) (o + 1) before after
    → Scanned m (l ∷ r ∷ w) o before after
unfolding pair_rank
scan-passed m l r w o before after h (kept e low) =
    kept e (all_pairs m l r w (λ j s. before.rank ≤ s) h low)
scan-passed m l r w o before after h (found i k e lt low) =
    found (suc i) k (e ∙ ap (λ n. record { rank = k; idx = some n }) (omega arith)) lt (record {
      at = low.at;
      least = all_pairs m l r w (λ j s. k ≤ s) (λ s q. omega (arith, h s q)) low.least;
      first =
          all_pairs m l r w (λ j s. j < suc i → k < s) (λ s q lt'. omega (arith, h s q))
            (λ j s q lt'. low.first j s q (omega arith));
    })

-- A first pair that is lower is the lowest one unless a later one is lower still.
scan-taken :
    (m : Ranks) (l r : Piece) (w : List Piece) (o k : ℕ) (before after : Best)
    → rank_get m l r ≡ some k
    → k < before.rank
    → Scanned m (r ∷ w) (o + 1) (record { rank = k; idx = some o }) after
    → Scanned m (l ∷ r ∷ w) o before after
unfolding pair_rank
scan-taken m l r w o k before after h lt (kept e low) =
    found 0 k (e ∙ ap (λ n. record { rank = k; idx = some n }) (omega arith)) lt (record {
      at = h;
      least = all_pairs m l r w (λ j s. k ≤ s) (λ s q. same_rank s q) low;
      first = λ j s q lt'. absurd (omega arith);
    })
  where
    same_rank : (s : ℕ) → rank_get m l r ≡ some s → k ≤ s
    same_rank s q = let same : k ≡ s = cc in omega arith
scan-taken m l r w o k before after h lt (found i k' e lt' low) =
    found (suc i) k' (e ∙ ap (λ n. record { rank = k'; idx = some n }) (omega arith)) (omega arith)
      (record {
        at = low.at;
        least =
            all_pairs m l r w (λ j s. k' ≤ s) (λ s q. let same : k ≡ s = cc in omega arith)
              low.least;
        first =
            all_pairs m l r w (λ j s. j < suc i → k' < s)
              (λ s q lt''. let same : k ≡ s = cc in omega arith)
              (λ j s q lt''. low.first j s q (omega arith));
      })

pub find_best-Scanned :
    (m : Ranks) (w : List Piece) (o : ℕ) (best : Best) → Scanned m w o best (find_best m o w best)
unfolding find_best pair_rank
find_best-Scanned m [] o best = kept refl λ j s h. cc
find_best-Scanned m (l ∷ []) o best = kept refl λ j s h. cc
find_best-Scanned m (l ∷ r ∷ w) o best = elim (Option-cases (rank_get m l r)) [
  | inl e ↦
      rw e (scan-passed m l r w o best _ (λ s q. cc) (find_best-Scanned m (r ∷ w) (o + 1) best))
  | inr (k, e) ↦ elim (Bool-cases (ltb k best.rank)) [
    | inl lower ↦
        rw (e, lower)
          (scan-taken m l r w o k best _ e (ltb→lt k best.rank lower)
            (find_best-Scanned m (r ∷ w) (o + 1) (record { rank = k; idx = some o })))
    | inr higher ↦
        rw (e, higher)
          (scan-passed m l r w o best _
            (λ s q. let same : k ≡ s = cc in omega (arith, ltb→le k best.rank higher))
            (find_best-Scanned m (r ∷ w) (o + 1) best))
  ]
]
