-- ===== src/Tokenizer/Merge.antt =====
-- The merge loop: src/tokenizer.rs.
use reinstinct.Base.{
  ℕ, zero, suc, ◌+◌, ◌≤◌, ◌<◌, ◌≡◌, refl, ap, ◌∙◌, arith, some, List, [], ◌∷◌, ◌++◌, append_assoc,
  length, ok, ok_unique,
}
use reinstinct.Tokenizer.{Ranks, Piece, no_best, u32_max, find_best, merge_at, merge_all}
use reinstinct.Tokenizer.Alphabet.{flatten}
use reinstinct.Tokenizer.Lowest.{pair_rank, IsLowest, kept, found, find_best-Scanned}

-- Pieces that are joined lowest pair first, the leftmost one of a rank, until no pair
-- has a rank below the largest u32.
pub data Merges (m : Ranks) : List Piece → List Piece → Type 0 where
  settled : {w : List Piece} → ((i r : ℕ) → pair_rank m w i ≡ some r → u32_max ≤ r) → Merges m w w
  joined :
      {w w' w'' : List Piece} (i r : ℕ)
      → IsLowest m w i r
      → r < u32_max
      → merge_at i w ≡ ok w'
      → Merges m w' w''
      → Merges m w w''

-- What joining a pair makes of a word.
pub record Joins (i : ℕ) (w : List Piece) : Type 0 where
  pub word : List Piece
  pub runs : merge_at i w ≡ ok word
  pub same : flatten word ≡ flatten w
  pub fewer : suc (length word) ≡ length w

pub merge_at-Joins : (m : Ranks) (i r : ℕ) (w : List Piece) → pair_rank m w i ≡ some r → Joins i w
unfolding merge_at pair_rank flatten
merge_at-Joins m i r [] h = cc
merge_at-Joins m i r (l ∷ []) h = cc
merge_at-Joins m zero r (l ∷ x ∷ w) h = record {
  word = (l ++ x) ∷ w;
  runs = refl;
  same = append_assoc l x (flatten w);
  fewer = omega arith;
}
merge_at-Joins m (suc i) r (l ∷ x ∷ w) h =
    let inner = merge_at-Joins m i r (x ∷ w) h in
    record {
      word = l ∷ inner.word;
      runs = rw inner.runs;
      same = ap (λ t. l ++ t) inner.same;
      fewer = omega (arith, inner.fewer);
    }

-- Joining pieces keeps the text.
pub Merges-flatten : (m : Ranks) {w w' : List Piece} → Merges m w w' → flatten w' ≡ flatten w
Merges-flatten m (settled h) = refl
Merges-flatten m (joined {w} i r low lt run rest) =
    let step = merge_at-Joins m i r w low.at in
    Merges-flatten m rest ∙ ap flatten (ok_unique (merge_at i w) run step.runs) ∙ step.same

-- With a round for every piece the loop returns; it joins the lowest ranked pair first, the leftmost
-- one of a rank, until no pair has a rank below the largest u32.
pub merge_all-Merges :
    (m : Ranks) (f : ℕ) (w : List Piece)
    → length w ≤ f
    → (w' : List Piece) × (merge_all m f w ≡ ok w') × Merges m w w'
unfolding merge_all find_best pair_rank
merge_all-Merges m zero [] h = ([], refl, settled (λ i r k. cc))
merge_all-Merges m zero (x ∷ w) h = absurd (omega arith)
merge_all-Merges m (suc f) w h = elim (find_best-Scanned m w 0 no_best) [
  | kept e low ↦ (w, rw (merge_all, e), settled low)
  | found i r e lt low ↦
      let step = merge_at-Joins m i r w low.at in
      let zero_add : 0 + i ≡ i = omega arith in
      let (w', run, rest) = merge_all-Merges m f step.word (omega (arith, step.fewer)) in
      (
        w',
        rw (merge_all, e ∙ ap (λ n. record { rank = r; idx = some n }) zero_add, step.runs) run,
        joined i r low lt step.runs rest,
      )
]
