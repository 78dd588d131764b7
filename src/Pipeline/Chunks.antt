-- ===== src/Pipeline/Chunks.antt =====
-- The chunks of a prefill and the slices they cut: src/runtime/pipeline.rs.
use reinstinct.Base.{
  ℕ, zero, suc, ◌+◌, ◌-◌, ◌≤◌, ◌<◌, ◌≡◌, refl, sym, ap, ◌∙◌, arith, true, List, [], ◌∷◌, ◌++◌,
  length, All, take, take-append-drop, drop, drop-drop, min, leb, ok,
}
use reinstinct.Pipeline.{cut, slices}

abbrev pub joined : List (List ℕ) → List ℕ
joined [] = []
joined (c ∷ cs) = c ++ joined cs

-- The sum of the chunks, as a number.
unfoldable pub total_of : List ℕ → ℕ
total_of [] = 0
total_of (c ∷ cs) = c + total_of cs

module _ {E : Type 0} where
  -- A prompt is cut into chunks of 1 to `chunk` tokens that add up to it, given a positive chunk size
  -- and as much fuel as tokens.
  pub cut_lem :
      (f chunk n : ℕ)
      → 0 < chunk
      → n ≤ f
      → (cs : List ℕ) × (cut {E = E} f chunk n ≡ ok cs)
        × (total_of cs ≡ n)
        × All (λ c. (0 < c) × (c ≤ chunk)) cs
  unfolding cut total_of
  cut_lem f chunk zero h k = ([], refl, refl, tt)
  cut_lem zero chunk (suc n) h k = absurd (omega arith)
  cut_lem (suc f) chunk (suc n) h k =
      let c = min chunk (suc n) in
      let (cs, run, sum, small) = cut_lem f chunk (suc n - c) h (omega arith) in
      (c ∷ cs, rw run refl, omega (arith, sum), ((omega arith, omega arith), small))

  -- The slices of the chunks, joined, are the tokens from `start` on: none is lost or fed twice.
  pub slices-joined :
      (tokens : List ℕ) (start : ℕ) (cs : List ℕ)
      → start + total_of cs ≡ length tokens
      → (ss : List (List ℕ)) × (slices {E = E} tokens start cs ≡ ok ss)
        × (joined ss ≡ drop start tokens)
  unfolding slices total_of
  slices-joined tokens start [] h = ([], refl, sym (drop_all start tokens (omega arith)))
    where
      drop_all : (n : ℕ) (xs : List ℕ) → length xs ≤ n → drop n xs ≡ []
      drop_all zero [] h = refl
      drop_all zero (x ∷ xs) h = absurd (omega arith)
      drop_all (suc n) [] h = refl
      drop_all (suc n) (x ∷ xs) h = drop_all n xs (omega arith)
  slices-joined tokens start (c ∷ cs) h =
      let (ss, run, all) = slices-joined tokens (start + c) cs (omega arith) in
      let inside : leb (start + c) (length tokens) ≡ true = ground arith in
      (
        take c (drop start tokens) ∷ ss,
        rw (inside, run) refl,
        ap (λ t. take c (drop start tokens) ++ t) (all ∙ sym (drop-drop start c tokens))
            ∙ take-append-drop c (drop start tokens),
      )
