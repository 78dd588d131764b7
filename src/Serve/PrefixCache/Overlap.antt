-- ===== src/Serve/PrefixCache/Overlap.antt =====
-- What the search for a reusable prefix finds: `best_match` of src/serve/mod.rs.
use reinstinct.Base.{
  ℕ, zero, suc, ◌+◌, ◌≤◌, ◌≡◌, ◌≢◌, refl, sym, ap, arith, true, false, Bool-cases, inl, inr, Option,
  some, none, List, [], ◌∷◌, All, All-append, ◌++◌, append-nil, append_assoc, length, length-append,
  get_elem?, take, ltb, ◌==◌, ==_iff, ◌&&◌, if◌then◌else◌,
}
use reinstinct.Serve.PrefixCache.{
  PrefixCache, PrefixCacheEntry, better, usable, common_prefix_len, scan_slots, best_match,
}

same_tokens : {x y v w : ℕ} → some x ≡ some v → some y ≡ some w → v ≡ w → (x == y) ≡ true
same_tokens {x} {y} h k e = (==_iff x y).1 (cc)

-- The overlap is a common prefix, and the longest one: the next tokens differ where both have one.
pub common_prefix_len_lem :
    (a b : List ℕ)
    → (take (common_prefix_len a b) a ≡ take (common_prefix_len a b) b)
      × (common_prefix_len a b ≤ length a)
      × (common_prefix_len a b ≤ length b)
      × ((x y : ℕ)
          → get_elem? a (common_prefix_len a b) ≡ some x
          → get_elem? b (common_prefix_len a b) ≡ some y
          → x ≢ y)
unfolding common_prefix_len
common_prefix_len_lem [] b = (refl, omega arith, omega arith, λ x y h k e. cc)
common_prefix_len_lem (x ∷ a) [] = (refl, omega arith, omega arith, λ x y h k e. cc)
common_prefix_len_lem (x ∷ a) (y ∷ b) = elim (Bool-cases (x == y)) [
  | inl same ↦
      let (pre, la, lb, next) = common_prefix_len_lem a b in
      rw same (rw ((==_iff x y).0 same) (ap (λ zs. y ∷ zs) pre), omega arith, omega arith, next)
  | inr differ ↦
      rw differ (refl, omega arith, omega arith, λ v w h k e. let t = same_tokens h k e in cc)
]

module _ {S : Type 0} (prompt : List ℕ) where
  abbrev overlap : PrefixCacheEntry S → ℕ
  overlap e = common_prefix_len e.tokens prompt

  -- The best slot of `es`: its overlap is usable, and no usable one is longer. `none` where no
  -- overlap is usable.
  abbrev pub IsBest : List (PrefixCacheEntry S) → Option (ℕ × ℕ) → Type 0
  IsBest es none = All (λ e. usable (overlap e) prompt ≡ false) es
  IsBest es (some (i, c)) =
      (e : PrefixCacheEntry S) × (get_elem? es i ≡ some e)
      × (overlap e ≡ c)
      × (usable c prompt ≡ true)
      × All (λ e. usable (overlap e) prompt ≡ true → overlap e ≤ c) es

  get_elem?-append :
      (xs ys : List (PrefixCacheEntry S)) (i : ℕ) (e : PrefixCacheEntry S)
      → get_elem? xs i ≡ some e
      → get_elem? (xs ++ ys) i ≡ some e
  get_elem?-append [] ys i e h = cc
  get_elem?-append (x ∷ xs) ys zero e h = h
  get_elem?-append (x ∷ xs) ys (suc i) e h = get_elem?-append xs ys i e h

  get_elem?-last :
      (xs : List (PrefixCacheEntry S)) (e : PrefixCacheEntry S)
      → get_elem? (xs ++ (e ∷ [])) (length xs) ≡ some e
  get_elem?-last [] e = refl
  get_elem?-last (x ∷ xs) e = get_elem?-last xs e

  All-weaken :
      {P Q : PrefixCacheEntry S → Type 0}
      → ((e : PrefixCacheEntry S) → P e → Q e)
      → (es : List (PrefixCacheEntry S)) → All P es
      → All Q es
  All-weaken f [] h = tt
  All-weaken f (e ∷ es) (h, hs) = (f e h, All-weaken f es hs)

  -- The step of the scan over `e`, where `past` are the slots before it.
  IsBest-step :
      (past : List (PrefixCacheEntry S)) (e : PrefixCacheEntry S) (best : Option (ℕ × ℕ))
      → IsBest past best
      → IsBest (past ++ (e ∷ [])) (
          if usable (overlap e) prompt && better (overlap e) best
          then some (length past, overlap e)
          else best)
  IsBest-step past e none h = elim (Bool-cases (usable (overlap e) prompt)) [
    | inl good ↦ rw good (
      e,
      get_elem?-last past e,
      refl,
      good,
      All-append _ past (e ∷ []) (All-weaken (λ d n u. cc) past h) (λ u. omega arith, tt),
    )
    | inr bad ↦ rw bad (All-append _ past (e ∷ []) h (bad, tt))
  ]
  IsBest-step past e (some (i, c)) (b, at, same, good, most) =
      elim (Bool-cases (usable (overlap e) prompt)) [
        | inr bad ↦ rw bad (
          b,
          get_elem?-append past (e ∷ []) i b at,
          same,
          good,
          All-append _ past (e ∷ []) most (λ u. cc, tt),
        )
        | inl fine ↦ elim (Bool-cases (ltb c (overlap e))) [
          | inl longer ↦
              rw (fine, longer)
                (
                  e,
                  get_elem?-last past e,
                  refl,
                  fine,
                  All-append _ past (e ∷ []) (All-weaken (λ d m u. ground (arith, m u)) past most)
                      (λ u. omega arith, tt),
                )
          | inr not_longer ↦
              rw (fine, not_longer)
                (
                  b,
                  get_elem?-append past (e ∷ []) i b at,
                  same,
                  good,
                  All-append _ past (e ∷ []) most (λ u. ground arith, tt),
                )
        ]
      ]

  scan_slots-IsBest :
      (todo past : List (PrefixCacheEntry S)) (i : ℕ) (best : Option (ℕ × ℕ))
      → i ≡ length past
      → IsBest past best
      → IsBest (past ++ todo) (scan_slots prompt i todo best)
  unfolding scan_slots
  scan_slots-IsBest [] past i best e h = rw (append-nil past) h
  scan_slots-IsBest (d ∷ todo) past i best e h =
      rw (e, sym (append_assoc past (d ∷ []) todo))
        (scan_slots-IsBest todo (past ++ (d ∷ [])) (length past + 1) _
          (sym (length-append past (d ∷ []))) (IsBest-step past d best h))

  -- The search gives a slot whose overlap with the prompt is usable and the longest of these, and
  -- nothing where no slot has a usable overlap.
  pub best_match-IsBest : (cache : PrefixCache S) → IsBest cache.slots (best_match cache prompt)
  unfolding best_match
  best_match-IsBest cache = scan_slots-IsBest cache.slots [] 0 none refl tt
