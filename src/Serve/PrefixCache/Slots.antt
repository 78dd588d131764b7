-- ===== src/Serve/PrefixCache/Slots.antt =====
-- The slots of the prefix cache under `insert` and `touch`: src/serve/mod.rs.
use reinstinct.Base.{
  ℕ, zero, suc, ◌+◌, ◌≤◌, ◌<◌, ◌≡◌, refl, ap, ◌∙◌, arith, Bool-cases, Option-cases, inl, inr, some,
  none, List, [], ◌∷◌, ◌++◌, length, length-append, get_elem?, ltb, leb, max, if◌then◌else◌, ok,
}
use reinstinct.Serve.PrefixCache.{
  PrefixCache, PrefixCacheEntry, remove_at, position, insert, touch, tokens_eq, pop_front,
}

module _ {S : Type 0} where
  length-remove_at :
      (es : List (PrefixCacheEntry S)) (i : ℕ)
      → i < length es
      → length (remove_at es i) + 1 ≡ length es
  unfolding remove_at
  length-remove_at [] i h = absurd (omega arith)
  length-remove_at (e ∷ es) zero h = omega arith
  length-remove_at (e ∷ es) (suc i) h = omega (arith, length-remove_at es i (omega arith))

  position-lt :
      (tokens : List ℕ) (es : List (PrefixCacheEntry S)) (i : ℕ)
      → position tokens es ≡ some i
      → i < length es
  unfolding position
  position-lt tokens [] i h = cc
  position-lt tokens (e ∷ es) i h = elim (Bool-cases (tokens_eq e.tokens tokens)) [
    | inl here ↦ ground arith
    | inr not_here ↦ elim (Option-cases (position tokens es)) [
      | inl absent ↦ let bad : none ≡ some i = rw (not_here, absent) at h in cc
      | inr (j, at) ↦ ground (arith, position-lt tokens es j at)
    ]
  ]

  -- An insertion never holds more slots than the capacity, a capacity of 0 counting as 1, and leaves
  -- the new tokens with the new snapshot as the most recent slot.
  pub insert-bounded :
      (tokens : List ℕ) (snapshot : S) (cache : PrefixCache S)
      → length cache.slots ≤ max cache.cap 1
      → (front : List (PrefixCacheEntry S)) × ((insert tokens snapshot cache).slots
          ≡ front ++ (record { tokens = tokens; snapshot = snapshot } ∷ []))
        × (length (insert tokens snapshot cache).slots ≤ max cache.cap 1)
        × ((insert tokens snapshot cache).cap ≡ cache.cap)
  unfolding insert
  insert-bounded tokens snapshot cache h =
      let entry : PrefixCacheEntry S = record { tokens = tokens; snapshot = snapshot } in
      elim (Option-cases (position tokens cache.slots)) [
        | inr (i, at) ↦
            let left = remove_at cache.slots i in
            rw (insert, at)
              (
                left,
                refl,
                omega (
                  arith,
                  length-append left (entry ∷ []),
                  length-remove_at cache.slots i (position-lt tokens cache.slots i at),
                ),
                refl,
              )
        | inl new ↦
            let left =
              if leb cache.cap (length cache.slots) then pop_front cache.slots else cache.slots in
            rw (insert, new)
              (
                left,
                refl,
                omega (arith, length-append left (entry ∷ []), evicted cache.slots cache.cap h),
                refl,
              )
      ]
    where
      evicted :
          (es : List (PrefixCacheEntry S)) (most : ℕ)
          → length es ≤ max most 1
          → length (if leb most (length es) then pop_front es else es) + 1 ≤ max most 1
      evicted [] most h = ground arith
      evicted (e ∷ es) most h = ground arith

  -- A touch of a slot gives its snapshot, keeps the number of slots and makes it the most recent one.
  pub touch_lem :
      {E : Type 0} (idx : ℕ) (cache : PrefixCache S) (e : PrefixCacheEntry S)
      → get_elem? cache.slots idx ≡ some e
      → (cache' : PrefixCache S) × (front : List (PrefixCacheEntry S)) × (touch {E = E} idx cache
          ≡ ok (e.snapshot, cache'))
        × (cache'.slots ≡ front ++ (e ∷ []))
        × (length cache'.slots ≡ length cache.slots)
  unfolding touch
  touch_lem idx cache e at = elim (Bool-cases (ltb (idx + 1) (length cache.slots))) [
    | inl inner ↦ (
      record cache { slots = remove_at cache.slots idx ++ (e ∷ []) },
      remove_at cache.slots idx,
      rw (touch, at, inner) refl,
      refl,
      length-append (remove_at cache.slots idx) (e ∷ [])
          ∙ length-remove_at cache.slots idx (ground arith),
    )
    | inr last ↦
        let (front, shape) = last_slot cache.slots idx e at (ground arith) in
        (cache, front, rw (touch, at, last) refl, shape, refl)
  ]
    where
      last_slot :
          (es : List (PrefixCacheEntry S)) (i : ℕ) (e : PrefixCacheEntry S)
          → get_elem? es i ≡ some e
          → length es ≤ i + 1
          → (front : List (PrefixCacheEntry S)) × (es ≡ front ++ (e ∷ []))
      last_slot [] i e at h = cc
      last_slot (x ∷ []) zero e at h = let same : x ≡ e = cc in ([], ap (λ y. y ∷ []) same)
      last_slot (x ∷ y ∷ es) zero e at h = absurd (omega arith)
      last_slot (x ∷ es) (suc i) e at h =
          let (front, shape) = last_slot es i e at (omega arith) in
          (x ∷ front, ap (λ ys. x ∷ ys) shape)
