-- ===== src/Serve/PrefixCache.antt =====
-- The LRU cache of prompt prefixes: `PrefixCache` of src/serve/mod.rs. A snapshot is any value.
pub mod Overlap
pub mod Slots
use reinstinct.Base.{
  ℕ, zero, suc, ◌+◌, Bool, true, false, ◌&&◌, Option, some, none, List, [], ◌∷◌, ◌++◌, length,
  get_elem?, ltb, leb, ◌==◌, if◌then◌else◌, Outcome, ok, panic,
}

abbrev pub min_overlap : ℕ
min_overlap = 32

unfoldable pub common_prefix_len : List ℕ → List ℕ → ℕ
common_prefix_len [] b = 0
common_prefix_len (x ∷ a) [] = 0
common_prefix_len (x ∷ a) (y ∷ b) =
    let rest = common_prefix_len a b in if x == y then suc rest else 0

-- `e.tokens == tokens`
unfoldable pub tokens_eq : List ℕ → List ℕ → Bool
tokens_eq [] [] = true
tokens_eq [] (y ∷ ys) = false
tokens_eq (x ∷ xs) [] = false
tokens_eq (x ∷ xs) (y ∷ ys) = x == y && tokens_eq xs ys

pub record PrefixCacheEntry (S : Type 0) : Type 0 where
  pub tokens : List ℕ
  pub snapshot : S

-- The deque, oldest first.
pub record PrefixCache (S : Type 0) : Type 0 where
  pub slots : List (PrefixCacheEntry S)
  pub cap : ℕ

abbrev pub better : ℕ → Option (ℕ × ℕ) → Bool
better c none = true
better c (some (i, bc)) = ltb bc c

-- Whether an overlap is long enough and leaves something to prefill.
abbrev pub usable : ℕ → List ℕ → Bool
usable c prompt = leb min_overlap c && ltb c (length prompt)

module _ {S : Type 0} where
  unfoldable pub new : ℕ → PrefixCache S
  new cap = record { slots = []; cap = cap }

  -- The scan from slot `i` on.
  unfoldable pub scan_slots :
      List ℕ → ℕ → List (PrefixCacheEntry S) → Option (ℕ × ℕ) → Option (ℕ × ℕ)
  scan_slots prompt i [] best = best
  scan_slots prompt i (e ∷ es) best =
      let c = common_prefix_len e.tokens prompt in
      scan_slots prompt (i + 1) es (if usable c prompt && better c best then some (i, c) else best)

  unfoldable pub best_match : PrefixCache S → List ℕ → Option (ℕ × ℕ)
  best_match cache prompt = scan_slots prompt 0 cache.slots none

  -- `slots.remove(i)`
  unfoldable pub remove_at : List (PrefixCacheEntry S) → ℕ → List (PrefixCacheEntry S)
  remove_at [] i = []
  remove_at (e ∷ es) zero = es
  remove_at (e ∷ es) (suc i) = e ∷ remove_at es i

  -- The cache after the slot became the most recent one, and its snapshot.
  unfoldable pub touch {κ} : {E : Type κ} → ℕ → PrefixCache S → Outcome E (S × PrefixCache S)
  touch idx cache = elim (get_elem? cache.slots idx) [
    | none ↦ panic
    | some e ↦ ok (
      e.snapshot,
      if ltb (idx + 1) (length cache.slots)
          then record cache { slots = remove_at cache.slots idx ++ (e ∷ []) }
          else cache,
    )
  ]

  -- `slots.iter().position(|e| e.tokens == tokens)`
  unfoldable pub position : List ℕ → List (PrefixCacheEntry S) → Option ℕ
  position tokens [] = none
  position tokens (e ∷ es) =
      let rest : Option ℕ = elim (position tokens es) [ none ↦ none | some i ↦ some (suc i) ] in
      if tokens_eq e.tokens tokens then some 0 else rest

  abbrev pop_front : List (PrefixCacheEntry S) → List (PrefixCacheEntry S)
  pop_front [] = []
  pop_front (e ∷ es) = es

  unfoldable pub insert : List ℕ → S → PrefixCache S → PrefixCache S
  insert tokens snapshot cache =
      let entry : PrefixCacheEntry S = record { tokens = tokens; snapshot = snapshot } in
      elim (position tokens cache.slots) [
        | some pos ↦ record cache { slots = remove_at cache.slots pos ++ (entry ∷ []) }
        | none ↦ record cache {
          slots =
              (if leb cache.cap (length cache.slots) then pop_front cache.slots else cache.slots)
              ++ (entry ∷ []);
        }
      ]
