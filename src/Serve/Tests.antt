-- ===== src/Serve/Tests.antt =====
-- Runs of the server state of src/serve/mod.rs, and its theorems at concrete inputs.
use reinstinct.Base.{ℕ, ◌≤◌, ◌≡◌, refl, arith, List, [], ◌∷◌, ◌++◌, length, none, max, replicate}
use reinstinct.Serve.PrefixCache.{PrefixCache, PrefixCacheEntry, best_match, insert}
use reinstinct.Serve.PrefixCache.Overlap.{IsBest, best_match-IsBest}
use reinstinct.Serve.PrefixCache.Slots.{insert-bounded}
use reinstinct.Serve.Thinking.{
  new, run, concat, closers, best_end, rfind, starts_with, strip_thinking_channels,
}
use reinstinct.Serve.Thinking.Lossless.{run-strip}

abbrev slot : List ℕ → ℕ → PrefixCacheEntry ℕ
slot tokens snapshot = record { tokens = tokens; snapshot = snapshot }

abbrev cache : PrefixCache ℕ
cache = record {
  slots = slot (replicate 40 7) 1 ∷ slot (replicate 35 7 ++ (8 ∷ [])) 2 ∷ [];
  cap = 2;
}

abbrev one : List ℕ
one = 1 ∷ 2 ∷ 3 ∷ []

abbrev other : List ℕ
other = 1 ∷ 2 ∷ 4 ∷ []

best_match-IsBest_example : IsBest (replicate 37 7) cache.slots (best_match cache (replicate 37 7))
best_match-IsBest_example = best_match-IsBest (replicate 37 7) cache

insert-bounded_example :
    (front : List (PrefixCacheEntry ℕ)) × ((insert (9 ∷ []) 3 cache).slots
      ≡ front ++ (slot (9 ∷ []) 3 ∷ []))
    × (length (insert (9 ∷ []) 3 cache).slots ≤ max 2 1)
    × ((insert (9 ∷ []) 3 cache).cap ≡ 2)
insert-bounded_example = insert-bounded (9 ∷ []) 3 cache (omega arith)

abbrev deltas : List (List ℕ)
deltas = (0x3c ∷ 0x68 ∷ []) ∷ [] ∷ (0x69 ∷ 0x3e ∷ 0x20 ∷ []) ∷ []

no_marker : best_end (concat deltas) closers none ≡ none
unfolding best_end rfind starts_with
no_marker = refl

run-strip_example :
    (run deltas new ≡ concat deltas) × (strip_thinking_channels (concat deltas) ≡ concat deltas)
run-strip_example = run-strip deltas no_marker
