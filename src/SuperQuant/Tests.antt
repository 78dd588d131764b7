-- ===== src/SuperQuant/Tests.antt =====
-- Runs of src/runtime/kv_superquant.rs with a small cache, and its theorems at concrete inputs.
use reinstinct.Base.{ℕ, ◌+◌, ◌≡◌, refl, arith, List, [], ◌∷◌, ◌++◌, map, Outcome, ok, panic, ◌>>=◌}
use reinstinct.SuperQuant.{
  Cache, SuperQuantConfig, copy_range, slide, demote_warm_to_cold, total, write_step, write_steps,
}
use reinstinct.SuperQuant.Tier.{Tier}
use reinstinct.SuperQuant.Fifo.{Holds, write_steps-Holds, write_step-panic}

-- A row keeps its number, its scale is 100 more.
abbrev quantise : ℕ → Outcome ℕ (ℕ × ℕ)
quantise x = ok (x, x + 100)

unfoldable promote : ℕ → List ℕ → List ℕ → Outcome ℕ (List ℕ)
promote sign (q ∷ qs) (s ∷ ss) = promote sign qs ss >>= λ cs. ok ((q + s + sign) ∷ cs)
promote sign _ _ = ok []

promotes :
    (sign : ℕ) (xs : List ℕ)
    → promote sign (map (λ x. x) xs) (map (λ x. x + 100) xs)
      ≡ ok (map (λ x. x + (x + 100) + sign) xs)
unfolding promote
promotes sign [] = refl
promotes sign (x ∷ xs) = rw (promotes sign xs) refl

abbrev config : SuperQuantConfig
config = record { warm_cap = 2; cold_cap = 2 }

abbrev empty : Cache ℕ ℕ ℕ
empty = record {
  warm_k = 0 ∷ 0 ∷ [];
  warm_v = 0 ∷ 0 ∷ [];
  warm_ks = 0 ∷ 0 ∷ [];
  warm_vs = 0 ∷ 0 ∷ [];
  cold_k = 0 ∷ 0 ∷ [];
  cold_v = 0 ∷ 0 ∷ [];
  scratch_warm_q = 0 ∷ 0 ∷ [];
  scratch_warm_s = 0 ∷ 0 ∷ [];
  config = config;
  warm_count = 0;
  cold_count = 0;
}

-- Keys 5 to 8 with values 15 to 18.
abbrev full : Cache ℕ ℕ ℕ
full = record {
  warm_k = 7 ∷ 8 ∷ [];
  warm_v = 17 ∷ 18 ∷ [];
  warm_ks = 107 ∷ 108 ∷ [];
  warm_vs = 117 ∷ 118 ∷ [];
  cold_k = 1110 ∷ 1112 ∷ [];
  cold_v = 2130 ∷ 2132 ∷ [];
  scratch_warm_q = 17 ∷ 0 ∷ [];
  scratch_warm_s = 117 ∷ 0 ∷ [];
  config = config;
  warm_count = 2;
  cold_count = 2;
}

four_steps :
    write_steps quantise
      (promote 1000)
      (promote 2000)
      ((5, 15) ∷ (6, 16) ∷ (7, 17) ∷ (8, 18) ∷ [])
      empty
    ≡ ok full
unfolding write_steps write_step demote_warm_to_cold slide copy_range promote
four_steps = refl

abbrev Kept : List (ℕ × ℕ) → List (ℕ × ℕ) → Cache ℕ ℕ ℕ → Type 0
Kept =
    Holds quantise (promote 1000) (promote 2000) (λ x. x) (λ x. x + 100) (λ q s. q + s + 1000)
      (λ q s. q + s + 2000) (λ x. refl) (promotes 1000) (promotes 2000) config

abbrev zeros : List ℕ
zeros = 0 ∷ 0 ∷ []

blank : Tier zeros 2 0 []
blank = record { unused = zeros; split = refl; counted = refl; sized = refl }

brimful : (a b : ℕ) → Tier (a ∷ b ∷ []) 2 2 (a ∷ b ∷ [])
brimful a b = record { unused = []; split = refl; counted = refl; sized = refl }

empty-Kept : Kept [] [] empty
empty-Kept = record {
  same = refl;
  warm = record { k = blank; ks = blank; v = blank; vs = blank };
  cold = record { k = blank; v = blank };
  fits = omega arith;
  full_first = refl;
}

full-Kept : Kept ((5, 15) ∷ (6, 16) ∷ []) ((7, 17) ∷ (8, 18) ∷ []) full
full-Kept = record {
  same = refl;
  warm = record { k = brimful 7 8; ks = brimful 107 108; v = brimful 17 18; vs = brimful 117 118 };
  cold = record { k = brimful 1110 1112; v = brimful 2130 2132 };
  fits = omega arith;
  full_first = refl;
}

write_steps-Holds_example :
    (c' : Cache ℕ ℕ ℕ) × (old recent : List (ℕ × ℕ)) × (write_steps quantise
        (promote 1000)
        (promote 2000)
        ((5, 15) ∷ (6, 16) ∷ (7, 17) ∷ [])
        empty
      ≡ ok c')
    × (old ++ recent ≡ (5, 15) ∷ (6, 16) ∷ (7, 17) ∷ [])
    × Kept old recent c'
unfolding total
write_steps-Holds_example =
    write_steps-Holds quantise (promote 1000) (promote 2000) (λ x. x) (λ x. x + 100)
      (λ q s. q + s + 1000) (λ q s. q + s + 2000) (λ x. refl) (promotes 1000) (promotes 2000) config
      ((5, 15) ∷ (6, 16) ∷ (7, 17) ∷ []) [] [] empty (omega arith) empty-Kept (omega arith)

write_step-panic_example : write_step quantise (promote 1000) (promote 2000) 9 19 full ≡ panic
write_step-panic_example =
    write_step-panic quantise (promote 1000) (promote 2000) (λ x. x) (λ x. x + 100)
      (λ q s. q + s + 1000) (λ q s. q + s + 2000) (λ x. refl) (promotes 1000) (promotes 2000) config
      ((5, 15) ∷ (6, 16) ∷ []) ((7, 17) ∷ (8, 18) ∷ []) (9, 19) full full-Kept refl refl
