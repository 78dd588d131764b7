-- ===== src/Quant/Half/RoundTrip.antt =====
-- Halves through f32 and back: src/quant/half.rs.
use reinstinct.Base.{
  ℕ, zero, suc, ◌+◌, ◌%◌, ◌^◌, ◌≤◌, ◌<◌, ◌≡◌, refl, sym, ap, ◌∙◌, arith, Bool, true, false, ◌&&◌,
  and_true, Bool-cases, Option-cases, inl, inr, some, none, ltb, ltb→lt, ltb→le, ◌==◌, ==_iff,
}
use reinstinct.Quant.Half.{f16_to_f32, f32_to_f16}

-- Whether a half comes back from f32.
unfoldable comes_back : ℕ → Bool
unfolding f16_to_f32 f32_to_f16
comes_back bits = elim (f16_to_f32 bits) [ none ↦ false | some x ↦ f32_to_f16 x == bits ]

-- Whether the `n` halves from `b` on come back.
unfoldable all_back : ℕ → ℕ → Bool
unfolding comes_back
all_back zero b = true
all_back (suc n) b = comes_back b && all_back n (b + 1)

-- The halves of each sign up to infinity.
positive_back : all_back 0x7C01 0 ≡ true
unfolding all_back
positive_back = refl

negative_back : all_back 0x7C01 0x8000 ≡ true
unfolding all_back
negative_back = refl

all_back-get : (n b x : ℕ) → all_back n b ≡ true → b ≤ x → x < b + n → comes_back x ≡ true
unfolding all_back
all_back-get zero b x h low high = absurd (omega arith)
all_back-get (suc n) b x h low high = elim (Bool-cases (b == x)) [
  | inl here ↦
      ap comes_back (sym ((==_iff b x).0 here)) ∙ (and_true (comes_back b) (all_back n (b + 1)) h).0
  | inr past ↦
      let above : b + 1 ≤ x = ground arith in
      all_back-get n (b + 1) x (and_true (comes_back b) (all_back n (b + 1)) h).1 above
        (omega arith)
]

comes_back_lem :
    (bits : ℕ)
    → comes_back bits ≡ true
    → (x : ℕ) × (f16_to_f32 bits ≡ some x) × (f32_to_f16 x ≡ bits)
unfolding comes_back
comes_back_lem bits h = elim (Option-cases (f16_to_f32 bits)) [
  | inl e ↦ let bad : false ≡ true = sym (rw (comes_back, e)) ∙ h in cc
  | inr (x, e) ↦ (x, e, (==_iff (f32_to_f16 x) bits).0 (sym (rw (comes_back, e)) ∙ h))
]

-- A half that is no NaN, of either sign, subnormal or infinite, is converted to f32 by a loop that
-- ends, and comes back from f32 bit for bit.
pub f32_to_f16-f16_to_f32 :
    (bits : ℕ)
    → bits < 2 ^ 16
    → bits % 0x8000 ≤ 0x7C00
    → (x : ℕ) × (f16_to_f32 bits ≡ some x) × (f32_to_f16 x ≡ bits)
f32_to_f16-f16_to_f32 bits h number = comes_back_lem bits (elim (Bool-cases (ltb bits 0x8000)) [
  | inl positive ↦
      all_back-get 0x7C01 0 bits positive_back (omega arith)
        (omega (arith, ltb→lt bits 0x8000 positive))
  | inr negative ↦
      all_back-get 0x7C01 0x8000 bits negative_back (ltb→le bits 0x8000 negative)
        (omega (arith, ltb→le bits 0x8000 negative))
])
