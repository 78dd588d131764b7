-- ===== src/Quant/Half/Tests.antt =====
-- Runs of src/quant/half.rs, and its theorem at a concrete input.
use reinstinct.Base.{ℕ, ◌≡◌, refl, arith, some}
use reinstinct.Quant.Half.{f16_to_f32, f32_to_f16, bf16_to_f32}
use reinstinct.Quant.Half.RoundTrip.{f32_to_f16-f16_to_f32}

-- The largest half, 65504.
test_max : f16_to_f32 0x7BFF ≡ some 0x477FE000
unfolding f16_to_f32
test_max = refl

test_bf16 : bf16_to_f32 0x3F80 ≡ 0x3F800000
unfolding bf16_to_f32
test_bf16 = refl

-- One and a half times the smallest subnormal lies halfway between the first two, of which the
-- second one is even; it is cut down to the first one.
test_truncated : f32_to_f16 0x33C00000 ≡ 1
unfolding f32_to_f16
test_truncated = refl

-- The smallest subnormal.
f32_to_f16-f16_to_f32_example : (x : ℕ) × (f16_to_f32 1 ≡ some x) × (f32_to_f16 x ≡ 1)
f32_to_f16-f16_to_f32_example = f32_to_f16-f16_to_f32 1 (omega arith) (omega arith)
