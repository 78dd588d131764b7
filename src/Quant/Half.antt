-- ===== src/Quant/Half.antt =====
-- The conversions between binary16, bfloat16 and f32: src/quant/half.rs. A float is its bit pattern.
-- A mask or a shift is written with `/`, `%` and `*`, and `|` of disjoint bits with `+`.
pub mod RoundTrip
mod Tests
use reinstinct.Base.{
  ℕ, zero, suc, ◌+◌, ◌-◌, ◌*◌, ◌/◌, ◌%◌, ◌^◌, Bool, true, false, not, ◌&&◌, ◌||◌, Option, some,
  none, ltb, leb, ◌==◌, if◌then◌else◌,
}

-- The loop that brings a subnormal's leading bit to the implicit bit, which needs ten rounds at most.
unfoldable pub normalize : ℕ → ℕ → ℕ → Option (ℕ × ℕ)
normalize zero m shifts = if m / 1024 % 2 == 0 then none else some (m, shifts)
normalize (suc f) m shifts =
    let more = normalize f (m * 2 % 2 ^ 32) (shifts + 1) in
    if m / 1024 % 2 == 0 then more else some (m, shifts)

-- `(-14 - shifts) + 127` is `113 - shifts`.
unfoldable pub f16_to_f32 : ℕ → Option ℕ
unfolding normalize
f16_to_f32 bits =
    let sign = bits / 0x8000 % 2 * 0x8000 in
    let exponent = bits / 1024 % 32 * 1024 in
    let mantissa = bits % 1024 in
    let subnormal : Option ℕ = elim (normalize 10 mantissa 0) [
      | none ↦ none
      | some (m, shifts) ↦ some (sign * 2 ^ 16 + (113 - shifts) * 2 ^ 23 + m % 1024 * 2 ^ 13)
    ] in
    if exponent == 0
    then (if mantissa == 0 then some (sign * 2 ^ 16) else subnormal)
    else if exponent == 0x7C00
    then some (sign * 2 ^ 16 + 0x7F800000 + mantissa * 2 ^ 13)
    else some (sign * 2 ^ 16 + (exponent / 1024 + 112) * 2 ^ 23 + mantissa * 2 ^ 13)

unfoldable pub bf16_to_f32 : ℕ → ℕ
bf16_to_f32 bits = bits * 2 ^ 16

-- The round-up of a number in the range of a normal half.
unfoldable pub round_half : ℕ → ℕ → ℕ
round_half out mantissa =
    let round_bit = mantissa / 2 ^ 12 % 2 in
    let sticky = mantissa % 2 ^ 12 in
    let odd = mantissa / 2 ^ 13 % 2 in
    if not (round_bit == 0) && (not (sticky == 0) || not (odd == 0))
    then (out + 1) % 2 ^ 16
    else out

-- `unbiased` is `exp - 127`, so `unbiased >= 16` is `exp >= 143`, and so on.
unfoldable pub f32_to_f16 : ℕ → ℕ
unfolding round_half
f32_to_f16 bits =
    let sign = bits / 2 ^ 31 % 2 * 0x8000 in
    let exp = bits / 2 ^ 23 % 256 in
    let mantissa = bits % 2 ^ 23 in
    if exp == 0xFF
    then sign + 0x7C00 + (if mantissa == 0 then 0 else 0x200)
    else if leb 143 exp
    then sign + 0x7C00
    else if ltb exp 103
    then sign
    else if ltb exp 113
    then sign + (mantissa + 2 ^ 23) / 2 ^ (126 - exp)
    else round_half (sign + (exp - 112) * 1024 + mantissa / 2 ^ 13) mantissa
