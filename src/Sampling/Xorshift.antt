-- ===== src/Sampling/Xorshift.antt =====
-- The xorshift generator of src/sampling.rs, on 64-bit words.
use Prim.Native.Nat.{bit_xor}
use reinstinct.Base.{ℕ, ◌*◌, ◌/◌, ◌%◌, ◌^◌, ◌==◌, if◌then◌else◌}

pub record Rng : Type 0 where
  pub state : ℕ

unfoldable pub new : ℕ → Rng
new seed = record { state = if seed == 0 then 0x9E3779B97F4A7C15 else seed }

abbrev shift_left : ℕ → ℕ → ℕ
shift_left x k = x * 2 ^ k % 2 ^ 64

unfoldable pub next_u64 : Rng → ℕ × Rng
next_u64 rng =
    let x = rng.state in
    let y = bit_xor x (shift_left x 13) in
    let z = bit_xor y (y / 2 ^ 7) in
    let w = bit_xor z (shift_left z 17) in (w, record rng { state = w })

-- The 24 bits that `next_f32` divides by 2 ^ 24.
unfoldable pub next_bits : Rng → ℕ × Rng
unfolding next_u64
next_bits rng = let (w, rng') = next_u64 rng in (w / 2 ^ 40 % 2 ^ 32, rng')
