-- ===== src/Gguf/Reader/Words.antt =====
-- Little-endian words: the bytes that `from_le_bytes` reads, described by division.
use reinstinct.Base.{
  ℕ, zero, suc, ◌/◌, ◌%◌, ◌^◌, ◌<◌, ◌≡◌, refl, ap, arith, List, [], ◌∷◌, length, All,
}
use native.Mathlib.Nat.{pow-suc}
use reinstinct.Gguf.Reader.{from_le_bytes}

unfoldable pub le_bytes : ℕ → ℕ → List ℕ
le_bytes zero v = []
le_bytes (suc n) v = v % 256 ∷ le_bytes n (v / 256)

pub length-le_bytes : (n v : ℕ) → length (le_bytes n v) ≡ n
unfolding le_bytes
length-le_bytes zero v = refl
length-le_bytes (suc n) v = ap suc (length-le_bytes n (v / 256))

pub from_le_bytes-le_bytes : (n v : ℕ) → v < 256 ^ n → from_le_bytes (le_bytes n v) ≡ v
unfolding le_bytes from_le_bytes
from_le_bytes-le_bytes zero v h = omega arith
from_le_bytes-le_bytes (suc n) v h = omega (arith, from_le_bytes-le_bytes n (v / 256) (omega arith))

pub from_le_bytes_lt : (bs : List ℕ) → All (λ b. b < 256) bs → from_le_bytes bs < 256 ^ length bs
unfolding from_le_bytes
from_le_bytes_lt [] h = omega arith
from_le_bytes_lt (b ∷ bs) (h, hs) = omega (arith, from_le_bytes_lt bs hs, pow-suc 256 (length bs))
