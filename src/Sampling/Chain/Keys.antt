-- ===== src/Sampling/Chain/Keys.antt =====
-- The integer keys of the top-k heap: src/sampling.rs.
use reinstinct.Base.{ℕ, ◌^◌, ◌<◌, ◌≡◌, arith}
use reinstinct.Sampling.Chain.{key, unkey}

-- The cut line is the logit that went in: a 32-bit pattern is found again from its key.
pub unkey-key : (b : ℕ) → b < 2 ^ 32 → unkey (key b) ≡ b
unfolding key unkey
unkey-key b h = ground arith
