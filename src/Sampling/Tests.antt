-- ===== src/Sampling/Tests.antt =====
-- Runs of the sampler of src/sampling.rs, and its theorems at concrete inputs.
use reinstinct.Base.{ℕ, ◌≡◌, refl, List, [], ◌∷◌, Outcome, panic, arith}
use reinstinct.Sampling.Chain.{key, unkey}
use reinstinct.Sampling.Chain.Keys.{unkey-key}
use reinstinct.Base.SmallFloats.{small_floats, small_floats-IsOrdered}
use reinstinct.Sampling.{argmax}
use reinstinct.Sampling.Argmax.{Picks, argmax-IsFirstMax}

abbrev logits : List ℕ
logits = 3 ∷ 0 ∷ 9 ∷ 4 ∷ 9 ∷ []

abbrev pick_of : List ℕ → Outcome (Unit {0}) ℕ
pick_of xs = argmax small_floats xs

no_logits : pick_of [] ≡ panic
unfolding argmax
no_logits = refl

argmax-IsFirstMax_example : Picks small_floats logits (pick_of logits)
argmax-IsFirstMax_example = argmax-IsFirstMax small_floats small_floats-IsOrdered (Unit {0}) logits

-- 1.0 and -1.0.
unkey-key_example : unkey (key 0x3f80_0000) ≡ 0x3f80_0000
unkey-key_example = unkey-key 0x3f80_0000 (omega arith)
