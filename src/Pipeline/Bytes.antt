-- ===== src/Pipeline/Bytes.antt =====
-- The bytes of weights that the split weighs: src/runtime/pipeline.rs.
use reinstinct.Base.{
  ℕ, zero, suc, ◌+◌, ◌/◌, ◌%◌, ◌^◌, Bool, true, false, ◌&&◌, Option, some, none, List, [], ◌∷◌,
  ◌++◌, ltb, ◌==◌, if◌then◌else◌, Outcome, ok, ◌>>=◌,
}
use reinstinct.Gguf.Error.{GgufError}
use reinstinct.Gguf.TensorInfo.{TensorInfo}
use reinstinct.Gguf.File.{GgufFile, tensor}
use reinstinct.Pipeline.{device_bytes, sum}

-- The decimal digits of a number of at most `f` digits; a usize has at most 20.
unfoldable pub decimal : ℕ → ℕ → List ℕ
decimal zero n = []
decimal (suc f) n =
    let rest = decimal f (n / 10) in
    if ltb n 10 then (48 + n) ∷ [] else rest ++ ((48 + n % 10) ∷ [])

-- `name.starts_with(prefix)`
unfoldable pub has_prefix : List ℕ → List ℕ → Bool
has_prefix name [] = true
has_prefix [] (p ∷ ps) = false
has_prefix (x ∷ xs) (p ∷ ps) = x == p && has_prefix xs ps

unfoldable pub sizes_of : List ℕ → List TensorInfo → List ℕ
unfolding has_prefix
sizes_of prefix [] = []
sizes_of prefix (t ∷ ts) =
    let rest = sizes_of prefix ts in
    if has_prefix t.name prefix then device_bytes t ∷ rest else rest

-- The prefix is `blk.{i}.`
unfoldable pub block_bytes : GgufFile → ℕ → ℕ
unfolding decimal sizes_of
block_bytes file i =
    sum (sizes_of ((0x62 ∷ 0x6c ∷ 0x6b ∷ 0x2e ∷ []) ++ (decimal 20 i ++ (0x2e ∷ []))) file.tensors)

abbrev size_of : Option TensorInfo → ℕ
size_of none = 0
size_of (some t) = device_bytes t

abbrev sz : GgufFile → List ℕ → Outcome GgufError ℕ
sz file name = tensor file name >>= λ found. ok (size_of found)

abbrev token_embd : List ℕ
token_embd =
    0x74 ∷ 0x6f ∷ 0x6b ∷ 0x65 ∷ 0x6e ∷ 0x5f ∷ 0x65 ∷ 0x6d ∷ 0x62 ∷ 0x64 ∷ 0x2e ∷ 0x77 ∷ 0x65 ∷ 0x69
    ∷ 0x67 ∷ 0x68 ∷ 0x74 ∷ []

abbrev output_norm : List ℕ
output_norm =
    0x6f ∷ 0x75 ∷ 0x74 ∷ 0x70 ∷ 0x75 ∷ 0x74 ∷ 0x5f ∷ 0x6e ∷ 0x6f ∷ 0x72 ∷ 0x6d ∷ 0x2e ∷ 0x77 ∷ 0x65
    ∷ 0x69 ∷ 0x67 ∷ 0x68 ∷ 0x74 ∷ []

abbrev output : List ℕ
output =
    0x6f ∷ 0x75 ∷ 0x74 ∷ 0x70 ∷ 0x75 ∷ 0x74 ∷ 0x2e ∷ 0x77 ∷ 0x65 ∷ 0x69 ∷ 0x67 ∷ 0x68 ∷ 0x74 ∷ []

-- The loop over the MTP blocks.
unfoldable pub add_blocks : GgufFile → ℕ → List ℕ → ℕ
unfolding block_bytes
add_blocks file tail [] = tail
add_blocks file tail (i ∷ is) = add_blocks file ((tail + block_bytes file i) % 2 ^ 64) is

-- `mtp_blocks` and `tied` are what the model says of its MTP blocks and of its embeddings.
unfoldable pub head_bytes : GgufFile → List ℕ → Bool → Outcome GgufError (ℕ × ℕ)
unfolding add_blocks
head_bytes file mtp_blocks tied = do
  embd ← sz file token_embd
  norm ← sz file output_norm
  out ← sz file output
  let tail = add_blocks file ((norm + out) % 2 ^ 64) mtp_blocks
  ok (embd, if tied then (tail + embd) % 2 ^ 64 else tail)
