-- ===== src/Pipeline.antt =====
-- The split of a model over devices and the chunks of a prefill: src/runtime/pipeline.rs. The model
-- and the devices' engines are parameters.
pub mod Split
pub mod Chunks
pub mod Bytes
pub mod Drive
mod Tests
use reinstinct.Base.{
  ℕ, zero, suc, ◌+◌, ◌-◌, ◌*◌, ◌/◌, ◌%◌, ◌^◌, Bool, true, false, not, ◌&&◌, ◌||◌, Option, some,
  none, List, [], ◌∷◌, ◌++◌, map, length, get_elem?, take, drop, min, ltb, leb, ◌==◌, if◌then◌else◌,
  Outcome, ok, err, panic, stuck, ◌>>=◌,
}
use reinstinct.Gguf.Types.{GgmlType, bf16}
use reinstinct.Gguf.Error.{GgufError}
use reinstinct.Gguf.TensorInfo
use reinstinct.Gguf.TensorInfo.{TensorInfo}

-- `byte_size().unwrap_or(0)`
abbrev size_or_0 : Outcome GgufError ℕ → ℕ
size_or_0 (ok size) = size
size_or_0 _ = 0

unfoldable pub device_bytes : TensorInfo → ℕ
device_bytes t = elim t.ggml_type [
  | bf16 ↦ (TensorInfo.n_elements t * 34) % 2 ^ 64 / 32
  | _ ↦ size_or_0 (TensorInfo.byte_size t)
]

-- A sum of u64 values, which wraps.
unfoldable pub sum : List ℕ → ℕ
sum [] = 0
sum (x ∷ xs) = (x + sum xs) % 2 ^ 64

-- `xs[i]`
unfoldable pub at {ℓ κ} : {A : Type ℓ} {E : Type κ} → List A → ℕ → Outcome E A
at xs i = elim (get_elem? xs i) [ none ↦ panic | some x ↦ ok x ]

module _ {E : Type 0} where
  -- The inner loop: blocks join the stage until its share is reached. At most `max_end - end` join.
  unfoldable pub grow : ℕ → List ℕ → ℕ → ℕ → ℕ → ℕ → Outcome E (ℕ × ℕ)
  grow zero per_block max_end target end cum = if ltb end max_end then stuck else ok (end, cum)
  grow (suc f) per_block max_end target end cum =
      let next = at per_block end >>= (λ b.
        let joined = grow f per_block max_end target (end + 1) ((cum + b) % 2 ^ 64) in
        if ltb ((cum + b / 2) % 2 ^ 64) target then joined else ok (end, cum)) in
      if ltb end max_end then next else ok (end, cum)

  -- The loop over the stages from `s` on, `left` of them.
  unfoldable pub split_from : ℕ → ℕ → List ℕ → ℕ → ℕ → ℕ → ℕ → Outcome E (List (ℕ × ℕ))
  split_from zero n_stages per_block total s start cum = ok []
  split_from (suc left) n_stages per_block total s start cum =
      let n_blocks = length per_block in
      let target = (total * (s + 1)) % 2 ^ 64 / n_stages in
      let max_end = n_blocks - (n_stages - 1 - s) in
      let stage = at per_block start >>= λ b.
      grow (max_end - (start + 1)) per_block max_end target (start + 1) ((cum + b) % 2 ^ 64)
      >>= λ (end, cum'). split_from left n_stages per_block total (s + 1) end cum' >>= λ ranges.
          ok ((start, end) ∷ ranges) in
      if s == n_stages - 1 then ok ((start, n_blocks) ∷ []) else stage

  -- `plan_split`, given the bytes of each block, of the embedding and of the tail.
  unfoldable pub plan_split : List ℕ → ℕ → ℕ → ℕ → Outcome E (List (ℕ × ℕ))
  plan_split per_block embd tail n_stages =
      let total = ((sum per_block + embd) % 2 ^ 64 + tail) % 2 ^ 64 in
      if leb 1 n_stages && leb n_stages (length per_block)
      then split_from n_stages n_stages per_block total 0 0 embd
      else panic

pub data SplitError : Type 0 where
  wrong_entries : ℕ → ℕ → SplitError
  wrong_blocks : List ℕ → ℕ → SplitError

abbrev any_zero : List ℕ → Bool
any_zero [] = false
any_zero (c ∷ cs) = c == 0 || any_zero cs

unfoldable pub ranges_of : ℕ → List ℕ → List (ℕ × ℕ)
ranges_of start [] = []
ranges_of start (c ∷ cs) = (start, (start + c) % 2 ^ 64) ∷ ranges_of ((start + c) % 2 ^ 64) cs

-- The ranges that `new` takes from `split`, or plans.
unfoldable pub block_ranges :
    List ℕ → ℕ → ℕ → ℕ → Option (List ℕ) → Outcome SplitError (List (ℕ × ℕ))
block_ranges per_block embd tail n_devices split =
    let chosen : Outcome SplitError (List (ℕ × ℕ)) = elim split [
      | none ↦ plan_split per_block embd tail n_devices
      | some counts ↦
          if not (length counts == n_devices)
          then err (wrong_entries (length counts) n_devices)
          else if not (sum counts == length per_block) || any_zero counts
          then err (wrong_blocks counts (length per_block))
          else ok (ranges_of 0 counts)
    ] in
    if n_devices == 0 then panic else chosen

-- `n.div_ceil(d)`
abbrev div_ceil : ℕ → ℕ → ℕ
div_ceil n d = if n % d == 0 then n / d else n / d + 1

-- Chunks of at most `chunk` tokens, each with one token at least.
unfoldable pub cut {κ} : {E : Type κ} → ℕ → ℕ → ℕ → Outcome E (List ℕ)
cut f chunk zero = ok []
cut zero chunk (suc left) = stuck
cut (suc f) chunk (suc left) =
    let c = min chunk (suc left) in cut f chunk (suc left - c) >>= λ cs. ok (c ∷ cs)

-- `clamp(lo, hi)`, which asserts `lo <= hi`.
abbrev clamp {κ} : {E : Type κ} → ℕ → ℕ → ℕ → Outcome E ℕ
clamp lo hi n =
    if ltb hi lo then panic else ok (if ltb n lo then lo else if ltb hi n then hi else n)

-- The setting of the environment where it is at least 64, else 256, rounded up to a multiple of 64.
abbrev max_chunk : Option ℕ → ℕ
max_chunk none = 256
max_chunk (some c) = if leb 64 c then (div_ceil c 64 * 64) % 2 ^ 64 else 256

unfoldable pub prefill_chunks {κ} : {E : Type κ} → ℕ → Option ℕ → ℕ → Outcome E (List ℕ)
prefill_chunks n_stages setting n =
    let many =
      clamp 64 (max_chunk setting) (div_ceil (div_ceil n 4) 64 * 64) >>= λ chunk. cut n chunk n in
    if n_stages == 1 || ltb n (2 * 64) then ok (n ∷ []) else many

-- The slices `tokens[at..at + c]` that are prefilled, one by one.
unfoldable pub slices {κ} : {E : Type κ} → List ℕ → ℕ → List ℕ → Outcome E (List (List ℕ))
slices tokens start [] = ok []
slices tokens start (c ∷ cs) =
    let rest = slices tokens (start + c) cs >>= λ ss. ok (take c (drop start tokens) ∷ ss) in
    if leb (start + c) (length tokens) then rest else panic
