-- ===== src/SuperQuant.antt =====
-- The two-tier KV cache of a layer: src/runtime/kv_superquant.rs. The device kernels,
-- which quantise a row and promote rows, are parameters.
pub mod Tier
pub mod Fifo
mod Tests
use reinstinct.Base.{
  ℕ, zero, suc, ◌+◌, ◌-◌, Bool, true, false, ◌&&◌, List, [], ◌∷◌, ◌++◌, map, length, take, drop,
  set, ltb, leb, if◌then◌else◌, Outcome, ok, err, panic, ◌>>=◌, min,
}

-- Capacities in positions.
pub record SuperQuantConfig : Type 0 where
  pub warm_cap : ℕ
  pub cold_cap : ℕ

-- `max_seq.saturating_sub(warm)` is the subtraction that stops at 0.
unfoldable pub chat_defaults : ℕ → SuperQuantConfig
chat_defaults max_seq =
    let warm = min 8192 max_seq in record { warm_cap = warm; cold_cap = max_seq - warm }

unfoldable pub total : SuperQuantConfig → ℕ
total config = config.warm_cap + config.cold_cap

-- The buffers by position; what stands behind a count is unused. `Q` is a row of int8 values, `S` the
-- scales of a row, `C` a row of cold blocks.
pub record Cache (Q S C : Type 0) : Type 0 where
  pub warm_k : List Q
  pub warm_v : List Q
  pub warm_ks : List S
  pub warm_vs : List S
  pub cold_k : List C
  pub cold_v : List C
  pub scratch_warm_q : List Q
  pub scratch_warm_s : List S
  pub config : SuperQuantConfig
  pub warm_count : ℕ
  pub cold_count : ℕ

module _ {Q S C : Type 0} where
  unfoldable pub reset : Cache Q S C → Cache Q S C
  reset c = record c { warm_count = 0; cold_count = 0 }

  unfoldable pub len : Cache Q S C → ℕ
  len c = c.cold_count + c.warm_count

  unfoldable pub max_seq : Cache Q S C → ℕ
  max_seq c = total c.config

-- `dst.copy_range_from_device(src, src_off, dst_off, n)` in positions.
unfoldable pub copy_range {ℓ} : {A : Type ℓ} → List A → ℕ → ℕ → ℕ → List A → List A
copy_range src src_off dst_off n dst =
    take dst_off dst ++ (take n (drop src_off src) ++ drop (dst_off + n) dst)

-- What is behind the first `n` warm positions moves to the front of each of the four warm buffers,
-- through the two scratch buffers, which keys and values share.
unfoldable pub slide : {Q S C : Type 0} → ℕ → Cache Q S C → Cache Q S C
slide n c =
    let left = c.warm_count - n in
    let q1 = copy_range c.warm_k n 0 left c.scratch_warm_q in
    let s1 = copy_range c.warm_ks n 0 left c.scratch_warm_s in
    let q2 = copy_range c.warm_v n 0 left q1 in
    let s2 = copy_range c.warm_vs n 0 left s1 in
    if ltb 0 left
    then record c {
      warm_k = copy_range q1 0 0 left c.warm_k;
      warm_ks = copy_range s1 0 0 left c.warm_ks;
      warm_v = copy_range q2 0 0 left c.warm_v;
      warm_vs = copy_range s2 0 0 left c.warm_vs;
      scratch_warm_q = q2;
      scratch_warm_s = s2;
    }
    else c

-- `quantise` is the kernel that makes a row and its scales of a key or a value, `promote_k` and
-- `promote_v` the one that makes cold rows of warm ones, with the signs of the keys and of the values.
-- A launch may fail.
module _ {Src Q S C E : Type 0} (quantise : Src → Outcome E (Q × S))
    (promote_k promote_v : List Q → List S → Outcome E (List C)) where
  unfoldable pub demote_warm_to_cold : ℕ → Cache Q S C → Outcome E (Cache Q S C)
  demote_warm_to_cold n c =
      let wc = c.warm_count in
      let cc = c.cold_count in
      let moved = promote_k (take n c.warm_k) (take n c.warm_ks) >>= λ ks.
      promote_v (take n c.warm_v) (take n c.warm_vs) >>= λ vs. ok (record (slide n c) {
        cold_k = copy_range ks 0 cc n c.cold_k;
        cold_v = copy_range vs 0 cc n c.cold_v;
        warm_count = wc - n;
        cold_count = cc + n;
      }) in
      if leb n wc && leb (cc + n) c.config.cold_cap then moved else panic

  -- The key and the value of one position.
  unfoldable pub write_step : Src → Src → Cache Q S C → Outcome E (Cache Q S C)
  write_step src_k src_v c = do
    c' ← (if leb c.config.warm_cap c.warm_count then demote_warm_to_cold 1 c else ok c)
    (k, ks) ← quantise src_k
    (v, vs) ← quantise src_v
    let pos = c'.warm_count
    ok (record c' {
      warm_k = set c'.warm_k pos k;
      warm_ks = set c'.warm_ks pos ks;
      warm_v = set c'.warm_v pos v;
      warm_vs = set c'.warm_vs pos vs;
      warm_count = pos + 1;
    })

  -- A sequence of steps.
  unfoldable pub write_steps : List (Src × Src) → Cache Q S C → Outcome E (Cache Q S C)
  write_steps [] c = ok c
  write_steps ((k, v) ∷ xs) c = write_step k v c >>= λ c'. write_steps xs c'
