-- ===== src/Gguf/TensorInfo/Bounds.antt =====
-- Descriptors read from any buffer, and their sizes: src/gguf/tensor_info.rs.
use reinstinct.Base.{
  ℕ, zero, suc, ◌%◌, ◌≡◌, arith, ◌||◌, inl, inr, List, [], ◌∷◌, Bool-cases, ltb, ◌==◌, ok, Ensures,
  holds, rejected, Ensures-bind, Ensures-map, Ensures-if, Ensures-self,
}
use reinstinct.Gguf.Types.TryFrom.{ggml_try_from_u32, ggml_try_from_u32-Ensures}
use reinstinct.Gguf.Reader.{Reader}
use reinstinct.Gguf.Reader.Bounds.{
  IsIn, Takes, Moved-refl, Moved-trans, Moved-weaken, Moved-IsIn, Takes-pure, Takes-map, Takes-lift,
  read_unsigned-Takes, read_string-Takes,
}
use reinstinct.Gguf.TensorInfo.{
  TensorInfo, read_dims, check_rank, parse, byte_size, max_dims, n_elements,
}
use reinstinct.Gguf.Types.{block_size_elements}

read_dims-Takes : (n : ℕ) {r : Reader} → IsIn r → Takes 0 (read_dims n) r
unfolding read_dims
read_dims-Takes zero h = Takes-pure [] h
read_dims-Takes (suc n) {r} h = Ensures-bind (read_unsigned-Takes 8 h) λ (d, s) m.
    Ensures-map (Takes-map (read_dims n) (λ ds. d ∷ ds) (read_dims-Takes n (Moved-IsIn h m)))
      (λ _ o. Moved-weaken (omega arith) (Moved-trans m o))

check_rank-Takes : (name : List ℕ) (n : ℕ) {r : Reader} → IsIn r → Takes 0 (check_rank name n) r
check_rank-Takes name n h = elim (Bool-cases (n == 0 || ltb max_dims n)) [
  | inl bad ↦ rw bad rejected
  | inr good ↦ rw good (holds (Moved-refl h))
]

-- A descriptor is read from any buffer without a panic, and takes at least a byte.
pub parse-Takes : {r : Reader} → IsIn r → Takes 1 parse r
unfolding parse
parse-Takes h = Ensures-bind (read_string-Takes h) λ (name, s) m.
    Ensures-bind (read_unsigned-Takes 4 (Moved-IsIn h m)) λ (n, t) m'.
      let k = Moved-trans m m' in
      Ensures-bind (check_rank-Takes name n (Moved-IsIn h k)) λ (_, u) m2.
        let k2 = Moved-trans k m2 in
        Ensures-bind (read_dims-Takes n (Moved-IsIn h k2)) λ (ds, v) m3.
          let k3 = Moved-trans k2 m3 in
          Ensures-bind (read_unsigned-Takes 4 (Moved-IsIn h k3)) λ (raw, w) m4.
            let k4 = Moved-trans k3 m4 in
            Ensures-bind
              (Takes-lift (ggml_try_from_u32 raw) (Moved-IsIn h k4) (ggml_try_from_u32-Ensures raw))
              λ (ty, x) m5.
                let k5 = Moved-trans k4 m5 in
                Ensures-bind (read_unsigned-Takes 8 (Moved-IsIn h k5))
                  λ (offset, y) m6. holds (Moved-weaken (omega arith) (Moved-trans k5 m6))

pub byte_size-Ensures : (t : TensorInfo) → Ensures (λ size. byte_size t ≡ ok size) (byte_size t)
unfolding byte_size
byte_size-Ensures t = Ensures-self (
    Ensures-if {P = λ _. Unit {0}} (n_elements t % block_size_elements t.ggml_type == 0)
      (λ _. holds tt) (λ _. rejected))
