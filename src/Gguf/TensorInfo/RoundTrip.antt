-- ===== src/Gguf/TensorInfo/RoundTrip.antt =====
-- The bytes of a tensor descriptor, as the GGUF format lays them out: src/gguf/tensor_info.rs.
use reinstinct.Base.{
  ℕ, ◌-◌, ◌≤◌, ◌<◌, ◌^◌, ◌≡◌, arith, true, false, ◌||◌, List, [], ◌∷◌, ◌++◌, append-nil, ltb, ◌==◌,
  length, replicate, All,
}
use reinstinct.Base.Utf8.{is_utf8}
use reinstinct.Gguf.Types.{GgmlType, ggml_discriminant}
use reinstinct.Gguf.Types.TryFrom.{ggml_try_from_u32, ggml_try_from_u32-discriminant}
use reinstinct.Gguf.Reader.{pure, lift, ◌>>=◌, read_u32, read_u64, read_string}
use reinstinct.Gguf.Reader.Words.{le_bytes}
use reinstinct.Gguf.Reader.RoundTrip.{
  Reads, Reads-pure, Reads-bind, Reads-lift, Reads-map, read_unsigned-Reads, read_string-Reads,
  string_bytes,
}
use reinstinct.Gguf.TensorInfo.{TensorInfo, read_dims, check_rank, parse, max_dims}

-- A descriptor by its shape.
abbrev pub with_shape : List ℕ → GgmlType → List ℕ → ℕ → TensorInfo
with_shape name ty ds offset = record {
  name = name;
  ggml_type = ty;
  n_dims = length ds;
  dims = ds ++ replicate (max_dims - length ds) 1;
  offset = offset;
}

unfoldable pub dims_bytes : List ℕ → List ℕ
dims_bytes [] = []
dims_bytes (d ∷ ds) = le_bytes 8 d ++ dims_bytes ds

unfoldable pub info_bytes : List ℕ → GgmlType → List ℕ → ℕ → List ℕ
info_bytes name ty ds offset =
    string_bytes name
    ++ (le_bytes 4 (length ds)
        ++ (dims_bytes ds ++ (le_bytes 4 (ggml_discriminant ty) ++ le_bytes 8 offset)))

read_dims-Reads :
    (ds : List ℕ) → All (λ d. d < 256 ^ 8) ds → Reads (read_dims (length ds)) (dims_bytes ds) ds
unfolding read_dims dims_bytes
read_dims-Reads [] h = Reads-pure []
read_dims-Reads (d ∷ ds) (h, hs) =
    Reads-bind read_u64 (λ e. read_dims (length ds) >>= λ es. pure (e ∷ es)) (le_bytes 8 d)
      (dims_bytes ds) (read_unsigned-Reads 8 d h)
      (Reads-map (read_dims (length ds)) (λ es. d ∷ es) (dims_bytes ds) (read_dims-Reads ds hs))

discriminant-lt : (t : GgmlType) → ggml_discriminant t < 256 ^ 4
unfolding ggml_discriminant
discriminant-lt GgmlType.f32 = omega arith
discriminant-lt _ = omega arith

-- What a descriptor's fields must satisfy to be written down.
pub record IsWritable (name : List ℕ) (ds : List ℕ) (offset : ℕ) : Type 0 where
  pub valid : is_utf8 name ≡ true
  pub named : length name < 2 ^ 64
  pub some_dims : 0 < length ds
  pub few_dims : length ds ≤ max_dims
  pub dims_fit : All (λ d. d < 256 ^ 8) ds
  pub offset_fits : offset < 256 ^ 8

rank_ok : (name : List ℕ) (n : ℕ) → 0 < n → n ≤ max_dims → Reads (check_rank name n) [] tt
rank_ok name n lo hi front rest h = rw (in_range, append-nil)
  where
    in_range : (n == 0 || ltb max_dims n) ≡ false
    in_range = ground arith

-- A writable descriptor of one to four dimensions is read back from its bytes.
pub parse-Reads :
    (name : List ℕ) (ty : GgmlType) (ds : List ℕ) (offset : ℕ)
    → IsWritable name ds offset
    → Reads parse (info_bytes name ty ds offset) (with_shape name ty ds offset)
unfolding parse info_bytes
parse-Reads name ty ds offset h =
    let n = length ds in
    let make = λ (t : GgmlType) (o : ℕ) (es : List ℕ) (m : ℕ) (s : List ℕ).
      let r : TensorInfo = record {
        name = s;
        ggml_type = t;
        n_dims = m;
        dims = es ++ replicate (max_dims - m) 1;
        offset = o;
      } in
      r in
    let at_offset =
      Reads-map read_u64 (λ o. make ty o ds n name) (le_bytes 8 offset)
        (read_unsigned-Reads 8 offset h.offset_fits) in
    let typed =
      Reads-bind (lift (ggml_try_from_u32 (ggml_discriminant ty)))
        (λ t. read_u64 >>= λ o. pure (make t o ds n name)) [] _
        (Reads-lift _ (ggml_try_from_u32-discriminant ty)) at_offset in
    let raw =
      Reads-bind read_u32
        (λ v. lift (ggml_try_from_u32 v) >>= λ t. read_u64 >>= λ o. pure (make t o ds n name)) _ _
        (read_unsigned-Reads 4 (ggml_discriminant ty) (discriminant-lt ty)) typed in
    let dims =
      Reads-bind (read_dims n)
        (λ es. read_u32 >>= λ v.
          lift (ggml_try_from_u32 v) >>= λ t. read_u64 >>= λ o. pure (make t o es n name))
        _ _ (read_dims-Reads ds h.dims_fit) raw in
    let checked =
      Reads-bind (check_rank name n)
        (λ _. read_dims n >>= λ es. read_u32 >>= λ v.
          lift (ggml_try_from_u32 v) >>= λ t. read_u64 >>= λ o. pure (make t o es n name))
        [] _ (rank_ok name n h.some_dims h.few_dims) dims in
    let ranked =
      Reads-bind read_u32
        (λ m. check_rank name m >>= λ _. read_dims m >>= λ es. read_u32 >>= λ v.
          lift (ggml_try_from_u32 v) >>= λ t. read_u64 >>= λ o. pure (make t o es m name))
        _ _ (read_unsigned-Reads 4 n (omega (arith, h.few_dims))) checked in
    Reads-bind read_string
      (λ s. read_u32 >>= λ m. check_rank s m >>= λ _. read_dims m >>= λ es. read_u32 >>= λ v.
        lift (ggml_try_from_u32 v) >>= λ t. read_u64 >>= λ o. pure (make t o es m s))
      _ _ (read_string-Reads name h.valid h.named) ranked
