-- ===== src/Gguf/TensorInfo.antt =====
-- Tensor descriptors: src/gguf/tensor_info.rs. Sizes are u64, and wrap as in a release build.
pub mod Bounds
pub mod RoundTrip
use reinstinct.Base.{
  ℕ, zero, suc, ◌+◌, ◌-◌, ◌*◌, ◌/◌, ◌%◌, ◌^◌, Bool, ◌||◌, List, [], ◌∷◌, ◌++◌, ltb, ◌==◌,
  if◌then◌else◌, take, replicate, Outcome, ok, err,
}
use reinstinct.Gguf.Types.{GgmlType, block_size_elements, bytes_per_block}
use reinstinct.Gguf.Types.TryFrom.{ggml_try_from_u32}
use reinstinct.Gguf.Error.{GgufError, bad_shape, unaligned_tensor}
use reinstinct.Gguf.Reader.{Parse, pure, lift, ◌>>=◌, ◌>>◌, read_u32, read_u64, read_string}

abbrev pub max_dims : ℕ
max_dims = 4

-- `dims` has `max_dims` entries.
pub record TensorInfo : Type 0 where
  pub name : List ℕ
  pub ggml_type : GgmlType
  pub n_dims : ℕ
  pub dims : List ℕ
  pub offset : ℕ

unfoldable pub shape : TensorInfo → List ℕ
shape t = take t.n_dims t.dims

-- `.iter().product()` on u64; the order of the factors does not matter modulo 2 ^ 64.
unfoldable pub product : List ℕ → ℕ
product [] = 1
product (d ∷ ds) = d * product ds % 2 ^ 64

unfoldable pub n_elements : TensorInfo → ℕ
unfolding shape product
n_elements t = product (shape t)

unfoldable pub byte_size : TensorInfo → Outcome GgufError ℕ
byte_size t =
    let block_elems = block_size_elements t.ggml_type in
    let n = n_elements t in
    if n % block_elems == 0
    then ok (n / block_elems * bytes_per_block t.ggml_type % 2 ^ 64)
    else err (unaligned_tensor t.name t.ggml_type n block_elems)

-- `for d in dims.iter_mut().take(n_dims) { *d = reader.read_u64()?; }`
unfoldable pub read_dims : ℕ → Parse (List ℕ)
read_dims zero = pure []
read_dims (suc n) = do d ← read_u64; ds ← read_dims n; pure (d ∷ ds)

abbrev pub check_rank : List ℕ → ℕ → Parse (Unit {0})
check_rank name n_dims r =
    if n_dims == 0 || ltb max_dims n_dims then err (bad_shape name n_dims) else ok (tt, r)

unfoldable pub parse : Parse TensorInfo
unfolding read_dims
parse = do
  name ← read_string
  n_dims ← read_u32
  check_rank name n_dims
  ds ← read_dims n_dims
  ty_raw ← read_u32
  ggml_type ← lift (ggml_try_from_u32 ty_raw)
  offset ← read_u64
  pure (record {
    name = name;
    ggml_type = ggml_type;
    n_dims = n_dims;
    dims = ds ++ replicate (max_dims - n_dims) 1;
    offset = offset;
  })
