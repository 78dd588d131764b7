-- ===== src/Gguf/Error.antt =====
-- src/gguf/error.rs. A text is the list of its bytes.
use reinstinct.Base.{ℕ, List}
use reinstinct.Gguf.Types.{GgmlType}

-- `Io` carries an operating-system error, which no code modelled here raises; the payload of a
-- `Utf8Error` is left out.
pub data GgufError : Type 0 where
  bad_magic : ℕ → GgufError
  unsupported_version : ℕ → GgufError
  truncated : ℕ → ℕ → ℕ → GgufError
  unknown_ggml_type : ℕ → GgufError
  unsupported_ggml_type_for : List ℕ → GgmlType → GgufError
  unknown_value_type : ℕ → GgufError
  bad_utf8 : ℕ → GgufError
  bad_shape : List ℕ → ℕ → GgufError
  unaligned_tensor : List ℕ → GgmlType → ℕ → ℕ → GgufError
  tensor_out_of_bounds : List ℕ → ℕ → ℕ → ℕ → GgufError
