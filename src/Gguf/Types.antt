-- ===== src/Gguf/Types.antt =====
-- The enums of src/gguf/types.rs and their size tables.
pub mod TryFrom
use reinstinct.Base.{ℕ, Bool, true, false}

pub data GgmlType : Type 0 where
  f32 f16 q4_0 q4_1 q5_0 q5_1 q8_0 q8_1 q2_k q3_k q4_k q5_k q6_k q8_k : GgmlType
  iq4_nl iq3_s iq4_xs bf16 : GgmlType

-- `GgmlType as u32`
unfoldable pub ggml_discriminant : GgmlType → ℕ
ggml_discriminant f32 = 0
ggml_discriminant f16 = 1
ggml_discriminant q4_0 = 2
ggml_discriminant q4_1 = 3
ggml_discriminant q5_0 = 6
ggml_discriminant q5_1 = 7
ggml_discriminant q8_0 = 8
ggml_discriminant q8_1 = 9
ggml_discriminant q2_k = 10
ggml_discriminant q3_k = 11
ggml_discriminant q4_k = 12
ggml_discriminant q5_k = 13
ggml_discriminant q6_k = 14
ggml_discriminant q8_k = 15
ggml_discriminant iq4_nl = 20
ggml_discriminant iq3_s = 21
ggml_discriminant iq4_xs = 23
ggml_discriminant bf16 = 30

unfoldable pub block_size_elements : GgmlType → ℕ
block_size_elements f32 = 1
block_size_elements f16 = 1
block_size_elements bf16 = 1
block_size_elements q4_0 = 32
block_size_elements q4_1 = 32
block_size_elements q5_0 = 32
block_size_elements q5_1 = 32
block_size_elements q8_0 = 32
block_size_elements q8_1 = 32
block_size_elements iq4_nl = 32
block_size_elements _ = 256

unfoldable pub bytes_per_block : GgmlType → ℕ
bytes_per_block f32 = 4
bytes_per_block f16 = 2
bytes_per_block bf16 = 2
bytes_per_block q4_0 = 18
bytes_per_block q4_1 = 20
bytes_per_block q5_0 = 22
bytes_per_block q5_1 = 24
bytes_per_block q8_0 = 34
bytes_per_block q8_1 = 36
bytes_per_block q2_k = 84
bytes_per_block q3_k = 110
bytes_per_block q4_k = 144
bytes_per_block q5_k = 176
bytes_per_block q6_k = 210
bytes_per_block q8_k = 292
bytes_per_block iq4_nl = 18
bytes_per_block iq4_xs = 136
bytes_per_block iq3_s = 110

unfoldable pub has_dequant_kernel : GgmlType → Bool
has_dequant_kernel q4_k = true
has_dequant_kernel q5_k = true
has_dequant_kernel q6_k = true
has_dequant_kernel q8_0 = true
has_dequant_kernel _ = false

pub data GgufValueType : Type 0 where
  u8 i8 u16 i16 u32 i32 f32 bool string array u64 i64 f64 : GgufValueType

-- `GgufValueType as u32`
unfoldable pub value_discriminant : GgufValueType → ℕ
value_discriminant u8 = 0
value_discriminant i8 = 1
value_discriminant u16 = 2
value_discriminant i16 = 3
value_discriminant u32 = 4
value_discriminant i32 = 5
value_discriminant f32 = 6
value_discriminant bool = 7
value_discriminant string = 8
value_discriminant array = 9
value_discriminant u64 = 10
value_discriminant i64 = 11
value_discriminant f64 = 12
