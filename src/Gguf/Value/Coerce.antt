-- ===== src/Gguf/Value/Coerce.antt =====
-- The coercions of src/gguf/value.rs. A value of an integer variant lies in its type's range.
use reinstinct.Base.{ℕ, ◌^◌, Option, some, none, List, ltb, if◌then◌else◌}
use reinstinct.Base.Int.{ℤ, pos, negsuc}
use reinstinct.Gguf.Types.{GgufValueType}
use reinstinct.Gguf.Value.{
  MetaValue, Values, u8, i8, u16, i16, u32, i32, u64, i64, f32, f64, string, array,
}

-- `u32::try_from` and `u64::try_from` of an unsigned and of a signed integer.
abbrev try_from_unsigned : ℕ → ℕ → Option ℕ
try_from_unsigned bits v = if ltb v (2 ^ bits) then some v else none

abbrev try_from_signed : ℕ → ℤ → Option ℕ
try_from_signed bits (pos v) = try_from_unsigned bits v
try_from_signed bits (negsuc v) = none

unfoldable pub as_u32 : MetaValue → Option ℕ
as_u32 (u8 v) = some v
as_u32 (u16 v) = some v
as_u32 (u32 v) = some v
as_u32 (u64 v) = try_from_unsigned 32 v
as_u32 (i8 v) = try_from_signed 32 v
as_u32 (i16 v) = try_from_signed 32 v
as_u32 (i32 v) = try_from_signed 32 v
as_u32 (i64 v) = try_from_signed 32 v
as_u32 _ = none

unfoldable pub as_u64 : MetaValue → Option ℕ
as_u64 (u8 v) = some v
as_u64 (u16 v) = some v
as_u64 (u32 v) = some v
as_u64 (u64 v) = some v
as_u64 (i8 v) = try_from_signed 64 v
as_u64 (i16 v) = try_from_signed 64 v
as_u64 (i32 v) = try_from_signed 64 v
as_u64 (i64 v) = try_from_signed 64 v
as_u64 _ = none

unfoldable pub as_str : MetaValue → Option (List ℕ)
as_str (string s) = some s
as_str _ = none

unfoldable pub as_array : MetaValue → Option (GgufValueType × Values)
as_array (array t vs) = some (t, vs)
as_array _ = none

-- The narrowing cast `f64 as f32` of the language, on bit patterns.
unfoldable pub as_f32 : (ℕ → ℕ) → MetaValue → Option ℕ
as_f32 narrow (f32 v) = some v
as_f32 narrow (f64 v) = some (narrow v)
as_f32 narrow _ = none
