-- ===== src/Gguf/Value.antt =====
-- Metadata values: src/gguf/value.rs. A float is its bit pattern, a text its bytes.
pub mod Bounds
pub mod RoundTrip
pub mod Coerce
use reinstinct.Base.{ℕ, zero, suc, Bool, List, Option, none, some, stuck}
use reinstinct.Base.Int.{ℤ}
use reinstinct.Gguf.Types.{GgufValueType}
use reinstinct.Gguf.Types.TryFrom.{value_try_from_u32}
use reinstinct.Gguf.Reader.{
  Parse, pure, lift, ◌>>=◌, read_u8, read_i8, read_u16, read_i16, read_u32, read_i32, read_u64,
  read_i64, read_f32, read_f64, read_bool, read_string, remaining,
}

-- `Values` is the `Vec<MetaValue>` of an array.
mutual
  pub data MetaValue : Type 0 where
    u8 : ℕ → MetaValue
    i8 : ℤ → MetaValue
    u16 : ℕ → MetaValue
    i16 : ℤ → MetaValue
    u32 : ℕ → MetaValue
    i32 : ℤ → MetaValue
    u64 : ℕ → MetaValue
    i64 : ℤ → MetaValue
    f32 : ℕ → MetaValue
    f64 : ℕ → MetaValue
    bool : Bool → MetaValue
    string : List ℕ → MetaValue
    array : GgufValueType → Values → MetaValue

  pub data Values : Type 0 where
    nil : Values
    cons : MetaValue → Values → Values

-- `for _ in 0..len { values.push(Self::read(reader, element_type)?); }`
unfoldable pub read_values : Parse MetaValue → ℕ → Parse Values
read_values read zero = pure nil
read_values read (suc n) = do v ← read; vs ← read_values read n; pure (cons v vs)

-- The number bounds the nesting of arrays. `Vec::with_capacity` is capped by the code and does
-- not change the result.
unfoldable pub read_value : ℕ → GgufValueType → Parse MetaValue
unfolding read_values
read_value zero ty = λ _. stuck
read_value (suc f) GgufValueType.u8 = do v ← read_u8; pure (u8 v)
read_value (suc f) GgufValueType.i8 = do v ← read_i8; pure (i8 v)
read_value (suc f) GgufValueType.u16 = do v ← read_u16; pure (u16 v)
read_value (suc f) GgufValueType.i16 = do v ← read_i16; pure (i16 v)
read_value (suc f) GgufValueType.u32 = do v ← read_u32; pure (u32 v)
read_value (suc f) GgufValueType.i32 = do v ← read_i32; pure (i32 v)
read_value (suc f) GgufValueType.u64 = do v ← read_u64; pure (u64 v)
read_value (suc f) GgufValueType.i64 = do v ← read_i64; pure (i64 v)
read_value (suc f) GgufValueType.f32 = do v ← read_f32; pure (f32 v)
read_value (suc f) GgufValueType.f64 = do v ← read_f64; pure (f64 v)
read_value (suc f) GgufValueType.bool = do v ← read_bool; pure (bool v)
read_value (suc f) GgufValueType.string = do v ← read_string; pure (string v)
read_value (suc f) GgufValueType.array = do
  raw ← read_u32
  element_type ← lift (value_try_from_u32 raw)
  len ← read_u64
  values ← read_values (read_value f element_type) len
  pure (array element_type values)

-- Each array header takes twelve bytes, so the nesting is less than the bytes that are left.
unfoldable pub read : GgufValueType → Parse MetaValue
unfolding read_value
read ty r = read_value (suc (remaining r)) ty r
