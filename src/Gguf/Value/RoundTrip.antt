-- ===== src/Gguf/Value/RoundTrip.antt =====
-- The bytes of a metadata value, as the GGUF format lays them out: src/gguf/value.rs.
use reinstinct.Base.{
  ℕ, zero, suc, ◌+◌, ◌-◌, ◌*◌, ◌^◌, ◌≤◌, ◌<◌, ◌≡◌, refl, arith, true, List, [], ◌∷◌, ◌++◌, length,
}
use reinstinct.Base.Int.{ℤ, pos, negsuc}
use reinstinct.Base.Utf8.{is_utf8}
use reinstinct.Gguf.Types.{GgufValueType, value_discriminant}
use reinstinct.Gguf.Types.TryFrom.{value_try_from_u32, value_try_from_u32-discriminant}
use reinstinct.Gguf.Reader.{
  Parse, pure, lift, ◌>>=◌, signed, remaining, read_signed, read_u8, read_i8, read_u16, read_i16,
  read_u32, read_i32, read_u64, read_i64, read_f32, read_f64, read_bool, read_string,
}
use reinstinct.Gguf.Reader.Words.{le_bytes, length-le_bytes}
use reinstinct.Gguf.Reader.RoundTrip.{
  Reads, Reads-pure, Reads-bind, read_unsigned-Reads, read_signed-Reads, read_bool-Reads,
  read_string-Reads, bool_byte, string_bytes, lengths, remaining-cursor, Reads-lift, Reads-map,
  cursor,
}
use reinstinct.Gguf.Value.{
  MetaValue, Values, u8, i8, u16, i16, u32, i32, u64, i64, f32, f64, bool, string, array, nil, cons,
  read_value, read_values, read,
}

-- The two's complement pattern of a signed integer in `w` bits, and its range.
pub word : ℕ → ℤ → ℕ
word w (pos n) = n
word w (negsuc n) = 2 ^ w - 1 - n

abbrev pub FitsSigned : ℕ → ℤ → Type 0
FitsSigned w (pos n) = n < 2 ^ (w - 1)
FitsSigned w (negsuc n) = n < 2 ^ (w - 1)

unfoldable pub type_of : MetaValue → GgufValueType
type_of (u8 v) = GgufValueType.u8
type_of (i8 v) = GgufValueType.i8
type_of (u16 v) = GgufValueType.u16
type_of (i16 v) = GgufValueType.i16
type_of (u32 v) = GgufValueType.u32
type_of (i32 v) = GgufValueType.i32
type_of (u64 v) = GgufValueType.u64
type_of (i64 v) = GgufValueType.i64
type_of (f32 v) = GgufValueType.f32
type_of (f64 v) = GgufValueType.f64
type_of (bool v) = GgufValueType.bool
type_of (string v) = GgufValueType.string
type_of (array t vs) = GgufValueType.array

unfoldable pub count : Values → ℕ
count nil = 0
count (cons v vs) = suc (count vs)

unfoldable mutual
  unfolding word count

  pub value_bytes : MetaValue → List ℕ
  value_bytes (u8 v) = le_bytes 1 v
  value_bytes (i8 v) = le_bytes 1 (word 8 v)
  value_bytes (u16 v) = le_bytes 2 v
  value_bytes (i16 v) = le_bytes 2 (word 16 v)
  value_bytes (u32 v) = le_bytes 4 v
  value_bytes (i32 v) = le_bytes 4 (word 32 v)
  value_bytes (u64 v) = le_bytes 8 v
  value_bytes (i64 v) = le_bytes 8 (word 64 v)
  value_bytes (f32 v) = le_bytes 4 v
  value_bytes (f64 v) = le_bytes 8 v
  value_bytes (bool b) = bool_byte b ∷ []
  value_bytes (string s) = string_bytes s
  value_bytes (array t vs) =
      le_bytes 4 (value_discriminant t) ++ (le_bytes 8 (count vs) ++ values_bytes vs)

  pub values_bytes : Values → List ℕ
  values_bytes nil = []
  values_bytes (cons v vs) = value_bytes v ++ values_bytes vs

-- Each number fits its type, each text is UTF-8, and the values of an array have its element type.
unfoldable mutual
  pub IsEncodable : MetaValue → Type 0
  IsEncodable (u8 v) = v < 256 ^ 1
  IsEncodable (i8 v) = FitsSigned 8 v
  IsEncodable (u16 v) = v < 256 ^ 2
  IsEncodable (i16 v) = FitsSigned 16 v
  IsEncodable (u32 v) = v < 256 ^ 4
  IsEncodable (i32 v) = FitsSigned 32 v
  IsEncodable (u64 v) = v < 256 ^ 8
  IsEncodable (i64 v) = FitsSigned 64 v
  IsEncodable (f32 v) = v < 256 ^ 4
  IsEncodable (f64 v) = v < 256 ^ 8
  IsEncodable (bool b) = Unit {0}
  IsEncodable (string s) = (is_utf8 s ≡ true) × (length s < 2 ^ 64)
  IsEncodable (array t vs) = (count vs < 256 ^ 8) × AreEncodable t vs

  pub AreEncodable : GgufValueType → Values → Type 0
  AreEncodable t nil = Unit {0}
  AreEncodable t (cons v vs) = (type_of v ≡ t) × IsEncodable v × AreEncodable t vs

-- How deep arrays are nested.
unfoldable mutual
  depth : MetaValue → ℕ
  depth (array t vs) = suc (depth_values vs)
  depth _ = 0

  depth_values : Values → ℕ
  depth_values nil = 0
  depth_values (cons v vs) = depth v + depth_values vs

signed-word : (w : ℕ) (z : ℤ) → 2 ^ w ≡ 2 * 2 ^ (w - 1) → FitsSigned w z → signed w (word w z) ≡ z
unfolding signed word
signed-word w (pos n) p h = ground arith
signed-word w (negsuc n) p h = ground (arith, back)
  where
    back : 2 ^ w - 1 - (2 ^ w - 1 - n) ≡ n
    back = omega arith

word-lt : (w : ℕ) (z : ℤ) → 2 ^ w ≡ 2 * 2 ^ (w - 1) → FitsSigned w z → word w z < 2 ^ w
unfolding word
word-lt w (pos n) p h = omega arith
word-lt w (negsuc n) p h = omega arith

-- A signed integer of `n` bytes.
signed-Reads :
    (n : ℕ) (z : ℤ)
    → 2 ^ (8 * n) ≡ 2 * 2 ^ (8 * n - 1)
    → 2 ^ (8 * n) ≡ 256 ^ n
    → FitsSigned (8 * n) z
    → Reads (read_signed n) (le_bytes n (word (8 * n) z)) z
signed-Reads n z p q h =
    rw (signed-word (8 * n) z p h) at
      (read_signed-Reads n (word (8 * n) z) (omega (arith, word-lt (8 * n) z p h)))

-- Fuel above a bound is a successor.
fuelled {ℓ} :
    {depth : ℕ} (Q : ℕ → Type ℓ)
    → ((fuel : ℕ) → depth < suc fuel → Q (suc fuel))
    → (fuel : ℕ) → depth < fuel
    → Q fuel
fuelled Q at_suc zero enough = absurd (omega arith)
fuelled Q at_suc (suc fuel) enough = at_suc fuel enough

pub discriminant-lt : (t : GgufValueType) → value_discriminant t < 256 ^ 4
unfolding value_discriminant
discriminant-lt GgufValueType.u8 = omega arith
discriminant-lt _ = omega arith

array-Reads :
    (f : ℕ) (t : GgufValueType) (vs : Values)
    → count vs < 256 ^ 8
    → Reads (read_values (read_value f t) (count vs)) (values_bytes vs) vs
    → Reads (read_value (suc f) GgufValueType.array) (value_bytes (array t vs)) (array t vs)
unfolding read_value value_bytes
array-Reads f t vs small h =
    let elements =
      Reads-map (read_values (read_value f t) (count vs)) (array t) (values_bytes vs) h in
    let counted =
      Reads-bind read_u64 (λ n. read_values (read_value f t) n >>= λ us. pure (array t us))
        (le_bytes 8 (count vs)) (values_bytes vs) (read_unsigned-Reads 8 (count vs) small)
        elements in
    let typed =
      Reads-bind (lift (value_try_from_u32 (value_discriminant t)))
        (λ u. read_u64 >>= λ n. read_values (read_value f u) n >>= λ us. pure (array u us)) []
        (le_bytes 8 (count vs) ++ values_bytes vs)
        (Reads-lift _ (value_try_from_u32-discriminant t)) counted in
    Reads-bind read_u32
      (λ raw. lift (value_try_from_u32 raw) >>= λ u.
        read_u64 >>= λ n. read_values (read_value f u) n >>= λ us. pure (array u us))
      (le_bytes 4 (value_discriminant t)) (le_bytes 8 (count vs) ++ values_bytes vs)
      (read_unsigned-Reads 4 (value_discriminant t) (discriminant-lt t)) typed

cons-Reads :
    (p : Parse MetaValue) (v : MetaValue) (vs : Values)
    → Reads p (value_bytes v) v
    → Reads (read_values p (count vs)) (values_bytes vs) vs
    → Reads (read_values p (count (cons v vs))) (values_bytes (cons v vs)) (cons v vs)
unfolding read_values value_bytes
cons-Reads p v vs hv hvs =
    Reads-bind p (λ u. read_values p (count vs) >>= λ us. pure (cons u us)) (value_bytes v)
      (values_bytes vs) hv (Reads-map (read_values p (count vs)) (cons v) (values_bytes vs) hvs)

mutual
  unfolding value_bytes IsEncodable depth read_value type_of

  read_value-Reads :
      (v : MetaValue)
      → IsEncodable v
      → (f : ℕ) → depth v < f
      → Reads (read_value f (type_of v)) (value_bytes v) v
  read_value-Reads (u8 v) h = fuelled _ (λ f k. Reads-map read_u8 u8 _ (read_unsigned-Reads 1 v h))
  read_value-Reads (i8 v) h =
      fuelled _ (λ f k. Reads-map read_i8 i8 _ (signed-Reads 1 v refl refl h))
  read_value-Reads (u16 v) h =
      fuelled _ (λ f k. Reads-map read_u16 u16 _ (read_unsigned-Reads 2 v h))
  read_value-Reads (i16 v) h =
      fuelled _ (λ f k. Reads-map read_i16 i16 _ (signed-Reads 2 v refl refl h))
  read_value-Reads (u32 v) h =
      fuelled _ (λ f k. Reads-map read_u32 u32 _ (read_unsigned-Reads 4 v h))
  read_value-Reads (i32 v) h =
      fuelled _ (λ f k. Reads-map read_i32 i32 _ (signed-Reads 4 v refl refl h))
  read_value-Reads (u64 v) h =
      fuelled _ (λ f k. Reads-map read_u64 u64 _ (read_unsigned-Reads 8 v h))
  read_value-Reads (i64 v) h =
      fuelled _ (λ f k. Reads-map read_i64 i64 _ (signed-Reads 8 v refl refl h))
  read_value-Reads (f32 v) h =
      fuelled _ (λ f k. Reads-map read_f32 f32 _ (read_unsigned-Reads 4 v h))
  read_value-Reads (f64 v) h =
      fuelled _ (λ f k. Reads-map read_f64 f64 _ (read_unsigned-Reads 8 v h))
  read_value-Reads (bool b) h = fuelled _ (λ f k. Reads-map read_bool bool _ (read_bool-Reads b))
  read_value-Reads (string s) h =
      fuelled _ (λ f k. Reads-map read_string string _ (read_string-Reads s h.0 h.1))
  read_value-Reads (array t vs) h =
      fuelled _ (λ f k. array-Reads f t vs h.0 (read_values-Reads vs t h.1 f (omega arith)))

  read_values-Reads :
      (vs : Values) (t : GgufValueType)
      → AreEncodable t vs
      → (f : ℕ) → depth_values vs < f
      → Reads (read_values (read_value f t) (count vs)) (values_bytes vs) vs
  read_values-Reads nil t h f k = Reads-pure nil
  read_values-Reads (cons v vs) t (e, hv, hvs) f k =
      cons-Reads (read_value f t) v vs (rw e at (read_value-Reads v hv f (omega arith)))
        (read_values-Reads vs t hvs f (omega arith))

mutual
  unfolding value_bytes depth IsEncodable

  depth-le : (v : MetaValue) → depth v ≤ length (value_bytes v)
  depth-le (array t vs) =
      omega (lengths, depth_values-le vs, length-le_bytes 4 (value_discriminant t))
  depth-le (u8 v) = omega arith
  depth-le _ = omega arith

  depth_values-le : (vs : Values) → depth_values vs ≤ length (values_bytes vs)
  depth_values-le nil = omega arith
  depth_values-le (cons v vs) = omega (lengths, depth-le v, depth_values-le vs)

-- An encodable value is read back from its bytes, wherever they stand in a buffer that fits the
-- address space, and the cursor stops behind them.
pub read-Reads : (v : MetaValue) → IsEncodable v → Reads (read (type_of v)) (value_bytes v) v
unfolding read
read-Reads v h front rest k =
    read_value-Reads v h (suc (remaining (cursor front (value_bytes v ++ rest))))
      (omega (lengths, depth-le v, remaining-cursor front (value_bytes v ++ rest) (omega lengths)))
      front rest k
