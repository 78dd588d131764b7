-- ===== src/Gguf/Types/TryFrom.antt =====
-- `try_from_u32` of both enums (src/gguf/types.rs), the inverse of the discriminants.
use reinstinct.Base.{
  ℕ, ◌≡◌, refl, ◌↔◌, arith, ◌==◌, if◌then◌else◌, Outcome, ok, err, panic, stuck, ◌≢◌, Ensures,
  Ensures-of_ne,
}
use reinstinct.Gguf.Types.{GgmlType, GgufValueType, ggml_discriminant, value_discriminant}
use reinstinct.Gguf.Error.{GgufError, unknown_ggml_type, unknown_value_type}

unfoldable pub ggml_try_from_u32 : ℕ → Outcome GgufError GgmlType
ggml_try_from_u32 v =
    if v == 0
    then ok GgmlType.f32
    else if v == 1
    then ok GgmlType.f16
    else if v == 2
    then ok GgmlType.q4_0
    else if v == 3
    then ok GgmlType.q4_1
    else if v == 6
    then ok GgmlType.q5_0
    else if v == 7
    then ok GgmlType.q5_1
    else if v == 8
    then ok GgmlType.q8_0
    else if v == 9
    then ok GgmlType.q8_1
    else if v == 10
    then ok GgmlType.q2_k
    else if v == 11
    then ok GgmlType.q3_k
    else if v == 12
    then ok GgmlType.q4_k
    else if v == 13
    then ok GgmlType.q5_k
    else if v == 14
    then ok GgmlType.q6_k
    else if v == 15
    then ok GgmlType.q8_k
    else if v == 20
    then ok GgmlType.iq4_nl
    else if v == 21
    then ok GgmlType.iq3_s
    else if v == 23
    then ok GgmlType.iq4_xs
    else if v == 30
    then ok GgmlType.bf16
    else err (unknown_ggml_type v)

unfoldable pub value_try_from_u32 : ℕ → Outcome GgufError GgufValueType
value_try_from_u32 v =
    if v == 0
    then ok GgufValueType.u8
    else if v == 1
    then ok GgufValueType.i8
    else if v == 2
    then ok GgufValueType.u16
    else if v == 3
    then ok GgufValueType.i16
    else if v == 4
    then ok GgufValueType.u32
    else if v == 5
    then ok GgufValueType.i32
    else if v == 6
    then ok GgufValueType.f32
    else if v == 7
    then ok GgufValueType.bool
    else if v == 8
    then ok GgufValueType.string
    else if v == 9
    then ok GgufValueType.array
    else if v == 10
    then ok GgufValueType.u64
    else if v == 11
    then ok GgufValueType.i64
    else if v == 12
    then ok GgufValueType.f64
    else err (unknown_value_type v)

pub ggml_try_from_u32-discriminant : (t : GgmlType) → ggml_try_from_u32 (ggml_discriminant t) ≡ ok t
unfolding ggml_try_from_u32 ggml_discriminant
ggml_try_from_u32-discriminant GgmlType.f32 = refl
ggml_try_from_u32-discriminant _ = refl

pub value_try_from_u32-discriminant :
    (t : GgufValueType) → value_try_from_u32 (value_discriminant t) ≡ ok t
unfolding value_try_from_u32 value_discriminant
value_try_from_u32-discriminant GgufValueType.u8 = refl
value_try_from_u32-discriminant _ = refl

-- Each number is read as the tensor type whose discriminant it is, and as no other.
pub ggml_try_from_u32_iff :
    (v : ℕ) (t : GgmlType) → (ggml_try_from_u32 v ≡ ok t) ↔ (v ≡ ggml_discriminant t)
unfolding ggml_try_from_u32 ggml_discriminant
ggml_try_from_u32_iff v t =
    (λ h. ground arith, λ h. rw h (unfold ggml_try_from_u32 in ggml_try_from_u32-discriminant t))

-- Each number is read as the value type whose discriminant it is, and as no other.
pub value_try_from_u32_iff :
    (v : ℕ) (t : GgufValueType) → (value_try_from_u32 v ≡ ok t) ↔ (v ≡ value_discriminant t)
unfolding value_try_from_u32 value_discriminant
value_try_from_u32_iff v t =
    (λ h. ground arith, λ h. rw h (unfold value_try_from_u32 in value_try_from_u32-discriminant t))

value_try_from_u32-ne-panic : (v : ℕ) → value_try_from_u32 v ≢ panic
unfolding value_try_from_u32
value_try_from_u32-ne-panic v = ground arith

value_try_from_u32-ne-stuck : (v : ℕ) → value_try_from_u32 v ≢ stuck
unfolding value_try_from_u32
value_try_from_u32-ne-stuck v = ground arith

-- A conversion returns on every number.
pub value_try_from_u32-Ensures :
    (v : ℕ) → Ensures (λ t. value_try_from_u32 v ≡ ok t) (value_try_from_u32 v)
value_try_from_u32-Ensures v =
    Ensures-of_ne (value_try_from_u32 v) (value_try_from_u32-ne-panic v)
      (value_try_from_u32-ne-stuck v)

ggml_try_from_u32-ne-panic : (v : ℕ) → ggml_try_from_u32 v ≢ panic
unfolding ggml_try_from_u32
ggml_try_from_u32-ne-panic v = ground arith

ggml_try_from_u32-ne-stuck : (v : ℕ) → ggml_try_from_u32 v ≢ stuck
unfolding ggml_try_from_u32
ggml_try_from_u32-ne-stuck v = ground arith

pub ggml_try_from_u32-Ensures :
    (v : ℕ) → Ensures (λ t. ggml_try_from_u32 v ≡ ok t) (ggml_try_from_u32 v)
ggml_try_from_u32-Ensures v =
    Ensures-of_ne (ggml_try_from_u32 v) (ggml_try_from_u32-ne-panic v)
      (ggml_try_from_u32-ne-stuck v)
