-- ===== src/Gguf/Value/Bounds.antt =====
-- Metadata values read from any buffer: src/gguf/value.rs.
use reinstinct.Base.{
  ℕ, zero, suc, ◌+◌, ◌≤◌, ◌<◌, ◌≡◌, refl, ap, ◌∙◌, arith, length, Ensures-bind, Ensures-map,
}
use reinstinct.Gguf.Types.{GgufValueType}
use reinstinct.Gguf.Types.TryFrom.{value_try_from_u32, value_try_from_u32-Ensures}
use reinstinct.Gguf.Reader.{
  Reader, Parse, pure, ◌>>=◌, remaining, read_u8, read_i8, read_u16, read_i16, read_u32, read_i32,
  read_u64, read_i64, read_f32, read_f64, read_bool, read_string,
}
use reinstinct.Gguf.Reader.Bounds.{
  IsIn, Takes, Moved-trans, Moved-weaken, Moved-IsIn, Takes-weaken, Takes-pure, Takes-bind,
  Takes-map, Takes-lift, remaining_lem, read_unsigned-Takes, read_signed-Takes, read_bool-Takes,
  read_string-Takes,
}
use reinstinct.Gguf.Value.{
  MetaValue, u8, i8, u16, i16, u32, i32, u64, i64, f32, f64, bool, string, array, cons, nil,
  read_values, read_value, read,
}

read_values-Takes :
    (p : Parse MetaValue) (n : ℕ) {r : Reader}
    → ((r' : Reader)
        → IsIn r'
        → r.position ≤ r'.position
        → length r'.buf ≡ length r.buf
        → Takes 1 p r')
    → IsIn r
    → Takes 0 (read_values p n) r
unfolding read_values
read_values-Takes p zero each h = Takes-pure nil h
read_values-Takes p (suc n) {r} each h =
    Takes-weaken {j = 1} (p >>= λ v. read_values p n >>= λ vs. pure (cons v vs)) (omega arith) (
      Takes-bind {j = 1} {k = 0} p (λ v. read_values p n >>= λ vs. pure (cons v vs)) h
        (each r h (omega arith) refl)
        λ v s k m.
          Takes-map (read_values p n) (λ vs. cons v vs)
            (read_values-Takes p n
              (λ t kt le eq. each t kt (omega (arith, m.forward)) (eq ∙ ap length m.same)) k))

one_at_least :
    {A : Type 0} {j : ℕ} (p : Parse A) (g : A → MetaValue) {r : Reader}
    → Takes (suc j) p r
    → Takes 1 (p >>= λ v. pure (g v)) r
one_at_least {j = j} p g t =
    Takes-weaken {j = suc j} (p >>= λ v. pure (g v)) (omega arith) (Takes-map p g t)

-- With more fuel than bytes are left, a value takes at least one byte.
read_value-Takes :
    (f : ℕ) (ty : GgufValueType) {r : Reader}
    → IsIn r
    → length r.buf < f + r.position
    → Takes 1 (read_value f ty) r
unfolding read_value
read_value-Takes zero ty h k = absurd (omega (arith, h.within))
read_value-Takes (suc f) GgufValueType.u8 h k = one_at_least read_u8 u8 (read_unsigned-Takes 1 h)
read_value-Takes (suc f) GgufValueType.i8 h k = one_at_least read_i8 i8 (read_signed-Takes 1 h)
read_value-Takes (suc f) GgufValueType.u16 h k =
    one_at_least {j = 1} read_u16 u16 (read_unsigned-Takes 2 h)
read_value-Takes (suc f) GgufValueType.i16 h k =
    one_at_least {j = 1} read_i16 i16 (read_signed-Takes 2 h)
read_value-Takes (suc f) GgufValueType.u32 h k =
    one_at_least {j = 3} read_u32 u32 (read_unsigned-Takes 4 h)
read_value-Takes (suc f) GgufValueType.i32 h k =
    one_at_least {j = 3} read_i32 i32 (read_signed-Takes 4 h)
read_value-Takes (suc f) GgufValueType.u64 h k =
    one_at_least {j = 7} read_u64 u64 (read_unsigned-Takes 8 h)
read_value-Takes (suc f) GgufValueType.i64 h k =
    one_at_least {j = 7} read_i64 i64 (read_signed-Takes 8 h)
read_value-Takes (suc f) GgufValueType.f32 h k =
    one_at_least {j = 3} read_f32 f32 (read_unsigned-Takes 4 h)
read_value-Takes (suc f) GgufValueType.f64 h k =
    one_at_least {j = 7} read_f64 f64 (read_unsigned-Takes 8 h)
read_value-Takes (suc f) GgufValueType.bool h k = one_at_least read_bool bool (read_bool-Takes h)
read_value-Takes (suc f) GgufValueType.string h k =
    one_at_least {j = 7} read_string string (read_string-Takes h)
read_value-Takes (suc f) GgufValueType.array {r} h k =
    Ensures-bind (read_unsigned-Takes 4 h) λ (raw, s) ms.
      Ensures-bind
        (Takes-lift (value_try_from_u32 raw) (Moved-IsIn h ms) (value_try_from_u32-Ensures raw))
        λ (ty, t) mt.
          let m = Moved-trans ms mt in
          Ensures-bind (read_unsigned-Takes 8 (Moved-IsIn h m)) λ (len, u) mu.
            let n = Moved-trans m mu in
            Ensures-map
              (Takes-map (read_values (read_value f ty) len) (λ vs. array ty vs)
                (read_values-Takes (read_value f ty) len
                  (λ w hw le eq.
                    read_value-Takes f ty hw (omega (arith, n.forward, ap length n.same)))
                  (Moved-IsIn h n)))
              (λ _ o. Moved-weaken (omega arith) (Moved-trans n o))

-- A value is read from any buffer without a panic, in at least one byte, and the nesting bound is
-- never met.
pub read-Takes : (ty : GgufValueType) {r : Reader} → IsIn r → Takes 1 (read ty) r
unfolding read
read-Takes ty {r} h =
    read_value-Takes (suc (remaining r)) ty h (omega (arith, remaining_lem h, h.within))
