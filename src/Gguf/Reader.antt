-- ===== src/Gguf/Reader.antt =====
-- The bounds-checked cursor of src/gguf/reader.rs. A byte is a number, a usize is 64 bits.
pub mod Words
pub mod Bounds
pub mod RoundTrip
use reinstinct.Base.{
  ℕ, zero, suc, ◌+◌, ◌-◌, ◌*◌, ◌/◌, ◌%◌, ◌^◌, Bool, not, List, [], ◌∷◌, ltb, ◌==◌, if◌then◌else◌,
  length, take, drop, Outcome, ok, err,
}
use reinstinct.Base
use reinstinct.Base.Int.{ℤ, pos, negsuc}
use reinstinct.Base.Utf8.{is_utf8}
use reinstinct.Gguf.Error.{GgufError, truncated, bad_utf8}

-- The field `pos` of the source, which `position()` returns, is `position` here.
pub record Reader : Type 0 where
  pub buf : List ℕ
  pub position : ℕ

-- A method of `&mut Reader` that returns a `Result`.
abbrev pub Parse {ℓ} : Type ℓ → Type ℓ
Parse A = Reader → Outcome GgufError (A × Reader)

abbrev pub pure {ℓ} : {A : Type ℓ} → A → Parse A
pure a r = ok (a, r)

infixl 5 ◌>>=◌ ◌>>◌
abbrev pub ◌>>=◌ {ℓ κ} : {A : Type ℓ} {B : Type κ} → Parse A → (A → Parse B) → Parse B
◌>>=◌ p f r = Base.◌>>=◌ (p r) (λ (a, r'). f a r')

abbrev pub ◌>>◌ {ℓ} : {B : Type ℓ} → Parse (Unit {0}) → Parse B → Parse B
p >> q = p >>= λ _. q

-- A computation that does not move the cursor.
abbrev pub lift {ℓ} : {A : Type ℓ} → Outcome GgufError A → Parse A
lift m r = Base.◌>>=◌ m (λ a. ok (a, r))

unfoldable pub new : List ℕ → Reader
new buf = record { buf = buf; position = 0 }

-- `self.buf.len() - self.pos` on a 64-bit usize.
unfoldable pub remaining : Reader → ℕ
remaining r = (length r.buf + 2 ^ 64 - r.position) % 2 ^ 64

unfoldable pub seek : ℕ → Reader → Reader
seek p r = record r { position = p }

unfoldable pub need : ℕ → Parse (Unit {0})
need n r = if ltb (remaining r) n then err (truncated r.position n (remaining r)) else ok (tt, r)

unfoldable pub skip : ℕ → Parse (Unit {0})
skip n = do need n; λ r. ok (tt, record r { position = r.position + n })

-- `&self.buf[self.pos..self.pos + n]`
unfoldable pub slice : ℕ → Reader → List ℕ
slice n r = take n (drop r.position r.buf)

unfoldable pub read_array : ℕ → Parse (List ℕ)
read_array n = do need n; λ r. ok (slice n r, record r { position = r.position + n })

-- `from_le_bytes` of an unsigned type.
unfoldable pub from_le_bytes : List ℕ → ℕ
from_le_bytes [] = 0
from_le_bytes (b ∷ bs) = b + 256 * from_le_bytes bs

-- The signed integer of `w` bits with a given bit pattern.
unfoldable pub signed : ℕ → ℕ → ℤ
signed w v = if ltb v (2 ^ (w - 1)) then pos v else negsuc (2 ^ w - 1 - v)

unfoldable pub read_unsigned : ℕ → Parse ℕ
read_unsigned n = do bs ← read_array n; pure (from_le_bytes bs)

unfoldable pub read_signed : ℕ → Parse ℤ
read_signed n = do v ← read_unsigned n; pure (signed (8 * n) v)

abbrev pub read_u8 : Parse ℕ
read_u8 = read_unsigned 1

abbrev pub read_i8 : Parse ℤ
read_i8 = read_signed 1

abbrev pub read_u16 : Parse ℕ
read_u16 = read_unsigned 2

abbrev pub read_i16 : Parse ℤ
read_i16 = read_signed 2

abbrev pub read_u32 : Parse ℕ
read_u32 = read_unsigned 4

abbrev pub read_i32 : Parse ℤ
read_i32 = read_signed 4

abbrev pub read_u64 : Parse ℕ
read_u64 = read_unsigned 8

abbrev pub read_i64 : Parse ℤ
read_i64 = read_signed 8

-- A float is its bit pattern.
abbrev pub read_f32 : Parse ℕ
read_f32 = read_unsigned 4

abbrev pub read_f64 : Parse ℕ
read_f64 = read_unsigned 8

unfoldable pub read_bool : Parse Bool
read_bool = do b ← read_u8; pure (not (b == 0))

-- The text of `len` bytes at the cursor; an error names the offset of the length field.
unfoldable pub read_utf8 : ℕ → ℕ → Parse (List ℕ)
read_utf8 offset len = do
  need len
  s ← λ r. ok (slice len r, r)
  if is_utf8 s then pure tt else λ _. err (bad_utf8 offset)
  λ r. ok (s, record r { position = r.position + len })

unfoldable pub read_string : Parse (List ℕ)
read_string r = (do len ← read_u64; read_utf8 r.position len) r
