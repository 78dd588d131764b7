-- ===== src/Gguf/Reader/RoundTrip.antt =====
-- The cursor on bytes as a GGUF writer lays them out: src/gguf/reader.rs.
use reinstinct.Base.{
  ℕ, ◌+◌, ◌-◌, ◌*◌, ◌^◌, ◌≤◌, ◌<◌, ◌≡◌, refl, sym, ap, ◌∙◌, arith, Bool, true, false, not, List, [],
  ◌∷◌, ◌++◌, append_assoc, append-nil, length, length-append, take, drop, take-append, drop-append,
  ltb, le→ltb, Outcome, ok, err, if◌then◌else◌,
}
use reinstinct.Base
use reinstinct.Base.Utf8.{is_utf8}
use reinstinct.Gguf.Error.{GgufError}
use reinstinct.Gguf.Reader.{
  Reader, Parse, pure, lift, ◌>>=◌, remaining, need, slice, read_array, read_unsigned, read_signed,
  read_bool, read_utf8, read_string, read_u64, signed,
}
use reinstinct.Gguf.Reader.Words.{le_bytes, length-le_bytes, from_le_bytes-le_bytes}

pub length-append_bytes : (xs ys : List ℕ) → length (xs ++ ys) ≡ length xs + length ys
length-append_bytes = length-append

pub ruleset lengths = (arith, length-append_bytes)

-- The cursor behind `front`, with `rest` still to read.
unfoldable pub cursor : List ℕ → List ℕ → Reader
cursor front rest = record { buf = front ++ rest; position = length front }

-- `p` reads `bytes` as `a`, wherever they stand in a buffer that fits the address space.
abbrev pub Reads {ℓ} : {A : Type ℓ} → Parse A → List ℕ → A → Type ℓ
Reads p bytes a =
    (front rest : List ℕ)
    → length front + length bytes + length rest < 2 ^ 64
    → p (cursor front (bytes ++ rest)) ≡ ok (a, cursor (front ++ bytes) rest)

pub Reads-pure {ℓ} : {A : Type ℓ} (a : A) → Reads (pure a) [] a
Reads-pure a front rest h = rw append-nil refl

pub Reads-bind {ℓ κ} :
    {A : Type ℓ} {B : Type κ} (p : Parse A) (f : A → Parse B) (xs ys : List ℕ) {a : A} {b : B}
    → Reads p xs a
    → Reads (f a) ys b
    → Reads (p >>= f) (xs ++ ys) b
Reads-bind p f xs ys {a} {b} hp hf front rest h =
    rw (append_assoc xs ys rest, hp front (ys ++ rest) (omega lengths))
      (hf (front ++ xs) rest (omega lengths) ∙ rw (append_assoc front xs ys))

pub remaining-cursor :
    (front rest : List ℕ)
    → length front + length rest < 2 ^ 64
    → remaining (cursor front rest) ≡ length rest
unfolding remaining cursor
remaining-cursor front rest h = rw (length-append front rest) (omega arith)

slice-cursor : (front xs rest : List ℕ) → slice (length xs) (cursor front (xs ++ rest)) ≡ xs
unfolding slice cursor
slice-cursor front xs rest = rw (drop-append front (xs ++ rest)) (take-append xs rest)

-- Moving on over `xs`.
step-cursor :
    (front xs rest : List ℕ)
    → record (cursor front (xs ++ rest)) {
      position = (cursor front (xs ++ rest)).position + length xs;
    }
      ≡ cursor (front ++ xs) rest
unfolding cursor
step-cursor front xs rest = rw (append_assoc front xs rest, length-append front xs) refl

need-cursor :
    (n : ℕ) (front rest : List ℕ)
    → n ≤ length rest
    → length front + length rest < 2 ^ 64
    → need n (cursor front rest) ≡ ok (tt, cursor front rest)
unfolding need
need-cursor n front rest h k = rw (remaining-cursor front rest k, le→ltb (length rest) n h)

read_array-Reads : (xs : List ℕ) → Reads (read_array (length xs)) xs xs
unfolding read_array
read_array-Reads xs front rest h = rw (
  need-cursor (length xs) front (xs ++ rest) (omega lengths) (omega lengths),
  slice-cursor front xs rest,
  step-cursor front xs rest,
)

pub read_unsigned-Reads : (n v : ℕ) → v < 256 ^ n → Reads (read_unsigned n) (le_bytes n v) v
unfolding read_unsigned
read_unsigned-Reads n v hv front rest h = rw (
  rw (length-le_bytes n v) at (read_array-Reads (le_bytes n v) front rest h),
  from_le_bytes-le_bytes n v hv,
)

-- The bit pattern of a signed integer is read as that integer.
pub read_signed-Reads :
    (n v : ℕ) → v < 256 ^ n → Reads (read_signed n) (le_bytes n v) (signed (8 * n) v)
unfolding read_signed
read_signed-Reads n v hv front rest h = rw (read_unsigned-Reads n v hv front rest h)

abbrev pub bool_byte : Bool → ℕ
bool_byte b = if b then 1 else 0

pub read_bool-Reads : (b : Bool) → Reads read_bool (bool_byte b ∷ []) b
unfolding read_bool le_bytes
read_bool-Reads true front rest h = rw (read_unsigned-Reads 1 1 (omega arith) front rest h)
read_bool-Reads false front rest h = rw (read_unsigned-Reads 1 0 (omega arith) front rest h)

-- A text is its length in eight bytes, then its bytes.
unfoldable pub string_bytes : List ℕ → List ℕ
string_bytes s = le_bytes 8 (length s) ++ s

read_utf8-Reads :
    (offset : ℕ) (s : List ℕ) → is_utf8 s ≡ true → Reads (read_utf8 offset (length s)) s s
unfolding read_utf8
read_utf8-Reads offset s valid front rest h = rw (
  need-cursor (length s) front (s ++ rest) (omega lengths) (omega lengths),
  slice-cursor front s rest,
  valid,
  step-cursor front s rest,
)

pub read_string-Reads :
    (s : List ℕ) → is_utf8 s ≡ true → length s < 2 ^ 64 → Reads read_string (string_bytes s) s
unfolding read_string string_bytes
read_string-Reads s valid short front rest h =
    Reads-bind read_u64 (read_utf8 (cursor front ((le_bytes 8 (length s) ++ s) ++ rest)).position)
      (le_bytes 8 (length s)) s (read_unsigned-Reads 8 (length s) (omega arith))
      (read_utf8-Reads _ s valid) front rest h

pub Reads-lift {ℓ} : {A : Type ℓ} (m : Outcome GgufError A) {a : A} → m ≡ ok a → Reads (lift m) [] a
Reads-lift m e front rest h = rw (e, append-nil)

pub Reads-map {ℓ κ} :
    {A : Type ℓ} {B : Type κ} (p : Parse A) (g : A → B) (xs : List ℕ) {a : A}
    → Reads p xs a
    → Reads (p >>= λ v. pure (g v)) xs (g a)
Reads-map p g xs h front rest k = rw (h front rest k)
