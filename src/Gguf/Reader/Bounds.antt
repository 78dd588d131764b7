-- ===== src/Gguf/Reader/Bounds.antt =====
-- Where the methods of the cursor leave it: src/gguf/reader.rs.
use reinstinct.Base.{
  ℕ, ◌+◌, ◌-◌, ◌≤◌, ◌<◌, ◌^◌, ◌≡◌, refl, ap, ◌∙◌, arith, Bool-cases, inl, inr, length, ltb, ltb→le,
  Outcome, ok, Ensures, holds, rejected, Ensures-bind, Ensures-map,
}
use reinstinct.Base.Utf8.{is_utf8}
use reinstinct.Gguf.Error.{GgufError}
use reinstinct.Gguf.Reader.{
  Reader, Parse, pure, lift, ◌>>=◌, remaining, need, skip, slice, read_array, read_unsigned,
  read_signed, read_bool, read_utf8, read_string, read_u64,
}

-- A buffer fits the address space, and the cursor lies in it or at its end.
pub record IsIn (r : Reader) : Type 0 where
  pub within : r.position ≤ length r.buf
  pub addressable : length r.buf < 2 ^ 64

-- The same buffer, with the cursor at least `k` bytes on.
pub record Moved (k : ℕ) (r r' : Reader) : Type 0 where
  pub same : r'.buf ≡ r.buf
  pub forward : r.position + k ≤ r'.position
  pub inside : r'.position ≤ length r.buf

abbrev pub Takes {ℓ} : {A : Type ℓ} → ℕ → Parse A → Reader → Type ℓ
Takes k p r = Ensures (λ (a, r'). Moved k r r') (p r)

pub remaining_lem : {r : Reader} → IsIn r → remaining r ≡ length r.buf - r.position
unfolding remaining
remaining_lem h = omega arith

pub Moved-IsIn : {k : ℕ} {r r' : Reader} → IsIn r → Moved k r r' → IsIn r'
Moved-IsIn h m = record {
  within = omega (arith, ap length m.same);
  addressable = omega (arith, ap length m.same);
}

pub Moved-trans : {j k : ℕ} {r s t : Reader} → Moved j r s → Moved k s t → Moved (j + k) r t
Moved-trans m n = record {
  same = n.same ∙ m.same;
  forward = omega arith;
  inside = omega (arith, ap length m.same);
}

pub Moved-weaken : {j k : ℕ} {r s : Reader} → k ≤ j → Moved j r s → Moved k r s
Moved-weaken h m = record { same = m.same; forward = omega arith; inside = m.inside }

pub Moved-refl : {r : Reader} → IsIn r → Moved 0 r r
Moved-refl h = record { same = refl; forward = omega arith; inside = h.within }

module _ {ℓ} {A : Type ℓ} where
  pub Takes-weaken : {j k : ℕ} (p : Parse A) {r : Reader} → k ≤ j → Takes j p r → Takes k p r
  Takes-weaken p h t = Ensures-map t (λ _ m. Moved-weaken h m)

  pub Takes-pure : (a : A) {r : Reader} → IsIn r → Takes 0 (pure a) r
  Takes-pure a h = holds (Moved-refl h)

  pub Takes-bind {κ} :
      {B : Type κ} {j k : ℕ} (p : Parse A) (f : A → Parse B) {r : Reader}
      → IsIn r
      → Takes j p r
      → ((a : A) (r' : Reader) → IsIn r' → Moved j r r' → Takes k (f a) r')
      → Takes (j + k) (p >>= f) r
  Takes-bind p f h t rest =
      Ensures-bind t
        (λ (a, r') m. Ensures-map (rest a r' (Moved-IsIn h m) m) (λ _ n. Moved-trans m n))

pub Takes-lift {ℓ} :
    {A : Type ℓ} {P : A → Type 0} (m : Outcome GgufError A) {r : Reader}
    → IsIn r
    → Ensures P m
    → Takes 0 (lift m) r
Takes-lift m h e = Ensures-bind e (λ _ _. holds (Moved-refl h))

pub Takes-map {ℓ κ} :
    {A : Type ℓ} {B : Type κ} {k : ℕ} (p : Parse A) (g : A → B) {r : Reader}
    → Takes k p r
    → Takes k (p >>= λ a. pure (g a)) r
Takes-map p g t = Ensures-bind t (λ _ m. holds m)

-- Taking `n` bytes after a check that they are there.
pub need-Takes {ℓ} :
    {A : Type ℓ} (n : ℕ) (g : Reader → A) {r : Reader}
    → IsIn r
    → Takes n (need n >>= λ _ s. ok (g s, record s { position = s.position + n })) r
unfolding need
need-Takes n g {r} h = elim (Bool-cases (ltb (remaining r) n)) [
  | inl short ↦ rw short rejected
  | inr fits ↦ rw fits (
      holds (record {
        same = refl;
        forward = omega arith;
        inside = omega (arith, ltb→le (remaining r) n fits, remaining_lem h);
      }))
]

pub skip-Takes : (n : ℕ) {r : Reader} → IsIn r → Takes n (skip n) r
unfolding skip
skip-Takes n h = need-Takes n (λ _. tt) h

pub read_array-Takes : (n : ℕ) {r : Reader} → IsIn r → Takes n (read_array n) r
unfolding read_array
read_array-Takes n h = need-Takes n (slice n) h

module _ (n : ℕ) {r : Reader} (h : IsIn r) where
  pub read_unsigned-Takes : Takes n (read_unsigned n) r
  unfolding read_unsigned
  read_unsigned-Takes = Ensures-bind (read_array-Takes n h) (λ _ m. holds m)

  pub read_signed-Takes : Takes n (read_signed n) r
  unfolding read_signed
  read_signed-Takes = Ensures-bind read_unsigned-Takes (λ _ m. holds m)

pub read_bool-Takes : {r : Reader} → IsIn r → Takes 1 read_bool r
unfolding read_bool
read_bool-Takes h = Ensures-bind (read_unsigned-Takes 1 h) (λ _ m. holds m)

read_utf8-Takes : (offset n : ℕ) {r : Reader} → IsIn r → Takes n (read_utf8 offset n) r
unfolding read_utf8 need
read_utf8-Takes offset n {r} h = elim (Bool-cases (ltb (remaining r) n)) [
  | inl short ↦ rw short rejected
  | inr fits ↦ rw fits (elim (Bool-cases (is_utf8 (slice n r))) [
    | inl valid ↦ rw valid (
        holds (record {
          same = refl;
          forward = omega arith;
          inside = omega (arith, ltb→le (remaining r) n fits, remaining_lem h);
        }))
    | inr invalid ↦ rw invalid rejected
  ])
]

pub read_string-Takes : {r : Reader} → IsIn r → Takes 8 read_string r
unfolding read_string
read_string-Takes {r} h =
    Takes-bind read_u64 (read_utf8 r.position) h (read_unsigned-Takes 8 h) (λ n s k _.
      Takes-weaken {j = n} {k = 0} (read_utf8 r.position n) (omega arith)
        (read_utf8-Takes r.position n k))
