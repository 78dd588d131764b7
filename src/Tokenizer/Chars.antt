-- ===== src/Tokenizer/Chars.antt =====
-- Reading characters of one and of two bytes back from their UTF-8, for src/tokenizer.rs.
use reinstinct.Base.{
  ℕ, ◌+◌, ◌-◌, ◌*◌, ◌/◌, ◌%◌, ◌≤◌, ◌<◌, ◌≡◌, refl, ap, ◌∙◌, arith, Bool-cases, inl, inr, Option,
  some, none, List, [], ◌∷◌, ◌++◌, leb, leb→le,
}
use reinstinct.Base.Utf8.{encode_utf8, Pending, chars, chars_from, char_next, char_first}

abbrev idle : Pending
idle = record { value = 0; left = 0 }

encode_utf8-one : (c : ℕ) → c ≤ 0x7f → encode_utf8 c ≡ c ∷ []
unfolding encode_utf8
encode_utf8-one c h = ground arith

encode_utf8-two :
    (c : ℕ) → 0x7f < c → c < 0x800 → encode_utf8 c ≡ (0xc0 + c / 64) ∷ (0x80 + c % 64) ∷ []
unfolding encode_utf8
encode_utf8-two c h k = ground arith

char_first-one : (c : ℕ) → c ≤ 0x7f → char_first c ≡ (some c, idle)
unfolding char_first
char_first-one c h = ground arith

char_first-two :
    (a : ℕ) → 0x7f < a → a ≤ 0xdf → char_first a ≡ (none, record { value = a - 0xc0; left = 1 })
unfolding char_first
char_first-two a h k = ground arith

abbrev emit : Option ℕ × Pending → List ℕ → List ℕ
emit (c, p) bs = elim c [ none ↦ chars_from p bs | some v ↦ v ∷ chars_from p bs ]

chars_from-emit :
    (p : Pending) (b : ℕ) (bs : List ℕ) → chars_from p (b ∷ bs) ≡ emit (char_next p b) bs
unfolding chars_from
chars_from-emit p b bs = refl

chars_from-one :
    (c : ℕ) (rest : List ℕ) → c ≤ 0x7f → chars_from idle (c ∷ rest) ≡ c ∷ chars_from idle rest
unfolding char_next
chars_from-one c rest h = chars_from-emit idle c rest ∙ ap (λ q. emit q rest) (char_first-one c h)

chars_from-two :
    (a b : ℕ) (rest : List ℕ)
    → 0x7f < a
    → a ≤ 0xdf
    → chars_from idle (a ∷ b ∷ rest) ≡ ((a - 0xc0) * 64 + (b - 0x80)) ∷ chars_from idle rest
unfolding char_next
chars_from-two a b rest h k =
    chars_from-emit idle a (b ∷ rest)
    ∙ ap (λ q. emit q (b ∷ rest)) (char_first-two a h k)
    ∙ chars_from-emit (record { value = a - 0xc0; left = 1 }) b rest

-- The first character of a text, when it is of at most two bytes.
pub chars-encode_utf8 :
    (c : ℕ) (rest : List ℕ) → c < 0x800 → chars (encode_utf8 c ++ rest) ≡ c ∷ chars rest
unfolding chars
chars-encode_utf8 c rest h = elim (Bool-cases (leb c 0x7f)) [
  | inl small ↦
      rw (encode_utf8-one c (leb→le c 0x7f small)) (chars_from-one c rest (leb→le c 0x7f small))
  | inr large ↦
      let above : 0x7f < c = ground arith in
      let value : (0xc0 + c / 64 - 0xc0) * 64 + (0x80 + c % 64 - 0x80) ≡ c = omega arith in
      rw (encode_utf8-two c above h) (
        chars_from-two (0xc0 + c / 64) (0x80 + c % 64) rest (omega arith) (omega arith)
        ∙ ap (λ v. v ∷ chars_from idle rest) value)
]
