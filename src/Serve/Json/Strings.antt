-- ===== src/Serve/Json/Strings.antt =====
-- An escaped text read back: src/serve/json.rs.
use reinstinct.Base.{
  ℕ, zero, suc, ◌+◌, ◌*◌, ◌/◌, ◌%◌, ◌≤◌, ◌<◌, ◌≡◌, refl, ap, ◌∙◌, arith, true, false, Bool-cases,
  inl, inr, some, List, [], ◌∷◌, ◌++◌, append-nil, append_assoc, length, length-append, ltb, ltb→lt,
  ◌==◌, ok,
}
use reinstinct.Base.Utf8.{is_utf8, encode_utf8, char_or_replacement}
use reinstinct.Serve.Json.{hex_digit, escape, escape_all, write_escaped}
use reinstinct.Serve.Json.Parse.{
  hex_value, push_digit, from_hex, unicode_escape, read_escape, read_chars, string,
}

hex_value-hex_digit : (n : ℕ) → n < 16 → hex_value (hex_digit n) ≡ some n
unfolding hex_value hex_digit
hex_value-hex_digit n h = ground arith

push_digit-hex_digit : (n d : ℕ) → d < 16 → push_digit (some n) (hex_digit d) ≡ some (n * 16 + d)
unfolding push_digit
push_digit-hex_digit n d h = ground (arith, hex_value-hex_digit d h)

zeros : push_digit (push_digit (some 0) b'0') b'0' ≡ some 0
unfolding push_digit hex_value
zeros = refl

from_hex-hex_digit :
    (a b : ℕ) → a < 2 → b < 16 → from_hex b'0' b'0' (hex_digit a) (hex_digit b) ≡ some (a * 16 + b)
unfolding from_hex
from_hex-hex_digit a b ha hb = rw zeros (
    rw (push_digit-hex_digit 0 a (omega arith))
      (push_digit-hex_digit (0 * 16 + a) b hb ∙ ap some (omega arith)))

-- A control character written as `\u00..` is read back.
unicode_escape-control :
    (c : ℕ) (rest : List ℕ)
    → c < 32
    → unicode_escape (b'0' ∷ b'0' ∷ hex_digit (c / 16) ∷ hex_digit (c % 16) ∷ rest)
      ≡ ok (c ∷ [], rest)
unfolding unicode_escape encode_utf8 char_or_replacement
unicode_escape-control c rest h =
    let whole : c / 16 * 16 + c % 16 ≡ c = omega arith in
    rw (unicode_escape, from_hex-hex_digit (c / 16) (c % 16) (omega arith) (omega arith), whole)
      (ground arith)

-- A character is copied, or becomes an escape that is read back.
data Escaped (c : ℕ) : Type 0 where
  plain : (c == b'"') ≡ false → (c == b'\\') ≡ false → escape c ≡ c ∷ [] → Escaped c
  coded :
      (code : List ℕ)
      → escape c ≡ b'\\' ∷ code
      → ((rest : List ℕ) → read_escape (code ++ rest) ≡ ok (c ∷ [], rest))
      → Escaped c

escape-Escaped : (c : ℕ) → Escaped c
unfolding escape read_escape
escape-Escaped c = elim (Bool-cases (c == b'"')) [
  | inl a ↦ coded (b'"' ∷ []) (rw a) (λ rest. ground arith)
  | inr a ↦ elim (Bool-cases (c == b'\\')) [
    | inl b ↦ coded (b'\\' ∷ []) (rw (a, b)) (λ rest. ground arith)
    | inr b ↦ elim (Bool-cases (c == 10)) [
      | inl d ↦ coded (b'n' ∷ []) (rw (a, b, d)) (λ rest. ground arith)
      | inr d ↦ elim (Bool-cases (c == 13)) [
        | inl e ↦ coded (b'r' ∷ []) (rw (a, b, d, e)) (λ rest. ground arith)
        | inr e ↦ elim (Bool-cases (c == 9)) [
          | inl f ↦ coded (b't' ∷ []) (rw (a, b, d, e, f)) (λ rest. ground arith)
          | inr f ↦ elim (Bool-cases (ltb c 0x20)) [
            | inl g ↦
                coded (b'u' ∷ b'0' ∷ b'0' ∷ hex_digit (c / 16) ∷ hex_digit (c % 16) ∷ [])
                  (rw (a, b, d, e, f, g)) (λ rest. unicode_escape-control c rest (ltb→lt c 32 g))
            | inr g ↦ plain a b (rw (a, b, d, e, f, g))
          ]
        ]
      ]
    ]
  ]
]

read_chars-escape :
    (c f : ℕ) (rest out : List ℕ)
    → read_chars (suc f) (escape c ++ rest) out ≡ read_chars f rest (out ++ (c ∷ []))
unfolding read_chars
read_chars-escape c f rest out = elim (escape-Escaped c) [
  | plain a b e ↦ rw e (rw (a, b) refl)
  | coded code e h ↦ rw e (rw (h rest) refl)
]

-- With fuel for each character, the loop reads a text and its closing quote.
read_chars-escape_all :
    (s : List ℕ) (f : ℕ) (rest out : List ℕ)
    → length s < f
    → is_utf8 (out ++ s) ≡ true
    → read_chars f (escape_all s ++ (b'"' ∷ rest)) out ≡ ok (out ++ s, rest)
unfolding escape_all read_chars
read_chars-escape_all s zero rest out h u = absurd (omega arith)
read_chars-escape_all [] (suc f) rest out h u =
    let valid : is_utf8 out ≡ true = rw append-nil at u in rw (append-nil, valid)
read_chars-escape_all (c ∷ s) (suc f) rest out h u =
    rw (append_assoc (escape c) (escape_all s) (b'"' ∷ rest)) (
      read_chars-escape c f (escape_all s ++ (b'"' ∷ rest)) out
      ∙ read_chars-escape_all s f rest (out ++ (c ∷ [])) (omega arith)
          (rw (append_assoc out (c ∷ []) s) u)
      ∙ ap (λ t. ok (t, rest)) (append_assoc out (c ∷ []) s))

escape-some : (c : ℕ) → 0 < length (escape c)
unfolding escape
escape-some c = ground arith

length-escape_all : (s : List ℕ) → length s ≤ length (escape_all s)
unfolding escape_all
length-escape_all [] = omega arith
length-escape_all (c ∷ s) =
    omega (arith, length-append (escape c) (escape_all s), escape-some c, length-escape_all s)

-- A written text is read back, with what follows it left.
pub string-write_escaped :
    (s rest : List ℕ) → is_utf8 s ≡ true → string (write_escaped s ++ rest) ≡ ok (s, rest)
unfolding string write_escaped
string-write_escaped s rest u =
    let shape : (escape_all s ++ (b'"' ∷ [])) ++ rest ≡ escape_all s ++ (b'"' ∷ rest) =
      append_assoc (escape_all s) (b'"' ∷ []) rest in
    rw shape (
      read_chars-escape_all s (length (escape_all s ++ (b'"' ∷ rest))) rest []
        (omega (arith, length-escape_all s, length-append (escape_all s) (b'"' ∷ rest))) u)
