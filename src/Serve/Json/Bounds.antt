-- ===== src/Serve/Json/Bounds.antt =====
-- What the scanners of src/serve/json.rs leave of a text: never more than there was.
use reinstinct.Base.{
  ℕ, zero, suc, ◌+◌, ◌≤◌, ◌<◌, ◌≡◌, refl, sym, ◌∙◌, arith, true, ◌||◌, Option, some, none, List, [],
  ◌∷◌, ◌++◌, Bool-cases, inl, inr, length, drop, ◌==◌, ok, err, Ensures, holds, rejected,
  Ensures-bind, Ensures-map, Ensures-if,
}
use reinstinct.Base.Utf8.{is_utf8, encode_utf8, char_or_replacement}
use reinstinct.Serve.Json.Parse.{
  JsonError, skip_ws, head_is, number_text, strip, lit, from_hex, unicode_escape, read_escape,
  read_chars, string,
}

pub length-skip_ws : (s : List ℕ) → length (skip_ws s) ≤ length s
unfolding skip_ws
length-skip_ws [] = ground arith
length-skip_ws (c ∷ cs) = ground (arith, length-skip_ws cs)

pub length-number_text : (s : List ℕ) → length (number_text s).1 ≤ length s
unfolding number_text
length-number_text [] = ground arith
length-number_text (c ∷ cs) = ground (arith, length-number_text cs)

length-strip : (s t r : List ℕ) → strip s t ≡ some r → length r + length s ≡ length t
unfolding strip
length-strip [] t r h = grind arith
length-strip (m ∷ ms) [] r h = cc
length-strip (m ∷ ms) (x ∷ xs) r h = elim (Bool-cases (x == m)) [
  | inl same ↦ omega (arith, length-strip ms xs r (sym (rw same) ∙ h))
  | inr other ↦ let no : none ≡ some r = sym (rw other) ∙ h in cc
]

pub Ensures-option {ℓ κ ι} :
    {A : Type ℓ} {B : Type κ} {Q : B → Type ι} (o : Option A) (why : JsonError) (f : A → B)
    → ((a : A) → o ≡ some a → Q (f a))
    → Ensures Q (elim o [ none ↦ err why | some a ↦ ok (f a) ])
Ensures-option none why f h = rejected
Ensures-option (some a) why f h = holds (h a refl)

pub lit-Ensures : (s t : List ℕ) → Ensures (λ r. length r + length s ≡ length t) (lit s t)
unfolding lit
lit-Ensures s t = Ensures-option (strip s t) _ (λ r. r) (length-strip s t)

pub length-head_is : (c : ℕ) (r : List ℕ) → head_is c r ≡ true → length (drop 1 r) < length r
length-head_is c [] h = cc
length-head_is c (x ∷ xs) h = omega arith

pub length-drop_one : (r : List ℕ) → 0 < length r → length (drop 1 r) < length r
length-drop_one [] h = absurd (omega arith)
length-drop_one (x ∷ xs) h = omega arith

unicode_escape-Ensures : (s : List ℕ) → Ensures (λ r. length r.1 ≤ length s) (unicode_escape s)
unfolding unicode_escape
unicode_escape-Ensures [] = rejected
unicode_escape-Ensures (a ∷ []) = rejected
unicode_escape-Ensures (a ∷ b ∷ []) = rejected
unicode_escape-Ensures (a ∷ b ∷ c ∷ []) = rejected
unicode_escape-Ensures (a ∷ b ∷ c ∷ d ∷ rest) =
    Ensures-option (from_hex a b c d) _ (λ cp. (encode_utf8 (char_or_replacement cp), rest))
      λ cp h. omega arith

read_escape-Ensures : (s : List ℕ) → Ensures (λ r. length r.1 ≤ length s) (read_escape s)
unfolding read_escape
read_escape-Ensures [] = rejected
read_escape-Ensures (e ∷ rest) =
    let one : length rest ≤ suc (length rest) = omega arith in
    Ensures-if (e == b'"' || e == b'\\' || e == b'/') (λ _. holds one)
      λ _.
        Ensures-if (e == b'n') (λ _. holds one)
          λ _.
            Ensures-if (e == b'r') (λ _. holds one)
              λ _.
                Ensures-if (e == b't') (λ _. holds one)
                  λ _.
                    Ensures-if (e == b'b') (λ _. holds one)
                      λ _.
                        Ensures-if (e == b'f') (λ _. holds one)
                          λ _.
                            Ensures-if (e == b'u')
                              (λ _. Ensures-map (unicode_escape-Ensures rest) λ r le. omega arith)
                              (λ _. rejected)

read_chars-Ensures :
    (f : ℕ) (s out : List ℕ)
    → length s ≤ f
    → Ensures (λ r. length r.1 < length s) (read_chars f s out)
unfolding read_chars
read_chars-Ensures f [] out h = rejected
read_chars-Ensures zero (c ∷ cs) out h = absurd (omega arith)
read_chars-Ensures (suc f) (c ∷ cs) out h =
    let one : length cs < suc (length cs) = omega arith in
    let fits : length cs ≤ f = omega arith in
    Ensures-if (c == b'"') (λ _. Ensures-if (is_utf8 out) (λ _. holds one) (λ _. rejected))
      λ _.
        Ensures-if (c == b'\\')
          (λ _. Ensures-bind (read_escape-Ensures cs) λ r le.
            Ensures-map (read_chars-Ensures f r.1 (out ++ r.0) (omega arith)) λ q lt. omega arith)
          (λ _. Ensures-map (read_chars-Ensures f cs (out ++ (c ∷ [])) fits) λ q lt. omega arith)

pub string-Ensures : (s : List ℕ) → 0 < length s → Ensures (λ r. length r.1 < length s) (string s)
unfolding string
string-Ensures [] h = absurd (omega arith)
string-Ensures (c ∷ cs) h =
    Ensures-map (read_chars-Ensures (length cs) cs [] (omega arith)) λ r lt. omega arith
