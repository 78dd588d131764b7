-- ===== src/Serve/Json/Deep.antt =====
-- The nesting guard: src/serve/json.rs.
use reinstinct.Base.{
  ℕ, zero, suc, ◌+◌, ◌≤◌, ◌<◌, ◌≡◌, refl, arith, Bool-cases, inl, inr, true, List, ◌∷◌, ltb, ltb→lt,
  ltb→le, err,
}
use reinstinct.Serve.Json.{Numbers}
use reinstinct.Serve.Json.Scalars.{at}
use reinstinct.Serve.Json.Nested.{value-array, array-filled}
use reinstinct.Serve.Json.Parse.{max_depth, skip_ws, Reader, items, array, value, parse, too_deep}

-- `n` opening brackets in front of a text.
unfoldable pub brackets : ℕ → List ℕ → List ℕ
brackets zero rest = rest
brackets (suc n) rest = b'[' ∷ brackets n rest

module _ (nm : Numbers) where
  open nm use {F}

  array-too_deep :
      (read : Reader nm) (d : ℕ) (t : List ℕ)
      → max_depth ≤ d
      → array nm read (at t d) ≡ err too_deep
  unfolding array
  array-too_deep read d t deep = let over : ltb max_depth (d + 1) ≡ true = ground arith in rw over

  array-inner :
      (read : Reader nm) (d : ℕ) (t : List ℕ)
      → d < max_depth
      → read (at (b'[' ∷ t) (d + 1)) ≡ err too_deep
      → array nm read (at (b'[' ∷ b'[' ∷ t) d) ≡ err too_deep
  unfolding items skip_ws
  array-inner read d t room h = rw (array-filled nm read d (b'[' ∷ t) room refl refl, h)

  value-too_deep :
      (f d n : ℕ) (rest : List ℕ)
      → max_depth < f + d
      → d ≤ max_depth
      → max_depth < d + n
      → value nm f (at (brackets n rest) d) ≡ err too_deep
  unfolding brackets
  value-too_deep f d zero rest hf hd h = absurd (omega arith)
  value-too_deep zero d n rest hf hd h = absurd (omega arith)
  value-too_deep (suc f) d (suc zero) rest hf hd h =
      rw (value-array nm f d (brackets 0 rest)) (array-too_deep (value nm f) d _ (omega arith))
  value-too_deep (suc f) d (suc (suc n)) rest hf hd h =
      rw (value-array nm f d (brackets (suc n) rest)) (elim (Bool-cases (ltb d max_depth)) [
        | inl room ↦ array-inner (value nm f) d (brackets n rest) (ltb→lt d max_depth room) (
            value-too_deep f (d + 1) (suc n) rest (omega arith)
              (omega (arith, ltb→lt d max_depth room)) (omega arith))
        | inr full ↦ array-too_deep (value nm f) d _ (ltb→le d max_depth full)
      ])

  -- A text that starts with more than 256 opening brackets is refused for its nesting, whatever
  -- follows them.
  pub parse-too_deep :
      (n : ℕ) (rest : List ℕ) → max_depth < n → parse nm (brackets n rest) ≡ err too_deep
  unfolding parse brackets skip_ws
  parse-too_deep zero rest h = absurd (omega arith)
  parse-too_deep (suc n) rest h =
      rw (value-too_deep (max_depth + 2) 0 (suc n) rest (omega arith) (omega arith) (omega arith))
