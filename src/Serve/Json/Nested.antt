-- ===== src/Serve/Json/Nested.antt =====
-- One round of the loops over printed arrays and objects: src/serve/json.rs.
use reinstinct.Base.{
  ℕ, suc, ◌+◌, ◌-◌, ◌<◌, ◌≡◌, refl, ap, ◌∙◌, arith, true, false, List, ◌∷◌, ◌++◌, length, ltb, ok,
  ◌>>=◌,
}
use reinstinct.Base.Utf8.{is_utf8}
use reinstinct.Serve.Json.{Numbers, Json, arr, obj, nil, cons, done, field, write, write_escaped}
use reinstinct.Serve.Json.Strings.{string-write_escaped}
use reinstinct.Serve.Json.Parse.{
  max_depth, skip_ws, head_is, Reader, items, array, fields, object, value_at, value,
}
use reinstinct.Serve.Json.Scalars.{at, Reads}

module _ (nm : Numbers) where
  open nm use {F}

  -- Behind an element, a text that starts with a comma or a closing bracket.
  pub items-more :
      (value : Reader nm) (g d : ℕ) (t r : List ℕ) (v : Json F)
      → value (at t d) ≡ ok (v, at (b',' ∷ r) d)
      → items nm value (suc g) (at t d)
        ≡ (items nm value g (at r d) >>= λ (vs, q). ok (cons v vs, q))
  unfolding items skip_ws
  items-more value g d t r v h = rw h

  pub items-last :
      (value : Reader nm) (g d : ℕ) (t r : List ℕ) (v : Json F)
      → value (at t d) ≡ ok (v, at (b']' ∷ r) d)
      → items nm value (suc g) (at t d) ≡ ok (cons v nil, at r (d - 1))
  unfolding items skip_ws
  items-last value g d t r v h = rw h

  pub fields-more :
      (value : Reader nm) (g d : ℕ) (k t r : List ℕ) (v : Json F)
      → is_utf8 k ≡ true
      → value (at t d) ≡ ok (v, at (b',' ∷ r) d)
      → fields nm value (suc g) (at (write_escaped k ++ (b':' ∷ t)) d)
        ≡ (fields nm value g (at r d) >>= λ (kv, q). ok (field k v kv, q))
  unfolding fields skip_ws write_escaped
  fields-more value g d k t r v u h = rw (string-write_escaped k (b':' ∷ t) u, h)

  pub fields-last :
      (value : Reader nm) (g d : ℕ) (k t r : List ℕ) (v : Json F)
      → is_utf8 k ≡ true
      → value (at t d) ≡ ok (v, at (b'}' ∷ r) d)
      → fields nm value (suc g) (at (write_escaped k ++ (b':' ∷ t)) d)
        ≡ ok (field k v done, at r (d - 1))
  unfolding fields skip_ws write_escaped
  fields-last value g d k t r v u h = rw (string-write_escaped k (b':' ∷ t) u, h)

  pub array-filled :
      (value : Reader nm) (d : ℕ) (t : List ℕ)
      → d < 256
      → skip_ws t ≡ t
      → head_is b']' t ≡ false
      → array nm value (at (b'[' ∷ t) d)
        ≡ (items nm value (suc (length t)) (at t (d + 1)) >>= λ (vs, q). ok (arr vs, q))
  unfolding array
  array-filled value d t deep ws other =
      let fits : ltb max_depth (d + 1) ≡ false = ground arith in rw (ws, fits, other)

  pub object-filled :
      (value : Reader nm) (d : ℕ) (k t : List ℕ)
      → d < 256
      → object nm value (at (b'{' ∷ (write_escaped k ++ t)) d) ≡ (
          fields nm value (suc (length (write_escaped k ++ t))) (at (write_escaped k ++ t) (d + 1))
          >>= λ (kv, q). ok (obj kv, q))
  unfolding object skip_ws write_escaped
  object-filled value d k t deep =
      let fits : ltb max_depth (d + 1) ≡ false = ground arith in rw fits

  pub array-empty :
      (value : Reader nm) (d : ℕ) (t : List ℕ)
      → d < 256
      → array nm value (at (b'[' ∷ (b']' ∷ t)) d) ≡ ok (arr nil, at t d)
  unfolding array skip_ws
  array-empty value d t deep =
      let fits : ltb max_depth (d + 1) ≡ false = ground arith in
      rw fits (ap (λ n. ok (arr nil, at t n)) (omega arith))

  pub object-empty :
      (value : Reader nm) (d : ℕ) (t : List ℕ)
      → d < 256
      → object nm value (at (b'{' ∷ (b'}' ∷ t)) d) ≡ ok (obj done, at t d)
  unfolding object skip_ws
  object-empty value d t deep =
      let fits : ltb max_depth (d + 1) ≡ false = ground arith in
      rw fits (ap (λ n. ok (obj done, at t n)) (omega arith))

  pub value-array :
      (f d : ℕ) (t : List ℕ)
      → value nm (suc f) (at (b'[' ∷ t) d) ≡ array nm (value nm f) (at (b'[' ∷ t) d)
  unfolding value value_at skip_ws
  value-array f d t = refl

  pub value-object :
      (f d : ℕ) (t : List ℕ)
      → value nm (suc f) (at (b'{' ∷ t) d) ≡ object nm (value nm f) (at (b'{' ∷ t) d)
  unfolding value value_at skip_ws
  value-object f d t = refl

  pub nil-Reads : (f d : ℕ) → d < 256 → Reads nm (suc f) d (arr nil)
  unfolding write
  nil-Reads f d deep rest e = value-array f d (b']' ∷ rest) ∙ array-empty (value nm f) d rest deep

  pub done-Reads : (f d : ℕ) → d < 256 → Reads nm (suc f) d (obj done)
  unfolding write
  done-Reads f d deep rest e =
      value-object f d (b'}' ∷ rest) ∙ object-empty (value nm f) d rest deep
