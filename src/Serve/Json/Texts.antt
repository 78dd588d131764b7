-- ===== src/Serve/Json/Texts.antt =====
-- The printed text of arrays and objects, with what stands behind it: src/serve/json.rs.
use reinstinct.Base.{
  ℕ, suc, ◌+◌, ◌<◌, ◌≡◌, refl, ap, ◌∙◌, arith, List, [], ◌∷◌, ◌++◌, append_assoc, length,
  length-append,
}
use reinstinct.Serve.Json.{
  Numbers, Json, Items, Fields, arr, obj, nil, cons, done, field, write, write_items, write_fields,
  write_escaped,
}

module _ (nm : Numbers) where
  open nm use {F}

  -- The printer's equations, with the text behind.
  pub write-cons :
      (v : Json F) (vs : Items F) (rest : List ℕ)
      → write nm (arr (cons v vs)) ++ rest ≡ b'[' ∷ (write nm v ++ (write_items nm vs ++ rest))
  unfolding write
  write-cons v vs rest = ap (λ t. b'[' ∷ t) (append_assoc (write nm v) (write_items nm vs) rest)

  pub write_items-cons :
      (v : Json F) (vs : Items F) (rest : List ℕ)
      → write_items nm (cons v vs) ++ rest ≡ b',' ∷ (write nm v ++ (write_items nm vs ++ rest))
  unfolding write_items
  write_items-cons v vs rest =
      ap (λ t. b',' ∷ t) (append_assoc (write nm v) (write_items nm vs) rest)

  abbrev pub entry : List ℕ → Json F → Fields F → List ℕ → List ℕ
  entry k v kv rest = write_escaped k ++ (b':' ∷ (write nm v ++ (write_fields nm kv ++ rest)))

  pub append-entry :
      (k : List ℕ) (v : Json F) (kv : Fields F) (rest : List ℕ)
      → (write_escaped k ++ (b':' ∷ (write nm v ++ write_fields nm kv))) ++ rest ≡ entry k v kv rest
  append-entry k v kv rest =
      append_assoc (write_escaped k) (b':' ∷ (write nm v ++ write_fields nm kv)) rest
      ∙ ap (λ t. write_escaped k ++ (b':' ∷ t))
          (append_assoc (write nm v) (write_fields nm kv) rest)

  pub write-field :
      (k : List ℕ) (v : Json F) (kv : Fields F) (rest : List ℕ)
      → write nm (obj (field k v kv)) ++ rest ≡ b'{' ∷ entry k v kv rest
  unfolding write
  write-field k v kv rest = ap (λ t. b'{' ∷ t) (append-entry k v kv rest)

  pub write_fields-field :
      (k : List ℕ) (v : Json F) (kv : Fields F) (rest : List ℕ)
      → write_fields nm (field k v kv) ++ rest ≡ b',' ∷ entry k v kv rest
  unfolding write_fields
  write_fields-field k v kv rest = ap (λ t. b',' ∷ t) (append-entry k v kv rest)

  unfoldable pub count : Items F → ℕ
  count nil = 0
  count (cons v vs) = suc (count vs)

  unfoldable pub count_fields : Fields F → ℕ
  count_fields done = 0
  count_fields (field k v kv) = suc (count_fields kv)

  pub write_items-nil : write_items nm nil ≡ b']' ∷ []
  unfolding write_items
  write_items-nil = refl

  pub write_fields-done : write_fields nm done ≡ b'}' ∷ []
  unfolding write_fields
  write_fields-done = refl

  pub write_items-length :
      (v : Json F) (vs : Items F)
      → length (write_items nm (cons v vs)) ≡ suc (length (write nm v) + length (write_items nm vs))
  unfolding write_items
  write_items-length v vs = ap suc (length-append (write nm v) (write_items nm vs))

  pub write_fields-length :
      (k : List ℕ) (v : Json F) (kv : Fields F)
      → length (write_fields nm (field k v kv))
        ≡ suc (length (write_escaped k) + suc (length (write nm v) + length (write_fields nm kv)))
  unfolding write_fields
  write_fields-length k v kv = ap suc (
      length-append (write_escaped k) (b':' ∷ (write nm v ++ write_fields nm kv))
      ∙ ap (λ n. length (write_escaped k) + suc n)
          (length-append (write nm v) (write_fields nm kv)))

  -- The text has a byte for every element.
  pub count-write_items : (vs : Items F) → count vs < length (write_items nm vs)
  unfolding count
  count-write_items nil = omega (arith, ap length write_items-nil)
  count-write_items (cons v vs) = omega (arith, write_items-length v vs, count-write_items vs)

  pub count-length :
      (v : Json F) (vs : Items F) (rest : List ℕ)
      → count vs < suc (length (write nm v ++ (write_items nm vs ++ rest)))
  count-length v vs rest = omega (
    arith,
    length-append (write nm v) (write_items nm vs ++ rest),
    length-append (write_items nm vs) rest,
    count-write_items vs,
  )

  pub count-write_fields : (kv : Fields F) → count_fields kv < length (write_fields nm kv)
  unfolding count_fields
  count-write_fields done = omega (arith, ap length write_fields-done)
  count-write_fields (field k v kv) =
      omega (arith, write_fields-length k v kv, count-write_fields kv)

  pub count-length_fields :
      (k : List ℕ) (v : Json F) (kv : Fields F) (rest : List ℕ)
      → count_fields kv < suc (length (entry k v kv rest))
  count-length_fields k v kv rest =
      let text = b':' ∷ (write nm v ++ (write_fields nm kv ++ rest)) in
      omega (
        arith,
        length-append (write_escaped k) text,
        length-append (write nm v) (write_fields nm kv ++ rest),
        length-append (write_fields nm kv) rest,
        count-write_fields kv,
      )
