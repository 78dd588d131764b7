-- ===== src/Serve/Json/RoundTrip.antt =====
-- A printed JSON value read back: src/serve/json.rs.
use reinstinct.Base.{
  ℕ, zero, suc, ◌+◌, ◌≤◌, ◌<◌, ◌≡◌, refl, sym, ap, ◌∙◌, arith, true, List, [], ◌∷◌, ◌++◌,
  append-nil, length, ok,
}
use reinstinct.Base.Utf8.{is_utf8}
use reinstinct.Serve.Json.{
  Numbers, Json, Items, Fields, null, bool, num, str, arr, obj, nil, cons, done, field, write,
  write_items, to_string,
}
use reinstinct.Serve.Json.Parse.{max_depth, skip_ws, items, fields, value, parse}
use reinstinct.Serve.Json.Printable.{
  IsPrintable, ArePrintable, FieldsPrintable, Solid, write-Solid, skip_ws-Solid, head_is-Solid,
}
use reinstinct.Serve.Json.Depth.{depth, depth_items, depth_fields}
use reinstinct.Serve.Json.Texts.{
  write-cons, write_items-cons, entry, write-field, write_fields-field, write_items-nil,
  write_fields-done, count-length, count-length_fields, count, count_fields,
}
use reinstinct.Serve.Json.Scalars.{at, Reads, num-Reads, str-Reads, null-Reads, bool-Reads}
use reinstinct.Serve.Json.Nested.{
  items-more, items-last, fields-more, fields-last, array-filled, object-filled, value-array,
  value-object, nil-Reads, done-Reads,
}

module _ (nm : Numbers) where
  open nm use {F}

  mutual
    unfolding depth IsPrintable count count_fields

    items-Reads :
        (vs : Items F) (v : Json F) (f g d : ℕ) (rest : List ℕ)
        → Reads nm f (d + 1) v
        → ArePrintable nm vs
        → depth_items vs < f
        → d + 1 + depth_items vs ≤ 256
        → count nm vs < g
        → items nm (value nm f) g (at (write nm v ++ (write_items nm vs ++ rest)) (d + 1))
          ≡ ok (cons v vs, at rest d)
    items-Reads vs v f zero d rest hv h deep fits lt = absurd (omega arith)
    items-Reads nil v f (suc g) d rest hv h deep fits lt = rw (write_items-nil nm) (
        items-last nm (value nm f) g (d + 1) (write nm v ++ (b']' ∷ rest)) rest v
          (hv (b']' ∷ rest) refl)
        ∙ ap (λ n. ok (cons v nil, at rest n)) (omega arith))
    items-Reads (cons u us) v f (suc g) d rest hv h deep fits lt =
        let inner =
          items-Reads us u f g d rest (value-Reads u f (d + 1) h.0 (omega arith) (omega arith)) h.1
            (omega arith) (omega arith) (omega arith) in
        rw (write_items-cons nm u us rest) (
          items-more nm (value nm f) g (d + 1) _ _ v
            (hv (b',' ∷ (write nm u ++ (write_items nm us ++ rest))) refl)
          ∙ rw inner)

    fields-Reads :
        (kv : Fields F) (k : List ℕ) (v : Json F) (f g d : ℕ) (rest : List ℕ)
        → Reads nm f (d + 1) v
        → is_utf8 k ≡ true
        → FieldsPrintable nm kv
        → depth_fields kv < f
        → d + 1 + depth_fields kv ≤ 256
        → count_fields nm kv < g
        → fields nm (value nm f) g (at (entry nm k v kv rest) (d + 1))
          ≡ ok (field k v kv, at rest d)
    fields-Reads kv k v f zero d rest hv u h deep fits lt = absurd (omega arith)
    fields-Reads done k v f (suc g) d rest hv u h deep fits lt = rw (write_fields-done nm) (
        fields-last nm (value nm f) g (d + 1) k _ rest v u (hv (b'}' ∷ rest) refl)
        ∙ ap (λ n. ok (field k v done, at rest n)) (omega arith))
    fields-Reads (field k' v' kv) k v f (suc g) d rest hv u h deep fits lt =
        let inner =
          fields-Reads kv k' v' f g d rest
            (value-Reads v' f (d + 1) h.1 (omega arith) (omega arith)) h.0 h.2 (omega arith)
            (omega arith) (omega arith) in
        rw (write_fields-field nm k' v' kv rest) (
          fields-more nm (value nm f) g (d + 1) k _ _ v u (hv (b',' ∷ entry nm k' v' kv rest) refl)
          ∙ rw inner)

    value-Reads :
        (v : Json F) (f d : ℕ) → IsPrintable nm v → depth v < f → d + depth v ≤ 256 → Reads nm f d v
    value-Reads v zero d h deep fits rest e = absurd (omega arith)
    value-Reads null (suc f) d h deep fits rest e = null-Reads nm f d rest e
    value-Reads (bool b) (suc f) d h deep fits rest e = bool-Reads nm f d b rest e
    value-Reads (num n) (suc f) d h deep fits rest e = num-Reads nm f d n h rest e
    value-Reads (str s) (suc f) d h deep fits rest e = str-Reads nm f d s h rest e
    value-Reads (arr nil) (suc f) d h deep fits rest e = nil-Reads nm f d (omega arith) rest e
    value-Reads (arr (cons v vs)) (suc f) d h deep fits rest e =
        let t = write nm v ++ (write_items nm vs ++ rest) in
        let solid = write-Solid nm v h.0 in
        let inner =
          items-Reads vs v f (suc (length t)) d rest
            (value-Reads v f (d + 1) h.0 (omega arith) (omega arith)) h.1 (omega arith)
            (omega arith) (count-length nm v vs rest) in
        rw (write-cons nm v vs rest) (
          value-array nm f d t
          ∙ array-filled nm (value nm f) d t (omega arith)
              (skip_ws-Solid (write_items nm vs ++ rest) solid)
              (head_is-Solid (write_items nm vs ++ rest) solid)
          ∙ rw inner)
    value-Reads (obj done) (suc f) d h deep fits rest e = done-Reads nm f d (omega arith) rest e
    value-Reads (obj (field k v kv)) (suc f) d h deep fits rest e =
        let t = entry nm k v kv rest in
        let inner =
          fields-Reads kv k v f (suc (length t)) d rest
            (value-Reads v f (d + 1) h.1 (omega arith) (omega arith)) h.0 h.2 (omega arith)
            (omega arith) (count-length_fields nm k v kv rest) in
        rw (write-field nm k v kv rest)
          (value-object nm f d t ∙ object-filled nm (value nm f) d k _ (omega arith) ∙ rw inner)

  skip_ws-start : {t : List ℕ} → Solid t → skip_ws t ≡ t
  unfolding skip_ws
  skip_ws-start s = rw (s.shape, s.solid)

  -- A value that is nested at most 256 deep, whose strings are UTF-8 and whose numbers have texts
  -- that are read back as those numbers, is read back from its text.
  pub parse-to_string :
      (j : Json F) → IsPrintable nm j → depth j ≤ max_depth → parse nm (to_string nm j) ≡ ok j
  unfolding parse to_string skip_ws
  parse-to_string j h deep =
      let read = value-Reads j (max_depth + 2) 0 h (omega arith) (omega arith) [] refl in
      let exact =
        sym (ap (λ t. value nm (max_depth + 2) (at t 0)) (append-nil (write nm j))) ∙ read in
      rw (skip_ws-start (write-Solid nm j h), exact)
