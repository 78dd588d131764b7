-- ===== src/Serve/Json/Loops.antt =====
-- The loops over elements and fields, on any text: src/serve/json.rs.
use reinstinct.Base.{
  ℕ, zero, suc, ◌+◌, ◌-◌, ◌≤◌, ◌<◌, ◌≡◌, refl, sym, ◌∙◌, arith, true, List, ◌∷◌, length, drop, ltb,
  ltb→le, ok, ◌>>=◌, Ensures, holds, rejected, Ensures-bind, Ensures-if,
}
use reinstinct.Serve.Json.{Numbers, Json, str, arr, obj, nil, done}
use reinstinct.Serve.Json.Depth.{depth, depth_items, depth_fields}
use reinstinct.Serve.Json.Parse.{
  Parser, Reader, max_depth, skip_ws, head_is, is_number_byte, number_text, lit, string, number,
  items, array, fields, object,
}
use reinstinct.Serve.Json.Bounds.{
  length-skip_ws, length-number_text, Ensures-option, lit-Ensures, length-head_is, length-drop_one,
  string-Ensures,
}

module _ (nm : Numbers) where
  open nm use {F}

  -- A reader that gives its depth back, takes a byte at least and stays within the nesting limit.
  pub record Kept {A : Type 0} (deep : A → ℕ) (before : ℕ) (s : List ℕ) (out : A × Parser)
      : Type 0 where
    pub level : out.1.depth ≡ before
    pub taken : length out.1.rest < length s
    pub bounded : deep out.0 + before ≤ max_depth

  abbrev pub Good : Reader nm → Parser → Type 0
  Good read p = Ensures (Kept (depth {F = F}) p.depth p.rest) (read p)

  pub number-Good :
      (d c : ℕ) (cs : List ℕ)
      → is_number_byte c ≡ true
      → d ≤ max_depth
      → Good (number nm) (record { rest = c ∷ cs; depth = d })
  unfolding number number_text depth
  number-Good d c cs h deep = Ensures-option (nm.parse (number_text (c ∷ cs)).0) _ _ λ n e. record {
    level = refl;
    taken = rw h (omega (arith, length-number_text cs));
    bounded = omega arith;
  }

  pub literal-Good :
      (t : List ℕ) (j : Json F) (p : Parser)
      → 0 < length t
      → depth j ≡ 0
      → p.depth ≤ max_depth
      → Ensures
          (Kept (depth {F = F}) p.depth p.rest)
          (lit t p.rest >>= λ r. ok (j, record p { rest = r }))
  literal-Good t j p some_byte flat deep =
      Ensures-bind (lit-Ensures t p.rest)
        λ r e. holds (record { level = refl; taken = omega arith; bounded = omega arith })

  pub str-Good :
      (p : Parser)
      → 0 < length p.rest
      → p.depth ≤ max_depth
      → Ensures
          (Kept (depth {F = F}) p.depth p.rest)
          (string p.rest >>= λ (s, r). ok (str s, record p { rest = r }))
  unfolding depth
  str-Good p some_byte deep = Ensures-bind (string-Ensures p.rest some_byte) λ (s, r) lt.
      holds {a = (str s, record p { rest = r })}
        (record { level = refl; taken = lt; bounded = omega arith })

  module _ (read : Reader nm) (before : ℕ)
      (each : before < max_depth → (p : Parser) → p.depth ≡ before + 1 → Good read p) where
    pub items-Ensures :
        (g : ℕ) (p : Parser)
        → before < max_depth
        → p.depth ≡ before + 1
        → length p.rest < g
        → Ensures (Kept (λ vs. suc (depth_items vs)) before p.rest) (items nm read g p)
    unfolding items depth_items
    items-Ensures zero p room at h = absurd (omega arith)
    items-Ensures (suc g) p room at h = Ensures-bind (each room p at) λ (v, q) k.
        let r = skip_ws q.rest in
        let less = length-skip_ws q.rest in
        Ensures-if (head_is b',' r)
          (λ more.
            let shorter = length-head_is b',' r more in
            Ensures-bind
              (items-Ensures g (record q { rest = drop 1 r }) room (k.level ∙ at)
                (omega (arith, k.taken)))
              λ (vs, q') k'. holds (record {
                level = k'.level;
                taken = omega (arith, k.taken, k'.taken);
                bounded = omega (arith, k.bounded, k'.bounded);
              }))
          (λ _.
            Ensures-if (head_is b']' r)
              (λ last.
                let shorter = length-head_is b']' r last in
                holds (record {
                  level = omega (arith, k.level);
                  taken = omega (arith, k.taken);
                  bounded = omega (arith, k.bounded);
                }))
              (λ _. rejected))

    pub array-Good :
        (p : Parser)
        → p.depth ≡ before
        → 0 < length p.rest
        → p.depth ≤ max_depth
        → Good (array nm read) p
    unfolding array depth
    array-Good p at some_byte deep =
        let r = skip_ws (drop 1 p.rest) in
        let less = length-skip_ws (drop 1 p.rest) in
        let one = length-drop_one p.rest some_byte in
        Ensures-if (ltb max_depth (p.depth + 1)) (λ _. rejected)
          λ fits.
            Ensures-if (head_is b']' r)
              (λ empty.
                let shorter = length-head_is b']' r empty in
                holds {a = (arr nil, record { rest = drop 1 r; depth = p.depth + 1 - 1 })} (record {
                  level = omega arith;
                  taken = omega arith;
                  bounded = omega (arith, ltb→le max_depth (p.depth + 1) fits);
                }))
              (λ _.
                Ensures-bind
                  (items-Ensures (suc (length r)) (record { rest = r; depth = p.depth + 1 })
                    (omega (arith, ltb→le max_depth (p.depth + 1) fits)) (omega arith)
                    (omega arith))
                  λ (vs, q) k. holds {a = (arr vs, q)} (record {
                    level = k.level ∙ sym at;
                    taken = omega (arith, k.taken);
                    bounded = omega (arith, k.bounded);
                  }))

    pub fields-Ensures :
        (g : ℕ) (p : Parser)
        → before < max_depth
        → p.depth ≡ before + 1
        → length p.rest < g
        → Ensures (Kept (λ kv. suc (depth_fields kv)) before p.rest) (fields nm read g p)
    unfolding fields depth_fields
    fields-Ensures zero p room at h = absurd (omega arith)
    fields-Ensures (suc g) p room at h =
        let start = skip_ws p.rest in
        let less = length-skip_ws p.rest in
        Ensures-if (head_is b'"' start)
          (λ quote.
            let some_byte = length-head_is b'"' start quote in
            Ensures-bind (string-Ensures start (omega arith)) λ (key, after_key) lt.
              let colon = skip_ws after_key in
              let less_key = length-skip_ws after_key in
              Ensures-if (head_is b':' colon)
                (λ is_colon.
                  let shorter_key = length-head_is b':' colon is_colon in
                  Ensures-bind (each room (record p { rest = drop 1 colon }) at) λ (v, q) k.
                    let r = skip_ws q.rest in
                    let less_value = length-skip_ws q.rest in
                    Ensures-if (head_is b',' r)
                      (λ more.
                        let shorter = length-head_is b',' r more in
                        Ensures-bind
                          (fields-Ensures g (record q { rest = drop 1 r }) room (k.level ∙ at)
                            (omega (arith, k.taken)))
                          λ (kv, q') k'. holds (record {
                            level = k'.level;
                            taken = omega (arith, k.taken, k'.taken);
                            bounded = omega (arith, k.bounded, k'.bounded);
                          }))
                      (λ _.
                        Ensures-if (head_is b'}' r)
                          (λ last.
                            let shorter = length-head_is b'}' r last in
                            holds (record {
                              level = omega (arith, k.level);
                              taken = omega (arith, k.taken);
                              bounded = omega (arith, k.bounded);
                            }))
                          (λ _. rejected)))
                (λ _. rejected))
          (λ _. rejected)

    pub object-Good :
        (p : Parser)
        → p.depth ≡ before
        → 0 < length p.rest
        → p.depth ≤ max_depth
        → Good (object nm read) p
    unfolding object depth
    object-Good p at some_byte deep =
        let r = skip_ws (drop 1 p.rest) in
        let less = length-skip_ws (drop 1 p.rest) in
        let one = length-drop_one p.rest some_byte in
        Ensures-if (ltb max_depth (p.depth + 1)) (λ _. rejected)
          λ fits.
            Ensures-if (head_is b'}' r)
              (λ empty.
                let shorter = length-head_is b'}' r empty in
                holds {a = (obj done, record { rest = drop 1 r; depth = p.depth + 1 - 1 })}
                  (record {
                    level = omega arith;
                    taken = omega arith;
                    bounded = omega (arith, ltb→le max_depth (p.depth + 1) fits);
                  }))
              (λ _.
                Ensures-bind
                  (fields-Ensures (suc (length r)) (record { rest = r; depth = p.depth + 1 })
                    (omega (arith, ltb→le max_depth (p.depth + 1) fits)) (omega arith)
                    (omega arith))
                  λ (kv, q) k. holds {a = (obj kv, q)} (record {
                    level = k.level ∙ sym at;
                    taken = omega (arith, k.taken);
                    bounded = omega (arith, k.bounded);
                  }))
