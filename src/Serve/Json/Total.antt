-- ===== src/Serve/Json/Total.antt =====
-- Every text is parsed or refused: the recursion and the loops of src/serve/json.rs end, and no
-- value is nested deeper than the parser allows.
use reinstinct.Base.{
  ℕ, zero, suc, ◌+◌, ◌≤◌, ◌<◌, ◌≡◌, refl, arith, true, false, ◌||◌, List, [], ◌∷◌, length, ◌==◌,
  Outcome, ok, err, Ensures, holds, rejected, Ensures-bind, Ensures-map, Ensures-if,
}
use reinstinct.Serve.Json.{Numbers, Json, null, bool, null_text, true_text, false_text}
use reinstinct.Serve.Json.Depth.{depth}
use reinstinct.Serve.Json.Parse.{
  Parser, JsonError, Reader, max_depth, skip_ws, is_digit, value_at, dispatch, trailing_data, value,
  parse,
}
use reinstinct.Serve.Json.Bounds.{length-skip_ws}
use reinstinct.Serve.Json.Loops.{
  Kept, Good, number-Good, literal-Good, str-Good, array-Good, object-Good,
}

module _ (nm : Numbers) where
  open nm use {F}

  module _ (read : Reader nm) (d : ℕ)
      (each : d < max_depth → (p : Parser) → p.depth ≡ d + 1 → Good nm read p) where
    value_at-Good :
        (c : ℕ) (cs : List ℕ)
        → d ≤ max_depth
        → Good nm (value_at nm read c) (record { rest = c ∷ cs; depth = d })
    unfolding value_at depth
    value_at-Good c cs deep =
        let p : Parser = record { rest = c ∷ cs; depth = d } in
        let some_byte : 0 < suc (length cs) = omega arith in
        let word : 0 < 4 = omega arith in
        let word5 : 0 < 5 = omega arith in
        Ensures-if (c == b'{') (λ _. object-Good nm read d each p refl some_byte deep)
          λ _.
            Ensures-if (c == b'[') (λ _. array-Good nm read d each p refl some_byte deep)
              λ _.
                Ensures-if (c == b'"') (λ _. str-Good nm p some_byte deep)
                  λ _.
                    Ensures-if (c == b't')
                      (λ _. literal-Good nm true_text (bool true) p word refl deep)
                      λ _.
                        Ensures-if (c == b'f')
                          (λ _. literal-Good nm false_text (bool false) p word5 refl deep)
                          λ _.
                            Ensures-if (c == b'n')
                              (λ _. literal-Good nm null_text null p word refl deep)
                              λ _.
                                Ensures-if (c == b'-' || is_digit c)
                                  (λ numeral. number-Good nm d c cs (ground arith) deep)
                                  (λ _. rejected)

    dispatch-Good :
        (t : List ℕ) → d ≤ max_depth → Ensures (Kept nm (depth {F = F}) d t) (dispatch nm read t d)
    dispatch-Good [] deep = rejected
    dispatch-Good (c ∷ cs) deep = value_at-Good c cs deep

  value-Good :
      (f : ℕ) (p : Parser) → p.depth ≤ max_depth → max_depth < f + p.depth → Good nm (value nm f) p
  unfolding value
  value-Good zero p deep h = absurd (omega arith)
  value-Good (suc f) p deep h =
      let inner =
        dispatch-Good (value nm f) p.depth (λ room q at. value-Good f q (omega arith) (omega arith))
          (skip_ws p.rest) deep in
      Ensures-map inner λ out k. record {
        level = k.level;
        taken = omega (arith, k.taken, length-skip_ws p.rest);
        bounded = k.bounded;
      }

  finish-Ensures :
      {P : Json F → Type 0} (t : List ℕ) (v : Json F)
      → P v
      → Ensures P
          (elim t as (λ _. Outcome JsonError (Json F)) [ [] ↦ ok v | c ∷ cs ↦ err trailing_data ])
  finish-Ensures [] v h = holds h
  finish-Ensures (c ∷ cs) v h = rejected

  -- The parser returns for every text, and nothing that it gives is nested more than 256 deep.
  pub parse-Ensures : (s : List ℕ) → Ensures (λ j. depth j ≤ max_depth) (parse nm s)
  unfolding parse
  parse-Ensures s =
      Ensures-bind
        (value-Good (max_depth + 2) (record { rest = skip_ws s; depth = 0 }) (omega arith)
          (omega arith))
        λ (j, p) k. finish-Ensures (skip_ws p.rest) j (omega (arith, k.bounded))
