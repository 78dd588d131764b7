-- ===== src/Serve/Json/Parse.antt =====
-- The recursive-descent parser of src/serve/json.rs. The cursor is what lies behind it, `b[i..]`.
use reinstinct.Base.{
  ℕ, zero, suc, ◌+◌, ◌-◌, ◌*◌, Bool, true, false, ◌&&◌, ◌||◌, Option, some, none, List, [], ◌∷◌,
  ◌++◌, length, drop, ltb, leb, ◌==◌, if◌then◌else◌, Outcome, ok, err, stuck, ◌>>=◌,
}
use reinstinct.Base.Utf8.{is_utf8, encode_utf8, char_or_replacement}
use reinstinct.Serve.Json.{
  Numbers, Json, Items, Fields, null, bool, num, str, arr, obj, nil, cons, done, field, null_text,
  true_text, false_text,
}

pub data JsonError : Type 0 where
  trailing_data unexpected_end invalid_number : JsonError
  unexpected_byte : ℕ → JsonError
  expected_literal : List ℕ → JsonError
  non_utf8_string dangling_escape bad_unicode invalid_escape unterminated_string : JsonError
  too_deep expected_item_end expected_key expected_colon expected_field_end : JsonError

abbrev pub max_depth : ℕ
max_depth = 256

pub record Parser : Type 0 where
  pub rest : List ℕ
  pub depth : ℕ

abbrev pub is_ws : ℕ → Bool
is_ws c = c == 32 || c == 9 || c == 10 || c == 13

unfoldable pub skip_ws : List ℕ → List ℕ
skip_ws [] = []
skip_ws (c ∷ cs) = let more = skip_ws cs in if is_ws c then more else c ∷ cs

-- Whether the byte at the cursor is `c`; there may be none.
abbrev pub head_is : ℕ → List ℕ → Bool
head_is c [] = false
head_is c (x ∷ xs) = x == c

abbrev pub is_digit : ℕ → Bool
is_digit c = leb 48 c && leb c 57

abbrev pub is_number_byte : ℕ → Bool
is_number_byte c = c == b'-' || c == b'+' || c == b'.' || c == b'e' || c == b'E' || is_digit c

-- The longest run of number bytes, and what follows it.
unfoldable pub number_text : List ℕ → List ℕ × List ℕ
number_text [] = ([], [])
number_text (c ∷ cs) =
    let (front, back) = number_text cs in
    if is_number_byte c then (c ∷ front, back) else ([], c ∷ cs)

-- `starts_with`, and what follows the prefix.
unfoldable pub strip : List ℕ → List ℕ → Option (List ℕ)
strip [] xs = some xs
strip (m ∷ ms) [] = none
strip (m ∷ ms) (x ∷ xs) = let more = strip ms xs in if x == m then more else none

unfoldable pub lit : List ℕ → List ℕ → Outcome JsonError (List ℕ)
unfolding strip
lit s rest = elim (strip s rest) [ none ↦ err (expected_literal s) | some r ↦ ok r ]

unfoldable pub hex_value : ℕ → Option ℕ
hex_value c =
    if is_digit c
    then some (c - 48)
    else if leb 97 c && leb c 102
    then some (c - 87)
    else if leb 65 c && leb c 70
    then some (c - 55)
    else none

unfoldable pub push_digit : Option ℕ → ℕ → Option ℕ
unfolding hex_value
push_digit none c = none
push_digit (some n) c = elim (hex_value c) [ none ↦ none | some d ↦ some (n * 16 + d) ]

-- `u32::from_str_radix` of four bytes, which allows a leading `+`.
unfoldable pub from_hex : ℕ → ℕ → ℕ → ℕ → Option ℕ
unfolding push_digit
from_hex a b c d =
    let start = if a == b'+' then some 0 else push_digit (some 0) a in
    push_digit (push_digit (push_digit start b) c) d

-- Behind a backslash: the bytes that are meant, and what follows the escape.
unfoldable pub unicode_escape : List ℕ → Outcome JsonError (List ℕ × List ℕ)
unfolding from_hex encode_utf8 char_or_replacement
unicode_escape (a ∷ b ∷ c ∷ d ∷ rest) = elim (from_hex a b c d) [
  | none ↦ err bad_unicode
  | some cp ↦ ok (encode_utf8 (char_or_replacement cp), rest)
]
unicode_escape _ = err bad_unicode

unfoldable pub read_escape : List ℕ → Outcome JsonError (List ℕ × List ℕ)
unfolding unicode_escape
read_escape [] = err dangling_escape
read_escape (e ∷ rest) =
    if e == b'"' || e == b'\\' || e == b'/'
    then ok (e ∷ [], rest)
    else if e == b'n'
    then ok (10 ∷ [], rest)
    else if e == b'r'
    then ok (13 ∷ [], rest)
    else if e == b't'
    then ok (9 ∷ [], rest)
    else if e == b'b'
    then ok (8 ∷ [], rest)
    else if e == b'f'
    then ok (12 ∷ [], rest)
    else if e == b'u'
    then unicode_escape rest
    else err invalid_escape

-- The loop of `string`; a round takes a byte at least.
unfoldable pub read_chars : ℕ → List ℕ → List ℕ → Outcome JsonError (List ℕ × List ℕ)
read_chars f [] out = err unterminated_string
read_chars zero (c ∷ cs) out = stuck
read_chars (suc f) (c ∷ cs) out =
    let closed : Outcome JsonError (List ℕ × List ℕ) =
      if is_utf8 out then ok (out, cs) else err non_utf8_string in
    let escaped = read_escape cs >>= λ (bytes, rest). read_chars f rest (out ++ bytes) in
    let literal = read_chars f cs (out ++ (c ∷ [])) in
    if c == b'"' then closed else if c == b'\\' then escaped else literal

-- The cursor stands at the opening quote.
unfoldable pub string : List ℕ → Outcome JsonError (List ℕ × List ℕ)
string rest = let inner = drop 1 rest in read_chars (length inner) inner []

module _ (nm : Numbers) where
  open nm use {F}

  abbrev pub Reader : Type 0
  Reader = Parser → Outcome JsonError (Json F × Parser)

  unfoldable pub number : Reader
  unfolding number_text
  number p =
      let (text, after) = number_text p.rest in
      elim (nm.parse text) [
        | none ↦ err invalid_number
        | some n ↦ ok (num n, record p { rest = after })
      ]

  -- The loop of `array`, which reads the elements by `value`; a round takes a byte at least.
  unfoldable pub items : Reader → ℕ → Parser → Outcome JsonError (Items F × Parser)
  items value zero p = stuck
  items value (suc g) p = do
    (v, q) ← value p
    let r = skip_ws q.rest
    let more = items value g (record q { rest = drop 1 r }) >>= λ (vs, q'). ok (cons v vs, q')
    let last : Outcome JsonError (Items F × Parser) =
        ok (cons v nil, record { rest = drop 1 r; depth = q.depth - 1 })
    if head_is b',' r then more else if head_is b']' r then last else err expected_item_end

  unfoldable pub array : Reader → Reader
  array value p =
      let r = skip_ws (drop 1 p.rest) in
      let filled =
        items value (suc (length r)) (record { rest = r; depth = p.depth + 1 }) >>= λ (vs, q).
        ok (arr vs, q) in
      let empty : Outcome JsonError (Json F × Parser) =
        ok (arr nil, record { rest = drop 1 r; depth = p.depth + 1 - 1 }) in
      if ltb max_depth (p.depth + 1) then err too_deep else if head_is b']' r then empty else filled

  unfoldable pub fields : Reader → ℕ → Parser → Outcome JsonError (Fields F × Parser)
  fields value zero p = stuck
  fields value (suc g) p =
      let start = skip_ws p.rest in
      let one = string start >>= λ (key, after_key).
      let colon = skip_ws after_key in
      let rest_of_field = value (record p { rest = drop 1 colon }) >>= λ (v, q).
      let r = skip_ws q.rest in
      let more =
        fields value g (record q { rest = drop 1 r }) >>= λ (kv, q'). ok (field key v kv, q') in
      let last : Outcome JsonError (Fields F × Parser) =
        ok (field key v done, record { rest = drop 1 r; depth = q.depth - 1 }) in
      if head_is b',' r then more else if head_is b'}' r then last else err expected_field_end in
      if head_is b':' colon then rest_of_field else err expected_colon in
      if head_is b'"' start then one else err expected_key

  unfoldable pub object : Reader → Reader
  object value p =
      let r = skip_ws (drop 1 p.rest) in
      let filled =
        fields value (suc (length r)) (record { rest = r; depth = p.depth + 1 }) >>= λ (kv, q).
        ok (obj kv, q) in
      let empty : Outcome JsonError (Json F × Parser) =
        ok (obj done, record { rest = drop 1 r; depth = p.depth + 1 - 1 }) in
      if ltb max_depth (p.depth + 1) then err too_deep else if head_is b'}' r then empty else filled

  abbrev literal : List ℕ → Json F → Reader
  literal s j p = lit s p.rest >>= λ r. ok (j, record p { rest = r })

  -- The match on the byte at the cursor; `value` reads what is nested.
  unfoldable pub value_at : Reader → ℕ → Reader
  value_at value c p =
      if c == b'{'
      then object value p
      else if c == b'['
      then array value p
      else if c == b'"'
      then (string p.rest >>= λ (s, r). ok (str s, record p { rest = r }))
      else if c == b't'
      then literal true_text (bool true) p
      else if c == b'f'
      then literal false_text (bool false) p
      else if c == b'n'
      then literal null_text null p
      else if c == b'-' || is_digit c
      then number p
      else err (unexpected_byte c)

  abbrev pub dispatch : Reader → List ℕ → ℕ → Outcome JsonError (Json F × Parser)
  dispatch value [] depth = err unexpected_end
  dispatch value (c ∷ cs) depth = value_at value c (record { rest = c ∷ cs; depth = depth })

  unfoldable pub value : ℕ → Reader
  value zero p = stuck
  value (suc f) p = dispatch (value f) (skip_ws p.rest) p.depth

  abbrev pub finish : Json F × Parser → Outcome JsonError (Json F)
  finish (v, p) = elim (skip_ws p.rest) [ [] ↦ ok v | c ∷ cs ↦ err trailing_data ]

  -- A nested call is one level deeper, so `max_depth` and two calls are enough.
  unfoldable pub parse : List ℕ → Outcome JsonError (Json F)
  parse s = value (max_depth + 2) (record { rest = skip_ws s; depth = 0 }) >>= λ r. finish r
