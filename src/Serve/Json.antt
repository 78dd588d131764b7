-- ===== src/Serve/Json.antt =====
-- JSON values, their accessors and their printer: src/serve/json.rs. A text is its UTF-8 bytes.
pub mod Parse
pub mod Naturals
pub mod Strings
pub mod Depth
pub mod Printable
pub mod Texts
pub mod Scalars
pub mod Nested
pub mod RoundTrip
pub mod Bounds
pub mod Loops
pub mod Total
pub mod Deep
mod Tests
use reinstinct.Base.{
  ℕ, zero, suc, ◌+◌, ◌-◌, ◌/◌, ◌%◌, Bool, true, false, ◌&&◌, Option, some, none, List, [], ◌∷◌,
  ◌++◌, ltb, ◌==◌, if◌then◌else◌,
}
use reinstinct.Base.Int.{ℤ, pos, negsuc}

-- What the code uses of f64: `parse`, `to_string`, the conversion to i64 and the three tests.
pub record Numbers : Type 1 where
  pub F : Type 0
  pub parse : List ℕ → Option F
  pub to_string : F → List ℕ
  pub as_i64 : F → ℤ
  pub is_whole : F → Bool
  pub is_finite : F → Bool
  pub below_1e15 : F → Bool

module _ (F : Type 0) where
  mutual
    pub data Json : Type 0 where
      null : Json
      bool : Bool → Json
      num : F → Json
      str : List ℕ → Json
      arr : Items → Json
      obj : Fields → Json

    pub data Items : Type 0 where
      nil : Items
      cons : Json → Items → Items

    pub data Fields : Type 0 where
      done : Fields
      field : List ℕ → Json → Fields → Fields

-- `k == key`
unfoldable pub text_eq : List ℕ → List ℕ → Bool
text_eq [] [] = true
text_eq [] (y ∷ ys) = false
text_eq (x ∷ xs) [] = false
text_eq (x ∷ xs) (y ∷ ys) = x == y && text_eq xs ys

module _ {F : Type 0} where
  unfoldable pub find : List ℕ → Fields F → Option (Json F)
  unfolding text_eq
  find key done = none
  find key (field k v kv) = let rest = find key kv in if text_eq k key then some v else rest

  unfoldable pub get : List ℕ → Json F → Option (Json F)
  unfolding find
  get key (obj kv) = find key kv
  get key _ = none

  unfoldable pub as_str : Json F → Option (List ℕ)
  as_str (str s) = some s
  as_str _ = none

  unfoldable pub as_f64 : Json F → Option F
  as_f64 (num n) = some n
  as_f64 _ = none

  unfoldable pub as_bool : Json F → Option Bool
  as_bool (bool b) = some b
  as_bool _ = none

  unfoldable pub as_array : Json F → Option (Items F)
  as_array (arr a) = some a
  as_array _ = none

-- The digit of a number below 16, in lower case.
unfoldable pub hex_digit : ℕ → ℕ
hex_digit n = if ltb n 10 then 48 + n else 87 + n

-- What one character becomes; a byte of a longer character is copied as it is.
unfoldable pub escape : ℕ → List ℕ
unfolding hex_digit
escape c =
    if c == b'"'
    then b'\\' ∷ b'"' ∷ []
    else if c == b'\\'
    then b'\\' ∷ b'\\' ∷ []
    else if c == 10
    then b'\\' ∷ b'n' ∷ []
    else if c == 13
    then b'\\' ∷ b'r' ∷ []
    else if c == 9
    then b'\\' ∷ b't' ∷ []
    else if ltb c 0x20
    then b'\\' ∷ b'u' ∷ b'0' ∷ b'0' ∷ hex_digit (c / 16) ∷ hex_digit (c % 16) ∷ []
    else c ∷ []

unfoldable pub escape_all : List ℕ → List ℕ
unfolding escape
escape_all [] = []
escape_all (c ∷ cs) = escape c ++ escape_all cs

unfoldable pub write_escaped : List ℕ → List ℕ
unfolding escape_all
write_escaped s = b'"' ∷ (escape_all s ++ (b'"' ∷ []))

-- The decimal digits of an i64, which has at most 19.
unfoldable pub digits : ℕ → ℕ → List ℕ
digits zero n = []
digits (suc f) n =
    let front = digits f (n / 10) in
    if ltb n 10 then (48 + n) ∷ [] else front ++ ((48 + n % 10) ∷ [])

unfoldable pub write_i64 : ℤ → List ℕ
unfolding digits
write_i64 (pos n) = digits 19 n
write_i64 (negsuc n) = b'-' ∷ digits 19 (n + 1)

abbrev pub null_text : List ℕ
null_text = b'n' ∷ b'u' ∷ b'l' ∷ b'l' ∷ []

abbrev pub true_text : List ℕ
true_text = b't' ∷ b'r' ∷ b'u' ∷ b'e' ∷ []

abbrev pub false_text : List ℕ
false_text = b'f' ∷ b'a' ∷ b'l' ∷ b's' ∷ b'e' ∷ []

module _ (nm : Numbers) where
  open nm use {F}

  unfoldable pub write_num : F → List ℕ
  unfolding write_i64
  write_num n =
      if nm.is_whole n && nm.is_finite n && nm.below_1e15 n
      then write_i64 (nm.as_i64 n)
      else nm.to_string n

  -- What `write` appends; the elements behind the first one come with their comma.
  unfoldable mutual
    unfolding write_num write_escaped

    pub write : Json F → List ℕ
    write null = null_text
    write (bool b) = if b then true_text else false_text
    write (num n) = write_num n
    write (str s) = write_escaped s
    write (arr nil) = b'[' ∷ b']' ∷ []
    write (arr (cons v vs)) = b'[' ∷ (write v ++ write_items vs)
    write (obj done) = b'{' ∷ b'}' ∷ []
    write (obj (field k v kv)) = b'{' ∷ (write_escaped k ++ (b':' ∷ (write v ++ write_fields kv)))

    pub write_items : Items F → List ℕ
    write_items nil = b']' ∷ []
    write_items (cons v vs) = b',' ∷ (write v ++ write_items vs)

    pub write_fields : Fields F → List ℕ
    write_fields done = b'}' ∷ []
    write_fields (field k v kv) = b',' ∷ (write_escaped k ++ (b':' ∷ (write v ++ write_fields kv)))

  unfoldable pub to_string : Json F → List ℕ
  unfolding write
  to_string j = write j
