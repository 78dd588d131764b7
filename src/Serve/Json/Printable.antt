-- ===== src/Serve/Json/Printable.antt =====
-- The values whose text can be read back, and how their texts begin: src/serve/json.rs.
use reinstinct.Base.{ℕ, ◌≡◌, refl, arith, true, false, ◌||◌, some, List, [], ◌∷◌, ◌++◌, All, ◌==◌}
use reinstinct.Base.Utf8.{is_utf8}
use reinstinct.Serve.Json.{
  Numbers, Json, Items, Fields, null, bool, num, str, arr, obj, nil, cons, done, field, write,
  write_num, write_escaped,
}
use reinstinct.Serve.Json.Parse.{skip_ws, is_ws, head_is, is_digit, is_number_byte}

-- The first byte of a value.
pub record Solid (t : List ℕ) : Type 0 where
  pub byte : ℕ
  pub others : List ℕ
  pub shape : t ≡ byte ∷ others
  pub solid : is_ws byte ≡ false
  pub open_item : (byte == b']') ≡ false

pub skip_ws-Solid : {t : List ℕ} (rest : List ℕ) → Solid t → skip_ws (t ++ rest) ≡ t ++ rest
unfolding skip_ws
skip_ws-Solid rest s = rw (s.shape, s.solid)

pub head_is-Solid : {t : List ℕ} (rest : List ℕ) → Solid t → head_is b']' (t ++ rest) ≡ false
head_is-Solid rest s = rw (s.shape, s.open_item)

module _ (nm : Numbers) where
  open nm use {F}

  -- The text of a number starts like one, has number bytes only and is parsed as that number.
  pub record IsReadable (n : F) : Type 0 where
    pub first : ℕ
    pub others : List ℕ
    pub text : write_num nm n ≡ first ∷ others
    pub starts : (first == b'-' || is_digit first) ≡ true
    pub bytes : All (λ c. is_number_byte c ≡ true) (first ∷ others)
    pub back : nm.parse (first ∷ others) ≡ some n

  unfoldable mutual
    pub IsPrintable : Json F → Type 0
    IsPrintable null = Unit {0}
    IsPrintable (bool b) = Unit {0}
    IsPrintable (num n) = IsReadable n
    IsPrintable (str s) = is_utf8 s ≡ true
    IsPrintable (arr vs) = ArePrintable vs
    IsPrintable (obj kv) = FieldsPrintable kv

    pub ArePrintable : Items F → Type 0
    ArePrintable nil = Unit {0}
    ArePrintable (cons v vs) = IsPrintable v × ArePrintable vs

    pub FieldsPrintable : Fields F → Type 0
    FieldsPrintable done = Unit {0}
    FieldsPrintable (field k v kv) = (is_utf8 k ≡ true) × IsPrintable v × FieldsPrintable kv

  pub write-Solid : (v : Json F) → IsPrintable v → Solid (write nm v)
  unfolding write IsPrintable write_escaped
  write-Solid null h = record {
    byte = b'n';
    others = b'u' ∷ b'l' ∷ b'l' ∷ [];
    shape = refl;
    solid = refl;
    open_item = refl;
  }
  write-Solid (bool true) h = record {
    byte = b't';
    others = b'r' ∷ b'u' ∷ b'e' ∷ [];
    shape = refl;
    solid = refl;
    open_item = refl;
  }
  write-Solid (bool false) h = record {
    byte = b'f';
    others = b'a' ∷ b'l' ∷ b's' ∷ b'e' ∷ [];
    shape = refl;
    solid = refl;
    open_item = refl;
  }
  write-Solid (num n) h = record {
    byte = h.first;
    others = h.others;
    shape = h.text;
    solid = ground (arith, h.starts);
    open_item = ground (arith, h.starts);
  }
  write-Solid (str s) h = record {
    byte = b'"';
    others = _;
    shape = refl;
    solid = refl;
    open_item = refl;
  }
  write-Solid (arr nil) h = record {
    byte = b'[';
    others = _;
    shape = refl;
    solid = refl;
    open_item = refl;
  }
  write-Solid (arr (cons v vs)) h = record {
    byte = b'[';
    others = _;
    shape = refl;
    solid = refl;
    open_item = refl;
  }
  write-Solid (obj done) h = record {
    byte = b'{';
    others = _;
    shape = refl;
    solid = refl;
    open_item = refl;
  }
  write-Solid (obj (field k v kv)) h = record {
    byte = b'{';
    others = _;
    shape = refl;
    solid = refl;
    open_item = refl;
  }
