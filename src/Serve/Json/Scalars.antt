-- ===== src/Serve/Json/Scalars.antt =====
-- Printed numbers, strings and literals read back: src/serve/json.rs.
use reinstinct.Base.{
  ℕ, suc, ◌≡◌, refl, ap, arith, Bool, true, false, not, ◌||◌, some, List, [], ◌∷◌, ◌++◌, All, ◌==◌,
  Outcome, ok,
}
use reinstinct.Base.Utf8.{is_utf8}
use reinstinct.Serve.Json.{Numbers, Json, null, bool, num, str, write}
use reinstinct.Serve.Json.Strings.{string-write_escaped}
use reinstinct.Serve.Json.Parse.{
  Parser, JsonError, skip_ws, is_ws, is_digit, is_number_byte, number_text, strip, lit, number,
  value_at, value,
}
use reinstinct.Serve.Json.Printable.{IsReadable}

-- Behind a number, a text that does not go on with it.
abbrev pub ends : List ℕ → Bool
ends [] = true
ends (c ∷ cs) = not (is_number_byte c)

pub number_text-append :
    (t rest : List ℕ)
    → All (λ c. is_number_byte c ≡ true) t
    → ends rest ≡ true
    → number_text (t ++ rest) ≡ (t, rest)
unfolding number_text
number_text-append [] [] h e = refl
number_text-append [] (c ∷ cs) h e = let other : is_number_byte c ≡ false = ground arith in rw other
number_text-append (c ∷ t) rest (h, hs) e = rw (h, number_text-append t rest hs e)

abbrev pub at : List ℕ → ℕ → Parser
at rest depth = record { rest = rest; depth = depth }

module _ (nm : Numbers) where
  open nm use {F}

  -- What the round trip of a value says, at a depth and with the fuel `f`.
  abbrev pub Reads : ℕ → ℕ → Json F → Type 0
  Reads f d v =
      (rest : List ℕ)
      → ends rest ≡ true
      → value nm f (at (write nm v ++ rest) d) ≡ ok (v, at rest d)

  pub value-solid :
      (f d c : ℕ) (cs : List ℕ)
      → is_ws c ≡ false
      → value nm (suc f) (at (c ∷ cs) d) ≡ value_at nm (value nm f) c (at (c ∷ cs) d)
  unfolding value skip_ws
  value-solid f d c cs h = rw h

  value_at-number :
      (inner : Parser → Outcome JsonError (Json F × Parser)) (c : ℕ) (p : Parser)
      → (c == b'-' || is_digit c) ≡ true
      → value_at nm inner c p ≡ number nm p
  unfolding value_at
  value_at-number inner c p h = ground arith

  number-text :
      (d : ℕ) (n : F) (r text after : List ℕ)
      → number_text r ≡ (text, after)
      → nm.parse text ≡ some n
      → number nm (at r d) ≡ ok (num n, at after d)
  unfolding number
  number-text d n r text after h back = rw (number, h, back) (ap (λ q. ok (num n, at q.1 d)) h)

  pub num-Reads : (f d : ℕ) (n : F) → IsReadable nm n → Reads (suc f) d (num n)
  unfolding write
  num-Reads f d n h rest e =
      let solid : is_ws h.first ≡ false = ground (arith, h.starts) in
      rw
        (
          h.text,
          value-solid f d h.first (h.others ++ rest) solid,
          value_at-number (value nm f) h.first (at (h.first ∷ (h.others ++ rest)) d) h.starts,
        )
        (number-text d n _ _ rest (number_text-append (h.first ∷ h.others) rest h.bytes e) h.back)

  pub str-Reads : (f d : ℕ) (s : List ℕ) → is_utf8 s ≡ true → Reads (suc f) d (str s)
  unfolding write value value_at skip_ws
  str-Reads f d s h rest e = rw (string-write_escaped s rest h)

  pub null-Reads : (f d : ℕ) → Reads (suc f) d null
  unfolding write value value_at skip_ws lit strip
  null-Reads f d rest e = refl

  pub bool-Reads : (f d : ℕ) (b : Bool) → Reads (suc f) d (bool b)
  unfolding write value value_at skip_ws lit strip
  bool-Reads f d true rest e = refl
  bool-Reads f d false rest e = refl
