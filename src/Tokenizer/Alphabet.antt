-- ===== src/Tokenizer/Alphabet.antt =====
-- The byte alphabet: src/tokenizer.rs.
use reinstinct.Base.{
  ℕ, zero, suc, ◌+◌, ◌<◌, ◌≡◌, refl, sym, ap, ◌∙◌, arith, Option-cases, Bool, true, false, ◌&&◌,
  and_true, inl, inr, some, none, List, [], ◌∷◌, ◌++◌, length, All, get_or, ltb, ltb→lt, ◌==◌,
  ==_iff,
}
use reinstinct.Base.Utf8.{chars}
use reinstinct.Tokenizer.Chars.{chars-encode_utf8}
use reinstinct.Tokenizer.{
  Decoder, bytes_to_unicode, decoder_get, decoder_of, byte_pieces, unmap, Piece,
}

abbrev pub byte_decoder : Decoder
byte_decoder = decoder_of 0 bytes_to_unicode []

-- Whether the decoder gives `b` back for a character, and the character has at most two bytes.
unfoldable maps_back : Decoder → ℕ → ℕ → Bool
unfolding decoder_get
maps_back m b c = elim (decoder_get m c) [ none ↦ false | some b' ↦ b' == b && ltb c 0x800 ]

unfoldable all_map_back : Decoder → ℕ → List ℕ → Bool
unfolding maps_back
all_map_back m b [] = true
all_map_back m b (c ∷ cs) = maps_back m b c && all_map_back m (b + 1) cs

table_ok : all_map_back byte_decoder 0 bytes_to_unicode ≡ true
unfolding all_map_back bytes_to_unicode decoder_of
table_ok = refl

table_length : length bytes_to_unicode ≡ 256
unfolding bytes_to_unicode
table_length = refl

maps_back-found :
    (m : Decoder) (b c : ℕ) → maps_back m b c ≡ true → (decoder_get m c ≡ some b) × (c < 0x800)
unfolding maps_back
maps_back-found m b c h = elim (Option-cases (decoder_get m c)) [
  | inl e ↦ let no : false ≡ true = sym (rw (maps_back, e)) ∙ h in cc
  | inr (b', e) ↦
      let both : (b' == b && ltb c 0x800) ≡ true = sym (rw (maps_back, e)) ∙ h in
      (
        e ∙ ap some ((==_iff b' b).0 (and_true (b' == b) _ both).0),
        ltb→lt c 0x800 (and_true (b' == b) _ both).1,
      )
]

all_map_back-get :
    (m : Decoder) (o : ℕ) (cs : List ℕ) (i d : ℕ)
    → all_map_back m o cs ≡ true
    → i < length cs
    → (decoder_get m (get_or cs i d) ≡ some (o + i)) × (get_or cs i d < 0x800)
unfolding all_map_back
all_map_back-get m o [] i d h lt = absurd (omega arith)
all_map_back-get m o (c ∷ cs) zero d h lt =
    let (found, low) = maps_back-found m o c (and_true (maps_back m o c) _ h).0 in
    (found ∙ ap some (omega arith), low)
all_map_back-get m o (c ∷ cs) (suc i) d h lt =
    let (found, low) =
      all_map_back-get m (o + 1) cs i d (and_true (maps_back m o c) _ h).1 (omega arith) in
    (found ∙ ap some (omega arith), low)

-- A byte's character is one or two bytes long and is mapped back to the byte.
pub byte_char_back :
    (b : ℕ)
    → b < 256
    → (decoder_get byte_decoder (get_or bytes_to_unicode b b' ') ≡ some b)
      × (get_or bytes_to_unicode b b' ' < 0x800)
byte_char_back b h =
    let (found, low) =
      all_map_back-get byte_decoder 0 bytes_to_unicode b b' ' table_ok
        (omega (arith, table_length)) in
    (found ∙ ap some (omega arith), low)

unfoldable pub flatten : List Piece → List ℕ
flatten [] = []
flatten (x ∷ w) = x ++ flatten w

-- Decoding the one-character pieces of a text of bytes gives the text.
pub unmap-byte_pieces :
    (bs : List ℕ)
    → All (λ b. b < 256) bs
    → unmap byte_decoder (chars (flatten (byte_pieces bytes_to_unicode bs))) ≡ bs
unfolding unmap byte_pieces flatten chars
unmap-byte_pieces [] h = refl
unmap-byte_pieces (b ∷ bs) (h, hs) =
    let (found, low) = byte_char_back b h in
    rw (
      chars-encode_utf8 (get_or bytes_to_unicode b b' ') (flatten (byte_pieces bytes_to_unicode bs))
          low,
      found,
      unmap-byte_pieces bs hs,
    )
