-- ===== src/Tokenizer/RoundTrip.antt =====
-- A text that is encoded and decoded: src/tokenizer.rs.
use reinstinct.Base.{
  ℕ, zero, suc, ◌+◌, ◌-◌, ◌≤◌, ◌<◌, ◌^◌, ◌≡◌, refl, sym, subst, ap, ◌∙◌, arith, Bool-cases, true,
  inl, inr, some, List, [], ◌∷◌, ◌++◌, append_assoc, length, take, drop, drop-drop, drop-nil,
  take-append-drop, get_or, max, All, ltb, ltb→lt, ltb→le, le→ltb, ok, ok_unique,
}
use reinstinct.Base.Utf8.{is_utf8, encode_utf8}
use reinstinct.Gguf.File.{index_get}
use reinstinct.Tokenizer.{
  Tokenizer, Piece, bytes_to_unicode, rank_get, ids_of, byte_pieces, merge_at, encode_chunk,
  encode_from, encode, is_boundary, vocab_of, token_str, join, decode_bytes, decode,
}
use reinstinct.Tokenizer.Alphabet.{byte_decoder, flatten, unmap-byte_pieces}
use reinstinct.Tokenizer.Lowest.{pair_rank}
use reinstinct.Tokenizer.Merge.{
  Merges, settled, joined, Merges-flatten, merge_at-Joins, merge_all-Merges,
}
use reinstinct.Tokenizer.Total.{slice_ok}
use reinstinct.Tokenizer.Vocab.{IsSound, vocab_of-IsSound}

-- The maps of the alphabet, and the vocabulary of the tokens.
pub record IsMapped (t : Tokenizer) : Type 0 where
  pub encoder : t.byte_encoder ≡ bytes_to_unicode
  pub decoder : t.byte_decoder ≡ byte_decoder
  pub vocab : t.vocab_map ≡ vocab_of 0 t.tokens []

-- A tokenizer of byte-level BPE: at most 2 ^ 32 tokens, one for every byte and for what each merge
-- makes.
pub record IsByteLevel (t : Tokenizer) : Type 0 where
  pub maps : IsMapped t
  pub few : length t.tokens ≤ 2 ^ 32
  pub byte_known :
      (b : ℕ)
      → b < 256
      → (id : ℕ) × (index_get t.vocab_map (encode_utf8 (get_or bytes_to_unicode b b' ')) ≡ some id)
  pub merge_known :
      (l r : Piece) (k : ℕ)
      → rank_get t.merge_ranks l r ≡ some k
      → (id : ℕ) × (index_get t.vocab_map (l ++ r) ≡ some id)

-- From the start of a character the pre-tokenizer finds a chunk right there, of one character or more.
abbrev pub Tiles : Tokenizer → List ℕ → Type 0
Tiles t text =
    (from : ℕ)
    → from < length text
    → is_boundary text from ≡ true
    → (z : ℕ) × (t.find_from_pos text from ≡ some (from, z))
      × (from < z)
      × (z ≤ length text)
      × (is_boundary text z ≡ true)

module _ (t : Tokenizer) (level : IsByteLevel t) where
  abbrev Known : Piece → Type 0
  Known x = (id : ℕ) × (index_get t.vocab_map x ≡ some id)

  byte_pieces-Known :
      (bs : List ℕ) → All (λ b. b < 256) bs → All Known (byte_pieces bytes_to_unicode bs)
  unfolding byte_pieces
  byte_pieces-Known [] h = tt
  byte_pieces-Known (b ∷ bs) (h, hs) = (level.byte_known b h, byte_pieces-Known bs hs)

  merge_at-Known :
      (i r : ℕ) (w w' : List Piece)
      → pair_rank t.merge_ranks w i ≡ some r
      → merge_at i w ≡ ok w'
      → All Known w
      → All Known w'
  unfolding merge_at pair_rank
  merge_at-Known i r [] w' h run known = cc
  merge_at-Known i r (l ∷ []) w' h run known = cc
  merge_at-Known zero r (l ∷ x ∷ w) w' h run (a, (b, known)) =
      let same : (l ++ x) ∷ w ≡ w' = ok_unique (merge_at 0 (l ∷ x ∷ w)) refl run in
      subst (λ v. All Known v) same (level.merge_known l x r h, known)
  merge_at-Known (suc i) r (l ∷ x ∷ w) w' h run (a, known) =
      let inner = merge_at-Joins t.merge_ranks i r (x ∷ w) h in
      let same : l ∷ inner.word ≡ w' =
        ok_unique (merge_at (suc i) (l ∷ x ∷ w)) (rw inner.runs) run in
      subst (λ v. All Known v) same (a, merge_at-Known i r (x ∷ w) inner.word h inner.runs known)

  Merges-Known : {w w' : List Piece} → Merges t.merge_ranks w w' → All Known w → All Known w'
  Merges-Known (settled h) known = known
  Merges-Known (joined {w} {w'} i r low lt run rest) known =
      Merges-Known rest (merge_at-Known i r w w' low.at run known)

  sound : IsSound t.tokens t.vocab_map
  sound =
      subst (λ m. IsSound t.tokens m) (sym level.maps.vocab) (vocab_of-IsSound t.tokens level.few)

  ids_of-some :
      (w : List Piece) (x : Piece) (id : ℕ)
      → index_get t.vocab_map x ≡ some id
      → ids_of t.vocab_map (x ∷ w) ≡ id ∷ ids_of t.vocab_map w
  unfolding ids_of
  ids_of-some w x id e = rw (ids_of, e)

  join-ids_of : (w : List Piece) → All Known w → join t (ids_of t.vocab_map w) ≡ flatten w
  unfolding join ids_of flatten token_str
  join-ids_of [] h = refl
  join-ids_of (x ∷ w) ((id, e), h) =
      ap (λ ids. join t ids) (ids_of-some w x id e)
      ∙ ap (λ s. s ++ join t (ids_of t.vocab_map w)) (sound.looks_up x id e)
      ∙ ap (λ s. x ++ s) (join-ids_of w h)

  join-append : (ids more : List ℕ) → join t (ids ++ more) ≡ join t ids ++ join t more
  unfolding join
  join-append [] more = refl
  join-append (id ∷ ids) more =
      ap (λ s. token_str t id ++ s) (join-append ids more)
      ∙ sym (append_assoc (token_str t id) (join t ids) (join t more))

  -- A chunk becomes ids whose tokens are the characters of its bytes.
  encode_chunk-join :
      (chunk : List ℕ)
      → All (λ b. b < 256) chunk
      → (ids : List ℕ) × (encode_chunk t chunk ≡ ok ids)
        × (join t ids ≡ flatten (byte_pieces bytes_to_unicode chunk))
  unfolding encode_chunk
  encode_chunk-join chunk h =
      let word = byte_pieces bytes_to_unicode chunk in
      let (w, run, merges) = merge_all-Merges t.merge_ranks (length word) word (omega arith) in
      (
        ids_of t.vocab_map w,
        rw (level.maps.encoder, run),
        join-ids_of w (Merges-Known merges (byte_pieces-Known chunk h))
            ∙ Merges-flatten t.merge_ranks merges,
      )

  take-All : (n : ℕ) (bs : List ℕ) → All (λ b. b < 256) bs → All (λ b. b < 256) (take n bs)
  take-All zero bs h = tt
  take-All (suc n) [] h = tt
  take-All (suc n) (b ∷ bs) (h, hs) = (h, take-All n bs hs)

  drop-All : (n : ℕ) (bs : List ℕ) → All (λ b. b < 256) bs → All (λ b. b < 256) (drop n bs)
  drop-All zero bs h = h
  drop-All (suc n) [] h = tt
  drop-All (suc n) (b ∷ bs) (h, hs) = drop-All n bs hs

  drop-past : (n : ℕ) (bs : List ℕ) → length bs ≤ n → drop n bs ≡ []
  drop-past n [] h = drop-nil n
  drop-past zero (b ∷ bs) h = absurd (omega arith)
  drop-past (suc n) (b ∷ bs) h = drop-past n bs (omega arith)

  take-drop-from :
      (z from : ℕ) (bs : List ℕ)
      → from ≤ z
      → take (z - from) (drop from bs) ++ drop z bs ≡ drop from bs
  take-drop-from z from bs h =
      let sum : from + (z - from) ≡ z = omega arith in
      ap (λ s. take (z - from) (drop from bs) ++ s)
        (sym (drop-drop from (z - from) bs ∙ ap (λ n. drop n bs) sum))
      ∙ take-append-drop (z - from) (drop from bs)

  byte_pieces-append :
      (bs cs : List ℕ)
      → flatten (byte_pieces bytes_to_unicode (bs ++ cs))
        ≡ flatten (byte_pieces bytes_to_unicode bs) ++ flatten (byte_pieces bytes_to_unicode cs)
  unfolding byte_pieces flatten
  byte_pieces-append [] cs = refl
  byte_pieces-append (b ∷ bs) cs =
      let c = encode_utf8 (get_or bytes_to_unicode b b' ') in
      ap (λ s. c ++ s) (byte_pieces-append bs cs)
      ∙ sym (append_assoc c (flatten (byte_pieces bytes_to_unicode bs)) _)

  encode_from-join :
      (text : List ℕ) (f from : ℕ)
      → All (λ b. b < 256) text
      → Tiles t text
      → is_boundary text from ≡ true
      → length text ≤ f + from
      → (ids : List ℕ) × (encode_from t text f from ≡ ok ids)
        × (join t ids ≡ flatten (byte_pieces bytes_to_unicode (drop from text)))
  unfolding encode_from join flatten
  encode_from-join text zero from bytes tiles begins enough =
      let over = le→ltb from (length text) (omega arith) in
      (
        [],
        rw over,
        sym (
            ap (λ s. flatten (byte_pieces bytes_to_unicode s)) (drop-past from text (omega arith))),
      )
  encode_from-join text (suc f) from bytes tiles begins enough =
      elim (Bool-cases (ltb from (length text))) [
        | inl inside ↦
            let (z, at, some_byte, fits, ends) =
              tiles from (ltb→lt from (length text) inside) begins in
            let sliced = slice_ok text from z (omega arith) fits begins ends in
            let (ids, run, front) =
              encode_chunk-join (take (z - from) (drop from text))
                (take-All (z - from) (drop from text) (drop-All from text bytes)) in
            let (more, rest, back) = encode_from-join text f z bytes tiles ends (omega arith) in
            let next : max z (from + 1) ≡ z = omega arith in
            (
              ids ++ more,
              rw (inside, at, sliced, run, next, rest),
              join-append ids more
                  ∙ ap (λ s. s ++ join t more) front
                  ∙ ap
                      (λ s.
                        flatten (byte_pieces bytes_to_unicode (take (z - from) (drop from text)))
                        ++ s)
                      back
                  ∙ sym (byte_pieces-append (take (z - from) (drop from text)) (drop z text))
                  ∙ ap (λ s. flatten (byte_pieces bytes_to_unicode s))
                      (take-drop-from z from text (omega arith)),
            )
        | inr past ↦ (
          [],
          rw past,
          sym (
              ap (λ s. flatten (byte_pieces bytes_to_unicode s))
                (drop-past from text (ltb→le from (length text) past))),
        )
      ]

  starts : (text : List ℕ) → is_boundary text 0 ≡ true
  unfolding is_boundary
  starts text = refl

  -- A text of bytes that is UTF-8 and that the pre-tokenizer cuts into chunks
  -- of whole characters is encoded, and its
  -- ids are decoded to the text. The tokenizer has a token for every byte and for what each merge
  -- makes, and at most 2 ^ 32 tokens.
  pub decode-encode :
      (from_utf8_lossy : List ℕ → List ℕ) (text : List ℕ)
      → ((s : List ℕ) → is_utf8 s ≡ true → from_utf8_lossy s ≡ s)
      → All (λ b. b < 256) text
      → is_utf8 text ≡ true
      → Tiles t text
      → (ids : List ℕ) × (encode t text ≡ ok ids) × (decode from_utf8_lossy t ids ≡ text)
  unfolding encode decode decode_bytes
  decode-encode lossy text keeps bytes valid tiles =
      let (ids, run, joined_text) =
        encode_from-join text (length text) 0 bytes tiles (starts text) (omega arith) in
      (
        ids,
        run,
        rw (level.maps.decoder, joined_text, unmap-byte_pieces text bytes) (keeps text valid),
      )
