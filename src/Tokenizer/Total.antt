-- ===== src/Tokenizer/Total.antt =====
-- Every text is encoded where the pre-tokenizer finds ranges of whole characters: src/tokenizer.rs.
use reinstinct.Base.{
  ℕ, zero, suc, ◌+◌, ◌≤◌, ◌≡◌, arith, Bool-cases, Option-cases, inl, inr, List, [], ◌++◌, ◌-◌, take,
  drop, length, max, ltb, ltb→lt, ok, some, true, leb, refl,
}
use reinstinct.Tokenizer.{
  is_boundary, slice, Tokenizer, encode, encode_from, encode_chunk, byte_pieces, ids_of,
}
use reinstinct.Tokenizer.Merge.{merge_all-Merges}

encode_chunk-returns :
    (t : Tokenizer) (chunk : List ℕ) → (ids : List ℕ) × (encode_chunk t chunk ≡ ok ids)
unfolding encode_chunk
encode_chunk-returns t chunk =
    let word = byte_pieces t.byte_encoder chunk in
    let (w, run, _) = merge_all-Merges t.merge_ranks (length word) word (omega arith) in
    (ids_of t.vocab_map w, rw run)

-- The pre-tokenizer's matches are ranges of whole characters of the text.
abbrev pub MatchesChars : Tokenizer → Type 0
MatchesChars t =
    (text : List ℕ) (from a z : ℕ)
    → t.find_from_pos text from ≡ some (a, z)
    → (a ≤ z) × (z ≤ length text) × (is_boundary text a ≡ true) × (is_boundary text z ≡ true)

le→leb_true : (a b : ℕ) → a ≤ b → leb a b ≡ true
le→leb_true a b h = ground arith

pub slice_ok :
    (text : List ℕ) (a z : ℕ)
    → a ≤ z
    → z ≤ length text
    → is_boundary text a ≡ true
    → is_boundary text z ≡ true
    → slice text a z ≡ ok (take (z - a) (drop a text))
unfolding slice
slice_ok text a z h k b c = rw (le→leb_true a z h, le→leb_true z (length text) k, b, c) refl

encode_from-returns :
    (t : Tokenizer)
    → MatchesChars t
    → (text : List ℕ) (f from : ℕ) → length text ≤ f + from
    → (ids : List ℕ) × (encode_from t text f from ≡ ok ids)
unfolding encode_from
encode_from-returns t chars text zero from enough = elim (Bool-cases (ltb from (length text))) [
  | inl inside ↦ let lt = ltb→lt from (length text) inside in absurd (omega arith)
  | inr past ↦ ([], rw past)
]
encode_from-returns t chars text (suc f) from enough = elim (Bool-cases (ltb from (length text))) [
  | inr past ↦ ([], rw past)
  | inl inside ↦ elim (Option-cases (t.find_from_pos text from)) [
    | inl nothing ↦ ([], rw (inside, nothing))
    | inr ((a, z), found) ↦
        let (le, fits, start, stop) = chars text from a z found in
        let (ids, run) = encode_chunk-returns t (take (z - a) (drop a text)) in
        let (more, rest) = encode_from-returns t chars text f (max z (from + 1)) (omega arith) in
        (ids ++ more, rw (inside, found, slice_ok text a z le fits start stop, run, rest))
  ]
]

pub encode-returns :
    (t : Tokenizer) → MatchesChars t → (text : List ℕ) → (ids : List ℕ) × (encode t text ≡ ok ids)
unfolding encode
encode-returns t chars text = encode_from-returns t chars text (length text) 0 (omega arith)
