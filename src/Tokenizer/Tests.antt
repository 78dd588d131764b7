-- ===== src/Tokenizer/Tests.antt =====
-- Runs of src/tokenizer.rs on small vocabularies, and its theorems at concrete inputs.
use reinstinct.Base.{
  ℕ, zero, suc, ◌<◌, ◌≡◌, refl, sym, ap, ◌∙◌, arith, Bool, true, false, ◌&&◌, and_true, Bool-cases,
  Option-cases, inl, inr, Option, some, none, List, [], ◌∷◌, ◌++◌, map, length, get_or, All, min,
  ok, ltb, ltb→lt, if◌then◌else◌,
}
use reinstinct.Base.Utf8.{is_utf8, encode_utf8}
use reinstinct.Gguf.Value.{MetaValue, u32, string, array, nil, cons}
use reinstinct.Gguf.Types.{GgufValueType}
use reinstinct.Gguf.File.{GgufFile, Index, text_eq, index_get, index_insert}
use reinstinct.Gguf.File.Index.{Indexes, Indexes-nil, Indexes-insert}
use reinstinct.Gguf.File.Loaded.{entry_key}
use reinstinct.Tokenizer.{
  Tokenizer, Piece, Ranks, bytes_to_unicode, rank_get, merge_all, encode, decode, vocab_of,
  is_boundary,
}
use reinstinct.Tokenizer.Alphabet.{byte_decoder}
use reinstinct.Tokenizer.Merge.{Merges, merge_all-Merges}
use reinstinct.Tokenizer.Vocab.{text_eq_sound}
use reinstinct.Tokenizer.RoundTrip.{IsByteLevel, Tiles, decode-encode}
use reinstinct.Tokenizer.Load.{model_key, tokens_key, eos_key, merges_key, gpt2}
use reinstinct.Tokenizer.Gemma.{GemmaTokenizer}

abbrev h : Piece
h = b'h' ∷ []

abbrev i : Piece
i = b'i' ∷ []

abbrev hi : Piece
hi = b'h' ∷ b'i' ∷ []

-- Every byte has a token, and there is one merge.
abbrev tokens : List Piece
tokens = map encode_utf8 bytes_to_unicode ++ (hi ∷ [])

abbrev ranks : Ranks
ranks = ((h, i), 0) ∷ []

-- Chunks of three bytes and of the rest.
abbrev chunks : List ℕ → ℕ → Option (ℕ × ℕ)
chunks text from = some (from, if ltb from 3 then min 3 (length text) else length text)

abbrev small : Tokenizer
small = record {
  tokens = tokens;
  byte_decoder = byte_decoder;
  byte_encoder = bytes_to_unicode;
  vocab_map = vocab_of 0 tokens [];
  merge_ranks = ranks;
  find_from_pos = chunks;
  eos_id = 256;
}

-- `hi!é`
abbrev text : List ℕ
text = b'h' ∷ b'i' ∷ b'!' ∷ 0xc3 ∷ 0xa9 ∷ []

unfoldable all_known : Index → List ℕ → Bool
unfolding index_get
all_known m [] = true
all_known m (c ∷ cs) =
    elim (index_get m (encode_utf8 c)) [ none ↦ false | some id ↦ true ] && all_known m cs

all_known_small : all_known (vocab_of 0 tokens []) bytes_to_unicode ≡ true
unfolding all_known vocab_of bytes_to_unicode index_get encode_utf8 text_eq
all_known_small = refl

known_at :
    (m : Index) (cs : List ℕ) (b d : ℕ)
    → all_known m cs ≡ true
    → b < length cs
    → (id : ℕ) × (index_get m (encode_utf8 (get_or cs b d)) ≡ some id)
unfolding all_known
known_at m [] b d e lt = absurd (omega arith)
known_at m (c ∷ cs) zero d e lt = elim (Option-cases (index_get m (encode_utf8 c))) [
  | inl gone ↦ let bad : false ≡ true = sym (rw (all_known, gone)) ∙ e in cc
  | inr found ↦ found
]
known_at m (c ∷ cs) (suc b) d e lt =
    known_at m cs b d (and_true _ (all_known m cs) e).1 (omega arith)

table_length : length bytes_to_unicode ≡ 256
unfolding bytes_to_unicode
table_length = refl

hi_known : index_get (vocab_of 0 tokens []) hi ≡ some 256
unfolding vocab_of bytes_to_unicode index_get encode_utf8 text_eq
hi_known = refl

merge_known :
    (l r : Piece) (k : ℕ)
    → rank_get ranks l r ≡ some k
    → (id : ℕ) × (index_get (vocab_of 0 tokens []) (l ++ r) ≡ some id)
unfolding rank_get
merge_known l r k e = elim (Bool-cases (text_eq h l && text_eq i r)) [
  | inl same ↦
      let (a, b) = and_true (text_eq h l) (text_eq i r) same in
      let whole : hi ≡ l ++ r =
        ap (λ x. x ++ i) (text_eq_sound h l a) ∙ ap (λ x. l ++ x) (text_eq_sound i r b) in
      (256, ap (λ x. index_get (vocab_of 0 tokens []) x) (sym whole) ∙ hi_known)
  | inr other ↦ let bad : none ≡ some k = sym (rw (rank_get, other)) ∙ e in cc
]

few_tokens : length tokens ≡ 257
unfolding bytes_to_unicode
few_tokens = refl

small_level : IsByteLevel small
small_level = record {
  maps = record { encoder = refl; decoder = refl; vocab = refl };
  few = omega (arith, few_tokens);
  byte_known = λ b lt.
      known_at (vocab_of 0 tokens []) bytes_to_unicode b b' ' all_known_small
        (omega (arith, table_length));
  merge_known = merge_known;
}

text-Tiles : Tiles small text
unfolding is_boundary
text-Tiles from lt begins = elim (Bool-cases (ltb from 3)) [
  | inl front ↦ (3, rw front refl, ltb→lt from 3 front, omega arith, refl)
  | inr back ↦ (5, rw back refl, lt, omega arith, refl)
]

text-All : All (λ b. b < 256) text
text-All = (omega arith, (omega arith, (omega arith, (omega arith, (omega arith, tt)))))

text_valid : is_utf8 text ≡ true
unfolding is_utf8
text_valid = refl

decode-encode_example :
    (ids : List ℕ) × (encode small text ≡ ok ids) × (decode (λ s. s) small ids ≡ text)
decode-encode_example =
    decode-encode small small_level (λ s. s) text (λ s e. refl) text-All text_valid text-Tiles

merge_all-Merges_example :
    (w : List Piece) × (merge_all ranks 3 (h ∷ i ∷ h ∷ []) ≡ ok w) × Merges ranks (h ∷ i ∷ h ∷ []) w
merge_all-Merges_example = merge_all-Merges ranks 3 (h ∷ i ∷ h ∷ []) (omega arith)

-- A file with the four entries that a tokenizer needs.
abbrev entries : List (List ℕ × MetaValue)
entries =
    (model_key, string gpt2)
    ∷ (
      tokens_key,
      array GgufValueType.string (cons (string h) (cons (string i) (cons (string hi) nil))),
    )
    ∷ (eos_key, u32 2)
    ∷ (merges_key, array GgufValueType.string (cons (string (b'h' ∷ b' ' ∷ b'i' ∷ [])) nil))
    ∷ []

abbrev index : Index
index =
    index_insert merges_key 3
      (index_insert eos_key 2 (index_insert tokens_key 1 (index_insert model_key 0 [])))

abbrev file : GgufFile
file = record {
  mmap = [];
  header = record { version = 3; tensor_count = 0; metadata_kv_count = 4 };
  metadata = entries;
  metadata_index = index;
  tensors = [];
  tensor_index = [];
  alignment = 32;
  data_section_offset = 0;
}

index_right : Indexes entry_key index entries
index_right = Indexes-insert entry_key _ _ _ (
    Indexes-insert entry_key _ _ _
      (Indexes-insert entry_key _ _ _ (Indexes-insert entry_key _ _ _ (Indexes-nil entry_key))))

abbrev gemma : GemmaTokenizer
gemma = record {
  tokens = h ∷ i ∷ hi ∷ [];
  vocab_map = vocab_of 0 (h ∷ i ∷ hi ∷ []) [];
  merge_ranks = ranks;
  byte_to_id = [];
  id_to_byte = [];
  bos_id = 0;
  eos_id = 1;
}
