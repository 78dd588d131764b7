-- ===== src/Tokenizer/Gemma.antt =====
-- The metaspace tokenizer of src/tokenizer.rs. A string is its UTF-8 bytes.
use reinstinct.Base.{
  ℕ, zero, suc, ◌+◌, ◌/◌, ◌%◌, ◌≡◌, arith, Option, some, none, List, [], ◌∷◌, ◌++◌, map, length,
  get_elem?, get_or, ltb, ◌==◌, if◌then◌else◌, Outcome, ok, ◌>>=◌,
}
use reinstinct.Base.Utf8.{encode_utf8, chars}
use reinstinct.Gguf.Value.{MetaValue, string}
use reinstinct.Gguf.File.{GgufFile, Index, index_get}
use reinstinct.Tokenizer.{
  TokenizerError, missing, not_gemma, tokens_not_array, Piece, Ranks, Decoder, decoder_get,
  vocab_of, merge_all, unk,
}
use reinstinct.Tokenizer.Merge.{Merges, merge_all-Merges}
use reinstinct.Tokenizer.Load.{
  model_key, tokens_key, bos_key, eos_key, merges_key, gemma4, entry, ok_or, check_model,
  token_strings, merges, find_id,
}

pub record GemmaTokenizer : Type 0 where
  pub tokens : List Piece
  pub vocab_map : Index
  pub merge_ranks : Ranks
  pub byte_to_id : List (Option ℕ)
  pub id_to_byte : Decoder
  pub bos_id : ℕ
  pub eos_id : ℕ

abbrev pub metaspace : ℕ
metaspace = 0x2581

unfoldable pub upper_hex : ℕ → ℕ
upper_hex n = if ltb n 10 then 48 + n else 55 + n

-- `<0xXX>`
unfoldable pub byte_token : ℕ → Piece
unfolding upper_hex
byte_token b = b'<' ∷ b'0' ∷ b'x' ∷ upper_hex (b / 16) ∷ upper_hex (b % 16) ∷ b'>' ∷ []

-- `for b in 0..256`, of which the given number of rounds is left.
unfoldable pub byte_tables : ℕ → ℕ → Index → List (Option ℕ) × Decoder → List (Option ℕ) × Decoder
unfolding byte_token index_get
byte_tables zero b vocab tables = tables
byte_tables (suc k) b vocab (ids, back) =
    let tables : List (Option ℕ) × Decoder = elim (index_get vocab (byte_token b)) [
      | none ↦ (ids ++ (none ∷ []), back)
      | some id ↦ (ids ++ (some id ∷ []), (id, b) ∷ back)
    ] in
    byte_tables k (b + 1) vocab tables

-- A file without the model's name is refused like one with another name.
abbrev pub check_gemma : Option MetaValue → Outcome TokenizerError (Unit {0})
check_gemma none = check_model gemma4 not_gemma (string [])
check_gemma (some v) = check_model gemma4 not_gemma v

unfoldable pub from_gguf : GgufFile → Outcome TokenizerError GemmaTokenizer
unfolding entry byte_tables
from_gguf gguf = do
  model ← entry gguf model_key
  _ ← check_gemma model
  found ← entry gguf tokens_key
  listed ← ok_or tokens_not_array found
  tokens ← token_strings listed
  found ← entry gguf bos_key
  bos_id ← ok_or (missing bos_key) (find_id found)
  found ← entry gguf eos_key
  eos_id ← ok_or (missing eos_key) (find_id found)
  found ← entry gguf merges_key
  merge_ranks ← merges found
  let vocab_map = vocab_of 0 tokens []
  let (byte_to_id, id_to_byte) = byte_tables 256 0 vocab_map ([], [])
  ok (record {
    tokens = tokens;
    vocab_map = vocab_map;
    merge_ranks = merge_ranks;
    byte_to_id = byte_to_id;
    id_to_byte = id_to_byte;
    bos_id = bos_id;
    eos_id = eos_id;
  })

-- `format!(" {text}")` with the metaspace for every space.
unfoldable pub prepare : List ℕ → List ℕ
unfolding chars
prepare text = map (λ c. if c == b' ' then metaspace else c) (chars (b' ' ∷ text))

-- A character of the vocabulary is a piece; another one falls back to its bytes.
unfoldable pub char_pieces : Index → ℕ → List Piece
unfolding index_get encode_utf8 byte_token
char_pieces vocab c = elim (index_get vocab (encode_utf8 c)) [
  | none ↦ map byte_token (encode_utf8 c)
  | some id ↦ encode_utf8 c ∷ []
]

unfoldable pub start_word : Index → List ℕ → List Piece
unfolding char_pieces
start_word vocab [] = []
start_word vocab (c ∷ cs) = char_pieces vocab c ++ start_word vocab cs

-- The ids of the bytes that have a token.
unfoldable pub byte_ids : List (Option ℕ) → List ℕ → List ℕ
byte_ids table [] = []
byte_ids table (b ∷ bs) =
    let rest = byte_ids table bs in elim (get_or table b none) [ none ↦ rest | some id ↦ id ∷ rest ]

unfoldable pub ids_of : GemmaTokenizer → List Piece → List ℕ
unfolding byte_ids index_get
ids_of t [] = []
ids_of t (x ∷ w) =
    elim (index_get t.vocab_map x) [ none ↦ byte_ids t.byte_to_id x | some id ↦ id ∷ [] ]
    ++ ids_of t w

unfoldable pub encode : GemmaTokenizer → List ℕ → Outcome TokenizerError (List ℕ)
unfolding prepare start_word merge_all ids_of
encode t text =
    let word = start_word t.vocab_map (prepare text) in
    merge_all t.merge_ranks (length word) word >>= λ w. ok (ids_of t w)

abbrev pub literal_char : ℕ → List ℕ
literal_char c = if c == metaspace then b' ' ∷ [] else encode_utf8 c

unfoldable pub literal : List ℕ → List ℕ
unfolding encode_utf8
literal [] = []
literal (c ∷ cs) = literal_char c ++ literal cs

unfoldable pub token_bytes : GemmaTokenizer → ℕ → List ℕ
unfolding decoder_get literal chars
token_bytes t id = elim (decoder_get t.id_to_byte id) [
  | some b ↦ b ∷ []
  | none ↦ elim (get_elem? t.tokens id) [ none ↦ [] | some s ↦ literal (chars s) ]
]

unfoldable pub decode_bytes : GemmaTokenizer → List ℕ → List ℕ
unfolding token_bytes
decode_bytes t [] = []
decode_bytes t (id ∷ ids) = token_bytes t id ++ decode_bytes t ids

-- `from_utf8_lossy` is the standard library's.
unfoldable pub decode : (List ℕ → List ℕ) → GemmaTokenizer → List ℕ → List ℕ
unfolding decode_bytes
decode from_utf8_lossy t ids = from_utf8_lossy (decode_bytes t ids)

unfoldable pub vocab_size : GemmaTokenizer → ℕ
vocab_size t = length t.tokens

unfoldable pub token_str : GemmaTokenizer → ℕ → Piece
token_str t id = get_or t.tokens id unk

unfoldable pub token_id : GemmaTokenizer → Piece → Option ℕ
unfolding index_get
token_id t s = index_get t.vocab_map s

-- Every text is encoded: its pieces are joined, lowest pair first, until no pair has a rank below the
-- largest u32, and the ids are those of the pieces that are left.
pub encode-Merges :
    (t : GemmaTokenizer) (text : List ℕ)
    → (w : List Piece) × (encode t text ≡ ok (ids_of t w))
      × Merges t.merge_ranks (start_word t.vocab_map (prepare text)) w
unfolding encode
encode-Merges t text =
    let word = start_word t.vocab_map (prepare text) in
    let (w, run, merges) = merge_all-Merges t.merge_ranks (length word) word (omega arith) in
    (w, rw run, merges)
