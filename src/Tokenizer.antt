-- ===== src/Tokenizer.antt =====
-- The byte-level tokenizer of src/tokenizer.rs. A string is its UTF-8 bytes.
pub mod Chars
pub mod Alphabet
pub mod Merge
pub mod Lowest
pub mod Vocab
pub mod RoundTrip
pub mod Load
pub mod Loaded
pub mod Gemma
pub mod Total
mod Tests
use reinstinct.Base.{
  ℕ, zero, suc, ◌+◌, ◌-◌, ◌*◌, ◌%◌, ◌^◌, Bool, true, false, not, ◌&&◌, ◌||◌, Option, some, none,
  List, [], ◌∷◌, ◌++◌, length, set, get_elem?, get_or, take, drop, replicate, max, ltb, leb, ◌==◌,
  if◌then◌else◌, Outcome, ok, err, panic, stuck, ◌>>=◌,
}
use reinstinct.Base.Utf8.{encode_utf8, chars}
use reinstinct.Gguf.File.{Index, text_eq, index_get, index_insert}

pub data TokenizerError : Type 0 where
  missing : List ℕ → TokenizerError
  not_gpt2 not_gemma non_string_token tokens_not_array bad_regex : TokenizerError

abbrev pub Piece : Type 0
Piece = List ℕ

unfoldable pub range : ℕ → ℕ → List ℕ
range b zero = []
range b (suc n) = b ∷ range (b + 1) n

unfoldable pub contains : ℕ → List ℕ → Bool
contains b [] = false
contains b (x ∷ xs) = let rest = contains b xs in if x == b then true else rest

-- The bytes that stand for themselves.
unfoldable pub printable : List ℕ
unfolding range
printable = range b'!' 94 ++ (range 0xa1 12 ++ range 0xae 82)

-- `for b in 0..256`, of which the given number of rounds is left.
unfoldable pub extend : ℕ → ℕ → ℕ → List ℕ → List ℕ → List ℕ × List ℕ
unfolding contains
extend zero b n bs cs = (bs, cs)
extend (suc k) b n bs cs =
    let (n', bs', cs') : ℕ × List ℕ × List ℕ =
      if contains b bs then (n, bs, cs) else (n + 1, bs ++ (b ∷ []), cs ++ ((256 + n) ∷ [])) in
    extend k (b + 1) n' bs' cs'

-- `out[b] = c` for the pairs of the two lists.
unfoldable pub fill : List ℕ → List ℕ → List ℕ → List ℕ
fill (b ∷ bs) (c ∷ cs) out = fill bs cs (set out b c)
fill _ _ out = out

unfoldable pub bytes_to_unicode : List ℕ
unfolding printable extend fill
bytes_to_unicode =
    let (bs, cs) = extend 256 0 0 printable printable in fill bs cs (replicate 256 b' ')

-- A `HashMap<char, u8>`.
abbrev pub Decoder : Type 0
Decoder = List (ℕ × ℕ)

unfoldable pub decoder_get : Decoder → ℕ → Option ℕ
decoder_get [] c = none
decoder_get ((k, b) ∷ m) c = let rest = decoder_get m c in if k == c then some b else rest

-- `for (b, c) in byte_encoder.iter().enumerate()`, from `b` on.
unfoldable pub decoder_of : ℕ → List ℕ → Decoder → Decoder
decoder_of b [] m = m
decoder_of b (c ∷ cs) m = decoder_of (b + 1) cs ((c, b) ∷ m)

-- A `HashMap<(String, String), u32>`.
abbrev pub Ranks : Type 0
Ranks = List ((Piece × Piece) × ℕ)

unfoldable pub rank_get : Ranks → Piece → Piece → Option ℕ
unfolding text_eq
rank_get [] l r = none
rank_get (((a, b), k) ∷ m) l r =
    let rest = rank_get m l r in if text_eq a l && text_eq b r then some k else rest

abbrev pub u32_max : ℕ
u32_max = 2 ^ 32 - 1

-- `best_rank` and `best_idx`, which is `usize::MAX` while there is none.
pub record Best : Type 0 where
  pub rank : ℕ
  pub idx : Option ℕ

abbrev pub no_best : Best
no_best = record { rank = u32_max; idx = none }

abbrev pub better : ℕ → Option ℕ → Best → Best
better i none best = best
better i (some r) best = if ltb r best.rank then record { rank = r; idx = some i } else best

-- The scan of the adjacent pairs, from pair `i` on.
unfoldable pub find_best : Ranks → ℕ → List Piece → Best → Best
unfolding rank_get
find_best m i [] best = best
find_best m i (l ∷ []) best = best
find_best m i (l ∷ r ∷ w) best = find_best m (i + 1) (r ∷ w) (better i (rank_get m l r) best)

-- Writing the joined piece at `i`, and removing the one behind it.
unfoldable pub merge_at : ℕ → List Piece → Outcome TokenizerError (List Piece)
merge_at zero (l ∷ r ∷ w) = ok ((l ++ r) ∷ w)
merge_at (suc i) (x ∷ w) = merge_at i w >>= λ w'. ok (x ∷ w')
merge_at _ _ = panic

-- The greedy loop. A round removes a piece, so it ends within `length word` rounds.
unfoldable pub merge_all : Ranks → ℕ → List Piece → Outcome TokenizerError (List Piece)
unfolding find_best merge_at
merge_all m zero w = elim (find_best m 0 w no_best).idx [ none ↦ ok w | some i ↦ stuck ]
merge_all m (suc f) w = elim (find_best m 0 w no_best).idx [
  | none ↦ ok w
  | some i ↦ merge_at i w >>= λ w'. merge_all m f w'
]

-- The ids of the pieces; a piece that is not in the vocabulary is left out.
unfoldable pub ids_of : Index → List Piece → List ℕ
unfolding index_get
ids_of vocab [] = []
ids_of vocab (x ∷ w) =
    let rest = ids_of vocab w in elim (index_get vocab x) [ none ↦ rest | some id ↦ id ∷ rest ]

-- `s.find(' ')`, and the text on both sides of it.
unfoldable pub split_space : List ℕ → Option (Piece × Piece)
split_space [] = none
split_space (c ∷ cs) =
    let rest : Option (Piece × Piece) = elim (split_space cs) [
      | none ↦ none
      | some (l, r) ↦ some (c ∷ l, r)
    ] in
    if c == b' ' then some ([], cs) else rest

-- `for (id, s) in tokens.iter().enumerate()`, from `id` on.
unfoldable pub vocab_of : ℕ → List Piece → Index → Index
vocab_of id [] m = m
vocab_of id (s ∷ ts) m = vocab_of (id + 1) ts (index_insert s (id % 2 ^ 32) m)

pub record Tokenizer : Type 0 where
  pub tokens : List Piece
  pub byte_decoder : Decoder
  pub byte_encoder : List ℕ
  pub vocab_map : Index
  pub merge_ranks : Ranks
  -- `pre_regex.find_from_pos`: where the next chunk starts and ends.
  pub find_from_pos : List ℕ → ℕ → Option (ℕ × ℕ)
  pub eos_id : ℕ

-- The one-character pieces of a chunk.
unfoldable pub byte_pieces : List ℕ → List ℕ → List Piece
unfolding encode_utf8
byte_pieces encoder [] = []
byte_pieces encoder (b ∷ bs) = encode_utf8 (get_or encoder b b' ') ∷ byte_pieces encoder bs

unfoldable pub encode_chunk : Tokenizer → List ℕ → Outcome TokenizerError (List ℕ)
unfolding merge_all ids_of byte_pieces
encode_chunk t chunk =
    let word = byte_pieces t.byte_encoder chunk in
    merge_all t.merge_ranks (length word) word >>= λ w. ok (ids_of t.vocab_map w)

-- `is_char_boundary`: the start, the end, or no continuation byte.
unfoldable pub is_boundary : List ℕ → ℕ → Bool
is_boundary text i =
    i == 0
    || i == length text
    || (ltb i (length text) && not (leb 128 (get_or text i 0) && leb (get_or text i 0) 191))

-- `&text[a..z]`, which panics on an inverted range, past the end and inside a character.
unfoldable pub slice : List ℕ → ℕ → ℕ → Outcome TokenizerError (List ℕ)
unfolding is_boundary
slice text a z =
    if leb a z && leb z (length text) && is_boundary text a && is_boundary text z
    then ok (take (z - a) (drop a text))
    else panic

-- The loop of `encode`, from `search_from` on.
unfoldable pub encode_from : Tokenizer → List ℕ → ℕ → ℕ → Outcome TokenizerError (List ℕ)
unfolding encode_chunk slice
encode_from t text zero from = if ltb from (length text) then stuck else ok []
encode_from t text (suc f) from =
    let found : Outcome TokenizerError (List ℕ) = elim (t.find_from_pos text from) [
      | none ↦ ok []
      | some (a, z) ↦ slice text a z >>= λ chunk. encode_chunk t chunk >>= λ ids.
          encode_from t text f (max z (from + 1)) >>= λ more. ok (ids ++ more)
    ] in
    if ltb from (length text) then found else ok []

-- `search_from` grows in each round.
unfoldable pub encode : Tokenizer → List ℕ → Outcome TokenizerError (List ℕ)
unfolding encode_from
encode t text = encode_from t text (length text) 0

abbrev pub unk : Piece
unk = b'<' ∷ b'u' ∷ b'n' ∷ b'k' ∷ b'>' ∷ []

unfoldable pub token_str : Tokenizer → ℕ → Piece
token_str t id = get_or t.tokens id unk

unfoldable pub token_id : Tokenizer → Piece → Option ℕ
token_id t s = index_get t.vocab_map s

unfoldable pub vocab_size : Tokenizer → ℕ
vocab_size t = length t.tokens

unfoldable pub join : Tokenizer → List ℕ → List ℕ
unfolding token_str
join t [] = []
join t (id ∷ ids) = token_str t id ++ join t ids

-- The bytes that a character stands for; another one stays as it is.
unfoldable pub unmap : Decoder → List ℕ → List ℕ
unfolding decoder_get encode_utf8
unmap m [] = []
unmap m (c ∷ cs) = elim (decoder_get m c) [ none ↦ encode_utf8 c | some b ↦ b ∷ [] ] ++ unmap m cs

-- `decode`, up to the final `String::from_utf8_lossy`.
unfoldable pub decode_bytes : Tokenizer → List ℕ → List ℕ
unfolding join unmap chars
decode_bytes t ids = unmap t.byte_decoder (chars (join t ids))

-- `from_utf8_lossy` is the standard library's, which leaves valid UTF-8 as it is.
unfoldable pub decode : (List ℕ → List ℕ) → Tokenizer → List ℕ → List ℕ
unfolding decode_bytes
decode from_utf8_lossy t ids = from_utf8_lossy (decode_bytes t ids)
