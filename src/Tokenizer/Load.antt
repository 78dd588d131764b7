-- ===== src/Tokenizer/Load.antt =====
-- Tokenizers read from a model file: src/tokenizer.rs.
use reinstinct.Base.{
  ℕ, ◌+◌, ◌%◌, ◌^◌, Option, some, none, List, [], ◌∷◌, if◌then◌else◌, Outcome, ok, err, panic,
  stuck, ◌>>=◌,
}
use reinstinct.Gguf.Value.{MetaValue, Values, string, array, nil, cons}
use reinstinct.Gguf.Value.Coerce.{as_u32}
use reinstinct.Gguf.File.{GgufFile, text_eq, metadata_get}
use reinstinct.Tokenizer.{
  TokenizerError, missing, not_gpt2, non_string_token, tokens_not_array, bad_regex, Piece, Ranks,
  Tokenizer, bytes_to_unicode, decoder_of, vocab_of, split_space,
}

abbrev pub model_key : List ℕ
model_key =
    b't' ∷ b'o' ∷ b'k' ∷ b'e' ∷ b'n' ∷ b'i' ∷ b'z' ∷ b'e' ∷ b'r' ∷ b'.' ∷ b'g' ∷ b'g' ∷ b'm' ∷ b'l'
    ∷ b'.' ∷ b'm' ∷ b'o' ∷ b'd' ∷ b'e' ∷ b'l' ∷ []

abbrev pub tokens_key : List ℕ
tokens_key =
    b't' ∷ b'o' ∷ b'k' ∷ b'e' ∷ b'n' ∷ b'i' ∷ b'z' ∷ b'e' ∷ b'r' ∷ b'.' ∷ b'g' ∷ b'g' ∷ b'm' ∷ b'l'
    ∷ b'.' ∷ b't' ∷ b'o' ∷ b'k' ∷ b'e' ∷ b'n' ∷ b's' ∷ []

abbrev pub eos_key : List ℕ
eos_key =
    b't' ∷ b'o' ∷ b'k' ∷ b'e' ∷ b'n' ∷ b'i' ∷ b'z' ∷ b'e' ∷ b'r' ∷ b'.' ∷ b'g' ∷ b'g' ∷ b'm' ∷ b'l'
    ∷ b'.' ∷ b'e' ∷ b'o' ∷ b's' ∷ b'_' ∷ b't' ∷ b'o' ∷ b'k' ∷ b'e' ∷ b'n' ∷ b'_' ∷ b'i' ∷ b'd' ∷ []

abbrev pub bos_key : List ℕ
bos_key =
    b't' ∷ b'o' ∷ b'k' ∷ b'e' ∷ b'n' ∷ b'i' ∷ b'z' ∷ b'e' ∷ b'r' ∷ b'.' ∷ b'g' ∷ b'g' ∷ b'm' ∷ b'l'
    ∷ b'.' ∷ b'b' ∷ b'o' ∷ b's' ∷ b'_' ∷ b't' ∷ b'o' ∷ b'k' ∷ b'e' ∷ b'n' ∷ b'_' ∷ b'i' ∷ b'd' ∷ []

abbrev pub merges_key : List ℕ
merges_key =
    b't' ∷ b'o' ∷ b'k' ∷ b'e' ∷ b'n' ∷ b'i' ∷ b'z' ∷ b'e' ∷ b'r' ∷ b'.' ∷ b'g' ∷ b'g' ∷ b'm' ∷ b'l'
    ∷ b'.' ∷ b'm' ∷ b'e' ∷ b'r' ∷ b'g' ∷ b'e' ∷ b's' ∷ []

abbrev pub gpt2 : List ℕ
gpt2 = b'g' ∷ b'p' ∷ b't' ∷ b'2' ∷ []

abbrev pub gemma4 : List ℕ
gemma4 = b'g' ∷ b'e' ∷ b'm' ∷ b'm' ∷ b'a' ∷ b'4' ∷ []

-- `gguf.metadata_get(key)`, which has no error of its own.
unfoldable pub entry : GgufFile → List ℕ → Outcome TokenizerError (Option MetaValue)
unfolding metadata_get
entry file key = elim (metadata_get file key) [
  | panic ↦ panic
  | stuck ↦ stuck
  | err e ↦ panic
  | ok found ↦ ok found
]

abbrev pub ok_or {ℓ} : {A : Type ℓ} → TokenizerError → Option A → Outcome TokenizerError A
ok_or why none = err why
ok_or why (some a) = ok a

-- The model must be the one that is named.
abbrev pub check_model : List ℕ → TokenizerError → MetaValue → Outcome TokenizerError (Unit {0})
check_model name why (string s) = if text_eq s name then ok tt else err why
check_model name why _ = err why

abbrev pub as_string : MetaValue → Outcome TokenizerError Piece
as_string (string s) = ok s
as_string _ = err non_string_token

unfoldable pub strings : Values → Outcome TokenizerError (List Piece)
strings nil = ok []
strings (cons v vs) = do s ← as_string v; ss ← strings vs; ok (s ∷ ss)

abbrev pub token_strings : MetaValue → Outcome TokenizerError (List Piece)
token_strings (array ty vs) = strings vs
token_strings _ = err tokens_not_array

-- `m.insert((l, r), rank as u32)` for a string with a space.
unfoldable pub insert_merge : ℕ → MetaValue → Ranks → Ranks
unfolding split_space
insert_merge rank (string s) m = elim (split_space s) [ none ↦ m | some p ↦ (p, rank % 2 ^ 32) ∷ m ]
insert_merge rank _ m = m

-- `for (rank, v) in values.iter().enumerate()`, from `rank` on.
unfoldable pub ranks_of : ℕ → Values → Ranks → Ranks
unfolding insert_merge
ranks_of rank nil m = m
ranks_of rank (cons v vs) m = ranks_of (rank + 1) vs (insert_merge rank v m)

abbrev pub merges : Option MetaValue → Outcome TokenizerError Ranks
merges (some (array ty vs)) = ok (ranks_of 0 vs [])
merges _ = err (missing merges_key)

abbrev pub find_id : Option MetaValue → Option ℕ
find_id none = none
find_id (some v) = as_u32 v

-- `pre_regex` is what compiling the pre-tokenizer's pattern gives.
unfoldable pub from_gguf :
    Option (List ℕ → ℕ → Option (ℕ × ℕ)) → GgufFile → Outcome TokenizerError Tokenizer
unfolding entry strings ranks_of
from_gguf pre_regex gguf = do
  found ← entry gguf model_key
  model ← ok_or (missing model_key) found
  _ ← check_model gpt2 not_gpt2 model
  found ← entry gguf tokens_key
  listed ← ok_or (missing tokens_key) found
  tokens ← token_strings listed
  found ← entry gguf eos_key
  eos_id ← ok_or (missing eos_key) (find_id found)
  found ← entry gguf merges_key
  merge_ranks ← merges found
  regex ← ok_or bad_regex pre_regex
  ok (record {
    tokens = tokens;
    byte_decoder = decoder_of 0 bytes_to_unicode [];
    byte_encoder = bytes_to_unicode;
    vocab_map = vocab_of 0 tokens [];
    merge_ranks = merge_ranks;
    find_from_pos = regex;
    eos_id = eos_id;
  })
