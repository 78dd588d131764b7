-- ===== src/Tokenizer/Loaded.antt =====
-- What loading a tokenizer makes of a model file: src/tokenizer.rs.
use reinstinct.Base.{
  ℕ, ◌≡◌, refl, Option, some, none, List, Outcome, ok, Ensures, holds, rejected, Ensures-bind,
  Ensures-if,
}
use mathlib.Core.Option
use reinstinct.Gguf.Value.{MetaValue, Values, string, array, nil, cons}
use reinstinct.Gguf.File.{GgufFile, metadata_get, text_eq}
use reinstinct.Gguf.File.Index.{Indexes, last_named}
use reinstinct.Gguf.File.Loaded.{entry_key}
use reinstinct.Tokenizer.{TokenizerError, missing, bad_regex, not_gpt2}
use reinstinct.Tokenizer.Load.{
  model_key, tokens_key, eos_key, merges_key, gpt2, find_id, entry, ok_or, check_model, as_string,
  strings, token_strings, merges, from_gguf,
}
use reinstinct.Tokenizer.RoundTrip.{IsMapped}

abbrev Returns : {A : Type 0} → Outcome TokenizerError A → Type 0
Returns {A} m = Ensures (λ (_ : A). Unit {0}) m

ok_or-Returns : {A : Type 0} (why : TokenizerError) (o : Option A) → Returns (ok_or why o)
ok_or-Returns why none = rejected
ok_or-Returns why (some a) = holds tt

as_string-Returns : (v : MetaValue) → Returns (as_string v)
as_string-Returns (string s) = holds tt
as_string-Returns _ = rejected

strings-Returns : (vs : Values) → Returns (strings vs)
unfolding strings
strings-Returns nil = holds tt
strings-Returns (cons v vs) =
    Ensures-bind (as_string-Returns v) λ s _. Ensures-bind (strings-Returns vs) λ ss _. holds tt

token_strings-Returns : (v : MetaValue) → Returns (token_strings v)
token_strings-Returns (array ty vs) = strings-Returns vs
token_strings-Returns _ = rejected

check_model-Returns :
    (name : List ℕ) (why : TokenizerError) (v : MetaValue) → Returns (check_model name why v)
check_model-Returns name why (string s) =
    Ensures-if (text_eq s name) (λ _. holds tt) (λ _. rejected)
check_model-Returns name why _ = rejected

merges-Returns : (o : Option MetaValue) → Returns (merges o)
merges-Returns (some (array ty vs)) = holds tt
merges-Returns _ = rejected

metadata_get-found :
    (file : GgufFile) (key : List ℕ)
    → Indexes entry_key file.metadata_index file.metadata
    → metadata_get file key ≡ ok (Option.map (λ (k, v). v) (last_named entry_key file.metadata key))
unfolding metadata_get
metadata_get-found file key h = rw (h.finds key)

entry-Returns :
    (file : GgufFile) (key : List ℕ)
    → Indexes entry_key file.metadata_index file.metadata
    → Returns (entry file key)
unfolding entry
entry-Returns file key h = rw (entry, metadata_get-found file key h) (holds tt)

-- On a file whose metadata index is right, loading a tokenizer neither panics nor gets stuck, and
-- what it gives has the alphabet's maps and the vocabulary of its tokens.
pub from_gguf-IsMapped :
    (pre_regex : Option (List ℕ → ℕ → Option (ℕ × ℕ))) (file : GgufFile)
    → Indexes entry_key file.metadata_index file.metadata
    → Ensures IsMapped (from_gguf pre_regex file)
unfolding from_gguf
from_gguf-IsMapped pre_regex file h = Ensures-bind (entry-Returns file model_key h) λ found _.
    Ensures-bind (ok_or-Returns (missing model_key) found) λ model _.
      Ensures-bind (check_model-Returns gpt2 not_gpt2 model) λ _ _.
        Ensures-bind (entry-Returns file tokens_key h) λ found _.
          Ensures-bind (ok_or-Returns (missing tokens_key) found) λ listed _.
            Ensures-bind (token_strings-Returns listed) λ tokens _.
              Ensures-bind (entry-Returns file eos_key h) λ found _.
                Ensures-bind (ok_or-Returns (missing eos_key) (find_id found)) λ eos_id _.
                  Ensures-bind (entry-Returns file merges_key h) λ found _.
                    Ensures-bind (merges-Returns found) λ merge_ranks _.
                      Ensures-bind (ok_or-Returns bad_regex pre_regex)
                        λ regex _. holds (record { encoder = refl; decoder = refl; vocab = refl })
