-- ===== src/Chat/Tests.antt =====
-- Conversations rendered on small vocabularies, after the unit tests of src/chat.rs.
use reinstinct.Base.{
  ℕ, ◌≡◌, ◌⊎◌, refl, sym, arith, true, false, ◌&&◌, and_true, Bool-cases, inl, inr, Option, none,
  some, leb, leb→le, if◌then◌else◌, List, [], ◌∷◌, ◌++◌, length, ok, err,
}
use reinstinct.Base.Text.{codes}
use reinstinct.Gguf.File.{text_eq, index_get}
use reinstinct.Chat.{
  ChatMessage, user, assistant, bad_effort, format_gemma4, format_gemma4_user_turn, format_qwen3,
  instruction_of, qwen3_reasoning_instruction, qwen_turns, qwen_prompt, Qwen3ThinkOpts,
  qwen_im_start, qwen_newline,
}
use reinstinct.Chat.Detect.{
  Qwen3ThinkSpec, qwen3, gemma4, mistral, llama3, chat_ml, detect_chat_template, from_template,
  qwen35,
}
use reinstinct.Chat.Append.{joined, format_gemma4-append, format_qwen3-append}
use reinstinct.Chat.Prompt.{IsChatVocabulary, IsUnknownEffort, Scaffold, format_qwen3-prompt}
use reinstinct.Serve.Thinking.{starts_with}
use reinstinct.Tokenizer.{is_boundary, Tokenizer, Piece, vocab_of, token_id}
use reinstinct.Tokenizer.Total.{MatchesChars}
use reinstinct.Tokenizer.Gemma
use reinstinct.Tokenizer.Gemma.{GemmaTokenizer}

detects_qwen3 :
    detect_chat_template (codes "{%- set image_count = namespace(value=0) %}<|im_start|>") ≡ qwen3
unfolding detect_chat_template starts_with
detects_qwen3 = refl

detects_gemma4 :
    detect_chat_template (codes "{% for m in messages %}<|turn>{{ m.role }}<turn|>{% endfor %}")
    ≡ gemma4
unfolding detect_chat_template starts_with
detects_gemma4 = refl

detects_mistral : detect_chat_template (codes "[INST] {{ m.content }} [/INST]") ≡ mistral
unfolding detect_chat_template starts_with
detects_mistral = refl

detects_llama3 : detect_chat_template (codes "<|begin_of_text|><|start_header_id|>system") ≡ llama3
unfolding detect_chat_template starts_with
detects_llama3 = refl

detects_chatml_when_no_qwen_signature :
    detect_chat_template (codes "<|im_start|>system {{ system }}<|im_end|>") ≡ chat_ml
unfolding detect_chat_template starts_with
detects_chatml_when_no_qwen_signature = refl

think_spec_reads_default :
    from_template (codes "{%- if enable_thinking is defined and enable_thinking is true %}")
    ≡ qwen35
unfolding from_template starts_with
think_spec_reads_default = refl

abbrev names : List Piece
names =
    codes "system"
    ∷ codes "user"
    ∷ codes "assistant"
    ∷ codes "model"
    ∷ codes "<think>"
    ∷ codes "</think>"
    ∷ []

-- All the rest of the text, from the start of a character.
abbrev rest_of : List ℕ → ℕ → Option (ℕ × ℕ)
rest_of text from =
    if leb from (length text) && is_boundary text from && is_boundary text (length text)
    then some (from, length text)
    else none

abbrev small : Tokenizer
small = record {
  tokens = names;
  byte_decoder = [];
  byte_encoder = [];
  vocab_map = vocab_of 0 names [];
  merge_ranks = [];
  find_from_pos = rest_of;
  eos_id = 5;
}

abbrev gemma : GemmaTokenizer
gemma = record {
  tokens = names;
  vocab_map = vocab_of 0 names [];
  merge_ranks = [];
  byte_to_id = [];
  id_to_byte = [];
  bos_id = 2;
  eos_id = 106;
}

abbrev hello : ChatMessage
hello = record { role = user; content = codes "hello" }

abbrev answer : ChatMessage
answer = record { role = assistant; content = codes "hi" }

knows_user : Gemma.token_id gemma (codes "user") ≡ some 1
unfolding Gemma.token_id vocab_of text_eq
knows_user = refl

knows_model : Gemma.token_id gemma (codes "model") ≡ some 3
unfolding Gemma.token_id vocab_of text_eq
knows_model = refl

format_gemma4-append_example :
    format_gemma4 gemma
      ((hello ∷ answer ∷ []) ++ (record { role = user; content = codes "more" } ∷ []))
      true
    ≡ joined
        (format_gemma4 gemma (hello ∷ answer ∷ []) false)
        (format_gemma4_user_turn gemma (codes "more"))
format_gemma4-append_example =
    format_gemma4-append gemma (hello ∷ answer ∷ []) (codes "more") 1 3 knows_user knows_model

abbrev thinker : Qwen3ThinkSpec
thinker = record { default_on = true; reasoning_effort = true }

abbrev calm : Qwen3ThinkOpts
calm = record { enable_thinking = none; reasoning_effort = some (codes "medium") }

knows_effort : instruction_of thinker calm ≡ ok none
unfolding instruction_of qwen3_reasoning_instruction text_eq
knows_effort = refl

format_qwen3-append_example :
    format_qwen3 small ((hello ∷ []) ++ (answer ∷ hello ∷ [])) true thinker calm
    ≡ joined (format_qwen3 small (hello ∷ []) false thinker calm) (
        joined
          (qwen_turns small false none (length (hello ∷ [])) (answer ∷ hello ∷ []))
          (qwen_prompt small true true))
format_qwen3-append_example =
    format_qwen3-append small hello [] (answer ∷ hello ∷ []) true thinker calm none knows_effort

small-IsChatVocabulary : IsChatVocabulary small
unfolding token_id vocab_of text_eq index_get
small-IsChatVocabulary = record {
  system_id = 0;
  user_id = 1;
  assistant_id = 2;
  think_id = 4;
  end_think_id = 5;
  has_system_id = refl;
  has_user_id = refl;
  has_assistant_id = refl;
  has_think_id = refl;
  has_end_think_id = refl;
}

small-MatchesChars : MatchesChars small
small-MatchesChars text from a z found =
    elim (Bool-cases
      (leb from (length text) && is_boundary text from && is_boundary text (length text))) [
        | inl whole ↦
            let (head, last) = and_true (leb from (length text) && is_boundary text from) _ whole in
            let (le, first) = and_true (leb from (length text)) (is_boundary text from) head in
            let same : some (from, length text) ≡ some (a, z) = rw whole at found in
            let start : from ≡ a = cc in
            let stop : length text ≡ z = cc in
            (
              omega (arith, leb→le from (length text) le),
              omega arith,
              rw (sym start) first,
              rw (sym stop) last,
            )
        | inr not_whole ↦ let none_found : none ≡ some (a, z) = rw not_whole at found in cc
      ]

format_qwen3-prompt_example :
    ((effort : List ℕ) × IsUnknownEffort effort
      × (format_qwen3 small (hello ∷ []) true thinker calm ≡ err (bad_effort effort)))
    ⊎ ((front rest : List ℕ) × (format_qwen3 small (hello ∷ []) true thinker calm
          ≡ ok (
              front
              ++ (qwen_im_start ∷ small-IsChatVocabulary.assistant_id ∷ qwen_newline
                  ∷ small-IsChatVocabulary.think_id ∷ rest)))
        × Scaffold small small-IsChatVocabulary.end_think_id true rest)
format_qwen3-prompt_example =
    format_qwen3-prompt small small-IsChatVocabulary small-MatchesChars (hello ∷ []) thinker calm
