-- ===== src/Chat.antt =====
-- The chat templates of src/chat.rs: a conversation as the token ids of the model's format.
pub mod Detect
pub mod Append
pub mod Prompt
mod Tests
use reinstinct.Base.{
  ℕ, ◌+◌, Bool, true, false, ◌&&◌, Option, some, none, List, [], ◌∷◌, ◌++◌, ◌==◌, if◌then◌else◌,
  Outcome, ok, err, panic, stuck, ◌>>=◌, ok_or,
}
use reinstinct.Base.Text.{codes}
use reinstinct.Gguf.File.{text_eq}
use reinstinct.Chat.Detect.{Qwen3ThinkSpec}
use reinstinct.Tokenizer
use reinstinct.Tokenizer.{Tokenizer, TokenizerError}
use reinstinct.Tokenizer.Gemma
use reinstinct.Tokenizer.Gemma.{GemmaTokenizer}

pub data Role : Type 0 where
  system user assistant : Role

unfoldable pub template_name : Role → List ℕ
template_name system = codes "system"
template_name user = codes "user"
template_name assistant = codes "model"

pub record ChatMessage : Type 0 where
  pub role : Role
  pub content : List ℕ

-- The messages of the errors: a role or a token that is not in the vocabulary, or another effort.
pub data ChatError : Type 0 where
  no_role no_token bad_effort : List ℕ → ChatError
  tokenizer : TokenizerError → ChatError

-- A run of the tokenizer within a function that reports chat errors.
abbrev pub encoded {ℓ} : {A : Type ℓ} → Outcome TokenizerError A → Outcome ChatError A
encoded (ok a) = ok a
encoded (err e) = err (tokenizer e)
encoded panic = panic
encoded stuck = stuck

abbrev pub turn_open : ℕ
turn_open = 105

abbrev pub turn_close : ℕ
turn_close = 106

abbrev pub newline : ℕ
newline = 107

-- What one message adds.
unfoldable pub gemma_turn : GemmaTokenizer → ChatMessage → Outcome ChatError (List ℕ)
unfolding template_name
gemma_turn tok m = do
  role_id ← ok_or (Gemma.token_id tok (template_name m.role)) (no_role (template_name m.role))
  ids ← encoded (Gemma.encode tok m.content)
  ok (turn_open ∷ role_id ∷ newline ∷ (ids ++ (turn_close ∷ newline ∷ [])))

-- `for m in messages`
unfoldable pub gemma_turns : GemmaTokenizer → List ChatMessage → Outcome ChatError (List ℕ)
unfolding gemma_turn
gemma_turns tok [] = ok []
gemma_turns tok (m ∷ ms) = do
  front ← gemma_turn tok m
  rest ← gemma_turns tok ms
  ok (front ++ rest)

unfoldable pub gemma_prompt : GemmaTokenizer → Bool → Outcome ChatError (List ℕ)
gemma_prompt tok false = ok []
gemma_prompt tok true = do
  model_id ← ok_or (Gemma.token_id tok (codes "model")) (no_token (codes "model"))
  ok (turn_open ∷ model_id ∷ newline ∷ [])

unfoldable pub format_gemma4 : GemmaTokenizer → List ChatMessage → Bool → Outcome ChatError (List ℕ)
unfolding gemma_turns gemma_prompt
format_gemma4 tok messages add_generation_prompt = do
  turns ← gemma_turns tok messages
  prompt ← gemma_prompt tok add_generation_prompt
  ok (tok.bos_id ∷ (turns ++ prompt))

unfoldable pub format_gemma4_user_turn : GemmaTokenizer → List ℕ → Outcome ChatError (List ℕ)
format_gemma4_user_turn tok content = do
  user_id ← ok_or (Gemma.token_id tok (codes "user")) (no_token (codes "user"))
  model_id ← ok_or (Gemma.token_id tok (codes "model")) (no_token (codes "model"))
  ids ← encoded (Gemma.encode tok content)
  ok (
      turn_open
      ∷ user_id
      ∷ newline
      ∷ (ids ++ (turn_close ∷ newline ∷ turn_open ∷ model_id ∷ newline ∷ [])))

abbrev pub qwen_im_start : ℕ
qwen_im_start = 248045

abbrev pub qwen_im_end : ℕ
qwen_im_end = 248046

abbrev pub qwen_newline : ℕ
qwen_newline = 198

pub record Qwen3ThinkOpts : Type 0 where
  pub enable_thinking : Option Bool
  pub reasoning_effort : Option (List ℕ)

-- `o.unwrap_or(d)`
abbrev pub unwrap_or {ℓ} : {A : Type ℓ} → Option A → A → A
unwrap_or none d = d
unwrap_or (some a) d = a

abbrev pub xhigh_text : List ℕ
xhigh_text =
    codes
      "Reasoning effort is set to xhigh. Please think carefully through the task, validate key assumptions, consider plausible alternatives, and prioritize correctness, consistency, and clarity in the final answer."

abbrev pub low_text : List ℕ
low_text =
    codes
      "Reasoning effort is set to low. Keep your thinking brief and focused, moving directly to the conclusion without unnecessary elaboration."

unfoldable pub qwen3_reasoning_instruction : List ℕ → Outcome ChatError (Option (List ℕ))
unfolding text_eq
qwen3_reasoning_instruction effort =
    if text_eq effort (codes "xhigh")
    then ok (some xhigh_text)
    else if text_eq effort (codes "high")
    then ok (some xhigh_text)
    else if text_eq effort (codes "low")
    then ok (some low_text)
    else if text_eq effort (codes "medium")
    then ok none
    else err (bad_effort effort)

unfoldable pub qwen_role : Role → List ℕ
qwen_role system = codes "system"
qwen_role user = codes "user"
qwen_role assistant = codes "assistant"

-- The closure `role`.
unfoldable pub role_id : Tokenizer → List ℕ → Outcome ChatError ℕ
role_id tok name = ok_or (Tokenizer.token_id tok name) (no_role name)

-- `<|im_start|>role\n…<|im_end|>\n`
unfoldable pub qwen_turn : Tokenizer → List ℕ → List ℕ → Outcome ChatError (List ℕ)
unfolding role_id
qwen_turn tok role content = do
  id ← role_id tok role
  ids ← encoded (Tokenizer.encode tok content)
  ok (qwen_im_start ∷ id ∷ qwen_newline ∷ (ids ++ (qwen_im_end ∷ qwen_newline ∷ [])))

abbrev pub is_system : Role → Bool
is_system system = true
is_system _ = false

unfoldable pub has_system : List ChatMessage → Bool
has_system [] = false
has_system (m ∷ ms) = is_system m.role

-- The system turn for an instruction, where the conversation has none.
unfoldable pub system_turn : Tokenizer → Option (List ℕ) → Bool → Outcome ChatError (List ℕ)
unfolding qwen_turn
system_turn tok (some instr) false = qwen_turn tok (codes "system") instr
system_turn tok (some instr) true = ok []
system_turn tok none has_system = ok []

abbrev pub instructed : Option (List ℕ) → List ℕ → List ℕ
instructed (some instr) content = instr ++ (10 ∷ 10 ∷ content)
instructed none content = content

-- `for (i, m) in messages.iter().enumerate()`, from message `i` on.
unfoldable pub qwen_turns :
    Tokenizer → Bool → Option (List ℕ) → ℕ → List ChatMessage → Outcome ChatError (List ℕ)
unfolding qwen_turn qwen_role
qwen_turns tok has_system instruction i [] = ok []
qwen_turns tok has_system instruction i (m ∷ ms) = do
  let content = if (i == 0) && has_system then instructed instruction m.content else m.content
  front ← qwen_turn tok (qwen_role m.role) content
  rest ← qwen_turns tok has_system instruction (i + 1) ms
  ok (front ++ rest)

abbrev pub think_text : List ℕ
think_text = codes "<think>"

abbrev pub end_think_text : List ℕ
end_think_text = codes "</think>"

unfoldable pub scaffold : Tokenizer → Bool → Outcome ChatError (List ℕ)
scaffold tok true = ok (qwen_newline ∷ [])
scaffold tok false = do
  end_think ← ok_or (Tokenizer.token_id tok end_think_text) (no_token end_think_text)
  before ← encoded (Tokenizer.encode tok (10 ∷ 10 ∷ []))
  after ← encoded (Tokenizer.encode tok (10 ∷ 10 ∷ []))
  ok (before ++ (end_think ∷ after))

unfoldable pub qwen_prompt : Tokenizer → Bool → Bool → Outcome ChatError (List ℕ)
unfolding role_id scaffold
qwen_prompt tok thinking false = ok []
qwen_prompt tok thinking true = do
  id ← role_id tok (codes "assistant")
  think ← ok_or (Tokenizer.token_id tok think_text) (no_token think_text)
  rest ← scaffold tok thinking
  ok (qwen_im_start ∷ id ∷ qwen_newline ∷ think ∷ rest)

unfoldable pub instruction_of :
    Qwen3ThinkSpec → Qwen3ThinkOpts → Outcome ChatError (Option (List ℕ))
unfolding qwen3_reasoning_instruction
instruction_of spec opts =
    if unwrap_or opts.enable_thinking spec.default_on && spec.reasoning_effort
    then qwen3_reasoning_instruction (unwrap_or opts.reasoning_effort (codes "xhigh"))
    else ok none

unfoldable pub format_qwen3 :
    Tokenizer
    → List ChatMessage
    → Bool
    → Qwen3ThinkSpec
    → Qwen3ThinkOpts
    → Outcome ChatError (List ℕ)
unfolding instruction_of has_system system_turn qwen_turns qwen_prompt
format_qwen3 tok messages add_generation_prompt spec opts = do
  instruction ← instruction_of spec opts
  opening ← system_turn tok instruction (has_system messages)
  turns ← qwen_turns tok (has_system messages) instruction 0 messages
  prompt ← qwen_prompt tok (unwrap_or opts.enable_thinking spec.default_on) add_generation_prompt
  ok (opening ++ (turns ++ prompt))
