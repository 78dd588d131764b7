-- ===== src/Chat/Prompt.antt =====
-- A Qwen conversation is rendered and ends with the prompt for the reply: src/chat.rs.
use reinstinct.Base.{
  ℕ, ◌+◌, ◌≡◌, ◌≢◌, refl, ◌⊎◌, inl, inr, Bool, Bool-cases, true, false, ◌&&◌, ◌==◌, Option, some,
  none, List, [], ◌∷◌, ◌++◌, append_assoc, ok, err, if◌then◌else◌,
}
use reinstinct.Base.Text.{codes}
use reinstinct.Gguf.File.{text_eq}
use reinstinct.Chat.{
  ChatMessage, bad_effort, Role, system, user, assistant, format_qwen3, qwen_turn, qwen_turns,
  qwen_role, role_id, has_system, system_turn, instruction_of, qwen_prompt, scaffold,
  qwen3_reasoning_instruction, Qwen3ThinkOpts, unwrap_or, instructed, think_text, xhigh_text,
  low_text, end_think_text, qwen_im_start, qwen_im_end, qwen_newline,
}
use reinstinct.Chat.Detect.{Qwen3ThinkSpec}
use reinstinct.Tokenizer
use reinstinct.Tokenizer.{Tokenizer}
use reinstinct.Tokenizer.Total.{MatchesChars, encode-returns}

-- A vocabulary with the names of the roles and the two markers.
pub record IsChatVocabulary (tok : Tokenizer) : Type 0 where
  pub system_id : ℕ
  pub user_id : ℕ
  pub assistant_id : ℕ
  pub think_id : ℕ
  pub end_think_id : ℕ
  pub has_system_id : Tokenizer.token_id tok (codes "system") ≡ some system_id
  pub has_user_id : Tokenizer.token_id tok (codes "user") ≡ some user_id
  pub has_assistant_id : Tokenizer.token_id tok (codes "assistant") ≡ some assistant_id
  pub has_think_id : Tokenizer.token_id tok think_text ≡ some think_id
  pub has_end_think_id : Tokenizer.token_id tok end_think_text ≡ some end_think_id

-- The end of the thinking scaffold: opened, or opened and closed with the ids of two newlines.
abbrev pub Scaffold : Tokenizer → ℕ → Bool → List ℕ → Type 0
Scaffold tok end_think true ids = ids ≡ qwen_newline ∷ []
Scaffold tok end_think false ids =
    (blank : List ℕ) × (Tokenizer.encode tok (10 ∷ 10 ∷ []) ≡ ok blank)
    × (ids ≡ blank ++ (end_think ∷ blank))

-- An effort that no instruction is for.
abbrev pub IsUnknownEffort : List ℕ → Type 0
IsUnknownEffort effort =
    (effort ≢ codes "xhigh")
    × (effort ≢ codes "high")
    × (effort ≢ codes "low")
    × (effort ≢ codes "medium")

differs : (a b : List ℕ) → text_eq a b ≡ false → text_eq b b ≡ true → a ≢ b
differs a b h same e = let bad : text_eq b b ≡ false = rw e at h in cc

qwen3_reasoning_instruction-cases :
    (effort : List ℕ)
    → ((instr : Option (List ℕ)) × (qwen3_reasoning_instruction effort ≡ ok instr))
      ⊎ (IsUnknownEffort effort × (qwen3_reasoning_instruction effort ≡ err (bad_effort effort)))
unfolding qwen3_reasoning_instruction text_eq
qwen3_reasoning_instruction-cases effort = elim (Bool-cases (text_eq effort (codes "xhigh"))) [
  | inl a ↦ inl (some xhigh_text, rw a refl)
  | inr a ↦ elim (Bool-cases (text_eq effort (codes "high"))) [
    | inl b ↦ inl (some xhigh_text, rw (a, b) refl)
    | inr b ↦ elim (Bool-cases (text_eq effort (codes "low"))) [
      | inl c ↦ inl (some low_text, rw (a, b, c) refl)
      | inr c ↦ elim (Bool-cases (text_eq effort (codes "medium"))) [
        | inl d ↦ inl (none, rw (a, b, c, d) refl)
        | inr d ↦ inr (
          (
            differs effort _ a refl,
            differs effort _ b refl,
            differs effort _ c refl,
            differs effort _ d refl,
          ),
          rw (a, b, c, d) refl,
        )
      ]
    ]
  ]
]

module _ (tok : Tokenizer) (vocab : IsChatVocabulary tok) (chars : MatchesChars tok) where
  abbrev id_of : Role → ℕ
  id_of system = vocab.system_id
  id_of user = vocab.user_id
  id_of assistant = vocab.assistant_id

  role_known : (r : Role) → Tokenizer.token_id tok (qwen_role r) ≡ some (id_of r)
  unfolding qwen_role
  role_known system = vocab.has_system_id
  role_known user = vocab.has_user_id
  role_known assistant = vocab.has_assistant_id

  qwen_turn-returns :
      (name content : List ℕ) (id : ℕ)
      → Tokenizer.token_id tok name ≡ some id
      → (ids : List ℕ) × (qwen_turn tok name content ≡ ok ids)
  unfolding qwen_turn role_id
  qwen_turn-returns name content id known =
      let (ids, run) = encode-returns tok chars content in
      (
        qwen_im_start ∷ id ∷ qwen_newline ∷ (ids ++ (qwen_im_end ∷ qwen_newline ∷ [])),
        rw (known, run) refl,
      )

  qwen_turns-returns :
      (sys : Bool) (instr : Option (List ℕ)) (i : ℕ) (ms : List ChatMessage)
      → (ids : List ℕ) × (qwen_turns tok sys instr i ms ≡ ok ids)
  unfolding qwen_turns
  qwen_turns-returns sys instr i [] = ([], refl)
  qwen_turns-returns sys instr i (m ∷ ms) =
      let (front, first) =
        qwen_turn-returns (qwen_role m.role)
          (if (i == 0) && sys then instructed instr m.content else m.content) (id_of m.role)
          (role_known m.role) in
      let (rest, later) = qwen_turns-returns sys instr (i + 1) ms in
      (front ++ rest, rw (first, later))

  system_turn-returns :
      (instr : Option (List ℕ)) (sys : Bool) → (ids : List ℕ) × (system_turn tok instr sys ≡ ok ids)
  unfolding system_turn
  system_turn-returns none sys = ([], refl)
  system_turn-returns (some text) true = ([], refl)
  system_turn-returns (some text) false =
      qwen_turn-returns (codes "system") text vocab.system_id vocab.has_system_id

  scaffold-returns :
      (thinking : Bool)
      → (ids : List ℕ) × (scaffold tok thinking ≡ ok ids)
        × Scaffold tok vocab.end_think_id thinking ids
  unfolding scaffold
  scaffold-returns true = (qwen_newline ∷ [], refl, refl)
  scaffold-returns false =
      let (blank, run) = encode-returns tok chars (10 ∷ 10 ∷ []) in
      (
        blank ++ (vocab.end_think_id ∷ blank),
        rw (vocab.has_end_think_id, run) refl,
        (blank, run, refl),
      )

  instruction_of-cases :
      (spec : Qwen3ThinkSpec) (opts : Qwen3ThinkOpts)
      → ((instr : Option (List ℕ)) × (instruction_of spec opts ≡ ok instr))
        ⊎ ((effort : List ℕ) × IsUnknownEffort effort
            × (instruction_of spec opts ≡ err (bad_effort effort)))
  unfolding instruction_of
  instruction_of-cases spec opts =
      elim (Bool-cases (unwrap_or opts.enable_thinking spec.default_on && spec.reasoning_effort)) [
        | inr off ↦ inl (none, rw off refl)
        | inl on ↦
            let effort = unwrap_or opts.reasoning_effort (codes "xhigh") in
            elim (qwen3_reasoning_instruction-cases effort) [
              | inl (instr, e) ↦ inl (instr, rw on e)
              | inr (other, e) ↦ inr (effort, other, rw on e)
            ]
      ]

  qwen_prompt-returns :
      (thinking : Bool)
      → (rest : List ℕ) × (qwen_prompt tok thinking true
          ≡ ok (qwen_im_start ∷ vocab.assistant_id ∷ qwen_newline ∷ vocab.think_id ∷ rest))
        × Scaffold tok vocab.end_think_id thinking rest
  unfolding qwen_prompt role_id
  qwen_prompt-returns thinking =
      let (rest, run, shape) = scaffold-returns thinking in
      (rest, rw (vocab.has_assistant_id, vocab.has_think_id, run) refl, shape)

  -- With a vocabulary that has the roles and the two thinking markers, and a pre-tokenizer whose
  -- matches are ranges of whole characters, every conversation is either
  -- refused for an effort that is none of the four, or rendered; the rendering ends with the opened
  -- turn of the assistant, `<think>` and the scaffold, closed exactly if thinking is off.
  pub format_qwen3-prompt :
      (messages : List ChatMessage) (spec : Qwen3ThinkSpec) (opts : Qwen3ThinkOpts)
      → ((effort : List ℕ) × IsUnknownEffort effort
          × (format_qwen3 tok messages true spec opts ≡ err (bad_effort effort)))
        ⊎ ((front rest : List ℕ) × (format_qwen3 tok messages true spec opts
              ≡ ok (
                  front
                  ++ (qwen_im_start ∷ vocab.assistant_id ∷ qwen_newline ∷ vocab.think_id ∷ rest)))
            × Scaffold tok vocab.end_think_id (unwrap_or opts.enable_thinking spec.default_on) rest)
  unfolding format_qwen3
  format_qwen3-prompt messages spec opts = elim (instruction_of-cases spec opts) [
    | inr (effort, other, e) ↦ inl (effort, other, rw e refl)
    | inl (instr, e) ↦
        let sys = has_system messages in
        let thinking = unwrap_or opts.enable_thinking spec.default_on in
        let (opening, a) = system_turn-returns instr sys in
        let (turns, b) = qwen_turns-returns sys instr 0 messages in
        let (rest, c, shape) = qwen_prompt-returns thinking in
        inr (opening ++ turns, rest, rw (e, a, b, c, append_assoc) refl, shape)
  ]
