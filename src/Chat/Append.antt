-- ===== src/Chat/Append.antt =====
-- A conversation that grows is rendered by extending its rendering: src/chat.rs.
use reinstinct.Base.{
  ℕ, suc, ◌+◌, ◌≡◌, refl, sym, ap, ◌∙◌, arith, Bool, true, false, Option, some, none, List, [], ◌∷◌,
  ◌++◌, append-nil, append_assoc, Outcome, ok, err, panic, stuck, ◌>>=◌, length, ◌==◌,
  if◌then◌else◌, ◌&&◌,
}
use reinstinct.Base.Text.{codes}
use reinstinct.Chat.{
  ChatMessage, ChatError, user, format_gemma4, format_gemma4_user_turn, gemma_turn, gemma_turns,
  gemma_prompt, template_name, format_qwen3, qwen_turn, qwen_turns, has_system, system_turn,
  instruction_of, qwen_prompt, Qwen3ThinkOpts, unwrap_or, qwen_role, instructed,
}
use reinstinct.Chat.Detect.{Qwen3ThinkSpec}
use reinstinct.Tokenizer.{Tokenizer}
use reinstinct.Tokenizer.Gemma
use reinstinct.Tokenizer.Gemma.{GemmaTokenizer, encode-Merges}

-- Two runs one after the other, and what they give joined.
abbrev pub joined :
    Outcome ChatError (List ℕ) → Outcome ChatError (List ℕ) → Outcome ChatError (List ℕ)
joined m k = m >>= λ a. k >>= λ b. ok (a ++ b)

joined_assoc : (m k n : Outcome ChatError (List ℕ)) → joined (joined m k) n ≡ joined m (joined k n)
joined_assoc (err e) k n = refl
joined_assoc panic k n = refl
joined_assoc stuck k n = refl
joined_assoc (ok a) (err e) n = refl
joined_assoc (ok a) panic n = refl
joined_assoc (ok a) stuck n = refl
joined_assoc (ok a) (ok b) (ok c) = rw append_assoc
joined_assoc (ok a) (ok b) (err e) = refl
joined_assoc (ok a) (ok b) panic = refl
joined_assoc (ok a) (ok b) stuck = refl

-- Nothing, and then a run.
joined-nil : (m : Outcome ChatError (List ℕ)) → m ≡ joined (ok []) m
joined-nil (ok a) = refl
joined-nil (err e) = refl
joined-nil panic = refl
joined-nil stuck = refl

-- A run, and then nothing.
nil-joined : (m : Outcome ChatError (List ℕ)) → joined m (ok []) ≡ m
nil-joined (ok a) = rw append-nil
nil-joined (err e) = refl
nil-joined panic = refl
nil-joined stuck = refl

three :
    (m k n : Outcome ChatError (List ℕ))
    → (m >>= λ a. k >>= λ b. n >>= λ c. ok (a ++ (b ++ c))) ≡ joined m (joined k n)
three (err e) k n = refl
three panic k n = refl
three stuck k n = refl
three (ok a) (err e) n = refl
three (ok a) panic n = refl
three (ok a) stuck n = refl
three (ok a) (ok b) (ok c) = refl
three (ok a) (ok b) (err e) = refl
three (ok a) (ok b) panic = refl
three (ok a) (ok b) stuck = refl

-- One id in front of what a run gives.
abbrev headed : ℕ → Outcome ChatError (List ℕ) → Outcome ChatError (List ℕ)
headed b m = m >>= λ a. ok (b ∷ a)

headed-joined :
    (b : ℕ) (m k : Outcome ChatError (List ℕ)) → headed b (joined m k) ≡ joined (headed b m) k
headed-joined b (err e) k = refl
headed-joined b panic k = refl
headed-joined b stuck k = refl
headed-joined b (ok a) (ok c) = refl
headed-joined b (ok a) (err e) = refl
headed-joined b (ok a) panic = refl
headed-joined b (ok a) stuck = refl

gemma_turns-append :
    (tok : GemmaTokenizer) (xs ys : List ChatMessage)
    → gemma_turns tok (xs ++ ys) ≡ joined (gemma_turns tok xs) (gemma_turns tok ys)
unfolding gemma_turns
gemma_turns-append tok [] ys = joined-nil (gemma_turns tok ys)
gemma_turns-append tok (x ∷ xs) ys =
    ap (λ m. joined (gemma_turn tok x) m) (gemma_turns-append tok xs ys)
    ∙ sym (joined_assoc (gemma_turn tok x) (gemma_turns tok xs) (gemma_turns tok ys))

-- The turn of message `i`.
abbrev first : Tokenizer → Bool → Option (List ℕ) → ℕ → ChatMessage → Outcome ChatError (List ℕ)
first tok sys instr i x =
    qwen_turn tok (qwen_role x.role)
      (if (i == 0) && sys then instructed instr x.content else x.content)

qwen_turns-append :
    (tok : Tokenizer) (sys : Bool) (instr : Option (List ℕ)) (i : ℕ) (xs ys : List ChatMessage)
    → qwen_turns tok sys instr i (xs ++ ys)
      ≡ joined (qwen_turns tok sys instr i xs) (qwen_turns tok sys instr (i + length xs) ys)
unfolding qwen_turns
qwen_turns-append tok sys instr i [] ys =
    let start : i ≡ i + 0 = omega arith in
    ap (λ k. qwen_turns tok sys instr k ys) start ∙ joined-nil (qwen_turns tok sys instr (i + 0) ys)
qwen_turns-append tok sys instr i (x ∷ xs) ys =
    let next : (i + 1) + length xs ≡ i + suc (length xs) = omega arith in
    ap (λ m. joined (first tok sys instr i x) m)
      (qwen_turns-append tok sys instr (i + 1) xs ys
        ∙ ap (λ k. joined (qwen_turns tok sys instr (i + 1) xs) (qwen_turns tok sys instr k ys))
            next)
    ∙ sym (joined_assoc (first tok sys instr i x) (qwen_turns tok sys instr (i + 1) xs) _)

-- Behind the first message the instruction plays no part.
qwen_turns-later :
    (tok : Tokenizer) (sys : Bool) (instr : Option (List ℕ)) (i : ℕ) (ms : List ChatMessage)
    → qwen_turns tok sys instr (suc i) ms ≡ qwen_turns tok false none (suc i) ms
unfolding qwen_turns
qwen_turns-later tok sys instr i [] = refl
qwen_turns-later tok sys instr i (m ∷ ms) =
    let next : suc i + 1 ≡ suc (suc i) = omega arith in
    let later : (suc i == 0) ≡ false = ground arith in
    rw (next, later)
      (ap (λ k. joined (qwen_turn tok (qwen_role m.role) m.content) k)
        (qwen_turns-later tok sys instr (suc i) ms))

format_gemma4-joined :
    (tok : GemmaTokenizer) (messages : List ChatMessage) (prompt : Bool)
    → format_gemma4 tok messages prompt
      ≡ headed tok.bos_id (joined (gemma_turns tok messages) (gemma_prompt tok prompt))
unfolding format_gemma4
format_gemma4-joined tok messages prompt =
    bos_first (gemma_turns tok messages) (gemma_prompt tok prompt)
  where
    bos_first :
        (m k : Outcome ChatError (List ℕ))
        → (m >>= λ a. k >>= λ b. ok (tok.bos_id ∷ (a ++ b))) ≡ headed tok.bos_id (joined m k)
    bos_first (ok a) (ok b) = refl
    bos_first (ok a) (err e) = refl
    bos_first (ok a) panic = refl
    bos_first (ok a) stuck = refl
    bos_first (err e) k = refl
    bos_first panic k = refl
    bos_first stuck k = refl

user_turn :
    (tok : GemmaTokenizer) (content : List ℕ) (u v : ℕ)
    → Gemma.token_id tok (codes "user") ≡ some u
    → Gemma.token_id tok (codes "model") ≡ some v
    → joined
        (gemma_turns tok (record { role = user; content = content } ∷ []))
        (gemma_prompt tok true)
      ≡ format_gemma4_user_turn tok content
unfolding gemma_turns gemma_turn template_name gemma_prompt format_gemma4_user_turn
user_turn tok content u v known_user known_model =
    let (w, run, _) = encode-Merges tok content in
    rw (known_user, run, known_model, append-nil, append_assoc) refl

-- For a vocabulary that has the roles of the user and of the model: a Gemma conversation that ends
-- with a user's message is rendered, with the prompt for the reply, as the conversation before it
-- followed by the extension for that message, errors included.
pub format_gemma4-append :
    (tok : GemmaTokenizer) (messages : List ChatMessage) (content : List ℕ) (u v : ℕ)
    → Gemma.token_id tok (codes "user") ≡ some u
    → Gemma.token_id tok (codes "model") ≡ some v
    → format_gemma4 tok (messages ++ (record { role = user; content = content } ∷ [])) true
      ≡ joined (format_gemma4 tok messages false) (format_gemma4_user_turn tok content)
unfolding gemma_prompt
format_gemma4-append tok messages content u v known_user known_model =
    let m : ChatMessage = record { role = user; content = content } in
    let turns = gemma_turns tok messages in
    format_gemma4-joined tok (messages ++ (m ∷ [])) true
    ∙ ap (λ t. headed tok.bos_id (joined t (gemma_prompt tok true)))
        (gemma_turns-append tok messages (m ∷ []))
    ∙ ap (λ t. headed tok.bos_id t)
        (joined_assoc turns (gemma_turns tok (m ∷ [])) (gemma_prompt tok true)
          ∙ ap (λ t. joined turns t) (user_turn tok content u v known_user known_model))
    ∙ headed-joined tok.bos_id turns (format_gemma4_user_turn tok content)
    ∙ ap (λ t. joined t (format_gemma4_user_turn tok content))
        (sym (
          format_gemma4-joined tok messages false
          ∙ ap (λ t. headed tok.bos_id t) (nil-joined turns)))

format_qwen3-joined :
    (tok : Tokenizer) (messages : List ChatMessage) (prompt : Bool) (spec : Qwen3ThinkSpec)
    (opts : Qwen3ThinkOpts) (instr : Option (List ℕ))
    → instruction_of spec opts ≡ ok instr
    → format_qwen3 tok messages prompt spec opts
      ≡ joined (system_turn tok instr (has_system messages)) (
          joined
            (qwen_turns tok (has_system messages) instr 0 messages)
            (qwen_prompt tok (unwrap_or opts.enable_thinking spec.default_on) prompt))
unfolding format_qwen3
format_qwen3-joined tok messages prompt spec opts instr known = rw known (
    three (system_turn tok instr (has_system messages))
      (qwen_turns tok (has_system messages) instr 0 messages)
      (qwen_prompt tok (unwrap_or opts.enable_thinking spec.default_on) prompt))

-- A Qwen conversation that is not empty and grows by more messages is rendered, with or without the
-- prompt for the reply, as the conversation before followed by the turns of the new messages and the
-- prompt, errors included, for every thinking option whose effort is known.
pub format_qwen3-append :
    (tok : Tokenizer) (m : ChatMessage) (ms more : List ChatMessage) (prompt : Bool)
    (spec : Qwen3ThinkSpec) (opts : Qwen3ThinkOpts) (instr : Option (List ℕ))
    → instruction_of spec opts ≡ ok instr
    → format_qwen3 tok ((m ∷ ms) ++ more) prompt spec opts
      ≡ joined (format_qwen3 tok (m ∷ ms) false spec opts) (
          joined
            (qwen_turns tok false none (length (m ∷ ms)) more)
            (qwen_prompt tok (unwrap_or opts.enable_thinking spec.default_on) prompt))
unfolding qwen_prompt has_system
format_qwen3-append tok m ms more prompt spec opts instr known =
    let sys = has_system (m ∷ ms) in
    let opening = system_turn tok instr sys in
    let turns = qwen_turns tok sys instr 0 (m ∷ ms) in
    let rest = qwen_turns tok sys instr (length (m ∷ ms)) more in
    let thinking = unwrap_or opts.enable_thinking spec.default_on in
    let reply = qwen_prompt tok thinking prompt in
    let start : 0 + length (m ∷ ms) ≡ length (m ∷ ms) = omega arith in
    format_qwen3-joined tok ((m ∷ ms) ++ more) prompt spec opts instr known
    ∙ ap (λ t. joined opening (joined t reply)) (qwen_turns-append tok sys instr 0 (m ∷ ms) more)
    ∙ ap (λ n. joined opening (joined (joined turns (qwen_turns tok sys instr n more)) reply)) start
    ∙ ap (λ t. joined opening t) (joined_assoc turns rest reply)
    ∙ sym (joined_assoc opening turns (joined rest reply))
    ∙ ap (λ t. joined t (joined rest reply))
        (sym (
          format_qwen3-joined tok (m ∷ ms) false spec opts instr known
          ∙ ap (λ t. joined opening t) (nil-joined turns)))
    ∙ ap (λ t. joined (format_qwen3 tok (m ∷ ms) false spec opts) (joined t reply))
        (qwen_turns-later tok sys instr (length ms) more)
