-- ===== src/Serve/Generate/Qwen.antt =====
-- A request to a Qwen model: `ServerModel::generate` of src/serve/mod.rs.
use reinstinct.Base.{
  ℕ, ◌+◌, Bool, true, false, Option, some, none, List, [], ◌∷◌, length, ltb, if◌then◌else◌, Outcome,
  ok, err, panic, stuck, ◌>>=◌,
}
use reinstinct.Base.Float.{Floats}
use reinstinct.Chat.{ChatError, encoded, format_qwen3}
use reinstinct.Chat.Detect.{Qwen3ThinkSpec}
use reinstinct.Sampling.Xorshift
use reinstinct.Serve.Request.{GenReq, raw, chat}
use reinstinct.Serve.Generate.{
  GenError, empty_prompt, exceeds_context, template, TokenLogprob, Stepper, QwenDevice, Generated,
  counts_for, Decoding, within,
}
use reinstinct.Serve.Generate.Loop.{decode_loop}
use reinstinct.Tokenizer
use reinstinct.Tokenizer.{Tokenizer}

-- A run of the chat template or of the tokenizer within the generation.
abbrev pub rendered {ℓ} : {A : Type ℓ} → Outcome ChatError A → Outcome GenError A
rendered (ok a) = ok a
rendered (err e) = err (template e)
rendered panic = panic
rendered stuck = stuck

-- The resident model, but for its device state and its captured graph.
pub record QwenModel : Type 0 where
  pub tok : Tokenizer
  pub think : Qwen3ThinkSpec
  pub think_closers : List ℕ
  pub eos : ℕ
  pub max_seq : ℕ

unfoldable pub is_empty : List ℕ → Bool
is_empty [] = true
is_empty (x ∷ xs) = false

module _ (fl : Floats) where
  unfoldable pub prompt_of : QwenModel → GenReq fl → Outcome GenError (List ℕ)
  prompt_of m req = elim req.prompt [
    | raw text ↦ rendered (encoded (Tokenizer.encode m.tok text))
    | chat messages ↦ rendered (format_qwen3 m.tok messages true m.think req.think)
  ]

  -- The two early returns.
  unfoldable pub check_prompt : QwenModel → GenReq fl → List ℕ → Outcome GenError (Unit {0})
  unfolding is_empty
  check_prompt m req prompt =
      if is_empty prompt
      then err empty_prompt
      else if ltb m.max_seq (length prompt + req.max_tokens + 4)
      then err (exceeds_context (length prompt) req.max_tokens m.max_seq)
      else ok tt

  module _ (dv : Stepper fl) (dq : QwenDevice dv) (graphs_enabled : Bool) where
    unfoldable pub prefill : List ℕ → dv.State → Outcome GenError (List fl.F × dv.State)
    prefill prompt st =
        if ltb 1 (length prompt)
        then dq.forward_tokens_batched prompt st
        else dq.forward_tokens prompt st

    unfoldable pub captured :
        Option dv.Graph → dv.State → Outcome GenError (Option dv.Graph × dv.State)
    captured (some g) st = ok (some g, st)
    captured none st =
        if graphs_enabled
        then (dq.capture_forward_graph st >>= λ (g, st'). ok (some g, st'))
        else ok (none, st)

    -- What happens before the first round: the prompt's length, the graph and the loop's variables.
    unfoldable pub prepared :
        QwenModel
        → GenReq fl
        → Option dv.Graph
        → dv.State
        → Outcome GenError (ℕ × Option dv.Graph × Decoding fl dv)
    unfolding prompt_of check_prompt prefill captured counts_for
    prepared m req graph st = do
      prompt ← prompt_of m req
      _ ← check_prompt m req prompt
      st1 ← dq.reset st
      (logits, st2) ← prefill prompt st1
      (graph', st3) ← captured graph st2
      ok (
        length prompt,
        graph',
        record {
          logits = logits;
          sp = req.sampler;
          rng = Xorshift.new req.sampler.seed;
          counts = counts_for fl req.sampler (length logits);
          out = [];
          answer_start = 0;
          prev_text_len = 0;
          full_text = [];
          all_lp = [];
          state = st3;
        },
      )

    -- The reply of a loop that ended.
    unfoldable pub given :
        ℕ
        → Option dv.Graph
        → Decoding fl dv × Bool
        → Outcome GenError (Generated fl × Option dv.Graph × dv.State)
    given n_prompt graph (d, hit_eos) = ok (
      record {
        text = d.full_text;
        n_prompt = n_prompt;
        n_completion = length d.out;
        hit_eos = hit_eos;
        logprobs = d.all_lp;
      },
      graph,
      d.state,
    )

    module _ (to_bits : fl.F → ℕ) (from_bits : ℕ → fl.F)
        (sort_descending : List (ℕ × fl.F) → List (ℕ × fl.F))
        (largest : ℕ → List (ℕ × fl.F) → List (ℕ × fl.F)) (from_utf8_lossy : List ℕ → List ℕ)
        (expired : ℕ → Bool) (S : Type 0)
        (on_token : S → List ℕ → Option (TokenLogprob fl) → S × Bool) where
      abbrev pub loop :
          QwenModel
          → GenReq fl
          → Option dv.Graph
          → Decoding fl dv
          → S
          → S × Outcome GenError (Decoding fl dv × Bool)
      loop m req graph d =
          decode_loop fl to_bits from_bits sort_descending largest dv
            (Tokenizer.decode from_utf8_lossy m.tok) m.think_closers m.eos req.top_logprobs_n
            expired S on_token graph req.max_tokens 0 d

      unfoldable pub generate_qwen :
          QwenModel
          → GenReq fl
          → Option dv.Graph
          → dv.State
          → S
          → S × Outcome GenError (Generated fl × Option dv.Graph × dv.State)
      unfolding prepared decode_loop given
      generate_qwen m req graph st =
          within fl dv S on_token (prepared m req graph st) λ (n_prompt, graph', d) s.
            let (s', o) = loop m req graph' d s in (s', o >>= given n_prompt graph')
