-- ===== src/Serve/Generate/Stream.antt =====
-- What a request to a Qwen model sends and gives: src/serve/mod.rs.
use reinstinct.Base.{
  ℕ, ◌+◌, ◌≤◌, ◌≡◌, refl, sym, ap, ◌∙◌, arith, Bool, Option, List, [], ◌∷◌, ◌++◌, length, Outcome,
  ok, err, panic, stuck, ◌>>=◌,
}
use reinstinct.Base.Float.{Floats}
use reinstinct.Serve.Request.{GenReq}
use reinstinct.Serve.Generate.{GenError, TokenLogprob, Stepper, QwenDevice, Generated, Decoding}
use reinstinct.Serve.Generate.Qwen.{
  QwenModel, is_empty, prompt_of, check_prompt, prefill, captured, prepared, generate_qwen, given,
  loop,
}
use reinstinct.Serve.Generate.Deltas.{
  IsAppendOnly, Delta, fed, texts, Sent, Final, decode_loop-Sent,
}
use reinstinct.Tokenizer

-- What holds of the value of a run, if it has one.
pub data IfOk {A : Type 0} (P : A → Type 0) : Outcome GenError A → Type 0 where
  value : {a : A} → P a → IfOk P (ok a)
  no_value : {e : GenError} → IfOk P (err e)
  panicked : IfOk P panic
  gave_up : IfOk P stuck

pub IfOk-bind :
    {A B : Type 0} {P : B → Type 0} (m : Outcome GenError A) {f : A → Outcome GenError B}
    → ((a : A) → m ≡ ok a → IfOk P (f a))
    → IfOk P (m >>= f)
IfOk-bind (ok a) k = k a refl
IfOk-bind (err e) k = no_value
IfOk-bind panic k = panicked
IfOk-bind stuck k = gave_up

module _ (fl : Floats) (dv : Stepper fl) (dq : QwenDevice dv) (graphs_enabled : Bool) where
  -- The reply is the text that was sent, and prompt and reply fit the limits.
  abbrev pub Gives :
      (S : Type 0) (on_token : S → List ℕ → Option (TokenLogprob fl) → S × Bool)
      → QwenModel
      → GenReq fl
      → List ℕ
      → Outcome GenError (Generated fl × Option dv.Graph × dv.State)
      → Type 0
  Gives S on_token m req text (ok (g, graph, st)) =
      (g.text ≡ text)
      × (g.n_completion ≤ req.max_tokens)
      × (1 ≤ g.n_prompt)
      × (g.n_prompt + req.max_tokens + 4 ≤ m.max_seq)
  Gives S on_token m req text (err e) = Unit {0}
  Gives S on_token m req text panic = Unit {0}
  Gives S on_token m req text stuck = Unit {0}

  check_prompt-ok :
      (m : QwenModel) (req : GenReq fl) (prompt : List ℕ) (u : Unit {0})
      → check_prompt fl m req prompt ≡ ok u
      → (1 ≤ length prompt) × (length prompt + req.max_tokens + 4 ≤ m.max_seq)
  unfolding check_prompt is_empty
  check_prompt-ok m req [] u h = cc
  check_prompt-ok m req (x ∷ xs) u h = ground arith

  -- Before the first round the reply is empty, and the prompt fits the context.
  abbrev pub IsFresh : QwenModel → GenReq fl → ℕ × Option dv.Graph × Decoding fl dv → Type 0
  IsFresh m req (n, graph, d) =
      (d.out ≡ [])
      × (d.full_text ≡ [])
      × (d.prev_text_len ≡ 0)
      × (1 ≤ n)
      × (n + req.max_tokens + 4 ≤ m.max_seq)

  pub prepared-IsFresh :
      (m : QwenModel) (req : GenReq fl) (graph : Option dv.Graph) (st : dv.State)
      → IfOk (IsFresh m req) (prepared fl dv dq graphs_enabled m req graph st)
  unfolding prepared
  prepared-IsFresh m req graph st = IfOk-bind (prompt_of fl m req) λ prompt _.
      IfOk-bind (check_prompt fl m req prompt) λ u checked. IfOk-bind (dq.reset st) λ st1 _.
        IfOk-bind (prefill fl dv dq graphs_enabled prompt st1) λ (logits, st2) _.
          IfOk-bind (captured fl dv dq graphs_enabled graph st2) λ (g, st3) _.
            let (some_prompt, fits) = check_prompt-ok m req prompt u checked in
            value (refl, refl, refl, some_prompt, fits)

  module _ (to_bits : fl.F → ℕ) (from_bits : ℕ → fl.F)
      (sort_descending : List (ℕ × fl.F) → List (ℕ × fl.F))
      (largest : ℕ → List (ℕ × fl.F) → List (ℕ × fl.F)) (from_utf8_lossy : List ℕ → List ℕ)
      (expired : ℕ → Bool) (S : Type 0)
      (on_token : S → List ℕ → Option (TokenLogprob fl) → S × Bool) where
    abbrev generated :
        QwenModel
        → GenReq fl
        → Option dv.Graph
        → dv.State
        → S
        → S × Outcome GenError (Generated fl × Option dv.Graph × dv.State)
    generated =
        generate_qwen fl dv dq graphs_enabled to_bits from_bits sort_descending largest
          from_utf8_lossy expired S on_token

    -- The calls of `on_token` that a request made, and what it gave.
    pub record Streams (m : QwenModel) (req : GenReq fl) (s : S)
        (r : S × Outcome GenError (Generated fl × Option dv.Graph × dv.State)) : Type 0 where
      pub deltas : List (Delta fl S on_token)
      pub tokens : List ℕ
      pub sink : r.0 ≡ fed fl S on_token s deltas
      pub text : texts fl S on_token deltas ≡ Tokenizer.decode from_utf8_lossy m.tok tokens
      pub few : length tokens ≤ req.max_tokens
      pub gives : Gives S on_token m req (texts fl S on_token deltas) r.1

    failed :
        (m : QwenModel) (req : GenReq fl) (s : S)
        (o : Outcome GenError (Generated fl × Option dv.Graph × dv.State))
        → IsAppendOnly (Tokenizer.decode from_utf8_lossy m.tok)
        → Gives S on_token m req [] o
        → Streams m req s (s, o)
    unfolding fed
    failed m req s o grows h = record {
      deltas = [];
      tokens = [];
      sink = refl;
      text = sym grows.empty;
      few = omega arith;
      gives = h;
    }

    looped :
        (m : QwenModel) (req : GenReq fl) (s : S) (n : ℕ) (graph : Option dv.Graph)
        (d : Decoding fl dv)
        → IsAppendOnly (Tokenizer.decode from_utf8_lossy m.tok)
        → IsFresh m req (n, graph, d)
        → (r : S × Outcome GenError (Decoding fl dv × Bool))
        → Sent fl S on_token dv
            (Tokenizer.decode from_utf8_lossy m.tok)
            (λ d b. Unit {0})
            d.out
            s
            req.max_tokens
            r
        → Streams m req s (r.0, r.1 >>= given fl dv dq graphs_enabled n graph)
    unfolding given
    looped m req s n graph d grows (no_out, no_text, _, some_prompt, fits) r sent =
        let decode = Tokenizer.decode from_utf8_lossy m.tok in
        let start : decode d.out ≡ [] = ap decode no_out ∙ grows.empty in
        let text : texts fl S on_token sent.deltas ≡ decode sent.extra =
          ap (λ x. x ++ texts fl S on_token sent.deltas) (sym start)
          ∙ sent.text
          ∙ ap (λ x. decode (x ++ sent.extra)) no_out in
        record {
          deltas = sent.deltas;
          tokens = sent.extra;
          sink = sent.sink;
          text = text;
          few = sent.few;
          gives = finished r.1 sent.final;
        }
      where
        finished :
            (o : Outcome GenError (Decoding fl dv × Bool))
            → Final fl S on_token dv
                (Tokenizer.decode from_utf8_lossy m.tok)
                (λ d b. Unit {0})
                d.out
                sent.extra
                o
            → Gives S on_token m req
                (texts fl S on_token sent.deltas)
                (o >>= given fl dv dq graphs_enabled n graph)
        finished (err e) h = tt
        finished panic h = tt
        finished stuck h = tt
        finished (ok (d', b)) (outs, full, _) =
            let decode = Tokenizer.decode from_utf8_lossy m.tok in
            let start : decode d.out ≡ [] = ap decode no_out ∙ grows.empty in
            let tokens : d'.out ≡ sent.extra = outs ∙ ap (λ x. x ++ sent.extra) no_out in
            (
              full
                  ∙ ap decode outs
                  ∙ sym sent.text
                  ∙ ap (λ x. x ++ texts fl S on_token sent.deltas) start,
              omega (arith, ap length tokens, sent.few),
              some_prompt,
              fits,
            )

    -- With a tokenizer whose decoded text only grows at the end: on every request `on_token` is called
    -- with deltas that make up the text of at most `max_tokens` tokens, also where the request fails
    -- or panics; where it succeeds the reply is this text, of at most `max_tokens` tokens, and the
    -- prompt is not empty and fits the context with `max_tokens` and 4 to spare.
    pub generate_qwen-Streams :
        (m : QwenModel) (req : GenReq fl) (graph : Option dv.Graph) (st : dv.State) (s : S)
        → IsAppendOnly (Tokenizer.decode from_utf8_lossy m.tok)
        → Streams m req s (generated m req graph st s)
    unfolding generate_qwen
    generate_qwen-Streams m req graph st s grows =
        by_outcome (prepared fl dv dq graphs_enabled m req graph st) refl
          (prepared-IsFresh m req graph st)
      where
        by_outcome :
            (o : Outcome GenError (ℕ × Option dv.Graph × Decoding fl dv))
            → prepared fl dv dq graphs_enabled m req graph st ≡ o
            → IfOk (IsFresh m req) o
            → Streams m req s (generated m req graph st s)
        by_outcome (err e) run h = rw run (failed m req s (err e) grows tt)
        by_outcome panic run h = rw run (failed m req s panic grows tt)
        by_outcome stuck run h = rw run (failed m req s stuck grows tt)
        by_outcome (ok (n, graph', d)) run (value fresh) = rw run (
            let r =
              loop fl dv dq graphs_enabled to_bits from_bits sort_descending largest from_utf8_lossy
                expired S on_token m req graph' d s in
            looped m req s n graph' d grows fresh r (
              decode_loop-Sent fl S on_token dv (Tokenizer.decode from_utf8_lossy m.tok) to_bits
                from_bits sort_descending largest m.think_closers m.eos req.top_logprobs_n expired
                grows graph' req.max_tokens 0 d s
                (fresh.1 ∙ sym (ap (Tokenizer.decode from_utf8_lossy m.tok) fresh.0 ∙ grows.empty))
                (fresh.2 ∙ sym (ap length fresh.1))))
