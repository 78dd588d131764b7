-- ===== src/Serve/Generate/Given.antt =====
-- What a request to a Qwen model gives, whatever the tokenizer's text does when a token is added:
-- src/serve/mod.rs.
use reinstinct.Base.{
  ℕ, zero, suc, ◌+◌, ◌≤◌, ◌≡◌, refl, sym, ap, ◌∙◌, arith, Bool, true, false, Bool-cases, inl, inr,
  Option, List, [], ◌∷◌, ◌++◌, append-nil, append_assoc, length, All, ltb, ◌==◌, Outcome, ok, err,
  panic, stuck, ◌>>=◌,
}
use reinstinct.Base.Float.{Floats}
use reinstinct.Sampling.Chain.{SampleResult, SamplerParams}
use reinstinct.Sampling.Xorshift.{Rng}
use reinstinct.Serve.Request.{GenReq}
use reinstinct.Serve.Generate.{
  GenError, TokenLogprob, Stepper, QwenDevice, Generated, Decoding, next_logits, within, deliver,
  sent, unsent, is_boundary,
}
use reinstinct.Serve.Generate.Loop.{
  sampled, decoded, advance, one_round, drawn, gone_on, decode_loop,
}
use reinstinct.Serve.Generate.Qwen.{QwenModel, prepared, generate_qwen, given}
use reinstinct.Serve.Generate.Deltas.{decoded-ok}
use reinstinct.Serve.Generate.Stream.{
  IfOk, value, no_value, panicked, gave_up, IfOk-bind, IsFresh, prepared-IsFresh,
}
use reinstinct.Tokenizer

IfOk-then :
    {A B : Type 0} {P : A → Type 0} {Q : B → Type 0} {m : Outcome GenError A}
    {f : A → Outcome GenError B}
    → IfOk P m
    → ((a : A) → P a → IfOk Q (f a))
    → IfOk Q (m >>= f)
IfOk-then (value {a} h) k = k a h
IfOk-then no_value k = no_value
IfOk-then panicked k = panicked
IfOk-then gave_up k = gave_up

-- The text of a reply's tokens, which is empty before the first one.
abbrev pub text_of : (List ℕ → List ℕ) → List ℕ → List ℕ
text_of decode [] = []
text_of decode (t ∷ ts) = decode (t ∷ ts)

text_of-snoc :
    (decode : List ℕ → List ℕ) (ts : List ℕ) (t : ℕ)
    → text_of decode (ts ++ (t ∷ [])) ≡ decode (ts ++ (t ∷ []))
text_of-snoc decode [] t = refl
text_of-snoc decode (x ∷ xs) t = refl

module _ (fl : Floats) (S : Type 0) (on_token : S → List ℕ → Option (TokenLogprob fl) → S × Bool)
    (dv : Stepper fl) (decode : List ℕ → List ℕ) (to_bits : fl.F → ℕ) (from_bits : ℕ → fl.F)
    (sort_descending : List (ℕ × fl.F) → List (ℕ × fl.F))
    (largest : ℕ → List (ℕ × fl.F) → List (ℕ × fl.F)) (think_closers : List ℕ) (eos want_lp : ℕ)
    (expired : ℕ → Bool) where
  -- At most `n` tokens behind `out`, none of which ends the reply, and the text of them all.
  record Extends (n : ℕ) (out : List ℕ) (d : Decoding fl dv) : Type 0 where
    extra : List ℕ
    outs : d.out ≡ out ++ extra
    few : length extra ≤ n
    goes_on : All (λ t. (t == eos) ≡ false) extra
    text : d.full_text ≡ text_of decode d.out

  abbrev Valid : Decoding fl dv → Type 0
  Valid d = d.full_text ≡ text_of decode d.out

  Extends-refl : (n : ℕ) (d : Decoding fl dv) → Valid d → Extends n d.out d
  Extends-refl n d h = record {
    extra = [];
    outs = sym (append-nil d.out);
    few = omega arith;
    goes_on = tt;
    text = h;
  }

  -- The state behind a round with token `t`.
  abbrev OneMore : List ℕ → ℕ → Decoding fl dv × Bool → Type 0
  OneMore out t (d, go) = (d.out ≡ out ++ (t ∷ [])) × Valid d

  deliver-keeps :
      (tlp : Option (TokenLogprob fl)) (d : Decoding fl dv) (s : S) (out : List ℕ) (t : ℕ)
      → OneMore out t (d, true)
      → IfOk (OneMore out t) (deliver fl dv S on_token tlp d s).1
  unfolding deliver sent unsent
  deliver-keeps tlp d s out t h = elim (Bool-cases (ltb d.prev_text_len (length d.full_text))) [
    | inr same ↦ rw same (value h)
    | inl longer ↦ elim (Bool-cases (is_boundary d.full_text d.prev_text_len)) [
      | inl whole ↦ rw (longer, whole) (value h)
      | inr split ↦ rw (longer, split) panicked
    ]
  ]

  advance-keeps :
      (launched : Bool) (u : ℕ) (out : List ℕ) (t : ℕ) (r : Decoding fl dv × Bool)
      → OneMore out t r
      → IfOk (OneMore out t) (
          advance fl to_bits from_bits sort_descending largest dv decode think_closers eos want_lp
            expired S on_token launched u r)
  unfolding advance
  advance-keeps launched u out t (d, false) h = value h
  advance-keeps launched u out t (d, true) h =
      IfOk-bind (next_logits fl dv launched u d.state) λ (l, st) _. value h

  abbrev run_round :
      Option dv.Graph
      → SampleResult fl
      → Decoding fl dv
      → S
      → S × Outcome GenError (Decoding fl dv × Bool)
  run_round =
      one_round fl to_bits from_bits sort_descending largest dv decode think_closers eos want_lp
        expired S on_token

  one_round-OneMore :
      (graph : Option dv.Graph) (res : SampleResult fl) (d : Decoding fl dv) (s : S)
      → IfOk (OneMore d.out res.token) (run_round graph res d s).1
  unfolding one_round
  one_round-OneMore graph res d s =
      by_outcome
        (decoded fl to_bits from_bits sort_descending largest dv decode think_closers eos want_lp
          expired S on_token graph res.token d)
        refl
    where
      by_outcome :
          (o : Outcome GenError (Decoding fl dv × Bool))
          → decoded fl to_bits from_bits sort_descending largest dv decode think_closers eos want_lp
              expired S on_token graph res.token d
            ≡ o
          → IfOk (OneMore d.out res.token) (run_round graph res d s).1
      by_outcome (err e) run = rw run no_value
      by_outcome panic run = rw run panicked
      by_outcome stuck run = rw run gave_up
      by_outcome (ok (d2, launched)) run =
          let (outs, text, _) =
            decoded-ok fl S on_token dv decode to_bits from_bits sort_descending largest
              think_closers eos want_lp expired graph res.token d d2 launched run in
          let whole : Valid d2 =
            text
            ∙ ap decode outs
            ∙ sym (text_of-snoc decode d.out res.token)
            ∙ ap (λ x. text_of decode x) (sym outs) in
          rw run (
            IfOk-then (deliver-keeps _ d2 s d.out res.token (outs, whole))
              λ r h. advance-keeps launched res.token d.out res.token r h)

  abbrev Rounds : Type 0
  Rounds = Decoding fl dv → S → S × Outcome GenError (Decoding fl dv × Bool)

  abbrev Reaches : ℕ → List ℕ → Outcome GenError (Decoding fl dv × Bool) → Type 0
  Reaches n out o = IfOk (λ (r : Decoding fl dv × Bool). Extends n out r.0) o

  Extends-cons :
      {n : ℕ} {out : List ℕ} (t : ℕ) (d : Decoding fl dv) {d' : Decoding fl dv}
      → (t == eos) ≡ false
      → d.out ≡ out ++ (t ∷ [])
      → Extends n d.out d'
      → Extends (suc n) out d'
  Extends-cons {out = out} t d go outs e = record {
    extra = t ∷ e.extra;
    outs = e.outs ∙ ap (λ x. x ++ e.extra) outs ∙ append_assoc out (t ∷ []) e.extra;
    few = omega (arith, e.few);
    goes_on = (go, e.goes_on);
    text = e.text;
  }

  gone_on-Reaches :
      (n : ℕ) (out : List ℕ) (t : ℕ) (rest : Rounds)
      → (t == eos) ≡ false
      → ((d : Decoding fl dv) (s : S) → Valid d → Reaches n d.out (rest d s).1)
      → (o : Outcome GenError (Decoding fl dv × Bool)) (s : S) → IfOk (OneMore out t) o
      → Reaches
          (suc n)
          out
          (within fl dv S on_token o
            (gone_on fl to_bits from_bits sort_descending largest dv decode think_closers eos
              want_lp expired S on_token rest)
            s).1
  unfolding gone_on
  gone_on-Reaches n out t rest go keeps (ok (d, true)) s (value (outs, valid)) =
      IfOk-map (keeps d s valid) λ r e. Extends-cons t d go outs e
    where
      IfOk-map :
          {o : Outcome GenError (Decoding fl dv × Bool)}
          → Reaches n d.out o
          → ((r : Decoding fl dv × Bool) → Extends n d.out r.0 → Extends (suc n) out r.0)
          → Reaches (suc n) out o
      IfOk-map (value {a} h) k = value (k a h)
      IfOk-map no_value k = no_value
      IfOk-map panicked k = panicked
      IfOk-map gave_up k = gave_up
  gone_on-Reaches n out t rest go keeps (ok (d, false)) s (value (outs, valid)) =
      value (Extends-cons t d go outs (Extends-refl n d valid))
  gone_on-Reaches n out t rest go keeps (err e) s h = no_value
  gone_on-Reaches n out t rest go keeps panic s h = panicked
  gone_on-Reaches n out t rest go keeps stuck s h = gave_up

  sampled-Reaches :
      (graph : Option dv.Graph) (n : ℕ) (rest : Rounds) (d : Decoding fl dv) (s : S)
      → Valid d
      → ((d' : Decoding fl dv) (s' : S) → Valid d' → Reaches n d'.out (rest d' s').1)
      → (m : Outcome GenError (SampleResult fl × SamplerParams fl × Rng))
      → Reaches
          (suc n)
          d.out
          (within fl dv S on_token m
            (drawn fl to_bits from_bits sort_descending largest dv decode think_closers eos want_lp
              expired S on_token graph rest d)
            s).1
  unfolding drawn
  sampled-Reaches graph n rest d s valid keeps (ok (res, sp, rng)) =
      let d1 : Decoding fl dv = record d { sp = sp; rng = rng } in
      elim (Bool-cases (res.token == eos)) [
        | inl stop ↦ rw stop (value (Extends-refl (suc n) d valid))
        | inr go ↦ rw go (
            gone_on-Reaches n d.out res.token rest go keeps (run_round graph res d1 s).1
              (run_round graph res d1 s).0 (one_round-OneMore graph res d1 s))
      ]
  sampled-Reaches graph n rest d s valid keeps (err e) = no_value
  sampled-Reaches graph n rest d s valid keeps panic = panicked
  sampled-Reaches graph n rest d s valid keeps stuck = gave_up

  decode_loop-Reaches :
      (graph : Option dv.Graph) (n i : ℕ) (d : Decoding fl dv) (s : S)
      → Valid d
      → Reaches n d.out
          (decode_loop fl to_bits from_bits sort_descending largest dv decode think_closers eos
            want_lp expired S on_token graph n i d s).1
  unfolding decode_loop
  decode_loop-Reaches graph zero i d s valid = value (Extends-refl zero d valid)
  decode_loop-Reaches graph (suc n) i d s valid =
      let rest : Rounds = λ d' s'.
        decode_loop fl to_bits from_bits sort_descending largest dv decode think_closers eos want_lp
          expired S on_token graph n (i + 1) d' s' in
      elim (Bool-cases (expired i)) [
        | inl late ↦ rw late (value (Extends-refl (suc n) d valid))
        | inr early ↦ rw early (
            sampled-Reaches graph n rest d s valid
              (λ d' s' v. decode_loop-Reaches graph n (i + 1) d' s' v)
              (sampled fl to_bits from_bits sort_descending largest dv decode think_closers eos
                want_lp expired S on_token d))
      ]

-- A reply is the text of its tokens, which it counts: at most `max_tokens`, none of which ends the
-- reply. The prompt is not empty and fits the context with `max_tokens` and 4 to spare.
pub record IsReply (fl : Floats) (decode : List ℕ → List ℕ) (m : QwenModel) (req : GenReq fl)
    (g : Generated fl) : Type 0 where
  pub tokens : List ℕ
  pub text : g.text ≡ text_of decode tokens
  pub counted : g.n_completion ≡ length tokens
  pub few : length tokens ≤ req.max_tokens
  pub goes_on : All (λ t. (t == m.eos) ≡ false) tokens
  pub prompted : 1 ≤ g.n_prompt
  pub fits : g.n_prompt + req.max_tokens + 4 ≤ m.max_seq

module _ (fl : Floats) (dv : Stepper fl) (dq : QwenDevice dv) (graphs_enabled : Bool)
    (to_bits : fl.F → ℕ) (from_bits : ℕ → fl.F)
    (sort_descending : List (ℕ × fl.F) → List (ℕ × fl.F))
    (largest : ℕ → List (ℕ × fl.F) → List (ℕ × fl.F)) (from_utf8_lossy : List ℕ → List ℕ)
    (expired : ℕ → Bool) (S : Type 0)
    (on_token : S → List ℕ → Option (TokenLogprob fl) → S × Bool) where
  abbrev pub Replies :
      QwenModel → GenReq fl → Outcome GenError (Generated fl × Option dv.Graph × dv.State) → Type 0
  Replies m req o =
      IfOk
        (λ (r : Generated fl × Option dv.Graph × dv.State).
          IsReply fl (Tokenizer.decode from_utf8_lossy m.tok) m req r.0)
        o

  -- Whatever the device, the tokenizer and the client do, a request to a Qwen model that succeeds gives
  -- the decoded text of tokens, empty if there are none, which it counts: at most `max_tokens` of
  -- them, none the end of sequence; its prompt is not empty and fits the context with `max_tokens` and
  -- 4 to spare.
  pub generate_qwen-Replies :
      (m : QwenModel) (req : GenReq fl) (graph : Option dv.Graph) (st : dv.State) (s : S)
      → Replies m req
          (generate_qwen fl dv dq graphs_enabled to_bits from_bits sort_descending largest
            from_utf8_lossy expired S on_token m req graph st s).1
  unfolding generate_qwen given
  generate_qwen-Replies m req graph st s =
      by_outcome (prepared fl dv dq graphs_enabled m req graph st) refl
        (prepared-IsFresh fl dv dq graphs_enabled m req graph st)
    where
      by_outcome :
          (o : Outcome GenError (ℕ × Option dv.Graph × Decoding fl dv))
          → prepared fl dv dq graphs_enabled m req graph st ≡ o
          → IfOk (IsFresh fl dv dq graphs_enabled m req) o
          → Replies m req
              (generate_qwen fl dv dq graphs_enabled to_bits from_bits sort_descending largest
                from_utf8_lossy expired S on_token m req graph st s).1
      by_outcome (err e) run h = rw run no_value
      by_outcome panic run h = rw run panicked
      by_outcome stuck run h = rw run gave_up
      by_outcome (ok (n, graph', d)) run (value (no_out, no_text, _, prompted, fits)) =
          let decode = Tokenizer.decode from_utf8_lossy m.tok in
          let valid : d.full_text ≡ text_of decode d.out =
            no_text ∙ ap (λ x. text_of decode x) (sym no_out) in
          rw run (
            IfOk-then
              (decode_loop-Reaches fl S on_token dv decode to_bits from_bits sort_descending largest
                m.think_closers m.eos req.top_logprobs_n expired graph' req.max_tokens 0 d s valid)
              λ (d', hit) e.
                let outs : d'.out ≡ e.extra = e.outs ∙ ap (λ x. x ++ e.extra) no_out in
                value (record {
                  tokens = e.extra;
                  text = e.text ∙ ap (λ x. text_of decode x) outs;
                  counted = ap length outs;
                  few = e.few;
                  goes_on = e.goes_on;
                  prompted = prompted;
                  fits = fits;
                }))
