-- ===== src/Serve/Generate/Loop.antt =====
-- The decode loop of a reply and a Qwen request: `ServerModel::generate` of src/serve/mod.rs.
use reinstinct.Base.{
  ℕ, zero, suc, ◌+◌, Bool, true, false, Option, some, none, List, drop, ltb, ◌==◌, if◌then◌else◌,
  Outcome, ok, ◌>>=◌,
}
use reinstinct.Base.Float.{Floats}
use reinstinct.Sampling.Chain.{SamplerParams, SampleResult}
use reinstinct.Sampling.Chain.Request.{sample_chain_lp}
use reinstinct.Sampling.Xorshift.{Rng}
use reinstinct.Serve.Generate.{
  GenError, TokenLogprob, Stepper, decode_token_logprob, Decoding, take_token, start, next_logits,
  within, deliver,
}

-- `largest n` stands for `select_nth_unstable_by(n - 1)` and `truncate(n)`.
module _ (fl : Floats) (to_bits : fl.F → ℕ) (from_bits : ℕ → fl.F)
    (sort_descending : List (ℕ × fl.F) → List (ℕ × fl.F))
    (largest : ℕ → List (ℕ × fl.F) → List (ℕ × fl.F)) (dv : Stepper fl) (decode : List ℕ → List ℕ)
    (think_closers : List ℕ) (eos want_lp : ℕ) (expired : ℕ → Bool) (S : Type 0)
    (on_token : S → List ℕ → Option (TokenLogprob fl) → S × Bool) where
  unfoldable pub sampled :
      Decoding fl dv → Outcome GenError (SampleResult fl × SamplerParams fl × Rng)
  sampled d =
      sample_chain_lp fl to_bits from_bits sort_descending largest d.logits d.sp
        (drop d.answer_start d.out) d.counts d.rng want_lp

  -- The token joins the reply, the next step is started, and the whole reply is decoded again.
  unfoldable pub decoded :
      Option dv.Graph → ℕ → Decoding fl dv → Outcome GenError (Decoding fl dv × Bool)
  unfolding take_token start
  decoded graph t d = take_token fl dv think_closers t d >>= λ d1.
      start fl dv graph t d1.state >>= λ (st, launched).
      ok (record d1 { state = st; full_text = decode d1.out }, launched)

  unfoldable pub advance :
      Bool → ℕ → Decoding fl dv × Bool → Outcome GenError (Decoding fl dv × Bool)
  unfolding next_logits
  advance launched t (d, false) = ok (d, false)
  advance launched t (d, true) = next_logits fl dv launched t d.state >>= λ (logits, st).
      ok (record d { logits = logits; state = st }, true)

  unfoldable pub one_round :
      Option dv.Graph
      → SampleResult fl
      → Decoding fl dv
      → S
      → S × Outcome GenError (Decoding fl dv × Bool)
  unfolding decoded deliver advance decode_token_logprob
  one_round graph res d = within fl dv S on_token (decoded graph res.token d) λ (d2, launched) s.
      let tlp : Option (TokenLogprob fl) =
        if ltb 0 want_lp then some (decode_token_logprob fl decode res.token res) else none in
      let (s', o) = deliver fl dv S on_token tlp d2 s in (s', o >>= advance launched res.token)

  abbrev Rounds : Type 0
  Rounds = Decoding fl dv → S → S × Outcome GenError (Decoding fl dv × Bool)

  -- Behind a round: the rounds left, unless the client is gone.
  unfoldable pub gone_on :
      Rounds → Decoding fl dv × Bool → S → S × Outcome GenError (Decoding fl dv × Bool)
  gone_on rest (d, true) s = rest d s
  gone_on rest (d, false) s = (s, ok (d, false))

  -- A round whose token is drawn.
  unfoldable pub drawn :
      Option dv.Graph
      → Rounds
      → Decoding fl dv
      → SampleResult fl × SamplerParams fl × Rng
      → S
      → S × Outcome GenError (Decoding fl dv × Bool)
  unfolding one_round gone_on
  drawn graph rest d (res, sp, rng) s =
      let (s', o) = one_round graph res (record d { sp = sp; rng = rng }) s in
      if res.token == eos then (s, ok (d, true)) else within fl dv S on_token o (gone_on rest) s'

  -- `for _ in 0..max_tokens`, of which the given number of rounds is left, from round `i` on.
  unfoldable pub decode_loop :
      Option dv.Graph → ℕ → ℕ → Decoding fl dv → S → S × Outcome GenError (Decoding fl dv × Bool)
  unfolding sampled drawn
  decode_loop graph zero i d s = (s, ok (d, false))
  decode_loop graph (suc n) i d s =
      let rest : Rounds = λ d' s'. decode_loop graph n (i + 1) d' s' in
      let more = within fl dv S on_token (sampled d) (drawn graph rest d) s in
      if expired i then (s, ok (d, false)) else more
