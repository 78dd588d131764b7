-- ===== src/Serve/Generate/Deltas.antt =====
-- What `on_token` receives during a reply: src/serve/mod.rs.
use reinstinct.Base.{
  ℕ, zero, suc, ◌+◌, ◌≤◌, ◌≡◌, refl, sym, ap, ◌∙◌, subst, arith, Bool, true, false, Bool-cases, inl,
  inr, Option, some, List, [], ◌∷◌, ◌++◌, map, append-nil, append_assoc, length, length-append,
  drop, drop-append, ltb, ltb→le, ◌==◌, if◌then◌else◌, Outcome, ok, err, panic, stuck, ◌>>=◌,
  >>=-eq-ok,
}
use reinstinct.Base.Float.{Floats}
use reinstinct.Sampling.Chain.{SampleResult, SamplerParams}
use reinstinct.Sampling.Xorshift.{Rng}
use reinstinct.Serve.Generate.{
  GenError, TokenLogprob, Stepper, Decoding, take_token, bump, contains, start, next_logits, within,
  deliver, sent, unsent, is_boundary, starts_char,
}
use reinstinct.Serve.Generate.Loop.{
  sampled, decoded, advance, one_round, drawn, gone_on, decode_loop,
}

-- A text that is empty or starts with the first byte of a character.
abbrev pub StartsChar : List ℕ → Type 0
StartsChar [] = Unit {0}
StartsChar (b ∷ bs) = starts_char (some b) ≡ true

-- A decoder whose text of the tokens so far never changes when a token is added.
pub record IsAppendOnly (decode : List ℕ → List ℕ) : Type 0 where
  pub empty : decode [] ≡ []
  pub grows :
      (xs : List ℕ) (t : ℕ)
      → (more : List ℕ) × (decode (xs ++ (t ∷ [])) ≡ decode xs ++ more) × StartsChar more

nil_of_length : (xs : List ℕ) → length xs ≡ 0 → xs ≡ []
nil_of_length [] h = refl
nil_of_length (x ∷ xs) h = absurd (omega arith)

is_boundary-append :
    (xs more : List ℕ) → StartsChar more → is_boundary (xs ++ more) (length xs) ≡ true
unfolding is_boundary
is_boundary-append [] [] h = refl
is_boundary-append [] (b ∷ bs) h = ground arith
is_boundary-append (x ∷ xs) more h = ground (arith, is_boundary-append xs more h)

module _ (fl : Floats) (S : Type 0)
    (on_token : S → List ℕ → Option (TokenLogprob fl) → S × Bool) where
  abbrev pub Delta : Type 0
  Delta = List ℕ × Option (TokenLogprob fl)

  -- What the calls for these deltas leave behind.
  unfoldable pub fed : S → List Delta → S
  fed s [] = s
  fed s ((x, lp) ∷ ds) = fed (on_token s x lp).0 ds

  abbrev pub texts : List Delta → List ℕ
  texts [] = []
  texts ((x, lp) ∷ ds) = x ++ texts ds

  fed-append : (s : S) (ds es : List Delta) → fed s (ds ++ es) ≡ fed (fed s ds) es
  unfolding fed
  fed-append s [] es = refl
  fed-append s ((x, lp) ∷ ds) es = fed-append (on_token s x lp).0 ds es

  texts-append : (ds es : List Delta) → texts (ds ++ es) ≡ texts ds ++ texts es
  texts-append [] es = refl
  texts-append ((x, lp) ∷ ds) es =
      ap (λ t. x ++ t) (texts-append ds es) ∙ sym (append_assoc x (texts ds) (texts es))

  module _ (dv : Stepper fl) (decode : List ℕ → List ℕ) where
    -- A run from the tokens `out` that gives a state with `extra` more.
    abbrev pub Final :
        (Decoding fl dv → Bool → Type 0)
        → List ℕ
        → List ℕ
        → Outcome GenError (Decoding fl dv × Bool)
        → Type 0
    Final Q out extra (ok (d, b)) = (d.out ≡ out ++ extra) × (d.full_text ≡ decode d.out) × Q d b
    Final Q out extra (err e) = Unit {0}
    Final Q out extra panic = Unit {0}
    Final Q out extra stuck = Unit {0}

    -- The run made calls of `on_token` with deltas that extend the text of `out` by at most `n` tokens.
    pub record Sent (Q : Decoding fl dv → Bool → Type 0) (out : List ℕ) (s : S) (n : ℕ)
        (r : S × Outcome GenError (Decoding fl dv × Bool)) : Type 0 where
      pub deltas : List Delta
      pub extra : List ℕ
      pub sink : r.0 ≡ fed s deltas
      pub text : decode out ++ texts deltas ≡ decode (out ++ extra)
      pub few : length extra ≤ n
      pub final : Final Q out extra r.1

    abbrev Any : Decoding fl dv → Bool → Type 0
    Any d b = Unit {0}

    -- Where the loop goes on, all of the text is sent.
    abbrev IsCurrent : Decoding fl dv → Bool → Type 0
    IsCurrent d go = go ≡ true → d.prev_text_len ≡ length d.full_text

    -- Where two runs are one and succeed, so is every part of the value.
    value_at :
        {A B : Type 0} {a b : A}
        → ◌≡◌ {A = Outcome GenError A} (ok a) (ok b)
        → (f : A → B) → f b ≡ f a
    value_at {A} {a = a} e f = sym (ap (λ o. f (unwrapped o)) e)
      where
        unwrapped : Outcome GenError A → A
        unwrapped (ok x) = x
        unwrapped (err e) = a
        unwrapped panic = a
        unwrapped stuck = a

    nothing :
        (Q : Decoding fl dv → Bool → Type 0) (out : List ℕ) (s : S) (n : ℕ)
        (o : Outcome GenError (Decoding fl dv × Bool))
        → Final Q out [] o
        → Sent Q out s n (s, o)
    unfolding fed
    nothing Q out s n o h = record {
      deltas = [];
      extra = [];
      sink = refl;
      text = append-nil (decode out) ∙ sym (ap decode (append-nil out));
      few = omega arith;
      final = h;
    }

    module _ (to_bits : fl.F → ℕ) (from_bits : ℕ → fl.F)
        (sort_descending : List (ℕ × fl.F) → List (ℕ × fl.F))
        (largest : ℕ → List (ℕ × fl.F) → List (ℕ × fl.F)) (think_closers : List ℕ) (eos want_lp : ℕ)
        (expired : ℕ → Bool) where
      abbrev pub run_decoded :
          Option dv.Graph → ℕ → Decoding fl dv → Outcome GenError (Decoding fl dv × Bool)
      run_decoded =
          decoded fl to_bits from_bits sort_descending largest dv decode think_closers eos want_lp
            expired S on_token

      abbrev run_round :
          Option dv.Graph
          → SampleResult fl
          → Decoding fl dv
          → S
          → S × Outcome GenError (Decoding fl dv × Bool)
      run_round =
          one_round fl to_bits from_bits sort_descending largest dv decode think_closers eos want_lp
            expired S on_token

      abbrev run_loop :
          Option dv.Graph
          → ℕ
          → ℕ
          → Decoding fl dv
          → S
          → S × Outcome GenError (Decoding fl dv × Bool)
      run_loop =
          decode_loop fl to_bits from_bits sort_descending largest dv decode think_closers eos
            want_lp expired S on_token

      pub decoded-ok :
          (graph : Option dv.Graph) (t : ℕ) (d d2 : Decoding fl dv) (launched : Bool)
          → run_decoded graph t d ≡ ok (d2, launched)
          → (d2.out ≡ d.out ++ (t ∷ []))
            × (d2.full_text ≡ decode d2.out)
            × (d2.prev_text_len ≡ d.prev_text_len)
      unfolding decoded take_token
      decoded-ok graph t d d2 launched h =
          let (d1, taken, rest) = >>=-eq-ok (take_token fl dv think_closers t d) _ h in
          let ((st, l), started, last) = >>=-eq-ok (start fl dv graph t d1.state) _ rest in
          let (cs, bumped, made) =
            >>=-eq-ok
              (bump (if contains t think_closers then map (λ c. 0) d.counts else d.counts) t) _
              taken in
          let out1 = value_at made (λ d. d.out) in
          let out2 = value_at last (λ (d, b). d.out) in
          (
            out2 ∙ out1,
            value_at last (λ (d, b). d.full_text) ∙ sym (ap decode out2),
            value_at last (λ (d, b). d.prev_text_len) ∙ value_at made (λ d. d.prev_text_len),
          )

      advance-same :
          (launched : Bool) (t : ℕ) (d d' : Decoding fl dv) (go go' : Bool)
          → advance fl to_bits from_bits sort_descending largest dv decode think_closers eos want_lp
              expired S on_token launched t
              (d, go)
            ≡ ok (d', go')
          → (d'.out ≡ d.out)
            × (d'.full_text ≡ d.full_text)
            × (d'.prev_text_len ≡ d.prev_text_len)
            × (go' ≡ go)
      unfolding advance
      advance-same launched t d d' false go' h = (cc, cc, cc, cc)
      advance-same launched t d d' true go' h =
          let ((l, st), run, last) = >>=-eq-ok (next_logits fl dv launched t d.state) _ h in
          (cc, cc, cc, cc)

      abbrev run_advance :
          Bool → ℕ → Decoding fl dv × Bool → Outcome GenError (Decoding fl dv × Bool)
      run_advance =
          advance fl to_bits from_bits sort_descending largest dv decode think_closers eos want_lp
            expired S on_token

      advance-Final :
          (launched : Bool) (t : ℕ) (d : Decoding fl dv) (go : Bool) (out extra : List ℕ)
          → d.out ≡ out ++ extra
          → d.full_text ≡ decode d.out
          → IsCurrent d go
          → Final IsCurrent out extra (run_advance launched t (d, go))
      advance-Final launched t d go out extra h k current =
          by_outcome (run_advance launched t (d, go)) refl
        where
          by_outcome :
              (o : Outcome GenError (Decoding fl dv × Bool))
              → run_advance launched t (d, go) ≡ o
              → Final IsCurrent out extra o
          by_outcome (err e) run = tt
          by_outcome panic run = tt
          by_outcome stuck run = tt
          by_outcome (ok (d', go')) run =
              let (same_out, same_text, same_len, same_go) =
                advance-same launched t d d' go go' run in
              (
                same_out ∙ h,
                same_text ∙ k ∙ ap decode (sym same_out),
                λ on. same_len ∙ current (sym same_go ∙ on) ∙ ap length (sym same_text),
              )

      deliver-Sent :
          (tlp : Option (TokenLogprob fl)) (d : Decoding fl dv) (s : S) (launched : Bool) (t : ℕ)
          (out more : List ℕ)
          → d.out ≡ out ++ (t ∷ [])
          → d.full_text ≡ decode d.out
          → d.prev_text_len ≡ length (decode out)
          → decode (out ++ (t ∷ [])) ≡ decode out ++ more
          → StartsChar more
          → Sent IsCurrent out s 1 (
            (deliver fl dv S on_token tlp d s).0,
            (deliver fl dv S on_token tlp d s).1 >>= run_advance launched t,
          )
      unfolding deliver fed sent unsent
      deliver-Sent tlp d s launched t out more h k prev grown starts =
          let full : d.full_text ≡ decode out ++ more = k ∙ ap decode h ∙ grown in
          let boundary : is_boundary d.full_text d.prev_text_len ≡ true =
            rw (full, prev) (is_boundary-append (decode out) more starts) in
          let new_text : drop d.prev_text_len d.full_text ≡ more =
            rw (full, prev) (drop-append (decode out) more) in
          let sizes : length d.full_text ≡ length (decode out) + length more =
            rw full (length-append (decode out) more) in
          elim (Bool-cases (ltb d.prev_text_len (length d.full_text))) [
            | inl longer ↦
                let delta = drop d.prev_text_len d.full_text in
                let go = (on_token s delta tlp).1 in
                let run : deliver fl dv S on_token tlp d s
                    ≡ ((on_token s delta tlp).0, ok (sent fl dv S on_token tlp go d, go)) =
                  rw (longer, boundary) refl in
                subst (λ r. Sent IsCurrent out s 1 (r.0, r.1 >>= run_advance launched t)) (sym run)
                  (record {
                    deltas = (delta, tlp) ∷ [];
                    extra = t ∷ [];
                    sink = refl;
                    text = ap (λ x. decode out ++ x) (append-nil delta ∙ new_text) ∙ sym grown;
                    few = omega arith;
                    final =
                        advance-Final launched t (sent fl dv S on_token tlp go d) go out (t ∷ []) h
                          k λ on. ap (λ b. if b then length d.full_text else d.prev_text_len) on;
                  })
            | inr same ↦
                let le = ltb→le d.prev_text_len (length d.full_text) same in
                let no_more : more ≡ [] = nil_of_length more (omega arith) in
                let run : deliver fl dv S on_token tlp d s
                    ≡ (s, ok (unsent fl dv S on_token tlp d, true)) =
                  rw same refl in
                subst (λ r. Sent IsCurrent out s 1 (r.0, r.1 >>= run_advance launched t)) (sym run)
                  (record {
                    deltas = [];
                    extra = t ∷ [];
                    sink = refl;
                    text = ap (λ x. decode out ++ x) (sym no_more) ∙ sym grown;
                    few = omega arith;
                    final =
                        advance-Final launched t (unsent fl dv S on_token tlp d) true out (t ∷ []) h
                          k λ on. omega (arith, ap length no_more);
                  })
          ]

      one_round-Sent :
          IsAppendOnly decode
          → (graph : Option dv.Graph) (res : SampleResult fl) (d : Decoding fl dv) (s : S)
          → d.full_text ≡ decode d.out
          → d.prev_text_len ≡ length d.full_text
          → Sent IsCurrent d.out s 1 (run_round graph res d s)
      unfolding one_round
      one_round-Sent grows graph res d s k prev = by_outcome (run_decoded graph res.token d) refl
        where
          by_outcome :
              (o : Outcome GenError (Decoding fl dv × Bool))
              → run_decoded graph res.token d ≡ o
              → Sent IsCurrent d.out s 1 (run_round graph res d s)
          by_outcome (err e) run = rw run (nothing IsCurrent d.out s 1 (err e) tt)
          by_outcome panic run = rw run (nothing IsCurrent d.out s 1 panic tt)
          by_outcome stuck run = rw run (nothing IsCurrent d.out s 1 stuck tt)
          by_outcome (ok (d2, launched)) run =
              let (same_out, same_text, same_len) = decoded-ok graph res.token d d2 launched run in
              let (more, grown, starts) = grows.grows d.out res.token in
              rw run (
                deliver-Sent _ d2 s launched res.token d.out more same_out same_text
                  (same_len ∙ prev ∙ ap length k) grown starts)

      -- A round behind which the loop ends.
      ended :
          {Q : Decoding fl dv → Bool → Type 0} {out : List ℕ} {s : S} {n : ℕ}
          (r : S × Outcome GenError (Decoding fl dv × Bool))
          → (first : Sent Q out s 1 r) → Final Any out first.extra r.1
          → Sent Any out s (suc n) r
      ended r first h = record {
        deltas = first.deltas;
        extra = first.extra;
        sink = first.sink;
        text = first.text;
        few = omega (arith, first.few);
        final = h;
      }

      -- A round that goes on, and the rounds behind it.
      followed :
          (d d' : Decoding fl dv) (s s' : S) (n : ℕ) (go : Bool)
          (r : S × Outcome GenError (Decoding fl dv × Bool))
          → Sent IsCurrent d.out s 1 (s', ok (d', go))
          → Sent Any d'.out s' n r
          → Sent Any d.out s (suc n) r
      unfolding fed
      followed d d' s s' n go r first rest =
          let (same_out, same_text, _) = first.final in
          let joined : d'.out ++ rest.extra ≡ d.out ++ (first.extra ++ rest.extra) =
            ap (λ x. x ++ rest.extra) same_out ∙ append_assoc d.out first.extra rest.extra in
          record {
            deltas = first.deltas ++ rest.deltas;
            extra = first.extra ++ rest.extra;
            sink =
                rest.sink
                ∙ ap (λ x. fed x rest.deltas) first.sink
                ∙ sym (fed-append s first.deltas rest.deltas);
            text =
                ap (λ x. decode d.out ++ x) (texts-append first.deltas rest.deltas)
                ∙ sym (append_assoc (decode d.out) (texts first.deltas) (texts rest.deltas))
                ∙ ap (λ x. x ++ texts rest.deltas) (first.text ∙ ap decode (sym same_out))
                ∙ rest.text
                ∙ ap decode joined;
            few = omega (arith, length-append first.extra rest.extra, first.few, rest.few);
            final = later _ _ r.1 rest.final joined;
          }
        where
          later :
              (extra extra' : List ℕ) (o : Outcome GenError (Decoding fl dv × Bool))
              → Final Any d'.out extra o
              → d'.out ++ extra ≡ d.out ++ extra'
              → Final Any d.out extra' o
          later extra extra' (err e) h e2 = tt
          later extra extra' panic h e2 = tt
          later extra extra' stuck h e2 = tt
          later extra extra' (ok (d3, b)) h e2 = (h.0 ∙ e2, h.1, tt)

      abbrev Rounds : Type 0
      Rounds = Decoding fl dv → S → S × Outcome GenError (Decoding fl dv × Bool)

      abbrev run_drawn :
          Option dv.Graph
          → Rounds
          → Decoding fl dv
          → SampleResult fl × SamplerParams fl × Rng
          → S
          → S × Outcome GenError (Decoding fl dv × Bool)
      run_drawn =
          drawn fl to_bits from_bits sort_descending largest dv decode think_closers eos want_lp
            expired S on_token

      abbrev run_sampled :
          Decoding fl dv → Outcome GenError (SampleResult fl × SamplerParams fl × Rng)
      run_sampled =
          sampled fl to_bits from_bits sort_descending largest dv decode think_closers eos want_lp
            expired S on_token

      -- The rounds left do what the loop promises.
      abbrev Keeps : ℕ → Rounds → Type 0
      Keeps n rest =
          (d : Decoding fl dv) (s : S)
          → d.full_text ≡ decode d.out
          → d.prev_text_len ≡ length d.full_text
          → Sent Any d.out s n (rest d s)

      gone_on-Sent :
          (d : Decoding fl dv) (s s' : S) (n : ℕ) (rest : Rounds)
          (o : Outcome GenError (Decoding fl dv × Bool))
          → Keeps n rest
          → Sent IsCurrent d.out s 1 (s', o)
          → Sent Any d.out s (suc n) (
              within fl dv S on_token o
                (gone_on fl to_bits from_bits sort_descending largest dv decode think_closers eos
                  want_lp expired S on_token rest)
                s')
      unfolding gone_on
      gone_on-Sent d s s' n rest (ok (d', true)) keeps first =
          followed d d' s s' n true (rest d' s') first
            (keeps d' s' first.final.1 (first.final.2 refl))
      gone_on-Sent d s s' n rest (ok (d', false)) keeps first =
          ended (s', ok (d', false)) first (first.final.0, first.final.1, tt)
      gone_on-Sent d s s' n rest (err e) keeps first = ended (s', err e) first tt
      gone_on-Sent d s s' n rest panic keeps first = ended (s', panic) first tt
      gone_on-Sent d s s' n rest stuck keeps first = ended (s', stuck) first tt

      drawn-Sent :
          IsAppendOnly decode
          → (graph : Option dv.Graph) (n : ℕ) (rest : Rounds) (d : Decoding fl dv) (s : S)
            (res : SampleResult fl) (sp : SamplerParams fl) (rng : Rng)
          → Keeps n rest
          → d.full_text ≡ decode d.out
          → d.prev_text_len ≡ length d.full_text
          → Sent Any d.out s (suc n) (run_drawn graph rest d (res, sp, rng) s)
      unfolding drawn
      drawn-Sent grows graph n rest d s res sp rng keeps k prev =
          let d1 : Decoding fl dv = record d { sp = sp; rng = rng } in
          let r = run_round graph res d1 s in
          elim (Bool-cases (res.token == eos)) [
            | inl stop ↦
                rw stop (nothing Any d.out s (suc n) (ok (d, true)) (sym (append-nil d.out), k, tt))
            | inr go ↦
                rw go (
                  gone_on-Sent d s r.0 n rest r.1 keeps
                    (one_round-Sent grows graph res d1 s k prev))
          ]

      sampled-Sent :
          IsAppendOnly decode
          → (graph : Option dv.Graph) (n : ℕ) (rest : Rounds) (d : Decoding fl dv) (s : S)
          → Keeps n rest
          → d.full_text ≡ decode d.out
          → d.prev_text_len ≡ length d.full_text
          → (m : Outcome GenError (SampleResult fl × SamplerParams fl × Rng))
          → Sent Any d.out s (suc n) (within fl dv S on_token m (run_drawn graph rest d) s)
      sampled-Sent grows graph n rest d s keeps k prev (ok (res, sp, rng)) =
          drawn-Sent grows graph n rest d s res sp rng keeps k prev
      sampled-Sent grows graph n rest d s keeps k prev (err e) =
          nothing Any d.out s (suc n) (err e) tt
      sampled-Sent grows graph n rest d s keeps k prev panic = nothing Any d.out s (suc n) panic tt
      sampled-Sent grows graph n rest d s keeps k prev stuck = nothing Any d.out s (suc n) stuck tt

      -- With a decoder that only appends, from a state whose text is that of its tokens and is all
      -- sent, the loop passes deltas to `on_token` that extend this text to that of at most `n` more
      -- tokens, also where it ends in an error or a panic; where it succeeds, these are the tokens and
      -- the text that it gives.
      pub decode_loop-Sent :
          IsAppendOnly decode
          → (graph : Option dv.Graph) (n i : ℕ) (d : Decoding fl dv) (s : S)
          → d.full_text ≡ decode d.out
          → d.prev_text_len ≡ length d.full_text
          → Sent Any d.out s n (run_loop graph n i d s)
      unfolding decode_loop
      decode_loop-Sent grows graph zero i d s k prev =
          nothing Any d.out s zero (ok (d, false)) (sym (append-nil d.out), k, tt)
      decode_loop-Sent grows graph (suc n) i d s k prev =
          let rest : Rounds = λ d' s'. run_loop graph n (i + 1) d' s' in
          let keeps : Keeps n rest =
            λ d' s' k' prev'. decode_loop-Sent grows graph n (i + 1) d' s' k' prev' in
          elim (Bool-cases (expired i)) [
            | inl late ↦
                rw late
                  (nothing Any d.out s (suc n) (ok (d, false)) (sym (append-nil d.out), k, tt))
            | inr early ↦
                rw early (sampled-Sent grows graph n rest d s keeps k prev (run_sampled d))
          ]
