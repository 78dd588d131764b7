-- ===== src/SpecDecode/Lossless/Verify.antt =====
-- A verification round under greedy decoding: src/runtime/spec_decode.rs.
use reinstinct.Base.{
  ℕ, zero, suc, ◌≤◌, ◌<◌, ◌≡◌, refl, sym, ap, ◌∙◌, arith, true, false, Bool-cases, inl, inr, some,
  none, List, [], ◌∷◌, ◌++◌, append_assoc, length, length-append, min, ◌==◌, if◌then◌else◌, ok,
}
use reinstinct.Base.Float.{Floats}
use reinstinct.Sampling.{first_max}
use reinstinct.Sampling.Xorshift.{Rng}
use reinstinct.SpecDecode.{Engine, Config, Loop, sampling, pick, draft, stops_early}
use reinstinct.SpecDecode.Greedy.{IsModel, along}
use reinstinct.SpecDecode.Round.{
  Accepted, Pass, go_on, leave, bonus_step, adapt, verify, tokens, count_round, last_logits,
  verify_step,
}
use reinstinct.SpecDecode.Lossless.Commit.{
  best, commit_last, commit_next, Synced, Finished, Pending, Post, ended, synced, pending,
}
use reinstinct.SpecDecode.Lossless.Accept.{accept_run}

module _ {fl : Floats} {E : Type 0} {en : Engine fl E} (cfg : Config fl) (m : IsModel en)
    (cold : sampling en cfg ≡ false) (whole : List ℕ) where
  open m use {history, next}

  pub pick_some :
      (l : List fl.F) (rng : Rng)
      → (length l == 0) ≡ false
      → pick en cfg l rng ≡ ok (first_max fl l, rng)
  unfolding pick
  pick_some l rng h = rw (cold, h)

  -- The draft phase returns, with a draft at least where one is asked for.
  pub draft_run :
      (n : ℕ) (state : en.State) (pos prev : ℕ) (dr : en.Drafter) (rng : Rng)
      → (ds : List (ℕ × List fl.F)) × (dr' : en.Drafter) × (draft en cfg n state pos prev dr rng
          ≡ ok (ds, dr', rng))
        × (min n 1 ≤ length ds)
  unfolding draft
  draft_run zero state pos prev dr rng = ([], dr, refl, omega arith)
  draft_run (suc n) state pos prev dr rng =
      let (l, dr', e, some_logit) = m.draft_law state prev pos dr in
      let (ds, dr'', more, _) = draft_run n state pos (first_max fl l) dr' rng in
      elim (Bool-cases (stops_early en cfg l (first_max fl l))) [
        | inl stop ↦
            ((first_max fl l, l) ∷ [], dr', rw (e, pick_some l rng some_logit, stop), omega arith)
        | inr on ↦ (
          (first_max fl l, l) ∷ ds,
          dr'',
          rw (e, pick_some l rng some_logit, on, more),
          omega arith,
        )
      ]

  pub verify_run :
      (ds : List ℕ) (s : en.State)
      → (s' : en.State) × (verify en cfg ds s ≡ ok (along next (history s) ds, s'))
        × (history s' ≡ history s ++ ds)
  unfolding verify
  verify_run ds s =
      elim cfg.captured_k
        as (λ c.
          (s' : en.State) × (elim c [
            | none ↦ en.verify_forward ds s
            | some k ↦ if length ds == k then en.verify_via_graph ds s else en.verify_forward ds s
          ]
            ≡ ok (along next (history s) ds, s'))
          × (history s' ≡ history s ++ ds)) [
            | none ↦ m.verify_law ds s
            | some k ↦ elim (Bool-cases (length ds == k)) [
              | inl here ↦ rw here (m.graph_law ds s)
              | inr other ↦ rw other (m.verify_law ds s)
            ]
          ]

  pub last_along :
      (ds : List ℕ) (h : List ℕ) (d : ℕ)
      → last_logits en cfg (along next h (d ∷ ds)) ≡ ok (next (h ++ (d ∷ ds)))
  last_along [] h d = refl
  last_along (e ∷ ds) h d =
      last_along ds (h ++ (d ∷ [])) e ∙ ap (λ t. ok (next t)) (append_assoc h (d ∷ []) (e ∷ ds))

  -- A loop state at the end of a round.
  pub data RoundPost (n : ℕ) (s : Loop en) : Type 0 where
    done : Finished cfg m cold whole s → RoundPost n s
    more :
        s.stats.hit_eos ≡ false → n < length s.generated → Synced cfg m cold whole s → RoundPost n s

  pub bonus_run :
      (n : ℕ) (batch : List (List fl.F)) (h : List ℕ) (s : Loop en)
      → last_logits en cfg batch ≡ ok (next h)
      → n < length s.generated
      → Pending cfg m cold whole s h
      → (s' : Loop en) × (bonus_step en cfg batch s ≡ ok s') × RoundPost n s'
  unfolding bonus_step
  bonus_run n batch h s last lt p = elim (Bool-cases cfg.no_bonus) [
    | inl off ↦ (
      record s { verify_logits = next h },
      rw (last, off),
      more p.alive lt (record { logits = ap next (sym p.seen); rest = rw p.seen p.rest }),
    )
    | inr on ↦
        let (s', f, hs) = m.forward_law (best cfg m cold whole h) s.state in
        let now : history s' ≡ h ++ (best cfg m cold whole h ∷ []) =
          hs ∙ ap (λ t. t ++ (best cfg m cold whole h ∷ [])) p.seen in
        (
          record s {
            generated = s.generated ++ (best cfg m cold whole h ∷ []);
            last_tok = best cfg m cold whole h;
            state = s';
            verify_logits = next (h ++ (best cfg m cold whole h ∷ []));
            stats = record s.stats { hit_eos = best cfg m cold whole h == cfg.eos };
          },
          rw (last, on, m.next_some h, f, p.seen),
          elim (Bool-cases (best cfg m cold whole h == cfg.eos)) [
            | inl hit ↦ done (record {
              result = commit_last cfg m cold whole s.generated h p.room p.rest hit;
              reason = inl hit;
            })
            | inr go ↦
                more go (omega (arith, length-append s.generated (best cfg m cold whole h ∷ [])))
                  (record {
                    logits = ap next (sym now);
                    rest = rw now (commit_next cfg m cold whole s.generated h p.room p.rest go);
                  })
          ],
        )
  ]

  -- What the statistics leave alone.
  pub record Kept (s s' : Loop en) : Type 0 where
    pub generated : s'.generated ≡ s.generated
    pub logits : s'.verify_logits ≡ s.verify_logits
    pub state : s'.state ≡ s.state
    pub eos : s'.stats.hit_eos ≡ s.stats.hit_eos

  pub adapt-Kept :
      (drafted count : ℕ) (s : Loop en)
      → Kept s (adapt en cfg drafted count (count_round en cfg drafted count s))
  unfolding adapt
  adapt-Kept drafted count s = ground arith

  pub RoundPost-Kept : {n : ℕ} {s s' : Loop en} → Kept s s' → RoundPost n s → RoundPost n s'
  RoundPost-Kept k (done f) =
      done (record { result = k.generated ∙ f.result; reason = rw (k.eos, k.generated) f.reason })
  RoundPost-Kept k (more alive lt y) = more (k.eos ∙ alive) (rw k.generated lt) (record {
    logits = k.logits ∙ y.logits ∙ ap (λ t. next (history t)) (sym k.state);
    rest = rw (k.generated, k.state) y.rest;
  })

  pub result_of :
      {n : ℕ} {s : Loop en} → s.stats.hit_eos ≡ true → RoundPost n s → s.generated ≡ whole
  result_of hit (done f) = f.result
  result_of hit (more alive lt y) = cc

  -- The pass of a loop state: it leaves the loop where EOS was hit.
  abbrev pub pass_of : Loop en → Pass en
  pass_of s = if s.stats.hit_eos then leave s else go_on s

  pub closing_run :
      (n k : ℕ) (h : List ℕ) (batch : List (List fl.F)) (out : Accepted en)
      → Post cfg m cold whole n (suc k) h out
      → last_logits en cfg batch ≡ ok (next h)
      → (s' : Loop en) × ((if out.rejected then ok out.loop else bonus_step en cfg batch out.loop)
          ≡ ok s')
        × RoundPost n s'
  closing_run n k h batch out (ended r f) last = (out.loop, rw r, done f)
  closing_run n k h batch out (synced r alive lt y) last = (out.loop, rw r, more alive lt y)
  closing_run n k h batch out (pending r len p) last =
      let (s', b, post) = bonus_run n batch h out.loop last (omega arith) p in (s', rw r b, post)

  pub verify_step_run :
      (d : ℕ × List fl.F) (ds : List (ℕ × List fl.F)) (s : Loop en)
      → length s.generated < cfg.max_tokens
      → s.stats.hit_eos ≡ false
      → Synced cfg m cold whole s
      → (s' : Loop en) × (verify_step en cfg (d ∷ ds) s ≡ ok (pass_of s'))
        × RoundPost (length s.generated) s'
  unfolding verify_step
  verify_step_run d ds s room alive y =
      let h = history s.state in
      let (st, v, seen) = verify_run (tokens en cfg (d ∷ ds)) s.state in
      let (out, e, post) =
        accept_run cfg m cold whole (d ∷ ds) (en.position s.state) 0 h
          (record s { state = st; verify_logits = next h }) 0
          (record {
            fed = seen;
            placed = omega (arith, m.position_law s.state);
            room = room;
            alive = alive;
            rest = y.rest;
          }) in
      let (s2, b, p) =
        closing_run (length s.generated) (length ds) (h ++ tokens en cfg (d ∷ ds))
          (along next h (tokens en cfg (d ∷ ds))) out post (last_along (tokens en cfg ds) h d.0) in
      let n = length {A = ℕ × List fl.F} (d ∷ ds) in
      (
        adapt en cfg n out.count (count_round en cfg n out.count s2),
        rw (v, y.logits, e, b),
        RoundPost-Kept (adapt-Kept n out.count s2) p,
      )
