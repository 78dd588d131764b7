-- ===== src/SpecDecode/Lossless.antt =====
-- Greedy speculative decoding against plain greedy decoding: src/runtime/spec_decode.rs.
pub mod Commit
pub mod Accept
pub mod Verify
use reinstinct.Base.{
  ℕ, zero, suc, ◌+◌, ◌-◌, ◌≤◌, ◌<◌, ◌^◌, ◌%◌, ◌≡◌, refl, sym, ap, ◌∙◌, arith, Bool, true, false,
  Bool-cases, inl, inr, ◌⊎◌, subst, some, none, List, [], ◌∷◌, ◌++◌, append-nil, append_assoc,
  length, length-append, take-append, min, ltb, ltb→lt, leb, ◌==◌, ==_iff, leb→le, if◌then◌else◌,
  Outcome, ok,
}
use reinstinct.Base.Float.{Floats}
use reinstinct.Sampling.{first_max}
use reinstinct.Sampling.Xorshift.{Rng}
use reinstinct.SpecDecode.{
  Engine, Config, SpecStats, Loop, sampling, pick, draft, decide_draft, stops_early,
}
use reinstinct.SpecDecode.Greedy.{IsModel, along, greedy}
use reinstinct.SpecDecode.Round.{
  Accepted, Pass, go_on, leave, accept_from, bonus_step, adapt, verify, tokens, count_round,
  last_logits, push, plain_step, verify_step, spec_step, step, run, start, spec_decode_generate,
}
use reinstinct.SpecDecode.Lossless.Commit.{
  best, todo, commit_best, commit_last, commit_next, todo_none, commit_full, Synced, decide_greedy,
  pick_greedy, Finished, Pending, Post, Post-before, Entry, end_of, Runs, ended, synced, pending,
}
use reinstinct.SpecDecode.Lossless.Accept.{reject_run, accept_run}
use reinstinct.SpecDecode.Lossless.Verify.{
  pick_some, draft_run, verify_run, last_along, RoundPost, bonus_run, Kept, adapt-Kept,
  RoundPost-Kept, result_of, pass_of, closing_run, verify_step_run, done, more,
}

module _ {fl : Floats} {E : Type 0} {en : Engine fl E} (cfg : Config fl) (m : IsModel en)
    (cold : sampling en cfg ≡ false) (whole : List ℕ) where
  open m use {history, next}

  -- A pass leaves the loop with the whole result, or goes on with a state that is in step.
  abbrev StepPost : Loop en → Outcome E (Pass en) → Type 0
  StepPost s o =
      ((s' : Loop en) × (o ≡ ok (leave s')) × (s'.generated ≡ whole))
      ⊎ ((s' : Loop en) × (o ≡ ok (go_on s'))
          × (s'.stats.hit_eos ≡ false)
          × RoundPost cfg m cold whole (length s.generated) s')

  plain_step_run :
      (s : Loop en)
      → length s.generated < cfg.max_tokens
      → s.stats.hit_eos ≡ false
      → Synced cfg m cold whole s
      → StepPost s (plain_step en cfg s)
  unfolding plain_step
  plain_step_run s room alive y =
      let h = history s.state in
      let t = best cfg m cold whole h in
      let picked = pick_greedy cfg m cold whole h s.rng in
      let (s', f, hs) = m.forward_law t s.state in
      elim (Bool-cases (t == cfg.eos)) [
        | inl hit ↦ inl (
          record s {
            generated = s.generated ++ (t ∷ []);
            last_tok = t;
            stats = record s.stats { hit_eos = true };
          },
          rw (y.logits, picked, hit),
          commit_last cfg m cold whole s.generated h room y.rest hit,
        )
        | inr on ↦ elim (Bool-cases (leb cfg.max_tokens (length (s.generated ++ (t ∷ []))))) [
          | inl full ↦ inl (
            push en cfg t s,
            rw (y.logits, picked, on, full),
            commit_full cfg m cold whole s.generated t h room y.rest refl on (leb→le _ _ full),
          )
          | inr go ↦ inr (
            record (push en cfg t s) { verify_logits = next (h ++ (t ∷ [])); state = s' },
            rw (y.logits, picked, on, go, f),
            alive,
            more alive (omega (arith, length-append s.generated (t ∷ []))) (record {
              logits = ap next (sym hs);
              rest = rw hs (commit_next cfg m cold whole s.generated h room y.rest on);
            }),
          )
        ]
      ]

  spec_step_run :
      (s : Loop en)
      → 0 < cfg.k
      → length s.generated < cfg.max_tokens
      → s.stats.hit_eos ≡ false
      → Synced cfg m cold whole s
      → (s' : Loop en) × (spec_step en cfg s ≡ ok (pass_of cfg m cold whole s'))
        × RoundPost cfg m cold whole (length s.generated) s'
  unfolding spec_step
  spec_step_run s some_draft room alive y =
      let pos = (en.position s.state + 2 ^ 64 - 1) % 2 ^ 64 in
      let (dr, e) = m.set_h_law s.state s.drafter in
      let (ds, dr', e', len) = draft_run cfg m cold whole cfg.k s.state pos s.last_tok dr s.rng in
      elim ds
          as (λ ds.
            draft en cfg cfg.k s.state pos s.last_tok dr s.rng ≡ ok (ds, dr', s.rng)
            → min cfg.k 1 ≤ length ds
            → (s' : Loop en) × (spec_step en cfg s ≡ ok (pass_of cfg m cold whole s'))
              × RoundPost cfg m cold whole (length s.generated) s') [
                | [] ↦ λ e' len. absurd (omega arith)
                | d ∷ ds ↦ λ e' len.
                    let (s', v, post) =
                      verify_step_run cfg m cold whole d ds (record s { drafter = dr' }) room alive
                        (record { logits = y.logits; rest = y.rest }) in
                    (s', rw (e, e') v, post)
              ]
        e' len

  -- A pass through the body with room left: the loop is left with the whole result, or goes on.
  step_run :
      (s : Loop en)
      → 0 < cfg.k
      → length s.generated < cfg.max_tokens
      → s.stats.hit_eos ≡ false
      → Synced cfg m cold whole s
      → StepPost s (step en cfg s)
  unfolding step
  step_run s some_draft room alive y =
      let body : Bool → Outcome E (Pass en) =
        λ b. if b then plain_step en cfg s else spec_step en cfg s in
      elim (Bool-cases s.mtp_off) [
        | inl off ↦ subst (λ o. StepPost s o) (sym (ap body off)) (plain_step_run s room alive y)
        | inr on ↦
            let (s', e, post) = spec_step_run s some_draft room alive y in
            let leads = ap body on ∙ e in
            elim (Bool-cases s'.stats.hit_eos) [
              | inl hit ↦ inl (
                s',
                leads ∙ ap (λ b. ok (if b then leave s' else go_on s')) hit,
                result_of cfg m cold whole hit post,
              )
              | inr go ↦
                  inr (s', leads ∙ ap (λ b. ok (if b then leave s' else go_on s')) go, go, post)
            ]
      ]

  over :
      (s : Loop en)
      → cfg.max_tokens ≤ length s.generated
      → Synced cfg m cold whole s
      → s.generated ≡ whole
  over s full y =
      sym (y.rest ∙ rw (todo_none cfg m cold whole s.generated (history s.state) full, append-nil))

  run_over : (f : ℕ) (s : Loop en) → cfg.max_tokens ≤ length s.generated → run en cfg f s ≡ ok s
  unfolding run
  run_over zero s full = ground arith
  run_over (suc f) s full = ground arith

  full_of :
      {s : Loop en}
      → s.stats.hit_eos ≡ false
      → Finished cfg m cold whole s
      → cfg.max_tokens ≤ length s.generated
  full_of {s} go fin = elim fin.reason [ inl hit ↦ cc | inr full ↦ full ]

  -- The loop ends with the whole result where the fuel covers the tokens that are left.
  run-whole :
      (f : ℕ) (s : Loop en)
      → 0 < cfg.k
      → cfg.max_tokens ≤ length s.generated + f
      → s.stats.hit_eos ≡ false
      → Synced cfg m cold whole s
      → (s' : Loop en) × (run en cfg f s ≡ ok s') × (s'.generated ≡ whole)
  unfolding run
  run-whole zero s some_draft enough alive y =
      (s, run_over zero s (omega arith), over s (omega arith) y)
  run-whole (suc f) s some_draft enough alive y =
      elim (Bool-cases (ltb (length s.generated) cfg.max_tokens)) [
        | inr no_room ↦ (s, rw no_room, over s (ground arith) y)
        | inl room ↦ elim (step_run s some_draft (ltb→lt _ _ room) alive y) [
          | inl (s', e, all) ↦ (s', rw (room, e), all)
          | inr (s', e, go, done fin) ↦
              (s', rw (room, e) (run_over f s' (full_of go fin)), fin.result)
          | inr (s', e, go, more _ lt y') ↦
              let (s'', r, all) = run-whole f s' some_draft (omega arith) go y' in
              (s'', rw (room, e) r, all)
        ]
      ]

module _ {fl : Floats} {E : Type 0} {en : Engine fl E} (cfg : Config fl) (m : IsModel en) where
  -- Where the device computes one function of the tokens fed, decoding is greedy, a round drafts
  -- at least one token and the loop is entered with the predictions of the history, speculative decoding
  -- returns, and its tokens are those of plain greedy decoding with the target alone.
  pub spec_decode_generate-greedy :
      sampling en cfg ≡ false
      → 0 < cfg.k
      → (last_tok seed : ℕ) (state : en.State) (drafter : en.Drafter)
      → (stats : SpecStats) × (spec_decode_generate en cfg
            (m.next (m.history state))
            last_tok
            seed
            state
            drafter
          ≡ ok (
            greedy (λ h. first_max fl (m.next h)) cfg.eos cfg.max_tokens (m.history state),
            stats,
          ))
  unfolding spec_decode_generate start
  spec_decode_generate-greedy cold some_draft last_tok seed state drafter =
      let s : Loop en = start en cfg (m.next (m.history state)) last_tok seed state drafter in
      let whole = greedy (λ h. first_max fl (m.next h)) cfg.eos cfg.max_tokens (m.history state) in
      let (s', r, all) =
        run-whole cfg m cold whole cfg.max_tokens s some_draft (omega arith) refl (record {
          logits = refl;
          rest =
              ap (λ n. greedy (λ h. first_max fl (m.next h)) cfg.eos n (m.history state))
                (omega arith);
        }) in
      (s'.stats, rw (r, all))
