-- ===== src/SpecDecode/Lossless/Accept.antt =====
-- The acceptance loop under greedy decoding: src/runtime/spec_decode.rs.
use reinstinct.Base.{
  ℕ, ◌+◌, ◌≡◌, refl, sym, ap, ◌∙◌, arith, true, false, Bool-cases, inl, inr, List, [], ◌∷◌, ◌++◌,
  append-nil, append_assoc, length, length-append, take-append, leb, ◌==◌, ==_iff, leb→le,
}
use reinstinct.Base.Float.{Floats}
use reinstinct.SpecDecode.{Engine, Config, Loop, sampling}
use reinstinct.SpecDecode.Greedy.{IsModel}
use reinstinct.SpecDecode.Round.{accept_from, tokens, push}
use reinstinct.SpecDecode.Lossless.Commit.{
  best, commit_last, commit_next, commit_full, decide_greedy, Post-before, Entry, Runs, ended,
  synced, pending,
}

module _ {fl : Floats} {E : Type 0} {en : Engine fl E} (cfg : Config fl) (m : IsModel en)
    (cold : sampling en cfg ≡ false) (whole : List ℕ) where
  open m use {history, next}

  -- The draft is not the greedy token: the greedy one is committed and the state cut back to it.
  pub reject_run :
      (pre i d : ℕ) (dl : List fl.F) (ds : List (ℕ × List fl.F)) (h : List ℕ) (s : Loop en)
      (count : ℕ)
      → (d == best cfg m cold whole h) ≡ false
      → Entry cfg m cold whole pre i ((d, dl) ∷ ds) h s
      → Runs cfg m cold whole pre i ((d, dl) ∷ ds) h s count
  unfolding accept_from
  reject_run pre i d dl ds h s count e n =
      let (s', f, hs) = m.forward_law (best cfg m cold whole h) (en.truncate (pre + i) s.state) in
      let cut : history (en.truncate (pre + i) s.state) ≡ h =
        m.truncate_law (pre + i) s.state
          (omega (arith, n.placed, ap length n.fed, length-append h (d ∷ tokens en cfg ds)))
        ∙ rw (n.fed, n.placed, take-append h (d ∷ tokens en cfg ds)) in
      let now : history s' ≡ h ++ (best cfg m cold whole h ∷ []) =
        hs ∙ ap (λ t. t ++ (best cfg m cold whole h ∷ [])) cut in
      (
        record {
          loop = record s {
            generated = s.generated ++ (best cfg m cold whole h ∷ []);
            last_tok = best cfg m cold whole h;
            state = s';
            verify_logits = next (h ++ (best cfg m cold whole h ∷ []));
            stats = record s.stats { hit_eos = best cfg m cold whole h == cfg.eos };
          };
          count = count;
          rejected = true;
        },
        rw (decide_greedy cfg m cold whole h dl d s.rng, e, f, cut),
        elim (Bool-cases (best cfg m cold whole h == cfg.eos)) [
          | inl hit ↦ ended refl (record {
            result = commit_last cfg m cold whole s.generated h n.room n.rest hit;
            reason = inl hit;
          })
          | inr on ↦
              synced refl on
                (omega (arith, length-append s.generated (best cfg m cold whole h ∷ [])))
                (record {
                  logits = ap next (sym now);
                  rest = rw now (commit_next cfg m cold whole s.generated h n.room n.rest on);
                })
        ],
      )

  -- The acceptance loop returns, and commits tokens of the greedy result only.
  pub accept_run :
      (ds : List (ℕ × List fl.F)) (pre i : ℕ) (h : List ℕ) (s : Loop en) (count : ℕ)
      → Entry cfg m cold whole pre i ds h s
      → Runs cfg m cold whole pre i ds h s count
  unfolding accept_from
  accept_run [] pre i h s count n = (
    record { loop = s; count = count; rejected = false },
    refl,
    pending refl (omega arith)
        (record { seen = n.fed; room = n.room; alive = n.alive; rest = rw append-nil n.rest }),
  )
  accept_run ((d, dl) ∷ ds) pre i h s count n = elim (Bool-cases (d == best cfg m cold whole h)) [
    | inr no_match ↦ reject_run pre i d dl ds h s count no_match n
    | inl match ↦
        let same : d ≡ best cfg m cold whole h = (==_iff d (best cfg m cold whole h)).0 match in
        let s1 : Loop en = push en cfg d s in
        elim (Bool-cases (d == cfg.eos)) [
          | inl hit ↦ (
            record {
              loop = record s1 { stats = record s.stats { hit_eos = true } };
              count = count + 1;
              rejected = true;
            },
            rw (decide_greedy cfg m cold whole h dl d s.rng, match, hit),
            ended refl (record {
              result =
                  rw same
                    (commit_last cfg m cold whole s.generated h n.room n.rest (rw same at hit));
              reason = inl refl;
            }),
          )
          | inr on ↦ elim (Bool-cases (leb cfg.max_tokens (length (s.generated ++ (d ∷ []))))) [
            | inl full ↦ (
              record { loop = s1; count = count + 1; rejected = true },
              rw (decide_greedy cfg m cold whole h dl d s.rng, match, on, full),
              ended refl (record {
                result =
                    commit_full cfg m cold whole s.generated d h n.room n.rest same (rw same at on)
                      (leb→le _ _ full);
                reason = inr (leb→le _ _ full);
              }),
            )
            | inr room ↦
                let (out, e, p) = accept_run ds pre (i + 1) (h ++ (d ∷ [])) s1 (count + 1) (record {
                  fed = n.fed ∙ sym (append_assoc h (d ∷ []) (tokens en cfg ds));
                  placed = omega (arith, n.placed, length-append h (d ∷ []));
                  room = ground arith;
                  alive = n.alive;
                  rest =
                      rw same
                        (commit_next cfg m cold whole s.generated h n.room n.rest (rw same at on));
                }) in
                (
                  out,
                  rw (decide_greedy cfg m cold whole h dl d s.rng, match, on, room) e,
                  Post-before cfg m cold whole (append_assoc h (d ∷ []) (tokens en cfg ds))
                      (omega (arith, length-append s.generated (d ∷ []))) p,
                )
          ]
        ]
  ]
