-- ===== src/SpecDecode/Lossless/Commit.antt =====
-- Committing greedy tokens, and what holds between the steps of a round: src/runtime/spec_decode.rs.
use reinstinct.Base.{
  ℕ, suc, ◌+◌, ◌-◌, ◌≤◌, ◌<◌, ◌≡◌, refl, sym, ◌∙◌, arith, true, false, ◌⊎◌, List, [], ◌∷◌, ◌++◌,
  append-nil, append_assoc, length, length-append, ◌==◌, if◌then◌else◌, ok,
}
use reinstinct.Base.Float.{Floats}
use reinstinct.Sampling.{first_max}
use reinstinct.Sampling.Xorshift.{Rng}
use reinstinct.SpecDecode.{Engine, Config, Loop, sampling, pick, decide_draft}
use reinstinct.SpecDecode.Greedy.{IsModel, along, greedy}
use reinstinct.SpecDecode.Round.{Accepted, accept_from, tokens}

module _ {fl : Floats} {E : Type 0} {en : Engine fl E} (cfg : Config fl) (m : IsModel en)
    (cold : sampling en cfg ≡ false) (whole : List ℕ) where
  open m use {history, next}

  abbrev pub best : List ℕ → ℕ
  best h = first_max fl (next h)

  -- What is still to come after `gen`, with the history `h`.
  abbrev pub todo : List ℕ → List ℕ → List ℕ
  todo gen h = greedy best cfg.eos (cfg.max_tokens - length gen) h

  pub commit_best :
      (gen h : List ℕ)
      → length gen < cfg.max_tokens
      → whole ≡ gen ++ todo gen h
      → whole
        ≡ (gen ++ (best h ∷ []))
          ++ (if best h == cfg.eos then [] else todo (gen ++ (best h ∷ [])) (h ++ (best h ∷ [])))
  unfolding greedy
  commit_best gen h lt e =
      let left : cfg.max_tokens - length gen
          ≡ suc (cfg.max_tokens - length (gen ++ (best h ∷ []))) =
        omega (arith, length-append gen (best h ∷ [])) in
      e ∙ rw (left, append_assoc gen (best h ∷ [])) refl

  pub commit_last :
      (gen h : List ℕ)
      → length gen < cfg.max_tokens
      → whole ≡ gen ++ todo gen h
      → (best h == cfg.eos) ≡ true
      → gen ++ (best h ∷ []) ≡ whole
  commit_last gen h lt e hit = sym (rw (hit, append-nil) at (commit_best gen h lt e))

  pub commit_next :
      (gen h : List ℕ)
      → length gen < cfg.max_tokens
      → whole ≡ gen ++ todo gen h
      → (best h == cfg.eos) ≡ false
      → whole ≡ (gen ++ (best h ∷ [])) ++ todo (gen ++ (best h ∷ [])) (h ++ (best h ∷ []))
  commit_next gen h lt e on = rw on at (commit_best gen h lt e)

  -- Nothing is to come at the token limit.
  pub todo_none : (gen h : List ℕ) → cfg.max_tokens ≤ length gen → todo gen h ≡ []
  unfolding greedy
  todo_none gen h full =
      let none_left : cfg.max_tokens - length gen ≡ 0 = omega arith in rw none_left

  pub commit_full :
      (gen : List ℕ) (d : ℕ) (h : List ℕ)
      → length gen < cfg.max_tokens
      → whole ≡ gen ++ todo gen h
      → d ≡ best h
      → (best h == cfg.eos) ≡ false
      → cfg.max_tokens ≤ length (gen ++ (d ∷ []))
      → gen ++ (d ∷ []) ≡ whole
  commit_full gen d h lt e same on full = rw same (
      sym (
        commit_next gen h lt e on
        ∙ rw (todo_none (gen ++ (best h ∷ [])) (h ++ (best h ∷ [])) (rw same at full), append-nil)))

  -- The predictions and the history are in step.
  pub record Synced (s : Loop en) : Type 0 where
    pub logits : s.verify_logits ≡ next (history s.state)
    pub rest : whole ≡ s.generated ++ todo s.generated (history s.state)

  pub decide_greedy :
      (h : List ℕ) (dl : List fl.F) (d : ℕ) (rng : Rng)
      → decide_draft en cfg (next h) dl d rng
        ≡ ok (if d == best h then (true, d, rng) else (false, best h, rng))
  unfolding decide_draft
  decide_greedy h dl d rng = rw (cold, m.next_some h)

  pub pick_greedy : (h : List ℕ) (rng : Rng) → pick en cfg (next h) rng ≡ ok (best h, rng)
  unfolding pick
  pick_greedy h rng = rw (cold, m.next_some h)

  -- A loop state that is finished: the whole result is there.
  pub record Finished (s : Loop en) : Type 0 where
    pub result : s.generated ≡ whole
    pub reason : (s.stats.hit_eos ≡ true) ⊎ (cfg.max_tokens ≤ length s.generated)

  -- A round that was accepted to its end: the state has seen all drafts, the predictions have not.
  pub record Pending (s : Loop en) (h : List ℕ) : Type 0 where
    pub seen : history s.state ≡ h
    pub room : length s.generated < cfg.max_tokens
    pub alive : s.stats.hit_eos ≡ false
    pub rest : whole ≡ s.generated ++ todo s.generated h

  pub data Post (n k : ℕ) (h : List ℕ) (out : Accepted en) : Type 0 where
    ended : out.rejected ≡ true → Finished out.loop → Post n k h out
    synced :
        out.rejected ≡ true
        → out.loop.stats.hit_eos ≡ false
        → n < length out.loop.generated
        → Synced out.loop
        → Post n k h out
    pending :
        out.rejected ≡ false
        → length out.loop.generated ≡ n + k
        → Pending out.loop h
        → Post n k h out

  pub Post-before :
      {n n' k : ℕ} {h h' : List ℕ} {out : Accepted en}
      → h' ≡ h
      → n' ≡ n + 1
      → Post n' k h' out
      → Post n (suc k) h out
  Post-before eh e (ended r f) = ended r f
  Post-before eh e (synced r a lt y) = synced r a (omega arith) y
  Post-before eh e (pending r len q) =
      pending r (omega arith)
        (record { seen = q.seen ∙ eh; room = q.room; alive = q.alive; rest = rw (← eh) q.rest })

  -- What the acceptance loop is entered with, at the history `h` of the accepted tokens.
  pub record Entry (pre i : ℕ) (ds : List (ℕ × List fl.F)) (h : List ℕ) (s : Loop en) : Type 0 where
    pub fed : history s.state ≡ h ++ tokens en cfg ds
    pub placed : pre + i ≡ length h
    pub room : length s.generated < cfg.max_tokens
    pub alive : s.stats.hit_eos ≡ false
    pub rest : whole ≡ s.generated ++ todo s.generated h

  abbrev pub end_of : List (ℕ × List fl.F) → List ℕ → List ℕ
  end_of ds h = h ++ tokens en cfg ds

  abbrev pub Runs : ℕ → ℕ → List (ℕ × List fl.F) → List ℕ → Loop en → ℕ → Type 0
  Runs pre i ds h s count =
      (out : Accepted en) × (accept_from en cfg pre i ds (next h ∷ along next h (tokens en cfg ds))
          s count
        ≡ ok out)
      × Post (length s.generated) (length ds) (end_of ds h) out
