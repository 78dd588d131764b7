-- ===== src/SpecDecode/Round.antt =====
-- One round of the loop and the loop: src/runtime/spec_decode.rs.
use reinstinct.Base.{
  ℕ, zero, suc, ◌+◌, ◌-◌, ◌^◌, ◌%◌, Bool, true, false, some, none, List, [], ◌∷◌, ◌++◌, map, length,
  ltb, leb, ◌==◌, if◌then◌else◌, Outcome, ok, panic, stuck, ◌>>=◌,
}
use reinstinct.Base.Float.{Floats}
use reinstinct.Sampling.{first_max, sum_from}
use reinstinct.Sampling.Xorshift
use reinstinct.Sampling.Xorshift.{Rng}
use reinstinct.SpecDecode.{Engine, Config, SpecStats, Loop, pick, draft, decide_draft}

module _ {fl : Floats} {E : Type 0} (en : Engine fl E) where
  -- `rejected` also marks a round that ended by EOS or by the token limit.
  pub record Accepted : Type 0 where
    pub loop : Loop en
    pub count : ℕ
    pub rejected : Bool

  -- What a pass through the loop's body says: go on, or leave the loop.
  pub data Pass : Type 0 where
    go_on : Loop en → Pass
    leave : Loop en → Pass

module _ {fl : Floats} {E : Type 0} (en : Engine fl E) (cfg : Config fl) where
  open fl use {F, nought, less, of_nat, div}
  open en use {
    State, position, truncate, forward_token, verify_forward, verify_via_graph, set_h_prev,
  }

  abbrev pub hit : Bool → SpecStats → SpecStats
  hit b st = record st { hit_eos = b }

  -- Committing token `t`.
  abbrev pub push : ℕ → Loop en → Loop en
  push t s = record s { generated = s.generated ++ (t ∷ []); last_tok = t }

  -- The acceptance loop from draft `i` on; `preds` holds the predictions for these drafts.
  unfoldable pub accept_from :
      ℕ → ℕ → List (ℕ × List F) → List (List F) → Loop en → ℕ → Outcome E (Accepted en)
  accept_from pre i [] preds s count = ok (record { loop = s; count = count; rejected = false })
  accept_from pre i ((d, dl) ∷ ds) [] s count = panic
  accept_from pre i ((d, dl) ∷ ds) (p ∷ preds) s count = do
    (accept, replacement, rng') ← decide_draft en cfg p dl d s.rng
    let s1 : Loop en = push d (record s { rng = rng' })
    let go_on = accept_from pre (i + 1) ds preds s1 (count + 1)
    let commit = forward_token replacement (truncate (pre + i) s.state) >>= λ (new_verify, state').
        ok (record {
          loop = record (push replacement (record s { rng = rng' })) {
            state = state';
            verify_logits = new_verify;
            stats = hit (replacement == cfg.eos) s.stats;
          };
          count = count;
          rejected = true;
        })
    let stopped : Outcome E (Accepted en) = ok (record {
      loop = record s1 { stats = hit true s1.stats };
      count = count + 1;
      rejected = true;
    })
    let full : Outcome E (Accepted en) =
        ok (record { loop = s1; count = count + 1; rejected = true })
    if accept
        then (if d == cfg.eos
            then stopped
            else if leb cfg.max_tokens (length s1.generated)
            then full
            else go_on)
        else commit

  -- `verify_batch.last().unwrap()`
  abbrev pub last_logits : List (List F) → Outcome E (List F)
  last_logits [] = panic
  last_logits (l ∷ []) = ok l
  last_logits (l ∷ m ∷ ls) = last_logits (m ∷ ls)

  -- The end of a fully accepted round: the bonus token, always the greedy one.
  unfoldable pub bonus_step : List (List F) → Loop en → Outcome E (Loop en)
  bonus_step batch s = do
    last ← last_logits batch
    let bonus = first_max fl last
    let committed = forward_token bonus s.state >>= λ (logits, state'). ok (record (push bonus s) {
      state = state';
      verify_logits = logits;
      stats = hit (bonus == cfg.eos) s.stats;
    })
    let greedy = if length last == 0 then panic else committed
    if cfg.no_bonus then ok (record s { verify_logits = last }) else greedy

  -- `accept_window.remove(0)`
  abbrev remove_first : List F → List F
  remove_first [] = []
  remove_first (x ∷ xs) = xs

  -- The adaptive-K bookkeeping of a round with `drafted` drafts, `count` of them accepted.
  unfoldable pub adapt : ℕ → ℕ → Loop en → Loop en
  adapt drafted count s =
      let window = s.accept_window ++ (div (of_nat count) (of_nat drafted) ∷ []) in
      let mean = div (sum_from fl nought window) (of_nat (length window)) in
      let off = less mean cfg.adaptive_min_alpha in
      let recorded : Loop en = record s { accept_window = window } in
      let checked : Loop en = record s {
        accept_window = remove_first window;
        mtp_off = if off then true else s.mtp_off;
        stats = if off then record s.stats { adaptive_disabled = true } else s.stats;
      } in
      if less nought cfg.adaptive_min_alpha
      then (if leb cfg.adaptive_window (length window) then checked else recorded)
      else s

  abbrev pub count_round : ℕ → ℕ → Loop en → Loop en
  count_round drafted count s = record s {
    stats = record s.stats {
      n_drafted = s.stats.n_drafted + drafted;
      n_accepted = s.stats.n_accepted + count;
    };
  }

  -- The verify batch: through the captured graph where the number of drafts is the captured one.
  unfoldable pub verify : List ℕ → State → Outcome E (List (List F) × State)
  verify drafted state = elim cfg.captured_k [
    | none ↦ verify_forward drafted state
    | some k ↦
        if length drafted == k then verify_via_graph drafted state else verify_forward drafted state
  ]

  -- The drafter-free decode after `mtp_off`.
  unfoldable pub plain_step : Loop en → Outcome E (Pass en)
  plain_step s = do
    (t, rng') ← pick en cfg s.verify_logits s.rng
    let s1 : Loop en = push t (record s { rng = rng' })
    let forward = forward_token t s.state >>= λ (logits, state').
        ok (go_on (record s1 { verify_logits = logits; state = state' }))
    if t == cfg.eos
        then ok (leave (record s1 { stats = hit true s1.stats }))
        else if leb cfg.max_tokens (length s1.generated)
        then ok (leave s1)
        else forward

  -- A round with no draft, which is reached where `k` is 0.
  unfoldable pub empty_step : Loop en → Outcome E (Pass en)
  empty_step s = do
    (next, state') ← forward_token s.last_tok s.state
    (t, rng') ← pick en cfg next s.rng
    (logits, state'') ← forward_token t state'
    let s1 : Loop en = record (push t (record s { rng = rng' })) {
      verify_logits = logits;
      state = state'';
      stats = hit (t == cfg.eos) s.stats;
    }
    ok (if t == cfg.eos then leave s1 else go_on s1)

  abbrev pub tokens : List (ℕ × List F) → List ℕ
  tokens = map (λ (d, dl). d)

  -- Verify, accept, bonus and statistics for the drafts `ds`.
  unfoldable pub verify_step : List (ℕ × List F) → Loop en → Outcome E (Pass en)
  verify_step ds s = do
    let pre = position s.state
    (batch, state') ← verify (tokens ds) s.state
    out ← accept_from pre 0 ds (s.verify_logits ∷ batch) (record s { state = state' }) 0
    let bonus = bonus_step batch out.loop
    s2 ← (if out.rejected then ok out.loop else bonus)
    let s3 = adapt (length ds) out.count (count_round (length ds) out.count s2)
    ok (if s3.stats.hit_eos then leave s3 else go_on s3)

  -- `state.pos - 1` on a 64-bit usize.
  unfoldable pub spec_step : Loop en → Outcome E (Pass en)
  spec_step s = do
    let pos_const = (position s.state + 2 ^ 64 - 1) % 2 ^ 64
    dr ← set_h_prev s.state s.drafter
    (ds, dr', rng') ← draft en cfg cfg.k s.state pos_const s.last_tok dr s.rng
    let s1 : Loop en = record s { drafter = dr'; rng = rng' }
    elim ds [ [] ↦ empty_step s1 | d ∷ more ↦ verify_step (d ∷ more) s1 ]

  unfoldable pub step : Loop en → Outcome E (Pass en)
  step s = if s.mtp_off then plain_step s else spec_step s

  -- `while generated.len() < max_tokens`. Each pass commits a token, so `max_tokens` passes are enough.
  unfoldable pub run : ℕ → Loop en → Outcome E (Loop en)
  run zero s = if ltb (length s.generated) cfg.max_tokens then stuck else ok s
  run (suc f) s =
      let more = step s >>= λ pass. elim pass [ go_on s' ↦ run f s' | leave s' ↦ ok s' ] in
      if ltb (length s.generated) cfg.max_tokens then more else ok s

  -- The variables as the loop is entered.
  unfoldable pub start : List F → ℕ → ℕ → State → en.Drafter → Loop en
  start verify_logits last_tok seed state drafter = record {
    generated = [];
    stats = record { n_drafted = 0; n_accepted = 0; hit_eos = false; adaptive_disabled = false };
    rng = Xorshift.new seed;
    verify_logits = verify_logits;
    last_tok = last_tok;
    state = state;
    drafter = drafter;
    accept_window = [];
    mtp_off = false;
  }

  unfoldable pub spec_decode_generate :
      List F → ℕ → ℕ → State → en.Drafter → Outcome E (List ℕ × SpecStats)
  spec_decode_generate verify_logits last_tok seed state drafter = do
    s ← run cfg.max_tokens (start verify_logits last_tok seed state drafter)
    ok (s.generated, s.stats)
