-- ===== src/Pipeline/Drive.antt =====
-- The walk of a forward over the stages: src/runtime/pipeline.rs. The engines of the stages and the
-- GPU driver are an interface; each of their calls may fail with an `E`.
use reinstinct.Base.{
  ℕ, ◌+◌, Bool, true, false, Option, some, none, List, [], ◌∷◌, length, ◌==◌, if◌then◌else◌,
  Outcome, ok, err, panic, ◌>>=◌, ◌>>◌,
}
use reinstinct.Pipeline.{prefill_chunks, slices}

pub record Driver (E : Type 0) : Type 1 where
  pub Gpu : Type 0
  pub State : Type 0
  pub StageOutput : Type 0
  pub GraphExec : Type 0
  pub Logits : Type 0
  pub set_dev : ℕ → Outcome E (Unit {0})
  pub prefill_stage :
      Gpu
      → List ℕ
      → State
      → Option StageOutput
      → Bool
      → Outcome E (StageOutput × Option Logits × State)
  pub decode_stage :
      Gpu → ℕ → State → Option GraphExec → Option StageOutput → Outcome E (StageOutput × State)
  pub capture_forward_graph : Gpu → State → Outcome E (GraphExec × State)
  pub read_logits : Gpu → Outcome E Logits
  pub reset : State → Outcome E State
  pub no_logits : E

module _ {E : Type 0} (dr : Driver E) where
  open dr use {Gpu, State, StageOutput, GraphExec, Logits, set_dev}

  -- A stage and a stage's state, each with its device.
  abbrev pub Stages : Type 0
  Stages = List (ℕ × Gpu)

  pub record PipelineState : Type 0 where
    pub stages : List (ℕ × State)
    pub pos : ℕ

  -- `assert_eq!` of the stage counts.
  abbrev pub check_state : Stages → PipelineState → Outcome E (Unit {0})
  check_state stages state = if length state.stages == length stages then ok tt else panic

  -- A chunk through the stages, each fed by the one before it.
  unfoldable pub prefill_walk :
      Stages
      → List (ℕ × State)
      → List ℕ
      → Bool
      → Option StageOutput
      → Option Logits
      → Outcome E (List (ℕ × State) × Option Logits)
  prefill_walk [] sts chunk last prev logits = ok (sts, logits)
  prefill_walk (g ∷ gs) [] chunk last prev logits = ok ([], logits)
  prefill_walk ((d, gpu) ∷ gs) ((dev, st) ∷ sts) chunk last prev logits = do
    set_dev dev
    (out, lg, st') ← dr.prefill_stage gpu chunk st prev last
    (sts', logits') ← prefill_walk gs sts chunk last (some out) lg
    ok ((dev, st') ∷ sts', logits')

  abbrev is_empty : List (List ℕ) → Bool
  is_empty [] = true
  is_empty (c ∷ cs) = false

  -- All chunks; the last one asks for logits.
  unfoldable pub prefill_all :
      Stages
      → List (List ℕ)
      → List (ℕ × State)
      → Option Logits
      → Outcome E (List (ℕ × State) × Option Logits)
  prefill_all stages [] sts logits = ok (sts, logits)
  prefill_all stages (c ∷ cs) sts logits =
      prefill_walk stages sts c (is_empty cs) none logits >>= λ (sts', logits').
      prefill_all stages cs sts' logits'

  abbrev ok_or_none : Option Logits → Outcome E Logits
  ok_or_none none = err dr.no_logits
  ok_or_none (some l) = ok l

  unfoldable pub forward_tokens_batched :
      Stages → Option ℕ → List ℕ → PipelineState → Outcome E (Logits × PipelineState)
  forward_tokens_batched stages setting tokens state = do
    check_state stages state
    (if length tokens == 0 then panic else ok tt)
    sizes ← prefill_chunks (length stages) setting (length tokens)
    chunks ← slices tokens 0 sizes
    (sts, logits) ← prefill_all stages chunks state.stages none
    l ← ok_or_none logits
    ok (l, record { stages = sts; pos = state.pos + length tokens })

  -- The graph of the stage, where there is a graph: `&g.execs[i]`.
  abbrev next_exec :
      Option (List GraphExec) → Outcome E (Option GraphExec × Option (List GraphExec))
  next_exec none = ok (none, none)
  next_exec (some []) = panic
  next_exec (some (g ∷ gs)) = ok (some g, some gs)

  unfoldable pub decode_walk :
      Stages
      → List (ℕ × State)
      → ℕ
      → Option (List GraphExec)
      → Option StageOutput
      → Outcome E (List (ℕ × State))
  decode_walk [] sts token graph prev = ok sts
  decode_walk (g ∷ gs) [] token graph prev = ok []
  decode_walk ((d, gpu) ∷ gs) ((dev, st) ∷ sts) token graph prev = do
    set_dev dev
    (exec, execs) ← next_exec graph
    (out, st') ← dr.decode_stage gpu token st exec prev
    sts' ← decode_walk gs sts token execs (some out)
    ok ((dev, st') ∷ sts')

  abbrev check_graph : Stages → Option (List GraphExec) → Outcome E (Unit {0})
  check_graph stages none = ok tt
  check_graph stages (some execs) = if length execs == length stages then ok tt else panic

  unfoldable pub decode_launch :
      Stages → ℕ → PipelineState → Option (List GraphExec) → Outcome E PipelineState
  decode_launch stages token state graph = do
    check_state stages state
    check_graph stages graph
    sts ← decode_walk stages state.stages token graph none
    ok (record { stages = sts; pos = state.pos + 1 })

  -- `last().expect(..)`
  abbrev last_stage : Stages → Outcome E (ℕ × Gpu)
  last_stage [] = panic
  last_stage (g ∷ []) = ok g
  last_stage (g ∷ h ∷ gs) = last_stage (h ∷ gs)

  unfoldable pub decode_finish : Stages → Outcome E Logits
  decode_finish stages = do (dev, gpu) ← last_stage stages; set_dev dev; dr.read_logits gpu

  unfoldable pub decode :
      Stages → ℕ → PipelineState → Option (List GraphExec) → Outcome E (Logits × PipelineState)
  decode stages token state graph = do
    state' ← decode_launch stages token state graph
    logits ← decode_finish stages
    ok (logits, state')

  unfoldable pub forward_token : Stages → ℕ → PipelineState → Outcome E (Logits × PipelineState)
  forward_token stages token state = decode stages token state none

  -- The assertion that the graph fits is made before the decode.
  unfoldable pub forward_token_via_graph :
      Stages → List GraphExec → ℕ → PipelineState → Outcome E (Logits × PipelineState)
  forward_token_via_graph stages execs token state =
      check_graph stages (some execs) >>= λ u. decode stages token state (some execs)

  -- The tokens one by one; the first one is given apart, since an empty list panics.
  unfoldable pub forward_rest :
      Stages → ℕ → List ℕ → PipelineState → Outcome E (Logits × PipelineState)
  forward_rest stages t [] state = forward_token stages t state
  forward_rest stages t (u ∷ us) state =
      forward_token stages t state >>= λ (l, state'). forward_rest stages u us state'

  unfoldable pub forward_tokens :
      Stages → List ℕ → PipelineState → Outcome E (Logits × PipelineState)
  forward_tokens stages [] state = panic
  forward_tokens stages (t ∷ ts) state = forward_rest stages t ts state

  unfoldable pub reset_all : List (ℕ × State) → Outcome E (List (ℕ × State))
  reset_all [] = ok []
  reset_all ((dev, st) ∷ sts) = do
    set_dev dev
    st' ← dr.reset st
    sts' ← reset_all sts
    ok ((dev, st') ∷ sts')

  unfoldable pub reset : PipelineState → Outcome E PipelineState
  reset state = reset_all state.stages >>= λ sts. ok (record { stages = sts; pos = 0 })

  -- The graphs of the stages, in order.
  unfoldable pub capture_walk :
      Stages → List (ℕ × State) → Outcome E (List GraphExec × List (ℕ × State))
  capture_walk [] sts = ok ([], sts)
  capture_walk (g ∷ gs) [] = ok ([], [])
  capture_walk ((d, gpu) ∷ gs) ((dev, st) ∷ sts) = do
    set_dev dev
    (exec, st') ← dr.capture_forward_graph gpu st
    (execs, sts') ← capture_walk gs sts
    ok (exec ∷ execs, (dev, st') ∷ sts')

  unfoldable pub capture_forward_graph :
      Stages → PipelineState → Outcome E (List GraphExec × PipelineState)
  capture_forward_graph stages state = do
    check_state stages state
    (execs, sts) ← capture_walk stages state.stages
    ok (execs, record state { stages = sts })
