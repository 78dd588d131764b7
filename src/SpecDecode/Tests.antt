-- ===== src/SpecDecode/Tests.antt =====
-- Runs of src/runtime/spec_decode.rs with a small engine, and its theorems at concrete inputs.
use reinstinct.Base.{
  ℕ, ◌+◌, ◌%◌, ◌≡◌, refl, arith, false, none, List, [], ◌∷◌, ◌++◌, length, take, ok,
}
use reinstinct.Base.SmallFloats.{small_floats}
use reinstinct.Sampling.{first_max}
use reinstinct.SpecDecode.{Engine, Config, SpecStats}
use reinstinct.SpecDecode.Greedy.{IsModel, along, greedy}
use reinstinct.SpecDecode.Round.{spec_decode_generate}
use reinstinct.SpecDecode.Lossless.{spec_decode_generate-greedy}

-- The logits of a history: the tokens 0 and 1 alternate.
abbrev predict : List ℕ → List ℕ
predict h = (1 + length h % 2) ∷ 2 ∷ []

-- The state is the history, and the drafter always proposes token 0.
abbrev engine : Engine small_floats ℕ
engine = record {
  State = List ℕ;
  Drafter = ℕ;
  position = length;
  truncate = take;
  forward_token = λ t s. ok (predict (s ++ (t ∷ [])), s ++ (t ∷ []));
  verify_forward = λ ds s. ok (along predict s ds, s ++ ds);
  verify_via_graph = λ ds s. ok (along predict s ds, s ++ ds);
  set_h_prev = λ s d. ok d;
  forward_step = λ s prev pos d. ok (2 ∷ 1 ∷ [], d);
}

abbrev model : IsModel engine
model = record {
  history = λ s. s;
  next = predict;
  next_some = λ h. refl;
  position_law = λ s. refl;
  truncate_law = λ n s h. refl;
  forward_law = λ t s. (s ++ (t ∷ []), refl, refl);
  verify_law = λ ds s. (s ++ ds, refl, refl);
  graph_law = λ ds s. (s ++ ds, refl, refl);
  set_h_law = λ s d. (d, refl);
  draft_law = λ s prev pos d. (2 ∷ 1 ∷ [], d, refl, refl);
}

abbrev config : Config small_floats
config = record {
  captured_k = none;
  eos = 7;
  max_tokens = 5;
  k = 2;
  temperature = 1;
  p_min = 1;
  adaptive_min_alpha = 1;
  adaptive_window = 4;
  no_bonus = false;
}

spec_decode_generate-greedy_example :
    (stats : SpecStats) × (spec_decode_generate engine config (predict (3 ∷ [])) 3 42 (3 ∷ []) 0
      ≡ ok (greedy (λ h. first_max small_floats (predict h)) 7 5 (3 ∷ []), stats))
spec_decode_generate-greedy_example =
    spec_decode_generate-greedy config model refl (omega arith) 3 42 (3 ∷ []) 0
