-- ===== src/Serve/Worker/Tests.antt =====
-- Jobs served over a small model, and the theorems at concrete inputs: src/serve/mod.rs.
use reinstinct.Base.{ℕ, zero, suc, ◌⊎◌, inl, inr, Bool, true, false, none, List, [], ◌∷◌}
use reinstinct.Base.SmallFloats.{small_floats}
use reinstinct.Base.Text.{codes}
use reinstinct.Serve.Generate.{GenError}
use reinstinct.Serve.Json.Naturals.{naturals}
use reinstinct.Serve.Request.{GenReq, Refusal, Reason, raw, bad, no_prompt}
use reinstinct.Serve.Worker.{Target, big, small, Metrics, Job, Model, generated, panicked}
use reinstinct.Serve.Worker.Jobs.{Worker, serve_job}
use reinstinct.Serve.Worker.Answer.{IsServed, serve_job-IsServed}

-- A model that sends one text, and panics on a request of no tokens.
abbrev echo : Model small_floats
echo = record {
  M = ℕ;
  name = λ m. codes "echo";
  generate = λ S on_token m req s. (
    (on_token s (codes "hi") none).0,
    elim req.max_tokens [
      | zero ↦ panicked (codes "no tokens")
      | suc n ↦ generated (record {
        text = codes "hi";
        n_prompt = 2;
        n_completion = 1;
        hit_eos = true;
        logprobs = [];
      })
    ],
    m,
  );
  by_token = λ S on_token P keep m req s h. keep s (codes "hi") none h;
}

abbrev no_counts : Metrics
no_counts = record {
  requests_total = 0;
  requests_ok = 0;
  requests_4xx = 0;
  requests_5xx = 0;
  prompt_tokens = 0;
  completion_tokens = 0;
  decode_us_total = 0;
  requests_eos = 0;
  requests_length = 0;
  panics_recovered = 0;
  start_unix = 0;
}

abbrev request : ℕ → Bool → GenReq small_floats
request max_tokens stream = record {
  prompt = raw (codes "a");
  max_tokens = max_tokens;
  sampler = record {
    temperature = 1;
    top_k = 1;
    top_p = 2;
    min_p = 1;
    repetition_penalty = 2;
    repetition_window = 0;
    frequency_penalty = 1;
    presence_penalty = 1;
    mirostat = none;
    seed = 3;
  };
  use_speculative = none;
  speculative_k = none;
  think = record { enable_thinking = none; reasoning_effort = none };
  speculative_p_min = 1;
  request_timeout = none;
  stream = stream;
  stream_include_usage = true;
  top_logprobs_n = 0;
}

abbrev job : Target → Refusal ⊎ GenReq small_floats → Job small_floats
job target req = record { request_id = 1; target = target; req = req }

abbrev keep : ℕ → ℕ
keep n = n

abbrev no_reason : Reason → List ℕ
no_reason why = []

abbrev no_error : GenError → List ℕ
no_error why = []

abbrev here : ℕ → Bool
here n = true

abbrev rate : ℕ → ℕ → ℕ
rate a b = a

abbrev EchoWorker : Type 0
EchoWorker = Worker naturals small_floats keep keep no_reason no_error here keep keep rate rate echo

abbrev started : EchoWorker
started = record { big_m = 0; small_m = none; metrics = no_counts; req_counter = 1 }

serve_job-IsServed_example :
    IsServed naturals small_floats keep keep no_reason no_error here keep keep rate rate echo
      no_counts
      (serve_job naturals small_floats keep keep no_reason no_error here keep keep rate rate echo
        (job big (inr (request 3 true)))
        9
        started)
serve_job-IsServed_example =
    serve_job-IsServed naturals small_floats keep keep no_reason no_error here keep keep rate rate
      echo (job big (inr (request 3 true))) 9 started tt

-- A panic, a model that is not there, a refusal, and a stream.
abbrev jobs : List (Job small_floats × ℕ)
jobs =
    (job big (inr (request 0 false)), 5)
    ∷ (job small (inr (request 3 true)), 6)
    ∷ (job big (inl (bad no_prompt)), 0)
    ∷ (job big (inr (request 3 true)), 9)
    ∷ []
