-- ===== src/Serve/Route.antt =====
-- The routes of a connection: `handle_conn` and `render_prometheus` of src/serve/mod.rs, up to the
-- sockets and the channel.
pub mod Jobs
use reinstinct.Base.{
  ℕ, ◌⊎◌, inl, inr, Bool, true, false, ◌&&◌, Option, some, none, List, [], ◌∷◌, ◌++◌, map, ltb, leb,
  ◌==◌, if◌then◌else◌, Outcome, ok, err, panic, stuck, ◌>>=◌,
}
use mathlib.Core.List.{reverse}
use reinstinct.Base.Float.{Floats}
use reinstinct.Base.Text.{codes}
use reinstinct.Sampling.Chain.{default_params}
use reinstinct.Serve.Http.{HttpError, Request, lower}
use reinstinct.Serve.Json.{Numbers, digits, text_eq}
use reinstinct.Serve.Request.{Casts, GenReq, PromptInput, raw, Refusal, Reason, no_route}
use reinstinct.Serve.Request.Bodies.{parse_completions, parse_chat_completions}
use reinstinct.Serve.Thinking.{starts_with, concat}
use reinstinct.Serve.Worker.{Target, big, small, embed, Metrics}

-- `trim_end_matches('/')`, on the reversed text and on a text.
unfoldable pub skip_slashes : List ℕ → List ℕ
skip_slashes [] = []
skip_slashes (c ∷ cs) = let rest = skip_slashes cs in if c == b'/' then rest else c ∷ cs

unfoldable pub trim_end : List ℕ → List ℕ
unfolding skip_slashes
trim_end s = reverse (skip_slashes (reverse s))

unfoldable pub ends_with : List ℕ → List ℕ → Bool
unfolding starts_with
ends_with s suffix = starts_with (reverse s) (reverse suffix)

-- `eq_ignore_ascii_case`
unfoldable pub same_word : List ℕ → List ℕ → Bool
unfolding text_eq
same_word a b = text_eq (map lower a) (map lower b)

-- A counter of the text exposition: its help, its type and its value.
unfoldable pub metric : List ℕ → List ℕ → ℕ → List ℕ
unfolding digits
metric name help value = concat (
    (codes "# HELP reinstinct_" ++ name)
    ∷ (b' ' ∷ help)
    ∷ (10 ∷ (codes "# TYPE reinstinct_" ++ name))
    ∷ codes " counter"
    ∷ (10 ∷ (codes "reinstinct_" ++ name))
    ∷ (b' ' ∷ digits 20 value)
    ∷ (10 ∷ [])
    ∷ [])

unfoldable pub render_prometheus : Metrics → List ℕ
unfolding metric digits
render_prometheus m = concat (
    metric (codes "requests_total") (codes "total HTTP requests reaching a route") m.requests_total
    ∷ metric (codes "requests_ok_total") (codes "requests with a 2xx reply") m.requests_ok
    ∷ metric (codes "requests_4xx_total") (codes "requests with a 4xx reply") m.requests_4xx
    ∷ metric (codes "requests_5xx_total") (codes "requests with a 5xx reply") m.requests_5xx
    ∷ metric (codes "prompt_tokens_total") (codes "sum of prompt_tokens across completed requests")
        m.prompt_tokens
    ∷ metric (codes "completion_tokens_total") (codes "sum of completion_tokens")
        m.completion_tokens
    ∷ metric (codes "decode_us_total") (codes "sum of decode wall time (microseconds)")
        m.decode_us_total
    ∷ metric (codes "requests_eos_total") (codes "requests that ended at EOS") m.requests_eos
    ∷ metric (codes "requests_length_total") (codes "requests stopped by max_tokens or timeout")
        m.requests_length
    ∷ metric (codes "panics_recovered_total") (codes "panics caught by the worker's catch_unwind")
        m.panics_recovered
    ∷ codes "# HELP reinstinct_start_unix_seconds server start time"
    ∷ (10 ∷ codes "# TYPE reinstinct_start_unix_seconds gauge")
    ∷ (10 ∷ codes "reinstinct_start_unix_seconds ")
    ∷ digits 20 m.start_unix
    ∷ (10 ∷ [])
    ∷ [])

-- The model list of a port, which is empty where no model is loaded.
unfoldable pub models_body : List ℕ → ℕ → List ℕ
unfolding digits
models_body [] created = codes "{\"object\":\"list\",\"data\":[]}"
models_body (c ∷ name) created =
    codes "{\"object\":\"list\",\"data\":[{\"id\":\""
    ++ ((c ∷ name)
        ++ (codes "\",\"object\":\"model\",\"created\":"
            ++ (digits 20 created ++ codes ",\"owned_by\":\"reinstinct\"}]}")))

pub data RouteTag : Type 0 where
  embeddings chat_route completions : RouteTag

-- The routes of a POST, by the path without its last slashes.
unfoldable pub post_route : Target → List ℕ → Option RouteTag
post_route embed path = if ends_with path (codes "/v1/embeddings") then some embeddings else none
post_route t path =
    if ends_with path (codes "/v1/chat/completions")
    then some chat_route
    else if ends_with path (codes "/v1/completions")
    then some completions
    else none

unfoldable pub route_of : Target → Request → Option RouteTag
unfolding post_route
route_of t r =
    let found = post_route t (trim_end r.path) in
    if same_word r.method (codes "POST") then found else none

-- The pages that a connection answers itself.
pub data Page : Type 0 where
  metrics_page healthz models : Page

unfoldable pub page_of : Request → Option Page
unfolding same_word ends_with trim_end
page_of r =
    let path = trim_end r.path in
    let found : Option Page =
      if ends_with path (codes "/metrics")
      then some metrics_page
      else if ends_with path (codes "/healthz")
      then some healthz
      else if ends_with path (codes "/v1/models")
      then some models
      else none in
    if same_word r.method (codes "GET") then found else none

module _ (nm : Numbers) (fl : Floats) (cs : Casts nm fl) where
  -- The request that the embedder's port queues; the worker answers it with 503.
  unfoldable pub embed_req : GenReq fl
  unfolding default_params
  embed_req = record {
    prompt = raw [];
    max_tokens = 0;
    sampler = default_params fl;
    use_speculative = none;
    speculative_k = none;
    think = record { enable_thinking = none; reasoning_effort = none };
    speculative_p_min = fl.nought;
    request_timeout = none;
    stream = false;
    stream_include_usage = false;
    top_logprobs_n = 0;
  }

  -- A parser's refusal goes to the worker as well.
  abbrev pub queued : Outcome Refusal (GenReq fl) → Outcome HttpError (Refusal ⊎ GenReq fl)
  queued (ok req) = ok (inr req)
  queued (err refusal) = ok (inl refusal)
  queued panic = panic
  queued stuck = stuck

  abbrev not_found : Request → Refusal
  not_found r = record {
    status = 404;
    status_text = codes "Not Found";
    reason = no_route r.method r.path;
  }

  unfoldable pub req_of : Option RouteTag → Request → Outcome HttpError (Refusal ⊎ GenReq fl)
  unfolding embed_req
  req_of none r = ok (inl (not_found r))
  req_of (some embeddings) r = ok (inr embed_req)
  req_of (some chat_route) r = queued (parse_chat_completions nm fl cs r.body)
  req_of (some completions) r = queued (parse_completions nm fl cs r.body)

  -- What a connection does with a request that was read: a page, or a job for the worker.
  unfoldable pub handle : Target → Request → Outcome HttpError (Page ⊎ (Refusal ⊎ GenReq fl))
  unfolding page_of route_of req_of
  handle t r = elim (page_of r) [
    | some page ↦ ok (inl page)
    | none ↦ req_of (route_of t r) r >>= λ req. ok (inr req)
  ]
