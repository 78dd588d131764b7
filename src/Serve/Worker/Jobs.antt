-- ===== src/Serve/Worker/Jobs.antt =====
-- The loop of the worker over its jobs: `worker` of src/serve/mod.rs.
use reinstinct.Base.{
  ℕ, inl, inr, Bool, true, false, Option, some, none, List, [], ◌∷◌, ◌++◌, if◌then◌else◌,
}
use reinstinct.Base.Float.{Floats}
use reinstinct.Base.Text.{codes}
use reinstinct.Serve.Generate.{GenError, Generated}
use reinstinct.Serve.Json.{Numbers}
use reinstinct.Serve.Reply.{chat_completion_response, completion_response, error_body, request_name}
use reinstinct.Serve.Request.{GenReq, PromptInput, raw, chat, Reason}
use reinstinct.Serve.Thinking
use reinstinct.Serve.Worker.{
  Target, big, small, embed, Metrics, add_u64, HttpReply, StreamMsg, chunk, done, Job, Generation,
  generated, failed, panicked, Model, Sink, send, on_token, open_stream, flush_stream, final_frame,
  usage_frame,
}

abbrev pub is_chat : PromptInput → Bool
is_chat (chat ms) = true
is_chat (raw text) = false

abbrev client_error : List ℕ
client_error = codes "invalid_request_error"

abbrev pub server_error : List ℕ
server_error = codes "server_error"

abbrev pub unavailable : List ℕ → HttpReply
unavailable body = record { status = 503; status_text = codes "Service Unavailable"; body = body }

-- The counters of a finished request.
unfoldable pub count_ok : ℕ → ℕ → ℕ → Bool → Metrics → Metrics
count_ok n_p n_c wall_us eos m = record m {
  requests_ok = add_u64 m.requests_ok 1;
  prompt_tokens = add_u64 m.prompt_tokens n_p;
  completion_tokens = add_u64 m.completion_tokens n_c;
  decode_us_total = add_u64 m.decode_us_total wall_us;
  requests_eos = if eos then add_u64 m.requests_eos 1 else m.requests_eos;
  requests_length = if eos then m.requests_length else add_u64 m.requests_length 1;
}

unfoldable pub count_4xx : Metrics → Metrics
count_4xx m = record m { requests_4xx = add_u64 m.requests_4xx 1 }

unfoldable pub count_5xx : Metrics → Metrics
count_5xx m = record m { requests_5xx = add_u64 m.requests_5xx 1 }

unfoldable pub count_panic : Metrics → Metrics
unfolding count_5xx
count_panic m =
    let m' = count_5xx m in record m' { panics_recovered = add_u64 m'.panics_recovered 1 }

abbrev pub fresh : Sink
fresh = record { stripper = Thinking.new; sent = [] }

module _ (nm : Numbers) (fl : Floats) (of_nat : ℕ → nm.F) (widen : fl.F → nm.F)
    (reason_text : Reason → List ℕ) (error_text : GenError → List ℕ) (alive : ℕ → Bool)
    (clock : ℕ → ℕ) (wall_ms : ℕ → nm.F) (per_token per_second : ℕ → ℕ → nm.F) (md : Model fl) where
  open md use {M}

  -- The resident models, the counters, and `REQ_COUNTER`.
  pub record Worker : Type 0 where
    pub big_m : M
    pub small_m : Option M
    pub metrics : Metrics
    pub req_counter : ℕ

  abbrev error_of : List ℕ → List ℕ → List ℕ
  error_of = error_body nm fl of_nat widen

  -- What the stream of a finished request gets besides its text.
  unfoldable pub end_stream : GenReq fl → List ℕ → List ℕ → Generated fl → ℕ → Sink → Sink
  unfolding flush_stream final_frame usage_frame
  end_stream req id name g wall_us s =
      let chatting = is_chat req.prompt in
      let s1 =
        flush_stream nm fl of_nat widen reason_text error_text alive clock wall_ms per_token
          per_second chatting id name s in
      let s2 =
        (send nm fl of_nat widen reason_text error_text alive clock wall_ms per_token per_second
          (chunk (
            final_frame nm fl of_nat widen reason_text error_text alive clock wall_ms per_token
              per_second chatting id name g.hit_eos s1))
          s1).0 in
      let s3 =
        (send nm fl of_nat widen reason_text error_text alive clock wall_ms per_token per_second
          (chunk (
            usage_frame nm fl of_nat widen reason_text error_text alive clock wall_ms per_token
              per_second chatting id name g.n_prompt g.n_completion wall_us s2))
          s2).0 in
      if req.stream_include_usage then s3 else s2

  -- The body of a finished request that is not streamed takes a number of its own.
  unfoldable pub full_body : GenReq fl → ℕ → ℕ → List ℕ → Generated fl → List ℕ
  full_body req n now name g =
      if is_chat req.prompt
      then chat_completion_response nm fl of_nat widen n now name g.text g.n_prompt g.n_completion
          g.hit_eos g.logprobs
      else completion_response nm fl of_nat widen n now name g.text g.n_prompt g.n_completion
          g.hit_eos g.logprobs

  -- What a request that reached a model is answered with, the stream's messages before it included.
  unfoldable pub answer :
      GenReq fl
      → List ℕ
      → List ℕ
      → ℕ
      → ℕ
      → Generation fl
      → Metrics
      → Sink
      → HttpReply × Metrics × ℕ × Sink
  unfolding count_ok count_4xx count_panic end_stream full_body
  answer req id name n wall_us (generated g) m s =
      let m' = count_ok g.n_prompt g.n_completion wall_us g.hit_eos m in
      let plain : HttpReply = record {
        status = 200;
        status_text = codes "OK";
        body = full_body req n (clock 0) name g;
      } in
      if req.stream
      then (
        record { status = 200; status_text = codes "OK"; body = [] },
        m',
        n,
        end_stream req id name g wall_us s,
      )
      else (plain, m', add_u64 n 1, s)
  answer req id name n wall_us (failed e) m s = (
    record {
      status = 400;
      status_text = codes "Bad Request";
      body = error_of (error_text e) client_error;
    },
    count_4xx m,
    n,
    s,
  )
  answer req id name n wall_us (panicked why) m s = (
    record {
      status = 500;
      status_text = codes "Internal Server Error";
      body = error_of (codes "internal panic: " ++ why) server_error;
    },
    count_panic m,
    n,
    s,
  )

  -- A request on the model it is for: the reply, the model and the counters after it, the messages
  -- before the reply.
  unfoldable pub run_model : M → GenReq fl → ℕ → ℕ → Metrics → HttpReply × M × Metrics × ℕ × Sink
  unfolding open_stream on_token answer request_name
  run_model m req n wall_us metrics =
      let chatting = is_chat req.prompt in
      let id = request_name chatting n in
      let s0 =
        open_stream nm fl of_nat widen reason_text error_text alive clock wall_ms per_token
          per_second req.stream chatting id (md.name m) fresh in
      let (s1, outcome, m') =
        md.generate Sink
          (on_token nm fl of_nat widen reason_text error_text alive clock wall_ms per_token
            per_second req.stream chatting id (md.name m))
          m req s0 in
      let (reply, metrics', n', s2) =
        answer req id (md.name m) (add_u64 n 1) wall_us outcome metrics s1 in
      (reply, m', metrics', n', s2)

  abbrev small_missing : List ℕ
  small_missing =
      codes "small model not loaded " ++ (0xe2 ∷ 0x80 ∷ 0x94 ∷ codes " start with --small PATH")

  abbrev embed_missing : List ℕ
  embed_missing =
      codes "embedder not yet available "
      ++ (0xe2 ∷ 0x80 ∷ 0x94 ∷ codes " nomic-bert encoder is a follow-up")

  -- A job: the worker after it, and the messages it was answered with.
  unfoldable pub serve_req : Target → GenReq fl → ℕ → Worker → Worker × List StreamMsg
  unfolding run_model count_5xx
  serve_req embed req wall_us w = (
    record w { metrics = count_5xx w.metrics },
    done (unavailable (error_of embed_missing server_error)) ∷ [],
  )
  serve_req big req wall_us w =
      let (reply, m, metrics, n, s) = run_model w.big_m req w.req_counter wall_us w.metrics in
      (record w { big_m = m; metrics = metrics; req_counter = n }, s.sent ++ (done reply ∷ []))
  serve_req small req wall_us w = elim w.small_m [
    | none ↦ (
      record w { metrics = count_5xx w.metrics },
      done (unavailable (error_of small_missing server_error)) ∷ [],
    )
    | some sm ↦
        let (reply, m, metrics, n, s) = run_model sm req w.req_counter wall_us w.metrics in
        (
          record w { small_m = some m; metrics = metrics; req_counter = n },
          s.sent ++ (done reply ∷ []),
        )
  ]

  unfoldable pub serve_job : Job fl → ℕ → Worker → Worker × List StreamMsg
  unfolding serve_req count_4xx
  serve_job job wall_us w = elim job.req [
    | inl refusal ↦ (
      record w { metrics = count_4xx w.metrics },
      done (record {
        status = refusal.status;
        status_text = refusal.status_text;
        body = error_of (reason_text refusal.reason) client_error;
      })
          ∷ [],
    )
    | inr req ↦ serve_req job.target req wall_us w
  ]

  -- `for job in rx`: the jobs in the order of the queue, each with its measured time.
  unfoldable pub serve_jobs : List (Job fl × ℕ) → Worker → Worker × List (List StreamMsg)
  unfolding serve_job
  serve_jobs [] w = (w, [])
  serve_jobs ((job, wall_us) ∷ jobs) w =
      let (w1, messages) = serve_job job wall_us w in
      let (w2, rest) = serve_jobs jobs w1 in (w2, messages ∷ rest)

  -- The drain of the queue where the models could not be loaded.
  unfoldable pub drain : List ℕ → List (Job fl × ℕ) → List (List StreamMsg)
  drain why [] = []
  drain why (job ∷ jobs) =
      (done (unavailable (error_of (codes "model load failed: " ++ why) server_error)) ∷ [])
      ∷ drain why jobs
