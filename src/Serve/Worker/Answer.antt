-- ===== src/Serve/Worker/Answer.antt =====
-- Every job is answered once and counted once: `worker` of src/serve/mod.rs.
use reinstinct.Base.{
  ℕ, suc, ◌≤◌, ◌<◌, ◌≡◌, refl, sym, subst, ap, arith, ◌⊎◌, inl, inr, Bool, Bool-cases, true, false,
  ◌&&◌, Option, Option-cases, List, [], ◌∷◌, ◌++◌, length, All, All-append, ltb, leb, ◌==◌,
  if◌then◌else◌,
}
use reinstinct.Base.Float.{Floats}
use reinstinct.Serve.Generate.{GenError, Generated, TokenLogprob}
use reinstinct.Serve.Json.{Numbers}
use reinstinct.Serve.Reply.{request_name}
use reinstinct.Serve.Request.{GenReq, Refusal, Reason}
use reinstinct.Serve.Thinking.{push, flush}
use reinstinct.Serve.Worker.{
  Target, big, small, embed, Metrics, add_u64, HttpReply, StreamMsg, chunk, done, Job, Generation,
  generated, failed, panicked, Model, Sink, send, on_token, open_stream, flush_stream, is_empty,
}
use reinstinct.Serve.Worker.Jobs.{
  Worker, fresh, is_chat, answer, end_stream, run_model, serve_req, serve_job, serve_jobs, drain,
  count_ok, count_4xx, count_5xx, count_panic,
}

abbrev IsChunk : StreamMsg → Type 0
IsChunk (chunk payload) = Unit {0}
IsChunk (done reply) = ⊥

-- Frames, and then one reply.
pub record IsAnswer (messages : List StreamMsg) : Type 0 where
  pub frames : List StreamMsg
  pub reply : HttpReply
  pub shape : messages ≡ frames ++ (done reply ∷ [])
  pub only_frames : All IsChunk frames

-- A reply of this status raises exactly the counter of its class, and the one of panics for a 500.
pub record IsCounted (m : Metrics) (status : ℕ) (m' : Metrics) : Type 0 where
  pub class :
      (status ≡ 200) ⊎ (((400 ≤ status) × (status < 500)) ⊎ ((status ≡ 500) ⊎ (status ≡ 503)))
  pub oks : m'.requests_ok ≡ (if status == 200 then add_u64 m.requests_ok 1 else m.requests_ok)
  pub client_errors :
      m'.requests_4xx
      ≡ (if leb 400 status && ltb status 500 then add_u64 m.requests_4xx 1 else m.requests_4xx)
  pub server_errors :
      m'.requests_5xx ≡ (if leb 500 status then add_u64 m.requests_5xx 1 else m.requests_5xx)
  pub panics :
      m'.panics_recovered
      ≡ (if status == 500 then add_u64 m.panics_recovered 1 else m.panics_recovered)

count_ok-IsCounted :
    (n_p n_c wall_us : ℕ) (eos : Bool) (m : Metrics)
    → IsCounted m 200 (count_ok n_p n_c wall_us eos m)
unfolding count_ok
count_ok-IsCounted n_p n_c wall_us eos m = record {
  class = inl refl;
  oks = refl;
  client_errors = refl;
  server_errors = refl;
  panics = refl;
}

count_4xx-IsCounted :
    (status : ℕ) (m : Metrics) → 400 ≤ status → status < 500 → IsCounted m status (count_4xx m)
unfolding count_4xx
count_4xx-IsCounted status m lo hi = record {
  class = inr (inl (lo, hi));
  oks = ground arith;
  client_errors = ground arith;
  server_errors = ground arith;
  panics = ground arith;
}

count_5xx-IsCounted : (m : Metrics) → IsCounted m 503 (count_5xx m)
unfolding count_5xx
count_5xx-IsCounted m = record {
  class = inr (inr (inr refl));
  oks = refl;
  client_errors = refl;
  server_errors = refl;
  panics = refl;
}

count_panic-IsCounted : (m : Metrics) → IsCounted m 500 (count_panic m)
unfolding count_panic count_5xx
count_panic-IsCounted m = record {
  class = inr (inr (inl refl));
  oks = refl;
  client_errors = refl;
  server_errors = refl;
  panics = refl;
}

record OnlyFrames (s : Sink) : Type 0 where
  frames : All IsChunk s.sent

one_more :
    (payload : List ℕ) (s : Sink) {s' : Sink}
    → OnlyFrames s
    → s'.sent ≡ s.sent ++ (chunk payload ∷ [])
    → OnlyFrames s'
one_more payload s h e = record {
  frames =
      subst (All IsChunk) (sym e)
        (All-append IsChunk s.sent (chunk payload ∷ []) h.frames (tt, tt));
}

abbrev pub IsClientError : {A : Type 0} → Refusal ⊎ A → Type 0
IsClientError (inl refusal) = (400 ≤ refusal.status) × (refusal.status < 500)
IsClientError (inr req) = Unit {0}

module _ (nm : Numbers) (fl : Floats) (of_nat : ℕ → nm.F) (widen : fl.F → nm.F)
    (reason_text : Reason → List ℕ) (error_text : GenError → List ℕ) (alive : ℕ → Bool)
    (clock : ℕ → ℕ) (wall_ms : ℕ → nm.F) (per_token per_second : ℕ → ℕ → nm.F) where
  send-OnlyFrames :
      (payload : List ℕ) (s : Sink)
      → OnlyFrames s
      → OnlyFrames
          (send nm fl of_nat widen reason_text error_text alive clock wall_ms per_token per_second
            (chunk payload)
            s).0
  unfolding send
  send-OnlyFrames payload s h = one_more payload s h refl

  on_token-OnlyFrames :
      (is_stream chatting : Bool) (id model : List ℕ) (s : Sink) (delta : List ℕ)
      (lp : Option (TokenLogprob fl))
      → OnlyFrames s
      → OnlyFrames
          (on_token nm fl of_nat widen reason_text error_text alive clock wall_ms per_token
            per_second is_stream chatting id model s delta lp).0
  unfolding on_token send
  on_token-OnlyFrames false chatting id model s delta lp h = h
  on_token-OnlyFrames true chatting id model s delta lp h =
      elim (Bool-cases (
        is_empty nm fl of_nat widen reason_text error_text alive clock wall_ms per_token per_second
          (push delta s.stripper).0)) [
            | inl silent ↦ rw silent (record { frames = h.frames })
            | inr speaks ↦ rw speaks (one_more _ s h refl)
          ]

  open_stream-OnlyFrames :
      (is_stream chatting : Bool) (id model : List ℕ) (s : Sink)
      → OnlyFrames s
      → OnlyFrames (
          open_stream nm fl of_nat widen reason_text error_text alive clock wall_ms per_token
            per_second is_stream chatting id model s)
  unfolding open_stream
  open_stream-OnlyFrames false chatting id model s h = h
  open_stream-OnlyFrames true false id model s h = h
  open_stream-OnlyFrames true true id model s h = send-OnlyFrames _ s h

  flush_stream-OnlyFrames :
      (chatting : Bool) (id model : List ℕ) (s : Sink)
      → OnlyFrames s
      → OnlyFrames (
          flush_stream nm fl of_nat widen reason_text error_text alive clock wall_ms per_token
            per_second chatting id model s)
  unfolding flush_stream send
  flush_stream-OnlyFrames chatting id model s h =
      elim (Bool-cases (
        is_empty nm fl of_nat widen reason_text error_text alive clock wall_ms per_token per_second
          (flush s.stripper).0)) [
            | inl silent ↦ rw silent (record { frames = h.frames })
            | inr speaks ↦ rw speaks (one_more _ s h refl)
          ]

  module _ (md : Model fl) where
    open md use {M}

    end_stream-OnlyFrames :
        (req : GenReq fl) (id name : List ℕ) (g : Generated fl) (wall_us : ℕ) (s : Sink)
        → OnlyFrames s
        → OnlyFrames (
            end_stream nm fl of_nat widen reason_text error_text alive clock wall_ms per_token
              per_second md req id name g wall_us s)
    unfolding end_stream
    end_stream-OnlyFrames req id name g wall_us s h =
        let h1 = flush_stream-OnlyFrames (is_chat req.prompt) id name s h in
        let h2 = send-OnlyFrames _ _ h1 in
        elim (Bool-cases req.stream_include_usage) [
          | inl with_usage ↦ rw with_usage (send-OnlyFrames _ _ h2)
          | inr without ↦ rw without h2
        ]

    answer-IsCounted :
        (req : GenReq fl) (id name : List ℕ) (n wall_us : ℕ) (o : Generation fl) (m : Metrics)
        (s : Sink)
        → OnlyFrames s
        → OnlyFrames
            (answer nm fl of_nat widen reason_text error_text alive clock wall_ms per_token
              per_second md req id name n wall_us o m s).3
          × IsCounted m
              (answer nm fl of_nat widen reason_text error_text alive clock wall_ms per_token
                per_second md req id name n wall_us o m s).0.status
              (answer nm fl of_nat widen reason_text error_text alive clock wall_ms per_token
                per_second md req id name n wall_us o m s).1
    unfolding answer
    answer-IsCounted req id name n wall_us (failed e) m s h =
        (h, count_4xx-IsCounted 400 m (omega arith) (omega arith))
    answer-IsCounted req id name n wall_us (panicked why) m s h = (h, count_panic-IsCounted m)
    answer-IsCounted req id name n wall_us (generated g) m s h =
        let counted = count_ok-IsCounted g.n_prompt g.n_completion wall_us g.hit_eos m in
        elim (Bool-cases req.stream) [
          | inl streamed ↦ rw streamed (end_stream-OnlyFrames req id name g wall_us s h, counted)
          | inr plain ↦ rw plain (h, counted)
        ]

    run_model-IsCounted :
        (m : M) (req : GenReq fl) (n wall_us : ℕ) (metrics : Metrics)
        → OnlyFrames
            (run_model nm fl of_nat widen reason_text error_text alive clock wall_ms per_token
              per_second md m req n wall_us metrics).4
          × IsCounted metrics
              (run_model nm fl of_nat widen reason_text error_text alive clock wall_ms per_token
                per_second md m req n wall_us metrics).0.status
              (run_model nm fl of_nat widen reason_text error_text alive clock wall_ms per_token
                per_second md m req n wall_us metrics).2
    unfolding run_model
    run_model-IsCounted m req n wall_us metrics =
        let chatting = is_chat req.prompt in
        let id = request_name chatting n in
        let tokens =
          on_token nm fl of_nat widen reason_text error_text alive clock wall_ms per_token
            per_second req.stream chatting id (md.name m) in
        let s0 =
          open_stream nm fl of_nat widen reason_text error_text alive clock wall_ms per_token
            per_second req.stream chatting id (md.name m) fresh in
        let h0 =
          open_stream-OnlyFrames req.stream chatting id (md.name m) fresh
            (record { frames = tt }) in
        let r = md.generate Sink tokens m req s0 in
        let h1 =
          md.by_token Sink tokens OnlyFrames
            (λ s x lp h. on_token-OnlyFrames req.stream chatting id (md.name m) s x lp h) m req s0
            h0 in
        answer-IsCounted req id (md.name m) (add_u64 n 1) wall_us r.1 metrics r.0 h1

    -- One answer, counted in the class of its reply.
    pub record IsServed (m : Metrics)
        (r : Worker nm fl of_nat widen reason_text error_text alive clock wall_ms per_token
            per_second md
          × List StreamMsg)
        : Type 0 where
      pub answered : IsAnswer r.1
      pub counted : IsCounted m answered.reply.status r.0.metrics

    alone :
        (m : Metrics)
        (w : Worker nm fl of_nat widen reason_text error_text alive clock wall_ms per_token
          per_second md)
        (reply : HttpReply)
        → IsCounted m reply.status w.metrics
        → IsServed m (w, done reply ∷ [])
    alone m w reply h = record {
      answered = record { frames = []; reply = reply; shape = refl; only_frames = tt };
      counted = h;
    }

    after_frames :
        (m : Metrics)
        (w : Worker nm fl of_nat widen reason_text error_text alive clock wall_ms per_token
          per_second md)
        (s : Sink) (reply : HttpReply)
        → OnlyFrames s
        → IsCounted m reply.status w.metrics
        → IsServed m (w, s.sent ++ (done reply ∷ []))
    after_frames m w s reply frames h = record {
      answered = record {
        frames = s.sent;
        reply = reply;
        shape = refl;
        only_frames = frames.frames;
      };
      counted = h;
    }

    serve_req-IsServed :
        (t : Target) (req : GenReq fl) (wall_us : ℕ)
        (w : Worker nm fl of_nat widen reason_text error_text alive clock wall_ms per_token
          per_second md)
        → IsServed w.metrics (
            serve_req nm fl of_nat widen reason_text error_text alive clock wall_ms per_token
              per_second md t req wall_us w)
    unfolding serve_req
    serve_req-IsServed embed req wall_us w = alone w.metrics _ _ (count_5xx-IsCounted w.metrics)
    serve_req-IsServed big req wall_us w =
        let (frames, counted) = run_model-IsCounted w.big_m req w.req_counter wall_us w.metrics in
        after_frames w.metrics _ _ _ frames counted
    serve_req-IsServed small req wall_us w = elim (Option-cases w.small_m) [
      | inl missing ↦ rw (serve_req, missing) (alone w.metrics _ _ (count_5xx-IsCounted w.metrics))
      | inr (sm, loaded) ↦
          let (frames, counted) = run_model-IsCounted sm req w.req_counter wall_us w.metrics in
          rw (serve_req, loaded) (after_frames w.metrics _ _ _ frames counted)
    ]

    -- Every job whose refusal, if it is one, is a client's error is answered with frames and then
    -- exactly one reply, and exactly the counter of the reply's class goes up by one (modulo 2 ^ 64),
    -- that of panics with a 500: whatever `generate` does, an error or a panic included.
    pub serve_job-IsServed :
        (job : Job fl) (wall_us : ℕ)
        (w : Worker nm fl of_nat widen reason_text error_text alive clock wall_ms per_token
          per_second md)
        → IsClientError job.req
        → IsServed w.metrics (
            serve_job nm fl of_nat widen reason_text error_text alive clock wall_ms per_token
              per_second md job wall_us w)
    unfolding serve_job
    serve_job-IsServed job wall_us w client = by_request job.req client refl
      where
        by_request :
            (r : Refusal ⊎ GenReq fl)
            → IsClientError r
            → job.req ≡ r
            → IsServed w.metrics (
                serve_job nm fl of_nat widen reason_text error_text alive clock wall_ms per_token
                  per_second md job wall_us w)
        by_request (inl refusal) (lo, hi) e =
            rw (serve_job, e)
              (alone w.metrics _ _ (count_4xx-IsCounted refusal.status w.metrics lo hi))
        by_request (inr req) h e = rw (serve_job, e) (serve_req-IsServed job.target req wall_us w)

    -- The whole queue is answered: as many answers as jobs, in the order of the queue, each of frames
    -- and then one reply, for every model and whatever becomes of the requests before; and so is a
    -- queue where the models could not be loaded.
    pub serve_jobs-answered :
        (jobs : List (Job fl × ℕ))
        (w : Worker nm fl of_nat widen reason_text error_text alive clock wall_ms per_token
          per_second md)
        (why : List ℕ)
        → All (λ (job : Job fl × ℕ). IsClientError job.0.req) jobs
        → (length
              (serve_jobs nm fl of_nat widen reason_text error_text alive clock wall_ms per_token
                per_second md jobs w).1
            ≡ length jobs)
          × All IsAnswer
              (serve_jobs nm fl of_nat widen reason_text error_text alive clock wall_ms per_token
                per_second md jobs w).1
          × (length (
                drain nm fl of_nat widen reason_text error_text alive clock wall_ms per_token
                  per_second md why jobs)
              ≡ length jobs)
          × All IsAnswer (
              drain nm fl of_nat widen reason_text error_text alive clock wall_ms per_token
                per_second md why jobs)
    unfolding serve_jobs drain
    serve_jobs-answered [] w why h = (refl, tt, refl, tt)
    serve_jobs-answered ((job, wall_us) ∷ jobs) w why (client, h) =
        let served = serve_job-IsServed job wall_us w client in
        let (count, answers, drained, drains) =
          serve_jobs-answered jobs
            (serve_job nm fl of_nat widen reason_text error_text alive clock wall_ms per_token
              per_second md job wall_us w).0
            why h in
        (
          ap suc count,
          (served.answered, answers),
          ap suc drained,
          (record { frames = []; reply = _; shape = refl; only_frames = tt }, drains),
        )
