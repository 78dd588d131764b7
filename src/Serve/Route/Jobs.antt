-- ===== src/Serve/Route/Jobs.antt =====
-- Every request that is read becomes a page or a job that the worker can answer: src/serve/mod.rs.
use reinstinct.Base.{
  ◌≤◌, ◌<◌, ◌≡◌, ◌≢◌, refl, arith, Bool, true, false, if◌then◌else◌, ◌⊎◌, inl, inr, Option,
  Option-cases, some, none, Outcome, Ensures, holds, Ensures-bind,
}
use reinstinct.Base.Float.{Floats}
use reinstinct.Serve.Http.{Request}
use reinstinct.Serve.Json.{Numbers}
use reinstinct.Serve.Request.{Casts, GenReq, Refusal}
use reinstinct.Serve.Request.Bounds.{
  AreStandard, Answers, accepted, refused, IsServable, parse-IsServable,
}
use reinstinct.Serve.Route.{
  Page, RouteTag, embeddings, chat_route, completions, page_of, route_of, req_of, queued, embed_req,
  handle,
}
use reinstinct.Serve.Worker.{Target, big, small, embed}

-- What the ports of the LLMs route, by the three tests.
not_embeddings :
    (post chatting plain : Bool)
    → (if post
        then (if chatting then some chat_route else if plain then some completions else none)
        else none)
      ≢ some embeddings
not_embeddings false chatting plain h = cc
not_embeddings true true plain h = cc
not_embeddings true false true h = cc
not_embeddings true false false h = cc

route_of-embed : (t : Target) (r : Request) → route_of t r ≡ some embeddings → t ≡ embed
unfolding route_of
route_of-embed embed r h = refl
route_of-embed big r h = absurd (not_embeddings _ _ _ h)
route_of-embed small r h = absurd (not_embeddings _ _ _ h)

module _ (nm : Numbers) (fl : Floats) (cs : Casts nm fl) where
  -- A client's error, the request of the embedder's port, or a request within the bounds.
  abbrev pub IsJob : Target → Refusal ⊎ GenReq fl → Type 0
  IsJob t (inl refusal) = (400 ≤ refusal.status) × (refusal.status < 500)
  IsJob t (inr req) = ((t ≡ embed) × (req ≡ embed_req nm fl cs)) ⊎ IsServable fl req

  abbrev pub IsHandled : Target → Page ⊎ (Refusal ⊎ GenReq fl) → Type 0
  IsHandled t (inl page) = Unit {0}
  IsHandled t (inr req) = IsJob t req

  queued-IsJob :
      (t : Target) {m : Outcome Refusal (GenReq fl)}
      → Answers (IsServable fl) m
      → Ensures (IsJob t) (queued nm fl cs m)
  queued-IsJob t (accepted h) = holds (inr h)
  queued-IsJob t (refused {r} status text) = holds (omega (arith, status), omega (arith, status))

  req_of-IsJob :
      AreStandard cs
      → (t : Target) (tag : Option RouteTag) (r : Request) → (tag ≡ some embeddings → t ≡ embed)
      → Ensures (IsJob t) (req_of nm fl cs tag r)
  unfolding req_of
  req_of-IsJob std t none r only = holds (omega arith, omega arith)
  req_of-IsJob std t (some embeddings) r only = holds (inl (only refl, refl))
  req_of-IsJob std t (some chat_route) r only =
      queued-IsJob t (parse-IsServable nm fl cs std r.body).1
  req_of-IsJob std t (some completions) r only =
      queued-IsJob t (parse-IsServable nm fl cs std r.body).0

  -- A connection neither panics nor gets stuck on a request that was read, on any port: it answers a
  -- page itself, or queues a job, which is a refusal with a client's error, the placeholder of the
  -- embedder's port (on that port only), or a request within the bounds of the parsers. Float
  -- comparisons, `max`, `min` and durations are standard.
  pub handle-IsHandled :
      AreStandard cs → (t : Target) (r : Request) → Ensures (IsHandled t) (handle nm fl cs t r)
  unfolding handle
  handle-IsHandled std t r = elim (Option-cases (page_of r)) [
    | inr (page, found) ↦ rw (handle, found) (holds tt)
    | inl other ↦
        rw (handle, other)
          (Ensures-bind (req_of-IsJob std t (route_of t r) r (route_of-embed t r)) λ req h. holds h)
  ]
