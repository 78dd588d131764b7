-- ===== src/Serve/Request/RoundTrip.antt =====
-- The body of a chat request, printed by a client and parsed by the server: src/serve/mod.rs.
use reinstinct.Base.{
  ℕ, ◌+◌, ◌*◌, ◌≤◌, ◌≡◌, refl, arith, true, Option, some, none, List, [], ◌∷◌, ok, All,
}
use reinstinct.Base.Text.{codes}
use reinstinct.Base.Float.{Floats}
use reinstinct.Base.Utf8.{is_utf8}
use reinstinct.Chat.{ChatMessage, Role, system, user, assistant, qwen_role}
use reinstinct.Serve.Json.{
  Numbers, Json, Items, Fields, str, arr, obj, nil, cons, done, field, find, get, as_str, text_eq,
  to_string,
}
use reinstinct.Serve.Json.Depth.{depth, depth_items, depth_fields}
use reinstinct.Serve.Json.Parse.{max_depth}
use reinstinct.Serve.Json.Printable.{IsPrintable, ArePrintable, FieldsPrintable}
use reinstinct.Serve.Json.RoundTrip.{parse-to_string}
use reinstinct.Serve.Request.{
  Casts, Refusal, chat, chat_defaults, text_at, number_at, nanos, default_request_timeout_secs,
}
use reinstinct.Serve.Request.Bodies.{
  parse_chat_completions, parse_common_fields, parsed, checked, role_of, message_of, messages_of,
  array_of, timeout_of, request_of,
}
use reinstinct.Serve.Request.Bounds.{AreStandard}

module _ {F : Type 0} where
  -- {"role":…,"content":…}
  abbrev pub message_json : ChatMessage → Json F
  message_json m =
      obj (
        field (codes "role") (str (qwen_role m.role))
          (field (codes "content") (str m.content) done))

  abbrev pub items_of : List ChatMessage → Items F
  items_of [] = nil
  items_of (m ∷ ms) = cons (message_json m) (items_of ms)

  -- {"messages":[…],…}
  abbrev pub chat_body : List ChatMessage → Fields F → Json F
  chat_body ms extra = obj (field (codes "messages") (arr (items_of ms)) extra)

role_ascii : is_utf8 (codes "role") ≡ true
unfolding is_utf8
role_ascii = refl

content_ascii : is_utf8 (codes "content") ≡ true
unfolding is_utf8
content_ascii = refl

messages_ascii : is_utf8 (codes "messages") ≡ true
unfolding is_utf8
messages_ascii = refl

module _ (nm : Numbers) (fl : Floats) (cs : Casts nm fl) where
  open nm use {F}

  role_of-qwen_role : (i : ℕ) (r : Role) → role_of nm fl cs i (qwen_role r) ≡ ok r
  unfolding role_of text_eq qwen_role
  role_of-qwen_role i system = refl
  role_of-qwen_role i user = refl
  role_of-qwen_role i assistant = refl

  message_of-json : (i : ℕ) (m : ChatMessage) → message_of nm fl cs i (message_json m) ≡ ok m
  unfolding message_of text_at get find as_str text_eq
  message_of-json i m = rw (role_of-qwen_role i m.role) refl

  messages_of-json : (i : ℕ) (ms : List ChatMessage) → messages_of nm fl cs i (items_of ms) ≡ ok ms
  unfolding messages_of
  messages_of-json i [] = refl
  messages_of-json i (m ∷ ms) = rw (message_of-json i m, messages_of-json (i + 1) ms) refl

  role-utf8 : (r : Role) → is_utf8 (qwen_role r) ≡ true
  unfolding is_utf8 qwen_role
  role-utf8 system = refl
  role-utf8 user = refl
  role-utf8 assistant = refl

  items-ArePrintable :
      (ms : List ChatMessage)
      → All (λ m. is_utf8 m.content ≡ true) ms
      → ArePrintable nm (items_of ms)
  unfolding IsPrintable
  items-ArePrintable [] h = tt
  items-ArePrintable (m ∷ ms) (h, hs) =
      ((role_ascii, role-utf8 m.role, (content_ascii, h, tt)), items-ArePrintable ms hs)

  depth-items : (ms : List ChatMessage) → depth_items (items_of {F = F} ms) ≤ 1
  unfolding depth
  depth-items [] = omega arith
  depth-items (m ∷ ms) = omega (arith, depth-items ms)

  chat_body-IsPrintable :
      (ms : List ChatMessage) (extra : Fields F)
      → All (λ m. is_utf8 m.content ≡ true) ms
      → FieldsPrintable nm extra
      → IsPrintable nm (chat_body ms extra)
  unfolding IsPrintable
  chat_body-IsPrintable ms extra h k = (messages_ascii, items-ArePrintable ms h, k)

  chat_body-depth :
      (ms : List ChatMessage) (extra : Fields F)
      → depth_fields extra ≤ 255
      → depth (chat_body ms extra) ≤ max_depth
  unfolding depth
  chat_body-depth ms extra h = omega (arith, depth-items ms)

  timeout_of-some :
      AreStandard cs
      → (o : Option F) → (d : ℕ) × (timeout_of nm fl cs {E = Refusal} o ≡ ok (some d))
  unfolding timeout_of
  timeout_of-some std none = (default_request_timeout_secs * nanos, refl)
  timeout_of-some std (some n) =
      let big = cs.max n cs.tenth in
      let low = std.min_keeps big (std.max_above n) in
      let (d, made, _) = std.seconds (cs.min big cs.six_hundred) low (std.min_below big) in
      (d, rw (timeout_of, made) refl)

  -- A conversation that is not empty, written by a client as the JSON body of a chat request with any
  -- further fields, printed and parsed by the server, arrives as the same messages, and the other
  -- fields of the request are read from the body; contents are UTF-8, the further fields printable
  -- and nested at most 255 deep, durations standard.
  pub parse_chat_completions-to_string :
      AreStandard cs
      → (m : ChatMessage) (ms : List ChatMessage) (extra : Fields F)
      → All (λ m. is_utf8 m.content ≡ true) (m ∷ ms)
      → FieldsPrintable nm extra
      → depth_fields extra ≤ 255
      → (d : ℕ) × (parse_chat_completions nm fl cs (to_string nm (chat_body (m ∷ ms) extra))
          ≡ ok (
              request_of nm fl cs
                (chat_body (m ∷ ms) extra)
                (chat_defaults fl)
                (chat (m ∷ ms))
                (some d)))
  unfolding parse_chat_completions parse_common_fields parsed checked array_of get find text_eq
  parse_chat_completions-to_string std m ms extra valid printable deep =
      let body = chat_body {F = F} (m ∷ ms) extra in
      let read =
        parse-to_string nm body (chat_body-IsPrintable (m ∷ ms) extra valid printable)
          (chat_body-depth (m ∷ ms) extra deep) in
      let (d, timed) = timeout_of-some std (number_at (codes "request_timeout_seconds") body) in
      (d, rw (read, messages_of-json 0 (m ∷ ms), timed) refl)
