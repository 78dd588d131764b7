-- ===== src/Serve/Thinking.antt =====
-- The stripper of thinking preambles in a streamed reply: `ThinkingStripStream` of src/serve/mod.rs.
-- A text is its UTF-8 bytes; the markers are ASCII.
pub mod Lossless
use reinstinct.Base.{
  ℕ, zero, suc, ◌+◌, Bool, true, false, not, ◌&&◌, ◌||◌, Option, some, none, List, [], ◌∷◌, ◌++◌,
  length, drop, ltb, ◌==◌, if◌then◌else◌,
}

-- `</think>`, `<channel|>`, `<|thought|>` and `<think>`, `<|channel>`, `<|thought|>`.
abbrev pub closers : List (List ℕ)
closers =
    (0x3c ∷ 0x2f ∷ 0x74 ∷ 0x68 ∷ 0x69 ∷ 0x6e ∷ 0x6b ∷ 0x3e ∷ [])
    ∷ (0x3c ∷ 0x63 ∷ 0x68 ∷ 0x61 ∷ 0x6e ∷ 0x6e ∷ 0x65 ∷ 0x6c ∷ 0x7c ∷ 0x3e ∷ [])
    ∷ (0x3c ∷ 0x7c ∷ 0x74 ∷ 0x68 ∷ 0x6f ∷ 0x75 ∷ 0x67 ∷ 0x68 ∷ 0x74 ∷ 0x7c ∷ 0x3e ∷ [])
    ∷ []

abbrev pub openers : List (List ℕ)
openers =
    (0x3c ∷ 0x74 ∷ 0x68 ∷ 0x69 ∷ 0x6e ∷ 0x6b ∷ 0x3e ∷ [])
    ∷ (0x3c ∷ 0x7c ∷ 0x63 ∷ 0x68 ∷ 0x61 ∷ 0x6e ∷ 0x6e ∷ 0x65 ∷ 0x6c ∷ 0x3e ∷ [])
    ∷ (0x3c ∷ 0x7c ∷ 0x74 ∷ 0x68 ∷ 0x6f ∷ 0x75 ∷ 0x67 ∷ 0x68 ∷ 0x74 ∷ 0x7c ∷ 0x3e ∷ [])
    ∷ []

unfoldable pub starts_with : List ℕ → List ℕ → Bool
starts_with xs [] = true
starts_with [] (m ∷ ms) = false
starts_with (x ∷ xs) (m ∷ ms) = x == m && starts_with xs ms

-- `text.rfind(m)`
unfoldable pub rfind : List ℕ → List ℕ → Option ℕ
rfind [] m = if length m == 0 then some 0 else none
rfind (x ∷ xs) m =
    let here : Option ℕ = if starts_with (x ∷ xs) m then some 0 else none in
    elim (rfind xs m) [ some i ↦ some (suc i) | none ↦ here ]

abbrev pub later : Option ℕ → ℕ → Option ℕ
later none end = some end
later (some b) end = some (if ltb b end then end else b)

-- The loop over the markers for the end of the last one.
unfoldable pub best_end : List ℕ → List (List ℕ) → Option ℕ → Option ℕ
best_end text [] best = best
best_end text (m ∷ ms) best =
    best_end text ms (elim (rfind text m) [ none ↦ best | some idx ↦ later best (idx + length m) ])

-- `trim_start_matches` of newlines and blanks
unfoldable pub trim_start : List ℕ → List ℕ
trim_start [] = []
trim_start (x ∷ xs) = let rest = trim_start xs in if x == 10 || x == 32 then rest else x ∷ xs

unfoldable pub strip_thinking_channels : List ℕ → List ℕ
strip_thinking_channels text = elim (best_end text closers none) [
  | some end ↦ trim_start (drop end text)
  | none ↦ text
]

abbrev pub max_buffer : ℕ
max_buffer = 256

abbrev found : Option ℕ → Bool
found none = false
found (some i) = true

unfoldable pub opened : List ℕ → List (List ℕ) → Bool
opened text [] = false
opened text (o ∷ os) = found (rfind text o) || opened text os

pub record ThinkingStripStream : Type 0 where
  pub passthrough : Bool
  pub buf : List ℕ

unfoldable pub new : ThinkingStripStream
new = record { passthrough = false; buf = [] }

unfoldable pub push : List ℕ → ThinkingStripStream → List ℕ × ThinkingStripStream
push chunk s =
    let buf = s.buf ++ chunk in
    let open_stream : ThinkingStripStream = record { passthrough = true; buf = [] } in
    let held : List ℕ × ThinkingStripStream = ([], record s { buf = buf }) in
    let buffered : List ℕ × ThinkingStripStream = elim (best_end buf closers none) [
      | some end ↦ (trim_start (drop end buf), open_stream)
      | none ↦
          if ltb max_buffer (length buf) && not (opened buf openers)
          then (buf, open_stream)
          else held
    ] in
    if s.passthrough then (chunk, s) else buffered

unfoldable pub flush : ThinkingStripStream → List ℕ × ThinkingStripStream
flush s = if s.passthrough then ([], s) else (s.buf, record { passthrough = true; buf = [] })

-- A stream of deltas and the flush at its end: all that is sent on.
unfoldable pub run : List (List ℕ) → ThinkingStripStream → List ℕ
run [] s = (flush s).0
run (c ∷ cs) s = let (out, s') = push c s in out ++ run cs s'

abbrev pub concat : List (List ℕ) → List ℕ
concat [] = []
concat (c ∷ cs) = c ++ concat cs
