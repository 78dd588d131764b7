-- ===== src/Serve/Thinking/Lossless.antt =====
-- What the stripper lets through: src/serve/mod.rs.
use reinstinct.Base.{
  ℕ, suc, ◌+◌, ◌≡◌, ◌≢◌, refl, sym, ap, ◌∙◌, arith, true, false, Bool-cases, Option-cases, inl, inr,
  not, ◌&&◌, some, none, List, [], ◌∷◌, ◌++◌, append-nil, append_assoc, length, All, ltb, ◌==◌,
}
use reinstinct.Serve.Thinking.{
  new, push, flush, run, concat, closers, openers, opened, max_buffer, best_end, rfind, starts_with,
  strip_thinking_channels,
}

-- Behind the marker everything goes through as it comes.
run-open : (cs : List (List ℕ)) → run cs (record { passthrough = true; buf = [] }) ≡ concat cs
unfolding run push flush
run-open [] = refl
run-open (c ∷ cs) = ap (λ t. c ++ t) (run-open cs)

starts_with-append : (xs ys m : List ℕ) → starts_with xs m ≡ true → starts_with (xs ++ ys) m ≡ true
unfolding starts_with
starts_with-append xs ys [] h = refl
starts_with-append [] ys (m ∷ ms) h = cc
starts_with-append (x ∷ xs) ys (m ∷ ms) h = ground (arith, starts_with-append xs ys ms)

rfind-none :
    (x : ℕ) (xs m : List ℕ)
    → rfind (x ∷ xs) m ≡ none
    → (rfind xs m ≡ none) × (starts_with (x ∷ xs) m ≡ false)
unfolding rfind
rfind-none x xs m h = elim (Option-cases (rfind xs m)) [
  | inr (i, at) ↦ let n : ℕ = suc i in let bad : some n ≡ none = rw at at h in cc
  | inl absent ↦ elim (Bool-cases (starts_with (x ∷ xs) m)) [
    | inl here ↦ let n : ℕ = 0 in let bad : some n ≡ none = rw (absent, here) at h in cc
    | inr not_here ↦ (absent, not_here)
  ]
]

rfind-append :
    (xs ys m : List ℕ) → (length m == 0) ≡ false → rfind (xs ++ ys) m ≡ none → rfind xs m ≡ none
unfolding rfind
rfind-append [] ys m some_byte h = rw some_byte
rfind-append (x ∷ xs) ys m some_byte h =
    let (later, here) = rfind-none x (xs ++ ys) m h in
    elim (Bool-cases (starts_with (x ∷ xs) m)) [
      | inl starts ↦ let bad = starts_with-append (x ∷ xs) ys m starts in cc
      | inr not_here ↦ rw (rfind-append xs ys m some_byte later, not_here)
    ]

best_end-some : (text : List ℕ) (ms : List (List ℕ)) (b : ℕ) → best_end text ms (some b) ≢ none
unfolding best_end
best_end-some text [] b h = cc
best_end-some text (m ∷ ms) b h = elim (Option-cases (rfind text m)) [
  | inl absent ↦ best_end-some text ms b (rw absent at h)
  | inr (i, at) ↦ best_end-some text ms _ (rw at at h)
]

best_end-none :
    (text : List ℕ) (ms : List (List ℕ))
    → best_end text ms none ≡ none
    → All (λ m. rfind text m ≡ none) ms
unfolding best_end
best_end-none text [] h = tt
best_end-none text (m ∷ ms) h = elim (Option-cases (rfind text m)) [
  | inl absent ↦ (absent, best_end-none text ms (rw absent at h))
  | inr (i, at) ↦ absurd (best_end-some text ms (i + length m) (rw at at h))
]

none-best_end :
    (text : List ℕ) (ms : List (List ℕ))
    → All (λ m. rfind text m ≡ none) ms
    → best_end text ms none ≡ none
unfolding best_end
none-best_end text [] h = refl
none-best_end text (m ∷ ms) (absent, h) = rw absent (none-best_end text ms h)

-- A text that has no closing marker with something behind it has none without.
no_closer :
    (text rest : List ℕ)
    → best_end (text ++ rest) closers none ≡ none
    → best_end text closers none ≡ none
no_closer text rest h =
    let (a, (b, (c, _))) = best_end-none (text ++ rest) closers h in
    none-best_end text closers (
      rfind-append text rest _ refl a,
      (rfind-append text rest _ refl b, (rfind-append text rest _ refl c, tt)),
    )

-- Without a closing marker in what is still to be sent, nothing is lost or changed.
run-concat :
    (cs : List (List ℕ)) (buf : List ℕ)
    → best_end (buf ++ concat cs) closers none ≡ none
    → run cs (record { passthrough = false; buf = buf }) ≡ buf ++ concat cs
unfolding run push flush
run-concat [] buf h = sym (append-nil buf)
run-concat (c ∷ cs) buf h =
    let all : best_end ((buf ++ c) ++ concat cs) closers none ≡ none =
      rw (append_assoc buf c (concat cs)) h in
    let assoc = append_assoc buf c (concat cs) in
    elim (Bool-cases (ltb max_buffer (length (buf ++ c)) && not (opened (buf ++ c) openers))) [
      | inl flushed ↦
          rw (no_closer (buf ++ c) (concat cs) all, flushed)
            (ap (λ t. (buf ++ c) ++ t) (run-open cs) ∙ assoc)
      | inr held ↦
          rw (no_closer (buf ++ c) (concat cs) all, held) (run-concat cs (buf ++ c) all ∙ assoc)
    ]

-- A reply without a closing marker is sent on in full and unchanged, however it is cut into deltas:
-- what the stream gives, its flush included, is the reply, and so is what the whole-reply stripper gives.
pub run-strip :
    (cs : List (List ℕ))
    → best_end (concat cs) closers none ≡ none
    → (run cs new ≡ concat cs) × (strip_thinking_channels (concat cs) ≡ concat cs)
unfolding new strip_thinking_channels
run-strip cs h = (run-concat cs [] h, rw (strip_thinking_channels, h) refl)
