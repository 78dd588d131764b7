-- ===== src/Tokenizer/Vocab.antt =====
-- The vocabulary of src/tokenizer.rs: what is looked up is a token's position.
use reinstinct.Base.{
  ℕ, ◌+◌, ◌≤◌, ◌^◌, ◌%◌, ◌≡◌, refl, sym, ap, ◌∙◌, arith, Bool-cases, and_true, true, ◌==◌, ==_iff,
  inl, inr, some, List, [], ◌∷◌, ◌++◌, append_assoc, length, length-append, get_or,
}
use reinstinct.Gguf.File.{Index, text_eq, index_get, index_insert}
use reinstinct.Tokenizer.{Piece, vocab_of, unk}

pub text_eq_sound : (x y : List ℕ) → text_eq x y ≡ true → x ≡ y
unfolding text_eq
text_eq_sound [] [] h = refl
text_eq_sound [] (y ∷ ys) h = cc
text_eq_sound (x ∷ xs) [] h = cc
text_eq_sound (x ∷ xs) (y ∷ ys) h =
    let (a, b) = and_true (x == y) (text_eq xs ys) h in
    let same : x ≡ y = (==_iff x y).0 a in let rest = text_eq_sound xs ys b in cc

-- Every entry is a token at its position.
pub record IsSound (tokens : List Piece) (m : Index) : Type 0 where
  pub looks_up : (s : Piece) (id : ℕ) → index_get m s ≡ some id → get_or tokens id unk ≡ s

get_or-append :
    (front : List Piece) (s : Piece) (back : List Piece)
    → get_or (front ++ (s ∷ back)) (length front) unk ≡ s
get_or-append [] s back = refl
get_or-append (x ∷ front) s back = get_or-append front s back

IsSound-insert :
    (tokens : List Piece) (s : Piece) (id : ℕ) (m : Index)
    → get_or tokens id unk ≡ s
    → IsSound tokens m
    → IsSound tokens (index_insert s id m)
unfolding index_get
IsSound-insert tokens s id m at h = record {
  looks_up = λ x i e. elim (Bool-cases (text_eq s x)) [
    | inl same ↦
        let here : id ≡ i = cc (rw same at e) in
        ap (λ n. get_or tokens n unk) (sym here) ∙ at ∙ text_eq_sound s x same
    | inr other ↦ h.looks_up x i (rw other at e)
  ];
}

vocab_of_from-IsSound :
    (tokens front ts : List Piece) (id : ℕ) (m : Index)
    → tokens ≡ front ++ ts
    → id ≡ length front
    → length tokens ≤ 2 ^ 32
    → IsSound tokens m
    → IsSound tokens (vocab_of id ts m)
unfolding vocab_of
vocab_of_from-IsSound tokens front [] id m whole at few sound = sound
vocab_of_from-IsSound tokens front (s ∷ ts) id m whole at few sound =
    let split = whole ∙ sym (append_assoc front (s ∷ []) ts) in
    let next : id + 1 ≡ length (front ++ (s ∷ [])) = omega (arith, length-append front (s ∷ [])) in
    let small : id % 2 ^ 32 ≡ length front =
      omega (arith, ap length whole, length-append front (s ∷ ts)) in
    let here =
      ap (λ n. get_or tokens n unk) small
      ∙ ap (λ t. get_or t (length front) unk) whole
      ∙ get_or-append front s ts in
    vocab_of_from-IsSound tokens (front ++ (s ∷ [])) ts (id + 1) (index_insert s (id % 2 ^ 32) m)
      split next few (IsSound-insert tokens s (id % 2 ^ 32) m here sound)

-- With at most 2 ^ 32 tokens, what the vocabulary finds for a string is the position of that string.
pub vocab_of-IsSound :
    (tokens : List Piece) → length tokens ≤ 2 ^ 32 → IsSound tokens (vocab_of 0 tokens [])
unfolding index_get
vocab_of-IsSound tokens h =
    vocab_of_from-IsSound tokens [] tokens 0 [] refl refl h (record { looks_up = λ s id e. cc })
