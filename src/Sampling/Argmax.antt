-- ===== src/Sampling/Argmax.antt =====
-- What the samplers of src/sampling.rs pick.
use reinstinct.Base.{
  ℕ, ◌+◌, ◌≡◌, refl, sym, arith, true, false, ◌&&◌, Bool-cases, inl, inr, ◌⊎◌, List, [], ◌∷◌, ◌++◌,
  ◌==◌, Outcome, append-nil, append_assoc, length-append, All-append, length, All, ok, panic,
}
use reinstinct.Base.Float.{Floats, IsOrdered}
use reinstinct.Sampling.{argmax_loop, first_max, argmax}

module _ (fl : Floats) where
  open fl use {F, neg_infinity, less, is_finite}

  -- No finite entry is above `m`.
  abbrev pub IsAbove : F → List F → Type 0
  IsAbove m xs = All (λ v. is_finite v ≡ true → less m v ≡ false) xs

  -- Every finite entry is below `m`.
  abbrev pub IsStrictlyAbove : F → List F → Type 0
  IsStrictlyAbove m xs = All (λ v. is_finite v ≡ true → less v m ≡ true) xs

  -- Entry `best` is the first of the greatest finite entries.
  pub record IsFirstMax (xs : List F) (best : ℕ) : Type 0 where
    pub front : List F
    pub value : F
    pub back : List F
    pub split : xs ≡ front ++ (value ∷ back)
    pub placed : best ≡ length front
    pub finite : is_finite value ≡ true
    pub before : IsStrictlyAbove value front
    pub after : IsAbove value back

  abbrev pub NoneFinite : List F → Type 0
  NoneFinite = All (λ v. is_finite v ≡ false)

  -- What `argmax` makes of a list of logits: a panic, or a pick.
  abbrev pub Picks {κ} : {E : Type κ} → List F → Outcome E ℕ → Type κ
  Picks [] m = m ≡ panic
  Picks {E = E} (x ∷ xs) m =
      (best : ℕ) × (m ≡ ok best) × (IsFirstMax (x ∷ xs) best ⊎ (NoneFinite (x ∷ xs) × (best ≡ 0)))

  none_below : (m : F) (xs : List F) → NoneFinite xs → IsStrictlyAbove m xs
  none_below m [] h = tt
  none_below m (x ∷ xs) (h, hs) = (λ k. cc, none_below m xs hs)

  module _ (ord : IsOrdered fl) where
    -- A greater finite entry is above all that went before.
    raise_front :
        (m v : F) (xs : List F) → less m v ≡ true → IsStrictlyAbove m xs → IsStrictlyAbove v xs
    raise_front m v [] h k = tt
    raise_front m v (x ∷ xs) h (k, ks) = (λ fin. ord.trans x m v (k fin) h, raise_front m v xs h ks)

    raise_mid :
        (m v : F) (xs : List F)
        → is_finite m ≡ true
        → is_finite v ≡ true
        → less m v ≡ true
        → IsAbove m xs
        → IsStrictlyAbove v xs
    raise_mid m v [] fm fv h k = tt
    raise_mid m v (x ∷ xs) fm fv h (k, ks) = (
      λ fin. elim (Bool-cases (less x v)) [
        | inl lt ↦ lt
        | inr ge ↦ cc (ord.neg_trans m x v fm fin fv (k fin) ge)
      ],
      raise_mid m v xs fm fv h ks,
    )

    argmax_from :
        (todo front mid : List F) (m : F) (i : ℕ)
        → i ≡ length (front ++ (m ∷ mid))
        → is_finite m ≡ true
        → IsStrictlyAbove m front
        → IsAbove m mid
        → IsFirstMax ((front ++ (m ∷ mid)) ++ todo) (argmax_loop fl todo i (length front) m)
    unfolding argmax_loop
    argmax_from [] front mid m i e fm hf hm = record {
      front = front;
      value = m;
      back = mid;
      split = append-nil (front ++ (m ∷ mid));
      placed = refl;
      finite = fm;
      before = hf;
      after = hm;
    }
    argmax_from (v ∷ todo) front mid m i e fm hf hm = elim (Bool-cases (is_finite v && less m v)) [
      | inl better ↦
          let fv : is_finite v ≡ true = ground arith in
          let up : less m v ≡ true = ground arith in
          let shape : (front ++ (m ∷ mid)) ++ (v ∷ todo)
              ≡ ((front ++ (m ∷ mid)) ++ (v ∷ [])) ++ todo =
            sym (append_assoc (front ++ (m ∷ mid)) (v ∷ []) todo) in
          rw (better, e, shape)
            (argmax_from todo (front ++ (m ∷ mid)) [] v (length (front ++ (m ∷ mid)) + 1)
              (sym (length-append (front ++ (m ∷ mid)) (v ∷ []))) fv
              (All-append (λ w. is_finite w ≡ true → less w v ≡ true) front (m ∷ mid)
                (raise_front m v front up hf) (λ _. up, raise_mid m v mid fm fv up hm))
              tt)
      | inr worse ↦
          let low : is_finite v ≡ true → less m v ≡ false = λ fv. ground arith in
          let shape : (front ++ (m ∷ mid)) ++ (v ∷ todo)
              ≡ (front ++ (m ∷ (mid ++ (v ∷ [])))) ++ todo =
            simp append_assoc refl in
          rw (worse, shape)
            (argmax_from todo front (mid ++ (v ∷ [])) m (i + 1)
              (omega (
                arith,
                e,
                length-append front (m ∷ mid),
                length-append front (m ∷ (mid ++ (v ∷ []))),
                length-append mid (v ∷ []),
              ))
              fm hf
              (All-append (λ w. is_finite w ≡ true → less m w ≡ false) mid (v ∷ []) hm (low, tt)))
    ]

    argmax_start :
        (todo past : List F) (i : ℕ)
        → i ≡ length past
        → NoneFinite past
        → IsFirstMax (past ++ todo) (argmax_loop fl todo i 0 neg_infinity)
          ⊎ (NoneFinite (past ++ todo) × (argmax_loop fl todo i 0 neg_infinity ≡ 0))
    unfolding argmax_loop
    argmax_start [] past i e h = inr (rw (append-nil past) h, refl)
    argmax_start (v ∷ todo) past i e h = elim (Bool-cases (is_finite v)) [
      | inl fv ↦ inl (
          rw (fv, ord.above v fv, e, sym (append_assoc past (v ∷ []) todo))
            (argmax_from todo past [] v (length past + 1) (sym (length-append past (v ∷ []))) fv
              (none_below v past h) tt))
      | inr nf ↦
          rw (nf, sym (append_assoc past (v ∷ []) todo))
            (argmax_start todo (past ++ (v ∷ [])) (i + 1)
              (omega (arith, length-append past (v ∷ [])))
              (All-append (λ w. is_finite w ≡ false) past (v ∷ []) h (nf, tt)))
    ]

    first_max-IsFirstMax :
        (logits : List F)
        → IsFirstMax logits (first_max fl logits) ⊎ (NoneFinite logits × (first_max fl logits ≡ 0))
    unfolding first_max
    first_max-IsFirstMax logits = argmax_start logits [] 0 refl tt

    -- The greedy pick panics where there are no logits; elsewhere it returns the first of the greatest
    -- finite logits, or 0 where no logit is finite.
    pub argmax-IsFirstMax {κ} :
        (E : Type κ) (logits : List F) → Picks logits (argmax fl {E = E} logits)
    unfolding argmax
    argmax-IsFirstMax E [] = refl
    argmax-IsFirstMax E (x ∷ xs) =
        let some_logit : (length (x ∷ xs) == 0) ≡ false = ground arith in
        rw some_logit (first_max fl (x ∷ xs), refl, first_max-IsFirstMax (x ∷ xs))
