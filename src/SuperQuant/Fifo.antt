-- ===== src/SuperQuant/Fifo.antt =====
-- The contents of the two tiers over a sequence of steps: src/runtime/kv_superquant.rs.
use reinstinct.Base.{
  ℕ, suc, ◌+◌, ◌-◌, ◌≤◌, ◌<◌, ◌≡◌, refl, sym, ap, ◌∙◌, arith, true, false, Bool-cases, inl, inr,
  List, [], ◌∷◌, ◌++◌, append-nil, append_assoc, map, length, length-append, take, drop, set, ltb,
  leb, ltb→lt, Outcome, ok, panic,
}
use reinstinct.SuperQuant.{
  Cache, SuperQuantConfig, copy_range, slide, total, demote_warm_to_cold, write_step, write_steps,
}
use reinstinct.SuperQuant.Tier.{Tier, take_at, Tier-set, Tier-front, Tier-push}

length-map : {A B : Type 0} (f : A → B) (xs : List A) → length (map f xs) ≡ length xs
length-map f [] = refl
length-map f (x ∷ xs) = ap suc (length-map f xs)

map-append :
    {A B : Type 0} (f : A → B) (xs : List A) (y : A)
    → map f xs ++ (f y ∷ []) ≡ map f (xs ++ (y ∷ []))
map-append f [] y = refl
map-append f (x ∷ xs) y = ap (λ zs. f x ∷ zs) (map-append f xs y)

take_split :
    {A : Type 0} {b : List A} {cap n : ℕ} (w : A) (ws : List A)
    → Tier b cap n (w ∷ ws)
    → take (n - 1) (drop 1 b) ≡ ws
take_split w ws t = rw t.split (take_at ws t.unused _ (omega (arith, t.counted)))

no_more : {A : Type 0} (ws : List A) → length ws ≡ 0 → ws ≡ []
no_more [] e = refl
no_more (x ∷ xs) e = absurd (omega arith)

-- A warm buffer after its first row left through a scratch buffer.
Tier-slide :
    {A : Type 0} {cap n : ℕ} (w : A) (ws b scratch : List A)
    → Tier b cap n (w ∷ ws)
    → Tier (copy_range (copy_range b 1 0 (n - 1) scratch) 0 0 (n - 1) b) cap (n - 1) ws
unfolding copy_range
Tier-slide {n = n} w ws b scratch t =
    let m = n - 1 in
    let behind : take m (drop 1 b) ≡ ws = take_split w ws t in
    let same : take m (ws ++ drop (0 + m) scratch) ≡ ws =
      take_at ws _ m (omega (arith, t.counted)) in
    rw (behind, same)
      (Tier-front b ws m (0 + m) (omega arith) (omega (arith, t.counted)) t.sized
        (omega (arith, t.counted, t.sized, ap length t.split, length-append ws t.unused)))

-- A warm buffer of one row after it left.
Tier-last :
    {A : Type 0} {cap n : ℕ} (w : A) (ws b : List A)
    → Tier b cap n (w ∷ ws)
    → ltb 0 (n - 1) ≡ false
    → Tier b cap (n - 1) ws
Tier-last w ws b t none_left = record {
  unused = b;
  split = ap (λ xs. xs ++ b) (sym (no_more ws (ground (arith, t.counted))));
  counted = ground (arith, t.counted);
  sized = t.sized;
}

-- The kernels do not fail: `quantise` gives the row `row x` and its scales, and a promotion makes one
-- cold row of each warm row and its scales.
module _ {Src Q S C E : Type 0} (quantise : Src → Outcome E (Q × S))
    (promote_k promote_v : List Q → List S → Outcome E (List C)) (row : Src → Q) (scales : Src → S)
    (pro_k pro_v : Q → S → C) (quantises : (x : Src) → quantise x ≡ ok (row x, scales x))
    (promotes_k : (xs : List Src)
      → promote_k (map row xs) (map scales xs) ≡ ok (map (λ x. pro_k (row x) (scales x)) xs))
    (promotes_v : (xs : List Src)
      → promote_v (map row xs) (map scales xs) ≡ ok (map (λ x. pro_v (row x) (scales x)) xs)) where
  -- A step is a key and a value.
  abbrev pub Step : Type 0
  Step = Src × Src

  abbrev row_k : Step → Q
  row_k x = row x.0

  abbrev row_v : Step → Q
  row_v x = row x.1

  abbrev scales_k : Step → S
  scales_k x = scales x.0

  abbrev scales_v : Step → S
  scales_v x = scales x.1

  abbrev old_k : Step → C
  old_k x = pro_k (row x.0) (scales x.0)

  abbrev old_v : Step → C
  old_v x = pro_v (row x.1) (scales x.1)

  -- The four warm buffers hold the rows and the scales of the steps.
  pub record WarmHolds (cap : ℕ) (steps : List Step) (c : Cache Q S C) : Type 0 where
    pub k : Tier c.warm_k cap c.warm_count (map row_k steps)
    pub ks : Tier c.warm_ks cap c.warm_count (map scales_k steps)
    pub v : Tier c.warm_v cap c.warm_count (map row_v steps)
    pub vs : Tier c.warm_vs cap c.warm_count (map scales_v steps)

  -- The two cold buffers hold the promoted steps.
  pub record ColdHolds (cap : ℕ) (steps : List Step) (c : Cache Q S C) : Type 0 where
    pub k : Tier c.cold_k cap c.cold_count (map old_k steps)
    pub v : Tier c.cold_v cap c.cold_count (map old_v steps)

  -- The cache holds the steps `old` in the cold tier and `recent` in the warm one, and nothing is
  -- cold before the warm tier is full.
  pub record Holds (config : SuperQuantConfig) (old recent : List Step) (c : Cache Q S C)
      : Type 0 where
    pub same : c.config ≡ config
    pub warm : WarmHolds config.warm_cap recent c
    pub cold : ColdHolds config.cold_cap old c
    pub fits : length recent ≤ config.warm_cap
    pub full_first : length old ≡ length old + length recent - config.warm_cap

  -- The warm tier after its first step left.
  WarmHolds-slide :
      {cap : ℕ} (x : Step) (xs : List Step) (c : Cache Q S C) (ck cv : List C) (cc : ℕ)
      → WarmHolds cap (x ∷ xs) c
      → WarmHolds cap xs (record (slide 1 c) {
        cold_k = ck;
        cold_v = cv;
        warm_count = c.warm_count - 1;
        cold_count = cc;
      })
  unfolding slide
  WarmHolds-slide x xs c ck cv cc t = elim (Bool-cases (ltb 0 (c.warm_count - 1))) [
    | inl some_left ↦ record {
      k = rw some_left (Tier-slide _ (map row_k xs) c.warm_k c.scratch_warm_q t.k);
      ks = rw some_left (Tier-slide _ (map scales_k xs) c.warm_ks c.scratch_warm_s t.ks);
      v = rw some_left (Tier-slide _ (map row_v xs) c.warm_v _ t.v);
      vs = rw some_left (Tier-slide _ (map scales_v xs) c.warm_vs _ t.vs);
    }
    | inr none_left ↦ record {
      k = rw none_left (Tier-last _ (map row_k xs) c.warm_k t.k none_left);
      ks = rw none_left (Tier-last _ (map scales_k xs) c.warm_ks t.ks none_left);
      v = rw none_left (Tier-last _ (map row_v xs) c.warm_v t.v none_left);
      vs = rw none_left (Tier-last _ (map scales_v xs) c.warm_vs t.vs none_left);
    }
  ]

  slide-config : (n : ℕ) (c : Cache Q S C) → (slide n c).config ≡ c.config
  unfolding slide
  slide-config n c = elim (Bool-cases (ltb 0 (c.warm_count - n))) [
    | inl some_left ↦ rw some_left refl
    | inr none_left ↦ rw none_left refl
  ]

  demote_one :
      (config : SuperQuantConfig) (old : List Step) (x : Step) (recent : List Step)
      (c : Cache Q S C)
      → c.config ≡ config
      → WarmHolds config.warm_cap (x ∷ recent) c
      → ColdHolds config.cold_cap old c
      → length old < config.cold_cap
      → (c' : Cache Q S C) × (demote_warm_to_cold quantise promote_k promote_v 1 c ≡ ok c')
        × (c'.config ≡ config)
        × WarmHolds config.warm_cap recent c'
        × ColdHolds config.cold_cap (old ++ (x ∷ [])) c'
  unfolding demote_warm_to_cold
  demote_one config old x recent c same warm cold room =
      let counted = cold.k.counted ∙ length-map old_k old in
      let first_k : take 1 c.warm_k ≡ row_k x ∷ [] = rw warm.k.split in
      let first_ks : take 1 c.warm_ks ≡ scales_k x ∷ [] = rw warm.ks.split in
      let first_v : take 1 c.warm_v ≡ row_v x ∷ [] = rw warm.v.split in
      let first_vs : take 1 c.warm_vs ≡ scales_v x ∷ [] = rw warm.vs.split in
      let has : leb 1 c.warm_count ≡ true = ground (arith, warm.k.counted) in
      let bound : leb (c.cold_count + 1) c.config.cold_cap ≡ true =
        rw same (ground (arith, counted)) in
      (
        record (slide 1 c) {
          cold_k = copy_range (old_k x ∷ []) 0 c.cold_count 1 c.cold_k;
          cold_v = copy_range (old_v x ∷ []) 0 c.cold_count 1 c.cold_v;
          warm_count = c.warm_count - 1;
          cold_count = c.cold_count + 1;
        },
        rw (
          has,
          bound,
          first_k,
          first_ks,
          first_v,
          first_vs,
          promotes_k (x.0 ∷ []),
          promotes_v (x.1 ∷ []),
        ),
        slide-config 1 c ∙ same,
        WarmHolds-slide x recent c _ _ _ warm,
        record {
          k = rw (← map-append old_k old x) (Tier-push (old_k x) cold.k (omega (arith, counted)));
          v = rw (← map-append old_v old x) (Tier-push (old_v x) cold.v (omega (arith, counted)));
        },
      )

  -- The cache after a step went behind its warm ones.
  abbrev stepped : Step → Cache Q S C → Cache Q S C
  stepped x c = record c {
    warm_k = set c.warm_k c.warm_count (row_k x);
    warm_ks = set c.warm_ks c.warm_count (scales_k x);
    warm_v = set c.warm_v c.warm_count (row_v x);
    warm_vs = set c.warm_vs c.warm_count (scales_v x);
    warm_count = c.warm_count + 1;
  }

  WarmHolds-stepped :
      {cap : ℕ} (xs : List Step) (x : Step) (c : Cache Q S C)
      → WarmHolds cap xs c
      → length xs < cap
      → WarmHolds cap (xs ++ (x ∷ [])) (stepped x c)
  WarmHolds-stepped {cap} xs x c h room =
      let lt : c.warm_count < cap = omega (arith, h.k.counted, length-map row_k xs) in
      record {
        k = rw (← map-append row_k xs x) (Tier-set (row_k x) h.k lt);
        ks = rw (← map-append scales_k xs x) (Tier-set (scales_k x) h.ks lt);
        v = rw (← map-append row_v xs x) (Tier-set (row_v x) h.v lt);
        vs = rw (← map-append scales_v xs x) (Tier-set (scales_v x) h.vs lt);
      }

  -- A step on a full warm tier demotes the oldest warm step first.
  write_full :
      (config : SuperQuantConfig) (old recent : List Step) (x : Step) (c : Cache Q S C)
      → 0 < config.warm_cap
      → Holds config old recent c
      → length recent ≡ config.warm_cap
      → length old < config.cold_cap
      → (c' : Cache Q S C) × (old' : List Step) × (recent' : List Step) × (write_step quantise
            promote_k promote_v x.0 x.1 c
          ≡ ok c')
        × (old' ++ recent' ≡ (old ++ recent) ++ (x ∷ []))
        × Holds config old' recent' c'
  unfolding write_step
  write_full config old [] x c some_warm h full room = absurd (omega arith)
  write_full config old (r ∷ recent) x c some_warm h full room =
      let (d, e, same, warm, cold) = demote_one config old r recent c h.same h.warm h.cold room in
      let is_full : leb c.config.warm_cap c.warm_count ≡ true =
        rw h.same (ground (arith, h.warm.k.counted, length-map row_k recent)) in
      (
        stepped x d,
        old ++ (r ∷ []),
        recent ++ (x ∷ []),
        rw (is_full, e, quantises x.0, quantises x.1),
        simp append_assoc refl,
        record {
          same = same;
          warm = WarmHolds-stepped recent x d warm (omega arith);
          cold = record { k = cold.k; v = cold.v };
          fits = omega (arith, length-append recent (x ∷ []));
          full_first = omega (arith, length-append recent (x ∷ []), length-append old (r ∷ []));
        },
      )

  write_room :
      (config : SuperQuantConfig) (old recent : List Step) (x : Step) (c : Cache Q S C)
      → Holds config old recent c
      → length recent < config.warm_cap
      → (c' : Cache Q S C) × (write_step quantise promote_k promote_v x.0 x.1 c ≡ ok c')
        × Holds config old (recent ++ (x ∷ [])) c'
  unfolding write_step
  write_room config old recent x c h room =
      let counted = h.warm.k.counted ∙ length-map row_k recent in
      let not_full : leb c.config.warm_cap c.warm_count ≡ false =
        rw h.same (ground (arith, counted)) in
      (
        stepped x c,
        rw (not_full, quantises x.0, quantises x.1),
        record {
          same = h.same;
          warm = WarmHolds-stepped recent x c h.warm room;
          cold = record { k = h.cold.k; v = h.cold.v };
          fits = omega (arith, length-append recent (x ∷ []));
          full_first = omega (arith, h.full_first, length-append recent (x ∷ []));
        },
      )

  write_step-Holds :
      (config : SuperQuantConfig) (old recent : List Step) (x : Step) (c : Cache Q S C)
      → 0 < config.warm_cap
      → Holds config old recent c
      → length old + length recent < config.warm_cap + config.cold_cap
      → (c' : Cache Q S C) × (old' : List Step) × (recent' : List Step) × (write_step quantise
            promote_k promote_v x.0 x.1 c
          ≡ ok c')
        × (old' ++ recent' ≡ (old ++ recent) ++ (x ∷ []))
        × Holds config old' recent' c'
  write_step-Holds config old recent x c some_warm h room =
      elim (Bool-cases (ltb (length recent) config.warm_cap)) [
        | inl lt ↦
            let (c', e, h') = write_room config old recent x c h (ltb→lt _ _ lt) in
            (c', old, recent ++ (x ∷ []), e, sym (append_assoc old recent (x ∷ [])), h')
        | inr ge ↦
            let full : length recent ≡ config.warm_cap = ground (arith, h.fits) in
            write_full config old recent x c some_warm h full (omega arith)
      ]

  -- From a cache that holds `old` and `recent`, steps that fit the two tiers are all written, and the
  -- cache then holds the whole history in order: its newest steps warm, all before them cold. It
  -- needs a warm tier and kernels that do not fail.
  pub write_steps-Holds :
      (config : SuperQuantConfig) (xs old recent : List Step) (c : Cache Q S C)
      → 0 < config.warm_cap
      → Holds config old recent c
      → length old + length recent + length xs ≤ total config
      → (c' : Cache Q S C) × (old' : List Step) × (recent' : List Step) × (write_steps quantise
            promote_k promote_v xs c
          ≡ ok c')
        × (old' ++ recent' ≡ (old ++ recent) ++ xs)
        × Holds config old' recent' c'
  unfolding write_steps total
  write_steps-Holds config [] old recent c some_warm h room =
      (c, old, recent, refl, sym (append-nil (old ++ recent)), h)
  write_steps-Holds config (x ∷ xs) old recent c some_warm h room =
      let (c1, old1, recent1, e1, s1, h1) =
        write_step-Holds config old recent x c some_warm h (omega arith) in
      let len = ap length s1 in
      let (c2, old2, recent2, e2, s2, h2) =
        write_steps-Holds config xs old1 recent1 c1 some_warm h1 (
          omega (
            arith,
            len,
            length-append old1 recent1,
            length-append (old ++ recent) (x ∷ []),
            length-append old recent,
          )) in
      (
        c2,
        old2,
        recent2,
        rw e1 e2,
        s2 ∙ ap (λ zs. zs ++ xs) s1 ∙ append_assoc (old ++ recent) (x ∷ []) xs,
        h2,
      )

  -- On full tiers a step panics: the cache does not overwrite the oldest position.
  pub write_step-panic :
      (config : SuperQuantConfig) (old recent : List Step) (x : Step) (c : Cache Q S C)
      → Holds config old recent c
      → length recent ≡ config.warm_cap
      → length old ≡ config.cold_cap
      → write_step quantise promote_k promote_v x.0 x.1 c ≡ panic
  unfolding write_step demote_warm_to_cold
  write_step-panic config old recent x c h full cold_full =
      let warm_full : leb c.config.warm_cap c.warm_count ≡ true =
        rw h.same (ground (arith, h.warm.k.counted, length-map row_k recent)) in
      let no_room : leb (c.cold_count + 1) c.config.cold_cap ≡ false =
        rw h.same (ground (arith, h.cold.k.counted, length-map old_k old)) in
      elim (Bool-cases (leb 1 c.warm_count)) [
        | inl some_warm ↦ rw (warm_full, some_warm, no_room)
        | inr empty ↦ rw (warm_full, empty)
      ]
