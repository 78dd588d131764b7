-- ===== src/SuperQuant/Tier.antt =====
-- A buffer that is filled from the front: src/runtime/kv_superquant.rs.
use reinstinct.Base.{
  ℕ, ◌+◌, ◌≤◌, ◌<◌, ◌≡◌, refl, sym, ap, ◌∙◌, arith, List, [], ◌∷◌, ◌++◌, append_assoc, length,
  length-append, length-drop, length-set, take, take-append, drop, set,
}
use reinstinct.SuperQuant.{copy_range}

-- A buffer of `cap` slots of which the first `count` hold `content`.
pub record Tier {A : Type 0} (buffer : List A) (cap count : ℕ) (content : List A) : Type 0 where
  pub unused : List A
  pub split : buffer ≡ content ++ unused
  pub counted : count ≡ length content
  pub sized : length buffer ≡ cap

set-append :
    {A : Type 0} (xs : List A) (y v : A) (ys : List A)
    → set (xs ++ (y ∷ ys)) (length xs) v ≡ xs ++ (v ∷ ys)
set-append [] y v ys = refl
set-append (x ∷ xs) y v ys = ap (λ zs. x ∷ zs) (set-append xs y v ys)

pub take_at : {A : Type 0} (xs ys : List A) (n : ℕ) → n ≡ length xs → take n (xs ++ ys) ≡ xs
take_at xs ys n e = rw e (take-append xs ys)

pub Tier-set :
    {A : Type 0} {b : List A} {cap n : ℕ} {xs : List A} (v : A)
    → Tier b cap n xs
    → n < cap
    → Tier (set b n v) cap (n + 1) (xs ++ (v ∷ []))
Tier-set {b = b} {cap} {n} {xs} v t lt = go t.unused t.split
  where
    go : (u : List _) → b ≡ xs ++ u → Tier (set b n v) cap (n + 1) (xs ++ (v ∷ []))
    go [] e = absurd (omega (arith, t.counted, t.sized, ap length e, length-append xs []))
    go (y ∷ ys) e = record {
      unused = ys;
      split = rw (e, t.counted) (set-append xs y v ys ∙ sym (append_assoc xs (v ∷ []) ys));
      counted = omega (arith, t.counted, length-append xs (v ∷ []));
      sized = length-set b n v ∙ t.sized;
    }

-- The buffer after its first `n` slots were overwritten by `xs`.
pub Tier-front :
    {A : Type 0} {cap : ℕ} (b xs : List A) (n k : ℕ)
    → k ≡ n
    → n ≡ length xs
    → length b ≡ cap
    → n ≤ cap
    → Tier (xs ++ drop k b) cap n xs
Tier-front b xs n k same e s le = record {
  unused = drop k b;
  split = refl;
  counted = e;
  sized = omega (arith, length-append xs (drop k b), length-drop k b);
}

-- The cold buffer after the slot `v` went behind its content.
pub Tier-push :
    {A : Type 0} {b : List A} {cap n : ℕ} {xs : List A} (v : A)
    → Tier b cap n xs
    → n + 1 ≤ cap
    → Tier (copy_range (v ∷ []) 0 n 1 b) cap (n + 1) (xs ++ (v ∷ []))
unfolding copy_range
Tier-push {b = b} {cap} {n} {xs} v t le = record {
  unused = drop (n + 1) b;
  split = rw (front) (sym (append_assoc xs (v ∷ []) (drop (n + 1) b)));
  counted = omega (arith, t.counted, length-append xs (v ∷ []));
  sized = omega (
    arith,
    t.counted,
    t.sized,
    ap length front,
    length-append (take n b) (v ∷ drop (n + 1) b),
    length-drop (n + 1) b,
  );
}
  where
    front : take n b ≡ xs
    front = rw t.split (take_at xs t.unused n t.counted)
