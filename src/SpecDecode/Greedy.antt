-- ===== src/SpecDecode/Greedy.antt =====
-- What the device computes, and plain greedy decoding as the reference.
use reinstinct.Base.{
  ℕ, zero, suc, ◌≤◌, ◌≡◌, false, List, [], ◌∷◌, ◌++◌, length, take, ◌==◌, if◌then◌else◌, ok,
}
use reinstinct.Base.Float.{Floats}
use reinstinct.SpecDecode.{Engine}

-- The predictions behind each token of `ds`, fed after the history `h`.
abbrev pub along : {A : Type 0} → (List ℕ → A) → List ℕ → List ℕ → List A
along next h [] = []
along next h (d ∷ ds) = next (h ++ (d ∷ [])) ∷ along next (h ++ (d ∷ [])) ds

-- Plain greedy decoding of at most `n` tokens after the history `h`, up to the first `eos`, where
-- `best` gives the token of a history.
unfoldable pub greedy : (List ℕ → ℕ) → ℕ → ℕ → List ℕ → List ℕ
greedy best eos zero h = []
greedy best eos (suc n) h =
    let rest = greedy best eos n (h ++ (best h ∷ [])) in
    best h ∷ (if best h == eos then [] else rest)

-- The device computes one function of the tokens fed so far: a forward of one token, a batched
-- verify and a truncation of the cache agree with it, and neither they nor the drafter fail.
pub record IsModel {fl : Floats} {E : Type 0} (en : Engine fl E) : Type 0 where
  pub history : en.State → List ℕ
  pub next : List ℕ → List fl.F
  pub next_some : (h : List ℕ) → (length (next h) == 0) ≡ false
  pub position_law : (s : en.State) → en.position s ≡ length (history s)
  pub truncate_law :
      (n : ℕ) (s : en.State)
      → n ≤ length (history s)
      → history (en.truncate n s) ≡ take n (history s)
  pub forward_law :
      (t : ℕ) (s : en.State)
      → (s' : en.State) × (en.forward_token t s ≡ ok (next (history s ++ (t ∷ [])), s'))
        × (history s' ≡ history s ++ (t ∷ []))
  pub verify_law :
      (ds : List ℕ) (s : en.State)
      → (s' : en.State) × (en.verify_forward ds s ≡ ok (along next (history s) ds, s'))
        × (history s' ≡ history s ++ ds)
  pub graph_law :
      (ds : List ℕ) (s : en.State)
      → (s' : en.State) × (en.verify_via_graph ds s ≡ ok (along next (history s) ds, s'))
        × (history s' ≡ history s ++ ds)
  pub set_h_law : (s : en.State) (d : en.Drafter) → (d' : en.Drafter) × (en.set_h_prev s d ≡ ok d')
  pub draft_law :
      (s : en.State) (prev pos : ℕ) (d : en.Drafter)
      → (l : List fl.F) × (d' : en.Drafter) × (en.forward_step s prev pos d ≡ ok (l, d'))
        × ((length l == 0) ≡ false)
