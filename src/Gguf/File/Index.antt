-- ===== src/Gguf/File/Index.antt =====
-- Lookups through an index by name: src/gguf/mod.rs.
use reinstinct.Base.{
  ℕ, zero, suc, ◌≡◌, refl, ◌∙◌, arith, true, Bool-cases, Option-cases, Option, some, none, inl, inr,
  List, [], ◌∷◌, ◌++◌, length, if◌then◌else◌, ok,
}
use mathlib.Core.List.{Mem, mem-cons_self, mem-cons_of_mem}
use mathlib.Core.Path.{subst}
use reinstinct.Gguf.File.{Index, text_eq, index_get, index_insert, at, at_found, indexed}

module _ {ℓ} {A : Type ℓ} where
  abbrev pub or_else : Option A → Option A → Option A
  or_else (some x) o = some x
  or_else none o = o

module _ {ℓ} {A : Type ℓ} (name : A → List ℕ) where
  unfoldable pub last_named : List A → List ℕ → Option A
  last_named [] key = none
  last_named (x ∷ xs) key =
      or_else (last_named xs key) (if text_eq (name x) key then some x else none)

  -- What is found is an entry, and of the name that was asked for.
  pub last_named-Mem :
      (xs : List A) (key : List ℕ) {x : A}
      → last_named xs key ≡ some x
      → Mem x xs × (text_eq (name x) key ≡ true)
  unfolding last_named
  last_named-Mem [] key h = cc
  last_named-Mem (y ∷ ys) key {x} h = elim (Option-cases (last_named ys key)) [
    | inl nothing ↦ elim (Bool-cases (text_eq (name y) key)) [
      | inl same ↦
          let e : y ≡ x = cc (rw (nothing, same) at h) in
          subst (λ z. Mem z (y ∷ ys) × (text_eq (name z) key ≡ true)) e (mem-cons_self, same)
      | inr other ↦ cc (rw (nothing, other) at h)
    ]
    | inr (z, found) ↦
        let e : last_named ys key ≡ some x = found ∙ (rw found at h) in
        let (m, same) = last_named-Mem ys key e in (mem-cons_of_mem y m, same)
  ]

  last_named-append :
      (xs : List A) (x : A) (key : List ℕ)
      → last_named (xs ++ (x ∷ [])) key
        ≡ (if text_eq (name x) key then some x else last_named xs key)
  unfolding last_named
  last_named-append [] x key = ground arith
  last_named-append (y ∷ ys) x key = ground (arith, last_named-append ys x key)

  -- The index gives, for each name, the last of the entries.
  pub record Indexes (index : Index) (xs : List A) : Type ℓ where
    pub finds : (key : List ℕ) → indexed index xs key ≡ ok (last_named xs key)

at_found-append {ℓ} :
    {A : Type ℓ} (xs ys : List A) (i : Option ℕ) {o : Option A}
    → at_found xs i ≡ ok o
    → at_found (xs ++ ys) i ≡ ok o
unfolding at
at_found-append xs ys none h = h
at_found-append [] ys (some i) h = cc
at_found-append (x ∷ xs) ys (some zero) h = h
at_found-append (x ∷ xs) ys (some (suc i)) h = at_found-append xs ys (some i) h

at-last {ℓ} : {A : Type ℓ} (xs : List A) (x : A) → at (xs ++ (x ∷ [])) (length xs) ≡ ok x
unfolding at
at-last [] x = refl
at-last (y ∷ xs) x = at-last xs x

indexed-insert {ℓ} :
    {A : Type ℓ} (index : Index) (xs : List A) (x : A) (n key : List ℕ)
    → indexed (index_insert n (length xs) index) (xs ++ (x ∷ [])) key
      ≡ (if text_eq n key then ok (some x) else indexed index (xs ++ (x ∷ [])) key)
unfolding indexed index_get
indexed-insert index xs x n key = elim (Bool-cases (text_eq n key)) [
  | inl same ↦ rw (same, at-last xs x)
  | inr other ↦ rw other
]

pub Indexes-nil {ℓ} : {A : Type ℓ} (name : A → List ℕ) → Indexes name [] []
unfolding indexed index_get last_named
Indexes-nil name = record { finds = λ key. refl }

-- Pushing an entry, with its position under its name.
pub Indexes-insert {ℓ} :
    {A : Type ℓ} (name : A → List ℕ) (index : Index) (xs : List A) (x : A)
    → Indexes name index xs
    → Indexes name (index_insert (name x) (length xs) index) (xs ++ (x ∷ []))
Indexes-insert name index xs x h = record {
  finds = λ key. elim (Bool-cases (text_eq (name x) key)) [
    | inl same ↦ rw (indexed-insert index xs x (name x) key, last_named-append name xs x key, same)
    | inr other ↦
        rw (indexed-insert index xs x (name x) key, last_named-append name xs x key, other)
          (unfold indexed in at_found-append xs (x ∷ []) (index_get index key) (h.finds key))
  ];
}
