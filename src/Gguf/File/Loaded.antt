-- ===== src/Gguf/File/Loaded.antt =====
-- What loading makes of any file: src/gguf/mod.rs.
use reinstinct.Base.{
  ℕ, zero, suc, ◌+◌, ◌<◌, ◌^◌, ◌≡◌, refl, sym, ap, ◌∙◌, arith, Bool, Bool-cases, inl, inr, ◌⊎◌,
  true, false, take, drop, Outcome, panic, ltb→le, List, [], ◌∷◌, ◌++◌, ltb, ◌%◌, length,
  length-append, ◌==◌, ok, Ensures, holds, rejected, Ensures-if, Ensures-self, Ensures-bind,
  Ensures-map,
}
use reinstinct.Base
use reinstinct.Gguf.Error.{GgufError}
use reinstinct.Gguf.Types.TryFrom.{value_try_from_u32, value_try_from_u32-Ensures}
use reinstinct.Gguf.Reader.{
  Reader, new, remaining, need, slice, read_array, from_le_bytes, read_unsigned,
}
use reinstinct.Gguf.Reader.Bounds.{
  IsIn, Moved, Moved-refl, Moved-trans, Moved-weaken, Moved-IsIn, Takes-lift, read_unsigned-Takes,
  remaining_lem, read_string-Takes,
}
use reinstinct.Gguf.Value.{MetaValue}
use reinstinct.Gguf.Value.Bounds.{read-Takes}
use reinstinct.Gguf.TensorInfo.{TensorInfo}
use reinstinct.Gguf.TensorInfo.Bounds.{parse-Takes, byte_size-Ensures}
use reinstinct.Gguf.File.{
  Index, Tables, GgufFile, read_metadata, read_tensors, check_tensors, find_alignment, finish,
  check_magic, check_version, read_tables, load_tables, from_mmap, gguf_magic, supported_version,
  alignment_key, alignment_of,
}
use reinstinct.Gguf.File.Index.{Indexes, Indexes-nil, Indexes-insert, last_named}

abbrev pub entry_key : List ℕ × MetaValue → List ℕ
entry_key (k, v) = k

abbrev pub tensor_name : TensorInfo → List ℕ
tensor_name t = t.name

-- The cursor moved on, and the index fits the entries.
record Collected {ℓ} {A : Type ℓ} (name : A → List ℕ) (r : Reader) (xs : List A) (index : Index)
    (r' : Reader) : Type ℓ where
  moved : Moved 0 r r'
  fits : Indexes name index xs

read_metadata-Ensures :
    (n i : ℕ) (xs : List (List ℕ × MetaValue)) (index : Index) {r : Reader}
    → IsIn r
    → i ≡ length xs
    → Indexes entry_key index xs
    → Ensures (λ (out, r'). Collected entry_key r out.0 out.1 r') (read_metadata n i xs index r)
unfolding read_metadata
read_metadata-Ensures zero i xs index h e f = holds (record { moved = Moved-refl h; fits = f })
read_metadata-Ensures (suc n) i xs index h e f = Ensures-bind (read_string-Takes h) λ (key, s) m.
    Ensures-bind (read_unsigned-Takes 4 (Moved-IsIn h m)) λ (raw, t) m'.
      let k = Moved-trans m m' in
      Ensures-bind
        (Takes-lift (value_try_from_u32 raw) (Moved-IsIn h k) (value_try_from_u32-Ensures raw))
        λ (vt, u) m2.
          let k2 = Moved-trans k m2 in
          Ensures-bind (read-Takes vt (Moved-IsIn h k2)) λ (value, v) m3.
            let k3 = Moved-trans k2 m3 in
            Ensures-map
              (read_metadata-Ensures n (i + 1) (xs ++ ((key, value) ∷ [])) _ (Moved-IsIn h k3)
                (pushed xs (key, value) e)
                (rw e (Indexes-insert entry_key index xs (key, value) f)))
              λ _ c. record {
                moved = Moved-weaken (omega arith) (Moved-trans k3 c.moved);
                fits = c.fits;
              }
  where
    pushed :
        {A : Type 0} {j : ℕ} (ys : List A) (y : A) → j ≡ length ys → j + 1 ≡ length (ys ++ (y ∷ []))
    pushed ys y q = omega (arith, q, length-append ys (y ∷ []))

read_tensors-Ensures :
    (n i : ℕ) (xs : List TensorInfo) (index : Index) {r : Reader}
    → IsIn r
    → i ≡ length xs
    → Indexes tensor_name index xs
    → Ensures (λ (out, r'). Collected tensor_name r out.0 out.1 r') (read_tensors n i xs index r)
unfolding read_tensors
read_tensors-Ensures zero i xs index h e f = holds (record { moved = Moved-refl h; fits = f })
read_tensors-Ensures (suc n) i xs index h e f = Ensures-bind (parse-Takes h) λ (info, s) m.
    Ensures-map
      (read_tensors-Ensures n (i + 1) (xs ++ (info ∷ [])) _ (Moved-IsIn h m) (pushed xs info e)
        (rw e (Indexes-insert tensor_name index xs info f)))
      λ _ c. record { moved = Moved-weaken (omega arith) (Moved-trans m c.moved); fits = c.fits }
  where
    pushed :
        {A : Type 0} {j : ℕ} (ys : List A) (y : A) → j ≡ length ys → j + 1 ≡ length (ys ++ (y ∷ []))
    pushed ys y q = omega (arith, q, length-append ys (y ∷ []))

-- The tables as they are read: both indexes fit.
record IsIndexed (t : Tables) : Type 0 where
  metadata : Indexes entry_key t.metadata_index t.metadata
  tensors : Indexes tensor_name t.tensor_index t.tensors

-- What a loaded file promises.
pub record IsLoaded (mmap : List ℕ) (file : GgufFile) : Type 0 where
  pub bytes : file.mmap ≡ mmap
  pub metadata : Indexes entry_key file.metadata_index file.metadata
  pub tensors : Indexes tensor_name file.tensor_index file.tensors
  pub checked : check_tensors file.data_section_offset (length file.mmap) file.tensors ≡ ok tt

check_tensors-Ensures :
    (data_offset file_len : ℕ) (ts : List TensorInfo)
    → Ensures (λ _. Unit {0}) (check_tensors data_offset file_len ts)
unfolding check_tensors
check_tensors-Ensures d n [] = holds tt
check_tensors-Ensures d n (t ∷ ts) = Ensures-bind (byte_size-Ensures t) λ size _.
    Ensures-if (ltb n (((d + t.offset) % 2 ^ 64 + size) % 2 ^ 64)) (λ _. rejected)
      (λ _. check_tensors-Ensures d n ts)

find_alignment_ok :
    (t : Tables) → IsIndexed t → (a : ℕ) × (find_alignment t.metadata t.metadata_index ≡ ok a)
unfolding find_alignment
find_alignment_ok t h = (
  alignment_of (last_named entry_key t.metadata alignment_key),
  rw (h.metadata.finds alignment_key),
)

finish-Ensures :
    (mmap : List ℕ) (t : Tables) (position : ℕ)
    → IsIndexed t
    → Ensures (IsLoaded mmap) (finish mmap t position)
unfolding finish
finish-Ensures mmap t position h =
    let (a, e) = find_alignment_ok t h in
    rw e (
      Ensures-bind (Ensures-self (check_tensors-Ensures _ (length mmap) t.tensors)) λ _ c.
        holds (record { bytes = refl; metadata = h.metadata; tensors = h.tensors; checked = c }))

-- `n` bytes read as a number, and the cursor behind them.
record Exact (n : ℕ) (r : Reader) (v : ℕ) (r' : Reader) : Type 0 where
  moved : Moved n r r'
  value : v ≡ from_le_bytes (take n (drop r.position r.buf))
  behind : r'.position ≡ r.position + n

read_unsigned-Exact :
    (n : ℕ) {r : Reader} → IsIn r → Ensures (λ (v, r'). Exact n r v r') (read_unsigned n r)
unfolding read_unsigned read_array need slice
read_unsigned-Exact n {r} h = elim (Bool-cases (ltb (remaining r) n)) [
  | inl short ↦ rw short rejected
  | inr fits ↦ rw fits (
      holds (record {
        moved = record {
          same = refl;
          forward = omega arith;
          inside = omega (arith, remaining_lem h, h.within, ltb→le (remaining r) n fits);
        };
        value = refl;
        behind = refl;
      }))
]

abbrev Stays : Reader → Reader → Type 0
Stays r r' = Moved 0 r r' × (r'.position ≡ r.position)

check_magic-Stays :
    (magic : ℕ) {r : Reader} → IsIn r → Ensures (λ (_, r'). Stays r r') (check_magic magic r)
check_magic-Stays magic h =
    Ensures-if (magic == gguf_magic) (λ _. holds (Moved-refl h, refl)) (λ _. rejected)

check_version-Stays :
    (v : ℕ) {r : Reader} → IsIn r → Ensures (λ (_, r'). Stays r r') (check_version v r)
check_version-Stays v h =
    Ensures-if (v == supported_version) (λ _. holds (Moved-refl h, refl)) (λ _. rejected)

start : (mmap : List ℕ) → length mmap < 2 ^ 64 → IsIn (new mmap)
unfolding new
start mmap short = record { within = omega arith; addressable = short }

-- A run returns an error or a value of which `P` holds, or it panics where `S` holds.
data Returns {A : Type 0} (P : A → Type 0) (S : Type 0) : Outcome GgufError A → Type 0 where
  returns : {m : Outcome GgufError A} → Ensures P m → Returns P S m
  panics : S → Returns P S panic

module _ {A B : Type 0} {P : A → Type 0} {Q : B → Type 0} {S : Type 0} where
  Returns-bind :
      {m : Outcome GgufError A} {f : A → Outcome GgufError B}
      → Ensures P m
      → ((a : A) → P a → Returns Q S (f a))
      → Returns Q S (Base.◌>>=◌ m f)
  Returns-bind (holds {a} h) k = k a h
  Returns-bind rejected k = returns rejected

  Returns-then :
      {m : Outcome GgufError A} {f : A → Outcome GgufError B}
      → Returns P S m
      → ((a : A) → P a → Ensures Q (f a))
      → Returns Q S (Base.◌>>=◌ m f)
  Returns-then (returns e) k = returns (Ensures-bind e k)
  Returns-then (panics s) k = panics s

-- The two counts, where the header holds them.
abbrev pub tensor_count_of : List ℕ → ℕ
tensor_count_of mmap = from_le_bytes (take 8 (drop 8 mmap))

abbrev pub kv_count_of : List ℕ → ℕ
kv_count_of mmap = from_le_bytes (take 8 (drop 16 mmap))

module _ (reserves_entries reserves_tensors : ℕ → Bool) where
  -- One of the counts of a file is too large for its table.
  abbrev pub IsTooLarge : List ℕ → Type 0
  IsTooLarge mmap =
      (reserves_entries (kv_count_of mmap) ≡ false)
      ⊎ (reserves_tensors (tensor_count_of mmap) ≡ false)

  -- What loading makes of the bytes of a file.
  abbrev pub Loads : List ℕ → Outcome GgufError GgufFile → Type 0
  Loads mmap m = Ensures (IsLoaded mmap) m ⊎ ((m ≡ panic) × IsTooLarge mmap)

  read_tables-Returns :
      {S : Type 0} (version tensor_count kv_count : ℕ) {r : Reader}
      → (reserves_entries kv_count ≡ false → S)
      → (reserves_tensors tensor_count ≡ false → S)
      → IsIn r
      → Returns
          (λ (t, _). IsIndexed t)
          S
          (read_tables reserves_entries reserves_tensors version tensor_count kv_count r)
  unfolding read_tables
  read_tables-Returns version tensor_count kv_count no_entries no_tensors h =
      elim (Bool-cases (reserves_entries kv_count)) [
        | inr full ↦ rw full (panics (no_entries full))
        | inl room ↦ rw room (
            Returns-bind (read_metadata-Ensures kv_count 0 [] [] h refl (Indexes-nil entry_key))
              λ ((xs, ix), s) c. elim (Bool-cases (reserves_tensors tensor_count)) [
                | inr full ↦ rw full (panics (no_tensors full))
                | inl more_room ↦ rw more_room (
                    returns (
                      Ensures-bind
                        (read_tensors-Ensures tensor_count 0 [] [] (Moved-IsIn h c.moved) refl
                          (Indexes-nil tensor_name))
                        λ ((ts, it), v) d. holds (record { metadata = c.fits; tensors = d.fits })))
              ])
      ]

  load_tables-Returns :
      (mmap : List ℕ)
      → length mmap < 2 ^ 64
      → Returns
          (λ (t, _). IsIndexed t)
          (IsTooLarge mmap)
          (load_tables reserves_entries reserves_tensors (new mmap))
  unfolding load_tables new
  load_tables-Returns mmap short =
      let h = start mmap short in
      Returns-bind (read_unsigned-Exact 4 h) λ (magic, s) x.
        Returns-bind (check_magic-Stays magic (Moved-IsIn h x.moved)) λ (_, t) (m2, p2).
          let k = Moved-trans x.moved m2 in
          Returns-bind (read_unsigned-Exact 4 (Moved-IsIn h k)) λ (version, u) y.
            let k3 = Moved-trans k y.moved in
            Returns-bind (check_version-Stays version (Moved-IsIn h k3)) λ (_, v) (m4, p4).
              let k4 = Moved-trans k3 m4 in
              let at_8 : v.position ≡ 8 = omega (arith, x.behind, p2, y.behind, p4) in
              Returns-bind (read_unsigned-Exact 8 (Moved-IsIn h k4)) λ (tensor_count, w) z.
                let k5 = Moved-trans k4 z.moved in
                let at_16 : w.position ≡ 16 = omega (arith, at_8, z.behind) in
                Returns-bind (read_unsigned-Exact 8 (Moved-IsIn h k5)) λ (kv_count, q) e.
                  let tensors : tensor_count ≡ tensor_count_of mmap =
                    z.value
                    ∙ ap (λ p. from_le_bytes (take 8 (drop p v.buf))) at_8
                    ∙ ap (λ b. from_le_bytes (take 8 (drop 8 b))) k4.same in
                  let entries : kv_count ≡ kv_count_of mmap =
                    e.value
                    ∙ ap (λ p. from_le_bytes (take 8 (drop p w.buf))) at_16
                    ∙ ap (λ b. from_le_bytes (take 8 (drop 16 b))) k5.same in
                  read_tables-Returns version tensor_count kv_count
                    (λ full. inl (ap reserves_entries (sym entries) ∙ full))
                    (λ full. inr (ap reserves_tensors (sym tensors) ∙ full))
                    (Moved-IsIn h (Moved-trans k5 e.moved))

  -- Loading returns on every sequence of bytes that fits the address space, unless one of the two
  -- counts of the header is too large for its table, where it may panic. It reports an error or gives
  -- a file whose bytes are those, whose two indexes find the last entry of each name, and whose
  -- tensors have all passed the check of their offsets.
  pub from_mmap-IsLoaded :
      (mmap : List ℕ)
      → length mmap < 2 ^ 64
      → Loads mmap (from_mmap reserves_entries reserves_tensors mmap)
  unfolding from_mmap
  from_mmap-IsLoaded mmap short =
      outcome (
        Returns-then (load_tables-Returns mmap short)
          λ (t, r) h. finish-Ensures mmap t r.position h)
    where
      outcome :
          {m : Outcome GgufError GgufFile}
          → Returns (IsLoaded mmap) (IsTooLarge mmap) m
          → Loads mmap m
      outcome (returns e) = inl e
      outcome (panics s) = inr (refl, s)
