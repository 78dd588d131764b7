-- ===== src/Gguf/File/Tensors.antt =====
-- Where the tensors of a loaded file lie, and what `tensor_data` returns.
use reinstinct.Base.{
  ℕ, ◌+◌, ◌-◌, ◌*◌, ◌/◌, ◌%◌, ◌^◌, ◌≤◌, ◌<◌, ◌≡◌, refl, ap, arith, true, false, ◌⊎◌, List, [], ◌∷◌,
  leb, le→ltb, length, length-take, length-drop, take, drop, some, ◌==◌, if◌then◌else◌, ok,
  >>=-eq-ok, ok_unique,
}
use mathlib.Core.Option
use mathlib.Core.List.{Mem, not-mem-nil, mem-cons}
use mathlib.Core.Logic.Or
use native.Mathlib.Bridge.{le_prop}
use native.Mathlib.Nat.{add-mul, div-add-mod', mod-lt, mul-mod_left, mod-eq_of_lt}
use reinstinct.Gguf.TensorInfo
use reinstinct.Gguf.TensorInfo.{TensorInfo}
use reinstinct.Gguf.File.{
  GgufFile, check_tensors, metadata_get, tensor, tensor_data, slice, align_up,
}
use reinstinct.Gguf.File.Index.{last_named, last_named-Mem}
use reinstinct.Gguf.File.Loaded.{IsLoaded, entry_key, tensor_name}

le→leb : (align : ℕ) → 1 < align → leb align 1 ≡ false
le→leb align h = ground arith

-- Rounding up by quotient and remainder.
round_up :
    (v align c : ℕ)
    → 1 < align
    → (c ≡ (if v % align == 0 then 0 else 1))
    → (v ≤ (v / align + c) * align) × ((v / align + c) * align < v + align)
round_up v align c h e =
    omega (arith, add-mul (v / align) c align, div-add-mod' v align, mod-lt v (lt_trans h), split)
  where
    lt_trans : 1 < align → 0 < align
    lt_trans k = omega arith

    split : ((v % align ≡ 0) × (c * align ≡ 0)) ⊎ ((0 < v % align) × (c * align ≡ align))
    split = ground arith

-- For `v` in the lower half of the u64 range and an alignment from 2 to 2 ^ 63, the result is the
-- least multiple of the alignment that is not below `v`: the sum does not wrap.
pub align_up_least :
    (v align : ℕ)
    → v < 2 ^ 63
    → align ≤ 2 ^ 63
    → 1 < align
    → (v ≤ align_up v align) × (align_up v align < v + align) × (align_up v align % align ≡ 0)
unfolding align_up
align_up_least v align hv ha h =
    let c : ℕ = if v % align == 0 then 0 else 1 in
    let u : ℕ = (v / align + c) * align in
    let (lo, hi) = round_up v align c h refl in
    let e : align_up v align ≡ u = rw (le→leb align h) (mod-eq_of_lt (omega (arith, hi))) in
    rw e (lo, hi, mul-mod_left (v / align + c) align)

module _ {mmap : List ℕ} {file : GgufFile} (loaded : IsLoaded mmap file) where
  -- A metadata lookup gives the value of the last entry with the key, and `None` where there is none.
  pub metadata_get-last :
      (key : List ℕ)
      → metadata_get file key
        ≡ ok (Option.map (λ (k, v). v) (last_named entry_key file.metadata key))
  unfolding metadata_get
  metadata_get-last key = rw (loaded.metadata.finds key)

  -- A tensor lookup gives the last descriptor of the name, and `None` where there is none.
  pub tensor-last :
      (name : List ℕ) → tensor file name ≡ ok (last_named tensor_name file.tensors name)
  unfolding tensor
  tensor-last name = loaded.tensors.finds name

check_step :
    (d n : ℕ) (u : TensorInfo) (us : List TensorInfo) (size : ℕ)
    → check_tensors d n (u ∷ us) ≡ ok tt
    → TensorInfo.byte_size u ≡ ok size
    → (((d + u.offset) % 2 ^ 64 + size) % 2 ^ 64 ≤ n)
unfolding check_tensors
check_step d n u us size h e = ground arith

check_rest :
    (d n : ℕ) (u : TensorInfo) (us : List TensorInfo)
    → check_tensors d n (u ∷ us) ≡ ok tt
    → check_tensors d n us ≡ ok tt
unfolding check_tensors
check_rest d n u us h = let (size, e, rest) = >>=-eq-ok (TensorInfo.byte_size u) _ h in ground arith

-- A tensor that passed the check lies in the file, unless its end wraps around the u64 range.
pub check_tensors-inside :
    (data_offset file_len : ℕ) (ts : List TensorInfo) (t : TensorInfo) (size : ℕ)
    → check_tensors data_offset file_len ts ≡ ok tt
    → Mem t ts
    → TensorInfo.byte_size t ≡ ok size
    → (data_offset + t.offset) % 2 ^ 64 + size < 2 ^ 64
    → (data_offset + t.offset) % 2 ^ 64 + size ≤ file_len
check_tensors-inside d n [] t size h m e k = absurd (not-mem-nil m)
check_tensors-inside d n (u ∷ us) t size h m e k =
    Or.elim le_prop (mem-cons.0 m)
      (λ same. rw same (omega (arith, check_step d n u us size h (rw same at e), rw same at k)))
      (λ there. check_tensors-inside d n us t size (check_rest d n u us h) there e k)

-- The check lets a tensor pass whose start, the sum of the data section's offset and its own, is
-- past the u64 range, where what is left of the sum modulo 2 ^ 64, with the size added, is within
-- the file.
pub check_tensors_wraps :
    (data_offset file_len : ℕ) (t : TensorInfo) (size : ℕ)
    → TensorInfo.byte_size t ≡ ok size
    → 2 ^ 64 ≤ data_offset + t.offset
    → data_offset + t.offset + size ≤ 2 ^ 64 + file_len
    → file_len < 2 ^ 64
    → check_tensors data_offset file_len (t ∷ []) ≡ ok tt
unfolding check_tensors
check_tensors_wraps d n t size e lo hi short = rw e (rw (le→ltb n _ small))
  where
    small : ((d + t.offset) % 2 ^ 64 + size) % 2 ^ 64 ≤ n
    small = omega arith

slice_lem :
    (mmap : List ℕ) (start size : ℕ)
    → start + size < 2 ^ 64
    → start + size ≤ length mmap
    → slice mmap start ((start + size) % 2 ^ 64) ≡ ok (take size (drop start mmap))
unfolding slice
slice_lem mmap start size k h =
    let stop : (start + size) % 2 ^ 64 ≡ start + size = omega arith in
    let width : start + size - start ≡ size = omega arith in
    rw (
      stop,
      le→leb_true start (start + size) (omega arith),
      le→leb_true (start + size) (length mmap) h,
      width,
    )
  where
    le→leb_true : (a b : ℕ) → a ≤ b → leb a b ≡ true
    le→leb_true a b h = ground arith

length-slice :
    (mmap : List ℕ) (start size : ℕ)
    → start + size ≤ length mmap
    → length (take size (drop start mmap)) ≡ size
length-slice mmap start size h =
    omega (arith, length-take size (drop start mmap), length-drop start mmap)

module _ {mmap : List ℕ} {file : GgufFile} (loaded : IsLoaded mmap file) where
  -- On a loaded file the bytes of a tensor whose end does not wrap are the slice of the file at
  -- its offset, as long as the size of its descriptor: `tensor_data` neither panics nor cuts it.
  pub tensor_data_lem :
      (name : List ℕ) (t : TensorInfo) (size : ℕ)
      → tensor file name ≡ ok (some t)
      → TensorInfo.byte_size t ≡ ok size
      → (file.data_section_offset + t.offset) % 2 ^ 64 + size < 2 ^ 64
      → (bytes : List ℕ) × (tensor_data file name ≡ ok (some bytes))
        × (length bytes ≡ size)
        × (bytes ≡ take size (drop ((file.data_section_offset + t.offset) % 2 ^ 64) mmap))
  unfolding tensor_data
  tensor_data_lem name t size found e k = (
    take size (drop start mmap),
    rw (found, e, loaded.bytes, slice_lem mmap start size k inside),
    length-slice mmap start size inside,
    refl,
  )
    where
      start : ℕ
      start = (file.data_section_offset + t.offset) % 2 ^ 64

      is_tensor : Mem t file.tensors
      is_tensor =
          (last_named-Mem tensor_name file.tensors name
            (ok_unique (tensor file name) (tensor-last loaded name) found)).0

      inside : start + size ≤ length mmap
      inside = rw (ap length loaded.bytes) at (
          check_tensors-inside file.data_section_offset (length file.mmap) file.tensors t size
            loaded.checked is_tensor e k)
