-- ===== src/Gguf/File.antt =====
-- The loader itself: src/gguf/mod.rs. The mapped file is the list of its bytes.
pub mod Index
pub mod Tensors
pub mod Loaded
pub mod Image
use reinstinct.Base.{
  ℕ, zero, suc, ◌+◌, ◌-◌, ◌*◌, ◌/◌, ◌%◌, ◌^◌, Bool, true, false, not, ◌&&◌, Option, some, none,
  List, [], ◌∷◌, ◌++◌, ltb, leb, ◌==◌, if◌then◌else◌, take, drop, length, Outcome, ok, err, panic,
}
use reinstinct.Base
use mathlib.Core.Option
use mathlib.Core.Option.{get_or}
use reinstinct.Gguf.Types.TryFrom.{value_try_from_u32}
use reinstinct.Gguf.Error.{GgufError, bad_magic, unsupported_version, tensor_out_of_bounds}
use reinstinct.Gguf.Reader.{
  Reader, Parse, pure, lift, new, ◌>>=◌, ◌>>◌, read_u32, read_u64, read_string,
}
use reinstinct.Gguf.Value.{MetaValue, read}
use reinstinct.Gguf.Value.Coerce.{as_u64}
use reinstinct.Gguf.TensorInfo
use reinstinct.Gguf.TensorInfo.{TensorInfo}

abbrev pub gguf_magic : ℕ
gguf_magic = 0x4655_4747

abbrev pub supported_version : ℕ
supported_version = 3

abbrev pub default_alignment : ℕ
default_alignment = 32

pub record Header : Type 0 where
  pub version : ℕ
  pub tensor_count : ℕ
  pub metadata_kv_count : ℕ

-- A `HashMap<String, usize>`: an insertion covers an older entry of the same key.
abbrev pub Index : Type 0
Index = List (List ℕ × ℕ)

unfoldable pub text_eq : List ℕ → List ℕ → Bool
text_eq [] [] = true
text_eq (a ∷ as') (b ∷ bs) = a == b && text_eq as' bs
text_eq _ _ = false

unfoldable pub index_get : Index → List ℕ → Option ℕ
index_get [] key = none
index_get ((k, i) ∷ m) key = if text_eq k key then some i else index_get m key

abbrev pub index_insert : List ℕ → ℕ → Index → Index
index_insert key i m = (key, i) ∷ m

pub record GgufFile : Type 0 where
  pub mmap : List ℕ
  pub header : Header
  pub metadata : List (List ℕ × MetaValue)
  pub metadata_index : Index
  pub tensors : List TensorInfo
  pub tensor_index : Index
  pub alignment : ℕ
  pub data_section_offset : ℕ

-- On u64, where `v.div_ceil(align)` rounds up.
unfoldable pub align_up : ℕ → ℕ → ℕ
align_up v align =
    if leb align 1 then v else (v / align + (if v % align == 0 then 0 else 1)) * align % 2 ^ 64

-- `for i in 0..metadata_kv_count`, from round `i` on; the entries are those pushed so far, newest last.
unfoldable pub read_metadata :
    ℕ → ℕ → List (List ℕ × MetaValue) → Index → Parse (List (List ℕ × MetaValue) × Index)
read_metadata zero i entries index = pure (entries, index)
read_metadata (suc n) i entries index = do
  key ← read_string
  vt_raw ← read_u32
  vt ← lift (value_try_from_u32 vt_raw)
  value ← read vt
  read_metadata n (i + 1) (entries ++ ((key, value) ∷ [])) (index_insert key i index)

unfoldable pub read_tensors : ℕ → ℕ → List TensorInfo → Index → Parse (List TensorInfo × Index)
read_tensors zero i tensors index = pure (tensors, index)
read_tensors (suc n) i tensors index = do
  info ← TensorInfo.parse
  read_tensors n (i + 1) (tensors ++ (info ∷ [])) (index_insert info.name i index)

-- `"general.alignment"`
abbrev alignment_key : List ℕ
alignment_key =
    0x67 ∷ 0x65 ∷ 0x6e ∷ 0x65 ∷ 0x72 ∷ 0x61 ∷ 0x6c ∷ 0x2e ∷ 0x61 ∷ 0x6c ∷ 0x69 ∷ 0x67 ∷ 0x6e ∷ 0x6d
    ∷ 0x65 ∷ 0x6e ∷ 0x74 ∷ []

-- `&xs[i]`, which panics out of range.
unfoldable pub at {ℓ} : {A : Type ℓ} → List A → ℕ → Outcome GgufError A
at [] i = panic
at (x ∷ xs) zero = ok x
at (x ∷ xs) (suc i) = at xs i

-- `index.get(key).map(|&i| &xs[i])`
abbrev pub at_found {ℓ} : {A : Type ℓ} → List A → Option ℕ → Outcome GgufError (Option A)
at_found xs none = ok none
at_found xs (some i) = Base.◌>>=◌ (at xs i) λ x. ok (some x)

unfoldable pub indexed {ℓ} : {A : Type ℓ} → Index → List A → List ℕ → Outcome GgufError (Option A)
indexed index xs key = at_found xs (index_get index key)

-- `.and_then(|&i| metadata[i].1.as_u64()).unwrap_or(DEFAULT_ALIGNMENT)`
abbrev pub alignment_of : Option (List ℕ × MetaValue) → ℕ
alignment_of none = default_alignment
alignment_of (some (k, v)) = get_or (as_u64 v) default_alignment

unfoldable pub find_alignment : List (List ℕ × MetaValue) → Index → Outcome GgufError ℕ
unfolding indexed
find_alignment metadata index =
    Base.◌>>=◌ (indexed index metadata alignment_key) λ entry. ok (alignment_of entry)

-- The loop `for t in &tensors`, with u64 sums that wrap.
unfoldable pub check_tensors : ℕ → ℕ → List TensorInfo → Outcome GgufError (Unit {0})
check_tensors data_section_offset file_len [] = ok tt
check_tensors data_section_offset file_len (t ∷ ts) = Base.◌>>=◌ (TensorInfo.byte_size t) λ size.
    let abs_offset = (data_section_offset + t.offset) % 2 ^ 64 in
    let rest = check_tensors data_section_offset file_len ts in
    if ltb file_len ((abs_offset + size) % 2 ^ 64)
    then err (tensor_out_of_bounds t.name abs_offset size file_len)
    else rest

-- What the header and the two tables of a file hold.
pub record Tables : Type 0 where
  pub header : Header
  pub metadata : List (List ℕ × MetaValue)
  pub metadata_index : Index
  pub tensors : List TensorInfo
  pub tensor_index : Index

abbrev check_magic : ℕ → Parse (Unit {0})
check_magic magic r = if magic == gguf_magic then ok (tt, r) else err (bad_magic magic)

abbrev check_version : ℕ → Parse (Unit {0})
check_version v r = if v == supported_version then ok (tt, r) else err (unsupported_version v)

-- The last part of `from_mmap`, behind the tables: `position` is where they end.
unfoldable pub finish : List ℕ → Tables → ℕ → Outcome GgufError GgufFile
finish mmap t position = Base.◌>>=◌ (find_alignment t.metadata t.metadata_index) λ alignment.
    let data_section_offset = align_up position alignment in
    Base.◌>>◌ (check_tensors data_section_offset (length mmap) t.tensors) (
      ok (record {
        mmap = mmap;
        header = t.header;
        metadata = t.metadata;
        metadata_index = t.metadata_index;
        tensors = t.tensors;
        tensor_index = t.tensor_index;
        alignment = alignment;
        data_section_offset = data_section_offset;
      }))

-- Reserving a table: `reserves n` says that its `Vec::with_capacity(n)` and its
-- `HashMap::with_capacity(n)` both return. They panic where the capacity, in entries of their size,
-- does not fit the address space.
abbrev pub reserve : (ℕ → Bool) → ℕ → Parse (Unit {0})
reserve reserves n r = if reserves n then ok (tt, r) else panic

-- The entries of the two tables differ in size.
module _ (reserves_entries reserves_tensors : ℕ → Bool) where
  -- The tables, once the two counts are known.
  unfoldable pub read_tables : ℕ → ℕ → ℕ → Parse Tables
  read_tables version tensor_count metadata_kv_count = do
    reserve reserves_entries metadata_kv_count
    (metadata, metadata_index) ← read_metadata metadata_kv_count 0 [] []
    reserve reserves_tensors tensor_count
    (tensors, tensor_index) ← read_tensors tensor_count 0 [] []
    pure (record {
      header = record {
        version = version;
        tensor_count = tensor_count;
        metadata_kv_count = metadata_kv_count;
      };
      metadata = metadata;
      metadata_index = metadata_index;
      tensors = tensors;
      tensor_index = tensor_index;
    })

  unfoldable pub load_tables : Parse Tables
  unfolding read_tables
  load_tables = do
    magic ← read_u32
    check_magic magic
    version ← read_u32
    check_version version
    tensor_count ← read_u64
    metadata_kv_count ← read_u64
    read_tables version tensor_count metadata_kv_count

  unfoldable pub from_mmap : List ℕ → Outcome GgufError GgufFile
  unfolding load_tables finish
  from_mmap mmap = Base.◌>>=◌ (load_tables (new mmap)) λ (t, r). finish mmap t r.position

unfoldable pub metadata_get : GgufFile → List ℕ → Outcome GgufError (Option MetaValue)
metadata_get file key =
    Base.◌>>=◌ (indexed file.metadata_index file.metadata key)
      λ entry. ok (Option.map (λ (k, v). v) entry)

unfoldable pub tensor : GgufFile → List ℕ → Outcome GgufError (Option TensorInfo)
tensor file name = indexed file.tensor_index file.tensors name

-- `&self.mmap[start..start + size]` panics where the range is inverted or passes the end.
unfoldable pub slice : List ℕ → ℕ → ℕ → Outcome GgufError (List ℕ)
slice mmap start stop =
    if leb start stop && leb stop (length mmap)
    then ok (take (stop - start) (drop start mmap))
    else panic

unfoldable pub tensor_data : GgufFile → List ℕ → Outcome GgufError (Option (List ℕ))
unfolding slice
tensor_data file name = Base.◌>>=◌ (tensor file name) λ found. elim found [
  | none ↦ ok none
  | some info ↦ Base.◌>>=◌ (TensorInfo.byte_size info) λ size.
      let start = (file.data_section_offset + info.offset) % 2 ^ 64 in
      Base.◌>>=◌ (slice file.mmap start ((start + size) % 2 ^ 64)) λ bytes. ok (some bytes)
]
