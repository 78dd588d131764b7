-- ===== src/Gguf/File/Image.antt =====
-- A whole GGUF v3 file as its writer lays it out, and loading it: src/gguf/mod.rs.
use reinstinct.Base.{
  ℕ, ◌+◌, ◌<◌, ◌^◌, ◌≡◌, refl, ap, arith, Bool, true, false, List, [], ◌∷◌, ◌++◌, append-nil,
  append_assoc, length, length-append, map, All, ok, panic,
}
use mathlib.Core.Path.{subst₂}
use reinstinct.Base.Utf8.{is_utf8}
use reinstinct.Gguf.Types.{GgmlType, value_discriminant}
use reinstinct.Gguf.Types.TryFrom.{value_try_from_u32, value_try_from_u32-discriminant}
use reinstinct.Gguf.Reader.{Parse, lift, new, ◌>>=◌, read_u32, read_u64, read_string}
use reinstinct.Gguf.Reader.Words.{le_bytes, length-le_bytes}
use reinstinct.Gguf.Reader.RoundTrip.{
  lengths, Reads, Reads-pure, Reads-bind, Reads-lift, cursor, read_unsigned-Reads,
  read_string-Reads, string_bytes,
}
use reinstinct.Gguf.Value.{MetaValue, read}
use reinstinct.Gguf.Value.RoundTrip.{type_of, value_bytes, IsEncodable, read-Reads, discriminant-lt}
use reinstinct.Gguf.TensorInfo
use reinstinct.Gguf.TensorInfo.{TensorInfo}
use reinstinct.Gguf.TensorInfo.RoundTrip.{with_shape, info_bytes, IsWritable, parse-Reads}
use reinstinct.Gguf.File.{
  Index, Tables, index_insert, read_metadata, read_tensors, read_tables, load_tables, check_magic,
  check_version, from_mmap, finish, GgufFile, check_tensors, find_alignment, alignment_key,
  alignment_of, align_up, gguf_magic, supported_version,
}
use reinstinct.Gguf.File.Index.{Indexes, Indexes-nil, Indexes-insert, last_named}
use reinstinct.Gguf.File.Loaded.{entry_key, tensor_name}

abbrev pub Entry : Type 0
Entry = List ℕ × MetaValue

-- A tensor as it is written: its name, type, shape and offset.
pub record Descriptor : Type 0 where
  pub name : List ℕ
  pub ggml_type : GgmlType
  pub shape : List ℕ
  pub offset : ℕ

abbrev pub as_info : Descriptor → TensorInfo
as_info d = with_shape d.name d.ggml_type d.shape d.offset

unfoldable pub entry_bytes : Entry → List ℕ
entry_bytes (k, v) =
    string_bytes k ++ (le_bytes 4 (value_discriminant (type_of v)) ++ value_bytes v)

unfoldable pub entries_bytes : List Entry → List ℕ
entries_bytes [] = []
entries_bytes (e ∷ es) = entry_bytes e ++ entries_bytes es

unfoldable pub descriptors_bytes : List Descriptor → List ℕ
descriptors_bytes [] = []
descriptors_bytes (d ∷ ds) = info_bytes d.name d.ggml_type d.shape d.offset ++ descriptors_bytes ds

-- The header and the two tables.
unfoldable pub tables_bytes : List Entry → List Descriptor → List ℕ
tables_bytes es ds =
    le_bytes 4 gguf_magic
    ++ (le_bytes 4 supported_version
        ++ (le_bytes 8 (length ds)
            ++ (le_bytes 8 (length es) ++ (entries_bytes es ++ descriptors_bytes ds))))

abbrev pub EntryFits : Entry → Type 0
EntryFits (k, v) = (is_utf8 k ≡ true) × (length k < 2 ^ 64) × IsEncodable v

abbrev pub DescriptorFits : Descriptor → Type 0
DescriptorFits d = IsWritable d.name d.shape d.offset

-- The index after the rounds from `i` on.
index_from : ℕ → List (List ℕ) → Index → Index
index_from i [] index = index
index_from i (k ∷ ks) index = index_from (i + 1) ks (index_insert k i index)

abbrev keys : List Entry → List (List ℕ)
keys = map (λ (k, v). k)

Reads-cong {ℓ} :
    {A : Type ℓ} (p : Parse A) {xs ys : List ℕ} {a b : A}
    → xs ≡ ys
    → a ≡ b
    → Reads p xs a
    → Reads p ys b
Reads-cong p e f h = subst₂ (Reads p) e f h

read_metadata-Reads :
    (es : List Entry) (i : ℕ) (xs : List Entry) (index : Index)
    → All EntryFits es
    → Reads
        (read_metadata (length es) i xs index)
        (entries_bytes es)
        (xs ++ es, index_from i (keys es) index)
unfolding read_metadata entries_bytes index_from entry_bytes
read_metadata-Reads [] i xs index h = rw (append-nil xs) (Reads-pure (xs, index))
read_metadata-Reads ((k, v) ∷ es) i xs index ((valid, named, fits), hs) =
    let go = λ (key : List ℕ) (value : MetaValue).
      read_metadata (length es) (i + 1) (xs ++ ((key, value) ∷ [])) (index_insert key i index) in
    let valued =
      Reads-bind (read (type_of v)) (go k) _ _ (read-Reads v fits)
        (read_metadata-Reads es (i + 1) (xs ++ ((k, v) ∷ [])) (index_insert k i index) hs) in
    let typed =
      Reads-bind (lift (value_try_from_u32 (value_discriminant (type_of v))))
        (λ vt. read vt >>= go k) [] _ (Reads-lift _ (value_try_from_u32-discriminant (type_of v)))
        valued in
    let raw =
      Reads-bind read_u32 (λ n. lift (value_try_from_u32 n) >>= λ vt. read vt >>= go k) _ _
        (read_unsigned-Reads 4 (value_discriminant (type_of v)) (discriminant-lt (type_of v)))
        typed in
    let whole =
      Reads-bind read_string
        (λ key. read_u32 >>= λ n. lift (value_try_from_u32 n) >>= λ vt. read vt >>= go key) _ _
        (read_string-Reads k valid named) raw in
    Reads-cong (read_metadata (length {A = Entry} ((k, v) ∷ es)) i xs index)
      (simp append_assoc refl)
      (ap (λ ys. (ys, index_from (i + 1) (keys es) (index_insert k i index)))
        (append_assoc xs ((k, v) ∷ []) es))
      whole

read_tensors-Reads :
    (ds : List Descriptor) (i : ℕ) (xs : List TensorInfo) (index : Index)
    → All DescriptorFits ds
    → Reads
        (read_tensors (length ds) i xs index)
        (descriptors_bytes ds)
        (xs ++ map as_info ds, index_from i (map (λ d. d.name) ds) index)
unfolding read_tensors descriptors_bytes index_from
read_tensors-Reads [] i xs index h = rw (append-nil xs) (Reads-pure (xs, index))
read_tensors-Reads (d ∷ ds) i xs index (h, hs) =
    Reads-cong (read_tensors (length {A = Descriptor} (d ∷ ds)) i xs index) refl
      (ap (λ ys. (ys, index_from (i + 1) (map (λ e. e.name) ds) (index_insert d.name i index)))
        (append_assoc xs (as_info d ∷ []) (map as_info ds)))
      (Reads-bind TensorInfo.parse
        (λ info.
          read_tensors (length ds) (i + 1) (xs ++ (info ∷ [])) (index_insert info.name i index))
        _ _ (parse-Reads d.name d.ggml_type d.shape d.offset h)
        (read_tensors-Reads ds (i + 1) (xs ++ (as_info d ∷ [])) (index_insert d.name i index) hs))

-- The tables that the loader builds for these entries and descriptors.
pub tables_of : List Entry → List Descriptor → Tables
unfolding index_from
tables_of es ds = record {
  header = record {
    version = supported_version;
    tensor_count = length ds;
    metadata_kv_count = length es;
  };
  metadata = es;
  metadata_index = index_from 0 (keys es) [];
  tensors = map as_info ds;
  tensor_index = index_from 0 (map (λ d. d.name) ds) [];
}

new-cursor : (bytes : List ℕ) → new bytes ≡ cursor [] bytes
unfolding new cursor
new-cursor bytes = refl

position-cursor : (front rest : List ℕ) → (cursor front rest).position ≡ length front
unfolding cursor
position-cursor front rest = refl

index_from-Indexes :
    {A : Type 0} (name : A → List ℕ) (ys xs : List A) (n : ℕ) (index : Index)
    → n ≡ length xs
    → Indexes name index xs
    → Indexes name (index_from n (map name ys) index) (xs ++ ys)
unfolding index_from
index_from-Indexes name [] xs n index e h = rw (append-nil xs) h
index_from-Indexes name (y ∷ ys) xs n index e h = rw (← append_assoc xs (y ∷ []) ys) (
    index_from-Indexes name ys (xs ++ (y ∷ [])) (n + 1) (index_insert (name y) n index)
      (omega (arith, e, length-append xs (y ∷ []))) (rw e (Indexes-insert name index xs y h)))

-- The alignment that the entries ask for, and where the tensors' bytes start.
abbrev pub alignment_in : List Entry → ℕ
alignment_in es = alignment_of (last_named entry_key es alignment_key)

abbrev pub data_start : List Entry → List Descriptor → ℕ
data_start es ds = align_up (length (tables_bytes es ds)) (alignment_in es)

-- A loaded file that holds exactly these entries and descriptors.
pub record IsImage (es : List Entry) (ds : List Descriptor) (mmap : List ℕ) (file : GgufFile)
    : Type 0 where
  pub bytes : file.mmap ≡ mmap
  pub version : file.header.version ≡ supported_version
  pub tensor_count : file.header.tensor_count ≡ length ds
  pub metadata_kv_count : file.header.metadata_kv_count ≡ length es
  pub metadata : file.metadata ≡ es
  pub tensors : file.tensors ≡ map as_info ds
  pub entries_found : Indexes entry_key file.metadata_index es
  pub tensors_found : Indexes tensor_name file.tensor_index (map as_info ds)
  pub alignment : file.alignment ≡ alignment_in es
  pub placed : file.data_section_offset ≡ data_start es ds

names_of : (ds : List Descriptor) → map (λ d. d.name) ds ≡ map tensor_name (map as_info ds)
names_of [] = refl
names_of (d ∷ ds) = ap (λ ns. d.name ∷ ns) (names_of ds)

entries-Indexes : (es : List Entry) → Indexes entry_key (index_from 0 (keys es) []) es
entries-Indexes es = index_from-Indexes entry_key es [] 0 [] refl (Indexes-nil entry_key)

tensors-Indexes :
    (ds : List Descriptor)
    → Indexes tensor_name (index_from 0 (map (λ d. d.name) ds) []) (map as_info ds)
tensors-Indexes ds =
    rw (names_of ds)
      (index_from-Indexes tensor_name (map as_info ds) [] 0 [] refl (Indexes-nil tensor_name))

finish-IsImage :
    (es : List Entry) (ds : List Descriptor) (mmap : List ℕ)
    → check_tensors (data_start es ds) (length mmap) (map as_info ds) ≡ ok tt
    → (file : GgufFile) × (finish mmap (tables_of es ds) (length (tables_bytes es ds)) ≡ ok file)
      × IsImage es ds mmap file
unfolding finish tables_of find_alignment
finish-IsImage es ds mmap checked = (
  record {
    mmap = mmap;
    header = (tables_of es ds).header;
    metadata = es;
    metadata_index = (tables_of es ds).metadata_index;
    tensors = map as_info ds;
    tensor_index = (tables_of es ds).tensor_index;
    alignment = alignment_in es;
    data_section_offset = data_start es ds;
  },
  rw ((entries-Indexes es).finds alignment_key, checked) refl,
  record {
    bytes = refl;
    version = refl;
    tensor_count = refl;
    metadata_kv_count = refl;
    metadata = refl;
    tensors = refl;
    entries_found = entries-Indexes es;
    tensors_found = tensors-Indexes ds;
    alignment = refl;
    placed = refl;
  },
)

module _ (reserves_entries reserves_tensors : ℕ → Bool) where
  read_tables-Reads :
      (es : List Entry) (ds : List Descriptor)
      → reserves_entries (length es) ≡ true
      → reserves_tensors (length ds) ≡ true
      → All EntryFits es
      → All DescriptorFits ds
      → Reads
          (read_tables reserves_entries reserves_tensors supported_version (length ds) (length es))
          (entries_bytes es ++ descriptors_bytes ds)
          (tables_of es ds)
  unfolding read_tables tables_of
  read_tables-Reads es ds re rd he hd front rest k = rw (
    append_assoc (entries_bytes es) (descriptors_bytes ds) rest,
    re,
    read_metadata-Reads es 0 [] [] he front (descriptors_bytes ds ++ rest) (omega lengths),
    rd,
    read_tensors-Reads ds 0 [] [] hd (front ++ entries_bytes es) rest (omega lengths),
    append_assoc front (entries_bytes es) (descriptors_bytes ds),
  )

  load_tables-Reads :
      (es : List Entry) (ds : List Descriptor)
      → reserves_entries (length es) ≡ true
      → reserves_tensors (length ds) ≡ true
      → All EntryFits es
      → All DescriptorFits ds
      → length es < 2 ^ 64
      → length ds < 2 ^ 64
      → Reads (load_tables reserves_entries reserves_tensors) (tables_bytes es ds) (tables_of es ds)
  unfolding load_tables tables_bytes
  load_tables-Reads es ds re rd he hd ne nd =
      let tables =
        Reads-bind read_u64
          (λ n. read_tables reserves_entries reserves_tensors supported_version (length ds) n) _ _
          (read_unsigned-Reads 8 (length es) (omega arith)) (read_tables-Reads es ds re rd he hd) in
      let counts =
        Reads-bind read_u64
          (λ m.
            read_u64 >>= λ n. read_tables reserves_entries reserves_tensors supported_version m n)
          _ _ (read_unsigned-Reads 8 (length ds) (omega arith)) tables in
      let checked =
        Reads-bind (check_version supported_version)
          (λ _. read_u64 >>= λ m.
            read_u64 >>= λ n. read_tables reserves_entries reserves_tensors supported_version m n)
          [] _ (Reads-pure tt) counts in
      let version =
        Reads-bind read_u32
          (λ v. check_version v >>= λ _.
            read_u64 >>= λ m. read_u64 >>= λ n. read_tables reserves_entries reserves_tensors v m n)
          _ _ (read_unsigned-Reads 4 supported_version (omega arith)) checked in
      let magic =
        Reads-bind (check_magic gguf_magic)
          (λ _. read_u32 >>= λ v. check_version v >>= λ _.
            read_u64 >>= λ m. read_u64 >>= λ n. read_tables reserves_entries reserves_tensors v m n)
          [] _ (Reads-pure tt) version in
      Reads-bind read_u32
        (λ g. check_magic g >>= λ _. read_u32 >>= λ v. check_version v >>= λ _.
          read_u64 >>= λ m. read_u64 >>= λ n. read_tables reserves_entries reserves_tensors v m n)
        _ _ (read_unsigned-Reads 4 gguf_magic (omega arith)) magic

  -- A file laid out as the format says, with encodable entries and writable descriptors whose counts
  -- can be reserved, and with tensors that pass the check of their offsets, is loaded with exactly
  -- these entries and tensors, in their order: its header has their counts, its two indexes find the
  -- last one of each name, its alignment is the one the entries ask for (32 if none), and its data
  -- section starts at the end of the tables, aligned up.
  pub from_mmap-tables_bytes :
      (es : List Entry) (ds : List Descriptor) (payload : List ℕ)
      → reserves_entries (length es) ≡ true
      → reserves_tensors (length ds) ≡ true
      → All EntryFits es
      → All DescriptorFits ds
      → length es < 2 ^ 64
      → length ds < 2 ^ 64
      → length (tables_bytes es ds) + length payload < 2 ^ 64
      → check_tensors (data_start es ds) (length (tables_bytes es ds ++ payload)) (map as_info ds)
        ≡ ok tt
      → (file : GgufFile) × (from_mmap reserves_entries reserves_tensors
            (tables_bytes es ds ++ payload)
          ≡ ok file)
        × IsImage es ds (tables_bytes es ds ++ payload) file
  unfolding from_mmap
  from_mmap-tables_bytes es ds payload re rd he hd ne nd k checked =
      let (file, run, image) = finish-IsImage es ds (tables_bytes es ds ++ payload) checked in
      (
        file,
        rw
            (
              new-cursor (tables_bytes es ds ++ payload),
              load_tables-Reads es ds re rd he hd ne nd [] payload (omega arith),
              position-cursor (tables_bytes es ds) payload,
            )
            run,
        image,
      )

  -- A count of metadata entries that cannot be reserved stops the program: the loader takes it from
  -- the file and passes it to `with_capacity` before it reads an entry.
  pub from_mmap_panics :
      (tensor_count kv_count : ℕ) (rest : List ℕ)
      → tensor_count < 256 ^ 8
      → kv_count < 256 ^ 8
      → reserves_entries kv_count ≡ false
      → 24 + length rest < 2 ^ 64
      → from_mmap reserves_entries reserves_tensors (
          le_bytes 4 gguf_magic
          ++ (le_bytes 4 supported_version
              ++ (le_bytes 8 tensor_count ++ (le_bytes 8 kv_count ++ rest))))
        ≡ panic
  unfolding from_mmap load_tables read_tables
  from_mmap_panics tc kc rest ht hk full k =
      let counts = le_bytes 8 tc ++ (le_bytes 8 kc ++ rest) in
      let tail = le_bytes 4 supported_version ++ counts in
      rw (
        new-cursor (le_bytes 4 gguf_magic ++ tail),
        read_unsigned-Reads 4 gguf_magic (omega arith) [] tail (omega (lengths, length-le_bytes)),
        read_unsigned-Reads 4 supported_version (omega arith) (le_bytes 4 gguf_magic) counts
            (omega (lengths, length-le_bytes)),
        read_unsigned-Reads 8 tc (omega arith)
            (le_bytes 4 gguf_magic ++ le_bytes 4 supported_version) (le_bytes 8 kc ++ rest)
            (omega (lengths, length-le_bytes)),
        read_unsigned-Reads 8 kc (omega arith)
            ((le_bytes 4 gguf_magic ++ le_bytes 4 supported_version) ++ le_bytes 8 tc) rest
            (omega (lengths, length-le_bytes)),
        full,
      )
