-- ===== src/Gguf/Tests.antt =====
-- Runs of the loader of src/gguf/ on a small file, and the theorems at concrete inputs.
use reinstinct.Base.{
  Ensures-ok, ◌*◌, ◌-◌, ◌%◌, ◌≤◌, ltb, ℕ, ◌+◌, ◌<◌, ◌^◌, ◌≡◌, refl, arith, Bool, some, List, [],
  ◌∷◌, ◌++◌, length, take, drop, replicate, All, map, ok, panic, ◌↔◌, inl, inr, sym, ◌∙◌,
}
use mathlib.Core.List.{mem-cons}
use reinstinct.Gguf.Types.{
  block_size_elements, bytes_per_block, GgmlType, GgufValueType, ggml_discriminant,
  value_discriminant,
}
use reinstinct.Gguf.Types.TryFrom.{ggml_try_from_u32, ggml_try_from_u32_iff, value_try_from_u32}
use reinstinct.Gguf.Reader.{
  remaining, seek, need, skip, slice, read_array, from_le_bytes, read_unsigned, read_bool,
  read_utf8, new, signed, read_signed, read_string,
}
use reinstinct.Gguf.Reader.Words.{le_bytes}
use reinstinct.Gguf.Reader.Bounds.{IsIn, Takes, read_string-Takes}
use reinstinct.Gguf.Reader.RoundTrip.{Reads, string_bytes, read_signed-Reads}
use reinstinct.Gguf.Value.{array, cons, nil, read_value, read_values, MetaValue, u8, read}
use reinstinct.Gguf.Value.Bounds.{read-Takes}
use reinstinct.Gguf.Value.RoundTrip.{count, type_of, value_bytes, IsEncodable, read-Reads}
use reinstinct.Gguf.TensorInfo
use reinstinct.Gguf.TensorInfo.{TensorInfo, parse}
use reinstinct.Gguf.TensorInfo.RoundTrip.{
  dims_bytes, IsWritable, info_bytes, with_shape, parse-Reads,
}
use reinstinct.Gguf.File.{
  gguf_magic, supported_version, load_tables, read_tables, find_alignment, indexed, index_get,
  text_eq, at, read_metadata, read_tensors, GgufFile, from_mmap, finish, tensor, tensor_data,
  check_tensors, align_up,
}
use reinstinct.Gguf.File.Image.{
  EntryFits, entries_bytes, entry_bytes, descriptors_bytes, Entry, Descriptor, tables_bytes,
  IsImage, as_info, data_start, from_mmap-tables_bytes, from_mmap_panics,
}
use reinstinct.Gguf.File.Loaded.{IsLoaded, Loads, from_mmap-IsLoaded}
use reinstinct.Gguf.File.Tensors.{
  align_up_least, check_tensors-inside, check_tensors_wraps, tensor_data_lem,
}
use reinstinct.Base.Utf8.{is_utf8, scan, scan_step, scan_first, scan_end}
use reinstinct.Gguf.Value.Coerce.{as_u64}
use reinstinct.Gguf.File.Index.{last_named}
use mathlib.Core.Logic.Or

-- Tables of up to 100 entries can be reserved.
abbrev hundred : ℕ → Bool
hundred n = ltb n 100

abbrev entries : List Entry
entries = ((0x6b ∷ []), u8 7) ∷ []

abbrev descriptors : List Descriptor
descriptors = record { name = 0x74 ∷ []; ggml_type = GgmlType.f32; shape = 2 ∷ []; offset = 0 } ∷ []

abbrev payload : List ℕ
payload = replicate 25 0 ++ (1 ∷ 2 ∷ 3 ∷ 4 ∷ 5 ∷ 6 ∷ 7 ∷ 8 ∷ [])

abbrev image : List ℕ
image = tables_bytes entries descriptors ++ payload

abbrev file : GgufFile
file = record {
  mmap = image;
  header = record { version = 3; tensor_count = 1; metadata_kv_count = 1 };
  metadata = entries;
  metadata_index = ((0x6b ∷ []), 0) ∷ [];
  tensors = with_shape (0x74 ∷ []) GgmlType.f32 (2 ∷ []) 0 ∷ [];
  tensor_index = ((0x74 ∷ []), 0) ∷ [];
  alignment = 32;
  data_section_offset = 96;
}

image_loads : from_mmap hundred hundred image ≡ ok file
unfolding from_mmap load_tables read_tables finish find_alignment indexed index_get text_eq at
    read_metadata read_tensors check_tensors align_up new remaining seek need skip slice read_array
    from_le_bytes read_unsigned read_bool read_utf8 read_string is_utf8 scan scan_step scan_first
    scan_end le_bytes tables_bytes entries_bytes entry_bytes descriptors_bytes string_bytes
    info_bytes dims_bytes value_bytes type_of TensorInfo.shape TensorInfo.product
    TensorInfo.n_elements TensorInfo.byte_size TensorInfo.read_dims TensorInfo.parse read read_value
    read_values ggml_try_from_u32 value_try_from_u32 value_discriminant ggml_discriminant
    block_size_elements bytes_per_block as_u64
image_loads = refl

short : length image < 2 ^ 64
unfolding tables_bytes entries_bytes entry_bytes descriptors_bytes string_bytes info_bytes
    dims_bytes value_bytes type_of le_bytes
short = omega arith

from_mmap-IsLoaded_example : Loads hundred hundred image (from_mmap hundred hundred image)
from_mmap-IsLoaded_example = from_mmap-IsLoaded hundred hundred image short

loaded : IsLoaded image file
loaded = elim from_mmap-IsLoaded_example [
  | inl e ↦ Ensures-ok e image_loads
  | inr (panics, why) ↦ let other : ok file ≡ panic = sym image_loads ∙ panics in cc
]

two_fit : All (λ d. d < 256 ^ 8) (2 ∷ [])
two_fit = (omega arith, tt)

writable : IsWritable (0x74 ∷ []) (2 ∷ []) 0
unfolding is_utf8 scan scan_step scan_first scan_end
writable = record {
  valid = refl;
  named = omega arith;
  some_dims = omega arith;
  few_dims = omega arith;
  dims_fit = two_fit;
  offset_fits = omega arith;
}

entries_fit : All EntryFits entries
unfolding is_utf8 scan scan_step scan_first scan_end IsEncodable
entries_fit = ((refl, omega arith, omega arith), tt)

fits : length (tables_bytes entries descriptors) + length payload < 2 ^ 64
unfolding tables_bytes entries_bytes entry_bytes descriptors_bytes string_bytes info_bytes
    dims_bytes value_bytes type_of le_bytes
fits = omega arith

entries_checked :
    check_tensors (data_start entries descriptors) (length image) (map as_info descriptors) ≡ ok tt
unfolding check_tensors TensorInfo.byte_size TensorInfo.n_elements TensorInfo.product
    TensorInfo.shape block_size_elements bytes_per_block align_up last_named text_eq tables_bytes
    entries_bytes entry_bytes descriptors_bytes string_bytes info_bytes dims_bytes value_bytes
    type_of le_bytes as_u64
entries_checked = refl

from_mmap-tables_bytes_example :
    (f : GgufFile) × (from_mmap hundred hundred image ≡ ok f) × IsImage entries descriptors image f
from_mmap-tables_bytes_example =
    from_mmap-tables_bytes hundred hundred entries descriptors payload refl refl entries_fit
      (writable, tt) (omega arith) (omega arith) fits entries_checked

from_mmap_panics_example :
    from_mmap hundred hundred (
      le_bytes 4 gguf_magic
      ++ (le_bytes 4 supported_version ++ (le_bytes 8 0 ++ (le_bytes 8 (2 ^ 60) ++ []))))
    ≡ panic
from_mmap_panics_example =
    from_mmap_panics hundred hundred 0 (2 ^ 60) [] (omega arith) (omega arith) refl (omega arith)

tensor_found : tensor file (0x74 ∷ []) ≡ ok (some (with_shape (0x74 ∷ []) GgmlType.f32 (2 ∷ []) 0))
unfolding tensor indexed index_get text_eq at
tensor_found = refl

tensor_size : TensorInfo.byte_size (with_shape (0x74 ∷ []) GgmlType.f32 (2 ∷ []) 0) ≡ ok 8
unfolding TensorInfo.byte_size TensorInfo.n_elements TensorInfo.product TensorInfo.shape
    block_size_elements bytes_per_block
tensor_size = refl

tensor_data_lem_example :
    (bytes : List ℕ) × (tensor_data file (0x74 ∷ []) ≡ ok (some bytes))
    × (length bytes ≡ 8)
    × (bytes ≡ take 8 (drop ((96 + 0) % 2 ^ 64) image))
tensor_data_lem_example =
    tensor_data_lem loaded (0x74 ∷ []) (with_shape (0x74 ∷ []) GgmlType.f32 (2 ∷ []) 0) 8
      tensor_found tensor_size (omega arith)

checked : check_tensors 96 129 file.tensors ≡ ok tt
unfolding check_tensors TensorInfo.byte_size TensorInfo.n_elements TensorInfo.product
    TensorInfo.shape block_size_elements bytes_per_block
checked = refl

check_tensors-inside_example : (96 + 0) % 2 ^ 64 + 8 ≤ 129
check_tensors-inside_example =
    check_tensors-inside 96 129 file.tensors (with_shape (0x74 ∷ []) GgmlType.f32 (2 ∷ []) 0) 8
      checked (mem-cons.1 (Or.inl refl)) tensor_size (omega arith)

abbrev far : TensorInfo
far = with_shape (0x74 ∷ []) GgmlType.f32 (2 ∷ []) (2 ^ 64 - 96)

far_size : TensorInfo.byte_size far ≡ ok 8
unfolding TensorInfo.byte_size TensorInfo.n_elements TensorInfo.product TensorInfo.shape
    block_size_elements bytes_per_block
far_size = refl

check_tensors_wraps_example : check_tensors 96 129 (far ∷ []) ≡ ok tt
check_tensors_wraps_example =
    check_tensors_wraps 96 129 far 8 far_size (omega arith) (omega arith) (omega arith)

at_start : IsIn (new image)
unfolding new tables_bytes entries_bytes entry_bytes descriptors_bytes string_bytes info_bytes
    dims_bytes value_bytes type_of le_bytes
at_start = record { within = omega arith; addressable = short }

read-Takes_example : Takes 1 (read GgufValueType.u32) (new image)
read-Takes_example = read-Takes GgufValueType.u32 at_start

read_string-Takes_example : Takes 8 read_string (new image)
read_string-Takes_example = read_string-Takes at_start

parse-Reads_example :
    Reads parse
      (info_bytes (0x74 ∷ []) GgmlType.f32 (2 ∷ []) 0)
      (with_shape (0x74 ∷ []) GgmlType.f32 (2 ∷ []) 0)
parse-Reads_example = parse-Reads (0x74 ∷ []) GgmlType.f32 (2 ∷ []) 0 writable

abbrev nested : MetaValue
nested = array GgufValueType.u8 (cons (u8 1) (cons (u8 2) nil))

nested-IsEncodable : IsEncodable nested
unfolding IsEncodable count type_of
nested-IsEncodable = (omega arith, (refl, omega arith, (refl, omega arith, tt)))

read-Reads_example : Reads (read (type_of nested)) (value_bytes nested) nested
read-Reads_example = read-Reads nested nested-IsEncodable

read_signed-Reads_example : Reads (read_signed 1) (le_bytes 1 255) (signed (8 * 1) 255)
read_signed-Reads_example = read_signed-Reads 1 255 (omega arith)

ggml_try_from_u32_iff_example :
    (ggml_try_from_u32 12 ≡ ok GgmlType.q4_k) ↔ (12 ≡ ggml_discriminant GgmlType.q4_k)
ggml_try_from_u32_iff_example = ggml_try_from_u32_iff 12 GgmlType.q4_k

align_up_least_example :
    (70 ≤ align_up 70 32) × (align_up 70 32 < 70 + 32) × (align_up 70 32 % 32 ≡ 0)
align_up_least_example = align_up_least 70 32 (omega arith) (omega arith) (omega arith)
