-- ===== src/Base/Utf8.antt =====
-- The standard library's UTF-8 validation (`str::from_utf8`), over lists of bytes.
use Prim.Native.Nat.{ℕ, ◌+◌, ◌-◌, ◌*◌, ◌/◌, ◌%◌}
use mathlib.Core.Option.{Option, none, some}
use mathlib.Core.Bool.{Bool, true, false, ◌&&◌, ◌||◌}
use mathlib.Core.List.{List, [], ◌∷◌}
use reinstinct.Base.Tests.{leb, ◌==◌, if◌then◌else◌}

abbrev within : ℕ → ℕ → ℕ → Bool
within lo hi b = leb lo b && leb b hi

abbrev is_continuation : ℕ → Bool
is_continuation = within 0x80 0xbf

-- The second byte of a three-byte and of a four-byte character: no overlong form, no surrogate,
-- nothing above U+10FFFF.
unfoldable pub three_ok : ℕ → ℕ → Bool
three_ok a b =
    (a == 0xe0 && within 0xa0 0xbf b)
    || (within 0xe1 0xec a && is_continuation b)
    || (a == 0xed && within 0x80 0x9f b)
    || (within 0xee 0xef a && is_continuation b)

unfoldable pub four_ok : ℕ → ℕ → Bool
four_ok a b =
    (a == 0xf0 && within 0x90 0xbf b)
    || (within 0xf1 0xf3 a && is_continuation b)
    || (a == 0xf4 && within 0x80 0x8f b)

-- The state of the scan: how many bytes of the character at hand are still due.
pub data Scan : Type 0 where
  at_start : Scan
  after_three after_four : ℕ → Scan
  due : ℕ → Scan
  bad : Scan

unfoldable pub scan_first : ℕ → Scan
scan_first a =
    if leb a 0x7f
    then at_start
    else if within 0xc2 0xdf a
    then due 1
    else if within 0xe0 0xef a
    then after_three a
    else if within 0xf0 0xf4 a
    then after_four a
    else bad

unfoldable pub scan_step : Scan → ℕ → Scan
unfolding scan_first three_ok four_ok
scan_step at_start b = scan_first b
scan_step (after_three a) b = if three_ok a b then due 1 else bad
scan_step (after_four a) b = if four_ok a b then due 2 else bad
scan_step (due n) b = if is_continuation b then (if n == 1 then at_start else due 1) else bad
scan_step bad b = bad

unfoldable pub scan_end : Scan → Bool
scan_end at_start = true
scan_end _ = false

unfoldable pub scan : Scan → List ℕ → Bool
unfolding scan_step scan_end
scan s [] = scan_end s
scan s (b ∷ bs) = scan (scan_step s b) bs

unfoldable pub is_utf8 : List ℕ → Bool
unfolding scan
is_utf8 bs = scan at_start bs

-- `char::encode_utf8`, on a code point.
unfoldable pub encode_utf8 : ℕ → List ℕ
encode_utf8 c =
    if leb c 0x7f
    then c ∷ []
    else if leb c 0x7ff
    then (0xc0 + c / 64) ∷ (0x80 + c % 64) ∷ []
    else if leb c 0xffff
    then (0xe0 + c / 4096) ∷ (0x80 + c / 64 % 64) ∷ (0x80 + c % 64) ∷ []
    else (0xf0 + c / 262144) ∷ (0x80 + c / 4096 % 64) ∷ (0x80 + c / 64 % 64) ∷ (0x80 + c % 64) ∷ []

-- `char::from_u32(c).unwrap_or('\u{fffd}')` for a number of 16 bits: a surrogate is no character.
unfoldable pub char_or_replacement : ℕ → ℕ
char_or_replacement c = if within 0xd800 0xdfff c then 0xfffd else c

-- `str::chars`, on valid UTF-8: the value of the character so far, and how many bytes are due.
pub record Pending : Type 0 where
  pub value : ℕ
  pub left : ℕ

unfoldable pub char_first : ℕ → Option ℕ × Pending
char_first a =
    if leb a 0x7f
    then (some a, record { value = 0; left = 0 })
    else if leb a 0xdf
    then (none, record { value = a - 0xc0; left = 1 })
    else if leb a 0xef
    then (none, record { value = a - 0xe0; left = 2 })
    else (none, record { value = a - 0xf0; left = 3 })

unfoldable pub char_next : Pending → ℕ → Option ℕ × Pending
unfolding char_first
char_next p b =
    let value = p.value * 64 + (b - 0x80) in
    if p.left == 0
    then char_first b
    else if p.left == 1
    then (some value, record { value = 0; left = 0 })
    else (none, record { value = value; left = p.left - 1 })

unfoldable pub chars_from : Pending → List ℕ → List ℕ
unfolding char_next
chars_from p [] = []
chars_from p (b ∷ bs) =
    let (c, p') = char_next p b in
    let rest = chars_from p' bs in elim c [ none ↦ rest | some v ↦ v ∷ rest ]

unfoldable pub chars : List ℕ → List ℕ
unfolding chars_from
chars bs = chars_from (record { value = 0; left = 0 }) bs
