-- ===== src/Topic/Frame.antt =====
-- The bytes of a segment file (zendb-storage/src/topic.rs): the magic number, then records, each a
-- little-endian u32 length and the encoded value. A file is the list of its bytes; `seek` and
-- `read_exact` are reads at a position, which fail past the end.
pub mod Codec
pub mod Scan
pub mod Read
use zendb.Prelude.{
  ℕ, zero, suc, ◌+◌, ◌*◌, ◌/◌, ◌%◌, ◌^◌, Bool, true, false, Option, none, some, List, [], ◌∷◌, ◌++◌,
  if◌then◌else◌, leb, ltb, ◌==◌, length, take, drop, Result, ok, err,
}

-- `u32::to_le_bytes`.
unfoldable pub to_le_bytes : ℕ → List ℕ
to_le_bytes n = n % 256 ∷ n / 256 % 256 ∷ n / 65536 % 256 ∷ n / 16777216 % 256 ∷ []

-- `u32::from_le_bytes`.
unfoldable pub from_le_bytes : ℕ → ℕ → ℕ → ℕ → ℕ
from_le_bytes a b c d = a + 256 * b + 65536 * c + 16777216 * d

abbrev pub magic : ℕ
magic = 0x43495054

abbrev pub header_size : ℕ
header_size = 4

-- The new file of `create_segment`.
unfoldable pub header : List ℕ
unfolding to_le_bytes
header = to_le_bytes magic

-- What `append` writes: `encoded.len() as u32`, which drops the high bits, and the bytes.
unfoldable pub frame : List ℕ → List ℕ
unfolding to_le_bytes
frame encoded = to_le_bytes (length encoded % 2 ^ 32) ++ encoded

-- Reads a u32 at a position.
unfoldable pub u32_of : List ℕ → Option ℕ
unfolding from_le_bytes
u32_of (a ∷ b ∷ c ∷ d ∷ rest) = some (from_le_bytes a b c d)
u32_of _ = none

unfoldable pub read_u32 : List ℕ → ℕ → Option ℕ
unfolding u32_of
read_u32 file at = u32_of (drop at file)

-- `read_exact` of the given number of bytes at a position.
unfoldable pub read_exact : List ℕ → ℕ → ℕ → Option (List ℕ)
read_exact file at n = if leb (at + n) (length file) then some (take n (drop at file)) else none

-- The record at a position: its bytes, and the position after it.
unfoldable pub read_record : List ℕ → ℕ → Option (List ℕ × ℕ)
unfolding read_u32
read_record file at = elim (read_u32 file at) [
  | none ↦ none
  | some size ↦ elim (read_exact file (at + 4) size) [
    | none ↦ none
    | some bytes ↦ some (bytes, at + 4 + size)
  ]
]

-- `for _ in segment.base_offset..offset`: skips that many records.
unfoldable pub skip_records : ℕ → List ℕ → ℕ → Option ℕ
unfolding read_u32
skip_records zero file at = some at
skip_records (suc n) file at = elim (read_u32 file at) [
  | none ↦ none
  | some size ↦ skip_records n file (at + (4 + size))
]

-- The loop of `scan_active_segment`, with the number of records and the position so far. It stops
-- at a record that is not complete. A round moves on by at least 4 bytes, so the length of the
-- file is fuel enough.
unfoldable pub scan_records : ℕ → List ℕ → ℕ → ℕ → ℕ × ℕ
unfolding read_u32
scan_records zero file records cursor = (records, cursor)
scan_records (suc fuel) file records cursor =
    let stop : ℕ × ℕ = (records, cursor) in
    elim (leb (cursor + 4) (length file)) [
      | false ↦ stop
      | true ↦ elim (read_u32 file cursor) [
        | none ↦ stop
        | some size ↦ elim (ltb (length file) (cursor + 4 + size)) [
          | true ↦ stop
          | false ↦ scan_records fuel file (suc records) (cursor + 4 + size)
        ]
      ]
    ]

pub data ScanError : Type 0 where
  unexpected_end invalid_data : ScanError

-- The end offset, the length of the complete records, and the length of the file.
unfoldable pub scan_active_segment : List ℕ → ℕ → Result ScanError (ℕ × ℕ × ℕ)
unfolding scan_records
scan_active_segment file base_offset = elim (read_u32 file 0) [
  | none ↦ err unexpected_end
  | some m ↦
      let (records, cursor) = scan_records (length file) file 0 header_size in
      if m == magic then ok (base_offset + records, cursor, length file) else err invalid_data
]
