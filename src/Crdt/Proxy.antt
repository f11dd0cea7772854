-- ===== src/Crdt/Proxy.antt =====
-- The conversions between cells and the types of Rust (`CellProxy` of zendb-types/src/crdt/_traits.rs):
-- int.rs, bool.rs, string.rs, float.rs, timestamp.rs and blob.rs of zendb-types/src/crdt/values. A number
-- of a machine type is an integer in the range of the type, a float is its bits, a string its bytes.
pub mod RoundTrip
use zendb.Prelude.{
  ℕ, ◌*◌, ◌-◌, ◌/◌, ◌%◌, ◌^◌, ◌==◌, Bool, true, false, Option, none, some, List, if◌then◌else◌, ltb,
  length, Result, ok, err, ◌>>=◌,
}
use zendb.Prelude.Int.{ℤ, pos, negsuc}
use zendb.Crdt.Cell.{Cell}

-- The machine integers; those of the size of a pointer have its width.
pub data IntType : Type 0 where
  i8 : IntType
  i16 : IntType
  i32 : IntType
  i64 : IntType
  isize : IntType
  u8 : IntType
  u16 : IntType
  u32 : IntType
  u64 : IntType
  usize : IntType

-- What an error says was expected.
pub data Expected : Type 0 where
  int_cell : Expected
  ranged : IntType → Expected
  representable : IntType → Expected
  bool_cell : Expected
  string_cell : Expected
  float32_cell : Expected
  float64_cell : Expected
  timestamp_cell : Expected
  representable_time : Expected
  after_epoch : Expected
  millisecond_precision : Expected
  fitting_time : Expected
  blob_cell : Expected
  fixed_size_blob : Expected

pub data CellProxyError : Type 0 where
  invalid_value : Expected → CellProxyError

-- The values; `other` are those that no conversion of these files reads.
pub data Value (O : Type 0) : Type 0 where
  int : ℤ → Value O
  bool_value : Bool → Value O
  string_value : List ℕ → Value O
  float32 : ℕ → Value O
  float64 : ℕ → Value O
  timestamp : ℕ → Value O
  blob : List ℕ → Value O
  other : O → Value O

unfoldable pub in_signed : ℕ → ℤ → Bool
in_signed half (pos n) = ltb n half
in_signed half (negsuc n) = ltb n half

unfoldable pub in_unsigned : ℕ → ℤ → Bool
in_unsigned end (pos n) = ltb n end
in_unsigned end (negsuc n) = false

module _ (pointer_width : ℕ) where
  -- The numbers of a machine type.
  unfoldable pub in_range : IntType → ℤ → Bool
  unfolding in_signed in_unsigned
  in_range i8 v = in_signed (2 ^ 7) v
  in_range i16 v = in_signed (2 ^ 15) v
  in_range i32 v = in_signed (2 ^ 31) v
  in_range i64 v = in_signed (2 ^ 63) v
  in_range isize v = in_signed (2 ^ (pointer_width - 1)) v
  in_range u8 v = in_unsigned (2 ^ 8) v
  in_range u16 v = in_unsigned (2 ^ 16) v
  in_range u32 v = in_unsigned (2 ^ 32) v
  in_range u64 v = in_unsigned (2 ^ 64) v
  in_range usize v = in_unsigned (2 ^ pointer_width) v

  -- `try_from`, with the error.
  unfoldable pub try_from : IntType → Expected → ℤ → Result CellProxyError ℤ
  unfolding in_range
  try_from t expected v = if in_range t v then ok v else err (invalid_value expected)

  -- The number of an Int cell as one of the type. For i64 there is nothing to check.
  unfoldable pub narrow : IntType → ℤ → Result CellProxyError ℤ
  unfolding try_from
  narrow i64 v = ok v
  narrow i8 v = try_from i8 (ranged i8) v
  narrow i16 v = try_from i16 (ranged i16) v
  narrow i32 v = try_from i32 (ranged i32) v
  narrow isize v = try_from isize (ranged isize) v
  narrow u8 v = try_from u8 (ranged u8) v
  narrow u16 v = try_from u16 (ranged u16) v
  narrow u32 v = try_from u32 (ranged u32) v
  narrow u64 v = try_from u64 (ranged u64) v
  narrow usize v = try_from usize (ranged usize) v

  -- A number as the i64 of an Int cell. The types that may not fit are checked.
  unfoldable pub widen : IntType → ℤ → Result CellProxyError ℤ
  unfolding try_from
  widen i8 v = ok v
  widen i16 v = ok v
  widen i32 v = ok v
  widen i64 v = ok v
  widen u8 v = ok v
  widen u16 v = ok v
  widen u32 v = ok v
  widen isize v = try_from i64 (representable isize) v
  widen u64 v = try_from i64 (representable u64) v
  widen usize v = try_from i64 (representable usize) v

module _ {O : Type 0} where
  -- The stored number, if the cell holds one.
  unfoldable pub int_of : Option (Value O) → Result CellProxyError ℤ
  int_of (some (int v)) = ok v
  int_of _ = err (invalid_value int_cell)

module _ {O S : Type 0} where
  abbrev pub cell_of : Value O → S → Cell (Value O) S
  cell_of v stamp = record { value = some v; stamp = stamp }

  unfoldable pub int_from_cell : ℕ → IntType → Cell (Value O) S → Result CellProxyError ℤ
  unfolding int_of narrow
  int_from_cell width t c = do v ← int_of c.value; narrow width t v

  unfoldable pub int_to_cell : ℕ → IntType → ℤ → S → Result CellProxyError (Cell (Value O) S)
  unfolding widen
  int_to_cell width t v stamp = do value ← widen width t v; ok (cell_of (int value) stamp)

  unfoldable pub bool_from_cell : Cell (Value O) S → Result CellProxyError Bool
  bool_from_cell c = elim c.value [ some (bool_value v) ↦ ok v | _ ↦ err (invalid_value bool_cell) ]

  unfoldable pub bool_to_cell : Bool → S → Result CellProxyError (Cell (Value O) S)
  bool_to_cell v stamp = ok (cell_of (bool_value v) stamp)

  unfoldable pub string_from_cell : Cell (Value O) S → Result CellProxyError (List ℕ)
  string_from_cell c = elim c.value [
    | some (string_value v) ↦ ok v
    | _ ↦ err (invalid_value string_cell)
  ]

  unfoldable pub string_to_cell : List ℕ → S → Result CellProxyError (Cell (Value O) S)
  string_to_cell v stamp = ok (cell_of (string_value v) stamp)

  unfoldable pub f32_from_cell : Cell (Value O) S → Result CellProxyError ℕ
  f32_from_cell c = elim c.value [
    | some (float32 bits) ↦ ok bits
    | _ ↦ err (invalid_value float32_cell)
  ]

  unfoldable pub f32_to_cell : ℕ → S → Result CellProxyError (Cell (Value O) S)
  f32_to_cell bits stamp = ok (cell_of (float32 bits) stamp)

  unfoldable pub f64_from_cell : Cell (Value O) S → Result CellProxyError ℕ
  f64_from_cell c = elim c.value [
    | some (float64 bits) ↦ ok bits
    | _ ↦ err (invalid_value float64_cell)
  ]

  unfoldable pub f64_to_cell : ℕ → S → Result CellProxyError (Cell (Value O) S)
  f64_to_cell bits stamp = ok (cell_of (float64 bits) stamp)

  unfoldable pub bytes_from_cell : Cell (Value O) S → Result CellProxyError (List ℕ)
  bytes_from_cell c = elim c.value [ some (blob v) ↦ ok v | _ ↦ err (invalid_value blob_cell) ]

  unfoldable pub bytes_to_cell : List ℕ → S → Result CellProxyError (Cell (Value O) S)
  bytes_to_cell v stamp = ok (cell_of (blob v) stamp)

  -- An array of `n` bytes.
  unfoldable pub array_from_cell : ℕ → Cell (Value O) S → Result CellProxyError (List ℕ)
  unfolding bytes_from_cell
  array_from_cell n c = do
    v ← bytes_from_cell c
    if length v == n then ok v else err (invalid_value fixed_size_blob)

  unfoldable pub array_to_cell : List ℕ → S → Result CellProxyError (Cell (Value O) S)
  array_to_cell v stamp = ok (cell_of (blob v) stamp)

  -- A `SystemTime` is its nanoseconds since the epoch. `representable` tells what the platform's can hold.
  module _ (is_representable : ℕ → Bool) where
    unfoldable pub time_from_cell : Cell (Value O) S → Result CellProxyError ℤ
    time_from_cell c = elim c.value [
      | some (timestamp ms) ↦
          if is_representable (ms * 1000000)
          then ok (pos (ms * 1000000))
          else err (invalid_value representable_time)
      | _ ↦ err (invalid_value timestamp_cell)
    ]

  unfoldable pub time_to_cell : ℤ → S → Result CellProxyError (Cell (Value O) S)
  time_to_cell (negsuc n) stamp = err (invalid_value after_epoch)
  time_to_cell (pos n) stamp =
      if n % 1000000 == 0
      then (if ltb (n / 1000000) (2 ^ 64)
          then ok (cell_of (timestamp (n / 1000000)) stamp)
          else err (invalid_value fitting_time))
      else err (invalid_value millisecond_precision)
