-- ===== src/Tests/Proxies.antt =====
-- Conversions between cells and the types of Rust: runs, and the theorems on them.
use zendb.Prelude.{
  ℕ, ◌*◌, ◌^◌, ◌==◌, ◌%◌, Bool, true, ◌≡◌, refl, [], ◌∷◌, ok, err, ◌>>=◌, if◌then◌else◌, ltb,
}
use zendb.Prelude.Int.{ℤ, pos, negsuc}
use zendb.Crdt.Cell.{Cell}
use zendb.Crdt.Proxy
use zendb.Crdt.Proxy.{Expected, Value, cell_of}
use zendb.Crdt.Proxy.IntType.{i8, i64, u8, u64, usize}
use zendb.Crdt.Proxy.CellProxyError.{invalid_value}
use zendb.Crdt.Proxy.RoundTrip

program : Unit {0}
unfolding Proxy.int_from_cell Proxy.int_to_cell Proxy.in_range Proxy.bool_from_cell
    Proxy.bool_to_cell Proxy.string_from_cell Proxy.string_to_cell Proxy.f32_from_cell
    Proxy.f32_to_cell Proxy.f64_from_cell Proxy.f64_to_cell Proxy.bytes_from_cell
    Proxy.bytes_to_cell Proxy.array_from_cell Proxy.array_to_cell Proxy.time_from_cell
    Proxy.time_to_cell
program = tt

-- an Int cell under stamp 1
abbrev int_cell : ℤ → Cell (Value ℕ) ℕ
int_cell v = cell_of (Value.int v) 1

too_small :
    Proxy.int_from_cell 64 i8 (int_cell (negsuc 128)) ≡ err (invalid_value (Expected.ranged i8))
unfolding program
too_small = refl

smallest : Proxy.int_from_cell 64 i8 (int_cell (negsuc 127)) ≡ ok (negsuc 127)
unfolding program
smallest = refl

negative :
    Proxy.int_from_cell 64 u8 (int_cell (negsuc 0)) ≡ err (invalid_value (Expected.ranged u8))
unfolding program
negative = refl

too_large :
    Proxy.int_to_cell {O = ℕ} {S = ℕ} 64 usize (pos (2 ^ 63)) 1
    ≡ err (invalid_value (Expected.representable usize))
unfolding program
too_large = refl

wrong_kind : Proxy.bool_from_cell (int_cell (pos 1)) ≡ err (invalid_value Expected.bool_cell)
unfolding program
wrong_kind = refl

array_of_two :
    (Proxy.array_to_cell {O = ℕ} {S = ℕ} (7 ∷ 8 ∷ []) 1 >>= Proxy.array_from_cell 2)
    ≡ ok (7 ∷ 8 ∷ [])
unfolding program
array_of_two = refl

array_of_three :
    (Proxy.bytes_to_cell {O = ℕ} {S = ℕ} (7 ∷ 8 ∷ []) 1 >>= Proxy.array_from_cell 3)
    ≡ err (invalid_value Expected.fixed_size_blob)
unfolding program
array_of_three = refl

plain_values :
    ((Proxy.string_to_cell {O = ℕ} {S = ℕ} (65 ∷ []) 1 >>= Proxy.string_from_cell) ≡ ok (65 ∷ []))
    × ((Proxy.f32_to_cell {O = ℕ} {S = ℕ} 3 1 >>= Proxy.f32_from_cell) ≡ ok 3)
    × ((Proxy.f64_to_cell {O = ℕ} {S = ℕ} 3 1 >>= Proxy.f64_from_cell) ≡ ok 3)
    × ((Proxy.bytes_to_cell {O = ℕ} {S = ℕ} (3 ∷ []) 1 >>= Proxy.bytes_from_cell) ≡ ok (3 ∷ []))
    × ((Proxy.bool_to_cell {O = ℕ} {S = ℕ} true 1 >>= Proxy.bool_from_cell) ≡ ok true)
unfolding program
plain_values = (refl, refl, refl, refl, refl)

-- a platform that holds times of fewer than 2^64 nanoseconds
abbrev fits_u64 : ℕ → Bool
fits_u64 n = ltb n (2 ^ 64)

in_u64 : Proxy.in_range 64 u64 (pos (2 ^ 63)) ≡ true
unfolding program
in_u64 = refl

negative_i64 : Proxy.in_range 64 i64 (negsuc 4) ≡ true
unfolding program
negative_i64 = refl

int_from_cell-int_to_cell_example :
    (Proxy.int_to_cell {O = ℕ} {S = ℕ} 64 u64 (pos (2 ^ 63)) 1 >>= Proxy.int_from_cell 64 u64) ≡ (
      if Proxy.in_range 64 i64 (pos (2 ^ 63))
      then ok (pos (2 ^ 63))
      else err (invalid_value (Expected.representable u64)))
int_from_cell-int_to_cell_example =
    RoundTrip.int_from_cell-int_to_cell ℕ {S = ℕ} 64 u64 (pos (2 ^ 63)) 1 in_u64

time_from_cell-time_to_cell_example :
    ((Proxy.time_to_cell {O = ℕ} {S = ℕ} (pos 5000000) 1 >>= Proxy.time_from_cell fits_u64) ≡ (
      if 5000000 % 1000000 == 0
      then (if ltb 5000000 (2 ^ 64 * 1000000)
          then ok (pos 5000000)
          else err (invalid_value Expected.fitting_time))
      else err (invalid_value Expected.millisecond_precision)))
    × (Proxy.time_to_cell {O = ℕ} {S = ℕ} (negsuc 5000000) 1
        ≡ err (invalid_value Expected.after_epoch))
time_from_cell-time_to_cell_example =
    RoundTrip.time_from_cell-time_to_cell ℕ {S = ℕ} fits_u64 5000000 1 refl
