-- ===== src/Crdt/Proxy/RoundTrip.antt =====
-- The conversions of int.rs and timestamp.rs in zendb-types/src/crdt/values, and of the other scalars: what
-- a cell gives back of what was stored in it.
use zendb.Prelude.{
  ℕ, ◌*◌, ◌/◌, ◌%◌, ◌^◌, ◌==◌, Bool, true, Option, none, some, if◌then◌else◌, ltb, ◌≡◌, refl, arith,
  Result, ok, err, ◌>>=◌, ◌∙◌, ap, sym,
}
use zendb.Prelude.Int.{ℤ, pos, negsuc}
use zendb.Crdt.Cell.{Cell}
use zendb.Crdt.Proxy.{
  IntType, CellProxyError, Value, in_signed, in_unsigned, in_range, try_from, narrow, widen,
  cell_of, int_of, int_from_cell, int_to_cell, time_from_cell, time_to_cell,
}
use zendb.Crdt.Proxy.IntType.{i8, i16, i32, i64, isize, u8, u16, u32, u64, usize}
use zendb.Crdt.Proxy.Expected.{representable, fitting_time, millisecond_precision, after_epoch}
use zendb.Crdt.Proxy.CellProxyError.{invalid_value}
use zendb.Crdt.Proxy.Value.{int, bool_value, string_value, float32, float64, timestamp, blob, other}

chain :
    {E A B C : Type 0} (r : Result E A) (f : A → Result E B) (g : B → Result E C)
    → (r >>= λ a. f a >>= g) ≡ (r >>= f >>= g)
chain (ok a) f g = refl
chain (err e) f g = refl

narrow-widen :
    (width : ℕ) (t : IntType) (v : ℤ)
    → in_range width t v ≡ true
    → (widen width t v >>= narrow width t)
      ≡ (if in_range width i64 v then ok v else err (invalid_value (representable t)))
unfolding widen narrow try_from in_range in_signed in_unsigned
narrow-widen width i8 v h = ground (arith, h)
narrow-widen width i16 v h = ground (arith, h)
narrow-widen width i32 v h = ground (arith, h)
narrow-widen width i64 v h = ground (arith, h)
narrow-widen width isize v h = ground (arith, h)
narrow-widen width u8 v h = ground (arith, h)
narrow-widen width u16 v h = ground (arith, h)
narrow-widen width u32 v h = ground (arith, h)
narrow-widen width u64 v h = ground (arith, h)
narrow-widen width usize v h = ground (arith, h)

widen-narrow :
    (width : ℕ) (t : IntType) (v : ℤ)
    → in_range width i64 v ≡ true
    → (narrow width t v >>= widen width t) ≡ (narrow width t v >>= λ w. ok v)
unfolding widen narrow try_from in_range
widen-narrow width i8 v h = ground (arith, h)
widen-narrow width i16 v h = ground (arith, h)
widen-narrow width i32 v h = ground (arith, h)
widen-narrow width i64 v h = ground (arith, h)
widen-narrow width isize v h = ground (arith, h)
widen-narrow width u8 v h = ground (arith, h)
widen-narrow width u16 v h = ground (arith, h)
widen-narrow width u32 v h = ground (arith, h)
widen-narrow width u64 v h = ground (arith, h)
widen-narrow width usize v h = ground (arith, h)

-- An Int cell holds an i64, a Timestamp cell a u64.
abbrev pub IsMachineValue : {O : Type 0} → ℕ → Option (Value O) → Type 0
IsMachineValue width (some (int v)) = in_range width i64 v ≡ true
IsMachineValue width (some (timestamp ms)) = ltb ms (2 ^ 64) ≡ true
IsMachineValue width _ = Unit

module _ (O : Type 0) {S : Type 0} where
  -- A number of a machine type that is stored in a cell and read back is the same, or the store fails
  -- with the error of its type, exactly if the number does not fit an i64.
  pub int_from_cell-int_to_cell :
      (width : ℕ) (t : IntType) (v : ℤ) (stamp : S)
      → in_range width t v ≡ true
      → (int_to_cell {O = O} width t v stamp >>= int_from_cell width t)
        ≡ (if in_range width i64 v then ok v else err (invalid_value (representable t)))
  unfolding int_to_cell int_from_cell int_of
  int_from_cell-int_to_cell width t v stamp h = through (widen width t v) ∙ narrow-widen width t v h
    where
      through :
          (r : Result CellProxyError ℤ)
          → ((r >>= λ w. ok (cell_of {O = O} (int w) stamp)) >>= int_from_cell width t)
            ≡ (r >>= narrow width t)
      through (ok w) = refl
      through (err e) = refl

module _ {O S : Type 0} where
  int_of-widen :
      (width : ℕ) (t : IntType) (c : Cell (Value O) S) (x : Option (Value O))
      → c.value ≡ x
      → IsMachineValue width x
      → ((int_of x >>= narrow width t) >>= λ v. int_to_cell width t v c.stamp)
        ≡ ((int_of x >>= narrow width t) >>= λ v. ok c)
  unfolding int_of int_to_cell
  int_of-widen width t c none e h = refl
  int_of-widen width t c (some (int v)) e h =
      chain (narrow width t v) (widen width t) (λ u. ok (cell_of (int u) c.stamp))
      ∙ ap (λ r. r >>= λ u. ok (cell_of (int u) c.stamp)) (widen-narrow width t v h)
      ∙ stored (narrow width t v)
    where
      same : cell_of (int v) c.stamp ≡ c
      same i = record { value = sym e i; stamp = c.stamp }

      stored :
          (r : Result CellProxyError ℤ)
          → ((r >>= λ w. ok v) >>= λ u. ok (cell_of (int u) c.stamp)) ≡ (r >>= λ w. ok c)
      stored (ok w) = ap ok same
      stored (err x) = refl
  int_of-widen width t c (some (bool_value b)) e h = refl
  int_of-widen width t c (some (string_value b)) e h = refl
  int_of-widen width t c (some (float32 b)) e h = refl
  int_of-widen width t c (some (float64 b)) e h = refl
  int_of-widen width t c (some (timestamp b)) e h = refl
  int_of-widen width t c (some (blob b)) e h = refl
  int_of-widen width t c (some (other b)) e h = refl

  -- A cell that is read as a number of a machine type, and the number stored under the cell's stamp, give
  -- the cell again. The store does not fail, whatever the type.
  pub int_to_cell-int_from_cell :
      (width : ℕ) (t : IntType) (c : Cell (Value O) S)
      → IsMachineValue width c.value
      → (int_from_cell width t c >>= λ v. int_to_cell width t v c.stamp)
        ≡ (int_from_cell width t c >>= λ v. ok c)
  unfolding int_from_cell
  int_to_cell-int_from_cell width t c h = int_of-widen width t c c.value refl h

whole : (n : ℕ) → n % 1000000 ≡ 0 → n / 1000000 * 1000000 ≡ n
whole n h = omega (arith, h)

whole_bound : (n b : ℕ) → n % 1000000 ≡ 0 → ltb (n / 1000000) b ≡ ltb n (b * 1000000)
whole_bound n b h = ground (arith, h)

module _ (O : Type 0) {S : Type 0} (is_representable : ℕ → Bool) where
  -- A time that is stored in a cell and read back is the same, if the platform can represent it. The
  -- store fails for a time before the epoch, then for one that is not of whole milliseconds, then for
  -- one of 2^64 milliseconds or more.
  pub time_from_cell-time_to_cell :
      (n : ℕ) (stamp : S)
      → is_representable n ≡ true
      → ((time_to_cell {O = O} (pos n) stamp >>= time_from_cell is_representable) ≡ (
          if n % 1000000 == 0
          then (if ltb n (2 ^ 64 * 1000000) then ok (pos n) else err (invalid_value fitting_time))
          else err (invalid_value millisecond_precision)))
        × (time_to_cell {O = O} (negsuc n) stamp ≡ err (invalid_value after_epoch))
  unfolding time_to_cell time_from_cell
  time_from_cell-time_to_cell n stamp h = (
    ground (
      arith,
      λ (z : n % 1000000 ≡ 0). ap is_representable (whole n z),
      whole_bound n (2 ^ 64),
      h,
    ),
    refl,
  )
