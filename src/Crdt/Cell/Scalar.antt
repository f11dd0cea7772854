-- ===== src/Crdt/Cell/Scalar.antt =====
-- Cells of scalar values (zendb-types/src/crdt/cell.rs with the `merge` of bool.rs, int.rs and the
-- other scalars of zendb-types/src/crdt/values): last-writer-wins registers, with their tombstones.
use zendb.Prelude.{
  Bool, true, false, Option, none, some, Ord, gtb, max, PartialEq, ◌≡◌, refl, ap, arith, Result, ok,
  IsSemilattice, if◌then◌else◌, ◌∙◌, sym, cmp_refl,
}
use zendb.Crdt.Stamp.{MergeStamps}
use zendb.Crdt.Cell.{Cell, ValueType, merge, merge_values}
use zendb.Crdt.Cell.Convergence.{CellConverges, Converges}

module _ {V S : Type 0} ⦃s : Ord S⦄ where
  -- The `merge` of a scalar: the value of the later stamp.
  unfoldable pub merge_scalar : {E : Type 0} → V → V → MergeStamps S → V × Result E Bool
  merge_scalar self remote stamps =
      if gtb stamps.incoming stamps.current then (remote, ok true) else (self, ok false)

module _ {V S : Type 0} ⦃s : Ord S⦄ where
  abbrev pub later_cell : Cell V S → Cell V S → Cell V S
  later_cell a b = if gtb b.stamp a.stamp then b else a

  abbrev pub is_later : Cell V S → Cell V S → Bool
  is_later a b = gtb b.stamp a.stamp

-- The cell holds what was written under its stamp: a value, or `none` for a delete.
abbrev pub IsWritten : {V S : Type 0} → (S → Option V) → Cell V S → Type 0
IsWritten written c = c.value ≡ written c.stamp

module _ {V S : Type 0} ⦃s : Ord S⦄ (written : S → Option V) where
  written_unique :
      (a b : Cell V S) → IsWritten written a → IsWritten written b → a.stamp ≡ b.stamp → a ≡ b
  written_unique a b p q e i = record { value = (p ∙ ap written e ∙ sym q) i; stamp = e i }

  later_cell-IsSemilattice : IsSemilattice (IsWritten written) later_cell
  later_cell-IsSemilattice = record {
    closed = λ a b p q. ground arith;
    comm = λ a b p q.
        ground
          (arith, written_unique a b p q, s.cmp_iff a.stamp b.stamp, s.cmp_reverse a.stamp b.stamp);
    assoc = λ a b c p q r. ground (
      arith,
      s.cmp_iff a.stamp b.stamp,
      s.cmp_iff b.stamp c.stamp,
      s.cmp_reverse a.stamp b.stamp,
      s.cmp_reverse b.stamp c.stamp,
      s.cmp_reverse a.stamp c.stamp,
      s.cmp_trans a.stamp b.stamp c.stamp,
      s.cmp_trans c.stamp b.stamp a.stamp,
    );
    idem = λ a p. ground arith;
  }

module _ {T G O E V S : Type 0} (t : ValueType T G O E V S) ⦃eq : PartialEq T⦄ ⦃s : Ord S⦄
    (scalar : (v w : V) (st : MergeStamps S)
      → t.type_tag v ≡ t.type_tag w
      → t.merge v w st ≡ merge_scalar v w st) where
  merge_values-later :
      (a b : Cell V S) (x y : Option V)
      → a.value ≡ x
      → b.value ≡ y
      → merge_values t a b x y (record { current = a.stamp; incoming = b.stamp })
        ≡ (later_cell a b, ok (is_later a b))
  unfolding merge_values merge_scalar
  merge_values-later a b none y p q = ground arith
  merge_values-later a b (some v) none p q = ground arith
  merge_values-later a b (some v) (some w) p q = ground (
    arith,
    scalar v w (record { current = a.stamp; incoming = b.stamp }),
    eq.beq_iff (t.type_tag v) (t.type_tag w),
  )

  -- Merging cells of scalars, of any types, leaves the cell of the later stamp, and reports whether
  -- that is the incoming one.
  pub scalar_merge-later :
      (a b : Cell V S)
      → merge t a b (record { current = a.stamp; incoming = b.stamp })
        ≡ (later_cell a b, ok (is_later a b))
  unfolding merge
  scalar_merge-later a b = merge_values-later a b a.value b.value refl refl

  -- Cells of scalars, tombstones included, converge, if they hold what was written under their stamps.
  pub scalar-CellConverges :
      (written : S → Option V) → CellConverges t later_cell is_later (IsWritten written)
  scalar-CellConverges written = record {
    total = λ a b p q. scalar_merge-later a b;
    exact = λ a b p q. ground (arith, written_unique written a b p q, cmp_refl a.stamp);
    joined = later_cell-IsSemilattice written;
  }

module _ {V S : Type 0} ⦃s : Ord S⦄ where
  abbrev pub later_value : S → S → V → V → V
  later_value a b v w = if gtb b a then w else v

  later_value_comm :
      (written : S → V) (a b : S) (v w : V)
      → v ≡ written a
      → w ≡ written b
      → later_value a b v w ≡ later_value b a w v
  later_value_comm written a b v w p q =
      ground (arith, s.cmp_reverse a b, s.cmp_iff a b, λ (e : a ≡ b). p ∙ ap written e ∙ sym q)

module _ {E V S : Type 0} ⦃s : Ord S⦄ where
  -- Scalars under stamps that determine what was written are values that converge.
  pub scalar-Converges :
      (written : S → V)
      → Converges {E = E} merge_scalar later_value (λ a b v w. gtb b a) (λ a v. v ≡ written a)
  unfolding merge_scalar max
  scalar-Converges written = record {
    total = λ a b v w p q. ground arith;
    exact = λ a b v w p q h. ground (arith, h);
    closed = λ a b v w p q. ground (arith, p, q, s.cmp_reverse a b, s.cmp_iff a b);
    comm = λ a b v w p q. later_value_comm written a b v w p q;
    assoc = λ a b c u v w p q r. ground (
      arith,
      s.cmp_iff a b,
      s.cmp_iff b c,
      s.cmp_reverse a b,
      s.cmp_reverse b c,
      s.cmp_reverse a c,
      s.cmp_trans a b c,
      s.cmp_trans c b a,
    );
    idem = λ a v p. ground arith;
  }
