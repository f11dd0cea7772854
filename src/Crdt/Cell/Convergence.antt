-- ===== src/Crdt/Cell/Convergence.antt =====
-- Merging cells (zendb-types/src/crdt/cell.rs) whose values are live and of one type: replicas
-- converge, if those of the values do under the stamps of their cells.
use zendb.Prelude.{
  Bool, false, ◌||◌, Option, none, some, Ord, gtb, max, PartialEq, ◌≡◌, ◌↔◌, refl, ap, arith,
  Result, ok, IsSemilattice, agree-IsSemilattice, max_comm, max_assoc, max_idem, later-max,
  gtb-false_iff,
}
use zendb.Crdt.Stamp.{MergeStamps}
use zendb.Crdt.Cell.{Cell, ValueType, merge, merge_values}

module _ {E V S : Type 0} ⦃s : Ord S⦄ (merge_of : V → V → MergeStamps S → V × Result E Bool)
    (join : S → S → V → V → V) (changed : S → S → V → V → Bool) (P : S → V → Type 0) where
  -- The values that satisfy `P` under the stamps of their cells merge to their join without an error,
  -- and report a change exactly when there is one; the join depends on neither order nor grouping.
  pub record Converges : Type 0 where
    pub total :
        (a b : S) (v w : V)
        → P a v
        → P b w
        → merge_of v w (record { current = a; incoming = b }) ≡ (join a b v w, ok (changed a b v w))
    pub exact :
        (a b : S) (v w : V)
        → P a v
        → P b w
        → gtb b a ≡ false
        → (changed a b v w ≡ false) ↔ (join a b v w ≡ v)
    pub closed : (a b : S) (v w : V) → P a v → P b w → P (max a b) (join a b v w)
    pub comm : (a b : S) (v w : V) → P a v → P b w → join a b v w ≡ join b a w v
    pub assoc :
        (a b c : S) (u v w : V)
        → P a u
        → P b v
        → P c w
        → join (max a b) c (join a b u v) w ≡ join a (max b c) u (join b c v w)
    pub idem : (a : S) (v : V) → P a v → join a a v v ≡ v

module _ {T G O E V S : Type 0} (t : ValueType T G O E V S) ⦃eq : PartialEq T⦄ ⦃s : Ord S⦄
    (join : Cell V S → Cell V S → Cell V S) (changed : Cell V S → Cell V S → Bool)
    (Q : Cell V S → Type 0) where
  -- The cells that satisfy `Q` merge under their own stamps to a join without an error, and report a
  -- change exactly when there is one.
  pub record CellConverges : Type 0 where
    pub total :
        (a b : Cell V S)
        → Q a
        → Q b
        → merge t a b (record { current = a.stamp; incoming = b.stamp })
          ≡ (join a b, ok (changed a b))
    pub exact : (a b : Cell V S) → Q a → Q b → (changed a b ≡ false) ↔ (join a b ≡ a)
    pub joined : IsSemilattice Q join

module _ {V S : Type 0} (P : S → V → Type 0) where
  abbrev pub Holds : S → Option V → Type 0
  Holds a none = ⊥
  Holds a (some v) = P a v

  -- The cell is live, and its value satisfies `P` under its stamp.
  abbrev pub IsLive : Cell V S → Type 0
  IsLive c = Holds c.stamp c.value

module _ {V S : Type 0} (join : S → S → V → V → V) where
  abbrev pub join_values : S → S → Option V → Option V → Option V
  join_values a b none w = none
  join_values a b (some v) none = none
  join_values a b (some v) (some w) = some (join a b v w)

module _ {V S : Type 0} ⦃s : Ord S⦄ (join : S → S → V → V → V) where
  abbrev pub join_cell : Cell V S → Cell V S → Cell V S
  join_cell a b = record {
    value = join_values join a.stamp b.stamp a.value b.value;
    stamp = max a.stamp b.stamp;
  }

module _ {V S : Type 0} ⦃s : Ord S⦄ (changed : S → S → V → V → Bool) where
  abbrev pub changed_values : S → S → Option V → Option V → Bool
  changed_values a b none w = false
  changed_values a b (some v) none = false
  changed_values a b (some v) (some w) = gtb b a || changed a b v w

  abbrev pub cell_changed : Cell V S → Cell V S → Bool
  cell_changed a b = changed_values a.stamp b.stamp a.value b.value

module _ {T G O E V S : Type 0} (t : ValueType T G O E V S) ⦃eq : PartialEq T⦄ ⦃s : Ord S⦄
    {join : S → S → V → V → V} {changed : S → S → V → V → Bool} {P : S → V → Type 0}
    (law : Converges t.merge join changed P) (tag : T)
    (tagged : (a : S) (v : V) → P a v → t.type_tag v ≡ tag) where
  values-merge :
      (a b : Cell V S) (x y : Option V)
      → Holds P a.stamp x
      → Holds P b.stamp y
      → a.value ≡ x
      → merge_values t a b x y (record { current = a.stamp; incoming = b.stamp }) ≡ (
        record { value = join_values join a.stamp b.stamp x y; stamp = max a.stamp b.stamp },
        ok (changed_values changed a.stamp b.stamp x y),
      )
  unfolding merge_values
  values-merge a b none y p q e = absurd p
  values-merge a b (some v) none p q e = absurd q
  values-merge a b (some v) (some w) p q e = ground (
    arith,
    law.total a.stamp b.stamp v w p q,
    tagged a.stamp v p,
    tagged b.stamp w q,
    eq.beq_iff (t.type_tag v) (t.type_tag w),
    later-max a.stamp b.stamp,
  )

  pub merge-join :
      (a b : Cell V S)
      → IsLive P a
      → IsLive P b
      → merge t a b (record { current = a.stamp; incoming = b.stamp })
        ≡ (join_cell join a b, ok (cell_changed changed a b))
  unfolding merge
  merge-join a b p q = values-merge a b a.value b.value p q refl

  join-Holds :
      (a b : S) (x y : Option V)
      → Holds P a x
      → Holds P b y
      → Holds P (max a b) (join_values join a b x y)
  join-Holds a b none y p q = p
  join-Holds a b (some v) none p q = q
  join-Holds a b (some v) (some w) p q = law.closed a b v w p q

  join_comm :
      (a b : S) (x y : Option V)
      → Holds P a x
      → Holds P b y
      → join_values join a b x y ≡ join_values join b a y x
  join_comm a b none y p q = absurd p
  join_comm a b (some v) none p q = absurd q
  join_comm a b (some v) (some w) p q = ap some (law.comm a b v w p q)

  join_assoc :
      (a b c : S) (x y z : Option V)
      → Holds P a x
      → Holds P b y
      → Holds P c z
      → join_values join (max a b) c (join_values join a b x y) z
        ≡ join_values join a (max b c) x (join_values join b c y z)
  join_assoc a b c none y z p q r = absurd p
  join_assoc a b c (some u) none z p q r = absurd q
  join_assoc a b c (some u) (some v) none p q r = absurd r
  join_assoc a b c (some u) (some v) (some w) p q r = ap some (law.assoc a b c u v w p q r)

  join_idem : (a : S) (x : Option V) → Holds P a x → join_values join a a x x ≡ x
  join_idem a none p = refl
  join_idem a (some v) p = ap some (law.idem a v p)

  pub join_cell-IsSemilattice : IsSemilattice (IsLive P) (join_cell join)
  join_cell-IsSemilattice = record {
    closed = λ a b p q. join-Holds a.stamp b.stamp a.value b.value p q;
    comm = λ a b p q i. record {
      value = join_comm a.stamp b.stamp a.value b.value p q i;
      stamp = max_comm a.stamp b.stamp i;
    };
    assoc = λ a b c p q r i. record {
      value = join_assoc a.stamp b.stamp c.stamp a.value b.value c.value p q r i;
      stamp = max_assoc a.stamp b.stamp c.stamp i;
    };
    idem = λ a p i. record { value = join_idem a.stamp a.value p i; stamp = max_idem a.stamp i };
  }

  -- Merging live cells of one type, each under its own stamp, is commutative, associative and
  -- idempotent, and keeps them live, if merging their values is under the stamps of the cells.
  pub cell_merge-IsSemilattice :
      IsSemilattice
        (IsLive P)
        (λ a b. (merge t a b (record { current = a.stamp; incoming = b.stamp })).0)
  cell_merge-IsSemilattice =
      agree-IsSemilattice (join_cell join)
        (λ a b. (merge t a b (record { current = a.stamp; incoming = b.stamp })).0)
        (λ a b p q. ap (λ x. x.0) (merge-join a b p q)) join_cell-IsSemilattice

  changed_exact :
      (a b : S) (x y : Option V)
      → Holds P a x
      → Holds P b y
      → (changed_values changed a b x y ≡ false) ↔ ((join_values join a b x y ≡ x) × (max a b ≡ a))
  changed_exact a b none y p q = absurd p
  changed_exact a b (some v) none p q = absurd q
  changed_exact a b (some v) (some w) p q = ground (arith, law.exact a b v w p q, gtb-false_iff a b)

  -- a change is reported exactly when the cell changes
  pub cell_changed-false_iff :
      (a b : Cell V S)
      → IsLive P a
      → IsLive P b
      → (cell_changed changed a b ≡ false) ↔ (join_cell join a b ≡ a)
  cell_changed-false_iff a b p q =
      let both = changed_exact a.stamp b.stamp a.value b.value p q in
      (
        λ e i. record { value = (both.0 e).0 i; stamp = (both.0 e).1 i },
        λ e. both.1 (ap (λ (c : Cell V S). c.value) e, ap (λ (c : Cell V S). c.stamp) e),
      )

  -- Live cells of one type converge, if their values do under the stamps of the cells.
  pub IsLive-CellConverges : CellConverges t (join_cell join) (cell_changed changed) (IsLive P)
  IsLive-CellConverges = record {
    total = merge-join;
    exact = cell_changed-false_iff;
    joined = join_cell-IsSemilattice;
  }
