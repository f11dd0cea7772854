-- ===== src/Crdt/OrSet/Entry.antt =====
-- Merging two entries of an observed-remove set joins their add tags and their removals.
use zendb.Prelude.{
  ◌+◌, ◌≤◌, Bool, false, ◌||◌, ◌↔◌, ◌≡◌, refl, ap, arith, Ord, max, max-IsSemilattice, none, some,
  [], ◌∷◌, ok, Any, IsSemilattice, wrap-IsSemilattice, pair-IsSemilattice, Option, ltb,
  gtb-false_iff,
}
use zendb.Map.{Map, lookup, insert, IsSorted, lookup-Above, Above-trans, insert-IsSorted}
use zendb.Map.Merge.Join.{join, Valid, Each-any, OnSome}
use zendb.Map.Merge.Loop.{changes, changes-insert, changes-false_iff, Exact}
use zendb.Map.Merge.Convergence.{join-IsSemilattice}
use zendb.Crdt.Removals.Join.{later, merge_removals-join}
use zendb.Crdt.OrSet.{OrSetEntry, len, extend, merge_both}

abbrev pub first : Unit {0} → Unit {0} → Unit {0}
first a b = a

abbrev never : Unit {0} → Unit {0} → Bool
never a b = false

first-IsSemilattice : IsSemilattice Any first
first-IsSemilattice = record {
  closed = λ a b p q. tt;
  comm = λ a b p q. refl;
  assoc = λ a b c p q r. refl;
  idem = λ a p. refl;
}

or-false_iff : (a b : Bool) → ((a || b) ≡ false) ↔ ((a ≡ false) × (b ≡ false))
or-false_iff a b = ground arith

module _ {S : Type 0} ⦃s : Ord S⦄ where
  len-insert :
      (tag : S) (m : Map S (Unit {0}))
      → IsSorted m
      → len (insert tag tt m) ≡ len m + (elim (lookup tag m) [ none ↦ 1 | some _ ↦ 0 ])
  unfolding len insert lookup
  len-insert tag [] v = omega arith
  len-insert tag ((q, w) ∷ m) v =
      ground (arith, len-insert tag m, lookup-Above tag m, Above-trans tag q m)

  len-le-extend : (m rs : Map S (Unit {0})) → IsSorted m → len m ≤ len (extend m rs)
  unfolding extend
  len-le-extend m [] v = omega arith
  len-le-extend m ((tag, u) ∷ rs) v =
      omega
        (arith, len-insert tag m v, len-le-extend (insert tag tt m) rs (insert-IsSorted tag tt m v))

  extend-join : (m rs : Map S (Unit {0})) → extend m rs ≡ join first m rs
  unfolding extend join
  extend-join m [] = refl
  extend-join m ((tag, u) ∷ rs) = extend-join (insert tag tt m) rs

  -- the set grows exactly when a tag is new
  grows-changes :
      (m rs : Map S (Unit {0}))
      → IsSorted m
      → IsSorted rs
      → ltb (len m) (len (extend m rs)) ≡ changes never m rs
  unfolding extend changes
  grows-changes m [] v w = ground arith
  grows-changes m ((tag, u) ∷ rs) v w = ground (
    arith,
    len-insert tag m v,
    len-le-extend (insert tag tt m) rs (insert-IsSorted tag tt m v),
    grows-changes (insert tag tt m) rs (insert-IsSorted tag tt m v) w.1,
    changes-insert never tag tt m rs w.0,
  )

  -- Tags and removals are in stamp order, as the `BTreeSet` and the `BTreeMap` keep them.
  abbrev pub IsOrdered : OrSetEntry S → Type 0
  IsOrdered e = IsSorted e.adds × IsSorted e.rems

  unfoldable pub join_entry : OrSetEntry S → OrSetEntry S → OrSetEntry S
  join_entry a b = record { adds = join first a.adds b.adds; rems = join max a.rems b.rems }

  pub entry_changes : OrSetEntry S → OrSetEntry S → Bool
  entry_changes a b = changes later a.rems b.rems || changes never a.adds b.adds

  pub merge_both-join :
      (a b : OrSetEntry S)
      → IsOrdered a
      → IsOrdered b
      → merge_both a b ≡ (join_entry a b, ok (entry_changes a b))
  unfolding merge_both join_entry entry_changes
  merge_both-join a b v w = rw (
    merge_removals-join false a.rems b.rems v.1 w.1,
    grows-changes a.adds b.adds v.0 w.0,
    extend-join a.adds b.adds,
  )

  tags : IsSemilattice (Valid {K = S} (λ tag. Any)) (join first)
  tags = join-IsSemilattice (λ tag. first-IsSemilattice)

  removals : IsSemilattice (Valid {K = S} {V = S} (λ tag. Any)) (join max)
  removals = join-IsSemilattice (λ tag. max-IsSemilattice)

  pub join_entry-IsSemilattice : IsSemilattice IsOrdered join_entry
  unfolding join_entry
  join_entry-IsSemilattice =
      wrap-IsSemilattice (λ p. record { adds = p.0; rems = p.1 }) (λ e. (e.adds, e.rems))
        (λ p. refl) (λ e. refl) (λ e v. ((v.0, Each-any e.adds), (v.1, Each-any e.rems)))
        (λ p v. (v.0.0, v.1.0))
        (pair-IsSemilattice (Valid (λ tag. Any)) (Valid (λ tag. Any)) (join first) (join max) tags
          removals)

  never-Exact : (m rs : Map S (Unit {0})) → Exact first never m rs
  never-Exact m [] = tt
  never-Exact m ((tag, u) ∷ rs) = (found (lookup tag m), never-Exact m rs)
    where
      found : (o : Option (Unit {0})) → OnSome (λ l. (never l u ≡ false) ↔ (first l u ≡ l)) o
      found none = tt
      found (some l) = (λ h. refl, λ h. refl)

  later-Exact : (m rs : Map S S) → Exact max later m rs
  later-Exact m [] = tt
  later-Exact m ((tag, x) ∷ rs) = (found (lookup tag m), later-Exact m rs)
    where
      found : (o : Option S) → OnSome (λ l. (later l x ≡ false) ↔ (max l x ≡ l)) o
      found none = tt
      found (some l) = gtb-false_iff l x

  pub entry_changes-false_iff :
      (a b : OrSetEntry S)
      → IsOrdered a
      → IsOrdered b
      → (entry_changes a b ≡ false) ↔ (join_entry a b ≡ a)
  unfolding entry_changes join_entry
  entry_changes-false_iff a b v w =
      let r = changes-false_iff max later a.rems b.rems v.1 w.1 (later-Exact a.rems b.rems) in
      let t = changes-false_iff first never a.adds b.adds v.0 w.0 (never-Exact a.adds b.adds) in
      (
        λ h.
            let both =
              (or-false_iff (changes later a.rems b.rems) (changes never a.adds b.adds)).0 h in
            λ i. record { adds = t.0 both.1 i; rems = r.0 both.0 i },
        λ h.
            (or-false_iff (changes later a.rems b.rems) (changes never a.adds b.adds)).1 (
              r.1 (ap (λ (e : OrSetEntry S). e.rems) h),
              t.1 (ap (λ (e : OrSetEntry S). e.adds) h),
            ),
      )
