-- ===== src/Crdt/MvRegister/Convergence.antt =====
-- Merging multi-value registers that agree on their assignments: replicas converge.
use zendb.Prelude.{
  Bool, true, false, ◌||◌, Option, none, some, if◌then◌else◌, Ord, max, max-IsSemilattice,
  IsSemilattice, PartialEq, Result, ok, ◌≡◌, refl, sym, ap, subst, ◌∙◌, arith, Any,
}
use zendb.Map.{Map, lookup, contains_key, keys, IsSorted, lookup-ext}
use zendb.Map.Merge.Join.{Valid, Each-any, lookup-Each, join, join-IsSorted, OnSome}
use zendb.Map.Merge.Convergence.{join-IsSemilattice}
use zendb.Map.Merge.Loop.{changes}
use zendb.Crdt.Stamp.{MergeStamps}
use zendb.Crdt.Removals.Join.{later, merge_removals-join}
use zendb.Crdt.MvRegister.{
  MvRegister, remove_all, add_entries, merge, merge_values, MvRegisterError,
}
use zendb.Crdt.MvRegister.Lookup.{
  or_else, Agrees, add_entries-ok, lookup-remove_all, remove_all-IsSorted, remove_all-Each,
  contains_key-join,
}

module _ {V S : Type 0} ⦃v : PartialEq V⦄ ⦃s : Ord S⦄ (assigned : S → V) where
  -- The maps are in stamp order, the entries hold the values that were assigned under their stamps
  -- (stamps are globally unique, so this is one function for all replicas), and no entry is removed.
  abbrev pub IsValid : MvRegister V S → Type 0
  IsValid r =
      IsSorted r.removed
      × Valid (Agrees assigned) r.entries
      × ((id : S) → contains_key id r.removed ≡ true → lookup id r.entries ≡ none)

  -- What a merge leaves where it does not fail.
  abbrev Merged :
      MvRegister V S
      → MvRegister V S
      → Map S S
      → MvRegister V S × Result (MvRegisterError S) Bool
      → Type 0
  Merged a b r done =
      (c : Bool) × (done.1 ≡ ok c)
      × (done.0.removed ≡ r)
      × Valid (Agrees assigned) done.0.entries
      × ((q : S)
          → lookup q done.0.entries ≡ (
              if contains_key q r then none else or_else (lookup q a.entries) (lookup q b.entries)))

  merge_values-Merged :
      (a b : MvRegister V S) (r : Map S S) (c : Bool)
      → IsValid a
      → IsValid b
      → Merged a b r (merge_values a.entries b.entries (r, c))
  unfolding merge_values
  merge_values-Merged a b r c ha hb =
      let (d, done, sorted, each, looks) =
        add_entries-ok assigned c r a.entries b.entries ha.1.0 ha.1.1 hb.1.1 in
      let m = (add_entries c r a.entries b.entries).0 in
      rw (done, merge_values)
        (
          (remove_all d (keys r) m).1,
          refl,
          refl,
          (
            remove_all-IsSorted d (keys r) m sorted,
            remove_all-Each (Agrees assigned) d (keys r) m each,
          ),
          λ q. lookup-remove_all d q r m sorted ∙ ground (arith, looks q),
        )

  -- A merge of valid registers does not fail.
  merge-Merged :
      (a b : MvRegister V S) (st : MergeStamps S)
      → IsValid a
      → IsValid b
      → Merged a b (join max a.removed b.removed) (merge a b st)
  unfolding merge
  merge-Merged a b st ha hb =
      let c = false || changes later a.removed b.removed in
      subst (λ rc. Merged a b (join max a.removed b.removed) (merge_values a.entries b.entries rc))
        (sym (merge_removals-join false a.removed b.removed ha.0 hb.0))
        (merge_values-Merged a b (join max a.removed b.removed) c ha hb)

  -- two registers with the same removals and the same entries
  same-MvRegister :
      (a b : MvRegister V S)
      → IsSorted a.entries
      → IsSorted b.entries
      → a.removed ≡ b.removed
      → ((q : S) → lookup q a.entries ≡ lookup q b.entries)
      → a ≡ b
  same-MvRegister a b ha hb removed looks =
      λ i. record { entries = lookup-ext a.entries b.entries ha hb looks i; removed = removed i }

  -- the merge of the removals
  removals-IsSemilattice : IsSemilattice (Valid {K = S} {V = S} (λ id. Any)) (join max)
  removals-IsSemilattice = join-IsSemilattice (λ id. max-IsSemilattice)

  merge-IsValid :
      (a b : MvRegister V S) (st : MergeStamps S) → IsValid a → IsValid b → IsValid (merge a b st).0
  merge-IsValid a b st ha hb =
      let (c, done, removed, entries, looks) = merge-Merged a b st ha hb in
      (
        subst (λ m. IsSorted m) (sym removed) (join-IsSorted max a.removed b.removed ha.0),
        entries,
        λ q gone. looks q ∙ ground (arith, ap (contains_key q) removed, gone),
      )

  -- the removals of a merge
  merge-removed :
      (a b : MvRegister V S) (st : MergeStamps S)
      → IsValid a
      → IsValid b
      → (merge a b st).0.removed ≡ join max a.removed b.removed
  merge-removed a b st ha hb = (merge-Merged a b st ha hb).2

  -- the entries of a merge
  lookup-merge :
      (q : S) (a b : MvRegister V S) (st : MergeStamps S)
      → IsValid a
      → IsValid b
      → lookup q (merge a b st).0.entries ≡ (
          if contains_key q a.removed || contains_key q b.removed
          then none
          else or_else (lookup q a.entries) (lookup q b.entries))
  lookup-merge q a b st ha hb =
      (merge-Merged a b st ha hb).4 q ∙ ground (arith, contains_key-join q a.removed b.removed hb.0)

  contains_key-merge :
      (q : S) (a b : MvRegister V S) (st : MergeStamps S)
      → IsValid a
      → IsValid b
      → contains_key q (merge a b st).0.removed
        ≡ (contains_key q a.removed || contains_key q b.removed)
  contains_key-merge q a b st ha hb =
      ap (contains_key q) (merge-removed a b st ha hb)
      ∙ contains_key-join q a.removed b.removed hb.0

  -- What is assigned under an identity is one value.
  or_else_comm :
      (q : S) (a b : Option V)
      → OnSome (Agrees assigned q) a
      → OnSome (Agrees assigned q) b
      → or_else a b ≡ or_else b a
  or_else_comm q none none h k = refl
  or_else_comm q none (some y) h k = refl
  or_else_comm q (some x) none h k = refl
  or_else_comm q (some x) (some y) h k = ap some (h ∙ sym k)

  merge_comm :
      (a b : MvRegister V S) (st : MergeStamps S)
      → IsValid a
      → IsValid b
      → (merge a b st).0 ≡ (merge b a st).0
  merge_comm a b st ha hb =
      same-MvRegister (merge a b st).0 (merge b a st).0 (merge-IsValid a b st ha hb).1.0
        (merge-IsValid b a st hb ha).1.0
        (merge-removed a b st ha hb
          ∙ removals-IsSemilattice.comm a.removed b.removed (ha.0, Each-any a.removed)
              (hb.0, Each-any b.removed)
          ∙ sym (merge-removed b a st hb ha))
        (λ q.
          lookup-merge q a b st ha hb
          ∙ ground (
            arith,
            or_else_comm q (lookup q a.entries) (lookup q b.entries)
                (lookup-Each (Agrees assigned) q a.entries ha.1.1)
                (lookup-Each (Agrees assigned) q b.entries hb.1.1),
          )
          ∙ sym (lookup-merge q b a st hb ha))

  merge_assoc :
      (a b c : MvRegister V S) (st : MergeStamps S)
      → IsValid a
      → IsValid b
      → IsValid c
      → (merge (merge a b st).0 c st).0 ≡ (merge a (merge b c st).0 st).0
  merge_assoc a b c st ha hb hc =
      let ab = (merge a b st).0 in
      let bc = (merge b c st).0 in
      let hab = merge-IsValid a b st ha hb in
      let hbc = merge-IsValid b c st hb hc in
      same-MvRegister (merge ab c st).0 (merge a bc st).0 (merge-IsValid ab c st hab hc).1.0
        (merge-IsValid a bc st ha hbc).1.0
        (merge-removed ab c st hab hc
          ∙ ap (λ m. join max m c.removed) (merge-removed a b st ha hb)
          ∙ removals-IsSemilattice.assoc a.removed b.removed c.removed (ha.0, Each-any a.removed)
              (hb.0, Each-any b.removed) (hc.0, Each-any c.removed)
          ∙ ap (join max a.removed) (sym (merge-removed b c st hb hc))
          ∙ sym (merge-removed a bc st ha hbc))
        (λ q.
          lookup-merge q ab c st hab hc
          ∙ ground (
            arith,
            lookup-merge q a b st ha hb,
            lookup-merge q b c st hb hc,
            contains_key-merge q a b st ha hb,
            contains_key-merge q b c st hb hc,
          )
          ∙ sym (lookup-merge q a bc st ha hbc))

  merge_idem : (a : MvRegister V S) (st : MergeStamps S) → IsValid a → (merge a a st).0 ≡ a
  merge_idem a st ha =
      same-MvRegister (merge a a st).0 a (merge-IsValid a a st ha ha).1.0 ha.1.0
        (merge-removed a a st ha ha
          ∙ removals-IsSemilattice.idem a.removed (ha.0, Each-any a.removed))
        (λ q. lookup-merge q a a st ha ha ∙ ground (arith, ha.2 q))

  -- Merging replicas of a register that agree on the value that was assigned under each stamp is
  -- commutative, associative and idempotent; the removals and the entries stay in order, and no
  -- removed assignment is visible.
  pub mv_merge-IsSemilattice :
      (st : MergeStamps S) → IsSemilattice IsValid (λ a b. (merge a b st).0)
  mv_merge-IsSemilattice st = record {
    closed = λ a b ha hb. merge-IsValid a b st ha hb;
    comm = λ a b ha hb. merge_comm a b st ha hb;
    assoc = λ a b c ha hb hc. merge_assoc a b c st ha hb hc;
    idem = λ a ha. merge_idem a st ha;
  }
