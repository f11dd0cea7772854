-- ===== src/Crdt/Set/Apply.antt =====
-- Operations on a set: an operation is the merge of a one-element set, so delivery order does not
-- matter, and an operation newer than everything in the set decides membership.
use zendb.Prelude.{
  Bool, true, false, not, ◌||◌, ◌&&◌, [], ◌∷◌, ◌≡◌, arith, Ord, gtb, eqb, max, gtb-max, gtb-asym,
  ok, IsLeast, least-not_later, least_of_not_later, sym, subst, ap, ◌∙◌, refl, some, if◌then◌else◌,
  max_assoc, max_comm, later-max,
}
use zendb.Map.{Map, lookup, insert, lookup-insert, lookup-ext, IsSorted, insert-IsSorted}
use zendb.Map.Merge.Join.{Each, lookup-Each}
use zendb.Map.Merge.{merge_entry, merge_entries}
use zendb.Crdt.Stamp.{MergeStamps}
use zendb.Crdt.Set.{
  Meta, Set, SetOp, is_live, merge_meta, contains, merge, default_meta, entry, apply, max_stamps,
  max_stamp,
}
use zendb.Crdt.Set.Convergence.{IsValid}

module _ {S : Type 0} ⦃s : Ord S⦄ where
  max_swap : (u x y : S) → max (max u x) y ≡ max (max u y) x
  max_swap u x y = max_assoc u x y ∙ ap (max u) (max_comm x y) ∙ sym (max_assoc u y x)

  -- a clock that moves to a later stamp is the maximum
  if_updated :
      (m : Meta S) (x : S)
      → (if gtb x m.updated then record m { updated = x } else m)
        ≡ record m { updated = max m.updated x }
  if_updated m x =
      branch (gtb x m.updated) ∙ ap (λ u. record m { updated = u }) (later-max m.updated x)
    where
      branch :
          (b : Bool)
          → (if b then record m { updated = x } else m)
            ≡ record m { updated = if b then x else m.updated }
      branch true = refl
      branch false = refl

  if_deleted :
      (m : Meta S) (x : S)
      → (if gtb x m.deleted then record m { deleted = x } else m)
        ≡ record m { deleted = max m.deleted x }
  if_deleted m x =
      branch (gtb x m.deleted) ∙ ap (λ u. record m { deleted = u }) (later-max m.deleted x)
    where
      branch :
          (b : Bool)
          → (if b then record m { deleted = x } else m)
            ≡ record m { deleted = if b then x else m.deleted }
      branch true = refl
      branch false = refl

module _ {K S : Type 0} ⦃k : Ord K⦄ ⦃s : Ord S⦄ (zero : S) where
  -- The one-element set that an operation stands for.
  pub delta : SetOp K → S → Set K S
  delta (SetOp.add key) x = record { entries = (key, record { updated = x; deleted = zero }) ∷ [] }
  delta (SetOp.remove key) x = record {
    entries = (key, record { updated = zero; deleted = x }) ∷ [];
  }

  pub delta-IsValid : (op : SetOp K) (x : S) → IsValid (delta op x)
  unfolding delta
  delta-IsValid (SetOp.add key) x = (tt, tt)
  delta-IsValid (SetOp.remove key) x = (tt, tt)

  -- Where the zero stamp is the least, an operation acts on a set as the merge of its one-element
  -- set does.
  pub apply-merge :
      IsLeast zero
      → (a : Set K S) (op : SetOp K) (st : MergeStamps S)
      → (apply zero a op st).0 ≡ (merge a (delta op st.incoming) st).0
  unfolding apply entry merge merge_entries merge_entry merge_meta default_meta delta
  apply-merge least a (SetOp.add key) st = ground (
    arith,
    least-not_later zero least (entry zero a key).deleted,
    least_of_not_later zero least st.incoming,
    least-not_later zero least zero,
  )
  apply-merge least a (SetOp.remove key) st = ground (
    arith,
    least-not_later zero least (entry zero a key).updated,
    least_of_not_later zero least st.incoming,
    least-not_later zero least zero,
  )

  key_of : SetOp K → K
  key_of (SetOp.add key) = key
  key_of (SetOp.remove key) = key

  -- what an operation leaves of the clocks of its key
  stamped : SetOp K → S → Meta S → Meta S
  stamped (SetOp.add key) x m = record m { updated = max m.updated x }
  stamped (SetOp.remove key) x m = record m { deleted = max m.deleted x }

  stamped_comm :
      (op op' : SetOp K) (x x' : S) (m : Meta S)
      → stamped op' x' (stamped op x m) ≡ stamped op x (stamped op' x' m)
  unfolding stamped
  stamped_comm (SetOp.add key) (SetOp.add key') x x' m =
      ap (λ u. record m { updated = u }) (max_swap m.updated x x')
  stamped_comm (SetOp.add key) (SetOp.remove key') x x' m = refl
  stamped_comm (SetOp.remove key) (SetOp.add key') x x' m = refl
  stamped_comm (SetOp.remove key) (SetOp.remove key') x x' m =
      ap (λ u. record m { deleted = u }) (max_swap m.deleted x x')

  apply-insert :
      (a : Set K S) (op : SetOp K) (st : MergeStamps S)
      → (apply zero a op st).0.entries
        ≡ insert (key_of op) (stamped op st.incoming (entry zero a (key_of op))) a.entries
  unfolding apply key_of stamped
  apply-insert a (SetOp.add key) st =
      ap (λ m. insert key m a.entries) (if_updated (entry zero a key) st.incoming)
  apply-insert a (SetOp.remove key) st =
      ap (λ m. insert key m a.entries) (if_deleted (entry zero a key) st.incoming)

  lookup-apply :
      (a : Set K S) (op : SetOp K) (st : MergeStamps S) (q : K)
      → lookup q (apply zero a op st).0.entries ≡ (
          if eqb q (key_of op)
          then some (stamped op st.incoming (entry zero a (key_of op)))
          else lookup q a.entries)
  lookup-apply a op st q =
      ap (lookup q) (apply-insert a op st)
      ∙ lookup-insert (key_of op) q (stamped op st.incoming (entry zero a (key_of op))) a.entries

  entry-apply :
      (a : Set K S) (op : SetOp K) (st : MergeStamps S) (q : K)
      → entry zero (apply zero a op st).0 q ≡ (
          if eqb q (key_of op)
          then stamped op st.incoming (entry zero a (key_of op))
          else entry zero a q)
  unfolding entry
  entry-apply a op st q = ground (arith, lookup-apply a op st q)

  apply-IsValid :
      (a : Set K S) (op : SetOp K) (st : MergeStamps S) → IsValid a → IsValid (apply zero a op st).0
  apply-IsValid a op st v =
      subst IsSorted (sym (apply-insert a op st)) (insert-IsSorted (key_of op) _ a.entries v)

  lookup-apply-apply :
      (a : Set K S) (op op' : SetOp K) (st st' : MergeStamps S) (q : K)
      → lookup q (apply zero (apply zero a op st).0 op' st').0.entries
        ≡ lookup q (apply zero (apply zero a op' st').0 op st).0.entries
  lookup-apply-apply a op op' st st' q = ground (
    arith,
    lookup-apply (apply zero a op st).0 op' st' q,
    lookup-apply (apply zero a op' st').0 op st q,
    lookup-apply a op st q,
    lookup-apply a op' st' q,
    entry-apply a op st (key_of op'),
    entry-apply a op' st' (key_of op),
    stamped_comm op op' st.incoming st'.incoming (entry zero a (key_of op)),
    ap (entry zero a),
    k.cmp_iff (key_of op) (key_of op'),
    k.cmp_iff (key_of op') (key_of op),
    k.cmp_iff q (key_of op),
    k.cmp_iff q (key_of op'),
  )

  -- Two operations on a valid set commute: the state does not depend on their delivery order, whatever the
  -- stamp that an entry without one starts with.
  pub apply-apply :
      (a : Set K S) (op op' : SetOp K) (st st' : MergeStamps S)
      → IsValid a
      → (apply zero (apply zero a op st).0 op' st').0
        ≡ (apply zero (apply zero a op' st').0 op st).0
  apply-apply a op op' st st' v i = record {
    entries =
        lookup-ext (apply zero (apply zero a op st).0 op' st').0.entries
          (apply zero (apply zero a op' st').0 op st).0.entries
          (apply-IsValid (apply zero a op st).0 op' st' (apply-IsValid a op st v))
          (apply-IsValid (apply zero a op' st').0 op st (apply-IsValid a op' st' v))
          (lookup-apply-apply a op op' st st') i;
  }

  -- every clock of the set is below a stamp that is later than all of them
  later-max_stamps :
      (x acc : S) (m : Map K (Meta S))
      → gtb x (max_stamps zero acc m) ≡ true
      → (gtb x acc ≡ true) × Each (λ q e. (gtb x e.updated ≡ true) × (gtb x e.deleted ≡ true)) m
  unfolding max_stamps
  later-max_stamps x acc [] h = (h, tt)
  later-max_stamps x acc ((key, m) ∷ rest) h =
      let later = later-max_stamps x (max (max acc m.updated) m.deleted) rest h in
      let deleted = gtb-max x (max acc m.updated) m.deleted later.0 in
      let updated = gtb-max x acc m.updated deleted.0 in
      (updated.0, ((updated.1, deleted.1), later.1))

  entry_later :
      (a : Set K S) (key : K) (x : S)
      → gtb x (max_stamp zero a) ≡ true
      → (gtb x (entry zero a key).updated ≡ true) × (gtb x (entry zero a key).deleted ≡ true)
  unfolding entry default_meta max_stamp
  entry_later a key x h =
      let later = later-max_stamps x zero a.entries h in
      let found =
        lookup-Each (λ (q : K) (e : Meta S). (gtb x e.updated ≡ true) × (gtb x e.deleted ≡ true))
          key a.entries later.1 in
      ground arith

  -- An operation whose stamp is later than every stamp of the set is a change, and decides: an added
  -- key is contained and a removed one is not, and other keys are as they were.
  pub contains-apply :
      (a : Set K S) (st : MergeStamps S) (key q : K)
      → gtb st.incoming (max_stamp zero a) ≡ true
      → ((apply zero a (SetOp.add key) st).1 ≡ ok true)
        × ((apply zero a (SetOp.remove key) st).1 ≡ ok true)
        × (contains (apply zero a (SetOp.add key) st).0 q ≡ eqb q key || contains a q)
        × (contains (apply zero a (SetOp.remove key) st).0 q ≡ not (eqb q key) && contains a q)
  unfolding apply contains is_live
  contains-apply a st key q h =
      let meta = entry zero a key in
      let x = st.incoming in
      ground (
        arith,
        entry_later a key x h,
        lookup-insert key q (record meta { updated = x }) a.entries,
        lookup-insert key q (record meta { deleted = x }) a.entries,
        gtb-asym x meta.updated,
      )
