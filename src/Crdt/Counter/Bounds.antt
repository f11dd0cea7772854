-- ===== src/Crdt/Counter/Bounds.antt =====
-- The components of a counter stay within u64.
use zendb.Prelude.{ℕ, zero, suc, Option, none, some, arith, Ord}
use zendb.Prelude.Int.{pos, negsuc}
use zendb.Map.{lookup, insert-IsSorted}
use zendb.Map.Merge.Join.{lookup-Each, Each-insert, OnSome}
use zendb.Crdt.Stamp.{EventStamp, MergeStamps}
use zendb.Crdt.Counter.{Counter, CounterOp, add, increase_pos, increase_neg, entry, store, apply}
use zendb.Crdt.Counter.Convergence.{InRange, IsValid}

increase_pos-InRange : (e : ℕ × ℕ) (n : ℕ) → InRange e → OnSome InRange (increase_pos e n)
unfolding increase_pos
increase_pos-InRange e n r = ground arith

increase_neg-InRange : (e : ℕ × ℕ) (n : ℕ) → InRange e → OnSome InRange (increase_neg e n)
unfolding increase_neg
increase_neg-InRange e n r = ground arith

module _ {P : Type 0} ⦃p : Ord P⦄ where
  entry-InRange : (c : Counter P) (peer : P) → IsValid c → InRange (entry c peer)
  unfolding entry
  entry-InRange c peer v =
      found (lookup peer c.entries) (lookup-Each (λ q. InRange) peer c.entries v.1)
    where
      found :
          (o : Option (ℕ × ℕ)) → OnSome InRange o → InRange (elim o [ none ↦ (0, 0) | some e ↦ e ])
      found none h = omega arith
      found (some e) h = h

  store-IsValid :
      (c : Counter P) (peer : P) (new : Option (ℕ × ℕ))
      → IsValid c
      → OnSome InRange new
      → IsValid (store c peer (entry c peer) new).0
  unfolding store
  store-IsValid c peer none v r = (
    insert-IsSorted peer _ c.entries v.0,
    Each-insert (λ q. InRange) peer _ c.entries (entry-InRange c peer v) v.1,
  )
  store-IsValid c peer (some e) v r =
      (insert-IsSorted peer e c.entries v.0, Each-insert (λ q. InRange) peer e c.entries r v.1)

  -- An operation keeps a valid counter valid, with every component a u64, also where it fails.
  pub counter_apply-IsValid :
      (c : Counter P) (op : CounterOp) (st : MergeStamps (EventStamp P))
      → IsValid c
      → IsValid (apply c op st).0
  unfolding apply
  counter_apply-IsValid c (add (pos zero)) st v = v
  counter_apply-IsValid c (add (pos (suc n))) st v =
      let peer = st.incoming.id.peer_id in
      store-IsValid c peer _ v (increase_pos-InRange _ (suc n) (entry-InRange c peer v))
  counter_apply-IsValid c (add (negsuc n)) st v =
      let peer = st.incoming.id.peer_id in
      store-IsValid c peer _ v (increase_neg-InRange _ (suc n) (entry-InRange c peer v))
