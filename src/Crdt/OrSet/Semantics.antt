-- ===== src/Crdt/OrSet/Semantics.antt =====
-- Membership in an observed-remove set: what the operations do to it, and that an add which a remove
-- has not observed survives a merge.
use zendb.Prelude.{
  Bool, true, false, not, ◌||◌, ◌&&◌, none, some, List, [], ◌∷◌, ◌≡◌, refl, ◌∙◌, arith, Ord, max,
  eqb, cmp_refl, Option,
}
use zendb.Map.{Map, lookup, insert, keys, contains_key, lookup-insert}
use zendb.Map.Merge.Join.{combine, lookup-join, lookup-Each, OnSome}
use zendb.Map.Merge.Total.{loop-join}
use zendb.Crdt.Stamp.{MergeStamps}
use zendb.Crdt.Removals.{advance, advance_all}
use zendb.Crdt.OrSet.{
  OrSet, OrSetEntry, OrSetOp, default_entry, any_live, is_live, contains, remove_op, entry, apply,
  merge_both, merge,
}
use zendb.Crdt.OrSet.Entry.{
  IsOrdered, first, join_entry, entry_changes, merge_both-join, entry_changes-false_iff,
  join_entry-IsSemilattice,
}
use zendb.Crdt.OrSet.Convergence.{IsValid, or_set_merge-IsSemilattice}

module _ {S : Type 0} ⦃s : Ord S⦄ where
  any_live_of_tag :
      (tag : S) (adds : Map S (Unit {0})) (rems : Map S S)
      → contains_key tag adds ≡ true
      → contains_key tag rems ≡ false
      → any_live adds rems ≡ true
  unfolding any_live lookup
  any_live_of_tag tag [] rems h n = ground arith
  any_live_of_tag tag ((q, u) ∷ adds) rems h n =
      ground (arith, any_live_of_tag tag adds rems, s.cmp_iff tag q)

  contains_key-advance :
      (q tag x : S) (m : Map S S)
      → contains_key q (advance tag x m).0 ≡ eqb q tag || contains_key q m
  unfolding advance
  contains_key-advance q tag x m = ground (arith, lookup-insert tag q x m, s.cmp_iff q tag)

  member : S → List S → Bool
  member q [] = false
  member q (tag ∷ tags) = eqb q tag || member q tags

  contains_key-advance_all :
      (c : Bool) (q x : S) (tags : List S) (m : Map S S)
      → contains_key q (advance_all c x tags m).0 ≡ member q tags || contains_key q m
  unfolding advance_all member
  contains_key-advance_all c q x [] m = refl
  contains_key-advance_all c q x (tag ∷ tags) m = ground (
    arith,
    contains_key-advance_all (c || (advance tag x m).1) q x tags (advance tag x m).0,
    contains_key-advance q tag x m,
  )

  -- no tag is live once all are removed
  any_live_of_removed :
      (adds : Map S (Unit {0})) (rems : Map S S)
      → ((q : S) → member q (keys adds) ≡ true → contains_key q rems ≡ true)
      → any_live adds rems ≡ false
  unfolding any_live member
  any_live_of_removed [] rems h = refl
  any_live_of_removed ((q, u) ∷ adds) rems h =
      let rest = any_live_of_removed adds rems (λ p e. h p (ground arith)) in
      ground (arith, h q, cmp_refl q)

  removed_after :
      (x : S) (e : OrSetEntry S)
      → any_live e.adds (advance_all false x (keys e.adds) e.rems).0 ≡ false
  removed_after x e =
      any_live_of_removed e.adds _
        (λ q h. contains_key-advance_all false q x (keys e.adds) e.rems ∙ rw h refl)

module _ {S : Type 0} ⦃s : Ord S⦄ where
  -- `unwrap_or_default`
  of_option : Option (OrSetEntry S) → OrSetEntry S
  of_option none = default_entry
  of_option (some e) = e

  live : Option (OrSetEntry S) → Bool
  live none = false
  live (some e) = is_live e

  live_of_tag :
      (o p : Option (OrSetEntry S)) (tag : S)
      → OnSome IsOrdered o
      → OnSome IsOrdered p
      → contains_key tag (of_option p).adds ≡ true
      → contains_key tag (of_option p).rems ≡ false
      → contains_key tag (of_option o).rems ≡ false
      → live (combine join_entry o p) ≡ true
  unfolding is_live join_entry lookup of_option live
  live_of_tag none none tag v w new kept other = cc
  live_of_tag (some e) none tag v w new kept other = cc
  live_of_tag none (some f) tag v w new kept other = any_live_of_tag tag f.adds f.rems new kept
  live_of_tag (some e) (some f) tag v w new kept other =
      any_live_of_tag tag _ _ (ground (arith, lookup-join first tag e.adds f.adds w.0))
        (ground (arith, lookup-join max tag e.rems f.rems w.1))

module _ {K S : Type 0} ⦃k : Ord K⦄ ⦃s : Ord S⦄ where
  -- After an add whose tag is not removed yet, the set contains the key; other keys are as before.
  pub contains-add :
      (a : OrSet K S) (key q : K) (st : MergeStamps S)
      → contains_key st.incoming (entry a key).rems ≡ false
      → contains (apply a (OrSetOp.add key) st).0 q ≡ eqb q key || contains a q
  unfolding apply contains is_live
  contains-add a key q st h =
      let x = st.incoming in
      let e = entry a key in
      let adds = insert x tt e.adds in
      ground (
        arith,
        lookup-insert key q (record e { adds = adds }) a.entries,
        lookup-insert x x tt e.adds,
        cmp_refl x,
        any_live_of_tag x adds e.rems,
      )

  remove_op_lem :
      (a : OrSet K S) (key : K) → remove_op a key ≡ OrSetOp.remove key (keys (entry a key).adds)
  unfolding remove_op entry
  remove_op_lem a key = ground arith

  -- A remove that the replica itself has built takes the key out, and leaves other keys as before.
  pub contains-remove_op :
      (a : OrSet K S) (key q : K) (st : MergeStamps S)
      → contains (apply a (remove_op a key) st).0 q ≡ not (eqb q key) && contains a q
  unfolding apply contains is_live
  contains-remove_op a key q st =
      let e = entry a key in
      let rems = (advance_all false st.incoming (keys e.adds) e.rems).0 in
      rw (remove_op_lem a key, contains, apply)
        (ground (
          arith,
          lookup-insert key q (record e { rems = rems }) a.entries,
          removed_after st.incoming e,
        ))

  lookup-merge :
      (a b : OrSet K S) (key : K) (st : MergeStamps S)
      → IsValid a
      → IsValid b
      → lookup key (merge a b st).0.entries
        ≡ combine join_entry (lookup key a.entries) (lookup key b.entries)
  unfolding merge
  lookup-merge a b key st v w =
      rw
        (loop-join (λ (key : K). merge_both) entry_changes (λ key. merge_both-join)
          (λ key. entry_changes-false_iff) (λ key. join_entry-IsSemilattice) a.entries b.entries v
          w)
        (lookup-join join_entry key a.entries b.entries w.0)

  -- Add wins: where one replica holds a tag of the key that neither replica has seen removed, the
  -- merge contains the key, whatever the other replica has removed.
  pub contains-merge_add_wins :
      (a b : OrSet K S) (key : K) (tag : S) (st : MergeStamps S)
      → IsValid a
      → IsValid b
      → contains_key tag (entry b key).adds ≡ true
      → contains_key tag (entry b key).rems ≡ false
      → contains_key tag (entry a key).rems ≡ false
      → (contains (merge a b st).0 key ≡ true) × (contains (merge b a st).0 key ≡ true)
  unfolding contains entry of_option live
  contains-merge_add_wins a b key tag st v w new kept other =
      let o = lookup key a.entries in
      let p = lookup key b.entries in
      let both =
        live_of_tag o p tag (lookup-Each (λ q. IsOrdered) key a.entries v.1)
          (lookup-Each (λ q. IsOrdered) key b.entries w.1) (ground arith) (ground arith)
          (ground arith) in
      let here : contains (merge a b st).0 key ≡ true =
        rw (lookup-merge a b key st v w, contains) (ground arith) in
      (here, rw ((or_set_merge-IsSemilattice st).comm b a w v) here)
