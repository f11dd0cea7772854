-- ===== src/Crdt/List/Insertion.antt =====
-- What an insertion does to the visible elements of a list (zendb-types/src/crdt/values/list.rs).
use zendb.Prelude.{
  true, false, ◌||◌, Option, none, some, List, Ord, eqb, option_ord, PartialEq, ◌≡◌, ◌↔◌, ap, arith,
  cmp_refl, ◌∙◌, sym,
}
use zendb.Map.{lookup, insert, IsSorted, lookup-insert, lookup-insert_self, insert-IsSorted}
use zendb.Crdt.Stamp.{MergeStamps}
use zendb.Crdt.Cell.{ValueType, is_tombstone}
use zendb.Crdt.Sequence.Visited.{has}
use zendb.Crdt.Sequence.Outcome.{is_visible}
use zendb.Crdt.Sequence.Children.{anchored}
use zendb.Crdt.Sequence.Visible.{IsPlaced, at_head, after}
use zendb.Crdt.List.Order.{anchored-IsPlaced, visible_ids-has}
use zendb.Crdt.List.{
  ListValue, visible_ids, apply, insert_op, anchor, is_live, known, inserted, store_entry,
  insert_at,
}

cmp_option_self : {S : Type 0} ⦃s : Ord S⦄ (a : Option S) → eqb ⦃o = option_ord⦄ a a ≡ true
cmp_option_self ⦃s⦄ a = ground (arith, cmp_refl ⦃o = option_ord⦄ a)

module _ {S : Type 0} ⦃s : Ord S⦄ where
  -- The head, or a visible element.
  abbrev pub IsPlace : List S → Option S → Type 0
  IsPlace ids none = Unit
  IsPlace ids (some a) = has a ids ≡ true

module _ {V S : Type 0} ⦃s : Ord S⦄ where
  -- The list with a new element.
  abbrev grown : S → Option S → V → ListValue V S → ListValue V S
  grown id place v l = record {
    entries = insert id (inserted place (record { value = some v; stamp = id })) l.entries;
  }

  grown-anchored :
      (id : S) (place : Option S) (v : V) (l : ListValue V S) (c : S) (q : Option S)
      → lookup id l.entries ≡ none
      → anchored anchor c q l.entries ≡ true
      → anchored anchor c q (grown id place v l).entries ≡ true
  unfolding anchored anchor
  grown-anchored id place v l c q f h = ground (
    arith,
    lookup-insert id c (inserted place (record { value = some v; stamp = id })) l.entries,
    s.cmp_iff c id,
  )

  grown_self :
      (id : S) (place : Option S) (v : V) (l : ListValue V S)
      → anchored anchor id place (grown id place v l).entries ≡ true
  unfolding anchored anchor inserted known
  grown_self id none v l = ground (
    arith,
    lookup-insert_self id (inserted none (record { value = some v; stamp = id })) l.entries,
    cmp_option_self {S = S} none,
  )
  grown_self id (some a) v l = ground (
    arith,
    lookup-insert_self id (inserted (some a) (record { value = some v; stamp = id })) l.entries,
    cmp_option_self (some a),
  )

  grown-visible :
      (id : S) (place : Option S) (v : V) (l : ListValue V S) (q : S)
      → is_visible is_live (grown id place v l).entries q
        ≡ (eqb q id || is_visible is_live l.entries q)
  unfolding is_visible is_live is_tombstone inserted
  grown-visible id place v l q =
      ground (
        arith,
        lookup-insert id q (inserted place (record { value = some v; stamp = id })) l.entries,
      )

module _ {T G O E V S : Type 0} (t : ValueType T G O E V S) ⦃eq : PartialEq T⦄ ⦃s : Ord S⦄
    (zero : S) where
  insert-grown :
      (l : ListValue V S) (place : Option S) (v : V) (st : MergeStamps S)
      → eqb st.incoming zero ≡ false
      → lookup st.incoming l.entries ≡ none
      → (apply t zero l (insert_op place v) st).0 ≡ grown st.incoming place v l
  unfolding apply store_entry insert_at
  insert-grown l place v st z f = rw (z, f)

  -- An insertion with a stamp that the list does not have, at the head or after a visible element, makes
  -- the element visible, and keeps the others visible.
  pub visible_ids-insert :
      (l : ListValue V S) (place : Option S) (v : V) (st : MergeStamps S) (ids ids' : List S)
      → IsSorted l.entries
      → eqb st.incoming zero ≡ false
      → lookup st.incoming l.entries ≡ none
      → visible_ids l ≡ some ids
      → IsPlace ids place
      → visible_ids (apply t zero l (insert_op place v) st).0 ≡ some ids'
      → (has st.incoming ids' ≡ true) × ((q : S) → has q ids ≡ true → has q ids' ≡ true)
  visible_ids-insert l place v st ids ids' sorted z f e p e' = (
    (now st.incoming).1 (
      placed place p (grown_self st.incoming place v l),
      ground (arith, grown-visible st.incoming place v l st.incoming, cmp_refl st.incoming),
    ),
    λ q h. (now q).1 (
      kept q ((before q).0 h).0,
      ground (arith, grown-visible st.incoming place v l q, ((before q).0 h).1),
    ),
  )
    where
      more : ListValue V S
      more = grown st.incoming place v l

      now :
          (q : S)
          → (has q ids' ≡ true)
            ↔ (IsPlaced anchor more.entries q × (is_visible is_live more.entries q ≡ true))
      now q =
          visible_ids-has more ids' q (insert-IsSorted st.incoming _ l.entries sorted)
            (ap visible_ids (sym (insert-grown l place v st z f)) ∙ e')

      before :
          (q : S)
          → (has q ids ≡ true)
            ↔ (IsPlaced anchor l.entries q × (is_visible is_live l.entries q ≡ true))
      before q = visible_ids-has l ids q sorted e

      kept : (q : S) → IsPlaced anchor l.entries q → IsPlaced anchor more.entries q
      kept q =
          anchored-IsPlaced anchor l.entries more.entries
            (λ c a i. grown-anchored st.incoming place v l c a f i) q

      placed :
          (a : Option S)
          → IsPlace ids a
          → anchored anchor st.incoming a more.entries ≡ true
          → IsPlaced anchor more.entries st.incoming
      placed none i h = at_head h
      placed (some a) i h = after a h (kept a ((before a).0 i).0)
