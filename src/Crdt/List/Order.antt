-- ===== src/Crdt/List/Order.antt =====
-- The visible elements of a list (zendb-types/src/crdt/values/list.rs): the walk's specification at the
-- entries of a list.
use zendb.Prelude.{true, Option, none, some, List, Ord, option_ord, ◌≡◌, ◌↔◌, ◌∙◌, sym, subst}
use mathlib.Core.Option.{some-injective}
use zendb.Map.{IsSorted, Map}
use zendb.Crdt.Sequence.Visited.{has}
use zendb.Crdt.Sequence.Outcome.{is_visible}
use zendb.Crdt.Sequence.Children.{anchored}
use zendb.Crdt.Sequence.Visible.{IsPlaced, at_head, after, visible_ids_lem}
use zendb.Crdt.List.{ListValue, visible_ids, anchor, is_live}

module _ {K X : Type 0} ⦃k : Ord K⦄ (anchor : X → Option (Option K)) (a b : Map K X)
    (same : (c : K) (q : Option K)
      → anchored anchor c q a ≡ true
      → anchored anchor c q b ≡ true) where
  -- more anchors place more elements
  pub anchored-IsPlaced : (q : K) → IsPlaced anchor a q → IsPlaced anchor b q
  anchored-IsPlaced q (at_head h) = at_head (same q none h)
  anchored-IsPlaced q (after p h below) = after p (same q (some p) h) (anchored-IsPlaced p below)

module _ {V S : Type 0} ⦃s : Ord S⦄ where
  -- the list's instance of the specification of the walk
  pub visible_ids-has :
      (l : ListValue V S) (ids : List S) (q : S)
      → IsSorted l.entries
      → visible_ids l ≡ some ids
      → (has q ids ≡ true) ↔ (IsPlaced anchor l.entries q × (is_visible is_live l.entries q ≡ true))
  unfolding visible_ids
  visible_ids-has l ids q sorted e =
      let (found, same, distinct, iff) = visible_ids_lem anchor is_live l.entries sorted in
      subst
        (λ x.
          (has q x ≡ true)
          ↔ (IsPlaced anchor l.entries q × (is_visible is_live l.entries q ≡ true)))
        (some-injective _ _ (sym same ∙ e)) (iff q)
