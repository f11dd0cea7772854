-- ===== src/Crdt/Sequence/Children.antt =====
-- The map of children in `visible_ids` (zendb-types/src/crdt/values/list.rs and text.rs): the siblings
-- after an element are the entries that name it as their anchor.
use zendb.Prelude.{
  Bool, false, ◌||◌, ◌&&◌, Option, none, some, List, [], ◌∷◌, ◌++◌, if◌then◌else◌, Ord, eqb,
  option_ord, ◌≡◌, refl, ap, arith, ◌∙◌,
}
use zendb.Map.{Map, lookup, lookup-insert, IsSorted, lookup-Above}
use zendb.Crdt.Sequence.{
  Children, siblings, add_child, add_entry, insert_descending, sort_descending, sort_values, group,
  children_of,
}
use zendb.Crdt.Sequence.Visited.{has, has-snoc}

module _ {K : Type 0} ⦃k : Ord K⦄ where
  -- The anchor is known, and is the given one.
  abbrev pub is_after : Option K → Option (Option K) → Bool
  is_after after none = false
  is_after after (some a) = eqb ⦃o = option_ord⦄ after a

  siblings-add_child :
      (q after : Option K) (id : K) (children : Children K)
      → siblings q (add_child after id children) ≡ (
          if eqb ⦃o = option_ord⦄ q after
          then siblings after children ++ (id ∷ [])
          else siblings q children)
  unfolding siblings add_child
  siblings-add_child q after id children = ground (
    arith,
    lookup-insert ⦃o = option_ord⦄ after q (siblings after children ++ (id ∷ [])) children,
  )

  has-siblings-add_entry :
      (c : K) (q : Option K) (anchor : Option (Option K)) (id : K) (children : Children K)
      → has c (siblings q (add_entry anchor id children))
        ≡ (has c (siblings q children) || (eqb c id && is_after q anchor))
  unfolding add_entry
  has-siblings-add_entry c q none id children = ground arith
  has-siblings-add_entry c q (some after) id children = ground (
    arith,
    siblings-add_child q after id children,
    has-snoc c id (siblings after children),
    (option_ord {A = K}).cmp_iff q after,
  )

  has-insert_descending :
      (c id : K) (ids : List K) → has c (insert_descending id ids) ≡ (eqb c id || has c ids)
  unfolding has insert_descending
  has-insert_descending c id [] = refl
  has-insert_descending c id (x ∷ ids) = ground (arith, has-insert_descending c id ids)

  has-sort_descending : (c : K) (ids : List K) → has c (sort_descending ids) ≡ has c ids
  unfolding has sort_descending
  has-sort_descending c [] = refl
  has-sort_descending c (x ∷ ids) =
      ground (arith, has-sort_descending c ids, has-insert_descending c x (sort_descending ids))

  siblings-sort_values :
      (q : Option K) (children : Children K)
      → siblings q (sort_values children) ≡ sort_descending (siblings q children)
  unfolding siblings sort_values sort_descending lookup
  siblings-sort_values q [] = refl
  siblings-sort_values q ((after, ids) ∷ children) = ground (arith, siblings-sort_values q children)

module _ {K X : Type 0} ⦃k : Ord K⦄ (anchor : X → Option (Option K)) where
  -- The entry of the element names the given anchor.
  unfoldable pub anchored : K → Option K → Map K X → Bool
  anchored c after entries = elim (lookup c entries) [
    | none ↦ false
    | some x ↦ is_after after (anchor x)
  ]

  has-group :
      (c : K) (q : Option K) (children : Children K) (entries : Map K X)
      → IsSorted entries
      → has c (siblings q (group anchor children entries))
        ≡ (has c (siblings q children) || anchored c q entries)
  unfolding group anchored lookup
  has-group c q children [] s = ground arith
  has-group c q children ((id, x) ∷ entries) s = ground (
    arith,
    has-group c q (add_entry (anchor x) id children) entries s.1,
    has-siblings-add_entry c q (anchor x) id children,
    lookup-Above id entries,
    k.cmp_iff c id,
  )

  -- the siblings after `q` are the elements whose entries name `q`
  pub has-children_of :
      (c : K) (q : Option K) (entries : Map K X)
      → IsSorted entries
      → has c (siblings q (children_of anchor entries)) ≡ anchored c q entries
  unfolding children_of anchored has lookup
  has-children_of c q entries s =
      ap (has c) (siblings-sort_values q (group anchor [] entries))
      ∙ has-sort_descending c (siblings q (group anchor [] entries))
      ∙ has-group c q [] entries s
