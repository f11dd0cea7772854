-- ===== src/Crdt/Sequence.antt =====
-- The order of the elements of lists and texts: `visible_ids` and `walk_visible` of
-- zendb-types/src/crdt/values/list.rs and text.rs, which differ only in what an entry says: the element
-- that it was inserted after, if that is known, and whether it is visible.
pub mod Visited
pub mod Outcome
pub mod Walk
pub mod Children
pub mod Visible
use zendb.Prelude.{
  ℕ, zero, suc, Bool, true, false, Option, none, some, List, [], ◌∷◌, ◌++◌, if◌then◌else◌, Ord, gtb,
  option_ord, length,
}
use zendb.Map.{Map, lookup, insert}

abbrev pub Children : Type 0 → Type 0
Children K = Map (Option K) (List K)

module _ {K : Type 0} ⦃k : Ord K⦄ where
  -- The elements inserted after one, or at the head.
  unfoldable pub siblings : Option K → Children K → List K
  unfolding option_ord
  siblings after children = elim (lookup after children) [ none ↦ [] | some ids ↦ ids ]

  -- `children.entry(after).or_default().push(id)`.
  unfoldable pub add_child : Option K → K → Children K → Children K
  unfolding siblings
  add_child after id children = insert after (siblings after children ++ (id ∷ [])) children

  unfoldable pub add_entry : Option (Option K) → K → Children K → Children K
  unfolding add_child
  add_entry none id children = children
  add_entry (some after) id children = add_child after id children

  unfoldable pub insert_descending : K → List K → List K
  insert_descending id [] = id ∷ []
  insert_descending id (other ∷ ids) =
      if gtb other id then other ∷ insert_descending id ids else id ∷ other ∷ ids

  -- `sort_unstable_by(|a, b| b.cmp(a))`, as the insertion sort.
  unfoldable pub sort_descending : List K → List K
  unfolding insert_descending
  sort_descending [] = []
  sort_descending (id ∷ ids) = insert_descending id (sort_descending ids)

  unfoldable pub sort_values : Children K → Children K
  unfolding sort_descending
  sort_values [] = []
  sort_values ((after, ids) ∷ children) = (after, sort_descending ids) ∷ sort_values children

  -- `visited` contains the element.
  unfoldable pub seen : K → Map K (Unit {0}) → Bool
  seen id visited = elim (lookup id visited) [ none ↦ false | some _ ↦ true ]

module _ {K X : Type 0} ⦃k : Ord K⦄ where
  unfoldable pub group : (X → Option (Option K)) → Children K → Map K X → Children K
  unfolding add_entry
  group anchor children [] = children
  group anchor children ((id, x) ∷ entries) =
      group anchor (add_entry (anchor x) id children) entries

  -- The elements by what they were inserted after, the latest first.
  unfoldable pub children_of : (X → Option (Option K)) → Map K X → Children K
  unfolding group sort_values
  children_of anchor entries = sort_values (group anchor [] entries)

  -- What an element adds to the visible ones.
  unfoldable pub push_visible : (K → X → Bool) → K → X → List K → List K
  push_visible live id x visible = if live id x then visible ++ (id ∷ []) else visible

  -- The loop over the siblings, with the recursive call for each that is new; `none` means that the
  -- fuel, which bounds the depth, ran out.
  unfoldable pub walk :
      (K → X → Bool)
      → Map K X
      → Children K
      → ℕ
      → List K
      → Map K (Unit {0}) × List K
      → Option (Map K (Unit {0}) × List K)
  unfolding siblings seen push_visible
  walk live entries children zero ids st = none
  walk live entries children (suc n) [] st = some st
  walk live entries children (suc n) (id ∷ ids) st = elim (seen id st.0) [
    | true ↦ walk live entries children (suc n) ids st
    | false ↦ elim (lookup id entries) [
      | none ↦ walk live entries children (suc n) ids (insert id tt st.0, st.1)
      | some x ↦
          elim (walk live entries children n (siblings (some id) children)
            (insert id tt st.0, push_visible live id x st.1)) [
              | none ↦ none
              | some below ↦ walk live entries children (suc n) ids below
            ]
    ]
  ]

  -- The visible elements in order. The depth of the walk is at most the number of entries.
  unfoldable pub visible_ids : (X → Option (Option K)) → (K → X → Bool) → Map K X → Option (List K)
  unfolding children_of walk
  visible_ids anchor live entries =
      elim (walk live entries (children_of anchor entries) (suc (length entries))
        (siblings none (children_of anchor entries)) ([], [])) [ none ↦ none | some st ↦ some st.1 ]
