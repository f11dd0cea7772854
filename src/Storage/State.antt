-- ===== src/Storage/State.antt =====
-- zendb-storage/src/backend/state.rs: the materialized state of a table, one of three backends, which enter by
-- their interface. A key directory has no order of its own; its ordered reads go over all of its entries.
pub mod Ends
use zendb.Prelude.{
  ℕ, Bool, true, false, ◌&&◌, not, Option, none, some, List, [], ◌∷◌, if◌then◌else◌, Ord, gtb,
  Result, ok,
}
use zendb.Storage.Backend.{Backend}

pub data State (O U M : Type 0) : Type 0 where
  ordered : O → State O U M
  unordered : U → State O U M
  in_memory : M → State O U M

module _ {O U M : Type 0} where
  -- The new state of a backend, under the constructor of the old one.
  abbrev pub under : {X : Type 0} → (X → State O U M) → {A : Type 0} → X × A → State O U M × A
  under f r = (f r.0, r.1)

module _ {O U M K V E : Type 0} (o : Backend O K V E) (u : Backend U K V E)
    (m : Backend M K V E) where
  unfoldable pub get : State O U M → K → Option V
  get (ordered s) key = o.get s key
  get (unordered s) key = u.get s key
  get (in_memory s) key = m.get s key

  unfoldable pub put : State O U M → K → V → State O U M × Result E (Unit {0})
  put (ordered s) key v = under ordered (o.put s key v)
  put (unordered s) key v = under unordered (u.put s key v)
  put (in_memory s) key v = under in_memory (m.put s key v)

  unfoldable pub delete : State O U M → K → State O U M × Result E Bool
  delete (ordered s) key = under ordered (o.delete s key)
  delete (unordered s) key = under unordered (u.delete s key)
  delete (in_memory s) key = under in_memory (m.delete s key)

  unfoldable pub state_backend : Backend (State O U M) K V E
  unfolding get put delete
  state_backend = record { get = get; put = put; delete = delete }

-- The ordered reads of the unordered state, on its entries in any order.
module _ {K V : Type 0} ⦃k : Ord K⦄ where
  -- `sort_unstable_by` the keys, as the insertion sort.
  unfoldable pub insert_row : K × V → List (K × V) → List (K × V)
  insert_row r [] = r ∷ []
  insert_row r (x ∷ rows) = if gtb r.0 x.0 then x ∷ insert_row r rows else r ∷ x ∷ rows

  unfoldable pub sort_rows : List (K × V) → List (K × V)
  unfolding insert_row
  sort_rows [] = []
  sort_rows (r ∷ rows) = insert_row r (sort_rows rows)

  unfoldable pub insert_row_rev : K × V → List (K × V) → List (K × V)
  insert_row_rev r [] = r ∷ []
  insert_row_rev r (x ∷ rows) = if gtb r.0 x.0 then r ∷ x ∷ rows else x ∷ insert_row_rev r rows

  -- `entries_rev`.
  unfoldable pub sort_rows_rev : List (K × V) → List (K × V)
  unfolding insert_row_rev
  sort_rows_rev [] = []
  sort_rows_rev (r ∷ rows) = insert_row_rev r (sort_rows_rev rows)

  unfoldable pub in_rows : K → K → List (K × V) → List (K × V)
  in_rows start end [] = []
  in_rows start end (r ∷ rows) =
      let rest = in_rows start end rows in
      if not (gtb start r.0) && gtb end r.0 then r ∷ rest else rest

  unfoldable pub range : K → K → List (K × V) → List (K × V)
  unfolding in_rows sort_rows
  range start end rows = sort_rows (in_rows start end rows)

  unfoldable pub range_rev : K → K → List (K × V) → List (K × V)
  unfolding in_rows sort_rows_rev
  range_rev start end rows = sort_rows_rev (in_rows start end rows)

  -- `min_by` and `max_by`, with the row so far.
  unfoldable pub min_from : K × V → List (K × V) → K × V
  min_from r [] = r
  min_from r (x ∷ rows) = min_from (if gtb r.0 x.0 then x else r) rows

  unfoldable pub first : List (K × V) → Option (K × V)
  unfolding min_from
  first [] = none
  first (r ∷ rows) = some (min_from r rows)

  unfoldable pub max_from : K × V → List (K × V) → K × V
  max_from r [] = r
  max_from r (x ∷ rows) = max_from (if gtb r.0 x.0 then r else x) rows

  unfoldable pub last : List (K × V) → Option (K × V)
  unfolding max_from
  last [] = none
  last (r ∷ rows) = some (max_from r rows)
