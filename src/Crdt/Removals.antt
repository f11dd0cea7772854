-- ===== src/Crdt/Removals.antt =====
-- The tombstone maps of or_set.rs (`rems`) and mv_register.rs (`removed`), both of
-- zendb-types/src/crdt/values: for each removed tag the latest stamp of a removal.
pub mod Join
use zendb.Prelude.{Bool, true, false, ◌||◌, none, some, List, [], ◌∷◌, if◌then◌else◌, Ord, gtb}
use zendb.Map.{Map, lookup, insert}

module _ {S : Type 0} ⦃s : Ord S⦄ where
  -- `get(tag).is_none_or(|existing| stamp > *existing)`.
  unfoldable pub is_news : S → S → Map S S → Bool
  is_news tag stamp m = elim (lookup tag m) [ none ↦ true | some existing ↦ gtb stamp existing ]

  -- The guarded `insert(tag, stamp)`, and whether it is made.
  unfoldable pub advance : S → S → Map S S → Map S S × Bool
  unfolding is_news
  advance tag stamp m = if is_news tag stamp m then (insert tag stamp m, true) else (m, false)

  -- The loop over the removals of another replica.
  unfoldable pub merge_removals : Bool → Map S S → Map S S → Map S S × Bool
  merge_removals changed m [] = (m, changed)
  merge_removals changed m ((tag, stamp) ∷ rest) =
      let (m', c) = advance tag stamp m in merge_removals (changed || c) m' rest

  -- The loop of a remove operation over the tags that it has observed.
  unfoldable pub advance_all : Bool → S → List S → Map S S → Map S S × Bool
  advance_all changed stamp [] m = (m, changed)
  advance_all changed stamp (tag ∷ tags) m =
      let (m', c) = advance tag stamp m in advance_all (changed || c) stamp tags m'
