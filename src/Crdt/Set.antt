-- ===== src/Crdt/Set.antt =====
-- zendb-types/src/crdt/values/set.rs: a set with a last-writer-wins clock pair for each element. The
-- keys are any ordered type (`PrimaryKey`), the stamps any ordered type (`EventStamp`) with the zero
-- stamp `zero`.
pub mod Convergence
pub mod Apply
use zendb.Prelude.{
  Bool, true, false, ◌||◌, Option, none, some, List, [], ◌∷◌, if◌then◌else◌, Ord, gtb, max, Result,
  ok, err,
}
use zendb.Map.{Map, lookup, insert}
use zendb.Map.Merge.{merge_entries}
use zendb.Crdt.Stamp.{MergeStamps}

pub record Meta (S : Type 0) : Type 0 where
  pub updated : S
  pub deleted : S

pub record Set (K S : Type 0) : Type 0 where
  pub entries : Map K (Meta S)

pub data SetOp (K : Type 0) : Type 0 where
  add : K → SetOp K
  remove : K → SetOp K

pub data SetError : Type 0 where

module _ {S : Type 0} ⦃s : Ord S⦄ where
  unfoldable pub is_live : Meta S → Bool
  is_live m = gtb m.updated m.deleted

  -- The body of the merge loop for an element that both replicas have.
  unfoldable pub merge_meta : Meta S → Meta S → Meta S × Result SetError Bool
  merge_meta local remote =
      let c = gtb remote.updated local.updated in
      let d = gtb remote.deleted local.deleted in
      (
        record {
          updated = if c then remote.updated else local.updated;
          deleted = if d then remote.deleted else local.deleted;
        },
        ok (c || d),
      )

  module _ {K : Type 0} ⦃k : Ord K⦄ where
    unfoldable pub contains : Set K S → K → Bool
    contains set key = elim (lookup key set.entries) [ none ↦ false | some m ↦ is_live m ]

    live_keys : Map K (Meta S) → List K
    live_keys [] = []
    live_keys ((key, m) ∷ rest) =
        let live = live_keys rest in if is_live m then key ∷ live else live

    unfoldable pub keys : Set K S → List K
    unfolding live_keys
    keys set = live_keys set.entries

    unfoldable pub merge : Set K S → Set K S → MergeStamps S → Set K S × Result SetError Bool
    merge self remote stamps =
        let (entries, result) =
          merge_entries (λ key. merge_meta) false self.entries remote.entries in
        (record { entries = entries }, result)

unfoldable pub default_meta : {S : Type 0} → S → Meta S
default_meta zero = record { updated = zero; deleted = zero }

module _ {K S : Type 0} ⦃k : Ord K⦄ ⦃s : Ord S⦄ (zero : S) where
  -- `entry(key).or_default()`.
  unfoldable pub entry : Set K S → K → Meta S
  unfolding default_meta
  entry set key = elim (lookup key set.entries) [ none ↦ default_meta zero | some m ↦ m ]

  unfoldable pub apply : Set K S → SetOp K → MergeStamps S → Set K S × Result SetError Bool
  unfolding entry
  apply self (SetOp.add key) stamps =
      let meta = entry self key in
      let later = gtb stamps.incoming meta.updated in
      let meta' = if later then record meta { updated = stamps.incoming } else meta in
      (record { entries = insert key meta' self.entries }, ok later)
  apply self (SetOp.remove key) stamps =
      let meta = entry self key in
      let later = gtb stamps.incoming meta.deleted in
      let meta' = if later then record meta { deleted = stamps.incoming } else meta in
      (record { entries = insert key meta' self.entries }, ok later)

  max_stamps : S → Map K (Meta S) → S
  max_stamps acc [] = acc
  max_stamps acc ((key, m) ∷ rest) = max_stamps (max (max acc m.updated) m.deleted) rest

  unfoldable pub max_stamp : Set K S → S
  unfolding max_stamps
  max_stamp set = max_stamps zero set.entries
