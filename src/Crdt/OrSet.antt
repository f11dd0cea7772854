-- ===== src/Crdt/OrSet.antt =====
-- zendb-types/src/crdt/values/or_set.rs: an observed-remove set. A `BTreeSet` is a map to `Unit`.
pub mod Entry
pub mod Convergence
pub mod Semantics
use zendb.Prelude.{
  ℕ, suc, Bool, true, false, ◌||◌, Option, none, some, List, [], ◌∷◌, if◌then◌else◌, ltb, Ord, max,
  Result, ok,
}
use zendb.Map.{Map, lookup, insert, keys, contains_key}
use zendb.Map.Merge.{merge_entries}
use zendb.Crdt.Stamp.{MergeStamps}
use zendb.Crdt.Removals.{merge_removals, advance_all}

pub record OrSetEntry (S : Type 0) : Type 0 where
  pub adds : Map S (Unit {0})
  pub rems : Map S S

pub record OrSet (K S : Type 0) : Type 0 where
  pub entries : Map K (OrSetEntry S)

pub data OrSetOp (K S : Type 0) : Type 0 where
  add : K → OrSetOp K S
  remove : K → List S → OrSetOp K S

pub data OrSetError : Type 0 where

-- `BTreeSet::len`.
unfoldable pub len {ℓ κ} : {K : Type ℓ} {V : Type κ} → Map K V → ℕ
len [] = 0
len (e ∷ m) = suc (len m)

abbrev pub default_entry : {S : Type 0} → OrSetEntry S
default_entry = record { adds = []; rems = [] }

module _ {S : Type 0} ⦃s : Ord S⦄ where
  -- Some add tag is not removed.
  any_live : Map S (Unit {0}) → Map S S → Bool
  any_live [] rems = false
  any_live ((tag, _) ∷ adds) rems =
      (if contains_key tag rems then false else true) || any_live adds rems

  unfoldable pub is_live : OrSetEntry S → Bool
  unfolding any_live
  is_live e = any_live e.adds e.rems

  -- `BTreeSet::extend`.
  unfoldable pub extend : Map S (Unit {0}) → Map S (Unit {0}) → Map S (Unit {0})
  extend m [] = m
  extend m ((tag, _) ∷ rest) = extend (insert tag tt m) rest

  -- The body of the merge loop for a key that both replicas have.
  unfoldable pub merge_both : OrSetEntry S → OrSetEntry S → OrSetEntry S × Result OrSetError Bool
  merge_both local remote =
      let adds = extend local.adds remote.adds in
      let (rems, changed) = merge_removals false local.rems remote.rems in
      (record { adds = adds; rems = rems }, ok (changed || ltb (len local.adds) (len adds)))

  unfoldable pub max_keys : {V : Type 0} → S → Map S V → S
  max_keys acc [] = acc
  max_keys acc ((tag, _) ∷ rest) = max_keys (max acc tag) rest

  unfoldable pub max_values : {K : Type 0} → S → Map K S → S
  max_values acc [] = acc
  max_values acc ((_, stamp) ∷ rest) = max_values (max acc stamp) rest

module _ {K S : Type 0} ⦃k : Ord K⦄ ⦃s : Ord S⦄ where
  unfoldable pub contains : OrSet K S → K → Bool
  contains set key = elim (lookup key set.entries) [ none ↦ false | some e ↦ is_live e ]

  live_keys : Map K (OrSetEntry S) → List K
  live_keys [] = []
  live_keys ((key, e) ∷ rest) = let live = live_keys rest in if is_live e then key ∷ live else live

  -- `OrSet::keys`.
  unfoldable pub set_keys : OrSet K S → List K
  unfolding live_keys
  set_keys set = live_keys set.entries

  -- The operation that removes exactly the add tags that this replica has observed.
  unfoldable pub remove_op : OrSet K S → K → OrSetOp K S
  remove_op set key =
      OrSetOp.remove key (elim (lookup key set.entries) [ none ↦ [] | some e ↦ keys e.adds ])

  -- `entry(key).or_default()`.
  unfoldable pub entry : OrSet K S → K → OrSetEntry S
  entry set key = elim (lookup key set.entries) [ none ↦ default_entry | some e ↦ e ]

  unfoldable pub apply :
      OrSet K S → OrSetOp K S → MergeStamps S → OrSet K S × Result OrSetError Bool
  apply self (OrSetOp.add key) stamps =
      let e = entry self key in
      let adds = insert stamps.incoming tt e.adds in
      (
        record { entries = insert key (record e { adds = adds }) self.entries },
        ok (if contains_key stamps.incoming e.adds then false else true),
      )
  apply self (OrSetOp.remove key observed) stamps =
      let e = entry self key in
      let (rems, changed) = advance_all false stamps.incoming observed e.rems in
      (record { entries = insert key (record e { rems = rems }) self.entries }, ok changed)

  unfoldable pub merge : OrSet K S → OrSet K S → MergeStamps S → OrSet K S × Result OrSetError Bool
  merge self remote stamps =
      let (entries, result) = merge_entries (λ key. merge_both) false self.entries remote.entries in
      (record { entries = entries }, result)

  max_stamps : S → S → Map K (OrSetEntry S) → S
  max_stamps zero acc [] = acc
  max_stamps zero acc ((key, e) ∷ rest) =
      max_stamps zero (max acc (max (max_keys zero e.adds) (max_values zero e.rems))) rest

  unfoldable pub max_stamp : S → OrSet K S → S
  unfolding max_stamps
  max_stamp zero set = max_stamps zero zero set.entries
