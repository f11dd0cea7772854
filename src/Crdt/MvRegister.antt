-- ===== src/Crdt/MvRegister.antt =====
-- zendb-types/src/crdt/values/mv_register.rs: a register that keeps all assignments that no later one
-- has observed. The values are any type with a decided equality; an assignment has its stamp for its
-- identity.
pub mod Lookup
pub mod Convergence
pub mod Assignment
use zendb.Prelude.{
  Bool, true, false, ◌||◌, not, Option, none, some, List, [], ◌∷◌, ◌&&◌, if◌then◌else◌, Ord, max,
  PartialEq, Result, ok, err,
}
use zendb.Map.{Map, lookup, contains_key, insert, remove, keys, values}
use zendb.Crdt.Stamp.{MergeStamps}
use zendb.Crdt.Removals.{advance, merge_removals}

pub record MvRegister (V S : Type 0) : Type 0 where
  pub entries : Map S V
  pub removed : Map S S

pub data MvRegisterOp (V S : Type 0) : Type 0 where
  assign : V → List S → MvRegisterOp V S

pub data MvRegisterError (S : Type 0) : Type 0 where
  assignment_conflict : S → MvRegisterError S

-- All visible values, in the order of their assignments.
abbrev pub register_values : {V S : Type 0} → MvRegister V S → List V
register_values r = values r.entries

-- `MvRegister::assign`: an assignment replaces all that is visible.
abbrev pub assign_op : {V S : Type 0} → MvRegister V S → V → MvRegisterOp V S
assign_op r value = MvRegisterOp.assign value (keys r.entries)

module _ {V S : Type 0} ⦃s : Ord S⦄ where
  -- The loop over the removed assignments: they leave the entries.
  unfoldable pub remove_all : Bool → List S → Map S V → Map S V × Bool
  remove_all changed [] m = (m, changed)
  remove_all changed (id ∷ ids) m = remove_all (changed || contains_key id m) ids (remove id m)

  -- The loop of an assignment over what it replaces.
  unfoldable pub replace_all : Bool → S → List S → MvRegister V S → MvRegister V S × Bool
  unfolding advance
  replace_all changed stamp [] r = (r, changed)
  replace_all changed stamp (id ∷ ids) r =
      let (removed, news) = advance id stamp r.removed in
      replace_all (changed || news || contains_key id r.entries) stamp ids
        (record { entries = remove id r.entries; removed = removed })

  -- The insertion of an assignment that is not removed already.
  unfoldable pub add_entry : Bool → S → V → MvRegister V S → MvRegister V S × Bool
  add_entry changed stamp value r = if contains_key stamp r.removed then (r, changed) else (
    record r { entries = insert stamp value r.entries },
    changed || not (contains_key stamp r.entries),
  )

module _ {V S : Type 0} ⦃v : PartialEq V⦄ ⦃s : Ord S⦄ where
  -- `get(id).is_some_and(|existing| existing != value)`.
  unfoldable pub conflicts : S → V → Map S V → Bool
  conflicts id value m = elim (lookup id m) [ none ↦ false | some w ↦ not (v.beq w value) ]

  unfoldable pub apply :
      MvRegister V S
      → MvRegisterOp V S
      → MergeStamps S
      → MvRegister V S × Result (MvRegisterError S) Bool
  unfolding conflicts replace_all add_entry
  apply self (MvRegisterOp.assign value replaces) stamps =
      let id = stamps.incoming in
      let (replaced, changed) = replace_all false id replaces self in
      let (after, c) = add_entry changed id value replaced in
      if conflicts id value self.entries
      then (self, err (assignment_conflict id))
      else (after, ok c)

  -- The loop of a merge over the entries of the remote register.
  unfoldable pub add_entries :
      Bool → Map S S → Map S V → Map S V → Map S V × Result (MvRegisterError S) Bool
  add_entries changed removed m [] = (m, ok changed)
  add_entries changed removed m ((id, w) ∷ rest) = elim (contains_key id removed) [
    | true ↦ add_entries changed removed m rest
    | false ↦ elim (lookup id m) [
      | none ↦ add_entries true removed (insert id w m) rest
      | some x ↦ elim (v.beq x w) [
        | true ↦ add_entries changed removed m rest
        | false ↦ (m, err (assignment_conflict id))
      ]
    ]
  ]

  -- The merge of the entries, with the merged removals and whether they changed.
  unfoldable pub merge_values :
      Map S V → Map S V → Map S S × Bool → MvRegister V S × Result (MvRegisterError S) Bool
  unfolding add_entries remove_all
  merge_values local remote (removed, changed) =
      let (entries, added) = add_entries changed removed local remote in
      elim added [
        | err e ↦ (record { entries = entries; removed = removed }, err e)
        | ok c ↦
            let (visible, c') = remove_all c (keys removed) entries in
            (record { entries = visible; removed = removed }, ok c')
      ]

  unfoldable pub merge :
      MvRegister V S
      → MvRegister V S
      → MergeStamps S
      → MvRegister V S × Result (MvRegisterError S) Bool
  unfolding merge_removals merge_values
  merge self remote stamps =
      merge_values self.entries remote.entries (merge_removals false self.removed remote.removed)

module _ {S : Type 0} ⦃s : Ord S⦄ where
  unfoldable pub max_of : S → List S → S
  max_of acc [] = acc
  max_of acc (stamp ∷ stamps) = max_of (max acc stamp) stamps

module _ {V S : Type 0} ⦃s : Ord S⦄ where
  unfoldable pub max_stamp : S → MvRegister V S → S
  unfolding max_of
  max_stamp zero r = max_of (max_of zero (keys r.entries)) (values r.removed)
