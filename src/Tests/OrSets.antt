-- ===== src/Tests/OrSets.antt =====
-- Observed-remove sets: a run, and the theorems on it.
use zendb.Prelude.{ℕ, nat_ord, not, ◌&&◌, eqb, ◌≡◌, refl, true, false, [], ◌∷◌, IsSemilattice, max}
use zendb.Map.{lookup, insert, contains_key}
use zendb.Map.Merge.{merge_entry, merge_entries}
use zendb.Crdt.Stamp.{EventStamp, stamp_ord, cmp}
use zendb.Crdt.Removals.{advance, merge_removals, advance_all}
use zendb.Crdt.OrSet
use zendb.Crdt.OrSet.{OrSet, OrSetOp}
use zendb.Crdt.OrSet.Convergence
use zendb.Crdt.OrSet.Semantics
use zendb.Tests.Stamps.{at, arriving}

program : Unit {0}
unfolding lookup insert merge_entry merge_entries max stamp_ord cmp advance merge_removals
    advance_all OrSet.merge OrSet.merge_both OrSet.extend OrSet.apply OrSet.entry OrSet.contains
    OrSet.is_live OrSet.remove_op OrSet.len
program = tt

-- One replica has removed the add of time 3; the other holds a later one that it has not seen.
abbrev left : OrSet ℕ (EventStamp ℕ)
left = record {
  entries = (7, record { adds = (at 3 1, tt) ∷ []; rems = (at 3 1, at 5 1) ∷ [] }) ∷ [];
}

abbrev right : OrSet ℕ (EventStamp ℕ)
right = record { entries = (7, record { adds = (at 3 1, tt) ∷ (at 4 2, tt) ∷ []; rems = [] }) ∷ [] }

left-IsValid : Convergence.IsValid left
left-IsValid = ((tt, tt), (((tt, tt), (tt, tt)), tt))

right-IsValid : Convergence.IsValid right
unfolding stamp_ord cmp
right-IsValid = ((tt, tt), ((((refl, tt), (tt, tt)), tt), tt))

or_set_merge-IsSemilattice_example :
    IsSemilattice (Convergence.IsValid {K = ℕ}) (λ a b. (OrSet.merge a b (arriving 9 1)).0)
or_set_merge-IsSemilattice_example = Convergence.or_set_merge-IsSemilattice (arriving 9 1)

tag_is_new :
    (contains_key (at 4 2) (OrSet.entry right 7).adds ≡ true)
    × (contains_key (at 4 2) (OrSet.entry right 7).rems ≡ false)
    × (contains_key (at 4 2) (OrSet.entry left 7).rems ≡ false)
unfolding program
tag_is_new = (refl, refl, refl)

contains-merge_add_wins_example :
    (OrSet.contains (OrSet.merge left right (arriving 9 1)).0 7 ≡ true)
    × (OrSet.contains (OrSet.merge right left (arriving 9 1)).0 7 ≡ true)
contains-merge_add_wins_example =
    Semantics.contains-merge_add_wins left right 7 (at 4 2) (arriving 9 1) left-IsValid
      right-IsValid tag_is_new.0 tag_is_new.1 tag_is_new.2

contains-remove_op_example :
    OrSet.contains (OrSet.apply right (OrSet.remove_op right 7) (arriving 9 1)).0 7
    ≡ not (eqb {A = ℕ} 7 7) && OrSet.contains right 7
contains-remove_op_example = Semantics.contains-remove_op right 7 7 (arriving 9 1)

unused_tag : contains_key (at 9 1) (OrSet.entry left 7).rems ≡ false
unfolding program
unused_tag = refl
