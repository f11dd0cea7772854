-- ===== src/Tests/Registers.antt =====
-- Multi-value registers: a run, and the theorems on it.
use zendb.Prelude.{ℕ, nat_ord, ord_eq, false, ◌≡◌, refl, [], ◌∷◌, IsSemilattice, max}
use zendb.Map.{lookup, insert, remove, contains_key}
use zendb.Crdt.Stamp.{EventStamp, stamp_ord, cmp}
use zendb.Crdt.Removals.{advance, merge_removals, is_news}
use zendb.Crdt.MvRegister
use zendb.Crdt.MvRegister.{MvRegister, assign_op, register_values}
use zendb.Crdt.MvRegister.Convergence
use zendb.Tests.Stamps.{at, arriving}

program : Unit {0}
unfolding lookup insert remove stamp_ord cmp advance merge_removals is_news max MvRegister.merge
    MvRegister.merge_values MvRegister.add_entries MvRegister.remove_all MvRegister.apply
    MvRegister.replace_all MvRegister.add_entry MvRegister.conflicts
program = tt

-- One assignment, seen by both peers, which then assign concurrently.
abbrev shared : MvRegister ℕ (EventStamp ℕ)
shared = record { entries = (at 3 1, 3) ∷ []; removed = [] }

abbrev left : MvRegister ℕ (EventStamp ℕ)
left = (MvRegister.apply shared (assign_op shared 5) (arriving 5 1)).0

abbrev right : MvRegister ℕ (EventStamp ℕ)
right = (MvRegister.apply shared (assign_op shared 6) (arriving 6 2)).0

both : register_values (MvRegister.merge left right (arriving 9 1)).0 ≡ 5 ∷ 6 ∷ []
unfolding program
both = refl

-- What the peers assigned: the time of the assignment.
abbrev assigned : EventStamp ℕ → ℕ
assigned id = id.time.physical_ms

mv_merge-IsSemilattice_example :
    IsSemilattice (Convergence.IsValid assigned) (λ a b. (MvRegister.merge a b (arriving 9 1)).0)
mv_merge-IsSemilattice_example = Convergence.mv_merge-IsSemilattice assigned (arriving 9 1)

new : contains_key (at 5 1) shared.entries ≡ false
unfolding program
new = refl

live : contains_key (at 5 1) shared.removed ≡ false
unfolding program
live = refl
