-- ===== src/Tests/Tables.antt =====
-- Tables: a run, and the theorems on it. A cell is a number, and an operation adds to it; an operation
-- that adds nothing changes nothing, and one that adds more than 100 is an error.
use zendb.Prelude.{
  ℕ, nat_ord, ◌+◌, ◌≡◌, refl, arith, Bool, ◌&&◌, some, none, List, [], ◌∷◌, length, if◌then◌else◌,
  ltb, eqb, Result, ok, err,
}
use zendb.Map.{lookup, insert, keys, IsSorted}
use zendb.Crdt.Stamp.{MergeStamps}
use zendb.Topic.Frame.{header, frame, to_le_bytes}
use zendb.Topic.State.{
  create, create_segment, append, rotate_segment, write_record, compact, push_segment,
  drop_segments, removable,
}
use zendb.Topic.State.Reader.{seek, update_state}
use zendb.Table.{
  Table, Event, Change, ordered, get, entries, size, merged, collect, merged_next, filter_absent,
  put_all, drain_cache, prepare_cache, put_cache, record_change, insert_event, ascending,
}
use zendb.Crdt.Sequence.Visited.{Distinct}
use zendb.Table.Iteration.{entries-get, merged-IsSorted}
use zendb.Table.Rows.{insert_event-get, walk, outcome, changes}
use zendb.Table.Validity.{IsValid, size-entries, insert_event-IsValid}

program : Unit {0}
unfolding lookup insert header frame to_le_bytes create create_segment append rotate_segment
    write_record compact push_segment drop_segments removable seek update_state get entries merged
    collect merged_next filter_absent put_all drain_cache prepare_cache put_cache record_change
    insert_event
program = tt

-- Two rows in the state, and in the full cache one row that is newer and one that is novel.
abbrev full : Table ℕ ℕ ℕ
full = record {
  kind = ordered;
  state = (1, 10) ∷ (4, 40) ∷ [];
  max_entries = 2;
  cache = (2, 20) ∷ (4, 41) ∷ [];
  novel_pending = 1;
  topic = create (record { max_segment_bytes = 100 });
  recovery = record { name = 0; current = none };
}

full-IsValid : IsValid full
unfolding program
full-IsValid = (((refl, tt), (tt, tt)), ((refl, tt), (tt, tt)), omega arith, refl)

abbrev apply_walk : ℕ → ℕ → MergeStamps ℕ → ℕ → ℕ × Result ℕ Bool
apply_walk cell op stamps path = (cell + op, if ltb 100 op then err op else ok (ltb 0 op))

abbrev encode : Change ℕ ℕ ℕ ℕ ℕ → List ℕ
encode change = change.event.primary_key ∷ []

abbrev event : Event ℕ ℕ ℕ ℕ
event = record { primary_key = 7; path = 0; op = 5; stamp = 9 }

abbrev inserted : Table ℕ ℕ ℕ
inserted = (insert_event {X = ℕ} 0 (λ c. 0) 0 apply_walk encode full event).0

-- the cache is drained, and the new row is the only one there
drained : inserted.cache ≡ (7, 5) ∷ []
unfolding program
drained = refl

rows : entries inserted ≡ (1, 10) ∷ (2, 20) ∷ (4, 41) ∷ (7, 5) ∷ []
unfolding program
rows = refl

entries-get_example :
    Distinct (keys (entries full)) × ((q : ℕ) → lookup q (entries full) ≡ get q full)
entries-get_example = entries-get full full-IsValid.0 full-IsValid.1

size-entries_example : size full ≡ length (entries full)
size-entries_example = size-entries full full-IsValid

insert_event-get_example :
    ((insert_event 0 (λ c. 0) 0 apply_walk encode full event).1
      ≡ outcome 0
          (λ c. 0)
          0
          apply_walk
          encode
          full
          event
          (walk 0 (λ c. 0) 0 apply_walk encode full event).0
          (walk 0 (λ c. 0) 0 apply_walk encode full event).1)
    × ((q : ℕ)
        → get q inserted ≡ (
            if changes (walk 0 (λ c. 0) 0 apply_walk encode full event).1 && eqb q 7
            then some (walk 0 (λ c. 0) 0 apply_walk encode full event).0
            else get q full))
insert_event-get_example =
    insert_event-get 0 (λ c. 0) 0 apply_walk encode full event full-IsValid.1 (omega arith)

insert_event-IsValid_example : IsValid inserted
insert_event-IsValid_example =
    insert_event-IsValid 0 (λ c. 0) 0 apply_walk encode full event full-IsValid

merged-IsSorted_example : IsSorted (merged ascending full.state full.cache)
merged-IsSorted_example = merged-IsSorted full.state full.cache full-IsValid.0 full-IsValid.1
