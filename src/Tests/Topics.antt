-- ===== src/Tests/Topics.antt =====
-- Topics: a run, and the theorems on it.
use zendb.Prelude.{
  ℕ, nat_ord, ◌+◌, ◌<◌, ◌++◌, ◌≡◌, ◌⊎◌, refl, arith, Option, true, some, none, List, [], ◌∷◌, ok,
  length, drop, take, map,
}
use zendb.Map.{lookup, insert}
use zendb.Topic.Frame.{
  header, frame, to_le_bytes, from_le_bytes, u32_of, read_u32, read_exact, read_record,
  skip_records, scan_records, scan_active_segment,
}
use zendb.Topic.Frame.Codec.{frames}
use zendb.Topic.Frame.Scan.{scan_active_segment-torn}
use zendb.Topic.State.{
  Topic, ConsumerState, create, create_segment, append, compact, push_segment, drop_segments,
  removable, rotate_segment, write_record,
}
use zendb.Topic.State.Reader.{
  TopicConsumer, activate, consumer, commit, drop_consumer, next, settle, position, cursor_at,
  read_value, find_offset, update_state,
}
use zendb.Topic.State.Chains.{AllCommitted}
use zendb.Topic.State.Retention.{Log, append-Log, compact-Log}
use zendb.Topic.State.Delivery.{next-Log}
use zendb.Topic.State.Drain.{read_all, read_all-Log}
use zendb.Topic.State.Open.{open_topic}
use zendb.Topic.State.Reach.{Reach}

program : Unit {0}
unfolding lookup insert header frame to_le_bytes from_le_bytes u32_of read_u32 read_exact
    read_record skip_records scan_records scan_active_segment frames create create_segment append
    compact push_segment drop_segments removable rotate_segment write_record activate consumer
    open_topic commit drop_consumer next settle position cursor_at read_value find_offset
    update_state
program = tt

-- A consumer of the name 5 that has committed the first record and reads it once more.
abbrev reading : ConsumerState
reading = record { committed = 1; volatile = 0; reader_active = true }

-- One record, which fills the segment.
abbrev one_full : Topic ℕ
one_full = record {
  config = record { max_segment_bytes = 12 };
  removed = [];
  older = [];
  active = record {
    base_offset = 0;
    end_offset = 1;
    byte_len = 10;
    file = 84 ∷ 80 ∷ 73 ∷ 67 ∷ 2 ∷ 0 ∷ 0 ∷ 0 ∷ 7 ∷ 8 ∷ [];
  };
  next_offset = 1;
  consumers = (5, reading) ∷ [];
  offsets = (5, 1) ∷ [];
  stats = record { earliest_offset = 0; next_offset = 1; records = 1; retained_bytes = 10 };
}

abbrev one_log : List (List ℕ)
one_log = (7 ∷ 8 ∷ []) ∷ []

one_full-Log : Log one_full 0 one_log
unfolding program
one_full-Log = (
  [],
  one_log,
  (refl, (refl, refl, refl, refl, (omega arith, tt)), refl, refl, refl, refl, refl),
  refl,
)

-- the second record opens a new segment, and the first one is compacted away
rotated : (append one_full (9 ∷ [])).0.stats.earliest_offset ≡ 1
unfolding program
rotated = refl

append-Log_example :
    ((append one_full (9 ∷ [])).1 ≡ 0 + 1)
    × ((k : ℕ) × Log (append one_full (9 ∷ [])).0 (0 + k) (drop k one_log ++ ((9 ∷ []) ∷ []))
        × ((k ≡ 0) ⊎ AllCommitted (0 + k) one_full.consumers))
append-Log_example = append-Log one_full 0 one_log (9 ∷ []) one_full-Log (omega arith)

compact-Log_example :
    (k : ℕ) × Log (compact one_full) (0 + k) (drop k one_log)
    × ((k ≡ 0) ⊎ AllCommitted (0 + k) one_full.consumers)
compact-Log_example = compact-Log one_full 0 one_log one_full-Log

abbrev decode : List ℕ → Option (List ℕ)
decode bytes = some bytes

reading-registered : lookup 5 one_full.consumers ≡ some reading
unfolding program
reading-registered = refl

abbrev handle : TopicConsumer ℕ
handle = record { name = 5; current = none }

next-Log_example :
    ((next decode one_full handle).1 ≡ some (ok (7 ∷ 8 ∷ [])))
    × (lookup 5 (next decode one_full handle).0.0.consumers
        ≡ some (record { committed = 1; volatile = 0 + 0 + 1; reader_active = true }))
next-Log_example =
    next-Log decode one_full 0 one_log 0 (7 ∷ 8 ∷ []) (7 ∷ 8 ∷ []) 5 reading one_full-Log
      reading-registered refl refl refl

-- two calls of `next`, the second at the tail
read_all-Log_example :
    ((read_all decode 2 one_full handle).1 ≡ map ok one_log)
    × (lookup 5 (read_all decode 2 one_full handle).0.0.consumers
        ≡ some (record { committed = 1; volatile = 1; reader_active = true }))
read_all-Log_example =
    read_all-Log decode one_log [] one_log 2 one_full 0 5 none reading one_full-Log
      reading-registered refl tt (refl, tt) (omega arith)

is_cut : 5 < length (frame (9 ∷ 9 ∷ []))
unfolding program
is_cut = omega arith

-- a crash in the middle of the second record
scan_active_segment-torn_example :
    scan_active_segment (header ++ (frames one_log ++ take 5 (frame (9 ∷ 9 ∷ [])))) 3
    ≡ ok (
      3 + 1,
      length (header ++ frames one_log),
      length (header ++ (frames one_log ++ take 5 (frame (9 ∷ 9 ∷ [])))),
    )
scan_active_segment-torn_example =
    scan_active_segment-torn 3 one_log (9 ∷ 9 ∷ []) 5 (omega arith, (omega arith, tt)) is_cut

abbrev small : Topic ℕ
small = create (record { max_segment_bytes = 12 })

-- the topic after a crash in the next append
abbrev restarted : Topic ℕ
restarted = record {
  config = record { max_segment_bytes = 20 };
  removed = [];
  older = [];
  active = record {
    base_offset = 0;
    end_offset = 1;
    byte_len = 9;
    file = 84 ∷ 80 ∷ 73 ∷ 67 ∷ 1 ∷ 0 ∷ 0 ∷ 0 ∷ 7 ∷ [];
  };
  next_offset = 1;
  consumers = [];
  offsets = [];
  stats = record { earliest_offset = 0; next_offset = 1; records = 1; retained_bytes = 9 };
}
