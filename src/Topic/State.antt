-- ===== src/Topic/State.antt =====
-- The state of a topic and of its consumers, and what the writer does (zendb-storage/src/topic.rs).
-- A segment carries the bytes of its file; a call of the file system that fails is not modelled.
-- The two copies of the segment list, the writer's and the published one, are one: the writer
-- publishes at each change. The store of the committed cursors is a map. Consumers are found by
-- their name, of any ordered type.
pub mod Reader
pub mod Log
pub mod Chains
pub mod Retention
pub mod Delivery
pub mod Cursor
pub mod Drain
pub mod Consumers
pub mod Sync
pub mod Reach
pub mod Open
use zendb.Prelude.{
  ℕ, zero, suc, ◌+◌, ◌-◌, Bool, true, false, ◌&&◌, not, Option, none, some, List, [], ◌∷◌, ◌++◌,
  if◌then◌else◌, leb, ltb, ◌==◌, take, drop, length, Ord, Result, ok, err,
}
use zendb.Map.{Map, lookup, insert, remove}
use zendb.Topic.Frame.{header, header_size, frame}

pub record TopicConfig : Type 0 where
  pub max_segment_bytes : ℕ

pub record TopicStats : Type 0 where
  pub earliest_offset : ℕ
  pub next_offset : ℕ
  pub records : ℕ
  pub retained_bytes : ℕ

pub record ConsumerState : Type 0 where
  pub committed : ℕ
  pub volatile : ℕ
  pub reader_active : Bool

pub record Segment : Type 0 where
  pub base_offset : ℕ
  pub end_offset : ℕ
  pub byte_len : ℕ
  pub file : List ℕ

-- The segments before the active one are `older`; `removed` are those that compaction took off the
-- list, whose files stay while a reader holds them.
pub record Topic (N : Type 0) : Type 0 where
  pub config : TopicConfig
  pub removed : List Segment
  pub older : List Segment
  pub active : Segment
  pub next_offset : ℕ
  pub consumers : Map N ConsumerState
  pub offsets : Map N ℕ
  pub stats : TopicStats

-- The subtraction cannot go below 0: a segment ends where it begins or later.
abbrev pub record_count : Segment → ℕ
record_count s = s.end_offset - s.base_offset

unfoldable pub create_segment : ℕ → Segment
create_segment base = record {
  base_offset = base;
  end_offset = base;
  byte_len = header_size;
  file = header;
}

abbrev pub sum_of : (Segment → ℕ) → List Segment → ℕ
sum_of f [] = 0
sum_of f (s ∷ ss) = f s + sum_of f ss

-- `Iterator::min` of the committed cursors: the least so far, with the cursors that are left.
abbrev pub least_committed : {N : Type 0} → ℕ → Map N ConsumerState → ℕ
least_committed least [] = least
least_committed least ((n, c) ∷ cs) =
    least_committed (if ltb c.committed least then c.committed else least) cs

abbrev pub min_committed : {N : Type 0} → Map N ConsumerState → Option ℕ
min_committed [] = none
min_committed ((n, c) ∷ cs) = some (least_committed c.committed cs)

-- The number of the segments at the front of the list that end at or before `through`.
unfoldable pub removable : ℕ → List Segment → ℕ
removable through [] = 0
removable through (s ∷ ss) = if leb s.end_offset through then suc (removable through ss) else 0

abbrev pub first_base : List Segment → Segment → ℕ
first_base [] active = active.base_offset
first_base (s ∷ ss) active = s.base_offset

module _ {N : Type 0} where
  unfoldable pub create : TopicConfig → Topic N
  unfolding create_segment
  create config = record {
    config = config;
    removed = [];
    older = [];
    active = create_segment 0;
    next_offset = 0;
    consumers = [];
    offsets = [];
    stats = record {
      earliest_offset = 0;
      next_offset = 0;
      records = 0;
      retained_bytes = header_size;
    };
  }

  -- The part of `compact` behind its early returns.
  unfoldable pub drop_segments : ℕ → Topic N → Topic N
  drop_segments n t =
      let gone = take n t.older in
      let kept = drop n t.older in
      record t {
        removed = t.removed ++ gone;
        older = kept;
        stats = record t.stats {
          earliest_offset = first_base kept t.active;
          records = t.stats.records - sum_of record_count gone;
          retained_bytes = t.stats.retained_bytes - sum_of (λ s. s.byte_len) gone;
        };
      }

  unfoldable pub compact : Topic N → Topic N
  unfolding drop_segments removable
  compact t = elim (min_committed t.consumers) [
    | none ↦ t
    | some through ↦ let n = removable through t.older in if n == 0 then t else drop_segments n t
  ]

  -- `rotate_segment`, up to its call of `compact`.
  unfoldable pub push_segment : Topic N → Topic N
  unfolding create_segment
  push_segment t = record t {
    older = t.older ++ (t.active ∷ []);
    active = create_segment t.stats.next_offset;
    stats = record t.stats { retained_bytes = t.stats.retained_bytes + header_size };
  }

  unfoldable pub rotate_segment : Topic N → Topic N
  unfolding push_segment compact
  rotate_segment t = compact (push_segment t)

  abbrev pub needs_rotation : Topic N → ℕ → Bool
  needs_rotation t record_size =
      not (record_count t.active == 0)
      && ltb t.config.max_segment_bytes (t.active.byte_len + record_size)

  -- The part of `append` behind the rotation.
  unfoldable pub write_record : Topic N → List ℕ → Topic N
  unfolding frame
  write_record t encoded =
      let record_size = 4 + length encoded in
      let offset = t.stats.next_offset in
      record t {
        active = record t.active {
          byte_len = t.active.byte_len + record_size;
          end_offset = offset + 1;
          file = t.active.file ++ frame encoded;
        };
        next_offset = offset + 1;
        stats = record t.stats {
          next_offset = offset + 1;
          records = t.stats.records + 1;
          retained_bytes = t.stats.retained_bytes + record_size;
        };
      }

  -- The encoding of the value is given; the result is the offset of the record.
  unfoldable pub append : Topic N → List ℕ → Topic N × ℕ
  unfolding rotate_segment write_record
  append t encoded =
      let ready = if needs_rotation t (4 + length encoded) then rotate_segment t else t in
      (write_record ready encoded, ready.stats.next_offset)
