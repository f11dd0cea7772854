-- ===== src/Topic/State/Reader.antt =====
-- The consumers of a topic (zendb-storage/src/topic.rs, TopicConsumer). A handle holds its name and
-- the cursor into a segment, which it knows by its number: the removed segments, the older ones and the
-- active one are numbered in this order, so that compaction changes no number. Each
-- operation takes the topic, whose shared part holds the consumer's state, and gives it back.
use zendb.Prelude.{
  ℕ, suc, ◌+◌, ◌-◌, Bool, true, false, ◌&&◌, Option, none, some, List, [], ◌∷◌, ◌++◌, if◌then◌else◌,
  leb, ltb, length, get_elem?, Ord, Result, ok, err,
}
use zendb.Map.{lookup, insert, remove}
use zendb.Topic.Frame.{header_size, skip_records, read_record}
use zendb.Topic.State.{Topic, Segment, ConsumerState}

-- `SegmentCursor`, with the position of its file.
pub record SegmentCursor : Type 0 where
  pub segment : ℕ
  pub byte_offset : ℕ
  pub logical_offset : ℕ

pub record TopicConsumer (N : Type 0) : Type 0 where
  pub name : N
  pub current : Option SegmentCursor

-- `no_segment` is the panic of `unwrap` where no segment has the offset.
pub data TopicError : Type 0 where
  already_exists unexpected_end invalid_value no_segment : TopicError

-- The segments in the order of their offsets, the removed ones first.
abbrev pub all_segments : {N : Type 0} → Topic N → List Segment
all_segments t = t.removed ++ (t.older ++ (t.active ∷ []))

abbrev pub holds_offset : ℕ → Segment → Bool
holds_offset offset s = leb s.base_offset offset && ltb offset s.end_offset

-- The first segment that has the offset, with its number.
unfoldable pub find_offset : ℕ → ℕ → List Segment → Option (ℕ × Segment)
find_offset offset number [] = none
find_offset offset number (s ∷ ss) =
    if holds_offset offset s then some (number, s) else find_offset offset (suc number) ss

-- The new cursor for an offset, or none at the tail.
unfoldable pub cursor_at : {N : Type 0} → Topic N → ℕ → Result TopicError (Option SegmentCursor)
unfolding find_offset skip_records
cursor_at t offset =
    if leb t.next_offset offset
    then ok none
    else elim (find_offset offset (length t.removed) (t.older ++ (t.active ∷ []))) [
      | none ↦ err no_segment
      | some (number, s) ↦ elim (skip_records (offset - s.base_offset) s.file header_size) [
        | none ↦ err unexpected_end
        | some byte_offset ↦
            ok (
              some
                (record { segment = number; byte_offset = byte_offset; logical_offset = offset }))
      ]
    ]

module _ {N : Type 0} ⦃o : Ord N⦄ where
  abbrev pub state_of : Topic N → N → Option ConsumerState
  state_of t name = lookup name t.consumers

  -- A store into a field of the consumer's shared state.
  unfoldable pub update_state : Topic N → N → (ConsumerState → ConsumerState) → Topic N
  update_state t name f = elim (state_of t name) [
    | none ↦ t
    | some c ↦ record t { consumers = insert name (f c) t.consumers }
  ]

  abbrev pub volatile_of : Topic N → N → ℕ
  volatile_of t name = elim (state_of t name) [ none ↦ 0 | some c ↦ c.volatile ]

  -- `reader_active.swap(true)`, and the handle where no reader was active.
  unfoldable pub activate :
      Topic N → N → ConsumerState → Topic N × Result TopicError (TopicConsumer N)
  activate t name c = (
    record t { consumers = insert name (record c { reader_active = true }) t.consumers },
    if c.reader_active then err already_exists else ok (record { name = name; current = none }),
  )

  unfoldable pub consumer : Topic N → N → Topic N × Result TopicError (TopicConsumer N)
  unfolding activate
  consumer t name = elim (state_of t name) [
    | some c ↦ activate t name c
    | none ↦
        let offset = t.next_offset in
        activate (record t { offsets = insert name offset t.offsets }) name
          (record { committed = offset; volatile = offset; reader_active = false })
  ]

  -- Persists the volatile cursor.
  unfoldable pub commit : Topic N → TopicConsumer N → Topic N
  unfolding update_state
  commit t c =
      let volatile = volatile_of t c.name in
      let stored = record t { offsets = insert c.name volatile t.offsets } in
      update_state stored c.name (λ s. record s { committed = volatile })

  unfoldable pub seek : Topic N → TopicConsumer N → ℕ → Topic N × TopicConsumer N
  unfolding update_state
  seek t c offset =
      (update_state t c.name (λ s. record s { volatile = offset }), record c { current = none })

  unfoldable pub reset : Topic N → TopicConsumer N → Topic N × TopicConsumer N
  unfolding update_state
  reset t c = (
    update_state t c.name (λ s. record s { volatile = s.committed }),
    record c { current = none },
  )

  -- The handle is used up.
  unfoldable pub delete : Topic N → TopicConsumer N → Topic N
  delete t c = record t { offsets = remove c.name t.offsets; consumers = remove c.name t.consumers }

  -- `Drop for TopicConsumer`.
  unfoldable pub drop_consumer : Topic N → TopicConsumer N → Topic N
  unfolding update_state
  drop_consumer t c =
      update_state t c.name (λ s. record s { volatile = s.committed; reader_active = false })

  unfoldable pub position : Topic N → TopicConsumer N → Result TopicError (Option SegmentCursor)
  unfolding cursor_at
  position t c = cursor_at t (volatile_of t c.name)

  -- The test of `next` on the current cursor, with `position` where it has to move: what stands
  -- in `current` then, and the cursor to read at.
  unfoldable pub settle :
      Topic N → TopicConsumer N → Option SegmentCursor × Result TopicError (Option SegmentCursor)
  unfolding position
  settle t c = elim c.current [
    | none ↦ (none, position t c)
    | some k ↦ elim (get_elem? (all_segments t) k.segment) [
      | none ↦ (some k, err no_segment)
      | some s ↦
          if ltb k.logical_offset s.end_offset
          then (some k, ok (some k))
          else if leb t.next_offset k.logical_offset
          then (some k, ok none)
          else (none, position t c)
    ]
  ]

  module _ {V : Type 0} (decode : List ℕ → Option V) where
    -- The read at a settled cursor. The file stands behind a value that does not decode, while the
    -- offset stays.
    unfoldable pub read_value :
        Topic N
        → TopicConsumer N
        → SegmentCursor
        → (Topic N × TopicConsumer N) × Result TopicError V
    unfolding read_record update_state
    read_value t c k = elim (get_elem? (all_segments t) k.segment) [
      | none ↦ ((t, c), err no_segment)
      | some s ↦ elim (read_record s.file k.byte_offset) [
        | none ↦ ((t, record c { current = some k }), err unexpected_end)
        | some (bytes, byte_offset) ↦ elim (decode bytes) [
          | none ↦ (
            (t, record c { current = some (record k { byte_offset = byte_offset }) }),
            err invalid_value,
          )
          | some v ↦
              let offset = k.logical_offset + 1 in
              let moved : SegmentCursor = record k {
                byte_offset = byte_offset;
                logical_offset = offset;
              } in
              (
                (
                  update_state t c.name (λ st. record st { volatile = offset }),
                  record c { current = some moved },
                ),
                ok v,
              )
        ]
      ]
    ]

    -- The item of the iterator: none at the tail.
    unfoldable pub next :
        Topic N → TopicConsumer N → (Topic N × TopicConsumer N) × Option (Result TopicError V)
    unfolding settle read_value
    next t c =
        let (current, settled) = settle t c in
        elim settled [
          | err e ↦ ((t, record c { current = current }), some (err e))
          | ok none ↦ ((t, record c { current = current }), none)
          | ok (some k) ↦ let (after, item) = read_value t c k in (after, some item)
        ]
