-- ===== src/Table/Validity.antt =====
-- A table keeps its count of the pending rows right (zendb-storage/src/table/table.rs).
use zendb.Prelude.{
  ℕ, ◌+◌, ◌<◌, ◌≡◌, refl, ap, subst, arith, Bool, Option, none, some, List, [], ◌∷◌, length, Ord,
  inl, inr, ◌∙◌, sym, Bool-cases, length-append, Result,
}
use zendb.Map.{Map, insert, IsSorted, insert-IsSorted}
use zendb.Crdt.Stamp.{MergeStamps}
use zendb.Topic.State.{append}
use zendb.Table.{
  Table, Event, Change, filter_absent, entries, size, get, drain_cache, prepare_cache, merged,
  record_change, insert_event,
}
use zendb.Table.Iteration.{entries-cases, get-or_else}
use zendb.Table.Rows.{
  drain_cache-fields, is_full, put_all-IsSorted, put_cache-room, prepare_cache-room,
  prepare_cache-get, result-cases, walk,
}
use zendb.Table.Size.{novel_count, length-collect, length-filter_absent, novel_count-insert}

module _ {N K C : Type 0} ⦃k : Ord K⦄ where
  -- The state and the cache have ascending keys, the cache has room for a row, and the pending rows
  -- are counted.
  abbrev pub IsValid : Table N K C → Type 0
  IsValid t =
      IsSorted t.state
      × IsSorted t.cache
      × (0 < t.max_entries)
      × (t.novel_pending ≡ novel_count t.state t.cache)

  -- The size of a valid table, which is kept and not counted, is the number of the rows that it
  -- iterates over, by any of the three variants of its state.
  pub size-entries : (t : Table N K C) → IsValid t → size t ≡ length (entries t)
  unfolding merged
  size-entries t (h, g, room, novel) = elim (entries-cases t) [
    | inl e ↦ omega (
      arith,
      ap length e,
      novel,
      length-collect (length t.state + length t.cache) t.state t.cache h g (omega arith),
    )
    | inr e ↦ omega (
      arith,
      ap length e,
      novel,
      length-append (filter_absent t.cache t.state) t.cache,
      length-filter_absent t.cache t.state g h,
    )
  ]

  drain_cache-pending :
      (c : Map K C) (t : Table N K C) → t.cache ≡ c → IsValid t → (drain_cache t).novel_pending ≡ 0
  unfolding drain_cache
  drain_cache-pending [] t e (h, g, room, novel) =
      rw (e, drain_cache) (novel ∙ ap (novel_count t.state) e)
  drain_cache-pending (x ∷ c) t e valid = rw (e, drain_cache) refl

  drain_cache-IsValid : (t : Table N K C) → IsValid t → IsValid (drain_cache t)
  drain_cache-IsValid t valid =
      let (state, cache, bound) = drain_cache-fields t.cache t refl in
      (
        subst (λ m. IsSorted m) (sym state) (put_all-IsSorted t.cache t.state valid.0),
        subst (λ m. IsSorted m) (sym cache) tt,
        omega (arith, bound, valid.2),
        drain_cache-pending t.cache t refl valid
            ∙ sym (ap (novel_count (drain_cache t).state) cache),
      )

  prepare_cache-IsValid : (key : K) (t : Table N K C) → IsValid t → IsValid (prepare_cache key t)
  unfolding prepare_cache
  prepare_cache-IsValid key t valid = elim (Bool-cases (is_full key t)) [
    | inl e ↦ rw (e, prepare_cache) (drain_cache-IsValid t valid)
    | inr e ↦ rw (e, prepare_cache) valid
  ]

  -- the count after a row goes into the cache
  pending-insert :
      (key : K) (cell : C) (t : Table N K C) (previous : Option C)
      → IsValid t
      → get key t ≡ previous
      → (elim previous as (λ p. ℕ) [ none ↦ t.novel_pending + 1 | some _ ↦ t.novel_pending ])
        ≡ novel_count t.state (insert key cell t.cache)
  pending-insert key cell t none (h, g, room, novel) e =
      ground (arith, novel, novel_count-insert key cell t.state t.cache g, get-or_else key t, e)
  pending-insert key cell t (some c) (h, g, room, novel) e =
      ground (arith, novel, novel_count-insert key cell t.state t.cache g, get-or_else key t, e)

module _ {N K P O S C : Type 0} (X : Type 0) ⦃n : Ord N⦄ ⦃k : Ord K⦄
    (encode : Change K P O S C → List ℕ) where
  record_change-IsValid :
      (t : Table N K C) (event : Event K P O S) (cell : C)
      → IsValid t
      → IsValid (record_change {X = X} encode t event (get event.primary_key t) cell).0
  unfolding record_change
  record_change-IsValid t event cell valid =
      let key = event.primary_key in
      let ready = prepare_cache key t in
      let (h, g, room, novel) = prepare_cache-IsValid key t valid in
      let change : Change K P O S C = record {
        event = event;
        previous = get key t;
        current = some cell;
      } in
      let logged = record ready { topic = (append ready.topic (encode change)).0 } in
      rw (put_cache-room key cell logged (prepare_cache-room key t valid.2), record_change)
        (
          h,
          insert-IsSorted key cell ready.cache g,
          room,
          pending-insert key cell ready (get key t) (h, g, room, novel)
              (prepare_cache-get key key t valid.1),
        )

module _ {N K P O S C X : Type 0} ⦃n : Ord N⦄ ⦃k : Ord K⦄ (zero_stamp : S) (stamp_of : C → S)
    (dummy : C) (apply_walk : C → O → MergeStamps S → P → C × Result X Bool)
    (encode : Change K P O S C → List ℕ) where
  -- `insert` keeps a table valid, whatever it answers: the keys ascend, and the count of the pending rows
  -- is right, with a new row, with a row that was there, and with a cache that is drained before.
  pub insert_event-IsValid :
      (t : Table N K C) (event : Event K P O S)
      → IsValid t
      → IsValid (insert_event zero_stamp stamp_of dummy apply_walk encode t event).0
  unfolding insert_event
  insert_event-IsValid t event valid =
      let (cell, result) = walk zero_stamp stamp_of dummy apply_walk encode t event in
      elim (result-cases result) [
        | inl (x, e) ↦ rw (e, insert_event) valid
        | inr (inl e) ↦ rw (e, insert_event) valid
        | inr (inr e) ↦ rw (e, insert_event) (record_change-IsValid X encode t event cell valid)
      ]
