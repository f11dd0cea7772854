-- ===== src/Table/Rows.antt =====
-- What the writes of a table do to its rows (zendb-storage/src/table/table.rs).
use zendb.Prelude.{
  ℕ, ◌<◌, ◌≡◌, refl, ap, arith, Bool, true, false, ◌&&◌, ◌||◌, not, Option, none, some, List, [],
  ◌∷◌, length, Ord, ◌⊎◌, inl, inr, eqb, if◌then◌else◌, ◌∙◌, sym, leb, ltb, Bool-cases, Result, ok,
  err,
}
use zendb.Map.{
  Map, lookup, insert, contains_key, IsSorted, lookup-Above, lookup-insert, insert-IsSorted,
}
use zendb.Crdt.Stamp.{MergeStamps}
use zendb.Topic.State.{append}
use zendb.Table.{
  Table, Event, Change, InsertOutcome, ignored, applied, TableError, rejected, get, put_all,
  drain_cache, prepare_cache, put_cache, record_change, insert_event,
}
use zendb.Table.Iteration.{or_else, get-or_else}

-- Whether the operation changed the cell.
abbrev pub changes : {X : Type 0} → Result X Bool → Bool
changes (err e) = false
changes (ok b) = b

pub result-cases {ℓ} :
    {E : Type ℓ} (r : Result E Bool) → ((e : E) × (r ≡ err e)) ⊎ ((r ≡ ok false) ⊎ (r ≡ ok true))
result-cases (err e) = inl (e, refl)
result-cases (ok false) = inr (inl refl)
result-cases (ok true) = inr (inr refl)

module _ {K C : Type 0} ⦃k : Ord K⦄ where
  pub put_all-IsSorted : (c s : Map K C) → IsSorted s → IsSorted (put_all c s)
  unfolding put_all
  put_all-IsSorted [] s h = h
  put_all-IsSorted ((q, v) ∷ c) s h = put_all-IsSorted c (insert q v s) (insert-IsSorted q v s h)

  pub lookup-put_all :
      (q : K) (c s : Map K C)
      → IsSorted c
      → lookup q (put_all c s) ≡ or_else (lookup q c) (lookup q s)
  unfolding put_all lookup
  lookup-put_all q [] s h = refl
  lookup-put_all q ((x, v) ∷ c) s h =
      lookup-put_all q c (insert x v s) h.1
      ∙ ground (arith, lookup-insert x q v s, lookup-Above x c h.0, k.cmp_iff q x)

module _ {N K C : Type 0} ⦃k : Ord K⦄ where
  pub drain_cache-fields :
      (c : Map K C) (t : Table N K C)
      → t.cache ≡ c
      → ((drain_cache t).state ≡ put_all t.cache t.state)
        × ((drain_cache t).cache ≡ [])
        × ((drain_cache t).max_entries ≡ t.max_entries)
  unfolding drain_cache put_all
  drain_cache-fields [] t e = rw (e, drain_cache) (refl, e, refl)
  drain_cache-fields (x ∷ c) t e = rw (e, drain_cache) (ap (λ c. put_all c t.state) e, refl, refl)

  drain_cache-get : (q : K) (t : Table N K C) → IsSorted t.cache → get q (drain_cache t) ≡ get q t
  unfolding lookup
  drain_cache-get q t h =
      let (state, cache, bound) = drain_cache-fields t.cache t refl in
      get-or_else q (drain_cache t)
      ∙ ap (λ c. or_else (lookup q c) (lookup q (drain_cache t).state)) cache
      ∙ ap (lookup q) state
      ∙ lookup-put_all q t.cache t.state h
      ∙ sym (get-or_else q t)

  abbrev pub is_full : K → Table N K C → Bool
  is_full key t = leb t.max_entries (length t.cache) && not (contains_key key t.cache)

  abbrev pub has_room : K → Table N K C → Bool
  has_room key t = contains_key key t.cache || ltb (length t.cache) t.max_entries

  -- what `prepare_cache` leaves: the rows, and room for the key
  pub prepare_cache-get :
      (q key : K) (t : Table N K C) → IsSorted t.cache → get q (prepare_cache key t) ≡ get q t
  unfolding prepare_cache
  prepare_cache-get q key t h = elim (Bool-cases (is_full key t)) [
    | inl e ↦ rw (e, prepare_cache) (drain_cache-get q t h)
    | inr e ↦ rw (e, prepare_cache) refl
  ]

  pub prepare_cache-room :
      (key : K) (t : Table N K C) → 0 < t.max_entries → has_room key (prepare_cache key t) ≡ true
  unfolding prepare_cache drain_cache lookup
  prepare_cache-room key t h = elim (Bool-cases (is_full key t)) [
    | inl e ↦
        let (state, cache, bound) = drain_cache-fields t.cache t refl in
        rw (e, prepare_cache, cache, bound) (ground (arith, h))
    | inr e ↦ rw (e, prepare_cache) (ground (arith, e))
  ]

  pub put_cache-room :
      (key : K) (cell : C) (t : Table N K C)
      → has_room key t ≡ true
      → put_cache key cell t ≡ some (record t { cache = insert key cell t.cache })
  unfolding put_cache
  put_cache-room key cell t room = rw (room, put_cache) refl

module _ {N K P O S C X : Type 0} ⦃n : Ord N⦄ ⦃k : Ord K⦄ (encode : Change K P O S C → List ℕ) where
  record_change-get :
      (t : Table N K C) (event : Event K P O S) (previous : Option C) (cell : C)
      → IsSorted t.cache
      → 0 < t.max_entries
      → let done = record_change {X = X} encode t event previous cell in
        (done.1 ≡ ok (applied (record { event = event; previous = previous; current = some cell })))
        × ((q : K) → get q done.0 ≡ (if eqb q event.primary_key then some cell else get q t))
  unfolding record_change
  record_change-get t event previous cell h room =
      let key = event.primary_key in
      let ready = prepare_cache key t in
      let change : Change K P O S C = record {
        event = event;
        previous = previous;
        current = some cell;
      } in
      let logged = record ready { topic = (append ready.topic (encode change)).0 } in
      rw (put_cache-room key cell logged (prepare_cache-room key t room), record_change)
        (
          refl,
          λ q.
              get-or_else q _
              ∙ ground (
                arith,
                lookup-insert key q cell ready.cache,
                get-or_else q ready,
                prepare_cache-get q key t h,
              ),
        )

module _ {N K P O S C X : Type 0} ⦃n : Ord N⦄ ⦃k : Ord K⦄ (zero_stamp : S) (stamp_of : C → S)
    (dummy : C) (apply_walk : C → O → MergeStamps S → P → C × Result X Bool)
    (encode : Change K P O S C → List ℕ) where
  -- The cell after the operation, and its result.
  abbrev pub walk : Table N K C → Event K P O S → C × Result X Bool
  walk t event =
      let previous = get event.primary_key t in
      let current : C = elim previous [ none ↦ dummy | some c ↦ c ] in
      let current_stamp : S = elim previous [ none ↦ zero_stamp | some c ↦ stamp_of c ] in
      apply_walk current event.op (record { current = current_stamp; incoming = event.stamp })
        event.path

  -- What `insert` answers to the result of the cell.
  abbrev pub outcome :
      Table N K C
      → Event K P O S
      → C
      → Result X Bool
      → Result (TableError X) (InsertOutcome K P O S C)
  outcome t event cell (err e) = err (rejected e)
  outcome t event cell (ok false) = ok ignored
  outcome t event cell (ok true) =
      ok (
        applied (record { event = event; previous = get event.primary_key t; current = some cell }))

  -- The table's cache has ascending keys and room for at least one row. Then `insert` answers by the
  -- result of the operation on the row's cell: its error, or that it is ignored, or the change with the
  -- cell before and after; it never fails on the full cache. If the operation changed the cell, `get`
  -- finds the new cell under the event's key; any other row, and every row otherwise, is as before,
  -- also where the cache was drained into the state.
  pub insert_event-get :
      (t : Table N K C) (event : Event K P O S)
      → IsSorted t.cache
      → 0 < t.max_entries
      → let (cell, result) = walk t event in
        let done = insert_event zero_stamp stamp_of dummy apply_walk encode t event in
        (done.1 ≡ outcome t event cell result)
        × ((q : K)
            → get q done.0
              ≡ (if changes result && eqb q event.primary_key then some cell else get q t))
  unfolding insert_event
  insert_event-get t event h room = elim (result-cases (walk t event).1) [
    | inl (x, e) ↦ rw (e, insert_event) (refl, λ q. refl)
    | inr (inl e) ↦ rw (e, insert_event) (refl, λ q. refl)
    | inr (inr e) ↦
        rw (e, insert_event)
          (record_change-get encode t event (get event.primary_key t) (walk t event).0 h room)
  ]
