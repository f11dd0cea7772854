-- ===== src/Storage/KeyDir/Rebuild.antt =====
-- What the replay of a log of zendb-storage/src/backend/keydir.rs yields: each entry of the index leads
-- to the latest live record of its key.
use zendb.Prelude.{
  ℕ, ◌+◌, ◌^◌, ◌≤◌, ◌<◌, Option, none, some, List, [], ◌∷◌, ◌++◌, if◌then◌else◌, Ord, eqb, ◌≡◌,
  refl, arith, append_assoc, append-nil, eqb_iff, Bool-cases, inl, inr,
}
use zendb.Map.{
  Map, lookup, insert, remove, IsSorted, lookup-insert, lookup-remove, insert-IsSorted,
  remove-IsSorted,
}
use zendb.Storage.KeyDir.{
  LogRecord, live_record, tombstone, EntryMeta, Replay, size_of, record_at, replay_record, replay,
  rebuild_index, header_size, scanned_size, as_u32,
}

module _ {K V : Type 0} ⦃k : Ord K⦄ where
  -- The map that a log of records stands for.
  unfoldable pub apply_record : Map K V → LogRecord K V → Map K V
  apply_record m (live_record v key) = insert key v m
  apply_record m (tombstone key) = remove key m

  unfoldable pub apply_records : Map K V → List (LogRecord K V) → Map K V
  unfolding apply_record
  apply_records m [] = m
  apply_records m (r ∷ rs) = apply_records (apply_record m r) rs

  -- What the log of a key directory holds.
  unfoldable pub contents : List (LogRecord K V) → Map K V
  unfolding apply_records
  contents log = apply_records [] log

module _ {K V : Type 0} (key_size : K → ℕ) (value_size : V → ℕ) where
  -- Where a log that begins at the cursor ends.
  unfoldable pub end_from : ℕ → List (LogRecord K V) → ℕ
  end_from cursor [] = cursor
  end_from cursor (r ∷ rs) = end_from (cursor + size_of key_size value_size r) rs

  pub end-snoc :
      (cursor : ℕ) (rs : List (LogRecord K V)) (r : LogRecord K V)
      → end_from cursor (rs ++ (r ∷ [])) ≡ end_from cursor rs + size_of key_size value_size r
  unfolding end_from
  end-snoc cursor [] r = refl
  end-snoc cursor (x ∷ rs) r = end-snoc (cursor + size_of key_size value_size x) rs r

  size_pos : (r : LogRecord K V) → 0 < size_of key_size value_size r
  unfolding size_of
  size_pos (live_record v key) = omega arith
  size_pos (tombstone key) = omega arith

  pub end-le : (cursor : ℕ) (rs : List (LogRecord K V)) → cursor ≤ end_from cursor rs
  unfolding end_from
  end-le cursor [] = omega arith
  end-le cursor (r ∷ rs) = omega (arith, end-le (cursor + size_of key_size value_size r) rs)

  -- a record is found behind the log that it is appended to
  pub record_at-end :
      (cursor : ℕ) (rs : List (LogRecord K V)) (r : LogRecord K V)
      → record_at key_size value_size cursor (end_from cursor rs) (rs ++ (r ∷ [])) ≡ some r
  unfolding record_at end_from
  record_at-end cursor [] r = ground arith
  record_at-end cursor (x ∷ rs) r = ground (
    arith,
    record_at-end (cursor + size_of key_size value_size x) rs r,
    end-le (cursor + size_of key_size value_size x) rs,
    size_pos x,
  )

  -- and the others stay where they are
  pub record_at-snoc :
      (cursor offset : ℕ) (rs : List (LogRecord K V)) (r x : LogRecord K V)
      → record_at key_size value_size cursor offset rs ≡ some x
      → record_at key_size value_size cursor offset (rs ++ (r ∷ [])) ≡ some x
  unfolding record_at
  record_at-snoc cursor offset [] r x h = ground (arith, h)
  record_at-snoc cursor offset (y ∷ rs) r x h =
      ground (arith, record_at-snoc (cursor + size_of key_size value_size y) offset rs r x)

module _ {K V : Type 0} (key_size : K → ℕ) (value_size : V → ℕ) where
  -- The record is shorter than 2^32 bytes.
  abbrev pub Fits : LogRecord K V → Type 0
  Fits r = size_of key_size value_size r < 2 ^ 32

  abbrev pub AllFit : List (LogRecord K V) → Type 0
  AllFit [] = Unit
  AllFit (r ∷ rs) = Fits r × AllFit rs

  pub AllFit-append : (rs ss : List (LogRecord K V)) → AllFit rs → AllFit ss → AllFit (rs ++ ss)
  AllFit-append [] ss f g = g
  AllFit-append (r ∷ rs) ss f g = (f.0, AllFit-append rs ss f.1 g)

  -- no length is cut off
  pub scanned_size-Fits :
      (r : LogRecord K V)
      → Fits r
      → (scanned_size key_size value_size r ≡ size_of key_size value_size r)
        × (as_u32 (size_of key_size value_size r) ≡ size_of key_size value_size r)
  unfolding scanned_size size_of
  scanned_size-Fits (live_record v key) f = (omega (arith, f), omega (arith, f))
  scanned_size-Fits (tombstone key) f = (omega (arith, f), omega (arith, f))

module _ {K V : Type 0} ⦃k : Ord K⦄ (key_size : K → ℕ) (value_size : V → ℕ) where
  -- The entry of a key in the index leads to the record with its value.
  abbrev pub Leads : List (LogRecord K V) → K → Option EntryMeta → Option V → Type 0
  Leads log key none none = Unit
  Leads log key none (some v) = ⊥
  Leads log key (some meta) none = ⊥
  Leads log key (some meta) (some v) =
      (record_at key_size value_size header_size meta.offset log ≡ some (live_record v key))
      × (meta.record_size ≡ size_of key_size value_size (live_record v key))
      × Fits key_size value_size (live_record v key)

  pub record Tracks (log : List (LogRecord K V)) (st : Replay K) (m : Map K V) : Type 0 where
    pub at_end : st.cursor ≡ end_from key_size value_size header_size log
    pub index_sorted : IsSorted st.index
    pub map_sorted : IsSorted m
    pub leads : (key : K) → Leads log key (lookup key st.index) (lookup key m)

  Leads-snoc :
      (log : List (LogRecord K V)) (r : LogRecord K V) (key : K) (e : Option EntryMeta)
      (v : Option V)
      → Leads log key e v
      → Leads (log ++ (r ∷ [])) key e v
  Leads-snoc log r key none none h = tt
  Leads-snoc log r key none (some v) h = h
  Leads-snoc log r key (some meta) none h = h
  Leads-snoc log r key (some meta) (some v) h =
      (record_at-snoc key_size value_size header_size meta.offset log r _ h.0, h.1, h.2)

  module _ (log : List (LogRecord K V)) (st : Replay K) (m : Map K V) (t : Tracks log st m) where
    Leads-live :
        (v : V) (key q : K)
        → Fits key_size value_size (live_record v key)
        → Leads
            (log ++ (live_record v key ∷ []))
            q
            (if eqb q key
              then some (record {
                offset = st.cursor;
                record_size = size_of key_size value_size (live_record v key);
              })
              else lookup q st.index)
            (if eqb q key then some v else lookup q m)
    Leads-live v key q f = elim (Bool-cases (eqb q key)) [
      | inl e ↦
          let same : q ≡ key = (eqb_iff q key).0 e in
          rw (e, same, t.at_end)
            (record_at-end key_size value_size header_size log (live_record v key), refl, f)
      | inr e ↦
          rw e (Leads-snoc log (live_record v key) q (lookup q st.index) (lookup q m) (t.leads q))
    ]

    track-live :
        (v : V) (key : K)
        → Fits key_size value_size (live_record v key)
        → Tracks
            (log ++ (live_record v key ∷ []))
            (replay_record key_size value_size st (live_record v key))
            (apply_record m (live_record v key))
    unfolding replay_record apply_record
    track-live v key f =
        let scanned = scanned_size-Fits key_size value_size (live_record v key) f in
        record {
          at_end = omega (
            arith,
            scanned.0,
            end-snoc key_size value_size header_size log (live_record v key),
            t.at_end,
          );
          index_sorted = insert-IsSorted key _ st.index t.index_sorted;
          map_sorted = insert-IsSorted key v m t.map_sorted;
          leads = λ q.
              rw
                (
                  scanned.0,
                  scanned.1,
                  lookup-insert key q
                      (record {
                        offset = st.cursor;
                        record_size = size_of key_size value_size (live_record v key);
                      })
                      st.index,
                  lookup-insert key q v m,
                )
                (Leads-live v key q f);
        }

    Leads-tombstone :
        (key q : K)
        → Leads
            (log ++ (tombstone key ∷ []))
            q
            (if eqb q key then none else lookup q st.index)
            (if eqb q key then none else lookup q m)
    Leads-tombstone key q = elim (Bool-cases (eqb q key)) [
      | inl e ↦ rw e tt
      | inr e ↦ rw e (Leads-snoc log (tombstone key) q (lookup q st.index) (lookup q m) (t.leads q))
    ]

    track-tombstone :
        (key : K)
        → Fits key_size value_size (tombstone key)
        → Tracks
            (log ++ (tombstone key ∷ []))
            (replay_record key_size value_size st (tombstone key))
            (apply_record m (tombstone key))
    unfolding replay_record apply_record size_of
    track-tombstone key f =
        let scanned = scanned_size-Fits key_size value_size (tombstone key) f in
        record {
          at_end = omega (
            arith,
            scanned.0,
            end-snoc key_size value_size header_size log (tombstone key),
            t.at_end,
          );
          index_sorted = remove-IsSorted key st.index t.index_sorted;
          map_sorted = remove-IsSorted key m t.map_sorted;
          leads = λ q.
              rw (lookup-remove key q st.index t.index_sorted, lookup-remove key q m t.map_sorted)
                (Leads-tombstone key q);
        }

    pub track :
        (r : LogRecord K V)
        → Fits key_size value_size r
        → Tracks (log ++ (r ∷ [])) (replay_record key_size value_size st r) (apply_record m r)
    track (live_record v key) f = track-live v key f
    track (tombstone key) f = track-tombstone key f

  pub replay-Tracks :
      (log : List (LogRecord K V)) (st : Replay K) (m : Map K V) (rs : List (LogRecord K V))
      → Tracks log st m
      → AllFit key_size value_size rs
      → Tracks (log ++ rs) (replay key_size value_size st rs) (apply_records m rs)
  unfolding replay apply_records
  replay-Tracks log st m [] t f = rw (append-nil log) t
  replay-Tracks log st m (r ∷ rs) t f = rw⁻¹ (append_assoc log (r ∷ []) rs) (
      replay-Tracks (log ++ (r ∷ [])) (replay_record key_size value_size st r) (apply_record m r) rs
        (track log st m t r f.0) f.1)

  -- the index of a rebuilt log leads to what the log holds
  pub rebuild_index-Tracks :
      (log : List (LogRecord K V))
      → AllFit key_size value_size log
      → Tracks log (rebuild_index key_size value_size log) (contents log)
  unfolding rebuild_index contents end_from lookup
  rebuild_index-Tracks log f =
      replay-Tracks [] (record { cursor = header_size; index = []; dead = 0 }) [] log
        (record { at_end = refl; index_sorted = tt; map_sorted = tt; leads = λ key. tt }) f
