-- ===== src/Storage/KeyDir/Refinement.antt =====
-- The key directory of zendb-storage/src/backend/keydir.rs implements a map: the records of its log,
-- applied in order. Its index and its counters are what a rebuild of the log yields.
use zendb.Prelude.{
  ℕ, ◌+◌, Option, none, some, List, [], ◌∷◌, ◌++◌, Ord, ◌≡◌, refl, ap, arith, ◌∙◌, sym, subst,
}
use mathlib.Core.Option.{some-injective}
use zendb.Map.{Map, lookup, insert, remove}
use zendb.Crdt.Sequence.Visited.{keys-Distinct}
use zendb.Storage.KeyDir.{
  LogRecord, live_record, tombstone, EntryMeta, KeyDir, Replay, record_at, replay_record, replay,
  rebuild_index, header_size, value_in, get, put_entry, write_entry, delete_entry, compact,
  sort_by_offset, scanned_size, size_of, as_u32, old_size,
}
use zendb.Storage.KeyDir.Rebuild.{
  apply_record, apply_records, contents, Tracks, Leads, rebuild_index-Tracks, Fits, AllFit,
  AllFit-append, scanned_size-Fits,
}
use zendb.Storage.KeyDir.Compaction.{slide-Slid, Found, FoundOne}
use zendb.Storage.KeyDir.Snapshot.{
  has-sort_by_offset, sort_by_offset-Distinct, lookup-keys, sort_by_offset-Found, index-Found,
}

module _ {K V : Type 0} ⦃k : Ord K⦄ (key_size : K → ℕ) (value_size : V → ℕ) where
  abbrev pub state_of : KeyDir K V → Replay K
  state_of d = record { cursor = d.stats.data_size; index = d.index; dead = d.stats.dead_bytes }

  -- The index, the tail and the dead bytes are those of the log, and each record of the log is shorter than
  -- 2^32 bytes.
  abbrev pub InSync : KeyDir K V → Type 0
  InSync d =
      (rebuild_index key_size value_size d.log ≡ state_of d) × AllFit key_size value_size d.log

  pub InSync-Tracks :
      (d : KeyDir K V) → InSync d → Tracks key_size value_size d.log (state_of d) (contents d.log)
  InSync-Tracks d s =
      subst (λ st. Tracks key_size value_size d.log st (contents d.log)) s.0
        (rebuild_index-Tracks key_size value_size d.log s.1)

  value_of :
      (d : KeyDir K V) (q : K) (e : Option EntryMeta) (v : Option V)
      → Leads key_size value_size d.log q e v
      → lookup q d.index ≡ e
      → get key_size value_size d q ≡ v
  unfolding get value_in
  value_of d q none none h e = rw (e, get)
  value_of d q none (some v) h e = absurd h
  value_of d q (some meta) none h e = absurd h
  value_of d q (some meta) (some v) h e = rw (e, h.0, get, value_in)

  -- A lookup reads what the log holds for the key, and never fails on an entry of the index.
  pub get-contents :
      (d : KeyDir K V) (q : K) → InSync d → get key_size value_size d q ≡ lookup q (contents d.log)
  get-contents d q s =
      value_of d q (lookup q d.index) (lookup q (contents d.log)) ((InSync-Tracks d s).leads q) refl

  replay-snoc :
      (st : Replay K) (rs : List (LogRecord K V)) (r : LogRecord K V)
      → replay key_size value_size st (rs ++ (r ∷ []))
        ≡ replay_record key_size value_size (replay key_size value_size st rs) r
  unfolding replay
  replay-snoc st [] r = refl
  replay-snoc st (x ∷ rs) r = replay-snoc (replay_record key_size value_size st x) rs r

  records-snoc :
      (m : Map K V) (rs : List (LogRecord K V)) (r : LogRecord K V)
      → apply_records m (rs ++ (r ∷ [])) ≡ apply_record (apply_records m rs) r
  unfolding apply_records
  records-snoc m [] r = refl
  records-snoc m (x ∷ rs) r = records-snoc (apply_record m x) rs r

  pub put_entry-InSync :
      (d : KeyDir K V) (key : K) (v : V)
      → Fits key_size value_size (live_record v key)
      → InSync d
      → InSync (put_entry key_size value_size d key v)
  unfolding rebuild_index put_entry write_entry replay_record scanned_size size_of
  put_entry-InSync d key v f s = (
    replay-snoc _ d.log (live_record v key)
        ∙ ap (λ st. replay_record key_size value_size st (live_record v key)) s.0
        ∙ ap appended (scanned_size-Fits key_size value_size (live_record v key) f).0,
    AllFit-append key_size value_size d.log (live_record v key ∷ []) s.1 (f, tt),
  )
    where
      appended : ℕ → Replay K
      appended n = record {
        cursor = d.stats.data_size + n;
        index = insert key (record { offset = d.stats.data_size; record_size = as_u32 n }) d.index;
        dead = d.stats.dead_bytes + old_size (lookup key d.index);
      }

  pub put_entry-contents :
      (d : KeyDir K V) (key : K) (v : V)
      → contents (put_entry key_size value_size d key v).log ≡ insert key v (contents d.log)
  unfolding contents put_entry write_entry apply_record
  put_entry-contents d key v = records-snoc [] d.log (live_record v key)

  pub delete_entry-InSync :
      (d : KeyDir K V) (key : K)
      → Fits key_size value_size (tombstone key)
      → InSync d
      → InSync (delete_entry key_size value_size d key)
  unfolding rebuild_index delete_entry replay_record scanned_size size_of
  delete_entry-InSync d key f s = (
    replay-snoc _ d.log (tombstone key)
        ∙ ap (λ st. replay_record key_size value_size st (tombstone key)) s.0
        ∙ ap appended (scanned_size-Fits key_size value_size (tombstone key) f).0,
    AllFit-append key_size value_size d.log (tombstone key ∷ []) s.1 (f, tt),
  )
    where
      appended : ℕ → Replay K
      appended n = record {
        cursor = d.stats.data_size + n;
        index = remove key d.index;
        dead = d.stats.dead_bytes + old_size (lookup key d.index) + n;
      }

  pub delete_entry-contents :
      (d : KeyDir K V) (key : K)
      → contents (delete_entry key_size value_size d key).log ≡ remove key (contents d.log)
  unfolding contents delete_entry apply_record
  delete_entry-contents d key = records-snoc [] d.log (tombstone key)

  found_one :
      (log : List (LogRecord K V)) (m : Map K V) (q : K) (e : Option EntryMeta) (v : Option V)
      (meta : EntryMeta)
      → Leads key_size value_size log q e v
      → lookup q m ≡ v
      → e ≡ some meta
      → FoundOne key_size value_size log m q meta
  found_one log m q none v meta h l e = absurd (ground (arith, e))
  found_one log m q (some meta') none meta h l e = absurd h
  found_one log m q (some meta') (some v) meta h l e =
      let same : meta' ≡ meta = some-injective _ _ e in
      (
        v,
        ap (λ x. record_at key_size value_size header_size x.offset log) (sym same) ∙ h.0,
        ap (λ x. x.record_size) (sym same) ∙ h.1,
        l,
        h.2,
      )

  pub missing :
      (log : List (LogRecord K V)) (q : K) (e : Option EntryMeta) (v : Option V)
      → Leads key_size value_size log q e v
      → e ≡ none
      → none ≡ v
  missing log q none none h e = refl
  missing log q none (some v) h e = absurd h
  missing log q (some meta) v h e = absurd (ground (arith, e))

  -- every entry of the index is found in the log
  pub InSync-Found :
      (d : KeyDir K V) → InSync d → Found key_size value_size d.log (contents d.log) d.index
  InSync-Found d s =
      let t = InSync-Tracks d s in
      index-Found key_size value_size d.log (contents d.log) d.index t.index_sorted (λ q meta e.
        found_one d.log (contents d.log) q (lookup q d.index) (lookup q (contents d.log)) meta
          (t.leads q) refl e)

  -- A compaction keeps what the log holds, and leaves no dead bytes in a log that is in step with its
  -- index.
  pub compact-contents :
      (d : KeyDir K V)
      → InSync d
      → InSync (compact key_size value_size d)
        × ((compact key_size value_size d).stats.dead_bytes ≡ 0)
        × ((q : K)
            → lookup q (contents (compact key_size value_size d).log) ≡ lookup q (contents d.log))
  unfolding compact rebuild_index contents lookup
  compact-contents d s =
      let t = InSync-Tracks d s in
      let (out, moves, replays, ends, all_fit) =
        slide-Slid key_size value_size d.log (contents d.log) (sort_by_offset d.index) header_size
          d.index [] [] 0 []
          (sort_by_offset-Found key_size value_size d.log (contents d.log) d.index
            (InSync-Found d s))
          (sort_by_offset-Distinct d.index (keys-Distinct d.index t.index_sorted)) t.index_sorted tt
          (λ q h. lookup-keys q d.index (sym (has-sort_by_offset q d.index) ∙ h)) (λ q h. refl)
          (λ q h.
            missing d.log q (lookup q d.index) (lookup q (contents d.log)) (t.leads q)
              (lookup-keys q d.index (sym (has-sort_by_offset q d.index) ∙ h))) in
      (
        (
          ap (rebuild_index key_size value_size) moves ∙ replays,
          subst (AllFit key_size value_size) (sym moves) all_fit,
        ),
        refl,
        λ q. ap (λ x. lookup q (contents x)) moves ∙ ends q,
      )
