-- ===== src/Storage/KeyDir/Operations.antt =====
-- The operations of the key directory of zendb-storage/src/backend/keydir.rs as those of a map, with the
-- compaction that each may end in.
use zendb.Prelude.{
  ℕ, List, arith, Bool, Option, none, some, if◌then◌else◌, Ord, eqb, eqb_iff, ◌≡◌, refl, ap, ◌∙◌,
  sym, Bool-cases, inl, inr, ok,
}
use zendb.Map.{lookup, lookup-insert, lookup-remove}
use zendb.Storage.KeyDir.{
  KeyDir, EntryMeta, get, put, delete, update, store_update, open_log, magic, rebuild_index,
  maybe_compact, compact, put_entry, delete_entry, create, LogRecord, live_record, tombstone,
  size_of,
}
use zendb.Storage.KeyDir.Rebuild.{contents, Leads, Fits}
use zendb.Storage.KeyDir.Refinement.{
  InSync, get-contents, put_entry-InSync, put_entry-contents, delete_entry-InSync,
  delete_entry-contents, compact-contents, InSync-Tracks, missing,
}

module _ {K V : Type 0} ⦃k : Ord K⦄ (key_size : K → ℕ) (value_size : V → ℕ) where
  -- reopening the log of a directory in step with it
  pub open_log-InSync :
      (d : KeyDir K V)
      → InSync key_size value_size d
      → open_log key_size value_size magic d.log ≡ ok d
  unfolding open_log
  open_log-InSync d s =
      ap
        (λ st. ok (record {
          index = st.index;
          log = d.log;
          stats = record { data_size = st.cursor; dead_bytes = st.dead };
        }))
        s.0

  -- a new directory is in step with its log
  pub create-InSync : InSync key_size value_size (create {K = K} {V = V})
  unfolding create rebuild_index
  create-InSync = (refl, tt)

  module _ (over_ratio : ℕ → ℕ → Bool) where
    maybe_compact-get :
        (d : KeyDir K V)
        → InSync key_size value_size d
        → InSync key_size value_size (maybe_compact key_size value_size over_ratio d)
          × ((q : K)
              → get key_size value_size (maybe_compact key_size value_size over_ratio d) q
                ≡ lookup q (contents d.log))
    unfolding maybe_compact
    maybe_compact-get d s = elim (Bool-cases (over_ratio d.stats.dead_bytes d.stats.data_size)) [
      | inl e ↦
          let both = compact-contents key_size value_size d s in
          rw e (
            both.0,
            λ q.
                get-contents key_size value_size (compact key_size value_size d) q both.0
                ∙ both.2 q,
          )
      | inr e ↦ rw e (s, λ q. get-contents key_size value_size d q s)
    ]

    -- A put of a record shorter than 2^32 bytes into a directory in step with its log, whose records
    -- are too, keeps them in step, compaction or not, and changes the value of its key alone.
    pub keydir_put-get :
        (d : KeyDir K V) (key : K) (v : V)
        → Fits key_size value_size (live_record v key)
        → InSync key_size value_size d
        → InSync key_size value_size (put key_size value_size over_ratio d key v)
          × ((q : K)
              → get key_size value_size (put key_size value_size over_ratio d key v) q
                ≡ (if eqb q key then some v else get key_size value_size d q))
    unfolding put
    keydir_put-get d key v f s =
        let s' = put_entry-InSync key_size value_size d key v f s in
        let both = maybe_compact-get (put_entry key_size value_size d key v) s' in
        (
          both.0,
          λ q.
              both.1 q
              ∙ ap (lookup q) (put_entry-contents key_size value_size d key v)
              ∙ lookup-insert key q v (contents d.log)
              ∙ ap (λ x. if eqb q key then some v else x)
                  (sym (get-contents key_size value_size d q s)),
        )

    -- the tombstone of a key is no longer than the record that it ends
    tombstone-Fits :
        (log : List (LogRecord K V)) (key : K) (meta : EntryMeta) (e : Option EntryMeta)
        (v : Option V)
        → e ≡ some meta
        → Leads key_size value_size log key e v
        → Fits key_size value_size (tombstone key)
    unfolding size_of
    tombstone-Fits log key meta none v e h = ground (arith, e)
    tombstone-Fits log key meta (some other) none e h = absurd h
    tombstone-Fits log key meta (some other) (some v) e h = omega (arith, h.2)

    delete_found :
        (d : KeyDir K V) (key : K) (e : Option EntryMeta)
        → InSync key_size value_size d
        → lookup key d.index ≡ e
        → InSync key_size value_size (delete key_size value_size over_ratio d key).0
          × ((q : K)
              → get key_size value_size (delete key_size value_size over_ratio d key).0 q
                ≡ (if eqb q key then none else get key_size value_size d q))
    unfolding delete
    delete_found d key none s e = rw (e, delete) (s, λ q. absent q)
      where
        absent :
            (q : K)
            → get key_size value_size d q
              ≡ (if eqb q key then none else get key_size value_size d q)
        absent q = elim (Bool-cases (eqb q key)) [
          | inl h ↦
              let qk : q ≡ key = (eqb_iff q key).0 h in
              rw (h, qk)
                (get-contents key_size value_size d key s
                  ∙ sym (
                      missing key_size value_size d.log key (lookup key d.index)
                        (lookup key (contents d.log))
                        ((InSync-Tracks key_size value_size d s).leads key) e))
          | inr h ↦ rw h refl
        ]
    delete_found d key (some meta) s e =
        let fits =
          tombstone-Fits d.log key meta (lookup key d.index) (lookup key (contents d.log)) e
            ((InSync-Tracks key_size value_size d s).leads key) in
        let s' = delete_entry-InSync key_size value_size d key fits s in
        let both = maybe_compact-get (delete_entry key_size value_size d key) s' in
        let sorted = (InSync-Tracks key_size value_size d s).map_sorted in
        rw (e, delete)
          (
            both.0,
            λ q.
                both.1 q
                ∙ ap (lookup q) (delete_entry-contents key_size value_size d key)
                ∙ lookup-remove key q (contents d.log) sorted
                ∙ ap (λ x. if eqb q key then none else x)
                    (sym (get-contents key_size value_size d q s)),
          )

    -- A delete in a directory in step with its log, whose records are shorter than 2^32 bytes, keeps them in
    -- step and removes its key alone.
    pub keydir_delete-get :
        (d : KeyDir K V) (key : K)
        → InSync key_size value_size d
        → InSync key_size value_size (delete key_size value_size over_ratio d key).0
          × ((q : K)
              → get key_size value_size (delete key_size value_size over_ratio d key).0 q
                ≡ (if eqb q key then none else get key_size value_size d q))
    keydir_delete-get d key s = delete_found d key (lookup key d.index) s refl

    -- What an update stores is shorter than 2^32 bytes.
    abbrev pub FitsUnder : K → Option V → Type 0
    FitsUnder key none = Unit
    FitsUnder key (some v) = Fits key_size value_size (live_record v key)

    update_by :
        (d : KeyDir K V) (key : K) (v : Option V)
        → FitsUnder key v
        → InSync key_size value_size d
        → InSync key_size value_size (store_update key_size value_size over_ratio d key v)
          × ((q : K)
              → get key_size value_size (store_update key_size value_size over_ratio d key v) q
                ≡ (if eqb q key then v else get key_size value_size d q))
    unfolding store_update
    update_by d key none f s = keydir_delete-get d key s
    update_by d key (some v) f s = keydir_put-get d key v f s

    -- An update gives the closure the value of the key, stores what it returns, or deletes the key, and
    -- changes no other key; the directory stays in step with its log. What is stored is shorter than 2^32
    -- bytes.
    pub keydir_update-get :
        (d : KeyDir K V) (key : K) (f : Option V → Option V)
        → FitsUnder key (f (get key_size value_size d key))
        → InSync key_size value_size d
        → InSync key_size value_size (update key_size value_size over_ratio d key f)
          × ((q : K)
              → get key_size value_size (update key_size value_size over_ratio d key f) q ≡ (
                  if eqb q key
                  then f (get key_size value_size d key)
                  else get key_size value_size d q))
    unfolding update
    keydir_update-get d key f fits s = update_by d key (f (get key_size value_size d key)) fits s
