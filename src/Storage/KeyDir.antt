-- ===== src/Storage/KeyDir.antt =====
-- zendb-storage/src/backend/keydir.rs: an append-only log of records with an index of the live ones. The
-- mapped file is the sequence of its records up to the write tail; the encoder of keys and values,
-- which is third-party, enters by the sizes of what it writes. The lengths in a record and the size in an
-- entry of the index are u32, cut off as the casts do. A file is the sequence of the records written to
-- it as long as no length is cut off, and none is one of the two marks 2^32 - 1 and 2^32 - 2; both hold for
-- records shorter than 2^32 bytes. The test of the dead bytes against the configured ratio, on floats,
-- is a parameter.
pub mod Rebuild
pub mod Refinement
pub mod Compaction
pub mod Snapshot
pub mod InPlace
pub mod Operations
pub mod Implementation
pub mod History
use zendb.Prelude.{
  ℕ, ◌+◌, ◌%◌, ◌^◌, ◌==◌, Bool, true, false, Option, none, some, List, [], ◌∷◌, ◌++◌, if◌then◌else◌,
  Ord, leb, length, Result, ok, err,
}
use zendb.Map.{Map, lookup, insert, remove, contains_key}

-- A live entry, or the mark of a deleted key.
pub data LogRecord (K V : Type 0) : Type 0 where
  live_record : V → K → LogRecord K V
  tombstone : K → LogRecord K V

pub record EntryMeta : Type 0 where
  pub offset : ℕ
  pub record_size : ℕ

pub record KeyDirStats : Type 0 where
  pub data_size : ℕ
  pub dead_bytes : ℕ

pub record KeyDir (K V : Type 0) : Type 0 where
  pub index : Map K EntryMeta
  pub log : List (LogRecord K V)
  pub stats : KeyDirStats

pub data KeyDirError : Type 0 where
  not_a_key_dir : KeyDirError

abbrev pub header_size : ℕ
header_size = 4

abbrev pub magic : ℕ
magic = 0x4452494B

-- `as u32`, and the sum of u32 in a build that wraps.
abbrev pub as_u32 : ℕ → ℕ
as_u32 n = n % 2 ^ 32

module _ {K V : Type 0} (key_size : K → ℕ) (value_size : V → ℕ) where
  -- The bytes of a record: two lengths, the value and the key.
  unfoldable pub size_of : LogRecord K V → ℕ
  size_of (live_record v k) = 8 + value_size v + key_size k
  size_of (tombstone k) = 8 + key_size k

  -- The size that a scan takes from the two lengths in the record, which are u32.
  unfoldable pub scanned_size : LogRecord K V → ℕ
  scanned_size (live_record v k) = 8 + as_u32 (value_size v) + as_u32 (key_size k)
  scanned_size (tombstone k) = 8 + as_u32 (key_size k)

  -- The record at an offset, in a log that begins at `cursor`.
  unfoldable pub record_at : ℕ → ℕ → List (LogRecord K V) → Option (LogRecord K V)
  unfolding size_of
  record_at cursor offset [] = none
  record_at cursor offset (r ∷ rs) =
      if cursor == offset then some r else record_at (cursor + size_of r) offset rs

module _ {K V : Type 0} where
  unfoldable pub value_in : Option (LogRecord K V) → Option V
  value_in none = none
  value_in (some (live_record v k)) = some v
  value_in (some (tombstone k)) = none

-- What the replay of a log builds.
pub record Replay (K : Type 0) : Type 0 where
  pub cursor : ℕ
  pub index : Map K EntryMeta
  pub dead : ℕ

-- The bytes of the record that an entry replaces or removes.
unfoldable pub old_size : Option EntryMeta → ℕ
old_size none = 0
old_size (some meta) = meta.record_size

module _ {K V : Type 0} ⦃k : Ord K⦄ (key_size : K → ℕ) (value_size : V → ℕ) where
  -- One round of `rebuild_index`.
  unfoldable pub replay_record : Replay K → LogRecord K V → Replay K
  unfolding scanned_size old_size
  replay_record st (live_record v key) =
      let size = scanned_size key_size value_size (live_record v key) in
      record {
        cursor = st.cursor + size;
        index = insert key (record { offset = st.cursor; record_size = as_u32 size }) st.index;
        dead = st.dead + old_size (lookup key st.index);
      }
  replay_record st (tombstone key) =
      let size = scanned_size key_size value_size (tombstone key) in
      record {
        cursor = st.cursor + size;
        index = remove key st.index;
        dead = st.dead + old_size (lookup key st.index) + size;
      }

  unfoldable pub replay : Replay K → List (LogRecord K V) → Replay K
  unfolding replay_record
  replay st [] = st
  replay st (r ∷ rs) = replay (replay_record st r) rs

  -- The index, the tail and the dead bytes of a log.
  unfoldable pub rebuild_index : List (LogRecord K V) → Replay K
  unfolding replay
  rebuild_index log = replay (record { cursor = header_size; index = []; dead = 0 }) log

  unfoldable pub open_log : ℕ → List (LogRecord K V) → Result KeyDirError (KeyDir K V)
  unfolding rebuild_index
  open_log file_magic log =
      let st = rebuild_index log in
      if file_magic == magic
      then ok (record {
        index = st.index;
        log = log;
        stats = record { data_size = st.cursor; dead_bytes = st.dead };
      })
      else err not_a_key_dir

  unfoldable pub get : KeyDir K V → K → Option V
  unfolding record_at value_in
  get d key = elim (lookup key d.index) [
    | none ↦ none
    | some meta ↦ value_in (record_at key_size value_size header_size meta.offset d.log)
  ]

  -- Append a record for the key, whose meta is at the tail.
  unfoldable pub write_entry : KeyDir K V → K → V → KeyDir K V × EntryMeta
  unfolding size_of
  write_entry d key value =
      let size = size_of key_size value_size (live_record value key) in
      (
        record d {
          log = d.log ++ (live_record value key ∷ []);
          stats = record d.stats { data_size = d.stats.data_size + size };
        },
        record { offset = d.stats.data_size; record_size = as_u32 size },
      )

  -- Append a record, and enter it in the index.
  unfoldable pub put_entry : KeyDir K V → K → V → KeyDir K V
  unfolding write_entry old_size
  put_entry d key value =
      let (d', meta) = write_entry d key value in
      record d' {
        index = insert key meta d.index;
        stats = record d'.stats { dead_bytes = d.stats.dead_bytes + old_size (lookup key d.index) };
      }

  -- Take an entry off the index, and append its tombstone, with the bytes of the key from the old record.
  unfoldable pub delete_entry : KeyDir K V → K → KeyDir K V
  unfolding old_size
  delete_entry d key =
      let size : ℕ = 8 + key_size key in
      record {
        index = remove key d.index;
        log = d.log ++ (tombstone key ∷ []);
        stats = record {
          data_size = d.stats.data_size + size;
          dead_bytes = d.stats.dead_bytes + old_size (lookup key d.index) + size;
        };
      }

module _ {K : Type 0} where
  -- `sort_unstable_by_key(|m| m.offset)`, as the insertion sort.
  unfoldable pub insert_by_offset : K × EntryMeta → List (K × EntryMeta) → List (K × EntryMeta)
  insert_by_offset e [] = e ∷ []
  insert_by_offset e (f ∷ l) =
      if leb e.1.offset f.1.offset then e ∷ f ∷ l else f ∷ insert_by_offset e l

  unfoldable pub sort_by_offset : List (K × EntryMeta) → List (K × EntryMeta)
  unfolding insert_by_offset
  sort_by_offset [] = []
  sort_by_offset (e ∷ l) = insert_by_offset e (sort_by_offset l)

module _ {K V : Type 0} where
  unfoldable pub found_record : Option (LogRecord K V) → List (LogRecord K V)
  found_record none = []
  found_record (some r) = r ∷ []

module _ {K V : Type 0} ⦃k : Ord K⦄ (key_size : K → ℕ) (value_size : V → ℕ) where
  -- The sweep: the records of the snapshot move to the cursor one after the other. They are in the order
  -- of their offsets, so a copy overwrites nothing that a later one reads.
  unfoldable pub slide :
      List (LogRecord K V)
      → List (K × EntryMeta)
      → ℕ
      → Map K EntryMeta
      → List (LogRecord K V)
      → ℕ × Map K EntryMeta × List (LogRecord K V)
  unfolding record_at found_record
  slide log [] cursor index moved = (cursor, index, moved)
  slide log ((key, meta) ∷ snapshot) cursor index moved =
      slide log snapshot (cursor + meta.record_size)
        (insert key (record meta { offset = cursor }) index)
        (moved ++ found_record (record_at key_size value_size header_size meta.offset log))

  unfoldable pub compact : KeyDir K V → KeyDir K V
  unfolding slide sort_by_offset
  compact d =
      let (cursor, index, moved) = slide d.log (sort_by_offset d.index) header_size d.index [] in
      record { index = index; log = moved; stats = record { data_size = cursor; dead_bytes = 0 } }

  module _ (over_ratio : ℕ → ℕ → Bool) where
    unfoldable pub maybe_compact : KeyDir K V → KeyDir K V
    unfolding compact
    maybe_compact d = if over_ratio d.stats.dead_bytes d.stats.data_size then compact d else d

    unfoldable pub put : KeyDir K V → K → V → KeyDir K V
    unfolding put_entry maybe_compact
    put d key value = maybe_compact (put_entry key_size value_size d key value)

    unfoldable pub delete : KeyDir K V → K → KeyDir K V × Bool
    unfolding delete_entry maybe_compact
    delete d key = elim (lookup key d.index) [
      | none ↦ (d, false)
      | some old ↦ (maybe_compact (delete_entry key_size value_size d key), true)
    ]

    unfoldable pub put_if_absent : KeyDir K V → K → V → KeyDir K V × Bool
    unfolding put
    put_if_absent d key value = elim (lookup key d.index) [
      | some old ↦ (d, false)
      | none ↦ (put d key value, true)
    ]

    -- The previous value, if any.
    unfoldable pub replace : KeyDir K V → K → V → KeyDir K V × Option V
    unfolding put get
    replace d key value = (put d key value, get key_size value_size d key)

    -- What the closure makes of the current value: a new one, or a deletion.
    unfoldable pub store_update : KeyDir K V → K → Option V → KeyDir K V
    unfolding put delete
    store_update d key none = (delete d key).0
    store_update d key (some value) = put d key value

    unfoldable pub update : KeyDir K V → K → (Option V → Option V) → KeyDir K V
    unfolding store_update get
    update d key f = store_update d key (f (get key_size value_size d key))

module _ {K V : Type 0} where
  unfoldable pub create : KeyDir K V
  create = record {
    index = [];
    log = [];
    stats = record { data_size = header_size; dead_bytes = 0 };
  }

  unfoldable pub clear : KeyDir K V → KeyDir K V
  clear d = record {
    index = [];
    log = [];
    stats = record { data_size = header_size; dead_bytes = 0 };
  }

  unfoldable pub size : KeyDir K V → ℕ
  size d = length d.index

module _ {K V : Type 0} ⦃k : Ord K⦄ where
  unfoldable pub contains : KeyDir K V → K → Bool
  contains d key = contains_key key d.index
