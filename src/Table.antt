-- ===== src/Table.antt =====
-- The table (zendb-storage/src/table/table.rs, iter.rs and change.rs): rows in a materialized state, a
-- bounded cache of rows over it, and a topic of the changes. The state and the cache are the maps that
-- the storage backends promise; the cells, their operation `apply_walk` and the encoder of a change are
-- parameters.
pub mod Iteration
pub mod Rows
pub mod Size
pub mod Validity
pub mod Flush
use Prim.Native.Nat.Ordering.{lt, eq, gt}
use zendb.Prelude.{
  ℕ, zero, suc, ◌+◌, Bool, true, false, ◌&&◌, ◌||◌, not, Option, none, some, List, [], ◌∷◌, ◌++◌,
  if◌then◌else◌, leb, ltb, ◌==◌, length, Ord, Ordering, reverse, Result, ok, err,
}
use zendb.Map.{Map, lookup, contains_key, insert}
use zendb.Crdt.Stamp.{MergeStamps}
use zendb.Topic.State.{Topic, append}
use zendb.Topic.State.Reader.{TopicConsumer, seek, commit}

pub data IterationOrder : Type 0 where
  ascending descending : IterationOrder

abbrev pub in_order : IterationOrder → Ordering → Ordering
in_order ascending o = o
in_order descending o = reverse o

module _ {K C : Type 0} ⦃k : Ord K⦄ where
  -- Which of two first rows comes next: the state's, or the cache's, which goes past an equal key of
  -- the state.
  abbrev pub choose :
      Ordering → K × C → Map K C → K × C → Map K C → Option (K × C) × Map K C × Map K C
  choose lt s state c cache = (some s, state, c ∷ cache)
  choose gt s state c cache = (some c, s ∷ state, cache)
  choose eq s state c cache = (some c, state, cache)

  -- `MergedEntries::next`: the row, and what is left of the two iterators.
  unfoldable pub merged_next :
      IterationOrder → Map K C → Map K C → Option (K × C) × Map K C × Map K C
  merged_next order [] [] = (none, [], [])
  merged_next order (s ∷ state) [] = (some s, state, [])
  merged_next order [] (c ∷ cache) = (some c, [], cache)
  merged_next order (s ∷ state) (c ∷ cache) =
      choose (in_order order (k.cmp s.0 c.0)) s state c cache

  -- The rows that the iterator gives until its first `none`. A row takes at least one of the entries, so
  -- their number is fuel enough.
  unfoldable pub collect : ℕ → IterationOrder → Map K C → Map K C → Map K C
  unfolding merged_next
  collect zero order state cache = []
  collect (suc fuel) order state cache =
      let (row, s, c) = merged_next order state cache in
      let rest = collect fuel order s c in elim row [ none ↦ [] | some r ↦ r ∷ rest ]

  unfoldable pub merged : IterationOrder → Map K C → Map K C → Map K C
  unfolding collect
  merged order state cache = collect (length state + length cache) order state cache

  -- The rows of the state whose keys the cache does not have.
  unfoldable pub filter_absent : Map K C → Map K C → Map K C
  filter_absent cache [] = []
  filter_absent cache (s ∷ state) =
      let rest = filter_absent cache state in if contains_key s.0 cache then rest else s ∷ rest

  -- `put` for each row of the cache.
  unfoldable pub put_all : Map K C → Map K C → Map K C
  put_all [] state = state
  put_all ((q, v) ∷ cache) state = put_all cache (insert q v state)

pub record Event (K P O S : Type 0) : Type 0 where
  pub primary_key : K
  pub path : P
  pub op : O
  pub stamp : S

pub record Change (K P O S C : Type 0) : Type 0 where
  pub event : Event K P O S
  pub previous : Option C
  pub current : Option C

pub data InsertOutcome (K P O S C : Type 0) : Type 0 where
  ignored : InsertOutcome K P O S C
  applied : Change K P O S C → InsertOutcome K P O S C

-- `rejected` carries the error of the cell; `capacity` is the error of a full cache.
pub data TableError (X : Type 0) : Type 0 where
  rejected : X → TableError X
  capacity : TableError X

-- The variants of `State`.
pub data StateKind : Type 0 where
  in_memory ordered unordered : StateKind

pub record Table (N K C : Type 0) : Type 0 where
  pub kind : StateKind
  pub state : Map K C
  pub max_entries : ℕ
  pub cache : Map K C
  pub novel_pending : ℕ
  pub topic : Topic N
  pub recovery : TopicConsumer N

module _ {N K C : Type 0} ⦃k : Ord K⦄ where
  unfoldable pub get : K → Table N K C → Option C
  get key t = elim (lookup key t.cache) [ none ↦ lookup key t.state | some c ↦ some c ]

  unfoldable pub contains : K → Table N K C → Bool
  contains key t = contains_key key t.cache || contains_key key t.state

  unfoldable pub entries : Table N K C → Map K C
  unfolding merged filter_absent
  entries t = elim t.kind [
    | unordered ↦ filter_absent t.cache t.state ++ t.cache
    | _ ↦ merged ascending t.state t.cache
  ]

  abbrev pub size : Table N K C → ℕ
  size t = length t.state + t.novel_pending

  abbrev pub is_empty : Table N K C → Bool
  is_empty t = (length t.state == 0) && (t.novel_pending == 0)

  -- The guard on an empty cache leaves the table as it is, since no row is put then.
  unfoldable pub drain_cache : Table N K C → Table N K C
  unfolding put_all
  drain_cache t = elim t.cache [
    | [] ↦ t
    | c ∷ cache ↦ record t { state = put_all t.cache t.state; cache = []; novel_pending = 0 }
  ]

  unfoldable pub prepare_cache : K → Table N K C → Table N K C
  unfolding drain_cache
  prepare_cache key t =
      if leb t.max_entries (length t.cache) && not (contains_key key t.cache)
      then drain_cache t
      else t

  -- `put` on the bounded cache, which takes a new key only below its capacity.
  unfoldable pub put_cache : K → C → Table N K C → Option (Table N K C)
  put_cache key cell t =
      if contains_key key t.cache || ltb (length t.cache) t.max_entries
      then some (record t { cache = insert key cell t.cache })
      else none

module _ {N K P O S C X : Type 0} ⦃n : Ord N⦄ ⦃k : Ord K⦄ (encode : Change K P O S C → List ℕ) where
  -- The part of `insert` behind the early return: the change is logged, then cached.
  unfoldable pub record_change :
      Table N K C
      → Event K P O S
      → Option C
      → C
      → Table N K C × Result (TableError X) (InsertOutcome K P O S C)
  unfolding prepare_cache append put_cache seek
  record_change table event previous current =
      let ready = prepare_cache event.primary_key table in
      let change : Change K P O S C = record {
        event = event;
        previous = previous;
        current = some current;
      } in
      let (topic, offset) = append ready.topic (encode change) in
      let logged = record ready { topic = topic } in
      elim (put_cache event.primary_key current logged) [
        | none ↦ (logged, err capacity)
        | some cached ↦
            let (moved, recovery) = seek cached.topic cached.recovery (offset + 1) in
            let pending : ℕ = elim previous [
              | none ↦ cached.novel_pending + 1
              | some _ ↦ cached.novel_pending
            ] in
            (
              record cached { novel_pending = pending; topic = moved; recovery = recovery },
              ok (applied change),
            )
      ]

module _ {N K P O S C X : Type 0} ⦃n : Ord N⦄ ⦃k : Ord K⦄ (zero_stamp : S) (stamp_of : C → S)
    (dummy : C) (apply_walk : C → O → MergeStamps S → P → C × Result X Bool)
    (encode : Change K P O S C → List ℕ) where
  -- `Table::insert`.
  unfoldable pub insert_event :
      Table N K C → Event K P O S → Table N K C × Result (TableError X) (InsertOutcome K P O S C)
  unfolding get record_change
  insert_event table event =
      let previous = get event.primary_key table in
      let current : C = elim previous [ none ↦ dummy | some c ↦ c ] in
      let current_stamp : S = elim previous [ none ↦ zero_stamp | some c ↦ stamp_of c ] in
      let (walked, result) =
        apply_walk current event.op (record { current = current_stamp; incoming = event.stamp })
          event.path in
      let done = record_change encode table event previous walked in
      elim result [
        | err e ↦ (table, err (rejected e))
        | ok false ↦ (table, ok ignored)
        | ok true ↦ done
      ]

module _ {N K C : Type 0} ⦃n : Ord N⦄ where
  unfoldable pub commit_recovery : Table N K C → Table N K C
  unfolding commit
  commit_recovery t = elim t.kind [
    | in_memory ↦ t
    | _ ↦ record t { topic = commit t.topic t.recovery }
  ]

module _ {N K C : Type 0} ⦃n : Ord N⦄ ⦃k : Ord K⦄ where
  -- The files are not modelled, so that `flush` and `sync` are the same here.
  unfoldable pub flush : Table N K C → Table N K C
  unfolding drain_cache commit_recovery
  flush t = commit_recovery (drain_cache t)

module _ {K C : Type 0} ⦃k : Ord K⦄ where
  -- The lesser of the two first rows; the cache's where the keys are equal.
  unfoldable pub first : Map K C → Map K C → Option (K × C)
  first [] [] = none
  first (s ∷ state) [] = some s
  first [] (c ∷ cache) = some c
  first (s ∷ state) (c ∷ cache) = elim (k.cmp s.0 c.0) [ lt ↦ some s | _ ↦ some c ]
