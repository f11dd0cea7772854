-- ===== src/Storage/KeyDir/InPlace.antt =====
-- The sweep of `compact` in zendb-storage/src/backend/keydir.rs works in place: it never writes over a
-- record that it has still to read.
use zendb.Prelude.{
  ℕ, ◌+◌, ◌≤◌, ◌<◌, false, Option, none, some, List, [], ◌∷◌, Ord, ◌≡◌, ap, arith, Bool-cases, inl,
  inr, leb, ◌∙◌, sym,
}
use mathlib.Core.Option.{some-injective}
use zendb.Map.{Map, keys}
use zendb.Crdt.Sequence.Visited.{has, Distinct, keys-Distinct}
use zendb.Storage.KeyDir.{
  LogRecord, live_record, tombstone, EntryMeta, KeyDir, size_of, record_at, header_size,
  insert_by_offset, sort_by_offset,
}
use zendb.Storage.KeyDir.Rebuild.{contents}
use zendb.Storage.KeyDir.Compaction.{FoundOne, Found}
use zendb.Storage.KeyDir.Snapshot.{sort_by_offset-Distinct, sort_by_offset-Found}
use zendb.Storage.KeyDir.Refinement.{InSync, InSync-Tracks, InSync-Found}

module _ {K V : Type 0} (key_size : K → ℕ) (value_size : V → ℕ) where
  record_at-ge :
      (cursor offset : ℕ) (log : List (LogRecord K V)) (r : LogRecord K V)
      → record_at key_size value_size cursor offset log ≡ some r
      → cursor ≤ offset
  unfolding record_at
  record_at-ge cursor offset [] r h = ground (arith, h)
  record_at-ge cursor offset (x ∷ log) r h =
      ground (arith, record_at-ge (cursor + size_of key_size value_size x) offset log r)

  -- records at different offsets do not overlap
  records_apart :
      (cursor o p : ℕ) (log : List (LogRecord K V)) (r q : LogRecord K V)
      → record_at key_size value_size cursor o log ≡ some r
      → record_at key_size value_size cursor p log ≡ some q
      → o < p
      → o + size_of key_size value_size r ≤ p
  unfolding record_at
  records_apart cursor o p [] r q h g lt = ground (arith, h)
  records_apart cursor o p (x ∷ log) r q h g lt = ground (
    arith,
    records_apart (cursor + size_of key_size value_size x) o p log r q,
    record_at-ge (cursor + size_of key_size value_size x) p log q,
    record_at-ge (cursor + size_of key_size value_size x) o log r,
    ap (λ (y : Option (LogRecord K V)). sized y) h,
  )
    where
      sized : Option (LogRecord K V) → ℕ
      sized none = 0
      sized (some y) = size_of key_size value_size y

module _ {K : Type 0} where
  -- Every offset is at or behind the given one.
  abbrev From : ℕ → List (K × EntryMeta) → Type 0
  From c [] = Unit
  From c ((key, meta) ∷ ms) = (c ≤ meta.offset) × From c ms

  -- The offsets ascend.
  abbrev Ascends : List (K × EntryMeta) → Type 0
  Ascends [] = Unit
  Ascends ((key, meta) ∷ ms) = From meta.offset ms × Ascends ms

  -- Each record moves to a place that is not behind its own, and that ends before the next one.
  abbrev pub IsInPlace : ℕ → List (K × EntryMeta) → Type 0
  IsInPlace cursor [] = Unit
  IsInPlace cursor ((key, meta) ∷ ms) =
      (cursor ≤ meta.offset) × IsInPlace (cursor + meta.record_size) ms

  From-trans : (a b : ℕ) (ms : List (K × EntryMeta)) → a ≤ b → From b ms → From a ms
  From-trans a b [] h f = tt
  From-trans a b ((key, meta) ∷ ms) h f = (omega (arith, h, f.0), From-trans a b ms h f.1)

  insert-From :
      (c : ℕ) (key : K) (meta : EntryMeta) (ms : List (K × EntryMeta))
      → c ≤ meta.offset
      → From c ms
      → From c (insert_by_offset (key, meta) ms)
  unfolding insert_by_offset
  insert-From c key meta [] h f = (h, tt)
  insert-From c key meta ((key', meta') ∷ ms) h f =
      elim (Bool-cases (leb meta.offset meta'.offset)) [
        | inl e ↦ rw (e, insert_by_offset) (h, f)
        | inr e ↦ rw (e, insert_by_offset) (f.0, insert-From c key meta ms h f.1)
      ]

  insert-Ascends :
      (key : K) (meta : EntryMeta) (ms : List (K × EntryMeta))
      → Ascends ms
      → Ascends (insert_by_offset (key, meta) ms)
  unfolding insert_by_offset
  insert-Ascends key meta [] a = (tt, tt)
  insert-Ascends key meta ((key', meta') ∷ ms) a =
      elim (Bool-cases (leb meta.offset meta'.offset)) [
        | inl e ↦
            let le : meta.offset ≤ meta'.offset = ground (arith, e) in
            rw (e, insert_by_offset) ((le, From-trans meta.offset meta'.offset ms le a.0), a)
        | inr e ↦
            let le : meta'.offset ≤ meta.offset = ground (arith, e) in
            rw (e, insert_by_offset)
              (insert-From meta'.offset key meta ms le a.0, insert-Ascends key meta ms a.1)
      ]

  sort-Ascends : (ms : List (K × EntryMeta)) → Ascends (sort_by_offset ms)
  unfolding sort_by_offset
  sort-Ascends [] = tt
  sort-Ascends ((key, meta) ∷ ms) = insert-Ascends key meta (sort_by_offset ms) (sort-Ascends ms)

module _ {K V : Type 0} ⦃k : Ord K⦄ (key_size : K → ℕ) (value_size : V → ℕ)
    (log : List (LogRecord K V)) (m : Map K V) where
  -- two keys do not have the same record
  same_offset :
      (key q : K) (meta other : EntryMeta)
      → FoundOne key_size value_size log m key meta
      → FoundOne key_size value_size log m q other
      → meta.offset ≡ other.offset
      → key ≡ q
  same_offset key q meta other (v, e, f, lv, fv) (w, g, h, lw, fw) same = live-injective (
      some-injective _ _
        (sym e ∙ ap (λ o. record_at key_size value_size header_size o log) same ∙ g))
    where
      key_of : LogRecord K V → K
      key_of (live_record v key) = key
      key_of (tombstone key) = key

      live-injective : live_record v key ≡ live_record w q → key ≡ q
      live-injective p = ap key_of p

  spaced :
      (cursor : ℕ) (key : K) (meta : EntryMeta) (ms : List (K × EntryMeta))
      → FoundOne key_size value_size log m key meta
      → Found key_size value_size log m ms
      → has key (keys ms) ≡ false
      → cursor ≤ meta.offset
      → From meta.offset ms
      → From (cursor + meta.record_size) ms
  unfolding has
  spaced cursor key meta [] f g n le from = tt
  spaced cursor key meta ((q, other) ∷ ms) f g n le from = (
    ground (
      arith,
      records_apart key_size value_size header_size meta.offset other.offset log
          (live_record f.0 key) (live_record g.0.0 q) f.1 g.0.1,
      f.2,
      same_offset key q meta other f g.0,
      from.0,
      le,
      n,
      k.cmp_iff key q,
    ),
    spaced cursor key meta ms f g.1 (ground (arith, n)) le from.1,
  )

  Found-From :
      (ms : List (K × EntryMeta)) → Found key_size value_size log m ms → From header_size ms
  Found-From [] f = tt
  Found-From ((key, meta) ∷ ms) f =
      (record_at-ge key_size value_size header_size meta.offset log _ f.0.1, Found-From ms f.1)

  ascending-IsInPlace :
      (cursor : ℕ) (ms : List (K × EntryMeta))
      → Found key_size value_size log m ms
      → Distinct (keys ms)
      → Ascends ms
      → From cursor ms
      → IsInPlace cursor ms
  ascending-IsInPlace cursor [] f d a from = tt
  ascending-IsInPlace cursor ((key, meta) ∷ ms) f d a from = (
    from.0,
    ascending-IsInPlace (cursor + meta.record_size) ms f.1 d.1 a.1
        (spaced cursor key meta ms f.0 f.1 d.0 from.0 a.0),
  )

module _ {K V : Type 0} ⦃k : Ord K⦄ (key_size : K → ℕ) (value_size : V → ℕ) where
  -- In a directory in step with its log, whose records are shorter than 2^32 bytes, each record of a compaction's sweep is copied to a place that is
  -- not behind its own, and that ends before the next record to be copied.
  pub sweep-IsInPlace :
      (d : KeyDir K V)
      → InSync key_size value_size d
      → IsInPlace header_size (sort_by_offset d.index)
  sweep-IsInPlace d s =
      let found =
        sort_by_offset-Found key_size value_size d.log (contents d.log) d.index
          (InSync-Found key_size value_size d s) in
      ascending-IsInPlace key_size value_size d.log (contents d.log) header_size
        (sort_by_offset d.index) found
        (sort_by_offset-Distinct d.index
          (keys-Distinct d.index (InSync-Tracks key_size value_size d s).index_sorted))
        (sort-Ascends d.index)
        (Found-From key_size value_size d.log (contents d.log) (sort_by_offset d.index) found)
