-- ===== src/Storage/KeyDir/Compaction.antt =====
-- The sweep of `compact` in zendb-storage/src/backend/keydir.rs keeps what the log holds, and leaves the
-- index that a rebuild of the new log would build.
use zendb.Prelude.{
  ℕ, ◌+◌, true, false, none, some, List, [], ◌∷◌, ◌++◌, Ord, eqb, eqb_iff, ◌≡◌, refl, ap, arith,
  append_assoc, append-nil, ◌∙◌, sym, Bool-cases, inl, inr, cmp_refl,
}
use zendb.Map.{Map, lookup, insert, IsSorted, lookup-insert, insert-IsSorted, lookup-ext, keys}
use zendb.Crdt.Sequence.Visited.{has, Distinct}
use zendb.Storage.KeyDir.{
  LogRecord, live_record, EntryMeta, size_of, record_at, replay_record, replay, header_size,
  old_size, slide, found_record,
}
use zendb.Storage.KeyDir.Rebuild.{apply_records, Fits, AllFit, scanned_size-Fits}

module _ {K : Type 0} ⦃k : Ord K⦄ where
  has_self : (key : K) (ks : List K) → has key (key ∷ ks) ≡ true
  unfolding has
  has_self key ks = ground (arith, cmp_refl key)

  agree-insert :
      (key q : K) (place : EntryMeta) (a b : Map K EntryMeta)
      → (eqb q key ≡ false → lookup q a ≡ lookup q b)
      → lookup q (insert key place a) ≡ lookup q (insert key place b)
  agree-insert key q place a b h =
      ground (arith, lookup-insert key q place a, lookup-insert key q place b, h)

  fresh-insert :
      (key q : K) (place : EntryMeta) (below : Map K EntryMeta) (ks : List K)
      → has key ks ≡ false
      → has q ks ≡ true
      → lookup q below ≡ none
      → lookup q (insert key place below) ≡ none
  fresh-insert key q place below ks n h e = elim (Bool-cases (eqb q key)) [
    | inl same ↦ absurd (ground (arith, n, h, ap (λ x. has x ks) ((eqb_iff q key).0 same)))
    | inr other ↦ ground (arith, lookup-insert key q place below, other, e)
  ]

  holds-insert :
      {V : Type 0} (key q : K) (v : V) (held m : Map K V)
      → (eqb q key ≡ false → lookup q held ≡ lookup q m)
      → lookup key m ≡ some v
      → lookup q (insert key v held) ≡ lookup q m
  holds-insert key q v held m h e = elim (Bool-cases (eqb q key)) [
    | inl same ↦
        let qk : q ≡ key = (eqb_iff q key).0 same in
        lookup-insert key q v held ∙ rw (same, qk) (sym e)
    | inr other ↦ ground (arith, lookup-insert key q v held, other, h other)
  ]

module _ {K V : Type 0} ⦃k : Ord K⦄ (key_size : K → ℕ) (value_size : V → ℕ)
    (log : List (LogRecord K V)) (m : Map K V) where
  -- The meta leads to the record with the key's value.
  abbrev pub FoundOne : K → EntryMeta → Type 0
  FoundOne key meta =
      (v : V) × (record_at key_size value_size header_size meta.offset log
        ≡ some (live_record v key))
      × (meta.record_size ≡ size_of key_size value_size (live_record v key))
      × (lookup key m ≡ some v)
      × Fits key_size value_size (live_record v key)

  abbrev pub Found : List (K × EntryMeta) → Type 0
  Found [] = Unit
  Found ((key, meta) ∷ ms) = FoundOne key meta × Found ms

  -- What the rest of the sweep achieves: the records that it moves replay to its index and hold `m`.
  abbrev pub Slid :
      List (K × EntryMeta)
      → ℕ
      → Map K EntryMeta
      → List (LogRecord K V)
      → Map K EntryMeta
      → ℕ
      → Map K V
      → Type 0
  Slid ms cursor index moved below dead held =
      let result = slide key_size value_size log ms cursor index moved in
      (out : List (LogRecord K V)) × (result.2 ≡ moved ++ out)
      × (replay key_size value_size (record { cursor = cursor; index = below; dead = dead }) out
          ≡ record { cursor = result.0; index = result.1; dead = dead })
      × ((q : K) → lookup q (apply_records held out) ≡ lookup q m)
      × AllFit key_size value_size out

  moved-found :
      (moved out : List (LogRecord K V)) (meta : EntryMeta) (v : V) (key : K)
      → record_at key_size value_size header_size meta.offset log ≡ some (live_record v key)
      → (moved ++ found_record (record_at key_size value_size header_size meta.offset log)) ++ out
        ≡ moved ++ (live_record v key ∷ out)
  unfolding found_record
  moved-found moved out meta v key e = rw e (append_assoc moved (live_record v key ∷ []) out)

  -- the replay of the record puts the key where the sweep does
  step-place :
      (cursor : ℕ) (below : Map K EntryMeta) (dead : ℕ) (key : K) (v : V) (meta : EntryMeta)
      → meta.record_size ≡ size_of key_size value_size (live_record v key)
      → Fits key_size value_size (live_record v key)
      → lookup key below ≡ none
      → replay_record key_size value_size
          (record { cursor = cursor; index = below; dead = dead })
          (live_record v key)
        ≡ record {
          cursor = cursor + meta.record_size;
          index = insert key (record { offset = cursor; record_size = meta.record_size }) below;
          dead = dead;
        }
  unfolding replay_record old_size
  step-place cursor below dead key v meta size fits e =
      let scanned = scanned_size-Fits key_size value_size (live_record v key) fits in
      rw (size, e, scanned.0, scanned.1) (ground arith)

  pub slide-Slid :
      (ms : List (K × EntryMeta)) (cursor : ℕ) (index : Map K EntryMeta)
      (moved : List (LogRecord K V)) (below : Map K EntryMeta) (dead : ℕ) (held : Map K V)
      → Found ms
      → Distinct (keys ms)
      → IsSorted index
      → IsSorted below
      → ((q : K) → has q (keys ms) ≡ false → lookup q index ≡ lookup q below)
      → ((q : K) → has q (keys ms) ≡ true → lookup q below ≡ none)
      → ((q : K) → has q (keys ms) ≡ false → lookup q held ≡ lookup q m)
      → Slid ms cursor index moved below dead held
  unfolding slide replay apply_records has
  slide-Slid [] cursor index moved below dead held f d s t agree fresh holds = (
    [],
    sym (append-nil moved),
    λ i. record {
      cursor = cursor;
      index = lookup-ext below index t s (λ q. sym (agree q refl)) i;
      dead = dead;
    },
    λ q. holds q refl,
    tt,
  )
  slide-Slid ((key, meta) ∷ ms) cursor index moved below dead held f d s t agree fresh holds =
      let (v, e, size, there, fits) = f.0 in
      let place : EntryMeta = record { offset = cursor; record_size = meta.record_size } in
      let (out, moves, replays, ends, all_fit) =
        slide-Slid ms (cursor + meta.record_size) (insert key place index)
          (moved ++ found_record (record_at key_size value_size header_size meta.offset log))
          (insert key place below) dead (insert key v held) f.1 d.1
          (insert-IsSorted key place index s) (insert-IsSorted key place below t)
          (λ q h. agree-insert key q place index below (λ n. agree q (ground (arith, h, n))))
          (λ q h. fresh-insert key q place below (keys ms) d.0 h (fresh q (ground (arith, h))))
          (λ q h. holds-insert key q v held m (λ n. holds q (ground (arith, h, n))) there) in
      (
        live_record v key ∷ out,
        moves ∙ moved-found moved out meta v key e,
        ap (λ x. replay key_size value_size x out)
              (step-place cursor below dead key v meta size fits
                (fresh key (has_self key (keys ms))))
            ∙ replays,
        ends,
        (fits, all_fit),
      )
