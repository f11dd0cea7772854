-- ===== src/Storage/KeyDir/Snapshot.antt =====
-- The snapshot that `compact` of zendb-storage/src/backend/keydir.rs takes of its index and sorts by
-- offset: it has the index's entries, each once.
use zendb.Prelude.{
  ℕ, false, ◌||◌, none, some, List, [], ◌∷◌, Ord, eqb, ◌≡◌, refl, arith, Bool-cases, inl, inr, leb,
  ◌∙◌, cmp_refl,
}
use zendb.Map.{Map, lookup, IsSorted, keys, lookup-Above}
use zendb.Crdt.Sequence.Visited.{has, Distinct}
use zendb.Storage.KeyDir.{LogRecord, EntryMeta, insert_by_offset, sort_by_offset}
use zendb.Storage.KeyDir.Compaction.{FoundOne, Found}

module _ {K : Type 0} ⦃k : Ord K⦄ where
  has-insert_by_offset :
      (q : K) (e : K × EntryMeta) (l : List (K × EntryMeta))
      → has q (keys (insert_by_offset e l)) ≡ (eqb q e.0 || has q (keys l))
  unfolding has insert_by_offset
  has-insert_by_offset q (key, meta) [] = refl
  has-insert_by_offset q (key, meta) ((key', meta') ∷ l) =
      ground (arith, has-insert_by_offset q (key, meta) l)

  pub has-sort_by_offset :
      (q : K) (l : List (K × EntryMeta)) → has q (keys (sort_by_offset l)) ≡ has q (keys l)
  unfolding has sort_by_offset
  has-sort_by_offset q [] = refl
  has-sort_by_offset q ((key, meta) ∷ l) =
      ground (arith, has-insert_by_offset q (key, meta) (sort_by_offset l), has-sort_by_offset q l)

  insert_by_offset-Distinct :
      (key : K) (meta : EntryMeta) (l : List (K × EntryMeta))
      → has key (keys l) ≡ false
      → Distinct (keys l)
      → Distinct (keys (insert_by_offset (key, meta) l))
  unfolding has insert_by_offset
  insert_by_offset-Distinct key meta [] h d = (refl, tt)
  insert_by_offset-Distinct key meta ((key', meta') ∷ l) h d = ground (
    arith,
    insert_by_offset-Distinct key meta l,
    has-insert_by_offset key' (key, meta) l,
    k.cmp_iff key' key,
    k.cmp_iff key key',
  )

  pub sort_by_offset-Distinct :
      (l : List (K × EntryMeta)) → Distinct (keys l) → Distinct (keys (sort_by_offset l))
  unfolding sort_by_offset
  sort_by_offset-Distinct [] d = tt
  sort_by_offset-Distinct ((key, meta) ∷ l) d =
      insert_by_offset-Distinct key meta (sort_by_offset l) (has-sort_by_offset key l ∙ d.0)
        (sort_by_offset-Distinct l d.1)

  pub lookup-keys :
      (q : K) (index : Map K EntryMeta) → has q (keys index) ≡ false → lookup q index ≡ none
  unfolding has lookup
  lookup-keys q [] h = refl
  lookup-keys q ((key, meta) ∷ index) h = ground (arith, lookup-keys q index)

module _ {K V : Type 0} ⦃k : Ord K⦄ (key_size : K → ℕ) (value_size : V → ℕ)
    (log : List (LogRecord K V)) (m : Map K V) where
  insert_by_offset-Found :
      (key : K) (meta : EntryMeta) (l : List (K × EntryMeta))
      → FoundOne key_size value_size log m key meta
      → Found key_size value_size log m l
      → Found key_size value_size log m (insert_by_offset (key, meta) l)
  unfolding insert_by_offset
  insert_by_offset-Found key meta [] f g = (f, tt)
  insert_by_offset-Found key meta ((key', meta') ∷ l) f g =
      elim (Bool-cases (leb meta.offset meta'.offset)) [
        | inl e ↦ rw (e, insert_by_offset) (f, g)
        | inr e ↦ rw (e, insert_by_offset) (g.0, insert_by_offset-Found key meta l f g.1)
      ]

  pub sort_by_offset-Found :
      (l : List (K × EntryMeta))
      → Found key_size value_size log m l
      → Found key_size value_size log m (sort_by_offset l)
  unfolding sort_by_offset
  sort_by_offset-Found [] f = tt
  sort_by_offset-Found ((key, meta) ∷ l) f =
      insert_by_offset-Found key meta (sort_by_offset l) f.0 (sort_by_offset-Found l f.1)

  -- an index whose entries lead to records is found entry by entry
  pub index-Found :
      (index : Map K EntryMeta)
      → IsSorted index
      → ((q : K) (meta : EntryMeta)
          → lookup q index ≡ some meta
          → FoundOne key_size value_size log m q meta)
      → Found key_size value_size log m index
  unfolding lookup
  index-Found [] s h = tt
  index-Found ((key, meta) ∷ index) s h = (
    h key meta (ground (arith, cmp_refl key)),
    index-Found index s.1
        (λ q meta' e. h q meta' (ground (arith, e, lookup-Above key index s.0, k.cmp_iff q key))),
  )
