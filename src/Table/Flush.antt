-- ===== src/Table/Flush.antt =====
-- A flush of a table moves the cache into the state (zendb-storage/src/table/table.rs, flush).
use zendb.Prelude.{◌≡◌, refl, sym, ap, ◌∙◌, [], Ord, inl, inr}
use zendb.Map.{lookup, IsSorted}
use zendb.Table.{Table, get, drain_cache, commit_recovery, flush}
use zendb.Table.Iteration.{StateKind-cases, get-or_else}
use zendb.Table.Rows.{drain_cache-fields, lookup-put_all}

module _ {N K C : Type 0} ⦃n : Ord N⦄ ⦃k : Ord K⦄ where
  commit_recovery-rows :
      (t : Table N K C)
      → ((commit_recovery t).cache ≡ t.cache) × ((commit_recovery t).state ≡ t.state)
  unfolding commit_recovery
  commit_recovery-rows t = elim (StateKind-cases t.kind) [
    | inl e ↦ rw (e, commit_recovery) (refl, refl)
    | inr (inl e) ↦ rw (e, commit_recovery) (refl, refl)
    | inr (inr e) ↦ rw (e, commit_recovery) (refl, refl)
  ]

  -- After a flush of a table whose cache has ascending keys the cache is empty, and every row is in the
  -- state as `get` found it before, by any of the three variants of the state.
  pub flush-get :
      (t : Table N K C)
      → IsSorted t.cache
      → ((flush t).cache ≡ []) × ((q : K) → lookup q (flush t).state ≡ get q t)
  unfolding flush
  flush-get t h =
      let (cache, state) = commit_recovery-rows (drain_cache t) in
      let (drained_state, drained, bound) = drain_cache-fields t.cache t refl in
      (
        cache ∙ drained,
        λ q.
            ap (lookup q) (state ∙ drained_state)
            ∙ lookup-put_all q t.cache t.state h
            ∙ sym (get-or_else q t),
      )
