-- ===== src/Topic/State/Retention.antt =====
-- Compaction takes whole segments off the front, none that a consumer still needs; an append adds one
-- record at the end (zendb-storage/src/topic.rs, compact and append).
use zendb.Prelude.{
  ℕ, ◌+◌, ◌<◌, ◌^◌, ◌≡◌, refl, sym, ap, subst, arith, some, List, [], ◌∷◌, ◌++◌, length, take, drop,
  length-append, append_assoc, Bool-cases, ◌∙◌, inl, inr, ◌⊎◌, ◌==◌, Option-cases,
}
use zendb.Topic.State.{
  Topic, push_segment, write_record, removable, drop_segments, compact, min_committed, append,
  rotate_segment, needs_rotation,
}
use zendb.Topic.State.Chains.{
  AllCommitted, AllCommitted-weaken, min_committed-AllCommitted, count-take-drop, sum_of-take-drop,
  Chain-drop, Chain-sum_of, Chain-first_base, Chain-removable, concat-drop, length-concat,
  concat-append,
}
use zendb.Topic.State.Log.{
  count, concat, Represents, push_segment-Represents, write_record-Represents, Chain-count,
}

module _ {N : Type 0} where
  drop_segments-Represents :
      (n : ℕ) (t : Topic N) (first : ℕ) (pss : List (List (List ℕ))) (ps : List (List ℕ))
      → Represents t first pss ps
      → Represents (drop_segments n t) (first + count (take n pss)) (drop n pss) ps
  unfolding drop_segments
  drop_segments-Represents n t first pss ps (chain, keeps, early, next, shared, records, bytes) = (
    Chain-drop n first t.older pss t.active.base_offset chain,
    keeps,
    Chain-first_base (first + count (take n pss)) (drop n t.older) (drop n pss) t.active
        (Chain-drop n first t.older pss t.active.base_offset chain),
    next,
    shared,
    omega (
      arith,
      records,
      Chain-sum_of n first t.older pss t.active.base_offset chain,
      count-take-drop n pss,
    ),
    omega (arith, bytes, sum_of-take-drop (λ s. s.byte_len) n t.older),
  )

  compact-cases :
      (t : Topic N)
      → (compact t ≡ t)
        ⊎ ((through : ℕ) × (min_committed t.consumers ≡ some through)
            × (compact t ≡ drop_segments (removable through t.older) t))
  unfolding compact
  compact-cases t = elim (Option-cases (min_committed t.consumers)) [
    | inl e ↦ inl (rw (e, compact) refl)
    | inr (through, e) ↦ elim (Bool-cases (removable through t.older == 0)) [
      | inl nothing ↦ inl (rw (e, compact, nothing) refl)
      | inr something ↦ inr (through, e, rw (e, compact, something) refl)
    ]
  ]

  -- The records that `t` holds, and the offset of the first of them.
  abbrev pub Log : Topic N → ℕ → List (List ℕ) → Type 0
  Log t first log =
      (pss : List (List (List ℕ))) × (ps : List (List ℕ)) × Represents t first pss ps
      × (concat pss ++ ps ≡ log)

  -- A topic holds the log from offset `first` on. Compaction drops some `k` records at its front and
  -- leaves the others with their offsets; unless `k` is 0, every consumer has committed at least
  -- the new first offset, so no record is lost that a consumer has still to read.
  pub compact-Log :
      (t : Topic N) (first : ℕ) (log : List (List ℕ))
      → Log t first log
      → (k : ℕ) × Log (compact t) (first + k) (drop k log)
        × ((k ≡ 0) ⊎ AllCommitted (first + k) t.consumers)
  compact-Log t first log (pss, ps, holds, is_log) =
      let first_0 : first ≡ first + 0 = omega arith in
      elim (compact-cases t) [
        | inl same ↦
            let kept = subst (λ first. Log t first log) first_0 (pss, ps, holds, is_log) in
            (0, subst (λ t. Log t (first + 0) log) (sym same) kept, inl refl)
        | inr (through, e, same) ↦
            let n = removable through t.older in
            (
              count (take n pss),
              subst (λ t. Log t (first + count (take n pss)) (drop (count (take n pss)) log))
                  (sym same)
                  (
                    drop n pss,
                    ps,
                    drop_segments-Represents n t first pss ps holds,
                    concat-drop n pss ps ∙ ap (drop (count (take n pss))) is_log,
                  ),
              (elim (Chain-removable through first t.older pss t.active.base_offset holds.0) [
                | inl nothing ↦ inl (ap (λ n. count (take n pss)) nothing)
                | inr bound ↦ inr (
                    AllCommitted-weaken (first + count (take n pss)) through t.consumers bound
                      (min_committed-AllCommitted t.consumers through e))
              ]),
            )
      ]

  write_record-Log :
      (t : Topic N) (first : ℕ) (log : List (List ℕ)) (p : List ℕ)
      → Log t first log
      → length p < 2 ^ 32
      → Log (write_record t p) first (log ++ (p ∷ []))
  write_record-Log t first log p (pss, ps, holds, is_log) short = (
    pss,
    ps ++ (p ∷ []),
    write_record-Represents t first pss ps p holds short,
    sym (append_assoc (concat pss) ps (p ∷ [])) ∙ ap (λ l. l ++ (p ∷ [])) is_log,
  )

  push_segment-Log :
      (t : Topic N) (first : ℕ) (log : List (List ℕ))
      → Log t first log
      → Log (push_segment t) first log
  push_segment-Log t first log (pss, ps, holds, is_log) = (
    pss ++ (ps ∷ []),
    [],
    push_segment-Represents t first pss ps holds,
    concat-append pss ps ∙ is_log,
  )

  -- the next offset follows the last record
  pub Log-next_offset :
      (t : Topic N) (first : ℕ) (log : List (List ℕ))
      → Log t first log
      → t.stats.next_offset ≡ first + length log
  Log-next_offset t first log (pss, ps, holds, is_log) = omega (
    arith,
    holds.1.1,
    holds.3,
    Chain-count first t.older pss t.active.base_offset holds.0,
    ap length is_log,
    length-append (concat pss) ps,
    length-concat pss,
  )

  compact-next_offset : (t : Topic N) → (compact t).stats.next_offset ≡ t.stats.next_offset
  unfolding drop_segments
  compact-next_offset t = elim (compact-cases t) [
    | inl same ↦ ap (λ t. t.stats.next_offset) same
    | inr (through, e, same) ↦ ap (λ t. t.stats.next_offset) same
  ]

  pub compact-consumers :
      (t : Topic N) → ((compact t).consumers ≡ t.consumers) × ((compact t).offsets ≡ t.offsets)
  unfolding drop_segments
  compact-consumers t = elim (compact-cases t) [
    | inl same ↦ (ap (λ t. t.consumers) same, ap (λ t. t.offsets) same)
    | inr (through, e, same) ↦ (ap (λ t. t.consumers) same, ap (λ t. t.offsets) same)
  ]

  pub append-consumers :
      (t : Topic N) (p : List ℕ)
      → ((append t p).0.consumers ≡ t.consumers) × ((append t p).0.offsets ≡ t.offsets)
  unfolding append write_record rotate_segment push_segment
  append-consumers t p = elim (Bool-cases (needs_rotation t (4 + length p))) [
    | inr stays ↦ rw (stays, append) (refl, refl)
    | inl rotates ↦ rw (rotates, append) (compact-consumers (push_segment t))
  ]

  -- A topic holds the log from offset `first` on. An append of a value whose encoding is shorter than
  -- 2^32 bytes gives back the offset behind the last record, and the topic then holds the log with
  -- the encoding at its end, less some `k` records at its front that a rotation may compact away;
  -- unless `k` is 0, every consumer has committed at least the new first offset.
  pub append-Log :
      (t : Topic N) (first : ℕ) (log : List (List ℕ)) (p : List ℕ)
      → Log t first log
      → length p < 2 ^ 32
      → ((append t p).1 ≡ first + length log)
        × ((k : ℕ) × Log (append t p).0 (first + k) (drop k log ++ (p ∷ []))
            × ((k ≡ 0) ⊎ AllCommitted (first + k) t.consumers))
  unfolding append rotate_segment push_segment
  append-Log t first log p holds short =
      let first_0 : first ≡ first + 0 = omega arith in
      elim (Bool-cases (needs_rotation t (4 + length p))) [
        | inr stays ↦
            rw (stays, append)
              (
                Log-next_offset t first log holds,
                (
                  0,
                  write_record-Log t (first + 0) log p
                      (subst (λ first. Log t first log) first_0 holds) short,
                  inl refl,
                ),
              )
        | inl rotates ↦
            let (k, after, bound) =
              compact-Log (push_segment t) first log (push_segment-Log t first log holds) in
            rw (rotates, append)
              (
                compact-next_offset (push_segment t) ∙ Log-next_offset t first log holds,
                (
                  k,
                  write_record-Log (compact (push_segment t)) (first + k) (drop k log) p after
                      short,
                  bound,
                ),
              )
      ]
