-- ===== src/Topic/State/Sync.antt =====
-- The stored offsets are the committed ones (zendb-storage/src/topic.rs): the operations keep it.
use zendb.Prelude.{
  ℕ, ◌≡◌, refl, sym, ap, subst, true, Option, none, some, ◌∙◌, Ord, eqb, eqb_iff, Option-cases,
  Bool-cases, inl, inr,
}
use zendb.Map.{
  Map, lookup, insert, remove, lookup-insert, lookup-remove, IsSorted, insert-IsSorted,
  remove-IsSorted,
}
use zendb.Topic.State.{Topic, ConsumerState}
use zendb.Topic.State.Reader.{
  TopicConsumer, activate, consumer, commit, seek, reset, delete, drop_consumer, update_state,
  volatile_of,
}

-- The committed offset of a state that may be missing.
abbrev pub committed_of : Option ConsumerState → Option ℕ
committed_of none = none
committed_of (some c) = some c.committed

module _ {N : Type 0} ⦃o : Ord N⦄ where
  abbrev Agree : Map N ℕ → Map N ConsumerState → Type 0
  Agree offsets consumers = (n : N) → lookup n offsets ≡ committed_of (lookup n consumers)

  insert-Agree :
      (offsets : Map N ℕ) (consumers : Map N ConsumerState) (n : N) (c : ConsumerState)
      → Agree offsets consumers
      → lookup n offsets ≡ some c.committed
      → Agree offsets (insert n c consumers)
  insert-Agree offsets consumers n c agree e m =
      rw (lookup-insert n m c consumers) (elim (Bool-cases (eqb m n)) [
        | inl same ↦ rw (same, (eqb_iff m n).0 same) e
        | inr other ↦ rw other (agree m)
      ])

  insert-insert-Agree :
      (offsets : Map N ℕ) (consumers : Map N ConsumerState) (n : N) (c : ConsumerState)
      → Agree offsets consumers
      → Agree (insert n c.committed offsets) (insert n c consumers)
  insert-insert-Agree offsets consumers n c agree m =
      rw (lookup-insert n m c consumers, lookup-insert n m c.committed offsets)
        (elim (Bool-cases (eqb m n)) [ inl same ↦ rw same refl | inr other ↦ rw other (agree m) ])

  remove-Agree :
      (offsets : Map N ℕ) (consumers : Map N ConsumerState) (n : N)
      → IsSorted consumers
      → IsSorted offsets
      → Agree offsets consumers
      → Agree (remove n offsets) (remove n consumers)
  remove-Agree offsets consumers n s r agree m =
      rw (lookup-remove n m consumers s, lookup-remove n m offsets r)
        (elim (Bool-cases (eqb m n)) [ inl same ↦ rw same refl | inr other ↦ rw other (agree m) ])

  -- Both maps are sorted, and the store has for each name the offset that its consumer has committed.
  abbrev pub InSync : Topic N → Type 0
  InSync t = IsSorted t.consumers × IsSorted t.offsets × Agree t.offsets t.consumers

  -- a store that leaves the committed offset
  pub update_state-InSync :
      (t : Topic N) (n : N) (f : ConsumerState → ConsumerState)
      → ((c : ConsumerState) → (f c).committed ≡ c.committed)
      → InSync t
      → InSync (update_state t n f)
  unfolding update_state
  update_state-InSync t n f same (s, r, agree) = elim (Option-cases (lookup n t.consumers)) [
    | inl e ↦ rw (e, update_state) (s, r, agree)
    | inr (c, e) ↦
        rw (e, update_state)
          (
            insert-IsSorted n (f c) t.consumers s,
            r,
            insert-Agree t.offsets t.consumers n (f c) agree
                (agree n ∙ ap committed_of e ∙ ap some (sym (same c))),
          )
  ]

  pub consumer-InSync : (t : Topic N) (n : N) → InSync t → InSync (consumer t n).0
  unfolding consumer activate
  consumer-InSync t n (s, r, agree) = elim (Option-cases (lookup n t.consumers)) [
    | inl e ↦
        let offset = t.next_offset in
        let fresh : ConsumerState = record {
          committed = offset;
          volatile = offset;
          reader_active = true;
        } in
        rw (e, consumer)
          (
            insert-IsSorted n fresh t.consumers s,
            insert-IsSorted n offset t.offsets r,
            insert-insert-Agree t.offsets t.consumers n fresh agree,
          )
    | inr (c, e) ↦
        let now : ConsumerState = record c { reader_active = true } in
        rw (e, consumer)
          (
            insert-IsSorted n now t.consumers s,
            r,
            insert-Agree t.offsets t.consumers n now agree (agree n ∙ ap committed_of e),
          )
  ]

  -- the handle's name is registered
  pub commit-InSync :
      (t : Topic N) (h : TopicConsumer N) (c : ConsumerState)
      → lookup h.name t.consumers ≡ some c
      → InSync t
      → InSync (commit t h)
  unfolding commit update_state
  commit-InSync t h c e (s, r, agree) =
      let volatile = volatile_of t h.name in
      let now : ConsumerState = record c { committed = volatile } in
      rw (e, commit, update_state)
        (
          insert-IsSorted h.name now t.consumers s,
          insert-IsSorted h.name volatile t.offsets r,
          insert-insert-Agree t.offsets t.consumers h.name now agree,
        )

  pub seek-InSync :
      (t : Topic N) (h : TopicConsumer N) (offset : ℕ) → InSync t → InSync (seek t h offset).0
  unfolding seek
  seek-InSync t h offset sync = update_state-InSync t h.name _ (λ c. refl) sync

  pub reset-InSync : (t : Topic N) (h : TopicConsumer N) → InSync t → InSync (reset t h).0
  unfolding reset
  reset-InSync t h sync = update_state-InSync t h.name _ (λ c. refl) sync

  pub drop_consumer-InSync :
      (t : Topic N) (h : TopicConsumer N) → InSync t → InSync (drop_consumer t h)
  unfolding drop_consumer
  drop_consumer-InSync t h sync = update_state-InSync t h.name _ (λ c. refl) sync

  pub delete-InSync : (t : Topic N) (h : TopicConsumer N) → InSync t → InSync (delete t h)
  unfolding delete
  delete-InSync t h (s, r, agree) = (
    remove-IsSorted h.name t.consumers s,
    remove-IsSorted h.name t.offsets r,
    remove-Agree t.offsets t.consumers h.name s r agree,
  )

  -- the same maps in another topic
  pub same-InSync :
      (t u : Topic N) → (u.consumers ≡ t.consumers) × (u.offsets ≡ t.offsets) → InSync t → InSync u
  same-InSync t u (p, q) (s, r, agree) = (
    subst (λ m. IsSorted m) (sym p) s,
    subst (λ m. IsSorted m) (sym q) r,
    λ n. ap (lookup n) q ∙ agree n ∙ ap (λ m. committed_of (lookup n m)) (sym p),
  )
