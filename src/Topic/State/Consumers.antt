-- ===== src/Topic/State/Consumers.antt =====
-- The life of a consumer (zendb-storage/src/topic.rs, TopicConsumer): one reader for each name, and
-- the stored offsets are the committed ones.
use zendb.Prelude.{
  ◌≡◌, refl, ap, true, false, none, some, ◌∙◌, Ord, ok, err, Option-cases, inl, inr,
}
use zendb.Map.{lookup, insert, lookup-insert_self}
use zendb.Topic.State.{Topic, ConsumerState}
use zendb.Topic.State.Reader.{
  TopicConsumer, already_exists, activate, consumer, drop_consumer, update_state, volatile_of,
}

module _ {N : Type 0} ⦃o : Ord N⦄ where
  consumer-registered :
      (t : Topic N) (n : N) (c : ConsumerState)
      → lookup n t.consumers ≡ some c
      → consumer t n ≡ activate t n c
  unfolding consumer
  consumer-registered t n c e = rw (e, consumer) refl

  activate-refused :
      (t : Topic N) (n : N) (c : ConsumerState)
      → c.reader_active ≡ true
      → (activate t n c).1 ≡ err already_exists
  unfolding activate
  activate-refused t n c active = rw active refl

  -- the consumer's state after the call
  consumer-active :
      (t : Topic N) (n : N)
      → (c : ConsumerState) × (lookup n (consumer t n).0.consumers ≡ some c)
        × (c.reader_active ≡ true)
  unfolding consumer activate
  consumer-active t n = elim (Option-cases (lookup n t.consumers)) [
    | inl e ↦
        let offset = t.next_offset in
        let fresh : ConsumerState = record {
          committed = offset;
          volatile = offset;
          reader_active = true;
        } in
        rw (e, consumer) (fresh, lookup-insert_self n fresh t.consumers, refl)
    | inr (c, e) ↦
        let now : ConsumerState = record c { reader_active = true } in
        rw (e, consumer) (now, lookup-insert_self n now t.consumers, refl)
  ]

  -- A second handle for a name is refused while the first is there, whether or not the name was
  -- registered before.
  pub consumer-consumer :
      (t : Topic N) (n : N) → (consumer (consumer t n).0 n).1 ≡ err already_exists
  consumer-consumer t n =
      let (c, e, active) = consumer-active t n in
      ap (λ r. r.1) (consumer-registered (consumer t n).0 n c e)
      ∙ activate-refused (consumer t n).0 n c active

  -- When the handle of a registered consumer is dropped, its name is free: the next handle is given
  -- out, and starts at the committed offset.
  pub consumer-drop_consumer :
      (t : Topic N) (c : ConsumerState) (handle : TopicConsumer N)
      → lookup handle.name t.consumers ≡ some c
      → let again = consumer (drop_consumer t handle) handle.name in
        (again.1 ≡ ok (record { name = handle.name; current = none }))
        × (volatile_of again.0 handle.name ≡ c.committed)
  unfolding drop_consumer update_state activate
  consumer-drop_consumer t c handle e =
      let free : ConsumerState = record c { volatile = c.committed; reader_active = false } in
      let now : ConsumerState = record free { reader_active = true } in
      let dropped = record t { consumers = insert handle.name free t.consumers } in
      let opened =
        consumer-registered dropped handle.name free
          (lookup-insert_self handle.name free t.consumers) in
      rw (e, drop_consumer, update_state, opened)
        (
          refl,
          ap (λ s. elim s [ none ↦ 0 | some c ↦ c.volatile ])
              (lookup-insert_self handle.name now dropped.consumers),
        )
