-- ===== src/Topic/State/Drain.antt =====
-- A consumer that goes on calling `next` (zendb-storage/src/topic.rs, the iterator of TopicConsumer) comes
-- to the tail.
use zendb.Prelude.{
  ℕ, zero, suc, ◌+◌, ◌<◌, ◌≡◌, refl, sym, ap, subst, arith, true, false, Option, none, some, List,
  [], ◌∷◌, ◌++◌, length, leb, ltb, Bool-cases, ◌∙◌, inl, inr, get_elem?, get_elem?-append_right,
  append_assoc, length-append, Ord, Result, ok, map,
}
use zendb.Map.{lookup, insert, lookup-insert_self}
use zendb.Topic.Frame.Codec.{read_record-frame}
use zendb.Topic.State.{Topic, ConsumerState}
use zendb.Topic.State.Reader.{
  TopicConsumer, SegmentCursor, TopicError, position, cursor_at, settle, read_value, next,
  update_state, volatile_of,
}
use zendb.Topic.State.Delivery.{Stands, cursor_at-Log}
use zendb.Topic.State.Retention.{Log}
use zendb.Topic.State.Cursor.{
  Cached, Cached-next, Cached-consumers, cursor_at-tail, next_offset-Log,
}

-- The records decode to these values.
abbrev pub Decodes : {V : Type 0} → (List ℕ → Option V) → List (List ℕ) → List V → Type 0
Decodes decode [] [] = Unit
Decodes decode (p ∷ ps) (v ∷ vs) = (decode p ≡ some v) × Decodes decode ps vs
Decodes decode _ _ = false ≡ true

module _ {N : Type 0} ⦃o : Ord N⦄ where
  settle-Cached :
      (t : Topic N) (name : N) (offset : ℕ) (current : Option SegmentCursor)
      → volatile_of t name ≡ offset
      → Cached t offset current
      → (settle t (record { name = name; current = current })).1 ≡ cursor_at t offset
  unfolding settle position
  settle-Cached t name offset none stands cached = ap (cursor_at t) stands
  settle-Cached t name offset (some k) stands (s, at, here, keeps) =
      elim (Bool-cases (ltb k.logical_offset s.end_offset)) [
        | inl inside ↦
            rw (at, settle, inside) (sym (keeps (ap (λ n. ltb n s.end_offset) (sym here) ∙ inside)))
        | inr outside ↦ elim (Bool-cases (leb t.next_offset k.logical_offset)) [
          | inl tail ↦
              rw (at, settle, outside, tail)
                (sym (cursor_at-tail t offset (ap (leb t.next_offset) (sym here) ∙ tail)))
          | inr behind ↦ rw (at, settle, outside, behind) (ap (cursor_at t) stands)
        ]
      ]

  module _ {V : Type 0} (decode : List ℕ → Option V) where
    -- The consumer behind a read at the offset.
    abbrev moved_to : Topic N → N → ConsumerState → ℕ → Topic N
    moved_to t name st offset = record t {
      consumers = insert name (record st { volatile = offset }) t.consumers;
    }

    read_value-moves :
        (t : Topic N) (name : N) (current : Option SegmentCursor) (st : ConsumerState)
        (k : SegmentCursor) (offset : ℕ) (p : List ℕ) (v : V)
        → Stands t k offset p
        → lookup name t.consumers ≡ some st
        → decode p ≡ some v
        → read_value decode t (record { name = name; current = current }) k ≡ (
          (
            moved_to t name st (k.logical_offset + 1),
            record {
              name = name;
              current = some (record k {
                byte_offset = k.byte_offset + 4 + length p;
                logical_offset = k.logical_offset + 1;
              });
            },
          ),
          ok v,
        )
    unfolding read_value update_state
    read_value-moves t name current st k offset p v (s, rest, at, here, holds_p, short, e, skipped)
          registered decodes =
        rw
          (
            at,
            read_value,
            read_record-frame s.file k.byte_offset p rest holds_p short,
            decodes,
            registered,
            update_state,
          )
          refl

    -- One item of the iterator, from any handle at an offset of the log.
    next-moves :
        (t : Topic N) (first : ℕ) (done todo : List (List ℕ)) (p : List ℕ) (v : V) (name : N)
        (current : Option SegmentCursor) (st : ConsumerState)
        → Log t first (done ++ (p ∷ todo))
        → lookup name t.consumers ≡ some st
        → st.volatile ≡ first + length done
        → Cached t (first + length done) current
        → decode p ≡ some v
        → (moved : SegmentCursor) × (next decode t (record { name = name; current = current }) ≡ (
          (
            moved_to t name st (first + length done + 1),
            record { name = name; current = some moved },
          ),
          some (ok v),
        ))
          × Cached t (first + length done + 1) (some moved)
    unfolding next
    next-moves t first done todo p v name current st holds registered stands cached decodes =
        let here : get_elem? (done ++ (p ∷ todo)) (length done) ≡ some p =
          ap (get_elem? (done ++ (p ∷ todo))) (omega arith)
          ∙ get_elem?-append_right done (p ∷ todo) 0 in
        let at_offset : volatile_of t name ≡ first + length done =
          rw (registered, volatile_of) stands in
        let (k, settled, at) =
          cursor_at-Log t first (done ++ (p ∷ todo)) (length done) p holds here in
        let found = settle-Cached t name (first + length done) current at_offset cached ∙ settled in
        let read =
          read_value-moves t name current st k (first + length done) p v at registered decodes in
        let moved : SegmentCursor = record k {
          byte_offset = k.byte_offset + 4 + length p;
          logical_offset = k.logical_offset + 1;
        } in
        let handle : TopicConsumer N = record { name = name; current = some moved } in
        (
          moved,
          rw (found, next, read)
              (ap (λ n. ((moved_to t name st (n + 1), handle), some (ok v))) at.3),
          Cached-next t first (done ++ (p ∷ todo)) k (first + length done) p holds at,
        )

    next-tail :
        (t : Topic N) (name : N) (current : Option SegmentCursor) (offset : ℕ)
        → volatile_of t name ≡ offset
        → Cached t offset current
        → leb t.next_offset offset ≡ true
        → (cached : Option SegmentCursor) × (next decode t
              (record { name = name; current = current })
            ≡ ((t, record { name = name; current = cached }), none))
    unfolding next
    next-tail t name current offset stands cached tail =
        let found =
          settle-Cached t name offset current stands cached ∙ cursor_at-tail t offset tail in
        ((settle t (record { name = name; current = current })).0, rw (found, next) refl)

    -- `collect` of the iterator, for as many items as the fuel.
    unfoldable pub read_all :
        ℕ → Topic N → TopicConsumer N → (Topic N × TopicConsumer N) × List (Result TopicError V)
    unfolding next
    read_all zero t c = ((t, c), [])
    read_all (suc fuel) t c =
        let (after, item) = next decode t c in
        let (last, items) = read_all fuel after.0 after.1 in
        elim item [ none ↦ (after, []) | some x ↦ (last, x ∷ items) ]

    read_all-tail :
        (fuel : ℕ) (t : Topic N) (c : TopicConsumer N) (after : Topic N × TopicConsumer N)
        → next decode t c ≡ (after, none)
        → read_all (suc fuel) t c ≡ (after, [])
    unfolding read_all
    read_all-tail fuel t c after e = rw (e, read_all) (ap (λ r. (r.0, [])) e)

    read_all-item :
        (fuel : ℕ) (t : Topic N) (c : TopicConsumer N) (after : Topic N × TopicConsumer N)
        (x : Result TopicError V)
        → next decode t c ≡ (after, some x)
        → read_all (suc fuel) t c
          ≡ ((read_all fuel after.0 after.1).0, x ∷ (read_all fuel after.0 after.1).1)
    unfolding read_all
    read_all-item fuel t c after x e =
        rw (e, read_all)
          (ap (λ r. ((read_all fuel r.0.0 r.0.1).0, x ∷ (read_all fuel r.0.0 r.0.1).1)) e)

    -- A topic holds the records `done` and then `todo`, from offset `first` on, and a consumer stands
    -- behind `done`, with no cursor or with that of its offset. The records of `todo` decode to `vs`. Then
    -- the iterator, with fuel for one item more than `todo` has, gives the values `vs` in order and ends:
    -- the consumer's volatile offset is the topic's next offset, and its committed one is as it was.
    pub read_all-Log :
        (todo done : List (List ℕ)) (vs : List V) (fuel : ℕ) (t : Topic N) (first : ℕ) (name : N)
        (current : Option SegmentCursor) (st : ConsumerState)
        → Log t first (done ++ todo)
        → lookup name t.consumers ≡ some st
        → st.volatile ≡ first + length done
        → Cached t (first + length done) current
        → Decodes decode todo vs
        → length todo < fuel
        → let (after, items) = read_all fuel t (record { name = name; current = current }) in
          (items ≡ map ok vs)
          × (lookup name after.0.consumers ≡ some (record st { volatile = t.next_offset }))
    read_all-Log todo done vs zero t first name current st holds registered stands cached decodes
          enough =
        ground (arith, enough)
    read_all-Log [] done [] (suc fuel) t first name current st holds registered stands cached
          decodes enough =
        let at_offset : volatile_of t name ≡ first + length done =
          rw (registered, volatile_of) stands in
        let at_end = next_offset-Log t first done holds in
        let (last, e) =
          next-tail t name current (first + length done) at_offset cached
            (ground (arith, at_end)) in
        rw (read_all-tail fuel t _ _ e)
          (refl, registered ∙ ap (λ n. some (record st { volatile = n })) (stands ∙ sym at_end))
    read_all-Log [] done (v ∷ vs) (suc fuel) t first name current st holds registered stands cached
          decodes enough =
        ground (arith, decodes)
    read_all-Log (p ∷ todo) done [] (suc fuel) t first name current st holds registered stands
          cached decodes enough =
        ground (arith, decodes)
    read_all-Log (p ∷ todo) done (v ∷ vs) (suc fuel) t first name current st holds registered stands
          cached decodes enough =
        let (moved, e, cached') =
          next-moves t first done todo p v name current st holds registered stands cached
            decodes.0 in
        let offset = first + length done + 1 in
        let t' = moved_to t name st offset in
        let st' : ConsumerState = record st { volatile = offset } in
        let grown : first + length (done ++ (p ∷ [])) ≡ offset =
          omega (arith, length-append done (p ∷ [])) in
        let (items, state) =
          read_all-Log todo (done ++ (p ∷ [])) vs fuel t' first name (some moved) st'
            (subst (λ log. Log t' first log) (sym (append_assoc done (p ∷ []) todo)) holds)
            (lookup-insert_self name st' t.consumers) (sym grown)
            (subst (λ n. Cached t' n (some moved)) (sym grown)
              (Cached-consumers t offset (some moved) t'.consumers cached'))
            decodes.1 (omega (arith, enough)) in
        rw (read_all-item fuel t _ _ (ok v) e) (ap (λ l. ok v ∷ l) items, state)
