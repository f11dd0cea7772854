-- ===== src/Topic/State/Delivery.antt =====
-- A consumer reads the records of the log in order (zendb-storage/src/topic.rs, position and next).
use zendb.Prelude.{
  ℕ, suc, ◌+◌, ◌-◌, ◌<◌, ◌^◌, ◌≡◌, refl, sym, ap, subst, arith, true, false, Option, none, some,
  List, [], ◌∷◌, ◌++◌, length, drop, leb, ltb, append-nil, Bool-cases, ◌∙◌, inl, inr, get_elem?,
  get_elem?-append_left, get_elem?-append_right, get_elem?-length, Ord, ok,
}
use zendb.Map.{lookup, lookup-insert_self}
use zendb.Topic.Frame.{header, header_size, frame, to_le_bytes, skip_records}
use zendb.Topic.Frame.Codec.{frames, Holds, read_record-frame}
use zendb.Topic.Frame.Read.{skip-frames}
use zendb.Topic.State.{Topic, Segment, ConsumerState}
use zendb.Topic.State.Reader.{
  TopicConsumer, SegmentCursor, find_offset, holds_offset, position, cursor_at, settle, read_value,
  next, all_segments, update_state, volatile_of,
}
use zendb.Topic.State.Log.{Keeps, Chain, concat, Chain-append}
use zendb.Topic.State.Chains.{concat-append}
use zendb.Topic.State.Retention.{Log, Log-next_offset}

-- The record stands in a segment, which is found by the offset.
abbrev IsFound : ℕ → ℕ → List Segment → List ℕ → Type 0
IsFound offset number ss p =
    (j : ℕ) × (s : Segment) × (ps : List (List ℕ)) × (find_offset offset number ss
      ≡ some (number + j, s))
    × (get_elem? ss j ≡ some s)
    × Keeps s s.base_offset ps
    × (get_elem? ps (offset - s.base_offset) ≡ some p)

find_offset-Chain :
    (number from : ℕ) (ss : List Segment) (pss : List (List (List ℕ))) (to i : ℕ) (p : List ℕ)
    → Chain from ss pss to
    → get_elem? (concat pss) i ≡ some p
    → IsFound (from + i) number ss p
unfolding find_offset
find_offset-Chain number from [] [] to i p h found = ground (arith, found)
find_offset-Chain number from [] (ps ∷ pss) to i p h found = ground (arith, h)
find_offset-Chain number from (s ∷ ss) [] to i p h found = ground (arith, h)
find_offset-Chain number from (s ∷ ss) (ps ∷ pss) to i p (keeps, h) found =
    elim (Bool-cases (ltb i (length ps))) [
      | inl here ↦
          let hit : holds_offset (from + i) s ≡ true = ground (arith, here, keeps.0, keeps.1) in
          (
            0,
            s,
            ps,
            rw hit (ap (λ n. some (n, s)) (omega arith)),
            refl,
            (refl, omega (arith, keeps.0, keeps.1), keeps.2, keeps.3, keeps.4),
            ap (get_elem? ps) (omega (arith, keeps.0))
                ∙ sym (get_elem?-append_left ps (concat pss) i (ground (arith, here)))
                ∙ found,
          )
      | inr there ↦
          let miss : holds_offset (from + i) s ≡ false = ground (arith, there, keeps.0, keeps.1) in
          let r = i - length ps in
          let split : length ps + r ≡ i = ground (arith, there) in
          let same : from + length ps + r ≡ from + i = omega (arith, split) in
          let later =
            sym (get_elem?-append_right ps (concat pss) r)
            ∙ ap (get_elem? (ps ++ concat pss)) split
            ∙ found in
          let (j, s', ps', e, at, k, g) =
            subst (λ offset. IsFound offset (suc number) ss p) same
              (find_offset-Chain (suc number) (from + length ps) ss pss to r p h later) in
          (suc j, s', ps', rw miss (e ∙ ap (λ n. some (n, s')) (omega arith)), at, k, g)
    ]

-- The cursor stands at the offset, in front of the record `p`.
abbrev pub Stands : {N : Type 0} → Topic N → SegmentCursor → ℕ → List ℕ → Type 0
Stands t k offset p =
    (s : Segment) × (rest : List ℕ) × (get_elem? (all_segments t) k.segment ≡ some s)
    × (k.logical_offset ≡ offset)
    × Holds s.file k.byte_offset (frame p ++ rest)
    × (length p < 2 ^ 32)
    × (find_offset offset (length t.removed) (t.older ++ (t.active ∷ [])) ≡ some (k.segment, s))
    × (skip_records (offset - s.base_offset) s.file header_size ≡ some k.byte_offset)

-- the segment with a retained record
IsFound-Log :
    {N : Type 0} (t : Topic N) (first : ℕ) (log : List (List ℕ)) (i : ℕ) (p : List ℕ)
    → Log t first log
    → get_elem? log i ≡ some p
    → IsFound (first + i) (length t.removed) (t.older ++ (t.active ∷ [])) p
IsFound-Log t first log i p (pss, ps, holds, is_log) found =
    find_offset-Chain (length t.removed) first (t.older ++ (t.active ∷ [])) (pss ++ (ps ∷ []))
      (t.active.base_offset + length ps) i p
      (Chain-append first t.older pss t.active.base_offset t.active ps holds.0 holds.1)
      (ap (λ l. get_elem? l i)
          (sym (append-nil (concat (pss ++ (ps ∷ [])))) ∙ concat-append pss ps ∙ is_log)
        ∙ found)

Keeps-Holds :
    (s : Segment) (ps : List (List ℕ))
    → Keeps s s.base_offset ps
    → Holds s.file header_size (frames ps ++ [])
unfolding header to_le_bytes
Keeps-Holds s ps keeps =
    let bytes = append-nil (frames ps) in
    (ap (drop header_size) keeps.3 ∙ sym bytes, omega (arith, ap length keeps.3, ap length bytes))

pub cursor_at-Log :
    {N : Type 0} (t : Topic N) (first : ℕ) (log : List (List ℕ)) (i : ℕ) (p : List ℕ)
    → Log t first log
    → get_elem? log i ≡ some p
    → (k : SegmentCursor) × (cursor_at t (first + i) ≡ ok (some k)) × Stands t k (first + i) p
unfolding cursor_at
cursor_at-Log t first log i p holds found =
    let (j, s, ps, e, at, keeps, here) = IsFound-Log t first log i p holds found in
    let (cursor, rest, skipped, holds_p, short) =
      skip-frames (first + i - s.base_offset) s.file header_size ps [] p (Keeps-Holds s ps keeps)
        keeps.4 here in
    let inside : leb t.next_offset (first + i) ≡ false = ground (
      arith,
      Log-next_offset t first log holds,
      holds.2.3,
      holds.2.4,
      get_elem?-length log i p found,
    ) in
    (
      record { segment = length t.removed + j; byte_offset = cursor; logical_offset = first + i },
      rw (inside, cursor_at, e, skipped) refl,
      (
        s,
        rest,
        get_elem?-append_right t.removed (t.older ++ (t.active ∷ [])) j ∙ at,
        refl,
        holds_p,
        short,
        e,
        skipped,
      ),
    )

position-cursor_at :
    {N : Type 0} ⦃o : Ord N⦄ (t : Topic N) (c : TopicConsumer N) (offset : ℕ)
    → volatile_of t c.name ≡ offset
    → position t c ≡ cursor_at t offset
unfolding position
position-cursor_at t c offset stands = ap (cursor_at t) stands

module _ {N : Type 0} ⦃o : Ord N⦄ {V : Type 0} (decode : List ℕ → Option V) where
  read_value-Stands :
      (t : Topic N) (c : TopicConsumer N) (k : SegmentCursor) (offset : ℕ) (p : List ℕ) (v : V)
      → Stands t k offset p
      → decode p ≡ some v
      → ((read_value decode t c k).1 ≡ ok v)
        × ((read_value decode t c k).0.0
            ≡ update_state t c.name (λ st. record st { volatile = offset + 1 }))
  unfolding read_value
  read_value-Stands t c k offset p v (s, rest, at, here, holds, short, e, skipped) decodes =
      rw (at, read_value, read_record-frame s.file k.byte_offset p rest holds short, decodes, here)
        (refl, refl)

  -- A topic holds the log from offset `first` on, and a consumer with no cursor stands at the offset of
  -- the record `p` of the log, whose bytes decode to `v`. Then `next` gives `v`, and leaves the
  -- consumer's volatile offset one further and its committed offset as it was.
  pub next-Log :
      (t : Topic N) (first : ℕ) (log : List (List ℕ)) (i : ℕ) (p : List ℕ) (v : V)
      → (name : N) (c : ConsumerState) → Log t first log
      → lookup name t.consumers ≡ some c
      → c.volatile ≡ first + i
      → get_elem? log i ≡ some p
      → decode p ≡ some v
      → let (after, item) = next decode t (record { name = name; current = none }) in
        (item ≡ some (ok v))
        × (lookup name after.0.consumers ≡ some (record c { volatile = first + i + 1 }))
  unfolding next settle update_state
  next-Log t first log i p v name c holds registered stands found decodes =
      let stands : volatile_of t name ≡ first + i = rw (registered, volatile_of) stands in
      let consumer : TopicConsumer N = record { name = name; current = none } in
      let (k, settled, at) = cursor_at-Log t first log i p holds found in
      let (value, state) = read_value-Stands t consumer k (first + i) p v at decodes in
      let placed = position-cursor_at t consumer (first + i) stands ∙ settled in
      rw (placed, next, settle, value, state, update_state, registered)
        (refl, lookup-insert_self name (record c { volatile = first + i + 1 }) t.consumers)
