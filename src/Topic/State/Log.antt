-- ===== src/Topic/State/Log.antt =====
-- What a topic holds: the records of its segments, one behind the other, and how the writer changes
-- them.
use zendb.Prelude.{
  ℕ, ◌+◌, ◌<◌, ◌^◌, ◌≡◌, refl, sym, ap, subst, arith, true, false, List, [], ◌∷◌, ◌++◌, length,
  length-append, append-nil, append_assoc, ◌∙◌,
}
use zendb.Topic.Frame.{header, frame, to_le_bytes}
use zendb.Topic.Frame.Codec.{frames, AllShort, length-frame}
use zendb.Topic.State.{
  Topic, Segment, TopicConfig, create, create_segment, sum_of, push_segment, write_record,
}

-- The segment begins at the offset and its file holds these records.
abbrev pub Keeps : Segment → ℕ → List (List ℕ) → Type 0
Keeps s base ps =
    (s.base_offset ≡ base)
    × (s.end_offset ≡ base + length ps)
    × (s.byte_len ≡ length s.file)
    × (s.file ≡ header ++ frames ps)
    × AllShort ps

-- The segments follow each other, from the first offset to the last.
abbrev pub Chain : ℕ → List Segment → List (List (List ℕ)) → ℕ → Type 0
Chain from [] [] to = from ≡ to
Chain from (s ∷ ss) (ps ∷ pss) to = Keeps s from ps × Chain (from + length ps) ss pss to
Chain from _ _ to = false ≡ true

abbrev pub count : List (List (List ℕ)) → ℕ
count [] = 0
count (ps ∷ pss) = length ps + count pss

abbrev pub concat : List (List (List ℕ)) → List (List ℕ)
concat [] = []
concat (ps ∷ pss) = ps ++ concat pss

-- The topic's first record has the offset `first`; the older segments hold `pss`, the active one
-- `ps`, and the statistics are right.
abbrev pub Represents : {N : Type 0} → Topic N → ℕ → List (List (List ℕ)) → List (List ℕ) → Type 0
Represents t first pss ps =
    Chain first t.older pss t.active.base_offset
    × Keeps t.active t.active.base_offset ps
    × (t.stats.earliest_offset ≡ first)
    × (t.stats.next_offset ≡ t.active.end_offset)
    × (t.next_offset ≡ t.active.end_offset)
    × (t.stats.records ≡ count pss + length ps)
    × (t.stats.retained_bytes ≡ sum_of (λ s. s.byte_len) t.older + t.active.byte_len)

pub create-Represents :
    (N : Type 0) (config : TopicConfig) → Represents (create {N = N} config) 0 [] []
unfolding create create_segment frames header to_le_bytes
create-Represents N config = (
  refl,
  (refl, omega arith, refl, sym (append-nil header), tt),
  refl,
  refl,
  refl,
  omega arith,
  omega arith,
)

-- the records of two chains that meet are one chain
pub Chain-append :
    (from : ℕ) (ss : List Segment) (pss : List (List (List ℕ))) (mid : ℕ) (s : Segment)
    (ps : List (List ℕ))
    → Chain from ss pss mid
    → Keeps s mid ps
    → Chain from (ss ++ (s ∷ [])) (pss ++ (ps ∷ [])) (mid + length ps)
Chain-append from [] [] mid s ps h k =
    ((k.0 ∙ sym h, omega (arith, k.1, h), k.2, k.3, k.4), omega (arith, h))
Chain-append from [] (qs ∷ pss) mid s ps h k = ground (arith, h)
Chain-append from (r ∷ ss) [] mid s ps h k = ground (arith, h)
Chain-append from (r ∷ ss) (qs ∷ pss) mid s ps h k =
    (h.0, Chain-append (from + length qs) ss pss mid s ps h.1 k)

pub Chain-count :
    (from : ℕ) (ss : List Segment) (pss : List (List (List ℕ))) (to : ℕ)
    → Chain from ss pss to
    → to ≡ from + count pss
Chain-count from [] [] to h = omega (arith, h)
Chain-count from [] (qs ∷ pss) to h = ground (arith, h)
Chain-count from (r ∷ ss) [] to h = ground (arith, h)
Chain-count from (r ∷ ss) (qs ∷ pss) to h =
    omega (arith, Chain-count (from + length qs) ss pss to h.1)

frames-append : (ps : List (List ℕ)) (p : List ℕ) → frames (ps ++ (p ∷ [])) ≡ frames ps ++ frame p
unfolding frames
frames-append [] p = append-nil (frame p)
frames-append (q ∷ ps) p =
    ap (◌++◌ (frame q)) (frames-append ps p) ∙ sym (append_assoc (frame q) (frames ps) (frame p))

AllShort-append :
    (ps : List (List ℕ)) (p : List ℕ) → AllShort ps → length p < 2 ^ 32 → AllShort (ps ++ (p ∷ []))
AllShort-append [] p h short = (short, tt)
AllShort-append (q ∷ ps) p h short = (h.0, AllShort-append ps p h.1 short)

count-append :
    (pss : List (List (List ℕ))) (ps : List (List ℕ))
    → count (pss ++ (ps ∷ [])) ≡ count pss + length ps
count-append [] ps = omega arith
count-append (qs ∷ pss) ps = omega (arith, count-append pss ps)

sum_of-append :
    (f : Segment → ℕ) (ss : List Segment) (s : Segment)
    → sum_of f (ss ++ (s ∷ [])) ≡ sum_of f ss + f s
sum_of-append f [] s = omega arith
sum_of-append f (r ∷ ss) s = omega (arith, sum_of-append f ss s)

-- the segment after one more record
Keeps-frame :
    (s : Segment) (base : ℕ) (ps : List (List ℕ)) (p : List ℕ) (end : ℕ)
    → Keeps s base ps
    → length p < 2 ^ 32
    → end ≡ s.end_offset + 1
    → Keeps
        (record s {
          byte_len = s.byte_len + (4 + length p);
          end_offset = end;
          file = s.file ++ frame p;
        })
        base
        (ps ++ (p ∷ []))
Keeps-frame s base ps p end (starts, ends, len, bytes, short) h next = (
  starts,
  omega (arith, ends, next, length-append ps (p ∷ [])),
  omega (arith, len, length-append s.file (frame p), length-frame p),
  ap (λ xs. xs ++ frame p) bytes
      ∙ append_assoc header (frames ps) (frame p)
      ∙ ap (◌++◌ header) (sym (frames-append ps p)),
  AllShort-append ps p short h,
)

module _ {N : Type 0} where
  pub write_record-Represents :
      (t : Topic N) (first : ℕ) (pss : List (List (List ℕ))) (ps : List (List ℕ)) (p : List ℕ)
      → Represents t first pss ps
      → length p < 2 ^ 32
      → Represents (write_record t p) first pss (ps ++ (p ∷ []))
  unfolding write_record
  write_record-Represents t first pss ps p (chain, keeps, early, next, shared, records, bytes) h = (
    chain,
    Keeps-frame t.active t.active.base_offset ps p (t.stats.next_offset + 1) keeps h
        (omega (arith, next)),
    early,
    refl,
    refl,
    omega (arith, records, length-append ps (p ∷ [])),
    omega (arith, bytes),
  )

  pub push_segment-Represents :
      (t : Topic N) (first : ℕ) (pss : List (List (List ℕ))) (ps : List (List ℕ))
      → Represents t first pss ps
      → Represents (push_segment t) first (pss ++ (ps ∷ [])) []
  unfolding push_segment create_segment frames header to_le_bytes
  push_segment-Represents t first pss ps (chain, keeps, early, next, shared, records, bytes) = (
    subst (λ to. Chain first (t.older ++ (t.active ∷ [])) (pss ++ (ps ∷ [])) to)
        (omega (arith, keeps.1, next))
        (Chain-append first t.older pss t.active.base_offset t.active ps chain keeps),
    (refl, omega arith, refl, refl, tt),
    early,
    refl,
    omega (arith, next, shared),
    omega (arith, records, count-append pss ps),
    omega (arith, bytes, sum_of-append (λ s. s.byte_len) t.older t.active),
  )
