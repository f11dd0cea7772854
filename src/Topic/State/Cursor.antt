-- ===== src/Topic/State/Cursor.antt =====
-- The cursor that a handle keeps between two calls of `next` (zendb-storage/src/topic.rs): behind a read it
-- is the one that `position` would find for the next offset.
use zendb.Prelude.{
  ℕ, zero, suc, ◌+◌, ◌-◌, ◌<◌, ◌≤◌, ◌≡◌, refl, sym, ap, subst, arith, true, false, Option, none,
  some, List, [], ◌∷◌, ◌++◌, length, leb, ltb, Bool-cases, Option-cases, ◌∙◌, inl, inr, get_elem?,
  append-nil, ok, if◌then◌else◌,
}
use mathlib.Core.Option.{some-injective}
use zendb.Map.{Map}
use zendb.Topic.Frame.{header_size, skip_records, read_record, read_u32}
use zendb.Topic.Frame.Codec.{read_record-frame}
use zendb.Topic.State.{Topic, Segment, ConsumerState}
use zendb.Topic.State.Reader.{SegmentCursor, find_offset, holds_offset, cursor_at, all_segments}
use zendb.Topic.State.Log.{Chain, Chain-append, Chain-count}
use zendb.Topic.State.Delivery.{Stands}
use zendb.Topic.State.Retention.{Log, Log-next_offset}

abbrev IsNext : ℕ → ℕ → ℕ → ℕ → List Segment → ℕ × Segment → Type 0
IsNext from to offset number ss (j, s) =
    (from ≤ offset)
    × (s.base_offset ≤ offset)
    × (s.end_offset ≤ to)
    × (ltb (offset + 1) s.end_offset ≡ true → find_offset (offset + 1) number ss ≡ some (j, s))

-- the next offset of a segment is found where this one is
find_offset-IsNext :
    (number from : ℕ) (ss : List Segment) (pss : List (List (List ℕ))) (to offset : ℕ)
    (q : ℕ × Segment)
    → Chain from ss pss to
    → find_offset offset number ss ≡ some q
    → IsNext from to offset number ss q
unfolding find_offset
find_offset-IsNext number from [] pss to offset q h e = ground (arith, e)
find_offset-IsNext number from (x ∷ ss) [] to offset q h e = ground (arith, h)
find_offset-IsNext number from (x ∷ ss) (ps ∷ pss) to offset q (keeps, h) e =
    elim (Bool-cases (holds_offset offset x)) [
      | inl here ↦
          let same : (number, x) ≡ q = some-injective _ _ (
            sym (ap (λ b. if b then some (number, x) else find_offset offset (suc number) ss) here)
            ∙ e) in
          let in_x : (x.base_offset ≤ offset) × (offset < x.end_offset) = ground (arith, here) in
          subst (λ q. IsNext from to offset number (x ∷ ss) q) same
            (
              omega (arith, in_x.0, keeps.0),
              in_x.0,
              omega (arith, keeps.1, Chain-count (from + length ps) ss pss to h),
              λ more.
                  let hit : holds_offset (offset + 1) x ≡ true = ground (arith, more, in_x.0) in
                  rw hit refl,
            )
      | inr there ↦
          let later = find_offset-IsNext (suc number) (from + length ps) ss pss to offset q h (
            sym (ap (λ b. if b then some (number, x) else find_offset offset (suc number) ss) there)
            ∙ e) in
          let miss : holds_offset (offset + 1) x ≡ false = ground (arith, later.0, keeps.1) in
          (omega (arith, later.0), later.1, later.2, λ more. rw miss (later.3 more))
    ]

skip_records-suc :
    (n : ℕ) (file : List ℕ) (at size : ℕ)
    → read_u32 file at ≡ some size
    → skip_records (suc n) file at ≡ skip_records n file (at + (4 + size))
unfolding skip_records
skip_records-suc n file at size e = rw (e, skip_records) refl

skip_records-size :
    (n : ℕ) (file : List ℕ) (at cursor : ℕ)
    → skip_records (suc n) file at ≡ some cursor
    → (size : ℕ) × (read_u32 file at ≡ some size)
unfolding skip_records
skip_records-size n file at cursor s = elim (Option-cases (read_u32 file at)) [
  | inl e ↦ absurd (ground (arith, s, e))
  | inr (size, e) ↦ (size, e)
]

read_record-size :
    (file : List ℕ) (at : ℕ) (p : List ℕ) (after : ℕ)
    → read_record file at ≡ some (p, after)
    → (size : ℕ) × (read_u32 file at ≡ some size) × (at + (4 + size) ≡ after)
unfolding read_record
read_record-size file at p after r = elim (Option-cases (read_u32 file at)) [
  | inl e ↦ absurd (ground (arith, r, e))
  | inr (size, e) ↦ (size, e, ground (arith, r, e))
]

skip_records-next :
    (n : ℕ) (file : List ℕ) (at cursor : ℕ) (p : List ℕ) (after : ℕ)
    → skip_records n file at ≡ some cursor
    → read_record file cursor ≡ some (p, after)
    → skip_records (suc n) file at ≡ some after
unfolding skip_records
skip_records-next zero file at cursor p after s r =
    let (size, e, ends) = read_record-size file cursor p after r in
    let here : at ≡ cursor = some-injective _ _ s in
    skip_records-suc 0 file at size (ap (read_u32 file) here ∙ e)
    ∙ ap some (ap (λ a. a + (4 + size)) here ∙ ends)
skip_records-next (suc n) file at cursor p after s r =
    let (size, e) = skip_records-size n file at cursor s in
    skip_records-suc (suc n) file at size e
    ∙ skip_records-next n file (at + (4 + size)) cursor p after
        (sym (skip_records-suc n file at size e) ∙ s) r

-- The cursor that a handle keeps is the one of its offset, unless its segment is at its end.
abbrev pub Cached : {N : Type 0} → Topic N → ℕ → Option SegmentCursor → Type 0
Cached t offset none = Unit
Cached t offset (some k) =
    (s : Segment) × (get_elem? (all_segments t) k.segment ≡ some s)
    × (k.logical_offset ≡ offset)
    × (ltb offset s.end_offset ≡ true → cursor_at t offset ≡ ok (some k))

-- one record behind a cursor, the cursor of the next offset
pub Cached-next :
    {N : Type 0} (t : Topic N) (first : ℕ) (log : List (List ℕ)) (k : SegmentCursor) (offset : ℕ)
    (p : List ℕ)
    → Log t first log
    → Stands t k offset p
    → Cached t (offset + 1) (
        some (record k {
          byte_offset = k.byte_offset + 4 + length p;
          logical_offset = k.logical_offset + 1;
        }))
unfolding cursor_at
Cached-next t first log k offset p (pss, ps, holds, is_log)
      (s, rest, at, here, holds_p, short, found, skipped) =
    let (before, inside, ends, goes_on) =
      find_offset-IsNext (length t.removed) first (t.older ++ (t.active ∷ [])) (pss ++ (ps ∷ []))
        (t.active.base_offset + length ps) offset (k.segment, s)
        (Chain-append first t.older pss t.active.base_offset t.active ps holds.0 holds.1) found in
    let skips =
      skip_records-next (offset - s.base_offset) s.file header_size k.byte_offset p
        (k.byte_offset + 4 + length p) skipped
        (read_record-frame s.file k.byte_offset p rest holds_p short) in
    let count_on : suc (offset - s.base_offset) ≡ offset + 1 - s.base_offset =
      omega (arith, inside) in
    (
      s,
      at,
      omega (arith, here),
      λ more.
          let short_of : leb t.next_offset (offset + 1) ≡ false =
            ground (arith, more, ends, holds.1.1, holds.4) in
          let skips' = sym (ap (λ n. skip_records n s.file header_size) count_on) ∙ skips in
          rw (short_of, cursor_at, goes_on more, skips')
            (ap (λ n. ok (some (cursor_of (n + 1)))) (sym here)),
    )
  where
    cursor_of : ℕ → SegmentCursor
    cursor_of n = record k { byte_offset = k.byte_offset + 4 + length p; logical_offset = n }

pub cursor_at-tail :
    {N : Type 0} (t : Topic N) (offset : ℕ)
    → leb t.next_offset offset ≡ true
    → cursor_at t offset ≡ ok none
unfolding cursor_at
cursor_at-tail t offset h = rw (h, cursor_at) refl

-- what a consumer's store leaves alone
pub Cached-consumers :
    {N : Type 0} (t : Topic N) (offset : ℕ) (current : Option SegmentCursor)
    (m : Map N ConsumerState)
    → Cached t offset current
    → Cached (record t { consumers = m }) offset current
unfolding cursor_at
Cached-consumers t offset none m h = tt
Cached-consumers t offset (some k) m h = h

pub next_offset-Log :
    {N : Type 0} (t : Topic N) (first : ℕ) (log : List (List ℕ))
    → Log t first (log ++ [])
    → t.next_offset ≡ first + length log
next_offset-Log t first log (pss, ps, holds, is_log) = omega (
  arith,
  Log-next_offset t first (log ++ []) (pss, ps, holds, is_log),
  holds.3,
  holds.4,
  ap length (append-nil log),
)
