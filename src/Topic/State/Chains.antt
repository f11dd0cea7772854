-- ===== src/Topic/State/Chains.antt =====
-- Lemmas on the segments that compaction takes off: their records, their sums and their offsets.
use zendb.Prelude.{
  ℕ, zero, suc, ◌+◌, ◌≤◌, ◌≡◌, refl, sym, ap, subst, arith, some, List, [], ◌∷◌, ◌++◌, length, take,
  drop, leb, ltb, length-append, append-nil, append_assoc, drop-add, drop-length_append, Bool-cases,
  if◌then◌else◌, ◌∙◌, inl, inr, ◌⊎◌,
}
use mathlib.Core.Option.{some-injective}
use zendb.Map.{Map}
use zendb.Topic.State.{
  Segment, ConsumerState, record_count, sum_of, removable, first_base, least_committed,
  min_committed,
}
use zendb.Topic.State.Log.{Chain, count, concat}

-- Every consumer has committed at least this offset.
abbrev pub AllCommitted : {N : Type 0} → ℕ → Map N ConsumerState → Type 0
AllCommitted offset [] = Unit
AllCommitted offset ((n, c) ∷ cs) = (offset ≤ c.committed) × AllCommitted offset cs

pub AllCommitted-weaken :
    {N : Type 0} (a b : ℕ) (cs : Map N ConsumerState)
    → a ≤ b
    → AllCommitted b cs
    → AllCommitted a cs
AllCommitted-weaken a b [] h all = tt
AllCommitted-weaken a b ((n, c) ∷ cs) h all =
    (omega (arith, h, all.0), AllCommitted-weaken a b cs h all.1)

least_committed-AllCommitted :
    {N : Type 0} (least : ℕ) (cs : Map N ConsumerState)
    → (least_committed least cs ≤ least) × AllCommitted (least_committed least cs) cs
least_committed-AllCommitted least [] = (omega arith, tt)
least_committed-AllCommitted least ((n, c) ∷ cs) =
    let below = if ltb c.committed least then c.committed else least in
    let (bound, all) = least_committed-AllCommitted below cs in
    let (left, right) : (below ≤ least) × (below ≤ c.committed) = ground arith in
    (omega (arith, bound, left), (omega (arith, bound, right), all))

pub min_committed-AllCommitted :
    {N : Type 0} (cs : Map N ConsumerState) (m : ℕ) → min_committed cs ≡ some m → AllCommitted m cs
min_committed-AllCommitted [] m h = tt
min_committed-AllCommitted ((n, c) ∷ cs) m h =
    subst (λ m. AllCommitted m ((n, c) ∷ cs)) (some-injective _ _ h)
      (least_committed-AllCommitted c.committed cs)

pub count-take-drop :
    (n : ℕ) (pss : List (List (List ℕ))) → count (take n pss) + count (drop n pss) ≡ count pss
count-take-drop zero pss = omega arith
count-take-drop (suc n) [] = omega arith
count-take-drop (suc n) (ps ∷ pss) = omega (arith, count-take-drop n pss)

pub sum_of-take-drop :
    (f : Segment → ℕ) (n : ℕ) (ss : List Segment)
    → sum_of f (take n ss) + sum_of f (drop n ss) ≡ sum_of f ss
sum_of-take-drop f zero ss = omega arith
sum_of-take-drop f (suc n) [] = omega arith
sum_of-take-drop f (suc n) (s ∷ ss) = omega (arith, sum_of-take-drop f n ss)

pub Chain-drop :
    (n from : ℕ) (ss : List Segment) (pss : List (List (List ℕ))) (to : ℕ)
    → Chain from ss pss to
    → Chain (from + count (take n pss)) (drop n ss) (drop n pss) to
Chain-drop zero from ss pss to h = subst (λ from. Chain from ss pss to) (omega arith) h
Chain-drop (suc n) from [] [] to h = omega (arith, h)
Chain-drop (suc n) from [] (ps ∷ pss) to h = ground (arith, h)
Chain-drop (suc n) from (s ∷ ss) [] to h = ground (arith, h)
Chain-drop (suc n) from (s ∷ ss) (ps ∷ pss) to h =
    subst (λ from. Chain from (drop n ss) (drop n pss) to) (omega arith)
      (Chain-drop n (from + length ps) ss pss to h.1)

pub Chain-sum_of :
    (n from : ℕ) (ss : List Segment) (pss : List (List (List ℕ))) (to : ℕ)
    → Chain from ss pss to
    → sum_of record_count (take n ss) ≡ count (take n pss)
Chain-sum_of zero from ss pss to h = refl
Chain-sum_of (suc n) from [] [] to h = refl
Chain-sum_of (suc n) from [] (ps ∷ pss) to h = ground (arith, h)
Chain-sum_of (suc n) from (s ∷ ss) [] to h = ground (arith, h)
Chain-sum_of (suc n) from (s ∷ ss) (ps ∷ pss) to h =
    omega (arith, h.0.0, h.0.1, Chain-sum_of n (from + length ps) ss pss to h.1)

pub Chain-first_base :
    (from : ℕ) (ss : List Segment) (pss : List (List (List ℕ))) (active : Segment)
    → Chain from ss pss active.base_offset
    → first_base ss active ≡ from
Chain-first_base from [] [] active h = sym h
Chain-first_base from [] (ps ∷ pss) active h = ground (arith, h)
Chain-first_base from (s ∷ ss) [] active h = ground (arith, h)
Chain-first_base from (s ∷ ss) (ps ∷ pss) active h = h.0.0

-- the segments that are taken off end at or before `through`
pub Chain-removable :
    (through from : ℕ) (ss : List Segment) (pss : List (List (List ℕ))) (to : ℕ)
    → Chain from ss pss to
    → (removable through ss ≡ 0) ⊎ (from + count (take (removable through ss) pss) ≤ through)
unfolding removable
Chain-removable through from [] pss to h = inl refl
Chain-removable through from (s ∷ ss) [] to h = ground (arith, h)
Chain-removable through from (s ∷ ss) (ps ∷ pss) to h =
    elim (Bool-cases (leb s.end_offset through)) [
      | inr late ↦ inl (rw late refl)
      | inl done ↦ elim (Chain-removable through (from + length ps) ss pss to h.1) [
        | inl none_left ↦ inr (rw (done, none_left) (ground (arith, done, h.0.1)))
        | inr more ↦ inr (rw done (omega (arith, more)))
      ]
    ]

pub concat-drop :
    (n : ℕ) (pss : List (List (List ℕ))) (ps : List (List ℕ))
    → concat (drop n pss) ++ ps ≡ drop (count (take n pss)) (concat pss ++ ps)
concat-drop zero pss ps = refl
concat-drop (suc n) [] ps = refl
concat-drop (suc n) (qs ∷ pss) ps =
    concat-drop n pss ps
    ∙ ap (drop (count (take n pss))) (sym (drop-length_append qs (concat pss ++ ps)))
    ∙ sym (drop-add (length qs) (count (take n pss)) (qs ++ (concat pss ++ ps)))
    ∙ ap (drop (length qs + count (take n pss))) (sym (append_assoc qs (concat pss) ps))

pub length-concat : (pss : List (List (List ℕ))) → length (concat pss) ≡ count pss
length-concat [] = refl
length-concat (ps ∷ pss) = omega (arith, length-concat pss, length-append ps (concat pss))

pub concat-append :
    (pss : List (List (List ℕ))) (ps : List (List ℕ))
    → concat (pss ++ (ps ∷ [])) ++ [] ≡ concat pss ++ ps
concat-append [] ps = append-nil (ps ++ []) ∙ append-nil ps
concat-append (qs ∷ pss) ps =
    append_assoc qs (concat (pss ++ (ps ∷ []))) []
    ∙ ap (◌++◌ qs) (concat-append pss ps)
    ∙ sym (append_assoc qs (concat pss) ps)
