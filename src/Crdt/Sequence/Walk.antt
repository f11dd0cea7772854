-- ===== src/Crdt/Sequence/Walk.antt =====
-- The walk over lists and texts ends: more fuel than there are entries to visit is enough.
use zendb.Prelude.{
  ℕ, zero, suc, ◌<◌, ◌≤◌, Bool, true, false, none, some, List, [], ◌∷◌, Ord, ◌≡◌, refl, arith, ◌∙◌,
  Bool-cases, Option-cases, inl, inr,
}
use zendb.Map.{Map, lookup, insert, keys}
use zendb.Crdt.Sequence.{Children, siblings, seen, walk, push_visible}
use zendb.Crdt.Sequence.Visited.{
  has, unvisited, unvisited_mono, unvisited-insert, has-keys, seen-insert,
}
use zendb.Crdt.Sequence.Outcome.{
  State, Outcome, entered, Outcome-nil, Outcome-seen, Outcome-missing, Outcome-enter,
}

module _ {K X : Type 0} ⦃k : Ord K⦄ (live : K → X → Bool) (entries : Map K X)
    (children : Children K) where
  walk-seen :
      (n : ℕ) (id : K) (ids : List K) (st : State K)
      → seen id st.0 ≡ true
      → walk live entries children (suc n) (id ∷ ids) st ≡ walk live entries children (suc n) ids st
  unfolding walk
  walk-seen n id ids st s = rw (s, walk)

  walk-missing :
      (n : ℕ) (id : K) (ids : List K) (st : State K)
      → seen id st.0 ≡ false
      → lookup id entries ≡ none
      → walk live entries children (suc n) (id ∷ ids) st
        ≡ walk live entries children (suc n) ids (insert id tt st.0, st.1)
  unfolding walk
  walk-missing n id ids st s f = rw (s, f, walk)

  walk-enter :
      (n : ℕ) (id : K) (x : X) (ids : List K) (st mid : State K)
      → seen id st.0 ≡ false
      → lookup id entries ≡ some x
      → walk live entries children n
          (siblings (some id) children)
          (insert id tt st.0, push_visible live id x st.1)
        ≡ some mid
      → walk live entries children (suc n) (id ∷ ids) st
        ≡ walk live entries children (suc n) ids mid
  unfolding walk
  walk-enter n id x ids st mid s f e = rw (s, f, e, walk)

module _ {K X : Type 0} ⦃k : Ord K⦄ (entries : Map K X) where
  insert-le :
      (id : K) (a : Map K (Unit {0}))
      → unvisited (keys entries) (insert id tt a) ≤ unvisited (keys entries) a
  insert-le id a =
      unvisited_mono (keys entries) a (insert id tt a) (λ q h. ground (arith, seen-insert q id a))

module _ {K X : Type 0} ⦃k : Ord K⦄ (live : K → X → Bool) (entries : Map K X)
    (children : Children K) (R : K → Type 0)
    (step : (q c : K) → R q → has c (siblings (some q) children) ≡ true → R c) where
  abbrev pub Ends : ℕ → List K → State K → Type 0
  Ends n ids st =
      (r : State K) × (walk live entries children n ids st ≡ some r)
      × Outcome live entries children R step ids st r

  pub walk-Ends :
      (n : ℕ) (ids : List K) (st : State K) → unvisited (keys entries) st.0 < n → Ends n ids st
  unfolding walk
  walk-Ends zero ids st h = absurd (omega (arith, h))
  walk-Ends (suc n) [] st h = (st, refl, Outcome-nil live entries children R step st)
  walk-Ends (suc n) (id ∷ ids) st h = elim (Bool-cases (seen id st.0)) [
    | inl s ↦
        (let (r, e, o) = walk-Ends (suc n) ids st h in
          (
            r,
            walk-seen live entries children n id ids st s ∙ e,
            Outcome-seen live entries children R step id ids st r s o,
          ))
    | inr s ↦ elim (Option-cases (lookup id entries)) [
      | inl f ↦
          (let (r, e, o) =
              walk-Ends (suc n) ids (insert id tt st.0, st.1)
                (omega (arith, insert-le entries id st.0, h)) in
            (
              r,
              walk-missing live entries children n id ids st s f ∙ e,
              Outcome-missing live entries children R step id ids st r s f o,
            ))
      | inr (x, f) ↦
          (let (mid, e, o) =
              walk-Ends n (siblings (some id) children)
                (entered live entries children R step id x st)
                (omega (
                  arith,
                  unvisited-insert id (keys entries) st.0 (has-keys id entries x f) s,
                  h,
                )) in
            let (r, e', o') = walk-Ends (suc n) ids mid (
              omega (
                arith,
                unvisited_mono (keys entries) (insert id tt st.0) mid.0 o.grows,
                insert-le entries id st.0,
                h,
              )) in
            (
              r,
              walk-enter live entries children n id x ids st mid s f e ∙ e',
              Outcome-enter live entries children R step id x ids st mid r s f o o',
            ))
    ]
  ]
