-- ===== src/Table/Iteration.antt =====
-- The merged iteration over the state and the cache (zendb-storage/src/table/iter.rs) is the map in
-- which the cache's rows go before the state's.
use Prim.Native.Nat.Ordering.{lt, eq, gt}
use zendb.Prelude.{
  ℕ, zero, suc, ◌+◌, ◌≤◌, ◌≡◌, refl, ap, subst, arith, Option, none, some, [], ◌∷◌, ◌++◌, length,
  Ord, Option-cases, Bool-cases, false, ◌⊎◌, inl, inr, Ordering, if◌then◌else◌, ◌∙◌, sym,
}
use zendb.Map.{Map, lookup, contains_key, Above, IsSorted, Above-trans, lookup-Above, keys}
use zendb.Crdt.Sequence.Visited.{has, Distinct, keys-Distinct}
use zendb.Table.{
  ascending, choose, merged_next, collect, merged, filter_absent, Table, entries, get, StateKind,
  unordered, ordered, in_memory,
}

-- The first of two values that is there.
abbrev pub or_else {ℓ} : {A : Type ℓ} → Option A → Option A → Option A
or_else none b = b
or_else (some a) b = some a

pub Ordering-cases : (o : Ordering) → (o ≡ lt) ⊎ ((o ≡ eq) ⊎ (o ≡ gt))
Ordering-cases lt = inl refl
Ordering-cases eq = inr (inl refl)
Ordering-cases gt = inr (inr refl)

pub StateKind-cases : (s : StateKind) → (s ≡ in_memory) ⊎ ((s ≡ ordered) ⊎ (s ≡ unordered))
StateKind-cases in_memory = inl refl
StateKind-cases ordered = inr (inl refl)
StateKind-cases unordered = inr (inr refl)

module _ {K C : Type 0} ⦃k : Ord K⦄ where
  abbrev chosen : ℕ → K × C → Map K C → K × C → Map K C → Ordering → Map K C
  chosen n x s y c o =
      let (row, s', c') = choose o x s y c in
      let rest = collect n ascending s' c' in elim row [ none ↦ [] | some r ↦ r ∷ rest ]

  -- the row that the iterator gives where both sides have one
  pub collect-lt :
      (n : ℕ) (x : K × C) (s : Map K C) (y : K × C) (c : Map K C)
      → k.cmp x.0 y.0 ≡ lt
      → collect (suc n) ascending (x ∷ s) (y ∷ c) ≡ x ∷ collect n ascending s (y ∷ c)
  unfolding collect merged_next
  collect-lt n x s y c e = ap (chosen n x s y c) e

  pub collect-eq :
      (n : ℕ) (x : K × C) (s : Map K C) (y : K × C) (c : Map K C)
      → k.cmp x.0 y.0 ≡ eq
      → collect (suc n) ascending (x ∷ s) (y ∷ c) ≡ y ∷ collect n ascending s c
  unfolding collect merged_next
  collect-eq n x s y c e = ap (chosen n x s y c) e

  pub collect-gt :
      (n : ℕ) (x : K × C) (s : Map K C) (y : K × C) (c : Map K C)
      → k.cmp x.0 y.0 ≡ gt
      → collect (suc n) ascending (x ∷ s) (y ∷ c) ≡ y ∷ collect n ascending (x ∷ s) c
  unfolding collect merged_next
  collect-gt n x s y c e = ap (chosen n x s y c) e

  -- Rows above a key stay above it.
  collect-Above :
      (n : ℕ) (b : K) (s c : Map K C) → Above b s → Above b c → Above b (collect n ascending s c)
  unfolding collect merged_next
  collect-Above zero b s c h g = tt
  collect-Above (suc n) b [] [] h g = tt
  collect-Above (suc n) b (x ∷ s) [] h g = (h.0, collect-Above n b s [] h.1 tt)
  collect-Above (suc n) b [] (y ∷ c) h g = (g.0, collect-Above n b [] c tt g.1)
  collect-Above (suc n) b (x ∷ s) (y ∷ c) h g = elim (Ordering-cases (k.cmp x.0 y.0)) [
    | inl e ↦ rw (collect-lt n x s y c e) (h.0, collect-Above n b s (y ∷ c) h.1 g)
    | inr (inl e) ↦ rw (collect-eq n x s y c e) (g.0, collect-Above n b s c h.1 g.1)
    | inr (inr e) ↦ rw (collect-gt n x s y c e) (g.0, collect-Above n b (x ∷ s) c h g.1)
  ]

  collect-IsSorted :
      (n : ℕ) (s c : Map K C) → IsSorted s → IsSorted c → IsSorted (collect n ascending s c)
  unfolding collect merged_next
  collect-IsSorted zero s c h g = tt
  collect-IsSorted (suc n) [] [] h g = tt
  collect-IsSorted (suc n) (x ∷ s) [] h g =
      (collect-Above n x.0 s [] h.0 tt, collect-IsSorted n s [] h.1 tt)
  collect-IsSorted (suc n) [] (y ∷ c) h g =
      (collect-Above n y.0 [] c tt g.0, collect-IsSorted n [] c tt g.1)
  collect-IsSorted (suc n) (x ∷ s) (y ∷ c) h g = elim (Ordering-cases (k.cmp x.0 y.0)) [
    | inl e ↦ rw (collect-lt n x s y c e) (
      collect-Above n x.0 s (y ∷ c) h.0 (e, Above-trans x.0 y.0 c e g.0),
      collect-IsSorted n s (y ∷ c) h.1 g,
    )
    | inr (inl e) ↦ rw (collect-eq n x s y c e) (
      collect-Above n y.0 s c (subst (λ b. Above b s) ((k.cmp_iff x.0 y.0).0 e) h.0) g.0,
      collect-IsSorted n s c h.1 g.1,
    )
    | inr (inr e) ↦
        let flip : k.cmp y.0 x.0 ≡ lt = ground (arith, k.cmp_reverse x.0 y.0, e) in
        rw (collect-gt n x s y c e) (
          collect-Above n y.0 (x ∷ s) c (flip, Above-trans y.0 x.0 s flip h.0) g.0,
          collect-IsSorted n (x ∷ s) c h g.1,
        )
  ]

  -- The merged iteration over a state and a cache with ascending keys gives its rows in ascending
  -- order, each key once.
  pub merged-IsSorted : (s c : Map K C) → IsSorted s → IsSorted c → IsSorted (merged ascending s c)
  unfolding merged
  merged-IsSorted s c h g = collect-IsSorted (length s + length c) s c h g

  lookup-collect :
      (n : ℕ) (q : K) (s c : Map K C)
      → IsSorted s
      → IsSorted c
      → length s + length c ≤ n
      → lookup q (collect n ascending s c) ≡ or_else (lookup q c) (lookup q s)
  unfolding collect merged_next lookup
  lookup-collect zero q [] [] h g enough = refl
  lookup-collect zero q (x ∷ s) c h g enough = ground (arith, enough)
  lookup-collect zero q [] (y ∷ c) h g enough = ground (arith, enough)
  lookup-collect (suc n) q [] [] h g enough = refl
  lookup-collect (suc n) q (x ∷ s) [] h g enough =
      ground (arith, lookup-collect n q s [] h.1 tt (omega (arith, enough)))
  lookup-collect (suc n) q [] (y ∷ c) h g enough =
      ground (arith, lookup-collect n q [] c tt g.1 (omega (arith, enough)))
  lookup-collect (suc n) q (x ∷ s) (y ∷ c) h g enough = elim (Ordering-cases (k.cmp x.0 y.0)) [
    | inl e ↦
        ap (lookup q) (collect-lt n x s y c e)
        ∙ ground (
          arith,
          lookup-collect n q s (y ∷ c) h.1 g (omega (arith, enough)),
          lookup-Above x.0 (y ∷ c) (e, Above-trans x.0 y.0 c e g.0),
          k.cmp_iff q x.0,
        )
    | inr (inl e) ↦
        ap (lookup q) (collect-eq n x s y c e)
        ∙ ground (
          arith,
          lookup-collect n q s c h.1 g.1 (omega (arith, enough)),
          e,
          k.cmp_iff x.0 y.0,
          k.cmp_iff q x.0,
          k.cmp_iff q y.0,
        )
    | inr (inr e) ↦
        ap (lookup q) (collect-gt n x s y c e)
        ∙ ground (arith, lookup-collect n q (x ∷ s) c h g.1 (omega (arith, enough)))
  ]

  lookup-append : (q : K) (s c : Map K C) → lookup q (s ++ c) ≡ or_else (lookup q s) (lookup q c)
  unfolding lookup
  lookup-append q [] c = refl
  lookup-append q ((x, v) ∷ s) c = ground (arith, lookup-append q s c)

  lookup-filter_absent :
      (q : K) (c s : Map K C)
      → lookup q (filter_absent c s) ≡ (if contains_key q c then none else lookup q s)
  unfolding lookup filter_absent
  lookup-filter_absent q c [] = ground arith
  lookup-filter_absent q c ((x, v) ∷ s) = ground (arith, lookup-filter_absent q c s, k.cmp_iff q x)

  pub entries-cases :
      {N : Type 0} (t : Table N K C)
      → (entries t ≡ merged ascending t.state t.cache)
        ⊎ (entries t ≡ filter_absent t.cache t.state ++ t.cache)
  unfolding entries
  entries-cases t = elim (StateKind-cases t.kind) [
    | inl e ↦ inl (rw (e, entries) refl)
    | inr (inl e) ↦ inl (rw (e, entries) refl)
    | inr (inr e) ↦ inr (rw (e, entries) refl)
  ]

  pub get-or_else :
      {N : Type 0} (q : K) (t : Table N K C)
      → get q t ≡ or_else (lookup q t.cache) (lookup q t.state)
  unfolding get
  get-or_else q t = elim (Option-cases (lookup q t.cache)) [
    | inl e ↦ rw (e, get) refl
    | inr (c, e) ↦ rw (e, get) refl
  ]

  has-filter_absent :
      (q : K) (c s : Map K C)
      → has q (keys c) ≡ false
      → Above q s
      → has q (keys (filter_absent c s ++ c)) ≡ false
  unfolding has filter_absent
  has-filter_absent q c [] h a = h
  has-filter_absent q c ((x, v) ∷ s) h a = ground (arith, has-filter_absent q c s h a.1, a.0)

  has-contains_key : (q : K) (c : Map K C) → has q (keys c) ≡ contains_key q c
  unfolding has lookup
  has-contains_key q [] = ground arith
  has-contains_key q ((x, v) ∷ c) = ground (arith, has-contains_key q c)

  filter_absent-Distinct :
      (c s : Map K C) → IsSorted s → IsSorted c → Distinct (keys (filter_absent c s ++ c))
  unfolding filter_absent
  filter_absent-Distinct c [] h g = keys-Distinct c g
  filter_absent-Distinct c ((x, v) ∷ s) h g = elim (Bool-cases (contains_key x c)) [
    | inl e ↦ rw (e, filter_absent) (filter_absent-Distinct c s h.1 g)
    | inr e ↦
        rw (e, filter_absent)
          (has-filter_absent x c s (has-contains_key x c ∙ e) h.0, filter_absent-Distinct c s h.1 g)
  ]

  entries-Distinct :
      {N : Type 0} (t : Table N K C)
      → IsSorted t.state
      → IsSorted t.cache
      → Distinct (keys (entries t))
  entries-Distinct t h g = elim (entries-cases t) [
    | inl e ↦
        subst (λ rows. Distinct (keys rows)) (sym e)
          (keys-Distinct (merged ascending t.state t.cache) (merged-IsSorted t.state t.cache h g))
    | inr e ↦
        subst (λ rows. Distinct (keys rows)) (sym e) (filter_absent-Distinct t.cache t.state h g)
  ]

  lookup-entries :
      {N : Type 0} (t : Table N K C)
      → IsSorted t.state
      → IsSorted t.cache
      → (q : K) → lookup q (entries t) ≡ get q t
  unfolding merged
  lookup-entries t h g q = elim (entries-cases t) [
    | inl e ↦
        ap (lookup q) e
        ∙ lookup-collect (length t.state + length t.cache) q t.state t.cache h g (omega arith)
        ∙ sym (get-or_else q t)
    | inr e ↦
        ap (lookup q) e
        ∙ lookup-append q (filter_absent t.cache t.state) t.cache
        ∙ ground (arith, lookup-filter_absent q t.cache t.state)
        ∙ sym (get-or_else q t)
  ]

  -- The rows that a table iterates over, by any of the three variants of its state, are those that
  -- `get` finds: each key comes once, with the cache's row or else the state's. The state and the cache
  -- have ascending keys.
  pub entries-get :
      {N : Type 0} (t : Table N K C)
      → IsSorted t.state
      → IsSorted t.cache
      → Distinct (keys (entries t)) × ((q : K) → lookup q (entries t) ≡ get q t)
  entries-get t h g = (entries-Distinct t h g, λ q. lookup-entries t h g q)
