-- ===== src/Crdt/Sequence/Outcome.antt =====
-- What a part of the walk over lists and texts achieves, and how the parts compose.
use zendb.Prelude.{
  Bool, true, false, ◌||◌, ◌&&◌, not, none, some, List, [], ◌∷◌, ◌++◌, if◌then◌else◌, Ord, eqb, ◌≡◌,
  arith, cmp_refl, Bool-cases, inl, inr, ◌⊎◌, subst, sym,
}
use zendb.Map.{Map, lookup, insert}
use zendb.Crdt.Sequence.{Children, siblings, seen, push_visible}
use zendb.Crdt.Sequence.Visited.{has, Distinct, seen-insert, has-snoc, snoc-Distinct}

abbrev pub State : Type 0 → Type 0
State K = Map K (Unit {0}) × List K

module _ {K X : Type 0} ⦃k : Ord K⦄ (live : K → X → Bool) (entries : Map K X) where
  -- The element has a visible entry.
  unfoldable pub is_visible : K → Bool
  is_visible q = elim (lookup q entries) [ none ↦ false | some x ↦ live q x ]

module _ {K X : Type 0} ⦃k : Ord K⦄ (live : K → X → Bool) (entries : Map K X)
    (children : Children K) (R : K → Type 0)
    (step : (q c : K) → R q → has c (siblings (some q) children) ≡ true → R c) where
  -- Everything inserted after the element is visited, if it has an entry.
  abbrev pub Below : State K → K → Type 0
  Below r q =
      (x : X)
      → lookup q entries ≡ some x
      → (c : K) → has c (siblings (some q) children) ≡ true
      → seen c r.0 ≡ true

  pub record Outcome (ids : List K) (st r : State K) : Type 0 where
    -- what was visited still is
    pub grows : (q : K) → seen q st.0 ≡ true → seen q r.0 ≡ true
    -- the siblings are visited
    pub covers : (q : K) → has q ids ≡ true → seen q r.0 ≡ true
    -- and what is below all that is new
    pub closes : (q : K) → seen q r.0 ≡ true → seen q st.0 ≡ false → Below r q
    -- the new visible elements are listed, and nothing else
    pub lists :
        (q : K)
        → has q r.1
          ≡ (has q st.1 || (seen q r.0 && (not (seen q st.0) && is_visible live entries q)))
    -- what is new has the property that the siblings have and that passes on to what is below
    pub reaches :
        ((q : K) → has q ids ≡ true → R q)
        → (q : K) → seen q r.0 ≡ true
        → (seen q st.0 ≡ true) ⊎ R q
    -- each once
    pub distinct : Distinct st.1 → ((q : K) → has q st.1 ≡ true → seen q st.0 ≡ true) → Distinct r.1

  pub Outcome-nil : (st : State K) → Outcome [] st st
  unfolding has
  Outcome-nil st = record {
    grows = λ q h. h;
    covers = λ q h. ground (arith, h);
    closes = λ q h n. absurd (ground (arith, h, n));
    lists = λ q. ground arith;
    reaches = λ h q g. inl g;
    distinct = λ d h. d;
  }

  pub Outcome-seen :
      (id : K) (ids : List K) (st r : State K)
      → seen id st.0 ≡ true
      → Outcome ids st r
      → Outcome (id ∷ ids) st r
  unfolding has
  Outcome-seen id ids st r s o = record {
    grows = o.grows;
    covers = λ q h. ground (arith, o.covers q, o.grows q, k.cmp_iff q id);
    closes = o.closes;
    lists = o.lists;
    reaches = λ h. o.reaches (λ q g. h q (ground (arith, g)));
    distinct = o.distinct;
  }

  reached_insert :
      (id : K) (st : State K) (q : K)
      → (Unit {0} → R id)
      → (seen q (insert id tt st.0) ≡ true) ⊎ R q
      → (seen q st.0 ≡ true) ⊎ R q
  reached_insert id st q h (inr r) = inr r
  reached_insert id st q h (inl s) = elim (Bool-cases (eqb q id)) [
    | inl same ↦ inr (subst R (sym ((k.cmp_iff q id).0 (ground (arith, same)))) (h tt))
    | inr other ↦ inl (ground (arith, seen-insert q id st.0, other, s))
  ]

  abbrev visit : K → State K → State K
  visit id st = (insert id tt st.0, st.1)

  pub Outcome-missing :
      (id : K) (ids : List K) (st r : State K)
      → seen id st.0 ≡ false
      → lookup id entries ≡ none
      → Outcome ids (visit id st) r
      → Outcome (id ∷ ids) st r
  unfolding has is_visible
  Outcome-missing id ids st r s e o = record {
    grows = λ q h. o.grows q (ground (arith, seen-insert q id st.0));
    covers = λ q h. ground (arith, o.covers q, o.grows q, seen-insert q id st.0);
    closes =
        λ q h n x f. o.closes q h (ground (arith, seen-insert q id st.0, k.cmp_iff q id, e, f)) x f;
    lists = λ q. ground (arith, o.lists q, seen-insert q id st.0, k.cmp_iff q id, o.grows q);
    reaches = λ h q g.
        reached_insert id st q (λ u. h id (ground (arith, cmp_refl id)))
          (o.reaches (λ c i. h c (ground (arith, i))) q g);
    distinct = λ d h. o.distinct d (λ q g. ground (arith, seen-insert q id st.0, h q g));
  }

  -- The state in which the walk enters a new element.
  abbrev pub entered : K → X → State K → State K
  entered id x st = (insert id tt st.0, push_visible live id x st.1)

  has-push_visible :
      (q id : K) (x : X) (st : State K)
      → lookup id entries ≡ some x
      → has q (push_visible live id x st.1)
        ≡ (has q st.1 || (eqb q id && is_visible live entries id))
  unfolding push_visible is_visible
  has-push_visible q id x st e = ground (arith, e, has-snoc q id st.1)

  module _ (id : K) (x : X) (ids : List K) (st mid r : State K) (new : seen id st.0 ≡ false)
      (e : lookup id entries ≡ some x)
      (o : Outcome (siblings (some id) children) (entered id x st) mid)
      (p : Outcome ids mid r) where
    enter-grows : (q : K) → seen q st.0 ≡ true → seen q mid.0 ≡ true
    enter-grows q h = o.grows q (ground (arith, seen-insert q id st.0))

    enter_self : seen id mid.0 ≡ true
    enter_self = o.grows id (ground (arith, seen-insert id id st.0, cmp_refl id))

    enter-mid : (q : K) → seen q mid.0 ≡ true → seen q st.0 ≡ false → Below r q
    enter-mid q h n y f c i = elim (Bool-cases (eqb q id)) [
      | inl same ↦ p.grows c (
          o.covers c (
            subst (λ z. has c (siblings (some z) children) ≡ true)
              ((k.cmp_iff q id).0 (ground (arith, same))) i))
      | inr other ↦
          p.grows c (o.closes q h (ground (arith, seen-insert q id st.0, other, n)) y f c i)
    ]

    enter-closes : (q : K) → seen q r.0 ≡ true → seen q st.0 ≡ false → Below r q
    enter-closes q h n = elim (Bool-cases (seen q mid.0)) [
      | inl s ↦ enter-mid q s n
      | inr s ↦ p.closes q h s
    ]

    enter-lists :
        (q : K)
        → has q r.1
          ≡ (has q st.1 || (seen q r.0 && (not (seen q st.0) && is_visible live entries q)))
    enter-lists q = ground (
      arith,
      p.lists q,
      o.lists q,
      has-push_visible q id x st e,
      seen-insert q id st.0,
      k.cmp_iff q id,
      o.grows q,
      p.grows q,
    )

    enter-Distinct :
        Distinct st.1 → ((q : K) → has q st.1 ≡ true → seen q st.0 ≡ true) → Distinct r.1
    unfolding push_visible
    enter-Distinct d h = p.distinct (o.distinct pushed within) inside
      where
        fresh : has id st.1 ≡ false
        fresh = ground (arith, h id)

        pushed : Distinct (push_visible live id x st.1)
        pushed = pushed_if (live id x)
          where
            pushed_if : (b : Bool) → Distinct (if b then st.1 ++ (id ∷ []) else st.1)
            pushed_if true = snoc-Distinct id st.1 fresh d
            pushed_if false = d

        within :
            (q : K) → has q (push_visible live id x st.1) ≡ true → seen q (insert id tt st.0) ≡ true
        within q g =
            ground (arith, has-push_visible q id x st e, seen-insert q id st.0, h q, k.cmp_iff q id)

        inside : (q : K) → has q mid.1 ≡ true → seen q mid.0 ≡ true
        inside q g = ground (arith, o.lists q, within q, o.grows q)

    enter-reaches :
        ((q : K) → has q (id ∷ ids) ≡ true → R q)
        → (q : K) → seen q r.0 ≡ true
        → (seen q st.0 ≡ true) ⊎ R q
    unfolding has
    enter-reaches h q g = elim (p.reaches (λ c i. h c (ground (arith, i))) q g) [
      | inr found ↦ inr found
      | inl s ↦ reached_insert id st q (λ u. self) (o.reaches (λ c i. step id c self i) q s)
    ]
      where
        self : R id
        self = h id (ground (arith, cmp_refl id))

    pub Outcome-enter : Outcome (id ∷ ids) st r
    unfolding has
    Outcome-enter = record {
      grows = λ q h. p.grows q (enter-grows q h);
      covers = λ q h. ground (arith, p.covers q, p.grows q, k.cmp_iff q id, enter_self);
      closes = enter-closes;
      lists = enter-lists;
      reaches = enter-reaches;
      distinct = enter-Distinct;
    }
