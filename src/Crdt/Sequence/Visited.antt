-- ===== src/Crdt/Sequence/Visited.antt =====
-- The set of visited elements in the walk over lists and texts, and the number of entries that are left
-- to visit.
use zendb.Prelude.{
  ℕ, ◌+◌, ◌≤◌, ◌<◌, Bool, true, false, ◌||◌, some, List, [], ◌∷◌, ◌++◌, if◌then◌else◌, Ord, eqb,
  ◌≡◌, refl, arith, length,
}
use zendb.Map.{Map, lookup, insert, keys, lookup-insert, Above, IsSorted}
use zendb.Crdt.Sequence.{seen}

module _ {K : Type 0} ⦃k : Ord K⦄ where
  -- `contains`.
  unfoldable pub has : K → List K → Bool
  has q [] = false
  has q (id ∷ ids) = eqb q id || has q ids

  -- No element occurs twice.
  abbrev pub Distinct : List K → Type 0
  Distinct [] = Unit
  Distinct (id ∷ ids) = (has id ids ≡ false) × Distinct ids

  pub has-append : (q : K) (xs ys : List K) → has q (xs ++ ys) ≡ (has q xs || has q ys)
  unfolding has
  has-append q [] ys = refl
  has-append q (x ∷ xs) ys = ground (arith, has-append q xs ys)

  pub has-snoc : (q id : K) (xs : List K) → has q (xs ++ (id ∷ [])) ≡ (eqb q id || has q xs)
  unfolding has
  has-snoc q id xs = ground (arith, has-append q xs (id ∷ []))

  pub snoc-Distinct :
      (id : K) (xs : List K) → has id xs ≡ false → Distinct xs → Distinct (xs ++ (id ∷ []))
  unfolding has
  snoc-Distinct id [] h d = (refl, tt)
  snoc-Distinct id (x ∷ xs) h d = (
    ground (arith, has-snoc x id xs, k.cmp_iff x id, k.cmp_iff id x, d.0, h),
    snoc-Distinct id xs (ground (arith, h)) d.1,
  )

  pub seen-insert :
      (q id : K) (visited : Map K (Unit {0}))
      → seen q (insert id tt visited) ≡ (eqb q id || seen q visited)
  unfolding seen
  seen-insert q id visited = ground (arith, lookup-insert id q tt visited)

  -- How many of the elements are not visited yet.
  unfoldable pub unvisited : List K → Map K (Unit {0}) → ℕ
  unvisited [] visited = 0
  unvisited (id ∷ ids) visited = (if seen id visited then 0 else 1) + unvisited ids visited

  pub unvisited_mono :
      (ids : List K) (a b : Map K (Unit {0}))
      → ((q : K) → seen q a ≡ true → seen q b ≡ true)
      → unvisited ids b ≤ unvisited ids a
  unfolding unvisited
  unvisited_mono [] a b h = omega arith
  unvisited_mono (id ∷ ids) a b h = ground (arith, unvisited_mono ids a b h, h id)

  insert-grows :
      (id : K) (a : Map K (Unit {0})) (q : K) → seen q a ≡ true → seen q (insert id tt a) ≡ true
  insert-grows id a q h = ground (arith, seen-insert q id a)

  pub unvisited-insert :
      (id : K) (ids : List K) (a : Map K (Unit {0}))
      → has id ids ≡ true
      → seen id a ≡ false
      → unvisited ids (insert id tt a) < unvisited ids a
  unfolding unvisited has
  unvisited-insert id [] a h n = ground (arith, h)
  unvisited-insert id (x ∷ ids) a h n = ground (
    arith,
    unvisited-insert id ids a,
    unvisited_mono ids a (insert id tt a) (insert-grows id a),
    seen-insert x id a,
    k.cmp_iff id x,
    k.cmp_iff x id,
  )

  pub unvisited-length : (ids : List K) (a : Map K (Unit {0})) → unvisited ids a ≤ length ids
  unfolding unvisited
  unvisited-length [] a = omega arith
  unvisited-length (id ∷ ids) a = ground (arith, unvisited-length ids a)

module _ {K X : Type 0} ⦃k : Ord K⦄ where
  pub has-keys :
      (q : K) (entries : Map K X) (x : X) → lookup q entries ≡ some x → has q (keys entries) ≡ true
  unfolding lookup has
  has-keys q [] x h = ground (arith, h)
  has-keys q ((id, y) ∷ entries) x h = ground (arith, has-keys q entries x)

  pub length-keys : (entries : Map K X) → length (keys entries) ≡ length entries
  length-keys [] = refl
  length-keys ((id, y) ∷ entries) = omega (arith, length-keys entries)

module _ {K V : Type 0} ⦃k : Ord K⦄ where
  has-Above : (q : K) (m : Map K V) → Above q m → has q (keys m) ≡ false
  unfolding has
  has-Above q [] a = refl
  has-Above q ((key, v) ∷ m) a = ground (arith, has-Above q m a.1, a.0)

  -- the keys of a map
  pub keys-Distinct : (m : Map K V) → IsSorted m → Distinct (keys m)
  keys-Distinct [] s = tt
  keys-Distinct ((key, v) ∷ m) s = (has-Above key m s.0, keys-Distinct m s.1)
