-- ===== src/Map/Sorted.antt =====
-- Lookup after an update, preservation of the order, and extensionality of ordered maps.
use Prim.Native.Nat.Ordering.{lt}
use zendb.Prelude.{none, some, [], ◌∷◌, if◌then◌else◌, Ord, eqb, ◌≡◌, refl, cmp_refl, arith}
use zendb.Map.Defs.{Map, lookup, insert, remove, Above, IsSorted}

module _ {ℓ κ} {K : Type ℓ} {V : Type κ} ⦃o : Ord K⦄ where
  pub lookup-insert :
      (q p : K) (w : V) (m : Map K V)
      → lookup p (insert q w m) ≡ (if eqb p q then some w else lookup p m)
  unfolding lookup insert
  lookup-insert q p w [] = refl
  lookup-insert q p w ((k, v) ∷ m) =
      ground (arith, lookup-insert q p w m, o.cmp_iff q k, o.cmp_iff p q, o.cmp_iff p k)

  pub lookup-insert_self : (q : K) (w : V) (m : Map K V) → lookup q (insert q w m) ≡ some w
  lookup-insert_self q w m = ground (arith, lookup-insert q q w m, cmp_refl q)

  pub Above-trans : (a b : K) (m : Map K V) → o.cmp a b ≡ lt → Above b m → Above a m
  Above-trans a b [] h s = tt
  Above-trans a b ((k, v) ∷ m) h s = (o.cmp_trans a b k h s.0, Above-trans a b m h s.1)

  pub lookup-Above : (a : K) (m : Map K V) → Above a m → lookup a m ≡ none
  unfolding lookup
  lookup-Above a [] s = refl
  lookup-Above a ((k, v) ∷ m) s = ground (arith, lookup-Above a m)

  pub Above-insert :
      (a q : K) (w : V) (m : Map K V) → o.cmp a q ≡ lt → Above a m → Above a (insert q w m)
  unfolding insert
  Above-insert a q w [] h s = (h, tt)
  Above-insert a q w ((k, v) ∷ m) h s = ground (arith, Above-insert a q w m)

  pub insert-IsSorted : (q : K) (w : V) (m : Map K V) → IsSorted m → IsSorted (insert q w m)
  unfolding insert
  insert-IsSorted q w [] s = (tt, tt)
  insert-IsSorted q w ((k, v) ∷ m) s = ground (
    arith,
    insert-IsSorted q w m,
    Above-insert k q w m,
    Above-trans q k m,
    o.cmp_iff q k,
    o.cmp_reverse q k,
  )

  Above-remove : (a q : K) (m : Map K V) → Above a m → Above a (remove q m)
  unfolding remove
  Above-remove a q [] s = tt
  Above-remove a q ((k, v) ∷ m) s = ground (arith, Above-remove a q m)

  pub remove-IsSorted : (q : K) (m : Map K V) → IsSorted m → IsSorted (remove q m)
  unfolding remove
  remove-IsSorted q [] s = tt
  remove-IsSorted q ((k, v) ∷ m) s = ground (arith, remove-IsSorted q m, Above-remove k q m)

  pub lookup-remove :
      (q p : K) (m : Map K V)
      → IsSorted m
      → lookup p (remove q m) ≡ (if eqb p q then none else lookup p m)
  unfolding lookup remove
  lookup-remove q p [] s = ground arith
  lookup-remove q p ((k, v) ∷ m) s =
      ground
        (arith, lookup-remove q p m, lookup-Above k m, o.cmp_iff q k, o.cmp_iff p q, o.cmp_iff p k)

  -- the head of a sorted map is found, and nothing below it is
  lookup-below :
      (q k : K) (v : V) (m : Map K V) → o.cmp q k ≡ lt → Above k m → lookup q ((k, v) ∷ m) ≡ none
  unfolding lookup
  lookup-below q k v m h s = ground (arith, lookup-Above q m, Above-trans q k m)

  tails-lookup :
      (k j : K) (v w : V) (m n : Map K V) (q : K)
      → Above k m
      → Above j n
      → k ≡ j
      → lookup q ((k, v) ∷ m) ≡ lookup q ((j, w) ∷ n)
      → lookup q m ≡ lookup q n
  unfolding lookup
  tails-lookup k j v w m n q s t e h =
      ground (arith, o.cmp_iff q k, o.cmp_iff q j, lookup-Above k m, lookup-Above j n)

  pub lookup-head : (k : K) (v : V) (m : Map K V) → lookup k ((k, v) ∷ m) ≡ some v
  unfolding lookup
  lookup-head k v m = ground (arith, cmp_refl k)

  heads-cmp :
      (k j : K) (v w : V) (m n : Map K V)
      → Above k m
      → Above j n
      → lookup k ((k, v) ∷ m) ≡ lookup k ((j, w) ∷ n)
      → lookup j ((k, v) ∷ m) ≡ lookup j ((j, w) ∷ n)
      → (k ≡ j) × (v ≡ w)
  heads-cmp k j v w m n s t h h' = ground (
    arith,
    lookup-head k v m,
    lookup-head j w n,
    lookup-below k j w n,
    lookup-below j k v m,
    o.cmp_iff k j,
    o.cmp_reverse k j,
    lookup-head j v m,
  )

  -- two sorted maps that read alike are equal
  pub lookup-ext :
      (m n : Map K V) → IsSorted m → IsSorted n → ((q : K) → lookup q m ≡ lookup q n) → m ≡ n
  unfolding lookup
  lookup-ext [] [] s t h = refl
  lookup-ext [] ((j, w) ∷ n) s t h = ground (arith, h j, lookup-head j w n)
  lookup-ext ((k, v) ∷ m) [] s t h = ground (arith, h k, lookup-head k v m)
  lookup-ext ((k, v) ∷ m) ((j, w) ∷ n) s t h =
      let heads = heads-cmp k j v w m n s.0 t.0 (h k) (h j) in
      let tails = lookup-ext m n s.1 t.1 (λ q. tails-lookup k j v w m n q s.0 t.0 heads.0 (h q)) in
      λ i. (heads.0 i, heads.1 i) ∷ tails i

module _ {ℓ κ} {K : Type ℓ} {V : Type κ} ⦃o : Ord K⦄ where
  -- writing back what is there changes nothing
  pub insert_same :
      (q : K) (w : V) (m : Map K V) → IsSorted m → lookup q m ≡ some w → insert q w m ≡ m
  insert_same q w m s h =
      lookup-ext (insert q w m) m (insert-IsSorted q w m s) s
        (λ p. ground (arith, lookup-insert q p w m, o.cmp_iff p q))
