-- ===== src/Map/Merge/Join.antt =====
-- The join of two ordered maps, key by key: the specification of the merge loop.
use zendb.Prelude.{Option, none, some, [], ◌∷◌, Ord, eqb, ◌≡◌, arith, if◌then◌else◌, Any, Any}
use zendb.Map.Defs.{Map, lookup, insert, IsSorted}
use zendb.Map.Sorted.{lookup-insert, lookup-Above, insert-IsSorted}

module _ {ℓ} {V : Type ℓ} where
  -- What a key holds in the join.
  abbrev pub combine : (V → V → V) → Option V → Option V → Option V
  combine j none b = b
  combine j (some a) none = some a
  combine j (some a) (some b) = some (j a b)

  -- The same, where the second map has the key.
  abbrev pub put_value : (V → V → V) → V → Option V → V
  put_value j r none = r
  put_value j r (some l) = j l r

module _ {ℓ κ} {K : Type ℓ} {V : Type κ} where
  -- Every entry of the map satisfies `P`.
  abbrev pub Each {μ} : (K → V → Type μ) → Map K V → Type μ
  Each P [] = Unit
  Each P ((k, v) ∷ m) = P k v × Each P m

module _ {ℓ κ} {K : Type ℓ} {V : Type κ} ⦃o : Ord K⦄ where
  abbrev pub put : (V → V → V) → K → V → Map K V → Map K V
  put j k r m = insert k (put_value j r (lookup k m)) m

  unfoldable pub join : (V → V → V) → Map K V → Map K V → Map K V
  join j m [] = m
  join j m ((k, r) ∷ rs) = join j (put j k r m) rs

  lookup-put :
      (j : V → V → V) (k q : K) (r : V) (m : Map K V)
      → lookup q (put j k r m) ≡ (if eqb q k then combine j (lookup k m) (some r) else lookup q m)
  lookup-put j k q r m = ground (arith, lookup-insert k q (put_value j r (lookup k m)) m)

  pub lookup-join :
      (j : V → V → V) (q : K) (m rs : Map K V)
      → IsSorted rs
      → lookup q (join j m rs) ≡ combine j (lookup q m) (lookup q rs)
  unfolding join lookup
  lookup-join j q m [] s = ground arith
  lookup-join j q m ((k, r) ∷ rs) s = ground (
    arith,
    lookup-join j q (put j k r m) rs,
    lookup-put j k q r m,
    lookup-Above k rs,
    o.cmp_iff q k,
  )

  pub join-IsSorted : (j : V → V → V) (m rs : Map K V) → IsSorted m → IsSorted (join j m rs)
  unfolding join
  join-IsSorted j m [] s = s
  join-IsSorted j m ((k, r) ∷ rs) s = join-IsSorted j (put j k r m) rs (insert-IsSorted k _ m s)

  pub Each-insert {μ} :
      (P : K → V → Type μ) (k : K) (v : V) (m : Map K V) → P k v → Each P m → Each P (insert k v m)
  unfolding insert
  Each-insert P k v [] p e = (p, tt)
  Each-insert P k v ((q, w) ∷ m) p e = ground (arith, Each-insert P k v m, o.cmp_iff k q)

module _ {ℓ μ} {V : Type ℓ} (P : V → Type μ) where
  -- `P` holds of the value, if there is one
  abbrev pub OnSome : Option V → Type μ
  OnSome none = Unit
  OnSome (some v) = P v

module _ {ℓ κ μ} {K : Type ℓ} {V : Type κ} ⦃o : Ord K⦄ (P : K → V → Type μ) where
  pub lookup-Each : (q : K) (m : Map K V) → Each P m → OnSome (P q) (lookup q m)
  unfolding lookup
  lookup-Each q [] e = tt
  lookup-Each q ((k, v) ∷ m) e = ground (arith, lookup-Each q m, o.cmp_iff q k)

  -- The sorted maps whose entries satisfy `P`.
  abbrev pub Valid : Map K V → Type μ
  Valid m = IsSorted m × Each P m

module _ {ℓ κ} {K : Type ℓ} {V : Type κ} where
  pub Each-any : (m : Map K V) → Each (λ k. Any) m
  Each-any [] = tt
  Each-any ((k, v) ∷ m) = (tt, Each-any m)
