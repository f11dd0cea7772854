-- ===== src/Map/Merge/Total.antt =====
-- The merge loop over entries whose own merge never fails: it computes the join of the maps, reports
-- a change exactly when there is one, and is a semilattice.
use zendb.Prelude.{
  Bool, false, Option, none, some, [], ◌∷◌, Ord, ◌≡◌, ap, Result, ok, ◌↔◌, IsSemilattice,
  agree-IsSemilattice,
}
use zendb.Map.Defs.{Map, lookup}
use zendb.Map.Merge.{merge_entries}
use zendb.Map.Merge.Join.{join, OnSome, lookup-Each, Each, Valid}
use zendb.Map.Merge.Loop.{changes, Merges, Exact, merge_entries-join, changes-false_iff}
use zendb.Map.Merge.Convergence.{join-IsSemilattice}

module _ {ℓ κ μ ν} {K : Type ℓ} {V : Type κ} {E : Type μ} ⦃o : Ord K⦄ {P : K → V → Type ν}
    {j : V → V → V} (f : K → V → V → V × Result E Bool) (c : V → V → Bool)
    (total : (k : K) (a b : V) → P k a → P k b → f k a b ≡ (j a b, ok (c a b)))
    (exact : (k : K) (a b : V) → P k a → P k b → (c a b ≡ false) ↔ (j a b ≡ a))
    (s : (k : K) → IsSemilattice (P k) j) where
  all-Merges : (m rs : Map K V) → Each P m → Each P rs → Merges f j c m rs
  all-Merges m [] p q = tt
  all-Merges m ((k, r) ∷ rs) p q = (found (lookup k m) (lookup-Each P k m p), all-Merges m rs p q.1)
    where
      found : (a : Option V) → OnSome (P k) a → OnSome (λ l. f k l r ≡ (j l r, ok (c l r))) a
      found none h = tt
      found (some l) h = total k l r h q.0

  all-Exact : (m rs : Map K V) → Each P m → Each P rs → Exact j c m rs
  all-Exact m [] p q = tt
  all-Exact m ((k, r) ∷ rs) p q = (found (lookup k m) (lookup-Each P k m p), all-Exact m rs p q.1)
    where
      found : (a : Option V) → OnSome (P k) a → OnSome (λ l. (c l r ≡ false) ↔ (j l r ≡ l)) a
      found none h = tt
      found (some l) h = exact k l r h q.0

  pub loop-join :
      (m rs : Map K V)
      → Valid P m
      → Valid P rs
      → merge_entries f false m rs ≡ (join j m rs, ok (changes c m rs))
  loop-join m rs p q = merge_entries-join f j c false m rs q.0 (all-Merges m rs p.1 q.1)

  -- no round reports a change exactly when the join is the map itself
  pub changes_iff :
      (m rs : Map K V) → Valid P m → Valid P rs → (changes c m rs ≡ false) ↔ (join j m rs ≡ m)
  changes_iff m rs p q = changes-false_iff j c m rs p.0 q.0 (all-Exact m rs p.1 q.1)

  -- a change is reported exactly when the map changes
  pub loop-false_iff :
      (m rs : Map K V)
      → Valid P m
      → Valid P rs
      → ((merge_entries f false m rs).1 ≡ ok false) ↔ ((merge_entries f false m rs).0 ≡ m)
  loop-false_iff m rs p q =
      let both = changes_iff m rs p q in
      rw (loop-join m rs p q) (λ h. both.0 (cc h), λ h. ap ok (both.1 h))

  -- the states that replicas reach by merging do not depend on order, grouping or repetition
  pub loop-IsSemilattice : IsSemilattice (Valid {K = K} P) (λ a b. (merge_entries f false a b).0)
  loop-IsSemilattice =
      agree-IsSemilattice (join j) (λ a b. (merge_entries f false a b).0)
        (λ a b p q. ap (λ x. x.0) (loop-join a b p q)) (join-IsSemilattice s)
