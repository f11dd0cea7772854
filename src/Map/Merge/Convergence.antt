-- ===== src/Map/Merge/Convergence.antt =====
-- The join of maps over a semilattice of values is a semilattice: the convergence of every CRDT value
-- whose merge is the loop over entries.
use zendb.Prelude.{Option, none, some, [], ◌∷◌, Ord, ◌≡◌, refl, ◌∙◌, sym, ap, IsSemilattice}
use zendb.Map.Defs.{Map, lookup}
use zendb.Map.Sorted.{lookup-ext}
use zendb.Map.Merge.Join.{
  combine, put, put_value, join, Each, lookup-join, join-IsSorted, Each-insert, OnSome, lookup-Each,
  Valid,
}

module _ {ℓ μ} {V : Type ℓ} {P : V → Type μ} {j : V → V → V} (s : IsSemilattice P j) where
  pub combine_comm : (a b : Option V) → OnSome P a → OnSome P b → combine j a b ≡ combine j b a
  combine_comm none none p q = refl
  combine_comm none (some b) p q = refl
  combine_comm (some a) none p q = refl
  combine_comm (some a) (some b) p q = ap some (s.comm a b p q)

  pub combine_assoc :
      (a b c : Option V)
      → OnSome P a
      → OnSome P b
      → OnSome P c
      → combine j (combine j a b) c ≡ combine j a (combine j b c)
  combine_assoc none b c p q r = refl
  combine_assoc (some a) none c p q r = refl
  combine_assoc (some a) (some b) none p q r = refl
  combine_assoc (some a) (some b) (some c) p q r = ap some (s.assoc a b c p q r)

  pub combine_idem : (a : Option V) → OnSome P a → combine j a a ≡ a
  combine_idem none p = refl
  combine_idem (some a) p = ap some (s.idem a p)

module _ {ℓ κ μ} {K : Type ℓ} {V : Type κ} ⦃o : Ord K⦄ {P : K → V → Type μ} {j : V → V → V}
    (s : (k : K) → IsSemilattice (P k) j) where
  put-Each : (k : K) (r : V) (m : Map K V) → P k r → Each P m → Each P (put j k r m)
  put-Each k r m p e = Each-insert P k _ m (merged (lookup k m) (lookup-Each P k m e)) e
    where
      merged : (a : Option V) → OnSome (P k) a → P k (put_value j r a)
      merged none q = p
      merged (some l) q = (s k).closed l r q p

  pub join-Each : (m rs : Map K V) → Each P m → Each P rs → Each P (join j m rs)
  unfolding join
  join-Each m [] e f = e
  join-Each m ((k, r) ∷ rs) e f = join-Each (put j k r m) rs (put-Each k r m f.0 e) f.1

  -- the join of maps is again a semilattice
  pub join-IsSemilattice : IsSemilattice (Valid {K = K} P) (join j)
  join-IsSemilattice = record {
    closed = λ a b p q. (join-IsSorted j a b p.0, join-Each a b p.1 q.1);
    comm = λ a b p q.
        lookup-ext (join j a b) (join j b a) (join-IsSorted j a b p.0) (join-IsSorted j b a q.0)
          (λ k.
            lookup-join j k a b q.0
            ∙ combine_comm (s k) (lookup k a) (lookup k b) (lookup-Each P k a p.1)
                (lookup-Each P k b q.1)
            ∙ sym (lookup-join j k b a p.0));
    assoc = λ a b c p q r.
        lookup-ext (join j (join j a b) c) (join j a (join j b c))
          (join-IsSorted j (join j a b) c (join-IsSorted j a b p.0))
          (join-IsSorted j a (join j b c) p.0)
          (λ k.
            simp (lookup-join, q.0, r.0, join-IsSorted)
              (combine_assoc (s k) (lookup k a) (lookup k b) (lookup k c) (lookup-Each P k a p.1)
                (lookup-Each P k b q.1) (lookup-Each P k c r.1)));
    idem = λ a p.
        lookup-ext (join j a a) a (join-IsSorted j a a p.0) p.0
          (λ k. lookup-join j k a a p.0 ∙ combine_idem (s k) (lookup k a) (lookup-Each P k a p.1));
  }
