-- ===== src/Map/Merge/Loop.antt =====
-- The merge loop computes the join of the maps, and reports a change exactly when there is one.
use Prim.Native.Nat.Ordering.{lt}
use zendb.Prelude.{
  Bool, true, false, ◌||◌, Option, none, some, [], ◌∷◌, Ord, ◌≡◌, refl, ◌∙◌, sym, ap, arith, Result,
  ok, ◌↔◌,
}
use zendb.Map.Defs.{Map, lookup, insert, Above, IsSorted}
use zendb.Map.Sorted.{lookup-insert, lookup-Above, lookup-head, lookup-ext}
use zendb.Map.Merge.{merge_entry, merge_entries}
use zendb.Map.Merge.Join.{combine, put, put_value, join, lookup-join, join-IsSorted, OnSome}

module _ {κ} {V : Type κ} where
  -- A new key is a change, and `c` says whether an entry changes.
  abbrev pub round_changes : (V → V → Bool) → Option V → V → Bool
  round_changes c none r = true
  round_changes c (some l) r = c l r

module _ {ℓ κ} {K : Type ℓ} {V : Type κ} ⦃o : Ord K⦄ where
  -- Whether a round of the loop reports a change: a new key, or a change of the entry.
  unfoldable pub changes : (V → V → Bool) → Map K V → Map K V → Bool
  changes c m [] = false
  changes c m ((k, r) ∷ rs) = round_changes c (lookup k m) r || changes c m rs

  lookup-put_above :
      (k q : K) (w : V) (m : Map K V) → o.cmp k q ≡ lt → lookup q (insert k w m) ≡ lookup q m
  lookup-put_above k q w m h = ground (arith, lookup-insert k q w m, o.cmp_reverse k q)

  pub changes-insert :
      (c : V → V → Bool) (k : K) (w : V) (m rs : Map K V)
      → Above k rs
      → changes c (insert k w m) rs ≡ changes c m rs
  unfolding changes
  changes-insert c k w m [] s = refl
  changes-insert c k w m ((q, r) ∷ rs) s =
      rw (lookup-put_above k q w m s.0, changes-insert c k w m rs s.1)

module _ {ℓ κ μ} {K : Type ℓ} {V : Type κ} {E : Type μ} ⦃o : Ord K⦄ where
  -- The entries that both maps have merge to `j` without an error, and report `c`.
  abbrev pub Merges :
      (K → V → V → V × Result E Bool)
      → (V → V → V)
      → (V → V → Bool)
      → Map K V
      → Map K V
      → Type (κ ⊔ μ)
  Merges f j c m [] = Unit
  Merges f j c m ((k, r) ∷ rs) =
      OnSome (λ l. f k l r ≡ (j l r, ok (c l r))) (lookup k m) × Merges f j c m rs

  Merges-insert :
      (f : K → V → V → V × Result E Bool) (j : V → V → V) (c : V → V → Bool) (k : K) (w : V)
      (m rs : Map K V)
      → Above k rs
      → Merges f j c m rs
      → Merges f j c (insert k w m) rs
  Merges-insert f j c k w m [] s h = tt
  Merges-insert f j c k w m ((q, r) ∷ rs) s h =
      (rw (lookup-put_above k q w m s.0) h.0, Merges-insert f j c k w m rs s.1 h.1)

  merge_entry-put :
      (f : K → V → V → V × Result E Bool) (j : V → V → V) (c : V → V → Bool) (k : K) (r : V)
      (m : Map K V)
      → OnSome (λ l. f k l r ≡ (j l r, ok (c l r))) (lookup k m)
      → merge_entry f k r m ≡ (put j k r m, ok (round_changes c (lookup k m) r))
  unfolding merge_entry
  merge_entry-put f j c k r m h = ground arith

  -- the loop ends without an error in the join, and reports whether a round changed something
  pub merge_entries-join :
      (f : K → V → V → V × Result E Bool) (j : V → V → V) (c : V → V → Bool) (changed : Bool)
      (m rs : Map K V)
      → IsSorted rs
      → Merges f j c m rs
      → merge_entries f changed m rs ≡ (join j m rs, ok (changed || changes c m rs))
  unfolding merge_entries join changes
  merge_entries-join f j c changed m [] s h = ground arith
  merge_entries-join f j c changed m ((k, r) ∷ rs) s h =
      let now = round_changes c (lookup k m) r in
      rw (merge_entry-put f j c k r m h.0, merge_entries)
        (merge_entries-join f j c (changed || now) (put j k r m) rs s.1
            (Merges-insert f j c k _ m rs s.0 h.1)
          ∙ ground (arith, changes-insert c k (put_value j r (lookup k m)) m rs s.0))

module _ {ℓ κ} {K : Type ℓ} {V : Type κ} ⦃o : Ord K⦄ where
  -- The report `c` of an entry's merge is exact on the entries that both maps have.
  abbrev pub Exact : (V → V → V) → (V → V → Bool) → Map K V → Map K V → Type κ
  Exact j c m [] = Unit
  Exact j c m ((k, r) ∷ rs) =
      OnSome (λ l. (c l r ≡ false) ↔ (j l r ≡ l)) (lookup k m) × Exact j c m rs

  -- A key of the second map reads in the join as in the first.
  Same : (V → V → V) → Map K V → Map K V → Type κ
  Same j m [] = Unit
  Same j m ((k, r) ∷ rs) = (combine j (lookup k m) (some r) ≡ lookup k m) × Same j m rs

  changes-Same :
      (j : V → V → V) (c : V → V → Bool) (m rs : Map K V)
      → Exact j c m rs
      → changes c m rs ≡ false
      → Same j m rs
  unfolding changes Same
  changes-Same j c m [] e h = tt
  changes-Same j c m ((k, r) ∷ rs) e h = ground (arith, changes-Same j c m rs e.1)

  Same-changes :
      (j : V → V → V) (c : V → V → Bool) (m rs : Map K V)
      → Exact j c m rs
      → Same j m rs
      → changes c m rs ≡ false
  unfolding changes Same
  Same-changes j c m [] e h = refl
  Same-changes j c m ((k, r) ∷ rs) e h = ground (arith, Same-changes j c m rs e.1)

  combine-Same :
      (j : V → V → V) (q : K) (m rs : Map K V)
      → Same j m rs
      → combine j (lookup q m) (lookup q rs) ≡ lookup q m
  unfolding Same lookup
  combine-Same j q m [] h = ground arith
  combine-Same j q m ((k, r) ∷ rs) h = ground (arith, combine-Same j q m rs h.1, o.cmp_iff q k)

  combine-rest :
      (j : V → V → V) (q k : K) (r : V) (m rs : Map K V)
      → Above k rs
      → combine j (lookup q m) (lookup q ((k, r) ∷ rs)) ≡ lookup q m
      → combine j (lookup q m) (lookup q rs) ≡ lookup q m
  unfolding lookup
  combine-rest j q k r m rs s h = ground (arith, lookup-Above k rs, o.cmp_iff q k)

  Same-combine :
      (j : V → V → V) (m rs : Map K V)
      → IsSorted rs
      → ((q : K) → combine j (lookup q m) (lookup q rs) ≡ lookup q m)
      → Same j m rs
  unfolding Same
  Same-combine j m [] s h = tt
  Same-combine j m ((k, r) ∷ rs) s h = (
    ground (arith, h k, lookup-head k r rs),
    Same-combine j m rs s.1 (λ q. combine-rest j q k r m rs s.0 (h q)),
  )

  -- no change is reported exactly when the join is the map itself
  pub changes-false_iff :
      (j : V → V → V) (c : V → V → Bool) (m rs : Map K V)
      → IsSorted m
      → IsSorted rs
      → Exact j c m rs
      → (changes c m rs ≡ false) ↔ (join j m rs ≡ m)
  changes-false_iff j c m rs s t e = (
    λ h.
        lookup-ext (join j m rs) m (join-IsSorted j m rs s) s
          (λ q. lookup-join j q m rs t ∙ combine-Same j q m rs (changes-Same j c m rs e h)),
    λ h.
        Same-changes j c m rs e
          (Same-combine j m rs t (λ q. sym (lookup-join j q m rs t) ∙ ap (lookup q) h)),
  )
