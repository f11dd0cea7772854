-- ===== src/Table/Size.antt =====
-- The size of a table (zendb-storage/src/table/table.rs): the rows of the state, and the pending rows of
-- the cache that the state does not have.
use Prim.Native.Nat.Ordering.{lt}
use zendb.Prelude.{
  ℕ, zero, suc, ◌+◌, ◌≤◌, ◌≡◌, refl, ap, subst, arith, true, false, ◌||◌, none, some, [], ◌∷◌,
  length, Ord, inl, inr, if◌then◌else◌, ◌∙◌, sym,
}
use zendb.Map.{
  Map, lookup, insert, contains_key, Above, IsSorted, lookup-Above, lookup-insert, insert-IsSorted,
  Above-trans,
}
use zendb.Table.{filter_absent, ascending, collect, merged_next, put_all}
use zendb.Table.Iteration.{Ordering-cases, collect-lt, collect-eq, collect-gt}

module _ {K C : Type 0} ⦃k : Ord K⦄ where
  -- How many keys of the cache the state does not have.
  abbrev pub novel_count : Map K C → Map K C → ℕ
  novel_count state [] = 0
  novel_count state ((q, v) ∷ cache) =
      let rest = novel_count state cache in if contains_key q state then rest else suc rest

  -- a key that no row of the cache has does not matter
  novel_count-Above :
      (x : K) (w : C) (s c : Map K C) → Above x c → novel_count ((x, w) ∷ s) c ≡ novel_count s c
  unfolding lookup
  novel_count-Above x w s [] h = refl
  novel_count-Above x w s ((y, v) ∷ c) h =
      ground (arith, novel_count-Above x w s c h.1, k.cmp_iff x y, h.0, k.cmp_reverse x y)

  pub length-collect :
      (n : ℕ) (s c : Map K C)
      → IsSorted s
      → IsSorted c
      → length s + length c ≤ n
      → length (collect n ascending s c) ≡ length s + novel_count s c
  unfolding collect merged_next lookup
  length-collect zero [] [] h g enough = omega arith
  length-collect zero (x ∷ s) c h g enough = ground (arith, enough)
  length-collect zero [] (y ∷ c) h g enough = ground (arith, enough)
  length-collect (suc n) [] [] h g enough = omega arith
  length-collect (suc n) (x ∷ s) [] h g enough =
      omega (arith, length-collect n s [] h.1 tt (omega (arith, enough)))
  length-collect (suc n) [] (y ∷ c) h g enough =
      omega (arith, length-collect n [] c tt g.1 (omega (arith, enough)))
  length-collect (suc n) (x ∷ s) (y ∷ c) h g enough = elim (Ordering-cases (k.cmp x.0 y.0)) [
    | inl e ↦
        ap length (collect-lt n x s y c e)
        ∙ omega (
          arith,
          length-collect n s (y ∷ c) h.1 g (omega (arith, enough)),
          novel_count-Above x.0 x.1 s (y ∷ c) (e, Above-trans x.0 y.0 c e g.0),
        )
    | inr (inl e) ↦
        let there : contains_key y.0 (x ∷ s) ≡ true =
          ground (arith, k.cmp_iff x.0 y.0, k.cmp_iff y.0 x.0, e) in
        let above : Above x.0 c = subst (λ b. Above b c) (sym ((k.cmp_iff x.0 y.0).0 e)) g.0 in
        ap length (collect-eq n x s y c e)
        ∙ rw there (
            omega (
              arith,
              length-collect n s c h.1 g.1 (omega (arith, enough)),
              novel_count-Above x.0 x.1 s c above,
            ))
    | inr (inr e) ↦
        let flip : k.cmp y.0 x.0 ≡ lt = ground (arith, k.cmp_reverse x.0 y.0, e) in
        let absent : contains_key y.0 (x ∷ s) ≡ false =
          ap (λ o. elim o [ none ↦ false | some _ ↦ true ])
            (lookup-Above y.0 (x ∷ s) (flip, Above-trans y.0 x.0 s flip h.0)) in
        ap length (collect-gt n x s y c e)
        ∙ rw absent (omega (arith, length-collect n (x ∷ s) c h g.1 (omega (arith, enough))))
  ]

  pub novel_count-insert :
      (q : K) (v : C) (s c : Map K C)
      → IsSorted c
      → novel_count s (insert q v c)
        ≡ (if contains_key q c || contains_key q s then novel_count s c else suc (novel_count s c))
  unfolding insert lookup
  novel_count-insert q v s [] h = ground arith
  novel_count-insert q v s ((x, w) ∷ c) h = elim (Ordering-cases (k.cmp q x)) [
    | inl e ↦ let absent = lookup-Above q c (Above-trans q x c e h.0) in ground (arith, e, absent)
    | inr (inl e) ↦ ground (arith, e, (k.cmp_iff q x).0 e)
    | inr (inr e) ↦ ground (arith, e, novel_count-insert q v s c h.1)
  ]

  length-insert :
      (q : K) (v : C) (s : Map K C)
      → IsSorted s
      → length (insert q v s) ≡ (if contains_key q s then length s else suc (length s))
  unfolding insert lookup
  length-insert q v [] h = ground arith
  length-insert q v ((x, w) ∷ s) h =
      ground
        (arith, length-insert q v s h.1, k.cmp_iff q x, lookup-Above q s, Above-trans q x s, h.0)

  -- a row that goes into the state below the cache's keys makes no row of the cache old
  novel_count-state :
      (q : K) (v : C) (s c : Map K C) → Above q c → novel_count (insert q v s) c ≡ novel_count s c
  unfolding lookup
  novel_count-state q v s [] h = refl
  novel_count-state q v s ((x, w) ∷ c) h = ground (
    arith,
    novel_count-state q v s c h.1,
    lookup-insert q x v s,
    k.cmp_iff x q,
    h.0,
    k.cmp_reverse q x,
  )

  length-put_all :
      (c s : Map K C) → IsSorted c → IsSorted s → length (put_all c s) ≡ length s + novel_count s c
  unfolding put_all
  length-put_all [] s h g = omega arith
  length-put_all ((q, v) ∷ c) s h g =
      length-put_all c (insert q v s) h.1 (insert-IsSorted q v s g)
      ∙ ground (arith, length-insert q v s g, novel_count-state q v s c h.0)

  length-filter_absent_cons :
      (y : K) (v : C) (c s : Map K C)
      → Above y c
      → IsSorted s
      → length (filter_absent c s)
        ≡ length (filter_absent ((y, v) ∷ c) s) + (if contains_key y s then 1 else 0)
  unfolding filter_absent lookup
  length-filter_absent_cons y v c [] h g = omega arith
  length-filter_absent_cons y v c ((x, w) ∷ s) h g = ground (
    arith,
    length-filter_absent_cons y v c s h g.1,
    k.cmp_iff x y,
    k.cmp_iff y x,
    lookup-Above x s g.0,
    lookup-Above y c h,
  )

  filter_absent-nil : (s : Map K C) → filter_absent [] s ≡ s
  unfolding filter_absent lookup
  filter_absent-nil [] = refl
  filter_absent-nil (x ∷ s) = ap (◌∷◌ x) (filter_absent-nil s)

  pub length-filter_absent :
      (c s : Map K C)
      → IsSorted c
      → IsSorted s
      → length (filter_absent c s) + length c ≡ length s + novel_count s c
  length-filter_absent [] s h g = omega (arith, ap length (filter_absent-nil s))
  length-filter_absent ((y, v) ∷ c) s h g =
      ground (arith, length-filter_absent c s h.1 g, length-filter_absent_cons y v c s h.0 g)
