-- ===== src/Crdt/MvRegister/Lookup.antt =====
-- What a merge of multi-value registers that agree on their assignments holds under each identity.
use zendb.Prelude.{
  Bool, true, false, ◌||◌, Option, none, some, List, [], ◌∷◌, if◌then◌else◌, Ord, eqb, max,
  PartialEq, ok, ◌≡◌, refl, sym, ap, subst, ◌∙◌, arith, Bool-cases, Option-cases, inl, inr,
}
use zendb.Map.{
  Map, lookup, contains_key, insert, remove, keys, IsSorted, lookup-insert, lookup-remove,
  insert-IsSorted, remove-IsSorted,
}
use zendb.Map.Merge.Join.{Each, Each-insert, lookup-Each, join, lookup-join, OnSome}
use zendb.Crdt.MvRegister.{remove_all, add_entries}

-- The first of two values that is there.
abbrev pub or_else {ℓ} : {A : Type ℓ} → Option A → Option A → Option A
or_else none b = b
or_else (some a) b = some a

module _ {S : Type 0} ⦃s : Ord S⦄ where
  abbrev pub mem : S → List S → Bool
  mem q [] = false
  mem q (id ∷ ids) = eqb q id || mem q ids

  pub mem-keys : {V : Type 0} (q : S) (m : Map S V) → mem q (keys m) ≡ contains_key q m
  unfolding lookup
  mem-keys q [] = refl
  mem-keys q ((id, w) ∷ m) = ground (arith, mem-keys q m)

  pub contains_key-join :
      (q : S) (a b : Map S S)
      → IsSorted b
      → contains_key q (join max a b) ≡ (contains_key q a || contains_key q b)
  contains_key-join q a b h = ground (arith, lookup-join max q a b h)

module _ {V S : Type 0} ⦃s : Ord S⦄ where
  lookup-remove_list :
      (changed : Bool) (q : S) (ids : List S) (m : Map S V)
      → IsSorted m
      → lookup q (remove_all changed ids m).0 ≡ (if mem q ids then none else lookup q m)
  unfolding remove_all
  lookup-remove_list changed q [] m h = refl
  lookup-remove_list changed q (id ∷ ids) m h =
      lookup-remove_list (changed || contains_key id m) q ids (remove id m) (remove-IsSorted id m h)
      ∙ ground (arith, lookup-remove id q m h)

  pub remove_all-IsSorted :
      (changed : Bool) (ids : List S) (m : Map S V)
      → IsSorted m
      → IsSorted (remove_all changed ids m).0
  unfolding remove_all
  remove_all-IsSorted changed [] m h = h
  remove_all-IsSorted changed (id ∷ ids) m h =
      remove_all-IsSorted (changed || contains_key id m) ids (remove id m) (remove-IsSorted id m h)

  pub lookup-remove_all :
      (changed : Bool) (q : S) (r : Map S S) (m : Map S V)
      → IsSorted m
      → lookup q (remove_all changed (keys r) m).0 ≡ (if contains_key q r then none else lookup q m)
  lookup-remove_all changed q r m h =
      lookup-remove_list changed q (keys r) m h
      ∙ ap (λ b. if b then none else lookup q m) (mem-keys q r)

module _ {V S : Type 0} ⦃s : Ord S⦄ (P : S → V → Type 0) where
  remove-Each : (id : S) (m : Map S V) → Each P m → Each P (remove id m)
  unfolding remove
  remove-Each id [] e = tt
  remove-Each id ((q, w) ∷ m) e = ground (arith, remove-Each id m)

  pub remove_all-Each :
      (changed : Bool) (ids : List S) (m : Map S V) → Each P m → Each P (remove_all changed ids m).0
  unfolding remove_all
  remove_all-Each changed [] m e = e
  remove_all-Each changed (id ∷ ids) m e =
      remove_all-Each (changed || contains_key id m) ids (remove id m) (remove-Each id m e)

module _ {V S : Type 0} ⦃v : PartialEq V⦄ ⦃s : Ord S⦄ (assigned : S → V) where
  -- The entries hold the values of their assignments.
  abbrev pub Agrees : S → V → Type 0
  Agrees id w = w ≡ assigned id

  -- Where both sides agree, the loop does not fail, and holds the entries of both, less the removed
  -- ones of the remote.
  pub add_entries-ok :
      (changed : Bool) (r : Map S S) (m rest : Map S V)
      → IsSorted m
      → Each Agrees m
      → Each Agrees rest
      → (c : Bool) × ((add_entries changed r m rest).1 ≡ ok c)
        × IsSorted (add_entries changed r m rest).0
        × Each Agrees (add_entries changed r m rest).0
        × ((q : S)
            → lookup q (add_entries changed r m rest).0
              ≡ or_else (lookup q m) (if contains_key q r then none else lookup q rest))
  unfolding add_entries lookup
  add_entries-ok changed r m [] h e f = (changed, refl, h, e, λ q. ground arith)
  add_entries-ok changed r m ((id, w) ∷ rest) h e f = elim (Bool-cases (contains_key id r)) [
    | inl gone ↦
        rw (gone, add_entries)
          (let (c, done, sorted, each, looks) = add_entries-ok changed r m rest h e f.1 in
            (c, done, sorted, each, λ q. looks q ∙ ground (arith, gone, s.cmp_iff q id)))
    | inr kept ↦ elim (Option-cases (lookup id m)) [
      | inl new ↦
          rw (kept, add_entries, new)
            (let (c, done, sorted, each, looks) =
                add_entries-ok true r (insert id w m) rest (insert-IsSorted id w m h)
                  (Each-insert Agrees id w m f.0 e) f.1 in
              (
                c,
                done,
                sorted,
                each,
                λ q. looks q ∙ ground (arith, kept, new, lookup-insert id q w m, s.cmp_iff q id),
              ))
      | inr (x, old) ↦
          let same : v.beq x w ≡ true =
            (v.beq_iff x w).1
              (subst (λ o. OnSome (Agrees id) o) old (lookup-Each Agrees id m e) ∙ sym f.0) in
          rw (kept, add_entries, old, same)
            (let (c, done, sorted, each, looks) = add_entries-ok changed r m rest h e f.1 in
              (c, done, sorted, each, λ q. looks q ∙ ground (arith, kept, old, s.cmp_iff q id)))
    ]
  ]
