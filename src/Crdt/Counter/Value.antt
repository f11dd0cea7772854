-- ===== src/Crdt/Counter/Value.antt =====
-- What an operation does to the value of a counter.
use zendb.Prelude.{
  ℕ, zero, suc, ◌+◌, ◌<◌, ◌^◌, Bool, true, false, Option, none, some, [], ◌∷◌, ◌≡◌, refl, sym, ◌∙◌,
  arith, Ord, ok, err,
}
use zendb.Prelude.Int.{
  ℤ, pos, negsuc, sub_ℕ, ◌+ℤ◌, pos_part, neg_part, +ℤ_zero, +ℤ_parts, sub_ℕ_parts, eq_of_parts,
}
use zendb.Map.{Map, lookup, insert, IsSorted, lookup-Above, Above-trans}
use zendb.Crdt.Stamp.{EventStamp, MergeStamps}
use zendb.Crdt.Counter.{
  Counter, add, sum, value, checked_add, increase_pos, increase_neg, entry, store, apply,
}
use zendb.Crdt.Counter.Convergence.{IsValid}

abbrev pub is_nonzero : ℤ → Bool
is_nonzero (pos zero) = false
is_nonzero (pos (suc n)) = true
is_nonzero (negsuc n) = true

-- What a checked step may store: the old entry with its components apart by `d` more.
Moves : ℕ × ℕ → ℤ → Option (ℕ × ℕ) → Type 0
Moves e d none = Unit
Moves e d (some e') = e'.0 + e.1 + neg_part d ≡ e'.1 + e.0 + pos_part d

Moves-increase_pos : (e : ℕ × ℕ) (n : ℕ) → Moves e (pos (suc n)) (increase_pos e (suc n))
unfolding Moves increase_pos
Moves-increase_pos e n = by_sum (checked_add e.0 (suc n)) refl
  where
    by_sum :
        (o : Option ℕ)
        → checked_add e.0 (suc n) ≡ o
        → Moves e (pos (suc n)) (elim o [ none ↦ none | some total ↦ some (total, e.1) ])
    by_sum none h = tt
    by_sum (some total) h = ground arith

Moves-increase_neg : (e : ℕ × ℕ) (n : ℕ) → Moves e (negsuc n) (increase_neg e (suc n))
unfolding Moves increase_neg
Moves-increase_neg e n = by_sum (checked_add e.1 (suc n)) refl
  where
    by_sum :
        (o : Option ℕ)
        → checked_add e.1 (suc n) ≡ o
        → Moves e (negsuc n) (elim o [ none ↦ none | some total ↦ some (e.0, total) ])
    by_sum none h = tt
    by_sum (some total) h = ground arith

module _ {P : Type 0} where
  pos_sum : Map P (ℕ × ℕ) → ℕ
  pos_sum [] = 0
  pos_sum ((q, e) ∷ m) = e.0 + pos_sum m

  neg_sum : Map P (ℕ × ℕ) → ℕ
  neg_sum [] = 0
  neg_sum ((q, e) ∷ m) = e.1 + neg_sum m

  sum_parts : (m : Map P (ℕ × ℕ)) → pos_part (sum m) + neg_sum m ≡ neg_part (sum m) + pos_sum m
  unfolding sum pos_sum neg_sum
  sum_parts [] = refl
  sum_parts ((q, e) ∷ m) =
      omega (arith, sum_parts m, +ℤ_parts (sub_ℕ e.0 e.1) (sum m), sub_ℕ_parts e.0 e.1)

module _ {P : Type 0} ⦃p : Ord P⦄ where
  old : P → Map P (ℕ × ℕ) → ℕ × ℕ
  old peer m = elim (lookup peer m) [ none ↦ (0, 0) | some e ↦ e ]

  pos_sum-insert :
      (peer : P) (e : ℕ × ℕ) (m : Map P (ℕ × ℕ))
      → IsSorted m
      → pos_sum (insert peer e m) + (old peer m).0 ≡ pos_sum m + e.0
  unfolding pos_sum insert lookup old
  pos_sum-insert peer e [] s = omega arith
  pos_sum-insert peer e ((q, w) ∷ m) s =
      ground (arith, pos_sum-insert peer e m, lookup-Above peer m, Above-trans peer q m)

  neg_sum-insert :
      (peer : P) (e : ℕ × ℕ) (m : Map P (ℕ × ℕ))
      → IsSorted m
      → neg_sum (insert peer e m) + (old peer m).1 ≡ neg_sum m + e.1
  unfolding neg_sum insert lookup old
  neg_sum-insert peer e [] s = omega arith
  neg_sum-insert peer e ((q, w) ∷ m) s =
      ground (arith, neg_sum-insert peer e m, lookup-Above peer m, Above-trans peer q m)

  -- a new entry for a peer changes the sum by the differences of its components
  sum-insert :
      (peer : P) (e : ℕ × ℕ) (m : Map P (ℕ × ℕ)) (d : ℤ)
      → IsSorted m
      → e.0 + (old peer m).1 + neg_part d ≡ e.1 + (old peer m).0 + pos_part d
      → sum (insert peer e m) ≡ sum m +ℤ d
  sum-insert peer e m d s h = omega (
    arith,
    eq_of_parts (sum (insert peer e m)) (sum m +ℤ d),
    +ℤ_parts (sum m) d,
    sum_parts m,
    sum_parts (insert peer e m),
    pos_sum-insert peer e m s,
    neg_sum-insert peer e m s,
  )

  value-store :
      (c : Counter P) (peer : P) (d : ℤ) (new : Option (ℕ × ℕ))
      → IsSorted c.entries
      → Moves (entry c peer) d new
      → value (store c peer (entry c peer) new).0
        ≡ (elim (store c peer (entry c peer) new).1 [ ok _ ↦ value c +ℤ d | err _ ↦ value c ])
  unfolding value store entry old Moves
  value-store c peer d none s h =
      sum-insert peer (entry c peer) c.entries (pos 0) s (omega arith) ∙ +ℤ_zero (sum c.entries)
  value-store c peer d (some e') s h = sum-insert peer e' c.entries d s h

  -- On a valid counter, an operation that does not overflow changes the value by its delta, and one
  -- that overflows leaves the value as it was.
  pub value-apply :
      (c : Counter P) (d : ℤ) (st : MergeStamps (EventStamp P))
      → IsValid c
      → value (apply c (add d) st).0
        ≡ (elim (apply c (add d) st).1 [ ok _ ↦ value c +ℤ d | err _ ↦ value c ])
  unfolding apply
  value-apply c (pos zero) st v = sym (+ℤ_zero (value c))
  value-apply c (pos (suc n)) st v =
      let peer = st.incoming.id.peer_id in
      value-store c peer (pos (suc n)) _ v.0 (Moves-increase_pos (entry c peer) n)
  value-apply c (negsuc n) st v =
      let peer = st.incoming.id.peer_id in
      value-store c peer (negsuc n) _ v.0 (Moves-increase_neg (entry c peer) n)

  succeeds :
      (c : Counter P) (d : ℤ) (st : MergeStamps (EventStamp P))
      → (entry c st.incoming.id.peer_id).0 + pos_part d < 2 ^ 64
      → (entry c st.incoming.id.peer_id).1 + neg_part d < 2 ^ 64
      → (apply c (add d) st).1 ≡ ok (is_nonzero d)
  unfolding apply increase_pos increase_neg store
  succeeds c (pos zero) st up down = refl
  succeeds c (pos (suc n)) st up down = ground arith
  succeeds c (negsuc n) st up down = ground arith

  -- On a valid counter, where the component that the delta goes to stays within u64, the operation
  -- succeeds, reports a change unless the delta is 0, and changes the value by the delta.
  pub value-apply_fits :
      (c : Counter P) (d : ℤ) (st : MergeStamps (EventStamp P))
      → IsValid c
      → (entry c st.incoming.id.peer_id).0 + pos_part d < 2 ^ 64
      → (entry c st.incoming.id.peer_id).1 + neg_part d < 2 ^ 64
      → ((apply c (add d) st).1 ≡ ok (is_nonzero d)) × (value (apply c (add d) st).0 ≡ value c +ℤ d)
  value-apply_fits c d st v up down =
      let fits = succeeds c d st up down in (fits, value-apply c d st v ∙ rw fits)
