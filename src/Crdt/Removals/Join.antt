-- ===== src/Crdt/Removals/Join.antt =====
-- Merging removals is the join by the later stamp.
use zendb.Prelude.{
  Bool, ◌||◌, ◌≡◌, ◌∙◌, arith, Ord, gtb, max, later-max, gtb-false_iff, [], ◌∷◌, Option-cases, inl,
  inr,
}
use zendb.Map.{Map, lookup, IsSorted, insert_same, insert-IsSorted}
use zendb.Map.Merge.Join.{join, put, put_value}
use zendb.Map.Merge.Loop.{changes, round_changes, changes-insert}
use zendb.Crdt.Removals.{advance, merge_removals}

module _ {S : Type 0} ⦃s : Ord S⦄ where
  abbrev pub later : S → S → Bool
  later a b = gtb b a

  advance-put :
      (tag stamp : S) (m : Map S S)
      → IsSorted m
      → advance tag stamp m ≡ (put max tag stamp m, round_changes later (lookup tag m) stamp)
  unfolding advance
  advance-put tag stamp m v = elim (Option-cases (lookup tag m)) [
    | inl new ↦ ground arith
    | inr (x, old) ↦ ground (arith, later-max x stamp, gtb-false_iff x stamp, insert_same tag x m v)
  ]

  pub merge_removals-join :
      (changed : Bool) (m rs : Map S S)
      → IsSorted m
      → IsSorted rs
      → merge_removals changed m rs ≡ (join max m rs, changed || changes later m rs)
  unfolding merge_removals join changes
  merge_removals-join changed m [] v w = ground arith
  merge_removals-join changed m ((tag, stamp) ∷ rs) v w =
      rw (advance-put tag stamp m v, merge_removals)
        (merge_removals-join (changed || round_changes later (lookup tag m) stamp)
            (put max tag stamp m) rs (insert-IsSorted tag _ m v) w.1
          ∙ ground (arith, changes-insert later tag (put_value max stamp (lookup tag m)) m rs w.0))
