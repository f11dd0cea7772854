-- ===== src/Crdt/Sequence/Visible.antt =====
-- `visible_ids` of zendb-types/src/crdt/values/list.rs and text.rs against its specification: it ends,
-- and lists the visible elements that are anchored to the head, each once.
use zendb.Prelude.{
  suc, Bool, true, false, ◌&&◌, Option, none, some, List, [], Ord, option_ord, ◌≡◌, ◌↔◌, refl,
  arith, length, sym, ◌∙◌, inl, inr, Option-cases,
}
use zendb.Map.{Map, lookup, IsSorted, keys}
use zendb.Crdt.Sequence.{visible_ids, children_of, siblings, seen, walk}
use zendb.Crdt.Sequence.Visited.{has, Distinct, unvisited-length, length-keys}
use zendb.Crdt.Sequence.Outcome.{Outcome, is_visible}
use zendb.Crdt.Sequence.Walk.{walk-Ends}
use zendb.Crdt.Sequence.Children.{anchored, has-children_of}

module _ {K X : Type 0} ⦃k : Ord K⦄ (anchor : X → Option (Option K)) (entries : Map K X) where
  -- The element has an entry at the head, or after an element of this kind.
  pub data IsPlaced : K → Type 0 where
    at_head : {id : K} → anchored anchor id none entries ≡ true → IsPlaced id
    after : {id : K} (q : K) → anchored anchor id (some q) entries ≡ true → IsPlaced q → IsPlaced id

module _ {K X : Type 0} ⦃k : Ord K⦄ (anchor : X → Option (Option K)) (live : K → X → Bool)
    (entries : Map K X) (sorted : IsSorted entries) where
  step :
      (q c : K)
      → IsPlaced anchor entries q
      → has c (siblings (some q) (children_of anchor entries)) ≡ true
      → IsPlaced anchor entries c
  step q c p h = after q (sym (has-children_of anchor c (some q) entries sorted) ∙ h) p

  abbrev Specified : List K → Type 0
  Specified ids =
      Distinct ids
      × ((q : K)
          → (has q ids ≡ true) ↔ (IsPlaced anchor entries q × (is_visible live entries q ≡ true)))

  anchored-entry :
      (q : K) (a : Option K)
      → anchored anchor q a entries ≡ true
      → (x : X) × (lookup q entries ≡ some x)
  unfolding anchored
  anchored-entry q a h = elim (Option-cases (lookup q entries)) [
    | inl e ↦ absurd (ground (arith, h, e))
    | inr found ↦ found
  ]

  placed-entry : (q : K) → IsPlaced anchor entries q → (x : X) × (lookup q entries ≡ some x)
  placed-entry q (at_head h) = anchored-entry q none h
  placed-entry q (after p h below) = anchored-entry q (some p) h

  module _ (r : Map K (Unit {0}) × List K)
      (o : Outcome live entries
        (children_of anchor entries)
        (IsPlaced anchor entries)
        step
        (siblings none (children_of anchor entries))
        ([], [])
        r) where
    placed-seen : (q : K) → IsPlaced anchor entries q → seen q r.0 ≡ true
    unfolding seen lookup
    placed-seen q (at_head h) = o.covers q (has-children_of anchor q none entries sorted ∙ h)
    placed-seen q (after p h below) =
        let (x, e) = placed-entry p below in
        o.closes p (placed-seen p below) nothing x e q
          (has-children_of anchor q (some p) entries sorted ∙ h)
      where
        nothing : seen p [] ≡ false
        nothing = refl

    listed : (q : K) → has q r.1 ≡ (seen q r.0 && is_visible live entries q)
    unfolding has seen lookup
    listed q = ground (arith, o.lists q)

    seen-placed : (q : K) → seen q r.0 ≡ true → IsPlaced anchor entries q
    unfolding seen lookup
    seen-placed q h =
        elim (o.reaches (λ c i. at_head (sym (has-children_of anchor c none entries sorted) ∙ i)) q
          h) [ inl s ↦ absurd (ground (arith, s)) | inr p ↦ p ]

    specified : Specified r.1
    unfolding has
    specified = (
      o.distinct tt (λ q h. absurd (ground (arith, h))),
      λ q. (
        λ h. (seen-placed q (ground (arith, listed q, h)), ground (arith, listed q, h)),
        λ h. ground (arith, listed q, placed-seen q h.0, h.1),
      ),
    )

  visible_ids-walk :
      (r : Map K (Unit {0}) × List K)
      → walk live entries
          (children_of anchor entries)
          (suc (length entries))
          (siblings none (children_of anchor entries))
          ([], [])
        ≡ some r
      → visible_ids anchor live entries ≡ some r.1
  unfolding visible_ids
  visible_ids-walk r e = rw (e, visible_ids)

  -- The walk of `visible_ids` ends within its fuel. It lists no element twice, and lists exactly the
  -- visible elements whose chain of anchors leads to the head.
  pub visible_ids_lem :
      (ids : List K) × (visible_ids anchor live entries ≡ some ids)
      × Distinct ids
      × ((q : K)
          → (has q ids ≡ true) ↔ (IsPlaced anchor entries q × (is_visible live entries q ≡ true)))
  visible_ids_lem =
      let (r, e, o) =
        walk-Ends live entries (children_of anchor entries) (IsPlaced anchor entries) step
          (suc (length entries)) (siblings none (children_of anchor entries)) ([], [])
          (omega (arith, unvisited-length (keys entries) [], length-keys entries)) in
      let s = specified r o in (r.1, visible_ids-walk r e, s.0, s.1)
