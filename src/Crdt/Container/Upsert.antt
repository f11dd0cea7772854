-- ===== src/Crdt/Container/Upsert.antt =====
-- An upsert at a child of a record or a list (zendb-types/src/crdt/values, record.rs and list.rs, with
-- zendb-types/src/crdt/cell.rs).
use zendb.Prelude.{
  true, false, none, some, [], Ord, gtb, PartialEq, ◌≡◌, ap, ◌∙◌, arith, ok, cmp_refl,
  if◌then◌else◌,
}
use zendb.Crdt.Cell.{
  Cell, ValueType, upsert, type_tag, is_tag, max_stamp, apply, apply_walk, ensure_type,
}
use zendb.Crdt.Container.{walk_child, walk_ensured}

module _ {T G O E V S : Type 0} (t : ValueType T G O E V S) ⦃eq : PartialEq T⦄ ⦃s : Ord S⦄
    (zero : S) where
  ensure_same :
      (c : Cell V S) (tag : T) (incoming : S)
      → is_tag (type_tag t c) tag ≡ true
      → ensure_type t c tag incoming ≡ (c, true)
  unfolding ensure_type
  ensure_same c tag incoming h = rw h

  ensure_other :
      (c : Cell V S) (tag : T) (incoming : S)
      → is_tag (type_tag t c) tag ≡ false
      → gtb incoming (max_stamp t c) ≡ true
      → ensure_type t c tag incoming
        ≡ (record { value = some (t.empty_value tag); stamp = incoming }, true)
  unfolding ensure_type
  ensure_other c tag incoming h g = rw (h, g)

  made_tag :
      ((tag : T) → t.type_tag (t.empty_value tag) ≡ tag)
      → (tag : T)
      → is_tag (type_tag t (record { value = some (t.empty_value tag); stamp = zero })) tag ≡ true
  unfolding is_tag type_tag
  made_tag made tag = (eq.beq_iff _ tag).1 (made tag)

  -- An upsert at a child that is missing creates it with the value, if the stamp is later than the
  -- default one. An empty value has the type that it was made for.
  pub upsert-missing :
      ((tag : T) → t.type_tag (t.empty_value tag) ≡ tag)
      → (v : V) (incoming : S) → gtb incoming zero ≡ true
      → walk_child t zero (upsert v) incoming [] none
        ≡ (record { value = some v; stamp = incoming }, ok true)
  unfolding walk_child apply_walk apply
  upsert-missing made v incoming later =
      ap (walk_ensured t (upsert v) incoming []) (
        ensure_same (record { value = some (t.empty_value (t.type_tag v)); stamp = zero })
          (t.type_tag v) incoming (made_tag made (t.type_tag v)))
      ∙ rw later

  -- An upsert at a child of the value's type replaces the value, if the stamp is later than the
  -- child's, and changes nothing otherwise.
  pub upsert-same_type :
      (c : Cell V S) (v : V) (incoming : S)
      → is_tag (type_tag t c) (t.type_tag v) ≡ true
      → walk_child t zero (upsert v) incoming [] (some c) ≡ (
          if gtb incoming c.stamp
          then (record { value = some v; stamp = incoming }, ok true)
          else (c, ok false))
  unfolding walk_child apply_walk apply
  upsert-same_type c v incoming same =
      ap (walk_ensured t (upsert v) incoming []) (ensure_same c (t.type_tag v) incoming same)

  -- An upsert, later than all the stamps of the child, at a child that is a tombstone or of another
  -- type leaves the empty value of the new type there, not the given one, and reports no change.
  pub upsert-other_type :
      (c : Cell V S) (v : V) (incoming : S)
      → is_tag (type_tag t c) (t.type_tag v) ≡ false
      → gtb incoming (max_stamp t c) ≡ true
      → walk_child t zero (upsert v) incoming [] (some c)
        ≡ (record { value = some (t.empty_value (t.type_tag v)); stamp = incoming }, ok false)
  unfolding walk_child apply_walk apply
  upsert-other_type c v incoming other later =
      ap (walk_ensured t (upsert v) incoming [])
        (ensure_other c (t.type_tag v) incoming other later)
      ∙ ground (arith, cmp_refl incoming)
