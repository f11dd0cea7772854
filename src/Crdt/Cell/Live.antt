-- ===== src/Crdt/Cell/Live.antt =====
-- What `ensure_type` of zendb-types/src/crdt/cell.rs leaves: the calls of `expect` behind it.
use zendb.Prelude.{
  true, Option, none, some, Bool-cases, inl, inr, Ord, gtb, PartialEq, ◌≡◌, refl, arith,
}
use zendb.Crdt.Cell.{Cell, ValueType, ensure_type, type_tag, is_tag, max_stamp, tag_of}

module _ {T G O E V S : Type 0} (t : ValueType T G O E V S) ⦃eq : PartialEq T⦄ ⦃s : Ord S⦄ where
  of_tag :
      (expected : T) (v : Option V)
      → is_tag (tag_of t v) expected ≡ true
      → (w : V) × (v ≡ some w) × (t.type_tag w ≡ expected)
  unfolding is_tag tag_of
  of_tag expected none h = absurd (ground (arith, h))
  of_tag expected (some w) h = (w, ground arith, ground (arith, eq.beq_iff (t.type_tag w) expected))

  -- When `ensure_type` reports true, the cell holds a live value of the expected type, so the `expect`
  -- behind it cannot fail. An empty value has the type that it was made for.
  pub ensure_type-IsLive :
      ((tag : T) → t.type_tag (t.empty_value tag) ≡ tag)
      → (c : Cell V S) (expected : T) (incoming : S) → (ensure_type t c expected incoming).1 ≡ true
      → (w : V) × ((ensure_type t c expected incoming).0.value ≡ some w) × (t.type_tag w ≡ expected)
  unfolding ensure_type
  ensure_type-IsLive made c expected incoming h =
      elim (Bool-cases (is_tag (type_tag t c) expected)) [
        | inl e ↦ rw e (of_tag expected c.value e)
        | inr e ↦ elim (Bool-cases (gtb incoming (max_stamp t c))) [
          | inl g ↦ (t.empty_value expected, rw (e, g) refl, made expected)
          | inr g ↦ absurd (ground (arith, h, e, g))
        ]
      ]
