-- ===== src/Crdt/List/Position.antt =====
-- The positions of list elements (zendb-types/src/crdt/values/list.rs), for replicas that agree on where
-- each element was inserted: filling in an unknown position is a join.
use zendb.Prelude.{
  Bool, true, false, Option, none, some, Ord, ◌≡◌, ◌↔◌, refl, arith, Result, ok, IsSemilattice,
}
use zendb.Crdt.Cell.{Cell}
use zendb.Crdt.List.{
  ListPosition, ListEntry, ListError, unknown, head, after_id, known, after, resolve, resolve_known,
  resolve_position, same_position,
}

module _ {S : Type 0} where
  -- A known position is the one that the element was inserted at.
  abbrev pub PositionAgrees : Option S → ListPosition S → Type 0
  PositionAgrees placed unknown = Unit
  PositionAgrees placed head = placed ≡ none
  PositionAgrees placed (after_id a) = placed ≡ some a

  abbrev pub join_position : ListPosition S → ListPosition S → ListPosition S
  join_position unknown q = q
  join_position head q = head
  join_position (after_id a) q = after_id a

  abbrev pub position_changed : ListPosition S → ListPosition S → Bool
  position_changed unknown unknown = false
  position_changed unknown head = true
  position_changed unknown (after_id b) = true
  position_changed head q = false
  position_changed (after_id a) q = false

  pub join_position-IsSemilattice :
      (placed : Option S) → IsSemilattice (PositionAgrees placed) join_position
  join_position-IsSemilattice placed = record {
    closed = closed;
    comm = comm;
    assoc = assoc;
    idem = idem;
  }
    where
      closed :
          (a b : ListPosition S)
          → PositionAgrees placed a
          → PositionAgrees placed b
          → PositionAgrees placed (join_position a b)
      closed unknown b p q = q
      closed head b p q = p
      closed (after_id a) b p q = p

      comm :
          (a b : ListPosition S)
          → PositionAgrees placed a
          → PositionAgrees placed b
          → join_position a b ≡ join_position b a
      comm unknown unknown p q = refl
      comm unknown head p q = refl
      comm unknown (after_id b) p q = refl
      comm head unknown p q = refl
      comm head head p q = refl
      comm head (after_id b) p q = ground (arith, p, q)
      comm (after_id a) unknown p q = refl
      comm (after_id a) head p q = ground (arith, p, q)
      comm (after_id a) (after_id b) p q = ground (arith, p, q)

      assoc :
          (a b c : ListPosition S)
          → PositionAgrees placed a
          → PositionAgrees placed b
          → PositionAgrees placed c
          → join_position (join_position a b) c ≡ join_position a (join_position b c)
      assoc unknown b c p q r = refl
      assoc head b c p q r = refl
      assoc (after_id a) b c p q r = refl

      idem : (a : ListPosition S) → PositionAgrees placed a → join_position a a ≡ a
      idem unknown p = refl
      idem head p = refl
      idem (after_id a) p = refl

  pub position_exact :
      (a b : ListPosition S) → (position_changed a b ≡ false) ↔ (join_position a b ≡ a)
  position_exact unknown unknown = ground arith
  position_exact unknown head = ground arith
  position_exact unknown (after_id b) = ground arith
  position_exact head b = ground arith
  position_exact (after_id a) b = ground arith

module _ {E V S : Type 0} ⦃s : Ord S⦄ where
  pub resolve_known-join :
      (cell : Cell V S) (id : S) (placed : Option S) (p q : ListPosition S)
      → PositionAgrees placed p
      → PositionAgrees placed q
      → ◌≡◌ {A = ListEntry V S × Result (ListError E S) Bool}
          (resolve_known (record { position = p; cell = cell }) id (after q))
          (record { position = join_position p q; cell = cell }, ok (position_changed p q))
  unfolding resolve_known resolve_position resolve after known same_position
  resolve_known-join cell id placed unknown unknown h k = refl
  resolve_known-join cell id placed unknown head h k = refl
  resolve_known-join cell id placed unknown (after_id b) h k = refl
  resolve_known-join cell id placed head unknown h k = refl
  resolve_known-join cell id placed head head h k = refl
  resolve_known-join cell id placed head (after_id b) h k = absurd (ground (arith, h, k))
  resolve_known-join cell id placed (after_id a) unknown h k = refl
  resolve_known-join cell id placed (after_id a) head h k = absurd (ground (arith, h, k))
  resolve_known-join cell id placed (after_id a) (after_id b) h k =
      ground (arith, h, k, s.cmp_iff a b)
