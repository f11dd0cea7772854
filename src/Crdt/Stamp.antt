-- ===== src/Crdt/Stamp.antt =====
-- Event identity and hybrid logical time (zendb-types/src/crdt/stamp.rs), and the pair of stamps that
-- a merge is decided by (zendb-types/src/crdt/_traits.rs). The third-party `PeerId` enters as any
-- type with a total order.
use Prim.Native.Nat.Ordering.{lt, eq}
use zendb.Prelude.{
  ℕ, Ordering, Ord, compare, then_cmp, ◌≡◌, ◌↔◌, reverse, arith, IsLeast, max, least-not_later,
}

pub record EventId (P : Type 0) : Type 0 where
  pub peer_id : P
  pub sequence : ℕ

pub record EventTime : Type 0 where
  pub physical_ms : ℕ
  pub logical : ℕ

pub record EventStamp (P : Type 0) : Type 0 where
  pub id : EventId P
  pub time : EventTime

-- `current` is the stamp of what is there, `incoming` that of the update.
pub record MergeStamps (S : Type 0) : Type 0 where
  pub current : S
  pub incoming : S

module _ {P : Type 0} (sentinel : P) where
  -- `EventStamp::default()`, for the default `PeerId`.
  unfoldable pub zero_stamp : EventStamp P
  zero_stamp = record {
    id = record { peer_id = sentinel; sequence = 0 };
    time = record { physical_ms = 0; logical = 0 };
  }

module _ {P : Type 0} ⦃p : Ord P⦄ where
  -- `(physical_ms, logical, peer_id, sequence)`, lexicographically.
  unfoldable pub cmp : EventStamp P → EventStamp P → Ordering
  cmp a b = then_cmp (compare a.time.physical_ms b.time.physical_ms) (
      then_cmp (compare a.time.logical b.time.logical)
        (then_cmp (p.cmp a.id.peer_id b.id.peer_id) (compare a.id.sequence b.id.sequence)))

  pub cmp_iff : (a b : EventStamp P) → (cmp a b ≡ eq) ↔ (a ≡ b)
  unfolding cmp
  cmp_iff a b = ground (arith, p.cmp_iff a.id.peer_id b.id.peer_id)

  pub cmp_reverse : (a b : EventStamp P) → cmp b a ≡ reverse (cmp a b)
  unfolding cmp
  cmp_reverse a b = ground (arith, p.cmp_reverse a.id.peer_id b.id.peer_id)

  pub cmp_trans : (a b c : EventStamp P) → cmp a b ≡ lt → cmp b c ≡ lt → cmp a c ≡ lt
  unfolding cmp
  cmp_trans a b c h k = ground (
    arith,
    p.cmp_trans a.id.peer_id b.id.peer_id c.id.peer_id,
    p.cmp_iff a.id.peer_id b.id.peer_id,
    p.cmp_iff b.id.peer_id c.id.peer_id,
    p.cmp_iff a.id.peer_id c.id.peer_id,
  )

  instance unfoldable pub stamp_ord : Ord (EventStamp P)
  stamp_ord = record {
    cmp = cmp;
    cmp_iff = cmp_iff;
    cmp_reverse = cmp_reverse;
    cmp_trans = cmp_trans;
  }

  -- The zero stamp is the least one, if the default `PeerId` is the least.
  pub zero_stamp-IsLeast : (sentinel : P) → IsLeast sentinel → IsLeast (zero_stamp sentinel)
  unfolding zero_stamp max stamp_ord cmp
  zero_stamp-IsLeast sentinel least x = ground (arith, least-not_later sentinel least x.id.peer_id)
