-- ===== src/Tests/Stamps.antt =====
-- Event stamps of peers that are numbers: the data of the other tests.
use zendb.Prelude.{ℕ, nat_ord, max, IsLeast, arith}
use zendb.Crdt.Stamp.{EventStamp, MergeStamps, zero_stamp, stamp_ord, zero_stamp-IsLeast}

abbrev pub at : ℕ → ℕ → EventStamp ℕ
at ms peer = record {
  id = record { peer_id = peer; sequence = ms };
  time = record { physical_ms = ms; logical = 0 };
}

abbrev pub origin : EventStamp ℕ
origin = at 0 0

-- An update that arrives at the given time from the given peer.
abbrev pub arriving : ℕ → ℕ → MergeStamps (EventStamp ℕ)
arriving ms peer = record { current = at 0 0; incoming = at ms peer }

nat-IsLeast : IsLeast {A = ℕ} 0
unfolding max
nat-IsLeast x = ground arith

pub origin-IsLeast : IsLeast origin
unfolding zero_stamp
origin-IsLeast = zero_stamp-IsLeast 0 nat-IsLeast
