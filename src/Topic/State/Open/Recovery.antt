-- ===== src/Topic/State/Open/Recovery.antt =====
-- A topic that is opened after a crash holds the log of the complete records
-- (zendb-storage/src/topic.rs, open).
use zendb.Prelude.{ℕ, List, [], ◌∷◌, length, take, ltb, if◌then◌else◌}
use zendb.Map.{Map}
use zendb.Topic.State.{Topic, Segment}
use zendb.Topic.State.Retention.{Log}

-- The files that the older segments stand in.
abbrev pub files_of : List Segment → List (ℕ × List ℕ)
files_of [] = []
files_of (s ∷ ss) = (s.base_offset, s.file) ∷ files_of ss

cut_file : List ℕ → List ℕ → List ℕ
cut_file kept file = if ltb (length kept) (length file) then take (length kept) file else file
