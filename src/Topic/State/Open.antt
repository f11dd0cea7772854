-- ===== src/Topic/State/Open.antt =====
-- Opening a topic from its files, also after a crash in the middle of an append
-- (zendb-storage/src/topic.rs, open). The directory is the list of the segment files with their base
-- offsets, in order and not empty; the stored offsets are given.
pub mod Recovery
pub mod Restart
use zendb.Prelude.{
  ℕ, zero, suc, ◌+◌, ◌-◌, ◌<◌, ◌^◌, ◌≡◌, refl, sym, ap, subst, ◌∙◌, arith, Bool, true, false,
  Option, none, some, List, [], ◌∷◌, ◌++◌, length, take, drop, ltb, ◌==◌, if◌then◌else◌, Result, ok,
  err, length-append, append_assoc, append-nil, take-length_append, map, Bool-cases, inl, inr,
}
use zendb.Map.{Map}
use zendb.Topic.Frame.{
  header, frame, magic, read_u32, u32_of, from_le_bytes, to_le_bytes, scan_active_segment,
  ScanError, unexpected_end, invalid_data,
}
use zendb.Topic.Frame.Codec.{frames, AllShort}
use zendb.Topic.Frame.Scan.{scan_active_segment-torn}
use zendb.Topic.State.{Topic, TopicConfig, Segment, ConsumerState, sum_of, first_base}
use zendb.Topic.State.Log.{Keeps, Chain, count, concat, Represents, Chain-count}
use zendb.Topic.State.Chains.{Chain-first_base}
use zendb.Topic.State.Retention.{Log}

unfoldable pub check_segment_magic : List ℕ → Result ScanError (Unit {0})
unfolding read_u32
check_segment_magic file = elim (read_u32 file 0) [
  | none ↦ err unexpected_end
  | some m ↦ if m == magic then ok tt else err invalid_data
]

-- The older segments, in order: each ends where the next one begins, the last one of them where the
-- active segment does.
unfoldable pub open_older : List (ℕ × List ℕ) → ℕ → Result ScanError (List Segment)
unfolding check_segment_magic
open_older [] active_base = ok []
open_older ((base, file) ∷ rest) active_base =
    let end_offset = elim rest as (λ r. ℕ) [ [] ↦ active_base | r ∷ rs ↦ r.0 ] in
    let segment : Segment = record {
      base_offset = base;
      end_offset = end_offset;
      byte_len = length file;
      file = file;
    } in
    let later = open_older rest active_base in
    elim (check_segment_magic file) [
      | err e ↦ err e
      | ok _ ↦ elim later [ err e ↦ err e | ok ss ↦ ok (segment ∷ ss) ]
    ]

-- The active segment, whose file is cut to its complete records.
unfoldable pub open_active : ℕ → List ℕ → Result ScanError Segment
unfolding scan_active_segment
open_active base file = elim (scan_active_segment file base) [
  | err e ↦ err e
  | ok (end_offset, len, file_len) ↦ ok (record {
    base_offset = base;
    end_offset = end_offset;
    byte_len = len;
    file = if ltb len file_len then take len file else file;
  })
]

-- The consumers stand at their committed offsets, without readers.
abbrev pub open_consumers : {N : Type 0} → Map N ℕ → Map N ConsumerState
open_consumers [] = []
open_consumers ((n, offset) ∷ rest) =
    (n, record { committed = offset; volatile = offset; reader_active = false })
    ∷ open_consumers rest

-- `Topic::open`.
unfoldable pub open_topic :
    {N : Type 0}
    → TopicConfig
    → Map N ℕ
    → List (ℕ × List ℕ)
    → ℕ × List ℕ
    → Result ScanError (Topic N)
unfolding open_older open_active
open_topic config offsets files (active_base, active_file) =
    elim (open_active active_base active_file) [
      | err e ↦ err e
      | ok active ↦ elim (open_older files active_base) [
        | err e ↦ err e
        | ok older ↦
            let earliest = first_base older active in
            ok (record {
              config = config;
              removed = [];
              older = older;
              active = active;
              next_offset = active.end_offset;
              consumers = open_consumers offsets;
              offsets = offsets;
              stats = record {
                earliest_offset = earliest;
                next_offset = active.end_offset;
                records = active.end_offset - earliest;
                retained_bytes = sum_of (λ s. s.byte_len) older + active.byte_len;
              };
            })
      ]
    ]
