-- ===== src/Workspace/Receipts.antt =====
-- zendb-workspace/src/devices/receipts.rs: the sequence numbers that were seen from a peer, as the greatest one
-- and the ranges that are missing below it. `binary_search_by` gives the index of the range that the
-- comparison calls equal, of which there is one at most where the ranges ascend.
pub mod Ranges
pub mod Seen
use zendb.Prelude.{
  ℕ, zero, suc, ◌+◌, ◌-◌, ◌^◌, ◌==◌, Bool, true, false, ◌&&◌, Option, none, some, List, [], ◌∷◌,
  ◌++◌, if◌then◌else◌, ltb, leb, get_elem?, Result, ok, err,
}

pub data ObserveOutcome : Type 0 where
  new duplicate : ObserveOutcome

pub data ObserveError : Type 0 where
  invalid_event_sequence : ObserveError

-- A range is its first and its last number.
pub record ReceiptWindow : Type 0 where
  pub max_seen : ℕ
  pub missing : List (ℕ × ℕ)

abbrev pub u64_max : ℕ
u64_max = 2 ^ 64 - 1

abbrev pub is_within : ℕ → ℕ × ℕ → Bool
is_within sequence range = leb range.0 sequence && leb sequence range.1

unfoldable pub missing_index : ℕ → List (ℕ × ℕ) → Option ℕ
missing_index sequence [] = none
missing_index sequence (range ∷ missing) =
    if is_within sequence range
    then some 0
    else elim (missing_index sequence missing) [ none ↦ none | some index ↦ some (suc index) ]

-- `Vec::remove` and `Vec::insert`.
unfoldable pub remove_range : ℕ → List (ℕ × ℕ) → List (ℕ × ℕ)
remove_range index [] = []
remove_range zero (x ∷ l) = l
remove_range (suc index) (x ∷ l) = x ∷ remove_range index l

unfoldable pub insert_range : ℕ → ℕ × ℕ → List (ℕ × ℕ) → List (ℕ × ℕ)
insert_range zero r l = r ∷ l
insert_range (suc index) r [] = r ∷ []
insert_range (suc index) r (x ∷ l) = x ∷ insert_range index r l

-- The range at the index, without the number.
unfoldable pub take_out : ℕ → ℕ → ℕ × ℕ → List (ℕ × ℕ) → List (ℕ × ℕ)
unfolding remove_range insert_range
take_out index sequence (start, end) missing =
    let rest = remove_range index missing in
    let left = if ltb start sequence then insert_range index (start, sequence - 1) rest else rest in
    if ltb sequence end
    then insert_range (if ltb start sequence then suc index else index) (sequence + 1, end) left
    else left

unfoldable pub fill : ℕ → ℕ → List (ℕ × ℕ) → List (ℕ × ℕ)
unfolding take_out
fill index sequence missing = elim (get_elem? missing index) [
  | none ↦ missing
  | some range ↦ take_out index sequence range missing
]

-- The ranges behind a number above the greatest one.
unfoldable pub skip_to : ReceiptWindow → ℕ → List (ℕ × ℕ)
skip_to w sequence =
    if ltb w.max_seen u64_max && ltb (w.max_seen + 1) sequence
    then w.missing ++ ((w.max_seen + 1, sequence - 1) ∷ [])
    else w.missing

unfoldable pub observe : ReceiptWindow → ℕ → ReceiptWindow × Result ObserveError ObserveOutcome
unfolding missing_index fill skip_to
observe w sequence =
    if sequence == 0
    then (w, err invalid_event_sequence)
    else if ltb w.max_seen sequence
    then (record { max_seen = sequence; missing = skip_to w sequence }, ok new)
    else elim (missing_index sequence w.missing) [
      | none ↦ (w, ok duplicate)
      | some index ↦ (record w { missing = fill index sequence w.missing }, ok new)
    ]
