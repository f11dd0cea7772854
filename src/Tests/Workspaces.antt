-- ===== src/Tests/Workspaces.antt =====
-- Receipt windows: a run, and the theorem on it.
use zendb.Prelude.{ℕ, ◌≡◌, refl, arith, [], ◌∷◌, ok, err, ◌||◌, ◌==◌, if◌then◌else◌}
use zendb.Workspace.Receipts.{
  ReceiptWindow, observe, new, duplicate, invalid_event_sequence, missing_index, fill, take_out,
  insert_range, remove_range, skip_to,
}
use zendb.Workspace.Receipts.Seen.{IsValid, is_seen, observe-seen}

program : Unit {0}
unfolding observe missing_index fill take_out insert_range remove_range skip_to
program = tt

-- 3 and 9 have been seen
abbrev window : ReceiptWindow
window = record { max_seen = 9; missing = (1, 2) ∷ (4, 8) ∷ [] }

window-IsValid : IsValid window
window-IsValid =
    (omega arith, omega arith, omega arith, (omega arith, omega arith, omega arith, tt))

built : (observe (observe (record { max_seen = 0; missing = [] }) 3).0 9).0 ≡ window
unfolding program
built = refl

in_the_middle :
    observe window 6 ≡ (record { max_seen = 9; missing = (1, 2) ∷ (4, 5) ∷ (7, 8) ∷ [] }, ok new)
unfolding program
in_the_middle = refl

seen_twice : (observe window 3).1 ≡ ok duplicate
unfolding program
seen_twice = refl

no_number : (observe window 0).1 ≡ err invalid_event_sequence
unfolding program
no_number = refl

observe-seen_example :
    IsValid (observe window 6).0
    × ((observe window 6).1 ≡ ok (if is_seen window 6 then duplicate else new))
    × ((n : ℕ) → is_seen (observe window 6).0 n ≡ (is_seen window n || (n == 6)))
observe-seen_example = observe-seen window 6 window-IsValid (omega arith) (omega arith)
