-- ===== src/Workspace/Receipts/Seen.antt =====
-- A receipt window of zendb-workspace/src/devices/receipts.rs is the set of the numbers seen.
use zendb.Prelude.{
  ℕ, ◌+◌, ◌-◌, ◌==◌, ◌≤◌, ◌<◌, Bool, true, false, ◌&&◌, ◌||◌, not, Option, none, some,
  if◌then◌else◌, ltb, leb, Result, ok, ◌≡◌, sym, ap, arith, Bool-cases, inl, inr,
}
use zendb.Workspace.Receipts.{
  ReceiptWindow, ObserveError, ObserveOutcome, new, duplicate, u64_max, missing_index, fill,
  skip_to, observe,
}
use zendb.Workspace.Receipts.Ranges.{
  Ascends, is_missing, IsFilled, missing_index-IsFilled, is_missing-append, Ascends-append,
  Ascends-raise, is_missing-le,
}

abbrev pub IsValid : ReceiptWindow → Type 0
IsValid w = Ascends 1 w.missing w.max_seen

-- The number has been seen.
abbrev pub is_seen : ReceiptWindow → ℕ → Bool
is_seen w n = leb 1 n && leb n w.max_seen && not (is_missing n w.missing)

-- A number above the greatest one leaves the numbers between the two missing.
skip_to-Ascends :
    (w : ReceiptWindow) (sequence : ℕ)
    → IsValid w
    → w.max_seen < sequence
    → sequence ≤ u64_max
    → Ascends 1 (skip_to w sequence) sequence
      × ((n : ℕ)
          → is_missing n (skip_to w sequence)
            ≡ (is_missing n w.missing || (ltb w.max_seen n && ltb n sequence)))
unfolding skip_to
skip_to-Ascends w sequence valid above fits =
    elim (Bool-cases (ltb w.max_seen u64_max && ltb (w.max_seen + 1) sequence)) [
      | inl gap ↦
          let wide : w.max_seen + 1 < sequence = ground (arith, gap) in
          rw gap (
            Ascends-append 1 w.max_seen sequence w.missing (w.max_seen + 1) (sequence - 1) valid
                (omega arith) (omega arith) (omega (arith, wide)) (omega arith),
            λ n. ground (arith, is_missing-append n w.missing (w.max_seen + 1, sequence - 1)),
          )
      | inr next ↦
          let last : sequence ≡ w.max_seen + 1 = ground (arith, next, above, fits) in
          rw next (
            Ascends-raise 1 w.max_seen sequence w.missing (omega (arith, above)) valid,
            λ n. ground (arith, last),
          )
    ]

-- A window whose missing ranges ascend below its greatest number observes a u64 other than 0. The outcome
-- tells whether the number has been seen; the window is valid again, and has seen just this number more.
pub observe-seen :
    (w : ReceiptWindow) (sequence : ℕ)
    → IsValid w
    → 1 ≤ sequence
    → sequence ≤ u64_max
    → let (after, outcome) = observe w sequence in
      IsValid after
      × (outcome ≡ ok (if is_seen w sequence then duplicate else new))
      × ((n : ℕ) → is_seen after n ≡ (is_seen w n || (n == sequence)))
unfolding observe
observe-seen w sequence valid positive fits =
    let nonzero : (sequence == 0) ≡ false = ground (arith, positive) in
    elim (Bool-cases (ltb w.max_seen sequence)) [
      | inl above ↦
          let (ascends, gap) = skip_to-Ascends w sequence valid (ground (arith, above)) fits in
          let fresh : is_seen w sequence ≡ false = ground (arith, above) in
          rw (nonzero, above)
            (
              ascends,
              ap (λ b. ok (if b then duplicate else new)) (sym fresh),
              λ n.
                  ground
                    (arith, gap n, above, positive, is_missing-le 1 w.max_seen n w.missing valid),
            )
      | inr below ↦
          rw (nonzero, below)
            (known (missing_index sequence w.missing) below
              (missing_index-IsFilled 1 w.max_seen sequence w.missing valid))
    ]
  where
    after_of : Option ℕ → ReceiptWindow × Result ObserveError ObserveOutcome
    after_of found = elim found [
      | none ↦ (w, ok duplicate)
      | some index ↦ (record w { missing = fill index sequence w.missing }, ok new)
    ]

    known :
        (found : Option ℕ)
        → ltb w.max_seen sequence ≡ false
        → IsFilled 1 w.max_seen sequence w.missing found
        → IsValid (after_of found).0
          × ((after_of found).1 ≡ ok (if is_seen w sequence then duplicate else new))
          × ((n : ℕ) → is_seen (after_of found).0 n ≡ (is_seen w n || (n == sequence)))
    known none below h =
        let seen : is_seen w sequence ≡ true = ground (arith, positive, below, h) in
        (
          valid,
          ap (λ b. ok (if b then duplicate else new)) (sym seen),
          λ n. ground (arith, seen, λ (z : n ≡ sequence). ap (is_seen w) z),
        )
    known (some index) below h =
        let fresh : is_seen w sequence ≡ false = ground (arith, h.1) in
        (
          h.0,
          ap (λ b. ok (if b then duplicate else new)) (sym fresh),
          λ n. ground (
            arith,
            h.1,
            h.2 n,
            positive,
            below,
            λ (z : n ≡ sequence). ap (λ m. is_missing m w.missing) z,
          ),
        )
