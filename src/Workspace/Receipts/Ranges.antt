-- ===== src/Workspace/Receipts/Ranges.antt =====
-- The missing ranges of a window in zendb-workspace/src/devices/receipts.rs: what `missing_index` finds, and what
-- taking a number out of its range leaves.
use zendb.Prelude.{
  ℕ, suc, ◌+◌, ◌-◌, ◌==◌, ◌≤◌, ◌<◌, Bool, true, false, ◌&&◌, ◌||◌, not, Option, none, some, List,
  [], ◌∷◌, ◌++◌, ltb, get_elem?, ◌≡◌, refl, arith, Bool-cases, Option-cases, inl, inr,
}
use zendb.Workspace.Receipts.{is_within, missing_index, remove_range, insert_range, take_out, fill}

-- The ranges are not empty, ascend from `lo` on and end at `hi` or before.
abbrev pub Ascends : ℕ → List (ℕ × ℕ) → ℕ → Type 0
Ascends lo [] hi = Unit
Ascends lo ((start, end) ∷ missing) hi =
    (lo ≤ start) × (start ≤ end) × (end ≤ hi) × Ascends (end + 1) missing hi

abbrev pub is_missing : ℕ → List (ℕ × ℕ) → Bool
is_missing n [] = false
is_missing n (range ∷ missing) = is_within n range || is_missing n missing

pub before : (lo hi n : ℕ) (l : List (ℕ × ℕ)) → Ascends lo l hi → n < lo → is_missing n l ≡ false
before lo hi n [] a h = refl
before lo hi n ((start, end) ∷ l) a h = ground (arith, h, a.0, a.1, before (end + 1) hi n l a.3)

Ascends-le : (lo lo' hi : ℕ) (l : List (ℕ × ℕ)) → lo ≤ lo' → Ascends lo' l hi → Ascends lo l hi
Ascends-le lo lo' hi [] h a = tt
Ascends-le lo lo' hi ((start, end) ∷ l) h a = (omega (arith, h, a.0), a.1, a.2, a.3)

-- the range that has the number, without it
first_taken :
    (lo hi s : ℕ) (start end : ℕ) (l : List (ℕ × ℕ))
    → Ascends lo ((start, end) ∷ l) hi
    → is_within s (start, end) ≡ true
    → Ascends lo (take_out 0 s (start, end) ((start, end) ∷ l)) hi
      × ((n : ℕ)
          → is_missing n (take_out 0 s (start, end) ((start, end) ∷ l))
            ≡ (is_missing n ((start, end) ∷ l) && not (n == s)))
unfolding take_out remove_range insert_range
first_taken lo hi s start end l a h =
    let bounds : (start ≤ s) × (s ≤ end) = ground (arith, h) in
    let later = λ (n : ℕ). before (end + 1) hi n l a.3 in
    elim (Bool-cases (ltb start s)) [
      | inl e ↦ elim (Bool-cases (ltb s end)) [
        | inl f ↦
            rw (e, f)
              (
                (
                  a.0,
                  ground (arith, e),
                  ground (arith, e, bounds, a.2),
                  (ground arith, ground (arith, f), a.2, a.3),
                ),
                λ n. ground (arith, e, f, bounds, later n),
              )
        | inr f ↦
            rw (e, f)
              (
                (
                  a.0,
                  ground (arith, e),
                  ground (arith, bounds, a.2),
                  Ascends-le (s - 1 + 1) (end + 1) hi l (ground (arith, e, bounds)) a.3,
                ),
                λ n. ground (arith, e, f, bounds, later n),
              )
      ]
      | inr e ↦ elim (Bool-cases (ltb s end)) [
        | inl f ↦
            rw (e, f)
              (
                (ground (arith, bounds, a.0), ground (arith, f), a.2, a.3),
                λ n. ground (arith, e, f, bounds, later n),
              )
        | inr f ↦
            rw (e, f)
              (
                Ascends-le lo (end + 1) hi l (ground (arith, bounds, a.0)) a.3,
                λ n. ground (arith, e, f, bounds, later n),
              )
      ]
    ]

take_out-suc :
    (index s start end : ℕ) (x : ℕ × ℕ) (l : List (ℕ × ℕ))
    → take_out (suc index) s (start, end) (x ∷ l) ≡ x ∷ take_out index s (start, end) l
unfolding take_out remove_range insert_range
take_out-suc index s start end x l = elim (Bool-cases (ltb start s)) [
  | inl e ↦ elim (Bool-cases (ltb s end)) [ inl f ↦ rw (e, f) refl | inr f ↦ rw (e, f) refl ]
  | inr e ↦ elim (Bool-cases (ltb s end)) [ inl f ↦ rw (e, f) refl | inr f ↦ rw (e, f) refl ]
]

fill-suc :
    (index s : ℕ) (x : ℕ × ℕ) (l : List (ℕ × ℕ)) → fill (suc index) s (x ∷ l) ≡ x ∷ fill index s l
unfolding fill
fill-suc index s x l = elim (Option-cases (get_elem? l index)) [
  | inl e ↦ rw (e, fill) refl
  | inr (range, e) ↦ rw (e, fill) (take_out-suc index s range.0 range.1 x l)
]

fill_first :
    (s start end : ℕ) (l : List (ℕ × ℕ))
    → fill 0 s ((start, end) ∷ l) ≡ take_out 0 s (start, end) ((start, end) ∷ l)
unfolding fill
fill_first s start end l = refl

-- Filling the range that has a number takes the number out of the missing ones.
abbrev pub IsFilled : ℕ → ℕ → ℕ → List (ℕ × ℕ) → Option ℕ → Type 0
IsFilled lo hi s l none = is_missing s l ≡ false
IsFilled lo hi s l (some index) =
    Ascends lo (fill index s l) hi
    × (is_missing s l ≡ true)
    × ((n : ℕ) → is_missing n (fill index s l) ≡ (is_missing n l && not (n == s)))

pub missing_index-IsFilled :
    (lo hi s : ℕ) (l : List (ℕ × ℕ)) → Ascends lo l hi → IsFilled lo hi s l (missing_index s l)
unfolding missing_index
missing_index-IsFilled lo hi s [] a = refl
missing_index-IsFilled lo hi s ((start, end) ∷ l) a = elim (Bool-cases (is_within s (start, end))) [
  | inl e ↦
      let (ascends, gone) = first_taken lo hi s start end l a e in
      rw (e, fill_first s start end l) (ascends, ground (arith, e), gone)
  | inr e ↦ rw e (behind (missing_index s l) (missing_index-IsFilled (end + 1) hi s l a.3) e)
]
  where
    behind :
        (found : Option ℕ)
        → IsFilled (end + 1) hi s l found
        → is_within s (start, end) ≡ false
        → IsFilled lo hi s
            ((start, end) ∷ l)
            (elim found [ none ↦ none | some index ↦ some (suc index) ])
    behind none h e = ground (arith, e, h)
    behind (some index) h e =
        rw (fill-suc index s (start, end) l)
          ((a.0, a.1, a.2, h.0), ground (arith, h.1), λ n. ground (arith, h.2 n, e))

pub is_missing-append :
    (n : ℕ) (l : List (ℕ × ℕ)) (r : ℕ × ℕ)
    → is_missing n (l ++ (r ∷ [])) ≡ (is_missing n l || is_within n r)
is_missing-append n [] r = ground arith
is_missing-append n (x ∷ l) r = ground (arith, is_missing-append n l r)

pub Ascends-append :
    (lo mid hi : ℕ) (l : List (ℕ × ℕ)) (start end : ℕ)
    → Ascends lo l mid
    → lo ≤ start
    → mid < start
    → start ≤ end
    → end ≤ hi
    → Ascends lo (l ++ ((start, end) ∷ [])) hi
Ascends-append lo mid hi [] start end a h b c d = (h, c, d, tt)
Ascends-append lo mid hi ((s, e) ∷ l) start end a h b c d = (
  a.0,
  a.1,
  omega (arith, a.2, b, c, d),
  Ascends-append (e + 1) mid hi l start end a.3 (omega (arith, a.2, b)) b c d,
)

pub Ascends-raise :
    (lo hi hi' : ℕ) (l : List (ℕ × ℕ)) → hi ≤ hi' → Ascends lo l hi → Ascends lo l hi'
Ascends-raise lo hi hi' [] h a = tt
Ascends-raise lo hi hi' ((s, e) ∷ l) h a =
    (a.0, a.1, omega (arith, h, a.2), Ascends-raise (e + 1) hi hi' l h a.3)

pub is_missing-le :
    (lo hi n : ℕ) (l : List (ℕ × ℕ)) → Ascends lo l hi → hi < n → is_missing n l ≡ false
is_missing-le lo hi n [] a h = refl
is_missing-le lo hi n ((s, e) ∷ l) a h = ground (arith, h, a.2, is_missing-le (e + 1) hi n l a.3 h)
