-- ===== src/Topic/Frame/Scan.antt =====
-- The scan of the active segment finds the complete records, and leaves a torn one out.
use zendb.Prelude.{
  ℕ, zero, suc, ◌+◌, ◌<◌, ◌≤◌, ◌^◌, ◌≡◌, refl, ap, ◌∙◌, arith, Bool-cases, true, false, some, List,
  [], ◌∷◌, ◌++◌, length, take, length-append, leb, ltb, ok, ◌⊎◌, inl, inr,
}
use zendb.Topic.Frame.{
  header, header_size, frame, u32_of, read_u32, scan_records, scan_active_segment, to_le_bytes,
  from_le_bytes,
}
use zendb.Topic.Frame.Codec.{
  frames, AllShort, Holds, Holds-next, Holds-frames, read_u32-frame, length-frame,
}

-- The bytes are too few for a record: for its length, or for its value.
abbrev pub IsTorn : List ℕ → Type 0
IsTorn tail =
    (length tail < 4) ⊎ ((size : ℕ) × (u32_of tail ≡ some size) × (length tail < 4 + size))

-- a record is complete: one round of the loop takes it
scan-frame :
    (fuel : ℕ) (file : List ℕ) (n at : ℕ) (p rest : List ℕ)
    → Holds file at (frame p ++ rest)
    → length p < 2 ^ 32
    → scan_records (suc fuel) file n at ≡ scan_records fuel file (suc n) (at + 4 + length p)
unfolding scan_records
scan-frame fuel file n at p rest h short =
    let total : length file ≡ at + (4 + length p + length rest) =
      omega (arith, h.1, length-append (frame p) rest, length-frame p) in
    let begins : leb (at + 4) (length file) ≡ true = ground (arith, total) in
    let ends : ltb (length file) (at + 4 + length p) ≡ false = ground (arith, total) in
    rw (begins, scan_records, read_u32-frame file at p rest h short, ends) refl

-- a torn record stops it
scan-IsTorn :
    (fuel : ℕ) (file : List ℕ) (n at : ℕ) (tail : List ℕ)
    → Holds file at tail
    → IsTorn tail
    → scan_records fuel file n at ≡ (n, at)
unfolding scan_records read_u32
scan-IsTorn zero file n at tail h torn = refl
scan-IsTorn (suc fuel) file n at tail h (inl few) =
    let begins : leb (at + 4) (length file) ≡ false = ground (arith, h.1, few) in
    rw (begins, scan_records) refl
scan-IsTorn (suc fuel) file n at tail h (inr (size, read, few)) =
    let ends : ltb (length file) (at + 4 + size) ≡ true = ground (arith, h.1, few) in
    elim (Bool-cases (leb (at + 4) (length file))) [
      | inr ends_early ↦ rw (ends_early, scan_records) refl
      | inl begins ↦ rw (begins, scan_records, h.0, read, ends) refl
    ]

pair-ap {ℓ κ} :
    {A : Type ℓ} {B : Type κ} {a c : A} {b d : B} → a ≡ c → b ≡ d → ◌≡◌ {A = A × B} (a, b) (c, d)
pair-ap p q = λ i. (p i, q i)

scan-frames :
    (fuel : ℕ) (file : List ℕ) (n at : ℕ) (ps : List (List ℕ)) (tail : List ℕ)
    → Holds file at (frames ps ++ tail)
    → AllShort ps
    → IsTorn tail
    → length ps ≤ fuel
    → scan_records fuel file n at ≡ (n + length ps, at + length (frames ps))
unfolding frames
scan-frames fuel file n at [] tail h short torn enough =
    scan-IsTorn fuel file n at tail h torn ∙ pair-ap (omega arith) (omega arith)
scan-frames zero file n at (p ∷ ps) tail h short torn enough = ground (arith, enough)
scan-frames (suc fuel) file n at (p ∷ ps) tail h short torn enough =
    let here = Holds-frames file at p ps tail h in
    scan-frame fuel file n at p (frames ps ++ tail) here short.0
    ∙ scan-frames fuel file (suc n) (at + 4 + length p) ps tail
        (Holds-next file at p (frames ps ++ tail) here) short.1 torn (omega (arith, enough))
    ∙ pair-ap (omega arith) (omega (arith, length-append (frame p) (frames ps), length-frame p))

length-take {ℓ} : {A : Type ℓ} (n : ℕ) (xs : List A) → n ≤ length xs → length (take n xs) ≡ n
length-take zero xs h = refl
length-take (suc n) [] h = ground (arith, h)
length-take (suc n) (x ∷ xs) h = omega (arith, length-take n xs (omega (arith, h)))

take-IsTorn :
    (n : ℕ) (p : List ℕ) → length p < 2 ^ 32 → n < 4 + length p → IsTorn (take n (frame p))
unfolding frame to_le_bytes u32_of from_le_bytes
take-IsTorn zero p short h = inl (omega arith)
take-IsTorn (suc zero) p short h = inl (omega arith)
take-IsTorn (suc (suc zero)) p short h = inl (omega arith)
take-IsTorn (suc (suc (suc zero))) p short h = inl (omega arith)
take-IsTorn (suc (suc (suc (suc n)))) p short h =
    inr (
      length p,
      ap some (omega (arith, short)),
      omega (arith, h, length-take n p (omega (arith, h))),
    )

length-frames : (ps : List (List ℕ)) → length ps ≤ length (frames ps)
unfolding frames
length-frames [] = omega arith
length-frames (p ∷ ps) =
    omega (arith, length-frames ps, length-append (frame p) (frames ps), length-frame p)

-- A segment file of complete records, each shorter than 2^32 bytes, whose last write was cut off:
-- of the bytes of one more record only the first `n` are there, fewer than all. The scan finds
-- the end offset and the length of the complete records, and the length of the file, so `open`
-- truncates the file to exactly the complete records.
pub scan_active_segment-torn :
    (base : ℕ) (ps : List (List ℕ)) (p : List ℕ) (n : ℕ)
    → AllShort (p ∷ ps)
    → n < length (frame p)
    → scan_active_segment (header ++ (frames ps ++ take n (frame p))) base
      ≡ ok (
        base + length ps,
        length (header ++ frames ps),
        length (header ++ (frames ps ++ take n (frame p))),
      )
unfolding scan_active_segment header to_le_bytes read_u32 u32_of from_le_bytes
scan_active_segment-torn base ps p n short cut =
    let file = header ++ (frames ps ++ take n (frame p)) in
    let scanned : scan_records (length file) file 0 header_size
        ≡ (length ps, length (header ++ frames ps)) =
      scan-frames (length file) file 0 header_size ps (take n (frame p)) (refl, omega arith) short.1
        (take-IsTorn n p short.0 (omega (arith, cut, length-frame p)))
        (omega (arith, length-frames ps, length-append (frames ps) (take n (frame p))))
      ∙ pair-ap (omega arith) (omega arith) in
    rw (scanned, scan_records) refl
