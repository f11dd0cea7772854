-- ===== src/Topic/Frame/Codec.antt =====
-- The records of a file, and a read of one.
use zendb.Prelude.{
  ℕ, ◌+◌, ◌%◌, ◌<◌, ◌^◌, ◌≡◌, refl, ap, ◌∙◌, arith, true, some, List, [], ◌∷◌, ◌++◌, length, drop,
  length-append, append_assoc, drop-add, drop-length_append, take-length_append, leb,
}
use zendb.Topic.Frame.{to_le_bytes, from_le_bytes, frame, u32_of, read_u32, read_exact, read_record}

-- The concatenation of the records.
unfoldable pub frames : List (List ℕ) → List ℕ
frames [] = []
frames (p ∷ ps) = frame p ++ frames ps

-- The records are short enough for a u32 length.
abbrev pub AllShort : List (List ℕ) → Type 0
AllShort [] = Unit
AllShort (p ∷ ps) = (length p < 2 ^ 32) × AllShort ps

-- Behind the position the file holds exactly `rest`.
abbrev pub Holds : List ℕ → ℕ → List ℕ → Type 0
Holds file at rest = (drop at file ≡ rest) × (length file ≡ at + length rest)

-- what stands behind a part of the file
pub Holds-drop :
    (file : List ℕ) (at : ℕ) (front rest : List ℕ)
    → Holds file at (front ++ rest)
    → Holds file (at + length front) rest
Holds-drop file at front rest h = (
  drop-add at (length front) file ∙ ap (drop (length front)) h.0 ∙ drop-length_append front rest,
  omega (arith, h.1, length-append front rest),
)

-- a list of records that is not empty begins with the first of them
pub Holds-frames :
    (file : List ℕ) (at : ℕ) (p : List ℕ) (ps : List (List ℕ)) (tail : List ℕ)
    → Holds file at (frames (p ∷ ps) ++ tail)
    → Holds file at (frame p ++ (frames ps ++ tail))
unfolding frames
Holds-frames file at p ps tail h =
    let same = append_assoc (frame p) (frames ps) tail in
    (h.0 ∙ same, h.1 ∙ ap (λ xs. at + length xs) same)

pub length-frame : (p : List ℕ) → length (frame p) ≡ 4 + length p
unfolding frame to_le_bytes
length-frame p = omega arith

pub u32_of-frame :
    (p rest : List ℕ) → length p < 2 ^ 32 → u32_of (frame p ++ rest) ≡ some (length p)
unfolding u32_of frame from_le_bytes to_le_bytes
u32_of-frame p rest h = ap some (omega arith)

pub read_u32-frame :
    (file : List ℕ) (at : ℕ) (p rest : List ℕ)
    → Holds file at (frame p ++ rest)
    → length p < 2 ^ 32
    → read_u32 file at ≡ some (length p)
unfolding read_u32
read_u32-frame file at p rest h short = ap u32_of h.0 ∙ u32_of-frame p rest short

-- behind the length stands the value
Holds-value :
    (file : List ℕ) (at : ℕ) (p rest : List ℕ)
    → Holds file at (frame p ++ rest)
    → Holds file (at + 4) (p ++ rest)
unfolding frame to_le_bytes
Holds-value file at p rest h = Holds-drop file at (to_le_bytes (length p % 2 ^ 32)) (p ++ rest) h

read_exact-value :
    (file : List ℕ) (at : ℕ) (p rest : List ℕ)
    → Holds file at (p ++ rest)
    → read_exact file at (length p) ≡ some p
unfolding read_exact
read_exact-value file at p rest h =
    let fits : leb (at + length p) (length file) ≡ true =
      ground (arith, h.1, length-append p rest) in
    rw (fits, h.0) (ap some (take-length_append p rest))

-- the next record is read back, with the position after it
pub read_record-frame :
    (file : List ℕ) (at : ℕ) (p rest : List ℕ)
    → Holds file at (frame p ++ rest)
    → length p < 2 ^ 32
    → read_record file at ≡ some (p, at + 4 + length p)
unfolding read_record
read_record-frame file at p rest h short =
    rw
      (
        read_u32-frame file at p rest h short,
        read_record,
        read_exact-value file (at + 4) p rest (Holds-value file at p rest h),
      )
      refl

-- and the rest of the file stands there
pub Holds-next :
    (file : List ℕ) (at : ℕ) (p rest : List ℕ)
    → Holds file at (frame p ++ rest)
    → Holds file (at + 4 + length p) rest
Holds-next file at p rest h = Holds-drop file (at + 4) p rest (Holds-value file at p rest h)
