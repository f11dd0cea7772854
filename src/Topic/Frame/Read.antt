-- ===== src/Topic/Frame/Read.antt =====
-- A reader that skips to an offset reads the record that was written there.
use mathlib.Core.Option.{some-injective}
use zendb.Prelude.{
  ℕ, zero, suc, ◌+◌, ◌≡◌, refl, ap, subst, arith, some, List, [], ◌∷◌, ◌++◌, length, get_elem?, ◌<◌,
  ◌^◌,
}
use zendb.Topic.Frame.{frame, skip_records}
use zendb.Topic.Frame.Codec.{frames, AllShort, Holds, Holds-frames, Holds-next, read_u32-frame}

skip-frame :
    (n : ℕ) (file : List ℕ) (at : ℕ) (p rest : List ℕ)
    → Holds file at (frame p ++ rest)
    → length p < 2 ^ 32
    → skip_records (suc n) file at ≡ skip_records n file (at + 4 + length p)
unfolding skip_records
skip-frame n file at p rest h short =
    rw (read_u32-frame file at p rest h short, skip_records)
      (ap (λ next. skip_records n file next) (omega arith))

-- the reader that skips `n` records stands at the next one
pub skip-frames :
    (n : ℕ) (file : List ℕ) (at : ℕ) (ps : List (List ℕ)) (tail : List ℕ) (p : List ℕ)
    → Holds file at (frames ps ++ tail)
    → AllShort ps
    → get_elem? ps n ≡ some p
    → (cursor : ℕ) × (rest : List ℕ) × (skip_records n file at ≡ some cursor)
      × Holds file cursor (frame p ++ rest)
      × (length p < 2 ^ 32)
unfolding skip_records
skip-frames n file at [] tail p h short found = ground (arith, found)
skip-frames zero file at (q ∷ ps) tail p h short found =
    subst
      (λ p.
        (cursor : ℕ) × (rest : List ℕ) × (skip_records 0 file at ≡ some cursor)
        × Holds file cursor (frame p ++ rest)
        × (length p < 2 ^ 32))
      (some-injective _ _ found)
      (at, frames ps ++ tail, refl, Holds-frames file at q ps tail h, short.0)
skip-frames (suc n) file at (q ∷ ps) tail p h short found =
    let here = Holds-frames file at q ps tail h in
    rw (skip-frame n file at q (frames ps ++ tail) here short.0) (
      skip-frames n file (at + 4 + length q) ps tail p
        (Holds-next file at q (frames ps ++ tail) here) short.1 found)
