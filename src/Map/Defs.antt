-- ===== src/Map/Defs.antt =====
-- The operations of an ordered map.
use Prim.Native.Nat.Ordering.{lt, eq, gt}
use zendb.Prelude.{
  Bool, true, false, Option, none, some, List, [], ◌∷◌, if◌then◌else◌, Ord, eqb, ◌≡◌,
}

abbrev pub Map {ℓ κ} : Type ℓ → Type κ → Type (ℓ ⊔ κ)
Map K V = List (K × V)

module _ {ℓ κ} {K : Type ℓ} {V : Type κ} where
  abbrev pub keys : Map K V → List K
  keys [] = []
  keys ((k, v) ∷ m) = k ∷ keys m

  abbrev pub values : Map K V → List V
  values [] = []
  values ((k, v) ∷ m) = v ∷ values m

module _ {ℓ κ} {K : Type ℓ} {V : Type κ} ⦃o : Ord K⦄ where
  -- `BTreeMap::get`.
  unfoldable pub lookup : K → Map K V → Option V
  lookup q [] = none
  lookup q ((k, v) ∷ m) = if eqb q k then some v else lookup q m

  abbrev pub contains_key : K → Map K V → Bool
  contains_key q m = elim (lookup q m) [ none ↦ false | some _ ↦ true ]

  -- `BTreeMap::insert`, which replaces the value of a key that is there.
  unfoldable pub insert : K → V → Map K V → Map K V
  insert q w [] = (q, w) ∷ []
  insert q w ((k, v) ∷ m) = elim (o.cmp q k) [
    | lt ↦ (q, w) ∷ (k, v) ∷ m
    | eq ↦ (q, w) ∷ m
    | gt ↦ (k, v) ∷ insert q w m
  ]

  -- `BTreeMap::remove`.
  unfoldable pub remove : K → Map K V → Map K V
  remove q [] = []
  remove q ((k, v) ∷ m) = if eqb q k then m else (k, v) ∷ remove q m

  -- Every key of the map is greater than `b`.
  abbrev pub Above : K → Map K V → Type 0
  Above b [] = Unit
  Above b ((k, v) ∷ m) = (o.cmp b k ≡ lt) × Above b m

  -- The keys ascend strictly.
  abbrev pub IsSorted : Map K V → Type 0
  IsSorted [] = Unit
  IsSorted ((k, v) ∷ m) = Above k m × IsSorted m
