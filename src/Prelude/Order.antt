-- ===== src/Prelude/Order.antt =====
-- The traits `Ord` and `PartialEq`: a comparison with the laws of a total order. It stands for the derived orders of
-- the source's key types and, as a parameter, for the order of the third-party `PeerId`.
use Prim.Native.Nat.{ℕ, compare, Ordering}
use Prim.Native.Nat.Ordering.{lt, eq, gt}
use mathlib.Core.Path.{◌≡◌, refl, sym, ◌∙◌}
use mathlib.Core.Logic.{◌↔◌}
use mathlib.Core.Bool.{Bool, true, false}
use mathlib.Core.Option.{Option, none, some}
use native.Mathlib.Omega.{arith}
use zendb.Prelude.Tests.{if◌then◌else◌}

-- `Ordering::reverse`.
abbrev pub reverse : Ordering → Ordering
reverse lt = gt
reverse eq = eq
reverse gt = lt

-- `Ordering::then`: the first comparison that is not equal.
abbrev pub then_cmp : Ordering → Ordering → Ordering
then_cmp eq o = o
then_cmp lt o = lt
then_cmp gt o = gt

pub record Ord {ℓ} (A : Type ℓ) : Type ℓ where
  pub cmp : A → A → Ordering
  pub cmp_iff : (a b : A) → (cmp a b ≡ eq) ↔ (a ≡ b)
  pub cmp_reverse : (a b : A) → cmp b a ≡ reverse (cmp a b)
  pub cmp_trans : (a b c : A) → cmp a b ≡ lt → cmp b c ≡ lt → cmp a c ≡ lt

pub compare_iff : (a b : ℕ) → (compare a b ≡ eq) ↔ (a ≡ b)
compare_iff a b = ground arith

pub compare-reverse : (a b : ℕ) → compare b a ≡ reverse (compare a b)
compare-reverse a b = ground arith

pub compare_trans : (a b c : ℕ) → compare a b ≡ lt → compare b c ≡ lt → compare a c ≡ lt
compare_trans a b c h k = ground arith

instance abbrev pub nat_ord : Ord ℕ
nat_ord = record {
  cmp = compare;
  cmp_iff = compare_iff;
  cmp_reverse = compare-reverse;
  cmp_trans = compare_trans;
}

module _ {ℓ} {A : Type ℓ} ⦃o : Ord A⦄ where
  -- `a > b`.
  abbrev pub gtb : A → A → Bool
  gtb a b = elim (o.cmp a b) [ gt ↦ true | _ ↦ false ]

  -- `a == b`.
  abbrev pub eqb : A → A → Bool
  eqb a b = elim (o.cmp a b) [ eq ↦ true | _ ↦ false ]

  pub eqb_iff : (a b : A) → (eqb a b ≡ true) ↔ (a ≡ b)
  eqb_iff a b = ground (arith, o.cmp_iff a b)

  -- `std::cmp::max`: the second argument, unless the first is greater.
  unfoldable pub max : A → A → A
  max a b = if gtb a b then a else b

  pub cmp_refl : (a : A) → o.cmp a a ≡ eq
  cmp_refl a = (o.cmp_iff a a).1 refl

  pub max_comm : (a b : A) → max a b ≡ max b a
  unfolding max
  max_comm a b = ground (arith, o.cmp_reverse a b, o.cmp_iff a b)

  pub max_idem : (a : A) → max a a ≡ a
  unfolding max
  max_idem a = ground arith

  pub max_assoc : (a b c : A) → max (max a b) c ≡ max a (max b c)
  unfolding max
  max_assoc a b c = ground (
    arith,
    o.cmp_reverse a b,
    o.cmp_reverse b c,
    o.cmp_reverse a c,
    o.cmp_trans a b c,
    o.cmp_trans c b a,
    o.cmp_iff a b,
    o.cmp_iff b c,
    o.cmp_iff a c,
  )

  -- the guarded assignment `if r > l { l = r }` computes the maximum
  pub later-max : (l r : A) → (if gtb r l then r else l) ≡ max l r
  unfolding max
  later-max l r = ground (arith, o.cmp_reverse l r, o.cmp_iff l r)

  -- it leaves `l` alone exactly when the guard fails
  pub gtb-false_iff : (l r : A) → (gtb r l ≡ false) ↔ (max l r ≡ l)
  unfolding max
  gtb-false_iff l r = ground (arith, o.cmp_reverse l r, o.cmp_iff l r)

  -- above a maximum is above both
  pub gtb-max : (s a b : A) → gtb s (max a b) ≡ true → (gtb s a ≡ true) × (gtb s b ≡ true)
  unfolding max
  gtb-max s a b h = ground (
    arith,
    o.cmp_reverse s a,
    o.cmp_reverse s b,
    o.cmp_reverse a b,
    o.cmp_trans a b s,
    o.cmp_trans b a s,
    o.cmp_iff a b,
    o.cmp_reverse a s,
    o.cmp_reverse b s,
  )

  -- later than itself is nothing
  pub gtb-asym : (a b : A) → gtb a b ≡ true → gtb b a ≡ false
  gtb-asym a b h = ground (arith, o.cmp_reverse a b)

  -- No value is smaller: the zero stamp among the stamps.
  abbrev pub IsLeast : A → Type ℓ
  IsLeast z = (x : A) → max z x ≡ x

  pub least-not_later : (z : A) → IsLeast z → (x : A) → gtb z x ≡ false
  least-not_later z least x = (gtb-false_iff x z).1 (max_comm x z ∙ least x)

  pub least_of_not_later : (z : A) → IsLeast z → (x : A) → gtb x z ≡ false → x ≡ z
  least_of_not_later z least x h = sym (least x) ∙ (gtb-false_iff z x).0 h

-- The derived order of `Option`: `None` is the least.
unfoldable pub cmp_option {ℓ} : {A : Type ℓ} ⦃o : Ord A⦄ → Option A → Option A → Ordering
cmp_option none none = eq
cmp_option none (some b) = lt
cmp_option (some a) none = gt
cmp_option ⦃o⦄ (some a) (some b) = o.cmp a b

module _ {ℓ} {A : Type ℓ} ⦃o : Ord A⦄ where
  pub cmp_option_iff : (a b : Option A) → (cmp_option a b ≡ eq) ↔ (a ≡ b)
  unfolding cmp_option
  cmp_option_iff none none = ground arith
  cmp_option_iff none (some b) = ground arith
  cmp_option_iff (some a) none = ground arith
  cmp_option_iff (some a) (some b) = ground (arith, o.cmp_iff a b)

  pub cmp_option-reverse : (a b : Option A) → cmp_option b a ≡ reverse (cmp_option a b)
  unfolding cmp_option
  cmp_option-reverse none none = refl
  cmp_option-reverse none (some b) = refl
  cmp_option-reverse (some a) none = refl
  cmp_option-reverse (some a) (some b) = o.cmp_reverse a b

  pub cmp_option_trans :
      (a b c : Option A) → cmp_option a b ≡ lt → cmp_option b c ≡ lt → cmp_option a c ≡ lt
  unfolding cmp_option
  cmp_option_trans none none c h k = k
  cmp_option_trans none (some b) none h k = ground (arith, k)
  cmp_option_trans none (some b) (some c) h k = refl
  cmp_option_trans (some a) none c h k = ground (arith, h)
  cmp_option_trans (some a) (some b) none h k = ground (arith, k)
  cmp_option_trans (some a) (some b) (some c) h k = o.cmp_trans a b c h k

instance unfoldable pub option_ord {ℓ} : {A : Type ℓ} ⦃o : Ord A⦄ → Ord (Option A)
option_ord = record {
  cmp = cmp_option;
  cmp_iff = cmp_option_iff;
  cmp_reverse = cmp_option-reverse;
  cmp_trans = cmp_option_trans;
}

-- The derived order of a pair: lexicographic.
module _ {ℓ κ} {A : Type ℓ} {B : Type κ} ⦃o : Ord A⦄ ⦃p : Ord B⦄ where
  unfoldable pub cmp_pair : A × B → A × B → Ordering
  cmp_pair x y = then_cmp (o.cmp x.0 y.0) (p.cmp x.1 y.1)

  pub cmp_pair_iff : (x y : A × B) → (cmp_pair x y ≡ eq) ↔ (x ≡ y)
  unfolding cmp_pair
  cmp_pair_iff x y = ground (arith, o.cmp_iff x.0 y.0, p.cmp_iff x.1 y.1)

  pub cmp_pair-reverse : (x y : A × B) → cmp_pair y x ≡ reverse (cmp_pair x y)
  unfolding cmp_pair
  cmp_pair-reverse x y = ground (arith, o.cmp_reverse x.0 y.0, p.cmp_reverse x.1 y.1)

  pub cmp_pair_trans : (x y z : A × B) → cmp_pair x y ≡ lt → cmp_pair y z ≡ lt → cmp_pair x z ≡ lt
  unfolding cmp_pair
  cmp_pair_trans x y z h k = ground (
    arith,
    o.cmp_trans x.0 y.0 z.0,
    p.cmp_trans x.1 y.1 z.1,
    o.cmp_iff x.0 y.0,
    o.cmp_iff y.0 z.0,
    o.cmp_iff x.0 z.0,
  )

  instance unfoldable pub pair_ord : Ord (A × B)
  pair_ord = record {
    cmp = cmp_pair;
    cmp_iff = cmp_pair_iff;
    cmp_reverse = cmp_pair-reverse;
    cmp_trans = cmp_pair_trans;
  }

-- The trait `PartialEq`, where it decides equality.
pub record PartialEq {ℓ} (A : Type ℓ) : Type ℓ where
  pub beq : A → A → Bool
  pub beq_iff : (a b : A) → (beq a b ≡ true) ↔ (a ≡ b)

instance abbrev pub ord_eq {ℓ} : {A : Type ℓ} ⦃o : Ord A⦄ → PartialEq A
ord_eq = record { beq = eqb; beq_iff = eqb_iff }
