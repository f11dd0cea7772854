-- ===== src/Prelude/Semilattice.antt =====
-- A join semilattice over the values that satisfy a predicate: what a state-based CRDT asks of its
-- merge, so that replicas which have seen the same updates agree.
use mathlib.Core.Path.{◌≡◌, ap, sym, ◌∙◌}
use zendb.Prelude.Order.{Ord, max, max_comm, max_assoc, max_idem}

pub record IsSemilattice {ℓ κ} {V : Type ℓ} (P : V → Type κ) (j : V → V → V) : Type (ℓ ⊔ κ) where
  pub closed : (a b : V) → P a → P b → P (j a b)
  pub comm : (a b : V) → P a → P b → j a b ≡ j b a
  pub assoc : (a b c : V) → P a → P b → P c → j (j a b) c ≡ j a (j b c)
  pub idem : (a : V) → P a → j a a ≡ a

-- every value
abbrev pub Any {ℓ} : {V : Type ℓ} → V → Type 0
Any v = Unit

pub max-IsSemilattice {ℓ} : {A : Type ℓ} ⦃o : Ord A⦄ → IsSemilattice {V = A} Any max
max-IsSemilattice = record {
  closed = λ a b p q. tt;
  comm = λ a b p q. max_comm a b;
  assoc = λ a b c p q r. max_assoc a b c;
  idem = λ a p. max_idem a;
}

module _ {ℓ κ μ ν} {A : Type ℓ} {B : Type κ} (P : A → Type μ) (Q : B → Type ν) where
  abbrev pub Both : A × B → Type (μ ⊔ ν)
  Both p = P p.0 × Q p.1

  -- two joins, side by side
  pub pair-IsSemilattice :
      (j : A → A → A) (k : B → B → B)
      → IsSemilattice P j
      → IsSemilattice Q k
      → IsSemilattice Both (λ x y. (j x.0 y.0, k x.1 y.1))
  pair-IsSemilattice j k s t = record {
    closed = λ a b p q. (s.closed a.0 b.0 p.0 q.0, t.closed a.1 b.1 p.1 q.1);
    comm = λ a b p q i. (s.comm a.0 b.0 p.0 q.0 i, t.comm a.1 b.1 p.1 q.1 i);
    assoc = λ a b c p q r i. (s.assoc a.0 b.0 c.0 p.0 q.0 r.0 i, t.assoc a.1 b.1 c.1 p.1 q.1 r.1 i);
    idem = λ a p i. (s.idem a.0 p.0 i, t.idem a.1 p.1 i);
  }

-- The same join on another representation of the values.
pub wrap-IsSemilattice {ℓ κ μ ν} :
    {A : Type ℓ} {B : Type κ} {P : A → Type μ} {Q : B → Type ν} {j : A → A → A} (wrap : A → B)
    (open_up : B → A)
    → ((a : A) → open_up (wrap a) ≡ a)
    → ((b : B) → wrap (open_up b) ≡ b)
    → ((b : B) → Q b → P (open_up b))
    → ((a : A) → P a → Q (wrap a))
    → IsSemilattice P j
    → IsSemilattice Q (λ a b. wrap (j (open_up a) (open_up b)))
wrap-IsSemilattice {j = j} wrap open_up back forth to from s = record {
  closed = λ a b p q. from _ (s.closed (open_up a) (open_up b) (to a p) (to b q));
  comm = λ a b p q. ap wrap (s.comm (open_up a) (open_up b) (to a p) (to b q));
  assoc = λ a b c p q r.
      rw (back (j (open_up a) (open_up b)), back (j (open_up b) (open_up c)))
        (ap wrap (s.assoc (open_up a) (open_up b) (open_up c) (to a p) (to b q) (to c r)));
  idem = λ a p. ap wrap (s.idem (open_up a) (to a p)) ∙ forth a;
}

-- updates that are joined in commute
pub join-swap {ℓ κ} :
    {V : Type ℓ} {P : V → Type κ} (j : V → V → V)
    → IsSemilattice P j
    → (a b c : V) → P a
    → P b
    → P c
    → j (j a b) c ≡ j (j a c) b
join-swap j s a b c p q r =
    s.assoc a b c p q r ∙ ap (j a) (s.comm b c q r) ∙ sym (s.assoc a c b p r q)

-- A function that computes a join where it is used is a join.
pub agree-IsSemilattice {ℓ κ} :
    {V : Type ℓ} {P : V → Type κ} (j k : V → V → V)
    → ((a b : V) → P a → P b → k a b ≡ j a b)
    → IsSemilattice P j
    → IsSemilattice P k
agree-IsSemilattice j k e s = record {
  closed = λ a b p q. rw (e a b p q) (s.closed a b p q);
  comm = λ a b p q. rw (e a b p q, e b a q p) (s.comm a b p q);
  assoc = λ a b c p q r.
      rw (e a b p q, e b c q r, e (j a b) c (s.closed a b p q) r, e a (j b c) p (s.closed b c q r))
        (s.assoc a b c p q r);
  idem = λ a p. rw (e a a p p) (s.idem a p);
}
