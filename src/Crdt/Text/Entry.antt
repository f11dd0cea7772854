-- ===== src/Crdt/Text/Entry.antt =====
-- Merging two entries of a text (zendb-types/src/crdt/values/text.rs) that agree on what was written:
-- they join.
use zendb.Prelude.{
  Bool, true, false, Option, none, some, Ord, gtb, max, ◌≡◌, ◌↔◌, refl, ap, arith, Result, ok, ◌∙◌,
  IsSemilattice, Any, if◌then◌else◌, sym, cmp_refl,
}
use zendb.Map.Merge.Join.{combine}
use zendb.Crdt.PriorityQueue.Entry.{clock_comm, clock_assoc, clock_idem}
use zendb.Crdt.Text.Defs.{TextContent, TextError}
use zendb.Crdt.Text.Merge.{merge_attr, merge_content}

module _ {V S : Type 0} ⦃s : Ord S⦄ where
  abbrev pub later_attr : Option V × S → Option V × S → Option V × S
  later_attr a b = if gtb b.1 a.1 then b else a

  pub merge_attr-later :
      (a b : Option V × S)
      → ◌≡◌ {A = (Option V × S) × Result (TextError S) Bool}
          (merge_attr a b)
          (later_attr a b, ok (gtb b.1 a.1))
  unfolding merge_attr
  merge_attr-later a b = ground arith

module _ {V S : Type 0} ⦃s : Ord S⦄ (written : S → Option V) where
  -- The attribute is what the operation with its stamp set.
  abbrev pub AttrAgrees : Option V × S → Type 0
  AttrAgrees a = a.0 ≡ written a.1

  attr-unique :
      (a b : Option V × S) → AttrAgrees a → AttrAgrees b → a.1 ≡ b.1 → ◌≡◌ {A = Option V × S} a b
  attr-unique a b p q e i = ((p ∙ ap written e ∙ sym q) i, e i)

  pub later_attr-IsSemilattice : IsSemilattice AttrAgrees later_attr
  later_attr-IsSemilattice = record {
    closed = λ a b p q. ground arith;
    comm = λ a b p q. ground (arith, attr-unique a b p q, s.cmp_iff a.1 b.1, s.cmp_reverse a.1 b.1);
    assoc = λ a b c p q r. ground (
      arith,
      s.cmp_iff a.1 b.1,
      s.cmp_iff b.1 c.1,
      s.cmp_reverse a.1 b.1,
      s.cmp_reverse b.1 c.1,
      s.cmp_reverse a.1 c.1,
      s.cmp_trans a.1 b.1 c.1,
      s.cmp_trans c.1 b.1 a.1,
    );
    idem = λ a p. ground arith;
  }

  pub attr_exact :
      (a b : Option V × S)
      → AttrAgrees a
      → AttrAgrees b
      → (gtb b.1 a.1 ≡ false) ↔ (later_attr a b ≡ a)
  attr_exact a b p q = ground (arith, attr-unique a b p q, cmp_refl a.1)

module _ {S : Type 0} (content : TextContent S) where
  -- A known content is the one that was inserted.
  abbrev pub ContentAgrees : Option (TextContent S) → Type 0
  ContentAgrees none = Unit
  ContentAgrees (some c) = c ≡ content

module _ {S : Type 0} where
  abbrev pub join_content : Option (TextContent S) → Option (TextContent S) → Option (TextContent S)
  join_content none d = d
  join_content (some c) d = some c

  abbrev pub content_changes : Option (TextContent S) → Option (TextContent S) → Bool
  content_changes none none = false
  content_changes none (some d) = true
  content_changes (some c) d = false

  pub merge_content-join :
      (c d : Option (TextContent S)) → merge_content c d ≡ (join_content c d, content_changes c d)
  unfolding merge_content
  merge_content-join none none = refl
  merge_content-join none (some d) = refl
  merge_content-join (some c) d = refl

  pub content_exact :
      (c d : Option (TextContent S)) → (content_changes c d ≡ false) ↔ (join_content c d ≡ c)
  content_exact none none = ground arith
  content_exact none (some d) = ground arith
  content_exact (some c) d = ground arith

  content_comm :
      (content : TextContent S) (c d : Option (TextContent S))
      → ContentAgrees content c
      → ContentAgrees content d
      → join_content c d ≡ join_content d c
  content_comm content none none p q = refl
  content_comm content none (some d) p q = refl
  content_comm content (some c) none p q = refl
  content_comm content (some c) (some d) p q = ap some (p ∙ sym q)

  content_closed :
      (content : TextContent S) (c d : Option (TextContent S))
      → ContentAgrees content c
      → ContentAgrees content d
      → ContentAgrees content (join_content c d)
  content_closed content none d p q = q
  content_closed content (some c) d p q = p

  content_assoc :
      (a b c : Option (TextContent S))
      → join_content (join_content a b) c ≡ join_content a (join_content b c)
  content_assoc none b c = refl
  content_assoc (some a) b c = refl

  content_idem : (a : Option (TextContent S)) → join_content a a ≡ a
  content_idem none = refl
  content_idem (some a) = refl

  pub join_content-IsSemilattice :
      (content : TextContent S) → IsSemilattice (ContentAgrees content) join_content
  join_content-IsSemilattice content = record {
    closed = content_closed content;
    comm = content_comm content;
    assoc = λ a b c p q r. content_assoc a b c;
    idem = λ a p. content_idem a;
  }

module _ {S : Type 0} ⦃s : Ord S⦄ where
  pub clock-IsSemilattice : IsSemilattice {V = Option S} Any (combine max)
  clock-IsSemilattice = record {
    closed = λ a b p q. tt;
    comm = λ a b p q. clock_comm a b;
    assoc = λ a b c p q r. clock_assoc a b c;
    idem = λ a p. clock_idem a;
  }
