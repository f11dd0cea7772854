-- ===== src/Crdt/Text/Convergence.antt =====
-- Merging texts (zendb-types/src/crdt/values/text.rs) that agree on what was inserted and on what was
-- formatted: replicas converge.
use zendb.Prelude.{
  Bool, false, ◌||◌, Option, none, some, [], ◌∷◌, Ord, gtb, max, ◌≡◌, ◌↔◌, refl, ap, arith, ok, ◌∙◌,
  IsSemilattice, agree-IsSemilattice, wrap-IsSemilattice, pair-IsSemilattice, Any, nat_ord,
  pair_ord, option_ord, sym,
}
use zendb.Map.{Map, lookup}
use zendb.Map.Merge.{merge_entries}
use zendb.Map.Merge.Join
use zendb.Map.Merge.Join.{Valid, Each, OnSome, lookup-Each, combine}
use zendb.Map.Merge.Loop.{changes}
use zendb.Map.Merge.Convergence.{join-IsSemilattice}
use zendb.Map.Merge.Total.{loop-join, loop-IsSemilattice, loop-false_iff, changes_iff}
use zendb.Crdt.Stamp.{MergeStamps}
use zendb.Crdt.PriorityQueue.Entry.{clock_changes, merge_clock-join, clock_changes-false_iff}
use zendb.Crdt.Text.Defs.{TextId, TextContent, TextEntry, Text, same_content}
use zendb.Crdt.Text.Merge.{
  merge_attr, merge_attrs, merge_entry, merge, or_changed, find_difference, contents_differ,
  local_content,
}
use zendb.Crdt.Text.Entry.{
  AttrAgrees, later_attr, later_attr-IsSemilattice, merge_attr-later, attr_exact, ContentAgrees,
  join_content, content_changes, merge_content-join, content_exact, join_content-IsSemilattice,
  clock-IsSemilattice,
}

module _ {V S : Type 0} ⦃s : Ord S⦄ where
  abbrev pub attr_changes : Option V × S → Option V × S → Bool
  attr_changes a b = gtb b.1 a.1

module _ {K V S : Type 0} ⦃k : Ord K⦄ ⦃s : Ord S⦄ where
  abbrev join_entry : TextEntry K V S → TextEntry K V S → TextEntry K V S
  join_entry a b = record {
    content = join_content a.content b.content;
    deleted_at = combine max a.deleted_at b.deleted_at;
    attrs = Join.join later_attr a.attrs b.attrs;
  }

  abbrev entry_changes : TextEntry K V S → TextEntry K V S → Bool
  entry_changes a b =
      (content_changes a.content b.content || clock_changes a.deleted_at b.deleted_at)
      || changes attr_changes a.attrs b.attrs

module _ {K V S : Type 0} ⦃k : Ord K⦄ ⦃s : Ord S⦄ (written : TextId S → TextContent S)
    (formatted : TextId S → K → S → Option V) where
  -- The entry's content, if it is known, is what was inserted under its identifier, and each attribute
  -- is what the operation with its stamp set.
  abbrev pub EntryAgrees : TextId S → TextEntry K V S → Type 0
  EntryAgrees id e =
      (ContentAgrees (written id) e.content × Any e.deleted_at)
      × Valid (λ key. AttrAgrees (formatted id key)) e.attrs

  -- The entries are in the order of their identifiers, and each agrees.
  abbrev pub IsValid : Text K V S → Type 0
  IsValid t = Valid EntryAgrees t.entries

  merge_attrs-join :
      (id : TextId S) (a b : Map K (Option V × S))
      → Valid (λ key. AttrAgrees (formatted id key)) a
      → Valid (λ key. AttrAgrees (formatted id key)) b
      → merge_attrs a b ≡ (Join.join later_attr a b, ok (changes attr_changes a b))
  unfolding merge_attrs
  merge_attrs-join id a b p q =
      loop-join (λ key. merge_attr) attr_changes (λ key x y h i. merge_attr-later x y)
        (λ key. attr_exact (formatted id key)) (λ key. later_attr-IsSemilattice (formatted id key))
        a b p q

  merge_entry-join :
      (id : TextId S) (a b : TextEntry K V S)
      → EntryAgrees id a
      → EntryAgrees id b
      → merge_entry id a b ≡ (join_entry a b, ok (entry_changes a b))
  unfolding merge_entry or_changed
  merge_entry-join id a b p q = rw (
    merge_content-join a.content b.content,
    merge_clock-join a.deleted_at b.deleted_at,
    merge_attrs-join id a.attrs b.attrs p.1 q.1,
  )

  join_entry-IsSemilattice : (id : TextId S) → IsSemilattice (EntryAgrees id) join_entry
  join_entry-IsSemilattice id =
      wrap-IsSemilattice (λ x. record { content = x.0.0; deleted_at = x.0.1; attrs = x.1 })
        (λ e. ((e.content, e.deleted_at), e.attrs)) (λ x. refl) (λ e. refl) (λ e h. h) (λ x h. h)
        (pair-IsSemilattice _ (Valid (λ key. AttrAgrees (formatted id key))) _
          (Join.join later_attr)
          (pair-IsSemilattice (ContentAgrees (written id)) Any join_content (combine max)
            (join_content-IsSemilattice (written id)) clock-IsSemilattice)
          (join-IsSemilattice (λ key. later_attr-IsSemilattice (formatted id key))))

  attrs_exact :
      (id : TextId S) (a b : Map K (Option V × S))
      → Valid (λ key. AttrAgrees (formatted id key)) a
      → Valid (λ key. AttrAgrees (formatted id key)) b
      → (changes attr_changes a b ≡ false) ↔ (Join.join later_attr a b ≡ a)
  attrs_exact id a b p q =
      changes_iff (λ key. merge_attr) attr_changes (λ key x y h i. merge_attr-later x y)
        (λ key. attr_exact (formatted id key)) (λ key. later_attr-IsSemilattice (formatted id key))
        a b p q

  entry_exact :
      (id : TextId S) (a b : TextEntry K V S)
      → EntryAgrees id a
      → EntryAgrees id b
      → (entry_changes a b ≡ false) ↔ (join_entry a b ≡ a)
  entry_exact id a b p q =
      let contents = content_exact a.content b.content in
      let clocks = clock_changes-false_iff a.deleted_at b.deleted_at in
      let attrs = attrs_exact id a.attrs b.attrs p.1 q.1 in
      (
        λ h i. record {
          content = contents.0 (ground (arith, h)) i;
          deleted_at = clocks.0 (ground (arith, h)) i;
          attrs = attrs.0 (ground (arith, h)) i;
        },
        λ h. ground (
          arith,
          contents.1 (ap (λ (e : TextEntry K V S). e.content) h),
          clocks.1 (ap (λ (e : TextEntry K V S). e.deleted_at) h),
          attrs.1 (ap (λ (e : TextEntry K V S). e.attrs) h),
        ),
      )

  agreed_contents :
      (content : TextContent S) (c d : Option (TextContent S))
      → ContentAgrees content c
      → ContentAgrees content d
      → contents_differ c d ≡ false
  unfolding contents_differ same_content
  agreed_contents content none d p q = refl
  agreed_contents content (some c) none p q = refl
  agreed_contents content (some c) (some d) p q =
      ground (arith, p ∙ sym q, (option_ord {A = TextId S}).cmp_iff c.after d.after)

  found_content :
      (id : TextId S) (e : Option (TextEntry K V S))
      → OnSome (EntryAgrees id) e
      → ContentAgrees (written id) (local_content e)
  unfolding local_content
  found_content id none h = tt
  found_content id (some e) h = h.0.0

  -- texts that agree have no conflicting contents
  no_difference :
      (m rs : Map (TextId S) (TextEntry K V S))
      → Each EntryAgrees m
      → Each EntryAgrees rs
      → find_difference m rs ≡ none
  unfolding find_difference
  no_difference m [] p q = refl
  no_difference m ((id, e) ∷ rs) p q =
      rw
        (agreed_contents (written id) (local_content (lookup id m)) e.content
          (found_content id (lookup id m) (lookup-Each EntryAgrees id m p)) q.0.0.0)
        (no_difference m rs p q.1)

  merge-loop :
      (a b : Text K V S) (st : MergeStamps S)
      → IsValid a
      → IsValid b
      → merge a b st ≡ (
        record { entries = (merge_entries merge_entry false a.entries b.entries).0 },
        (merge_entries merge_entry false a.entries b.entries).1,
      )
  unfolding merge
  merge-loop a b st p q = rw (no_difference a.entries b.entries p.1 q.1, merge)

  entries-IsSemilattice :
      IsSemilattice (Valid EntryAgrees) (λ a b. (merge_entries merge_entry false a b).0)
  entries-IsSemilattice =
      loop-IsSemilattice merge_entry entry_changes merge_entry-join entry_exact
        join_entry-IsSemilattice

  -- Merging texts that agree on what was inserted under each identifier, and on what the operation of
  -- each stamp formatted, is commutative, associative and idempotent, and keeps the entries in order
  -- and in agreement.
  pub text_merge-IsSemilattice :
      (st : MergeStamps S) → IsSemilattice IsValid (λ a b. (merge a b st).0)
  text_merge-IsSemilattice st =
      agree-IsSemilattice _ (λ a b. (merge a b st).0)
        (λ a b p q. ap (λ x. x.0) (merge-loop a b st p q))
        (wrap-IsSemilattice (λ e. record { entries = e }) (λ t. t.entries) (λ e. refl) (λ t. refl)
          (λ t h. h) (λ e h. h) entries-IsSemilattice)

  -- A merge of texts that agree on what was inserted and formatted reports `Ok(false)` exactly when it
  -- leaves the text as it was.
  pub text_merge_changed_iff :
      (a b : Text K V S) (st : MergeStamps S)
      → IsValid a
      → IsValid b
      → ((merge a b st).1 ≡ ok false) ↔ ((merge a b st).0 ≡ a)
  text_merge_changed_iff a b st p q =
      let both =
        loop-false_iff merge_entry entry_changes merge_entry-join entry_exact
          join_entry-IsSemilattice a.entries b.entries p q in
      rw (merge-loop a b st p q)
        (λ e i. record { entries = both.0 e i }, λ e. both.1 (ap (λ (t : Text K V S). t.entries) e))
