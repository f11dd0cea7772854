-- ===== src/Crdt/Text/Merge.antt =====
-- `Text::merge` of zendb-types/src/crdt/values/text.rs: a check of the contents, and the merge of the
-- entries.
use zendb.Prelude.{
  Bool, true, false, ◌||◌, not, Option, none, some, [], ◌∷◌, if◌then◌else◌, Ord, gtb, Result, ok,
  err, nat_ord, pair_ord,
}
use zendb.Map.{Map, lookup}
use zendb.Map.Merge.{merge_entries}
use zendb.Crdt.Stamp.{MergeStamps}
use zendb.Crdt.PriorityQueue.{merge_clock}
use zendb.Crdt.Text.Defs.{
  TextId, TextContent, TextEntry, Text, TextError, insert_conflict, same_content,
}

module _ {V S : Type 0} ⦃s : Ord S⦄ where
  -- One attribute of a merge: the later one.
  unfoldable pub merge_attr :
      Option V × S → Option V × S → (Option V × S) × Result (TextError S) Bool
  merge_attr local remote = if gtb remote.1 local.1 then (remote, ok true) else (local, ok false)

module _ {K V S : Type 0} ⦃k : Ord K⦄ ⦃s : Ord S⦄ where
  unfoldable pub merge_attrs :
      Map K (Option V × S) → Map K (Option V × S) → Map K (Option V × S) × Result (TextError S) Bool
  unfolding merge_attr
  merge_attrs local remote = merge_entries (λ key. merge_attr) false local remote

module _ {S : Type 0} where
  unfoldable pub merge_content :
      Option (TextContent S) → Option (TextContent S) → Option (TextContent S) × Bool
  merge_content none none = (none, false)
  merge_content none (some c) = (some c, true)
  merge_content (some c) d = (some c, false)

  unfoldable pub or_changed : Bool → Result (TextError S) Bool → Result (TextError S) Bool
  or_changed changed (ok now) = ok (changed || now)
  or_changed changed (err e) = err e

module _ {S : Type 0} ⦃s : Ord S⦄ where
  -- Two known contents that differ.
  unfoldable pub contents_differ : Option (TextContent S) → Option (TextContent S) → Bool
  unfolding same_content
  contents_differ none d = false
  contents_differ (some c) none = false
  contents_differ (some c) (some d) = not (same_content c d)

module _ {K V S : Type 0} where
  unfoldable pub local_content : Option (TextEntry K V S) → Option (TextContent S)
  local_content none = none
  local_content (some entry) = entry.content

module _ {K V S : Type 0} ⦃s : Ord S⦄ where
  -- The check of a merge before anything is written.
  unfoldable pub find_difference :
      Map (TextId S) (TextEntry K V S) → Map (TextId S) (TextEntry K V S) → Option (TextId S)
  unfolding contents_differ local_content pair_ord
  find_difference m [] = none
  find_difference m ((id, remote) ∷ rest) =
      if contents_differ (local_content (lookup id m)) remote.content
      then some id
      else find_difference m rest

module _ {K V S : Type 0} ⦃k : Ord K⦄ ⦃s : Ord S⦄ where
  unfoldable pub merge_entry :
      TextId S → TextEntry K V S → TextEntry K V S → TextEntry K V S × Result (TextError S) Bool
  unfolding merge_attrs merge_content merge_clock or_changed
  merge_entry id local remote =
      let (content, filled) = merge_content local.content remote.content in
      let (deleted_at, deleted) = merge_clock local.deleted_at remote.deleted_at in
      let (attrs, result) = merge_attrs local.attrs remote.attrs in
      (
        record { content = content; deleted_at = deleted_at; attrs = attrs },
        or_changed (filled || deleted) result,
      )

  unfoldable pub merge :
      Text K V S → Text K V S → MergeStamps S → Text K V S × Result (TextError S) Bool
  unfolding find_difference merge_entry pair_ord
  merge self remote stamps = elim (find_difference self.entries remote.entries) [
    | some id ↦ (self, err (insert_conflict id))
    | none ↦
        (let (entries, result) = merge_entries merge_entry false self.entries remote.entries in
          (record { entries = entries }, result))
  ]
