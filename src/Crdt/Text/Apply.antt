-- ===== src/Crdt/Text/Apply.antt =====
-- `Text::apply` of zendb-types/src/crdt/values/text.rs: insertion, deletion and formatting.
use zendb.Prelude.{
  ℕ, ◌+◌, ◌-◌, ◌^◌, Bool, true, false, ◌||◌, ◌&&◌, not, Option, none, some, List, [], ◌∷◌,
  if◌then◌else◌, Ord, eqb, gtb, Result, ok, err, length, get_elem?, ltb, ◌==◌, nat_ord, pair_ord,
  option_ord,
}
use zendb.Map.{Map, lookup, insert}
use zendb.Crdt.Stamp.{MergeStamps}
use zendb.Crdt.PriorityQueue.{merge_clock}
use zendb.Crdt.Text.Defs.{
  TextId, TextContent, TextEntry, Text, TextOp, insert_op, delete_op, format_op, TextError,
  zero_clock, zero_id, self_anchor, too_long, insert_conflict, inserted, placeholder, same_content,
}

-- The greatest number of characters in one insertion, `u32::MAX`.
abbrev pub max_characters : ℕ
max_characters = 2 ^ 32 - 1

module _ {S : Type 0} ⦃s : Ord S⦄ where
  -- The test of an identifier against a stamp, in an `is_some_and` on an anchor.
  unfoldable pub anchored_at : S → Option (TextId S) → Bool
  anchored_at stamp none = false
  anchored_at stamp (some id) = eqb id.0 stamp

  unfoldable pub any_at : S → List (TextId S) → Bool
  any_at stamp [] = false
  any_at stamp (id ∷ ids) = eqb id.0 stamp || any_at stamp ids

  -- Where the character at an offset of an insertion belongs.
  unfoldable pub expected_after : S → Option (TextId S) → ℕ → Option (TextId S)
  expected_after stamp after offset = if offset == 0 then after else some (stamp, offset - 1)

  -- The content of an entry is the one that the insertion gives it.
  unfoldable pub is_expected : S → Option (TextId S) → List ℕ → ℕ → TextContent S → Bool
  unfolding expected_after same_content option_ord pair_ord
  is_expected stamp after characters offset content = elim (get_elem? characters offset) [
    | none ↦ false
    | some c ↦
        same_content content (record { after = expected_after stamp after offset; character = c })
  ]

  -- Whether an entry of this insertion has another content.
  unfoldable pub conflicts :
      S → Option (TextId S) → List ℕ → TextId S → Option (TextContent S) → Bool
  unfolding is_expected
  conflicts stamp after characters id none = false
  conflicts stamp after characters id (some content) =
      eqb id.0 stamp && not (is_expected stamp after characters id.1 content)

module _ {K V S : Type 0} ⦃s : Ord S⦄ where
  -- The check of an insertion against the entries of its stamp.
  unfoldable pub find_conflict :
      S → Option (TextId S) → List ℕ → Map (TextId S) (TextEntry K V S) → Option (TextId S)
  unfolding conflicts
  find_conflict stamp after characters [] = none
  find_conflict stamp after characters ((id, entry) ∷ entries) =
      if conflicts stamp after characters id entry.content
      then some id
      else find_conflict stamp after characters entries

  -- One character, by what the text has at its identifier.
  unfoldable pub put_character :
      Option (TextId S) → ℕ → Option (TextEntry K V S) → TextEntry K V S × Bool
  unfolding inserted
  put_character previous character none = (inserted previous character, true)
  put_character previous character (some entry) = elim entry.content [
    | none ↦
        (record entry { content = some (record { after = previous; character = character }) }, true)
    | some _ ↦ (entry, false)
  ]

  unfoldable pub put_characters :
      S
      → Option (TextId S)
      → ℕ
      → Bool
      → List ℕ
      → Map (TextId S) (TextEntry K V S)
      → Map (TextId S) (TextEntry K V S) × Bool
  unfolding put_character pair_ord
  put_characters stamp previous offset changed [] m = (m, changed)
  put_characters stamp previous offset changed (c ∷ cs) m =
      let (entry, now) = put_character previous c (lookup (stamp, offset) m) in
      put_characters stamp (some (stamp, offset)) (offset + 1) (changed || now) cs
        (insert (stamp, offset) entry m)

  -- One deletion, by what the text has there.
  unfoldable pub delete_entry : S → Option (TextEntry K V S) → TextEntry K V S × Bool
  unfolding placeholder merge_clock
  delete_entry stamp none = (placeholder (some stamp), true)
  delete_entry stamp (some entry) =
      let (at, changed) = merge_clock entry.deleted_at (some stamp) in
      (record entry { deleted_at = at }, changed)

  unfoldable pub delete_all :
      S
      → Bool
      → List (TextId S)
      → Map (TextId S) (TextEntry K V S)
      → Map (TextId S) (TextEntry K V S) × Bool
  unfolding delete_entry pair_ord
  delete_all stamp changed [] m = (m, changed)
  delete_all stamp changed (id ∷ ids) m =
      let (entry, now) = delete_entry stamp (lookup id m) in
      delete_all stamp (changed || (gtb stamp id.0 && now)) ids
        (if gtb stamp id.0 then insert id entry m else m)

module _ {K V S : Type 0} ⦃k : Ord K⦄ ⦃s : Ord S⦄ where
  -- The guarded store of an attribute: `Some` of a format, or `None` that removes it.
  unfoldable pub format_entry : S → K → Option V → TextEntry K V S → TextEntry K V S × Bool
  format_entry stamp key value entry = elim (lookup key entry.attrs) [
    | none ↦ (record entry { attrs = insert key (value, stamp) entry.attrs }, true)
    | some old ↦
        if gtb stamp old.1
        then (record entry { attrs = insert key (value, stamp) entry.attrs }, true)
        else (entry, false)
  ]

  unfoldable pub entry_or : Option (TextEntry K V S) → TextEntry K V S
  unfolding placeholder
  entry_or none = placeholder none
  entry_or (some entry) = entry

  unfoldable pub format_all :
      S
      → K
      → Option V
      → Bool
      → List (TextId S)
      → Map (TextId S) (TextEntry K V S)
      → Map (TextId S) (TextEntry K V S) × Bool
  unfolding format_entry entry_or pair_ord
  format_all stamp key value changed [] m = (m, changed)
  format_all stamp key value changed (id ∷ ids) m =
      let (entry, now) = format_entry stamp key value (entry_or (lookup id m)) in
      format_all stamp key value (changed || now) ids (insert id entry m)

module _ {K V S : Type 0} where
  -- A method on the map of entries, as one on the text.
  unfoldable pub with_entries :
      Map (TextId S) (TextEntry K V S) × Bool → Text K V S × Result (TextError S) Bool
  with_entries (entries, changed) = (record { entries = entries }, ok changed)

module _ {K V S : Type 0} ⦃k : Ord K⦄ ⦃s : Ord S⦄ where
  unfoldable pub insert_text :
      Text K V S → Option (TextId S) → List ℕ → S → Text K V S × Result (TextError S) Bool
  unfolding find_conflict put_characters with_entries
  insert_text self after characters stamp =
      if ltb max_characters (length characters)
      then (self, err too_long)
      else elim (find_conflict stamp after characters self.entries) [
        | some id ↦ (self, err (insert_conflict id))
        | none ↦ with_entries (put_characters stamp after 0 false characters self.entries)
      ]

  -- The operation behind the check of the clock.
  unfoldable pub apply_op :
      S → Text K V S → TextOp K V S → S → Text K V S × Result (TextError S) Bool
  unfolding insert_text delete_all format_all anchored_at any_at with_entries
  apply_op zero_stamp self (insert_op after characters) stamp =
      if anchored_at zero_stamp after
      then (self, err zero_id)
      else if anchored_at stamp after
      then (self, err self_anchor)
      else insert_text self after characters stamp
  apply_op zero_stamp self (delete_op ids) stamp =
      if any_at zero_stamp ids
      then (self, err zero_id)
      else with_entries (delete_all stamp false ids self.entries)
  apply_op zero_stamp self (format_op ids key value) stamp =
      if any_at zero_stamp ids
      then (self, err zero_id)
      else with_entries (format_all stamp key value false ids self.entries)

  unfoldable pub apply :
      S → Text K V S → TextOp K V S → MergeStamps S → Text K V S × Result (TextError S) Bool
  unfolding apply_op
  apply zero_stamp self op stamps =
      if eqb stamps.incoming zero_stamp
      then (self, err zero_clock)
      else apply_op zero_stamp self op stamps.incoming
