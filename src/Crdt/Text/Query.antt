-- ===== src/Crdt/Text/Query.antt =====
-- The queries of zendb-types/src/crdt/values/text.rs: the visible characters, their formats, and the
-- operation that formats an interval.
use zendb.Prelude.{
  ℕ, suc, Option, none, some, List, [], ◌∷◌, if◌then◌else◌, Ord, eqb, max, Result, ok, err, length,
  get_elem?, take, drop, ◌-◌, nat_ord, pair_ord, option_ord,
}
use zendb.Map.{Map, lookup}
use zendb.Crdt.Sequence
use zendb.Crdt.Text.Defs.{
  TextId, TextEntry, Text, TextOp, format_op, TextError, format_target_unknown, anchor, is_live,
}

module _ {K V S : Type 0} ⦃s : Ord S⦄ where
  unfoldable pub visible_ids : Text K V S → Option (List (TextId S))
  unfolding anchor is_live Sequence.visible_ids pair_ord
  visible_ids t = Sequence.visible_ids anchor is_live t.entries

  unfoldable pub id_at : Text K V S → ℕ → Option (TextId S)
  unfolding visible_ids
  id_at t index = elim (visible_ids t) [ none ↦ none | some ids ↦ get_elem? ids index ]

  unfoldable pub character_of : Option (TextEntry K V S) → Option ℕ
  character_of none = none
  character_of (some entry) = elim entry.content [ none ↦ none | some c ↦ some c.character ]

  unfoldable pub characters_of : Map (TextId S) (TextEntry K V S) → List (TextId S) → List ℕ
  unfolding character_of pair_ord
  characters_of m [] = []
  characters_of m (id ∷ ids) = elim (character_of (lookup id m)) [
    | none ↦ characters_of m ids
    | some c ↦ c ∷ characters_of m ids
  ]

  -- The visible characters in order.
  unfoldable pub string : Text K V S → Option (List ℕ)
  unfolding visible_ids characters_of
  string t = elim (visible_ids t) [ none ↦ none | some ids ↦ some (characters_of t.entries ids) ]

module _ {S : Type 0} ⦃s : Ord S⦄ where
  -- `iter().position(|candidate| *candidate == id)`.
  unfoldable pub position : TextId S → List (TextId S) → Option ℕ
  unfolding pair_ord
  position id [] = none
  position id (candidate ∷ ids) =
      if eqb candidate id
      then some 0
      else elim (position id ids) [ none ↦ none | some i ↦ some (suc i) ]

  -- An end of the interval: a visible character, or the default.
  unfoldable pub bound : ℕ → Option (TextId S) → List (TextId S) → Result (TextError S) ℕ
  unfolding position
  bound default none ids = ok default
  bound default (some id) ids = elim (position id ids) [
    | none ↦ err (format_target_unknown id)
    | some i ↦ ok i
  ]

module _ {K V S : Type 0} where
  -- The slice `visible[start..end.max(start)]`.
  unfoldable pub format_slice :
      List (TextId S)
      → K
      → Option V
      → ℕ
      → Result (TextError S) ℕ
      → Result (TextError S) (TextOp K V S)
  format_slice ids key value start (err e) = err e
  format_slice ids key value start (ok end) =
      ok (format_op (take (end - start) (drop start ids)) key value)

module _ {K V S : Type 0} ⦃s : Ord S⦄ where
  unfoldable pub format_between :
      List (TextId S)
      → Option (TextId S)
      → K
      → Option V
      → Result (TextError S) ℕ
      → Result (TextError S) (TextOp K V S)
  unfolding bound format_slice
  format_between ids end key value (err e) = err e
  format_between ids end key value (ok start) =
      format_slice ids key value start (bound (length ids) end ids)

  -- The operation that formats the visible characters of an interval.
  unfoldable pub format :
      Text K V S
      → Option (TextId S)
      → Option (TextId S)
      → K
      → Option V
      → Option (Result (TextError S) (TextOp K V S))
  unfolding visible_ids format_between bound
  format t start end key value = elim (visible_ids t) [
    | none ↦ none
    | some ids ↦ some (format_between ids end key value (bound 0 start ids))
  ]

module _ {S : Type 0} where
  unfoldable pub deleted_stamp : S → Option S → S
  deleted_stamp zero_stamp none = zero_stamp
  deleted_stamp zero_stamp (some at) = at

module _ {K V S : Type 0} where
  -- The attributes that are not removed.
  unfoldable pub active : Map K (Option V × S) → Map K V
  active [] = []
  active ((key, (none, stamp)) ∷ attrs) = active attrs
  active ((key, (some value, stamp)) ∷ attrs) = (key, value) ∷ active attrs

module _ {K V S : Type 0} ⦃s : Ord S⦄ where
  -- The formats of the character at an index.
  unfoldable pub format_at : Text K V S → ℕ → Option (Map K V)
  unfolding id_at active pair_ord
  format_at t index = elim (id_at t index) [
    | none ↦ none
    | some id ↦ elim (lookup id t.entries) [ none ↦ none | some entry ↦ some (active entry.attrs) ]
  ]

  -- The latest stamp in the attributes.
  unfoldable pub attrs_max : S → Map K (Option V × S) → S
  attrs_max acc [] = acc
  attrs_max acc ((key, (value, stamp)) ∷ attrs) = attrs_max (max acc stamp) attrs

  unfoldable pub max_stamps : S → S → Map (TextId S) (TextEntry K V S) → S
  unfolding attrs_max deleted_stamp
  max_stamps zero_stamp acc [] = acc
  max_stamps zero_stamp acc ((id, entry) ∷ entries) =
      max_stamps zero_stamp
        (max acc (
          max (max id.0 (deleted_stamp zero_stamp entry.deleted_at))
            (attrs_max zero_stamp entry.attrs)))
        entries

  unfoldable pub max_stamp : S → Text K V S → S
  unfolding max_stamps
  max_stamp zero_stamp t = max_stamps zero_stamp zero_stamp t.entries
