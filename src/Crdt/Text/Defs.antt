-- ===== src/Crdt/Text/Defs.antt =====
-- The data of zendb-types/src/crdt/values/text.rs. A character is its code point; the keys of the
-- attributes are any type with a total order, their values any type.
use zendb.Prelude.{
  ℕ, Bool, true, false, ◌&&◌, Option, none, some, List, [], Ord, eqb, gtb, ◌==◌, nat_ord, pair_ord,
  option_ord,
}
use zendb.Map.{Map}

abbrev pub TextId : Type 0 → Type 0
TextId S = S × ℕ

pub record TextContent (S : Type 0) : Type 0 where
  pub after : Option (TextId S)
  pub character : ℕ

-- The attributes are formats with the stamp of the operation that set them, or removed them.
pub record TextEntry (K V S : Type 0) : Type 0 where
  pub content : Option (TextContent S)
  pub deleted_at : Option S
  pub attrs : Map K (Option V × S)

pub record Text (K V S : Type 0) : Type 0 where
  pub entries : Map (TextId S) (TextEntry K V S)

pub data TextOp (K V S : Type 0) : Type 0 where
  insert_op : Option (TextId S) → List ℕ → TextOp K V S
  delete_op : List (TextId S) → TextOp K V S
  format_op : List (TextId S) → K → Option V → TextOp K V S

pub data TextError (S : Type 0) : Type 0 where
  zero_clock : TextError S
  zero_id : TextError S
  self_anchor : TextError S
  too_long : TextError S
  insert_conflict : TextId S → TextError S
  format_target_unknown : TextId S → TextError S

module _ {K V S : Type 0} where
  unfoldable pub inserted : Option (TextId S) → ℕ → TextEntry K V S
  inserted after character = record {
    content = some (record { after = after; character = character });
    deleted_at = none;
    attrs = [];
  }

  unfoldable pub placeholder : Option S → TextEntry K V S
  placeholder deleted_at = record { content = none; deleted_at = deleted_at; attrs = [] }

  unfoldable pub anchor : TextEntry K V S → Option (Option (TextId S))
  anchor entry = elim entry.content [ none ↦ none | some content ↦ some content.after ]

module _ {S : Type 0} ⦃s : Ord S⦄ where
  -- `PartialEq` of contents.
  unfoldable pub same_content : TextContent S → TextContent S → Bool
  unfolding option_ord pair_ord
  same_content a b = eqb a.after b.after && a.character == b.character

module _ {K V S : Type 0} ⦃s : Ord S⦄ where
  -- The character is there, and was not deleted after its insertion.
  unfoldable pub is_live : TextId S → TextEntry K V S → Bool
  is_live id entry = elim entry.content [
    | none ↦ false
    | some _ ↦ elim entry.deleted_at [ none ↦ true | some deleted ↦ gtb id.0 deleted ]
  ]
