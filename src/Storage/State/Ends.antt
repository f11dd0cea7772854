-- ===== src/Storage/State/Ends.antt =====
-- The reads of an unordered state at either end (zendb-storage/src/backend/state.rs, first and last of the key
-- directory) agree with its sorted reads.
use zendb.Prelude.{
  Option, none, some, List, [], ◌∷◌, if◌then◌else◌, Ord, gtb, ◌≡◌, refl, ap, sym, ◌∙◌, arith,
  Bool-cases, inl, inr,
}
use zendb.Storage.State.{
  insert_row, sort_rows, insert_row_rev, sort_rows_rev, min_from, first, max_from, last,
}

module _ {K V : Type 0} ⦃k : Ord K⦄ where
  abbrev pub head : List (K × V) → Option (K × V)
  head [] = none
  head (r ∷ rows) = some r

  abbrev lesser : K × V → K × V → K × V
  lesser a b = if gtb a.0 b.0 then b else a

  abbrev greater : K × V → K × V → K × V
  greater a b = if gtb a.0 b.0 then a else b

  abbrev with_head : (K × V → K × V → K × V) → K × V → Option (K × V) → K × V
  with_head f r none = r
  with_head f r (some x) = f r x

  lesser_assoc : (a b c : K × V) → lesser (lesser a b) c ≡ lesser a (lesser b c)
  lesser_assoc a b c = ground (
    arith,
    k.cmp_iff a.0 b.0,
    k.cmp_iff b.0 c.0,
    k.cmp_reverse a.0 b.0,
    k.cmp_reverse b.0 c.0,
    k.cmp_reverse a.0 c.0,
    k.cmp_trans a.0 b.0 c.0,
    k.cmp_trans c.0 b.0 a.0,
  )

  greater_assoc : (a b c : K × V) → greater (greater a b) c ≡ greater a (greater b c)
  greater_assoc a b c = ground (
    arith,
    k.cmp_iff a.0 b.0,
    k.cmp_iff b.0 c.0,
    k.cmp_reverse a.0 b.0,
    k.cmp_reverse b.0 c.0,
    k.cmp_reverse a.0 c.0,
    k.cmp_trans a.0 b.0 c.0,
    k.cmp_trans c.0 b.0 a.0,
  )

  with_head_assoc :
      (f : K × V → K × V → K × V) (r x : K × V) (h : Option (K × V))
      → ((a b c : K × V) → f (f a b) c ≡ f a (f b c))
      → with_head f (f r x) h ≡ f r (with_head f x h)
  with_head_assoc f r x none assoc = refl
  with_head_assoc f r x (some y) assoc = assoc r x y

  head-insert_row :
      (r : K × V) (rows : List (K × V))
      → head (insert_row r rows) ≡ some (with_head lesser r (head rows))
  unfolding insert_row
  head-insert_row r [] = refl
  head-insert_row r (x ∷ rows) = elim (Bool-cases (gtb r.0 x.0)) [
    | inl e ↦ rw (e, insert_row) refl
    | inr e ↦ rw (e, insert_row) refl
  ]

  head-insert_row_rev :
      (r : K × V) (rows : List (K × V))
      → head (insert_row_rev r rows) ≡ some (with_head greater r (head rows))
  unfolding insert_row_rev
  head-insert_row_rev r [] = refl
  head-insert_row_rev r (x ∷ rows) = elim (Bool-cases (gtb r.0 x.0)) [
    | inl e ↦ rw (e, insert_row_rev) refl
    | inr e ↦ rw (e, insert_row_rev) refl
  ]

  min_from-head :
      (r : K × V) (rows : List (K × V))
      → min_from r rows ≡ with_head lesser r (head (sort_rows rows))
  unfolding min_from sort_rows
  min_from-head r [] = refl
  min_from-head r (x ∷ rows) =
      min_from-head (lesser r x) rows
      ∙ with_head_assoc lesser r x (head (sort_rows rows)) lesser_assoc
      ∙ ap (with_head lesser r) (sym (head-insert_row x (sort_rows rows)))

  max_from-head :
      (r : K × V) (rows : List (K × V))
      → max_from r rows ≡ with_head greater r (head (sort_rows_rev rows))
  unfolding max_from sort_rows_rev
  max_from-head r [] = refl
  max_from-head r (x ∷ rows) =
      max_from-head (greater r x) rows
      ∙ with_head_assoc greater r x (head (sort_rows_rev rows)) greater_assoc
      ∙ ap (with_head greater r) (sym (head-insert_row_rev x (sort_rows_rev rows)))

  -- On the entries of an unordered state, in any order, `first` is the first row of the rows sorted by their
  -- keys, and `last` the first row of `entries_rev`.
  pub first-sort_rows :
      (rows : List (K × V))
      → (first rows ≡ head (sort_rows rows)) × (last rows ≡ head (sort_rows_rev rows))
  unfolding first last sort_rows sort_rows_rev
  first-sort_rows [] = (refl, refl)
  first-sort_rows (r ∷ rows) = (
    ap some (min_from-head r rows) ∙ sym (head-insert_row r (sort_rows rows)),
    ap some (max_from-head r rows) ∙ sym (head-insert_row_rev r (sort_rows_rev rows)),
  )
