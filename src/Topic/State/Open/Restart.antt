-- ===== src/Topic/State/Open/Restart.antt =====
-- A reopened topic (zendb-storage/src/topic.rs, open) has a consumer for each stored offset, which it has
-- committed.
use zendb.Prelude.{
  ℕ, ◌≡◌, refl, sym, ap, subst, ◌∙◌, arith, List, [], ◌∷◌, Ord, Result, ok, err, Result-cases, inl,
  inr,
}
use zendb.Map.{Map, lookup, IsSorted, Above}
use zendb.Topic.Frame.{ScanError}
use zendb.Topic.State.{Topic, TopicConfig, ConsumerState}
use zendb.Topic.State.Sync.{InSync, committed_of}
use zendb.Topic.State.Open.{open_topic, open_active, open_older, open_consumers}

module _ {N : Type 0} ⦃o : Ord N⦄ where
  open_consumers-Above :
      (n : N) (offsets : Map N ℕ) → Above n offsets → Above n (open_consumers offsets)
  open_consumers-Above n [] a = tt
  open_consumers-Above n ((m, offset) ∷ rest) a = (a.0, open_consumers-Above n rest a.1)

  open_consumers-IsSorted :
      (offsets : Map N ℕ) → IsSorted offsets → IsSorted (open_consumers offsets)
  open_consumers-IsSorted [] s = tt
  open_consumers-IsSorted ((m, offset) ∷ rest) s =
      (open_consumers-Above m rest s.0, open_consumers-IsSorted rest s.1)

  lookup-open_consumers :
      (offsets : Map N ℕ) (n : N)
      → lookup n offsets ≡ committed_of (lookup n (open_consumers offsets))
  unfolding lookup
  lookup-open_consumers [] n = refl
  lookup-open_consumers ((m, offset) ∷ rest) n = ground (arith, lookup-open_consumers rest n)

  offsets_of : Result ScanError (Topic N) → Map N ℕ
  offsets_of (ok u) = u.offsets
  offsets_of (err e) = []

  consumers_of : Result ScanError (Topic N) → Map N ConsumerState
  consumers_of (ok u) = u.consumers
  consumers_of (err e) = []

  stored :
      (config : TopicConfig) (offsets : Map N ℕ) (files : List (ℕ × List ℕ)) (base : ℕ)
      (file : List ℕ) (u : Topic N)
      → open_topic config offsets files (base, file) ≡ ok u
      → (offsets ≡ u.offsets) × (open_consumers offsets ≡ u.consumers)
  unfolding open_topic offsets_of consumers_of
  stored config offsets files base file u e = elim (Result-cases (open_active base file)) [
    | inr (x, f) ↦ absurd (ground (arith, e, f))
    | inl (active, f) ↦ elim (Result-cases (open_older files base)) [
      | inr (x, g) ↦ absurd (ground (arith, e, f, g))
      | inl (older, g) ↦
          let opened = open_topic config offsets files (base, file) in
          let given : offsets_of opened ≡ offsets = rw (f, open_topic, g) refl in
          let made : consumers_of opened ≡ open_consumers offsets = rw (f, open_topic, g) refl in
          (sym given ∙ ap offsets_of e, sym made ∙ ap consumers_of e)
    ]
  ]

  pub open_topic-InSync :
      (config : TopicConfig) (offsets : Map N ℕ) (files : List (ℕ × List ℕ)) (base : ℕ)
      (file : List ℕ) (u : Topic N)
      → IsSorted offsets
      → open_topic config offsets files (base, file) ≡ ok u
      → InSync u
  open_topic-InSync config offsets files base file u s e =
      let (kept, there) = stored config offsets files base file u e in
      (
        subst IsSorted there (open_consumers-IsSorted offsets s),
        subst IsSorted kept s,
        λ n.
            ap (lookup n) (sym kept)
            ∙ lookup-open_consumers offsets n
            ∙ ap (λ m. committed_of (lookup n m)) there,
      )
