-- ===== src/Storage/KeyDir/History.antt =====
-- All histories of a key directory (zendb-storage/src/backend/keydir.rs): from `create`, by any calls of its
-- methods, the log keeps what the calls have left, and reopening the file gives the directory back.
use zendb.Prelude.{
  ℕ, Bool, Option, none, some, List, [], ◌∷◌, if◌then◌else◌, Ord, eqb, ◌≡◌, refl, sym, ap, subst,
  fun_ext, ◌∙◌, ok, Option-cases, inl, inr,
}
use zendb.Map.{lookup}
use zendb.Storage.Backend.{is_some}
use zendb.Storage.KeyDir.{
  KeyDir, EntryMeta, live_record, get, put, delete, put_if_absent, replace, update, compact, clear,
  create, open_log, magic, rebuild_index,
}
use zendb.Storage.KeyDir.Rebuild.{Leads, Fits, contents}
use zendb.Storage.KeyDir.Refinement.{InSync, InSync-Tracks, get-contents, compact-contents}
use zendb.Storage.KeyDir.Operations.{
  FitsUnder, open_log-InSync, keydir_put-get, keydir_delete-get, keydir_update-get,
}

-- A call of a method that changes the directory.
pub data Call (K V : Type 0) : Type 0 where
  put_call : K → V → Call K V
  delete_call : K → Call K V
  put_if_absent_call : K → V → Call K V
  replace_call : K → V → Call K V
  update_call : K → (Option V → Option V) → Call K V
  compact_call : Call K V
  clear_call : Call K V

module _ {K V : Type 0} ⦃k : Ord K⦄ where
  -- What the call makes of the map from keys to values.
  abbrev pub after_call : (K → Option V) → Call K V → K → Option V
  after_call f (put_call key v) q = if eqb q key then some v else f q
  after_call f (delete_call key) q = if eqb q key then none else f q
  after_call f (put_if_absent_call key v) q =
      if is_some (f key) then f q else if eqb q key then some v else f q
  after_call f (replace_call key v) q = if eqb q key then some v else f q
  after_call f (update_call key g) q = if eqb q key then g (f key) else f q
  after_call f compact_call q = f q
  after_call f clear_call q = none

  abbrev pub after_calls : (K → Option V) → List (Call K V) → K → Option V
  after_calls f [] = f
  after_calls f (c ∷ cs) = after_calls (after_call f c) cs

module _ {K V : Type 0} ⦃k : Ord K⦄ (key_size : K → ℕ) (value_size : V → ℕ)
    (over_ratio : ℕ → ℕ → Bool) where
  abbrev pub run_call : KeyDir K V → Call K V → KeyDir K V
  run_call d (put_call key v) = put key_size value_size over_ratio d key v
  run_call d (delete_call key) = (delete key_size value_size over_ratio d key).0
  run_call d (put_if_absent_call key v) = (put_if_absent key_size value_size over_ratio d key v).0
  run_call d (replace_call key v) = (replace key_size value_size over_ratio d key v).0
  run_call d (update_call key g) = update key_size value_size over_ratio d key g
  run_call d compact_call = compact key_size value_size d
  run_call d clear_call = clear d

  abbrev pub run_calls : KeyDir K V → List (Call K V) → KeyDir K V
  run_calls d [] = d
  run_calls d (c ∷ cs) = run_calls (run_call d c) cs

  -- The records that the call may write are shorter than 2^32 bytes.
  abbrev pub CallFits : Call K V → Type 0
  CallFits (put_call key v) = Fits key_size value_size (live_record v key)
  CallFits (delete_call key) = Unit
  CallFits (put_if_absent_call key v) = Fits key_size value_size (live_record v key)
  CallFits (replace_call key v) = Fits key_size value_size (live_record v key)
  CallFits (update_call key g) =
      (current : Option V) → FitsUnder key_size value_size over_ratio key (g current)
  CallFits compact_call = Unit
  CallFits clear_call = Unit

  abbrev pub CallsFit : List (Call K V) → Type 0
  CallsFit [] = Unit
  CallsFit (c ∷ cs) = CallFits c × CallsFit cs

  led :
      (d : KeyDir K V) (key : K) (e : Option EntryMeta) (v : Option V)
      → Leads key_size value_size d.log key e v
      → is_some e ≡ is_some v
  led d key none none h = refl
  led d key none (some v) h = absurd h
  led d key (some meta) none h = absurd h
  led d key (some meta) (some v) h = refl

  index-get :
      (d : KeyDir K V) (key : K)
      → InSync key_size value_size d
      → is_some (lookup key d.index) ≡ is_some (get key_size value_size d key)
  index-get d key s =
      led d key (lookup key d.index) (lookup key (contents d.log))
        ((InSync-Tracks key_size value_size d s).leads key)
      ∙ ap is_some (sym (get-contents key_size value_size d key s))

  -- the directory holds what the map does
  Holds : KeyDir K V → (K → Option V) → Type 0
  Holds d f = InSync key_size value_size d × ((q : K) → get key_size value_size d q ≡ f q)

  clear-Holds : (d : KeyDir K V) → Holds (clear d) (λ q. none)
  unfolding Holds clear get lookup rebuild_index
  clear-Holds d = ((refl, tt), λ q. refl)

  create-Holds : Holds create (λ q. none)
  unfolding Holds create get lookup rebuild_index
  create-Holds = ((refl, tt), λ q. refl)

  put_if_absent-Holds :
      (d : KeyDir K V) (key : K) (v : V)
      → Fits key_size value_size (live_record v key)
      → InSync key_size value_size d
      → Holds
          (put_if_absent key_size value_size over_ratio d key v).0
          (after_call (get key_size value_size d) (put_if_absent_call key v))
  unfolding put_if_absent Holds
  put_if_absent-Holds d key v f s = elim (Option-cases (lookup key d.index)) [
    | inl e ↦
        let missing = sym (index-get d key s) ∙ ap is_some e in
        rw (e, put_if_absent, missing) (keydir_put-get key_size value_size over_ratio d key v f s)
    | inr (old, e) ↦
        let present = sym (index-get d key s) ∙ ap is_some e in
        rw (e, put_if_absent, present) (s, λ q. refl)
  ]

  run_call-Holds :
      (d : KeyDir K V) (c : Call K V)
      → CallFits c
      → InSync key_size value_size d
      → Holds (run_call d c) (after_call (get key_size value_size d) c)
  unfolding Holds replace clear
  run_call-Holds d (put_call key v) f s = keydir_put-get key_size value_size over_ratio d key v f s
  run_call-Holds d (delete_call key) f s = keydir_delete-get key_size value_size over_ratio d key s
  run_call-Holds d (put_if_absent_call key v) f s = put_if_absent-Holds d key v f s
  run_call-Holds d (replace_call key v) f s =
      keydir_put-get key_size value_size over_ratio d key v f s
  run_call-Holds d (update_call key g) f s =
      keydir_update-get key_size value_size over_ratio d key g (f _) s
  run_call-Holds d compact_call f s =
      let (synced, empty, same) = compact-contents key_size value_size d s in
      (
        synced,
        λ q.
            get-contents key_size value_size (compact key_size value_size d) q synced
            ∙ same q
            ∙ sym (get-contents key_size value_size d q s),
      )
  run_call-Holds d clear_call f s = clear-Holds d

  run_calls-Holds :
      (cs : List (Call K V)) (d : KeyDir K V) (f : K → Option V)
      → CallsFit cs
      → Holds d f
      → Holds (run_calls d cs) (after_calls f cs)
  unfolding Holds
  run_calls-Holds [] d f fits h = h
  run_calls-Holds (c ∷ cs) d f fits h = run_calls-Holds cs (run_call d c) (after_call f c) fits.1 (
      subst (λ g. Holds (run_call d c) (after_call g c)) (fun_ext h.1)
        (run_call-Holds d c fits.0 h.0))

  -- Whatever calls a new directory has served, whose records are shorter than 2^32 bytes, opening its file
  -- gives the same directory: the same index, tail and count of dead bytes. It holds what the calls leave
  -- in a map from keys to values, where compactions leave everything.
  pub open_log-run_calls :
      (cs : List (Call K V))
      → CallsFit cs
      → let d = run_calls create cs in
        (open_log key_size value_size magic d.log ≡ ok d)
        × ((q : K) → get key_size value_size d q ≡ after_calls (λ key. none) cs q)
  unfolding Holds
  open_log-run_calls cs fits =
      let both = run_calls-Holds cs create (λ key. none) fits create-Holds in
      (open_log-InSync key_size value_size (run_calls create cs) both.0, both.1)
