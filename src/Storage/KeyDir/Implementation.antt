-- ===== src/Storage/KeyDir/Implementation.antt =====
-- The key directory of zendb-storage/src/backend/keydir.rs as an implementation of the traits in
-- zendb-storage/src/backend/_traits.rs. It does not fail here, since system calls do not.
use zendb.Prelude.{ℕ, Bool, Option, none, some, Ord, ◌≡◌, refl, sym, ap, ◌∙◌, arith, ok}
use zendb.Map.{lookup}
use zendb.Storage.Backend.{Backend, IsMap, is_some}
use zendb.Storage.KeyDir.{KeyDir, EntryMeta, live_record, get, put, delete}
use zendb.Storage.KeyDir.Rebuild.{Leads, Fits, contents}
use zendb.Storage.KeyDir.Refinement.{InSync, InSync-Tracks, get-contents}
use zendb.Storage.KeyDir.Operations.{keydir_put-get, keydir_delete-get}

module _ {K V : Type 0} ⦃k : Ord K⦄ (key_size : K → ℕ) (value_size : V → ℕ)
    (over_ratio : ℕ → ℕ → Bool) (E : Type 0) where
  unfoldable pub keydir_backend : Backend (KeyDir K V) K V E
  unfolding get put delete
  keydir_backend = record {
    get = λ d key. get key_size value_size d key;
    put = λ d key v. (put key_size value_size over_ratio d key v, ok tt);
    delete = λ d key. let (d', hit) = delete key_size value_size over_ratio d key in (d', ok hit);
  }

  delete_reports :
      (d : KeyDir K V) (key : K) (e : Option EntryMeta) (v : Option V)
      → Leads key_size value_size d.log key e v
      → lookup key d.index ≡ e
      → (delete key_size value_size over_ratio d key).1 ≡ is_some v
  unfolding delete
  delete_reports d key none none h e = rw (e, delete) refl
  delete_reports d key none (some v) h e = absurd h
  delete_reports d key (some meta) none h e = absurd h
  delete_reports d key (some meta) (some v) h e = rw (e, delete) refl

  delete-is_some :
      (d : KeyDir K V) (key : K)
      → InSync key_size value_size d
      → (delete key_size value_size over_ratio d key).1 ≡ is_some (get key_size value_size d key)
  delete-is_some d key s =
      delete_reports d key (lookup key d.index) (lookup key (contents d.log))
        ((InSync-Tracks key_size value_size d s).leads key) refl
      ∙ ap is_some (sym (get-contents key_size value_size d key s))

  -- A key directory is a map, in the states in which it is in step with its log, if every record is shorter
  -- than 2^32 bytes.
  pub keydir-IsMap :
      ((key : K) (v : V) → Fits key_size value_size (live_record v key))
      → IsMap keydir_backend (InSync key_size value_size)
  unfolding keydir_backend
  keydir-IsMap short = record {
    put_law = λ d key v s e. keydir_put-get key_size value_size over_ratio d key v (short key v) s;
    delete_law = λ d key hit s e.
        let both = keydir_delete-get key_size value_size over_ratio d key s in
        (both.0, ground (arith, e, delete-is_some d key s), both.1);
  }
