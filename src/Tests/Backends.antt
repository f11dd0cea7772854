-- ===== src/Tests/Backends.antt =====
-- The methods of the backend traits, on key directories.
use zendb.Prelude.{ℕ, nat_ord, ◌≡◌, refl, false, [], ◌∷◌, ok, some, none, if◌then◌else◌}
use zendb.Map.{lookup, insert, remove}
use zendb.Storage.KeyDir
use zendb.Storage.KeyDir.{KeyDir}
use zendb.Storage.KeyDir.Refinement.{InSync}
use zendb.Storage.KeyDir.Implementation.{keydir_backend, keydir-IsMap}
use zendb.Storage.Backend.{Backend, bulk_put, bulk_delete, contains, put_if_absent, replace, update}
use zendb.Storage.Backend.Bulk
use zendb.Storage.Backend.Bulk.{last_value, held, is_among}
use zendb.Tests.KeyDirs.{key_size, value_size, over, two_keys, two_keys-InSync, all-Fits}

program : Unit {0}
unfolding lookup insert remove keydir_backend bulk_put bulk_delete contains put_if_absent replace
    update KeyDir.put KeyDir.delete KeyDir.get KeyDir.create
program = tt

abbrev key_dirs : Backend (KeyDir ℕ ℕ) ℕ ℕ ℕ
key_dirs = keydir_backend key_size value_size over ℕ

replaced : (replace key_dirs two_keys 2 22).1 ≡ ok (some 20)
unfolding program
replaced = refl

not_put : (put_if_absent key_dirs two_keys 2 22).1 ≡ ok false
unfolding program
not_put = refl

put_three : (bulk_put key_dirs two_keys ((3, 30) ∷ (2, 22) ∷ (3, 33) ∷ [])).1 ≡ ok tt
unfolding program
put_three = refl

-- 5 is not there, and 1 is gone the second time
deleted_one : (bulk_delete key_dirs two_keys (1 ∷ 5 ∷ 1 ∷ [])).1 ≡ ok 1
unfolding program
deleted_one = refl

bulk_put-get_example :
    InSync key_size value_size (bulk_put key_dirs two_keys ((3, 30) ∷ (2, 22) ∷ (3, 33) ∷ [])).0
    × ((q : ℕ)
        → key_dirs.get (bulk_put key_dirs two_keys ((3, 30) ∷ (2, 22) ∷ (3, 33) ∷ [])).0 q
          ≡ last_value q ((3, 30) ∷ (2, 22) ∷ (3, 33) ∷ []) (key_dirs.get two_keys q))
bulk_put-get_example =
    Bulk.bulk_put-get key_dirs (InSync key_size value_size)
      (keydir-IsMap key_size value_size over ℕ all-Fits) ((3, 30) ∷ (2, 22) ∷ (3, 33) ∷ []) two_keys
      two_keys-InSync put_three

bulk_delete-get_example :
    InSync key_size value_size (bulk_delete key_dirs two_keys (1 ∷ 5 ∷ 1 ∷ [])).0
    × (1 ≡ held (key_dirs.get two_keys) (1 ∷ 5 ∷ 1 ∷ []))
    × ((q : ℕ)
        → key_dirs.get (bulk_delete key_dirs two_keys (1 ∷ 5 ∷ 1 ∷ [])).0 q
          ≡ (if is_among q (1 ∷ 5 ∷ 1 ∷ []) then none else key_dirs.get two_keys q))
bulk_delete-get_example =
    Bulk.bulk_delete-get key_dirs (InSync key_size value_size)
      (keydir-IsMap key_size value_size over ℕ all-Fits) (1 ∷ 5 ∷ 1 ∷ []) two_keys 1 two_keys-InSync
      deleted_one
