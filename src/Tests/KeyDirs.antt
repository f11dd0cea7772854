-- ===== src/Tests/KeyDirs.antt =====
-- Key directories: a run, and the theorems on it.
use zendb.Prelude.{
  ℕ, ◌+◌, ◌^◌, arith, Option, List, nat_ord, ◌≡◌, refl, Bool, [], ◌∷◌, ok, some, none,
  if◌then◌else◌, eqb, ltb,
}
use zendb.Map.{lookup, insert, remove}
use zendb.Storage.KeyDir
use zendb.Storage.KeyDir.{KeyDir, live_record, size_of}
use zendb.Storage.KeyDir.Rebuild.{Fits}
use zendb.Storage.KeyDir.History
use zendb.Storage.KeyDir.History.{
  Call, put_call, delete_call, update_call, compact_call, run_calls, after_calls, CallsFit,
}
use zendb.Storage.KeyDir.Refinement.{InSync}
use zendb.Storage.KeyDir.Operations
use zendb.Storage.KeyDir.Operations.{FitsUnder}
use zendb.Storage.KeyDir.InPlace
use zendb.Storage.KeyDir.InPlace.{IsInPlace}

program : Unit {0}
unfolding lookup insert remove KeyDir.put KeyDir.delete KeyDir.get KeyDir.create KeyDir.update
    KeyDir.open_log KeyDir.rebuild_index KeyDir.contains KeyDir.put_if_absent KeyDir.replace
program = tt

-- keys of one byte and values of two
abbrev pub key_size : ℕ → ℕ
key_size k = 1

abbrev pub value_size : ℕ → ℕ
value_size v = 2

-- compact from one record's bytes on
abbrev pub over : ℕ → ℕ → Bool
over dead total = ltb 20 dead

-- what an update makes of a value
abbrev next_value : Option ℕ → Option ℕ
next_value none = none
next_value (some v) = some (v + 1)

abbrev put : KeyDir ℕ ℕ → ℕ → ℕ → KeyDir ℕ ℕ
put d k v = KeyDir.put key_size value_size over d k v

abbrev pub two_keys : KeyDir ℕ ℕ
two_keys = put (put (put KeyDir.create 1 10) 2 20) 1 11

-- the first record is dead
counted : two_keys.stats ≡ record { data_size = 37; dead_bytes = 11 }
unfolding program
counted = refl

read_back : KeyDir.get key_size value_size two_keys 1 ≡ some 11
unfolding program
read_back = refl

-- the second overwrite compacts
compacted : (put two_keys 2 21).log ≡ live_record 11 1 ∷ live_record 21 2 ∷ []
unfolding program
compacted = refl

pub two_keys-InSync : InSync key_size value_size two_keys
unfolding program
two_keys-InSync = (refl, (omega arith, (omega arith, (omega arith, tt))))

-- the sizes above, of any record
pub all-Fits : (k v : ℕ) → Fits key_size value_size (live_record v k)
unfolding size_of
all-Fits k v = omega arith

-- a value of 2^32 bytes, whose length is cut off
cut_off : (KeyDir.rebuild_index key_size (λ (v : ℕ). 2 ^ 32) (live_record 10 1 ∷ [])).cursor ≡ 13
unfolding program
cut_off = refl

-- 1 is put twice, 2 deleted, and 1 updated between two compactions
abbrev calls : List (Call ℕ ℕ)
calls =
    put_call 1 10
    ∷ put_call 2 20
    ∷ put_call 1 11
    ∷ delete_call 2
    ∷ compact_call
    ∷ update_call 1 next_value
    ∷ compact_call
    ∷ []

calls-Fit : CallsFit key_size value_size over calls
calls-Fit = (all-Fits 1 10, (all-Fits 2 20, (all-Fits 1 11, (tt, (tt, (next-Fits, (tt, tt)))))))
  where
    next-Fits : (current : Option ℕ) → FitsUnder key_size value_size over 1 (next_value current)
    next-Fits none = tt
    next-Fits (some v) = all-Fits 1 (v + 1)

open_log-run_calls_example :
    (KeyDir.open_log key_size value_size KeyDir.magic
        (run_calls key_size value_size over KeyDir.create calls).log
      ≡ ok (run_calls key_size value_size over KeyDir.create calls))
    × ((q : ℕ)
        → KeyDir.get key_size value_size (run_calls key_size value_size over KeyDir.create calls) q
          ≡ after_calls (λ key. none) calls q)
open_log-run_calls_example = History.open_log-run_calls key_size value_size over calls calls-Fit

keydir_put-get_example :
    InSync key_size value_size (KeyDir.put key_size value_size over two_keys 2 21)
    × ((q : ℕ)
        → KeyDir.get key_size value_size (KeyDir.put key_size value_size over two_keys 2 21) q
          ≡ (if eqb q 2 then some 21 else KeyDir.get key_size value_size two_keys q))
keydir_put-get_example =
    Operations.keydir_put-get key_size value_size over two_keys 2 21 (all-Fits 2 21) two_keys-InSync

keydir_delete-get_example :
    InSync key_size value_size (KeyDir.delete key_size value_size over two_keys 2).0
    × ((q : ℕ)
        → KeyDir.get key_size value_size (KeyDir.delete key_size value_size over two_keys 2).0 q
          ≡ (if eqb q 2 then none else KeyDir.get key_size value_size two_keys q))
keydir_delete-get_example =
    Operations.keydir_delete-get key_size value_size over two_keys 2 two_keys-InSync

sweep-IsInPlace_example : IsInPlace KeyDir.header_size (KeyDir.sort_by_offset two_keys.index)
sweep-IsInPlace_example = InPlace.sweep-IsInPlace key_size value_size two_keys two_keys-InSync
