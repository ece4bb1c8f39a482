-- ===== src/Examples/Stores.antt =====
-- Concrete stores (db/src/impls/kvs).
use plasma_rust_framework.Prelude.{◌≡◌, refl, Bool, true, ◌&&◌, none, some, List, [], ◌∷◌, ltb}
use plasma_rust_framework.Db.BTreeMap
use plasma_rust_framework.Db.BTreeMap.{BTreeMap, IsSorted}
use plasma_rust_framework.Db.BTreeMap.Laws.{get-insert, get-remove, at}
use plasma_rust_framework.Db.Bucket.{new, as_store}
use plasma_rust_framework.Db.Bucket.Laws.{strip, bucket-IsStore}
use plasma_rust_framework.Db.Memory.{memory}
use plasma_rust_framework.Db.Memory.Contents.{written, listed, shown, test, memory_lem}
use plasma_rust_framework.Db.Memory.Laws.{memory-IsStore, memory-HasPrefixIteration}
use plasma_rust_framework.Db.Store.{IsStore}
use plasma_rust_framework.Db.GlobalMemory.{GlobalMemoryDb}
use plasma_rust_framework.Prelude.Bytes.{Bytes, cmp, starts_with}
use plasma_rust_framework.Prelude.Result.{ok}
use plasma_rust_framework.Db.Key.{BaseDbKey}
use plasma_rust_framework.Db.Kvs.{Batch, put, del, KeyValue}

abbrev two_entries : BTreeMap
two_entries = (97 ∷ [], 1 ∷ []) ∷ (98 ∷ [], 2 ∷ []) ∷ []

two_entries-IsSorted : IsSorted two_entries
unfolding cmp
two_entries-IsSorted = ((refl, tt), (tt, tt))

get-insert_example :
    BTreeMap.get (97 ∷ []) (BTreeMap.insert (98 ∷ []) (3 ∷ []) two_entries)
    ≡ at (cmp (97 ∷ []) (98 ∷ [])) (some (3 ∷ [])) (BTreeMap.get (97 ∷ []) two_entries)
get-insert_example = get-insert (98 ∷ []) (3 ∷ []) (97 ∷ []) two_entries

get-remove_example :
    BTreeMap.get (97 ∷ []) (BTreeMap.remove (97 ∷ []) two_entries)
    ≡ at (cmp (97 ∷ []) (97 ∷ [])) none (BTreeMap.get (97 ∷ []) two_entries)
get-remove_example = get-remove (97 ∷ []) (97 ∷ []) two_entries two_entries-IsSorted

-- The key 98 is put again, and 97 deleted.
abbrev changes : List Batch
changes = put (98 ∷ []) (3 ∷ []) ∷ put (97 ∷ []) (4 ∷ []) ∷ del (97 ∷ []) ∷ []

abbrev below_four : BaseDbKey → Bytes → Bool
below_four k [] = true
below_four k (b ∷ v) = ltb b 4

memory_lem_example :
    (db' : BTreeMap) × (memory.batch changes two_entries ≡ (ok tt, db'))
    × IsSorted db'
    × (memory.get (98 ∷ []) db'
        ≡ ok (written (98 ∷ []) changes (BTreeMap.get (98 ∷ []) two_entries)))
    × ((kvs : List KeyValue) × (memory.iter_all [] (test below_four) db' ≡ some kvs)
        × (listed (98 ∷ []) kvs ≡ shown below_four [] (98 ∷ []) db'))
    × ((kvs : List KeyValue) × (memory.iter_all_with_prefix (98 ∷ []) [] (test below_four) db'
          ≡ some kvs)
        × (listed (98 ∷ []) kvs
            ≡ shown (λ i v. starts_with i (98 ∷ []) && below_four i v) (98 ∷ []) (98 ∷ []) db'))
memory_lem_example =
    memory_lem changes (98 ∷ []) (98 ∷ []) [] below_four two_entries two_entries-IsSorted

bucket-IsStore_example : IsStore (as_store (new (97 ∷ []) memory)) IsSorted (λ s. strip (97 ∷ []) s)
bucket-IsStore_example =
    bucket-IsStore memory IsSorted (λ s. s) memory-IsStore memory-HasPrefixIteration (97 ∷ [])

abbrev alice : GlobalMemoryDb
alice = record { dbname = 97 ∷ [] }

abbrev bob : GlobalMemoryDb
bob = record { dbname = 98 ∷ [] }
