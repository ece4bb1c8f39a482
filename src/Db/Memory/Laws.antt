-- ===== src/Db/Memory/Laws.antt =====
-- `CoreDbMemoryImpl` keeps the contract of a store, with its map as the entries.
use plasma_rust_framework.Prelude.{refl, List, [], ◌∷◌}
use plasma_rust_framework.Db.BTreeMap.{BTreeMap, IsSorted}
use plasma_rust_framework.Db.BTreeMap.Laws.{insert-IsSorted, remove-IsSorted}
use plasma_rust_framework.Db.Kvs.{Batch, put, del}
use plasma_rust_framework.Db.Store.{IsStore, HasPrefixIteration}
use plasma_rust_framework.Db.Memory.{memory, run, apply}

pub apply-IsSorted : (op : Batch) (m : BTreeMap) → IsSorted m → IsSorted (apply op m)
unfolding apply
apply-IsSorted (put k v) m s = insert-IsSorted k v m s
apply-IsSorted (del k) m s = remove-IsSorted k m s

pub run-IsSorted : (ops : List Batch) (m : BTreeMap) → IsSorted m → IsSorted (run ops m)
unfolding run
run-IsSorted [] m s = s
run-IsSorted (op ∷ ops) m s = run-IsSorted ops (apply op m) (apply-IsSorted op m s)

-- The memory store keeps the contract of a store with its map as the entries: reads, writes,
-- deletions, batches, and iterations whose test looks at the value alone, succeed, act as on a
-- sorted map, and keep the keys in order.
pub memory-IsStore : IsStore memory IsSorted (λ m. m)
memory-IsStore = record {
  sorted = λ m s. s;
  get_lem = λ k m s. refl;
  put_lem = λ k v m s. (refl, insert-IsSorted k v m s, refl);
  del_lem = λ k m s. (refl, remove-IsSorted k m s, refl);
  batch_lem = λ ops m s. (refl, run-IsSorted ops m s, refl);
  iter_all_lem = λ start f m s. refl;
}

pub memory-HasPrefixIteration : HasPrefixIteration memory IsSorted (λ m. m)
memory-HasPrefixIteration = record { iter_all_with_prefix_lem = λ prefix start f m s. refl }
