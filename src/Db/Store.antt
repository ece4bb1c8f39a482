-- ===== src/Db/Store.antt =====
-- The contract of a key-value store, by which its clients are proved: seen through `entries`, the
-- operations are those of a sorted map, and none of them fails; an iteration panics
-- only where its test does. Iterations
-- are described for tests that look at the value alone, as all tests of the callers do.
use plasma_rust_framework.Prelude.{◌≡◌, Bool, Option, List}
use plasma_rust_framework.Prelude.Bytes.{Bytes}
use plasma_rust_framework.Prelude.Result.{ok}
use plasma_rust_framework.Db.Key.{BaseDbKey, concat}
use plasma_rust_framework.Db.BTreeMap
use plasma_rust_framework.Db.BTreeMap.{BTreeMap, IsSorted}
use plasma_rust_framework.Db.Kvs.{Batch, KeyValueStore}
use plasma_rust_framework.Db.Memory.{scan, within, run}

module _ {S : Type 0} (store : KeyValueStore S) (Inv : S → Type 0) (entries : S → BTreeMap) where
  pub record IsStore : Type 0 where
    pub sorted : (s : S) → Inv s → IsSorted (entries s)
    pub get_lem : (k : BaseDbKey) (s : S) → Inv s → store.get k s ≡ ok (BTreeMap.get k (entries s))
    pub put_lem :
        (k : BaseDbKey) (v : Bytes) (s : S)
        → Inv s
        → ((store.put k v s).0 ≡ ok tt)
          × Inv (store.put k v s).1
          × (entries (store.put k v s).1 ≡ BTreeMap.insert k v (entries s))
    pub del_lem :
        (k : BaseDbKey) (s : S)
        → Inv s
        → ((store.del k s).0 ≡ ok tt)
          × Inv (store.del k s).1
          × (entries (store.del k s).1 ≡ BTreeMap.remove k (entries s))
    pub batch_lem :
        (ops : List Batch) (s : S)
        → Inv s
        → ((store.batch ops s).0 ≡ ok tt)
          × Inv (store.batch ops s).1
          × (entries (store.batch ops s).1 ≡ run ops (entries s))
    pub iter_all_lem :
        (start : BaseDbKey) (f : Bytes → Option Bool) (s : S)
        → Inv s
        → store.iter_all start (λ _ v. f v) s ≡ scan start (λ _ v. f v) (entries s)

  -- What a store owes to its buckets: an iteration with a prefix stays within the prefix.
  pub record HasPrefixIteration : Type 0 where
    pub iter_all_with_prefix_lem :
        (prefix start : BaseDbKey) (f : Bytes → Option Bool) (s : S)
        → Inv s
        → store.iter_all_with_prefix prefix start (λ _ v. f v) s
          ≡ scan (concat prefix start) (within prefix (λ _ v. f v)) (entries s)
