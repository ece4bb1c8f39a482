-- ===== src/Db/GlobalMemory/Laws.antt =====
-- The stores that share the global map (db/src/impls/kvs/global_memory.rs).
use plasma_rust_framework.Prelude.{
  ◌+◌, ◌≤◌, ◌<◌, Ordering, ◌≡◌, refl, ◌∙◌, true, false, some, [], ◌∷◌, ◌++◌, append_assoc, arith,
  length, drop, length-append, length-drop,
}
use plasma_rust_framework.Prelude.Bytes.{
  Bytes, cmp, cmp-append, starts_with, starts_with-append, eq_of_cmp,
}
use plasma_rust_framework.Db.Key.{BaseDbKey, remove_prefix}
use plasma_rust_framework.Db.BTreeMap
use plasma_rust_framework.Db.BTreeMap.{BTreeMap, IsSorted}
use plasma_rust_framework.Db.BTreeMap.Laws.{get-insert}
use plasma_rust_framework.Db.Bucket.{new, iter_all, remove_prefixes}
use plasma_rust_framework.Db.Memory.{scan}
use plasma_rust_framework.Db.GlobalMemory.{GlobalMemoryDb, as_store}

-- A write to one database does not change what another one reads at a key, where the whole key read
-- does not begin with the name of the first.
pub global_put_other :
    (a b : GlobalMemoryDb) (k j v : BaseDbKey) (m : BTreeMap)
    → starts_with (b.dbname ++ j) a.dbname ≡ false
    → (as_store b).get j ((as_store a).put k v m).1 ≡ (as_store b).get j m
global_put_other a b k j v m h = ground (
  arith,
  get-insert (a.dbname ++ k) v (b.dbname ++ j) m,
  eq_of_cmp (b.dbname ++ j) (a.dbname ++ k),
  starts_with-append a.dbname k,
)

cmp-nil : (k : Bytes) → 0 < length k → cmp k [] ≡ Ordering.gt
unfolding cmp
cmp-nil [] h = absurd (omega arith)
cmp-nil (c ∷ k) h = refl

behind_start :
    (name p k : Bytes) → 0 < length k → cmp (name ++ (p ++ k)) ((name ++ p) ++ []) ≡ Ordering.gt
behind_start name p k h = rw (← append_assoc name p k) (cmp-append (name ++ p) k [] ∙ cmp-nil k h)

under_prefix : (name p k : Bytes) → starts_with (name ++ (p ++ k)) (name ++ p) ≡ true
under_prefix name p k = rw (← append_assoc name p k) (starts_with-append (name ++ p) k)

lengths : (name p k : Bytes) → length p ≤ length (name ++ (p ++ k))
lengths name p k = omega (arith, length-append name (p ++ k), length-append p k)

remove_prefix_long :
    (key p : Bytes) → length p ≤ length key → remove_prefix key p ≡ some (drop (length p) key)
unfolding remove_prefix
remove_prefix_long key p h = ground arith

-- After a value has been stored in an empty global map under a bucket's prefix and a key that is
-- not empty, an iteration over the bucket returns one entry with the value, and its key is longer
-- than the key stored by the length of the database's name.
pub global_bucket_keys :
    (self : GlobalMemoryDb) (prefix k v : BaseDbKey)
    → 0 < length k
    → (key : BaseDbKey) × (iter_all
          (new prefix (as_store self))
          []
          (λ _ _. some true)
          ((as_store self).put (prefix ++ k) v []).1
        ≡ some (record { key = key; value = v } ∷ []))
      × (length key ≡ length self.dbname + length k)
unfolding iter_all scan remove_prefixes BTreeMap.insert
global_bucket_keys self prefix k v h =
    let key = self.dbname ++ (prefix ++ k) in
    (
      drop (length prefix) key,
      ground (
        arith,
        behind_start self.dbname prefix k h,
        under_prefix self.dbname prefix k,
        remove_prefix_long key prefix (lengths self.dbname prefix k),
      ),
      omega (
        arith,
        length-drop (length prefix) key,
        length-append self.dbname (prefix ++ k),
        length-append prefix k,
      ),
    )
