-- ===== src/Db/Bucket/Apart.antt =====
-- Buckets with names of which none begins with the other (db/src/traits/kvs.rs) do not touch each other.
use plasma_rust_framework.Prelude.{◌≡◌, refl, ap, ◌∙◌, false, List, [], ◌∷◌, ◌++◌, map, arith}
use plasma_rust_framework.Prelude.Bytes.{Bytes, starts_with, eq_of_cmp}
use plasma_rust_framework.Prelude.Result.{ok}
use plasma_rust_framework.Db.Key.{BaseDbKey}
use plasma_rust_framework.Db.BTreeMap
use plasma_rust_framework.Db.BTreeMap.{BTreeMap}
use plasma_rust_framework.Db.Kvs.{Batch, put, del, KeyValueStore}
use plasma_rust_framework.Db.Memory.{run, apply}
use plasma_rust_framework.Db.Store.{IsStore}
use plasma_rust_framework.Db.Bucket.{new, prefix_op, as_store}
use plasma_rust_framework.Db.Bucket.Laws.{strip}

-- No key of the first bucket begins with the name of the second.
abbrev pub Apart : Bytes → Bytes → Type 0
Apart p q = (k : Bytes) → starts_with (p ++ k) q ≡ false

pub strip-insert_other :
    (q k v : Bytes) (m : BTreeMap)
    → starts_with k q ≡ false
    → strip q (BTreeMap.insert k v m) ≡ strip q m
unfolding strip BTreeMap.insert
strip-insert_other q k v [] n = ground (arith, n)
strip-insert_other q k v ((j, w) ∷ m) n =
    ground (arith, n, eq_of_cmp k j, strip-insert_other q k v m n)

strip-remove_other :
    (q k : Bytes) (m : BTreeMap)
    → starts_with k q ≡ false
    → strip q (BTreeMap.remove k m) ≡ strip q m
unfolding strip BTreeMap.remove
strip-remove_other q k [] n = refl
strip-remove_other q k ((j, w) ∷ m) n = ground (arith, n, eq_of_cmp k j, strip-remove_other q k m n)

strip-apply_other :
    (p q : Bytes) (op : Batch) (m : BTreeMap)
    → Apart p q
    → strip q (apply (prefix_op p op) m) ≡ strip q m
unfolding apply
strip-apply_other p q (put k v) m a = strip-insert_other q (p ++ k) v m (a k)
strip-apply_other p q (del k) m a = strip-remove_other q (p ++ k) m (a k)

pub strip-run_other :
    (p q : Bytes) (ops : List Batch) (m : BTreeMap)
    → Apart p q
    → strip q (run (map (prefix_op p) ops) m) ≡ strip q m
unfolding run
strip-run_other p q [] m a = refl
strip-run_other p q (op ∷ ops) m a =
    strip-run_other p q ops (apply (prefix_op p op) m) a ∙ strip-apply_other p q op m a

module _ {S : Type 0} (store : KeyValueStore S) (Inv : S → Type 0) (entries : S → BTreeMap)
    (laws : IsStore store Inv entries) (p q : BaseDbKey) (apart : Apart p q) where
  -- Over a store that keeps the contract: where no key of one bucket begins with the name of another, a write, a deletion
  -- and a batch in the one succeed and leave the entries of the other as they are.
  pub bucket_apart :
      (k v : Bytes) (ops : List Batch) (s : S)
      → Inv s
      → (((as_store (new p store)).put k v s).0 ≡ ok tt)
        × (strip q (entries ((as_store (new p store)).put k v s).1) ≡ strip q (entries s))
        × (((as_store (new p store)).del k s).0 ≡ ok tt)
        × (strip q (entries ((as_store (new p store)).del k s).1) ≡ strip q (entries s))
        × (((as_store (new p store)).batch ops s).0 ≡ ok tt)
        × (strip q (entries ((as_store (new p store)).batch ops s).1) ≡ strip q (entries s))
  bucket_apart k v ops s i =
      let (a, b, c) = laws.put_lem (p ++ k) v s i in
      let (d, e, f) = laws.del_lem (p ++ k) s i in
      let (g, h, j) = laws.batch_lem (map (prefix_op p) ops) s i in
      (
        a,
        ap (strip q) c ∙ strip-insert_other q (p ++ k) v (entries s) (apart k),
        d,
        ap (strip q) f ∙ strip-remove_other q (p ++ k) (entries s) (apart k),
        g,
        ap (strip q) j ∙ strip-run_other p q ops (entries s) apart,
      )
