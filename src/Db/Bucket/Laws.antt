-- ===== src/Db/Bucket/Laws.antt =====
-- A bucket of a store keeps the contract of a store: its entries are those of the store whose keys
-- have the prefix, with the prefix taken off.
use plasma_rust_framework.Prelude.{
  Ordering, ◌≡◌, refl, ap, inl, inr, Bool, true, false, Option, none, some, List, [], ◌∷◌, ◌++◌,
  map, arith, if◌then◌else◌, Bool-cases, length, drop, length-append,
}
use plasma_rust_framework.Prelude.Bytes.{
  Bytes, cmp, starts_with, starts_with-append, starts_with-drop, starts_with_past, cmp-append,
  drop-append, eq_of_cmp, lt_of_gt,
}
use plasma_rust_framework.Db.Key.{BaseDbKey, remove_prefix}
use plasma_rust_framework.Db.BTreeMap
use plasma_rust_framework.Db.BTreeMap.{BTreeMap, Above, IsSorted}
use plasma_rust_framework.Db.BTreeMap.Laws.{insert-Above_all, Above-trans}
use plasma_rust_framework.Db.Kvs.{Batch, put, del, KeyValue, KeyValueStore}
use plasma_rust_framework.Db.Memory.{scan, within, pushed, run, apply}
use plasma_rust_framework.Db.Memory.Laws.{apply-IsSorted}
use plasma_rust_framework.Db.Store.{IsStore, HasPrefixIteration}
use plasma_rust_framework.Db.Bucket.{new, prefix_op, remove_prefixes, iter_all, as_store}

unfoldable pub strip : BaseDbKey → BTreeMap → BTreeMap
strip p [] = []
strip p ((j, w) ∷ m) = if starts_with j p then (drop (length p) j, w) ∷ strip p m else strip p m

-- A bound on the keys is one on the keys behind the prefix.
strip-Above_append : (p k : Bytes) (m : BTreeMap) → Above (p ++ k) m → Above k (strip p m)
unfolding strip
strip-Above_append p k [] a = tt
strip-Above_append p k ((j, w) ∷ m) a = elim (Bool-cases (starts_with j p)) [
  | inl t ↦
      rw (t, strip)
        (
          rw (← cmp-append p k (drop (length p) j), starts_with-drop j p t) a.0,
          strip-Above_append p k m a.1,
        )
  | inr f ↦ rw (f, strip) (strip-Above_append p k m a.1)
]

strip-IsSorted : (p : Bytes) (m : BTreeMap) → IsSorted m → IsSorted (strip p m)
unfolding strip
strip-IsSorted p [] s = tt
strip-IsSorted p ((j, w) ∷ m) s = elim (Bool-cases (starts_with j p)) [
  | inl t ↦
      let above : Above (p ++ drop (length p) j) m = rw (starts_with-drop j p t) s.0 in
      rw (t, strip) (strip-Above_append p (drop (length p) j) m above, strip-IsSorted p m s.1)
  | inr f ↦ rw (f, strip) (strip-IsSorted p m s.1)
]

pub strip-insert :
    (p k v : Bytes) (m : BTreeMap)
    → IsSorted m
    → strip p (BTreeMap.insert (p ++ k) v m) ≡ BTreeMap.insert k v (strip p m)
unfolding strip BTreeMap.insert
strip-insert p k v [] s = ground (arith, starts_with-append p k, drop-append p k)
strip-insert p k v ((j, w) ∷ m) s = ground (
  arith,
  cmp-append p k (drop (length p) j),
  starts_with-drop j p,
  starts_with-append p k,
  drop-append p k,
  eq_of_cmp (p ++ k) j,
  strip-insert p k v m s.1,
  insert-Above_all k v (strip p m),
  strip-Above_append p k m,
  Above-trans (p ++ k) j m,
)

strip-remove :
    (p k : Bytes) (m : BTreeMap)
    → strip p (BTreeMap.remove (p ++ k) m) ≡ BTreeMap.remove k (strip p m)
unfolding strip BTreeMap.remove
strip-remove p k [] = refl
strip-remove p k ((j, w) ∷ m) = ground (
  arith,
  cmp-append p k (drop (length p) j),
  starts_with-drop j p,
  starts_with-append p k,
  drop-append p k,
  eq_of_cmp (p ++ k) j,
  strip-remove p k m,
)

pub get-strip : (p k : Bytes) (m : BTreeMap) → BTreeMap.get (p ++ k) m ≡ BTreeMap.get k (strip p m)
unfolding strip BTreeMap.get
get-strip p k [] = refl
get-strip p k ((j, w) ∷ m) = ground (
  arith,
  cmp-append p k (drop (length p) j),
  starts_with-drop j p,
  starts_with-append p k,
  drop-append p k,
  eq_of_cmp (p ++ k) j,
  get-strip p k m,
)

strip-apply :
    (p : Bytes) (op : Batch) (m : BTreeMap)
    → IsSorted m
    → strip p (apply (prefix_op p op) m) ≡ apply op (strip p m)
unfolding apply
strip-apply p (put k v) m s = strip-insert p k v m s
strip-apply p (del k) m s = strip-remove p k m

strip-run :
    (p : Bytes) (ops : List Batch) (m : BTreeMap)
    → IsSorted m
    → strip p (run (map (prefix_op p) ops) m) ≡ run ops (strip p m)
unfolding run
strip-run p [] m s = refl
strip-run p (op ∷ ops) m s =
    rw (← strip-apply p op m s)
      (strip-run p ops (apply (prefix_op p op) m) (apply-IsSorted (prefix_op p op) m s))

strip_past :
    (p start j : Bytes) (m : BTreeMap)
    → cmp (p ++ start) j ≡ Ordering.lt
    → starts_with j p ≡ false
    → Above j m
    → strip p m ≡ []
unfolding strip
strip_past p start j [] h n a = refl
strip_past p start j ((i, w) ∷ m) h n a =
    ground (arith, starts_with_past p start j i h n a.0, strip_past p start j m h n a.1)

remove_prefix_lem :
    (j p : Bytes) → starts_with j p ≡ true → remove_prefix j p ≡ some (drop (length p) j)
unfolding remove_prefix
remove_prefix_lem j p h = ground (
  arith,
  length-append p (drop (length p) j),
  ap (λ (xs : Bytes). length xs) (starts_with-drop j p h),
)

abbrev bind_prefixes : BaseDbKey → Option (List KeyValue) → Option (List KeyValue)
bind_prefixes p none = none
bind_prefixes p (some kvs) = remove_prefixes p kvs

bind_prefixes-nil : (p : Bytes) → bind_prefixes p (some []) ≡ some []
unfolding remove_prefixes
bind_prefixes-nil p = refl

bind_prefixes-pushed :
    (p j w : Bytes) (next : Option (List KeyValue))
    → starts_with j p ≡ true
    → bind_prefixes p (pushed (record { key = j; value = w }) next)
      ≡ pushed (record { key = drop (length p) j; value = w }) (bind_prefixes p next)
unfolding remove_prefixes
bind_prefixes-pushed p j w none h = refl
bind_prefixes-pushed p j w (some kvs) h = ground (arith, remove_prefix_lem j p h)

-- The loop over the store stays within the prefix, and no key it returns is too short for it.
scan-strip :
    (p start : Bytes) (f : Bytes → Option Bool) (m : BTreeMap)
    → IsSorted m
    → bind_prefixes p (scan (p ++ start) (within p (λ _ v. f v)) m)
      ≡ scan start (λ _ v. f v) (strip p m)
unfolding scan strip
scan-strip p start f [] s = bind_prefixes-nil p
scan-strip p start f ((j, w) ∷ m) s = ground (
  arith,
  scan-strip p start f m s.1,
  cmp-append p (drop (length p) j) start,
  starts_with-drop j p,
  bind_prefixes-nil p,
  bind_prefixes-pushed p j w (scan (p ++ start) (within p (λ _ v. f v)) m),
  strip_past p start j m,
  lt_of_gt j (p ++ start),
)

module _ {S : Type 0} (store : KeyValueStore S) (Inv : S → Type 0) (entries : S → BTreeMap)
    (laws : IsStore store Inv entries) (prefixed : HasPrefixIteration store Inv entries) where
  iter_all-scan :
      (prefix start : BaseDbKey) (f : Bytes → Option Bool) (s : S)
      → Inv s
      → iter_all (new prefix store) start (λ _ v. f v) s
        ≡ scan start (λ _ v. f v) (strip prefix (entries s))
  unfolding iter_all
  iter_all-scan prefix start f s i = ground (
    arith,
    prefixed.iter_all_with_prefix_lem prefix start f s i,
    scan-strip prefix start f (entries s) (laws.sorted s i),
  )

  -- Where a store keeps the contract and its iterations with a prefix are those of its entries, a
  -- bucket of it keeps the contract, with the entries under the bucket's prefix, the prefix taken
  -- off.
  pub bucket-IsStore :
      (prefix : BaseDbKey)
      → IsStore (as_store (new prefix store)) Inv (λ s. strip prefix (entries s))
  bucket-IsStore prefix = record {
    sorted = λ s i. strip-IsSorted prefix (entries s) (laws.sorted s i);
    get_lem = λ k s i. rw (laws.get_lem (prefix ++ k) s i, get-strip prefix k (entries s));
    put_lem = λ k v s i.
        let (done, kept, same) = laws.put_lem (prefix ++ k) v s i in
        (done, kept, rw same (strip-insert prefix k v (entries s) (laws.sorted s i)));
    del_lem = λ k s i.
        let (done, kept, same) = laws.del_lem (prefix ++ k) s i in
        (done, kept, rw same (strip-remove prefix k (entries s)));
    batch_lem = λ ops s i.
        let (done, kept, same) = laws.batch_lem (map (prefix_op prefix) ops) s i in
        (done, kept, rw same (strip-run prefix ops (entries s) (laws.sorted s i)));
    iter_all_lem = iter_all-scan prefix;
  }
