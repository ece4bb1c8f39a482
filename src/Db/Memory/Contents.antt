-- ===== src/Db/Memory/Contents.antt =====
-- The memory store (db/src/impls/kvs/memory.rs) by its contents: what a key reads, after a batch and in an iteration.
use plasma_rust_framework.Prelude.{
  Ordering, ◌≡◌, refl, sym, ap, ◌∙◌, subst, inl, inr, Bool, true, false, not, ◌&&◌, Option, none,
  some, List, [], ◌∷◌, arith, if◌then◌else◌, Bool-cases, Ordering-cases,
}
use plasma_rust_framework.Prelude.Bytes.{
  Bytes, cmp, cmp_refl, eq_of_cmp, gt_of_lt, lt_of_gt, starts_with,
}
use plasma_rust_framework.Prelude.Result.{ok}
use plasma_rust_framework.Db.Key.{BaseDbKey, concat}
use plasma_rust_framework.Db.BTreeMap.{BTreeMap, IsSorted, Above, get}
use plasma_rust_framework.Db.BTreeMap.Laws.{get-insert, get-remove, at, get-Above, Above-trans}
use plasma_rust_framework.Db.Kvs.{Batch, put, del, KeyValue}
use plasma_rust_framework.Db.Memory.{memory, run, apply, scan, gtb, within}
use plasma_rust_framework.Db.Memory.Laws.{apply-IsSorted, run-IsSorted}

-- What a key holds after the operations: what the last of them that names it has put, and nothing if it deletes it.
unfoldable pub written : BaseDbKey → List Batch → Option Bytes → Option Bytes
written k [] held = held
written k (put key value ∷ operations) held =
    written k operations (at (cmp k key) (some value) held)
written k (del key ∷ operations) held = written k operations (at (cmp k key) none held)

-- The value that is listed for a key.
unfoldable pub listed : BaseDbKey → List KeyValue → Option Bytes
listed k [] = none
listed k (kv ∷ kvs) = at (cmp k kv.key) (some kv.value) (listed k kvs)

get-apply :
    (k : BaseDbKey) (op : Batch) (operations : List Batch) (m : BTreeMap)
    → IsSorted m
    → written k operations (get k (apply op m)) ≡ written k (op ∷ operations) (get k m)
unfolding apply written
get-apply k (put key value) operations m s = ap (written k operations) (get-insert key value k m)
get-apply k (del key) operations m s = ap (written k operations) (get-remove key k m s)

get-run :
    (k : BaseDbKey) (operations : List Batch) (m : BTreeMap)
    → IsSorted m
    → get k (run operations m) ≡ written k operations (get k m)
unfolding run written
get-run k [] m s = refl
get-run k (op ∷ operations) m s =
    get-run k operations (apply op m) (apply-IsSorted op m s) ∙ get-apply k op operations m s

-- The test holds for the entries behind `start` up to `k`.
unfoldable pub passes : (BaseDbKey → Bytes → Bool) → BaseDbKey → BaseDbKey → BTreeMap → Bool
passes p start k [] = true
passes p start k ((j, v) ∷ m) =
    (if gtb j start && not (gtb j k) then p j v else true) && passes p start k m

-- What an iteration from `start` shows of a key.
abbrev pub shown : (BaseDbKey → Bytes → Bool) → BaseDbKey → BaseDbKey → BTreeMap → Option Bytes
shown p start k m = if gtb k start && passes p start k m then get k m else none

passes-Above :
    (p : BaseDbKey → Bytes → Bool) (start k : BaseDbKey) (m : BTreeMap)
    → Above k m
    → passes p start k m ≡ true
unfolding passes
passes-Above p start k [] a = refl
passes-Above p start k ((j, v) ∷ m) a =
    ground (arith, passes-Above p start k m a.1, gt_of_lt k j a.0)

shown-skip :
    (p : BaseDbKey → Bytes → Bool) (start k j v : Bytes) (m : BTreeMap)
    → gtb j start ≡ false
    → shown p start k ((j, v) ∷ m) ≡ shown p start k m
unfolding get passes
shown-skip p start k j v m f = elim (Ordering-cases (cmp k j)) [
  | inl lt ↦ ground (arith, f, lt)
  | inr (inl e) ↦
      let same : gtb k start ≡ false = ap (λ x. gtb x start) (eq_of_cmp k j e) ∙ f in
      ground (arith, f, e, same)
  | inr (inr gt) ↦ ground (arith, f, gt)
]

shown-taken :
    (p : BaseDbKey → Bytes → Bool) (start k j v : Bytes) (m : BTreeMap)
    → gtb j start ≡ true
    → p j v ≡ true
    → Above j m
    → shown p start k ((j, v) ∷ m) ≡ at (cmp k j) (some v) (shown p start k m)
unfolding get passes
shown-taken p start k j v m t y a = elim (Ordering-cases (cmp k j)) [
  | inl lt ↦ ground (arith, lt, y)
  | inr (inl e) ↦
      let same : gtb k start ≡ true = ap (λ x. gtb x start) (eq_of_cmp k j e) ∙ t in
      let above : Above k m = subst (λ x. Above x m) (sym (eq_of_cmp k j e)) a in
      ground (arith, same, e, y, passes-Above p start k m above)
  | inr (inr gt) ↦ ground (arith, gt, y)
]

shown-stopped :
    (p : BaseDbKey → Bytes → Bool) (start k j v : Bytes) (m : BTreeMap)
    → gtb j start ≡ true
    → p j v ≡ false
    → Above j m
    → shown p start k ((j, v) ∷ m) ≡ none
unfolding get passes
shown-stopped p start k j v m t n a = elim (Ordering-cases (cmp k j)) [
  | inl lt ↦ ground (arith, lt, get-Above k m (Above-trans k j m lt a))
  | inr (inl e) ↦
      let self : cmp j k ≡ Ordering.eq = ap (λ x. cmp j x) (eq_of_cmp k j e) ∙ cmp_refl j in
      ground (arith, t, self, n)
  | inr (inr gt) ↦ ground (arith, t, lt_of_gt k j gt, n)
]

abbrev pub test : (BaseDbKey → Bytes → Bool) → BaseDbKey → Bytes → Option Bool
test p k v = some (p k v)

scan-shown :
    (p : BaseDbKey → Bytes → Bool) (k start : BaseDbKey) (m : BTreeMap)
    → IsSorted m
    → (kvs : List KeyValue) × (scan start (test p) m ≡ some kvs)
      × (listed k kvs ≡ shown p start k m)
unfolding scan listed get passes
scan-shown p k start [] s = ([], refl, ground arith)
scan-shown p k start ((j, v) ∷ m) s =
    let (kvs, e, l) = scan-shown p k start m s.1 in
    elim (Bool-cases (gtb j start)) [
      | inr f ↦ (kvs, rw (f, e) refl, l ∙ sym (shown-skip p start k j v m f))
      | inl t ↦ elim (Bool-cases (p j v)) [
        | inl y ↦ (
          record { key = j; value = v } ∷ kvs,
          rw (t, y, e) refl,
          ap (at (cmp k j) (some v)) l ∙ sym (shown-taken p start k j v m t y s.0),
        )
        | inr n ↦ ([], rw (t, n) refl, sym (shown-stopped p start k j v m t n s.0))
      ]
    ]

scan-within :
    (p : BaseDbKey → Bytes → Bool) (prefix start : BaseDbKey) (m : BTreeMap)
    → scan start (within prefix (test p)) m
      ≡ scan start (test (λ k v. starts_with k prefix && p k v)) m
unfolding scan
scan-within p prefix start [] = refl
scan-within p prefix start ((k, v) ∷ m) = ground (arith, scan-within p prefix start m)

-- A batch on the memory store succeeds and keeps the keys in order, and each key then reads what the last operation
-- that names it has put, nothing if that one deletes it, and what it read before if none names it. An iteration from a
-- start, whose test does not panic, succeeds and lists just the keys behind the start such that the test holds for all
-- entries behind the start up to the key, each with what it reads; with a prefix, the test is that of the key's prefix
-- as well, and the start stands behind the prefix.
pub memory_lem :
    (operations : List Batch) (k prefix start : BaseDbKey) (p : BaseDbKey → Bytes → Bool)
    (db : BTreeMap)
    → IsSorted db
    → (db' : BTreeMap) × (memory.batch operations db ≡ (ok tt, db'))
      × IsSorted db'
      × (memory.get k db' ≡ ok (written k operations (get k db)))
      × ((kvs : List KeyValue) × (memory.iter_all start (test p) db' ≡ some kvs)
          × (listed k kvs ≡ shown p start k db'))
      × ((kvs : List KeyValue) × (memory.iter_all_with_prefix prefix start (test p) db' ≡ some kvs)
          × (listed k kvs
              ≡ shown (λ i v. starts_with i prefix && p i v) (concat prefix start) k db'))
memory_lem operations k prefix start p db s =
    let s' = run-IsSorted operations db s in
    let (kvs, e, l) =
      scan-shown (λ i v. starts_with i prefix && p i v) k (concat prefix start) (run operations db)
        s' in
    (
      run operations db,
      refl,
      s',
      ap ok (get-run k operations db s),
      scan-shown p k start (run operations db) s',
      (kvs, scan-within p prefix (concat prefix start) (run operations db) ∙ e, l),
    )
