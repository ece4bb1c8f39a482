-- ===== src/Clients/BlockManager/Inversion.antt =====
-- How the calls of the block manager (clients/src/plasma/block_manager.rs) come apart.
use plasma_rust_framework.Prelude.{
  ℕ, ◌^◌, ◌<◌, ◌≡◌, refl, sym, ap, ◌∙◌, ◌⊎◌, inl, inr, false, Option, none, some, List, [], ◌∷◌,
  ◌++◌, arith,
}
use plasma_rust_framework.Prelude.Bytes.{Bytes, starts_with}
use plasma_rust_framework.Prelude.Words.{of_be, of_be-be_bytes, Fits-u64}
use plasma_rust_framework.Prelude.Result.{Result, ok, err}
use plasma_rust_framework.Db.Key.{from_u64}
use plasma_rust_framework.Db.BTreeMap
use plasma_rust_framework.Db.BTreeMap.{BTreeMap}
use plasma_rust_framework.Db.Bucket.Laws.{strip}
use plasma_rust_framework.Db.RangeDb.Apart.{none-some, state_inj}
use plasma_rust_framework.MerkleTree.IntervalTree.{MerkleIntervalNode}
use plasma_rust_framework.MerkleTree.DoubleLayerTree.{DoubleLayerTree}
use plasma_rust_framework.Ovm.Types.{StateUpdate}
use plasma_rust_framework.Ovm.External.{External}
use plasma_rust_framework.Clients.Types.{ErrorKind, PlasmaBlock}
use plasma_rust_framework.Clients.BlockDb.{
  queued_state_updates, queued_txs, plasma_block_db, blocks, done,
}
use plasma_rust_framework.Clients.PlasmaBlock
use plasma_rust_framework.Clients.BlockManager.{BlockManager, read_or, with_store, dropped}

pub updates_apart :
    (k : Bytes) → starts_with (queued_state_updates ++ k) (plasma_block_db ++ blocks) ≡ false
unfolding starts_with
updates_apart k = refl

pub txs_apart : (k : Bytes) → starts_with (queued_txs ++ k) (plasma_block_db ++ blocks) ≡ false
unfolding starts_with
txs_apart k = refl

pub done_inv :
    {A E S : Type 0} (o : Option (Result A E × S)) (r : Result (Unit {0}) ErrorKind) (s : S)
    → done o ≡ some (r, s)
    → (r' : Result A E) × (o ≡ some (r', s))
done_inv none r s h = absurd (none-some h)
done_inv (some (ok a, t)) r s h = (ok a, ap (λ (x : _). some (ok a, x)) (state_inj h))
done_inv (some (err e, t)) r s h = (err e, ap (λ (x : _). some (err e, x)) (state_inj h))

pub dropped_inv :
    {A S : Type 0} (o : Option (Result A ErrorKind × S))
    (f : S → Option (Result (Unit {0}) ErrorKind × BlockManager S))
    (r : Result (Unit {0}) ErrorKind) (m : BlockManager S)
    → dropped o f ≡ some (r, m)
    → (x : Result A ErrorKind) × (s : S) × (o ≡ some (x, s)) × (f s ≡ some (r, m))
dropped_inv none f r m h = absurd (none-some h)
dropped_inv (some (x, s)) f r m h = (x, s, refl, h)

-- A read fails and leaves the manager as it is, or hands its value on.
pub read_or_inv :
    {A S : Type 0} (o : Option (Result A ErrorKind)) (self m : BlockManager S)
    (f : A → Option (Result (Unit {0}) ErrorKind × BlockManager S))
    (r : Result (Unit {0}) ErrorKind)
    → read_or o self f ≡ some (r, m)
    → (self ≡ m) ⊎ ((a : A) × (o ≡ some (ok a)) × (f a ≡ some (r, m)))
read_or_inv none self m f r h = absurd (none-some h)
read_or_inv (some (err e)) self m f r h = inl (state_inj h)
read_or_inv (some (ok a)) self m f r h = inr (a, refl, h)

pub with_store_inv :
    {A S : Type 0} (m m' : BlockManager S) (o : Option (Result A ErrorKind × S))
    (r : Result A ErrorKind)
    → with_store m o ≡ some (r, m')
    → (x : Result A ErrorKind) × (s : S) × (o ≡ some (x, s)) × (record m { store = s } ≡ m')
with_store_inv m m' none r h = absurd (none-some h)
with_store_inv m m' (some (x, s)) r h = (x, s, refl, state_inj h)

pub with_tree_number :
    (block block' : PlasmaBlock) (root : Bytes) (o : Option DoubleLayerTree)
    → PlasmaBlock.with_tree block o ≡ some (ok (root, block'))
    → block'.block_number ≡ block.block_number
with_tree_number block block' root none h = absurd (none-some h)
with_tree_number block block' root (some tree) h = ground arith

pub merkelized_number :
    (ext : External)
    (order : List (ℕ × List MerkleIntervalNode) → List (ℕ × List MerkleIntervalNode))
    (block block' : PlasmaBlock) (root : Bytes) (updates : List StateUpdate)
    → PlasmaBlock.merkelize_updates ext order block updates ≡ some (ok (root, block'))
    → block'.block_number ≡ block.block_number
unfolding PlasmaBlock.merkelize_updates
merkelized_number ext order block block' root [] h = ground arith
merkelized_number ext order block block' root (s ∷ updates) h =
    with_tree_number block block' root _ h

with_tree_content :
    (block block' : PlasmaBlock) (root : Bytes) (o : Option DoubleLayerTree)
    → PlasmaBlock.with_tree block o ≡ some (ok (root, block'))
    → record block' { tree = none } ≡ record block { tree = none }
with_tree_content block block' root none h = absurd (none-some h)
with_tree_content block block' root (some tree) h = ground arith

-- `merkelize` only sets the tree.
pub merkelized_content :
    (ext : External)
    (order : List (ℕ × List MerkleIntervalNode) → List (ℕ × List MerkleIntervalNode))
    (block block' : PlasmaBlock) (root : Bytes) (updates : List StateUpdate)
    → PlasmaBlock.merkelize_updates ext order block updates ≡ some (ok (root, block'))
    → record block' { tree = none } ≡ record block { tree = none }
unfolding PlasmaBlock.merkelize_updates
merkelized_content ext order block block' root [] h = ground arith
merkelized_content ext order block block' root (s ∷ updates) h =
    with_tree_content block block' root _ h

pub from_u64_inj : (n m : ℕ) → n < 2 ^ 64 → m < 2 ^ 64 → from_u64 n ≡ from_u64 m → n ≡ m
unfolding from_u64
from_u64_inj n m h k e =
    sym (of_be-be_bytes 8 n (Fits-u64 n h)) ∙ ap of_be e ∙ of_be-be_bytes 8 m (Fits-u64 m k)

-- `get_block` looks at the bytes under the number.
abbrev pub block_at : BTreeMap → ℕ → Option Bytes
block_at entries n = BTreeMap.get (from_u64 n) (strip (plasma_block_db ++ blocks) entries)
