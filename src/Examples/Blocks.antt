-- ===== src/Examples/Blocks.antt =====
-- Concrete queues and blocks (clients/src/plasma/block_manager.rs) over the memory store.
use plasma_rust_framework.Prelude.{
  ℕ, ◌+◌, ◌%◌, ◌^◌, ◌≤◌, ◌≡◌, refl, Bool, true, Option, some, List, [], ◌∷◌, ◌++◌, arith, All,
}
use plasma_rust_framework.Prelude.Bytes.{Bytes, cmp, starts_with}
use plasma_rust_framework.Prelude.Result.{ok, err}
use plasma_rust_framework.Db.Key.{from_u64}
use plasma_rust_framework.Db.BTreeMap
use plasma_rust_framework.Db.BTreeMap.{BTreeMap, IsSorted}
use plasma_rust_framework.Db.Memory.{memory, open_db, scan, run, apply}
use plasma_rust_framework.Db.Memory.Laws.{memory-IsStore, memory-HasPrefixIteration}
use plasma_rust_framework.Db.Bucket
use plasma_rust_framework.Db.Bucket.Laws.{strip}
use plasma_rust_framework.Db.Range
use plasma_rust_framework.Db.Range.{intersect}
use plasma_rust_framework.Db.RangeDb
use plasma_rust_framework.MerkleTree.IntervalTree
use plasma_rust_framework.MerkleTree.AddressTree
use plasma_rust_framework.MerkleTree.DoubleLayerTree
use plasma_rust_framework.MerkleTree.DoubleLayerTree.{DoubleLayerTree}
use plasma_rust_framework.Ovm.Types.{StateUpdate}
use plasma_rust_framework.Clients.Types.{merkelizing_error, PlasmaBlock}
use plasma_rust_framework.Clients.BlockDb
use plasma_rust_framework.Clients.BlockDb.{
  queued_state_updates, queued_txs, decode_block, decode_values,
}
use plasma_rust_framework.Clients.PlasmaBlock
use plasma_rust_framework.Clients.BlockManager.{
  BlockManager, submit_next_block, get_block_range, enqueue_state_update,
}
use plasma_rust_framework.Clients.BlockManager.Queue.{Queued}
use plasma_rust_framework.Clients.BlockManager.Kept.{here, next, update_step, submitted_blocks_kept}
use plasma_rust_framework.Clients.BlockManager.Error.{submit_next_block_error}
use plasma_rust_framework.Clients.BlockManager.Submit.{submit_next_block_lem}
use plasma_rust_framework.Clients.BlockManager.Enqueue.{enqueue_displaces}
use plasma_rust_framework.Examples.External.{sample, plain_codecs, update_of}
use plasma_rust_framework.Examples.Trees.{fill}

abbrev InQueue : Bytes → BTreeMap → List Range.Range → Type 0
InQueue =
    Queued sample plain_codecs memory IsSorted (λ m. m) memory-IsStore memory-HasPrefixIteration

nothing_queued : InQueue queued_state_updates open_db []
unfolding strip
nothing_queued = record { inv = tt; same = refl; map = tt }

abbrev first : StateUpdate
first = update_of 1 0 0 10

abbrev second : StateUpdate
second = update_of 1 1 0 10

enqueue_displaces_example :
    (s1 s2 : BTreeMap) × (others : List StateUpdate) × (BlockDb.enqueue_state_update sample
        plain_codecs memory first open_db
      ≡ some (ok tt, s1))
    × (BlockDb.enqueue_state_update sample plain_codecs memory second s1 ≡ some (ok tt, s2))
    × (BlockDb.get_pending_state_updates sample plain_codecs memory s2
        ≡ some (ok (second ∷ others)))
    × All (λ (update : StateUpdate). update ≡ second) others
enqueue_displaces_example =
    enqueue_displaces sample plain_codecs memory IsSorted (λ m. m) memory-IsStore
      memory-HasPrefixIteration first second open_db refl (omega arith) (omega arith) refl
      nothing_queued

-- The first state update is queued for the block 2.
abbrev of_first : Bytes
of_first = 1 ∷ 0 ∷ 0 ∷ 10 ∷ []

abbrev queue : List Range.Range
queue = Range.new 0 10 of_first ∷ []

abbrev with_first : BTreeMap
with_first = (queued_state_updates ++ from_u64 10, sample.rlp.encode (Range.new 0 10 of_first)) ∷ []

abbrev manager : BlockManager BTreeMap
manager = record { store = with_first; current_block_number = 2 }

updates_queued : InQueue queued_state_updates with_first queue
unfolding strip starts_with cmp
updates_queued = record { inv = (tt, tt); same = refl; map = (omega arith, omega arith, tt, tt) }

txs_queued : InQueue queued_txs with_first []
unfolding strip starts_with
txs_queued = record { inv = (tt, tt); same = refl; map = tt }

abbrev root : Bytes
root = fill 32 of_first

abbrev tree : DoubleLayerTree
tree = record {
  tree = record { tree = AddressTree.leaf root 0; leaves = AddressTree.leaf root 0 ∷ [] };
  interval_trees =
      (
        0,
        record {
          tree = IntervalTree.leaf 10 of_first;
          leaves = IntervalTree.leaf 10 of_first ∷ [];
        },
      )
      ∷ [];
}

abbrev block : PlasmaBlock
block = record { block_number = 2; state_updates = first ∷ []; transactions = []; tree = some tree }

abbrev in_order :
    List (ℕ × List IntervalTree.MerkleIntervalNode)
    → List (ℕ × List IntervalTree.MerkleIntervalNode)
in_order entries = entries

abbrev accepting : ℕ → Bytes → Option Bool
accepting number bytes = some true

block_merkelized :
    PlasmaBlock.merkelize sample in_order (PlasmaBlock.new 2 (first ∷ []) [])
    ≡ some (ok (root, block))
unfolding PlasmaBlock.merkelize PlasmaBlock.merkelize_updates DoubleLayerTree.generate
    DoubleLayerTree.leaves_set DoubleLayerTree.push_leaf DoubleLayerTree.interval_trees_of
    IntervalTree.generate IntervalTree.generate_part IntervalTree.generate_rounds IntervalTree.hash
    AddressTree.generate AddressTree.generate_part AddressTree.generate_rounds IntervalTree.get_root
    fill
block_merkelized = refl

queue_decoded : decode_values sample.state_update_from_abi queue ≡ some (first ∷ [])
unfolding decode_values
queue_decoded = refl

none_decoded : decode_values plain_codecs.event_from_abi [] ≡ some []
unfolding decode_values
none_decoded = refl

submit_next_block_lem_example :
    (m' : BlockManager BTreeMap) × (submit_next_block sample plain_codecs memory in_order accepting
        manager
      ≡ some (ok tt, m'))
    × (m'.current_block_number ≡ (2 + 1) % 2 ^ 64)
    × (get_block_range sample plain_codecs memory 2 m' ≡ ok (PlasmaBlock.new 2 (first ∷ []) []))
    × (BlockDb.get_pending_state_updates sample plain_codecs memory m'.store ≡ some (ok []))
    × (BlockDb.get_pending_txs sample plain_codecs memory m'.store ≡ some (ok []))
submit_next_block_lem_example =
    submit_next_block_lem sample plain_codecs memory IsSorted (λ m. m) memory-IsStore
      memory-HasPrefixIteration in_order accepting manager queue [] (first ∷ []) [] root block
      updates_queued txs_queued queue_decoded none_decoded block_merkelized refl refl

abbrev idle : BlockManager BTreeMap
idle = record { store = open_db; current_block_number = 2 }

nothing_to_submit :
    submit_next_block sample plain_codecs memory in_order accepting idle
    ≡ some (err merkelizing_error, idle)
unfolding submit_next_block BlockDb.get_pending_state_updates BlockDb.get_pending_txs RangeDb.get
    RangeDb.decode_all Bucket.iter_all Bucket.remove_prefixes scan decode_values
    PlasmaBlock.merkelize PlasmaBlock.merkelize_updates
nothing_to_submit = refl

submit_next_block_error_example : idle ≡ idle
submit_next_block_error_example =
    submit_next_block_error sample plain_codecs memory in_order accepting idle idle
      merkelizing_error nothing_to_submit

enqueued : enqueue_state_update sample plain_codecs memory first idle ≡ some (ok tt, manager)
unfolding enqueue_state_update BlockDb.enqueue_state_update RangeDb.put RangeDb.del_batch
    RangeDb.get RangeDb.decode_all RangeDb.put_batch RangeDb.output_ranges RangeDb.left_rest
    RangeDb.right_rest Bucket.iter_all Bucket.remove_prefixes scan run apply BTreeMap.insert
enqueued = refl

submitted_blocks_kept_example :
    (get_block_range sample plain_codecs memory 1 manager
      ≡ get_block_range sample plain_codecs memory 1 idle)
    × (2 ≤ 2)
submitted_blocks_kept_example =
    submitted_blocks_kept sample plain_codecs memory IsSorted (λ m. m) memory-IsStore idle manager 1
      tt (omega arith) (next here (update_step first (ok tt) enqueued)) (omega arith)
