-- ===== src/Clients/BlockManager/Submit.antt =====
-- What a submission does (clients/src/plasma/block_manager.rs, `submit_next_block`).
use plasma_rust_framework.Prelude.{
  ℕ, ◌+◌, ◌%◌, ◌^◌, ◌≡◌, refl, sym, ap, ◌∙◌, Bool, true, Option, none, some, List, [], ◌++◌,
}
use plasma_rust_framework.Prelude.Bytes.{Bytes, cmp_refl}
use plasma_rust_framework.Prelude.Result.{ok}
use plasma_rust_framework.Db.Key.{from_u64, ErrorKind as DbErrorKind}
use plasma_rust_framework.Db.BTreeMap
use plasma_rust_framework.Db.BTreeMap.{BTreeMap}
use plasma_rust_framework.Db.BTreeMap.Laws.{get-insert, at}
use plasma_rust_framework.Db.Kvs.{KeyValueStore}
use plasma_rust_framework.Db.Store.{IsStore, HasPrefixIteration}
use plasma_rust_framework.Db.Bucket.Laws.{strip, strip-insert}
use plasma_rust_framework.Db.Bucket.Apart.{strip-insert_other}
use plasma_rust_framework.Db.Range.{Range}
use plasma_rust_framework.Db.RangeDb.Apart.{Keeps-del_batch}
use plasma_rust_framework.MerkleTree.IntervalTree.{MerkleIntervalNode}
use plasma_rust_framework.Ovm.Types.{StateUpdate}
use plasma_rust_framework.Ovm.External.{External}
use plasma_rust_framework.Clients.Types.{
  NewTransactionEvent, PlasmaBlock, Codecs, min_range, max_range,
}
use plasma_rust_framework.Clients.BlockDb
use plasma_rust_framework.Clients.BlockDb.{
  queued_state_updates, queued_txs, plasma_block_db, blocks, decode_values, get_values,
  decode_block, done, updates_bucket, txs_bucket,
}
use plasma_rust_framework.Clients.PlasmaBlock
use plasma_rust_framework.Clients.BlockManager.{
  BlockManager, get_block_range, submit_next_block, submit_block, finish_block,
}
use plasma_rust_framework.Clients.BlockManager.Inversion.{
  merkelized_number, merkelized_content, updates_apart, txs_apart, block_at,
}
use plasma_rust_framework.Clients.BlockManager.Kept.{get_block-block_at}
use plasma_rust_framework.Clients.BlockManager.Queue.{
  blocks-Apart_updates, blocks-Apart_txs, updates-Apart_txs, txs-Apart_updates, Queued, Queued-kept,
  read_queue, clear_queue,
}

module _ {S : Type 0} (ext : External) (codecs : Codecs) (db : KeyValueStore S) (Inv : S → Type 0)
    (entries : S → BTreeMap) (laws : IsStore db Inv entries)
    (prefixed : HasPrefixIteration db Inv entries) where
  -- The three writes behind an accepted submission.
  finish_lem :
      (m : BlockManager S) (us ts : List Range) (block : PlasmaBlock)
      → Queued ext codecs db Inv entries laws prefixed queued_state_updates m.store us
      → Queued ext codecs db Inv entries laws prefixed queued_txs m.store ts
      → (m' : BlockManager S) × (finish_block ext codecs db block m ≡ some (ok tt, m'))
        × (m'.current_block_number ≡ (m.current_block_number + 1) % 2 ^ 64)
        × Inv m'.store
        × (block_at (entries m'.store) block.block_number ≡ some (codecs.block_to_abi block))
        × Queued ext codecs db Inv entries laws prefixed queued_state_updates m'.store []
        × Queued ext codecs db Inv entries laws prefixed queued_txs m'.store []
  unfolding finish_block BlockDb.delete_all_queued_state_updates BlockDb.delete_all_queued_txs
      BlockDb.save_block
  finish_lem m us ts block u t =
      let p = plasma_block_db ++ blocks in
      let key = from_u64 block.block_number in
      let v = codecs.block_to_abi block in
      let (saved, i1, e1) = laws.put_lem (p ++ key) v m.store u.inv in
      let s1 = (db.put (p ++ key) v m.store).1 in
      let u1 =
        Queued-kept ext codecs db Inv entries laws prefixed queued_state_updates m.store s1 us u i1
          (ap (strip queued_state_updates) e1
            ∙ strip-insert_other queued_state_updates (p ++ key) v (entries m.store)
                (blocks-Apart_updates key)) in
      let t1 = Queued-kept ext codecs db Inv entries laws prefixed queued_txs m.store s1 ts t i1 (
        ap (strip queued_txs) e1
        ∙ strip-insert_other queued_txs (p ++ key) v (entries m.store) (blocks-Apart_txs key)) in
      let (s2, d2, u2) =
        clear_queue ext codecs db Inv entries laws prefixed queued_state_updates s1 us u1 in
      let k2 =
        Keeps-del_batch ext.rlp db Inv entries laws queued_state_updates queued_txs
          updates-Apart_txs min_range max_range s1 s2 (ok us) i1 d2 in
      let b2 =
        Keeps-del_batch ext.rlp db Inv entries laws queued_state_updates p updates_apart min_range
          max_range s1 s2 (ok us) i1 d2 in
      let t2 =
        Queued-kept ext codecs db Inv entries laws prefixed queued_txs s1 s2 ts t1 k2.inv k2.same in
      let (s3, d3, t3) = clear_queue ext codecs db Inv entries laws prefixed queued_txs s2 ts t2 in
      let k3 =
        Keeps-del_batch ext.rlp db Inv entries laws queued_txs queued_state_updates
          txs-Apart_updates min_range max_range s2 s3 (ok ts) k2.inv d3 in
      let b3 =
        Keeps-del_batch ext.rlp db Inv entries laws queued_txs p txs_apart min_range max_range s2 s3
          (ok ts) k2.inv d3 in
      (
        record { store = s3; current_block_number = (m.current_block_number + 1) % 2 ^ 64 },
        rw (d2, finish_block) (rw (d3, finish_block) refl),
        refl,
        k3.inv,
        ap (BTreeMap.get key) (b3.same ∙ b2.same)
            ∙ ap (λ (e : BTreeMap). BTreeMap.get key (strip p e)) e1
            ∙ ap (BTreeMap.get key)
                (strip-insert p key v (entries m.store) (laws.sorted m.store u.inv))
            ∙ get-insert key v key (strip p (entries m.store))
            ∙ ap (λ o. at o (some v) (BTreeMap.get key (strip p (entries m.store)))) (cmp_refl key),
        Queued-kept ext codecs db Inv entries laws prefixed queued_state_updates s2 s3 [] u2 k3.inv
            k3.same,
        t3,
      )

  -- Over a store that keeps the contract and whose iterations with a prefix are those of its entries: where the queues
  -- stand for ranges that decode to state updates and transactions, the block of these has a root, and the contract
  -- accepts it under the current number, the submission succeeds. If the bytes of that block decode to the block without
  -- its tree, then the block of the queued state updates and transactions, without a tree, is what is read under that
  -- number, both queues are empty, and the current number is the next one, as a `u64`.
  pub submit_next_block_lem :
      (order : List (ℕ × List MerkleIntervalNode) → List (ℕ × List MerkleIntervalNode))
      (contract : ℕ → Bytes → Option Bool) (m : BlockManager S) (us ts : List Range)
      (updates : List StateUpdate) (txs : List NewTransactionEvent) (root : Bytes)
      (block : PlasmaBlock)
      → Queued ext codecs db Inv entries laws prefixed queued_state_updates m.store us
      → Queued ext codecs db Inv entries laws prefixed queued_txs m.store ts
      → decode_values ext.state_update_from_abi us ≡ some updates
      → decode_values codecs.event_from_abi ts ≡ some txs
      → PlasmaBlock.merkelize ext order (PlasmaBlock.new m.current_block_number updates txs)
        ≡ some (ok (root, block))
      → contract m.current_block_number root ≡ some true
      → codecs.block_from_abi (codecs.block_to_abi block) ≡ some (record block { tree = none })
      → (m' : BlockManager S) × (submit_next_block ext codecs db order contract m
          ≡ some (ok tt, m'))
        × (m'.current_block_number ≡ (m.current_block_number + 1) % 2 ^ 64)
        × (get_block_range ext codecs db m.current_block_number m'
            ≡ ok (PlasmaBlock.new m.current_block_number updates txs))
        × (BlockDb.get_pending_state_updates ext codecs db m'.store ≡ some (ok []))
        × (BlockDb.get_pending_txs ext codecs db m'.store ≡ some (ok []))
  unfolding submit_next_block submit_block BlockDb.get_pending_state_updates BlockDb.get_pending_txs
      decode_values
  submit_next_block_lem order contract m us ts updates txs root block u t du dt c accepted back =
      let content : record block { tree = none }
          ≡ PlasmaBlock.new m.current_block_number updates txs =
        unfold PlasmaBlock.merkelize in
        merkelized_content ext order (PlasmaBlock.new m.current_block_number updates txs) block root
          updates c in
      let number : block.block_number ≡ m.current_block_number =
        unfold PlasmaBlock.merkelize in
        merkelized_number ext order (PlasmaBlock.new m.current_block_number updates txs) block root
          updates c in
      let (m', fin, next_number, i, at_number, u', t') = finish_lem m us ts block u t in
      let submitted : submit_block ext codecs db order contract block root m ≡ some (ok tt, m') =
        rw (ap (λ (n : ℕ). contract n root) number ∙ accepted, submit_block) fin in
      (
        m',
        rw
            (
              read_queue ext codecs db Inv entries laws prefixed ext.state_update_from_abi
                  queued_state_updates m.store us updates u du,
              submit_next_block,
            )
            (rw
              (read_queue ext codecs db Inv entries laws prefixed codecs.event_from_abi queued_txs
                m.store ts txs t dt)
              (rw c submitted)),
        next_number,
        get_block-block_at ext codecs db Inv entries laws m.current_block_number m'.store i
            ∙ ap (λ (b : Option Bytes). decode_block {E = DbErrorKind} codecs.block_from_abi (ok b))
                (ap (block_at (entries m'.store)) (sym number) ∙ at_number)
            ∙ rw (back, decode_block) (ap ok content),
        read_queue ext codecs db Inv entries laws prefixed ext.state_update_from_abi
            queued_state_updates m'.store [] [] u' refl,
        read_queue ext codecs db Inv entries laws prefixed codecs.event_from_abi queued_txs m'.store
            [] [] t' refl,
      )
