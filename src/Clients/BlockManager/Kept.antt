-- ===== src/Clients/BlockManager/Kept.antt =====
-- The steps of the block manager, and the blocks that they keep.
use plasma_rust_framework.Prelude.{
  ℕ, ◌+◌, ◌%◌, ◌^◌, ◌≤◌, ◌<◌, Ordering, ◌≡◌, refl, sym, ap, ◌∙◌, subst, ◌≢◌, inl, inr, Bool, true,
  false, Option, none, some, List, ◌++◌, arith,
}
use plasma_rust_framework.Prelude.Bytes.{Bytes, cmp, eq_of_cmp, starts_with}
use plasma_rust_framework.Prelude.Result.{Result, ok, err}
use plasma_rust_framework.Db.Key.{from_u64, ErrorKind as DbErrorKind}
use plasma_rust_framework.Db.BTreeMap
use plasma_rust_framework.Db.BTreeMap.{BTreeMap}
use plasma_rust_framework.Db.BTreeMap.Laws.{get-insert, at_other}
use plasma_rust_framework.Db.Kvs.{KeyValueStore}
use plasma_rust_framework.Db.Store.{IsStore}
use plasma_rust_framework.Db.Bucket.Laws.{strip, strip-insert, get-strip}
use plasma_rust_framework.Db.RangeDb.Apart.{Keeps, Keeps-put, Keeps-del_batch, none-some, state_inj}
use plasma_rust_framework.MerkleTree.IntervalTree.{MerkleIntervalNode}
use plasma_rust_framework.Ovm.Types.{StateUpdate, get_range}
use plasma_rust_framework.Ovm.External.{External}
use plasma_rust_framework.Clients.Types.{
  ErrorKind, contract_error, NewTransactionEvent, PlasmaBlock, Codecs, min_range, max_range,
}
use plasma_rust_framework.Clients.BlockDb
use plasma_rust_framework.Clients.BlockDb.{
  queued_state_updates, queued_txs, plasma_block_db, blocks, decode_block, done, updates_bucket,
  txs_bucket,
}
use plasma_rust_framework.Clients.PlasmaBlock
use plasma_rust_framework.Clients.BlockManager.{
  BlockManager, get_block_range, enqueue_state_update, enqueue_tx, submit_next_block, submit_block,
  finish_block, dropped,
}
use plasma_rust_framework.Clients.BlockManager.Inversion.{
  updates_apart, txs_apart, done_inv, dropped_inv, read_or_inv, with_store_inv, merkelized_number,
  from_u64_inj, block_at,
}

module _ {S : Type 0} (ext : External) (codecs : Codecs) (db : KeyValueStore S) where
  -- A step is an enqueued state update, an enqueued transaction, or a submission, whatever it returns. A submission is a
  -- step where the next number is a `u64`.
  pub data Step (m m' : BlockManager S) : Type 0 where
    update_step :
        (update : StateUpdate) (r : Result (Unit {0}) ErrorKind)
        → enqueue_state_update ext codecs db update m ≡ some (r, m')
        → Step m m'
    tx_step :
        (tx : NewTransactionEvent) (r : Result (Unit {0}) ErrorKind)
        → enqueue_tx ext codecs db tx m ≡ some (r, m')
        → Step m m'
    submit_step :
        (order : List (ℕ × List MerkleIntervalNode) → List (ℕ × List MerkleIntervalNode))
        (contract : ℕ → Bytes → Option Bool) (r : Result (Unit {0}) ErrorKind)
        → m.current_block_number + 1 < 2 ^ 64
        → submit_next_block ext codecs db order contract m ≡ some (r, m')
        → Step m m'

  pub data Reach (m : BlockManager S) : BlockManager S → Type 0 where
    here : Reach m m
    next : {t u : BlockManager S} → Reach m t → Step t u → Reach m u

module _ {S : Type 0} (ext : External) (codecs : Codecs) (db : KeyValueStore S) (Inv : S → Type 0)
    (entries : S → BTreeMap) (laws : IsStore db Inv entries) where
  record Kept (m m' : BlockManager S) : Type 0 where
    inv : Inv m'.store
    grows : m.current_block_number ≤ m'.current_block_number
    fits : m.current_block_number < 2 ^ 64 → m'.current_block_number < 2 ^ 64
    blocks_kept :
        (n : ℕ)
        → n < m.current_block_number
        → n < 2 ^ 64
        → m.current_block_number < 2 ^ 64
        → block_at (entries m'.store) n ≡ block_at (entries m.store) n

  Kept-store :
      (p : Bytes) (apart : (k : Bytes) → starts_with (p ++ k) (plasma_block_db ++ blocks) ≡ false)
      (m : BlockManager S) (s : S)
      → Keeps ext.rlp db Inv entries laws p (plasma_block_db ++ blocks) apart m.store s
      → Kept m (record m { store = s })
  Kept-store p apart m s k = record {
    inv = k.inv;
    grows = omega arith;
    fits = λ o. o;
    blocks_kept = λ n h o o'. ap (BTreeMap.get (from_u64 n)) k.same;
  }

  save-block_at :
      (block : PlasmaBlock) (s : S) (n : ℕ)
      → Inv s
      → n < block.block_number
      → block.block_number < 2 ^ 64
      → Inv (BlockDb.save_block ext codecs db block s).1
        × (block_at (entries (BlockDb.save_block ext codecs db block s).1) n
            ≡ block_at (entries s) n)
  unfolding BlockDb.save_block
  save-block_at block s n i h o =
      let p = plasma_block_db ++ blocks in
      let key = from_u64 block.block_number in
      let v = codecs.block_to_abi block in
      let (done, inv, same) = laws.put_lem (p ++ key) v s i in
      let differ : cmp (from_u64 n) key ≢ Ordering.eq = λ e.
        (let k = from_u64_inj n block.block_number (omega arith) o (eq_of_cmp (from_u64 n) key e) in
          absurd (omega arith)) in
      (
        inv,
        ap (λ (m : BTreeMap). BTreeMap.get (from_u64 n) (strip p m)) same
            ∙ ap (BTreeMap.get (from_u64 n)) (strip-insert p key v (entries s) (laws.sorted s i))
            ∙ get-insert key v (from_u64 n) (strip p (entries s))
            ∙ at_other (cmp (from_u64 n) key) (some v) (block_at (entries s) n) differ,
      )

  Kept-finish :
      (block : PlasmaBlock) (m m' : BlockManager S) (r : Result (Unit {0}) ErrorKind)
      → Inv m.store
      → block.block_number ≡ m.current_block_number
      → m.current_block_number + 1 < 2 ^ 64
      → finish_block ext codecs db block m ≡ some (r, m')
      → Kept m m'
  unfolding finish_block BlockDb.delete_all_queued_state_updates BlockDb.delete_all_queued_txs
      BlockDb.save_block
  Kept-finish block m m' r i e small h =
      let s1 = (BlockDb.save_block ext codecs db block m.store).1 in
      let cut1 = BlockDb.delete_all_queued_state_updates ext codecs db s1 in
      let next_number = (m.current_block_number + 1) % 2 ^ 64 in
      let last : S → Option (Result (Unit {0}) ErrorKind × BlockManager S) =
        λ s'. some (ok tt, record { store = s'; current_block_number = next_number }) in
      let (x, s2, a, h2) =
        dropped_inv cut1 (λ s. dropped (BlockDb.delete_all_queued_txs ext codecs db s) last) r m'
          h in
      let (y, s3, b, h3) =
        dropped_inv (BlockDb.delete_all_queued_txs ext codecs db s2) last r m' h2 in
      let (x', a') = done_inv _ x s2 a in
      let (y', b') = done_inv _ y s3 b in
      let p = plasma_block_db ++ blocks in
      let inv1 =
        (laws.put_lem (p ++ from_u64 block.block_number) (codecs.block_to_abi block) m.store i).1 in
      let k1 =
        Keeps-del_batch ext.rlp db Inv entries laws queued_state_updates p updates_apart min_range
          max_range s1 s2 x' inv1 a' in
      let k2 =
        Keeps-del_batch ext.rlp db Inv entries laws queued_txs p txs_apart min_range max_range s2 s3
          y' k1.inv b' in
      let at_end : Kept m (record { store = s3; current_block_number = next_number }) = record {
        inv = k2.inv;
        grows = omega arith;
        fits = λ o. omega arith;
        blocks_kept = λ n o o' o''.
            ap (BTreeMap.get (from_u64 n)) k2.same
            ∙ ap (BTreeMap.get (from_u64 n)) k1.same
            ∙ (save-block_at block m.store n i (omega arith) (omega arith)).1;
      } in
      subst (Kept m) (state_inj h3) at_end

  Kept-refl : (m : BlockManager S) → Inv m.store → Kept m m
  Kept-refl m i = record {
    inv = i;
    grows = omega arith;
    fits = λ o. o;
    blocks_kept = λ n o o' o''. refl;
  }

  Kept-submit :
      (contract : ℕ → Bytes → Option Bool) (block : PlasmaBlock) (root : Bytes)
      (m m' : BlockManager S) (r : Result (Unit {0}) ErrorKind) (answer : Option Bool)
      → Inv m.store
      → block.block_number ≡ m.current_block_number
      → m.current_block_number + 1 < 2 ^ 64
      → (elim answer as (λ _. Option (Result (Unit {0}) ErrorKind × BlockManager S)) [
        | none ↦ none
        | some false ↦ some (err contract_error, m)
        | some true ↦ finish_block ext codecs db block m
      ])
        ≡ some (r, m')
      → Kept m m'
  Kept-submit contract block root m m' r none i e small h = absurd (none-some h)
  Kept-submit contract block root m m' r (some false) i e small h =
      subst (Kept m) (state_inj h) (Kept-refl m i)
  Kept-submit contract block root m m' r (some true) i e small h =
      Kept-finish block m m' r i e small h

  Step-Kept : {m m' : BlockManager S} → Step ext codecs db m m' → Inv m.store → Kept m m'
  unfolding enqueue_state_update enqueue_tx submit_next_block submit_block
      BlockDb.enqueue_state_update BlockDb.enqueue_tx PlasmaBlock.merkelize
  Step-Kept {m} {m'} (update_step update r h) i =
      let (x, s, a, e) =
        with_store_inv m m' (BlockDb.enqueue_state_update ext codecs db update m.store) r h in
      let (x', a') = done_inv _ x s a in
      subst (Kept m) e (
        Kept-store queued_state_updates updates_apart m s (
          Keeps-put ext.rlp db Inv entries laws queued_state_updates (plasma_block_db ++ blocks)
            updates_apart (get_range update).start (get_range update).end
            (ext.state_update_to_abi update) m.store s x' i a'))
  Step-Kept {m} {m'} (tx_step tx r h) i =
      let (x, s, a, e) = with_store_inv m m' (BlockDb.enqueue_tx ext codecs db tx m.store) r h in
      let (x', a') = done_inv _ x s a in
      subst (Kept m) e (
        Kept-store queued_txs txs_apart m s (
          Keeps-put ext.rlp db Inv entries laws queued_txs (plasma_block_db ++ blocks) txs_apart
            tx.transaction.range.start tx.transaction.range.end (codecs.event_to_abi tx) m.store s
            x' i a'))
  Step-Kept {m} {m'} (submit_step order contract r small h) i =
      elim (read_or_inv (BlockDb.get_pending_state_updates ext codecs db m.store) m m' _ r h) [
        | inl e ↦ subst (Kept m) e (Kept-refl m i)
        | inr (updates, a, h1) ↦
            elim (read_or_inv (BlockDb.get_pending_txs ext codecs db m.store) m m' _ r h1) [
              | inl e ↦ subst (Kept m) e (Kept-refl m i)
              | inr (txs, b, h2) ↦
                  let block = PlasmaBlock.new m.current_block_number updates txs in
                  elim (read_or_inv (PlasmaBlock.merkelize_updates ext order block updates) m m' _ r
                    h2) [
                      | inl e ↦ subst (Kept m) e (Kept-refl m i)
                      | inr ((root, block'), c, h3) ↦
                          Kept-submit contract block' root m m' r
                            (contract block'.block_number root) i
                            (merkelized_number ext order block block' root updates c) small h3
                    ]
            ]
      ]

  Reach-Kept : {m m' : BlockManager S} → Reach ext codecs db m m' → Inv m.store → Kept m m'
  Reach-Kept {m} here i = Kept-refl m i
  Reach-Kept {m} {m'} (next {t} reached step) i =
      let a = Reach-Kept reached i in
      let b = Step-Kept step a.inv in
      record {
        inv = b.inv;
        grows = omega (arith, a.grows, b.grows);
        fits = λ o. b.fits (a.fits o);
        blocks_kept = λ n o o' o''.
            b.blocks_kept n (omega (arith, a.grows)) o' (a.fits o'') ∙ a.blocks_kept n o o' o'';
      }

  pub get_block-block_at :
      (n : ℕ) (s : S)
      → Inv s
      → BlockDb.get_block ext codecs db n s
        ≡ decode_block {E = DbErrorKind} codecs.block_from_abi (ok (block_at (entries s) n))
  unfolding BlockDb.get_block
  get_block-block_at n s i =
      let p = plasma_block_db ++ blocks in
      ap (decode_block codecs.block_from_abi)
        (laws.get_lem (p ++ from_u64 n) s i ∙ ap ok (get-strip p (from_u64 n) (entries s)))

  -- Over a store that keeps the contract: for every number below the current one of a manager, the block that is read
  -- under it, or the failure to read one, stays the same after any sequence of enqueued state updates, enqueued
  -- transactions and submissions, failing ones included, while the current number is a `u64`; and the current number
  -- never falls.
  pub submitted_blocks_kept :
      (m m' : BlockManager S) (n : ℕ)
      → Inv m.store
      → m.current_block_number < 2 ^ 64
      → Reach ext codecs db m m'
      → n < m.current_block_number
      → (get_block_range ext codecs db n m' ≡ get_block_range ext codecs db n m)
        × (m.current_block_number ≤ m'.current_block_number)
  submitted_blocks_kept m m' n i o reached h =
      let k = Reach-Kept reached i in
      (
        get_block-block_at n m'.store k.inv
            ∙ ap (λ (b : Option Bytes). decode_block {E = DbErrorKind} codecs.block_from_abi (ok b))
                (k.blocks_kept n h (omega arith) o)
            ∙ sym (get_block-block_at n m.store i),
        k.grows,
      )
