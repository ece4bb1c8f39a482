-- ===== src/Clients/BlockManager/Error.antt =====
-- A submission that fails (clients/src/plasma/block_manager.rs, `submit_next_block`).
use plasma_rust_framework.Prelude.{
  ℕ, ◌+◌, ◌%◌, ◌^◌, ◌≡◌, inl, inr, Bool, true, false, Option, none, some, List, arith,
}
use plasma_rust_framework.Prelude.Bytes.{Bytes}
use plasma_rust_framework.Prelude.Result.{Result, ok, err}
use plasma_rust_framework.Db.Kvs.{KeyValueStore}
use plasma_rust_framework.Db.RangeDb.Apart.{none-some}
use plasma_rust_framework.MerkleTree.IntervalTree.{MerkleIntervalNode}
use plasma_rust_framework.Ovm.External.{External}
use plasma_rust_framework.Clients.Types.{ErrorKind, contract_error, PlasmaBlock, Codecs}
use plasma_rust_framework.Clients.BlockDb
use plasma_rust_framework.Clients.BlockDb.{
  queued_state_updates, queued_txs, plasma_block_db, blocks, decode_values, get_values,
  decode_block, done, updates_bucket, txs_bucket,
}
use plasma_rust_framework.Clients.PlasmaBlock
use plasma_rust_framework.Clients.BlockManager.{
  BlockManager, submit_next_block, submit_block, finish_block, dropped,
}
use plasma_rust_framework.Clients.BlockManager.Inversion.{read_or_inv, dropped_inv}

ok_not_err :
    {S : Type 0} {x y : S} {e : ErrorKind}
    → ¬ (◌≡◌ {A = Option (Result (Unit {0}) ErrorKind × S)} (some (ok tt, x)) (some (err e, y)))
ok_not_err h = ground arith

module _ {S : Type 0} (ext : External) (codecs : Codecs) (db : KeyValueStore S) where
  finish-ok :
      (block : PlasmaBlock) (m m' : BlockManager S) (e : ErrorKind)
      → ¬ (finish_block ext codecs db block m ≡ some (err e, m'))
  unfolding finish_block
  finish-ok block m m' e h =
      let last : S → Option (Result (Unit {0}) ErrorKind × BlockManager S) = λ s'. some (
        ok tt,
        record { store = s'; current_block_number = (m.current_block_number + 1) % 2 ^ 64 },
      ) in
      let (x, s2, a, h2) =
        dropped_inv
          (BlockDb.delete_all_queued_state_updates ext codecs db
            (BlockDb.save_block ext codecs db block m.store).1)
          (λ s. dropped (BlockDb.delete_all_queued_txs ext codecs db s) last) (err e) m' h in
      let (y, s3, b, h3) =
        dropped_inv (BlockDb.delete_all_queued_txs ext codecs db s2) last (err e) m' h2 in
      ok_not_err h3

  submit-err :
      (block : PlasmaBlock) (m m' : BlockManager S) (e : ErrorKind) (answer : Option Bool)
      → (elim answer as (λ _. Option (Result (Unit {0}) ErrorKind × BlockManager S)) [
        | none ↦ none
        | some false ↦ some (err contract_error, m)
        | some true ↦ finish_block ext codecs db block m
      ])
        ≡ some (err e, m')
      → m ≡ m'
  submit-err block m m' e none h = absurd (none-some h)
  submit-err block m m' e (some false) h = cc
  submit-err block m m' e (some true) h = absurd (finish-ok block m m' e h)

  -- A submission that returns an error leaves the manager as it was: the queues, the blocks and the current number.
  pub submit_next_block_error :
      (order : List (ℕ × List MerkleIntervalNode) → List (ℕ × List MerkleIntervalNode))
      (contract : ℕ → Bytes → Option Bool) (m m' : BlockManager S) (e : ErrorKind)
      → submit_next_block ext codecs db order contract m ≡ some (err e, m')
      → m ≡ m'
  unfolding submit_next_block submit_block
  submit_next_block_error order contract m m' e h =
      elim (read_or_inv (BlockDb.get_pending_state_updates ext codecs db m.store) m m' _ (err e)
        h) [
          | inl same ↦ same
          | inr (updates, a, h1) ↦
              elim (read_or_inv (BlockDb.get_pending_txs ext codecs db m.store) m m' _ (err e) h1) [
                | inl same ↦ same
                | inr (txs, b, h2) ↦
                    elim (read_or_inv
                      (PlasmaBlock.merkelize ext order
                        (PlasmaBlock.new m.current_block_number updates txs))
                      m m' _ (err e) h2) [
                        | inl same ↦ same
                        | inr ((root, block), c, h3) ↦
                            submit-err block m m' e (contract block.block_number root) h3
                      ]
              ]
        ]
