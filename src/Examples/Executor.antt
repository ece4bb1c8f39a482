-- ===== src/Examples/Executor.antt =====
-- The executor (ovm/src/property_executor.rs) over concrete memory stores.
use plasma_rust_framework.Prelude.{◌≡◌, refl, sym, subst, true, some, [], ◌∷◌, ◌++◌, arith}
use plasma_rust_framework.Prelude.Bytes.{Bytes, cmp, starts_with}
use plasma_rust_framework.Prelude.Words.{be_bytes, le_bytes, of_le}
use plasma_rust_framework.Prelude.Result.{Result, ok}
use plasma_rust_framework.Db.BTreeMap.{BTreeMap, IsSorted}
use plasma_rust_framework.Db.Memory.{memory, open_db, scan}
use plasma_rust_framework.Db.Memory.Laws.{memory-IsStore}
use plasma_rust_framework.Ovm.Types.{
  ErrorKind, constant_address, constant_bytes, constant_integer, constant_state_update,
  PropertyInputs, Decision, returns, argument, get_variable, get_input, get_range, StateUpdate,
}
use plasma_rust_framework.Ovm.Manager.{property_of, signed_by_decider, included_at_block_decider}
use plasma_rust_framework.Ovm.Deciders.{decision, element_of}
use plasma_rust_framework.Ovm.SignedByDb
use plasma_rust_framework.Ovm.RangeAtBlockDb
use plasma_rust_framework.Ovm.RangeAtBlockDb.{RangeAtBlockRecord, range_at_block_name}
use plasma_rust_framework.Ovm.Executor
use plasma_rust_framework.Db.Range
use plasma_rust_framework.Db.Range.{intersect}
use plasma_rust_framework.Db.RangeDb
use plasma_rust_framework.Db.Bucket
use plasma_rust_framework.Db.Key.{from_u64, remove_prefix}
use plasma_rust_framework.MerkleTree.IntervalTree
use plasma_rust_framework.MerkleTree.AddressTree
use plasma_rust_framework.MerkleTree.AddressTree.{eq_bytes}
use plasma_rust_framework.MerkleTree.DoubleLayerTree
use plasma_rust_framework.Clients.PlasmaBlock.{get_plasma_data_block}
use plasma_rust_framework.Ovm.SignedByDb.{address_bytes, get_all_signed_by}
use plasma_rust_framework.Ovm.Statements.{two}
use plasma_rust_framework.Ovm.Witnessed.{
  recover, bytes_to_signature, included_at_block_decide, leaf_of,
}
use plasma_rust_framework.Ovm.PropertyExecutor.{decide}
use plasma_rust_framework.Ovm.PropertyExecutor.Stores.{signed_by_complete}
use plasma_rust_framework.Ovm.PropertyExecutor.Sound.{signed_by_sound, included_at_block_sound}
use plasma_rust_framework.Examples.External.{sample, signature_of, update_of, inclusion_proof_abi}
use plasma_rust_framework.Examples.Trees.{fill}

abbrev inputs : PropertyInputs
inputs = two (constant_address 5) (constant_bytes (1 ∷ []))

abbrev signed : Decision
signed = decision true (element_of (signed_by_decider inputs) (some (signature_of 5)) ∷ [])

pub recovered : recover sample (signature_of 5) (1 ∷ []) ≡ some 5
unfolding recover bytes_to_signature fill
recovered = refl

signed_by_complete_example :
    (s' : BTreeMap) × (SignedByDb.store_witness sample.static_hash sample.signed_by_abi memory 5
        (1 ∷ [])
        (signature_of 5)
        open_db
      ≡ (ok tt, s'))
    × IsSorted s'
    × (decide sample memory memory s' open_db 1 (signed_by_decider inputs) []
        ≡ returns (ok signed) [])
unfolding argument get_variable get_input
signed_by_complete_example =
    signed_by_complete sample memory memory IsSorted (λ s. s) memory-IsStore 0 inputs [] 5 (1 ∷ [])
      (signature_of 5) open_db open_db (omega arith) tt refl refl recovered

abbrev pub with_signature : BTreeMap
with_signature =
    (SignedByDb.store_witness sample.static_hash sample.signed_by_abi memory 5 (1 ∷ [])
      (signature_of 5) open_db).1

decided :
    decide sample memory memory with_signature open_db 1 (signed_by_decider inputs) []
    ≡ returns (ok signed) []
unfolding argument get_variable get_input
decided =
    let (s', stored, kept, d) =
      signed_by_complete sample memory memory IsSorted (λ s. s) memory-IsStore 0 inputs [] 5
        (1 ∷ []) (signature_of 5) open_db open_db (omega arith) tt refl refl recovered in
    subst
      (λ (x : Result (Unit {0}) ErrorKind × BTreeMap).
        decide sample memory memory x.1 open_db 1 (signed_by_decider inputs) []
        ≡ returns (ok signed) [])
      (sym stored) d

signed_by_sound_example :
    (signature : Bytes) × (recover sample signature (1 ∷ []) ≡ some 5)
    × (signed.outcome ≡ true)
    × (signed.implication_proof ≡ element_of (signed_by_decider inputs) (some signature) ∷ [])
unfolding argument get_variable get_input
signed_by_sound_example =
    signed_by_sound sample memory memory with_signature open_db 0 inputs [] [] 5 (1 ∷ []) signed
      refl refl decided

-- The coins 0 to 10 of the contract 0 in block 3, alone in their block.
abbrev pub update : StateUpdate
update = update_of 3 0 0 10

abbrev pub data_of_update : Bytes
data_of_update = 3 ∷ 0 ∷ 0 ∷ 10 ∷ []

abbrev pub rec : RangeAtBlockRecord
rec = record {
  root = fill 32 data_of_update;
  inclusion_proof = inclusion_proof_abi.encode (record {
    address_idx = 0;
    interval_idx = 0;
    address_tree_inclusion_proof = [];
    interval_tree_inclusion_proof = [];
  });
  plasma_data_block = get_plasma_data_block sample (fill 32 data_of_update) update;
}

abbrev pub with_record : BTreeMap
with_record =
    (
      (range_at_block_name ++ le_bytes 8 3) ++ from_u64 10,
      sample.rlp.encode (Range.new 0 10 (sample.range_at_block_abi.encode rec)),
    )
    ∷ []

abbrev inclusion : PropertyInputs
inclusion = two (constant_integer 3) (constant_state_update update)

abbrev included_decision : Decision
included_decision =
    decision true (element_of (included_at_block_decider inclusion) (some rec.inclusion_proof) ∷ [])

included_decided :
    decide sample memory memory open_db with_record 1 (included_at_block_decider inclusion) []
    ≡ returns (ok included_decision) []
unfolding Executor.decide property_of included_at_block_decide argument get_variable get_input
    RangeAtBlockDb.get_witness RangeDb.get Bucket.iter_all Bucket.remove_prefixes scan RangeDb.hits
    RangeDb.decode_all intersect cmp starts_with remove_prefix DoubleLayerTree.verify
    IntervalTree.compute_root IntervalTree.decode_proof IntervalTree.decode_nodes IntervalTree.hash
    IntervalTree.get_path AddressTree.verify AddressTree.decode_proof AddressTree.decode_nodes
    AddressTree.climb fill le_bytes of_le from_u64 be_bytes
included_decided = refl

included_at_block_sound_example :
    (r : RangeAtBlockRecord) × (RangeAtBlockDb.get_witness sample.range_at_block_abi sample.rlp
        memory 3
        (get_range update)
        with_record
      ≡ some (ok r))
    × (DoubleLayerTree.verify sample.hash_leaf sample.inclusion_proof_abi
          (leaf_of sample update)
          r.inclusion_proof
          r.root
        ≡ some true)
    × (included_decision.outcome ≡ true)
    × (included_decision.implication_proof
        ≡ element_of (included_at_block_decider inclusion) (some r.inclusion_proof) ∷ [])
unfolding argument get_variable get_input
included_at_block_sound_example =
    included_at_block_sound sample memory memory open_db with_record 0 inclusion [] [] 3 update
      included_decision refl refl included_decided
