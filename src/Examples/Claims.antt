-- ===== src/Examples/Claims.antt =====
-- The claims of the clients, decided over concrete memory stores.
use plasma_rust_framework.Prelude.{◌≡◌, refl, true, false, none, some, [], ◌∷◌, arith}
use plasma_rust_framework.Prelude.Bytes.{cmp, starts_with}
use plasma_rust_framework.Prelude.Words.{be_bytes, le_bytes, of_le}
use plasma_rust_framework.Prelude.Result.{ok}
use plasma_rust_framework.PlasmaCore.Range as Coins
use plasma_rust_framework.Db.Key.{from_u64, remove_prefix}
use plasma_rust_framework.Db.BTreeMap
use plasma_rust_framework.Db.BTreeMap.{BTreeMap, IsSorted}
use plasma_rust_framework.Db.Memory.{memory, open_db, scan}
use plasma_rust_framework.Db.Memory.Laws.{memory-IsStore}
use plasma_rust_framework.Db.Bucket
use plasma_rust_framework.Db.Range
use plasma_rust_framework.Db.Range.{intersect}
use plasma_rust_framework.Db.RangeDb
use plasma_rust_framework.MerkleTree.IntervalTree
use plasma_rust_framework.MerkleTree.AddressTree
use plasma_rust_framework.MerkleTree.AddressTree.{AddressTree}
use plasma_rust_framework.MerkleTree.AddressTree.Single.{verify_any_address}
use plasma_rust_framework.MerkleTree.DoubleLayerTree
use plasma_rust_framework.Ovm.Types.{
  state_update_item, Decision, Variables, returns, panics, argument, get_variable, get_input,
  lookup, Message, constant_message, constant_integer, Property,
}
use plasma_rust_framework.Ovm.Manager.{
  property_of, not_decider, and_decider, has_lower_nonce_decider,
}
use plasma_rust_framework.Ovm.Deciders.{
  decision, element_of, not_decide, and_decide, has_lower_nonce_decide,
}
use plasma_rust_framework.Ovm.Quantifiers.{quantified}
use plasma_rust_framework.Ovm.Executor
use plasma_rust_framework.Ovm.SignedByDb
use plasma_rust_framework.Ovm.SignedByDb.{SignedByRecord, decode_records, address_bytes}
use plasma_rust_framework.Ovm.RangeAtBlockDb
use plasma_rust_framework.Ovm.RangeAtBlockDb.{RangeAtBlockRecord}
use plasma_rust_framework.Ovm.MessageDb
use plasma_rust_framework.Ovm.Statements.{
  two, included, state_update_name, right_property, create_state_channel_property,
}
use plasma_rust_framework.Ovm.Witnessed.{included_at_block_decide, recover, bytes_to_signature}
use plasma_rust_framework.Ovm.Stored.{blocks_quantified, verify_exclusion}
use plasma_rust_framework.Ovm.PropertyExecutor.{decide}
use plasma_rust_framework.Ovm.PropertyExecutor.Swap.{not_included_never_true}
use plasma_rust_framework.Ovm.PropertyExecutor.Blocks.{exclusion_ignored}
use plasma_rust_framework.Ovm.PropertyExecutor.Channel.{state_channel_signed_panics}
use plasma_rust_framework.Clients.Types.{Call}
use plasma_rust_framework.Clients.StateChannel.{StateChannel, check_claim, handle_message}
use plasma_rust_framework.Clients.StateChannel.Claims.{check_claim_panics, handle_message_lem}
use plasma_rust_framework.Examples.External.{sample, signature_of}
use plasma_rust_framework.Examples.Executor.{with_signature, update, rec, with_record}
use plasma_rust_framework.Examples.Messages
use plasma_rust_framework.Examples.Trees.{fill}

-- An exclusion proof that is refuted: its root is that of other data.
abbrev excluded : RangeAtBlockRecord
excluded = record {
  root = [];
  inclusion_proof = rec.inclusion_proof;
  plasma_data_block = record {
    deposit_contract_address = 0;
    updated_range = Coins.new 0 10;
    root = fill 32 (1 ∷ []);
    is_included = false;
    block_number = 3;
    data' = [];
  };
}

refuted : verify_exclusion sample excluded.plasma_data_block excluded.inclusion_proof ≡ some false
unfolding DoubleLayerTree.verify IntervalTree.compute_root IntervalTree.decode_proof
    IntervalTree.decode_nodes IntervalTree.hash IntervalTree.get_path IntervalTree.first_left
    IntervalTree.climb AddressTree.verify AddressTree.decode_proof AddressTree.decode_nodes
    AddressTree.climb fill cmp
refuted = refl

exclusion_ignored_example :
    blocks_quantified sample
      (Coins.new 2 8)
      (Range.new 0 10 (sample.range_at_block_abi.encode excluded) ∷ [])
    ≡ some (quantified [] true)
unfolding fill
exclusion_ignored_example =
    exclusion_ignored sample (Coins.new 2 8)
      (Range.new 0 10 (sample.range_at_block_abi.encode excluded)) excluded false (omega arith)
      (omega arith) (omega arith) (omega arith) refl refl refuted

verify_any_address_example :
    (t : AddressTree) × (AddressTree.generate (fill 32) (AddressTree.leaf (1 ∷ []) 7 ∷ []) ≡ some t)
    × (AddressTree.get_inclusion_proof t 7 ≡ some [])
    × (AddressTree.verify (fill 32) (AddressTree.leaf (1 ∷ []) 8) 3 [] (AddressTree.get_root t)
        ≡ true)
verify_any_address_example = verify_any_address (fill 32) (1 ∷ []) 7 8 3

abbrev message : Message
message = MessageDb.message (7 ∷ []) 2 (1 ∷ [])

abbrev too_high : Property
too_high = has_lower_nonce_decider (two (constant_message message) (constant_integer 2))

abbrev included_update : Variables
included_update = (state_update_name, state_update_item update) ∷ []

abbrev denied : Decision
denied = decision false (
    element_of (not_decider (included 3)) none
    ∷ element_of (included 3) (some rec.inclusion_proof)
    ∷ [])

denied_decided :
    decide sample memory memory open_db with_record 3
      (and_decider (not_decider (included 3)) too_high)
      included_update
    ≡ returns (ok denied) included_update
unfolding Executor.decide property_of and_decide not_decide included_at_block_decide argument
    get_variable get_input lookup RangeAtBlockDb.get_witness RangeDb.get Bucket.iter_all
    Bucket.remove_prefixes scan RangeDb.hits RangeDb.decode_all intersect cmp starts_with
    remove_prefix DoubleLayerTree.verify IntervalTree.compute_root IntervalTree.decode_proof
    IntervalTree.decode_nodes IntervalTree.hash IntervalTree.get_path AddressTree.verify
    AddressTree.decode_proof AddressTree.decode_nodes AddressTree.climb fill le_bytes of_le from_u64
    be_bytes has_lower_nonce_decide
denied_decided = refl

not_included_never_true_example : denied.outcome ≡ false
not_included_never_true_example =
    not_included_never_true sample memory memory open_db with_record 3 3 too_high included_update
      included_update denied denied_decided

abbrev by_claimant : SignedByRecord
by_claimant = record { public_key = 5; message = 1 ∷ []; signature = signature_of 5 }

claimant_signed :
    SignedByDb.get_all_signed_by sample.static_hash sample.signed_by_abi memory 5 with_signature
    ≡ some (by_claimant ∷ [])
unfolding SignedByDb.get_all_signed_by SignedByDb.store_witness BTreeMap.insert Bucket.iter_all
    Bucket.remove_prefixes scan cmp starts_with remove_prefix decode_records address_bytes be_bytes
    fill
claimant_signed = refl

state_channel_signed_panics_example :
    decide sample memory memory with_signature open_db 3
      (create_state_channel_property Messages.listed.encode 5 6 message)
      []
    ≡ panics
state_channel_signed_panics_example =
    state_channel_signed_panics sample memory memory with_signature open_db 0 Messages.listed.encode
      5 6 message by_claimant [] [] claimant_signed

abbrev party : StateChannel BTreeMap
party = record {
  db = (MessageDb.store_message Messages.listed memory message open_db).1;
  sign = λ bytes. signature_of 5;
  my_address = 5;
}

latest :
    MessageDb.get_most_recent_message Messages.listed memory (7 ∷ []) party.db ≡ some (some message)
unfolding MessageDb.get_most_recent_message MessageDb.store_message MessageDb.decode_messages
    BTreeMap.insert Bucket.iter_all Bucket.remove_prefixes scan cmp starts_with remove_prefix
    le_bytes
latest = refl

check_claim_panics_example :
    check_claim sample Messages.listed memory open_db open_db 2 (7 ∷ []) 5 6 party ≡ Call.panics
check_claim_panics_example =
    check_claim_panics sample Messages.listed 0 (7 ∷ []) 5 6 message party latest

own_recovered : recover sample (signature_of 5) (Messages.listed.encode message) ≡ some 5
unfolding recover bytes_to_signature fill
own_recovered = refl

other_recovered : recover sample (signature_of 6) (Messages.listed.encode message) ≡ some 6
unfolding recover bytes_to_signature fill
other_recovered = refl

abbrev opened : StateChannel BTreeMap
opened = record { db = open_db; sign = λ bytes. signature_of 5; my_address = 5 }

abbrev by_party : Property
by_party = right_property 5 (Messages.listed.encode message)

handle_message_lem_example :
    (party' : StateChannel BTreeMap) × (handle_message sample Messages.listed memory message
        (signature_of 6)
        opened
      ≡ some (signature_of 5, party'))
    × IsSorted party'.db
    × (decide sample memory memory party'.db open_db 1 by_party []
        ≡ returns (ok (decision true (element_of by_party (some (signature_of 5)) ∷ []))) [])
handle_message_lem_example =
    handle_message_lem sample Messages.listed memory memory IsSorted (λ s. s) memory-IsStore 0
      message (signature_of 6) 6 opened open_db (omega arith) (omega arith) tt other_recovered
      own_recovered
