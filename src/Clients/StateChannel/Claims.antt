-- ===== src/Clients/StateChannel/Claims.antt =====
-- The claims of clients/src/state_channel.rs, over the memory store.
use plasma_rust_framework.Prelude.{
  ℕ, suc, ◌^◌, ◌<◌, ◌≡◌, refl, ◌∙◌, true, none, some, [], ◌∷◌, ◌++◌,
}
use plasma_rust_framework.Prelude.Bytes.{Bytes}
use plasma_rust_framework.Prelude.Result.{ok}
use plasma_rust_framework.Db.BTreeMap
use plasma_rust_framework.Db.BTreeMap.{BTreeMap}
use plasma_rust_framework.Db.Memory.{memory, open_db, scan}
use plasma_rust_framework.Db.Bucket.{iter_all, remove_prefixes}
use plasma_rust_framework.Ovm.Types.{
  Message, panics, returns, constant_address, constant_bytes, argument, get_variable,
}
use plasma_rust_framework.Ovm.External.{External}
use plasma_rust_framework.Ovm.MessageDb
use plasma_rust_framework.Ovm.MessageDb.{MessageAbi, store_message_lem}
use plasma_rust_framework.Ovm.SignedByDb
use plasma_rust_framework.Ovm.SignedByDb.{SignedByRecord, signed_by_name, address_bytes}
use plasma_rust_framework.Ovm.PropertyExecutor.Stores.{signed_by_complete}
use plasma_rust_framework.Ovm.Deciders.{element_of, decision}
use plasma_rust_framework.Db.Store.{IsStore}
use plasma_rust_framework.Db.Kvs.{KeyValueStore}
use plasma_rust_framework.Ovm.Statements.{two, right_property, create_state_channel_property}
use plasma_rust_framework.Ovm.Witnessed.{recover}
use plasma_rust_framework.Ovm.PropertyExecutor.{decide}
use plasma_rust_framework.Ovm.PropertyExecutor.Sound.{decide_signed_by, signed_by_read}
use plasma_rust_framework.Ovm.PropertyExecutor.Channel.{state_channel_unsigned_panics}
use plasma_rust_framework.Clients.Types.{Call}
use plasma_rust_framework.Clients.StateChannel.{
  StateChannel, check_claim, get_exit_claim, handle_message, sign_and_store_message,
}

none_signed :
    (ext : External) (signer : ℕ)
    → SignedByDb.get_all_signed_by ext.static_hash ext.signed_by_abi memory signer open_db ≡ some []
unfolding SignedByDb.get_all_signed_by iter_all scan remove_prefixes SignedByDb.decode_records
none_signed ext signer = refl

not_found :
    (ext : External) (signer : ℕ) (message : Bytes)
    → SignedByDb.get_witness ext.static_hash ext.signed_by_abi memory signer message open_db ≡ none
unfolding SignedByDb.get_witness BTreeMap.get
not_found ext signer message = refl

right_panics :
    (ext : External) (fuel address : ℕ) (message : Bytes)
    → decide ext memory memory open_db open_db (suc fuel) (right_property address message) []
      ≡ panics
unfolding argument get_variable
right_panics ext fuel address message =
    decide_signed_by ext memory memory open_db open_db fuel
      (two (constant_address address) (constant_bytes message)) []
    ∙ signed_by_read ext memory memory open_db open_db
        (two (constant_address address) (constant_bytes message)) [] address message refl refl
    ∙ rw (not_found ext address message) refl

claim_of :
    (message_abi : MessageAbi) (channel_id : Bytes) (my_address counter_party : ℕ) (m : Message)
    (ext : External) (self : StateChannel BTreeMap)
    → MessageDb.get_most_recent_message message_abi memory channel_id self.db ≡ some (some m)
    → get_exit_claim ext message_abi memory channel_id my_address counter_party self
      ≡ some (create_state_channel_property message_abi.encode my_address counter_party m)
unfolding get_exit_claim
claim_of message_abi channel_id my_address counter_party m ext self h = rw (h, get_exit_claim) refl

-- Over memory stores: where a channel has a most recent message, `check_claim` panics, with any fuel from 2 on.
pub check_claim_panics :
    (ext : External) (message_abi : MessageAbi) (fuel : ℕ) (channel_id : Bytes)
    (my_address counter_party : ℕ) (m : Message) (self : StateChannel BTreeMap)
    → MessageDb.get_most_recent_message message_abi memory channel_id self.db ≡ some (some m)
    → check_claim ext message_abi memory open_db open_db
        (suc (suc fuel))
        channel_id
        my_address
        counter_party
        self
      ≡ Call.panics
unfolding check_claim
check_claim_panics ext message_abi fuel channel_id my_address counter_party m self h =
    rw
      (
        claim_of message_abi channel_id my_address counter_party m ext self h,
        state_channel_unsigned_panics ext memory memory open_db open_db fuel message_abi.encode
            my_address counter_party m [] (none_signed ext my_address)
            (right_panics ext fuel counter_party (message_abi.encode m)),
        check_claim,
      )
      refl

module _ {S : Type 0} (ext : External) (message_abi : MessageAbi) (db range_db : KeyValueStore S)
    (Inv : S → Type 0) (entries : S → BTreeMap) (laws : IsStore db Inv entries) where
  witness_stored :
      (public_key : ℕ) (message signature : Bytes) (s : S)
      → Inv s
      → (s' : S) × (SignedByDb.store_witness ext.static_hash ext.signed_by_abi db public_key message
            signature s
          ≡ (ok tt, s'))
        × Inv s'
  unfolding SignedByDb.store_witness
  witness_stored public_key message signature s i =
      let rec : SignedByRecord = record {
        public_key = public_key;
        message = message;
        signature = signature;
      } in
      let key = (signed_by_name ++ address_bytes public_key) ++ ext.static_hash message in
      let (done, inv, same) = laws.put_lem key (ext.signed_by_abi.encode rec) s i in
      ((db.put key (ext.signed_by_abi.encode rec) s).1, rw done refl, inv)

  -- Over a store that keeps the contract, for a message with a `u64` nonce whose signature recovers to some address, and
  -- a party whose own signature of the message recovers to its address of 160 bits: `handle_message` returns the
  -- party's own signature of the message, and the executor over the store then decides with yes that the party has
  -- signed the message.
  pub handle_message_lem :
      (fuel : ℕ) (m : Message) (signature : Bytes) (counter_party : ℕ) (self : StateChannel S)
      (r : S)
      → m.nonce < 2 ^ 64
      → self.my_address < 2 ^ 160
      → Inv self.db
      → recover ext signature (message_abi.encode m) ≡ some counter_party
      → recover ext (self.sign (message_abi.encode m)) (message_abi.encode m) ≡ some self.my_address
      → (self' : StateChannel S) × (handle_message ext message_abi db m signature self
          ≡ some (self.sign (message_abi.encode m), self'))
        × Inv self'.db
        × (decide ext db range_db self'.db r
              (suc fuel)
              (right_property self.my_address (message_abi.encode m))
              []
            ≡ returns
                (ok (
                  decision true (
                    element_of
                      (right_property self.my_address (message_abi.encode m))
                      (some (self.sign (message_abi.encode m)))
                    ∷ [])))
                [])
  unfolding handle_message sign_and_store_message argument get_variable
  handle_message_lem fuel m signature counter_party self r h a i c d =
      let message = message_abi.encode m in
      let (s1, kept, inv) = witness_stored counter_party message signature self.db i in
      let (s2, stored, inv2, read, others) =
        store_message_lem message_abi db Inv entries laws m s1 h inv in
      let (s3, signed, inv3, decided) =
        signed_by_complete ext db range_db Inv entries laws fuel
          (two (constant_address self.my_address) (constant_bytes message)) [] self.my_address
          message (self.sign message) s2 r a inv2 refl refl d in
      (
        record self { db = s3 },
        rw (c, kept, handle_message) (rw (stored, signed, sign_and_store_message) refl),
        inv3,
        decided,
      )
