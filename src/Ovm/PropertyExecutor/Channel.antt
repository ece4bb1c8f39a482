-- ===== src/Ovm/PropertyExecutor/Channel.antt =====
-- The exit claim of a state channel (ovm/src/statements/state_channel.rs) at the executor.
use plasma_rust_framework.Prelude.{
  ℕ, suc, ◌+◌, ◌%◌, ◌^◌, ◌≡◌, refl, true, none, some, List, [], ◌∷◌, arith,
}
use plasma_rust_framework.Prelude.Bytes.{Bytes, cmp}
use plasma_rust_framework.Prelude.Result.{ok}
use plasma_rust_framework.Db.Kvs.{KeyValueStore}
use plasma_rust_framework.Ovm.Types.{
  constant_address, Message, Decision, Variables, panics, returns, argument, lookup, get_variable,
}
use plasma_rust_framework.Ovm.Manager.{property_of, q_signed_by}
use plasma_rust_framework.Ovm.Deciders.{
  decision, element_of, and_decide, for_all_such_that_decide, for_all_loop, for_all_get_decision,
  has_lower_nonce_decide,
}
use plasma_rust_framework.Ovm.Executor
use plasma_rust_framework.Ovm.Executor.Laws.{and_decider_lem}
use plasma_rust_framework.Ovm.External.{External}
use plasma_rust_framework.Ovm.SignedByDb
use plasma_rust_framework.Ovm.SignedByDb.{SignedByRecord}
use plasma_rust_framework.Ovm.Quantifiers.{quantified}
use plasma_rust_framework.Ovm.Statements.{
  one, left_property, right_property, create_state_channel_property,
}
use plasma_rust_framework.Ovm.Stored.{signed_by_quantified, messages_of}
use plasma_rust_framework.Ovm.PropertyExecutor.{witnessed, stored, decide, get_all_quantified}

module _ {S : Type 0} (ext : External) (db range_db : KeyValueStore S) (s r : S) where
  quantified_signed :
      (signer : ℕ) (messages : List SignedByRecord) (v : Variables)
      → SignedByDb.get_all_signed_by ext.static_hash ext.signed_by_abi db signer s ≡ some messages
      → get_all_quantified ext db range_db s r (q_signed_by (one (constant_address signer))) v
        ≡ some (quantified (messages_of messages) true)
  unfolding Executor.get_all_quantified property_of signed_by_quantified argument
  quantified_signed signer messages v h = rw (h, signed_by_quantified) refl

  left_panics :
      (fuel my_address upper_nonce : ℕ) (m : SignedByRecord) (messages : List SignedByRecord)
      (v : Variables)
      → SignedByDb.get_all_signed_by ext.static_hash ext.signed_by_abi db my_address s
        ≡ some (m ∷ messages)
      → decide ext db range_db s r (suc (suc fuel)) (left_property my_address upper_nonce) v
        ≡ panics
  unfolding Executor.decide property_of argument for_all_such_that_decide for_all_loop
      has_lower_nonce_decide get_variable lookup cmp
  left_panics fuel my_address upper_nonce m messages v h =
      rw (quantified_signed my_address (m ∷ messages) v h, for_all_such_that_decide) refl

  -- Where a message is stored that the claimant has signed, the call that decides the claimant's exit claim panics,
  -- with any fuel from 3 on.
  pub state_channel_signed_panics :
      (fuel : ℕ) (to_abi : Message → Bytes) (my_address counter_party_address : ℕ)
      (latest_message : Message) (m : SignedByRecord) (messages : List SignedByRecord)
      (v : Variables)
      → SignedByDb.get_all_signed_by ext.static_hash ext.signed_by_abi db my_address s
        ≡ some (m ∷ messages)
      → decide ext db range_db s r
          (suc (suc (suc fuel)))
          (create_state_channel_property to_abi my_address counter_party_address latest_message)
          v
        ≡ panics
  unfolding Executor.decide property_of argument and_decide
  state_channel_signed_panics fuel to_abi my_address counter_party_address latest_message m messages
        v h =
      rw
        (
          left_panics fuel my_address ((latest_message.nonce + 1) % 2 ^ 64) m messages v h,
          and_decide,
        )
        refl

  left_unsigned :
      (fuel my_address upper_nonce : ℕ) (v : Variables)
      → SignedByDb.get_all_signed_by ext.static_hash ext.signed_by_abi db my_address s ≡ some []
      → (d : Decision) × (decide ext db range_db s r
            (suc fuel)
            (left_property my_address upper_nonce)
            v
          ≡ returns (ok d) v)
        × (d.outcome ≡ true)
  unfolding Executor.decide property_of argument for_all_such_that_decide for_all_loop
      for_all_get_decision get_variable
  left_unsigned fuel my_address upper_nonce v h = (
    decision true (element_of (left_property my_address upper_nonce) none ∷ []),
    rw (quantified_signed my_address [] v h, for_all_such_that_decide) refl,
    refl,
  )

  -- Where no message is stored that the claimant has signed, and the property that the counter party has signed the
  -- latest message is decided, the exit claim is decided with the same outcome.
  pub state_channel_unsigned :
      (fuel : ℕ) (to_abi : Message → Bytes) (my_address counter_party_address : ℕ)
      (latest_message : Message) (v v' : Variables) (d : Decision)
      → SignedByDb.get_all_signed_by ext.static_hash ext.signed_by_abi db my_address s ≡ some []
      → decide ext db range_db s r
          (suc fuel)
          (right_property counter_party_address (to_abi latest_message))
          v
        ≡ returns (ok d) v'
      → (d' : Decision) × (decide ext db range_db s r
            (suc (suc fuel))
            (create_state_channel_property to_abi my_address counter_party_address latest_message)
            v
          ≡ returns (ok d') v')
        × (d'.outcome ≡ d.outcome)
  state_channel_unsigned fuel to_abi my_address counter_party_address latest_message v v' d h k =
      let (l, e, t) = left_unsigned fuel my_address ((latest_message.nonce + 1) % 2 ^ 64) v h in
      let (d', e', o) =
        and_decider_lem ext.static_hash (witnessed ext db range_db s r) (stored ext db range_db s r)
          (suc fuel) (left_property my_address ((latest_message.nonce + 1) % 2 ^ 64))
          (right_property counter_party_address (to_abi latest_message)) v v v' l d e k in
      (d', e', ground (arith, o, t))

  pub state_channel_unsigned_panics :
      (fuel : ℕ) (to_abi : Message → Bytes) (my_address counter_party_address : ℕ)
      (latest_message : Message) (v : Variables)
      → SignedByDb.get_all_signed_by ext.static_hash ext.signed_by_abi db my_address s ≡ some []
      → decide ext db range_db s r
          (suc fuel)
          (right_property counter_party_address (to_abi latest_message))
          v
        ≡ panics
      → decide ext db range_db s r
          (suc (suc fuel))
          (create_state_channel_property to_abi my_address counter_party_address latest_message)
          v
        ≡ panics
  unfolding Executor.decide property_of argument and_decide
  state_channel_unsigned_panics fuel to_abi my_address counter_party_address latest_message v h k =
      let (l, e, t) = left_unsigned fuel my_address ((latest_message.nonce + 1) % 2 ^ 64) v h in
      rw (e, k, and_decide) refl
