-- ===== src/Clients/StateChannel.antt =====
-- clients/src/state_channel.rs: one side of a state channel. `ethsign` signs for the secret key; the executors that
-- the handlers make open stores of their own, in the states `opened_db` and `opened_range_db`. `none` is a panic.
pub mod Claims
use plasma_rust_framework.Prelude.{ℕ, Option, none, some, List, [], if◌then◌else◌}
use plasma_rust_framework.Prelude.Bytes.{Bytes}
use plasma_rust_framework.Prelude.Result.{Result, ok, err}
use plasma_rust_framework.Db.Kvs.{KeyValueStore}
use plasma_rust_framework.Ovm.Types.{
  Message, Property, ErrorKind, Decision, ImplicationProofElement,
}
use plasma_rust_framework.Clients.Types.{Call, returns, or_panic, answered, asserted}
use plasma_rust_framework.Ovm.External.{External}
use plasma_rust_framework.Ovm.MessageDb
use plasma_rust_framework.Ovm.MessageDb.{MessageAbi}
use plasma_rust_framework.Ovm.SignedByDb
use plasma_rust_framework.Ovm.ChannelDb
use plasma_rust_framework.Ovm.ChannelDb.{Channel}
use plasma_rust_framework.Ovm.Witnessed.{recover}
use plasma_rust_framework.Ovm.Statements.{create_state_channel_property}
use plasma_rust_framework.Ovm.PropertyExecutor.{decide}
use plasma_rust_framework.Abi.{Abi}

-- The secret key is the function that signs with it.
pub record StateChannel (S : Type 0) : Type 0 where
  pub db : S
  pub sign : Bytes → Bytes
  pub my_address : ℕ

-- `Result::ok`
abbrev pub ok_of : Result Decision ErrorKind → Option Decision
ok_of (ok d) = some d
ok_of (err e) = none

module _ {S : Type 0} (ext : External) (message_abi : MessageAbi) (db : KeyValueStore S) where
  unfoldable pub sign_and_store_message : Message → StateChannel S → Option (Bytes × StateChannel S)
  sign_and_store_message channel_message self =
      let message = message_abi.encode channel_message in
      let signature = self.sign message in
      elim (asserted (MessageDb.store_message message_abi db channel_message self.db)) [
        | none ↦ none
        | some s ↦
            elim (asserted (
              SignedByDb.store_witness ext.static_hash ext.signed_by_abi db self.my_address message
                signature s)) [ none ↦ none | some s' ↦ some (signature, record self { db = s' }) ]
      ]

  unfoldable pub handle_message : Message → Bytes → StateChannel S → Option (Bytes × StateChannel S)
  unfolding sign_and_store_message
  handle_message channel_message signature self =
      let message = message_abi.encode channel_message in
      elim (recover ext signature message) [
        | none ↦ none
        | some counter_party ↦
            elim (asserted (
              SignedByDb.store_witness ext.static_hash ext.signed_by_abi db counter_party message
                signature self.db)) [
                  | none ↦ none
                  | some s ↦ sign_and_store_message channel_message (record self { db = s })
                ]
      ]

  unfoldable pub handle_opening_channel : Message → StateChannel S → Option (StateChannel S)
  handle_opening_channel channel_message self =
      elim (asserted (MessageDb.store_message message_abi db channel_message self.db)) [
        | none ↦ none
        | some s ↦ some (record self { db = s })
      ]

  unfoldable pub get_exit_claim : Bytes → ℕ → ℕ → StateChannel S → Option Property
  get_exit_claim channel_id my_address counter_party self =
      elim (MessageDb.get_most_recent_message message_abi db channel_id self.db) [
        | none ↦ none
        | some none ↦ none
        | some (some most_recent_message) ↦ some (
            create_state_channel_property message_abi.encode my_address counter_party
              most_recent_message)
      ]

  module _ (opened_db opened_range_db : S) where
    -- `unwrap` panics on an error; the channel is marked where the outcome is yes.
    unfoldable pub handle_exit :
        Abi Channel ChannelDb.IsValid
        → ℕ
        → Bytes
        → Property
        → StateChannel S
        → Call (List ImplicationProofElement × StateChannel S)
    handle_exit channel_abi fuel channel_id claim self =
        answered (decide ext db db opened_db opened_range_db fuel claim []) (λ decided variables.
          or_panic (ok_of decided) (λ decision.
            if decision.outcome
            then or_panic (asserted (ChannelDb.mark_exited channel_abi db channel_id self.db))
                (λ s. returns (decision.implication_proof, record self { db = s }))
            else returns (decision.implication_proof, self)))

    unfoldable pub check_claim : ℕ → Bytes → ℕ → ℕ → StateChannel S → Call (Option Decision)
    unfolding get_exit_claim
    check_claim fuel channel_id my_address counter_party self =
        or_panic (get_exit_claim channel_id my_address counter_party self) (λ claim.
          answered (decide ext db db opened_db opened_range_db fuel claim [])
            (λ decided variables. returns (ok_of decided)))
