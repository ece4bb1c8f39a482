-- ===== src/Clients/PlasmaClient/Controller.antt =====
-- clients/src/plasma/command.rs and the message handler of clients/src/plasma/plasma_client.rs.
use plasma_rust_framework.Prelude.{ℕ, Option, List, ◌==◌, if◌then◌else◌}
use plasma_rust_framework.Prelude.Bytes.{Bytes}
use plasma_rust_framework.Db.Kvs.{KeyValueStore}
use plasma_rust_framework.MerkleTree.IntervalTree.{MerkleIntervalNode}
use plasma_rust_framework.Ovm.External.{External}
use plasma_rust_framework.Clients.Types.{
  NewTransactionEvent, PlasmaBlock, Codecs, Call, returns, or_panic, of_option,
}
use plasma_rust_framework.Clients.PlasmaClient.{PlasmaClient}
use plasma_rust_framework.Clients.PlasmaClient.NewBlock.{handle_new_block, handle_new_transaction}

pub record Command : Type 0 where
  pub command_type : ℕ
  pub body : Bytes

-- `to_abi` encodes a `FetchBlockRequest`, which is its block number.
abbrev pub create_fetch_block_request : (ℕ → Bytes) → ℕ → Command
create_fetch_block_request to_abi block_number = record {
  command_type = 1;
  body = to_abi block_number;
}

abbrev pub create_plasma_block : Codecs → PlasmaBlock → Command
create_plasma_block codecs plasma_block = record {
  command_type = 3;
  body = codecs.block_to_abi plasma_block;
}

abbrev pub create_new_tx_event : Codecs → NewTransactionEvent → Command
create_new_tx_event codecs new_tx_event = record {
  command_type = 4;
  body = codecs.event_to_abi new_tx_event;
}

module _ {S : Type 0} (ext : External) (codecs : Codecs) (kvs : KeyValueStore S) where
  -- The branches on the type of the command; `unwrap` panics on a body that does not decode.
  unfoldable pub handle_command :
      (List (ℕ × List MerkleIntervalNode) → List (ℕ × List MerkleIntervalNode))
      → ℕ
      → Command
      → PlasmaClient S
      → Call (PlasmaClient S)
  handle_command order fuel command self =
      if command.command_type == 3
      then or_panic (codecs.block_from_abi command.body)
          (λ block. handle_new_block ext kvs order fuel block self)
      else if command.command_type == 4
      then or_panic (codecs.event_from_abi command.body)
          (λ event. of_option (handle_new_transaction ext kvs event self))
      else returns self

  -- `command_from_abi` decodes a message.
  unfoldable pub handle_message :
      (Bytes → Option Command)
      → (List (ℕ × List MerkleIntervalNode) → List (ℕ × List MerkleIntervalNode))
      → ℕ
      → Bytes
      → PlasmaClient S
      → Call (PlasmaClient S)
  unfolding handle_command
  handle_message command_from_abi order fuel message self =
      or_panic (command_from_abi message) (λ command. handle_command order fuel command self)
