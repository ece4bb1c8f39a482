-- ===== src/Ovm/Statements.antt =====
-- ovm/src/statements: the properties that the clients claim and dispute.
use plasma_rust_framework.Prelude.{ℕ, ◌+◌, ◌%◌, ◌^◌, Option, none, some, [], ◌∷◌}
use plasma_rust_framework.Prelude.Bytes.{Bytes}
use plasma_rust_framework.PlasmaCore.Range.{Range}
use plasma_rust_framework.Ovm.Types.{
  PropertyInput, placeholder, constant_address, constant_bytes, constant_integer, constant_range,
  constant_property, PropertyInputs, none_left, and_input, Property, StateUpdate, state_update,
  Message, to_address, to_state_update, Variables, argument,
}
use plasma_rust_framework.Ovm.Manager.{
  and_decider, or_decider, not_decider, for_all_such_that_decider, has_lower_nonce_decider,
  signed_by_decider, included_at_block_decider, is_deprecated, there_exists_such_that, q_less_than,
  q_block, q_signed_by, q_tx, q_property, q_state_update,
}

-- `vec![…]` of up to four inputs.
abbrev pub one : PropertyInput → PropertyInputs
one a = and_input a none_left

abbrev pub two : PropertyInput → PropertyInput → PropertyInputs
two a b = and_input a (one b)

abbrev pub three : PropertyInput → PropertyInput → PropertyInput → PropertyInputs
three a b c = and_input a (two b c)

abbrev pub four : PropertyInput → PropertyInput → PropertyInput → PropertyInput → PropertyInputs
four a b c d = and_input a (three b c d)

-- "block", "state_update", "message", "tx" and "property"
abbrev pub block_name : Bytes
block_name = 98 ∷ 108 ∷ 111 ∷ 99 ∷ 107 ∷ []

abbrev pub state_update_name : Bytes
state_update_name = 115 ∷ 116 ∷ 97 ∷ 116 ∷ 101 ∷ 95 ∷ 117 ∷ 112 ∷ 100 ∷ 97 ∷ 116 ∷ 101 ∷ []

abbrev pub message_name : Bytes
message_name = 109 ∷ 101 ∷ 115 ∷ 115 ∷ 97 ∷ 103 ∷ 101 ∷ []

abbrev pub tx_name : Bytes
tx_name = 116 ∷ 120 ∷ []

abbrev pub property_name : Bytes
property_name = 112 ∷ 114 ∷ 111 ∷ 112 ∷ 101 ∷ 114 ∷ 116 ∷ 121 ∷ []

-- plasma.rs
abbrev pub create_plasma_property : ℕ → Range → Property
create_plasma_property specified_block_number range =
    for_all_such_that_decider (q_less_than (one (constant_integer specified_block_number)))
      block_name
      (for_all_such_that_decider (q_block (two (placeholder block_name) (constant_range range)))
        state_update_name (is_deprecated (one (placeholder state_update_name))))

-- state_channel.rs: `left_property`, `right_property` and their conjunction. The sum of the nonce wraps.
abbrev pub left_property : ℕ → ℕ → Property
left_property my_address upper_nonce =
    for_all_such_that_decider (q_signed_by (one (constant_address my_address))) message_name
      (has_lower_nonce_decider (two (placeholder message_name) (constant_integer upper_nonce)))

abbrev pub right_property : ℕ → Bytes → Property
right_property counter_party_address message_bytes =
    signed_by_decider (two (constant_address counter_party_address) (constant_bytes message_bytes))

abbrev pub create_state_channel_property : (Message → Bytes) → ℕ → ℕ → Message → Property
create_state_channel_property to_abi my_address counter_party_address latest_message =
    and_decider (left_property my_address ((latest_message.nonce + 1) % 2 ^ 64))
      (right_property counter_party_address (to_abi latest_message))

-- plasma/atomic_state.rs
abbrev pub included : ℕ → Property
included block_number =
    included_at_block_decider (two (constant_integer block_number) (placeholder state_update_name))

abbrev pub create_atomic_state : ℕ → ℕ → Range → PropertyInputs → Property → Property → Property
create_atomic_state block_number deposit_contract_address coin_range corresponding_inputs property1
      property2 =
    there_exists_such_that (
      three (constant_property (q_property corresponding_inputs)) (constant_bytes property_name) (
        constant_property (
          there_exists_such_that (
            three
              (constant_property (
                q_state_update (
                  four (constant_integer block_number) (constant_address deposit_contract_address)
                    (constant_range coin_range) (placeholder property_name))))
              (constant_bytes state_update_name)
              (constant_property (
                or_decider (and_decider (included block_number) property1)
                  (and_decider (not_decider (included block_number)) property2)))))))

-- plasma/channel.rs
abbrev pub signed_tx : ℕ → Property
signed_tx address = signed_by_decider (two (constant_address address) (placeholder tx_name))

abbrev pub create_channel_state_object : ℕ → ℕ → StateUpdate → Property
create_channel_state_object my_address counter_party_address
      (state_update block_number deposit_contract_address range p) =
    there_exists_such_that (
      three (constant_property (q_tx (one (placeholder state_update_name))))
        (constant_bytes tx_name)
        (constant_property (
          create_atomic_state block_number deposit_contract_address range
            (three (constant_address counter_party_address) (constant_address my_address)
              (placeholder state_update_name))
            (and_decider (signed_tx my_address) (signed_tx counter_party_address))
            (signed_tx my_address))))

-- `none` is a panic.
unfoldable pub create_channel_state_object_for_variables :
    PropertyInputs → Variables → Option Property
create_channel_state_object_for_variables inputs variables =
    elim (argument to_address inputs 0 variables) [
      | none ↦ none
      | some my_address ↦ elim (argument to_address inputs 1 variables) [
        | none ↦ none
        | some counter_party_address ↦ elim (argument to_state_update inputs 2 variables) [
          | none ↦ none
          | some update ↦ some (create_channel_state_object my_address counter_party_address update)
        ]
      ]
    ]
