-- ===== src/Examples/External.antt =====
-- Concrete encodings and hash functions, in the place of the crates that the program stands on.
use plasma_rust_framework.Prelude.{
  ℕ, ◌≡◌, refl, ap, ap₂, ◌∙◌, Bool, true, false, Option, none, some, List, [], ◌∷◌, ◌++◌, ◌==◌,
  length, take, drop, take-append, drop-append_eq,
}
use plasma_rust_framework.Prelude.Bytes.{Bytes}
use plasma_rust_framework.PlasmaCore.Range.{Range}
use plasma_rust_framework.Abi.{Abi}
use plasma_rust_framework.MerkleTree.DoubleLayerTree
use plasma_rust_framework.MerkleTree.DoubleLayerTree.{InclusionProof}
use plasma_rust_framework.Ovm.Types.{
  Property, StateUpdate, state_update, get_block_number, get_deposit_contract_address, get_range,
}
use plasma_rust_framework.Ovm.HashPreimageDb
use plasma_rust_framework.Ovm.HashPreimageDb.{PreimageRecord}
use plasma_rust_framework.Ovm.SignedByDb
use plasma_rust_framework.Ovm.SignedByDb.{SignedByRecord}
use plasma_rust_framework.Ovm.RangeAtBlockDb
use plasma_rust_framework.Ovm.RangeAtBlockDb.{RangeAtBlockRecord}
use plasma_rust_framework.Ovm.External.{External}
use plasma_rust_framework.Ovm.Statements.{left_property}
use plasma_rust_framework.Clients.Types.{Codecs, PlasmaBlock}
use plasma_rust_framework.Clients.PlasmaBlock
use plasma_rust_framework.Examples.Ranges.{plain}
use plasma_rust_framework.Examples.Transactions.{listed}
use plasma_rust_framework.Examples.Trees.{fill}

-- Two byte strings behind the length of the first.
pub split_pair :
    {A : Type 0} (f : Bytes → Bytes → A) (x y : Bytes)
    → f (take (length x) (x ++ y)) (drop (length x) (x ++ y)) ≡ f x y
split_pair f x y = ap₂ f (take-append (length x) x y refl) (drop-append_eq (length x) x y refl)

abbrev preimage_decode : Bytes → Option PreimageRecord
preimage_decode [] = none
preimage_decode (n ∷ bytes) = some (record { hash = take n bytes; preimage = drop n bytes })

abbrev preimage_abi : Abi PreimageRecord HashPreimageDb.IsValid
preimage_abi = record {
  encode = λ r. length r.hash ∷ (r.hash ++ r.preimage);
  decode = preimage_decode;
  decode-encode =
      λ r h. split_pair (λ x y. some (record { hash = x; preimage = y })) r.hash r.preimage;
}

abbrev signed_by_decode : Bytes → Option SignedByRecord
signed_by_decode (k ∷ n ∷ bytes) =
    some (record { public_key = k; message = take n bytes; signature = drop n bytes })
signed_by_decode _ = none

abbrev signed_by_abi : Abi SignedByRecord SignedByDb.IsValid
signed_by_abi = record {
  encode = λ r. r.public_key ∷ length r.message ∷ (r.message ++ r.signature);
  decode = signed_by_decode;
  decode-encode = λ r h.
      split_pair (λ x y. some (record { public_key = r.public_key; message = x; signature = y }))
        r.message r.signature;
}

abbrev inclusion_proof_decode : Bytes → Option InclusionProof
inclusion_proof_decode (i ∷ j ∷ n ∷ bytes) = some (record {
  address_idx = i;
  interval_idx = j;
  address_tree_inclusion_proof = take n bytes;
  interval_tree_inclusion_proof = drop n bytes;
})
inclusion_proof_decode _ = none

abbrev pub inclusion_proof_abi : Abi InclusionProof DoubleLayerTree.IsValid
inclusion_proof_abi = record {
  encode = λ p.
      p.address_idx
      ∷ p.interval_idx
      ∷ length p.address_tree_inclusion_proof
      ∷ (p.address_tree_inclusion_proof ++ p.interval_tree_inclusion_proof);
  decode = inclusion_proof_decode;
  decode-encode = λ p h.
      split_pair
        (λ x y. some (record {
          address_idx = p.address_idx;
          interval_idx = p.interval_idx;
          address_tree_inclusion_proof = x;
          interval_tree_inclusion_proof = y;
        }))
        p.address_tree_inclusion_proof p.interval_tree_inclusion_proof;
}

abbrev to_bit : Bool → ℕ
to_bit true = 1
to_bit false = 0

abbrev of_bit : ℕ → Bool
of_bit n = n == 1

of_bit-to_bit : (b : Bool) → of_bit (to_bit b) ≡ b
of_bit-to_bit true = refl
of_bit-to_bit false = refl

abbrev with_parts : ℕ → Range → Bool → ℕ → Bytes → Bytes → Bytes → Bytes → RangeAtBlockRecord
with_parts address range b n root proof block_root data' = record {
  root = root;
  inclusion_proof = proof;
  plasma_data_block = record {
    deposit_contract_address = address;
    updated_range = range;
    root = block_root;
    is_included = b;
    block_number = n;
    data' = data';
  };
}

abbrev after_head : ℕ → ℕ → ℕ → Bool → ℕ → ℕ → ℕ → Bytes → Bytes → RangeAtBlockRecord
after_head address start end b n j k root rest =
    with_parts address (record { start = start; end = end }) b n root (take j rest)
      (take k (drop j rest)) (drop k (drop j rest))

abbrev range_at_block_decode : Bytes → Option RangeAtBlockRecord
range_at_block_decode (address ∷ start ∷ end ∷ b ∷ n ∷ i ∷ j ∷ k ∷ bytes) =
    some (after_head address start end (of_bit b) n j k (take i bytes) (drop i bytes))
range_at_block_decode _ = none

abbrev range_at_block_encode : RangeAtBlockRecord → Bytes
range_at_block_encode r =
    r.plasma_data_block.deposit_contract_address
    ∷ r.plasma_data_block.updated_range.start
    ∷ r.plasma_data_block.updated_range.end
    ∷ to_bit r.plasma_data_block.is_included
    ∷ r.plasma_data_block.block_number
    ∷ length r.root
    ∷ length r.inclusion_proof
    ∷ length r.plasma_data_block.root
    ∷ (r.root ++ (r.inclusion_proof ++ (r.plasma_data_block.root ++ r.plasma_data_block.data')))

pub range_at_block_decode-encode :
    (r : RangeAtBlockRecord) → range_at_block_decode (range_at_block_encode r) ≡ some r
range_at_block_decode-encode r =
    let p = r.plasma_data_block in
    let built : Bool → Bytes → Bytes → Bytes → Bytes → Option RangeAtBlockRecord = λ b x y z w.
      some (with_parts p.deposit_contract_address p.updated_range b p.block_number x y z w) in
    let tail = p.root ++ p.data' in
    split_pair
      (λ x rest. some (
        after_head p.deposit_contract_address p.updated_range.start p.updated_range.end
          (of_bit (to_bit p.is_included)) p.block_number (length r.inclusion_proof) (length p.root)
          x rest))
      r.root (r.inclusion_proof ++ tail)
    ∙ split_pair
        (λ y rest.
          built (of_bit (to_bit p.is_included)) r.root y (take (length p.root) rest)
            (drop (length p.root) rest))
        r.inclusion_proof tail
    ∙ split_pair (λ z w. built (of_bit (to_bit p.is_included)) r.root r.inclusion_proof z w) p.root
        p.data'
    ∙ ap (λ b. built b r.root r.inclusion_proof p.root p.data') (of_bit-to_bit p.is_included)

abbrev range_at_block_abi : Abi RangeAtBlockRecord RangeAtBlockDb.IsValid
range_at_block_abi = record {
  encode = range_at_block_encode;
  decode = range_at_block_decode;
  decode-encode = λ r h. range_at_block_decode-encode r;
}

-- The one state object of the examples.
abbrev pub state_object : Property
state_object = left_property 7 1

abbrev state_update_decode : Bytes → Option StateUpdate
state_update_decode (n ∷ address ∷ start ∷ end ∷ []) =
    some (state_update n address (record { start = start; end = end }) state_object)
state_update_decode _ = none

-- The signer is the first byte of the signature.
abbrev pub sample : External
sample = record {
  static_hash = λ bytes. bytes;
  hash_leaf = fill 32;
  recover = λ signature hash. some signature.v;
  rlp = plain;
  preimage_abi = preimage_abi;
  signed_by_abi = signed_by_abi;
  range_at_block_abi = range_at_block_abi;
  inclusion_proof_abi = inclusion_proof_abi;
  transaction_abi = listed;
  to_body_abi = λ t. t.parameters;
  state_update_to_abi = λ u.
      get_block_number u
      ∷ get_deposit_contract_address u
      ∷ (get_range u).start
      ∷ (get_range u).end
      ∷ [];
  state_update_from_abi = state_update_decode;
}

-- Blocks of such updates, without transactions.
abbrev updates_bytes : List StateUpdate → Bytes
updates_bytes [] = []
updates_bytes (u ∷ us) =
    get_block_number u
    ∷ get_deposit_contract_address u
    ∷ (get_range u).start
    ∷ (get_range u).end
    ∷ updates_bytes us

abbrev updates_decode : Bytes → List StateUpdate
updates_decode (n ∷ address ∷ start ∷ end ∷ rest) =
    state_update n address (record { start = start; end = end }) state_object ∷ updates_decode rest
updates_decode _ = []

abbrev block_decode : Bytes → Option PlasmaBlock
block_decode [] = none
block_decode (n ∷ rest) = some (PlasmaBlock.new n (updates_decode rest) [])

abbrev pub plain_codecs : Codecs
plain_codecs = record {
  event_to_abi = λ event. [];
  event_from_abi = λ bytes. none;
  block_to_abi = λ block. block.block_number ∷ updates_bytes block.state_updates;
  block_from_abi = block_decode;
  property_from_abi = λ bytes. some state_object;
}

-- A signature of 65 bytes, and the update of some coins of a contract.
abbrev pub signature_of : ℕ → Bytes
signature_of signer = signer ∷ (fill 32 [] ++ fill 32 [])

abbrev pub update_of : ℕ → ℕ → ℕ → ℕ → StateUpdate
update_of n address start end =
    state_update n address (record { start = start; end = end }) state_object
