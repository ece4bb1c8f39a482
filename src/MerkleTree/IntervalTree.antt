-- ===== src/MerkleTree/IntervalTree.antt =====
-- merkle-interval-tree/src/interval_tree.rs: the tree over the state updates of one contract, at
-- `u64`, the only index type that the program uses. `hash_leaf` (hash.rs) is the parameter.
pub mod Path
pub mod Perfect
pub mod Codec
pub mod Siblings
pub mod Climb
pub mod Before
pub mod Order
pub mod Outcome
pub mod Complete
pub mod Defect
pub mod Collision
pub mod Binding
pub mod Lookup
use plasma_rust_framework.Prelude.{
  ℕ, zero, suc, ◌+◌, ◌-◌, ◌*◌, ◌/◌, ◌%◌, ◌^◌, Ordering, Bool, true, false, Option, none, some, List,
  [], ◌∷◌, ◌++◌, ltb, leb, ◌==◌, if◌then◌else◌, length, take, drop,
}
use plasma_rust_framework.Prelude.Bytes.{Bytes, cmp}
use plasma_rust_framework.Prelude.Words.{le_bytes, of_le}
use plasma_rust_framework.Prelude.Result.{Result, ok, err}

pub data MerkleIntervalNode : Type 0 where
  leaf : ℕ → Bytes → MerkleIntervalNode
  node : ℕ → MerkleIntervalNode → MerkleIntervalNode → MerkleIntervalNode
  proof_node : ℕ → Bytes → MerkleIntervalNode

pub data Error : Type 0 where
  verify_error : Error

pub record ImplicitBounds : Type 0 where
  pub implicit_start : ℕ
  pub implicit_end : ℕ

-- `I::max_value()`
abbrev pub max_value : ℕ
max_value = 2 ^ 64 - 1

abbrev pub get_end : MerkleIntervalNode → ℕ
get_end (leaf end data') = end
get_end (node end left right) = end
get_end (proof_node end data') = end

abbrev pub compute_parent : MerkleIntervalNode → MerkleIntervalNode → MerkleIntervalNode
compute_parent left right = node (get_end right) left right

-- `None` is the panic for leaves and inner nodes.
unfoldable pub encode : MerkleIntervalNode → Option Bytes
encode (proof_node end data') = some (le_bytes 8 end ++ data')
encode _ = none

unfoldable pub get_data : MerkleIntervalNode → Option Bytes
get_data (leaf end data') = some data'
get_data (node end left right) = none
get_data (proof_node end data') = some data'

-- `usize::next_power_of_two`, for counts up to 2 ^ 63.
unfoldable pub next_power : ℕ → ℕ → ℕ → ℕ
next_power zero p n = p
next_power (suc fuel) p n = let next = next_power fuel (p * 2) n in if leb n p then p else next

unfoldable pub next_power_of_two : ℕ → ℕ
unfolding next_power
next_power_of_two n = next_power 64 1 n

-- `rotate_right(1)` of a 64-bit `usize`
unfoldable pub rotate_right : ℕ → ℕ
rotate_right idx = idx / 2 + (idx % 2) * 2 ^ 63

-- `idx & 0x01` is the remainder by 2.
unfoldable pub get_path : ℕ → ℕ → List Bool
unfolding rotate_right
get_path idx zero = []
get_path idx (suc depth) = (idx % 2 == 1) ∷ get_path (rotate_right idx) depth

unfoldable pub verify_and_get_parent :
    MerkleIntervalNode → MerkleIntervalNode → Result MerkleIntervalNode Error
verify_and_get_parent left right =
    if ltb (get_end right) (get_end left) then err verify_error else ok (compute_parent left right)

-- The end of the proof node at the first place of the path that goes right.
unfoldable pub first_left : List Bool → List MerkleIntervalNode → Option ℕ
first_left [] proof = none
first_left (p ∷ path) [] = none
first_left (p ∷ path) (n ∷ proof) = if p then some (get_end n) else first_left path proof

-- The loop of `compute_root`.
unfoldable pub climb :
    List Bool → List MerkleIntervalNode → MerkleIntervalNode → Result MerkleIntervalNode Error
unfolding verify_and_get_parent
climb [] proof computed = ok computed
climb (p ∷ path) [] computed = ok computed
climb (p ∷ path) (item ∷ proof) computed =
    elim (if p then verify_and_get_parent item computed else verify_and_get_parent computed item) [
      | ok parent ↦ climb path proof parent
      | err e ↦ err e
    ]

-- `slice`, which panics beyond the end; `decode_proof` stays within.
abbrev pub slice : Bytes → ℕ → ℕ → Bytes
slice bytes begin end = take (end - begin) (drop begin bytes)

unfoldable pub decode_nodes : ℕ → ℕ → Bytes → List MerkleIntervalNode
decode_nodes zero i bytes = []
decode_nodes (suc n) i bytes =
    let index = i * 40 in
    proof_node (of_le (slice bytes index (index + 8))) (slice bytes (index + 8) (index + 40))
    ∷ decode_nodes n (i + 1) bytes

unfoldable pub decode_proof : Bytes → List MerkleIntervalNode
unfolding decode_nodes
decode_proof inclusion_proof = decode_nodes (length inclusion_proof / 40) 0 inclusion_proof

unfoldable pub encode_proof : List MerkleIntervalNode → Option Bytes
unfolding encode
encode_proof [] = some []
encode_proof (n ∷ nodes) = elim (encode n) [
  | none ↦ none
  | some bytes ↦ elim (encode_proof nodes) [ none ↦ none | some rest ↦ some (bytes ++ rest) ]
]

pub record MerkleIntervalTree : Type 0 where
  pub tree : MerkleIntervalNode
  pub leaves : List MerkleIntervalNode

-- `iter().position(…)` on the data of the leaves; `none` is the panic on a missing one, or on a node
-- without data.
unfoldable pub position : Bytes → List MerkleIntervalNode → Option ℕ
unfolding get_data
position data' [] = none
position data' (s ∷ leaves) =
    let next = position data' leaves in
    elim (get_data s) [
      | none ↦ none
      | some d ↦ elim (cmp d data') [
        | Ordering.eq ↦ some 0
        | _ ↦ elim next [ none ↦ none | some i ↦ some (suc i) ]
      ]
    ]

unfoldable pub get_index : MerkleIntervalTree → Bytes → Option ℕ
unfolding position
get_index self data' = position data' self.leaves

module _ (hash_leaf : Bytes → Bytes) where
  abbrev pub compute_node : ℕ → Bytes → Bytes
  compute_node offset data' = hash_leaf (le_bytes 8 offset ++ data')

  unfoldable pub hash : MerkleIntervalNode → Bytes
  hash (leaf end data') = hash_leaf data'
  hash (node end left right) =
      hash_leaf
        (compute_node (get_end left) (hash left) ++ compute_node (get_end right) (hash right))
  hash (proof_node end data') = data'

  unfoldable pub create_proof_node : MerkleIntervalNode → MerkleIntervalNode
  create_proof_node n = proof_node (get_end n) (hash n)

  unfoldable pub create_empty : MerkleIntervalNode
  create_empty = leaf max_value (hash_leaf (0 ∷ []))

  -- One round of `generate_part`: the parents of the chunks of two.
  unfoldable pub parents : List MerkleIntervalNode → List MerkleIntervalNode
  unfolding create_empty
  parents [] = []
  parents (a ∷ []) = compute_parent a create_empty ∷ []
  parents (a ∷ b ∷ leaves) = compute_parent a b ∷ parents leaves

  -- `none` for the empty list, at which the index panics; the fuel bounds the rounds.
  unfoldable pub generate_rounds : ℕ → List MerkleIntervalNode → Option MerkleIntervalNode
  unfolding parents
  generate_rounds fuel [] = none
  generate_rounds fuel (a ∷ []) = some a
  generate_rounds zero (a ∷ b ∷ leaves) = none
  generate_rounds (suc fuel) (a ∷ b ∷ leaves) = generate_rounds fuel (parents (a ∷ b ∷ leaves))

  -- The number of leaves at least halves, rounded up, in each round.
  unfoldable pub generate_part : List MerkleIntervalNode → Option MerkleIntervalNode
  unfolding generate_rounds
  generate_part leaves = generate_rounds (length leaves) leaves

  unfoldable pub generate : List MerkleIntervalNode → Option MerkleIntervalTree
  unfolding generate_part
  generate leaves = elim (generate_part leaves) [
    | none ↦ none
    | some tree ↦ some (record { tree = tree; leaves = leaves })
  ]

  unfoldable pub get_root : MerkleIntervalTree → Bytes
  unfolding hash
  get_root self = hash self.tree

  unfoldable pub get_inclusion_proof_of_tree : MerkleIntervalNode → ℕ → ℕ → List MerkleIntervalNode
  unfolding next_power_of_two create_proof_node
  get_inclusion_proof_of_tree (leaf end data') idx count = []
  get_inclusion_proof_of_tree (node end left right) idx count =
      let left_count = next_power_of_two count / 2 in
      elim (ltb idx left_count) [
        | true ↦ get_inclusion_proof_of_tree left idx left_count ++ create_proof_node right ∷ []
        | false ↦
            get_inclusion_proof_of_tree right (idx - left_count) (count - left_count)
            ++ create_proof_node left ∷ []
      ]
  get_inclusion_proof_of_tree (proof_node end data') idx count = []

  unfoldable pub get_inclusion_proof : MerkleIntervalTree → ℕ → Option Bytes
  unfolding get_inclusion_proof_of_tree encode_proof
  get_inclusion_proof self idx =
      encode_proof (get_inclusion_proof_of_tree self.tree idx (length self.leaves))

  unfoldable pub compute_root :
      MerkleIntervalNode → ℕ → Bytes → Result (Bytes × ImplicitBounds) Error
  unfolding decode_proof get_path first_left climb hash
  compute_root lf idx inclusion_proof_bytes =
      let inclusion_proof = decode_proof inclusion_proof_bytes in
      let path = get_path idx (length inclusion_proof) in
      let first_left_end : ℕ = elim (first_left path inclusion_proof) [
        | none ↦ 0
        | some end ↦ end
      ] in
      let is_last_leaf = (2 ^ length inclusion_proof + (2 ^ 64 - 1)) % 2 ^ 64 == idx in
      elim (climb path inclusion_proof lf) [
        | err e ↦ err e
        | ok computed ↦ ok (
          hash computed,
          record {
            implicit_start = first_left_end;
            implicit_end = if is_last_leaf then max_value else get_end lf;
          },
        )
      ]

  unfoldable pub verify : MerkleIntervalNode → ℕ → Bytes → Bytes → Result ImplicitBounds Error
  unfolding compute_root
  verify lf idx inclusion_proof_bytes root = elim (compute_root lf idx inclusion_proof_bytes) [
    | err e ↦ err verify_error
    | ok (computed_root, implicit_bounds) ↦ elim (cmp computed_root root) [
      | Ordering.eq ↦ ok implicit_bounds
      | _ ↦ err verify_error
    ]
  ]
