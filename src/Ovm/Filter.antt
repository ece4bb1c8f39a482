-- ===== src/Ovm/Filter.antt =====
-- ovm/src/db/transaction_filter.rs: the filter of a query for transactions, and its builder.
use plasma_rust_framework.Prelude.{
  ℕ, ◌≡◌, refl, ap, Bool, true, ◌||◌, Option, none, some, List, [], ◌∷◌, arith, ◌==◌, filter,
}
use plasma_rust_framework.PlasmaCore.Transaction.{Transaction}
use plasma_rust_framework.PlasmaCore.Range.{Range}

pub record TransactionFilter : Type 0 where
  pub from_block : ℕ
  pub to_block : ℕ
  pub from_address : Option ℕ
  pub to_address : Option ℕ
  pub range : Range

-- `self.from_address.is_none() || self.from_address.unwrap() == from_address`
abbrev pub admits : Option ℕ → ℕ → Bool
admits none address = true
admits (some wanted) address = wanted == address

unfoldable pub passes : TransactionFilter → Transaction → Bool
passes self transaction =
    admits self.from_address transaction.metadata.from
    || admits self.to_address transaction.metadata.to

unfoldable pub query : TransactionFilter → List Transaction → List Transaction
unfolding passes
query self transactions = filter (passes self) transactions

abbrev filter_of : ℕ → ℕ → Option ℕ → Option ℕ → Range → TransactionFilter
filter_of from_block to_block from_address to_address range = record {
  from_block = from_block;
  to_block = to_block;
  from_address = from_address;
  to_address = to_address;
  range = range;
}

-- The builder: a part that is not set yet is `none`, where the code has the type `()`.
pub record TransactionFilterBuilder : Type 0 where
  pub from_block : Option ℕ
  pub to_block : Option ℕ
  pub from_address : Option ℕ
  pub to_address : Option ℕ
  pub range : Option Range

abbrev pub new : TransactionFilterBuilder
new = record {
  from_block = none;
  to_block = none;
  from_address = none;
  to_address = none;
  range = none;
}

abbrev pub block_from : ℕ → TransactionFilterBuilder → TransactionFilterBuilder
block_from from_block self = record self { from_block = some from_block }

abbrev pub block_to : ℕ → TransactionFilterBuilder → TransactionFilterBuilder
block_to to_block self = record self { to_block = some to_block }

abbrev pub range : Range → TransactionFilterBuilder → TransactionFilterBuilder
range r self = record self { range = some r }

abbrev pub address_from : ℕ → TransactionFilterBuilder → TransactionFilterBuilder
address_from from_address self = record self { from_address = some from_address }

abbrev pub address_to : ℕ → TransactionFilterBuilder → TransactionFilterBuilder
address_to to_address self = record self { to_address = some to_address }

-- `build` is there only once the blocks and the range are set, which is `some` here.
abbrev pub build : TransactionFilterBuilder → Option TransactionFilter
build self = elim self.from_block [
  | none ↦ none
  | some from_block ↦ elim self.to_block [
    | none ↦ none
    | some to_block ↦ elim self.range [
      | none ↦ none
      | some r ↦ some (record {
        from_block = from_block;
        to_block = to_block;
        from_address = self.from_address;
        to_address = self.to_address;
        range = r;
      })
    ]
  ]
]

query_all :
    (self : TransactionFilter) (txs : List Transaction)
    → ((t : Transaction) → passes self t ≡ true)
    → filter (passes self) txs ≡ txs
query_all self [] h = refl
query_all self (t ∷ txs) h = rw (h t) (ap (λ (l : List Transaction). t ∷ l) (query_all self txs h))

-- A filter that is built with an address for one side only, whichever it is, lets every
-- transaction pass.
pub query_one_side :
    (from_block to_block address : ℕ) (r : Range) (txs : List Transaction)
    → (f g : TransactionFilter) × (build
          (range r (address_from address (block_to to_block (block_from from_block new))))
        ≡ some f)
      × (build (range r (address_to address (block_to to_block (block_from from_block new))))
          ≡ some g)
      × (query f txs ≡ txs)
      × (query g txs ≡ txs)
unfolding query passes
query_one_side from_block to_block address r txs =
    let f = filter_of from_block to_block (some address) none r in
    let g = filter_of from_block to_block none (some address) r in
    (f, g, refl, refl, query_all f txs (λ t. ground arith), query_all g txs (λ t. ground arith))
