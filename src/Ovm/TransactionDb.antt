-- ===== src/Ovm/TransactionDb.antt =====
-- ovm/src/db/transaction_db.rs: the transactions of each block, in a range database under a bucket for the
-- block. The ABI encoding of a transaction is a parameter, as the codec of the range database is.
use plasma_rust_framework.Prelude.{
  ℕ, zero, suc, ◌+◌, ◌-◌, ◌/◌, ◌%◌, ◌≡◌, refl, Option, none, some, List, [], ◌∷◌, ◌++◌, arith, ltb,
  if◌then◌else◌,
}
use plasma_rust_framework.Prelude.Bytes.{Bytes, cmp, starts_with}
use plasma_rust_framework.Prelude.Words.{be_bytes}
use plasma_rust_framework.Prelude.Result.{ok, err}
use plasma_rust_framework.PlasmaCore.Range as Coins
use plasma_rust_framework.PlasmaCore.Transaction.{Transaction, Metadata}
use plasma_rust_framework.Db.Key.{from_u64, remove_prefix}
use plasma_rust_framework.Db.Kvs.{KeyValueStore}
use plasma_rust_framework.Db.BTreeMap
use plasma_rust_framework.Db.BTreeMap.{BTreeMap}
use plasma_rust_framework.Db.Bucket
use plasma_rust_framework.Db.Memory.{memory, open_db, scan, run, apply}
use plasma_rust_framework.Db.Range
use plasma_rust_framework.Db.Range.{RlpCodec, intersect}
use plasma_rust_framework.Db.RangeDb
use plasma_rust_framework.Ovm.Filter.{TransactionFilter, query}

-- `to_abi` and `from_abi` at `Transaction`; the error of the latter is `none`.
pub record TransactionAbi : Type 0 where
  pub encode : Transaction → Bytes
  pub decode : Bytes → Option Transaction
  pub decode-encode : (t : Transaction) → decode (encode t) ≡ some t

-- `format!("{}", n)`, for numbers below 10 ^ 20, which are all of `u64`.
unfoldable pub digits : ℕ → ℕ → Bytes
digits zero n = []
digits (suc fuel) n =
    let rest = digits fuel (n / 10) in (if ltb n 10 then [] else rest) ++ (48 + n % 10) ∷ []

-- b"transaction_db"
abbrev pub transaction_db : Bytes
transaction_db = 116 ∷ 114 ∷ 97 ∷ 110 ∷ 115 ∷ 97 ∷ 99 ∷ 116 ∷ 105 ∷ 111 ∷ 110 ∷ 95 ∷ 100 ∷ 98 ∷ []

-- `format!("block_{}", block_number)`
unfoldable pub block_name : ℕ → Bytes
unfolding digits
block_name block_number = (98 ∷ 108 ∷ 111 ∷ 99 ∷ 107 ∷ 95 ∷ []) ++ digits 20 block_number

-- `map(from_abi).collect()`: the first error is the result.
unfoldable pub transactions_of : TransactionAbi → List Range.Range → Option (List Transaction)
transactions_of abi [] = some []
transactions_of abi (b ∷ bs) = elim (abi.decode b.value) [
  | none ↦ none
  | some t ↦ elim (transactions_of abi bs) [ none ↦ none | some ts ↦ some (t ∷ ts) ]
]

module _ {S : Type 0} (abi : TransactionAbi) (rlp : RlpCodec) (db : KeyValueStore S) where
  -- `self.db.bucket("transaction_db").bucket("block_…")`
  abbrev pub block_bucket : ℕ → KeyValueStore S
  block_bucket block_number =
      Bucket.as_store (Bucket.bucket (Bucket.new transaction_db db) (block_name block_number))

  -- `none` is a panic, and `some none` the ABI error.
  unfoldable pub get_transactions : ℕ → Coins.Range → S → Option (Option (List Transaction))
  unfolding transactions_of
  get_transactions block_number range s =
      elim (RangeDb.get rlp (block_bucket block_number) range.start range.end s) [
        | none ↦ none
        | some (err e) ↦ none
        | some (ok bs) ↦ some (transactions_of abi bs)
      ]

  -- The result of `put` is dropped.
  unfoldable pub put_transaction : ℕ → Transaction → S → Option S
  put_transaction block_number transaction s =
      elim (RangeDb.put rlp (block_bucket block_number) transaction.range.start
        transaction.range.end (abi.encode transaction) s) [
          | none ↦ none
          | some (done, s') ↦ some s'
        ]

  -- The loop of `query_transaction` over `n` blocks from `i` on.
  unfoldable pub query_blocks : TransactionFilter → ℕ → ℕ → S → Option (Option (List Transaction))
  unfolding get_transactions
  query_blocks f zero i s = some (some [])
  query_blocks f (suc n) i s =
      let later = query_blocks f n (i + 1) s in
      elim (get_transactions i f.range s) [
        | none ↦ none
        | some none ↦ some none
        | some (some txs) ↦ elim later [
          | none ↦ none
          | some none ↦ some none
          | some (some result) ↦ some (some (query f txs ++ result))
        ]
      ]

  unfoldable pub query_transaction : TransactionFilter → S → Option (Option (List Transaction))
  unfolding query_blocks
  query_transaction f s = query_blocks f (f.to_block + 1 - f.from_block) f.from_block s

abbrev pub of_ten_coins : ℕ → Bytes → Bytes → Metadata → Transaction
of_ten_coins address parameters signature metadata = record {
  deposit_contract_address = address;
  range = Coins.new 0 10;
  parameters = parameters;
  signature = signature;
  metadata = metadata;
}

-- In the memory store and for any encodings, a transaction over the coins 0 to 10 that is put in block 10 of
-- an empty store is what get_transactions finds in block 1 for the coins 0 to 10.
pub get_transactions_other_block :
    (abi : TransactionAbi) (rlp : RlpCodec) (address : ℕ) (parameters signature : Bytes)
    (metadata : Metadata)
    → (s : BTreeMap) × (put_transaction abi rlp memory 10
          (of_ten_coins address parameters signature metadata)
          open_db
        ≡ some s)
      × (get_transactions abi rlp memory 1 (Coins.new 0 10) s
          ≡ some (some (of_ten_coins address parameters signature metadata ∷ [])))
unfolding put_transaction get_transactions RangeDb.put RangeDb.del_batch RangeDb.get Bucket.iter_all
    scan BTreeMap.insert run apply from_u64 be_bytes block_name digits RangeDb.put_batch
    RangeDb.output_ranges RangeDb.left_rest RangeDb.right_rest RangeDb.decode_all RangeDb.hits cmp
    starts_with remove_prefix intersect transactions_of
get_transactions_other_block abi rlp address parameters signature metadata =
    let t = of_ten_coins address parameters signature metadata in
    let r = Range.new 0 10 (abi.encode t) in
    let key = transaction_db ++ (block_name 10 ++ from_u64 10) in
    let small : Range.IsU64 r = (omega arith, omega arith) in
    (
      (key, rlp.encode r) ∷ [],
      refl,
      rw (rlp.decode-encode r small, get_transactions)
          (rw (rlp.decode-encode r small, RangeDb.decode_all)
            (rw (abi.decode-encode t, transactions_of) refl)),
    )
