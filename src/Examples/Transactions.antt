-- ===== src/Examples/Transactions.antt =====
-- Concrete transactions of blocks (ovm/src/db/transaction_db.rs), with an encoding in the place of the ABI.
use plasma_rust_framework.Prelude.{
  ◌≡◌, refl, ap₂, Option, none, some, [], ◌∷◌, ◌++◌, length, take, drop, take-append,
  drop-append_eq,
}
use plasma_rust_framework.Prelude.Bytes.{Bytes}
use plasma_rust_framework.PlasmaCore.Range as Coins
use plasma_rust_framework.PlasmaCore.Transaction.{Transaction, Metadata}
use plasma_rust_framework.Db.BTreeMap.{BTreeMap}
use plasma_rust_framework.Db.Memory.{memory, open_db}
use plasma_rust_framework.Ovm.TransactionDb.{
  TransactionAbi, of_ten_coins, put_transaction, get_transactions, get_transactions_other_block,
}
use plasma_rust_framework.Examples.Ranges.{plain}

abbrev encode : Transaction → Bytes
encode t =
    t.deposit_contract_address
    ∷ t.range.start
    ∷ t.range.end
    ∷ t.metadata.from
    ∷ t.metadata.to
    ∷ length t.parameters
    ∷ (t.parameters ++ t.signature)

abbrev decode : Bytes → Option Transaction
decode (address ∷ start ∷ end ∷ from ∷ to ∷ n ∷ bytes) = some (record {
  deposit_contract_address = address;
  range = Coins.new start end;
  parameters = take n bytes;
  signature = drop n bytes;
  metadata = record { from = from; to = to };
})
decode _ = none

pub decode-encode : (t : Transaction) → decode (encode t) ≡ some t
decode-encode t =
    ap₂
      (λ (p s : Bytes). some (record {
        deposit_contract_address = t.deposit_contract_address;
        range = t.range;
        parameters = p;
        signature = s;
        metadata = t.metadata;
      }))
      (take-append (length t.parameters) t.parameters t.signature refl)
      (drop-append_eq (length t.parameters) t.parameters t.signature refl)

abbrev pub listed : TransactionAbi
listed = record { encode = encode; decode = decode; decode-encode = decode-encode }

abbrev sides : Metadata
sides = record { from = 8; to = 9 }

get_transactions_other_block_example :
    (s : BTreeMap) × (put_transaction listed plain memory 10
        (of_ten_coins 1 (2 ∷ []) (3 ∷ []) sides)
        open_db
      ≡ some s)
    × (get_transactions listed plain memory 1 (Coins.new 0 10) s
        ≡ some (some (of_ten_coins 1 (2 ∷ []) (3 ∷ []) sides ∷ [])))
get_transactions_other_block_example =
    get_transactions_other_block listed plain 1 (2 ∷ []) (3 ∷ []) sides
