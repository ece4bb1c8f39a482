-- ===== src/Examples/Messages.antt =====
-- Concrete messages of a channel (ovm/src/db/message_db.rs), with an encoding in the place of the ABI.
use plasma_rust_framework.Prelude.{
  ℕ, ◌^◌, ◌<◌, ◌≡◌, refl, ap₂, Option, none, some, [], ◌∷◌, ◌++◌, arith, length, take, drop,
  take-append, drop-append_eq,
}
use plasma_rust_framework.Prelude.Bytes.{Bytes}
use plasma_rust_framework.Prelude.Result.{ok}
use plasma_rust_framework.Db.BTreeMap.{BTreeMap, IsSorted}
use plasma_rust_framework.Db.Memory.{memory, open_db}
use plasma_rust_framework.Db.Memory.Laws.{memory-IsStore}
use plasma_rust_framework.Ovm.Types.{Message}
use plasma_rust_framework.Ovm.MessageDb.{
  MessageAbi, message, store_message, get_message_by_channel_id_and_nonce, get_most_recent_message,
  store_message_lem, get_most_recent_message_256,
}

abbrev encode : Message → Bytes
encode m = length m.channel_id ∷ (m.channel_id ++ m.nonce ∷ m.message)

abbrev rest_decoded : Bytes → Bytes → Option Message
rest_decoded channel_id [] = none
rest_decoded channel_id (nonce ∷ text) = some (message channel_id nonce text)

abbrev decode : Bytes → Option Message
decode [] = none
decode (n ∷ bytes) = rest_decoded (take n bytes) (drop n bytes)

pub decode-encode : (m : Message) → m.nonce < 2 ^ 64 → decode (encode m) ≡ some m
decode-encode m h =
    ap₂ rest_decoded (take-append (length m.channel_id) m.channel_id (m.nonce ∷ m.message) refl)
      (drop-append_eq (length m.channel_id) m.channel_id (m.nonce ∷ m.message) refl)

abbrev pub listed : MessageAbi
listed = record { encode = encode; decode = decode; decode-encode = decode-encode }

store_message_lem_example :
    (s' : BTreeMap) × (store_message listed memory (message (7 ∷ []) 300 (1 ∷ [])) open_db
      ≡ (ok tt, s'))
    × IsSorted s'
    × (get_message_by_channel_id_and_nonce listed memory (7 ∷ []) 300 s'
        ≡ some (some (message (7 ∷ []) 300 (1 ∷ []))))
    × ((c : Bytes) (n : ℕ)
        → n < 2 ^ 64
        → ¬ ((c ≡ 7 ∷ []) × (n ≡ 300))
        → get_message_by_channel_id_and_nonce listed memory c n s'
          ≡ get_message_by_channel_id_and_nonce listed memory c n open_db)
store_message_lem_example =
    store_message_lem listed memory IsSorted (λ s. s) memory-IsStore (message (7 ∷ []) 300 (1 ∷ []))
      open_db (omega arith) tt

get_most_recent_message_256_example :
    get_most_recent_message listed memory
      (7 ∷ [])
      (store_message listed memory
        (message (7 ∷ []) 256 (2 ∷ []))
        (store_message listed memory (message (7 ∷ []) 1 (1 ∷ [])) open_db).1).1
    ≡ some (some (message (7 ∷ []) 1 (1 ∷ [])))
get_most_recent_message_256_example = get_most_recent_message_256 listed (7 ∷ []) (1 ∷ []) (2 ∷ [])
