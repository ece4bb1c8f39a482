-- ===== src/Ovm/MessageDb.antt =====
-- ovm/src/db/message_db.rs: the messages of channels, each channel a bucket of a key-value store. The ABI
-- encoding of a message is a parameter.
use plasma_rust_framework.Prelude.{
  ℕ, ◌^◌, ◌<◌, Ordering, ◌≡◌, refl, sym, ap, ◌∙◌, ◌≢◌, true, Option, none, some, List, [], ◌∷◌,
  ◌++◌, arith, length, length-append,
}
use plasma_rust_framework.Prelude.Bytes.{Bytes, cmp, append_inj, cmp_refl, eq_of_cmp}
use plasma_rust_framework.Prelude.Words.{le_bytes, of_le, length-le_bytes, of_le-le_bytes, Fits-u64}
use plasma_rust_framework.Prelude.Result.{Result, ok, err}
use plasma_rust_framework.Db.Kvs.{KeyValue, KeyValueStore}
use plasma_rust_framework.Db.BTreeMap
use plasma_rust_framework.Db.BTreeMap.{BTreeMap, IsSorted}
use plasma_rust_framework.Db.BTreeMap.Laws.{get-insert, at, at_other}
use plasma_rust_framework.Db.Bucket.{new, as_store}
use plasma_rust_framework.Db.Store.{IsStore}
use plasma_rust_framework.Db.Memory.{memory, open_db, scan}
use plasma_rust_framework.Db.Memory.Laws.{memory-IsStore, memory-HasPrefixIteration}
use plasma_rust_framework.Db.Bucket.Laws.{strip, bucket-IsStore}
use plasma_rust_framework.Ovm.Types.{Message, ErrorKind, plasma_db_error}

-- `to_abi` and `from_abi` at `Message`.
pub record MessageAbi : Type 0 where
  pub encode : Message → Bytes
  pub decode : Bytes → Option Message
  pub decode-encode : (m : Message) → m.nonce < 2 ^ 64 → decode (encode m) ≡ some m

-- `filter_map` of `get_most_recent_message`
unfoldable pub decode_messages : MessageAbi → List KeyValue → List Message
decode_messages abi [] = []
decode_messages abi (kv ∷ kvs) = elim (abi.decode kv.value) [
  | none ↦ decode_messages abi kvs
  | some m ↦ m ∷ decode_messages abi kvs
]

abbrev pub pop : List Message → Option Message
pop [] = none
pop (m ∷ []) = some m
pop (m ∷ n ∷ ms) = pop (n ∷ ms)

module _ {S : Type 0} (abi : MessageAbi) (db : KeyValueStore S) where
  -- `none` is a panic: a failing store, or a value that is no message.
  unfoldable pub get_message_by_channel_id_and_nonce : Bytes → ℕ → S → Option (Option Message)
  get_message_by_channel_id_and_nonce channel_id nonce s =
      elim ((as_store (new channel_id db)).get (le_bytes 8 nonce) s) [
        | err e ↦ none
        | ok none ↦ some none
        | ok (some b) ↦ elim (abi.decode b) [ none ↦ none | some m ↦ some (some m) ]
      ]

  unfoldable pub get_most_recent_message : Bytes → S → Option (Option Message)
  unfolding decode_messages
  get_most_recent_message channel_id s =
      elim ((as_store (new channel_id db)).iter_all [] (λ _ _. some true) s) [
        | none ↦ none
        | some kvs ↦ some (pop (decode_messages abi kvs))
      ]

  unfoldable pub store_message : Message → S → Result (Unit {0}) ErrorKind × S
  store_message message s =
      let (done, s') =
        (as_store (new message.channel_id db)).put (le_bytes 8 message.nonce) (abi.encode message)
          s in
      (elim done [ ok _ ↦ ok tt | err _ ↦ err plasma_db_error ], s')

le_bytes_inj : (n m : ℕ) → n < 2 ^ 64 → m < 2 ^ 64 → le_bytes 8 n ≡ le_bytes 8 m → n ≡ m
le_bytes_inj n m h k e =
    sym (of_le-le_bytes 8 n (Fits-u64 n h)) ∙ ap of_le e ∙ of_le-le_bytes 8 m (Fits-u64 m k)

key_inj :
    (c c' : Bytes) (n m : ℕ)
    → n < 2 ^ 64
    → m < 2 ^ 64
    → c ++ le_bytes 8 n ≡ c' ++ le_bytes 8 m
    → (c ≡ c') × (n ≡ m)
key_inj c c' n m h k e =
    let len : length c ≡ length c' = omega (
      arith,
      ap length e,
      length-append c (le_bytes 8 n),
      length-append c' (le_bytes 8 m),
      length-le_bytes 8 n,
      length-le_bytes 8 m,
    ) in
    let (p, q) = append_inj c (le_bytes 8 n) c' (le_bytes 8 m) len e in (p, le_bytes_inj n m h k q)

module _ {S : Type 0} (abi : MessageAbi) (db : KeyValueStore S) (Inv : S → Type 0)
    (entries : S → BTreeMap) (laws : IsStore db Inv entries) where
  get_after :
      (m : Message) (c : Bytes) (n : ℕ) (s : S) (o : Option Bytes)
      → Inv s
      → BTreeMap.get (c ++ le_bytes 8 n) (entries s) ≡ o
      → get_message_by_channel_id_and_nonce abi db c n s
        ≡ (elim o as (λ _. Option (Option Message)) [
          | none ↦ some none
          | some b ↦ elim (abi.decode b) as (λ _. Option (Option Message)) [
            | none ↦ none
            | some m ↦ some (some m)
          ]
        ])
  unfolding get_message_by_channel_id_and_nonce
  get_after m c n s o i e =
      rw (laws.get_lem (c ++ le_bytes 8 n) s i, e, get_message_by_channel_id_and_nonce) refl

  -- Over a store that keeps the contract, `store_message` with a `u64` nonce succeeds; the message
  -- is then read under its channel and nonce, and every other pair of a channel and a `u64` nonce
  -- reads as before.
  pub store_message_lem :
      (m : Message) (s : S)
      → m.nonce < 2 ^ 64
      → Inv s
      → (s' : S) × (store_message abi db m s ≡ (ok tt, s'))
        × Inv s'
        × (get_message_by_channel_id_and_nonce abi db m.channel_id m.nonce s' ≡ some (some m))
        × ((c : Bytes) (n : ℕ)
            → n < 2 ^ 64
            → ¬ ((c ≡ m.channel_id) × (n ≡ m.nonce))
            → get_message_by_channel_id_and_nonce abi db c n s'
              ≡ get_message_by_channel_id_and_nonce abi db c n s)
  unfolding store_message
  store_message_lem m s h i =
      let key = m.channel_id ++ le_bytes 8 m.nonce in
      let (done, inv, same) = laws.put_lem key (abi.encode m) s i in
      let s' = (db.put key (abi.encode m) s).1 in
      let read : (k : Bytes)
          → BTreeMap.get k (entries s')
            ≡ at (cmp k key) (some (abi.encode m)) (BTreeMap.get k (entries s)) =
        λ k. ap (BTreeMap.get k) same ∙ get-insert key (abi.encode m) k (entries s) in
      (
        s',
        rw done refl,
        inv,
        get_after m m.channel_id m.nonce s' (some (abi.encode m)) inv (
              read key
              ∙ ap (λ o. at o (some (abi.encode m)) (BTreeMap.get key (entries s))) (cmp_refl key))
            ∙ rw (abi.decode-encode m h) refl,
        λ c n k other.
            let k' = c ++ le_bytes 8 n in
            let differ : cmp k' key ≢ Ordering.eq =
              λ e. other (key_inj c m.channel_id n m.nonce k h (eq_of_cmp k' key e)) in
            get_after m c n s' (BTreeMap.get k' (entries s)) inv (
              read k'
              ∙ at_other (cmp k' key) (some (abi.encode m)) (BTreeMap.get k' (entries s)) differ)
            ∙ sym (get_after m c n s (BTreeMap.get k' (entries s)) i refl),
      )

abbrev pub message : Bytes → ℕ → Bytes → Message
message channel_id nonce text = record { channel_id = channel_id; nonce = nonce; message = text }

two_scanned :
    (x y : Bytes)
    → scan []
        (λ _ _. some true)
        (BTreeMap.insert (le_bytes 8 256) y (BTreeMap.insert (le_bytes 8 1) x []))
      ≡ some (
          record { key = le_bytes 8 256; value = y }
          ∷ record { key = le_bytes 8 1; value = x }
          ∷ [])
unfolding scan BTreeMap.insert le_bytes cmp
two_scanned x y = refl

-- For any channel and texts, after a message with nonce 1 and one with nonce 256 have been stored
-- in an empty memory store, the most recent message is the one with nonce 1.
pub get_most_recent_message_256 :
    (abi : MessageAbi) (c x y : Bytes)
    → get_most_recent_message abi memory c
        (store_message abi memory
          (message c 256 y)
          (store_message abi memory (message c 1 x) open_db).1).1
      ≡ some (some (message c 1 x))
unfolding get_most_recent_message store_message
get_most_recent_message_256 abi c x y =
    let laws : IsStore (as_store (new c memory)) IsSorted (λ s. strip c s) =
      bucket-IsStore memory IsSorted (λ s. s) memory-IsStore memory-HasPrefixIteration c in
    let m = message c 1 x in
    let m' = message c 256 y in
    let (d1, i1, e1) = laws.put_lem (le_bytes 8 1) (abi.encode m) open_db tt in
    let s1 = BTreeMap.insert (c ++ le_bytes 8 1) (abi.encode m) open_db in
    let (d2, i2, e2) = laws.put_lem (le_bytes 8 256) (abi.encode m') s1 i1 in
    let s2 = BTreeMap.insert (c ++ le_bytes 8 256) (abi.encode m') s1 in
    let stripped : strip c s2
        ≡ BTreeMap.insert (le_bytes 8 256) (abi.encode m')
            (BTreeMap.insert (le_bytes 8 1) (abi.encode m) []) =
      e2
      ∙ ap (BTreeMap.insert (le_bytes 8 256) (abi.encode m'))
          (e1 ∙ ap (BTreeMap.insert (le_bytes 8 1) (abi.encode m)) (unfold strip in refl)) in
    let found =
      laws.iter_all_lem [] (λ _. some true) s2 i2
      ∙ ap (scan [] (λ _ _. some true)) stripped
      ∙ two_scanned (abi.encode m) (abi.encode m') in
    rw (found, get_most_recent_message)
      (rw (abi.decode-encode m' (omega arith), abi.decode-encode m (omega arith), decode_messages)
        refl)
