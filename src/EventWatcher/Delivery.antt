-- ===== src/EventWatcher/Delivery.antt =====
-- What the polls of a growing chain deliver (event-watcher/src/event_watcher.rs and event_db.rs).
use plasma_rust_framework.Prelude.{
  ℕ, ◌^◌, ◌<◌, ◌≡◌, refl, Option, none, some, List, [], ◌∷◌, ◌++◌, map, append-nil, map-append,
  arith,
}
use plasma_rust_framework.Prelude.Bytes.{cmp_refl}
use plasma_rust_framework.Prelude.Result.{Result, ok}
use plasma_rust_framework.Db.BTreeMap
use plasma_rust_framework.Db.BTreeMap.{BTreeMap}
use plasma_rust_framework.Db.BTreeMap.Laws.{get-insert}
use plasma_rust_framework.Db.Kvs.{KeyValueStore}
use plasma_rust_framework.Db.Store.{IsStore}
use plasma_rust_framework.EventWatcher.EventDb.{EventDb, Rlp, event_db}
use plasma_rust_framework.EventWatcher.Fetcher.{
  poll, poll_event, Event, Ethabi, Web3Log, Filter, Log, DecodedParam, decode_params, record_block,
}
use plasma_rust_framework.EventWatcher.Resume.{
  next_block, Rises, top_of, Later, since, Below, Below-top, collected, delivered, recorded, final,
  low_lem, top_of-final, last_of-delivered,
}

-- The node answers with the logs of its chain from the block that the filter names.
abbrev pub node_of :
    {RawLog E : Type 0} → (RawLog → ℕ) → List RawLog → Filter → Result (List RawLog) E
node_of number chain f = ok (since number f.from_block chain)

-- A poll of one event after each batch that the chain grows by, with all that is delivered.
unfoldable pub polls :
    {S RawLog Param ParamType Token Error : Type 0}
    → Ethabi Param ParamType Token Error
    → Web3Log RawLog
    → EventDb S
    → ℕ
    → Event Param
    → (RawLog → ℕ)
    → List RawLog
    → List (List RawLog)
    → S
    → Option (List (Log RawLog Param Token) × S)
polls ethabi web3 db address event number chain [] s = some ([], s)
polls ethabi web3 db address event number chain (batch ∷ batches) s =
    elim (poll ethabi web3 db (node_of number (chain ++ batch)) address (event ∷ []) s) [
      | none ↦ none
      | some (logs, s') ↦
          elim (polls ethabi web3 db address event number (chain ++ batch) batches s') [
            | none ↦ none
            | some (later, s'') ↦ some (logs ++ later, s'')
          ]
    ]

abbrev pub flat : {A : Type 0} → List (List A) → List A
flat [] = []
flat (xs ∷ xss) = xs ++ flat xss

module _ {S RawLog Param ParamType Token Error : Type 0}
    (ethabi : Ethabi Param ParamType Token Error) (web3 : Web3Log RawLog) (rlp : Rlp)
    (decode-encode : (n : ℕ) → n < 2 ^ 64 → rlp.decode_u64 (rlp.encode_u64 n) ≡ some n)
    (kvs : KeyValueStore S) (Inv : S → Type 0) (entries : S → BTreeMap)
    (laws : IsStore kvs Inv entries) (event : Event Param) (number : RawLog → ℕ)
    (mined : (l : RawLog) → web3.block_number l ≡ some (number l))
    (small : (l : RawLog) → number l < 2 ^ 64) (params : RawLog → List (DecodedParam Param Token))
    (decodes : (l : RawLog)
      → decode_params ethabi web3 (event_db rlp kvs) event l ≡ ok (params l)) where
  abbrev db : EventDb S
  db = event_db rlp kvs

  abbrev logged : S → Option (Option ℕ)
  logged s = db.get_last_logged_block event.signature s

  abbrev deliver : RawLog → Log RawLog Param Token
  deliver = delivered ethabi web3 db event number mined small params decodes

  abbrev record_of : List RawLog → S → S
  record_of = recorded ethabi web3 db event number mined small params decodes

  set_lem :
      (n : ℕ) (s : S)
      → Inv s
      → n < 2 ^ 64
      → Inv (db.set_last_logged_block event.signature n s)
        × (logged (db.set_last_logged_block event.signature n s) ≡ some (some n))
  set_lem n s i h =
      let (_, i', e) = laws.put_lem event.signature (rlp.encode_u64 n) s i in
      (
        i',
        rw
            (
              laws.get_lem event.signature (kvs.put event.signature (rlp.encode_u64 n) s).1 i',
              e,
              get-insert event.signature (rlp.encode_u64 n) event.signature (entries s),
              cmp_refl event.signature,
              decode-encode n h,
            )
            refl,
      )

  recorded_lem :
      (last : Option ℕ) (batch : List RawLog) (s : S)
      → Inv s
      → logged s ≡ some last
      → Inv (record_of batch s) × (logged (record_of batch s) ≡ some (top_of number last batch))
  recorded_lem last [] s i e = (i, e)
  recorded_lem last (l ∷ ls) s i e =
      rw
        (
          last_of-delivered ethabi web3 db event number mined small params decodes l ls,
          top_of-final ethabi web3 db event number mined small last l ls,
          record_block,
          mined (final ethabi web3 db event number mined small l ls),
          low_lem ethabi web3 db event number mined small
              (final ethabi web3 db event number mined small l ls),
        )
        (set_lem (number (final ethabi web3 db event number mined small l ls)) s i
          (small (final ethabi web3 db event number mined small l ls)))

  poll_lem :
      (address : ℕ) (last : Option ℕ) (chain batch : List RawLog) (s : S)
      → logged s ≡ some last
      → Below number last chain
      → Rises number (next_block last) batch
      → poll ethabi web3 db (node_of number (chain ++ batch)) address (event ∷ []) s
        ≡ some (map deliver batch, record_of batch s)
  unfolding poll poll_event
  poll_lem address last chain batch s e h r =
      rw
        (
          poll,
          poll_event,
          e,
          collected ethabi web3 db event number mined small params decodes last chain batch s e h r,
          append-nil (map deliver batch),
        )
        refl

  grown :
      (address : ℕ) (last : Option ℕ) (chain : List RawLog) (batches : List (List RawLog)) (s : S)
      → Inv s
      → logged s ≡ some last
      → Below number last chain
      → Later number last batches
      → (s' : S) × (polls ethabi web3 db address event number chain batches s
          ≡ some (map deliver (flat batches), s'))
  unfolding polls
  grown address last chain [] s i e h r = (s, refl)
  grown address last chain (batch ∷ batches) s i e h (r, later) =
      let (i', e') = recorded_lem last batch s i e in
      let (s', q) =
        grown address (top_of number last batch) (chain ++ batch) batches (record_of batch s) i' e'
          (Below-top number last (next_block last) chain batch (omega arith) h r) later in
      (
        s',
        rw
            (
              polls,
              poll_lem address last chain batch s e h r,
              q,
              map-append deliver batch (flat batches),
            )
            refl,
      )

  -- Where the store keeps the contract of a sorted map and has no block for the event, the numbers encoded by
  -- `rlp` are read back, every log has a block number of 64 bits and decodes, and the node answers with the logs of its
  -- chain from the block asked for: polling one event after each batch of logs that the chain grows by, each
  -- batch of later blocks than the one before, succeeds and delivers the logs of all batches, each once and in
  -- order.
  pub polls_lem :
      (address : ℕ) (batches : List (List RawLog)) (s : S)
      → Inv s
      → BTreeMap.get event.signature (entries s) ≡ none
      → Later number none batches
      → (s' : S) × (polls ethabi web3 db address event number [] batches s
          ≡ some (map deliver (flat batches), s'))
  polls_lem address batches s i e later =
      grown address none [] batches s i (rw (laws.get_lem event.signature s i, e) refl) tt later
