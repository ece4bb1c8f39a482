-- ===== src/EventWatcher/Fetcher.antt =====
-- event-watcher/src/event_watcher.rs: the fetcher that polls a node for the logs of each event, and the watcher
-- that hands them on. The types and the decoding of `ethabi` and `web3` are parameters.
use plasma_rust_framework.Prelude.{
  ℕ, ◌%◌, ◌^◌, Bool, false, Option, none, some, List, [], ◌∷◌, ◌++◌, map, ltb, if◌then◌else◌,
}
use plasma_rust_framework.Prelude.Bytes.{Bytes}
use plasma_rust_framework.Prelude.Result.{Result, ok, err}
use plasma_rust_framework.EventWatcher.EventDb.{EventDb}

-- `ethabi::Event`, with its signature and its inputs.
pub record Event (Param : Type 0) : Type 0 where
  pub signature : Bytes
  pub inputs : List Param

-- `ErrorKind::InvalidData` is one of the errors of `ethabi`.
pub record Ethabi (Param ParamType Token Error : Type 0) : Type 0 where
  pub kind : Param → ParamType
  pub decode : List ParamType → Bytes → Result (List Token) Error
  pub invalid_data : Error

-- What the fetcher reads of `web3::types::Log`.
pub record Web3Log (RawLog : Type 0) : Type 0 where
  pub block_number : RawLog → Option ℕ
  pub log_data : RawLog → Bytes

-- The filter that is sent to the node.
pub record Filter : Type 0 where
  pub address : ℕ
  pub from_block : ℕ
  pub topic0 : Bytes

pub record DecodedParam (Param Token : Type 0) : Type 0 where
  pub event_param : Param
  pub token : Token

pub record Log (RawLog Param Token : Type 0) : Type 0 where
  pub log : RawLog
  pub event_signature : Bytes
  pub params : List (DecodedParam Param Token)

abbrev pub low_u64 : ℕ → ℕ
low_u64 n = n % 2 ^ 64

-- `collect` of a list of results: the first error ends it.
abbrev pub and_collected : {A E : Type 0} → A → Result (List A) E → Result (List A) E
and_collected a (err e) = err e
and_collected a (ok rest) = ok (a ∷ rest)

-- The tokens are reversed and popped, so they are taken in their order.
unfoldable pub zip_tokens :
    {Param Token E : Type 0}
    → E
    → List Param
    → List Token
    → Result (List (DecodedParam Param Token)) E
zip_tokens invalid [] tokens = ok []
zip_tokens invalid (p ∷ params) [] = err invalid
zip_tokens invalid (p ∷ params) (t ∷ tokens) =
    and_collected (record { event_param = p; token = t }) (zip_tokens invalid params tokens)

abbrev pub last_of : {A : Type 0} → List A → Option A
last_of [] = none
last_of (a ∷ rest) = elim (last_of rest) [ none ↦ some a | some b ↦ some b ]

module _ {S RawLog Param ParamType Token Error : Type 0}
    (ethabi : Ethabi Param ParamType Token Error) (web3 : Web3Log RawLog) (db : EventDb S) where
  -- The closure of `filter_logs`.
  abbrev pub is_new : ℕ → Option ℕ → Bool
  is_new last_logged_block none = false
  is_new last_logged_block (some n) = ltb last_logged_block (low_u64 n)

  unfoldable pub newer : ℕ → List RawLog → List RawLog
  newer last_logged_block [] = []
  newer last_logged_block (log ∷ logs) =
      let rest = newer last_logged_block logs in
      if is_new last_logged_block (web3.block_number log) then log ∷ rest else rest

  unfoldable pub filter_logs : Event Param → List RawLog → S → Option (List RawLog)
  filter_logs event logs s = elim (db.get_last_logged_block event.signature s) [
    | none ↦ none
    | some none ↦ some logs
    | some (some last_logged_block) ↦ some (newer last_logged_block logs)
  ]

  unfoldable pub decode_inputs :
      List Param → RawLog → Result (List (DecodedParam Param Token)) Error
  decode_inputs [] log = ok []
  decode_inputs (p ∷ params) log =
      elim (ethabi.decode (map ethabi.kind (p ∷ params)) (web3.log_data log)) [
        | ok tokens ↦ zip_tokens ethabi.invalid_data (p ∷ params) tokens
        | err e ↦ err e
      ]

  unfoldable pub decode_params :
      Event Param → RawLog → Result (List (DecodedParam Param Token)) Error
  decode_params event log = decode_inputs event.inputs log

  -- The logs of one event, decoded and collected.
  unfoldable pub decode_logs :
      Event Param → List RawLog → Result (List (Log RawLog Param Token)) Error
  decode_logs event [] = ok []
  decode_logs event (raw_log ∷ raw_logs) =
      let rest = decode_logs event raw_logs in
      elim (decode_params event raw_log) [
        | err e ↦ err e
        | ok params ↦
            and_collected
              (record { log = raw_log; event_signature = event.signature; params = params }) rest
      ]

  -- `if let Some(last_log) = logs.last()`, and its block.
  abbrev pub record_block : Bytes → Option (Log RawLog Param Token) → S → S
  record_block sig none s = s
  record_block sig (some last_log) s = elim (web3.block_number last_log.log) [
    | none ↦ s
    | some block_num ↦ db.set_last_logged_block sig (low_u64 block_num) s
  ]

  -- What is made of the node's answer to the query of one event; errors are only printed.
  unfoldable pub collect_logs :
      Event Param → Result (List RawLog) Error → S → Option (List (Log RawLog Param Token) × S)
  collect_logs event (err e) s = some ([], s)
  collect_logs event (ok v) s = elim (filter_logs event v s) [
    | none ↦ none
    | some raw_logs ↦ elim (decode_logs event raw_logs) [
      | err e ↦ some ([], s)
      | ok logs ↦ some (logs, record_block event.signature (last_of logs) s)
    ]
  ]

  abbrev pub from_block : Option ℕ → ℕ
  from_block none = 0
  from_block (some n) = n

  -- `node` is the answer of the node to a filter.
  unfoldable pub poll_event :
      (Filter → Result (List RawLog) Error)
      → ℕ
      → Event Param
      → S
      → Option (List (Log RawLog Param Token) × S)
  poll_event node address event s = elim (db.get_last_logged_block event.signature s) [
    | none ↦ none
    | some last ↦
        collect_logs event
          (node
            (record { address = address; from_block = from_block last; topic0 = event.signature }))
          s
  ]

  -- `EventFetcher::poll` once its timer is due.
  unfoldable pub poll :
      (Filter → Result (List RawLog) Error)
      → ℕ
      → List (Event Param)
      → S
      → Option (List (Log RawLog Param Token) × S)
  poll node address [] s = some ([], s)
  poll node address (event ∷ abi) s = elim (poll_event node address event s) [
    | none ↦ none
    | some (logs, s') ↦ elim (poll node address abi s') [
      | none ↦ none
      | some (all_logs, s'') ↦ some (logs ++ all_logs, s'')
    ]
  ]

-- The loop of `EventWatcher::poll` over the logs of a poll; a handler is `none` where it panics.
unfoldable pub on_events :
    {H RawLog Param Token : Type 0}
    → (Log RawLog Param Token → H → Option H)
    → List (Log RawLog Param Token)
    → H
    → Option H
on_events on_event [] h = some h
on_events on_event (log ∷ logs) h = elim (on_event log h) [
  | none ↦ none
  | some h' ↦ on_events on_event logs h'
]
