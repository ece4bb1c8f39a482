-- ===== src/Examples/Events.antt =====
-- The polls of a growing chain, at a chain of three logs in two blocks.
use plasma_rust_framework.Prelude.{
  ℕ, ◌%◌, ◌^◌, ◌≡◌, refl, Bool, Option, none, some, List, [], ◌∷◌, map, arith, if◌then◌else◌,
}
use plasma_rust_framework.Prelude.Bytes.{Bytes}
use plasma_rust_framework.Prelude.Result.{ok}
use plasma_rust_framework.Db.BTreeMap.{BTreeMap, IsSorted}
use plasma_rust_framework.Db.Memory.{memory, open_db}
use plasma_rust_framework.Db.Memory.Laws.{memory-IsStore}
use plasma_rust_framework.EventWatcher.EventDb.{Rlp, event_db}
use plasma_rust_framework.EventWatcher.Fetcher.{
  Event, Ethabi, Web3Log, Log, DecodedParam, decode_params, decode_inputs, zip_tokens,
}
use plasma_rust_framework.EventWatcher.Delivery.{polls, polls_lem}

abbrev first_of : Bytes → Option ℕ
first_of [] = none
first_of (n ∷ b) = some n

abbrev short : Rlp
short = record {
  encode_u64 = λ n. n ∷ [];
  decode_u64 = first_of;
  encode_bool = λ b. if b then 1 ∷ [] else [];
  decode_bool = λ b. some Bool.true;
}

-- A log is its number; its data is that number, and its one token.
abbrev tokens : Ethabi ℕ ℕ ℕ ℕ
tokens = record { kind = λ p. p; decode = λ kinds b. ok b; invalid_data = 0 }

abbrev logs : Web3Log ℕ
logs = record { block_number = λ l. some (l % 2 ^ 64); log_data = λ l. l ∷ [] }

abbrev transfer : Event ℕ
transfer = record { signature = 9 ∷ []; inputs = 7 ∷ [] }

abbrev one_param : ℕ → List (DecodedParam ℕ ℕ)
one_param l = record { event_param = 7; token = l } ∷ []

abbrev of_transfer : ℕ → Log ℕ ℕ ℕ
of_transfer l = record { log = l; event_signature = 9 ∷ []; params = one_param l }

one_param_lem :
    (l : ℕ) → decode_params tokens logs (event_db short memory) transfer l ≡ ok (one_param l)
unfolding decode_params decode_inputs zip_tokens
one_param_lem l = refl

polls_lem_example :
    (s' : BTreeMap) × (polls tokens logs
        (event_db short memory)
        5
        transfer
        (λ l. l % 2 ^ 64)
        []
        ((3 ∷ 3 ∷ []) ∷ (5 ∷ []) ∷ [])
        open_db
      ≡ some (map of_transfer (3 ∷ 3 ∷ 5 ∷ []), s'))
unfolding plasma_rust_framework.Db.BTreeMap.get
polls_lem_example =
    polls_lem tokens logs short (λ n h. refl) memory IsSorted (λ m. m) memory-IsStore transfer
      (λ l. l % 2 ^ 64) (λ l. refl) (λ l. omega arith) one_param one_param_lem 5
      ((3 ∷ 3 ∷ []) ∷ (5 ∷ []) ∷ []) open_db tt refl
      ((omega arith, (omega arith, tt)), ((omega arith, tt), tt))
