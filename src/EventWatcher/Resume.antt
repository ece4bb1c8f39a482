-- ===== src/EventWatcher/Resume.antt =====
-- Polling again (event-watcher/src/event_watcher.rs): a chain grows between the polls, and each log is
-- delivered by one of them.
use plasma_rust_framework.Prelude.{
  ℕ, suc, ◌^◌, ◌≤◌, ◌<◌, ◌≡◌, refl, sym, ap, ◌∙◌, subst, Option, none, some, List, [], ◌∷◌, ◌++◌,
  map, append_assoc, append-nil, arith, ltb, leb, if◌then◌else◌, All, All-append, All-imp,
}
use plasma_rust_framework.Prelude.Result.{ok}
use plasma_rust_framework.EventWatcher.EventDb.{EventDb}
use plasma_rust_framework.EventWatcher.Fetcher.{
  Event, Ethabi, Web3Log, Log, DecodedParam, low_u64, last_of, newer, filter_logs, decode_params,
  decode_logs, record_block, collect_logs, from_block,
}

-- What a first block to report is, given the last one that was logged.
abbrev pub next_block : Option ℕ → ℕ
next_block none = 0
next_block (some n) = suc n

module _ {RawLog : Type 0} (number : RawLog → ℕ) where
  -- The blocks of the logs do not fall below `low`, nor below those of earlier logs.
  abbrev pub Rises : ℕ → List RawLog → Type 0
  Rises low [] = Unit {0}
  Rises low (l ∷ ls) = (low ≤ number l) × Rises (number l) ls

  -- The last block logged after a poll that delivers the logs.
  abbrev pub top_of : Option ℕ → List RawLog → Option ℕ
  top_of last [] = last
  top_of last (l ∷ ls) = top_of (some (number l)) ls

  -- Each batch is of later blocks than the ones before.
  abbrev pub Later : Option ℕ → List (List RawLog) → Type 0
  Later last [] = Unit {0}
  Later last (batch ∷ batches) = Rises (next_block last) batch × Later (top_of last batch) batches

  -- The logs of a chain that a filter asks for.
  unfoldable pub since : ℕ → List RawLog → List RawLog
  since from [] = []
  since from (l ∷ ls) = let rest = since from ls in if leb from (number l) then l ∷ rest else rest

  abbrev pub Below : Option ℕ → List RawLog → Type 0
  Below last = All (λ l. number l < next_block last)

  since_all : (ls : List RawLog) → since 0 ls ≡ ls
  unfolding since
  since_all [] = refl
  since_all (l ∷ ls) = ground (arith, since_all ls)

  pub Below-top :
      (last : Option ℕ) (low : ℕ) (chain batch : List RawLog)
      → next_block last ≤ suc low
      → Below last chain
      → Rises low batch
      → Below (top_of last batch) (chain ++ batch)
  Below-top last low chain [] h b r = subst (Below last) (sym (append-nil chain)) b
  Below-top last low chain (l ∷ batch) h b r =
      subst (Below (top_of (some (number l)) batch)) (append_assoc chain (l ∷ []) batch) (
        Below-top (some (number l)) (number l) (chain ++ (l ∷ [])) batch (omega arith)
          (All-append (λ m. number m < suc (number l)) chain (l ∷ [])
            (All-imp (λ m a. omega (arith, a, h, r.0)) chain b) (omega arith, tt))
          r.1)

module _ {S RawLog Param ParamType Token Error : Type 0}
    (ethabi : Ethabi Param ParamType Token Error) (web3 : Web3Log RawLog) (db : EventDb S)
    (event : Event Param) (number : RawLog → ℕ)
    (mined : (l : RawLog) → web3.block_number l ≡ some (number l))
    (small : (l : RawLog) → number l < 2 ^ 64) where
  pub low_lem : (l : RawLog) → low_u64 (number l) ≡ number l
  low_lem l = omega (arith, small l)

  newer-cons :
      (b : ℕ) (l : RawLog) (ls : List RawLog)
      → newer ethabi web3 db b (l ∷ ls)
        ≡ (if ltb b (number l) then l ∷ newer ethabi web3 db b ls else newer ethabi web3 db b ls)
  unfolding newer
  newer-cons b l ls = rw (mined l, low_lem l) refl

  newer-since_old :
      (b : ℕ) (chain batch : List RawLog)
      → Below number (some b) chain
      → newer ethabi web3 db b (since number b (chain ++ batch))
        ≡ newer ethabi web3 db b (since number b batch)
  unfolding since
  newer-since_old b [] batch h = refl
  newer-since_old b (l ∷ chain) batch h = ground (
    arith,
    newer-cons b l (since number b (chain ++ batch)),
    newer-since_old b chain batch h.1,
    h.0,
  )

  newer-since_new :
      (b low : ℕ) (batch : List RawLog)
      → b < low
      → Rises number low batch
      → newer ethabi web3 db b (since number b batch) ≡ batch
  unfolding since newer
  newer-since_new b low [] h r = refl
  newer-since_new b low (l ∷ batch) h r = ground (
    arith,
    newer-cons b l (since number b batch),
    newer-since_new b (number l) batch (omega (arith, h, r.0)) r.1,
    r.0,
    h,
  )

  new_logs :
      (last : Option ℕ) (chain batch : List RawLog) (s : S)
      → db.get_last_logged_block event.signature s ≡ some last
      → Below number last chain
      → Rises number (next_block last) batch
      → filter_logs ethabi web3 db event
          (since number (from_block ethabi web3 db last) (chain ++ batch))
          s
        ≡ some batch
  unfolding filter_logs
  new_logs none [] batch s e h r = rw (filter_logs, e) (ap some (since_all number batch))
  new_logs none (l ∷ chain) batch s e h r = absurd (omega (arith, h.0))
  new_logs (some b) chain batch s e h r =
      rw (filter_logs, e)
        (ap some
          (newer-since_old b chain batch h ∙ newer-since_new b (suc b) batch (omega arith) r))

  -- The last log of a list that starts with `l`.
  abbrev pub final : RawLog → List RawLog → RawLog
  final l [] = l
  final l (m ∷ ms) = final m ms

  pub top_of-final :
      (last : Option ℕ) (l : RawLog) (ls : List RawLog)
      → top_of number last (l ∷ ls) ≡ some (number (final l ls))
  top_of-final last l [] = refl
  top_of-final last l (m ∷ ms) = top_of-final (some (number l)) m ms

  module _ (params : RawLog → List (DecodedParam Param Token))
      (decodes : (l : RawLog) → decode_params ethabi web3 db event l ≡ ok (params l)) where
    abbrev pub delivered : RawLog → Log RawLog Param Token
    delivered l = record { log = l; event_signature = event.signature; params = params l }

    decode_logs_lem :
        (ls : List RawLog) → decode_logs ethabi web3 db event ls ≡ ok (map delivered ls)
    unfolding decode_logs
    decode_logs_lem [] = refl
    decode_logs_lem (l ∷ ls) = rw (decode_logs, decodes l, decode_logs_lem ls) refl

    pub last_of-delivered :
        (l : RawLog) (ls : List RawLog)
        → last_of (map delivered (l ∷ ls)) ≡ some (delivered (final l ls))
    last_of-delivered l [] = refl
    last_of-delivered l (m ∷ ms) = rw (last_of-delivered m ms) refl

    abbrev pub recorded : List RawLog → S → S
    recorded ls s = record_block ethabi web3 db event.signature (last_of (map delivered ls)) s

    pub collected :
        (last : Option ℕ) (chain batch : List RawLog) (s : S)
        → db.get_last_logged_block event.signature s ≡ some last
        → Below number last chain
        → Rises number (next_block last) batch
        → collect_logs ethabi web3 db event
            (ok (since number (from_block ethabi web3 db last) (chain ++ batch)))
            s
          ≡ some (map delivered batch, recorded batch s)
    unfolding collect_logs
    collected last chain batch s e h r =
        rw (collect_logs, new_logs last chain batch s e h r, decode_logs_lem batch) refl
