-- ===== src/Clients/BlockManager/Enqueue.antt =====
-- The queue of state updates (clients/src/plasma/block_db.rs), one for all deposit contracts.
use plasma_rust_framework.Prelude.{
  ℕ, ◌^◌, ◌<◌, ◌≡◌, refl, ap, ◌∙◌, ◌&&◌, Option, none, some, List, [], ◌∷◌, arith, ltb, leb,
  if◌then◌else◌, All,
}
use plasma_rust_framework.Prelude.Bytes.{Bytes}
use plasma_rust_framework.Prelude.Result.{ok}
use plasma_rust_framework.Db.BTreeMap.{BTreeMap}
use plasma_rust_framework.Db.Bucket.{new, as_store}
use plasma_rust_framework.Db.Bucket.Laws.{strip, bucket-IsStore}
use plasma_rust_framework.Db.Kvs.{KeyValueStore}
use plasma_rust_framework.Db.Store.{IsStore, HasPrefixIteration}
use plasma_rust_framework.Db.Range.{Range}
use plasma_rust_framework.Db.RangeDb.Ranges.{IsRangeMap, Behind, value_at}
use plasma_rust_framework.Db.RangeDb.Apart.{none-some}
use plasma_rust_framework.Db.RangeDb.Operations.{put_lem}
use plasma_rust_framework.PlasmaCore.Range as Coins
use plasma_rust_framework.Ovm.Types.{StateUpdate, get_range}
use plasma_rust_framework.Ovm.External.{External}
use plasma_rust_framework.Clients.Types.{Codecs}
use plasma_rust_framework.Clients.BlockDb
use plasma_rust_framework.Clients.BlockDb.{
  queued_state_updates, decode_values, done, updates_bucket,
}
use plasma_rust_framework.Clients.BlockManager.Queue.{Queued, read_queue}

-- Ranges further on do not hold a coin.
value_at-Behind : (x e : ℕ) (rs : List Range) → Behind e rs → x < e → value_at x rs ≡ none
unfolding value_at
value_at-Behind x e [] b h = refl
value_at-Behind x e (r ∷ rs) b h = ground (arith, value_at-Behind x e rs b.1 h)

value_at-head :
    (r : Range) (rs : List Range) → r.start < r.end → value_at r.start (r ∷ rs) ≡ some r.value
unfolding value_at
value_at-head r rs h = ground arith

value_at-tail :
    (x : ℕ) (w : Bytes) (r : Range) (rs : List Range)
    → Behind r.end rs
    → value_at x rs ≡ some w
    → value_at x (r ∷ rs) ≡ some w
unfolding value_at
value_at-tail x w r rs b h = ground (arith, value_at-Behind x r.end rs b)

-- The coins of ranges in order hold one value only, so do the ranges.
values_from_coins :
    (v : Bytes) (rs : List Range)
    → IsRangeMap rs
    → ((x : ℕ) (w : Bytes) → value_at x rs ≡ some w → w ≡ v)
    → All (λ (r : Range). r.value ≡ v) rs
values_from_coins v [] m at = tt
values_from_coins v (r ∷ rs) m at = (
  at r.start r.value (value_at-head r rs m.0),
  values_from_coins v rs m.3 (λ x w h. at x w (value_at-tail x w r rs m.2 h)),
)

-- Values that are all the encoding of one update decode to copies of it.
decoded_copies :
    (decode : Bytes → Option StateUpdate) (u : StateUpdate) (v : Bytes) (rs : List Range)
    → decode v ≡ some u
    → All (λ (r : Range). r.value ≡ v) rs
    → (us : List StateUpdate) × (decode_values decode rs ≡ some us)
      × All (λ (w : StateUpdate). w ≡ u) us
unfolding decode_values
decoded_copies decode u v [] d a = ([], refl, tt)
decoded_copies decode u v (r ∷ rs) d a =
    let (us, e, same) = decoded_copies decode u v rs d a.1 in
    (u ∷ us, rw (ap decode a.0 ∙ d, decode_values) (rw e refl), (refl, same))

-- As many as the ranges, of which a coin's value shows one.
decoded_one :
    (decode : Bytes → Option StateUpdate) (u : StateUpdate) (v : Bytes) (x : ℕ) (rs : List Range)
    → decode v ≡ some u
    → All (λ (r : Range). r.value ≡ v) rs
    → value_at x rs ≡ some v
    → (us : List StateUpdate) × (decode_values decode rs ≡ some (u ∷ us))
      × All (λ (w : StateUpdate). w ≡ u) us
unfolding decode_values value_at
decoded_one decode u v x [] d a h = absurd (none-some h)
decoded_one decode u v x (r ∷ rs) d a h =
    let (us, e, same) = decoded_copies decode u v rs d a.1 in
    (us, rw (ap decode a.0 ∙ d, decode_values) (rw e refl), same)

within_own :
    (start end : ℕ) (v : Bytes) (o : Option Bytes)
    → start < end
    → (if leb start start && ltb start end then some v else o) ≡ some v
within_own start end v o h = ground arith

some_value :
    (start end x : ℕ) (v w : Bytes) (o : Option Bytes)
    → o ≡ (
        if leb start x && ltb x end
        then some v
        else if leb start x && ltb x end
        then some w
        else none)
    → (u : Bytes) → o ≡ some u
    → u ≡ v
some_value start end x v w o h u k = ground arith

module _ {S : Type 0} (ext : External) (codecs : Codecs) (db : KeyValueStore S) (Inv : S → Type 0)
    (entries : S → BTreeMap) (laws : IsStore db Inv entries)
    (prefixed : HasPrefixIteration db Inv entries) where
  enqueue_lem :
      (update : StateUpdate) (s : S) (rs : List Range)
      → (get_range update).start < (get_range update).end
      → (get_range update).end < 2 ^ 64
      → Queued ext codecs db Inv entries laws prefixed queued_state_updates s rs
      → (s' : S) × (BlockDb.enqueue_state_update ext codecs db update s ≡ some (ok tt, s'))
        × (rs' : List Range) × Queued ext codecs db Inv entries laws prefixed queued_state_updates
            s' rs'
        × ((x : ℕ)
            → value_at x rs' ≡ (
                if leb (get_range update).start x && ltb x (get_range update).end
                then some (ext.state_update_to_abi update)
                else value_at x rs))
  unfolding BlockDb.enqueue_state_update
  enqueue_lem update s rs o u q =
      let (s', e, rs', q', at) =
        put_lem ext.rlp (as_store (new queued_state_updates db)) Inv
          (λ t. strip queued_state_updates (entries t))
          (bucket-IsStore db Inv entries laws prefixed queued_state_updates)
          (get_range update).start (get_range update).end (ext.state_update_to_abi update) s rs o u
          q in
      (s', rw (e, done) refl, rs', q', at)

  -- Over a store that keeps the contract and whose iterations with a prefix are those of its entries: where two state
  -- updates for the same coins, of whatever deposit contracts, are enqueued one after the other in an empty queue, both
  -- calls succeed, there is a pending state update, and all that are pending are the second one.
  pub enqueue_displaces :
      (first second : StateUpdate) (s : S)
      → get_range first ≡ get_range second
      → (get_range second).start < (get_range second).end
      → (get_range second).end < 2 ^ 64
      → ext.state_update_from_abi (ext.state_update_to_abi second) ≡ some second
      → Queued ext codecs db Inv entries laws prefixed queued_state_updates s []
      → (s1 s2 : S) × (others : List StateUpdate) × (BlockDb.enqueue_state_update ext codecs db
            first s
          ≡ some (ok tt, s1))
        × (BlockDb.enqueue_state_update ext codecs db second s1 ≡ some (ok tt, s2))
        × (BlockDb.get_pending_state_updates ext codecs db s2 ≡ some (ok (second ∷ others)))
        × All (λ (update : StateUpdate). update ≡ second) others
  unfolding BlockDb.get_pending_state_updates value_at
  enqueue_displaces first second s same o u d q =
      let a : (get_range first).start < (get_range first).end =
        rw (ap (λ (r : Coins.Range). r.start) same, ap (λ (r : Coins.Range). r.end) same) o in
      let b : (get_range first).end < 2 ^ 64 = rw (ap (λ (r : Coins.Range). r.end) same) u in
      let (s1, e1, rs1, q1, at1) = enqueue_lem first s [] a b q in
      let (s2, e2, rs2, q2, at2) = enqueue_lem second s1 rs1 o u q1 in
      let before : (x : ℕ)
          → value_at x rs1 ≡ (
              if leb (get_range second).start x && ltb x (get_range second).end
              then some (ext.state_update_to_abi first)
              else none) =
        λ x.
          at1 x
          ∙ ap
              (λ (r : Coins.Range).
                if leb r.start x && ltb x r.end then some (ext.state_update_to_abi first) else none)
              same in
      let after : (x : ℕ) (w : Bytes)
          → value_at x rs2 ≡ some w
          → w ≡ ext.state_update_to_abi second =
        λ x w held.
          some_value (get_range second).start (get_range second).end x
            (ext.state_update_to_abi second) (ext.state_update_to_abi first) (value_at x rs2)
            (at2 x
              ∙ ap
                  (λ (o : Option Bytes).
                    if leb (get_range second).start x && ltb x (get_range second).end
                    then some (ext.state_update_to_abi second)
                    else o)
                  (before x))
            w held in
      let held : value_at (get_range second).start rs2 ≡ some (ext.state_update_to_abi second) =
        at2 (get_range second).start
        ∙ within_own (get_range second).start (get_range second).end
            (ext.state_update_to_abi second) (value_at (get_range second).start rs1) o in
      let (pending, decoded, copies) =
        decoded_one ext.state_update_from_abi second (ext.state_update_to_abi second)
          (get_range second).start rs2 d
          (values_from_coins (ext.state_update_to_abi second) rs2 q2.map after) held in
      (
        s1,
        s2,
        pending,
        e1,
        e2,
        read_queue ext codecs db Inv entries laws prefixed ext.state_update_from_abi
            queued_state_updates s2 rs2 (second ∷ pending) q2 decoded,
        copies,
      )
