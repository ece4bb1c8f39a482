-- ===== src/Clients/BlockManager/Queue.antt =====
-- The queues of the next block (clients/src/plasma/block_db.rs), as the ranges they stand for.
use plasma_rust_framework.Prelude.{
  ◌≡◌, refl, ap, ◌∙◌, subst, Option, some, List, [], ◌∷◌, ◌++◌, arith, filter,
}
use plasma_rust_framework.Prelude.Bytes.{Bytes, starts_with}
use plasma_rust_framework.Prelude.Result.{ok}
use plasma_rust_framework.Db.BTreeMap.{BTreeMap}
use plasma_rust_framework.Db.Kvs.{KeyValueStore}
use plasma_rust_framework.Db.Store.{IsStore, HasPrefixIteration}
use plasma_rust_framework.Db.Bucket.{new, as_store}
use plasma_rust_framework.Db.Bucket.Laws.{strip, bucket-IsStore}
use plasma_rust_framework.Db.Bucket.Apart.{Apart}
use plasma_rust_framework.Db.Range.{Range, intersect}
use plasma_rust_framework.Db.RangeDb
use plasma_rust_framework.Db.RangeDb.Ranges.{IsRangeMap, hit, miss}
use plasma_rust_framework.Db.RangeDb.Operations.{Represents, get_lem, del_lem}
use plasma_rust_framework.Ovm.External.{External}
use plasma_rust_framework.Clients.Types.{Codecs, min_range, max_range}
use plasma_rust_framework.Clients.BlockDb.{
  queued_state_updates, queued_txs, plasma_block_db, blocks, decode_values, get_values, done,
}

-- The query of the queues hits every range.
pub hit_every : (rs : List Range) → IsRangeMap rs → filter (hit min_range max_range) rs ≡ rs
unfolding intersect
hit_every [] w = refl
hit_every (r ∷ rs) w = ground (arith, hit_every rs w.3)

pub miss_every : (rs : List Range) → IsRangeMap rs → filter (miss min_range max_range) rs ≡ []
unfolding intersect
miss_every [] w = refl
miss_every (r ∷ rs) w = ground (arith, miss_every rs w.3)

pub blocks-Apart_updates : Apart (plasma_block_db ++ blocks) queued_state_updates
unfolding starts_with
blocks-Apart_updates k = refl

pub blocks-Apart_txs : Apart (plasma_block_db ++ blocks) queued_txs
unfolding starts_with
blocks-Apart_txs k = refl

pub updates-Apart_txs : Apart queued_state_updates queued_txs
unfolding starts_with
updates-Apart_txs k = refl

pub txs-Apart_updates : Apart queued_txs queued_state_updates
unfolding starts_with
txs-Apart_updates k = refl

module _ {S : Type 0} (ext : External) (codecs : Codecs) (db : KeyValueStore S) (Inv : S → Type 0)
    (entries : S → BTreeMap) (laws : IsStore db Inv entries)
    (prefixed : HasPrefixIteration db Inv entries) where
  -- The queue in the bucket `p` stands for these ranges.
  abbrev pub Queued : Bytes → S → List Range → Type 0
  Queued p s rs =
      Represents ext.rlp (as_store (new p db)) Inv (λ t. strip p (entries t))
        (bucket-IsStore db Inv entries laws prefixed p) s rs

  pub Queued-kept :
      (p : Bytes) (s s' : S) (rs : List Range)
      → Queued p s rs
      → Inv s'
      → strip p (entries s') ≡ strip p (entries s)
      → Queued p s' rs
  Queued-kept p s s' rs q i e = record { inv = i; same = e ∙ q.same; map = q.map }

  pub read_queue :
      {A : Type 0} (decode : Bytes → Option A) (p : Bytes) (s : S) (rs : List Range)
      (values : List A)
      → Queued p s rs
      → decode_values decode rs ≡ some values
      → get_values decode (RangeDb.get ext.rlp (as_store (new p db)) min_range max_range s)
        ≡ some (ok values)
  read_queue decode p s rs values q d =
      ap (get_values decode) (
        get_lem ext.rlp (as_store (new p db)) Inv (λ t. strip p (entries t))
          (bucket-IsStore db Inv entries laws prefixed p) min_range max_range s rs (omega arith) q
        ∙ ap (λ (l : List Range). some (ok l)) (hit_every rs q.map))
      ∙ rw (d, get_values) refl

  pub clear_queue :
      (p : Bytes) (s : S) (rs : List Range)
      → Queued p s rs
      → (s' : S) × (RangeDb.del_batch ext.rlp (as_store (new p db)) min_range max_range s
          ≡ some (ok rs, s'))
        × Queued p s' []
  clear_queue p s rs q =
      let (s', done, after) =
        del_lem ext.rlp (as_store (new p db)) Inv (λ t. strip p (entries t))
          (bucket-IsStore db Inv entries laws prefixed p) min_range max_range s rs (omega arith)
          (omega arith) q in
      (
        s',
        done ∙ ap (λ (l : List Range). some (ok l, s')) (hit_every rs q.map),
        subst (Queued p s') (miss_every rs q.map) after,
      )
