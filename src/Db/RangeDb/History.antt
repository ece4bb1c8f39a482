-- ===== src/Db/RangeDb/History.antt =====
-- What a client sees of a range database after any sequence of calls of `put`, failed ones included.
use plasma_rust_framework.Prelude.{
  ℕ, ◌≤◌, ◌≡◌, refl, ap, ◌∙◌, inl, inr, ◌&&◌, Option, none, some, List, [], ◌∷◌, arith, ltb, leb,
  if◌then◌else◌, lt_or_ge, All,
}
use plasma_rust_framework.Prelude.Bytes.{Bytes}
use plasma_rust_framework.Db.BTreeMap.{BTreeMap}
use plasma_rust_framework.Db.Kvs.{KeyValueStore}
use plasma_rust_framework.Db.Store.{IsStore}
use plasma_rust_framework.Db.Range.{Range, RlpCodec, IsU64}
use plasma_rust_framework.Db.RangeDb.{put}
use plasma_rust_framework.Db.RangeDb.Ranges.{value_at}
use plasma_rust_framework.Db.RangeDb.Operations.{Represents, put_lem, put_empty}

-- The calls, one after the other; `none` is a panic of one of them.
unfoldable pub puts : {S : Type 0} → RlpCodec → KeyValueStore S → List Range → S → Option S
puts rlp db [] s = some s
puts rlp db (r ∷ rs) s = elim (put rlp db r.start r.end r.value s) [
  | none ↦ none
  | some (_, s') ↦ puts rlp db rs s'
]

-- The value of the last call whose range holds the coin; an empty range holds none.
unfoldable pub latest : ℕ → List Range → Option Bytes → Option Bytes
latest x [] old = old
latest x (r ∷ rs) old = latest x rs (if leb r.start x && ltb x r.end then some r.value else old)

not_held :
    (x : ℕ) (r : Range) (old : Option Bytes)
    → r.end ≤ r.start
    → old ≡ (if leb r.start x && ltb x r.end then some r.value else old)
not_held x r old h = ground arith

module _ {S : Type 0} (rlp : RlpCodec) (db : KeyValueStore S) (Inv : S → Type 0)
    (entries : S → BTreeMap) (laws : IsStore db Inv entries) where
  -- Over a store that keeps the contract and stands for ranges in order, a sequence of calls of
  -- `put` with `u64` bounds never panics, and leaves a store that stands for ranges in order in
  -- which each coin has the value of the last call that covered it, or else the value it had
  -- before.
  pub puts_lem :
      (calls : List Range) (s : S) (rs : List Range)
      → All IsU64 calls
      → Represents rlp db Inv entries laws s rs
      → (s' : S) × (puts rlp db calls s ≡ some s')
        × (rs' : List Range) × Represents rlp db Inv entries laws s' rs'
        × ((x : ℕ) → value_at x rs' ≡ latest x calls (value_at x rs))
  unfolding puts latest
  puts_lem [] s rs u h = (s, refl, rs, h, λ x. refl)
  puts_lem (r ∷ calls) s rs u h = elim (lt_or_ge r.start r.end) [
    | inl valid ↦
        let (t, done, qs, g, at) =
          put_lem rlp db Inv entries laws r.start r.end r.value s rs valid u.0.1 h in
        let (s', all, rs', g', at') = puts_lem calls t qs u.1 g in
        (s', rw (done, puts) all, rs', g', λ x. rw (← at x) (at' x))
    | inr empty ↦
        let (t, done, g) =
          put_empty rlp db Inv entries laws r.start r.end r.value s rs empty u.0.0 h in
        let (s', all, rs', g', at') = puts_lem calls t rs u.1 g in
        (
          s',
          rw (done, puts) all,
          rs',
          g',
          λ x. at' x ∙ ap (latest x calls) (not_held x r (value_at x rs) empty),
        )
  ]
