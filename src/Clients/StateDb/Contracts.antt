-- ===== src/Clients/StateDb/Contracts.antt =====
-- The verified state updates of different contracts (clients/src/plasma/state_db.rs) do not touch each other.
use plasma_rust_framework.Prelude.{
  ℕ, ◌^◌, ◌<◌, ◌≡◌, refl, sym, ap, ◌∙◌, inl, inr, ◌&&◌, some, List, ◌++◌, arith, ltb, leb,
  if◌then◌else◌, Bool-cases, length, filter, drop, length-append,
}
use plasma_rust_framework.Prelude.Bytes.{Bytes, starts_with, starts_with-drop, append_inj}
use plasma_rust_framework.Prelude.Words.{of_be, of_be-be_bytes, length-be_bytes, Fits}
use plasma_rust_framework.Prelude.Result.{Result, ok}
use plasma_rust_framework.Db.Key.{ErrorKind}
use plasma_rust_framework.Db.BTreeMap.{BTreeMap}
use plasma_rust_framework.Db.Bucket.Laws.{strip, bucket-IsStore}
use plasma_rust_framework.Db.Bucket.Apart.{Apart}
use plasma_rust_framework.Db.Kvs.{KeyValueStore}
use plasma_rust_framework.Db.Store.{IsStore, HasPrefixIteration}
use plasma_rust_framework.Db.Range.{Range}
use plasma_rust_framework.Db.RangeDb.Apart.{Keeps-put}
use plasma_rust_framework.Db.RangeDb.Ranges.{hit, value_at}
use plasma_rust_framework.Db.RangeDb.Operations.{Represents, get_lem, put_lem}
use plasma_rust_framework.Ovm.Types.{StateUpdate, get_range, get_deposit_contract_address}
use plasma_rust_framework.Ovm.SignedByDb.{address_bytes}
use plasma_rust_framework.Ovm.External.{External}
use plasma_rust_framework.Clients.StateDb.{
  verified_state_updates, decoded, contract_bucket, get_verified_state_updates,
  put_verified_state_update,
}

abbrev pub contract_name : ℕ → Bytes
contract_name address = verified_state_updates ++ address_bytes address

Fits-address : (a : ℕ) → a < 2 ^ 160 → Fits 20 a
Fits-address a h = omega arith

address_inj : (a b : ℕ) → a < 2 ^ 160 → b < 2 ^ 160 → address_bytes a ≡ address_bytes b → a ≡ b
unfolding address_bytes
address_inj a b h k e =
    sym (of_be-be_bytes 20 a (Fits-address a h))
    ∙ ap of_be e
    ∙ of_be-be_bytes 20 b (Fits-address b k)

contracts-Apart :
    (a b : ℕ) → a < 2 ^ 160 → b < 2 ^ 160 → ¬ (a ≡ b) → Apart (contract_name a) (contract_name b)
unfolding address_bytes
contracts-Apart a b h k other key =
    let p = contract_name a in
    let q = contract_name b in
    elim (Bool-cases (starts_with (p ++ key) q)) [
      | inl yes' ↦
          let e : q ++ drop (length q) (p ++ key) ≡ p ++ key = starts_with-drop (p ++ key) q yes' in
          let same_length : length q ≡ length p = omega (
            arith,
            length-append verified_state_updates (address_bytes a),
            length-append verified_state_updates (address_bytes b),
            length-be_bytes 20 a,
            length-be_bytes 20 b,
          ) in
          let (names, rest) = append_inj q (drop (length q) (p ++ key)) p key same_length e in
          let (same, addresses) =
            append_inj verified_state_updates (address_bytes b) verified_state_updates
              (address_bytes a) refl names in
          absurd (other (sym (address_inj b a k h addresses)))
      | inr no' ↦ no'
    ]

module _ {S : Type 0} (ext : External) (db : KeyValueStore S) (Inv : S → Type 0)
    (entries : S → BTreeMap) (laws : IsStore db Inv entries)
    (prefixed : HasPrefixIteration db Inv entries) where
  -- The verified state updates of a contract stand for these ranges.
  abbrev pub Verified : ℕ → S → List Range → Type 0
  Verified address s rs =
      Represents ext.rlp (contract_bucket ext db address) Inv
        (λ t. strip (contract_name address) (entries t))
        (bucket-IsStore db Inv entries laws prefixed (contract_name address)) s rs

  pub get_verified_lem :
      (address start end : ℕ) (s : S) (rs : List Range)
      → start < 2 ^ 64
      → Verified address s rs
      → get_verified_state_updates ext db address start end s
        ≡ decoded ext.state_update_from_abi (some (ok (filter (hit start end) rs)))
  unfolding get_verified_state_updates
  get_verified_lem address start end s rs u v = ap (decoded ext.state_update_from_abi) (
      get_lem ext.rlp (contract_bucket ext db address) Inv
        (λ t. strip (contract_name address) (entries t))
        (bucket-IsStore db Inv entries laws prefixed (contract_name address)) start end s rs u v)

  pub put-Verified_own :
      (update : StateUpdate) (s : S) (rs : List Range)
      → (get_range update).start < (get_range update).end
      → (get_range update).end < 2 ^ 64
      → Verified (get_deposit_contract_address update) s rs
      → (s' : S) × (put_verified_state_update ext db update s ≡ some (ok tt, s'))
        × (rs' : List Range) × Verified (get_deposit_contract_address update) s' rs'
        × ((x : ℕ)
            → value_at x rs' ≡ (
                if leb (get_range update).start x && ltb x (get_range update).end
                then some (ext.state_update_to_abi update)
                else value_at x rs))
  unfolding put_verified_state_update
  put-Verified_own update s rs o u v =
      let p = contract_name (get_deposit_contract_address update) in
      put_lem ext.rlp (contract_bucket ext db (get_deposit_contract_address update)) Inv
        (λ t. strip p (entries t)) (bucket-IsStore db Inv entries laws prefixed p)
        (get_range update).start (get_range update).end (ext.state_update_to_abi update) s rs o u v

  pub put-Verified_other :
      (update : StateUpdate) (other : ℕ) (s s' : S) (others : List Range)
      (r : Result (Unit {0}) ErrorKind)
      → get_deposit_contract_address update < 2 ^ 160
      → other < 2 ^ 160
      → ¬ (get_deposit_contract_address update ≡ other)
      → Verified other s others
      → put_verified_state_update ext db update s ≡ some (r, s')
      → Verified other s' others
  unfolding put_verified_state_update
  put-Verified_other update other s s' others r a b differ w e =
      let kept =
        Keeps-put ext.rlp db Inv entries laws (contract_name (get_deposit_contract_address update))
          (contract_name other)
          (contracts-Apart (get_deposit_contract_address update) other a b differ)
          (get_range update).start (get_range update).end (ext.state_update_to_abi update) s s' r
          w.inv e in
      record { inv = kept.inv; same = kept.same ∙ w.same; map = w.map }

  -- Over a store that keeps the contract and whose iterations with a prefix are those of its entries: where a state
  -- update with a valid `u64` range is put, the call succeeds, and of its contract's coins exactly those of the range
  -- get the update as their value. Every read of another contract's state updates is as before; the addresses have 160
  -- bits.
  pub put_verified_state_update_lem :
      (update : StateUpdate) (other : ℕ) (s : S) (rs others : List Range)
      → (get_range update).start < (get_range update).end
      → (get_range update).end < 2 ^ 64
      → get_deposit_contract_address update < 2 ^ 160
      → other < 2 ^ 160
      → ¬ (get_deposit_contract_address update ≡ other)
      → Verified (get_deposit_contract_address update) s rs
      → Verified other s others
      → (s' : S) × (put_verified_state_update ext db update s ≡ some (ok tt, s'))
        × (rs' : List Range) × Verified (get_deposit_contract_address update) s' rs'
        × ((x : ℕ)
            → value_at x rs' ≡ (
                if leb (get_range update).start x && ltb x (get_range update).end
                then some (ext.state_update_to_abi update)
                else value_at x rs))
        × Verified other s' others
        × ((start end : ℕ)
            → start < 2 ^ 64
            → get_verified_state_updates ext db other start end s'
              ≡ get_verified_state_updates ext db other start end s)
  put_verified_state_update_lem update other s rs others o u a b differ v w =
      let (s', e, rs', v', at) = put-Verified_own update s rs o u v in
      let w' : Verified other s' others =
        put-Verified_other update other s s' others (ok tt) a b differ w e in
      (
        s',
        e,
        rs',
        v',
        at,
        w',
        λ start end h.
            get_verified_lem other start end s' others h w'
            ∙ sym (get_verified_lem other start end s others h w),
      )
