-- ===== src/Clients/PlasmaClient/Updates.antt =====
-- The state updates of a block in the state database (clients/src/plasma/plasma_client.rs, `update_state_updates`).
use plasma_rust_framework.Prelude.{
  ℕ, ◌^◌, ◌<◌, ◌≡◌, refl, ap, ◌∙◌, subst, inl, inr, Bool, ◌&&◌, Option, some, List, [], ◌∷◌, arith,
  ltb, leb, ◌==◌, if◌then◌else◌, Bool-cases, All,
}
use plasma_rust_framework.Prelude.Bytes.{Bytes}
use plasma_rust_framework.Prelude.Result.{ok}
use plasma_rust_framework.Db.BTreeMap.{BTreeMap}
use plasma_rust_framework.Db.Kvs.{KeyValueStore}
use plasma_rust_framework.Db.Range.{Range}
use plasma_rust_framework.Db.Store.{IsStore, HasPrefixIteration}
use plasma_rust_framework.Db.RangeDb.Ranges.{value_at}
use plasma_rust_framework.Ovm.Types.{StateUpdate, get_range, get_deposit_contract_address}
use plasma_rust_framework.Ovm.External.{External}
use plasma_rust_framework.Clients.StateDb.{put_verified_state_update}
use plasma_rust_framework.Clients.StateDb.Contracts.{Verified, put-Verified_own, put-Verified_other}
use plasma_rust_framework.Clients.PlasmaClient.NewBlock.{update_state_updates}

-- A valid `u64` range, and an address of 160 bits.
abbrev pub IsValid : StateUpdate → Type 0
IsValid u =
    ((get_range u).start < (get_range u).end)
    × ((get_range u).end < 2 ^ 64)
    × (get_deposit_contract_address u < 2 ^ 160)

abbrev pub covers : StateUpdate → ℕ → ℕ → Bool
covers u contract coin =
    get_deposit_contract_address u == contract
    && (leb (get_range u).start coin && ltb coin (get_range u).end)

-- What the coin of a contract holds after the state updates: the last one that covers it.
unfoldable pub coin_after :
    (StateUpdate → Bytes) → ℕ → ℕ → List StateUpdate → Option Bytes → Option Bytes
coin_after to_abi contract coin [] held = held
coin_after to_abi contract coin (u ∷ us) held =
    coin_after to_abi contract coin us (if covers u contract coin then some (to_abi u) else held)

-- One contract's ranges replaced.
abbrev replaced : ℕ → List Range → (ℕ → List Range) → ℕ → List Range
replaced contract rs all a = if contract == a then rs else all a

module _ {S : Type 0} (ext : External) (kvs : KeyValueStore S) (Inv : S → Type 0)
    (entries : S → BTreeMap) (laws : IsStore kvs Inv entries)
    (prefixed : HasPrefixIteration kvs Inv entries) where
  -- The verified state updates of every contract.
  abbrev pub Contracts : S → (ℕ → List Range) → Type 0
  Contracts s all = (a : ℕ) → a < 2 ^ 160 → Verified ext kvs Inv entries laws prefixed a s (all a)

  one_update :
      (u : StateUpdate) (s : S) (all : ℕ → List Range)
      → IsValid u
      → Contracts s all
      → (s' : S) × (put_verified_state_update ext kvs u s ≡ some (ok tt, s'))
        × (all' : ℕ → List Range) × Contracts s' all'
        × ((contract coin : ℕ)
            → value_at coin (all' contract) ≡ (
                if covers u contract coin
                then some (ext.state_update_to_abi u)
                else value_at coin (all contract)))
  one_update u s all (o, h, a) v =
      let own = get_deposit_contract_address u in
      let (s', e, rs, w, at) =
        put-Verified_own ext kvs Inv entries laws prefixed u s (all own) o h (v own a) in
      (
        s',
        e,
        replaced own rs all,
        λ b k. elim (Bool-cases (own == b)) [
          | inl t ↦ rw t (
              subst (λ c. Verified ext kvs Inv entries laws prefixed c s' rs) (ground (arith, t)) w)
          | inr f ↦ rw f (
              put-Verified_other ext kvs Inv entries laws prefixed u b s s' (all b) (ok tt) a k
                (λ same. ground (arith, f, same)) (v b k) e)
        ],
        λ contract coin. elim (Bool-cases (own == contract)) [
          | inl t ↦ rw t (
              at coin
              ∙ ap
                  (λ c.
                    if leb (get_range u).start coin && ltb coin (get_range u).end
                    then some (ext.state_update_to_abi u)
                    else value_at coin (all c))
                  (ground (arith, t)))
          | inr f ↦ rw f refl
        ],
      )

  -- Over a store that keeps the contract and whose iterations with a prefix are those of its entries: for state updates
  -- with valid `u64` ranges and addresses of 160 bits, `update_state_updates` succeeds, and each coin of each contract
  -- then holds the last of the state updates that covers it, or what it held before where none does.
  pub update_state_updates_lem :
      (us : List StateUpdate) (s : S) (all : ℕ → List Range)
      → All IsValid us
      → Contracts s all
      → (s' : S) × (update_state_updates ext kvs us s ≡ some s')
        × (all' : ℕ → List Range) × Contracts s' all'
        × ((contract coin : ℕ)
            → value_at coin (all' contract)
              ≡ coin_after ext.state_update_to_abi contract coin us (value_at coin (all contract)))
  unfolding update_state_updates coin_after
  update_state_updates_lem [] s all a v = (s, refl, all, v, λ contract coin. refl)
  update_state_updates_lem (u ∷ us) s all (h, a) v =
      let (s1, e1, all1, v1, at1) = one_update u s all h v in
      let (s2, e2, all2, v2, at2) = update_state_updates_lem us s1 all1 a v1 in
      (
        s2,
        rw (e1, update_state_updates) e2,
        all2,
        v2,
        λ contract coin.
            at2 contract coin
            ∙ ap (coin_after ext.state_update_to_abi contract coin us) (at1 contract coin),
      )
