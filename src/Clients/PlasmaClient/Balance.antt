-- ===== src/Clients/PlasmaClient/Balance.antt =====
-- What a client reads off its verified state updates (clients/src/plasma/plasma_client.rs).
use plasma_rust_framework.Prelude.{
  ℕ, ◌+◌, ◌-◌, ◌%◌, ◌^◌, ◌≤◌, ◌<◌, ◌≡◌, refl, ap, ◌∙◌, inl, inr, Bool, Option, none, some, List, [],
  ◌∷◌, arith, leb, ◌==◌, if◌then◌else◌, Bool-cases, All, Any,
}
use plasma_rust_framework.Prelude.Result.{ok}
use plasma_rust_framework.PlasmaCore.Range as Coins
use plasma_rust_framework.Db.BTreeMap.{BTreeMap}
use plasma_rust_framework.Db.Kvs.{KeyValueStore}
use plasma_rust_framework.Db.Range.{Range}
use plasma_rust_framework.Db.Store.{IsStore, HasPrefixIteration}
use plasma_rust_framework.Ovm.Types.{StateUpdate, get_range, get_deposit_contract_address}
use plasma_rust_framework.Ovm.External.{External}
use plasma_rust_framework.Clients.Types.{min_range, max_range}
use plasma_rust_framework.Clients.StateDb.{get_verified_state_updates, decoded}
use plasma_rust_framework.Clients.StateDb.Contracts.{Verified, get_verified_lem}
use plasma_rust_framework.Clients.BlockDb.{decode_values}
use plasma_rust_framework.Clients.BlockManager.Queue.{hit_every}
use plasma_rust_framework.Clients.PlasmaClient.{
  PlasmaClient, is_owned, balance_of, credited, balances, find_range, get_state_updates,
  search_range,
}

-- A `u64` range whose start is not above the end.
abbrev pub Spans : StateUpdate → Type 0
Spans u = ((get_range u).start ≤ (get_range u).end) × ((get_range u).end < 2 ^ 64)

abbrev pub amount_of : StateUpdate → ℕ
amount_of u = (get_range u).end - (get_range u).start

-- The coins of the owned state updates of a contract.
unfoldable pub owned_coins : (StateUpdate → Bool) → ℕ → List StateUpdate → ℕ
owned_coins owned contract [] = 0
owned_coins owned contract (u ∷ us) =
    if owned u
    then (if get_deposit_contract_address u == contract then amount_of u else 0)
      + owned_coins owned contract us
    else owned_coins owned contract us

wrapped :
    (b start end : ℕ)
    → start ≤ end
    → (b + end + 2 ^ 64 - start) % 2 ^ 64 ≡ (b + (end - start)) % 2 ^ 64
wrapped b start end h = omega arith

balance_of-credited :
    (u : StateUpdate) (acc : List (ℕ × ℕ)) (contract : ℕ)
    → Spans u
    → balance_of contract acc < 2 ^ 64
    → balance_of contract (credited u acc)
      ≡ (balance_of contract acc
          + (if get_deposit_contract_address u == contract then amount_of u else 0))
        % 2 ^ 64
unfolding balance_of
balance_of-credited u acc contract (o, v) h =
    elim (Bool-cases (get_deposit_contract_address u == contract)) [
      | inl t ↦ rw t (
          wrapped (balance_of (get_deposit_contract_address u) acc) (get_range u).start
            (get_range u).end o
          ∙ ap (λ c. (balance_of c acc + amount_of u) % 2 ^ 64) (ground (arith, t)))
      | inr f ↦ rw f (omega (arith, h))
    ]

-- For state updates with `u64` ranges and a state object of which `is_owned` tells whether the address owns it, the fold
-- of `get_balance` succeeds, and the balance of each contract is the number of the coins of the owned state updates,
-- modulo 2^64.
pub balances_lem :
    (my_address : ℕ) (owned : StateUpdate → Bool) (us : List StateUpdate) (acc : List (ℕ × ℕ))
    → All (λ (u : StateUpdate). (is_owned my_address u ≡ some (owned u)) × Spans u) us
    → ((contract : ℕ) → balance_of contract acc < 2 ^ 64)
    → (bs : List (ℕ × ℕ)) × (balances my_address us acc ≡ some bs)
      × ((contract : ℕ)
          → balance_of contract bs
            ≡ (balance_of contract acc + owned_coins owned contract us) % 2 ^ 64)
unfolding balances owned_coins balance_of
balances_lem my_address owned [] acc a h = (acc, refl, λ contract. ground (arith, h contract))
balances_lem my_address owned (u ∷ us) acc ((e, spans), a) h = elim (Bool-cases (owned u)) [
  | inr f ↦
      let (bs, e', k) = balances_lem my_address owned us acc a h in
      (bs, rw (e, f, balances) e', λ contract. k contract ∙ rw (f, owned_coins) refl)
  | inl t ↦
      let low : (contract : ℕ) → balance_of contract (credited u acc) < 2 ^ 64 =
        λ contract. omega (arith, balance_of-credited u acc contract spans (h contract)) in
      let (bs, e', k) = balances_lem my_address owned us (credited u acc) a low in
      (
        bs,
        rw (e, t, balances) e',
        λ contract.
            k contract
            ∙ ap (λ b. (b + owned_coins owned contract us) % 2 ^ 64)
                (balance_of-credited u acc contract spans (h contract))
            ∙ rw (t, owned_coins) (omega arith),
      )
]

-- A range that is found is that of one of the state updates and has enough coins; where none is found, none has.
abbrev pub Found : ℕ → List StateUpdate → Option Coins.Range → Type 0
Found amount us none = All (λ (u : StateUpdate). amount_of u < amount) us
Found amount us (some r) =
    Any (λ (u : StateUpdate). get_range u ≡ r) us × (amount ≤ r.end - r.start)

Found-later :
    (amount : ℕ) (u : StateUpdate) (us : List StateUpdate) (o : Option Coins.Range)
    → amount_of u < amount
    → Found amount us o
    → Found amount (u ∷ us) o
Found-later amount u us none h a = (h, a)
Found-later amount u us (some r) h (a, enough) = (inr a, enough)

find_range-Found :
    (amount : ℕ) (us : List StateUpdate) → All Spans us → Found amount us (find_range amount us)
unfolding find_range
find_range-Found amount [] a = tt
find_range-Found amount (u ∷ us) ((o, v), a) =
    elim (Bool-cases (leb amount (((get_range u).end + 2 ^ 64 - (get_range u).start) % 2 ^ 64))) [
      | inl t ↦ rw t (inl refl, ground (arith, o, v, t))
      | inr f ↦ rw f (
          Found-later amount u us (find_range amount us) (ground (arith, o, v, f))
            (find_range-Found amount us a))
    ]

module _ {S : Type 0} (ext : External) (kvs : KeyValueStore S) (Inv : S → Type 0)
    (entries : S → BTreeMap) (laws : IsStore kvs Inv entries)
    (prefixed : HasPrefixIteration kvs Inv entries) where
  -- Over a store that keeps the contract and whose iterations with a prefix are those of its entries: where the verified
  -- ranges of a contract decode to state updates with `u64` ranges, `search_range` succeeds. A range that it returns is
  -- that of one of them and has the amount asked for, and where it returns none, none of them has.
  pub search_range_lem :
      (contract amount : ℕ) (self : PlasmaClient S) (rs : List Range) (us : List StateUpdate)
      → Verified ext kvs Inv entries laws prefixed contract self.range_db rs
      → decode_values ext.state_update_from_abi rs ≡ some us
      → All Spans us
      → (o : Option Coins.Range) × (search_range ext kvs contract amount self ≡ some o)
        × Found amount us o
  unfolding search_range get_state_updates
  search_range_lem contract amount self rs us v d a =
      let read : get_verified_state_updates ext kvs contract min_range max_range self.range_db
          ≡ some (ok us) =
        get_verified_lem ext kvs Inv entries laws prefixed contract min_range max_range
          self.range_db rs (omega arith) v
        ∙ ap (λ (l : List Range). decoded ext.state_update_from_abi (some (ok l)))
            (hit_every rs v.map)
        ∙ rw (d, decoded) refl in
      (
        find_range amount us,
        rw (read, get_state_updates, search_range) refl,
        find_range-Found amount us a,
      )
