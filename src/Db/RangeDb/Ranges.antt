-- ===== src/Db/RangeDb/Ranges.antt =====
-- The list of ranges that a range database stands for, in the order of their ends: insertion,
-- removal, and the value that it gives to a coin.
use plasma_rust_framework.Db.Range.{Range, intersect}
use plasma_rust_framework.Prelude.{
  ℕ, ◌^◌, ◌≤◌, ◌<◌, compare, Ordering, ◌≡◌, refl, sym, ◌∙◌, ◌⊎◌, inl, inr, Bool, not, ◌&&◌, Option,
  none, some, List, [], ◌∷◌, arith, ltb, leb, if◌then◌else◌, lt_or_ge, filter, All,
}
use plasma_rust_framework.Prelude.Bytes.{Bytes}

unfoldable pub insert : Range → List Range → List Range
insert r [] = r ∷ []
insert r (q ∷ rs) = elim (compare r.end q.end) [
  | Ordering.lt ↦ r ∷ q ∷ rs
  | Ordering.eq ↦ r ∷ rs
  | Ordering.gt ↦ q ∷ insert r rs
]

unfoldable pub remove : ℕ → List Range → List Range
remove e [] = []
remove e (q ∷ rs) = elim (compare e q.end) [ Ordering.eq ↦ rs | _ ↦ q ∷ remove e rs ]

unfoldable pub insert_all : List Range → List Range → List Range
insert_all [] rs = rs
insert_all (r ∷ new) rs = insert_all new (insert r rs)

unfoldable pub remove_all : List Range → List Range → List Range
remove_all [] rs = rs
remove_all (r ∷ old) rs = remove_all old (remove r.end rs)

-- The loop of `get`.
unfoldable pub collect : ℕ → ℕ → List Range → List Range
collect start end [] = []
collect start end (r ∷ rs) =
    let next = collect start end rs in
    if ltb start r.end then (if intersect r start end then r ∷ next else []) else next

-- The value at a coin.
unfoldable pub value_at : ℕ → List Range → Option Bytes
value_at x [] = none
value_at x (r ∷ rs) = if leb r.start x && ltb x r.end then some r.value else value_at x rs

abbrev pub hit : ℕ → ℕ → Range → Bool
hit start end r = intersect r start end

abbrev pub miss : ℕ → ℕ → Range → Bool
miss start end r = not (intersect r start end)

abbrev pub Behind : ℕ → List Range → Type 0
Behind e rs = All (λ q. e ≤ q.start) rs

-- Valid `u64` ranges in order, none overlapping another.
abbrev pub IsRangeMap : List Range → Type 0
IsRangeMap [] = Unit
IsRangeMap (r ∷ rs) = (r.start < r.end) × (r.end < 2 ^ 64) × Behind r.end rs × IsRangeMap rs

abbrev pub Apart : Range → Range → Type 0
Apart r q = (q.end ≤ r.start) ⊎ (r.end ≤ q.start)

abbrev pub AllApart : Range → List Range → Type 0
AllApart r rs = All (Apart r) rs

-- Ranges that lie behind the end of the query are not hit.
filter_none :
    (start end : ℕ) (rs : List Range) (e : ℕ)
    → Behind e rs
    → IsRangeMap rs
    → end ≤ e
    → filter (hit start end) rs ≡ []
unfolding intersect
filter_none start end [] e b w h = refl
filter_none start end (r ∷ rs) e b w h = ground (arith, filter_none start end rs e b.1 w.3 h)

-- `get` stops early, and misses nothing.
pub collect-eq-filter :
    (start end : ℕ) (rs : List Range)
    → start < end
    → IsRangeMap rs
    → collect start end rs ≡ filter (hit start end) rs
unfolding collect intersect
collect-eq-filter start end [] h w = refl
collect-eq-filter start end (r ∷ rs) h w =
    ground (arith, collect-eq-filter start end rs h w.3, filter_none start end rs r.end w.2 w.3)

pub collect_empty : (start end : ℕ) (rs : List Range) → end ≤ start → collect start end rs ≡ []
unfolding collect intersect
collect_empty start end [] h = refl
collect_empty start end (r ∷ rs) h = ground (arith, collect_empty start end rs h)

filter_empty_query :
    (start end : ℕ) (rs : List Range) → end ≤ start → filter (hit start end) rs ≡ []
unfolding intersect
filter_empty_query start end [] h = refl
filter_empty_query start end (r ∷ rs) h = ground (arith, filter_empty_query start end rs h)

pub collect_any :
    (start end : ℕ) (rs : List Range)
    → IsRangeMap rs
    → collect start end rs ≡ filter (hit start end) rs
collect_any start end rs w = elim (lt_or_ge start end) [
  | inl h ↦ collect-eq-filter start end rs h w
  | inr h ↦ collect_empty start end rs h ∙ sym (filter_empty_query start end rs h)
]
