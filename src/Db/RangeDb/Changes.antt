-- ===== src/Db/RangeDb/Changes.antt =====
-- Insertion and removal keep a range map in order, and change the value of the coins concerned only.
use plasma_rust_framework.Prelude.{
  ℕ, ◌^◌, ◌≤◌, ◌<◌, ◌≡◌, refl, ap, ◌∙◌, inl, inr, Bool, true, ◌&&◌, Option, none, some, List, [],
  ◌∷◌, arith, ltb, leb, if◌then◌else◌, Bool-cases, filter, All, All-filter, All-imp,
}
use plasma_rust_framework.Prelude.Bytes.{Bytes}
use plasma_rust_framework.Db.Range.{Range, intersect}
use plasma_rust_framework.Db.RangeDb.Ranges.{
  insert, remove, insert_all, remove_all, value_at, hit, miss, Behind, IsRangeMap, Apart, AllApart,
}

insert-All {κ} :
    (P : Range → Type κ) (r : Range) (rs : List Range) → P r → All P rs → All P (insert r rs)
unfolding insert
insert-All P r [] p a = (p, tt)
insert-All P r (q ∷ rs) p a = ground (arith, insert-All P r rs p a.1)

Behind-trans : (d e : ℕ) (rs : List Range) → d ≤ e → Behind e rs → Behind d rs
Behind-trans d e rs h b = All-imp (λ q p. omega arith) rs b

pub insert-IsRangeMap :
    (r : Range) (rs : List Range)
    → r.start < r.end
    → r.end < 2 ^ 64
    → AllApart r rs
    → IsRangeMap rs
    → IsRangeMap (insert r rs)
unfolding insert
insert-IsRangeMap r [] v u a w = (v, u, tt, tt)
insert-IsRangeMap r (q ∷ rs) v u a w = ground (
  arith,
  insert-IsRangeMap r rs v u a.1 w.3,
  insert-All (λ p. q.end ≤ p.start) r rs,
  Behind-trans r.end q.end rs,
)

-- An inserted range gives its value to its coins, and leaves the others as they were.
pub value_at-insert :
    (x : ℕ) (r : Range) (rs : List Range)
    → r.start < r.end
    → AllApart r rs
    → IsRangeMap rs
    → value_at x (insert r rs)
      ≡ (if leb r.start x && ltb x r.end then some r.value else value_at x rs)
unfolding insert value_at
value_at-insert x r [] v a w = refl
value_at-insert x r (q ∷ rs) v a w = ground (arith, value_at-insert x r rs v a.1 w.3)

remove_all_skip :
    (r : Range) (old rs : List Range)
    → r.start < r.end
    → IsRangeMap old
    → Behind r.end old
    → remove_all old (r ∷ rs) ≡ r ∷ remove_all old rs
unfolding remove_all remove
remove_all_skip r [] rs v w b = refl
remove_all_skip r (q ∷ old) rs v w b =
    ground (arith, remove_all_skip r old (remove q.end rs) v w.3 b.1)

pub filter-IsRangeMap :
    (p : Range → Bool) (rs : List Range) → IsRangeMap rs → IsRangeMap (filter p rs)
filter-IsRangeMap p [] w = tt
filter-IsRangeMap p (r ∷ rs) w =
    ground (arith, filter-IsRangeMap p rs w.3, All-filter (λ (q : Range). r.end ≤ q.start) p rs w.2)

remove_self : (r : Range) (rs old : List Range) → remove_all (r ∷ old) (r ∷ rs) ≡ remove_all old rs
unfolding remove_all remove
remove_self r rs old = ground arith

-- Deleting the ranges that a query hits leaves exactly those that it misses.
pub remove_all-hits :
    (start end : ℕ) (rs : List Range)
    → IsRangeMap rs
    → remove_all (filter (hit start end) rs) rs ≡ filter (miss start end) rs
unfolding remove_all
remove_all-hits start end [] w = refl
remove_all-hits start end (r ∷ rs) w = elim (Bool-cases (intersect r start end)) [
  | inl t ↦ rw t (remove_self r rs (filter (hit start end) rs) ∙ remove_all-hits start end rs w.3)
  | inr f ↦ rw f (
      remove_all_skip r (filter (hit start end) rs) rs w.0
        (filter-IsRangeMap (hit start end) rs w.3)
        (All-filter (λ (q : Range). r.end ≤ q.start) (hit start end) rs w.2)
      ∙ ap (λ (l : List Range). r ∷ l) (remove_all-hits start end rs w.3))
]

insert-AllApart :
    (r q : Range) (rs : List Range) → Apart r q → AllApart r rs → AllApart r (insert q rs)
insert-AllApart r q rs p a = insert-All (Apart r) q rs p a

-- Ranges to be inserted: valid, apart from one another and from what is there.
abbrev pub Fresh : List Range → List Range → Type 0
Fresh [] rs = Unit
Fresh (r ∷ new) rs =
    (r.start < r.end) × (r.end < 2 ^ 64) × AllApart r rs × AllApart r new × Fresh new rs

Apart-sym : (r q : Range) → Apart r q → Apart q r
Apart-sym r q (inl p) = inr p
Apart-sym r q (inr p) = inl p

Fresh-insert :
    (r : Range) (new rs : List Range) → AllApart r new → Fresh new rs → Fresh new (insert r rs)
Fresh-insert r [] rs a f = tt
Fresh-insert r (q ∷ new) rs a f =
    (f.0, f.1, insert-AllApart q r rs (Apart-sym r q a.0) f.2, f.3, Fresh-insert r new rs a.1 f.4)

pub insert_all-IsRangeMap :
    (new rs : List Range) → Fresh new rs → IsRangeMap rs → IsRangeMap (insert_all new rs)
unfolding insert_all
insert_all-IsRangeMap [] rs f w = w
insert_all-IsRangeMap (r ∷ new) rs f w =
    insert_all-IsRangeMap new (insert r rs) (Fresh-insert r new rs f.3 f.4)
      (insert-IsRangeMap r rs f.0 f.1 f.2 w)

value_at_outside :
    (x : ℕ) (r : Range) (rs : List Range)
    → AllApart r rs
    → (leb r.start x && ltb x r.end) ≡ true
    → value_at x rs ≡ none
unfolding value_at
value_at_outside x r [] a h = refl
value_at_outside x r (q ∷ rs) a h = ground (arith, value_at_outside x r rs a.1 h)

abbrev pub or_else : Option Bytes → Option Bytes → Option Bytes
or_else none y = y
or_else (some v) y = some v

-- After the insertions a coin has the value that a new range gives it, and else its old value.
pub value_at-insert_all :
    (x : ℕ) (new rs : List Range)
    → Fresh new rs
    → IsRangeMap rs
    → value_at x (insert_all new rs) ≡ or_else (value_at x new) (value_at x rs)
unfolding insert_all value_at
value_at-insert_all x [] rs f w = refl
value_at-insert_all x (r ∷ new) rs f w = ground (
  arith,
  value_at-insert_all x new (insert r rs) (Fresh-insert r new rs f.3 f.4)
      (insert-IsRangeMap r rs f.0 f.1 f.2 w),
  value_at-insert x r rs f.0 f.2 w,
  value_at_outside x r new f.3,
)
