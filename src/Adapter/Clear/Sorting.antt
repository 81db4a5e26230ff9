-- ===== src/Adapter/Clear/Sorting.antt =====
-- What `sort` leaves of a list of strings.
use fram.Prelude.{
  ℕ, zero, suc, ◌≡◌, inl, inr, refl, true, false, ◌||◌, Option, some, List, [], ◌∷◌, same_elems,
  same_elems_self, same_elems-eq, has, length, take, All, Bool-cases, arith, ap, ◌∙◌,
}
use fram.Text.{Text}
use fram.Adapter.Clear.{text_ltb, insert, sort, last_of}
use fram.Adapter.Clear.Order.{text_ltb-asym, not_ltb_trans}

-- No string of the list stands below one before it.
abbrev IsNotBelow : Text → Text → Type 0
IsNotBelow s t = text_ltb t s ≡ false

abbrev pub Sorted : List Text → Type 0
Sorted [] = Unit {0}
Sorted (s ∷ texts) = All (IsNotBelow s) texts × Sorted texts

pub has-insert :
    (key x : Text) (keys : List Text) → has (insert key keys) x ≡ (same_elems key x || has keys x)
unfolding insert has
has-insert key x [] = refl
has-insert key x (k ∷ keys) = ground (arith, has-insert key x keys)

pub has-sort : (keys : List Text) (x : Text) → has (sort keys) x ≡ has keys x
unfolding sort has
has-sort [] x = refl
has-sort (key ∷ keys) x = has-insert key x (sort keys) ∙ rw (has-sort keys x) refl

length-insert : (key : Text) (keys : List Text) → length (insert key keys) ≡ suc (length keys)
unfolding insert
length-insert key [] = refl
length-insert key (k ∷ keys) = elim (Bool-cases (text_ltb k key)) [
  | inl e ↦ rw e (ap suc (length-insert key keys))
  | inr e ↦ rw e refl
]

pub length-sort : (keys : List Text) → length (sort keys) ≡ length keys
unfolding sort
length-sort [] = refl
length-sort (key ∷ keys) = length-insert key (sort keys) ∙ ap suc (length-sort keys)

All-insert :
    (P : Text → Type 0) (key : Text) (keys : List Text)
    → P key
    → All P keys
    → All P (insert key keys)
unfolding insert
All-insert P key [] h all = (h, tt)
All-insert P key (k ∷ keys) h (first, all) = elim (Bool-cases (text_ltb k key)) [
  | inl e ↦ rw e (first, All-insert P key keys h all)
  | inr e ↦ rw e (h, (first, all))
]

All-weaken :
    (key k : Text) (keys : List Text)
    → text_ltb k key ≡ false
    → All (IsNotBelow k) keys
    → All (IsNotBelow key) keys
All-weaken key k [] h all = tt
All-weaken key k (s ∷ keys) h (first, all) =
    (not_ltb_trans s k key first h, All-weaken key k keys h all)

insert-Sorted : (key : Text) (keys : List Text) → Sorted keys → Sorted (insert key keys)
unfolding insert
insert-Sorted key [] sorted = (tt, tt)
insert-Sorted key (k ∷ keys) (first, sorted) = elim (Bool-cases (text_ltb k key)) [
  | inl e ↦ rw e (
    All-insert (IsNotBelow k) key keys (text_ltb-asym k key e) first,
    insert-Sorted key keys sorted,
  )
  | inr e ↦ rw e ((e, All-weaken key k keys e first), (first, sorted))
]

pub sort-Sorted : (keys : List Text) → Sorted (sort keys)
unfolding sort
sort-Sorted [] = tt
sort-Sorted (key ∷ keys) = insert-Sorted key (sort keys) (sort-Sorted keys)

has-All_not_below :
    (s x : Text) (keys : List Text)
    → All (IsNotBelow s) keys
    → has keys x ≡ true
    → text_ltb x s ≡ false
unfolding has
has-All_not_below s x [] all h = cc
has-All_not_below s x (k ∷ keys) (first, all) h = elim (Bool-cases (same_elems k x)) [
  | inl e ↦ rw (← same_elems-eq k x e) first
  | inr e ↦ has-All_not_below s x keys all (rw e at h)
]

-- What is left behind a page of a sorted list stands below none of the page.
pub has-take_not_below :
    (n : ℕ) (keys : List Text) (x b : Text)
    → Sorted keys
    → has keys x ≡ true
    → has (take n keys) x ≡ false
    → has (take n keys) b ≡ true
    → text_ltb x b ≡ false
unfolding has take
has-take_not_below zero keys x b sorted hx out hb = cc
has-take_not_below (suc n) [] x b sorted hx out hb = cc
has-take_not_below (suc n) (k ∷ keys) x b (first, sorted) hx out hb =
    elim (Bool-cases (same_elems k x)) [
      | inl e ↦ let out' = rw e at out in cc
      | inr e ↦
          let inside = rw e at hx in
          let outside = rw e at out in
          elim (Bool-cases (same_elems k b)) [
            | inl e' ↦ rw (← same_elems-eq k b e') (has-All_not_below k x keys first inside)
            | inr e' ↦ has-take_not_below n keys x b sorted inside outside (rw e' at hb)
          ]
    ]

-- The last string of a list that is not empty.
pub last_of-has :
    (start : Option Text) (key : Text) (keys : List Text)
    → (b : Text) × (last_of start (key ∷ keys) ≡ some b) × (has (key ∷ keys) b ≡ true)
unfolding last_of has
last_of-has start key [] = (key, refl, rw (same_elems_self key) refl)
last_of-has start key (k ∷ keys) =
    let (b, last, inside) = last_of-has (some key) k keys in
    (b, last, let i : (same_elems k b || has keys b) ≡ true = inside in ground arith)
