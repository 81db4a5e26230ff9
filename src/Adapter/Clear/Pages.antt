-- ===== src/Adapter/Clear/Pages.antt =====
-- adapter.mjs: the pages of `clearPlan` hold every key of the range.
use fram.Prelude.{
  ℕ, zero, suc, ◌≤◌, ◌<◌, ◌≡◌, inl, inr, refl, true, false, ◌&&◌, Option, none, some, List, [], ◌∷◌,
  ltb, ltb→lt, same_elems, same_elems_self, same_elems-eq, has, length, take, length-take,
  Bool-cases, arith, sym, ap, ◌∙◌, &&-eq-true,
}
use fram.Text.{Text}
use fram.Adapter.Storage.{Storage}
use fram.Adapter.Clear.{text_ltb, starts_with, is_after, sort, listed_keys, list}
use fram.Adapter.Clear.Order.{text_ltb-irreflexive, text_ltb_trans, text_ltb-connex}
use fram.Adapter.Clear.Sorting.{has-sort, length-sort, sort-Sorted, has-take_not_below}

unfoldable pub keys_of : Storage → List Text
keys_of [] = []
keys_of ((key, item) ∷ map) = key ∷ keys_of map

pub has-listed_keys :
    (prefix : Text) (start : Option Text) (map : Storage) (x : Text)
    → has (listed_keys prefix start map) x
      ≡ (has (keys_of map) x && (starts_with prefix x && is_after start x))
unfolding listed_keys has keys_of
has-listed_keys prefix start [] x = refl
has-listed_keys prefix start ((key, item) ∷ map) x =
    let ih = has-listed_keys prefix start map x in
    elim (Bool-cases (same_elems key x)) [
      | inl e ↦
          let same = same_elems-eq key x e in
          elim (Bool-cases (starts_with prefix x && is_after start x)) [
            | inl t ↦ rw (same, t, same_elems_self x) refl
            | inr t ↦ rw (same, t, same_elems_self x) (ih ∙ rw t (ground arith))
          ]
      | inr e ↦ elim (Bool-cases (starts_with prefix key && is_after start key)) [
        | inl t ↦ rw (t, e) ih
        | inr t ↦ rw (t, e) ih
      ]
    ]

pub is_after_trans :
    (start : Option Text) (b x : Text)
    → is_after start b ≡ true
    → text_ltb b x ≡ true
    → is_after start x ≡ true
is_after_trans none b x h h' = refl
is_after_trans (some s) b x h h' = text_ltb_trans s b x h h'

-- Fewer keys stand behind a later start.
listed_keys-le :
    (prefix : Text) (start : Option Text) (b : Text) (map : Storage)
    → is_after start b ≡ true
    → length (listed_keys prefix (some b) map) ≤ length (listed_keys prefix start map)
unfolding listed_keys
listed_keys-le prefix start b [] h = omega arith
listed_keys-le prefix start b ((key, item) ∷ map) h =
    let ih = listed_keys-le prefix start b map h in
    elim (Bool-cases (starts_with prefix key && text_ltb b key)) [
      | inl t ↦
          let (sw, lt) = &&-eq-true (starts_with prefix key) (text_ltb b key) t in
          rw (t, sw, is_after_trans start b key h lt) (omega (arith, ih))
      | inr f ↦ elim (Bool-cases (starts_with prefix key && is_after start key)) [
        | inl t ↦ rw (f, t) (omega (arith, ih))
        | inr t ↦ rw (f, t) ih
      ]
    ]

-- A key of the page is not behind it.
pub listed_keys-lt :
    (prefix : Text) (start : Option Text) (b : Text) (map : Storage)
    → is_after start b ≡ true
    → starts_with prefix b ≡ true
    → has (keys_of map) b ≡ true
    → length (listed_keys prefix (some b) map) < length (listed_keys prefix start map)
unfolding listed_keys has keys_of
listed_keys-lt prefix start b [] h hp hb = cc
listed_keys-lt prefix start b ((key, item) ∷ map) h hp hb = elim (Bool-cases (same_elems key b)) [
  | inl e ↦
      let rest = listed_keys-le prefix start b map h in
      rw (same_elems-eq key b e, hp, h, text_ltb-irreflexive b) (omega (arith, rest))
  | inr e ↦
      let ih = listed_keys-lt prefix start b map h hp (rw e at hb) in
      elim (Bool-cases (starts_with prefix key && text_ltb b key)) [
        | inl t ↦
            let (sw, lt) = &&-eq-true (starts_with prefix key) (text_ltb b key) t in
            rw (t, sw, is_after_trans start b key h lt) (omega (arith, ih))
        | inr f ↦ elim (Bool-cases (starts_with prefix key && is_after start key)) [
          | inl t ↦ rw (f, t) (omega (arith, ih))
          | inr t ↦ rw (f, t) ih
        ]
      ]
]

take_all : (n : ℕ) (keys : List Text) → length keys ≤ n → take n keys ≡ keys
unfolding take
take_all zero [] h = refl
take_all zero (k ∷ keys) h = absurd (omega arith)
take_all (suc n) [] h = refl
take_all (suc n) (k ∷ keys) h = ap (λ (r : List Text). k ∷ r) (take_all n keys (omega arith))

-- A page that is not full holds every key behind the start.
pub last_page :
    (prefix : Text) (start : Option Text) (limit : ℕ) (map : Storage) (x : Text)
    → ltb (length (sort (list prefix start limit map))) limit ≡ true
    → has (listed_keys prefix start map) x ≡ true
    → has (sort (list prefix start limit map)) x ≡ true
unfolding list
last_page prefix start limit map x short hx =
    let keys = sort (listed_keys prefix start map) in
    let sizes = length-sort (take limit keys) in
    let cut = length-take limit keys in
    let below = ltb→lt _ _ short in
    let whole = take_all limit keys (omega arith) in
    has-sort (take limit keys) x ∙ rw whole (has-sort (listed_keys prefix start map) x ∙ hx)

-- Of a full page, a key behind the start that is not on it stands behind its last.
pub full_page :
    (prefix : Text) (start : Option Text) (limit : ℕ) (map : Storage) (x b : Text)
    → has (listed_keys prefix start map) x ≡ true
    → has (sort (list prefix start limit map)) x ≡ false
    → has (sort (list prefix start limit map)) b ≡ true
    → text_ltb b x ≡ true
unfolding list
full_page prefix start limit map x b hx out hb =
    let keys = sort (listed_keys prefix start map) in
    let out' : has (take limit keys) x ≡ false = sym (has-sort (take limit keys) x) ∙ out in
    let hb' : has (take limit keys) b ≡ true = sym (has-sort (take limit keys) b) ∙ hb in
    let not_below =
      has-take_not_below limit keys x b (sort-Sorted (listed_keys prefix start map))
        (has-sort (listed_keys prefix start map) x ∙ hx) out' hb' in
    elim (Bool-cases (text_ltb b x)) [
      | inl e ↦ e
      | inr e ↦
          let same = same_elems-eq b x (text_ltb-connex b x e not_below) in
          let both = rw same at hb' in cc
    ]
