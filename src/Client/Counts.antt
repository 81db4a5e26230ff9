-- ===== src/Client/Counts.antt =====
-- framrpc-core.mjs: the budget of `validateTerm`, and that a Term that passes it can be written.
use fram.Prelude.{
  ℕ, ◌+◌, ◌≤◌, ◌≡◌, refl, max, List, ◌∷◌, ◌++◌, length, if◌then◌else◌, arith, ok, >>=-eq-ok, ◌∙◌,
  pos,
}
use fram.Text.{Text}
use fram.Client.Term.{
  Term, string, integer, float64, boolean, keyword, instant, triple, malformed, Budget,
  max_term_depth, max_term_nodes, max_string_bytes, max_nanos, i64_min, i64_max, enter, decimal,
  strict_utf8, canonical_float_bits, keyword_term, validate_term,
}
use fram.Text.Numeral.{hex_int}
use fram.Client.Bytes.{u8, i64, u64, to_u64, write_text, write_term_unchecked, write_term, u32}
use fram.Client.Decimal.{decimal-eq-ok}
use fram.Client.Atoms.{checked}

-- The Terms in a Term, itself included, and how deep they stand.
unfoldable pub size : Term → ℕ
size (triple t1 t2 t3) = 1 + (size t1 + (size t2 + size t3))
size _ = 1

unfoldable pub height : Term → ℕ
height (triple t1 t2 t3) = 1 + max (height t1) (max (height t2) (height t3))
height _ = 0

-- A budget after a Term of a size and a height at a depth.
pub record Counts (size height depth : ℕ) (budget budget' : Budget) : Type 0 where
  pub nodes : budget'.nodes ≡ budget.nodes + size
  pub deepest : budget'.max_depth ≡ max budget.max_depth (depth + height)
  pub in_depth : depth + height ≤ max_term_depth
  pub in_nodes : budget'.nodes ≤ max_term_nodes

enter-Counts :
    (depth : ℕ) (budget budget' : Budget)
    → enter depth budget ≡ ok budget'
    → Counts 1 0 depth budget budget'
unfolding enter
enter-Counts depth budget budget' e = ground arith

-- Where `validateTerm` of a Term at a depth ends well, the budget has grown by the number of Terms
-- in it, which stays within the limit of nodes, the deepest Term stays within the limit of depth,
-- and the budget's depth is the greatest that was met.
pub validate_term-Counts :
    (t : Term) (depth : ℕ) (budget budget' : Budget)
    → validate_term t depth budget ≡ ok budget'
    → Counts (size t) (height t) depth budget budget'
unfolding validate_term size height
validate_term-Counts (string value) depth budget budget' e =
    enter-Counts depth budget budget'
      (checked (enter depth budget) (strict_utf8 value max_string_bytes) budget' e).0
validate_term-Counts (integer value) depth budget budget' e =
    enter-Counts depth budget budget'
      (checked (enter depth budget) (decimal i64_min i64_max value) budget' e).0
validate_term-Counts (float64 bits) depth budget budget' e =
    enter-Counts depth budget budget'
      (checked (enter depth budget) (canonical_float_bits bits) budget' e).0
validate_term-Counts (boolean value) depth budget budget' e = enter-Counts depth budget budget' e
validate_term-Counts (keyword value) depth budget budget' e =
    enter-Counts depth budget budget'
      (checked (enter depth budget) (keyword_term value) budget' e).0
validate_term-Counts (instant seconds nanos) depth budget budget' e =
    let (b0, he, e1) = >>=-eq-ok (enter depth budget) _ e in
    let (_, _, e2) = >>=-eq-ok (decimal i64_min i64_max seconds) _ e1 in
    let (_, _, same) = >>=-eq-ok (decimal (pos 0) max_nanos nanos) _ e2 in
    enter-Counts depth budget budget' (he ∙ same)
validate_term-Counts (triple t1 t2 t3) depth budget budget' e =
    let (b0, he, e1) = >>=-eq-ok (enter depth budget) _ e in
    let (b1, v1, e2) = >>=-eq-ok (validate_term t1 (depth + 1) b0) _ e1 in
    let (b2, v2, v3) = >>=-eq-ok (validate_term t2 (depth + 1) b1) _ e2 in
    omega (
      arith,
      enter-Counts depth budget b0 he,
      validate_term-Counts t1 (depth + 1) b0 b1 v1,
      validate_term-Counts t2 (depth + 1) b1 b2 v2,
      validate_term-Counts t3 (depth + 1) b2 budget' v3,
    )
validate_term-Counts (malformed code) depth budget budget' e =
    let (b0, he, e1) = >>=-eq-ok (enter depth budget) _ e in cc e1

write_text-ok :
    (t : Text) (bytes : List ℕ)
    → strict_utf8 t max_string_bytes ≡ ok bytes
    → (w : List ℕ) × (write_text t max_string_bytes ≡ ok w)
unfolding write_text
write_text-ok t bytes e = (u32 (length bytes) ++ bytes, rw e)

-- The writer stops at no Term that passed the checks: its own checks never fail.
written_of_valid :
    (t : Term) (depth : ℕ) (budget budget' : Budget)
    → validate_term t depth budget ≡ ok budget'
    → (w : List ℕ) × (write_term_unchecked t ≡ ok w)
unfolding validate_term write_term_unchecked keyword_term
written_of_valid (string value) depth budget budget' e =
    let (_, (bytes, hs)) =
      checked (enter depth budget) (strict_utf8 value max_string_bytes) budget' e in
    let (w, hw) = write_text-ok value bytes hs in (1 ∷ w, rw hw)
written_of_valid (integer value) depth budget budget' e =
    let (_, (digits, hd)) =
      checked (enter depth budget) (decimal i64_min i64_max value) budget' e in
    let a = decimal-eq-ok i64_min i64_max value digits hd in (2 ∷ i64 a.int, rw a.stands)
written_of_valid (float64 bits) depth budget budget' e = (3 ∷ u64 (hex_int bits), refl)
written_of_valid (boolean value) depth budget budget' e = (u8 (if value then 5 else 4), refl)
written_of_valid (keyword value) depth budget budget' e =
    let (_, (t, hk)) = checked (enter depth budget) (keyword_term value) budget' e in
    let (bytes, hs, _) = >>=-eq-ok (strict_utf8 value max_string_bytes) _ hk in
    let (w, hw) = write_text-ok value bytes hs in (6 ∷ w, rw hw)
written_of_valid (instant seconds nanos) depth budget budget' e =
    let (b0, he, e1) = >>=-eq-ok (enter depth budget) _ e in
    let (ds, hs, e2) = >>=-eq-ok (decimal i64_min i64_max seconds) _ e1 in
    let (dn, hn, same) = >>=-eq-ok (decimal (pos 0) max_nanos nanos) _ e2 in
    let a = decimal-eq-ok i64_min i64_max seconds ds hs in
    let b = decimal-eq-ok (pos 0) max_nanos nanos dn hn in
    (8 ∷ (i64 a.int ++ u32 (to_u64 b.int)), rw (a.stands, b.stands))
written_of_valid (triple t1 t2 t3) depth budget budget' e =
    let (b0, he, e1) = >>=-eq-ok (enter depth budget) _ e in
    let (b1, v1, e2) = >>=-eq-ok (validate_term t1 (depth + 1) b0) _ e1 in
    let (b2, v2, v3) = >>=-eq-ok (validate_term t2 (depth + 1) b1) _ e2 in
    let (w1, h1) = written_of_valid t1 (depth + 1) b0 b1 v1 in
    let (w2, h2) = written_of_valid t2 (depth + 1) b1 b2 v2 in
    let (w3, h3) = written_of_valid t3 (depth + 1) b2 budget' v3 in
    (7 ∷ (w1 ++ (w2 ++ w3)), rw (h1, h2, h3))
written_of_valid (malformed code) depth budget budget' e =
    let (b0, he, e1) = >>=-eq-ok (enter depth budget) _ e in cc e1

-- `writeTerm` writes every Term that `validateTerm` accepts, and ends with the same budget.
pub write_term-total :
    (t : Term) (budget budget' : Budget)
    → validate_term t 0 budget ≡ ok budget'
    → (w : List ℕ) × (write_term t budget ≡ ok (w, budget'))
unfolding write_term
write_term-total t budget budget' e =
    let (w, hw) = written_of_valid t 0 budget budget' e in (w, rw (e, hw))
