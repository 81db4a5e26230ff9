-- ===== src/Client/Results/Occurrences.antt =====
-- framrpc-core.mjs: the coordinates in the results of a mutation.
use fram.Prelude.{
  ℕ, ◌≡◌, refl, sym, ap, ◌∙◌, true, false, not, not-eq-true, ◌&&◌, &&-eq-true, List, [], ◌∷◌, All,
  same_elems-eq, ℤ, pos, negsuc, leb_ℤ, ◌≤ℤ◌, leb→le, ok, require, require-eq-ok, >>=-eq-ok,
  ok-injective, arith,
}
use mathlib.Core.Path.{subst}
use fram.Text.{Text, codes}
use fram.Text.Numeral.{is_empty}
use fram.Client.Codes.{invalid_occurrence, integer_range}
use fram.Client.Term.{
  Scalar, Term, string, integer, float64, boolean, keyword, instant, triple, malformed,
}
use fram.Client.Bytes.{scalar_int}
use fram.Client.Records.{string_value, bool_value, is_keyword, raw_list_values, raw_record_fields}
use fram.Client.Results.{
  int_value, map_values, field_at, transaction_coordinate, occurrence_coordinate, ActionResult,
  max_safe_integer, action_result, mutation_result,
}

-- A transaction of a named space, by its sequence number.
pub data IsTransaction (t : Term) : Type 0 where
  transaction :
      (space : Text) (sequence : Scalar) (n : ℕ)
      → is_empty space ≡ false
      → scalar_int sequence ≡ ok (pos n)
      → t ≡ triple (string space) (keyword (codes "kernel/tx-sequence")) (integer sequence)
      → IsTransaction t

-- An operation of a transaction, by its ordinal.
pub data IsOccurrence (t : Term) : Type 0 where
  occurrence :
      (subject : Term) (ordinal : Scalar) (n : ℕ)
      → IsTransaction subject
      → scalar_int ordinal ≡ ok (pos n)
      → t ≡ triple subject (keyword (codes "kernel/op-ordinal")) (integer ordinal)
      → IsOccurrence t

string_value-eq-ok : (t : Term) (s : Text) → string_value t ≡ ok s → t ≡ string s
unfolding string_value
string_value-eq-ok (string value) s e = ap string (ok-injective e)
string_value-eq-ok (integer value) s e = cc
string_value-eq-ok (float64 bits) s e = cc
string_value-eq-ok (boolean value) s e = cc
string_value-eq-ok (keyword value) s e = cc
string_value-eq-ok (instant a b) s e = cc
string_value-eq-ok (triple a b c) s e = cc
string_value-eq-ok (malformed code) s e = cc

is_keyword-eq : (t : Term) (name : Text) → is_keyword t name ≡ true → t ≡ keyword name
unfolding is_keyword
is_keyword-eq (keyword value) name e = ap keyword (same_elems-eq value name e)
is_keyword-eq (string value) name e = cc
is_keyword-eq (integer value) name e = cc
is_keyword-eq (float64 bits) name e = cc
is_keyword-eq (boolean value) name e = cc
is_keyword-eq (instant a b) name e = cc
is_keyword-eq (triple a b c) name e = cc
is_keyword-eq (malformed code) name e = cc

int_value-eq-ok :
    (t : Term) (n : ℤ) → int_value t ≡ ok n → (v : Scalar) × (t ≡ integer v) × (scalar_int v ≡ ok n)
unfolding int_value
int_value-eq-ok (integer value) n e = (value, refl, e)
int_value-eq-ok (string value) n e = cc
int_value-eq-ok (float64 bits) n e = cc
int_value-eq-ok (boolean value) n e = cc
int_value-eq-ok (keyword value) n e = cc
int_value-eq-ok (instant a b) n e = cc
int_value-eq-ok (triple a b c) n e = cc
int_value-eq-ok (malformed code) n e = cc

nonnegative : (n : ℤ) → leb_ℤ (pos 0) n ≡ true → (k : ℕ) × (n ≡ pos k)
nonnegative (pos k) e = (k, refl)
nonnegative (negsuc k) e = absurd (ground arith)

transaction_coordinate-IsTransaction :
    (t t' : Term) → transaction_coordinate t ≡ ok t' → IsTransaction t × (t' ≡ t)
unfolding transaction_coordinate
transaction_coordinate-IsTransaction (triple subject predicate object) t' e =
    let (space, hs, e1) = >>=-eq-ok (string_value subject) _ e in
    let (_, hf, e2) = >>=-eq-ok (require (not (is_empty space)) invalid_occurrence) _ e1 in
    let (_, hp, e3) =
      >>=-eq-ok (require (is_keyword predicate (codes "kernel/tx-sequence")) invalid_occurrence) _
        e2 in
    let (n, hn, e4) = >>=-eq-ok (int_value object) _ e3 in
    let (_, hk, e5) = >>=-eq-ok (require (leb_ℤ (pos 0) n) invalid_occurrence) _ e4 in
    let (v, hv, hi) = int_value-eq-ok object n hn in
    let (k, same) = nonnegative n (require-eq-ok _ _ hk) in
    (
      transaction space v k (not-eq-true _ (require-eq-ok _ _ hf)) (hi ∙ ap ok same) (
          rw
            (
              string_value-eq-ok subject space hs,
              is_keyword-eq predicate _ (require-eq-ok _ _ hp),
              hv,
            )
            refl),
      sym (ok-injective e5),
    )
transaction_coordinate-IsTransaction (string value) t' e = cc
transaction_coordinate-IsTransaction (integer value) t' e = cc
transaction_coordinate-IsTransaction (float64 bits) t' e = cc
transaction_coordinate-IsTransaction (boolean value) t' e = cc
transaction_coordinate-IsTransaction (keyword value) t' e = cc
transaction_coordinate-IsTransaction (instant a b) t' e = cc
transaction_coordinate-IsTransaction (malformed code) t' e = cc

occurrence_coordinate-IsOccurrence :
    (t t' : Term) → occurrence_coordinate t ≡ ok t' → IsOccurrence t × (t' ≡ t)
unfolding occurrence_coordinate
occurrence_coordinate-IsOccurrence (triple subject predicate object) t' e =
    let (s, hs, e1) = >>=-eq-ok (transaction_coordinate subject) _ e in
    let (_, hp, e2) =
      >>=-eq-ok (require (is_keyword predicate (codes "kernel/op-ordinal")) invalid_occurrence) _
        e1 in
    let (n, hn, e3) = >>=-eq-ok (int_value object) _ e2 in
    let (_, hk, e4) = >>=-eq-ok (require (leb_ℤ (pos 0) n) invalid_occurrence) _ e3 in
    let (v, hv, hi) = int_value-eq-ok object n hn in
    let (k, same) = nonnegative n (require-eq-ok _ _ hk) in
    (
      occurrence subject v k (transaction_coordinate-IsTransaction subject s hs).0 (hi ∙ ap ok same)
          (rw (is_keyword-eq predicate _ (require-eq-ok _ _ hp), hv) refl),
      sym (ok-injective e4),
    )
occurrence_coordinate-IsOccurrence (string value) t' e = cc
occurrence_coordinate-IsOccurrence (integer value) t' e = cc
occurrence_coordinate-IsOccurrence (float64 bits) t' e = cc
occurrence_coordinate-IsOccurrence (boolean value) t' e = cc
occurrence_coordinate-IsOccurrence (keyword value) t' e = cc
occurrence_coordinate-IsOccurrence (instant a b) t' e = cc
occurrence_coordinate-IsOccurrence (malformed code) t' e = cc

-- The index of an action's result is safe and not negative, and its occurrence is an operation of a
-- transaction.
abbrev pub IsResult : ActionResult → Type 0
IsResult r =
    IsOccurrence r.occurrence × (pos 0 ≤ℤ r.input_index) × (r.input_index ≤ℤ max_safe_integer)

action_result-IsResult : (value : Term) (r : ActionResult) → action_result value ≡ ok r → IsResult r
unfolding action_result
action_result-IsResult value r e =
    let (fields, _, e1) = >>=-eq-ok (raw_record_fields value (codes "rpc/action-result") 3) _ e in
    let (input_index, _, e2) = >>=-eq-ok (field_at fields 0) _ e1 in
    let (state_changed, _, e3) = >>=-eq-ok (field_at fields 1) _ e2 in
    let (place, _, e4) = >>=-eq-ok (field_at fields 2) _ e3 in
    let (index, _, e5) = >>=-eq-ok (int_value input_index) _ e4 in
    let (_, hr, e6) =
      >>=-eq-ok (require (leb_ℤ (pos 0) index && leb_ℤ index max_safe_integer) integer_range) _
        e5 in
    let (changed, _, e7) = >>=-eq-ok (bool_value state_changed) _ e6 in
    let (coordinate, hc, e8) = >>=-eq-ok (occurrence_coordinate place) _ e7 in
    let (low, high) =
      &&-eq-true (leb_ℤ (pos 0) index) (leb_ℤ index max_safe_integer) (require-eq-ok _ _ hr) in
    let (is_occurrence, same) = occurrence_coordinate-IsOccurrence place coordinate hc in
    subst IsResult (ok-injective e8)
      (subst IsOccurrence (sym same) is_occurrence, leb→le _ _ low, leb→le _ _ high)

map_values-All :
    (values : List Term) (results : List ActionResult)
    → map_values action_result values ≡ ok results
    → All IsResult results
unfolding map_values
map_values-All [] results e = subst (All IsResult) (ok-injective e) tt
map_values-All (value ∷ values) results e =
    let (first, hf, e1) = >>=-eq-ok (action_result value) _ e in
    let (rest, hr, e2) = >>=-eq-ok (map_values action_result values) _ e1 in
    subst (All IsResult) (ok-injective e2)
      (action_result-IsResult value first hf, map_values-All values rest hr)

-- In every result that `mutationResult` returns, the input index is a safe integer that is not
-- negative, and the occurrence is the Triple of a transaction Triple, which a nonempty space and a
-- sequence number that is not negative make up, and an ordinal that is not negative.
pub mutation_result-IsResult :
    (payload : Term) (results : List ActionResult)
    → mutation_result payload ≡ ok results
    → All IsResult results
unfolding mutation_result
mutation_result-IsResult payload results e =
    let (fields, _, e1) =
      >>=-eq-ok (raw_record_fields payload (codes "rpc/mutation-result") 1) _ e in
    let (listed, _, e2) = >>=-eq-ok (field_at fields 0) _ e1 in
    let (values, _, e3) = >>=-eq-ok (raw_list_values listed) _ e2 in
    map_values-All values results e3
