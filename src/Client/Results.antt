-- ===== src/Client/Results.antt =====
-- framrpc-core.mjs: the values that a client takes from the payload of a response, by operation.
pub mod Occurrences
pub mod Operation
use fram.Prelude.{
  ℕ, zero, suc, Bool, true, false, not, ◌&&◌, ◌||◌, Option, none, some, List, [], ◌∷◌,
  if◌then◌else◌, same_elems, ℤ, pos, leb_ℤ, ok, err, require, ◌>>=◌, ◌>>◌, ◌^◌, ◌-◌,
}
use fram.Text.{Text, codes}
use fram.Text.Numeral.{is_empty}
use fram.Client.Codes.{Res, invalid_record, invalid_occurrence, integer_range}
use fram.Client.Term.{
  Scalar, Term, string, integer, float64, boolean, keyword, instant, triple, malformed,
}
use fram.Client.Bytes.{scalar_int}
use fram.Client.Records.{
  keyword_name, string_value, bool_value, is_keyword, raw_list_values, raw_record_fields,
}

unfoldable pub int_value : Term → Res ℤ
int_value (integer value) = scalar_int value
int_value value = err invalid_record

-- `raw.map(f)`, where `f` may throw.
unfoldable pub map_values {ℓ} : {A : Type ℓ} → (Term → Res A) → List Term → Res (List A)
map_values f [] = ok []
map_values f (value ∷ values) = do first ← f value; rest ← map_values f values; ok (first ∷ rest)

-- The fields of a record, once their number is checked.
unfoldable pub field_at : List Term → ℕ → Res Term
field_at [] i = err invalid_record
field_at (value ∷ values) zero = ok value
field_at (value ∷ values) (suc i) = field_at values i

unfoldable pub transaction_coordinate : Term → Res Term
transaction_coordinate (triple subject predicate object) = do
  space ← string_value subject
  require (not (is_empty space)) invalid_occurrence
  require (is_keyword predicate (codes "kernel/tx-sequence")) invalid_occurrence
  sequence ← int_value object
  require (leb_ℤ (pos 0) sequence) invalid_occurrence
  ok (triple subject predicate object)
transaction_coordinate value = err invalid_occurrence

unfoldable pub occurrence_coordinate : Term → Res Term
occurrence_coordinate (triple subject predicate object) = do
  _ ← transaction_coordinate subject
  require (is_keyword predicate (codes "kernel/op-ordinal")) invalid_occurrence
  ordinal ← int_value object
  require (leb_ℤ (pos 0) ordinal) invalid_occurrence
  ok (triple subject predicate object)
occurrence_coordinate value = err invalid_occurrence

abbrev pub is_triple : Term → Bool
is_triple (triple t1 t2 t3) = true
is_triple value = false

pub record Occurrence : Type 0 where
  pub coordinate : Term
  pub action : Text
  pub proposition : Term

unfoldable pub occurrence_result : Term → Res Occurrence
occurrence_result value = do
  fields ← raw_record_fields value (codes "rpc/occurrence") 3
  coordinate ← field_at fields 0
  action_term ← field_at fields 1
  proposition ← field_at fields 2
  _ ← occurrence_coordinate coordinate
  action ← keyword_name action_term
  require (same_elems action (codes "assert") || same_elems action (codes "retract"))
      invalid_occurrence
  require (is_triple proposition) invalid_occurrence
  ok (record { coordinate = coordinate; action = action; proposition = proposition })

pub record ActionResult : Type 0 where
  pub input_index : ℤ
  pub state_changed : Bool
  pub occurrence : Term

abbrev pub max_safe_integer : ℤ
max_safe_integer = pos (2 ^ 53 - 1)

-- One result of `mutationResult`.
unfoldable pub action_result : Term → Res ActionResult
action_result value = do
  fields ← raw_record_fields value (codes "rpc/action-result") 3
  input_index ← field_at fields 0
  state_changed ← field_at fields 1
  occurrence ← field_at fields 2
  index ← int_value input_index
  require (leb_ℤ (pos 0) index && leb_ℤ index max_safe_integer) integer_range
  changed ← bool_value state_changed
  coordinate ← occurrence_coordinate occurrence
  ok (record { input_index = index; state_changed = changed; occurrence = coordinate })

unfoldable pub mutation_result : Term → Res (List ActionResult)
mutation_result payload = do
  fields ← raw_record_fields payload (codes "rpc/mutation-result") 1
  results ← field_at fields 0
  values ← raw_list_values results
  map_values action_result values

unfoldable pub query_row : Term → Res (List Term)
query_row row = do
  fields ← raw_record_fields row (codes "query/row") 1
  values ← field_at fields 0
  raw_list_values values

unfoldable pub query_rows : Term → Res (List (List Term))
query_rows payload = do
  fields ← raw_record_fields payload (codes "query/rows") 1
  rows ← field_at fields 0
  values ← raw_list_values rows
  map_values query_row values
