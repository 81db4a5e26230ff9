-- ===== src/Client/Results/Operation.antt =====
-- framrpc-core.mjs: `operationResult`, the value of a response's payload for each operation.
use fram.Prelude.{
  Bool, ◌||◌, Option, none, some, List, if◌then◌else◌, same_elems, ℤ, ok, err, require, ◌>>=◌, ◌>>◌,
}
use fram.Text.{Text, codes}
use fram.Client.Codes.{Res, invalid_record, unsupported_operation}
use fram.Client.Term.{Term, instant}
use fram.Client.Bytes.{scalar_int}
use fram.Client.Records.{
  keyword_name, bool_value, is_keyword, raw_list_values, raw_record_fields, option_value,
}
use fram.Client.Results.{
  int_value, map_values, field_at, Occurrence, occurrence_result, ActionResult, mutation_result,
  query_rows,
}

pub record CacheStatus : Type 0 where
  pub hits : ℤ
  pub misses : ℤ
  pub cache_bytes : ℤ
  pub evictions : ℤ

pub record Status : Type 0 where
  pub state : Text
  pub live_count : ℤ
  pub engine_name : Text
  pub cache : CacheStatus

unfoldable pub cache_status : Term → Res CacheStatus
cache_status value = do
  fields ← raw_record_fields value (codes "rpc/result-cache") 4
  hits ← field_at fields 0
  misses ← field_at fields 1
  bytes ← field_at fields 2
  evictions ← field_at fields 3
  h ← int_value hits
  m ← int_value misses
  b ← int_value bytes
  e ← int_value evictions
  ok (record { hits = h; misses = m; cache_bytes = b; evictions = e })

-- `statusResult`; the cache's record is taken apart before any field is read.
unfoldable pub status_result : Term → Res Status
status_result payload = do
  fields ← raw_record_fields payload (codes "rpc/status") 4
  state ← field_at fields 0
  live_count ← field_at fields 1
  engine_name ← field_at fields 2
  cache ← field_at fields 3
  _ ← raw_record_fields cache (codes "rpc/result-cache") 4
  s ← keyword_name state
  l ← int_value live_count
  e ← keyword_name engine_name
  c ← cache_status cache
  ok (record { state = s; live_count = l; engine_name = e; cache = c })

pub record Violation : Type 0 where
  pub violation_code : Text
  pub violation_detail : Term

unfoldable pub violation : Term → Res Violation
violation value = do
  fields ← raw_record_fields value (codes "rpc/violation") 2
  code ← field_at fields 0
  detail ← field_at fields 1
  c ← keyword_name code
  ok (record { violation_code = c; violation_detail = detail })

pub record Validation : Type 0 where
  pub valid : Bool
  pub violations : List Violation

unfoldable pub validation_result : Term → Res Validation
validation_result payload = do
  fields ← raw_record_fields payload (codes "rpc/validation") 2
  valid ← field_at fields 0
  listed ← field_at fields 1
  v ← bool_value valid
  values ← raw_list_values listed
  violations ← map_values violation values
  ok (record { valid = v; violations = violations })

-- `instantValue`: the seconds and the nanoseconds.
unfoldable pub instant_value : Term → Res (ℤ × ℤ)
instant_value (instant seconds nanos) = do s ← scalar_int seconds; n ← scalar_int nanos; ok (s, n)
instant_value value = err invalid_record

pub data OperationResult : Type 0 where
  no_result : OperationResult
  status_of : Status → OperationResult
  validation_of : Validation → OperationResult
  mutation_of : List ActionResult → OperationResult
  triples_of : List Term → OperationResult
  rows_of : List (List Term) → OperationResult
  occurrences_of : List Occurrence → OperationResult
  grant_of : Term → ℤ × ℤ → OperationResult
  released_of : Bool → OperationResult
  check_of : Bool → Option (ℤ × ℤ) → OperationResult

unfoldable pub scan_result : Term → Res OperationResult
scan_result payload = do
  fields ← raw_record_fields payload (codes "rpc/triples") 1
  triples ← field_at fields 0
  values ← raw_list_values triples
  ok (triples_of values)

unfoldable pub occurrences_result : Term → Res OperationResult
occurrences_result payload = do
  fields ← raw_record_fields payload (codes "rpc/occurrences") 1
  listed ← field_at fields 0
  values ← raw_list_values listed
  occurrences ← map_values occurrence_result values
  ok (occurrences_of occurrences)

unfoldable pub grant_result : Term → Res OperationResult
grant_result payload = do
  fields ← raw_record_fields payload (codes "lease/grant") 2
  fence ← field_at fields 0
  expires ← field_at fields 1
  e ← instant_value expires
  ok (grant_of fence e)

unfoldable pub released_result : Term → Res OperationResult
released_result payload = do
  fields ← raw_record_fields payload (codes "lease/released") 1
  released ← field_at fields 0
  r ← bool_value released
  ok (released_of r)

unfoldable pub optional_instant : Option Term → Res (Option (ℤ × ℤ))
optional_instant none = ok none
optional_instant (some value) = do i ← instant_value value; ok (some i)

unfoldable pub check_result : Term → Res OperationResult
check_result payload = do
  fields ← raw_record_fields payload (codes "lease/check") 2
  valid ← field_at fields 0
  expires ← field_at fields 1
  expiry ← option_value expires
  v ← bool_value valid
  e ← optional_instant expiry
  ok (check_of v e)

unfoldable pub version_result : Term → Res OperationResult
version_result payload = do
  require (is_keyword payload (codes "rpc/unit")) invalid_record
  ok no_result

unfoldable pub is_mutation : Text → Bool
is_mutation operation =
    same_elems operation (codes "rpc/assert")
    || same_elems operation (codes "rpc/retract")
    || same_elems operation (codes "rpc/batch")

-- The decoder that the `switch` picks for an operation.
unfoldable pub decoder_of : Text → Option (Term → Res OperationResult)
decoder_of operation =
    if same_elems operation (codes "rpc/version")
    then some version_result
    else if same_elems operation (codes "rpc/status")
    then some (λ payload. do s ← status_result payload; ok (status_of s))
    else if same_elems operation (codes "rpc/validate")
    then some (λ payload. do v ← validation_result payload; ok (validation_of v))
    else if is_mutation operation
    then some (λ payload. do m ← mutation_result payload; ok (mutation_of m))
    else if same_elems operation (codes "rpc/scan")
    then some scan_result
    else if same_elems operation (codes "rpc/query")
    then some (λ payload. do r ← query_rows payload; ok (rows_of r))
    else if same_elems operation (codes "rpc/occurrences")
    then some occurrences_result
    else if same_elems operation (codes "rpc/lease-acquire")
        || same_elems operation (codes "rpc/lease-renew")
    then some grant_result
    else if same_elems operation (codes "rpc/lease-release")
    then some released_result
    else if same_elems operation (codes "rpc/lease-check")
    then some check_result
    else none

unfoldable pub operation_result : Text → Option Term → Res OperationResult
operation_result operation none = ok no_result
operation_result operation (some payload) = elim (decoder_of operation) [
  | none ↦ err unsupported_operation
  | some decoder ↦ decoder payload
]
