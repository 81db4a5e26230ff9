-- ===== src/Examples/Results.antt =====
-- The payload of a mutation with one result, and what the client takes from it.
use fram.Prelude.{◌≡◌, refl, true, List, [], ◌∷◌, All, same_elems, pos, ok}
use fram.Text.{Text, codes}
use fram.Text.Numeral.{big_int, read_digits}
use fram.Client.Bytes.{scalar_int}
use fram.Client.Term.{Term, string, integer, boolean, keyword, triple, text}
use fram.Client.Records.{
  string_value, bool_value, is_keyword, values_from, raw_list_values, raw_record_fields,
}
use fram.Client.Results.{
  int_value, map_values, field_at, transaction_coordinate, occurrence_coordinate, ActionResult,
  action_result, mutation_result,
}
use fram.Client.Results.Occurrences.{IsResult, mutation_result-IsResult}

abbrev record_of : Text → Term → Term
record_of tag fields = triple (keyword tag) fields (keyword (codes "rpc/record"))

abbrev cons : Term → Term → Term
cons value tail = triple (keyword (codes "rpc/list")) value tail

abbrev list_end : Term
list_end = keyword (codes "rpc/list-end")

abbrev coordinate : Term
coordinate =
    triple
      (triple (string (codes "s")) (keyword (codes "kernel/tx-sequence"))
        (integer (text (codes "4"))))
      (keyword (codes "kernel/op-ordinal")) (integer (text (codes "1")))

abbrev one_result : Term
one_result =
    record_of (codes "rpc/action-result")
      (cons (integer (text (codes "0"))) (cons (boolean true) (cons coordinate list_end)))

abbrev payload : Term
payload = record_of (codes "rpc/mutation-result") (cons (cons one_result list_end) list_end)

abbrev results : List ActionResult
results = record { input_index = pos 0; state_changed = true; occurrence = coordinate } ∷ []

decode_payload : mutation_result payload ≡ ok results
unfolding mutation_result raw_record_fields raw_list_values values_from is_keyword same_elems
    field_at map_values action_result int_value scalar_int big_int read_digits bool_value
    occurrence_coordinate transaction_coordinate string_value
decode_payload = refl

mutation_result-IsResult_example : All IsResult results
mutation_result-IsResult_example = mutation_result-IsResult payload results decode_payload
