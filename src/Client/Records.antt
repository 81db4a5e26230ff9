-- ===== src/Client/Records.antt =====
-- framrpc-core.mjs: RPC lists, records and options, which are Terms of a fixed shape.
pub mod RoundTrip
use fram.Prelude.{
  ℕ, ◌+◌, Bool, true, false, ◌&&◌, Option, none, some, List, [], ◌∷◌, leb, ◌==◌, if◌then◌else◌,
  same_elems, length, ℤ, ok, err, ◌>>=◌, ◌>>◌, require,
}
use fram.Text.{Text, codes}
use fram.Text.Numeral.{big_int}
use fram.Client.Codes.{Res, invalid_record, invalid_list, invalid_option}
use fram.Client.Term.{
  Scalar, bigint, number, text, other, Term, string, integer, float64, boolean, keyword, instant,
  triple, malformed, max_term_nodes, new_budget, keyword_term, validate_term,
}
use fram.Client.Value.{Value, array, term, triple_term}

unfoldable pub keyword_name : Term → Res Text
keyword_name (keyword name) = ok name
keyword_name value = err invalid_record

unfoldable pub string_value : Term → Res Text
string_value (string value) = ok value
string_value value = err invalid_record

unfoldable pub bool_value : Term → Res Bool
bool_value (boolean value) = ok value
bool_value value = err invalid_record

unfoldable pub is_keyword : Term → Text → Bool
is_keyword (keyword name) spelling = same_elems name spelling
is_keyword value spelling = false

-- The rest of `rawListValues` at a cursor, with the values that were pushed before it counted.
unfoldable pub values_from : ℕ → Term → Res (List Term)
values_from count (triple head value tail) = do
  require (is_keyword head (codes "rpc/list")) invalid_list
  require (leb (count + 1) max_term_nodes) invalid_list
  rest ← values_from (count + 1) tail
  ok (value ∷ rest)
values_from count cursor =
    if is_keyword cursor (codes "rpc/list-end") then ok [] else err invalid_list

unfoldable pub raw_list_values : Term → Res (List Term)
raw_list_values value = values_from 0 value

unfoldable pub list_values : Term → Res (List Term)
list_values value = do _ ← validate_term value 0 new_budget; raw_list_values value

unfoldable pub raw_record_fields : Term → Text → ℕ → Res (List Term)
raw_record_fields (triple head fields end) tag count = do
  require (is_keyword head tag && is_keyword end (codes "rpc/record")) invalid_record
  values ← raw_list_values fields
  require (length values == count) invalid_record
  ok values
raw_record_fields value tag count = err invalid_record

unfoldable pub record_fields : Term → Text → ℕ → Res (List Term)
record_fields value tag count = do
  _ ← validate_term value 0 new_budget
  raw_record_fields value tag count

unfoldable pub rpc_list : List Value → Res Term
rpc_list [] = keyword_term (codes "rpc/list-end")
rpc_list (value ∷ values) = do
  tail ← rpc_list values
  head ← keyword_term (codes "rpc/list")
  triple_term (array head) value (array tail)

unfoldable pub rpc_record : Text → List Value → Res Term
rpc_record tag fields = do
  head ← keyword_term tag
  list ← rpc_list fields
  end ← keyword_term (codes "rpc/record")
  triple_term (array head) (array list) (array end)

-- `null` and `undefined` are none.
unfoldable pub rpc_option : Option Value → Res Term
rpc_option none = keyword_term (codes "rpc/none")
rpc_option (some value) = do
  head ← keyword_term (codes "rpc/some")
  inner ← term value
  end ← keyword_term (codes "rpc/option")
  triple_term (array head) (array inner) (array end)

unfoldable pub option_value : Term → Res (Option Term)
option_value (triple head value end) = do
  require (is_keyword head (codes "rpc/some") && is_keyword end (codes "rpc/option")) invalid_option
  ok (some value)
option_value value = if is_keyword value (codes "rpc/none") then ok none else err invalid_option
