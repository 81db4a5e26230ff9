-- ===== src/Client/Records/RoundTrip.antt =====
-- framrpc-core.mjs: what `rpcList`, `rpcRecord` and `rpcOption` build is what `rawListValues`,
-- `rawRecordFields` and `optionValue` take apart.
use fram.Prelude.{
  ℕ, suc, ◌+◌, ◌≤◌, ◌≡◌, refl, sym, ap, ◌∙◌, true, not, some, List, [], ◌∷◌, leb, ◌==◌,
  same_elems_self, length, le→leb, eq→==, ok, ◌>>=◌, ◌>>◌, require, >>=-ok, require-ok, >>=-eq-ok,
  ok-injective, arith,
}
use fram.Text.{Text, codes}
use fram.Client.Codes.{Res, invalid_record, invalid_list, invalid_keyword}
use fram.Client.Term.{
  Term, keyword, triple, max_term_nodes, max_string_bytes, strict_utf8, keyword_term, new_budget,
  validate_term,
}
use fram.Client.Value.{Value, array, term, triple_term}
use fram.Client.Records.{
  is_keyword, values_from, raw_list_values, raw_record_fields, rpc_list, rpc_record, rpc_option,
  option_value,
}

-- The Terms of a list of values.
unfoldable pub terms : List Value → Res (List Term)
terms [] = ok []
terms (value ∷ values) = do t ← term value; ts ← terms values; ok (t ∷ ts)

keyword_term-eq-ok : (name : Text) (t : Term) → keyword_term name ≡ ok t → t ≡ keyword name
unfolding keyword_term
keyword_term-eq-ok name t e =
    let (bytes, _, e1) = >>=-eq-ok (strict_utf8 name max_string_bytes) _ e in
    let (_, _, e2) = >>=-eq-ok (require (not (length bytes == 0)) invalid_keyword) _ e1 in
    sym (ok-injective e2)

term-array-eq-ok : (t t' : Term) → term (array t) ≡ ok t' → t' ≡ t
unfolding term
term-array-eq-ok t t' e =
    let (_, _, same) = >>=-eq-ok (validate_term t 0 new_budget) _ e in sym (ok-injective same)

-- A Triple of a Term, a value and a Term.
triple_term-eq-ok :
    (head tail : Term) (value : Value) (t : Term)
    → triple_term (array head) value (array tail) ≡ ok t
    → (v : Term) × (term value ≡ ok v) × (t ≡ triple head v tail)
unfolding triple_term
triple_term-eq-ok head tail value t e =
    let (t1, h1, e1) = >>=-eq-ok (term (array head)) _ e in
    let (t2, h2, e2) = >>=-eq-ok (term value) _ e1 in
    let (t3, h3, e3) = >>=-eq-ok (term (array tail)) _ e2 in
    (
      t2,
      h2,
      sym (ok-injective e3) ∙ rw (term-array-eq-ok head t1 h1, term-array-eq-ok tail t3 h3) refl,
    )

is_keyword_self : (name : Text) → is_keyword (keyword name) name ≡ true
unfolding is_keyword
is_keyword_self name = same_elems_self name

values_from-cons :
    (count : ℕ) (head v tail : Term) (ts : List Term)
    → head ≡ keyword (codes "rpc/list")
    → count + 1 ≤ max_term_nodes
    → values_from (count + 1) tail ≡ ok ts
    → values_from count (triple head v tail) ≡ ok (v ∷ ts)
unfolding values_from
values_from-cons count head v tail ts hh h e =
    let rest = values_from (count + 1) tail >>= λ more. ok (v ∷ more) in
    require-ok (is_keyword head (codes "rpc/list")) invalid_list
      (require (leb (count + 1) max_term_nodes) invalid_list >> rest)
      (rw hh (is_keyword_self (codes "rpc/list")))
    ∙ require-ok (leb (count + 1) max_term_nodes) invalid_list rest (le→leb _ _ h)
    ∙ >>=-ok (values_from (count + 1) tail) _ e

values_from-end :
    (count : ℕ) (t : Term) → t ≡ keyword (codes "rpc/list-end") → values_from count t ≡ ok []
unfolding values_from
values_from-end count t e = rw (e, is_keyword_self (codes "rpc/list-end")) refl

pub values_from-rpc_list :
    (values : List Value) (t : Term) (count : ℕ)
    → rpc_list values ≡ ok t
    → count + length values ≤ max_term_nodes
    → (ts : List Term) × (terms values ≡ ok ts) × (values_from count t ≡ ok ts)
unfolding rpc_list terms
values_from-rpc_list [] t count e h =
    ([], refl, values_from-end count t (keyword_term-eq-ok (codes "rpc/list-end") t e))
values_from-rpc_list (value ∷ values) t count e h =
    let (tail, ht, e1) = >>=-eq-ok (rpc_list values) _ e in
    let (head, hh, e2) = >>=-eq-ok (keyword_term (codes "rpc/list")) _ e1 in
    let (v, hv, shape) = triple_term-eq-ok head tail value t e2 in
    let (ts, hs, hr) = values_from-rpc_list values tail (count + 1) ht (omega (arith, h)) in
    (
      v ∷ ts,
      >>=-ok (term value) _ hv ∙ >>=-ok (terms values) _ hs,
      ap (values_from count) shape
          ∙ values_from-cons count head v tail ts (keyword_term-eq-ok _ head hh) (omega (arith, h))
              hr,
    )

length-terms :
    (values : List Value) (ts : List Term) → terms values ≡ ok ts → length ts ≡ length values
unfolding terms
length-terms [] ts e = rw (sym (ok-injective e)) refl
length-terms (value ∷ values) ts e =
    let (t, _, e1) = >>=-eq-ok (term value) _ e in
    let (rest, hr, same) = >>=-eq-ok (terms values) _ e1 in
    rw (sym (ok-injective same)) (ap suc (length-terms values rest hr))

record_fields_lem :
    (tag : Text) (head list end : Term) (ts : List Term)
    → head ≡ keyword tag
    → end ≡ keyword (codes "rpc/record")
    → raw_list_values list ≡ ok ts
    → raw_record_fields (triple head list end) tag (length ts) ≡ ok ts
unfolding raw_record_fields
record_fields_lem tag head list end ts hh he e =
    rw (hh, he, is_keyword_self tag, is_keyword_self (codes "rpc/record"))
      (>>=-ok (raw_list_values list) _ e
        ∙ require-ok (length ts == length ts) invalid_record (ok ts) (eq→== _ _ refl))

-- A record that `rpcRecord` builds of at most MAX_TERM_NODES values is taken apart again by
-- `rawRecordFields` under its tag and its number of fields: into the Terms of the values, in order.
pub raw_record_fields-rpc_record :
    (tag : Text) (fields : List Value) (t : Term)
    → length fields ≤ max_term_nodes
    → rpc_record tag fields ≡ ok t
    → (ts : List Term) × (terms fields ≡ ok ts) × (raw_record_fields t tag (length fields) ≡ ok ts)
unfolding rpc_record
raw_record_fields-rpc_record tag fields t h e =
    let (head, hh, e1) = >>=-eq-ok (keyword_term tag) _ e in
    let (list, hl, e2) = >>=-eq-ok (rpc_list fields) _ e1 in
    let (end, he, e3) = >>=-eq-ok (keyword_term (codes "rpc/record")) _ e2 in
    let (inner, hi, shape) = triple_term-eq-ok head end (array list) t e3 in
    let (ts, hs, hv) = values_from-rpc_list fields list 0 hl (omega (arith, h)) in
    (
      ts,
      hs,
      rw (shape, term-array-eq-ok list inner hi, sym (length-terms fields ts hs))
          (record_fields_lem tag head list end ts (keyword_term-eq-ok tag head hh)
            (keyword_term-eq-ok _ end he) (unfold raw_list_values in hv)),
    )

-- An option that `rpcOption` builds is taken apart again by `optionValue`.
pub option_value-rpc_option :
    (value : Value) (t : Term)
    → rpc_option (some value) ≡ ok t
    → (v : Term) × (term value ≡ ok v) × (option_value t ≡ ok (some v))
unfolding rpc_option option_value
option_value-rpc_option value t e =
    let (head, hh, e1) = >>=-eq-ok (keyword_term (codes "rpc/some")) _ e in
    let (v, hv, e2) = >>=-eq-ok (term value) _ e1 in
    let (end, he, e3) = >>=-eq-ok (keyword_term (codes "rpc/option")) _ e2 in
    let (inner, hi, shape) = triple_term-eq-ok head end (array v) t e3 in
    (
      v,
      hv,
      rw
          (
            shape,
            term-array-eq-ok v inner hi,
            keyword_term-eq-ok _ head hh,
            keyword_term-eq-ok _ end he,
            is_keyword_self (codes "rpc/some"),
            is_keyword_self (codes "rpc/option"),
          )
          refl,
    )
