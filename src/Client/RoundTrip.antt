-- ===== src/Client/RoundTrip.antt =====
-- Reading back a Term that the client wrote.
use fram.Prelude.{
  ℕ, zero, suc, ◌+◌, ◌≡◌, refl, ◌∙◌, List, ◌∷◌, ◌++◌, arith, ok, >>=-eq-ok, map-eq-ok,
}
use mathlib.Core.Path.{subst}
use fram.Client.Term.{
  bigint, number, text, other, Term, string, integer, float64, boolean, keyword, instant, triple,
  malformed, Budget, max_string_bytes, max_term_depth, validate_term, enter, strict_utf8,
  keyword_term,
}
use fram.Client.Bytes.{write_term, write_text, write_term_unchecked}
use fram.Client.Reader.{read_term}
use fram.Client.ReadAtom.{read_nested-tag, read_string, read_keyword_text}
use fram.Client.Atoms.{
  Reads-float64, HasPlainTexts, received, enter-eq-ok, Reads, Reads-atom, checked,
  keyword_term-filled, Reads-triple, Reads-integer, Reads-boolean, Reads-instant,
}

pub read_nested-write :
    (t : Term) (depth left : ℕ) (budget budget' : Budget) (written : List ℕ)
    → HasPlainTexts t
    → depth + left ≡ max_term_depth + 1
    → validate_term t depth budget ≡ ok budget'
    → write_term_unchecked t ≡ ok written
    → Reads t left budget budget' written
unfolding validate_term write_term_unchecked received
read_nested-write (string value) depth left budget budget' written plain hl v w =
    let (he, _) = checked (enter depth budget) (strict_utf8 value max_string_bytes) budget' v in
    let (bytes, hw, same) = map-eq-ok (write_text value max_string_bytes) (λ b. 1 ∷ b) written w in
    rw same (
      Reads-atom (string value) depth left 1 budget budget' bytes hl he refl
        (λ rest nodes. read_string rest nodes value bytes plain hw))
read_nested-write (integer value) depth left budget budget' written plain hl v w =
    Reads-integer depth left budget budget' written hl value v w
read_nested-write (float64 bits) depth left budget budget' written plain hl v w =
    Reads-float64 depth left budget budget' written hl bits v w
read_nested-write (boolean value) depth left budget budget' written plain hl v w =
    Reads-boolean depth left budget budget' written hl value v w
read_nested-write (keyword value) depth left budget budget' written plain hl v w =
    let (he, (t, hk)) = checked (enter depth budget) (keyword_term value) budget' v in
    let (bytes, hw, same) = map-eq-ok (write_text value max_string_bytes) (λ b. 6 ∷ b) written w in
    rw same (
      Reads-atom (keyword value) depth left 6 budget budget' bytes hl he refl (λ rest nodes.
        read_keyword_text rest nodes value bytes plain (keyword_term-filled value t hk) hw))
read_nested-write (instant seconds nanos) depth left budget budget' written plain hl v w =
    Reads-instant depth left budget budget' written hl seconds nanos v w
read_nested-write (triple t1 t2 t3) depth zero budget budget' written plain hl v w =
    let (b0, he, v1) = >>=-eq-ok (enter depth budget) _ v in
    absurd (omega (arith, enter-eq-ok depth budget b0 he))
read_nested-write (triple t1 t2 t3) depth (suc left) budget budget' written (p1, p2, p3) hl v w =
    let (b0, he, v') = >>=-eq-ok (enter depth budget) _ v in
    let (b1, v1, v'') = >>=-eq-ok (validate_term t1 (depth + 1) b0) _ v' in
    let (b2, v2, v3) = >>=-eq-ok (validate_term t2 (depth + 1) b1) _ v'' in
    let (w1, e1, w') = >>=-eq-ok (write_term_unchecked t1) _ w in
    let (w2, e2, w'') = >>=-eq-ok (write_term_unchecked t2) _ w' in
    let (w3, e3, same) =
      map-eq-ok (write_term_unchecked t3) (λ x. 7 ∷ (w1 ++ (w2 ++ x))) written w'' in
    let (_, counted, fits) = enter-eq-ok depth budget b0 he in
    let next : depth + 1 + left ≡ max_term_depth + 1 = omega arith in
    λ rest. rw same (
      read_nested-tag left 7 ((w1 ++ (w2 ++ w3)) ++ rest) budget.nodes (omega arith)
      ∙ rw (← counted) (
          Reads-triple t1 t2 t3 left b0 b1 b2 budget' w1 w2 w3
            (read_nested-write t1 (depth + 1) left b0 b1 w1 p1 next v1 e1)
            (read_nested-write t2 (depth + 1) left b1 b2 w2 p2 next v2 e2)
            (read_nested-write t3 (depth + 1) left b2 budget' w3 p3 next v3 e3) rest))
read_nested-write (malformed code) depth left budget budget' written plain hl v w =
    let (b0, he, v') = >>=-eq-ok (enter depth budget) _ v in cc v'

pub write_term-eq-ok :
    (t : Term) (budget budget' : Budget) (written : List ℕ)
    → write_term t budget ≡ ok (written, budget')
    → (validate_term t 0 budget ≡ ok budget') × (write_term_unchecked t ≡ ok written)
unfolding write_term
write_term-eq-ok t budget budget' written e =
    let (b, v, e') = >>=-eq-ok (validate_term t 0 budget) _ e in
    let (w, hw, same) = >>=-eq-ok (write_term_unchecked t) _ e' in
    (v ∙ ground (arith, same), hw ∙ ground (arith, same))

-- A Term whose texts have 16-bit units and start with no byte order mark, once `writeTerm` has
-- written it, is read back by `reader.term()` of a reader that has counted as many nodes before it,
-- whatever bytes follow: the same Term with its integers as `received` has them, the bytes that
-- follow left over, and the node count that the writer ended with.
pub read_term-write_term :
    (t : Term) (budget budget' : Budget) (written rest : List ℕ)
    → HasPlainTexts t
    → write_term t budget ≡ ok (written, budget')
    → read_term (record { bytes = written ++ rest; nodes = budget.nodes })
      ≡ ok (received t, record { bytes = rest; nodes = budget'.nodes })
unfolding read_term write_term
read_term-write_term t budget budget' written rest plain e =
    let (v, w) = write_term-eq-ok t budget budget' written e in
    read_nested-write t 0 (max_term_depth + 1) budget budget' written plain refl v w rest

-- The integers of a Term that the client's constructors build are canonical decimal texts.
abbrev pub HasTextIntegers : Term → Type 0
HasTextIntegers (integer (text digits)) = Unit
HasTextIntegers (integer _) = ⊥
HasTextIntegers (instant (text s) (text n)) = Unit
HasTextIntegers (instant _ _) = ⊥
HasTextIntegers (triple t1 t2 t3) = HasTextIntegers t1 × HasTextIntegers t2 × HasTextIntegers t3
HasTextIntegers _ = Unit

pub received_self : (t : Term) → HasTextIntegers t → received t ≡ t
unfolding received
received_self (string value) h = refl
received_self (integer (text digits)) h = refl
received_self (integer (bigint n)) h = absurd h
received_self (integer (number n)) h = absurd h
received_self (integer other) h = absurd h
received_self (float64 bits) h = refl
received_self (boolean value) h = refl
received_self (keyword value) h = refl
received_self (instant (text s) (text n)) h = refl
received_self (instant (text s) (bigint n)) h = absurd h
received_self (instant (text s) (number n)) h = absurd h
received_self (instant (text s) other) h = absurd h
received_self (instant (bigint s) n) h = absurd h
received_self (instant (number s) n) h = absurd h
received_self (instant other n) h = absurd h
received_self (triple t1 t2 t3) (h1, h2, h3) =
    cc (received_self t1 h1, received_self t2 h2, received_self t3 h3)
received_self (malformed code) h = refl

-- A Term whose integers are texts comes back as it is.
pub read_term-write_term_self :
    (t : Term) (budget budget' : Budget) (written rest : List ℕ)
    → HasPlainTexts t
    → HasTextIntegers t
    → write_term t budget ≡ ok (written, budget')
    → read_term (record { bytes = written ++ rest; nodes = budget.nodes })
      ≡ ok (t, record { bytes = rest; nodes = budget'.nodes })
read_term-write_term_self t budget budget' written rest plain texts e =
    subst
      (λ u.
        read_term (record { bytes = written ++ rest; nodes = budget.nodes })
        ≡ ok (u, record { bytes = rest; nodes = budget'.nodes }))
      (received_self t texts) (read_term-write_term t budget budget' written rest plain e)
