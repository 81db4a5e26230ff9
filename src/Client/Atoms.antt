-- ===== src/Client/Atoms.antt =====
-- framrpc-core.mjs: each kind of Term as the writer leaves it, read back at its depth.
use fram.Prelude.{
  ℕ, zero, suc, ◌+◌, ◌≤◌, ◌<◌, ◌≡◌, refl, ◌∙◌, Bool, true, false, List, [], ◌∷◌, ◌++◌, ◌==◌, ℤ, pos,
  negsuc, ◌≤ℤ◌, arith, ok, err, ◌>>=◌, >>=-eq-ok, map-eq-ok, append_assoc,
}
use fram.Text.{Text, has_paired_surrogates}
use fram.Text.Numeral.{to_decimal, hex_int, is_empty}
use fram.Text.Utf8.{encode}
use fram.Client.Codes.{Res}
use fram.Client.Term.{
  Scalar, Term, string, integer, float64, boolean, keyword, instant, triple, Budget, max_term_depth,
  max_term_nodes, validate_term, enter, decimal, strict_utf8, keyword_term, canonical_float_bits,
  i64_min, i64_max, max_nanos,
}
use fram.Client.Bytes.{i64, u32, u64, to_u64, scalar_int, write_term_unchecked}
use fram.Client.Reader.{>>=-ok, read_atom, read_triple, read_nested}
use fram.Client.Decimal.{spelled, decimal-eq-ok}
use fram.Client.ReadAtom.{
  IsPlainText, canonical_float_bits_self, before, after, read_nested-tag, read_integer,
  read_float64, read_instant_parts,
}

abbrev pub HasPlainTexts : Term → Type 0
HasPlainTexts (string value) = IsPlainText value
HasPlainTexts (keyword value) = IsPlainText value
HasPlainTexts (triple t1 t2 t3) = HasPlainTexts t1 × HasPlainTexts t2 × HasPlainTexts t3
HasPlainTexts _ = Unit

-- The Term with its integers in canonical decimal text: what the other side reads.
unfoldable pub received : Term → Term
received (integer value) = integer (spelled value)
received (instant seconds nanos) = instant (spelled seconds) (spelled nanos)
received (triple t1 t2 t3) = triple (received t1) (received t2) (received t3)
received t = t

pub enter-eq-ok :
    (depth : ℕ) (budget budget' : Budget)
    → enter depth budget ≡ ok budget'
    → (depth ≤ max_term_depth)
      × (budget'.nodes ≡ budget.nodes + 1)
      × (budget'.nodes ≤ max_term_nodes)
unfolding enter
enter-eq-ok depth budget budget' e = ground arith

-- The bytes of a checked Term, read at its depth and with the node count that the writer had, give
-- the Term back, leave what follows, and count the same nodes.
abbrev pub Reads : Term → ℕ → Budget → Budget → List ℕ → Type 0
Reads t left budget budget' written =
    (rest : List ℕ)
    → read_nested left (record { bytes = written ++ rest; nodes = budget.nodes })
      ≡ ok (received t, record { bytes = rest; nodes = budget'.nodes })

-- The shape of every atom: `enter`, then a check of the payload.
pub Reads-atom :
    (t : Term) (depth left tag : ℕ) (budget budget' : Budget) (payload : List ℕ)
    → depth + left ≡ max_term_depth + 1
    → enter depth budget ≡ ok budget'
    → (tag == 7) ≡ false
    → ((rest : List ℕ) (nodes : ℕ)
        → read_atom tag (before rest nodes payload) ≡ ok (received t, after rest nodes))
    → Reads t left budget budget' (tag ∷ payload)
Reads-atom t depth zero tag budget budget' payload hl he ht hr rest =
    absurd (omega (arith, enter-eq-ok depth budget budget' he))
Reads-atom t depth (suc left) tag budget budget' payload hl he ht hr rest =
    let (_, counted, fits) = enter-eq-ok depth budget budget' he in
    read_nested-tag left tag (payload ++ rest) budget.nodes (omega arith)
    ∙ rw (ht, hr rest (budget.nodes + 1), counted)

-- A check whose value is not used, between `enter` and its budget.
pub checked :
    {A : Type 0} (m : Res Budget) (c : Res A) (budget : Budget)
    → (m >>= λ b. c >>= λ _. ok b) ≡ ok budget
    → (m ≡ ok budget) × ((a : A) × (c ≡ ok a))
checked (ok b) (ok a) budget e = (cc, (a, refl))
checked (ok b) (err code) budget e = cc
checked (err code) c budget e = cc

pub keyword_term-filled :
    (value : Text) (t : Term) → keyword_term value ≡ ok t → is_empty value ≡ false
unfolding keyword_term strict_utf8
keyword_term-filled [] t e = unfold has_paired_surrogates encode in cc e
keyword_term-filled (unit ∷ value) t e = refl

pub written_int :
    (value : Scalar) (n : ℤ) (f : ℤ → List ℕ) (written : List ℕ)
    → scalar_int value ≡ ok n
    → (scalar_int value >>= λ m. ok (f m)) ≡ ok written
    → written ≡ f n
written_int value n f written stands e =
    let (m, hm, same) = map-eq-ok (scalar_int value) f written e in cc

pub written_instant :
    (seconds nanos : Scalar) (s n : ℤ) (written : List ℕ)
    → scalar_int seconds ≡ ok s
    → scalar_int nanos ≡ ok n
    → write_term_unchecked (instant seconds nanos) ≡ ok written
    → written ≡ 8 ∷ (i64 s ++ u32 (to_u64 n))
unfolding write_term_unchecked
written_instant seconds nanos s n written hs hn w =
    let (s', es, w') = >>=-eq-ok (scalar_int seconds) _ w in
    let (n', en, same) =
      map-eq-ok (scalar_int nanos) (λ x. 8 ∷ (i64 s' ++ u32 (to_u64 x))) written w' in
    cc

-- A value in the range of nanoseconds is a number, which is written as it is.
pub nanos_lem :
    (n : ℤ)
    → pos 0 ≤ℤ n
    → n ≤ℤ max_nanos
    → (m : ℕ) × (n ≡ pos m) × (m < 1000000000) × (to_u64 n ≡ m)
unfolding to_u64
nanos_lem (pos m) lo hi = (m, refl, omega arith, omega arith)
nanos_lem (negsuc m) lo hi = absurd (omega arith)

module _ (depth left : ℕ) (budget budget' : Budget) (written : List ℕ)
    (hl : depth + left ≡ max_term_depth + 1) where
  pub Reads-integer :
      (value : Scalar)
      → validate_term (integer value) depth budget ≡ ok budget'
      → write_term_unchecked (integer value) ≡ ok written
      → Reads (integer value) left budget budget' written
  unfolding validate_term write_term_unchecked received
  Reads-integer value v w =
      let (he, (digits, hd)) =
        checked (enter depth budget) (decimal i64_min i64_max value) budget' v in
      let a = decimal-eq-ok i64_min i64_max value digits hd in
      rw (written_int value a.int (λ n. 2 ∷ i64 n) written a.stands w) (
        Reads-atom (integer value) depth left 2 budget budget' (i64 a.int) hl he refl
          (λ rest nodes. rw a.spelling (read_integer rest nodes a.int a.above a.below)))

  pub Reads-float64 :
      (bits : Text)
      → validate_term (float64 bits) depth budget ≡ ok budget'
      → write_term_unchecked (float64 bits) ≡ ok written
      → Reads (float64 bits) left budget budget' written
  unfolding validate_term write_term_unchecked received
  Reads-float64 bits v w =
      let (he, (out, hd)) = checked (enter depth budget) (canonical_float_bits bits) budget' v in
      let same : written ≡ 3 ∷ u64 (hex_int bits) = cc in
      rw same (
        Reads-atom (float64 bits) depth left 3 budget budget' (u64 (hex_int bits)) hl he refl
          (λ rest nodes. read_float64 rest nodes bits (canonical_float_bits_self bits out hd)))

  pub Reads-boolean :
      (value : Bool)
      → validate_term (boolean value) depth budget ≡ ok budget'
      → write_term_unchecked (boolean value) ≡ ok written
      → Reads (boolean value) left budget budget' written
  unfolding validate_term write_term_unchecked received
  Reads-boolean true v w =
      let same : written ≡ 5 ∷ [] = cc in
      rw same (
        Reads-atom (boolean true) depth left 5 budget budget' [] hl v refl
          (λ rest nodes. unfold read_atom in refl))
  Reads-boolean false v w =
      let same : written ≡ 4 ∷ [] = cc in
      rw same (
        Reads-atom (boolean false) depth left 4 budget budget' [] hl v refl
          (λ rest nodes. unfold read_atom in refl))

  pub Reads-instant :
      (seconds nanos : Scalar)
      → validate_term (instant seconds nanos) depth budget ≡ ok budget'
      → write_term_unchecked (instant seconds nanos) ≡ ok written
      → Reads (instant seconds nanos) left budget budget' written
  unfolding validate_term write_term_unchecked received
  Reads-instant seconds nanos v w =
      let (b0, he, v') = >>=-eq-ok (enter depth budget) _ v in
      let (ds, hs, v'') = >>=-eq-ok (decimal i64_min i64_max seconds) _ v' in
      let (dn, hn, last) = >>=-eq-ok (decimal (pos 0) max_nanos nanos) _ v'' in
      let a = decimal-eq-ok i64_min i64_max seconds ds hs in
      let b = decimal-eq-ok (pos 0) max_nanos nanos dn hn in
      let (m, is_pos, fits, bits) = nanos_lem b.int b.above b.below in
      let same : written ≡ 8 ∷ (i64 a.int ++ u32 (to_u64 b.int)) =
        written_instant seconds nanos a.int b.int written a.stands b.stands w in
      rw (same, bits)
        (Reads-atom (instant seconds nanos) depth left 8 budget budget' (i64 a.int ++ u32 m) hl
          (he ∙ last) refl
          (λ rest nodes.
            rw (a.spelling, b.spelling, is_pos)
              (unfold to_decimal in read_instant_parts rest nodes a.int m a.above a.below fits)))

-- The three parts of a Triple, one behind the other.
pub Reads-triple :
    (t1 t2 t3 : Term) (left : ℕ) (b0 b1 b2 b3 : Budget) (w1 w2 w3 : List ℕ)
    → Reads t1 left b0 b1 w1
    → Reads t2 left b1 b2 w2
    → Reads t3 left b2 b3 w3
    → (rest : List ℕ)
    → read_triple
        (read_nested left)
        (record { bytes = (w1 ++ (w2 ++ w3)) ++ rest; nodes = b0.nodes })
      ≡ ok (
        triple (received t1) (received t2) (received t3),
        record { bytes = rest; nodes = b3.nodes },
      )
unfolding read_triple
Reads-triple t1 t2 t3 left b0 b1 b2 b3 w1 w2 w3 r1 r2 r3 rest =
    rw (append_assoc, append_assoc)
      (>>=-ok (read_nested left) _ (r1 (w2 ++ (w3 ++ rest)))
        ∙ >>=-ok (read_nested left) _ (r2 (w3 ++ rest))
        ∙ >>=-ok (read_nested left) _ (r3 rest))
