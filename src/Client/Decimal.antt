-- ===== src/Client/Decimal.antt =====
-- framrpc-core.mjs: the integers that `decimal` accepts.
use fram.Prelude.{
  ◌≡◌, refl, sym, ap, Bool, true, false, ◌&&◌, if◌then◌else◌, ℤ, ◌≤ℤ◌, arith, leb_ℤ, ok, err,
  require, ◌>>◌, ◌>>=◌,
}
use mathlib.Core.Path.{subst}
use fram.Text.{Text}
use fram.Text.Numeral.{to_decimal, big_int, is_canonical_decimal}
use fram.Text.Numeral.RoundTrip.{to_decimal-big_int}
use fram.Text.Numeral.ReadBack.{big_int-to_decimal}
use fram.Client.Codes.{Res, invalid_integer, integer_range}
use fram.Client.Term.{Scalar, bigint, number, text, other, decimal, decimal_text, is_safe_integer}
use fram.Client.Bytes.{scalar_int}

-- An integer as the reader spells it.
abbrev pub spelled : Scalar → Scalar
spelled (bigint n) = text (to_decimal n)
spelled (number n) = text (to_decimal n)
spelled s = s

-- What `decimal` accepts: the integer that the scalar stands for, in its bounds, and its spelling.
pub record Accepts (low high : ℤ) (value : Scalar) : Type 0 where
  pub int : ℤ
  pub stands : scalar_int value ≡ ok int
  pub above : low ≤ℤ int
  pub below : int ≤ℤ high
  pub spelling : spelled value ≡ text (to_decimal int)

spelled_text :
    (digits : Text)
    → is_canonical_decimal digits ≡ true
    → text digits ≡ text (to_decimal (big_int digits))
spelled_text digits h = ap text (sym (to_decimal-big_int digits h))

second_require :
    (a b : Bool) (out : Text) {out' : Text}
    → (require a invalid_integer >> (require b integer_range >> ok out)) ≡ ok out'
    → b ≡ true
second_require a b out h = ground arith

-- The range test at the end of `decimal`, for the digits of the integer.
decimal_range :
    (low high n : ℤ) (digits out out' : Text)
    → big_int digits ≡ n
    → (require (is_canonical_decimal digits) invalid_integer
        >> (require (leb_ℤ low (big_int digits) && leb_ℤ (big_int digits) high) integer_range
            >> ok out))
      ≡ ok out'
    → (low ≤ℤ n) × (n ≤ℤ high)
decimal_range low high n digits out out' e h =
    let within : leb_ℤ low n && leb_ℤ n high ≡ true =
      subst (λ m. (leb_ℤ low m && leb_ℤ m high) ≡ true) e (second_require _ _ _ h) in
    (ground arith, ground arith)

if_guard :
    (test : Bool) (digits : Text) (k : Text → Res Text) {out : Text}
    → ((if test then ok digits else err invalid_integer) >>= k) ≡ ok out
    → test ≡ true
if_guard true digits k h = refl
if_guard false digits k h = cc

pub decimal-eq-ok :
    (low high : ℤ) (value : Scalar) (digits : Text)
    → decimal low high value ≡ ok digits
    → Accepts low high value
unfolding decimal decimal_text
decimal-eq-ok low high (bigint n) digits e =
    let (lo, hi) = decimal_range low high n _ _ digits (big_int-to_decimal n) e in
    record { int = n; stands = unfold scalar_int in refl; above = lo; below = hi; spelling = refl }
decimal-eq-ok low high (number n) digits e =
    let safe : is_safe_integer n ≡ true = if_guard (is_safe_integer n) _ _ e in
    let (lo, hi) = decimal_range low high n _ _ digits (big_int-to_decimal n) (rw safe at e) in
    record { int = n; stands = unfold scalar_int in refl; above = lo; below = hi; spelling = refl }
decimal-eq-ok low high (text t) digits e =
    let canonical : is_canonical_decimal t ≡ true = if_guard (is_canonical_decimal t) _ _ e in
    let (lo, hi) = decimal_range low high (big_int t) t t digits refl (rw canonical at e) in
    record {
      int = big_int t;
      stands = unfold scalar_int in refl;
      above = lo;
      below = hi;
      spelling = spelled_text t canonical;
    }
decimal-eq-ok low high other digits e = cc
