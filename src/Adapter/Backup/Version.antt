-- ===== src/Adapter/Backup/Version.antt =====
-- adapter.mjs: the version that a status answers is one that a backup may carry.
use fram.Prelude.{
  ℕ, suc, ◌+◌, ◌<◌, ◌≡◌, refl, inl, inr, Bool, true, false, not, ◌&&◌, ◌-◌, ◌^◌, List, length, leb,
  ltb, ◌==◌, take, drop, pos, leb_ℤ, Bool-cases, ltb→lt, le→leb, leb→le, same_elems, ok, require,
  >>=-eq-ok, require-eq-ok, ok-injective, arith,
}
use fram.Text.{Text, codes}
use fram.Text.Numeral.{to_string, to_decimal, read_digits, is_digit, every}
use fram.Text.Numeral.ReadBack.{read_digits-to_radix, every-to_radix}
use fram.Text.Numeral.Plain.{to_string-IsPlain}
use fram.Client.Reader.{from_u64}
use fram.Adapter.Requests.{framrpc_magic, framrpc_header_bytes}
use fram.Adapter.Status.{engine, view_field, text_term, decode_status_served_version}
use fram.Adapter.Backup.{is_served_version}

to_string-IsServed : (n : ℕ) → n < 2 ^ 63 → is_served_version (to_string 10 n) ≡ true
unfolding is_served_version
to_string-IsServed n h =
    let (filled, plain) = to_string-IsPlain n in
    let digits : every is_digit (to_string 10 n) ≡ true =
      unfold to_string in every-to_radix (suc n) n in
    let value : read_digits 10 0 (to_string 10 n) ≡ n =
      unfold to_string in read_digits-to_radix (suc n) n (omega arith) in
    rw (filled, digits, plain, value) (le→leb n (2 ^ 63 - 1) (omega arith))

to_decimal-IsServed :
    (n : ℕ) → leb_ℤ (pos 0) (from_u64 n) ≡ true → is_served_version (to_decimal (from_u64 n)) ≡ true
unfolding from_u64 to_decimal
to_decimal-IsServed n h = elim (Bool-cases (ltb n (2 ^ 63))) [
  | inl small ↦ rw small (to_string-IsServed n (ltb→lt n (2 ^ 63) small))
  | inr large ↦
      let negative : leb (0 + suc (2 ^ 64 - 1 - n)) (0 + 0) ≡ true = rw large at h in
      absurd (omega (arith, leb→le (0 + suc (2 ^ 64 - 1 - n)) (0 + 0) negative))
]

first_of : (p a b c d : Bool) → (p && a && b && c && d) ≡ true → p ≡ true
first_of true a b c d h = refl
first_of false a b c d h = cc

-- `decodeStatusServedVersion` gives nothing but canonical decimals of nonnegative i64s.
pub decode_status_served_version-IsServed :
    (frame : List ℕ) (space version : Text)
    → decode_status_served_version frame space ≡ ok version
    → is_served_version version ≡ true
unfolding decode_status_served_version
decode_status_served_version-IsServed frame space version h =
    let (u1, e1, h1) = >>=-eq-ok (require (leb framrpc_header_bytes (length frame)) engine) _ h in
    let (u2, e2, h2) = >>=-eq-ok (require (same_elems (take 8 frame) framrpc_magic) engine) _ h1 in
    let (u3, e3, h3) =
      >>=-eq-ok
        (require
          ((view_field frame 8 2 == 2)
            && (view_field frame 10 2 == 0)
            && (view_field frame 12 1 == 2)
            && (view_field frame 13 1 == 0)
            && (view_field frame 18 8 == 0))
          engine)
        _ h2 in
    let (u4, e4, h4) =
      >>=-eq-ok (require (length frame == framrpc_header_bytes + view_field frame 14 4) engine) _
        h3 in
    let ((space_id, rest), e5, h5) =
      >>=-eq-ok (text_term 1 (drop framrpc_header_bytes frame)) _ h4 in
    let ((operation, controls), e6, h6) = >>=-eq-ok (text_term 6 rest) _ h5 in
    let (u7, e7, h7) =
      >>=-eq-ok
        (require (same_elems space_id space && same_elems operation (codes "rpc/status")) engine) _
        h6 in
    let (u8, e8, h8) = >>=-eq-ok (require (leb 11 (length controls)) engine) _ h7 in
    let (u9, e9, h9) =
      >>=-eq-ok
        (require
          (leb_ℤ (pos 0) (from_u64 (view_field controls 0 8))
            && (view_field controls 8 1 == 0)
            && (view_field controls 9 1 == 0)
            && (view_field controls 10 1 == 1)
            && not (length controls == 11))
          engine)
        _ h8 in
    rw (← ok-injective h9) (
      to_decimal-IsServed (view_field controls 0 8) (
        first_of (leb_ℤ (pos 0) (from_u64 (view_field controls 0 8))) _ _ _ _
          (require-eq-ok _ engine e9)))
