-- ===== src/Adapter/Authorize.antt =====
-- What `exchange` lets through to the guest.
use fram.Prelude.{
  ℕ, ◌≡◌, ◌≢◌, ◌∙◌, true, false, not, ◌&&◌, List, All, has, same_elems, same_elems_self,
  same_elems-eq, ℤ, ◌≤ℤ◌, arith, ok, require, >>=-ok, require-ok, >>=-eq-ok, require-eq-ok,
  not-eq-true, &&-eq-true, ok-injective,
}
use mathlib.Core.Path.{subst}
use fram.Text.{Text, codes}
use fram.Text.Numeral.{is_empty}
use fram.Client.Term.{i64_min, i64_max}
use fram.Client.ReadAtom.{IsPlainText}
use fram.Client.Value.{Value}
use fram.Client.Request.{
  Options, Encoded, Entry, operator, operations, operation_entry, encode_request,
}
use fram.Client.RequestShape.{encode_request-IsEncoded}
use fram.Adapter.Requests.{
  Request, invalid_entry, invalid_space, operator_capability, space_mismatch, entry_mismatch,
  framrpc_entry, same_entry, entry_accepts, inspect, authorize,
}
use fram.Adapter.Inspect.{summary, has-All, inspect-encode_request}

-- The entry that the client picks for an operation is one that the adapter takes for it, whatever
-- the options, and no data-plane operation is the operator's.
abbrev IsRouted : Text → Type 0
IsRouted operation =
    (options : Options)
    → (entry_accepts operation (operation_entry operation options) ≡ true)
      × (same_entry (operation_entry operation options) operator ≡ false)
      × (same_elems operation (codes "rpc/checkpoint") ≡ false)

operations-IsRouted : All IsRouted operations
unfolding entry_accepts operation_entry framrpc_entry same_entry has same_elems
operations-IsRouted = (
  (λ o. ground arith),
  (
    (λ o. ground arith),
    (
      (λ o. ground arith),
      (
        (λ o. ground arith),
        (
          (λ o. ground arith),
          (
            (λ o. ground arith),
            (
              (λ o. ground arith),
              (
                (λ o. ground arith),
                (
                  (λ o. ground arith),
                  (
                    (λ o. ground arith),
                    ((λ o. ground arith), ((λ o. ground arith), ((λ o. ground arith), tt))),
                  ),
                ),
              ),
            ),
          ),
        ),
      ),
    ),
  ),
)

pub entry_accepts-operation_entry :
    (operation : Text) (options : Options)
    → has operations operation ≡ true
    → (entry_accepts operation (operation_entry operation options) ≡ true)
      × (same_entry (operation_entry operation options) operator ≡ false)
      × (same_elems operation (codes "rpc/checkpoint") ≡ false)
entry_accepts-operation_entry operation options h =
    has-All IsRouted operations operation operations-IsRouted h options

-- A frame that the client encodes for a data-plane operation, with an id of 64 bits, for a space
-- whose name has 16-bit units and starts with no byte order mark, passes the object that owns the
-- space on the entry that the client picks for it: the object sees the request's own space, id,
-- operation and sizes.
pub authorize-encode_request :
    (id : ℤ) (space operation : Text) (payload : Value) (options : Options) (encoded : Encoded)
    → i64_min ≤ℤ id
    → id ≤ℤ i64_max
    → IsPlainText space
    → encode_request id space operation payload options operations ≡ ok encoded
    → authorize space encoded.frame (operation_entry operation options) space
      ≡ ok (summary id space operation encoded)
unfolding authorize
authorize-encode_request id space operation payload options encoded lo hi plain e =
    let shape = encode_request-IsEncoded id space operation payload options operations encoded e in
    let (accepted, not_operator, not_checkpoint) =
      entry_accepts-operation_entry operation options shape.is_allowed in
    require-ok (not (same_entry (operation_entry operation options) operator)) invalid_entry _
      (rw not_operator)
    ∙ require-ok (not (is_empty space)) invalid_space _ (rw shape.space_filled)
    ∙ >>=-ok (inspect encoded.frame) _
        (inspect-encode_request id space operation payload options encoded lo hi plain e)
    ∙ require-ok (not (same_elems operation (codes "rpc/checkpoint"))) operator_capability _
        (rw not_checkpoint)
    ∙ require-ok (same_elems space space && same_elems space space) space_mismatch _
        (rw same_elems_self)
    ∙ require-ok (entry_accepts operation (operation_entry operation options)) entry_mismatch _
        accepted

authorized :
    (owner : Text) (frame : List ℕ) (entry : Entry) (space : Text) (r request : Request)
    → inspect frame ≡ ok request
    → same_elems request.operation (codes "rpc/checkpoint") ≡ false
    → (same_elems space owner && same_elems request.space owner) ≡ true
    → entry_accepts request.operation entry ≡ true
    → request ≡ r
    → (inspect frame ≡ ok r)
      × (r.space ≡ owner)
      × (space ≡ owner)
      × (r.operation ≢ codes "rpc/checkpoint")
      × (entry_accepts r.operation entry ≡ true)
authorized owner frame entry space r request inspected plain named accepted same =
    let (mine, its) = &&-eq-true (same_elems space owner) (same_elems request.space owner) named in
    subst
      (λ x.
        (inspect frame ≡ ok x)
        × (x.space ≡ owner)
        × (space ≡ owner)
        × (x.operation ≢ codes "rpc/checkpoint")
        × (entry_accepts x.operation entry ≡ true))
      same
      (
        inspected,
        same_elems-eq request.space owner its,
        same_elems-eq space owner mine,
        (λ p. cc (rw (p, same_elems_self) at plain)),
        accepted,
      )

-- Whatever frame an object lets through names the object's own space, an operation that is no
-- operator's, and an entry that its operation may use.
pub authorize-eq-ok :
    (owner : Text) (frame : List ℕ) (entry : Entry) (space : Text) (r : Request)
    → authorize owner frame entry space ≡ ok r
    → (inspect frame ≡ ok r)
      × (r.space ≡ owner)
      × (space ≡ owner)
      × (r.operation ≢ codes "rpc/checkpoint")
      × (entry_accepts r.operation entry ≡ true)
unfolding authorize
authorize-eq-ok owner frame entry space r e =
    let (_, _, e1) = >>=-eq-ok (require (not (same_entry entry operator)) invalid_entry) _ e in
    let (_, _, e2) = >>=-eq-ok (require (not (is_empty space)) invalid_space) _ e1 in
    let (request, inspected, e3) = >>=-eq-ok (inspect frame) _ e2 in
    let (_, plain, e4) =
      >>=-eq-ok
        (require (not (same_elems request.operation (codes "rpc/checkpoint"))) operator_capability)
        _ e3 in
    let (_, named, e5) =
      >>=-eq-ok (require (same_elems space owner && same_elems request.space owner) space_mismatch)
        _ e4 in
    let (_, accepted, e6) =
      >>=-eq-ok (require (entry_accepts request.operation entry) entry_mismatch) _ e5 in
    authorized owner frame entry space r request inspected (not-eq-true _ (require-eq-ok _ _ plain))
      (require-eq-ok _ _ named) (require-eq-ok _ _ accepted) (ok-injective e6)
