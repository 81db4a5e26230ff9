-- ===== src/Client/Response.antt =====
-- framrpc-core.mjs: the body of a response, with its page and its error.
pub mod Frame
pub mod Identity
use fram.Prelude.{
  ℕ, ◌+◌, Bool, true, false, not, ◌&&◌, ◌||◌, Option, none, some, List, [], ◌∷◌, ltb, leb, ◌==◌,
  if◌then◌else◌, same_elems, length, take, drop, ℤ, leb_ℤ, ok, err, require,
}
use fram.Text.{Text}
use fram.Client.Codes.{
  Res, Code, truncated, frame_too_large, invalid_magic, unsupported_version, invalid_kind,
  invalid_flags, identity_mismatch, trailing_bytes,
}
use fram.Client.Term.{Term}
use fram.Client.Reader.{
  Reader, Read, ◌>>=◌, pure, lift, le_value, from_u64, read_u32, read_i64, read_presence, read_bool,
  read_term, done, check,
}
use fram.Client.Records.{keyword_name, string_value}
use fram.Client.Request.{magic, header_bytes, max_body_bytes, max_frame_bytes}

pub record ResponsePage : Type 0 where
  pub ordinal : ℕ
  pub next_cursor : Option Term
  pub is_last : Bool

pub record ResponseError : Type 0 where
  pub code : Text
  pub retryable : Bool
  pub message : Text
  pub detail : Option Term

pub record Response : Type 0 where
  pub space : Text
  pub operation : Text
  pub served_version : ℤ
  pub page : Option ResponsePage
  pub error : Option ResponseError
  pub payload : Option Term

-- The identity of the request that a response must answer.
pub record Expected : Type 0 where
  pub request_id : ℤ
  pub space : Text
  pub operation : Text

-- `reader.presence(...) ? read() : null`
abbrev pub read_optional {ℓ} : {A : Type ℓ} → Read A → Read (Option A)
read_optional read = read_presence >>= λ present. elim present [
  | true ↦ (read >>= λ a. pure (some a))
  | false ↦ pure none
]

unfoldable pub response_page : Read ResponsePage
response_page = do
  ordinal ← read_u32
  cursor ← read_optional read_term
  last ← read_bool
  pure (record { ordinal = ordinal; next_cursor = cursor; is_last = last })

unfoldable pub response_error : Read ResponseError
response_error = do
  code_term ← read_term
  code ← lift (keyword_name code_term)
  retryable ← read_bool
  message_term ← read_term
  message ← lift (string_value message_term)
  detail ← read_optional read_term
  pure (record { code = code; retryable = retryable; message = message; detail = detail })

-- The body of a response.
unfoldable pub response_body : Read Response
response_body = do
  space_term ← read_term
  space ← lift (string_value space_term)
  operation_term ← read_term
  operation ← lift (keyword_name operation_term)
  version ← read_i64
  page ← read_optional response_page
  error ← read_optional response_error
  payload ← read_optional read_term
  pure (record {
    space = space;
    operation = operation;
    served_version = version;
    page = page;
    error = error;
    payload = payload;
  })
