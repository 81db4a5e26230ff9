-- ===== src/Client/Codes.antt =====
-- The codes of `FramProtocolError` in framrpc-core.mjs. A message is not kept.
use fram.Prelude.{Result}

pub data Code : Type 0 where
  invalid_input invalid_integer integer_range invalid_text invalid_utf8 string_limit : Code
  invalid_float invalid_term invalid_keyword term_depth term_nodes : Code
  truncated invalid_presence invalid_boolean invalid_instant bad_term_tag : Code
  invalid_record invalid_list invalid_option invalid_occurrence : Code
  invalid_page unexpected_page unexpected_timeout invalid_space unsupported_operation : Code
  frame_too_large invalid_frame invalid_magic unsupported_version invalid_kind invalid_flags : Code
  identity_mismatch trailing_bytes query_syntax invalid_action action_limit : Code
  preflight_mismatch invalid_transport invalid_timeout invalid_signal : Code

-- The outcome of a function that may call `fail`.
abbrev pub Res {ℓ} : Type ℓ → Type ℓ
Res A = Result Code A
