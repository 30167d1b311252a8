-- ===== src/Pop2/Error.antt =====
-- async-pop2/src/error.rs. An error is its kind: the message of `Error`, a text for people, is left
-- out. The kinds of the TLS features, which the program does not enable, are left out too.
pub mod Message
use getemail.Base.Decimal.{IntError}
use getemail.Base.{ℕ}
use getemail.Pop2.Types.{Text}

-- `std::io::Error`, by its number.
abbrev pub IoError : Type 0
IoError = ℕ

-- `server_error` carries the text whose lossy display is the `String` of the source.
pub data ErrorKind : Type 0 where
  io : IoError → ErrorKind
  parse_int : IntError → ErrorKind
  parse_string : ErrorKind
  server_error : Text → ErrorKind
  decode_base64 : ErrorKind
  not_connected should_not_be_connected incorrect_state_for_command : ErrorKind
  message_is_deleted feature_unsupported server_failed_to_greet : ErrorKind
  invalid_response response_too_large missing_request : ErrorKind
  parse_command unexpected_response connection_closed : ErrorKind
