-- ===== src/Pop2/Types/Field.antt =====
-- async-pop2/src/response/types/message.rs and number.rs: what a caller can do with the raw text of a field. A text
-- of the source that is known to be UTF-8 is its bytes.
use getemail.Base.{ℕ, Bytes, if◌then◌else◌}
use getemail.Base.Exec.{Outcome, ok, err}
use getemail.Base.Utf8.{is_utf8}
use getemail.Pop2.Error.{ErrorKind, parse_string}
use getemail.Pop2.Types.{Text, Number, Duration}
use getemail.Pop2.Types.Value

-- `std::str::from_utf8`, with `?`.
unfoldable pub from_utf8 : Bytes → Outcome ErrorKind Bytes
unfolding is_utf8
from_utf8 bytes = if is_utf8 bytes then ok bytes else err parse_string

-- The methods of `Text`.
unfoldable pub text_from : Bytes → Text
text_from value = record { inner = value }

unfoldable pub text_as_ref : Text → Bytes
text_as_ref self = self.inner

unfoldable pub text_raw : Text → Bytes
text_raw self = self.inner

unfoldable pub text_as_str : Text → Outcome ErrorKind Bytes
unfolding from_utf8
text_as_str self = from_utf8 self.inner

unfoldable pub text_value : Text → Outcome ErrorKind Bytes
unfolding text_as_str
text_value self = text_as_str self

unfoldable pub text_try_into : Text → Outcome ErrorKind Bytes
unfolding text_value
text_try_into self = text_value self

-- Those of `Number`, beside `value`.
unfoldable pub number_from : Bytes → Number
number_from value = record { inner = value }

unfoldable pub number_as_ref : Number → Bytes
number_as_ref self = self.inner

unfoldable pub number_raw : Number → Bytes
number_raw self = self.inner

unfoldable pub number_as_str : Number → Outcome ErrorKind Bytes
unfolding from_utf8
number_as_str self = from_utf8 self.inner

unfoldable pub number_try_into : Number → Outcome ErrorKind ℕ
number_try_into self = Value.value self

-- Those of `Duration`, beside `value`.
unfoldable pub duration_new : Number → ℕ → Duration
duration_new number to_secs_multiplier = record {
  inner = number;
  to_secs_multiplier = to_secs_multiplier;
}

unfoldable pub duration_raw : Duration → Bytes
unfolding number_raw
duration_raw self = number_raw self.inner

unfoldable pub duration_as_str : Duration → Outcome ErrorKind Bytes
unfolding number_as_str
duration_as_str self = number_as_str self.inner

unfoldable pub duration_try_into : Duration → Outcome ErrorKind ℕ
duration_try_into self = Value.duration_value self
