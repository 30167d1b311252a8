-- ===== src/Pop2/Error/Message.antt =====
-- `Error` of async-pop2/src/error.rs, with its text for people, and how the errors of other libraries become one.
use getemail.Base.{Bytes, codes}
use getemail.Base.Decimal.{IntError}
use getemail.Pop2.Error.{IoError, ErrorKind, io, parse_int, parse_string, decode_base64}

pub record Error : Type 0 where
  pub message : Bytes
  pub kind : ErrorKind

unfoldable pub new : ErrorKind → Bytes → Error
new error_kind message = record { message = message; kind = error_kind }

-- `description`, `Display` and the `String` that an error becomes are all its message.
unfoldable pub description : Error → Bytes
description self = self.message

unfoldable pub display : Error → Bytes
display self = self.message

unfoldable pub into_string : Error → Bytes
into_string self = self.message

unfoldable pub from_io_error : IoError → Error
unfolding new
from_io_error io_error = new (io io_error) (codes "Error with connection to server")

unfoldable pub from_parse_int_error : IntError → Error
unfolding new
from_parse_int_error parse_int_error = new (parse_int parse_int_error) (codes "Failed to parse int")

-- What the library says of the place of the error is left out of its kind.
unfoldable pub from_utf8_error : Error
unfolding new
from_utf8_error = new parse_string (codes "Failed to parse string")

unfoldable pub from_decode_error : Error
unfolding new
from_decode_error = new decode_base64 (codes "Failed to decode base64")
