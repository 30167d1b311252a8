-- ===== src/Pop2/Types/Lossy.antt =====
-- `as_str_lossy` and `Display` of async-pop2/src/response/types/message.rs and number.rs.
use getemail.Base.{Bytes}
use getemail.Base.Utf8.{from_utf8_lossy}
use getemail.Pop2.Types.{Text, Number, Duration}

unfoldable pub text_as_str_lossy : Text → Bytes
unfolding from_utf8_lossy
text_as_str_lossy self = from_utf8_lossy self.inner

unfoldable pub text_display : Text → Bytes
unfolding text_as_str_lossy
text_display self = text_as_str_lossy self

unfoldable pub number_as_str_lossy : Number → Bytes
unfolding from_utf8_lossy
number_as_str_lossy self = from_utf8_lossy self.inner

unfoldable pub number_display : Number → Bytes
unfolding number_as_str_lossy
number_display self = number_as_str_lossy self

unfoldable pub duration_as_str_lossy : Duration → Bytes
unfolding number_as_str_lossy
duration_as_str_lossy self = number_as_str_lossy self.inner

unfoldable pub duration_display : Duration → Bytes
unfolding duration_as_str_lossy
duration_display self = duration_as_str_lossy self
