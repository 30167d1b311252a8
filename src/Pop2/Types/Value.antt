-- ===== src/Pop2/Types/Value.antt =====
-- `value` of `DataType` (async-pop2/src/response/types/number.rs).
use getemail.Base.{
  ℕ, zero, suc, ◌+◌, ◌*◌, ◌%◌, ◌/◌, ◌<◌, ◌≡◌, refl, inl, inr, true, [], ◌∷◌, Bytes, if◌then◌else◌,
  ltb, arith, Bool-cases,
}
use getemail.Base.Decimal
use getemail.Base.Decimal.{
  Parsed, refused, parse_usize, decimal, usize_limit, parse_usize-decimal, digits_onto, tenth_lt,
}
use getemail.Base.Utf8.{is_utf8, utf8_from, follow}
use getemail.Base.Exec.{Outcome, ok, err}
use getemail.Pop2.Error.{ErrorKind, parse_int, parse_string}
use getemail.Pop2.Types.{Number, Duration}

parsed_or_error : Parsed → Outcome ErrorKind ℕ
parsed_or_error (Decimal.value n) = ok n
parsed_or_error (refused e) = err (parse_int e)

-- `as_str()?.parse()?`
unfoldable pub value : Number → Outcome ErrorKind ℕ
unfolding parsed_or_error parse_usize is_utf8
value number =
    if is_utf8 number.inner then parsed_or_error (parse_usize number.inner) else err parse_string

-- A product of machine words, which wraps as the release profile has it.
in_seconds : ℕ → Outcome ErrorKind ℕ → Outcome ErrorKind ℕ
in_seconds multiplier (ok number) = ok (number * multiplier % usize_limit)
in_seconds multiplier other = other

unfoldable pub duration_value : Duration → Outcome ErrorKind ℕ
unfolding in_seconds value
duration_value d = in_seconds d.to_secs_multiplier (value d.inner)

utf8-digits_onto :
    (fuel n : ℕ) (rest : Bytes)
    → n < fuel
    → utf8_from [] rest ≡ true
    → utf8_from [] (digits_onto fuel n rest) ≡ true
unfolding digits_onto utf8_from follow
utf8-digits_onto zero n rest h u = absurd (omega arith)
utf8-digits_onto (suc fuel) n rest h u = elim (Bool-cases (ltb n 10)) [
  | inl e ↦ ground (arith, e)
  | inr e ↦ ground (
    arith,
    e,
    utf8-digits_onto fuel (n / 10) ((b'0' + n % 10) ∷ rest) (tenth_lt n fuel h (ground arith))
        (ground arith),
  )
]

-- The number that a server has printed in decimal is the value of the field, if it is a machine
-- word.
pub value-decimal : (n : ℕ) → n < usize_limit → value (record { inner = decimal n }) ≡ ok n
unfolding value decimal is_utf8
value-decimal n small =
    rw
      (
        utf8-digits_onto (suc n) n [] (omega arith) refl,
        parse_usize-decimal n small,
        parsed_or_error,
      )
      refl
