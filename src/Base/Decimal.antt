-- ===== src/Base/Decimal.antt =====
-- `usize::to_string` and `str::parse::<usize>` of the standard library, on a 64-bit machine.
use mathlib.Core.Path.{◌≡◌, ap, sym, ◌∙◌}
use mathlib.Core.Logic.{inl, inr}
use native.Mathlib.Omega.{arith}
use Prim.Native.Nat.{◌<◌, ◌≤◌, ℕ, zero, suc, ◌+◌, ◌-◌, ◌*◌, ◌/◌, ◌%◌, ◌^◌}
use mathlib.Core.Bool.{Bool, true, ◌&&◌, ◌||◌}
use mathlib.Core.List.{[], ◌∷◌}
use getemail.Base.Tests.{ltb, leb, ◌==◌, if◌then◌else◌, Bool-cases}
use getemail.Base.Text.{Bytes}

-- The digits of `n` in front of `rest`. The fuel `n + 1` is more than the number of digits.
unfoldable pub digits_onto : ℕ → ℕ → Bytes → Bytes
digits_onto zero n rest = rest
digits_onto (suc fuel) n rest =
    let more = digits_onto fuel (n / 10) ((b'0' + n % 10) ∷ rest) in
    if ltb n 10 then (b'0' + n) ∷ rest else more

unfoldable pub decimal : ℕ → Bytes
unfolding digits_onto
decimal n = digits_onto (suc n) n []

pub data IntError : Type 0 where
  empty invalid_digit pos_overflow : IntError

pub data Parsed : Type 0 where
  value : ℕ → Parsed
  refused : IntError → Parsed

abbrev pub usize_limit : ℕ
usize_limit = 2 ^ 64

abbrev pub is_digit : ℕ → Bool
is_digit c = leb b'0' c && leb c b'9'

-- `checked_mul` and `checked_add`, after the test of the digit.
unfoldable pub parse_digits : ℕ → Bytes → Parsed
parse_digits n [] = value n
parse_digits n (c ∷ cs) =
    let next = n * 10 + (c - b'0') in
    let rest = parse_digits next cs in
    if is_digit c
    then (if ltb next usize_limit then rest else refused pos_overflow)
    else refused invalid_digit

-- A sign alone is no number; a `+` is skipped; a `-` is no digit.
unfoldable pub parse_usize : Bytes → Parsed
unfolding parse_digits
parse_usize [] = refused empty
parse_usize (c ∷ []) =
    if c == b'+' || c == b'-' then refused invalid_digit else parse_digits 0 (c ∷ [])
parse_usize (c ∷ d ∷ cs) =
    if c == b'+' then parse_digits 0 (d ∷ cs) else parse_digits 0 (c ∷ d ∷ cs)

pub tenth_lt : (n fuel : ℕ) → n < suc fuel → 10 ≤ n → n / 10 < fuel
tenth_lt n fuel h large = omega arith

-- A number below ten takes any positive fuel, and a larger one more fuel than its tenth.
parse_digits-digits_onto :
    (fuel n : ℕ) (rest : Bytes)
    → n < fuel
    → n < usize_limit
    → parse_digits 0 (digits_onto fuel n rest) ≡ parse_digits n rest
unfolding parse_digits digits_onto
parse_digits-digits_onto zero n rest h small = absurd (omega arith)
parse_digits-digits_onto (suc fuel) n rest h small = elim (Bool-cases (ltb n 10)) [
  | inl e ↦ ground (arith, e)
  | inr e ↦ ground (
    arith,
    e,
    parse_digits-digits_onto fuel (n / 10) ((b'0' + n % 10) ∷ rest)
        (tenth_lt n fuel h (ground arith)) (omega (arith, small)),
  )
]

digits_onto_head :
    (fuel n : ℕ) (rest : Bytes)
    → n < fuel
    → (d : ℕ) × (ds : Bytes) × (digits_onto fuel n rest ≡ d ∷ ds) × (is_digit d ≡ true)
unfolding digits_onto
digits_onto_head zero n rest h = absurd (omega arith)
digits_onto_head (suc fuel) n rest h = elim (Bool-cases (ltb n 10)) [
  | inl e ↦ (b'0' + n, rest, ground (arith, e), ground (arith, e))
  | inr e ↦
      let (d, ds, whole, digit) =
        digits_onto_head fuel (n / 10) ((b'0' + n % 10) ∷ rest)
          (tenth_lt n fuel h (ground arith)) in
      (d, ds, ground (arith, e, whole), digit)
]

parse_usize_unsigned :
    (d : ℕ) (ds : Bytes) → is_digit d ≡ true → parse_usize (d ∷ ds) ≡ parse_digits 0 (d ∷ ds)
unfolding parse_usize
parse_usize_unsigned d [] h = ground arith
parse_usize_unsigned d (e ∷ ds) h = ground arith

-- A machine word that was printed is read again.
pub parse_usize-decimal : (n : ℕ) → n < usize_limit → parse_usize (decimal n) ≡ value n
unfolding decimal parse_digits
parse_usize-decimal n small =
    let (d, ds, e, digit) = digits_onto_head (suc n) n [] (omega arith) in
    ap parse_usize e
    ∙ (parse_usize_unsigned d ds digit
        ∙ (ap (parse_digits 0) (sym e) ∙ parse_digits-digits_onto (suc n) n [] (omega arith) small))
