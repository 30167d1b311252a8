-- ===== src/Pop2/Parser/Answers/Numbers.antt =====
-- The numbers of an answer, as the caller reads them with `value`.
use getemail.Base.{
  ℕ, zero, suc, ◌+◌, ◌%◌, ◌/◌, ◌≡◌, ◌<◌, refl, inl, inr, [], ◌∷◌, ◌++◌, Bytes, codes, Option, arith,
  Bool-cases, ltb,
}
use getemail.Base.Decimal.{is_digit, decimal, digits_onto, tenth_lt, usize_limit}
use getemail.Base.Exec.{ok}
use getemail.Pop2.Command.{stat}
use getemail.Pop2.Response.{Response, Stat}
use getemail.Pop2.Types.Value.{value, value-decimal}
use getemail.Pop2.Env.{done}
use getemail.Pop2.Nom.{Nom}
use getemail.Pop2.Nom.Laws.{LawfulPrimitives, LawfulCombinators}
use getemail.Pop2.Parser.{parse}
use getemail.Pop2.Parser.Primitives.{All}
use getemail.Pop2.Parser.Stats.{Some}
use getemail.Pop2.Parser.Listings.{ScanLine}
use getemail.Pop2.Parser.Answers.{Answer, numbers, written}
use getemail.Pop2.Parser.Answers.Reads.{parse-written}

All-digits_onto :
    (fuel n : ℕ) (rest : Bytes)
    → n < fuel
    → All is_digit rest
    → Some is_digit (digits_onto fuel n rest)
unfolding digits_onto
All-digits_onto zero n rest h a = absurd (omega arith)
All-digits_onto (suc fuel) n rest h a = elim (Bool-cases (ltb n 10)) [
  | inl e ↦ ground (arith, e, a)
  | inr e ↦
      let more =
        All-digits_onto fuel (n / 10) ((b'0' + n % 10) ∷ rest) (tenth_lt n fuel h (ground arith))
          (ground arith, a) in
      rw e more
]

pub Some-decimal : (n : ℕ) → Some is_digit (decimal n)
unfolding decimal
Some-decimal n = All-digits_onto (suc n) n [] (omega arith) tt

-- The answer to STAT of a server with `count` messages of `octets` bytes.
abbrev pub drop_line : ℕ → ℕ → ScanLine
drop_line count octets = record {
  count = decimal count;
  gap = codes " ";
  octets = decimal octets;
  extra = [];
}

abbrev pub maildrop : ℕ → ℕ → Answer
maildrop count octets = numbers (drop_line count octets)

-- The numbers that the server has printed are the values that the caller reads, if they are machine words.
-- `nom` is lawful.
pub parse-maildrop :
    (nom : Nom) (prims : LawfulPrimitives nom)
    → LawfulCombinators nom
    → (decode : Bytes → Option Bytes) (count octets : ℕ) (tail : Bytes) → count < usize_limit
    → octets < usize_limit
    → (s : Stat) × (parse nom decode (written (codes " ") (maildrop count octets) ++ tail) stat
        ≡ done tail (Response.stat s))
      × (value s.message_count ≡ ok count)
      × (value s.size ≡ ok octets)
parse-maildrop nom prims combs decode count octets tail h k = (
  _,
  parse-written nom prims combs decode stat (maildrop count octets) (codes " ") tail (refl, tt)
      (inl refl, (Some-decimal count, (refl, tt), Some-decimal octets, (tt, refl))),
  value-decimal count h,
  value-decimal octets k,
)
