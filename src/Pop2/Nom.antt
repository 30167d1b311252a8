-- ===== src/Pop2/Nom.antt =====
-- The parsers of the crate nom that the response parser is made of (the streaming ones, where there
-- are two). They are a parameter; Nom/Laws says what is relied on.
pub mod Laws
use getemail.Base.{ℕ, Bool, List, Bytes, Option}
use getemail.Pop2.Env.{IResult, done, incomplete, error, failure}

abbrev pub Parser : Type 0 → Type 0
Parser A = Bytes → IResult A

-- `let (input, a) = p(input)?`
module _ {A B : Type 0} where
  abbrev pub and_then : IResult A → (A → Parser B) → IResult B
  and_then (done rest a) f = f a rest
  and_then (incomplete needed) f = incomplete needed
  and_then error f = error
  and_then failure f = failure

  infixl 5 ◌>>=◌ ◌>>◌
  abbrev pub ◌>>=◌ : Parser A → (A → Parser B) → Parser B
  ◌>>=◌ p f input = and_then (p input) f

  abbrev pub ◌>>◌ : Parser A → Parser B → Parser B
  p >> q = p >>= λ _. q

abbrev pub pure : {A : Type 0} → A → Parser A
pure a input = done input a

pub record Nom : Type 1 where
  pub tag : Bytes → Parser Bytes
  pub tag_no_case : Bytes → Parser Bytes
  pub char : ℕ → Parser ℕ
  pub one_of : Bytes → Parser ℕ
  pub space0 : Parser Bytes
  pub space1 : Parser Bytes
  pub digit1 : Parser Bytes
  pub line_ending : Parser Bytes
  pub not_line_ending : Parser Bytes
  pub take_while : (ℕ → Bool) → Parser Bytes
  pub take_while_m_n : ℕ → ℕ → (ℕ → Bool) → Parser Bytes
  pub take_until : Bytes → Parser Bytes
  pub map : {A B : Type 0} → Parser A → (A → B) → Parser B
  pub value : {A B : Type 0} → B → Parser A → Parser B
  pub opt : {A : Type 0} → Parser A → Parser (Option A)
  pub alt : {A : Type 0} → List (Parser A) → Parser A
  pub pair : {A B : Type 0} → Parser A → Parser B → Parser (A × B)
  pub terminated : {A B : Type 0} → Parser A → Parser B → Parser A
  pub preceded : {A B : Type 0} → Parser A → Parser B → Parser B
  pub delimited : {A B C : Type 0} → Parser A → Parser B → Parser C → Parser B
  pub tuple : {A B C : Type 0} → Parser A → Parser B → Parser C → Parser (A × B × C)
  pub many1 : {A : Type 0} → Parser A → Parser (List A)
  pub many_till : {A B : Type 0} → Parser A → Parser B → Parser (List A × B)
  pub separated_list0 : {A B : Type 0} → Parser B → Parser A → Parser (List A)
