-- ===== src/Pop2/Nom/Laws.antt =====
-- What the documentation of nom says of its streaming parsers. Each of these functions is the answer of
-- one parser; input that ends too early is `incomplete`.
use getemail.Base.{
  ℕ, zero, suc, ◌-◌, ◌<◌, ◌≡◌, Bool, false, ◌&&◌, ◌||◌, List, [], ◌∷◌, Bytes, Option, none, some,
  length, ◌==◌, if◌then◌else◌, lower, starts_with,
}
use getemail.Base.Decimal.{is_digit}
use getemail.Pop2.Env.{IResult, done, incomplete, error, failure, Needed, unknown, size}
use getemail.Pop2.Nom.{Nom, Parser, pure, ◌>>=◌, and_then}

abbrev pub is_space : ℕ → Bool
is_space c = c == 0x20 || c == 0x09

abbrev pub is_line_end : ℕ → Bool
is_line_end c = c == 0x0d || c == 0x0a

-- The text is compared byte for byte.
abbrev pub tagged_from : (ℕ → ℕ) → Bytes → Bytes → IResult Bytes
tagged_from fold [] input = done input []
tagged_from fold (t ∷ ts) [] = incomplete (size (suc (length ts)))
tagged_from fold (t ∷ ts) (c ∷ cs) =
    let rest = and_then (tagged_from fold ts cs) (λ found input. done input (c ∷ found)) in
    if fold t == fold c then rest else error

-- Bytes are taken while they pass the test; the input has to go on behind them.
abbrev pub cons : ℕ → Bytes → Bytes → IResult Bytes
cons c rest found = done rest (c ∷ found)

abbrev pub taken_while : (ℕ → Bool) → Bytes → IResult Bytes
taken_while p [] = incomplete (size 1)
taken_while p (c ∷ cs) =
    let more = and_then (taken_while p cs) (λ found rest. cons c rest found) in
    if p c then more else done (c ∷ cs) []

-- At least one.
abbrev pub taken_while1 : (ℕ → Bool) → Bytes → IResult Bytes
taken_while1 p [] = incomplete (size 1)
taken_while1 p (c ∷ cs) =
    if p c then and_then (taken_while p cs) (λ found rest. cons c rest found) else error

-- At least `m` and at most `n`.
abbrev pub taken_m_n : ℕ → ℕ → (ℕ → Bool) → Bytes → IResult Bytes
taken_m_n m zero p input = done input []
taken_m_n m (suc n) p [] = incomplete (size (if m == 0 then 1 else m))
taken_m_n m (suc n) p (c ∷ cs) =
    let more = and_then (taken_m_n (m - 1) n p cs) (λ found rest. cons c rest found) in
    if p c then more else if m == 0 then done (c ∷ cs) [] else error

-- Up to the end of the line, which is `\n` or `\r\n`.
abbrev pub taken_line : Bytes → IResult Bytes
taken_line [] = incomplete unknown
taken_line (c ∷ []) = if c == 0x0a then done (c ∷ []) [] else incomplete unknown
taken_line (c ∷ d ∷ cs) =
    let more = and_then (taken_line (d ∷ cs)) (λ found rest. cons c rest found) in
    if c == 0x0a
    then done (c ∷ d ∷ cs) []
    else if c == 0x0d
    then (if d == 0x0a then done (c ∷ d ∷ cs) [] else error)
    else more

-- How much is asked for behind a lone `\r` is not said.
abbrev pub line_end : Needed → Bytes → IResult Bytes
line_end cr_needs [] = incomplete (size 1)
line_end cr_needs (c ∷ []) =
    if c == 0x0a then done [] (c ∷ []) else if c == 0x0d then incomplete cr_needs else error
line_end cr_needs (c ∷ d ∷ cs) =
    if c == 0x0a
    then done (d ∷ cs) (c ∷ [])
    else if c == 0x0d && d == 0x0a
    then done cs (c ∷ d ∷ [])
    else error

abbrev pub taken_until : Bytes → Bytes → IResult Bytes
taken_until t [] = if starts_with t [] then done [] [] else incomplete unknown
taken_until t (c ∷ cs) =
    let more = and_then (taken_until t cs) (λ found rest. cons c rest found) in
    if starts_with t (c ∷ cs) then done (c ∷ cs) [] else more

abbrev pub one : (ℕ → Bool) → Bytes → IResult ℕ
one p [] = incomplete (size 1)
one p (c ∷ cs) = if p c then done cs c else error

abbrev pub is_in : Bytes → ℕ → Bool
is_in [] c = false
is_in (d ∷ ds) c = d == c || is_in ds c

abbrev pub optional : {A : Type 0} → IResult A → Bytes → IResult (Option A)
optional (done rest a) input = done rest (some a)
optional (incomplete needed) input = incomplete needed
optional error input = done input none
optional failure input = failure

-- The next alternative is tried where this one has refused.
abbrev pub or_else : {A : Type 0} → IResult A → IResult A → IResult A
or_else (done rest a) next = done rest a
or_else (incomplete needed) next = incomplete needed
or_else error next = next
or_else failure next = failure

-- The laws of the primitive parsers.
pub record LawfulPrimitives (nom : Nom) : Type 0 where
  pub cr_needs : Needed
  pub tag-eq : (t input : Bytes) → nom.tag t input ≡ tagged_from (λ c. c) t input
  pub tag_no_case-eq : (t input : Bytes) → nom.tag_no_case t input ≡ tagged_from lower t input
  pub char-eq : (c : ℕ) (input : Bytes) → nom.char c input ≡ one (λ d. d == c) input
  pub one_of-eq : (cs input : Bytes) → nom.one_of cs input ≡ one (is_in cs) input
  pub space0-eq : (input : Bytes) → nom.space0 input ≡ taken_while is_space input
  pub space1-eq : (input : Bytes) → nom.space1 input ≡ taken_while1 is_space input
  pub digit1-eq : (input : Bytes) → nom.digit1 input ≡ taken_while1 is_digit input
  pub line_ending-eq : (input : Bytes) → nom.line_ending input ≡ line_end cr_needs input
  pub not_line_ending-eq : (input : Bytes) → nom.not_line_ending input ≡ taken_line input
  pub take_while-eq : (p : ℕ → Bool) (input : Bytes) → nom.take_while p input ≡ taken_while p input
  pub take_while_m_n-eq :
      (m n : ℕ) (p : ℕ → Bool) (input : Bytes)
      → nom.take_while_m_n m n p input ≡ taken_m_n m n p input
  pub take_until-eq : (t input : Bytes) → nom.take_until t input ≡ taken_until t input

-- The laws of the combinators. A loop ends with an error where an element takes no input, of which
-- nothing is stated.
pub record LawfulCombinators (nom : Nom) : Type 1 where
  pub map-eq :
      {A B : Type 0} (p : Parser A) (f : A → B) (input : Bytes)
      → nom.map p f input ≡ (p >>= λ a. pure (f a)) input
  pub value-eq :
      {A B : Type 0} (b : B) (p : Parser A) (input : Bytes)
      → nom.value b p input ≡ (p >>= λ _. pure b) input
  pub opt-eq :
      {A : Type 0} (p : Parser A) (input : Bytes) → nom.opt p input ≡ optional (p input) input
  pub alt-last : {A : Type 0} (p : Parser A) (input : Bytes) → nom.alt (p ∷ []) input ≡ p input
  pub alt-more :
      {A : Type 0} (p q : Parser A) (ps : List (Parser A)) (input : Bytes)
      → nom.alt (p ∷ q ∷ ps) input ≡ or_else (p input) (nom.alt (q ∷ ps) input)
  pub pair-eq :
      {A B : Type 0} (p : Parser A) (q : Parser B) (input : Bytes)
      → nom.pair p q input ≡ (p >>= λ a. q >>= λ b. pure (a, b)) input
  pub terminated-eq :
      {A B : Type 0} (p : Parser A) (q : Parser B) (input : Bytes)
      → nom.terminated p q input ≡ (p >>= λ a. q >>= λ _. pure a) input
  pub preceded-eq :
      {A B : Type 0} (p : Parser A) (q : Parser B) (input : Bytes)
      → nom.preceded p q input ≡ (p >>= λ _. q) input
  pub delimited-eq :
      {A B C : Type 0} (p : Parser A) (q : Parser B) (r : Parser C) (input : Bytes)
      → nom.delimited p q r input ≡ (p >>= λ _. q >>= λ b. r >>= λ _. pure b) input
  pub tuple-eq :
      {A B C : Type 0} (p : Parser A) (q : Parser B) (r : Parser C) (input : Bytes)
      → nom.tuple p q r input ≡ (p >>= λ a. q >>= λ b. r >>= λ c. pure (a, b, c)) input
  pub many_till-end :
      {A B : Type 0} (p : Parser A) (q : Parser B) (input rest : Bytes) (b : B)
      → q input ≡ done rest b
      → nom.many_till p q input ≡ done rest ([], b)
  pub many_till-wait :
      {A B : Type 0} (p : Parser A) (q : Parser B) (input : Bytes) (needed : Needed)
      → q input ≡ incomplete needed
      → nom.many_till p q input ≡ incomplete needed
  pub many_till-next :
      {A B : Type 0} (p : Parser A) (q : Parser B) (input rest : Bytes) (a : A)
      → q input ≡ error
      → p input ≡ done rest a
      → length rest < length input
      → nom.many_till p q input
        ≡ and_then (nom.many_till p q rest) (λ (as', b) left. done left (a ∷ as', b))
  pub many_till-wait_item :
      {A B : Type 0} (p : Parser A) (q : Parser B) (input : Bytes) (needed : Needed)
      → q input ≡ error
      → p input ≡ incomplete needed
      → nom.many_till p q input ≡ incomplete needed
  pub many_till-error :
      {A B : Type 0} (p : Parser A) (q : Parser B) (input : Bytes)
      → q input ≡ error
      → p input ≡ error
      → nom.many_till p q input ≡ error
  pub many1-error :
      {A : Type 0} (p : Parser A) (input : Bytes) → p input ≡ error → nom.many1 p input ≡ error
  pub many1-wait :
      {A : Type 0} (p : Parser A) (input : Bytes) (needed : Needed)
      → p input ≡ incomplete needed
      → nom.many1 p input ≡ incomplete needed
  pub many1-last :
      {A : Type 0} (p : Parser A) (input rest : Bytes) (a : A)
      → p input ≡ done rest a
      → p rest ≡ error
      → nom.many1 p input ≡ done rest (a ∷ [])
  pub many1-wait_next :
      {A : Type 0} (p : Parser A) (input rest : Bytes) (a : A) (needed : Needed)
      → p input ≡ done rest a
      → p rest ≡ incomplete needed
      → nom.many1 p input ≡ incomplete needed
  pub many1-next :
      {A : Type 0} (p : Parser A) (input rest left : Bytes) (a b : A)
      → p input ≡ done rest a
      → p rest ≡ done left b
      → length left < length rest
      → nom.many1 p input ≡ and_then (nom.many1 p rest) (λ as' left. done left (a ∷ as'))
  pub separated-none :
      {A B : Type 0} (s : Parser B) (p : Parser A) (input : Bytes)
      → p input ≡ error
      → nom.separated_list0 s p input ≡ done input []
  pub separated-wait :
      {A B : Type 0} (s : Parser B) (p : Parser A) (input : Bytes) (needed : Needed)
      → p input ≡ incomplete needed
      → nom.separated_list0 s p input ≡ incomplete needed
  pub separated-last :
      {A B : Type 0} (s : Parser B) (p : Parser A) (input rest : Bytes) (a : A)
      → p input ≡ done rest a
      → s rest ≡ error
      → nom.separated_list0 s p input ≡ done rest (a ∷ [])
  pub separated-wait_separator :
      {A B : Type 0} (s : Parser B) (p : Parser A) (input rest : Bytes) (a : A) (needed : Needed)
      → p input ≡ done rest a
      → s rest ≡ incomplete needed
      → nom.separated_list0 s p input ≡ incomplete needed
  pub separated-wait_item :
      {A B : Type 0} (s : Parser B) (p : Parser A) (input rest next : Bytes) (a : A) (b : B)
      (needed : Needed)
      → p input ≡ done rest a
      → s rest ≡ done next b
      → p next ≡ incomplete needed
      → nom.separated_list0 s p input ≡ incomplete needed
  pub separated-next :
      {A B : Type 0} (s : Parser B) (p : Parser A) (input rest next left : Bytes) (a a' : A) (b : B)
      → p input ≡ done rest a
      → s rest ≡ done next b
      → p next ≡ done left a'
      → length next < length rest
      → length left < length next
      → nom.separated_list0 s p input
        ≡ and_then (nom.separated_list0 s p next) (λ as' left. done left (a ∷ as'))
