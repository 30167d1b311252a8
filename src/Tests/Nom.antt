-- ===== src/Tests/Nom.antt =====
-- Parsers that keep the laws: each is the answer that the laws tell.
use getemail.Base.{
  ℕ, zero, suc, ◌≡◌, ◌<◌, refl, ap, List, [], ◌∷◌, Bytes, arith, length, ltb, ◌==◌, if◌then◌else◌,
  lower,
}
use getemail.Base.Decimal.{is_digit}
use getemail.Pop2.Env.{IResult, done, incomplete, error, failure, size}
use getemail.Pop2.Nom.{Nom, Parser, pure, ◌>>=◌, and_then}
use getemail.Pop2.Nom.Laws.{
  tagged_from, taken_while, taken_while1, taken_m_n, taken_line, line_end, taken_until, one, is_in,
  is_space, optional, or_else, LawfulPrimitives, LawfulCombinators,
}

abbrev first_of : {A : Type 0} → List (Parser A) → Parser A
first_of [] input = error
first_of (p ∷ []) input = p input
first_of (p ∷ q ∷ ps) input = or_else (p input) (first_of (q ∷ ps) input)

-- What an end, or else an item, makes of a loop; `again` is the loop behind the item.
abbrev after_item :
    {A B : Type 0} → ℕ → IResult A → (Bytes → IResult (List A × B)) → IResult (List A × B)
after_item n (done rest a) again =
    let more = and_then (again rest) (λ (as', b) left. done left (a ∷ as', b)) in
    if ltb (length rest) n then more else error
after_item n (incomplete needed) again = incomplete needed
after_item n error again = error
after_item n failure again = failure

abbrev after_end : {A B : Type 0} → IResult B → IResult (List A × B) → IResult (List A × B)
after_end (done rest b) item = done rest ([], b)
after_end (incomplete needed) item = incomplete needed
after_end error item = item
after_end failure item = failure

abbrev till : {A B : Type 0} → ℕ → Parser A → Parser B → Parser (List A × B)
till zero p q input = error
till (suc n) p q input =
    after_end (q input) (after_item (length input) (p input) (λ rest. till n p q rest))

-- Elements until one is refused; `again` is the loop behind the element.
abbrev after_element :
    {A : Type 0} → Bytes → IResult A → (Bytes → IResult (List A)) → IResult (List A)
after_element input (done rest a) again =
    let more = and_then (again rest) (λ as' left. done left (a ∷ as')) in
    if ltb (length rest) (length input) then more else error
after_element input (incomplete needed) again = incomplete needed
after_element input error again = done input []
after_element input failure again = failure

abbrev elements : {A : Type 0} → ℕ → Parser A → Parser (List A)
elements zero p input = error
elements (suc n) p input = after_element input (p input) (λ rest. elements n p rest)

-- One element, and more of them by another parser.
abbrev one_and : {A : Type 0} → Parser A → Parser A → Parser (List A)
one_and p q = p >>= λ a. (λ rest. elements (suc (length rest)) q rest) >>= λ as'. pure (a ∷ as')

-- The list that begins with this element, or none.
abbrev list_behind :
    {A : Type 0} → Bytes → IResult A → (Bytes → IResult (List A)) → IResult (List A)
list_behind input (done rest a) again = and_then (again rest) (λ as' left. done left (a ∷ as'))
list_behind input (incomplete needed) again = incomplete needed
list_behind input error again = done input []
list_behind input failure again = failure

abbrev pub nom : Nom
nom = record {
  tag = tagged_from (λ c. c);
  tag_no_case = tagged_from lower;
  char = λ c. one (λ d. d == c);
  one_of = λ cs. one (is_in cs);
  space0 = taken_while is_space;
  space1 = taken_while1 is_space;
  digit1 = taken_while1 is_digit;
  line_ending = line_end (size 2);
  not_line_ending = taken_line;
  take_while = taken_while;
  take_while_m_n = taken_m_n;
  take_until = taken_until;
  map = λ p f. p >>= λ a. pure (f a);
  value = λ b p. p >>= λ _. pure b;
  opt = λ p input. optional (p input) input;
  alt = first_of;
  pair = λ p q. p >>= λ a. q >>= λ b. pure (a, b);
  terminated = λ p q. p >>= λ a. q >>= λ _. pure a;
  preceded = λ p q. p >>= λ _. q;
  delimited = λ p q r. p >>= λ _. q >>= λ b. r >>= λ _. pure b;
  tuple = λ p q r. p >>= λ a. q >>= λ b. r >>= λ c. pure (a, b, c);
  many1 = λ p. one_and p p;
  many_till = λ p q input. till (suc (length input)) p q input;
  separated_list0 = λ s p input.
      list_behind input (p input) (λ rest. elements (suc (length rest)) (s >>= λ _. p) rest);
}

pub nom-LawfulPrimitives : LawfulPrimitives nom
nom-LawfulPrimitives = record {
  cr_needs = size 2;
  tag-eq = λ t input. refl;
  tag_no_case-eq = λ t input. refl;
  char-eq = λ c input. refl;
  one_of-eq = λ cs input. refl;
  space0-eq = λ input. refl;
  space1-eq = λ input. refl;
  digit1-eq = λ input. refl;
  line_ending-eq = λ input. refl;
  not_line_ending-eq = λ input. refl;
  take_while-eq = λ p input. refl;
  take_while_m_n-eq = λ m n p input. refl;
  take_until-eq = λ t input. refl;
}

module _ {A B : Type 0} where
  -- The loop behind an item is asked on less input only.
  after_item-cong :
      (n : ℕ) (r : IResult A) (f g : Bytes → IResult (List A × B))
      → ((rest : Bytes) → length rest < n → f rest ≡ g rest)
      → after_item n r f ≡ after_item n r g
  after_item-cong n (done rest a) f g same = ground (arith, same rest)
  after_item-cong n (incomplete needed) f g same = refl
  after_item-cong n error f g same = refl
  after_item-cong n failure f g same = refl

  -- Enough fuel is as good as any.
  till_fuel :
      (n m : ℕ) (p : Parser A) (q : Parser B) (input : Bytes)
      → length input < n
      → length input < m
      → till n p q input ≡ till m p q input
  till_fuel zero m p q input h k = absurd (omega arith)
  till_fuel (suc n) zero p q input h k = absurd (omega arith)
  till_fuel (suc n) (suc m) p q input h k = ap (after_end (q input)) (
      after_item-cong (length input) (p input) (λ rest. till n p q rest) (λ rest. till m p q rest)
        (λ rest less. till_fuel n m p q rest (omega arith) (omega arith)))

  till_next :
      (p : Parser A) (q : Parser B) (input rest : Bytes) (a : A)
      → q input ≡ error
      → p input ≡ done rest a
      → length rest < length input
      → till (suc (length input)) p q input
        ≡ and_then (till (suc (length rest)) p q rest) (λ (as', b) left. done left (a ∷ as', b))
  till_next p q input rest a e d h =
      rw (e, d, till_fuel (length input) (suc (length rest)) p q rest h (omega arith))
        (ground (arith, h))

module _ {A : Type 0} where
  after_element-cong :
      (input : Bytes) (r : IResult A) (f g : Bytes → IResult (List A))
      → ((rest : Bytes) → length rest < length input → f rest ≡ g rest)
      → after_element input r f ≡ after_element input r g
  after_element-cong input (done rest a) f g same = ground (arith, same rest)
  after_element-cong input (incomplete needed) f g same = refl
  after_element-cong input error f g same = refl
  after_element-cong input failure f g same = refl

  elements_fuel :
      (n m : ℕ) (p : Parser A) (input : Bytes)
      → length input < n
      → length input < m
      → elements n p input ≡ elements m p input
  elements_fuel zero m p input h k = absurd (omega arith)
  elements_fuel (suc n) zero p input h k = absurd (omega arith)
  elements_fuel (suc n) (suc m) p input h k =
      after_element-cong input (p input) (λ rest. elements n p rest) (λ rest. elements m p rest)
        (λ rest less. elements_fuel n m p rest (omega arith) (omega arith))

  elements_next :
      (p : Parser A) (input rest : Bytes) (a : A)
      → p input ≡ done rest a
      → length rest < length input
      → elements (suc (length input)) p input
        ≡ and_then (elements (suc (length rest)) p rest) (λ as' left. done left (a ∷ as'))
  elements_next p input rest a e h =
      rw (e, elements_fuel (length input) (suc (length rest)) p rest h (omega arith))
        (ground (arith, h))

pub nom-LawfulCombinators : LawfulCombinators nom
nom-LawfulCombinators = record {
  map-eq = λ p f input. refl;
  value-eq = λ b p input. refl;
  opt-eq = λ p input. refl;
  alt-last = λ p input. refl;
  alt-more = λ p q ps input. refl;
  pair-eq = λ p q input. refl;
  terminated-eq = λ p q input. refl;
  preceded-eq = λ p q input. refl;
  delimited-eq = λ p q r input. refl;
  tuple-eq = λ p q r input. refl;
  many_till-end = λ p q input rest b e. rw e refl;
  many_till-wait = λ p q input needed e. rw e refl;
  many_till-next = λ p q input rest a e d h. till_next p q input rest a e d h;
  many_till-wait_item = λ p q input needed e d. rw (e, d) refl;
  many_till-error = λ p q input e d. rw (e, d) refl;
  many1-error = λ p input e. rw e refl;
  many1-wait = λ p input needed e. rw e refl;
  many1-last = λ p input rest a e d. rw (e, d) refl;
  many1-wait_next = λ p input rest a needed e d. rw (e, d) refl;
  many1-next = λ p input rest left a b e d h. rw (e, elements_next p rest left b d h, d) refl;
  separated-none = λ s p input e. rw e refl;
  separated-wait = λ s p input needed e. rw e refl;
  separated-last = λ s p input rest a e d. rw (e, d) refl;
  separated-wait_separator = λ s p input rest a needed e d. rw (e, d) refl;
  separated-wait_item = λ s p input rest next a b needed e d w. rw (e, d, w) refl;
  separated-next = λ s p input rest next left a a' b e d w h k.
      rw (e, elements_next (s >>= λ _. p) rest left a' (rw (d, w) refl) (omega arith), w) refl;
}
