-- ===== src/Pop2/Parser/Capabilities.antt =====
-- The capabilities of RFC 2449, one to a line, and the parser of each.
pub mod Sasl
pub mod Separated
pub mod Stated
pub mod Tried
pub mod Lists
use getemail.Base.{
  ℕ, zero, suc, ◌+◌, ◌≡◌, ◌≢◌, ◌≤◌, ◌<◌, refl, sym, subst, ◌∙◌, ◌⊎◌, inl, inr, Bool, true, false,
  ◌&&◌, ◌*◌, List, [], ◌∷◌, ◌++◌, Bytes, codes, arith, length, length-append, append_assoc,
  append-nil, take, Bool-cases, IsLine, none, some, lower, Option,
}
use getemail.Base.Decimal.{is_digit}
use getemail.Pop2.Types.{Text, Duration}
use getemail.Pop2.Response.{Expiration, never, time, Capability}
use getemail.Pop2.Env.{IResult, done, incomplete, error, size}
use getemail.Pop2.Nom.{Nom, Parser, pure, ◌>>=◌, and_then}
use getemail.Pop2.Nom.Laws.{
  LawfulPrimitives, LawfulCombinators, is_space, is_in, one, taken_while, taken_while1, tagged_from,
  optional,
}
use getemail.Pop2.Parser.Core.{eol, message_parser, unwrap_or_empty}
use getemail.Pop2.Parser.Rfc1939.{new_text}
use getemail.Pop2.Parser.Rfc2449.{
  new_duration, unwrap_or_default, name_chars, keyword, expiration, expire, login_delay,
  implementation, unknown_capability,
}
use getemail.Pop2.Parser.Streams.{
  Asks, Streams, Rejects, Streams-eq, Streams-bind, Streams-map, Streams-pure, Streams-first,
  Streams-other, Streams-last, Rejects-eq,
}
use getemail.Pop2.Parser.Primitives.{All, StopsAt, Streams-tagged, Folds-refl, Streams-taken_while1}
use getemail.Pop2.Parser.Lines.{crlf, Streams-message_parser}
use getemail.Pop2.Parser.Stats.{Some, digit_stops, Streams-number, Streams-spaces}
use getemail.Pop2.Parser.Endings.{Streams-eol}
use getemail.Pop2.Parser.Listings.{Rejects-number}

-- How long messages are kept.
abbrev pub period : Expiration → Bytes
period never = codes "NEVER"
period (time d) = d.inner.inner

abbrev pub IsPeriod : Expiration → Type 0
IsPeriod never = Unit {0}
IsPeriod (time d) = Some is_digit d.inner.inner × (d.to_secs_multiplier ≡ 24 * 60 * 60)

period_stops : (e : Expiration) (rest : Bytes) → IsPeriod e → StopsAt is_space (period e ++ rest)
period_stops never rest h = refl
period_stops (time d) rest h =
    (rw (append-nil d.inner.inner) at (digit_stops d.inner.inner [] rest h.0))

module _ (nom : Nom) (prims : LawfulPrimitives nom) (combs : LawfulCombinators nom) where
  open prims use {tag_no_case-eq, one_of-eq}
  open combs use {
    map-eq, value-eq, opt-eq, preceded-eq, terminated-eq, many1-error, many1-wait, many1-last,
    many1-wait_next, many1-next,
  }

  -- Characters of a set are taken while there are any.
  many1-one_of :
      (cs input : Bytes) → nom.many1 (nom.one_of cs) input ≡ taken_while1 (is_in cs) input
  many1-one_of cs [] = many1-wait (nom.one_of cs) [] (size 1) (one_of-eq cs [])
  many1-one_of cs (c ∷ []) = elim (Bool-cases (is_in cs c)) [
    | inl e ↦
        many1-wait_next (nom.one_of cs) (c ∷ []) [] c (size 1) (one_of-eq cs (c ∷ []) ∙ rw e refl)
          (one_of-eq cs [])
        ∙ sym (rw e refl)
    | inr e ↦
        many1-error (nom.one_of cs) (c ∷ []) (one_of-eq cs (c ∷ []) ∙ rw e refl) ∙ sym (rw e refl)
  ]
  many1-one_of cs (c ∷ d ∷ input) = elim (Bool-cases (is_in cs c)) [
    | inl e ↦ elim (Bool-cases (is_in cs d)) [
      | inl e' ↦
          many1-next (nom.one_of cs) (c ∷ d ∷ input) (d ∷ input) input c d
            (one_of-eq cs (c ∷ d ∷ input) ∙ rw e refl) (one_of-eq cs (d ∷ input) ∙ rw e' refl)
            (omega arith)
          ∙ rw (many1-one_of cs (d ∷ input), e, e') refl
      | inr e' ↦
          many1-last (nom.one_of cs) (c ∷ d ∷ input) (d ∷ input) c
            (one_of-eq cs (c ∷ d ∷ input) ∙ rw e refl) (one_of-eq cs (d ∷ input) ∙ rw e' refl)
          ∙ sym (rw (e, e') refl)
    ]
    | inr e ↦
        many1-error (nom.one_of cs) (c ∷ d ∷ input) (one_of-eq cs (c ∷ d ∷ input) ∙ rw e refl)
        ∙ sym (rw e refl)
  ]

  pub Streams-tag_no_case : (t tail : Bytes) → Streams (nom.tag_no_case t) t tail t
  Streams-tag_no_case t tail =
      Streams-eq (nom.tag_no_case t) (tagged_from lower t) (tag_no_case-eq t)
        (Streams-tagged lower t t tail (Folds-refl lower t))

  pub Streams-implementation :
      (text tail : Bytes)
      → IsLine text
      → Streams
          (implementation nom)
          (codes "IMPLEMENTATION" ++ (text ++ crlf))
          tail
          (Capability.implementation (new_text text))
  unfolding implementation
  Streams-implementation text tail h =
      Streams-bind (nom.tag_no_case (codes "IMPLEMENTATION")) _ (codes "IMPLEMENTATION")
        (text ++ crlf) tail (codes "IMPLEMENTATION") _
        (Streams-tag_no_case (codes "IMPLEMENTATION") ((text ++ crlf) ++ tail))
        (Streams-map (message_parser nom)
          (λ m. Capability.implementation (new_text (unwrap_or_empty m)))
          (Streams-message_parser nom prims combs text tail h))

  pub Streams-keyword :
      (c : Capability) (name tail : Bytes) → Streams (keyword nom c name) (name ++ crlf) tail c
  unfolding keyword
  Streams-keyword c name tail =
      Streams-eq _ _ (terminated-eq (nom.value c (nom.tag_no_case name)) (eol nom)) (
        Streams-bind (nom.value c (nom.tag_no_case name)) _ name crlf tail c c
          (Streams-eq _ _ (value-eq c (nom.tag_no_case name))
            (Streams-map (nom.tag_no_case name) (λ _. c) (Streams-tag_no_case name (crlf ++ tail))))
          (Streams-map (eol nom) (λ _. c) (Streams-eol nom prims combs tail)))

  pub Streams-unknown_capability :
      (name tail : Bytes)
      → Some (is_in name_chars) name
      → Streams (unknown_capability nom) (name ++ crlf) tail (Capability.other (new_text name))
  unfolding unknown_capability
  Streams-unknown_capability [] tail h = absurd h
  Streams-unknown_capability (c ∷ name) tail h = Streams-eq _ _ (terminated-eq _ (eol nom)) (
      Streams-bind _ _ (c ∷ name) crlf tail (Capability.other (new_text (c ∷ name))) _
        (Streams-eq _ _ (map-eq (nom.many1 (nom.one_of name_chars)) _) (
          Streams-map (nom.many1 (nom.one_of name_chars))
            (λ other. Capability.other (new_text other))
            (Streams-eq _ (taken_while1 (is_in name_chars)) (many1-one_of name_chars)
              (Streams-taken_while1 (is_in name_chars) c name (crlf ++ tail) h refl))))
        (Streams-map (eol nom) (λ _. Capability.other (new_text (c ∷ name)))
          (Streams-eol nom prims combs tail)))

  pub Streams-login_delay :
      (digits tail : Bytes)
      → Some is_digit digits
      → Streams
          (login_delay nom)
          (codes "LOGIN-DELAY" ++ (codes " " ++ (digits ++ crlf)))
          tail
          (Capability.login_delay (new_duration digits 1))
  unfolding login_delay
  Streams-login_delay digits tail h =
      let value = Capability.login_delay (new_duration digits 1) in
      Streams-bind (nom.tag_no_case (codes "LOGIN-DELAY")) _ (codes "LOGIN-DELAY")
        (codes " " ++ (digits ++ crlf)) tail (codes "LOGIN-DELAY") value
        (Streams-tag_no_case (codes "LOGIN-DELAY") ((codes " " ++ (digits ++ crlf)) ++ tail))
        (Streams-bind nom.space1 _ (codes " ") (digits ++ crlf) tail (codes " ") value
          (Streams-spaces nom prims combs (codes " ") ((digits ++ crlf) ++ tail) (refl, tt)
            (digit_stops digits crlf tail h))
          (Streams-bind nom.digit1 _ digits crlf tail digits value
            (Streams-number nom prims combs digits (crlf ++ tail) h refl)
            (Streams-map (eol nom) (λ _. value) (Streams-eol nom prims combs tail))))

  Streams-some :
      {A : Type 0} (p : Parser A) (text tail : Bytes) (a : A)
      → Streams p text tail a
      → Streams (nom.opt p) text tail (some a)
  Streams-some p text tail a s = record {
    whole = opt-eq p (text ++ tail) ∙ rw s.whole refl;
    cut = λ part more e ne. elim (s.cut part more e ne) [
      | inl (needed, w, h) ↦ inl (needed, opt-eq p part ∙ rw w refl, h)
      | inr (left, split, d) ↦ inr (left, split, opt-eq p part ∙ rw d refl)
    ];
  }

  Streams-period :
      (e : Expiration) (tail : Bytes)
      → IsPeriod e
      → Streams
          (nom.alt (
            nom.map nom.digit1 (λ digits. time (new_duration digits (24 * 60 * 60)))
            ∷ nom.value never (nom.tag_no_case (codes "NEVER"))
            ∷ []))
          (period e)
          (crlf ++ tail)
          e
  Streams-period never tail h =
      Streams-other nom combs (nom.map nom.digit1 _)
        (nom.value never (nom.tag_no_case (codes "NEVER"))) []
        (Rejects-eq _ _ (map-eq nom.digit1 _)
          (Rejects-number nom prims combs _ (codes "NEVER" ++ (crlf ++ tail)) refl))
        (Streams-last nom combs (nom.value never (nom.tag_no_case (codes "NEVER"))) (
          Streams-eq _ _ (value-eq never (nom.tag_no_case (codes "NEVER"))) (
            Streams-map (nom.tag_no_case (codes "NEVER")) (λ _. never)
              (Streams-tag_no_case (codes "NEVER") (crlf ++ tail)))))
  Streams-period (time d) tail h =
      Streams-first nom combs (nom.map nom.digit1 _)
        (nom.value never (nom.tag_no_case (codes "NEVER"))) []
        (Streams-eq _ _ (map-eq nom.digit1 _) (
          subst
            (λ k.
              Streams (nom.digit1 >>= λ digits. pure (time (new_duration digits (24 * 60 * 60))))
                d.inner.inner (crlf ++ tail) (time (new_duration d.inner.inner k)))
            (sym h.1)
            (Streams-map nom.digit1 (λ digits. time (new_duration digits (24 * 60 * 60)))
              (Streams-number nom prims combs d.inner.inner (crlf ++ tail) h.0 refl))))

  pub Streams-expire :
      (e : Expiration) (tail : Bytes)
      → IsPeriod e
      → Streams
          (expire nom)
          (codes "EXPIRE" ++ ((codes " " ++ period e) ++ crlf))
          tail
          (Capability.expire e)
  unfolding expire expiration
  Streams-expire e tail h =
      Streams-bind (nom.tag_no_case (codes "EXPIRE")) _ (codes "EXPIRE")
        ((codes " " ++ period e) ++ crlf) tail (codes "EXPIRE") (Capability.expire e)
        (Streams-tag_no_case (codes "EXPIRE") _)
        (Streams-bind (nom.opt (expiration nom)) _ (codes " " ++ period e) crlf tail (some e)
          (Capability.expire e)
          (Streams-some (expiration nom) (codes " " ++ period e) (crlf ++ tail) e (
            Streams-eq _ _ (preceded-eq nom.space1 _) (
              Streams-bind nom.space1 _ (codes " ") (period e) (crlf ++ tail) (codes " ") e
                (Streams-spaces nom prims combs (codes " ") (period e ++ (crlf ++ tail)) (refl, tt)
                  (period_stops e (crlf ++ tail) h))
                (Streams-period e tail h))))
          (Streams-map (eol nom) (λ _. Capability.expire e) (Streams-eol nom prims combs tail)))
