-- ===== src/Pop2/Parser/Lines.antt =====
-- The responses that are one line: the status, and what stands behind it.
use getemail.Base.{
  ℕ, ◌≡◌, ◌≢◌, refl, sym, ◌∙◌, inl, inr, Bool, true, false, [], ◌∷◌, ◌++◌, Bytes, Option, some,
  arith, append_assoc, IsLine,
}
use getemail.Base.Decimal.{is_digit}
use getemail.Pop2.Response.{Response}
use getemail.Pop2.Env.{done}
use getemail.Pop2.Nom.{Nom, Parser, pure, ◌>>=◌, ◌>>◌}
use getemail.Pop2.Nom.Laws.{LawfulPrimitives, LawfulCombinators, is_space, tagged_from}
use getemail.Pop2.Parser.Core.{eol, message_parser, unwrap_or_empty}
use getemail.Pop2.Parser.Rfc1939.{
  ok_tag, err_tag, new_text, status, error_response, string_response,
}
use getemail.Pop2.Parser.Streams.{
  Untold, Cut-Untold, Untold-map, Streams, Streams-eq, Streams-bind, Streams-map, Streams-first,
  Streams-other, Streams-last, Rejects-eq, Rejects-bind,
}
use getemail.Pop2.Parser.Primitives.{
  All, StopsAt, Folds-refl, Streams-taken_while, Streams-taken_while1, Streams-tagged,
  Rejects-tagged, Differs, taken_line-whole, taken_line-cut,
}

abbrev pub crlf : Bytes
crlf = 0x0d ∷ 0x0a ∷ []

-- The tag of a status.
abbrev pub status_tag : Bool → Bytes
status_tag true = ok_tag
status_tag false = err_tag

module _ (nom : Nom) (prims : LawfulPrimitives nom) (combs : LawfulCombinators nom) where
  open prims use {tag-eq, space0-eq, space1-eq, digit1-eq, line_ending-eq, not_line_ending-eq}
  open combs use {map-eq, value-eq, opt-eq, pair-eq, terminated-eq}

  pub eol-crlf : (tail : Bytes) → eol nom (0x0d ∷ 0x0a ∷ tail) ≡ done tail tt
  unfolding eol
  eol-crlf tail =
      rw
        (
          pair-eq nom.space0 nom.line_ending (0x0d ∷ 0x0a ∷ tail),
          space0-eq (0x0d ∷ 0x0a ∷ tail),
          line_ending-eq (0x0d ∷ 0x0a ∷ tail),
        )
        refl

  -- What is left of a line, and its end.
  abbrev pub rest_of_line : {B : Type 0} → (Option Bytes → B) → Parser B
  rest_of_line f = do m ← nom.opt nom.not_line_ending; eol nom; pure (f m)

  line-Untold :
      {B : Type 0} (f : Option Bytes → B) (text tail part more : Bytes)
      → IsLine text
      → (text ++ crlf) ++ tail ≡ part ++ more
      → more ≢ []
      → Untold (rest_of_line f) tail (f (some text)) part more
  line-Untold f text tail part more h e ne =
      elim (taken_line-cut text tail part more h (sym (append_assoc text crlf tail) ∙ e) ne) [
        | inl w ↦ inl (rw (opt-eq nom.not_line_ending part, not_line_ending-eq part, w) refl)
        | inr (left, split, d) ↦ inr (
          left,
          split,
          rw (opt-eq nom.not_line_ending part, not_line_ending-eq part, d, eol-crlf left) refl,
        )
      ]

  pub Streams-line :
      {B : Type 0} (f : Option Bytes → B) (text tail : Bytes)
      → IsLine text
      → Streams (rest_of_line f) (text ++ crlf) tail (f (some text))
  Streams-line f text tail h = record {
    whole =
        rw
          (
            append_assoc text crlf tail,
            opt-eq nom.not_line_ending (text ++ 0x0d ∷ 0x0a ∷ tail),
            not_line_ending-eq (text ++ 0x0d ∷ 0x0a ∷ tail),
            taken_line-whole text tail h,
            eol-crlf tail,
          )
          refl;
    cut = λ part more e ne.
        Cut-Untold (rest_of_line f) part more (line-Untold f text tail part more h e ne);
  }

  pub Streams-message_parser :
      (text tail : Bytes)
      → IsLine text
      → Streams (message_parser nom) (text ++ crlf) tail (some text)
  unfolding message_parser
  Streams-message_parser text tail h =
      Streams-eq _ _ (terminated-eq (nom.opt nom.not_line_ending) (eol nom))
        (Streams-line (λ m. m) text tail h)

  pub message_parser-Untold :
      (text tail part more : Bytes)
      → IsLine text
      → (text ++ crlf) ++ tail ≡ part ++ more
      → more ≢ []
      → Untold (message_parser nom) tail (some text) part more
  unfolding message_parser
  message_parser-Untold text tail part more h e ne =
      rw (terminated-eq (nom.opt nom.not_line_ending) (eol nom) part)
        (line-Untold (λ m. m) text tail part more h e ne)

  pub Streams-string_response :
      (text tail : Bytes)
      → IsLine text
      → Streams (string_response nom) (text ++ crlf) tail (Response.message (new_text text))
  unfolding string_response
  Streams-string_response text tail h =
      Streams-map (message_parser nom) (λ m. Response.message (new_text (unwrap_or_empty m)))
        (Streams-message_parser text tail h)

  pub Streams-error_response :
      (text tail : Bytes)
      → IsLine text
      → Streams (error_response nom) (text ++ crlf) tail (Response.err (new_text text))
  unfolding error_response
  Streams-error_response text tail h =
      Streams-map (message_parser nom) (λ m. Response.err (new_text (unwrap_or_empty m)))
        (Streams-message_parser text tail h)

  pub Streams-tag : (t tail : Bytes) → Streams (nom.tag t) t tail t
  Streams-tag t tail = Streams-eq _ _ (tag-eq t) (Streams-tagged (λ c. c) t t tail (Folds-refl _ t))

  pub Streams-space0 :
      (spaces tail : Bytes)
      → All is_space spaces
      → StopsAt is_space tail
      → Streams nom.space0 spaces tail spaces
  Streams-space0 spaces tail h stop =
      Streams-eq _ _ space0-eq (Streams-taken_while is_space spaces tail h stop)

  pub Streams-space1 :
      (c : ℕ) (spaces tail : Bytes)
      → All is_space (c ∷ spaces)
      → StopsAt is_space tail
      → Streams nom.space1 (c ∷ spaces) tail (c ∷ spaces)
  Streams-space1 c spaces tail h stop =
      Streams-eq _ _ space1-eq (Streams-taken_while1 is_space c spaces tail h stop)

  pub Streams-digit1 :
      (d : ℕ) (digits tail : Bytes)
      → All is_digit (d ∷ digits)
      → StopsAt is_digit tail
      → Streams nom.digit1 (d ∷ digits) tail (d ∷ digits)
  Streams-digit1 d digits tail h stop =
      Streams-eq _ _ digit1-eq (Streams-taken_while1 is_digit d digits tail h stop)

  Streams-value : {B : Type 0} (b : B) (t tail : Bytes) → Streams (nom.value b (nom.tag t)) t tail b
  Streams-value b t tail =
      Streams-eq (nom.value b (nom.tag t)) (nom.tag t >>= λ _. pure b) (value-eq b (nom.tag t))
        (Streams-map (nom.tag t) (λ _. b) (Streams-tag t tail))

  -- One of two tags.
  Streams-either :
      {B : Type 0} (b c : B) (t u tail : Bytes)
      → Differs (λ x. x) t (u ++ tail)
      → Streams (nom.alt (nom.value b (nom.tag t) ∷ nom.value c (nom.tag u) ∷ [])) u tail c
  Streams-either b c t u tail d =
      Streams-other nom combs (nom.value b (nom.tag t)) (nom.value c (nom.tag u)) []
        (Rejects-eq (nom.value b (nom.tag t)) (nom.tag t >>= λ _. pure b) (value-eq b (nom.tag t)) (
          Rejects-bind (nom.tag t) (λ _. pure b) (u ++ tail)
            (Rejects-eq (nom.tag t) (tagged_from (λ x. x) t) (tag-eq t)
              (Rejects-tagged (λ x. x) t (u ++ tail) d))))
        (Streams-last nom combs (nom.value c (nom.tag u)) (Streams-value c u tail))

  Differs-err : (tail : Bytes) → Differs (λ x. x) ok_tag (err_tag ++ tail)
  Differs-err tail = (omega arith, inl (omega arith))

  Streams-status_tag :
      (success : Bool) (tail : Bytes)
      → Streams
          (nom.alt (nom.value true (nom.tag ok_tag) ∷ nom.value false (nom.tag err_tag) ∷ []))
          (status_tag success)
          tail
          success
  Streams-status_tag true tail =
      Streams-first nom combs (nom.value true (nom.tag ok_tag)) (nom.value false (nom.tag err_tag))
        [] (Streams-value true ok_tag tail)
  Streams-status_tag false tail = Streams-either true false ok_tag err_tag tail (Differs-err tail)

  -- `+OK` or `-ERR`, and spaces.
  pub Streams-status :
      (success : Bool) (spaces tail : Bytes)
      → All is_space spaces
      → StopsAt is_space tail
      → Streams (status nom) (status_tag success ++ spaces) tail (record { success = success })
  unfolding status
  Streams-status success spaces tail h stop = Streams-eq _ _ (terminated-eq _ nom.space0) (
      Streams-bind _ (λ s. nom.space0 >>= λ _. pure s) (status_tag success) spaces tail _ _
        (Streams-eq _ _ (map-eq _ _) (
          Streams-map _ (λ s. record { success = s })
            (Streams-status_tag success (spaces ++ tail))))
        (Streams-map nom.space0 (λ _. record { success = success })
          (Streams-space0 spaces tail h stop)))

  pub string_response-Untold :
      (text tail part more : Bytes)
      → IsLine text
      → (text ++ crlf) ++ tail ≡ part ++ more
      → more ≢ []
      → Untold (string_response nom) tail (Response.message (new_text text)) part more
  unfolding string_response
  string_response-Untold text tail part more h e ne =
      Untold-map (message_parser nom) (λ m. Response.message (new_text (unwrap_or_empty m))) part
        more (message_parser-Untold text tail part more h e ne)

  pub error_response-Untold :
      (text tail part more : Bytes)
      → IsLine text
      → (text ++ crlf) ++ tail ≡ part ++ more
      → more ≢ []
      → Untold (error_response nom) tail (Response.err (new_text text)) part more
  unfolding error_response
  error_response-Untold text tail part more h e ne =
      Untold-map (message_parser nom) (λ m. Response.err (new_text (unwrap_or_empty m))) part more
        (message_parser-Untold text tail part more h e ne)
