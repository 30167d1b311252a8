-- ===== src/Pop2/Parser/Whole.antt =====
-- `parse` of async-pop2/src/response/parser/mod.rs: how a response is found to be a challenge, a success or
-- an error.
use getemail.Base.{
  ℕ, ◌≡◌, ◌≢◌, refl, ◌⊎◌, inl, inr, Bool, true, false, [], ◌∷◌, ◌++◌, Bytes, codes, Option, arith,
  append_assoc,
}
use getemail.Pop2.Command.{Command, auth, base64}
use getemail.Pop2.Response.{Response}
use getemail.Pop2.Env.{unknown}
use getemail.Pop2.Nom.{Nom, Parser}
use getemail.Pop2.Nom.Laws.{
  LawfulPrimitives, LawfulCombinators, is_space, taken_while1, tagged_from,
}
use getemail.Pop2.Parser.Rfc1939.{err_tag, status}
use getemail.Pop2.Parser.{challenge, by_status, status_response, after_challenge, by_request, parse}
use getemail.Pop2.Parser.Streams.{
  Cut, Streams, Rejects, Streams-eq, Streams-bind, Rejects-eq, Rejects-bind, Rejects-then,
}
use getemail.Pop2.Parser.Primitives.{All, StopsAt, Rejects-tagged, Rejects-taken_while1}
use getemail.Pop2.Parser.Lines.{status_tag, Streams-tag, Streams-status}

module _ (nom : Nom) (prims : LawfulPrimitives nom) (combs : LawfulCombinators nom) where
  open prims use {tag-eq, space1-eq}

  -- The text behind the status is read as the status says.
  pub Streams-status_response :
      (c : Command) (success : Bool) (spaces text tail : Bytes) (r : Response)
      → All is_space spaces
      → StopsAt is_space (text ++ tail)
      → Streams (by_status nom c success) text tail r
      → Streams (status_response nom c) ((status_tag success ++ spaces) ++ text) tail r
  unfolding status_response
  Streams-status_response c success spaces text tail r h stop s =
      Streams-bind (status nom) (λ x. by_status nom c x.success) (status_tag success ++ spaces) text
        tail (record { success = success }) r
        (Streams-status nom prims combs success spaces (text ++ tail) h stop) s

  -- No status is a challenge.
  pub Rejects-challenge :
      (success : Bool) (rest : Bytes) → Rejects (challenge nom) (status_tag success ++ rest)
  unfolding challenge
  Rejects-challenge true rest =
      Rejects-then (nom.tag (codes "+")) _ (codes "+") (codes "OK" ++ rest) (codes "+")
        (Streams-tag nom prims combs (codes "+") (codes "OK" ++ rest))
        (Rejects-bind nom.space1 _ (codes "OK" ++ rest) (
          Rejects-eq nom.space1 (taken_while1 is_space) space1-eq
            (Rejects-taken_while1 is_space (codes "OK" ++ rest) refl)))
  Rejects-challenge false rest = Rejects-bind (nom.tag (codes "+")) _ (err_tag ++ rest) (
      Rejects-eq (nom.tag (codes "+")) (tagged_from (λ x. x) (codes "+")) (tag-eq (codes "+"))
        (Rejects-tagged (λ x. x) (codes "+") (err_tag ++ rest) (omega arith, inl (omega arith))))

  module _ (decode : Bytes → Option Bytes) where
    abbrev pub parser : Command → Parser Response
    parser c input = parse nom decode input c

    -- A request is answered by its status, or else it may be answered by a challenge first.
    pub by_request_cases :
        (c : Command)
        → ((input : Bytes) → by_request nom decode c input ≡ status_response nom c input)
          ⊎ ((input : Bytes)
              → by_request nom decode c input
                ≡ after_challenge nom decode (challenge nom input) (status_response nom c input))
    unfolding by_request
    by_request_cases (base64 s) = inr (λ input. refl)
    by_request_cases auth = inr (λ input. refl)
    by_request_cases c = inl (λ input. refl)

    Streams-after_challenge :
        (c : Command) (text tail : Bytes) (r : Response)
        → Rejects (challenge nom) (text ++ tail)
        → Streams (status_response nom c) text tail r
        → Streams
            (λ input.
              after_challenge nom decode (challenge nom input) (status_response nom c input))
            text
            tail
            r
    unfolding after_challenge
    Streams-after_challenge c text tail r free s = record {
      whole = rw (free.refused) s.whole;
      cut = λ part more e ne. elim (free.cut part more e ne) [
        | inl (needed, w, h) ↦ inl (needed, rw w refl, h)
        | inr d ↦ rw d (s.cut part more e ne)
      ];
    }

    Streams-by_request :
        (c : Command) (text tail : Bytes) (r : Response)
        → Rejects (challenge nom) (text ++ tail)
        → Streams (status_response nom c) text tail r
        → Streams (by_request nom decode c) text tail r
    Streams-by_request c text tail r free s = elim (by_request_cases c) [
      | inl same ↦ Streams-eq (by_request nom decode c) (status_response nom c) same s
      | inr same ↦
          Streams-eq (by_request nom decode c) _ same (Streams-after_challenge c text tail r free s)
    ]

    pub Streams-nonempty :
        (c : Command) (x : ℕ) (text tail : Bytes) (r : Response)
        → Streams (by_request nom decode c) (x ∷ text) tail r
        → Streams (parser c) (x ∷ text) tail r
    unfolding parse
    Streams-nonempty c x text tail r s = record {
      whole = s.whole;
      cut = λ part more e ne. cut part more e ne;
    }
      where
        cut :
            (part more : Bytes)
            → x ∷ (text ++ tail) ≡ part ++ more
            → more ≢ []
            → Cut (parser c) tail r part more
        cut [] more e ne = inl (unknown, refl, tt)
        cut (y ∷ part) more e ne = s.cut (y ∷ part) more e ne

    -- What begins with a status is parsed by it, whatever the command.
    pub Streams-parse :
        (c : Command) (success : Bool) (spaces text tail : Bytes) (r : Response)
        → All is_space spaces
        → StopsAt is_space (text ++ tail)
        → Streams (by_status nom c success) text tail r
        → Streams (parser c) ((status_tag success ++ spaces) ++ text) tail r
    Streams-parse c success spaces text tail r h stop s = nonempty success (
        Streams-by_request c ((status_tag success ++ spaces) ++ text) tail r
          (rw
            (
              append_assoc (status_tag success ++ spaces) text tail,
              append_assoc (status_tag success) spaces (text ++ tail),
            )
            (Rejects-challenge success (spaces ++ (text ++ tail))))
          (Streams-status_response c success spaces text tail r h stop s))
      where
        nonempty :
            (success : Bool)
            → Streams (by_request nom decode c) ((status_tag success ++ spaces) ++ text) tail r
            → Streams (parser c) ((status_tag success ++ spaces) ++ text) tail r
        nonempty true s = Streams-nonempty c _ _ tail r s
        nonempty false s = Streams-nonempty c _ _ tail r s
