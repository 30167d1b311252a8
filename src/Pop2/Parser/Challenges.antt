-- ===== src/Pop2/Parser/Challenges.antt =====
-- rfc1734.rs, and the first part of `parse`: the challenge of a server during the authentication.
use getemail.Base.{
  ℕ, ◌≡◌, ◌≤◌, ◌<◌, refl, ◌⊎◌, inl, inr, true, false, [], ◌∷◌, ◌++◌, Bytes, codes, Option, none,
  some, arith, Option-cases, length, ◌∙◌, ◌==◌, not, IsLine, append-nil, ap, subst, length-append,
  ◌≢◌,
}
use getemail.Pop2.Command.{Command, auth, base64}
use getemail.Pop2.Response.{Response}
use getemail.Pop2.Env.{Env, LawfulBuffers, done, error, incomplete, unknown}
use getemail.Pop2.Buffer.{max_size}
use getemail.Pop2.Stream.{PopStream}
use getemail.Pop2.Stream.Read.{read_response}
use getemail.Pop2.Stream.Progress.{Anywhere, Delivers, IsIdle}
use getemail.Pop2.Stream.Responds.{replied, read_response-Delivers}
use getemail.Pop2.Nom.{Nom}
use getemail.Pop2.Nom.Laws.{LawfulPrimitives, LawfulCombinators, is_space, tagged_from}
use getemail.Pop2.Parser.{
  challenge, status_response, decoded, after_challenge, by_request, parse, with_parser,
}
use getemail.Pop2.Parser.Core.{message_parser, unwrap_or_empty}
use getemail.Pop2.Parser.Rfc1939.{ok_tag, err_tag, new_text, status}
use getemail.Pop2.Parser.Primitives.{All, StopsAt, tail_eq}
use getemail.Pop2.Parser.Streams.{
  NotLineFeed, length_pos, Streams, Streams-eq, Streams-bind, Streams-map,
}
use getemail.Pop2.Parser.Lines.{crlf, Streams-tag, Streams-message_parser, message_parser-Untold}
use getemail.Pop2.Parser.Stats.{Some, All-Some, Streams-spaces, crlf_stops}
use getemail.Pop2.Parser.Whole.{parser, Streams-nonempty}
use getemail.Pop2.Parser.Asked.{
  AsksWithin, AsksWithin-Streams, split_within, clear_ahead, spaces_clear,
}
use getemail.Pop2.Parser.Replies.{Replies-Streams, lawful}
use getemail.Pop2.Parser.Answers.{IsMessage}

-- The commands that a challenge may answer.
abbrev pub IsExchange : Command → Type 0
IsExchange c = (c ≡ auth) ⊎ ((s : Bytes) × (c ≡ base64 s))

abbrev pub challenge_line : Bytes → Bytes → Bytes
challenge_line spaces text = b'+' ∷ (spaces ++ (text ++ crlf))

line_clear : (text : Bytes) → IsLine text → NotLineFeed (text ++ crlf)
line_clear [] h = omega arith
line_clear (c ∷ text) h = h.1

-- Where the first of two texts is cut, no line feed is next.
clear_behind :
    (a b part more rest : Bytes)
    → a ++ b ≡ part ++ more
    → a ≡ part ++ rest
    → All (λ c. not (c == 0x0a)) a
    → NotLineFeed b
    → NotLineFeed more
clear_behind a b [] more rest e split h k = subst NotLineFeed e (clear_ahead a b h k)
clear_behind [] b (x ∷ part) more rest e split h k = absurd (cc)
clear_behind (y ∷ a) b (x ∷ part) more rest e split h k =
    clear_behind a b part more rest (tail_eq e) (tail_eq split) h.1 k

module _ (nom : Nom) (prims : LawfulPrimitives nom) (combs : LawfulCombinators nom) where
  open prims use {tag-eq}
  open combs use {terminated-eq, map-eq, value-eq, alt-more, alt-last}

  Streams-challenge :
      (spaces text tail : Bytes)
      → Some is_space spaces
      → IsMessage text
      → Streams (challenge nom) (challenge_line spaces text) tail text
  unfolding challenge
  Streams-challenge spaces text tail h m =
      Streams-bind (nom.tag (codes "+")) _ (codes "+") (spaces ++ (text ++ crlf)) tail (codes "+")
        text (Streams-tag nom prims combs (codes "+") ((spaces ++ (text ++ crlf)) ++ tail))
        (Streams-bind nom.space1 _ spaces (text ++ crlf) tail spaces text
          (Streams-spaces nom prims combs spaces ((text ++ crlf) ++ tail) h
            (crlf_stops is_space text tail m.1))
          (Streams-map (message_parser nom) unwrap_or_empty
            (Streams-message_parser nom prims combs text tail m.0)))

  -- A line that begins with `+` and a space has no status.
  no_status : (x : ℕ) (rest : Bytes) → is_space x ≡ true → status nom (b'+' ∷ x ∷ rest) ≡ error
  unfolding status
  no_status x rest h =
      rw
        (
          terminated-eq _ nom.space0 (b'+' ∷ x ∷ rest),
          map-eq _ _ (b'+' ∷ x ∷ rest),
          alt-more _ _ [] (b'+' ∷ x ∷ rest),
          alt-last _ (b'+' ∷ x ∷ rest),
          value-eq true (nom.tag ok_tag) (b'+' ∷ x ∷ rest),
          value-eq false (nom.tag err_tag) (b'+' ∷ x ∷ rest),
          tag-eq ok_tag (b'+' ∷ x ∷ rest),
          tag-eq err_tag (b'+' ∷ x ∷ rest),
          no_ok x rest h,
        )
        refl
    where
      no_ok :
          (x : ℕ) (rest : Bytes)
          → is_space x ≡ true
          → tagged_from (λ c. c) ok_tag (b'+' ∷ x ∷ rest) ≡ error
      no_ok x rest h = ground (arith, h)

  module _ (decode : Bytes → Option Bytes) where
    exchange-eq :
        (c : Command) (input : Bytes)
        → IsExchange c
        → by_request nom decode c input
          ≡ after_challenge nom decode (challenge nom input) (status_response nom c input)
    unfolding by_request
    exchange-eq c input (inl e) = rw e refl
    exchange-eq c input (inr (s, e)) = rw e refl

    Streams-exchange :
        (c : Command) (spaces text tail secret : Bytes)
        → IsExchange c
        → Some is_space spaces
        → IsMessage text
        → decode text ≡ some secret
        → Streams
            (parser nom prims combs decode c)
            (challenge_line spaces text)
            tail
            (Response.challenge (new_text secret))
    unfolding after_challenge decoded
    Streams-exchange c spaces text tail secret x h m d =
        let s = Streams-challenge spaces text tail h m in
        Streams-nonempty nom prims combs decode c b'+' (spaces ++ (text ++ crlf)) tail
          (Response.challenge (new_text secret))
          (Streams-eq (by_request nom decode c) _ (λ input. exchange-eq c input x)
            (record {
              whole = rw (s.whole, d) refl;
              cut = λ part more e ne. elim (s.cut part more e ne) [
                | inl (needed, w, k) ↦ inl (needed, rw w refl, k)
                | inr (left, split, found) ↦ inr (left, split, rw (found, d) refl)
              ];
            }))

    -- A part of the line whose text has begun does not say how much is missing.
    begun :
        (c : Command) (spaces text : Bytes) (y : ℕ) (left more : Bytes)
        → IsExchange c
        → Some is_space spaces
        → IsMessage text
        → text ++ crlf ≡ y ∷ left ++ more
        → more ≢ []
        → parse nom decode ((codes "+" ++ spaces) ++ (y ∷ left)) c ≡ incomplete unknown
    unfolding parse after_challenge challenge
    begun c spaces text y left more x h m e ne =
        elim (message_parser-Untold nom prims combs text [] (y ∷ left) more m.0
          (append-nil (text ++ crlf) ∙ e) ne) [
            | inl w ↦
                exchange-eq c (b'+' ∷ (spaces ++ (y ∷ left))) x
                ∙ rw
                    (
                      (Streams-tag nom prims combs (codes "+") (spaces ++ (y ∷ left))).whole,
                      (Streams-spaces nom prims combs spaces (y ∷ left) h (stops e)).whole,
                      w,
                    )
                    refl
            | inr (rest, none_left, d) ↦
                absurd
                  (omega (arith, ap length none_left, length-append rest more, length_pos more ne))
          ]
      where
        stops : text ++ crlf ≡ y ∷ left ++ more → StopsAt is_space (y ∷ left)
        stops e = subst (StopsAt is_space) e m.1

    -- No part of a challenge asks for more than is missing, wherever it ends.
    AsksWithin-challenge :
        (c : Command) (spaces text secret : Bytes)
        → IsExchange c
        → Some is_space spaces
        → IsMessage text
        → decode text ≡ some secret
        → AsksWithin Anywhere
            (parser nom prims combs decode c)
            (challenge_line spaces text)
            (length (challenge_line spaces text))
    AsksWithin-challenge c spaces text secret x h m d part more e ne may =
        elim (split_within (codes "+" ++ spaces) (text ++ crlf) part more e) [
          | inl (rest, split) ↦
              AsksWithin-Streams (parser nom prims combs decode c) (challenge_line spaces text) _
                (Streams-exchange c spaces text [] secret x h m d) part more e ne
                (clear_behind (codes "+" ++ spaces) (text ++ crlf) part more rest e split
                  (refl, spaces_clear spaces (All-Some is_space spaces h)) (line_clear text m.0))
          | inr (y, left, split, rest) ↦
              inl (rw split (begun c spaces text y left more x h m rest ne))
        ]

    refused :
        (c : Command) (spaces text tail : Bytes)
        → IsExchange c
        → Some is_space spaces
        → IsMessage text
        → decode text ≡ none
        → parse nom decode (challenge_line spaces text ++ tail) c ≡ error
    unfolding parse after_challenge decoded status_response
    refused c [] text tail x h m d = absurd h
    refused c (y ∷ spaces) text tail x h m d =
        let s = Streams-challenge (y ∷ spaces) text tail h m in
        exchange-eq c (b'+' ∷ y ∷ ((spaces ++ (text ++ crlf)) ++ tail)) x
        ∙ rw (s.whole, d, no_status y ((spaces ++ (text ++ crlf)) ++ tail) h.0) refl

    -- The answer to `AUTH`, or to a base64 text, that begins with `+` and spaces is the challenge that the text
    -- decodes to, and what stands behind its line is left. If the text does not decode, it is an error. `nom` is
    -- lawful.
    pub parse-challenge :
        (c : Command) (spaces text tail : Bytes)
        → IsExchange c
        → Some is_space spaces
        → IsMessage text
        → (((secret : Bytes) × (decode text ≡ some secret)
              × (parse nom decode (challenge_line spaces text ++ tail) c
                  ≡ done tail (Response.challenge (new_text secret))))
            ⊎ ((decode text ≡ none)
                × (parse nom decode (challenge_line spaces text ++ tail) c ≡ error)))
    parse-challenge c spaces text tail x h m = elim (Option-cases (decode text)) [
      | inl d ↦ inr (d, refused c spaces text tail x h m d)
      | inr (secret, d) ↦
          inl (secret, d, (Streams-exchange c spaces text tail secret x h m d).whole)
    ]

  -- What follows the plus is decoded, and comes to the caller as a challenge, whatever pieces it arrives in; the
  -- stream is idle again, and its socket is left as `Then` says of the one behind the last byte. The stream was
  -- idle before, with `decode_needs` at most the length of the line, which fits into the buffer; the fuel exceeds the
  -- number of polls, and `nom` is lawful.
  pub read_response-challenge :
      (env : Env)
      → LawfulBuffers env
      → (c : Command) (spaces text secret : Bytes) (Then : (with_parser env nom).Socket → Type 0)
        (n fuel : ℕ) (s : PopStream (with_parser env nom))
      → IsExchange c
      → Some is_space spaces
      → IsMessage text
      → env.base64_decode text ≡ some secret
      → length (challenge_line spaces text) ≤ max_size
      → IsIdle (with_parser env nom) (length (challenge_line spaces text)) s
      → Delivers (with_parser env nom) Anywhere Then n s.stream (challenge_line spaces text)
      → n < fuel
      → (s' : PopStream (with_parser env nom)) × (read_response (with_parser env nom) fuel c s
          ≡ (replied (Response.challenge (new_text secret)), s'))
        × IsIdle (with_parser env nom) (length (challenge_line spaces text)) s'
        × Then s'.stream
  read_response-challenge env laws c spaces text secret Then n fuel s x h m d small idle delivers
        enough =
      let line = challenge_line spaces text in
      let p = parser nom prims combs env.base64_decode c in
      let streams : Streams p line [] (Response.challenge (new_text secret)) =
        Streams-exchange env.base64_decode c spaces text [] secret x h m d in
      read_response-Delivers (with_parser env nom) (lawful env laws nom prims combs) Anywhere c line
        (Response.challenge (new_text secret)) (length line)
        (Replies-Streams env laws nom prims combs Anywhere c line
          (Response.challenge (new_text secret)) (length line) small (omega arith) streams
          (AsksWithin-challenge env.base64_decode c spaces text secret x h m d)
          (λ part rest cut at more. tt))
        Then n fuel s (λ e. cc) idle delivers enough
