-- ===== src/Pop2/Parser/Capabilities/Tried.antt =====
-- Which of its alternatives the parser of a capability takes.
use getemail.Base.{
  ℕ, zero, suc, ◌≡◌, refl, sym, subst, true, List, [], ◌∷◌, ◌++◌, Bytes, codes, arith, length,
  length-append, take, lower,
}
use getemail.Pop2.Response.{Capability}
use getemail.Pop2.Env.{incomplete, size}
use getemail.Pop2.Nom.{Nom, Parser, ◌>>=◌}
use getemail.Pop2.Nom.Laws.{LawfulPrimitives, LawfulCombinators}
use getemail.Pop2.Parser.Core.{eol}
use getemail.Pop2.Parser.Rfc2449.{
  new_duration, keyword, sasl, login_delay, expire, implementation, unknown_capability, capability,
}
use getemail.Pop2.Parser.Streams.{Streams}
use getemail.Pop2.Parser.Lines.{crlf}
use getemail.Pop2.Parser.Choices.{
  Goes, Skips, Skips-eq, Skips-bind, AllSkip, Goes-here, Goes-behind, Streams-Goes,
}
use getemail.Pop2.Parser.Keywords.{all_apart, apart, apart_behind, Skips-tag_no_case}
use getemail.Pop2.Parser.Capabilities.Stated.{
  keywords, capability_text, IsStated, length-capability_text,
}
use getemail.Pop2.Parser.Capabilities.Separated.{Streams-sasl}
use getemail.Pop2.Parser.Capabilities.{
  Streams-keyword, Streams-login_delay, Streams-expire, Streams-implementation,
  Streams-unknown_capability,
}

-- Each parser begins with its keyword.
abbrev Tagged : Parser Capability → Bytes → Type 0
Tagged p t = (w rest : Bytes) → apart t w ≡ true → Skips p (w ++ rest)

abbrev AllTagged : List (Parser Capability) → List Bytes → Type 0
AllTagged [] ts = Unit {0}
AllTagged (p ∷ ps) [] = ⊥
AllTagged (p ∷ ps) (t ∷ ts) = Tagged p t × AllTagged ps ts

AllSkip-AllTagged :
    (ps : List (Parser Capability)) (ts : List Bytes) (w rest : Bytes)
    → AllTagged ps ts
    → all_apart (take (length ps) ts) w ≡ true
    → AllSkip ps (w ++ rest)
AllSkip-AllTagged [] ts w rest tagged h = tt
AllSkip-AllTagged (p ∷ ps) [] w rest tagged h = absurd tagged
AllSkip-AllTagged (p ∷ ps) (t ∷ ts) w rest tagged h = (
  tagged.0 w rest (ground (arith, h)),
  AllSkip-AllTagged ps ts w rest tagged.1 (ground (arith, h)),
)

AllTagged-take :
    (k : ℕ) (ps : List (Parser Capability)) (ts : List Bytes)
    → AllTagged ps ts
    → AllTagged (take k ps) ts
AllTagged-take zero ps ts h = tt
AllTagged-take (suc k) [] ts h = tt
AllTagged-take (suc k) (p ∷ ps) [] h = absurd h
AllTagged-take (suc k) (p ∷ ps) (t ∷ ts) h = (h.0, AllTagged-take k ps ts h.1)

module _ (nom : Nom) (prims : LawfulPrimitives nom) (combs : LawfulCombinators nom) where
  open prims use {tag_no_case-eq}
  open combs use {value-eq, terminated-eq, alt-more}

  Tagged-keyword : (c : Capability) (t : Bytes) → Tagged (keyword nom c t) t
  unfolding keyword
  Tagged-keyword c t w rest h =
      Skips-eq _ _ (terminated-eq (nom.value c (nom.tag_no_case t)) (eol nom)) (
        Skips-bind (nom.value c (nom.tag_no_case t)) _ (w ++ rest) (
          Skips-eq _ _ (value-eq c (nom.tag_no_case t)) (
            Skips-bind (nom.tag_no_case t) _ (w ++ rest) (Skips-tag_no_case nom prims t w rest h))))

  Tagged-bind : (f : Bytes → Parser Capability) (t : Bytes) → Tagged (nom.tag_no_case t >>= f) t
  Tagged-bind f t w rest h =
      Skips-bind (nom.tag_no_case t) f (w ++ rest) (Skips-tag_no_case nom prims t w rest h)

  -- The parsers of the keywords, in their order.
  unfoldable tried : List (Parser Capability)
  tried =
      keyword nom Capability.top (codes "TOP")
      ∷ keyword nom Capability.user (codes "USER")
      ∷ keyword nom Capability.resp_codes (codes "RESP-CODES")
      ∷ sasl nom
      ∷ login_delay nom
      ∷ keyword nom Capability.pipelining (codes "PIPELINING")
      ∷ expire nom
      ∷ keyword nom Capability.uidl (codes "UIDL")
      ∷ implementation nom
      ∷ keyword nom Capability.stls (codes "STLS")
      ∷ []

  AllTagged-tried : AllTagged (tried) keywords
  unfolding tried sasl login_delay expire implementation
  AllTagged-tried = (
    Tagged-keyword Capability.top (codes "TOP"),
    (
      Tagged-keyword Capability.user (codes "USER"),
      (
        Tagged-keyword Capability.resp_codes (codes "RESP-CODES"),
        (
          Tagged-bind _ (codes "SASL"),
          (
            Tagged-bind _ (codes "LOGIN-DELAY"),
            (
              Tagged-keyword Capability.pipelining (codes "PIPELINING"),
              (
                Tagged-bind _ (codes "EXPIRE"),
                (
                  Tagged-keyword Capability.uidl (codes "UIDL"),
                  (
                    Tagged-bind _ (codes "IMPLEMENTATION"),
                    (Tagged-keyword Capability.stls (codes "STLS"), tt),
                  ),
                ),
              ),
            ),
          ),
        ),
      ),
    ),
  )

  -- The first `k` parsers refuse the text, and the next one reads it.
  Goes-tried :
      (k : ℕ) (q : Parser Capability) (qs : List (Parser Capability)) (w rest text tail : Bytes)
      (c : Capability)
      → all_apart (take (length (take k tried)) keywords) w ≡ true
      → w ++ rest ≡ text ++ tail
      → Streams q text tail c
      → Goes (nom.alt (take k tried ++ (q ∷ qs))) text tail c
  Goes-tried k q qs w rest text tail c h e s =
      Goes-behind nom combs (take k tried) q qs
        (subst (AllSkip (take k tried)) e (
          AllSkip-AllTagged (take k tried) keywords w rest
            (AllTagged-take k tried keywords AllTagged-tried) h))
        (Goes-here nom combs q qs s)

  Goes-capability :
      (c : Capability) (tail : Bytes)
      → IsStated c
      → Goes (capability nom) (capability_text c) tail c
  unfolding capability tried apart apart_behind lower
  Goes-capability Capability.top tail h =
      Goes-here nom combs _ _ (Streams-keyword nom prims combs Capability.top (codes "TOP") tail)
  Goes-capability Capability.user tail h =
      Goes-tried 1 _ _ (codes "USER") _ _ tail Capability.user refl refl
        (Streams-keyword nom prims combs Capability.user (codes "USER") tail)
  Goes-capability Capability.resp_codes tail h =
      Goes-tried 2 _ _ (codes "RESP-CODES") _ _ tail Capability.resp_codes refl refl
        (Streams-keyword nom prims combs Capability.resp_codes (codes "RESP-CODES") tail)
  Goes-capability (Capability.sasl []) tail h = absurd h
  Goes-capability (Capability.sasl (m ∷ ms)) tail h =
      Goes-tried 3 (sasl nom) _ (codes "SASL") _ _ tail (Capability.sasl (m ∷ ms)) refl refl
        (Streams-sasl nom prims combs m ms tail h)
  Goes-capability (Capability.login_delay d) tail h =
      Goes-tried 4 (login_delay nom) _ (codes "LOGIN-DELAY") _ _ tail (Capability.login_delay d)
        refl refl
        (subst
          (λ m.
            Streams (login_delay nom) (capability_text (Capability.login_delay d)) tail
              (Capability.login_delay (new_duration d.inner.inner m)))
          (sym h.1) (Streams-login_delay nom prims combs d.inner.inner tail h.0))
  Goes-capability Capability.pipelining tail h =
      Goes-tried 5 _ _ (codes "PIPELINING") _ _ tail Capability.pipelining refl refl
        (Streams-keyword nom prims combs Capability.pipelining (codes "PIPELINING") tail)
  Goes-capability (Capability.expire e) tail h =
      Goes-tried 6 (expire nom) _ (codes "EXPIRE") _ _ tail (Capability.expire e) refl refl
        (Streams-expire nom prims combs e tail h)
  Goes-capability Capability.uidl tail h =
      Goes-tried 7 _ _ (codes "UIDL") _ _ tail Capability.uidl refl refl
        (Streams-keyword nom prims combs Capability.uidl (codes "UIDL") tail)
  Goes-capability (Capability.implementation text) tail h =
      Goes-tried 8 (implementation nom) _ (codes "IMPLEMENTATION") _ _ tail
        (Capability.implementation text) refl refl
        (Streams-implementation nom prims combs text.inner tail h)
  Goes-capability Capability.stls tail h =
      Goes-tried 9 _ _ (codes "STLS") _ _ tail Capability.stls refl refl
        (Streams-keyword nom prims combs Capability.stls (codes "STLS") tail)
  Goes-capability (Capability.other text) tail h =
      Goes-tried 10 (unknown_capability nom) [] (text.inner ++ crlf) tail (text.inner ++ crlf) tail
        (Capability.other text) h.1 refl
        (Streams-unknown_capability nom prims combs text.inner tail h.0)

  -- Without input the first keyword is asked for.
  capability-empty : capability nom [] ≡ incomplete (size 3)
  unfolding capability keyword
  capability-empty =
      rw
        (
          alt-more _ _ _ [],
          terminated-eq _ (eol nom) [],
          value-eq Capability.top _ [],
          tag_no_case-eq (codes "TOP") [],
        )
        refl

  pub Streams-capability :
      (c : Capability) (tail : Bytes)
      → IsStated c
      → Streams (capability nom) (capability_text c) tail c
  Streams-capability c tail h =
      Streams-Goes (capability nom) 3 capability-empty
        (omega (arith, length-append (capability_text c) tail, length-capability_text c h))
        (Goes-capability c tail h)
