-- ===== src/Pop2/Parser/Capabilities/Lists.antt =====
-- The answer to CAPA.
use getemail.Base.{◌≡◌, refl, ap, subst, List, [], ◌∷◌, ◌++◌, Bytes, IsLine, some, map}
use getemail.Pop2.Response.{Capability, Response}
use getemail.Pop2.Nom.{Nom, pure, ◌>>=◌}
use getemail.Pop2.Nom.Laws.{LawfulPrimitives, LawfulCombinators}
use getemail.Pop2.Parser.Core.{end_of_multiline, message_parser}
use getemail.Pop2.Parser.Rfc2449.{capability_response, capability}
use getemail.Pop2.Parser.Streams.{Streams, Streams-bind, Streams-map}
use getemail.Pop2.Parser.Lines.{crlf, Streams-message_parser}
use getemail.Pop2.Parser.Listings.{block, Each, Streams-block}
use getemail.Pop2.Parser.Capabilities.Stated.{capability_text, IsStated, capability_no_dot}
use getemail.Pop2.Parser.Capabilities.Tried.{Streams-capability}

map-same : (cs : List Capability) → map (λ c. c) cs ≡ cs
map-same [] = refl
map-same (c ∷ cs) = ap (◌∷◌ c) (map-same cs)

module _ (nom : Nom) (prims : LawfulPrimitives nom) (combs : LawfulCombinators nom) where
  pub Streams-capability_response :
      (text tail : Bytes) (cs : List Capability)
      → IsLine text
      → Each IsStated cs
      → Streams
          (capability_response nom)
          ((text ++ crlf) ++ block capability_text cs)
          tail
          (Response.capability cs)
  unfolding capability_response
  Streams-capability_response text tail cs h hs =
      subst
        (λ found.
          Streams
            (message_parser nom >>= λ _.
              nom.many_till (capability nom) (end_of_multiline nom) >>= λ (capabilities, _).
              pure (Response.capability capabilities))
            ((text ++ crlf) ++ block capability_text cs) tail (Response.capability found))
        (map-same cs)
        (Streams-bind (message_parser nom) _ (text ++ crlf) (block capability_text cs) tail
          (some text) _
          (Streams-message_parser nom prims combs text (block capability_text cs ++ tail) h)
          (Streams-map (nom.many_till (capability nom) (end_of_multiline nom))
            (λ (capabilities, _). Response.capability capabilities)
            (Streams-block nom prims combs (capability nom) capability_text (λ c. c) IsStated
              capability_no_dot (Streams-capability nom prims combs) cs tail hs)))
