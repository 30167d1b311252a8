-- ===== src/Pop2/Parser/Capabilities/Sasl.antt =====
-- The mechanisms of the capability SASL: a list with spaces between its elements.
use getemail.Base.{
  ℕ, ◌≡◌, ◌≢◌, ◌<◌, refl, sym, subst, ◌∙◌, inl, inr, Bool, true, List, [], ◌∷◌, ◌++◌, Bytes, codes,
  arith, length, append_assoc, Bool-cases, lower,
}
use getemail.Pop2.Env.{IResult, done, incomplete, error, failure}
use getemail.Pop2.Nom.{Nom, Parser, ◌>>=◌, and_then}
use getemail.Pop2.Nom.Laws.{
  LawfulPrimitives, LawfulCombinators, is_space, taken_while, taken_while1, cons,
}
use getemail.Pop2.Parser.Rfc2449.{sasl_mechanism}
use getemail.Pop2.Parser.Streams.{Streams}
use getemail.Pop2.Parser.Primitives.{StopsAt}
use getemail.Pop2.Parser.Choices.{Goes, AllSkip, Goes-here, Goes-behind}
use getemail.Pop2.Parser.Keywords.{all_apart, apart, apart_behind, Skips-tag_no_case}
use getemail.Pop2.Parser.Capabilities.{Streams-tag_no_case}

pub data Mechanism : Type 0 where
  kerberos_v4 gssapi skey cram_md5 plain xoauth2 oauthbearer : Mechanism

abbrev pub mechanism_name : Mechanism → Bytes
mechanism_name kerberos_v4 = codes "KERBEROS_V4"
mechanism_name gssapi = codes "GSSAPI"
mechanism_name skey = codes "SKEY"
mechanism_name cram_md5 = codes "CRAM-MD5"
mechanism_name plain = codes "PLAIN"
mechanism_name xoauth2 = codes "XOAUTH2"
mechanism_name oauthbearer = codes "OAUTHBEARER"

abbrev pub IsMechanism : Bytes → Type 0
IsMechanism m = (k : Mechanism) × (m ≡ mechanism_name k)

abbrev pub AllMechanisms : List Bytes → Type 0
AllMechanisms [] = Unit {0}
AllMechanisms (m ∷ ms) = IsMechanism m × AllMechanisms ms

abbrev pub spaced : List Bytes → Bytes
spaced [] = []
spaced (m ∷ ms) = codes " " ++ (m ++ spaced ms)

module _ (p : ℕ → Bool) where
  -- Bytes are not taken up to the end of the input.
  taken_while_stops : (input left found : Bytes) → taken_while p input ≡ done left found → left ≢ []
  taken_while_stops [] left found e = absurd (cc)
  taken_while_stops (c ∷ input) left found e = elim (Bool-cases (p c)) [
    | inl h ↦ behind (taken_while p input) (taken_while_stops input) (rw h at e)
    | inr h ↦ λ none_left. stopped (rw h at e) none_left
  ]
    where
      behind :
          (r : IResult Bytes)
          → ((left found : Bytes) → r ≡ done left found → left ≢ [])
          → and_then r (λ found rest. cons c rest found) ≡ done left found
          → left ≢ []
      behind (done rest more) ih e = ih left more (ap_done e)
        where
          ap_done : done rest (c ∷ more) ≡ done left found → done rest more ≡ done left more
          ap_done e = cc
      behind (incomplete needed) ih e = absurd (cc)
      behind error ih e = absurd (cc)
      behind failure ih e = absurd (cc)

      stopped : done (c ∷ input) [] ≡ done left found → left ≡ [] → ⊥
      stopped e none_left = cc

  taken_while1_stops :
      (input left found : Bytes) → taken_while1 p input ≡ done left found → left ≢ []
  taken_while1_stops [] left found e = absurd (cc)
  taken_while1_stops (c ∷ input) left found e = elim (Bool-cases (p c)) [
    | inl h ↦ taken_while_stops (c ∷ input) left found (rw h (rw h at e))
    | inr h ↦ absurd (no_error (rw h at e))
  ]
    where
      no_error : error ≡ done left found → ⊥
      no_error e = cc

module _ {A B : Type 0} where
  -- The second parser is asked about input that has begun only.
  pub Streams-begun :
      (p : Parser A) (f : A → Parser B) (t u tail : Bytes) (a : A) (b : B)
      → Streams p t (u ++ tail) a
      → ((part left : Bytes) (x : A) → p part ≡ done left x → left ≢ [])
      → Goes (f a) u tail b
      → Streams (p >>= f) (t ++ u) tail b
  Streams-begun p f t u tail a b s stops g = record {
    whole = rw (append_assoc t u tail, s.whole) g.whole;
    cut = λ part more e ne. elim (s.cut part more (sym (append_assoc t u tail) ∙ e) ne) [
      | inl (needed, w, h) ↦ inl (needed, rw w refl, h)
      | inr (left, split, d) ↦ elim (g.cut left more split (stops part left a d) ne) [
        | inl (needed, w, h) ↦ inl (needed, rw d w, h)
        | inr (left', split', d') ↦ inr (left', split', rw d d')
      ]
    ];
  }

  pub Goes-bind :
      (p : Parser A) (f : A → Parser B) (t u tail : Bytes) (a : A) (b : B)
      → Goes p t (u ++ tail) a
      → Streams (f a) u tail b
      → Goes (p >>= f) (t ++ u) tail b
  Goes-bind p f t u tail a b g s = record {
    whole = rw (append_assoc t u tail, g.whole) s.whole;
    cut = λ part more e begun ne.
        elim (g.cut part more (sym (append_assoc t u tail) ∙ e) begun ne) [
          | inl (needed, w, h) ↦ inl (needed, rw w refl, h)
          | inr (left, split, d) ↦ elim (s.cut left more split ne) [
            | inl (needed, w, h) ↦ inl (needed, rw d w, h)
            | inr (left', split', d') ↦ inr (left', split', rw d d')
          ]
        ];
  }

module _ (nom : Nom) (prims : LawfulPrimitives nom) (combs : LawfulCombinators nom) where
  open prims use {space0-eq, space1-eq}
  open combs use {
    separated-last, separated-next, separated-wait, separated-wait_item, separated-wait_separator,
  }

  unfoldable tags : List Bytes → List (Parser Bytes)
  tags [] = []
  tags (t ∷ ts) = nom.tag_no_case t ∷ tags ts

  AllSkip-tags :
      (ts : List Bytes) (w rest : Bytes) → all_apart ts w ≡ true → AllSkip (tags ts) (w ++ rest)
  unfolding tags
  AllSkip-tags [] w rest h = tt
  AllSkip-tags (t ∷ ts) w rest h = (
    Skips-tag_no_case nom prims t w rest (ground (arith, h)),
    AllSkip-tags ts w rest (ground (arith, h)),
  )

  Goes-tags :
      (ts us : List Bytes) (t tail : Bytes)
      → all_apart ts t ≡ true
      → Goes (nom.alt (tags ts ++ (nom.tag_no_case t ∷ tags us))) t tail t
  Goes-tags ts us t tail h =
      Goes-behind nom combs (tags ts) (nom.tag_no_case t) (tags us) (AllSkip-tags ts t tail h) (
        Goes-here nom combs (nom.tag_no_case t) (tags us)
          (Streams-tag_no_case nom prims combs t tail))

  Goes-mechanism_name :
      (k : Mechanism) (tail : Bytes)
      → Goes (sasl_mechanism nom) (mechanism_name k) tail (mechanism_name k)
  unfolding sasl_mechanism tags apart apart_behind lower
  Goes-mechanism_name kerberos_v4 tail =
      Goes-tags ([])
        (codes "GSSAPI"
          ∷ codes "SKEY"
          ∷ codes "CRAM-MD5"
          ∷ codes "PLAIN"
          ∷ codes "XOAUTH2"
          ∷ codes "OAUTHBEARER"
          ∷ [])
        (codes "KERBEROS_V4") tail refl
  Goes-mechanism_name gssapi tail =
      Goes-tags (codes "KERBEROS_V4" ∷ [])
        (codes "SKEY"
          ∷ codes "CRAM-MD5"
          ∷ codes "PLAIN"
          ∷ codes "XOAUTH2"
          ∷ codes "OAUTHBEARER"
          ∷ [])
        (codes "GSSAPI") tail refl
  Goes-mechanism_name skey tail =
      Goes-tags (codes "KERBEROS_V4" ∷ codes "GSSAPI" ∷ [])
        (codes "CRAM-MD5" ∷ codes "PLAIN" ∷ codes "XOAUTH2" ∷ codes "OAUTHBEARER" ∷ [])
        (codes "SKEY") tail refl
  Goes-mechanism_name cram_md5 tail =
      Goes-tags (codes "KERBEROS_V4" ∷ codes "GSSAPI" ∷ codes "SKEY" ∷ [])
        (codes "PLAIN" ∷ codes "XOAUTH2" ∷ codes "OAUTHBEARER" ∷ []) (codes "CRAM-MD5") tail refl
  Goes-mechanism_name plain tail =
      Goes-tags (codes "KERBEROS_V4" ∷ codes "GSSAPI" ∷ codes "SKEY" ∷ codes "CRAM-MD5" ∷ [])
        (codes "XOAUTH2" ∷ codes "OAUTHBEARER" ∷ []) (codes "PLAIN") tail refl
  Goes-mechanism_name xoauth2 tail =
      Goes-tags
        (codes "KERBEROS_V4"
          ∷ codes "GSSAPI"
          ∷ codes "SKEY"
          ∷ codes "CRAM-MD5"
          ∷ codes "PLAIN"
          ∷ [])
        (codes "OAUTHBEARER" ∷ []) (codes "XOAUTH2") tail refl
  Goes-mechanism_name oauthbearer tail =
      Goes-tags
        (codes "KERBEROS_V4"
          ∷ codes "GSSAPI"
          ∷ codes "SKEY"
          ∷ codes "CRAM-MD5"
          ∷ codes "PLAIN"
          ∷ codes "XOAUTH2"
          ∷ [])
        ([]) (codes "OAUTHBEARER") tail refl

  pub Goes-mechanism : (m tail : Bytes) → IsMechanism m → Goes (sasl_mechanism nom) m tail m
  Goes-mechanism m tail (k, e) = subst (λ m. Goes (sasl_mechanism nom) m tail m) (sym e) (named k)
    where
      named : (k : Mechanism) → Goes (sasl_mechanism nom) (mechanism_name k) tail (mechanism_name k)
      named k = Goes-mechanism_name k tail

  pub space1_stops : (input left found : Bytes) → nom.space1 input ≡ done left found → left ≢ []
  space1_stops input left found e =
      taken_while1_stops is_space input left found (sym (space1-eq input) ∙ e)

  pub space0_stops : (input left found : Bytes) → nom.space0 input ≡ done left found → left ≢ []
  space0_stops input left found e =
      taken_while_stops is_space input left found (sym (space0-eq input) ∙ e)

  pub mechanism_begins : (m rest : Bytes) → IsMechanism m → StopsAt is_space (m ++ rest)
  mechanism_begins m rest (k, e) = subst (λ m. StopsAt is_space (m ++ rest)) (sym e) (begins k)
    where
      begins : (k : Mechanism) → StopsAt is_space (mechanism_name k ++ rest)
      begins kerberos_v4 = refl
      begins gssapi = refl
      begins skey = refl
      begins cram_md5 = refl
      begins plain = refl
      begins xoauth2 = refl
      begins oauthbearer = refl

  pub length_mechanism : (m : Bytes) → IsMechanism m → 0 < length m
  length_mechanism m (k, e) = subst (λ m. 0 < length m) (sym e) (named k)
    where
      named : (k : Mechanism) → 0 < length (mechanism_name k)
      named kerberos_v4 = omega arith
      named gssapi = omega arith
      named skey = omega arith
      named cram_md5 = omega arith
      named plain = omega arith
      named xoauth2 = omega arith
      named oauthbearer = omega arith
