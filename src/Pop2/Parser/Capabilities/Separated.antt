-- ===== src/Pop2/Parser/Capabilities/Separated.antt =====
-- The list of mechanisms, on input that may be cut off at any byte.
use getemail.Base.{
  ◌≡◌, ◌≢◌, ◌<◌, refl, sym, ap, ◌∙◌, inl, inr, List, [], ◌∷◌, ◌++◌, Bytes, codes, arith, length,
  length-append, append_assoc, append-nil,
}
use getemail.Pop2.Response.{Capability}
use getemail.Pop2.Env.{done}
use getemail.Pop2.Nom.{Nom, Parser}
use getemail.Pop2.Nom.Laws.{LawfulPrimitives, LawfulCombinators, is_space, taken_while1}
use getemail.Pop2.Parser.Core.{eol}
use getemail.Pop2.Parser.Rfc2449.{sasl_mechanism, sasl}
use getemail.Pop2.Parser.Streams.{Cut, Streams, Rejects, Streams-bind, Streams-map, Rejects-eq}
use getemail.Pop2.Parser.Primitives.{Rejects-taken_while1}
use getemail.Pop2.Parser.Lines.{crlf, Streams-space0}
use getemail.Pop2.Parser.Stats.{Streams-spaces}
use getemail.Pop2.Parser.Endings.{Streams-eol}
use getemail.Pop2.Parser.Choices.{Goes}
use getemail.Pop2.Parser.Capabilities.{Streams-tag_no_case}
use getemail.Pop2.Parser.Capabilities.Sasl.{
  IsMechanism, AllMechanisms, spaced, Streams-begun, Goes-bind, Goes-mechanism, mechanism_begins,
  length_mechanism, space0_stops, space1_stops,
}

module _ (nom : Nom) (prims : LawfulPrimitives nom) (combs : LawfulCombinators nom) where
  open prims use {space1-eq}
  open combs use {
    separated-last, separated-next, separated-wait, separated-wait_item, separated-wait_separator,
  }

  abbrev listed : Parser (List Bytes)
  listed = nom.separated_list0 nom.space1 (sasl_mechanism nom)

  module _ (end : Bytes) (no_space : Rejects nom.space1 end) where
    -- What the list does with what is left behind its first element.
    abbrev Behind : Bytes → List Bytes → Bytes → Bytes → Type 0
    Behind m ms left more =
        (part : Bytes) → sasl_mechanism nom part ≡ done left m → Cut listed end (m ∷ ms) part more

    last-Behind : (m left more : Bytes) → end ≡ left ++ more → more ≢ [] → Behind m [] left more
    last-Behind m left more split ne part d = elim (no_space.cut left more split ne) [
      | inl (needed, w, h) ↦ inl (
        needed,
        separated-wait_separator nom.space1 (sasl_mechanism nom) part left m needed d w,
        h,
      )
      | inr stop ↦
          inr (left, split, separated-last nom.space1 (sasl_mechanism nom) part left m d stop)
    ]

    item-Behind :
        (m n : Bytes) (ms : List Bytes) (left more next : Bytes)
        → IsMechanism n
        → more ≢ []
        → next ≢ []
        → nom.space1 left ≡ done next (codes " ")
        → codes " " ++ ((n ++ spaced ms) ++ end) ≡ left ++ more
        → (n ++ spaced ms) ++ end ≡ next ++ more
        → Goes listed (n ++ spaced ms) end (n ∷ ms)
        → Behind m (n ∷ ms) left more
    item-Behind m n ms left more next k ne begun sp split split' g part d =
        elim ((Goes-mechanism nom prims combs n (spaced ms ++ end) k).cut next more
          (sym (append_assoc n (spaced ms) end) ∙ split') begun ne) [
            | inl (needed, w, h) ↦ inl (
              needed,
              separated-wait_item nom.space1 (sasl_mechanism nom) part left next m (codes " ")
                  needed d sp w,
              h,
            )
            | inr (left', split'', d') ↦
                let step =
                  separated-next nom.space1 (sasl_mechanism nom) part left next left' m n
                    (codes " ") d sp d'
                    (omega (
                      arith,
                      ap length split,
                      ap length split',
                      length-append left more,
                      length-append next more,
                    ))
                    (shorter left' split'') in
                elim (g.cut next more split' begun ne) [
                  | inl (needed, w, h) ↦ inl (needed, step ∙ rw w refl, h)
                  | inr (rest, split3, d3) ↦ inr (rest, split3, step ∙ rw d3 refl)
                ]
          ]
      where
        shorter : (left' : Bytes) → spaced ms ++ end ≡ left' ++ more → length left' < length next
        shorter left' split'' = omega (
          arith,
          ap length split',
          ap length split'',
          length-append next more,
          length-append left' more,
          length-append (n ++ spaced ms) end,
          length-append n (spaced ms),
          length-append (spaced ms) end,
          length_mechanism nom prims combs n k,
        )

    -- All mechanisms are read, up to the end of the line.
    pub Goes-listed :
        (m : Bytes) (ms : List Bytes)
        → IsMechanism m
        → AllMechanisms ms
        → Goes listed (m ++ spaced ms) end (m ∷ ms)
    Goes-listed m [] k ks = record {
      whole =
          separated-last nom.space1 (sasl_mechanism nom) ((m ++ []) ++ end) end m
            (rw (append-nil m) (Goes-mechanism nom prims combs m end k).whole) no_space.refused;
      cut = λ part more e begun ne.
          elim ((Goes-mechanism nom prims combs m end k).cut part more
            (ap (λ text. text ++ end) (sym (append-nil m)) ∙ e) begun ne) [
              | inl (needed, w, h) ↦
                  inl (needed, separated-wait nom.space1 (sasl_mechanism nom) part needed w, h)
              | inr (left, split, d) ↦ last-Behind m left more split ne part d
            ];
    }
    Goes-listed m (n ∷ ms) k ks =
        let g = Goes-listed n ms ks.0 ks.1 in
        let s =
          Streams-spaces nom prims combs (codes " ") ((n ++ spaced ms) ++ end) (refl, tt)
            (rw (append_assoc n (spaced ms) end)
              (mechanism_begins nom prims combs n (spaced ms ++ end) ks.0)) in
        record {
          whole =
              separated-next nom.space1 (sasl_mechanism nom) ((m ++ spaced (n ∷ ms)) ++ end)
                (spaced (n ∷ ms) ++ end) ((n ++ spaced ms) ++ end) (spaced ms ++ end) m n
                (codes " ")
                (rw (append_assoc m (spaced (n ∷ ms)) end)
                  (Goes-mechanism nom prims combs m (spaced (n ∷ ms) ++ end) k).whole)
                s.whole
                (rw (append_assoc n (spaced ms) end)
                  (Goes-mechanism nom prims combs n (spaced ms ++ end) ks.0).whole)
                (omega arith)
                (omega (
                  arith,
                  length-append (n ++ spaced ms) end,
                  length-append n (spaced ms),
                  length-append (spaced ms) end,
                  length_mechanism nom prims combs n ks.0,
                ))
              ∙ rw g.whole refl;
          cut = λ part more e begun ne.
              elim ((Goes-mechanism nom prims combs m (spaced (n ∷ ms) ++ end) k).cut part more
                (sym (append_assoc m (spaced (n ∷ ms)) end) ∙ e) begun ne) [
                  | inl (needed, w, h) ↦
                      inl (needed, separated-wait nom.space1 (sasl_mechanism nom) part needed w, h)
                  | inr (left, split, d) ↦ elim (s.cut left more split ne) [
                    | inl (needed, w, h) ↦ inl (
                      needed,
                      separated-wait_separator nom.space1 (sasl_mechanism nom) part left m needed d
                          w,
                      h,
                    )
                    | inr (next, split', sp) ↦
                        item-Behind m n ms left more next ks.0 ne
                          (space1_stops nom prims combs left next (codes " ") sp) sp split split' g
                          part d
                  ]
                ];
        }

  pub Streams-sasl :
      (m : Bytes) (ms : List Bytes) (tail : Bytes)
      → AllMechanisms (m ∷ ms)
      → Streams
          (sasl nom)
          (codes "SASL" ++ (spaced (m ∷ ms) ++ crlf))
          tail
          (Capability.sasl (m ∷ ms))
  unfolding sasl
  Streams-sasl m ms tail ks =
      let text = m ++ spaced ms in
      Streams-bind (nom.tag_no_case (codes "SASL")) _ (codes "SASL") (spaced (m ∷ ms) ++ crlf) tail
        (codes "SASL") (Capability.sasl (m ∷ ms))
        (Streams-tag_no_case nom prims combs (codes "SASL") _)
        (Streams-begun nom.space0 _ (codes " ") (text ++ crlf) tail (codes " ")
          (Capability.sasl (m ∷ ms))
          (Streams-space0 nom prims combs (codes " ") ((text ++ crlf) ++ tail) (refl, tt)
            (rw (append_assoc text crlf tail, append_assoc m (spaced ms) (crlf ++ tail))
              (mechanism_begins nom prims combs m (spaced ms ++ (crlf ++ tail)) ks.0)))
          (space0_stops nom prims combs)
          (Goes-bind listed _ text crlf tail (m ∷ ms) (Capability.sasl (m ∷ ms))
            (Goes-listed (crlf ++ tail)
              (Rejects-eq nom.space1 (taken_while1 is_space) space1-eq
                (Rejects-taken_while1 is_space (crlf ++ tail) refl))
              m ms ks.0 ks.1)
            (Streams-map (eol nom) (λ _. Capability.sasl (m ∷ ms))
              (Streams-eol nom prims combs tail))))
