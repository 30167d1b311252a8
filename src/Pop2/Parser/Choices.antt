-- ===== src/Pop2/Parser/Choices.antt =====
-- A choice among parsers that begin with a keyword. What a choice answers to no input at all is its first parser's
-- matter, so the others are asked only about input that has begun.
use getemail.Base.{
  ℕ, ◌≡◌, ◌≢◌, ◌≤◌, refl, subst, ◌∙◌, ◌⊎◌, inl, inr, List, [], ◌∷◌, ◌++◌, Bytes, length,
}
use getemail.Pop2.Env.{done, incomplete, error, size}
use getemail.Pop2.Nom.{Nom, Parser, ◌>>=◌}
use getemail.Pop2.Nom.Laws.{LawfulCombinators, or_else}
use getemail.Pop2.Parser.Streams.{Waits, Cut, Streams, Rejects}

module _ {A : Type 0} where
  pub record Goes (p : Parser A) (text tail : Bytes) (a : A) : Type 0 where
    pub whole : p (text ++ tail) ≡ done tail a
    pub cut :
        (part more : Bytes)
        → text ++ tail ≡ part ++ more
        → part ≢ []
        → more ≢ []
        → Cut p tail a part more

  pub record Skips (p : Parser A) (input : Bytes) : Type 0 where
    pub refused : p input ≡ error
    pub cut :
        (part more : Bytes)
        → input ≡ part ++ more
        → part ≢ []
        → more ≢ []
        → Waits more (p part) ⊎ (p part ≡ error)

  pub Goes-Streams :
      (p : Parser A) {text tail : Bytes} {a : A} → Streams p text tail a → Goes p text tail a
  Goes-Streams p s = record { whole = s.whole; cut = λ part more e begun ne. s.cut part more e ne }

  -- With no input at all, no more is asked for than there is.
  pub Streams-Goes :
      (p : Parser A) {text tail : Bytes} {a : A} (min : ℕ)
      → p [] ≡ incomplete (size min)
      → min ≤ length (text ++ tail)
      → Goes p text tail a
      → Streams p text tail a
  Streams-Goes p {text} {tail} {a} min e h g = record {
    whole = g.whole;
    cut = λ part more split ne. cut part more split ne;
  }
    where
      cut : (part more : Bytes) → text ++ tail ≡ part ++ more → more ≢ [] → Cut p tail a part more
      cut [] more split ne = inl (size min, e, inl (subst (λ input. min ≤ length input) split h))
      cut (x ∷ part) more split ne = g.cut (x ∷ part) more split (λ e. cc) ne

  pub Skips-Rejects : (p : Parser A) (input : Bytes) → Rejects p input → Skips p input
  Skips-Rejects p input r = record {
    refused = r.refused;
    cut = λ part more e begun ne. r.cut part more e ne;
  }

  pub Skips-eq :
      (p q : Parser A) {input : Bytes}
      → ((input : Bytes) → p input ≡ q input)
      → Skips q input
      → Skips p input
  Skips-eq p q same s = record {
    refused = same _ ∙ s.refused;
    cut = λ part more e begun ne. elim (s.cut part more e begun ne) [
      | inl (needed, w, h) ↦ inl (needed, same part ∙ w, h)
      | inr d ↦ inr (same part ∙ d)
    ];
  }

  abbrev pub AllSkip : List (Parser A) → Bytes → Type 0
  AllSkip [] input = Unit {0}
  AllSkip (p ∷ ps) input = Skips p input × AllSkip ps input

pub Skips-bind :
    {A B : Type 0} (p : Parser A) (f : A → Parser B) (input : Bytes)
    → Skips p input
    → Skips (p >>= f) input
Skips-bind p f input s = record {
  refused = rw s.refused refl;
  cut = λ part more e begun ne. elim (s.cut part more e begun ne) [
    | inl (needed, w, h) ↦ inl (needed, rw w refl, h)
    | inr d ↦ inr (rw d refl)
  ];
}

module _ (nom : Nom) (combs : LawfulCombinators nom) {A : Type 0} where
  open combs use {alt-last, alt-more}

  alt-step :
      (p : Parser A) (ps : List (Parser A)) (q : Parser A) (qs : List (Parser A)) (input : Bytes)
      → nom.alt (p ∷ (ps ++ (q ∷ qs))) input ≡ or_else (p input) (nom.alt (ps ++ (q ∷ qs)) input)
  alt-step p [] q qs input = alt-more p q qs input
  alt-step p (x ∷ ps) q qs input = alt-more p x (ps ++ (q ∷ qs)) input

  -- The first of these parsers reads the text.
  pub Goes-here :
      (q : Parser A) (qs : List (Parser A)) {text tail : Bytes} {a : A}
      → Streams q text tail a
      → Goes (nom.alt (q ∷ qs)) text tail a
  Goes-here q [] {text} {tail} s = record {
    whole = alt-last q (text ++ tail) ∙ s.whole;
    cut = λ part more e begun ne. elim (s.cut part more e ne) [
      | inl (needed, w, h) ↦ inl (needed, alt-last q part ∙ w, h)
      | inr (left, split, d) ↦ inr (left, split, alt-last q part ∙ d)
    ];
  }
  Goes-here q (x ∷ qs) {text} {tail} s = record {
    whole = alt-more q x qs (text ++ tail) ∙ rw s.whole refl;
    cut = λ part more e begun ne. elim (s.cut part more e ne) [
      | inl (needed, w, h) ↦ inl (needed, alt-more q x qs part ∙ rw w refl, h)
      | inr (left, split, d) ↦ inr (left, split, alt-more q x qs part ∙ rw d refl)
    ];
  }

  -- Parsers that refuse the text stand in front of one that reads it.
  pub Goes-behind :
      (ps : List (Parser A)) (q : Parser A) (qs : List (Parser A)) {text tail : Bytes} {a : A}
      → AllSkip ps (text ++ tail)
      → Goes (nom.alt (q ∷ qs)) text tail a
      → Goes (nom.alt (ps ++ (q ∷ qs))) text tail a
  Goes-behind [] q qs skips g = g
  Goes-behind (p ∷ ps) q qs {text} {tail} skips g =
      let rest = Goes-behind ps q qs skips.1 g in
      record {
        whole = alt-step p ps q qs (text ++ tail) ∙ rw skips.0.refused rest.whole;
        cut = λ part more e begun ne. elim (skips.0.cut part more e begun ne) [
          | inl (needed, w, h) ↦ inl (needed, alt-step p ps q qs part ∙ rw w refl, h)
          | inr d ↦ elim (rest.cut part more e begun ne) [
            | inl (needed, w, h) ↦ inl (needed, alt-step p ps q qs part ∙ rw d w, h)
            | inr (left, split, d') ↦ inr (left, split, alt-step p ps q qs part ∙ rw d d')
          ]
        ];
      }
