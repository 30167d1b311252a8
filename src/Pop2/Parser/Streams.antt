-- ===== src/Pop2/Parser/Streams.antt =====
-- Parsers on input that is cut off: a parser reads a text off the front of what stands behind it, and
-- on a part of all that it waits, for no more bytes than are missing, or has read its text already. Only in
-- front of a line feed nothing is said of how many bytes it waits for: nom does not document it.
use getemail.Base.{
  ◌≤◌, ◌<◌, ◌≡◌, ◌≢◌, refl, sym, ap, ◌∙◌, ◌⊎◌, inl, inr, List, [], ◌∷◌, ◌++◌, Bytes, arith, length,
  length-append, append_assoc,
}
use getemail.Pop2.Env.{IResult, done, incomplete, error, Needed, unknown, size}
use getemail.Pop2.Nom.{Nom, Parser, pure, ◌>>=◌}
use getemail.Pop2.Nom.Laws.{LawfulCombinators}

-- The next byte is a line feed, or is none.
abbrev pub AtLineFeed : Bytes → Type 0
AtLineFeed [] = ⊥
AtLineFeed (c ∷ _) = c ≡ 0x0a

abbrev pub NotLineFeed : Bytes → Type 0
NotLineFeed [] = Unit {0}
NotLineFeed (c ∷ _) = c ≢ 0x0a

pub not_both : (more : Bytes) → NotLineFeed more → AtLineFeed more → ⊥
not_both [] clear at_feed = at_feed
not_both (c ∷ more) clear at_feed = clear at_feed

-- No more bytes are asked for than are missing, unless the input has been cut in front of a line feed.
abbrev pub Asks : Bytes → Needed → Type 0
Asks more unknown = Unit {0}
Asks more (size min) = (min ≤ length more) ⊎ AtLineFeed more

abbrev pub Waits : {A : Type 0} → Bytes → IResult A → Type 0
Waits more r = (needed : Needed) × (r ≡ incomplete needed) × Asks more needed

pub length_pos : (bs : Bytes) → bs ≢ [] → 0 < length bs
length_pos [] h = absurd (h refl)
length_pos (b ∷ bs) h = omega arith

module _ {A : Type 0} where
  -- What a parser does with a part, if `more` is missing.
  abbrev pub Cut : Parser A → Bytes → A → Bytes → Bytes → Type 0
  Cut p tail a part more =
      Waits more (p part) ⊎ ((left : Bytes) × (tail ≡ left ++ more) × (p part ≡ done left a))

  pub record Streams (p : Parser A) (text tail : Bytes) (a : A) : Type 0 where
    pub whole : p (text ++ tail) ≡ done tail a
    pub cut : (part more : Bytes) → text ++ tail ≡ part ++ more → more ≢ [] → Cut p tail a part more

  -- A part, if it is incomplete, does not say how much is missing.
  abbrev pub Untold : Parser A → Bytes → A → Bytes → Bytes → Type 0
  Untold p tail a part more =
      (p part ≡ incomplete unknown)
      ⊎ ((left : Bytes) × (tail ≡ left ++ more) × (p part ≡ done left a))

  pub Cut-Untold :
      (p : Parser A) {tail : Bytes} {a : A} (part more : Bytes)
      → Untold p tail a part more
      → Cut p tail a part more
  Cut-Untold p part more (inl w) = inl (unknown, w, tt)
  Cut-Untold p part more (inr d) = inr d

  -- The input is refused, perhaps only when more of it has come.
  pub record Rejects (p : Parser A) (input : Bytes) : Type 0 where
    pub refused : p input ≡ error
    pub cut :
        (part more : Bytes)
        → input ≡ part ++ more
        → more ≢ []
        → Waits more (p part) ⊎ (p part ≡ error)

  pub Streams-eq :
      (p q : Parser A) {text tail : Bytes} {a : A}
      → ((input : Bytes) → p input ≡ q input)
      → Streams q text tail a
      → Streams p text tail a
  Streams-eq p q {text} {tail} {a} same s = record {
    whole = same (text ++ tail) ∙ s.whole;
    cut = λ part more e ne. elim (s.cut part more e ne) [
      | inl (needed, w, h) ↦ inl (needed, same part ∙ w, h)
      | inr (left, t, d) ↦ inr (left, t, same part ∙ d)
    ];
  }

  pub Rejects-eq :
      (p q : Parser A) {input : Bytes}
      → ((input : Bytes) → p input ≡ q input)
      → Rejects q input
      → Rejects p input
  Rejects-eq p q {input} same r = record {
    refused = same input ∙ r.refused;
    cut = λ part more e ne. elim (r.cut part more e ne) [
      | inl (needed, w, h) ↦ inl (needed, same part ∙ w, h)
      | inr d ↦ inr (same part ∙ d)
    ];
  }

  pub Streams-pure : (a : A) (tail : Bytes) → Streams (pure a) [] tail a
  Streams-pure a tail = record { whole = refl; cut = λ part more e ne. inr (part, e, refl) }

module _ {A B : Type 0} where
  pub Streams-bind :
      (p : Parser A) (f : A → Parser B) (t u tail : Bytes) (a : A) (b : B)
      → Streams p t (u ++ tail) a
      → Streams (f a) u tail b
      → Streams (p >>= f) (t ++ u) tail b
  Streams-bind p f t u tail a b s r = record {
    whole = rw (append_assoc t u tail, s.whole) r.whole;
    cut = λ part more e ne. elim (s.cut part more (sym (append_assoc t u tail) ∙ e) ne) [
      | inl (needed, w, h) ↦ inl (needed, rw w refl, h)
      | inr (left, split, d) ↦ elim (r.cut left more split ne) [
        | inl (needed, w, h) ↦ inl (needed, rw d w, h)
        | inr (left', split', d') ↦ inr (left', split', rw d d')
      ]
    ];
  }

  pub Untold-bind :
      (p : Parser A) (f : A → Parser B) (t u tail : Bytes) (a : A) (b : B)
      → ((part more : Bytes)
          → t ++ (u ++ tail) ≡ part ++ more
          → more ≢ []
          → Untold p (u ++ tail) a part more)
      → ((part more : Bytes) → u ++ tail ≡ part ++ more → more ≢ [] → Untold (f a) tail b part more)
      → (part more : Bytes) → (t ++ u) ++ tail ≡ part ++ more
      → more ≢ []
      → Untold (p >>= f) tail b part more
  Untold-bind p f t u tail a b s r part more e ne =
      elim (s part more (sym (append_assoc t u tail) ∙ e) ne) [
        | inl w ↦ inl (rw w refl)
        | inr (left, split, d) ↦ elim (r left more split ne) [
          | inl w ↦ inl (rw d w)
          | inr (left', split', d') ↦ inr (left', split', rw d d')
        ]
      ]

  -- The last step: a result that takes no more input.
  pub Streams-map :
      (p : Parser A) (f : A → B) {t tail : Bytes} {a : A}
      → Streams p t tail a
      → Streams (p >>= λ x. pure (f x)) t tail (f a)
  Streams-map p f {t} {tail} {a} s = record {
    whole = rw s.whole refl;
    cut = λ part more e ne. elim (s.cut part more e ne) [
      | inl (needed, w, h) ↦ inl (needed, rw w refl, h)
      | inr (left, split, d) ↦ inr (left, split, rw d refl)
    ];
  }

  pub Untold-map :
      (p : Parser A) (f : A → B) {tail : Bytes} {a : A} (part more : Bytes)
      → Untold p tail a part more
      → Untold (p >>= λ x. pure (f x)) tail (f a) part more
  Untold-map p f part more (inl w) = inl (rw w refl)
  Untold-map p f part more (inr (left, split, d)) = inr (left, split, rw d refl)

  pub Rejects-bind :
      (p : Parser A) (f : A → Parser B) (input : Bytes) → Rejects p input → Rejects (p >>= f) input
  Rejects-bind p f input r = record {
    refused = rw r.refused refl;
    cut = λ part more e ne. elim (r.cut part more e ne) [
      | inl (needed, w, h) ↦ inl (needed, rw w refl, h)
      | inr d ↦ inr (rw d refl)
    ];
  }

  -- The first part is read, and what follows is refused.
  pub Rejects-then :
      (p : Parser A) (f : A → Parser B) (t tail : Bytes) (a : A)
      → Streams p t tail a
      → Rejects (f a) tail
      → Rejects (p >>= f) (t ++ tail)
  Rejects-then p f t tail a s r = record {
    refused = rw s.whole r.refused;
    cut = λ part more e ne. elim (s.cut part more e ne) [
      | inl (needed, w, h) ↦ inl (needed, rw w refl, h)
      | inr (left, split, d) ↦ elim (r.cut left more split ne) [
        | inl (needed, w, h) ↦ inl (needed, rw d w, h)
        | inr d' ↦ inr (rw d d')
      ]
    ];
  }

module _ (nom : Nom) (laws : LawfulCombinators nom) {A : Type 0} where
  open laws use {
    alt-last, alt-more, many_till-end, many_till-wait, many_till-next, many_till-wait_item,
  }

  -- The first alternative reads the text.
  pub Streams-first :
      (p q : Parser A) (ps : List (Parser A)) {text tail : Bytes} {a : A}
      → Streams p text tail a
      → Streams (nom.alt (p ∷ q ∷ ps)) text tail a
  Streams-first p q ps {text} {tail} {a} s = record {
    whole = alt-more p q ps (text ++ tail) ∙ rw s.whole refl;
    cut = λ part more e ne. elim (s.cut part more e ne) [
      | inl (needed, w, h) ↦ inl (needed, alt-more p q ps part ∙ rw w refl, h)
      | inr (left, split, d) ↦ inr (left, split, alt-more p q ps part ∙ rw d refl)
    ];
  }

  -- The first alternative refuses the input, and another one reads the text.
  pub Streams-other :
      (p q : Parser A) (ps : List (Parser A)) {text tail : Bytes} {a : A}
      → Rejects p (text ++ tail)
      → Streams (nom.alt (q ∷ ps)) text tail a
      → Streams (nom.alt (p ∷ q ∷ ps)) text tail a
  Streams-other p q ps {text} {tail} {a} r s = record {
    whole = alt-more p q ps (text ++ tail) ∙ rw r.refused s.whole;
    cut = λ part more e ne. elim (r.cut part more e ne) [
      | inl (needed, w, h) ↦ inl (needed, alt-more p q ps part ∙ rw w refl, h)
      | inr d ↦ elim (s.cut part more e ne) [
        | inl (needed, w, h) ↦ inl (needed, alt-more p q ps part ∙ rw d w, h)
        | inr (left, split, d') ↦ inr (left, split, alt-more p q ps part ∙ rw d d')
      ]
    ];
  }

  pub Streams-last :
      (p : Parser A) {text tail : Bytes} {a : A}
      → Streams p text tail a
      → Streams (nom.alt (p ∷ [])) text tail a
  Streams-last p s = Streams-eq (nom.alt (p ∷ [])) p (alt-last p) s

  module _ {B : Type 0} (p : Parser A) (q : Parser B) where
    pub Streams-till_end :
        {text tail : Bytes} {b : B}
        → Streams q text tail b
        → Streams (nom.many_till p q) text tail ([], b)
    Streams-till_end {text} {tail} {b} s = record {
      whole = many_till-end p q (text ++ tail) tail b s.whole;
      cut = λ part more e ne. elim (s.cut part more e ne) [
        | inl (needed, w, h) ↦ inl (needed, many_till-wait p q part needed w, h)
        | inr (left, split, d) ↦ inr (left, split, many_till-end p q part left b d)
      ];
    }

    pub Streams-till_next :
        (t u tail : Bytes) (a : A) (as' : List A) (b : B)
        → t ≢ []
        → Rejects q (t ++ (u ++ tail))
        → Streams p t (u ++ tail) a
        → Streams (nom.many_till p q) u tail (as', b)
        → Streams (nom.many_till p q) (t ++ u) tail (a ∷ as', b)
    Streams-till_next t u tail a as' b some_text r s rest = record {
      whole = rw (append_assoc t u tail) (
          many_till-next p q (t ++ (u ++ tail)) (u ++ tail) a r.refused s.whole
            (omega (arith, length-append t (u ++ tail), length_pos t some_text))
          ∙ rw rest.whole refl);
      cut = λ part more e ne.
          let e' = sym (append_assoc t u tail) ∙ e in
          elim (r.cut part more e' ne) [
            | inl (needed, w, h) ↦ inl (needed, many_till-wait p q part needed w, h)
            | inr no_end ↦ elim (s.cut part more e' ne) [
              | inl (needed, w, h) ↦ inl (needed, many_till-wait_item p q part needed no_end w, h)
              | inr (left, split, d) ↦
                  let step =
                    many_till-next p q part left a no_end d (shorter part more left e' split) in
                  elim (rest.cut left more split ne) [
                    | inl (needed, w, h) ↦ inl (needed, step ∙ rw w refl, h)
                    | inr (left', split', d') ↦ inr (left', split', step ∙ rw d' refl)
                  ]
            ]
          ];
    }
      where
        shorter :
            (part more left : Bytes)
            → t ++ (u ++ tail) ≡ part ++ more
            → u ++ tail ≡ left ++ more
            → length left < length part
        shorter part more left e split = omega (
          arith,
          ap length e,
          ap length split,
          length-append t (u ++ tail),
          length-append part more,
          length-append left more,
          length_pos t some_text,
        )
