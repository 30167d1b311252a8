-- ===== src/Pop2/Parser/Asked.antt =====
-- How many bytes a part of an answer asks for.
use getemail.Base.{
  ℕ, Bool, true, false, not, ◌==◌, ◌+◌, ◌≡◌, ◌≢◌, ◌≤◌, refl, sym, ap, subst, ◌∙◌, ◌⊎◌, inl, inr, [],
  ◌∷◌, ◌++◌, Bytes, arith, append-nil, append_assoc, length, length-append, Option,
}
use getemail.Pop2.Command.{Command}
use getemail.Pop2.Response.{Status, Response}
use getemail.Pop2.Env.{incomplete, unknown, size, done, error}
use getemail.Pop2.Nom.{Nom, Parser, ◌>>=◌}
use getemail.Pop2.Nom.Laws.{LawfulPrimitives, LawfulCombinators, is_space}
use getemail.Pop2.Parser.{challenge, after_challenge, status_response, parse}
use getemail.Pop2.Parser.Rfc1939.{status}
use getemail.Pop2.Stream.Progress.{Anywhere}
use getemail.Pop2.Parser.Streams.{NotLineFeed, not_both, Waits, Untold, Streams, length_pos}
use getemail.Pop2.Parser.Primitives.{All, StopsAt, head_eq, tail_eq}
use getemail.Pop2.Parser.Whole.{Rejects-challenge, by_request_cases}
use getemail.Pop2.Parser.Lines.{status_tag, Streams-status}

module _ {A : Type 0} where
  -- No part that ends where `May` says asks for bytes behind the first `bound` ones.
  abbrev pub AsksWithin : (Bytes → Type 0) → Parser A → Bytes → ℕ → Type 0
  AsksWithin May p full bound =
      (part more : Bytes)
      → full ≡ part ++ more
      → more ≢ []
      → May more
      → (p part ≡ incomplete unknown)
        ⊎ ((min : ℕ) × (p part ≡ incomplete (size min)) × (length part + min ≤ bound))

  Waits-within :
      (p : Parser A) (full part more : Bytes)
      → full ≡ part ++ more
      → NotLineFeed more
      → Waits more (p part)
      → (p part ≡ incomplete unknown)
        ⊎ ((min : ℕ) × (p part ≡ incomplete (size min)) × (length part + min ≤ length full))
  Waits-within p full part more e clear (unknown, w, h) = inl w
  Waits-within p full part more e clear (size min, w, inr h) = absurd (not_both more clear h)
  Waits-within p full part more e clear (size min, w, inl h) =
      inr (min, w, omega (arith, ap length e, length-append part more, h))

  -- No more is asked for than is missing, if the part does not end in front of a line feed.
  pub AsksWithin-Streams :
      (p : Parser A) (full : Bytes) (a : A)
      → Streams p full [] a
      → AsksWithin NotLineFeed p full (length full)
  AsksWithin-Streams p full a s part more e ne clear =
      elim (s.cut part more (append-nil full ∙ e) ne) [
        | inl w ↦ Waits-within p full part more e clear w
        | inr (left, split, d) ↦ absurd (ne (no_more left more split))
      ]
    where
      no_more : (left more : Bytes) → [] ≡ left ++ more → more ≡ []
      no_more [] more e = sym e
      no_more (x ∷ left) more e = absurd (cc)

  pub AsksWithin-≤ :
      (May : Bytes → Type 0) (p : Parser A) (full : Bytes) (b c : ℕ)
      → b ≤ c
      → AsksWithin May p full b
      → AsksWithin May p full c
  AsksWithin-≤ May p full b c le h part more e ne may = elim (h part more e ne may) [
    | inl w ↦ inl w
    | inr (min, w, k) ↦ inr (min, w, omega arith)
  ]

-- Text without a line feed.
pub clear_append :
    (a b : Bytes)
    → All (λ c. not (c == 0x0a)) a
    → All (λ c. not (c == 0x0a)) b
    → All (λ c. not (c == 0x0a)) (a ++ b)
clear_append [] b h k = k
clear_append (c ∷ a) b h k = (h.0, clear_append a b h.1 k)

pub clear_rest :
    (part rest : Bytes)
    → All (λ c. not (c == 0x0a)) (part ++ rest)
    → All (λ c. not (c == 0x0a)) rest
clear_rest [] rest h = h
clear_rest (c ∷ part) rest h = clear_rest part rest h.1

pub clear_ahead :
    (rest text : Bytes)
    → All (λ c. not (c == 0x0a)) rest
    → NotLineFeed text
    → NotLineFeed (rest ++ text)
clear_ahead [] text h k = k
clear_ahead (c ∷ rest) text h k = ground (arith, h.0)

pub spaces_clear : (spaces : Bytes) → All is_space spaces → All (λ c. not (c == 0x0a)) spaces
spaces_clear [] h = tt
spaces_clear (c ∷ spaces) h = (ground (arith, h.0), spaces_clear spaces h.1)

tag_clear : (success : Bool) → All (λ c. not (c == 0x0a)) (status_tag success)
tag_clear true = (refl, (refl, (refl, tt)))
tag_clear false = (refl, (refl, (refl, (refl, tt))))

-- A part of two texts ends within the first one, or behind it.
pub split_within :
    (a b part more : Bytes)
    → a ++ b ≡ part ++ more
    → ((rest : Bytes) × (a ≡ part ++ rest))
      ⊎ ((x : ℕ) × (left : Bytes) × (part ≡ a ++ x ∷ left) × (b ≡ x ∷ left ++ more))
split_within a b [] more e = inl (a, refl)
split_within [] b (x ∷ part) more e = inr (x, part, refl, e)
split_within (y ∷ a) b (x ∷ part) more e = elim (split_within a b part more (tail_eq e)) [
  | inl (rest, split) ↦ inl (rest, ground (arith, head_eq e, split))
  | inr (z, left, split, rest) ↦ inr (z, left, ground (arith, head_eq e, split), rest)
]

-- Nothing can be left where what is missing ends with all of it.
nothing_left : (x : ℕ) (left rest : Bytes) → x ∷ [] ≡ left ++ (rest ++ x ∷ []) → left ≡ []
nothing_left x [] rest e = refl
nothing_left x (y ∷ left) rest e =
    absurd
      (omega (arith, ap length e, length-append left (rest ++ x ∷ []), length-append rest (x ∷ [])))

module _ (nom : Nom) (prims : LawfulPrimitives nom) (combs : LawfulCombinators nom)
    (is_success : Bool) (spaces : Bytes) (h : All is_space spaces) where
  abbrev heading : Bytes
  heading = status_tag is_success ++ spaces

  abbrev outcome : Status
  outcome = record { success = is_success }

  one_more : (x : ℕ) (rest : Bytes) → rest ++ x ∷ [] ≢ []
  one_more x [] e = cc
  one_more x (y ∷ rest) e = cc

  -- There is no line feed in a heading.
  heading_clear : All (λ c. not (c == 0x0a)) heading
  heading_clear =
      clear_append (status_tag is_success) spaces (tag_clear is_success) (spaces_clear spaces h)

  rest_clear : (part rest : Bytes) → heading ≡ part ++ rest → NotLineFeed (rest ++ 0 ∷ [])
  rest_clear part rest e =
      clear_ahead rest (0 ∷ [])
        (clear_rest part rest (subst (All (λ c. not (c == 0x0a))) e heading_clear)) (omega arith)

  -- What the status makes of a part of itself, if no space follows.
  status_part :
      (part rest : Bytes)
      → heading ≡ part ++ rest
      → (status nom part ≡ incomplete unknown)
        ⊎ (((min : ℕ) × (status nom part ≡ incomplete (size min))
              × (length part + min ≤ length heading + 1))
            ⊎ (status nom part ≡ done [] outcome))
  status_part part rest e =
      let whole : heading ++ 0 ∷ [] ≡ part ++ (rest ++ 0 ∷ []) =
        ap (λ bs. bs ++ 0 ∷ []) e ∙ append_assoc part rest (0 ∷ []) in
      elim ((Streams-status nom prims combs is_success spaces (0 ∷ []) h refl).cut part
        (rest ++ 0 ∷ []) whole (one_more 0 rest)) [
          | inl w ↦
              elim (Waits-within (status nom) (heading ++ 0 ∷ []) part _ whole
                (rest_clear part rest e) w) [
                  | inl u ↦ inl u
                  | inr (min, u, k) ↦
                      inr (inl (min, u, omega (arith, length-append heading (0 ∷ []))))
                ]
          | inr (left, split, d) ↦ inr (inr (rw (nothing_left 0 left rest split) at d))
        ]

  -- Behind the status, nothing says how much is missing.
  pub AsksWithin-status :
      (f : Status → Parser Response) (text : Bytes) (r : Response)
      → StopsAt is_space text
      → ((part more : Bytes) → text ≡ part ++ more → more ≢ [] → Untold (f outcome) [] r part more)
      → AsksWithin Anywhere (status nom >>= f) (heading ++ text) (length heading + 1)
  AsksWithin-status f [] r stop later part more e ne may = absurd stop
  AsksWithin-status f (x ∷ text) r stop later part more e ne may =
      elim (split_within heading (x ∷ text) part more e) [
        | inl (rest, split) ↦ elim (status_part part rest split) [
          | inl w ↦ inl (rw w refl)
          | inr (inl (min, w, k)) ↦ inr (min, rw w refl, k)
          | inr (inr d) ↦ inl (rw d (unread [] (x ∷ text) refl (λ e. cc)))
        ]
        | inr (y, left, split, rest) ↦ inl (
            rw
              (
                split,
                (Streams-status nom prims combs is_success spaces (y ∷ left) h
                    (subst (λ z. StopsAt is_space (z ∷ [])) (head_eq rest) stop)).whole,
              )
              (unread (y ∷ left) more rest ne))
      ]
    where
      unread :
          (part more : Bytes)
          → x ∷ text ≡ part ++ more
          → more ≢ []
          → f outcome part ≡ incomplete unknown
      unread part more e ne = elim (later part more e ne) [
        | inl w ↦ w
        | inr (left, none_left, d) ↦
            absurd (omega (arith, ap length none_left, length-append left more, length_pos more ne))
      ]

  -- The attempt at a challenge asks for no more than the status, and a part that holds the status is none.
  challenge_part :
      (text part more : Bytes)
      → heading ++ text ≡ part ++ more
      → (challenge nom part ≡ incomplete unknown)
        ⊎ (((min : ℕ) × (challenge nom part ≡ incomplete (size min))
              × (length part + min ≤ length heading + 1))
            ⊎ (challenge nom part ≡ error))
  challenge_part text part more e = elim (split_within heading text part more e) [
    | inl (rest, split) ↦
        let whole : status_tag is_success ++ (spaces ++ 0 ∷ []) ≡ part ++ (rest ++ 0 ∷ []) =
          sym (append_assoc (status_tag is_success) spaces (0 ∷ []))
          ∙ ap (λ bs. bs ++ 0 ∷ []) split
          ∙ append_assoc part rest (0 ∷ []) in
        elim ((Rejects-challenge nom prims combs is_success (spaces ++ 0 ∷ [])).cut part
          (rest ++ 0 ∷ []) whole (one_more 0 rest)) [
            | inl w ↦
                elim (Waits-within (challenge nom) _ part _ whole (rest_clear part rest split) w) [
                  | inl u ↦ inl u
                  | inr (min, u, k) ↦ inr (
                      inl (
                        min,
                        u,
                        omega (
                          arith,
                          length-append (status_tag is_success) (spaces ++ 0 ∷ []),
                          length-append spaces (0 ∷ []),
                          length-append (status_tag is_success) spaces,
                        ),
                      ))
                ]
            | inr d ↦ inr (inr d)
          ]
    | inr (y, left, split, rest) ↦ inr (
        inr (
          rw (split, append_assoc (status_tag is_success) spaces (y ∷ left))
            (Rejects-challenge nom prims combs is_success (spaces ++ y ∷ left)).refused))
  ]

  module _ (decode : Bytes → Option Bytes) where
    -- Whatever the command, the status is what asks for most.
    pub AsksWithin-parse :
        (c : Command) (text : Bytes)
        → AsksWithin Anywhere (status_response nom c) (heading ++ text) (length heading + 1)
        → AsksWithin Anywhere
            (λ input. parse nom decode input c)
            (heading ++ text)
            (length heading + 1)
    unfolding parse after_challenge
    AsksWithin-parse c text a [] more e ne may = inl refl
    AsksWithin-parse c text a (x ∷ part) more e ne may =
        elim (by_request_cases nom prims combs decode c) [
          | inl same ↦ rw (same (x ∷ part)) (a (x ∷ part) more e ne tt)
          | inr same ↦ rw (same (x ∷ part)) (elim (challenge_part text (x ∷ part) more e) [
            | inl w ↦ inl (rw w refl)
            | inr (inl (min, w, k)) ↦ inr (min, rw w refl, k)
            | inr (inr d) ↦ rw d (a (x ∷ part) more e ne tt)
          ])
        ]
