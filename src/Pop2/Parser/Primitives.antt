-- ===== src/Pop2/Parser/Primitives.antt =====
-- What the primitive parsers read, on input that may be cut off.
use getemail.Base.{
  IsLine, ℕ, suc, ◌≤◌, ◌≡◌, ◌≢◌, refl, sym, ap, ◌⊎◌, inl, inr, Bool, true, false, [], ◌∷◌, ◌++◌,
  Bytes, arith, length, length-append, ◌==◌,
}
use getemail.Pop2.Env.{IResult, done, incomplete, error, unknown, size}
use getemail.Pop2.Nom.{and_then}
use getemail.Pop2.Nom.Laws.{tagged_from, cons, taken_while, taken_while1, taken_line}
use getemail.Pop2.Parser.Streams.{Waits, Cut, Streams, Rejects, length_pos}

-- All bytes pass the test, and the first byte behind them does not.
abbrev pub All : (ℕ → Bool) → Bytes → Type 0
All p [] = Unit {0}
All p (c ∷ cs) = (p c ≡ true) × All p cs

abbrev pub StopsAt : (ℕ → Bool) → Bytes → Type 0
StopsAt p [] = ⊥
StopsAt p (c ∷ cs) = p c ≡ false

pub tail_eq : {x y : ℕ} {xs ys : Bytes} → x ∷ xs ≡ y ∷ ys → xs ≡ ys
tail_eq e = cc

pub head_eq : {x y : ℕ} {xs ys : Bytes} → x ∷ xs ≡ y ∷ ys → x ≡ y
head_eq e = cc

-- One more byte in front.
pub Cut-cons :
    (x : ℕ) (r : IResult Bytes) (tail text more : Bytes)
    → Waits more r ⊎ ((left : Bytes) × (tail ≡ left ++ more) × (r ≡ done left text))
    → Waits more (and_then r (λ found rest. cons x rest found))
      ⊎ ((left : Bytes) × (tail ≡ left ++ more)
          × (and_then r (λ found rest. cons x rest found) ≡ done left (x ∷ text)))
Cut-cons x r tail text more (inl (needed, w, h)) = inl (needed, rw w refl, h)
Cut-cons x r tail text more (inr (left, split, d)) = inr (left, split, rw d refl)

module _ (p : ℕ → Bool) where
  taken_while-whole :
      (text tail : Bytes)
      → All p text
      → StopsAt p tail
      → taken_while p (text ++ tail) ≡ done tail text
  taken_while-whole [] [] h stop = absurd stop
  taken_while-whole [] (c ∷ tail) h stop = rw stop refl
  taken_while-whole (t ∷ text) tail h stop = rw (h.0, taken_while-whole text tail h.1 stop) refl

  Cut-taken_while :
      (text tail part more : Bytes)
      → All p text
      → StopsAt p tail
      → text ++ tail ≡ part ++ more
      → more ≢ []
      → Cut (taken_while p) tail text part more
  Cut-taken_while text tail [] more h stop e ne =
      inl (size 1, refl, inl (omega (arith, length_pos more ne)))
  Cut-taken_while [] [] (x ∷ part) more h stop e ne = absurd stop
  Cut-taken_while [] (c ∷ tail) (x ∷ part) more h stop e ne =
      inr (x ∷ part, e, rw (sym (head_eq e), stop) refl)
  Cut-taken_while (t ∷ text) tail (x ∷ part) more h stop e ne =
      rw (sym (head_eq e), h.0)
        (Cut-cons t (taken_while p part) tail text more
          (Cut-taken_while text tail part more h.1 stop (tail_eq e) ne))

  pub Streams-taken_while :
      (text tail : Bytes) → All p text → StopsAt p tail → Streams (taken_while p) text tail text
  Streams-taken_while text tail h stop = record {
    whole = taken_while-whole text tail h stop;
    cut = λ part more e ne. Cut-taken_while text tail part more h stop e ne;
  }

  pub Streams-taken_while1 :
      (c : ℕ) (text tail : Bytes)
      → All p (c ∷ text)
      → StopsAt p tail
      → Streams (taken_while1 p) (c ∷ text) tail (c ∷ text)
  Streams-taken_while1 c text tail h stop = record {
    whole = rw (h.0, taken_while-whole text tail h.1 stop) refl;
    cut = λ part more e ne. cut part more e ne;
  }
    where
      cut :
          (part more : Bytes)
          → c ∷ (text ++ tail) ≡ part ++ more
          → more ≢ []
          → Cut (taken_while1 p) tail (c ∷ text) part more
      cut [] more e ne = inl (size 1, refl, inl (omega (arith, length_pos more ne)))
      cut (x ∷ part) more e ne =
          rw (sym (head_eq e), h.0)
            (Cut-cons c (taken_while p part) tail text more
              (Cut-taken_while text tail part more h.1 stop (tail_eq e) ne))

  pub Rejects-taken_while1 : (input : Bytes) → StopsAt p input → Rejects (taken_while1 p) input
  Rejects-taken_while1 [] stop = absurd stop
  Rejects-taken_while1 (c ∷ input) stop = record {
    refused = rw stop refl;
    cut = λ part more e ne. cut part more e ne;
  }
    where
      cut :
          (part more : Bytes)
          → c ∷ input ≡ part ++ more
          → more ≢ []
          → Waits more (taken_while1 p part) ⊎ (taken_while1 p part ≡ error)
      cut [] more e ne = inl (size 1, refl, inl (omega (arith, length_pos more ne)))
      cut (x ∷ part) more e ne = inr (rw (sym (head_eq e), stop) refl)

-- The text is the tag, up to the case that is folded.
abbrev pub Folds : (ℕ → ℕ) → Bytes → Bytes → Type 0
Folds fold [] [] = Unit {0}
Folds fold (t ∷ ts) (c ∷ cs) = (fold t ≡ fold c) × Folds fold ts cs
Folds fold _ _ = ⊥

module _ (fold : ℕ → ℕ) where
  same_fold : (t c : ℕ) → fold t ≡ fold c → (fold t == fold c) ≡ true
  same_fold t c e = ground arith

  length-Folds : (ts cs : Bytes) → Folds fold ts cs → length ts ≡ length cs
  length-Folds [] [] h = refl
  length-Folds (t ∷ ts) (c ∷ cs) h = ap suc (length-Folds ts cs h.1)
  length-Folds [] (c ∷ cs) h = absurd h
  length-Folds (t ∷ ts) [] h = absurd h

  tagged-whole :
      (t text tail : Bytes) → Folds fold t text → tagged_from fold t (text ++ tail) ≡ done tail text
  tagged-whole [] [] tail h = refl
  tagged-whole (t ∷ ts) (c ∷ cs) tail h = rw (same_fold t c h.0, tagged-whole ts cs tail h.1) refl
  tagged-whole [] (c ∷ cs) tail h = absurd h
  tagged-whole (t ∷ ts) [] tail h = absurd h

  Cut-tagged :
      (t text tail part more : Bytes)
      → Folds fold t text
      → text ++ tail ≡ part ++ more
      → more ≢ []
      → Cut (tagged_from fold t) tail text part more
  Cut-tagged [] [] tail part more h e ne = inr (part, e, refl)
  Cut-tagged (t ∷ ts) (c ∷ cs) tail [] more h e ne = inl (
    size (suc (length ts)),
    refl,
    inl (omega (arith, ap length e, length-append cs tail, length-Folds ts cs h.1)),
  )
  Cut-tagged (t ∷ ts) (c ∷ cs) tail (x ∷ part) more h e ne =
      rw (sym (head_eq e), same_fold t c h.0)
        (Cut-cons c (tagged_from fold ts part) tail cs more
          (Cut-tagged ts cs tail part more h.1 (tail_eq e) ne))
  Cut-tagged [] (c ∷ cs) tail part more h e ne = absurd h
  Cut-tagged (t ∷ ts) [] tail part more h e ne = absurd h

  pub Streams-tagged :
      (t text tail : Bytes) → Folds fold t text → Streams (tagged_from fold t) text tail text
  Streams-tagged t text tail h = record {
    whole = tagged-whole t text tail h;
    cut = λ part more e ne. Cut-tagged t text tail part more h e ne;
  }

-- Another text, whose first bytes may be those of the tag; it is no shorter than the tag.
abbrev pub Differs : (ℕ → ℕ) → Bytes → Bytes → Type 0
Differs fold (t ∷ ts) (c ∷ cs) =
    (length ts ≤ length cs) × ((fold t ≢ fold c) ⊎ ((fold t ≡ fold c) × Differs fold ts cs))
Differs fold _ _ = ⊥

module _ (fold : ℕ → ℕ) where
  other_fold : (t c : ℕ) → fold t ≢ fold c → (fold t == fold c) ≡ false
  other_fold t c e = ground arith

  tagged-refused : (t input : Bytes) → Differs fold t input → tagged_from fold t input ≡ error
  tagged-refused (t ∷ ts) (c ∷ cs) (n, inl d) = rw (other_fold t c d) refl
  tagged-refused (t ∷ ts) (c ∷ cs) (n, inr (e, d)) =
      rw (same_fold fold t c e, tagged-refused ts cs d) refl
  tagged-refused [] input h = absurd h
  tagged-refused (t ∷ ts) [] h = absurd h

  tagged-refused_cut :
      (t input part more : Bytes)
      → Differs fold t input
      → input ≡ part ++ more
      → more ≢ []
      → Waits more (tagged_from fold t part) ⊎ (tagged_from fold t part ≡ error)
  tagged-refused_cut (t ∷ ts) (c ∷ cs) [] more (n, d) e ne =
      inl (size (suc (length ts)), refl, inl (omega (arith, ap length e, n)))
  tagged-refused_cut (t ∷ ts) (c ∷ cs) (x ∷ part) more (n, inl d) e ne =
      inr (rw (sym (head_eq e), other_fold t c d) refl)
  tagged-refused_cut (t ∷ ts) (c ∷ cs) (x ∷ part) more (n, inr (same, d)) e ne =
      rw (sym (head_eq e), same_fold fold t c same)
        (elim (tagged-refused_cut ts cs part more d (tail_eq e) ne) [
          | inl (needed, w, h) ↦ inl (needed, rw w refl, h)
          | inr r ↦ inr (rw r refl)
        ])
  tagged-refused_cut [] input part more h e ne = absurd h
  tagged-refused_cut (t ∷ ts) [] part more h e ne = absurd h

  pub Rejects-tagged : (t input : Bytes) → Differs fold t input → Rejects (tagged_from fold t) input
  Rejects-tagged t input h = record {
    refused = tagged-refused t input h;
    cut = λ part more e ne. tagged-refused_cut t input part more h e ne;
  }

pub Folds-refl : (fold : ℕ → ℕ) (t : Bytes) → Folds fold t t
Folds-refl fold [] = tt
Folds-refl fold (c ∷ t) = (refl, Folds-refl fold t)

-- The line is read and its end is not.
pub taken_line-whole :
    (text tail : Bytes)
    → IsLine text
    → taken_line (text ++ 0x0d ∷ 0x0a ∷ tail) ≡ done (0x0d ∷ 0x0a ∷ tail) text
taken_line-whole [] tail h = refl
taken_line-whole (c ∷ []) tail h = ground arith
taken_line-whole (c ∷ d ∷ text) tail h = ground (arith, taken_line-whole (d ∷ text) tail h.2)

pub taken_line-cut :
    (text tail part more : Bytes)
    → IsLine text
    → text ++ 0x0d ∷ 0x0a ∷ tail ≡ part ++ more
    → more ≢ []
    → (taken_line part ≡ incomplete unknown)
      ⊎ ((left : Bytes) × (tail ≡ left ++ more)
          × (taken_line part ≡ done (0x0d ∷ 0x0a ∷ left) text))
taken_line-cut text tail [] more h e ne = inl refl
taken_line-cut [] tail (x ∷ []) more h e ne = ground (arith, head_eq e)
taken_line-cut [] tail (x ∷ y ∷ part) more h e ne =
    inr (part, tail_eq (tail_eq e), ground (arith, head_eq e, head_eq (tail_eq e)))
taken_line-cut (c ∷ text) tail (x ∷ []) more h e ne = ground (arith, head_eq e)
taken_line-cut (c ∷ text) tail (x ∷ y ∷ part) more h e ne =
    elim (taken_line-cut text tail (y ∷ part) more h.2 (tail_eq e) ne) [
      | inl w ↦ inl (ground (arith, head_eq e, w))
      | inr (left, split, d) ↦ inr (left, split, ground (arith, head_eq e, d))
    ]
