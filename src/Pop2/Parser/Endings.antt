-- ===== src/Pop2/Parser/Endings.antt =====
-- Ends of lines that are awaited for themselves. Where the input ends behind `\r`, the end of a line asks for
-- more; how much is not documented, and not said here.
use getemail.Base.{
  ℕ, zero, suc, ◌-◌, ◌≡◌, ◌≢◌, ◌≤◌, refl, sym, ap, inl, inr, Bool, [], ◌∷◌, ◌++◌, Bytes, none,
  arith, length, length-append, ◌==◌, if◌then◌else◌,
}
use getemail.Pop2.Env.{done, Needed, unknown, size}
use getemail.Pop2.Nom.{Nom, Parser, pure, ◌>>=◌}
use getemail.Pop2.Nom.Laws.{LawfulPrimitives, LawfulCombinators, tagged_from, line_end, taken_m_n}
use getemail.Pop2.Parser.Core.{eol, end_of_multiline}
use getemail.Pop2.Parser.Rfc1939.{undotted}
use getemail.Pop2.Parser.Streams.{
  AtLineFeed, Asks, Cut, Streams, Rejects, Streams-eq, Streams-bind, Streams-map, Rejects-eq,
  Rejects-bind, length_pos,
}
use getemail.Pop2.Parser.Primitives.{All, StopsAt, Rejects-tagged, head_eq, tail_eq, Cut-cons}
use getemail.Pop2.Parser.Lines.{crlf, Streams-tag, Streams-space0}

module _ (p : ℕ → Bool) where
  taken_m_n-whole :
      (m n : ℕ) (text tail : Bytes)
      → m ≤ length text
      → length text ≤ n
      → All p text
      → StopsAt p tail
      → taken_m_n m n p (text ++ tail) ≡ done tail text
  taken_m_n-whole m zero [] tail h k a stop = refl
  taken_m_n-whole m (suc n) [] [] h k a stop = absurd stop
  taken_m_n-whole m (suc n) [] (c ∷ tail) h k a stop = ground (arith, stop)
  taken_m_n-whole m zero (t ∷ text) tail h k a stop = absurd (omega arith)
  taken_m_n-whole m (suc n) (t ∷ text) tail h k a stop =
      rw (a.0, taken_m_n-whole (m - 1) n text tail (omega arith) (omega arith) a.1 stop) refl

  Cut-taken_m_n :
      (m n : ℕ) (text tail part more : Bytes)
      → m ≤ length text
      → length text ≤ n
      → All p text
      → StopsAt p tail
      → text ++ tail ≡ part ++ more
      → more ≢ []
      → Cut (taken_m_n m n p) tail text part more
  Cut-taken_m_n m zero [] tail part more h k a stop e ne = inr (part, e, refl)
  Cut-taken_m_n m zero (t ∷ text) tail part more h k a stop e ne = absurd (omega arith)
  Cut-taken_m_n m (suc n) text tail [] more h k a stop e ne = inl (
    size (if m == 0 then 1 else m),
    refl,
    inl (ground (arith, ap length e, length-append text tail, length_pos more ne)),
  )
  Cut-taken_m_n m (suc n) [] [] (x ∷ part) more h k a stop e ne = absurd stop
  Cut-taken_m_n m (suc n) [] (c ∷ tail) (x ∷ part) more h k a stop e ne =
      inr (x ∷ part, e, ground (arith, head_eq e, stop))
  Cut-taken_m_n m (suc n) (t ∷ text) tail (x ∷ part) more h k a stop e ne =
      rw (sym (head_eq e), a.0)
        (Cut-cons t (taken_m_n (m - 1) n p part) tail text more (
          Cut-taken_m_n (m - 1) n text tail part more (omega arith) (omega arith) a.1 stop
            (tail_eq e) ne))

  pub Streams-taken_m_n :
      (m n : ℕ) (text tail : Bytes)
      → m ≤ length text
      → length text ≤ n
      → All p text
      → StopsAt p tail
      → Streams (taken_m_n m n p) text tail text
  Streams-taken_m_n m n text tail h k a stop = record {
    whole = taken_m_n-whole m n text tail h k a stop;
    cut = λ part more e ne. Cut-taken_m_n m n text tail part more h k a stop e ne;
  }

module _ (nom : Nom) (prims : LawfulPrimitives nom) (combs : LawfulCombinators nom) where
  open prims use {cr_needs, tag-eq, line_ending-eq}
  open combs use {opt-eq, pair-eq, preceded-eq}

  -- Nothing is read where the parser refuses.
  Streams-opt :
      {A : Type 0} (p : Parser A) (input : Bytes)
      → Rejects p input
      → Streams (nom.opt p) [] input none
  Streams-opt p input r = record {
    whole = rw (opt-eq p input, r.refused) refl;
    cut = λ part more e ne. elim (r.cut part more e ne) [
      | inl (needed, w, h) ↦ inl (needed, rw (opt-eq p part, w) refl, h)
      | inr d ↦ inr (part, e, rw (opt-eq p part, d) refl)
    ];
  }

  Rejects-dot :
      (input : Bytes) → StopsAt (λ c. c == b'.') input → Rejects (nom.tag (b'.' ∷ [])) input
  Rejects-dot [] stop = absurd stop
  Rejects-dot (c ∷ input) stop =
      Rejects-eq (nom.tag (b'.' ∷ [])) (tagged_from (λ x. x) (b'.' ∷ [])) (tag-eq (b'.' ∷ []))
        (Rejects-tagged (λ x. x) (b'.' ∷ []) (c ∷ input) (omega arith, inl (ground arith)))

  pub Streams-undotted :
      {A : Type 0} (p : Parser A) (text tail : Bytes) (a : A)
      → StopsAt (λ c. c == b'.') (text ++ tail)
      → Streams p text tail a
      → Streams (undotted nom p) text tail a
  unfolding undotted
  Streams-undotted p text tail a stop s =
      Streams-eq _ (nom.opt (nom.tag (b'.' ∷ [])) >>= λ _. p) (preceded-eq _ p) (
        Streams-bind (nom.opt (nom.tag (b'.' ∷ []))) (λ _. p) [] text tail none a
          (Streams-opt (nom.tag (b'.' ∷ [])) (text ++ tail) (Rejects-dot (text ++ tail) stop)) s)

  pub Rejects-end_of_multiline :
      (input : Bytes) → StopsAt (λ c. c == b'.') input → Rejects (end_of_multiline nom) input
  unfolding end_of_multiline
  Rejects-end_of_multiline input stop =
      Rejects-bind (nom.pair (nom.tag (b'.' ∷ [])) nom.line_ending) (λ _. pure tt) input
        (Rejects-eq (nom.pair (nom.tag (b'.' ∷ [])) nom.line_ending) _ (pair-eq _ _)
          (Rejects-bind (nom.tag (b'.' ∷ [])) _ input (Rejects-dot input stop)))

  Streams-line_end : (tail : Bytes) → Streams (line_end cr_needs) crlf tail crlf
  Streams-line_end tail = record { whole = refl; cut = λ part more e ne. cut part more e ne }
    where
      asks : (needed : Needed) (more : Bytes) → AtLineFeed more → Asks more needed
      asks unknown more h = tt
      asks (size min) more h = inr h

      at_end : (more : Bytes) → 0x0a ∷ tail ≡ more → AtLineFeed more
      at_end [] e = cc
      at_end (c ∷ more) e = sym (head_eq e)

      cut :
          (part more : Bytes)
          → crlf ++ tail ≡ part ++ more
          → more ≢ []
          → Cut (line_end cr_needs) tail crlf part more
      cut [] more e ne = inl (size 1, refl, inl (omega (arith, length_pos more ne)))
      cut (a ∷ []) more e ne =
          inl (cr_needs, rw (sym (head_eq e)) refl, asks cr_needs more (at_end more (tail_eq e)))
      cut (a ∷ b ∷ left) more e ne =
          inr (left, tail_eq (tail_eq e), rw (sym (head_eq e), sym (head_eq (tail_eq e))) refl)

  Streams-line_ending : (tail : Bytes) → Streams nom.line_ending crlf tail crlf
  Streams-line_ending tail =
      Streams-eq nom.line_ending (line_end cr_needs) line_ending-eq (Streams-line_end tail)

  pub Streams-eol : (tail : Bytes) → Streams (eol nom) crlf tail tt
  unfolding eol
  Streams-eol tail =
      Streams-map (nom.pair nom.space0 nom.line_ending) (λ _. tt)
        (Streams-eq (nom.pair nom.space0 nom.line_ending) _ (pair-eq _ _) (
          Streams-bind nom.space0 _ [] crlf tail [] ([], crlf)
            (Streams-space0 nom prims combs [] (crlf ++ tail) tt refl)
            (Streams-map nom.line_ending (λ b. ([], b)) (Streams-line_ending tail))))

  pub Streams-end_of_multiline :
      (tail : Bytes) → Streams (end_of_multiline nom) (b'.' ∷ crlf) tail tt
  unfolding end_of_multiline
  Streams-end_of_multiline tail =
      Streams-map (nom.pair (nom.tag (b'.' ∷ [])) nom.line_ending) (λ _. tt)
        (Streams-eq (nom.pair (nom.tag (b'.' ∷ [])) nom.line_ending) _ (pair-eq _ _) (
          Streams-bind (nom.tag (b'.' ∷ [])) _ (b'.' ∷ []) crlf tail (b'.' ∷ []) (b'.' ∷ [], crlf)
            (Streams-tag nom prims combs (b'.' ∷ []) (crlf ++ tail))
            (Streams-map nom.line_ending (λ b. (b'.' ∷ [], b)) (Streams-line_ending tail))))
