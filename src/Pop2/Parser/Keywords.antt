-- ===== src/Pop2/Parser/Keywords.antt =====
-- A keyword, compared with a word that is not the keyword.
use getemail.Base.{
  ℕ, ◌≡◌, ◌≢◌, ◌≤◌, refl, sym, inl, inr, Bool, true, false, ◌&&◌, List, [], ◌∷◌, ◌++◌, Bytes, arith,
  leb, length, length-append, lower, ◌==◌, if◌then◌else◌, Bool-cases,
}
use getemail.Pop2.Env.{error}
use getemail.Pop2.Nom.{Nom}
use getemail.Pop2.Nom.Laws.{LawfulPrimitives, tagged_from}
use getemail.Pop2.Parser.Primitives.{Differs, Rejects-tagged, head_eq}
use getemail.Pop2.Parser.Choices.{Skips, Skips-eq, Skips-Rejects}

-- A word is not the keyword; what they have in common is followed by no less in the word than in the keyword.
unfoldable pub apart_behind : Bytes → Bytes → Bool
apart_behind (t ∷ ts) (c ∷ cs) =
    let rest = apart_behind ts cs in
    leb (length ts) (length cs) && (if lower t == lower c then rest else true)
apart_behind _ _ = false

unfoldable pub apart : Bytes → Bytes → Bool
unfolding apart_behind
apart (t ∷ ts) (c ∷ cs) = let rest = apart_behind ts cs in if lower t == lower c then rest else true
apart _ _ = false

abbrev pub all_apart : List Bytes → Bytes → Bool
all_apart [] w = true
all_apart (t ∷ ts) w = apart t w && all_apart ts w

Differs-apart_behind : (t w rest : Bytes) → apart_behind t w ≡ true → Differs lower t (w ++ rest)
unfolding apart_behind
Differs-apart_behind [] w rest h = absurd (cc)
Differs-apart_behind (t ∷ ts) [] rest h = absurd (cc)
Differs-apart_behind (t ∷ ts) (c ∷ cs) rest h = elim (Bool-cases (lower t == lower c)) [
  | inl e ↦ (
    ground (arith, h, length-append cs rest),
    inr (ground (arith, e), Differs-apart_behind ts cs rest (ground (arith, h, e))),
  )
  | inr e ↦ (ground (arith, h, length-append cs rest), inl (ground (arith, e)))
]

length-apart_behind : (t w : Bytes) → apart_behind t w ≡ true → length t ≤ length w
unfolding apart_behind
length-apart_behind [] w h = absurd (cc)
length-apart_behind (t ∷ ts) [] h = absurd (cc)
length-apart_behind (t ∷ ts) (c ∷ cs) h = ground (arith, h)

tagged-refused_other :
    (t c : ℕ) (ts cs part more : Bytes)
    → (lower t == lower c) ≡ false
    → c ∷ cs ≡ part ++ more
    → part ≢ []
    → tagged_from lower (t ∷ ts) part ≡ error
tagged-refused_other t c ts cs [] more e split begun = absurd (begun refl)
tagged-refused_other t c ts cs (x ∷ part) more e split begun = rw (sym (head_eq split), e) refl

Skips-tagged : (t w rest : Bytes) → apart t w ≡ true → Skips (tagged_from lower t) (w ++ rest)
unfolding apart
Skips-tagged [] w rest h = absurd (cc)
Skips-tagged (t ∷ ts) [] rest h = absurd (cc)
Skips-tagged (t ∷ ts) (c ∷ cs) rest h = elim (Bool-cases (lower t == lower c)) [
  | inl e ↦
      let behind : apart_behind ts cs ≡ true = rw (e) at h in
      Skips-Rejects (tagged_from lower (t ∷ ts)) ((c ∷ cs) ++ rest) (
        Rejects-tagged lower (t ∷ ts) ((c ∷ cs) ++ rest) (
          omega (arith, length-append cs rest, length-apart_behind ts cs behind),
          inr (ground (arith, e), Differs-apart_behind ts cs rest behind),
        ))
  | inr e ↦ record {
    refused = rw e refl;
    cut = λ part more split begun ne.
        inr (tagged-refused_other t c ts (cs ++ rest) part more e split begun);
  }
]

-- The keyword is refused where another word stands.
pub Skips-tag_no_case :
    (nom : Nom)
    → LawfulPrimitives nom
    → (t w rest : Bytes) → apart t w ≡ true
    → Skips (nom.tag_no_case t) (w ++ rest)
Skips-tag_no_case nom prims t w rest h =
    Skips-eq (nom.tag_no_case t) (tagged_from lower t) (prims.tag_no_case-eq t)
      (Skips-tagged t w rest h)
