-- ===== src/Mail/Filters/Matches.antt =====
-- Which messages the filters of src/filters.rs let through.
use getemail.Base.{
  starts_with, ℕ, ◌≡◌, refl, ◌↔◌, ◌⊎◌, inl, inr, Bool, true, ◌||◌, [], ◌∷◌, ◌++◌, Bytes, Option,
  none, some, bytes_eq, bytes_eq_iff, arith, Bool-cases, Option-cases, ap, ◌∙◌,
}
use getemail.Mail.Crates.{Crates}
use getemail.Mail.Filters.{
  DateFilterMode, since, earlier, Filter, empty, and, or, subject, subject_contains, sender,
  date_filter, contains, is_some_and, compare_date, sent, filter, regex_filter, unwrap_or_empty,
}

starts_with_iff : (p s : Bytes) → (starts_with p s ≡ true) ↔ ((rest : Bytes) × (s ≡ p ++ rest))
unfolding starts_with
starts_with_iff [] s = (λ h. (s, refl), λ h. refl)
starts_with_iff (p ∷ ps) [] = ground arith
starts_with_iff (p ∷ ps) (c ∷ cs) = ground (arith, starts_with_iff ps cs)

or_true : (a : Bool) {b : Bool} → b ≡ true → a || b ≡ true
or_true a e = ground arith

-- Where a pattern stands.
abbrev pub Occurs : Bytes → Bytes → Type 0
Occurs p s = (left : Bytes) × (right : Bytes) × (s ≡ left ++ (p ++ right))

contains_further :
    (p : Bytes) (c : ℕ) (cs : Bytes)
    → (contains p cs ≡ true) ↔ Occurs p cs
    → (contains p (c ∷ cs) ≡ true) ↔ Occurs p (c ∷ cs)
unfolding contains
contains_further p c cs inner = (to, from)
  where
    to : starts_with p (c ∷ cs) || contains p cs ≡ true → Occurs p (c ∷ cs)
    to h = elim (Bool-cases (starts_with p (c ∷ cs))) [
      | inl e ↦ let (rest, whole) = (starts_with_iff p (c ∷ cs)).0 e in ([], rest, whole)
      | inr e ↦
          let (left, right, whole) = inner.0 (ground arith) in (c ∷ left, right, ap (◌∷◌ c) whole)
    ]

    from : Occurs p (c ∷ cs) → starts_with p (c ∷ cs) || contains p cs ≡ true
    from ([], right, e) = ground (arith, (starts_with_iff p (c ∷ cs)).1 (right, e))
    from (d ∷ left, right, e) = or_true _ (inner.1 (left, right, cc))

contains_iff : (p s : Bytes) → (contains p s ≡ true) ↔ (Occurs p s)
unfolding contains
contains_iff p [] = (
  λ h. let (rest, e) = (starts_with_iff p []).0 h in ([], rest, e),
  λ found. (starts_with_iff p []).1 (ends found),
)
  where
    ends : Occurs p [] → (rest : Bytes) × ([] ≡ p ++ rest)
    ends ([], right, e) = (right, e)
    ends (c ∷ left, right, e) = absurd (cc)
contains_iff p (c ∷ cs) = contains_further p c cs (contains_iff p cs)

is_some_and_iff :
    {A : Type 0} (o : Option A) (f : A → Bool)
    → (is_some_and o f ≡ true) ↔ ((a : A) × (o ≡ some a) × (f a ≡ true))
unfolding is_some_and
is_some_and_iff none f = (λ h. absurd (cc), λ (a, e, h). absurd (cc))
is_some_and_iff (some a) f = (λ h. (a, refl, h), λ (b, e, h). ground (arith, e, h))

module _ (crates : Crates) where
  abbrev pub Compares : DateFilterMode → crates.DateTime → crates.DateTime → Type 0
  Compares since d sent_at = crates.later sent_at d ≡ true
  Compares earlier d sent_at = crates.later d sent_at ≡ true

  -- A message without the field that a filter looks at does not match it. A regular expression is matched with the
  -- first body of the message, or with an empty text if it has none.
  abbrev pub Matches : Filter crates → crates.Message → Type 0
  Matches empty msg = Unit {0}
  Matches (and first second) msg = Matches first msg × Matches second msg
  Matches (or first second) msg = Matches first msg ⊎ Matches second msg
  Matches (subject s) msg = crates.subject msg ≡ some s
  Matches (subject_contains p) msg = (s : Bytes) × (crates.subject msg ≡ some s) × Occurs p s
  Matches (sender s) msg =
      (a : crates.Address) × (crates.sender msg ≡ some a) × (crates.address_contains a s ≡ true)
  Matches (date_filter mode d) msg =
      (t : crates.Timestamp) × (at : crates.DateTime) × (crates.date msg ≡ some t)
      × (crates.from_timestamp t ≡ some at)
      × Compares mode d at
  Matches (regex_filter r) msg =
      ((body : Bytes) × (crates.body_html msg 0 ≡ some body) × (crates.is_match r body ≡ true))
      ⊎ ((crates.body_html msg 0 ≡ none) × (crates.is_match r [] ≡ true))

  compare_date_iff :
      (mode : DateFilterMode) (d at : crates.DateTime)
      → (compare_date crates mode d at ≡ true) ↔ Compares mode d at
  unfolding compare_date
  compare_date_iff since d at = (λ h. h, λ h. h)
  compare_date_iff earlier d at = (λ h. h, λ h. h)

  sent_iff :
      (msg : crates.Message) (at : crates.DateTime)
      → (sent crates msg ≡ some at) ↔ (
          (t : crates.Timestamp) × (crates.date msg ≡ some t) × (crates.from_timestamp t ≡ some at))
  unfolding sent
  sent_iff msg at = elim (Option-cases (crates.date msg)) [
    | inl e ↦ (λ h. absurd (ground (arith, e)), λ (t, e', made). absurd (cc))
    | inr (t, e) ↦ (λ h. (t, e, ground (arith, e)), λ (t', e', made). ground (arith, e, e', made))
  ]

  -- A filter lets through exactly the messages that match it.
  pub filter-Matches :
      (f : Filter crates) (msg : crates.Message) → (filter crates f msg ≡ true) ↔ Matches f msg
  unfolding filter unwrap_or_empty
  filter-Matches empty msg = (λ h. tt, λ h. refl)
  filter-Matches (and first second) msg =
      ground (arith, filter-Matches first msg, filter-Matches second msg)
  filter-Matches (or first second) msg =
      ground (arith, filter-Matches first msg, filter-Matches second msg)
  filter-Matches (subject s) msg = (
    λ h.
        let (found, e, same) = (is_some_and_iff (crates.subject msg) (λ x. bytes_eq x s)).0 h in
        e ∙ ap some ((bytes_eq_iff found s).0 same),
    λ e. (is_some_and_iff _ (λ x. bytes_eq x s)).1 (s, e, (bytes_eq_iff s s).1 refl),
  )
  filter-Matches (subject_contains p) msg = (
    λ h.
        let (s, e, o) = (is_some_and_iff (crates.subject msg) (contains p)).0 h in
        (s, e, (contains_iff p s).0 o),
    λ (s, e, o). (is_some_and_iff _ (contains p)).1 (s, e, (contains_iff p s).1 o),
  )
  filter-Matches (sender s) msg = is_some_and_iff _ (λ a. crates.address_contains a s)
  filter-Matches (date_filter mode d) msg = (
    λ h.
        let (at, e, compared) =
          (is_some_and_iff (sent crates msg) (compare_date crates mode d)).0 h in
        let (t, dated, made) = (sent_iff msg at).0 e in
        (t, at, dated, made, (compare_date_iff mode d at).0 compared),
    λ (t, at, dated, made, c).
        (is_some_and_iff _ (compare_date crates mode d)).1
          (at, (sent_iff msg at).1 (t, dated, made), (compare_date_iff mode d at).1 c),
  )
  filter-Matches (regex_filter r) msg = elim (Option-cases (crates.body_html msg 0)) [
    | inl e ↦ (
      λ h. inr (e, ground (arith, e, h)),
      λ found. elim found [ inl (body, e', h) ↦ absurd (cc) | inr (e', h) ↦ ground (arith, e, h) ],
    )
    | inr (body, e) ↦ (
      λ h. inl (body, e, ground (arith, e, h)),
      λ found. elim found [
        | inl (other, e', h) ↦ ground (arith, e, e', h)
        | inr (e', h) ↦ absurd (cc)
      ],
    )
  ]
