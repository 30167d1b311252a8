-- ===== src/Mail/Filters.antt =====
-- src/filters.rs. A filter of the crate is a value of `Filter`; a filter of a user is any function of
-- a message, and the readers take such a function. The implementation for `&T` is `todo!()`.
pub mod Matches
pub mod Ext
use getemail.Base.{
  starts_with, ℕ, ◌≡◌, refl, ◌↔◌, ◌⊎◌, inl, inr, Bool, true, false, ◌&&◌, ◌||◌, List, [], ◌∷◌, ◌++◌,
  Bytes, Option, none, some, bytes_eq, bytes_eq_iff, arith, ◌==◌, Bool-cases, Option-cases, ap,
}
use getemail.Mail.Crates.{Crates}

pub data DateFilterMode : Type 0 where
  since earlier : DateFilterMode

pub data Filter (crates : Crates) : Type 0 where
  empty : Filter crates
  and or : Filter crates → Filter crates → Filter crates
  subject : Bytes → Filter crates
  subject_contains : Bytes → Filter crates
  sender : Bytes → Filter crates
  date_filter : DateFilterMode → crates.DateTime → Filter crates
  regex_filter : crates.Regex → Filter crates

-- `str::contains`.
unfoldable pub contains : Bytes → Bytes → Bool
unfolding starts_with
contains pattern' [] = starts_with pattern' []
contains pattern' (c ∷ cs) = starts_with pattern' (c ∷ cs) || contains pattern' cs

unfoldable pub is_some_and : {A : Type 0} → Option A → (A → Bool) → Bool
is_some_and none f = false
is_some_and (some a) f = f a

-- `unwrap_or` of an empty text.
unfoldable pub unwrap_or_empty : Option Bytes → Bytes
unwrap_or_empty none = []
unwrap_or_empty (some text) = text

module _ (crates : Crates) where
  unfoldable pub compare_date : DateFilterMode → crates.DateTime → crates.DateTime → Bool
  compare_date since date msg_date = crates.later msg_date date
  compare_date earlier date msg_date = crates.later date msg_date

  unfoldable pub sent : crates.Message → Option crates.DateTime
  sent msg = elim (crates.date msg) [ none ↦ none | some x ↦ crates.from_timestamp x ]

  -- The method of each filter.
  unfoldable pub subject_filter : Bytes → crates.Message → Bool
  unfolding bytes_eq is_some_and
  subject_filter s msg = is_some_and (crates.subject msg) (λ found. bytes_eq found s)

  unfoldable pub subject_contains_filter : Bytes → crates.Message → Bool
  unfolding contains is_some_and
  subject_contains_filter s msg = is_some_and (crates.subject msg) (λ found. contains s found)

  unfoldable pub sender_filter : Bytes → crates.Message → Bool
  unfolding is_some_and
  sender_filter s msg = is_some_and (crates.sender msg) (λ a. crates.address_contains a s)

  unfoldable pub date_filter_filter : DateFilterMode → crates.DateTime → crates.Message → Bool
  unfolding is_some_and compare_date sent
  date_filter_filter mode d msg = is_some_and (sent msg) (compare_date mode d)

  unfoldable pub regex_filter_filter : crates.Regex → crates.Message → Bool
  unfolding unwrap_or_empty
  regex_filter_filter r msg = crates.is_match r (unwrap_or_empty (crates.body_html msg 0))

  unfoldable pub filter : Filter crates → crates.Message → Bool
  unfolding subject_filter subject_contains_filter sender_filter date_filter_filter
      regex_filter_filter
  filter empty msg = true
  filter (and first second) msg = filter first msg && filter second msg
  filter (or first second) msg = filter first msg || filter second msg
  filter (subject s) msg = subject_filter s msg
  filter (subject_contains s) msg = subject_contains_filter s msg
  filter (sender s) msg = sender_filter s msg
  filter (date_filter mode d) msg = date_filter_filter mode d msg
  filter (regex_filter r) msg = regex_filter_filter r msg
