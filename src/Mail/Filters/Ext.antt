-- ===== src/Mail/Filters/Ext.antt =====
-- `Filters` and `FilterExt` of src/filters.rs: the filters by the names that the caller has for them. The macro
-- makes two methods of each function of `Filters`.
use getemail.Base.{Bytes}
use getemail.Mail.Crates.{Crates}
use getemail.Mail.Filters.{Filter, DateFilterMode}

module _ {crates : Crates} where
  -- A box of a filter is the filter.
  unfoldable pub dynamize : Filter crates → Filter crates
  dynamize f = f

  unfoldable pub empty : Filter crates
  empty = Filter.empty

  unfoldable pub subject : Bytes → Filter crates
  subject s = Filter.subject s

  unfoldable pub subject_contains : Bytes → Filter crates
  subject_contains s = Filter.subject_contains s

  unfoldable pub sender : Bytes → Filter crates
  sender s = Filter.sender s

  unfoldable pub sent_since : crates.DateTime → Filter crates
  sent_since s = Filter.date_filter DateFilterMode.since s

  unfoldable pub and : Filter crates → Filter crates → Filter crates
  and self second = Filter.and self second

  unfoldable pub or : Filter crates → Filter crates → Filter crates
  or self second = Filter.or self second

  unfoldable pub and_subject : Filter crates → Bytes → Filter crates
  unfolding and subject
  and_subject self s = and self (subject s)

  unfoldable pub or_subject : Filter crates → Bytes → Filter crates
  unfolding or subject
  or_subject self s = or self (subject s)

  unfoldable pub and_subject_contains : Filter crates → Bytes → Filter crates
  unfolding and subject_contains
  and_subject_contains self s = and self (subject_contains s)

  unfoldable pub or_subject_contains : Filter crates → Bytes → Filter crates
  unfolding or subject_contains
  or_subject_contains self s = or self (subject_contains s)

  unfoldable pub and_sender : Filter crates → Bytes → Filter crates
  unfolding and sender
  and_sender self s = and self (sender s)

  unfoldable pub or_sender : Filter crates → Bytes → Filter crates
  unfolding or sender
  or_sender self s = or self (sender s)

  unfoldable pub and_sent_since : Filter crates → crates.DateTime → Filter crates
  unfolding and sent_since
  and_sent_since self s = and self (sent_since s)

  unfoldable pub or_sent_since : Filter crates → crates.DateTime → Filter crates
  unfolding or sent_since
  or_sent_since self s = or self (sent_since s)
