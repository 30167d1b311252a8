-- ===== src/Mail/Imap/Crawl.antt =====
-- Which messages `get_filtered_emails` of src/imap_protocol.rs returns.
use getemail.Base.{
  ℕ, ◌≡◌, refl, List, [], ◌∷◌, ◌++◌, Bytes, codes, Option, none, some, ◌⊎◌, inl, inr, true, false,
  if◌then◌else◌, arith, append_assoc, append-nil,
}
use getemail.Base.Decimal.{decimal}
use getemail.Base.Exec.{ok}
use getemail.Mail.Crates.{Crates}
use getemail.Mail.Mailbox.{ImapError}
use getemail.Mail.Pop3.{Test, push_if}
use getemail.Mail.Pop3.Crawl.{kept, push_if-kept}
use getemail.Mail.Imap.{
  Imap, Name, select, fetch, list_all, unwrap_or_else, pushed, collect, crawl_messages,
  is_ok_folder, collect_folders, get_folders, extend_all, crawl_folders, get_filtered_emails,
}

module _ (env : Imap) (crates : Crates) where
  -- The messages that the bodies parse to; a message without a body is parsed as an empty one.
  pub data Parses : List (ImapError ⊎ Option Bytes) → List crates.Message → Type 0 where
    parses_nil : Parses [] []
    parses_cons :
        (body : Option Bytes) (fetches : List (ImapError ⊎ Option Bytes)) (msg : crates.Message)
        (msgs : List crates.Message)
        → crates.parse (unwrap_or_else env crates body) ≡ some msg
        → Parses fetches msgs
        → Parses (inr body ∷ fetches) (msg ∷ msgs)

  -- The messages of the folders, each folder selected and fetched whole.
  pub data Folders : List Bytes → env.Session → List crates.Message → env.Session → Type 0 where
    folders_nil : (s : env.Session) → Folders [] s [] s
    folders_cons :
        (folder : Bytes) (folders : List Bytes) (s s1 s2 s3 : env.Session) (exists : ℕ)
        (fetches : List (ImapError ⊎ Option Bytes)) (msgs others : List crates.Message)
        → env.select s folder ≡ (inr exists, s1)
        → env.fetch s1 (codes "1:" ++ decimal exists) (codes "RFC822") ≡ (inr fetches, s2)
        → Parses fetches msgs
        → Folders folders s2 others s3
        → Folders (folder ∷ folders) s (msgs ++ others) s3

  collect-Parses :
      (filter : Test crates) (fetches : List (ImapError ⊎ Option Bytes))
      (msgs res : List crates.Message) (s : env.Session)
      → Parses fetches msgs
      → collect env crates filter fetches res s ≡ (ok (res ++ kept filter msgs), s)
  unfolding collect pushed
  collect-Parses filter _ _ res s parses_nil = ground (arith, append-nil res)
  collect-Parses filter _ _ res s (parses_cons body fetches msg msgs p rest) =
      rw
        (
          p,
          collect-Parses filter fetches msgs (push_if filter msg res) s rest,
          push_if-kept filter msg msgs res,
        )
        refl

  kept-append :
      (filter : Test crates) (xs ys : List crates.Message)
      → kept filter (xs ++ ys) ≡ kept filter xs ++ kept filter ys
  kept-append filter [] ys = refl
  kept-append filter (x ∷ xs) ys = ground (arith, kept-append filter xs ys)

  extend_all-Folders :
      (filter : Test crates) (folders : List Bytes) (s t : env.Session)
      (msgs res : List crates.Message)
      → Folders folders s msgs t
      → extend_all env crates folders filter res s ≡ (ok (res ++ kept filter msgs), t)
  unfolding extend_all crawl_messages select fetch
  extend_all-Folders filter _ s _ _ res (folders_nil _) = ground (arith, append-nil res)
  extend_all-Folders filter _ s t _ res
        (folders_cons folder folders _ s1 s2 _ exists fetches msgs others e f p rest) =
      rw
        (
          e,
          f,
          collect-Parses filter fetches msgs [] s2 p,
          extend_all-Folders filter folders s2 t others (res ++ kept filter msgs) rest,
          kept-append filter msgs others,
          append_assoc res (kept filter msgs) (kept filter others),
        )
        refl

  -- A stream without an error.
  abbrev pub listed : List (Name env.Attribute) → List (ImapError ⊎ Name env.Attribute)
  listed [] = []
  listed (item ∷ items) = inr item ∷ listed items

  abbrev pub ok_folders : List (Name env.Attribute) → List Bytes
  ok_folders [] = []
  ok_folders (item ∷ items) =
      if is_ok_folder env crates item.attributes
      then item.name ∷ ok_folders items
      else ok_folders items

  collect_folders_lem :
      (items : List (Name env.Attribute)) (found : List Bytes) (s : env.Session)
      → collect_folders env crates (listed items) found s ≡ (ok (found ++ ok_folders items), s)
  unfolding collect_folders
  collect_folders_lem [] found s = ground (arith, append-nil found)
  collect_folders_lem (item ∷ items) found s = ground (
    arith,
    collect_folders_lem items found s,
    collect_folders_lem items (found ++ item.name ∷ []) s,
    append_assoc found (item.name ∷ []) (ok_folders items),
  )

  -- A folder is left out for one attribute that says that it holds sent messages or drafts, and taken
  -- if none does.
  abbrev pub IsTaken : List env.Attribute → Type 0
  IsTaken [] = Unit {0}
  IsTaken (x ∷ xs) = (env.is_sent x ≡ false) × (env.is_drafts x ≡ false) × IsTaken xs

  abbrev pub IsLeftOut : List env.Attribute → Type 0
  IsLeftOut [] = ⊥
  IsLeftOut (x ∷ xs) = ((env.is_sent x ≡ true) ⊎ (env.is_drafts x ≡ true)) ⊎ IsLeftOut xs

  -- The names of the folders that are taken, in the order of the listing.
  pub data Selects : List (Name env.Attribute) → List Bytes → Type 0 where
    selects_nil : Selects [] []
    selects_taken :
        (item : Name env.Attribute) (items : List (Name env.Attribute)) (names : List Bytes)
        → IsTaken item.attributes
        → Selects items names
        → Selects (item ∷ items) (item.name ∷ names)
    selects_left_out :
        (item : Name env.Attribute) (items : List (Name env.Attribute)) (names : List Bytes)
        → IsLeftOut item.attributes
        → Selects items names
        → Selects (item ∷ items) names

  is_ok_folder-IsTaken : (xs : List env.Attribute) → IsTaken xs → is_ok_folder env crates xs ≡ true
  unfolding is_ok_folder
  is_ok_folder-IsTaken [] h = refl
  is_ok_folder-IsTaken (x ∷ xs) h = ground (arith, h.0, h.1, is_ok_folder-IsTaken xs h.2)

  is_ok_folder-IsLeftOut :
      (xs : List env.Attribute) → IsLeftOut xs → is_ok_folder env crates xs ≡ false
  unfolding is_ok_folder
  is_ok_folder-IsLeftOut [] h = absurd h
  is_ok_folder-IsLeftOut (x ∷ xs) (inl (inl e)) = rw e refl
  is_ok_folder-IsLeftOut (x ∷ xs) (inl (inr e)) = ground (arith, e)
  is_ok_folder-IsLeftOut (x ∷ xs) (inr h) = ground (arith, is_ok_folder-IsLeftOut xs h)

  ok_folders-Selects :
      (items : List (Name env.Attribute)) (names : List Bytes)
      → Selects items names
      → ok_folders items ≡ names
  ok_folders-Selects _ _ selects_nil = refl
  ok_folders-Selects _ _ (selects_taken item items names h rest) =
      rw (is_ok_folder-IsTaken item.attributes h, ok_folders-Selects items names rest) refl
  ok_folders-Selects _ _ (selects_left_out item items names h rest) =
      rw (is_ok_folder-IsLeftOut item.attributes h, ok_folders-Selects items names rest) refl

  -- If the server lists its folders, and those without an attribute for sent messages or drafts can be
  -- fetched and parsed, the reader returns the messages of these folders, and of no other one, that the
  -- filter takes, folder after folder.
  pub get_filtered_emails-Folders :
      (filter : Test crates) (s s1 t : env.Session) (items : List (Name env.Attribute))
      (names : List Bytes) (msgs : List crates.Message)
      → env.list s none (some (codes "*")) ≡ (inr (listed items), s1)
      → Selects items names
      → Folders names s1 msgs t
      → get_filtered_emails env crates filter s ≡ (ok (kept filter msgs), t)
  unfolding get_filtered_emails get_folders crawl_folders list_all
  get_filtered_emails-Folders filter s s1 t items names msgs e selects h =
      rw
        (
          e,
          collect_folders_lem items [] s1,
          ok_folders-Selects items names selects,
          extend_all-Folders filter names s1 t msgs [] h,
        )
        refl
