-- ===== src/Mail/Pop3/Crawl.antt =====
-- Which messages `get_filtered_emails` of src/pop3_protocol.rs returns.
use getemail.Base.{
  ℕ, suc, ◌≡◌, refl, Bool, false, List, [], ◌∷◌, ◌++◌, Bytes, some, ltb, if◌then◌else◌, arith,
  length, append_assoc, append-nil, Bool-cases, inl, inr,
}
use getemail.Base.Exec.{ok}
use getemail.Pop2.Env.{Env}
use getemail.Pop2.Response.{Stat}
use getemail.Pop2.Types.Value.{value}
use getemail.Pop2.Client.{Client}
use getemail.Pop2.Client.Commands
use getemail.Mail.Crates.{Crates}
use getemail.Mail.Mailbox.{Mailbox}
use getemail.Mail.Pop3.{Test, on_client, parsed, push_if, crawl, get_filtered_emails}

module _ {A : Type 0} (filter : A → Bool) where
  abbrev pub kept : List A → List A
  kept [] = []
  kept (msg ∷ msgs) = if filter msg then msg ∷ kept msgs else kept msgs

  pub push_if-kept :
      (msg : A) (msgs result : List A)
      → push_if filter msg result ++ kept msgs ≡ result ++ kept (msg ∷ msgs)
  unfolding push_if
  push_if-kept msg msgs result = elim (Bool-cases (filter msg)) [
    | inl e ↦ rw (e) (append_assoc result (msg ∷ []) (kept msgs))
    | inr e ↦ rw (e) refl
  ]

module _ (env : Env) (crates : Crates) (fuel : ℕ) where
  -- The messages with the numbers from `id` on, retrieved one after the other and parsed.
  pub data Retrieves : ℕ → Client env → List crates.Message → Client env → Type 0 where
    done : (id : ℕ) (c : Client env) → Retrieves id c [] c
    next :
        (id : ℕ) (c c1 c2 : Client env) (bytes : Bytes) (msg : crates.Message)
        (msgs : List crates.Message)
        → Commands.retr env fuel id c ≡ (ok bytes, c1)
        → crates.parse bytes ≡ some msg
        → Retrieves (suc id) c1 msgs c2
        → Retrieves id c (msg ∷ msgs) c2

  crawl-Retrieves :
      (filter : Test crates) (id : ℕ) (c c2 : Client env) (msgs result : List crates.Message)
      (mailbox : Mailbox crates)
      → Retrieves id c msgs c2
      → crawl env crates fuel filter
          (length msgs)
          id
          result
          (record { client = c; mailbox_info = mailbox })
        ≡ (ok (result ++ kept filter msgs), record { client = c2; mailbox_info = mailbox })
  unfolding crawl on_client parsed
  crawl-Retrieves filter id c c2 [] result mailbox (done _ _) = ground (arith, append-nil result)
  crawl-Retrieves filter id c c2 (msg ∷ msgs) result mailbox (next _ _ c1 _ bytes _ _ e p rest) =
      rw
        (
          e,
          p,
          crawl-Retrieves filter (suc id) c1 c2 msgs (push_if filter msg result) mailbox rest,
          push_if-kept filter msg msgs result,
        )
        refl

  -- If the server states the number of messages and each of them can be retrieved and parsed, the
  -- reader returns, in their order, those that the filter takes.
  pub get_filtered_emails-Retrieves :
      (filter : Test crates) (c c1 c2 : Client env) (mailbox : Mailbox crates) (stat : Stat)
      (msgs : List crates.Message)
      → Commands.stat env fuel c ≡ (ok stat, c1)
      → value stat.message_count ≡ ok (length msgs)
      → Retrieves 1 c1 msgs c2
      → get_filtered_emails env crates fuel filter (record { client = c; mailbox_info = mailbox })
        ≡ (ok (kept filter msgs), record { client = c2; mailbox_info = mailbox })
  unfolding get_filtered_emails on_client
  get_filtered_emails-Retrieves filter c c1 c2 mailbox stat [] e n (done _ _) = rw (e, n) refl
  get_filtered_emails-Retrieves filter c c1 c2 mailbox stat (msg ∷ msgs) e n h =
      rw (e, n, few (length msgs), crawl-Retrieves filter 1 c1 c2 (msg ∷ msgs) [] mailbox h) refl
    where
      few : (n : ℕ) → ltb (suc n) 1 ≡ false
      few n = ground arith
