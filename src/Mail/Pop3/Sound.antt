-- ===== src/Mail/Pop3/Sound.antt =====
-- What `get_filtered_emails` of src/pop3_protocol.rs has done when it returns.
use getemail.Base.{
  ℕ, zero, suc, ◌≡◌, refl, sym, ap, subst, ◌∙◌, false, List, [], ◌∷◌, ◌++◌, Option, none, some, ltb,
  if◌then◌else◌, arith, length, append-nil,
}
use getemail.Base.Exec.{Outcome, ok, err, panic, stuck, lift, pure, bind-eq-ok}
use getemail.Pop2.Error.{ErrorKind}
use getemail.Pop2.Env.{Env}
use getemail.Pop2.Response.{Stat}
use getemail.Pop2.Types.Value.{value}
use getemail.Pop2.Client.{Client, Call}
use getemail.Pop2.Client.Commands
use getemail.Mail.Crates.{Crates}
use getemail.Mail.Mailbox.{Error}
use getemail.Mail.Pop3.{
  Pop3, Test, from_pop, on_client, parsed, push_if, crawl, get_filtered_emails,
}
use getemail.Mail.Pop3.Crawl.{kept, push_if-kept, Retrieves, done, next}

ok_inj :
    {A S : Type 0} (x y : A) (r t : S)
    → ◌≡◌ {A = Outcome Error A × S} (ok x, r) (ok y, t)
    → (x ≡ y) × (r ≡ t)
ok_inj x y r t h = (ground (arith, h), ground (arith, h))

module _ {env : Env} {crates : Crates} where
  on_client-eq-ok :
      {A : Type 0} (m : Call env A) (r t : Pop3 env crates) (a : A)
      → on_client m r ≡ (ok a, t)
      → m r.client ≡ (ok a, t.client)
  unfolding on_client
  on_client-eq-ok {A = A} m r t a h = split (m r.client) refl
    where
      split :
          (x : Outcome ErrorKind A × Client env) → m r.client ≡ x → m r.client ≡ (ok a, t.client)
      split (ok b, c) e = ground (arith, e, h)
      split (err e', c) e = absurd (ground (arith, e, h))
      split (panic, c) e = absurd (ground (arith, e, h))
      split (stuck, c) e = absurd (ground (arith, e, h))

module _ (env : Env) (crates : Crates) (fuel : ℕ) where
  parsed-eq-ok :
      (o : Option crates.Message) (r t : Pop3 env crates) (msg : crates.Message)
      → parsed env crates fuel o r ≡ (ok msg, t)
      → (o ≡ some msg) × (r ≡ t)
  unfolding parsed
  parsed-eq-ok none r t msg h = absurd (cc)
  parsed-eq-ok (some found) r t msg h = (ground (arith, h), ground (arith, h))

  -- What a run of the loop that returns has done.
  record Crawled (filter : Test crates) (count id : ℕ) (result : List crates.Message)
      (r t : Pop3 env crates) (found : List crates.Message) : Type 0 where
    msgs : List crates.Message
    counted : length msgs ≡ count
    retrieved : Retrieves env crates fuel id r.client msgs t.client
    all : found ≡ result ++ kept filter msgs

  crawl-Crawled :
      (filter : Test crates) (count id : ℕ) (result found : List crates.Message)
      (r t : Pop3 env crates)
      → crawl env crates fuel filter count id result r ≡ (ok found, t)
      → Crawled filter count id result r t found
  unfolding crawl
  crawl-Crawled filter zero id result found r t h = record {
    msgs = [];
    counted = refl;
    retrieved =
        subst (λ x. Retrieves env crates fuel id r.client [] x.client) (ok_inj result found r t h).1
          (done id r.client);
    all = sym (ok_inj result found r t h).0 ∙ sym (append-nil result);
  }
  crawl-Crawled filter (suc count) id result found r t h =
      let (bytes, r1, e1, h1) = bind-eq-ok (on_client (Commands.retr env fuel id)) _ r h in
      let (msg, r2, e2, h2) = bind-eq-ok (parsed env crates fuel (crates.parse bytes)) _ r1 h1 in
      let (p, same) = parsed-eq-ok (crates.parse bytes) r1 r2 msg e2 in
      let rest = crawl-Crawled filter count (suc id) (push_if filter msg result) found r2 t h2 in
      record {
        msgs = msg ∷ rest.msgs;
        counted = ap suc rest.counted;
        retrieved =
            next id r.client r1.client t.client bytes msg rest.msgs
              (on_client-eq-ok (Commands.retr env fuel id) r r1 bytes e1) p
              (subst (λ x. Retrieves env crates fuel (suc id) x.client rest.msgs t.client)
                (sym same) rest.retrieved);
        all = rest.all ∙ push_if-kept filter msg rest.msgs result;
      }

  no_loop :
      (filter : Test crates) (n : ℕ) (r : Pop3 env crates)
      → crawl env crates fuel filter n 1 [] r
        ≡ (if ltb n 1 then pure [] else crawl env crates fuel filter n 1 []) r
  unfolding crawl
  no_loop filter zero r = refl
  no_loop filter (suc n) r = rw (more n) refl
    where
      more : (n : ℕ) → ltb (suc n) 1 ≡ false
      more n = ground arith

  returned :
      (v : Outcome ErrorKind ℕ) (r t : Pop3 env crates) (n : ℕ)
      → lift (from_pop v) r ≡ (ok n, t)
      → (v ≡ ok n) × (r ≡ t)
  returned (ok m) r t n h = let (e, same) = ok_inj m n r t h in (ap ok e, same)
  returned (err e) r t n h = absurd (cc)
  returned panic r t n h = absurd (cc)
  returned stuck r t n h = absurd (cc)

  -- If the reader returns, the server has stated a number of messages, just as many messages were
  -- retrieved and parsed, from number 1 on, and those that the filter takes are returned.
  pub get_filtered_emails-eq-ok :
      (filter : Test crates) (r t : Pop3 env crates) (found : List crates.Message)
      → get_filtered_emails env crates fuel filter r ≡ (ok found, t)
      → (stat : Stat) × (c1 : Client env) × (msgs : List crates.Message) × (Commands.stat env fuel
            r.client
          ≡ (ok stat, c1))
        × (value stat.message_count ≡ ok (length msgs))
        × Retrieves env crates fuel 1 c1 msgs t.client
        × (found ≡ kept filter msgs)
  unfolding get_filtered_emails
  get_filtered_emails-eq-ok filter r t found h =
      let (stat, r1, e1, h1) = bind-eq-ok (on_client (Commands.stat env fuel)) _ r h in
      let (n, r2, e2, h2) = bind-eq-ok (lift (from_pop (value stat.message_count))) _ r1 h1 in
      let (counted, same) = returned (value stat.message_count) r1 r2 n e2 in
      let run = crawl-Crawled filter n 1 [] found r2 t (no_loop filter n r2 ∙ h2) in
      (
        stat,
        r2.client,
        run.msgs,
        on_client-eq-ok (Commands.stat env fuel) r r2 stat (e1 ∙ ap (λ x. (ok stat, x)) same),
        counted ∙ ap ok (sym run.counted),
        run.retrieved,
        run.all,
      )
