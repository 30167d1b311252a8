-- ===== src/Tests/World.antt =====
-- A scripted environment: a list of what the socket will offer, and all that was written to it. The
-- parser takes a line as a message, or as an error of the server if it begins with `-`; a line
-- that begins with `!` is refused.
use getemail.Base.{
  append_assoc, take-append-drop, length-drop, Bool-cases, sym, ℕ, zero, suc, ◌+◌, ◌-◌, ◌≤◌, ◌<◌,
  ◌≡◌, ◌≢◌, refl, ap, ◌⊎◌, inl, inr, arith, List, [], ◌∷◌, ◌++◌, Bytes, Option, none, some, length,
  take, drop, replicate, leb, ◌==◌, if◌then◌else◌, length-append, length-take, length-replicate,
  take-take, ◌∙◌,
}
use getemail.Pop2.Command.{Command}
use getemail.Pop2.Response.{Response}
use getemail.Pop2.Buffer.{max_size}
use getemail.Pop2.Stream.Progress.{Anywhere, Delivers, Replies}
use getemail.Pop2.Stream.Faults.{Quiet}
use getemail.Pop2.Env.{
  Env, LawfulBuffers, unknown, IResult, done, incomplete, error, ReadEvent, not_ready, received,
  written,
}

pub record Script : Type 0 where
  pub offers : List ReadEvent
  pub sent : Bytes

abbrev offer : ReadEvent → Script → ℕ → ReadEvent × Script
offer (received bs) s free =
    if leb (length bs) free
    then (received bs, s)
    else (received (take free bs), record s { offers = received (drop free bs) ∷ s.offers })
offer e s free = (e, s)

abbrev poll : List ReadEvent → Script → ℕ → ReadEvent × Script
poll [] s free = (not_ready, s)
poll (e ∷ es) s free = offer e (record s { offers = es }) free

abbrev resized : Bytes → ℕ → ℕ → Bytes
resized bs n v = take n (bs ++ replicate (n - length bs) v)

-- The first line without its line feed, and what stands behind it.
abbrev line : Bytes → Option (Bytes × Bytes)
line [] = none
line (c ∷ cs) =
    if c == 0x0a
    then some ([], cs)
    else elim (line cs) [ none ↦ none | some (l, rest) ↦ some (c ∷ l, rest) ]

abbrev pub response_of : Bytes → Response
response_of [] = Response.message (record { inner = [] })
response_of (c ∷ cs) =
    if c == b'-'
    then Response.err (record { inner = cs })
    else Response.message (record { inner = c ∷ cs })

abbrev parse_line : Bytes → Command → IResult Response
parse_line [] command = incomplete unknown
parse_line (c ∷ cs) command = if c == b'!' then error else elim (line (c ∷ cs)) [
  | none ↦ incomplete unknown
  | some (l, rest) ↦ done rest (response_of l)
]

abbrev pub world : Env
world = record {
  Socket = Script;
  now = λ s. length s.sent;
  write_all = λ s bs. (written, record s { sent = s.sent ++ bs });
  flush = λ s. (written, s);
  poll_read = λ s free. poll s.offers s free;
  zeroed = λ n. replicate n 0;
  resize = resized;
  base64_encode = λ bs. bs;
  base64_decode = some;
  from_bytes = parse_line;
}

take-of-append : (k : ℕ) (xs ys : Bytes) → k ≤ length xs → take k (xs ++ ys) ≡ take k xs
take-of-append zero xs ys h = refl
take-of-append (suc k) [] ys h = absurd (omega arith)
take-of-append (suc k) (x ∷ xs) ys h = ap (◌∷◌ x) (take-of-append k xs ys (omega arith))

pub world-LawfulBuffers : LawfulBuffers world
world-LawfulBuffers = record {
  length-zeroed = λ n. length-replicate n 0;
  length-resize = λ bs n v. omega (
    arith,
    length-take n (bs ++ replicate (n - length bs) v),
    length-append bs (replicate (n - length bs) v),
    length-replicate (n - length bs) v,
  );
  take-resize = λ bs n v k h h'.
      take-take k n (bs ++ replicate (n - length bs) v) (omega arith)
      ∙ take-of-append k bs (replicate (n - length bs) v) h;
}

abbrev pub NoLineFeed : Bytes → Type 0
NoLineFeed [] = Unit {0}
NoLineFeed (c ∷ cs) = (c ≢ 0x0a) × NoLineFeed cs

-- A part of a line is no line.
line_partial :
    (xs part rest : Bytes)
    → NoLineFeed xs
    → xs ++ 0x0a ∷ [] ≡ part ++ rest
    → rest ≢ []
    → line part ≡ none
line_partial xs [] rest h e ne = refl
line_partial [] (p ∷ []) rest h e ne = absurd (ne (cc))
line_partial [] (p ∷ q ∷ part) rest h e ne = absurd (cc)
line_partial (x ∷ xs) (p ∷ part) rest (h, hs) e ne =
    ground (arith, line_partial xs part rest hs, tail_eq e)
  where
    tail_eq : x ∷ (xs ++ 0x0a ∷ []) ≡ p ∷ (part ++ rest) → xs ++ 0x0a ∷ [] ≡ part ++ rest
    tail_eq h = cc

line_complete : (xs : Bytes) → NoLineFeed xs → line (xs ++ 0x0a ∷ []) ≡ some (xs, [])
line_complete [] h = refl
line_complete (x ∷ xs) (h, hs) = ground (arith, line_complete xs hs)

parse_partial :
    (command : Command) (x : ℕ) (xs part rest : Bytes)
    → x ≢ b'!'
    → NoLineFeed (x ∷ xs)
    → x ∷ xs ++ 0x0a ∷ [] ≡ part ++ rest
    → rest ≢ []
    → parse_line part command ≡ incomplete unknown
parse_partial command x xs [] rest ne h e more = refl
parse_partial command x xs (p ∷ part) rest ne h e more =
    ground (arith, line_partial (x ∷ xs) (p ∷ part) rest h e more, head_eq e)
  where
    head_eq : x ∷ (xs ++ 0x0a ∷ []) ≡ p ∷ (part ++ rest) → x ≡ p
    head_eq h = cc

-- The reply of one line, in the sense of the stream.
pub line-Replies :
    (command : Command) (x : ℕ) (xs : Bytes)
    → x ≢ b'!'
    → NoLineFeed (x ∷ xs)
    → length (x ∷ xs) < max_size
    → Replies world Anywhere command
        (x ∷ xs ++ 0x0a ∷ [])
        (response_of (x ∷ xs))
        (suc (suc (length xs)))
line-Replies command x xs ne h small = record {
  complete = ground (arith, line_complete (x ∷ xs) h);
  partial = λ part rest e more may. inl (parse_partial command x xs part rest ne h e more);
  within = omega (arith, length-append (x ∷ xs) (0x0a ∷ []));
  fits = omega (arith, length-append (x ∷ xs) (0x0a ∷ []));
  chunked = λ part rest e at more. tt;
}

-- The bytes that a script offers, and a bound on the polls that it needs.
abbrev pub offered : List ReadEvent → Bytes
offered [] = []
offered (received bs ∷ es) = bs ++ offered es
offered (_ ∷ es) = offered es

abbrev pub polls : List ReadEvent → ℕ
polls [] = 0
polls (received bs ∷ es) = 1 + length bs + polls es
polls (_ ∷ es) = 1 + polls es

abbrev pub NoFailure : List ReadEvent → Type 0
NoFailure [] = Unit {0}
NoFailure (ReadEvent.failed e ∷ es) = ⊥
NoFailure (_ ∷ es) = NoFailure es

-- What is left to come, if it is anything, may be left.
abbrev pub MayFollow : (Bytes → Type 0) → Bytes → Type 0
MayFollow May [] = Unit {0}
MayFollow May (c ∷ cs) = May (c ∷ cs)

may_follow : (May : Bytes → Type 0) (bs : Bytes) → MayFollow May bs → bs ≢ [] → May bs
may_follow May [] h ne = absurd (ne refl)
may_follow May (c ∷ cs) h ne = h

-- No failure, bytes are still to come at each point, and the pieces end where `May` says.
abbrev pub IsWhole : (Bytes → Type 0) → List ReadEvent → Type 0
IsWhole May [] = Unit {0}
IsWhole May (ReadEvent.failed e ∷ es) = ⊥
IsWhole May (e ∷ es) = (0 < length (offered (e ∷ es))) × MayFollow May (offered es) × IsWhole May es

some_offered : (es : List ReadEvent) → 0 < length (offered es) → offered es ≢ []
some_offered es h e = omega (arith, ap length e)

-- A script delivers what its first part offers, however little space each read gives that ends where a piece may, and
-- goes on with the rest.
pub script-Delivers :
    (May : Bytes → Type 0) (Then : Script → Type 0) (n : ℕ) (es rest : List ReadEvent)
    (sent : Bytes)
    → IsWhole May es
    → polls es ≤ n
    → Then (record { offers = rest; sent = sent })
    → Delivers world May Then n (record { offers = es ++ rest; sent = sent }) (offered es)
script-Delivers May Then zero [] rest sent h k t = (refl, t)
script-Delivers May Then zero (not_ready ∷ es) rest sent h k t = absurd (omega arith)
script-Delivers May Then zero (received bs ∷ es) rest sent h k t = absurd (omega arith)
script-Delivers May Then zero (ReadEvent.failed e ∷ es) rest sent h k t = absurd h
script-Delivers May Then (suc n) [] rest sent h k t = inl (refl, t)
script-Delivers May Then (suc n) (not_ready ∷ es) rest sent h k t = inr (
  some_offered (not_ready ∷ es) h.0,
  λ free pos space. inl (_, refl, script-Delivers May Then n es rest sent h.2 (omega arith) t),
)
script-Delivers May Then (suc n) (received bs ∷ es) rest sent h k t = inr (
  some_offered (received bs ∷ es) h.0,
  λ free pos space. inr (elim (Bool-cases (leb (length bs) free)) [
    | inl all ↦ (
      bs,
      offered es,
      record { offers = es ++ rest; sent = sent },
      rw all,
      refl,
      ground arith,
      may_follow May (offered es) h.1,
      script-Delivers May Then n es rest sent h.2 (omega arith) t,
    )
    | inr part ↦ (
      take free bs,
      drop free bs ++ offered es,
      record { offers = received (drop free bs) ∷ (es ++ rest); sent = sent },
      rw part,
      ap (λ all. all ++ offered es) (sym (take-append-drop free bs))
          ∙ append_assoc (take free bs) (drop free bs) (offered es),
      omega (arith, length-take free bs),
      λ ne.
          space (take free bs) (drop free bs ++ offered es)
            (ap (λ all. all ++ offered es) (sym (take-append-drop free bs))
              ∙ append_assoc (take free bs) (drop free bs) (offered es))
            (ground (arith, length-take free bs)) ne,
      script-Delivers May Then n (received (drop free bs) ∷ es) rest sent
          (ground (arith, length-drop free bs, length-append (drop free bs) (offered es)), h.1, h.2)
          (ground (arith, length-drop free bs)) t,
    )
  ]),
)
script-Delivers May Then (suc n) (ReadEvent.failed e ∷ es) rest sent h k t = absurd h

-- The script has at most `k` more bytes.
abbrev pub AtMost : ℕ → Script → Type 0
AtMost k s = NoFailure s.offers × (length (offered s.offers) ≤ k)

quiet_step :
    (k : ℕ) (es : List ReadEvent) (sent : Bytes) (free : ℕ)
    → AtMost k (record { offers = es; sent = sent })
    → ((s : Script) × (poll es (record { offers = es; sent = sent }) free ≡ (not_ready, s))
        × AtMost k s)
      ⊎ ((chunk : Bytes) × (k' : ℕ) × (s : Script) × (poll es
              (record { offers = es; sent = sent })
              free
            ≡ (received chunk, s))
          × (length chunk + k' ≤ k)
          × (length chunk ≤ free)
          × AtMost k' s)
quiet_step k [] sent free h = inl (_, refl, h)
quiet_step k (not_ready ∷ es) sent free h = inl (_, refl, h)
quiet_step k (received bs ∷ es) sent free h = inr (elim (Bool-cases (leb (length bs) free)) [
  | inl all ↦ (
    bs,
    length (offered es),
    record { offers = es; sent = sent },
    rw all,
    omega (arith, length-append bs (offered es)),
    ground arith,
    (h.0, omega arith),
  )
  | inr part ↦ (
    take free bs,
    length (drop free bs ++ offered es),
    record { offers = received (drop free bs) ∷ es; sent = sent },
    rw part,
    omega (
      arith,
      length-append bs (offered es),
      length-append (drop free bs) (offered es),
      length-take free bs,
      length-drop free bs,
    ),
    omega (arith, length-take free bs),
    (h.0, omega arith),
  )
])
quiet_step k (ReadEvent.failed e ∷ es) sent free h = absurd h.0

pub script_quiet : Quiet world AtMost
script_quiet = record { step = λ k s free h. quiet_step k s.offers s.sent free h }
