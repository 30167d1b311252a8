-- ===== src/Pop2/Buffer/Bounds.antt =====
-- The size of the buffer: what `ensure_capacity` keeps, gives and refuses.
use getemail.Base.{
  ℕ, ◌+◌, ◌-◌, ◌%◌, ◌≤◌, ◌<◌, ◌≡◌, ◌⊎◌, inl, inr, refl, arith, Bytes, length, take, ltb, Bool, true,
  Bool-cases, ◌||◌, ◌==◌, ◌↔◌,
}
use Prim.Native.Nat.{max}
use getemail.Base.Exec.{ok, err}
use getemail.Pop2.Error.{response_too_large}
use getemail.Pop2.Env.{Env, LawfulBuffers}
use getemail.Pop2.Buffer.{Buffer, chunk_size, max_size, round_up, ensure_capacity, new}

-- The cursor stands in the buffer, whose size is a whole number of chunks within the maximum.
pub record IsValid (b : Buffer) : Type 0 where
  pub within : b.cursor ≤ length b.inner
  pub bounded : length b.inner ≤ max_size
  pub chunked : length b.inner % chunk_size ≡ 0

abbrev pub unread : Buffer → Bytes
unread b = take b.cursor b.inner

round_up_lem :
    (n : ℕ) → (n ≤ round_up n) × (round_up n < n + chunk_size) × (round_up n % chunk_size ≡ 0)
unfolding round_up
round_up_lem n = ground arith

-- The buffer may not grow: the need is over the maximum, or the buffer is full at the maximum.
abbrev pub IsTooLarge : ℕ → Buffer → Type 0
IsTooLarge needs b = (max_size < needs) ⊎ (b.cursor ≡ max_size)

-- What `ensure_capacity` gives: the same unread bytes, free space behind them, and room for `needs`.
pub record HasRoom (needs : ℕ) (b b' : Buffer) : Type 0 where
  pub valid : IsValid b'
  pub same_cursor : b'.cursor ≡ b.cursor
  pub same_unread : unread b' ≡ unread b
  pub free : b'.cursor < length b'.inner
  pub room : needs ≤ length b'.inner

module _ (env : Env) (laws : LawfulBuffers env) where
  open laws use {length-zeroed, length-resize, take-resize}

  pub new-IsValid : IsValid (new env)
  unfolding new
  new-IsValid = omega (arith, length-zeroed chunk_size)

  abbrev grown : (n : ℕ) (b : Buffer) → Buffer
  grown n b = record b { inner = env.resize b.inner n 0 }

  grow-HasRoom :
      (needs n : ℕ) (b : Buffer)
      → IsValid b
      → length b.inner < n
      → n ≤ max_size
      → n % chunk_size ≡ 0
      → needs ≤ n
      → HasRoom needs b (grown n b)
  grow-HasRoom needs n b v more small whole enough = record {
    valid = omega (arith, length-resize b.inner n 0);
    same_cursor = refl;
    same_unread = take-resize b.inner n 0 b.cursor v.within (omega arith);
    free = omega (arith, length-resize b.inner n 0);
    room = omega (arith, length-resize b.inner n 0);
  }

  -- Where a valid buffer needs to grow, and to what size.
  abbrev must_grow : ℕ → Buffer → Bool
  must_grow needs b = length b.inner - b.cursor == 0 || ltb 0 (needs - length b.inner)

  abbrev grown_size : ℕ → Buffer → ℕ
  grown_size needs b = round_up (length b.inner + max chunk_size (needs - length b.inner))

  grown_size_lem :
      (needs : ℕ) (b : Buffer)
      → let m = length b.inner + max chunk_size (needs - length b.inner) in
        (m ≤ grown_size needs b)
        × (grown_size needs b < m + chunk_size)
        × (grown_size needs b % chunk_size ≡ 0)
  grown_size_lem needs b = round_up_lem (length b.inner + max chunk_size (needs - length b.inner))

  IsTooLarge-iff :
      (needs : ℕ) (b : Buffer)
      → IsValid b
      → must_grow needs b ≡ true
      → (max_size < grown_size needs b) ↔ IsTooLarge needs b
  IsTooLarge-iff needs b v more = (
    λ over. ground (arith, grown_size_lem needs b),
    λ large. ground (arith, grown_size_lem needs b),
  )

  -- A valid buffer is left alone with `ResponseTooLarge` if it may not grow, and else has room.
  pub ensure_capacity-HasRoom :
      (needs : ℕ) (b : Buffer)
      → IsValid b
      → (IsTooLarge needs b × (ensure_capacity env needs b ≡ (err response_too_large, b)))
        ⊎ ((b' : Buffer) × (ensure_capacity env needs b ≡ (ok tt, b'))
            × (¬ IsTooLarge needs b)
            × HasRoom needs b b')
  unfolding ensure_capacity
  ensure_capacity-HasRoom needs b v = elim (Bool-cases (must_grow needs b)) [
    | inl more ↦ elim (Bool-cases (ltb max_size (grown_size needs b))) [
      | inl over ↦ inl ((IsTooLarge-iff needs b v more).0 (ground arith), ground arith)
      | inr fits ↦ inr (
        grown (grown_size needs b) b,
        ground arith,
        (λ large. ground (arith, (IsTooLarge-iff needs b v more).1 large)),
        grow-HasRoom needs (grown_size needs b) b v (ground (arith, grown_size_lem needs b))
            (ground arith) (grown_size_lem needs b).2 (ground (arith, grown_size_lem needs b)),
      )
    ]
    | inr less ↦ inr (
      b,
      ground arith,
      (λ large. ground arith),
      record {
        valid = v;
        same_cursor = refl;
        same_unread = refl;
        free = ground arith;
        room = ground arith;
      },
    )
  ]
