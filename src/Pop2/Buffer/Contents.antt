-- ===== src/Pop2/Buffer/Contents.antt =====
-- The unread bytes of the buffer: a read appends to them, and `reset_with` replaces them.
use getemail.Base.{
  ◌+◌, ◌≤◌, ◌<◌, ◌≡◌, ◌↔◌, inl, inr, Bool-cases, ltb, refl, ap, ◌∙◌, arith, Bytes, length, take,
  drop, ◌++◌, append_assoc, length-append, length-take, length-drop, take-append,
}
use getemail.Base.Exec.{ok, panic}
use getemail.Pop2.Env.{Env, LawfulBuffers}
use getemail.Pop2.Buffer.{Buffer, chunk_size, reset_with, fill_unused, move_cursor}
use getemail.Pop2.Buffer.Bounds.{IsValid, unread}

-- `bs` read into the unused part, and the cursor moved over them.
abbrev pub received : Buffer → Bytes → Buffer
received b bs = move_cursor (fill_unused b bs) (length bs)

length-fill_unused :
    (b : Buffer) (bs : Bytes)
    → b.cursor + length bs ≤ length b.inner
    → length (fill_unused b bs).inner ≡ length b.inner
unfolding fill_unused
length-fill_unused b bs h = omega (
  arith,
  length-append (take b.cursor b.inner) (bs ++ drop (b.cursor + length bs) b.inner),
  length-append bs (drop (b.cursor + length bs) b.inner),
  length-take b.cursor b.inner,
  length-drop (b.cursor + length bs) b.inner,
)

-- What stands in front of the cursor after the read.
unread-fill_unused :
    (b : Buffer) (bs : Bytes)
    → b.cursor ≤ length b.inner
    → take (b.cursor + length bs) (fill_unused b bs).inner ≡ unread b ++ bs
unfolding fill_unused
unread-fill_unused b bs h =
    let rest = drop (b.cursor + length bs) b.inner in
    rw (← append_assoc (unread b) bs rest) (
      take-append (b.cursor + length bs) (unread b ++ bs) rest
        (omega (arith, length-append (unread b) bs, length-take b.cursor b.inner)))

cursor-fill_unused : (b : Buffer) (bs : Bytes) → (fill_unused b bs).cursor ≡ b.cursor
unfolding fill_unused
cursor-fill_unused b bs = refl

cursor-received :
    (b : Buffer) (bs : Bytes)
    → b.cursor + length bs ≤ length b.inner
    → (received b bs).cursor ≡ b.cursor + length bs
unfolding move_cursor
cursor-received b bs h = ground (arith, length-fill_unused b bs h, cursor-fill_unused b bs)

-- A read that fits into the unused part appends to the unread bytes and keeps the size.
pub unread-received :
    (b : Buffer) (bs : Bytes)
    → IsValid b
    → b.cursor + length bs ≤ length b.inner
    → IsValid (received b bs)
      × ((received b bs).cursor ≡ b.cursor + length bs)
      × (unread (received b bs) ≡ unread b ++ bs)
unfolding move_cursor
unread-received b bs v h =
    let moved = cursor-received b bs h in
    (
      ground (arith, length-fill_unused b bs h, cursor-fill_unused b bs),
      moved,
      ap (λ n. take n (fill_unused b bs).inner) moved ∙ unread-fill_unused b bs v.within,
    )

module _ (env : Env) (laws : LawfulBuffers env) where
  open laws use {length-zeroed}

  -- Up to one chunk of left-over bytes becomes the unread bytes of a fresh buffer.
  pub unread-reset_with :
      (left : Bytes) (b : Buffer)
      → length left ≤ chunk_size
      → (b' : Buffer) × (reset_with env left b ≡ (ok tt, b'))
        × IsValid b'
        × (b'.cursor ≡ length left)
        × (unread b' ≡ left)
  unfolding reset_with
  unread-reset_with left b small = (
    record { cursor = length left; inner = left ++ drop (length left) (env.zeroed chunk_size) },
    ground (arith, length-zeroed chunk_size),
    omega (
      arith,
      length-append left (drop (length left) (env.zeroed chunk_size)),
      length-drop (length left) (env.zeroed chunk_size),
      length-zeroed chunk_size,
    ),
    refl,
    take-append (length left) left _ refl,
  )

  -- The reset panics if more bytes are left over than a chunk holds, and only then.
  pub reset_with-panic :
      (left : Bytes) (b : Buffer) → ((reset_with env left b).0 ≡ panic) ↔ (chunk_size < length left)
  unfolding reset_with
  reset_with-panic left b = (
    λ panics. elim (Bool-cases (ltb chunk_size (length left))) [
      | inl large ↦ ground arith
      | inr fits ↦ absurd (ground (arith, panics, length-zeroed chunk_size))
    ],
    λ large. ground (arith, length-zeroed chunk_size),
  )
