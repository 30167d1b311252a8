-- ===== src/Pop2/Buffer.antt =====
-- `Buffer` of async-pop2/src/stream.rs: the bytes received and not yet parsed are the first `cursor`
-- bytes of `inner`; what stands behind them is free space. `usize` is not wrapped: see Buffer/Bounds.
pub mod Bounds
pub mod Contents
use getemail.Base.{
  ℕ, ◌+◌, ◌-◌, ◌*◌, ◌%◌, Bool, true, false, ◌||◌, ◌++◌, Bytes, length, take, drop, ltb, leb, ◌==◌,
  if◌then◌else◌,
}
use Prim.Native.Nat.{max}
use getemail.Base.Exec.{Outcome, ok, Exec, fail, abort, ◌>>=◌}
use getemail.Pop2.Error.{ErrorKind, response_too_large}
use getemail.Pop2.Env.{Env}

pub record Buffer : Type 0 where
  pub inner : Bytes
  pub cursor : ℕ

abbrev pub chunk_size : ℕ
chunk_size = 2048

abbrev pub max_size : ℕ
max_size = chunk_size * 1024 * 10

module _ (env : Env) where
  unfoldable pub new : Buffer
  new = record { cursor = 0; inner = env.zeroed chunk_size }

-- `unused` is the part of `inner` from the cursor on, and panics if the cursor lies behind the end.
-- It is given to `poll_read`; the answer is written to its start.
unfoldable pub unused : Exec ErrorKind Buffer ℕ
unused b = if ltb (length b.inner) b.cursor then abort b else (ok (length b.inner - b.cursor), b)

unfoldable pub fill_unused : Buffer → Bytes → Buffer
fill_unused b bs = record b {
  inner = take b.cursor b.inner ++ (bs ++ drop (b.cursor + length bs) b.inner);
}

unfoldable pub move_cursor : Buffer → ℕ → Buffer
move_cursor b offset =
    let moved = b.cursor + offset in
    record b { cursor = if ltb (length b.inner) moved then length b.inner else moved }

unfoldable pub return_to : Buffer → Bytes → Buffer
return_to b inner = record b { inner = inner }

-- `min_size` rounded up to a multiple of `chunk_size`.
unfoldable pub round_up : ℕ → ℕ
round_up min_size =
    let n = min_size % chunk_size in if n == 0 then min_size else min_size + (chunk_size - n)

module _ (env : Env) where
  unfoldable pub replace : Buffer → Bytes × Buffer
  replace b = (b.inner, record b { inner = env.zeroed chunk_size })

  -- `inner[..cursor].copy_from_slice(data)` panics if the fresh chunk is too short.
  unfoldable pub reset_with : Bytes → Exec ErrorKind Buffer Unit
  reset_with data' b =
      let fresh = env.zeroed chunk_size in
      let cursor = length data' in
      if ltb (length fresh) cursor
      then abort (record { cursor = cursor; inner = fresh })
      else (ok tt, record { cursor = cursor; inner = data' ++ drop cursor fresh })

  unfoldable pub grow : ℕ → Exec ErrorKind Buffer Unit
  grow amount b =
      let new_size = round_up (length b.inner + amount) in
      if ltb max_size new_size
      then fail response_too_large b
      else (ok tt, record b { inner = env.resize b.inner new_size 0 })

  -- The first subtraction would wrap, or panic, if the cursor lay behind the end; the second is
  -- `saturating_sub`.
  unfoldable pub ensure_capacity : ℕ → Exec ErrorKind Buffer Unit
  unfolding grow
  ensure_capacity to_ensure b =
      if ltb (length b.inner) b.cursor
      then abort b
      else (let free_bytes = length b.inner - b.cursor in
          let extra_bytes_needed = to_ensure - length b.inner in
          if free_bytes == 0 || ltb 0 extra_bytes_needed
          then grow (max chunk_size extra_bytes_needed) b
          else (ok tt, b))
