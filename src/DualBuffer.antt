-- ===== src/DualBuffer.antt =====
-- src/utils/dualbuffer.c and dualbuffer.h: one buffer to read and one to write, swapped when a first
-- reader comes. A call that changes the object returns the new one.
pub mod Transfer
pub mod Lifetime
pub mod Readers
use pcm3060_kernelmodule.Prelude.{
  ℕ, Bool, true, false, Option, none, some, List, ◌==◌, if◌then◌else◌,
}
use pcm3060_kernelmodule.Prelude.Words.{add32, sub32}
use pcm3060_kernelmodule.Kernel.Run.{Run, ok, ◌>>=◌}
use pcm3060_kernelmodule.Kernel.User.{UserCopy}
use pcm3060_kernelmodule.Buffer.{
  Buffer, buffer_write_copy, buffer_copy_from_user, buffer_read_copy, buffer_copy_to_user,
  buffer_read, buffer_get_n_bytes_readable, buffer_reset, buffer_sync,
}

-- `_dualbuffer_impl_t`: the buffers that its two pointers reach. They are never the same one.
pub record DualBuffer : Type 0 where
  pub n_active_readers : ℕ
  pub read_buf : Option Buffer
  pub write_buf : Option Buffer

-- `_switch_buf_start`: the first reader empties the read buffer, swaps the two, and waits for the
-- writers of the buffer that it is going to read.
unfoldable pub switch_buf_start : DualBuffer → Run DualBuffer
switch_buf_start d =
    let active = add32 d.n_active_readers 1 in
    if active == 1
    then (do
      emptied ← buffer_reset d.read_buf
      filled ← buffer_sync d.write_buf
      ok (record { n_active_readers = active; read_buf = filled; write_buf = emptied }))
    else ok (record d { n_active_readers = active })

-- `_switch_buf_end`
unfoldable pub switch_buf_end : DualBuffer → DualBuffer
switch_buf_end d = record d { n_active_readers = sub32 d.n_active_readers 1 }

module _ (uc : UserCopy) where
  -- `_write`
  unfoldable pub write : Option DualBuffer → Option (List ℕ) → ℕ → Run (ℕ × Option DualBuffer)
  write none src buflen = ok (buflen, none)
  write (some d) src buflen = do
    (dropped, b) ← buffer_write_copy uc d.write_buf src buflen
    ok (dropped, some (record d { write_buf = b }))

  -- `_write_from_user`
  unfoldable pub write_from_user :
      Option DualBuffer → Option (List ℕ) → ℕ → Run (ℕ × Option DualBuffer)
  write_from_user none src buflen = ok (buflen, none)
  write_from_user (some d) src buflen = do
    (dropped, b) ← buffer_copy_from_user uc d.write_buf src buflen
    ok (dropped, some (record d { write_buf = b }))

  -- `_copy`
  unfoldable pub copy :
      Option DualBuffer → Option (List ℕ) → ℕ → ℕ → Run (ℕ × Option (List ℕ) × Option DualBuffer)
  unfolding switch_buf_start switch_buf_end
  copy none dst buflen off = ok (buflen, dst, none)
  copy (some d) dst buflen off = do
    started ← switch_buf_start d
    (dropped, out) ← buffer_read_copy uc started.read_buf dst buflen off
    ok (dropped, out, some (switch_buf_end started))

  -- `_copy_to_user`
  unfoldable pub copy_user :
      Option DualBuffer → Option (List ℕ) → ℕ → ℕ → Run (ℕ × Option (List ℕ) × Option DualBuffer)
  unfolding switch_buf_start switch_buf_end
  copy_user none dst buflen off = ok (buflen, dst, none)
  copy_user (some d) dst buflen off = do
    started ← switch_buf_start d
    (dropped, out) ← buffer_copy_to_user uc started.read_buf dst buflen off
    ok (dropped, out, some (switch_buf_end started))

-- `_read`: as `buffer_read`, and the object. The reader stays registered until `release_read`.
unfoldable pub read : Option DualBuffer → Bool → ℕ → Run ((ℕ × Option ℕ) × Option DualBuffer)
unfolding switch_buf_start
read none out off = ok ((0, none), none)
read (some d) out off = do
  started ← switch_buf_start d
  ok (buffer_read started.read_buf out off, some started)

-- `_release_read`
unfoldable pub release_read : Option DualBuffer → Option DualBuffer
unfolding switch_buf_end
release_read none = none
release_read (some d) = some (switch_buf_end d)

-- `_get_n_bytes_readable`
unfoldable pub get_n_bytes_readable : Option DualBuffer → ℕ
get_n_bytes_readable none = 0
get_n_bytes_readable (some d) = buffer_get_n_bytes_readable d.read_buf

-- `_reset`
unfoldable pub reset : Option DualBuffer → Run (Option DualBuffer)
reset none = ok none
reset (some d) = do
  r ← buffer_reset d.read_buf
  w ← buffer_reset d.write_buf
  ok (some (record d { read_buf = r; write_buf = w }))
