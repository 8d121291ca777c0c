-- ===== src/Pipe.antt =====
-- src/utils/pipe_buffer.c and pipe_buffer.h: a buffer that readers empty and writers fill, with a
-- count of readers and two completions. A call that changes the object returns the new one. Of a call
-- that may wait, the flag `killed` says whether a fatal signal ends the wait; the code of the wait is
-- not looked at.
pub mod Transfer
pub mod Limits
pub mod Lifetime
use pcm3060_kernelmodule.Prelude.{
  ℕ, zero, suc, Bool, true, false, Option, none, some, List, ltb, leb, ◌==◌, if◌then◌else◌,
}
use pcm3060_kernelmodule.Prelude.Words.{add32, sub32}
use pcm3060_kernelmodule.Kernel.Run.{Run, ok, ◌>>=◌}
use pcm3060_kernelmodule.Kernel.User.{UserCopy}
use pcm3060_kernelmodule.Kernel.Completion.{
  Completion, init_completion, complete, complete_all, wait_for_completion_killable,
}
use pcm3060_kernelmodule.Buffer.{
  Buffer, buffer_copy_from_user, buffer_copy_to_user, buffer_read, buffer_write_reserve,
  buffer_write_finish, buffer_get_n_bytes_readable, buffer_reset,
}

-- `_pipe_buffer_impl_t`
pub record PipeBuffer : Type 0 where
  pub n_active_readers : ℕ
  pub n_bytes_read : ℕ
  pub buf : Option Buffer
  pub read_completion : Completion
  pub write_completion : Completion

-- What `_get_pipe_buffer_impl` sets up over the buffer that get_buffer returned.
unfoldable pub init_pipe : Buffer → PipeBuffer
init_pipe b = record {
  n_active_readers = 0;
  n_bytes_read = 0;
  buf = some b;
  read_completion = complete init_completion;
  write_completion = init_completion;
}

-- `WAIT_FOR_DATA_WRITE`
unfoldable pub wait_for_data_write : Bool → PipeBuffer → Run PipeBuffer
wait_for_data_write killed p =
    if buffer_get_n_bytes_readable p.buf == 0
    then (do
      c ← wait_for_completion_killable killed p.write_completion
      ok (record p { write_completion = c }))
    else ok p

-- `WAIT_FOR_READ_COMPLETE`
unfoldable pub wait_for_read_complete : Bool → PipeBuffer → Run PipeBuffer
wait_for_read_complete killed p = if p.n_active_readers == 0 then ok p else (do
  c ← wait_for_completion_killable killed p.read_completion
  ok (record p { read_completion = c }))

-- `_notify_data_write`
unfoldable pub notify_data_write : PipeBuffer → ℕ → PipeBuffer
notify_data_write p zero = p
notify_data_write p (suc n) = record p { write_completion = complete_all p.write_completion }

-- `_check_reset_after_read`
unfoldable pub check_reset_after_read : PipeBuffer → ℕ → Run PipeBuffer
check_reset_after_read p n_bytes_read =
    let total = add32 p.n_bytes_read n_bytes_read in
    if leb (buffer_get_n_bytes_readable p.buf) total
    then (do b ← buffer_reset p.buf; ok (record p { n_bytes_read = 0; buf = b }))
    else ok (record p { n_bytes_read = total })

module _ (uc : UserCopy) where
  unfoldable pub pipe_buffer_copy_from_user :
      Bool → Option PipeBuffer → Option (List ℕ) → ℕ → Run (ℕ × Option PipeBuffer)
  unfolding wait_for_read_complete notify_data_write
  pipe_buffer_copy_from_user killed none src buflen = ok (buflen, none)
  pipe_buffer_copy_from_user killed (some p) src buflen = do
    p' ← wait_for_read_complete killed p
    (dropped, b) ← buffer_copy_from_user uc p'.buf src buflen
    ok (dropped, some (notify_data_write (record p' { buf = b }) buflen))

  unfoldable pub pipe_buffer_copy_to_user :
      Option PipeBuffer → Option (List ℕ) → ℕ → ℕ → Run (ℕ × Option (List ℕ) × Option PipeBuffer)
  unfolding check_reset_after_read
  pipe_buffer_copy_to_user none dst buflen off = ok (buflen, dst, none)
  pipe_buffer_copy_to_user (some p) dst buflen off = do
    (dropped, out) ← buffer_copy_to_user uc p.buf dst buflen off
    p' ← check_reset_after_read p (sub32 (add32 buflen off) dropped)
    ok (dropped, out, some p')

unfoldable pub pipe_buffer_n_bytes_available : Option PipeBuffer → ℕ
pipe_buffer_n_bytes_available none = 0
pipe_buffer_n_bytes_available (some p) = buffer_get_n_bytes_readable p.buf

-- As `buffer_read` from the start, and the object. The flag says whether `o_buffer_ptr` is given.
unfoldable pub pipe_buffer_read_start :
    Option PipeBuffer → Bool → (ℕ × Option ℕ) × Option PipeBuffer
pipe_buffer_read_start none out = ((0, none), none)
pipe_buffer_read_start (some p) out =
    let active = add32 p.n_active_readers 1 in
    (
      buffer_read p.buf out 0,
      some (record p {
        n_active_readers = active;
        read_completion = if active == 1 then init_completion else p.read_completion;
      }),
    )

unfoldable pub pipe_buffer_read_start_waiting :
    Bool → Option PipeBuffer → Bool → Run ((ℕ × Option ℕ) × Option PipeBuffer)
unfolding wait_for_data_write pipe_buffer_read_start
pipe_buffer_read_start_waiting killed none out = ok ((0, none), none)
pipe_buffer_read_start_waiting killed (some p) out = do
  p' ← wait_for_data_write killed p
  ok (pipe_buffer_read_start (some p') out)

unfoldable pub pipe_buffer_read_end : Option PipeBuffer → ℕ → Run (Option PipeBuffer)
unfolding check_reset_after_read
pipe_buffer_read_end none n_bytes_read = ok none
pipe_buffer_read_end (some p) n_bytes_read =
    let active = sub32 p.n_active_readers 1 in
    if active == 0
    then (do
      p' ← check_reset_after_read (record p { n_active_readers = active }) n_bytes_read
      ok (some (record p' { read_completion = complete_all p'.read_completion })))
    else ok (some (record p { n_active_readers = active }))

unfoldable pub pipe_buffer_write_start :
    Option PipeBuffer → ℕ → Run (ℕ × Option ℕ × Option PipeBuffer)
pipe_buffer_write_start none n_bytes_requested = ok (0, none, none)
pipe_buffer_write_start (some p) n_bytes_requested = do
  (n, out, b) ← buffer_write_reserve p.buf n_bytes_requested
  ok (n, out, some (record p { buf = b }))

unfoldable pub pipe_buffer_write_end : Option PipeBuffer → Run (Option PipeBuffer)
pipe_buffer_write_end none = ok none
pipe_buffer_write_end (some p) = do b ← buffer_write_finish p.buf; ok (some (record p { buf = b }))
