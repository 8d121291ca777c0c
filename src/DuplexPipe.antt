-- ===== src/DuplexPipe.antt =====
-- src/utils/duplex_pipe_buffer.c and duplex_pipe_buffer.h: two pipes, and two ends that write to one
-- of them and read from the other. An end reaches a pipe of the state by its pointer; a pipe pointer
-- of an end is never NULL.
pub mod Transfer
pub mod Lifetime
use pcm3060_kernelmodule.Prelude.{ℕ, Bool, Option, none, some, List}
use pcm3060_kernelmodule.Kernel.Run.{Run, ok, ◌>>=◌}
use pcm3060_kernelmodule.Kernel.User.{UserCopy}
use pcm3060_kernelmodule.Pipe.{
  PipeBuffer, pipe_buffer_copy_from_user, pipe_buffer_copy_to_user, pipe_buffer_n_bytes_available,
  pipe_buffer_read_start, pipe_buffer_read_start_waiting, pipe_buffer_read_end,
  pipe_buffer_write_start, pipe_buffer_write_end,
}

-- The `pipe_buffer_t *` that an end can hold.
pub data PipePtr : Type 0 where
  pipe_a pipe_b : PipePtr

-- `_duplex_pipe_buffer_impl_t`: what the two pointers reach.
pub record DuplexPipes : Type 0 where
  pub buffer_a : Option PipeBuffer
  pub buffer_b : Option PipeBuffer

-- `duplex_pipe_end_t`
pub record DuplexPipeEnd : Type 0 where
  pub read_buffer : PipePtr
  pub write_buffer : PipePtr

abbrev pub lookup : DuplexPipes → PipePtr → Option PipeBuffer
lookup d pipe_a = d.buffer_a
lookup d pipe_b = d.buffer_b

abbrev pub update : DuplexPipes → PipePtr → Option PipeBuffer → DuplexPipes
update d pipe_a p = record d { buffer_a = p }
update d pipe_b p = record d { buffer_b = p }

-- The arguments of `_get_duplex_pipe_end` in `get_duplex_pipe_buffer`.
abbrev pub left_pipe_end : DuplexPipeEnd
left_pipe_end = record { read_buffer = pipe_b; write_buffer = pipe_a }

abbrev pub right_pipe_end : DuplexPipeEnd
right_pipe_end = record { read_buffer = pipe_a; write_buffer = pipe_b }

module _ (uc : UserCopy) (d : DuplexPipes) where
  -- The flag says whether a fatal signal ends a wait.
  unfoldable pub duplex_pipe_end_copy_from_user :
      Bool → Option DuplexPipeEnd → Option (List ℕ) → ℕ → Run (ℕ × DuplexPipes)
  duplex_pipe_end_copy_from_user killed none src buflen = ok (buflen, d)
  duplex_pipe_end_copy_from_user killed (some e) src buflen = do
    (dropped, p) ← pipe_buffer_copy_from_user uc killed (lookup d e.write_buffer) src buflen
    ok (dropped, update d e.write_buffer p)

  unfoldable pub duplex_pipe_end_copy_to_user :
      Option DuplexPipeEnd → Option (List ℕ) → ℕ → ℕ → Run (ℕ × Option (List ℕ) × DuplexPipes)
  duplex_pipe_end_copy_to_user none dst buflen off = ok (buflen, dst, d)
  duplex_pipe_end_copy_to_user (some e) dst buflen off = do
    (dropped, out, p) ← pipe_buffer_copy_to_user uc (lookup d e.read_buffer) dst buflen off
    ok (dropped, out, update d e.read_buffer p)

module _ (d : DuplexPipes) where
  unfoldable pub duplex_pipe_end_n_bytes_available : Option DuplexPipeEnd → ℕ
  duplex_pipe_end_n_bytes_available none = 0
  duplex_pipe_end_n_bytes_available (some e) =
      pipe_buffer_n_bytes_available (lookup d e.read_buffer)

  unfoldable pub duplex_pipe_end_read_start :
      Option DuplexPipeEnd → Bool → (ℕ × Option ℕ) × DuplexPipes
  duplex_pipe_end_read_start none out = ((0, none), d)
  duplex_pipe_end_read_start (some e) out =
      let (found, p) = pipe_buffer_read_start (lookup d e.read_buffer) out in
      (found, update d e.read_buffer p)

  unfoldable pub duplex_pipe_end_read_start_waiting :
      Bool → Option DuplexPipeEnd → Bool → Run ((ℕ × Option ℕ) × DuplexPipes)
  duplex_pipe_end_read_start_waiting killed none out = ok ((0, none), d)
  duplex_pipe_end_read_start_waiting killed (some e) out = do
    (found, p) ← pipe_buffer_read_start_waiting killed (lookup d e.read_buffer) out
    ok (found, update d e.read_buffer p)

  unfoldable pub duplex_pipe_end_read_end : Option DuplexPipeEnd → ℕ → Run DuplexPipes
  duplex_pipe_end_read_end none n_bytes_read = ok d
  duplex_pipe_end_read_end (some e) n_bytes_read = do
    p ← pipe_buffer_read_end (lookup d e.read_buffer) n_bytes_read
    ok (update d e.read_buffer p)

  unfoldable pub duplex_pipe_end_write_start :
      Option DuplexPipeEnd → ℕ → Run (ℕ × Option ℕ × DuplexPipes)
  duplex_pipe_end_write_start none n_bytes_requested = ok (0, none, d)
  duplex_pipe_end_write_start (some e) n_bytes_requested = do
    (n, out, p) ← pipe_buffer_write_start (lookup d e.write_buffer) n_bytes_requested
    ok (n, out, update d e.write_buffer p)

  unfoldable pub duplex_pipe_end_write_end : Option DuplexPipeEnd → Run DuplexPipes
  duplex_pipe_end_write_end none = ok d
  duplex_pipe_end_write_end (some e) = do
    p ← pipe_buffer_write_end (lookup d e.write_buffer)
    ok (update d e.write_buffer p)
