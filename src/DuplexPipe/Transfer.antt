-- ===== src/DuplexPipe/Transfer.antt =====
-- What one end of a duplex pipe writes, the other end finds to read.
use pcm3060_kernelmodule.Prelude.{
  Bool, ℕ, ◌+◌, ◌-◌, ◌^◌, ◌<◌, min, ◌≡◌, refl, ◌∙◌, ap, List, some, length, length-append,
}
use pcm3060_kernelmodule.Kernel.Run.{ok}
use pcm3060_kernelmodule.Kernel.User.{UserCopy}
use pcm3060_kernelmodule.Buffer.Invariant.{room}
use pcm3060_kernelmodule.Pipe.{PipeBuffer}
use pcm3060_kernelmodule.Pipe.Transfer
use pcm3060_kernelmodule.Pipe.Transfer.{held, pipe_write_appends, available-held}
use pcm3060_kernelmodule.DuplexPipe.{
  DuplexPipes, left_pipe_end, right_pipe_end, duplex_pipe_end_copy_from_user,
  duplex_pipe_end_n_bytes_available,
}

-- Both pipes are there, valid and without readers.
pub record IsValid (d : DuplexPipes) : Type 0 where
  pub a : PipeBuffer
  pub b : PipeBuffer
  pub has_a : d.buffer_a ≡ some a
  pub has_b : d.buffer_b ≡ some b
  pub valid_a : Transfer.IsValid a
  pub valid_b : Transfer.IsValid b

-- A write through the left end of `n` bytes, for as many of which as there is room, makes just so many
-- more bytes available at the right end, and changes nothing of what is available at the left end;
-- the object stays valid. The offset of the written buffer must not wrap.
pub left_write_reaches_right :
    (uc : UserCopy) {d : DuplexPipes} (killed : Bool) (src : List ℕ) (n : ℕ) (v : IsValid d)
    → v.valid_a.inner.write_off + n < 2 ^ 32
    → let w = min n (room v.valid_a.inner) in
      (d' : DuplexPipes) × (duplex_pipe_end_copy_from_user uc d killed
          (some left_pipe_end)
          (some src)
          n
        ≡ ok (n - w + (uc.from_user src w).1, d'))
      × (duplex_pipe_end_n_bytes_available d' (some right_pipe_end)
          ≡ duplex_pipe_end_n_bytes_available d (some right_pipe_end) + w)
      × (duplex_pipe_end_n_bytes_available d' (some left_pipe_end)
          ≡ duplex_pipe_end_n_bytes_available d (some left_pipe_end))
      × IsValid d'
unfolding duplex_pipe_end_copy_from_user duplex_pipe_end_n_bytes_available
left_write_reaches_right uc {d} killed src n v fits =
    let w = min n (room v.valid_a.inner) in
    let (p, done, _, (valid, holds)) = pipe_write_appends uc killed src n v.valid_a fits in
    let more : length (held valid) ≡ length (held v.valid_a) + w =
      ap length holds
      ∙ length-append (held v.valid_a) (uc.from_user src w).0
      ∙ ap (λ k. length (held v.valid_a) + k) (uc.from_length src w) in
    (
      record d { buffer_a = some p },
      rw (v.has_a, done) refl,
      rw (v.has_a, available-held valid, available-held v.valid_a) more,
      refl,
      record {
        a = p;
        b = v.b;
        has_a = refl;
        has_b = v.has_b;
        valid_a = valid;
        valid_b = v.valid_b;
      },
    )
