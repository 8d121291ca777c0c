-- ===== src/Buffer/Invariant.antt =====
-- What a buffer holds between calls, and what a write adds to it.
use pcm3060_kernelmodule.Prelude.{
  ℕ, zero, suc, splice-slice_zero, ◌+◌, ◌-◌, ◌^◌, ◌≤◌, ◌<◌, min, ◌≡◌, true, false, some, List,
  arith, length, slice, splice, length-slice,
}
use pcm3060_kernelmodule.Prelude.Words.{add32, sub32, add32-eq}
use pcm3060_kernelmodule.Kernel.Run.{ok}
use pcm3060_kernelmodule.Kernel.Memory.{memcpy_ok}
use pcm3060_kernelmodule.Kernel.User.{UserCopy}
use pcm3060_kernelmodule.Buffer.{
  Buffer, WrOffsetRange, off_range, write_request_off_range_sync, write_finish_sync, write_bytes,
  buffer_write_copy,
}

-- No writer is active. The count of written bytes follows the offset, except that it stops one byte
-- short of the size.
pub record IsValid (b : Buffer) : Type 0 where
  pub storage : length b.buf ≡ b.bufsize
  pub small : b.bufsize < 2 ^ 31
  pub offset : b.write_off < 2 ^ 32
  pub counted : b.n_bytes_written ≡ min b.write_off (b.bufsize - 1)
  pub settled : b.n_bytes_written_tmp ≡ 0
  pub alone : b.n_active_writters ≡ 0
  pub unlocked : b.mlock ≡ false

-- The bytes that can be read.
unfoldable pub contents : Buffer → List ℕ
contents b = slice 0 b.n_bytes_written b.buf

-- The bytes that are still accepted.
abbrev pub room : Buffer → ℕ
room b = b.bufsize - 1 - b.n_bytes_written

-- The buffer after a write of `n` bytes of which `bs` were taken.
abbrev pub filled : Buffer → ℕ → List ℕ → Buffer
filled b n bs = record b {
  buf = splice b.buf b.write_off bs;
  write_off = b.write_off + n;
  n_bytes_written = b.n_bytes_written + length bs;
}

-- Unless the offset would wrap, a write takes as many bytes as there is room for.
pub off_range_lem :
    {b : Buffer} (n : ℕ)
    → IsValid b
    → b.write_off < b.bufsize
    → b.write_off + n < 2 ^ 32
    → off_range b.bufsize (add32 b.write_off n) n ≡ record {
      wr_off_start = b.write_off;
      n_bytes_writable = min n (room b);
      n_bytes_dropped = n - min n (room b);
    }
unfolding off_range add32 sub32
off_range_lem n v free fits = ground arith

-- The buffer while the one writer of `n` bytes is active.
abbrev pub reserved : Buffer → ℕ → Buffer
reserved b n = record b {
  write_off = b.write_off + n;
  n_bytes_written_tmp = min n (room b);
  n_active_writters = 1;
  mlock = true;
}

abbrev pub reserved_range : Buffer → ℕ → WrOffsetRange
reserved_range b n = record {
  wr_off_start = b.write_off;
  n_bytes_writable = min n (room b);
  n_bytes_dropped = n - min n (room b);
}

pub request_ok :
    {b : Buffer} (n : ℕ)
    → IsValid b
    → b.write_off < b.bufsize
    → b.write_off + n < 2 ^ 32
    → write_request_off_range_sync b n ≡ ok (reserved_range b n, reserved b n)
unfolding write_request_off_range_sync
request_ok {b} n v free fits = ground (
  arith,
  off_range_lem n v free fits,
  add32-eq b.write_off n fits,
  add32-eq b.n_active_writters 1,
  add32-eq b.n_bytes_written_tmp (min n (room b)),
)

pub finish_ok :
    (b : Buffer)
    → b.n_active_writters ≡ 1
    → b.mlock ≡ true
    → b.n_bytes_written + b.n_bytes_written_tmp < 2 ^ 32
    → write_finish_sync b
      ≡ ok (record b {
        n_bytes_written = b.n_bytes_written + b.n_bytes_written_tmp;
        n_bytes_written_tmp = 0;
        n_active_writters = 0;
        mlock = false;
      })
unfolding write_finish_sync add32 sub32
finish_ok b one held small = ground arith

write_bytes_ok :
    (uc : UserCopy) (b : Buffer) (off n d : ℕ) (src : List ℕ)
    → off + n ≤ length b.buf
    → n ≤ length src
    → write_bytes uc false b
        (record { wr_off_start = off; n_bytes_writable = n; n_bytes_dropped = d })
        src
      ≡ ok (0, record b { buf = splice b.buf off (slice 0 n src) })
unfolding write_bytes
write_bytes_ok uc b off zero d src h k = rw splice-slice_zero
write_bytes_ok uc b off (suc n) d src h k = ground (arith, memcpy_ok b.buf off src 0 (suc n))

pub write_copy_ok :
    (uc : UserCopy) {b : Buffer} (src : List ℕ) (n : ℕ)
    → IsValid b
    → 0 < n
    → b.write_off < b.bufsize
    → b.write_off + n < 2 ^ 32
    → n ≤ length src
    → buffer_write_copy uc (some b) (some src) n
      ≡ ok (n - min n (room b), some (filled b n (slice 0 (min n (room b)) src)))
unfolding buffer_write_copy
write_copy_ok uc {b} src n v pos free fits h =
    let w = min n (room b) in
    ground (
      arith,
      request_ok n v free fits,
      write_bytes_ok uc (reserved b n) b.write_off w (n - w) src,
      finish_ok (record (reserved b n) { buf = splice b.buf b.write_off (slice 0 w src) }),
      length-slice 0 w src,
      add32-eq (n - w) 0,
    )
