-- ===== src/Buffer/Limits.antt =====
-- Where a buffer fails: an offset that wraps, a byte that is never used, and waits that do not end.
use pcm3060_kernelmodule.Prelude.{
  ℕ, ◌+◌, ◌^◌, ◌≤◌, ◌<◌, min, ◌≡◌, refl, true, Option, none, some, List, arith, ◌==◌, leb,
  if◌then◌else◌,
}
use pcm3060_kernelmodule.Prelude.Words.{add32, sub32}
use pcm3060_kernelmodule.Kernel.Run.{ok, fault, blocked}
use pcm3060_kernelmodule.Kernel.Memory.{memcpy}
use pcm3060_kernelmodule.Kernel.User.{UserCopy}
use pcm3060_kernelmodule.Buffer.{
  Buffer, off_range, write_bytes, write_request_off_range_sync, buffer_write_copy,
  buffer_write_reserve, buffer_write_finish, buffer_reset, buffer_sync,
}
use pcm3060_kernelmodule.Buffer.Invariant.{IsValid, room, reserved, request_ok, finish_ok}

-- A write to a valid buffer that is not full, of so many bytes that the offset wraps, is not cut
-- down to the storage: the copy leaves it, which is a fault.
pub write_wraps :
    (uc : UserCopy) {b : Buffer} (src : List ℕ) (n : ℕ)
    → IsValid b
    → b.write_off < b.bufsize
    → n < 2 ^ 32
    → 2 ^ 32 ≤ b.write_off + n
    → buffer_write_copy uc (some b) (some src) n ≡ fault
unfolding buffer_write_copy write_request_off_range_sync off_range write_bytes memcpy add32 sub32
write_wraps uc {b} src n v free small over = ground arith

-- On a valid buffer with room, and unless the offset would wrap, `buffer_write_reserve` hands out
-- the range from the offset on, as long as the room, and keeps the mutex; `buffer_write_finish` then
-- makes these bytes readable and releases it.
pub reserve_then_finish :
    {b : Buffer} (n : ℕ)
    → IsValid b
    → 0 < n
    → 0 < room b
    → b.write_off + n < 2 ^ 32
    → let w = min n (room b) in
      (b' : Buffer) × (b'' : Buffer) × (buffer_write_reserve (some b) n
        ≡ ok (w, some b.write_off, some b'))
      × (b'.mlock ≡ true)
      × (b'.n_bytes_written ≡ b.n_bytes_written)
      × (buffer_write_finish (some b') ≡ ok (some b''))
      × IsValid b''
      × (b''.n_bytes_written ≡ b.n_bytes_written + w)
unfolding buffer_write_reserve buffer_write_finish
reserve_then_finish {b} n v pos free fits =
    let request = request_ok n v (omega arith) fits in
    (
      reserved b n,
      record b {
        write_off = b.write_off + n;
        n_bytes_written = b.n_bytes_written + min n (room b);
      },
      ground (arith, request),
      refl,
      refl,
      ground (arith, finish_ok (reserved b n)),
      record {
        storage = v.storage;
        small = v.small;
        offset = fits;
        counted = omega arith;
        settled = v.settled;
        alone = v.alone;
        unlocked = v.unlocked;
      },
      refl,
    )

-- When one byte of a valid buffer's storage is left, a reservation gets nothing, but holds the mutex
-- and counts as a writer: the next reset or sync waits for it.
pub empty_reservation_blocks :
    {b : Buffer} (n : ℕ)
    → IsValid b
    → 0 < n
    → b.write_off + 1 ≡ b.bufsize
    → b.write_off + n < 2 ^ 32
    → (b' : Buffer) × (buffer_write_reserve (some b) n ≡ ok (0, none, some b'))
      × (buffer_reset (some b') ≡ blocked)
      × (buffer_sync (some b') ≡ blocked)
unfolding buffer_write_reserve buffer_reset buffer_sync
empty_reservation_blocks {b} n v pos last fits =
    (reserved b n, ground (arith, request_ok n v (omega arith) fits), refl, refl)

-- A reservation while another one is open, in a buffer that is not full, succeeds; but then the
-- first finish waits for the mutex that the open reservations hold.
pub second_reservation_blocks :
    (b : Buffer) (n : ℕ)
    → 0 < b.n_active_writters
    → b.n_active_writters + 1 < 2 ^ 31
    → b.mlock ≡ true
    → b.write_off < b.bufsize
    → 0 < n
    → (w : ℕ) × (out : Option ℕ) × (b' : Buffer) × (buffer_write_reserve (some b) n
        ≡ ok (w, out, some b'))
      × (buffer_write_finish (some b') ≡ blocked)
unfolding buffer_write_reserve write_request_off_range_sync buffer_write_finish add32 sub32
second_reservation_blocks b n active few held free pos =
    let range = off_range b.bufsize (add32 b.write_off n) n in
    (
      range.n_bytes_writable,
      (if range.n_bytes_writable == 0 then none else some range.wr_off_start),
      record b {
        write_off = add32 b.write_off n;
        n_bytes_written_tmp =
            if leb b.bufsize range.wr_off_start
            then b.n_bytes_written_tmp
            else add32 b.n_bytes_written_tmp range.n_bytes_writable;
        n_active_writters = add32 b.n_active_writters 1;
        mlock = true;
      },
      ground arith,
      ground arith,
    )
