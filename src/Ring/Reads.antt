-- ===== src/Ring/Reads.antt =====
-- What a read of at most the readable bytes does.
use pcm3060_kernelmodule.Prelude.{
  ℕ, ◌+◌, ◌%◌, ◌≤◌, ◌<◌, ◌≡◌, some, List, arith, length, slice, splice, length-splice, length-slice,
  false,
}
use pcm3060_kernelmodule.Prelude.Words.{add32, sub32}
use pcm3060_kernelmodule.Kernel.Run.{ok}
use pcm3060_kernelmodule.Kernel.Memory.{memcpy_ok}
use pcm3060_kernelmodule.Kernel.User.{UserCopy}
use pcm3060_kernelmodule.Ring.{
  RingBuffer, read_split, fetch, ring_buffer_read, ring_buffer_n_bytes_readable,
  ring_buffer_n_bytes_writable,
}
use pcm3060_kernelmodule.Ring.Bounds.{IsValid, memcpy_rest_ok}

-- On a valid ring the two queries do not wrap, and between them they account for the whole storage.
pub readable-add-writable :
    {r : RingBuffer}
    → IsValid r
    → ring_buffer_n_bytes_readable r + ring_buffer_n_bytes_writable r ≡ r.size
unfolding ring_buffer_n_bytes_readable ring_buffer_n_bytes_writable sub32
readable-add-writable v = ground arith

pub readable-lt : {r : RingBuffer} → IsValid r → ring_buffer_n_bytes_readable r < r.size
unfolding ring_buffer_n_bytes_readable sub32
readable-lt v = ground arith

-- A read of at most the readable bytes stays inside the storage and takes all that it asks for.
pub read_split_within :
    {r : RingBuffer} (n : ℕ)
    → IsValid r
    → n ≤ ring_buffer_n_bytes_readable r
    → (r.read_idx + (read_split r n).0 ≤ r.size)
      × ((read_split r n).1 ≤ r.write_idx)
      × ((read_split r n).0 + (read_split r n).1 ≡ n)
unfolding read_split sub32 ring_buffer_n_bytes_readable
read_split_within n v h = ground arith

-- The reader's memory after copies of `a` bytes from the index and `b` from the start.
abbrev pub fetched : RingBuffer → List ℕ → ℕ → ℕ → List ℕ
fetched r dst a b = splice (splice dst 0 (slice r.read_idx a r.buf)) 0 (slice 0 b r.buf)

fetch_ok :
    (uc : UserCopy) (r : RingBuffer) (dst : List ℕ) (a b d : ℕ)
    → r.read_idx + a ≤ length r.buf
    → b ≤ length r.buf
    → a + b ≤ length dst
    → fetch uc false r dst a b d ≡ ok (fetched r dst a b, d)
unfolding fetch
fetch_ok uc r dst a b d ha hb hs = ground (
  arith,
  memcpy_ok dst 0 r.buf r.read_idx a,
  memcpy_rest_ok (splice dst 0 (slice r.read_idx a r.buf)) r.buf b d,
  length-splice dst 0 (slice r.read_idx a r.buf),
  length-slice r.read_idx a r.buf,
)

-- `ring_buffer_read` of at most the readable bytes, into memory that has room for them, returns,
-- drops nothing, moves the read index by as much and leaves the mutex free.
pub read_ok :
    (uc : UserCopy) {r : RingBuffer} (dst : List ℕ) (n : ℕ)
    → IsValid r
    → n ≤ ring_buffer_n_bytes_readable r
    → n ≤ length dst
    → let (a, b) = read_split r n in
      ring_buffer_read uc (some r) (some dst) n
      ≡ ok (0, some (fetched r dst a b), record r { read_idx = (r.read_idx + n) % r.size })
unfolding ring_buffer_read add32 sub32
read_ok uc {r} dst n v h k =
    let bounds = read_split_within n v h in
    ground (
      arith,
      bounds,
      readable-lt v,
      fetch_ok uc r dst (read_split r n).0 (read_split r n).1
          (sub32 (sub32 n (read_split r n).0) (read_split r n).1),
    )
