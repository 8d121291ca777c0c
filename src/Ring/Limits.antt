-- ===== src/Ring/Limits.antt =====
-- Where a ring is no queue: transfers that go round the end of the storage, reads past the writer,
-- and a ring that is filled up.
use pcm3060_kernelmodule.Prelude.{
  ℕ, ◌+◌, ◌-◌, ◌%◌, ◌^◌, ◌≤◌, ◌<◌, ◌≡◌, ◌⊎◌, ◌*◌, List, some, arith, leb, if◌then◌else◌, length,
  slice, splice, length-splice, length-slice, slice-splice_self, min, slice-slice_front, dec_lt,
  slice-append_past,
}
use pcm3060_kernelmodule.Prelude.Words.{add32, sub32, mod_below, mod_full}
use pcm3060_kernelmodule.Kernel.Run.{ok, fault}
use pcm3060_kernelmodule.Kernel.Memory.{memcpy}
use pcm3060_kernelmodule.Kernel.User.{UserCopy}
use pcm3060_kernelmodule.Ring.{
  RingBuffer, write_split, read_split, memcpy_rest, fetch, ring_buffer_write, ring_buffer_read,
  ring_buffer_n_bytes_readable, ring_buffer_n_bytes_writable,
}
use pcm3060_kernelmodule.Ring.Bounds.{IsValid, written, write_ok}
use pcm3060_kernelmodule.Ring.Reads.{
  readable-lt, readable-add-writable, fetched, read_ok, read_split_within,
}
use pcm3060_kernelmodule.Ring.Contents.{contents}

-- On a valid ring with the reader behind the writer, `ring_buffer_read` takes no notice of the
-- writer: it hands out the `n` bytes from the read index on, for any `n` up to 2 ^ 31 that the
-- reader has memory for, and drops none, or leaves the storage, which is a fault.
pub read_ignores_writer :
    (uc : UserCopy) {r : RingBuffer} (dst : List ℕ) (n : ℕ)
    → IsValid r
    → r.read_idx < r.write_idx
    → n ≤ 2 ^ 31
    → n ≤ length dst
    → ring_buffer_read uc (some r) (some dst) n ≡ (
        if leb (r.read_idx + n) r.size
        then ok (
          0,
          some (splice dst 0 (slice r.read_idx n r.buf)),
          record r { read_idx = (r.read_idx + n) % r.size },
        )
        else fault)
unfolding ring_buffer_read fetch memcpy memcpy_rest read_split add32 sub32
read_ignores_writer uc {r} dst n v behind small room = ground arith

write_split_fill :
    {r : RingBuffer}
    → IsValid r
    → (r.read_idx ≡ 0) ⊎ (r.write_idx < r.read_idx)
    → let (a, b) = write_split r (ring_buffer_n_bytes_writable r) in
      (a + b ≡ ring_buffer_n_bytes_writable r) × ((r.write_idx + a + b) % r.size ≡ r.read_idx)
unfolding write_split ring_buffer_n_bytes_writable sub32
write_split_fill {r} v at = elim (dec_lt r.write_idx r.read_idx) [
  | yes behind ↦ let idx = mod_below {a = r.read_idx} {m = r.size} v.read_in in ground (arith, idx)
  | no ahead ↦ let idx = mod_full {a = r.size} {m = r.size} (omega arith) in ground (arith, idx)
]

-- On a valid ring whose reader is ahead of the writer or at the start of the storage, a write of all
-- the writable bytes, of which there are some, drops none and leaves the ring looking empty.
pub fill_looks_empty :
    (uc : UserCopy) {r : RingBuffer} (src : List ℕ)
    → IsValid r
    → (r.read_idx ≡ 0) ⊎ (r.write_idx < r.read_idx)
    → ring_buffer_n_bytes_writable r ≤ length src
    → (r' : RingBuffer) × (ring_buffer_write uc (some r) (some src) (ring_buffer_n_bytes_writable r)
        ≡ ok (0, r'))
      × (0 < ring_buffer_n_bytes_writable r)
      × (ring_buffer_n_bytes_readable r' ≡ 0)
unfolding ring_buffer_n_bytes_readable sub32
fill_looks_empty uc {r} src v at h =
    let n = ring_buffer_n_bytes_writable r in
    let total = readable-add-writable v in
    let some_room = readable-lt v in
    let (all, idx) = write_split_fill v at in
    let done = write_ok uc src n v (omega arith) h in
    (
      written r src (write_split r n).0 (write_split r n).1,
      ground (arith, done, all),
      omega arith,
      ground (arith, idx),
    )

write_split_wrapped :
    {r : RingBuffer} (n : ℕ)
    → IsValid r
    → n < 2 ^ 32
    → r.read_idx ≤ r.write_idx
    → r.size < r.write_idx + n
    → write_split r n
      ≡ (r.size - r.write_idx, min (n - (r.size - r.write_idx)) (r.write_idx - r.read_idx))
unfolding write_split sub32
write_split_wrapped n v small ahead over = ground arith

-- A write that goes round the end of the storage copies the first bytes of its source again: the
-- `b` bytes that land at the start of the storage are the first `b` of the source, although as many
-- bytes of it as the storage had behind the write index went there already. The write index ends
-- behind them.
pub wrapped_write_repeats :
    (uc : UserCopy) {r : RingBuffer} (src : List ℕ) (n : ℕ)
    → IsValid r
    → n < 2 ^ 32
    → n ≤ length src
    → r.read_idx ≤ r.write_idx
    → r.size < r.write_idx + n
    → let b = min (n - (r.size - r.write_idx)) (r.write_idx - r.read_idx) in
      (r' : RingBuffer) × (ring_buffer_write uc (some r) (some src) n
        ≡ ok (n - (r.size - r.write_idx + b), r'))
      × (slice 0 b r'.buf ≡ slice 0 b src)
      × (r'.write_idx ≡ b)
wrapped_write_repeats uc {r} src n v small h ahead over =
    let b = min (n - (r.size - r.write_idx)) (r.write_idx - r.read_idx) in
    let split = write_split_wrapped n v small ahead over in
    let done = write_ok uc src n v small h in
    let len : length (slice 0 b src) ≡ b = omega (arith, length-slice 0 b src) in
    let kept = length-splice r.buf r.write_idx (slice 0 (r.size - r.write_idx) src) in
    let own =
      slice-splice_self (splice r.buf r.write_idx (slice 0 (r.size - r.write_idx) src)) 0
        (slice 0 b src) (omega arith) in
    (
      written r src (r.size - r.write_idx) b,
      ground (arith, done, split),
      ground (arith, len, own),
      grind arith,
    )

-- A write to a ring whose reader is behind its writer, of more bytes than lie behind the write index
-- and than are writable, can leave fewer bytes to read than there were, and reports fewer dropped
-- bytes than it was given.
pub wrapped_write_loses :
    (uc : UserCopy) {r : RingBuffer} (src : List ℕ) (n : ℕ)
    → IsValid r
    → n < 2 ^ 32
    → n ≤ length src
    → 0 < r.read_idx
    → 2 * r.read_idx ≤ r.write_idx
    → r.size + r.read_idx ≤ r.write_idx + n
    → (d : ℕ) × (r' : RingBuffer) × (ring_buffer_write uc (some r) (some src) n ≡ ok (d, r'))
      × (d < n)
      × (ring_buffer_n_bytes_readable r' < ring_buffer_n_bytes_readable r)
unfolding ring_buffer_n_bytes_readable sub32
wrapped_write_loses uc {r} src n v small h pos half over =
    let b = min (n - (r.size - r.write_idx)) (r.write_idx - r.read_idx) in
    let split = write_split_wrapped n v small (omega arith) (omega arith) in
    let done = write_ok uc src n v small h in
    let idx : (r.write_idx + (r.size - r.write_idx) + b) % r.size ≡ b = grind arith in
    (
      n - (r.size - r.write_idx + b),
      written r src (r.size - r.write_idx) b,
      ground (arith, done, split),
      omega arith,
      ground (arith, idx),
    )

read_split_wrapped :
    {r : RingBuffer} (n : ℕ)
    → IsValid r
    → n ≤ ring_buffer_n_bytes_readable r
    → r.size < r.read_idx + n
    → (r.write_idx < r.read_idx)
      × (read_split r n ≡ (r.size - r.read_idx, n - (r.size - r.read_idx)))
unfolding ring_buffer_n_bytes_readable sub32 read_split
read_split_wrapped n v h over = ground arith

-- A read of readable bytes that go round the end of the storage drops none, but hands them out in
-- the wrong order: the reader's memory starts with the `b` bytes that are the last of the queue's
-- first `n`, over the older bytes copied there before.
pub wrapped_read_misplaces :
    (uc : UserCopy) {r : RingBuffer} (dst : List ℕ) (n : ℕ)
    → IsValid r
    → n ≤ ring_buffer_n_bytes_readable r
    → r.size < r.read_idx + n
    → n ≤ length dst
    → let a = r.size - r.read_idx in
      (out : List ℕ) × (r' : RingBuffer) × (ring_buffer_read uc (some r) (some dst) n
        ≡ ok (0, some out, r'))
      × (slice 0 (n - a) out ≡ slice a (n - a) (contents r))
unfolding contents
wrapped_read_misplaces uc {r} dst n v h over k =
    let a = r.size - r.read_idx in
    let (behind, split) = read_split_wrapped n v h over in
    let inside = read_split_within n v h in
    let done = read_ok uc dst n v h k in
    let b_len : length (slice 0 (n - a) r.buf) ≡ n - a =
      omega (arith, length-slice 0 (n - a) r.buf, readable-lt v) in
    let a_len : length (slice r.read_idx a r.buf) ≡ a =
      omega (arith, length-slice r.read_idx a r.buf) in
    let own =
      slice-splice_self (splice dst 0 (slice r.read_idx a r.buf)) 0 (slice 0 (n - a) r.buf)
        (omega arith) in
    let past =
      slice-append_past a (n - a) (slice r.read_idx a r.buf) (slice 0 r.write_idx r.buf) a_len in
    let front = slice-slice_front 0 r.write_idx (n - a) r.buf (ground (arith, inside, split)) in
    (
      fetched r dst a (n - a),
      record r { read_idx = (r.read_idx + n) % r.size },
      ground (arith, done, split),
      ground (arith, b_len, own, past, front, behind),
    )
