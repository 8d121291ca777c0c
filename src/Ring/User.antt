-- ===== src/Ring/User.antt =====
-- The calls that the device file makes: the same transfers, through `copy_from_user` and
-- `copy_to_user`.
use pcm3060_kernelmodule.Prelude.{
  ℕ, ◌+◌, ◌-◌, ◌%◌, ◌≤◌, ◌≡◌, List, ◌++◌, some, arith, length, take, drop, slice, length-slice,
}
use pcm3060_kernelmodule.Prelude.Words.{add32, sub32}
use pcm3060_kernelmodule.Kernel.Run.{ok}
use pcm3060_kernelmodule.Kernel.User.{UserCopy, copy_from_user, copy_to_user}
use pcm3060_kernelmodule.Ring.{
  RingBuffer, store, fetch, ring_buffer_copy_from_user, ring_buffer_copy_to_user,
  ring_buffer_n_bytes_readable,
}
use pcm3060_kernelmodule.Ring.Bounds.{IsValid}
use pcm3060_kernelmodule.Ring.Reads.{readable-lt, readable-add-writable}
use pcm3060_kernelmodule.Ring.Contents.{
  contents, FitsInOnePiece, write_split_one_piece, contents-append, contents-front,
}
use pcm3060_kernelmodule.Ring.Queue.{
  appended, appended-IsValid, advanced-IsValid, read_split_one_piece,
}

pub user_write_appended :
    (uc : UserCopy) {r : RingBuffer} (src : List ℕ) (n : ℕ)
    → IsValid r
    → FitsInOnePiece r n
    → let (arrived, left) = uc.from_user src n in
      ring_buffer_copy_from_user uc (some r) (some src) n ≡ ok (left, appended r arrived)
unfolding ring_buffer_copy_from_user store copy_from_user add32 sub32
user_write_appended uc {r} src n v f =
    let split = write_split_one_piece n v f in
    let count = uc.from_length src n in
    let few = uc.from_left src n in
    let room = readable-add-writable v in ground (arith, split, count, few, room)

-- `ring_buffer_copy_from_user` of `n` bytes that fit in one piece returns the number of bytes that
-- the user copy left out, and queues what the copy delivered: `n` bytes in any case.
pub user_write_enqueues :
    (uc : UserCopy) {r : RingBuffer} (src : List ℕ) (n : ℕ)
    → IsValid r
    → FitsInOnePiece r n
    → let (arrived, left) = uc.from_user src n in
      (r' : RingBuffer) × (ring_buffer_copy_from_user uc (some r) (some src) n ≡ ok (left, r'))
      × IsValid r'
      × (contents r' ≡ contents r ++ arrived)
      × (length arrived ≡ n)
user_write_enqueues uc {r} src n v f =
    let count = uc.from_length src n in
    (
      appended r (uc.from_user src n).0,
      user_write_appended uc src n v f,
      appended-IsValid (uc.from_user src n).0 v (ground (arith, count)),
      contents-append (uc.from_user src n).0 v (ground (arith, count)),
      count,
    )

-- `ring_buffer_copy_to_user` of `n` readable bytes in one piece hands the `n` oldest bytes to the
-- user copy, returns the number that it left out, and removes all `n` from the queue.
pub user_read_dequeues :
    (uc : UserCopy) {r : RingBuffer} (dst : List ℕ) (n : ℕ)
    → IsValid r
    → n ≤ ring_buffer_n_bytes_readable r
    → n ≤ r.size - r.read_idx
    → let (out, left) = uc.to_user dst (take n (contents r)) in
      (r' : RingBuffer) × (ring_buffer_copy_to_user uc (some r) (some dst) n
        ≡ ok (left, some out, r'))
      × IsValid r'
      × (contents r' ≡ drop n (contents r))
unfolding ring_buffer_copy_to_user fetch copy_to_user add32 sub32
user_read_dequeues uc {r} dst n v h one =
    let split = read_split_one_piece n v h one in
    let (front, rest) = contents-front n v h one in
    let room = readable-lt v in
    let count = length-slice r.read_idx n r.buf in
    let few = uc.to_left dst (slice r.read_idx n r.buf) in
    (
      record r { read_idx = (r.read_idx + n) % r.size },
      rw (← front) (ground (arith, split, few, count, room)),
      advanced-IsValid n v,
      rest,
    )
