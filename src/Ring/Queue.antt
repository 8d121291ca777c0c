-- ===== src/Ring/Queue.antt =====
-- A ring is a queue, as long as each transfer lies in one piece of the storage.
use pcm3060_kernelmodule.Prelude.{
  ℕ, ◌+◌, ◌-◌, ◌%◌, ◌^◌, ◌≤◌, ◌<◌, ◌≡◌, ap, subst, ◌∙◌, List, [], ◌++◌, append-nil, append_assoc,
  some, arith, length, take, drop, slice, splice, length-slice, length-splice, length-take,
  take-append_all, take-append-drop, splice-slice_zero,
}
use pcm3060_kernelmodule.Prelude.Words.{sub32}
use pcm3060_kernelmodule.Kernel.Run.{ok}
use pcm3060_kernelmodule.Kernel.User.{UserCopy}
use pcm3060_kernelmodule.Ring.{
  RingBuffer, read_split, ring_buffer_write, ring_buffer_read, ring_buffer_n_bytes_readable,
}
use pcm3060_kernelmodule.Ring.Bounds.{IsValid, written, write_ok}
use pcm3060_kernelmodule.Ring.Reads.{readable-add-writable, fetched, read_ok}
use pcm3060_kernelmodule.Ring.Contents.{
  contents, FitsInOnePiece, write_split_one_piece, contents-append, contents-front, length-contents,
}

-- The ring after `bs` went to its write index.
abbrev pub appended : RingBuffer → List ℕ → RingBuffer
appended r bs = record r {
  buf = splice r.buf r.write_idx bs;
  write_idx = (r.write_idx + length bs) % r.size;
}

pub appended-IsValid :
    {r : RingBuffer} (bs : List ℕ)
    → IsValid r
    → FitsInOnePiece r (length bs)
    → IsValid (appended r bs)
appended-IsValid {r} bs v f = record {
  storage = length-splice r.buf r.write_idx bs (omega arith) ∙ v.storage;
  small = v.small;
  read_in = v.read_in;
  write_in = omega arith;
  idle = v.idle;
}

pub advanced-IsValid :
    {r : RingBuffer} (n : ℕ)
    → IsValid r
    → IsValid (record r { read_idx = (r.read_idx + n) % r.size })
advanced-IsValid n v = record {
  storage = v.storage;
  small = v.small;
  read_in = omega arith;
  write_in = v.write_in;
  idle = v.idle;
}

small_piece : {r : RingBuffer} {n : ℕ} → IsValid r → FitsInOnePiece r n → n < 2 ^ 31
small_piece v f = omega (arith, readable-add-writable v)

written_one_piece :
    (r : RingBuffer) (src : List ℕ) (n : ℕ)
    → n ≤ length src
    → written r src n 0 ≡ appended r (take n src)
unfolding slice
written_one_piece r src n h =
    rw (splice-slice_zero, length-take)
      (ap (λ k. record r { buf = splice r.buf r.write_idx (take n src); write_idx = k % r.size })
        (omega arith))

-- `ring_buffer_write` on a valid ring, of `n` bytes of the source that fit in one piece, drops none
-- and appends exactly those bytes to the queue; the ring stays valid.
pub write_enqueues :
    (uc : UserCopy) {r : RingBuffer} (src : List ℕ) (n : ℕ)
    → IsValid r
    → FitsInOnePiece r n
    → n ≤ length src
    → (r' : RingBuffer) × (ring_buffer_write uc (some r) (some src) n ≡ ok (0, r'))
      × IsValid r'
      × (contents r' ≡ contents r ++ take n src)
write_enqueues uc {r} src n v f h =
    let small = small_piece v f in
    let split = write_split_one_piece n v f in
    let done = write_ok uc src n v (omega arith) h in
    let same = written_one_piece r src n h in
    let count : length (take n src) ≡ n = omega (arith, length-take n src) in
    (
      appended r (take n src),
      ground (arith, done, split, same),
      appended-IsValid (take n src) v (ground (arith, count)),
      contents-append (take n src) v (ground (arith, count)),
    )

pub read_split_one_piece :
    {r : RingBuffer} (n : ℕ)
    → IsValid r
    → n ≤ ring_buffer_n_bytes_readable r
    → n ≤ r.size - r.read_idx
    → read_split r n ≡ (n, 0)
unfolding read_split sub32 ring_buffer_n_bytes_readable
read_split_one_piece n v h one = ground arith

fetched_one_piece :
    (r : RingBuffer) (dst : List ℕ) (n : ℕ)
    → r.read_idx + n ≤ length r.buf
    → fetched r dst n 0 ≡ slice r.read_idx n r.buf ++ drop n dst
unfolding splice
fetched_one_piece r dst n h =
    splice-slice_zero (splice dst 0 (slice r.read_idx n r.buf)) 0 0 r.buf
    ∙ ap (λ k. slice r.read_idx n r.buf ++ drop k dst)
        (omega (arith, length-slice r.read_idx n r.buf))

-- `ring_buffer_read` of `n` readable bytes that lie in one piece drops none, puts the `n` oldest
-- bytes of the queue into the reader's memory and removes them from the queue; the rest of the
-- reader's memory stays, and the ring stays valid.
pub read_dequeues :
    (uc : UserCopy) {r : RingBuffer} (dst : List ℕ) (n : ℕ)
    → IsValid r
    → n ≤ ring_buffer_n_bytes_readable r
    → n ≤ r.size - r.read_idx
    → n ≤ length dst
    → (r' : RingBuffer) × (ring_buffer_read uc (some r) (some dst) n
        ≡ ok (0, some (take n (contents r) ++ drop n dst), r'))
      × IsValid r'
      × (contents r' ≡ drop n (contents r))
read_dequeues uc {r} dst n v h one k =
    let done = read_ok uc dst n v h k in
    let (front, rest) = contents-front n v h one in
    let split = read_split_one_piece n v h one in
    let out = fetched_one_piece r dst n (omega arith) in
    (
      record r { read_idx = (r.read_idx + n) % r.size },
      ground (arith, done, split, out, front),
      advanced-IsValid n v,
      rest,
    )

-- A session of transfers between two rings: the bytes written and the bytes read, in order.
-- Each transfer lies in one piece of the storage and is what the code returned.
pub data Session (uc : UserCopy) : RingBuffer → List ℕ → List ℕ → RingBuffer → Type 0 where
  done : {r : RingBuffer} → Session uc r [] [] r
  put :
      {r r' r'' : RingBuffer} {ins outs : List ℕ} (src : List ℕ) (n : ℕ)
      → FitsInOnePiece r n
      → n ≤ length src
      → ring_buffer_write uc (some r) (some src) n ≡ ok (0, r')
      → Session uc r' ins outs r''
      → Session uc r (take n src ++ ins) outs r''
  get :
      {r r' r'' : RingBuffer} {ins outs dst' : List ℕ} (dst : List ℕ) (n : ℕ)
      → n ≤ ring_buffer_n_bytes_readable r
      → n ≤ r.size - r.read_idx
      → n ≤ length dst
      → ring_buffer_read uc (some r) (some dst) n ≡ ok (0, some dst', r')
      → Session uc r' ins outs r''
      → Session uc r ins (take n dst' ++ outs) r''

-- First in, first out, nothing lost and nothing made up: over any sequence of writes that fit in one
-- piece and of reads of readable bytes in one piece, from a valid ring on, what the ring held and
-- what was written is, in this order, what was read and what the ring holds at the end; it ends
-- valid.
pub Session-fifo :
    (uc : UserCopy) {r r' : RingBuffer} {ins outs : List ℕ}
    → IsValid r
    → Session uc r ins outs r'
    → (contents r ++ ins ≡ outs ++ contents r') × IsValid r'
Session-fifo uc {r} v done = (append-nil (contents r), v)
Session-fifo uc {r} v (put {r' = s} {ins} src n f h e rest) =
    let (t, e', valid, holds) = write_enqueues uc src n v f h in
    let same : t ≡ s = cc in
    let (order, last) = Session-fifo uc (subst IsValid same valid) rest in
    (ground (arith, append_assoc (contents r) (take n src) ins), last)
Session-fifo uc {r} v (get {r' = s} {r''} {ins} {outs} {dst'} dst n h one k e rest) =
    let (t, e', valid, holds) = read_dequeues uc dst n v h one k in
    let same : t ≡ s = cc in
    let (order, last) = Session-fifo uc (subst IsValid same valid) rest in
    let len : length (take n (contents r)) ≡ n =
      omega (arith, length-take n (contents r), length-contents v) in
    let got = take-append_all n (take n (contents r)) (drop n dst) len in
    (
      ground (
        arith,
        got,
        take-append-drop n (contents r),
        append_assoc (take n (contents r)) (drop n (contents r)) ins,
        append_assoc (take n (contents r)) outs (contents r''),
      ),
      last,
    )
