-- ===== src/Ring/Bounds.antt =====
-- The representation invariant of a ring, and the memory safety of `ring_buffer.c`.
use pcm3060_kernelmodule.Prelude.{
  ℕ, zero, suc, splice-slice_zero, ◌+◌, ◌-◌, ◌%◌, ◌^◌, ◌≤◌, ◌<◌, ◌≡◌, false, some, List, arith,
  length, slice, splice, length-slice, length-splice, ◌∙◌,
}
use pcm3060_kernelmodule.Prelude.Words.{add32, sub32}
use pcm3060_kernelmodule.Kernel.Run.{ok}
use pcm3060_kernelmodule.Kernel.Memory.{memcpy_ok}
use pcm3060_kernelmodule.Kernel.User.{UserCopy}
use pcm3060_kernelmodule.Ring.{RingBuffer, write_split, memcpy_rest, store, ring_buffer_write}

-- The storage has `size` bytes, both indices lie in it, and no call is under way.
pub record IsValid (r : RingBuffer) : Type 0 where
  pub storage : length r.buf ≡ r.size
  pub small : r.size ≤ 2 ^ 31
  pub read_in : r.read_idx < r.size
  pub write_in : r.write_idx < r.size
  pub idle : r.mx ≡ false

-- What a write takes: the two parts fit the storage and add up to at most `buflen`.
pub write_split_bounds :
    {r : RingBuffer} (n : ℕ)
    → IsValid r
    → n < 2 ^ 32
    → (r.write_idx + (write_split r n).0 ≤ r.size)
      × ((write_split r n).1 < r.size)
      × ((write_split r n).0 + (write_split r n).1 ≤ n)
unfolding write_split sub32
write_split_bounds n v h = ground arith

-- The storage after a write of the first `a` bytes at the index and `b` at the start.
abbrev pub stored : RingBuffer → List ℕ → ℕ → ℕ → List ℕ
stored r src a b = splice (splice r.buf r.write_idx (slice 0 a src)) 0 (slice 0 b src)

pub length-stored :
    (r : RingBuffer) (src : List ℕ) (a b : ℕ)
    → r.write_idx + a ≤ length r.buf
    → b ≤ length r.buf
    → length (stored r src a b) ≡ length r.buf
length-stored r src a b ha hb = omega (
  arith,
  length-splice (splice r.buf r.write_idx (slice 0 a src)) 0 (slice 0 b src),
  length-splice r.buf r.write_idx (slice 0 a src),
  length-slice 0 a src,
  length-slice 0 b src,
)

pub memcpy_rest_ok :
    (buf src : List ℕ) (b d : ℕ)
    → b ≤ length buf
    → b ≤ length src
    → memcpy_rest buf src b d ≡ ok (splice buf 0 (slice 0 b src), d)
unfolding memcpy_rest
memcpy_rest_ok buf src zero d h k = rw splice-slice_zero
memcpy_rest_ok buf src (suc b) d h k = ground (arith, memcpy_ok buf 0 src 0 (suc b))

store_ok :
    (uc : UserCopy) (r : RingBuffer) (src : List ℕ) (a b d : ℕ)
    → r.write_idx + a ≤ length r.buf
    → b ≤ length r.buf
    → a + b ≤ length src
    → store uc false r src a b d ≡ ok (stored r src a b, d)
unfolding store
store_ok uc r src a b d ha hb hs = rw (memcpy_ok r.buf r.write_idx src 0 a ha (omega arith)) (
    memcpy_rest_ok (splice r.buf r.write_idx (slice 0 a src)) src b d
      (omega (arith, length-splice r.buf r.write_idx (slice 0 a src), length-slice 0 a src))
      (omega arith))

-- The ring after a write that took `a` bytes at the index and `b` at the start.
abbrev pub written : RingBuffer → List ℕ → ℕ → ℕ → RingBuffer
written r src a b = record r { buf = stored r src a b; write_idx = (r.write_idx + a + b) % r.size }

-- `ring_buffer_write` on a valid ring returns for every length below 2 ^ 32 that the source can
-- supply, with the storage, the index and the count of dropped bytes as stated: no copy leaves the
-- storage or the source, and the mutex is free again.
pub write_ok :
    (uc : UserCopy) {r : RingBuffer} (src : List ℕ) (n : ℕ)
    → IsValid r
    → n < 2 ^ 32
    → n ≤ length src
    → let (a, b) = write_split r n in
      ring_buffer_write uc (some r) (some src) n ≡ ok (n - (a + b), written r src a b)
unfolding ring_buffer_write add32 sub32
write_ok uc {r} src n v h k =
    let bounds = write_split_bounds n v h in
    ground (
      arith,
      bounds,
      store_ok uc r src (write_split r n).0 (write_split r n).1
          (sub32 (sub32 n (write_split r n).0) (write_split r n).1),
    )

pub written-IsValid :
    {r : RingBuffer} (src : List ℕ) (n : ℕ)
    → IsValid r
    → n < 2 ^ 32
    → let (a, b) = write_split r n in IsValid (written r src a b)
written-IsValid {r} src n v h =
    let (p, q, _) = write_split_bounds n v h in
    record {
      storage = length-stored r src _ _ (omega arith) (omega arith) ∙ v.storage;
      small = v.small;
      read_in = v.read_in;
      write_in = omega arith;
      idle = v.idle;
    }
