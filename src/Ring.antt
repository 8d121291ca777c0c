-- ===== src/Ring.antt =====
-- src/utils/ring_buffer.c and ring_buffer.h: the byte ring between a channel's device file and the
-- transceiver thread. A call that changes `*ring` returns the new ring beside its result.
pub mod Bounds
pub mod Reads
pub mod Contents
pub mod Queue
pub mod User
pub mod Limits
pub mod Lifetime
use pcm3060_kernelmodule.Prelude.{
  ℕ, ◌+◌, ◌-◌, ◌%◌, min, Bool, true, false, Option, none, some, List, ltb, ◌==◌, if◌then◌else◌,
}
use pcm3060_kernelmodule.Prelude.Words.{add32, sub32}
use pcm3060_kernelmodule.Kernel.Run.{Run, ok, fault, ◌>>=◌, mutex_lock, mutex_unlock}
use pcm3060_kernelmodule.Kernel.Memory.{memcpy}
use pcm3060_kernelmodule.Kernel.User.{UserCopy, copy_from_user, copy_to_user}

-- `ring_buffer_t` with its `_ring_buffer_impl_t`. `mx` says whether the mutex is held.
pub record RingBuffer : Type 0 where
  pub size : ℕ
  pub buf : List ℕ
  pub read_idx : ℕ
  pub write_idx : ℕ
  pub mx : Bool

-- `a % size` on `unsigned int`: the remainder by zero is undefined.
abbrev pub rem32 : ℕ → ℕ → Run ℕ
rem32 a size = if size == 0 then fault else ok (a % size)

-- `bytes_to_write_from_idx` and `bytes_to_write_from_start`
unfoldable pub write_split : RingBuffer → ℕ → ℕ × ℕ
write_split r buflen =
    if ltb r.write_idx r.read_idx
    then (min (sub32 r.read_idx r.write_idx) buflen, 0)
    else (let from_idx = min buflen (sub32 r.size r.write_idx) in
        (
          from_idx,
          if ltb from_idx buflen
              then min (sub32 buflen from_idx) (sub32 r.write_idx r.read_idx)
              else 0,
        ))

-- `bytes_to_read_from_idx` and `bytes_to_read_from_start`
unfoldable pub read_split : RingBuffer → ℕ → ℕ × ℕ
read_split r buflen =
    if ltb r.write_idx r.read_idx
    then (let from_idx = min buflen (sub32 r.size r.read_idx) in
        (
          from_idx,
          if ltb from_idx buflen
              then min (sub32 buflen from_idx) (sub32 r.write_idx r.read_idx)
              else 0,
        ))
    else (min (sub32 r.read_idx r.write_idx) buflen, 0)

-- The second memcpy of a write or read, when there is one: to and from the start of both arrays.
unfoldable pub memcpy_rest : List ℕ → List ℕ → ℕ → ℕ → Run (List ℕ × ℕ)
memcpy_rest dst src from_start dropped =
    if ltb 0 from_start
    then (do dst' ← memcpy dst 0 src 0 from_start; ok (dst', dropped))
    else ok (dst, dropped)

-- The copies of a write, from kernel or user memory, with the count of dropped bytes so far.
unfoldable pub store : UserCopy → Bool → RingBuffer → List ℕ → ℕ → ℕ → ℕ → Run (List ℕ × ℕ)
store uc false r src from_idx from_start dropped = do
  buf ← memcpy r.buf r.write_idx src 0 from_idx
  memcpy_rest buf src from_start dropped
store uc true r src from_idx from_start dropped = do
  (buf, left) ← copy_from_user uc r.buf r.write_idx src from_idx
  if ltb 0 from_start
      then (do
        (buf', left') ← copy_from_user uc buf 0 src from_start
        ok (buf', add32 (add32 dropped left) left'))
      else ok (buf, add32 dropped left)

-- The copies of a read, to kernel or user memory.
unfoldable pub fetch : UserCopy → Bool → RingBuffer → List ℕ → ℕ → ℕ → ℕ → Run (List ℕ × ℕ)
fetch uc false r dst from_idx from_start dropped = do
  out ← memcpy dst 0 r.buf r.read_idx from_idx
  memcpy_rest out r.buf from_start dropped
fetch uc true r dst from_idx from_start dropped = do
  (out, left) ← copy_to_user uc dst r.buf r.read_idx from_idx
  if ltb 0 from_start
      then (do
        (out', left') ← copy_to_user uc out r.buf 0 from_start
        ok (out', add32 (add32 dropped left) left'))
      else ok (out, add32 dropped left)

-- `_write_impl`: the number of dropped bytes, and the ring. The size is read before the check for
-- NULL, so a NULL ring is a fault.
unfoldable pub write_impl :
    UserCopy → Option RingBuffer → Option (List ℕ) → ℕ → Bool → Run (ℕ × RingBuffer)
write_impl uc none src buflen user = fault
write_impl uc (some r) none buflen user = ok (buflen, r)
write_impl uc (some r) (some src) buflen user = do
  held ← mutex_lock r.mx
  let split = write_split r buflen
  let dropped = sub32 (sub32 buflen split.0) split.1
  idx ← rem32 (add32 (add32 r.write_idx split.0) split.1) r.size
  (buf, dropped') ← store uc user r src split.0 split.1 dropped
  mx ← mutex_unlock held
  ok (dropped', record r { buf = buf; write_idx = idx; mx = mx })

-- `_read_impl`: the number of dropped bytes, the reader's memory, and the ring.
unfoldable pub read_impl :
    UserCopy
    → Option RingBuffer
    → Option (List ℕ)
    → ℕ
    → Bool
    → Run (ℕ × Option (List ℕ) × RingBuffer)
read_impl uc none dst buflen user = fault
read_impl uc (some r) none buflen user = ok (buflen, none, r)
read_impl uc (some r) (some dst) buflen user = do
  held ← mutex_lock r.mx
  let split = read_split r buflen
  let dropped = sub32 (sub32 buflen split.0) split.1
  idx ← rem32 (add32 (add32 r.read_idx split.0) split.1) r.size
  (out, dropped') ← fetch uc user r dst split.0 split.1 dropped
  mx ← mutex_unlock held
  ok (dropped', some out, record r { read_idx = idx; mx = mx })

module _ (uc : UserCopy) where
  unfoldable pub ring_buffer_write : Option RingBuffer → Option (List ℕ) → ℕ → Run (ℕ × RingBuffer)
  unfolding write_impl
  ring_buffer_write r src buflen = write_impl uc r src buflen false

  unfoldable pub ring_buffer_copy_from_user :
      Option RingBuffer → Option (List ℕ) → ℕ → Run (ℕ × RingBuffer)
  unfolding write_impl
  ring_buffer_copy_from_user r src buflen = write_impl uc r src buflen true

  unfoldable pub ring_buffer_read :
      Option RingBuffer → Option (List ℕ) → ℕ → Run (ℕ × Option (List ℕ) × RingBuffer)
  unfolding read_impl
  ring_buffer_read r dst buflen = read_impl uc r dst buflen false

  unfoldable pub ring_buffer_copy_to_user :
      Option RingBuffer → Option (List ℕ) → ℕ → Run (ℕ × Option (List ℕ) × RingBuffer)
  unfolding read_impl
  ring_buffer_copy_to_user r dst buflen = read_impl uc r dst buflen true

-- Both queries dereference their argument unchecked.
unfoldable pub ring_buffer_n_bytes_readable : RingBuffer → ℕ
ring_buffer_n_bytes_readable r =
    if ltb r.write_idx r.read_idx
    then sub32 r.size (sub32 r.read_idx r.write_idx)
    else sub32 r.write_idx r.read_idx

unfoldable pub ring_buffer_n_bytes_writable : RingBuffer → ℕ
ring_buffer_n_bytes_writable r =
    if ltb r.write_idx r.read_idx
    then sub32 r.read_idx r.write_idx
    else sub32 r.size (sub32 r.write_idx r.read_idx)
