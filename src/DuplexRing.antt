-- ===== src/DuplexRing.antt =====
-- src/utils/duplex_ring_buffer.c and duplex_ring_buffer.h: two rings, and two ends that write to
-- one of them and read from the other.
pub mod Transfer
pub mod Lifetime
use pcm3060_kernelmodule.Prelude.{ℕ, Option, none, some, List}
use pcm3060_kernelmodule.Kernel.Run.{Run, ok, ◌>>=◌}
use pcm3060_kernelmodule.Kernel.User.{UserCopy}
use pcm3060_kernelmodule.Ring.{
  RingBuffer, ring_buffer_write, ring_buffer_read, ring_buffer_copy_from_user,
  ring_buffer_copy_to_user, ring_buffer_n_bytes_readable, ring_buffer_n_bytes_writable,
}

-- The `ring_buffer_t *` that an end can hold.
pub data RingPtr : Type 0 where
  a_ptr b_ptr : RingPtr

-- `_duplex_ring_buffer_impl_t`: the two rings that the pointers reach.
pub record DuplexRings : Type 0 where
  pub buffer_a : RingBuffer
  pub buffer_b : RingBuffer

-- `duplex_ring_end_t`
pub record DuplexRingEnd : Type 0 where
  pub read_buffer : RingPtr
  pub write_buffer : RingPtr

abbrev pub deref : DuplexRings → RingPtr → RingBuffer
deref d a_ptr = d.buffer_a
deref d b_ptr = d.buffer_b

abbrev pub assign : DuplexRings → RingPtr → RingBuffer → DuplexRings
assign d a_ptr r = record d { buffer_a = r }
assign d b_ptr r = record d { buffer_b = r }

-- The arguments of `_get_duplex_ring_end` in `get_duplex_ring_buffer`: what the left end writes the
-- right end reads, and the other way round.
abbrev pub left_end : DuplexRingEnd
left_end = record { read_buffer = b_ptr; write_buffer = a_ptr }

abbrev pub right_end : DuplexRingEnd
right_end = record { read_buffer = a_ptr; write_buffer = b_ptr }

module _ (uc : UserCopy) (d : DuplexRings) where
  unfoldable pub duplex_ring_end_copy_from_user :
      Option DuplexRingEnd → Option (List ℕ) → ℕ → Run (ℕ × DuplexRings)
  duplex_ring_end_copy_from_user none src buflen = ok (buflen, d)
  duplex_ring_end_copy_from_user (some e) src buflen = do
    (dropped, r) ← ring_buffer_copy_from_user uc (some (deref d e.write_buffer)) src buflen
    ok (dropped, assign d e.write_buffer r)

  unfoldable pub duplex_ring_end_copy_to_user :
      Option DuplexRingEnd → Option (List ℕ) → ℕ → Run (ℕ × Option (List ℕ) × DuplexRings)
  duplex_ring_end_copy_to_user none dst buflen = ok (buflen, dst, d)
  duplex_ring_end_copy_to_user (some e) dst buflen = do
    (dropped, out, r) ← ring_buffer_copy_to_user uc (some (deref d e.read_buffer)) dst buflen
    ok (dropped, out, assign d e.read_buffer r)

  -- A NULL end is answered by 0, as if nothing were dropped.
  unfoldable pub duplex_ring_end_read :
      Option DuplexRingEnd → Option (List ℕ) → ℕ → Run (ℕ × Option (List ℕ) × DuplexRings)
  duplex_ring_end_read none dst buflen = ok (0, dst, d)
  duplex_ring_end_read (some e) dst buflen = do
    (dropped, out, r) ← ring_buffer_read uc (some (deref d e.read_buffer)) dst buflen
    ok (dropped, out, assign d e.read_buffer r)

  unfoldable pub duplex_ring_end_write :
      Option DuplexRingEnd → Option (List ℕ) → ℕ → Run (ℕ × DuplexRings)
  duplex_ring_end_write none src buflen = ok (0, d)
  duplex_ring_end_write (some e) src buflen = do
    (dropped, r) ← ring_buffer_write uc (some (deref d e.write_buffer)) src buflen
    ok (dropped, assign d e.write_buffer r)

unfoldable pub duplex_ring_end_n_bytes_readable : DuplexRings → Option DuplexRingEnd → ℕ
duplex_ring_end_n_bytes_readable d none = 0
duplex_ring_end_n_bytes_readable d (some e) = ring_buffer_n_bytes_readable (deref d e.read_buffer)

unfoldable pub duplex_ring_end_n_bytes_writable : DuplexRings → Option DuplexRingEnd → ℕ
duplex_ring_end_n_bytes_writable d none = 0
duplex_ring_end_n_bytes_writable d (some e) = ring_buffer_n_bytes_writable (deref d e.write_buffer)
