-- ===== src/Tests/DuplexRing.antt =====
-- Two empty rings of eight bytes, one of them with three bytes on their way to the right end.
use pcm3060_kernelmodule.Prelude.{ℕ, ◌≤◌, ◌≡◌, refl, [], ◌∷◌, ◌++◌, false, some, arith, take}
use pcm3060_kernelmodule.Prelude.Words.{sub32}
use pcm3060_kernelmodule.Kernel.Run.{ok}
use pcm3060_kernelmodule.Ring.{
  RingBuffer, ring_buffer_n_bytes_readable, ring_buffer_n_bytes_writable,
}
use pcm3060_kernelmodule.Ring.Bounds.{IsValid}
use pcm3060_kernelmodule.Ring.Contents.{FitsInOnePiece}
use pcm3060_kernelmodule.DuplexRing.{
  DuplexRings, duplex_ring_end_write, duplex_ring_end_n_bytes_readable,
}
use pcm3060_kernelmodule.DuplexRing.Transfer.{
  IsValidPair, left, right, end_of, incoming, write_reaches_other_end,
}
use pcm3060_kernelmodule.Tests.Instances.{plain_copy}

abbrev pub ring : ℕ → RingBuffer
ring w = record {
  size = 8;
  buf = 10 ∷ 11 ∷ 12 ∷ 13 ∷ 14 ∷ 15 ∷ 16 ∷ 17 ∷ [];
  read_idx = 1;
  write_idx = w;
  mx = false;
}

pub ring-IsValid : (w : ℕ) → w ≤ 7 → IsValid (ring w)
ring-IsValid w h = record {
  storage = refl;
  small = omega arith;
  read_in = omega arith;
  write_in = omega arith;
  idle = refl;
}

abbrev pub rings : DuplexRings
rings = record { buffer_a = ring 4; buffer_b = ring 1 }

pub rings-IsValidPair : IsValidPair rings
rings-IsValidPair = record {
  valid_a = ring-IsValid 4 (omega arith);
  valid_b = ring-IsValid 1 (omega arith);
}

ring_fits : FitsInOnePiece (ring 4) 2
unfolding ring_buffer_n_bytes_writable sub32
ring_fits = record { room = omega arith; ahead = omega arith }

right_readable : duplex_ring_end_n_bytes_readable rings (some (end_of right)) ≡ 3
unfolding duplex_ring_end_n_bytes_readable ring_buffer_n_bytes_readable sub32
right_readable = omega arith

-- The left end writes two bytes after the three.
write_reaches_other_end_example :
    (d' : DuplexRings) × (duplex_ring_end_write plain_copy rings
        (some (end_of left))
        (some (20 ∷ 21 ∷ []))
        2
      ≡ ok (0, d'))
    × IsValidPair d'
    × (incoming d' right ≡ incoming rings right ++ take 2 (20 ∷ 21 ∷ []))
    × (incoming d' left ≡ incoming rings left)
write_reaches_other_end_example =
    write_reaches_other_end plain_copy left (20 ∷ 21 ∷ []) 2 rings-IsValidPair ring_fits
      (omega arith)
