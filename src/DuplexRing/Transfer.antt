-- ===== src/DuplexRing/Transfer.antt =====
-- The two directions of a duplex ring: each end reads what the other writes, and nothing else.
use pcm3060_kernelmodule.Prelude.{ℕ, ◌-◌, ◌≤◌, ◌≡◌, refl, List, ◌++◌, some, length, take, drop}
use pcm3060_kernelmodule.Kernel.Run.{ok}
use pcm3060_kernelmodule.Kernel.User.{UserCopy}
use pcm3060_kernelmodule.Ring.Bounds.{IsValid}
use pcm3060_kernelmodule.Ring.Contents.{contents, FitsInOnePiece}
use pcm3060_kernelmodule.Ring.Queue.{write_enqueues, read_dequeues}
use pcm3060_kernelmodule.DuplexRing.{
  DuplexRings, DuplexRingEnd, deref, left_end, right_end, duplex_ring_end_write,
  duplex_ring_end_read, duplex_ring_end_n_bytes_readable,
}

pub record IsValidPair (d : DuplexRings) : Type 0 where
  pub valid_a : IsValid d.buffer_a
  pub valid_b : IsValid d.buffer_b

-- One of the two ends.
pub data Side : Type 0 where
  left right : Side

abbrev pub end_of : Side → DuplexRingEnd
end_of left = left_end
end_of right = right_end

abbrev pub other : Side → Side
other left = right
other right = left

-- The bytes on their way to an end.
abbrev pub incoming : DuplexRings → Side → List ℕ
incoming d s = contents (deref d (end_of s).read_buffer)

-- With both rings valid, a write through one end, of `n` bytes that fit in one piece, drops none,
-- adds exactly those bytes to what the other end has to read, and leaves what the writing end itself
-- has to read; both rings stay valid.
pub write_reaches_other_end :
    (uc : UserCopy) {d : DuplexRings} (s : Side) (src : List ℕ) (n : ℕ)
    → IsValidPair d
    → FitsInOnePiece (deref d (end_of s).write_buffer) n
    → n ≤ length src
    → (d' : DuplexRings) × (duplex_ring_end_write uc d (some (end_of s)) (some src) n ≡ ok (0, d'))
      × IsValidPair d'
      × (incoming d' (other s) ≡ incoming d (other s) ++ take n src)
      × (incoming d' s ≡ incoming d s)
unfolding duplex_ring_end_write
write_reaches_other_end uc {d} left src n v f h =
    let (r, e, valid, holds) = write_enqueues uc src n v.valid_a f h in
    (record d { buffer_a = r }, rw e, record { valid_a = valid; valid_b = v.valid_b }, holds, refl)
write_reaches_other_end uc {d} right src n v f h =
    let (r, e, valid, holds) = write_enqueues uc src n v.valid_b f h in
    (record d { buffer_b = r }, rw e, record { valid_a = v.valid_a; valid_b = valid }, holds, refl)

-- With both rings valid, a read through one end, of `n` bytes that it has to read in one piece,
-- hands out the oldest `n`, removes them, and leaves what the other end has to read; both rings stay
-- valid.
pub read_takes_incoming :
    (uc : UserCopy) {d : DuplexRings} (s : Side) (dst : List ℕ) (n : ℕ)
    → IsValidPair d
    → n ≤ duplex_ring_end_n_bytes_readable d (some (end_of s))
    → (let r = deref d (end_of s).read_buffer in n ≤ r.size - r.read_idx)
    → n ≤ length dst
    → (d' : DuplexRings) × (duplex_ring_end_read uc d (some (end_of s)) (some dst) n
        ≡ ok (0, some (take n (incoming d s) ++ drop n dst), d'))
      × IsValidPair d'
      × (incoming d' s ≡ drop n (incoming d s))
      × (incoming d' (other s) ≡ incoming d (other s))
unfolding duplex_ring_end_read duplex_ring_end_n_bytes_readable
read_takes_incoming uc {d} left dst n v h one k =
    let (r, e, valid, holds) = read_dequeues uc dst n v.valid_b h one k in
    (record d { buffer_b = r }, rw e, record { valid_a = v.valid_a; valid_b = valid }, holds, refl)
read_takes_incoming uc {d} right dst n v h one k =
    let (r, e, valid, holds) = read_dequeues uc dst n v.valid_a h one k in
    (record d { buffer_a = r }, rw e, record { valid_a = valid; valid_b = v.valid_b }, holds, refl)
