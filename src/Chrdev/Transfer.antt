-- ===== src/Chrdev/Transfer.antt =====
-- chrdev_pcm3060_read and chrdev_pcm3060_write on an open file.
use pcm3060_kernelmodule.Prelude.{
  ℕ, ◌+◌, ◌-◌, ◌%◌, ◌^◌, ◌≤◌, ◌<◌, ◌≡◌, refl, sym, subst, ◌∙◌, true, Option, some, List, ◌++◌,
  arith, length, take, drop, take-all, ◌==◌, if◌then◌else◌, Bool-cases, inl, inr,
}
use pcm3060_kernelmodule.Prelude.Words.{mod_below}
use pcm3060_kernelmodule.Kernel.Run.{ok}
use pcm3060_kernelmodule.Kernel.User.{UserCopy}
use pcm3060_kernelmodule.Kernel.Alloc.{Ptr, Allocator}
use pcm3060_kernelmodule.Ring.{ring_buffer_n_bytes_readable}
use pcm3060_kernelmodule.Ring.Contents.{FitsInOnePiece, contents-append}
use pcm3060_kernelmodule.Ring.Queue.{appended, appended-IsValid}
use pcm3060_kernelmodule.Ring.User.{user_write_appended, user_read_dequeues}
use pcm3060_kernelmodule.DuplexRing.{
  DuplexRings, left_end, duplex_ring_end_copy_from_user, duplex_ring_end_copy_to_user,
}
use pcm3060_kernelmodule.DuplexRing.Transfer.{IsValidPair, left, right, incoming}
use pcm3060_kernelmodule.DuplexRing.Lifetime.{DuplexObject}
use pcm3060_kernelmodule.Pcm.{access, access_buffer, get_channel_buffer_end}
use pcm3060_kernelmodule.Chrdev.{
  Chrdev, Channel, left_channel, right_channel, File, number, pcm3060, channel_rings, set_rings,
  ring_end, chrdev_pcm3060_read, chrdev_pcm3060_write,
}

abbrev pub channel_buffer : Channel → Chrdev → Option DuplexObject
channel_buffer left_channel s = s.device.left_chan_buffer
channel_buffer right_channel s = s.device.right_chan_buffer

-- The file is open on a configured device: its pointer and its channel's buffer are live.
pub record IsOpen (al : Allocator) (file : File) (c : Channel) (s : Chrdev) (h : al.Heap)
    : Type 0 where
  pub pointer : Ptr
  pub buffer : DuplexObject
  pub data_of : file.private_data ≡ some c
  pub device : pcm3060 c s ≡ some pointer
  pub device_live : al.live h pointer ≡ true
  pub has_buffer : channel_buffer c s ≡ some buffer
  pub buffer_live : al.live h buffer.self ≡ true
  pub crossed : buffer.left_end.ring_end ≡ left_end

pub channel_rings-set :
    (c : Channel) (d : DuplexRings) (s : Chrdev) → channel_rings c (set_rings c d s) ≡ d
channel_rings-set left_channel d s = refl
channel_rings-set right_channel d s = refl

module _ (al : Allocator) where
  open al use {Heap}

  buffer_end :
      (c : Channel) (s : Chrdev) (o : DuplexObject) (h : Heap)
      → channel_buffer c s ≡ some o
      → al.live h o.self ≡ true
      → get_channel_buffer_end al (number c) s.device h ≡ ok (some o.left_end.ring_end, h)
  unfolding get_channel_buffer_end access_buffer
  buffer_end left_channel s o h e l = rw (e, l) refl
  buffer_end right_channel s o h e l = rw (e, l) refl

  ring_end-IsOpen :
      {file : File} {c : Channel} {s : Chrdev} {h : Heap}
      → IsOpen al file c s h
      → ring_end al file s h ≡ ok (some (c, left_end), h)
  unfolding ring_end access
  ring_end-IsOpen {file} {c} {s} {h} v =
      rw
        (
          ring_end,
          v.data_of,
          v.device,
          v.device_live,
          buffer_end c s v.buffer h v.has_buffer v.buffer_live,
          v.crossed,
        )
        refl

  module _ (uc : UserCopy) where
    write_through :
        (file : File) (s : Chrdev) {c : Channel} {h : Heap} {dropped : ℕ} {d : DuplexRings}
        (src : List ℕ) (n : ℕ)
        → ring_end al file s h ≡ ok (some (c, left_end), h)
        → n < 2 ^ 32
        → duplex_ring_end_copy_from_user uc (channel_rings c s) (some left_end) (some src) n
          ≡ ok (dropped, d)
        → chrdev_pcm3060_write al uc file (some src) n s h ≡ (
            if dropped == 0
            then ok ((n, record file { f_pos = file.f_pos + n }, set_rings c d s), h)
            else ok ((0, file, set_rings c d s), h))
    unfolding chrdev_pcm3060_write
    write_through file s {dropped = dropped} src n e small done =
        let same : n % 2 ^ 32 ≡ n = mod_below small in
        rw (e, same, done)
          (elim (Bool-cases (dropped == 0)) [ inl all ↦ rw all refl | inr lost ↦ rw lost refl ])

    -- `chrdev_pcm3060_write` of `n` bytes that fit in one piece of the channel's ring: `n` bytes are
    -- added to what the transceiver has to read, in any case. If the user copy left none out they are
    -- the bytes written, and the call returns `n` and moves the position by `n`; otherwise it returns 0
    -- and the position stays, though the bytes are queued.
    pub write_queues :
        {file : File} {c : Channel} {s : Chrdev} {h : Heap} (src : List ℕ) (n : ℕ)
        → IsOpen al file c s h
        → IsValidPair (channel_rings c s)
        → FitsInOnePiece (channel_rings c s).buffer_a n
        → n < 2 ^ 32
        → let (arrived, lost) = uc.from_user src n in
          (d : DuplexRings) × (chrdev_pcm3060_write al uc file (some src) n s h ≡ (
            if lost == 0
            then ok ((n, record file { f_pos = file.f_pos + n }, set_rings c d s), h)
            else ok ((0, file, set_rings c d s), h)))
          × IsValidPair d
          × (incoming d right ≡ incoming (channel_rings c s) right ++ arrived)
          × (incoming d left ≡ incoming (channel_rings c s) left)
          × (length arrived ≡ n)
          × (lost ≡ 0 → arrived ≡ take n src)
          × (d.buffer_a.read_idx ≡ (channel_rings c s).buffer_a.read_idx)
          × (d.buffer_a.size ≡ (channel_rings c s).buffer_a.size)
    unfolding duplex_ring_end_copy_from_user
    write_queues {file} {c} {s} src n open_file v fits small =
        let d = channel_rings c s in
        let (arrived, lost) = uc.from_user src n in
        let count = uc.from_length src n in
        (
          record d { buffer_a = appended d.buffer_a arrived },
          write_through file s src n (ring_end-IsOpen open_file) small
              (rw (user_write_appended uc src n v.valid_a fits) refl),
          record {
            valid_a = appended-IsValid arrived v.valid_a (ground (arith, count, fits));
            valid_b = v.valid_b;
          },
          contents-append arrived v.valid_a (ground (arith, count, fits)),
          refl,
          count,
          (λ none_lost.
              let whole : n - lost ≡ n = omega (arith, none_lost) in
              sym (take-all n arrived (omega (arith, count)))
              ∙ subst (λ k. take k arrived ≡ take k src) whole (uc.from_copied src n)),
          refl,
          refl,
        )

    -- `chrdev_pcm3060_read` of `n` bytes that are there in one piece hands them to the user copy, takes
    -- them out of the ring, and returns the number of bytes that the user copy left out: 0 when the
    -- read succeeds. It moves the position by that number.
    pub read_returns_lost :
        {file : File} {c : Channel} {s : Chrdev} {h : Heap} (dst : List ℕ) (n : ℕ)
        → IsOpen al file c s h
        → IsValidPair (channel_rings c s)
        → n ≤ ring_buffer_n_bytes_readable (channel_rings c s).buffer_b
        → n ≤ (channel_rings c s).buffer_b.size - (channel_rings c s).buffer_b.read_idx
        → n < 2 ^ 32
        → let (out, lost) = uc.to_user dst (take n (incoming (channel_rings c s) left)) in
          (d : DuplexRings) × (chrdev_pcm3060_read al uc file (some dst) n s h
            ≡ ok ((lost, some out, record file { f_pos = file.f_pos + lost }, set_rings c d s), h))
          × IsValidPair d
          × (incoming d left ≡ drop n (incoming (channel_rings c s) left))
          × (incoming d right ≡ incoming (channel_rings c s) right)
    unfolding chrdev_pcm3060_read duplex_ring_end_copy_to_user
    read_returns_lost {file} {c} {s} {h} dst n open_file v there one small =
        let d = channel_rings c s in
        let same : n % 2 ^ 32 ≡ n = mod_below small in
        let (r, done, valid, rest) = user_read_dequeues uc dst n v.valid_b there one in
        (
          record d { buffer_b = r },
          rw (ring_end-IsOpen open_file, same, done) refl,
          record { valid_a = v.valid_a; valid_b = valid },
          rest,
          refl,
        )
