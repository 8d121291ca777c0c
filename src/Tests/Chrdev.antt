-- ===== src/Tests/Chrdev.antt =====
-- The left channel's file on a configured device, the attributes, and the module's registration.
use pcm3060_kernelmodule.Prelude.{
  ℕ, ◌+◌, ◌≡◌, inl, refl, true, none, some, List, [], ◌∷◌, ◌++◌, arith, length, take, drop, slice,
  ◌==◌, if◌then◌else◌,
}
use pcm3060_kernelmodule.Prelude.Words.{sub32}
use pcm3060_kernelmodule.Kernel.Run.{ok}
use pcm3060_kernelmodule.Kernel.Alloc.{Ptr}
use pcm3060_kernelmodule.Kernel.Platform.{neg32, einval, null}
use pcm3060_kernelmodule.Ring.{ring_buffer_n_bytes_readable, ring_buffer_n_bytes_writable}
use pcm3060_kernelmodule.Ring.Contents.{contents, FitsInOnePiece}
use pcm3060_kernelmodule.Ring.Lifetime.{RingObject}
use pcm3060_kernelmodule.DuplexRing.{DuplexRings, left_end, right_end}
use pcm3060_kernelmodule.DuplexRing.Transfer.{IsValidPair, left, right, incoming}
use pcm3060_kernelmodule.DuplexRing.Lifetime.{DuplexObject}
use pcm3060_kernelmodule.Transceiver.{Transceiver}
use pcm3060_kernelmodule.Chrdev.{
  Chrdev, left_channel, File, pcm3060_cfg_defaults, set_rings, right_channel, set_pcm3060,
  chrdev_pcm3060_open, chrdev_pcm3060_release, chrdev_pcm3060_read, chrdev_pcm3060_write,
}
use pcm3060_kernelmodule.Chrdev.Open.{open_release_counts}
use pcm3060_kernelmodule.Tests.Platform.{platform}
use pcm3060_kernelmodule.Chrdev.Transfer.{IsOpen, write_queues, read_returns_lost}
use pcm3060_kernelmodule.Prelude.{min}
use pcm3060_kernelmodule.Transceiver.Oldest.{channel_sends_oldest}
use pcm3060_kernelmodule.Chrdev.Session.{Session, write, load, Session-order}
use pcm3060_kernelmodule.Chrdev.Sysfs.{Text, sample_rate_show, sample_rate_store, rate_never_set}
use pcm3060_kernelmodule.Chrdev.Registry.{Registry}
use pcm3060_kernelmodule.Tests.Instances.{
  plain_copy, list_allocator, limited_allocator, list_controller, no_messages,
}
use pcm3060_kernelmodule.Tests.DuplexRing.{ring, ring-IsValid}
use pcm3060_kernelmodule.Tests.Transceiver.{transceiver-CanSend}
use pcm3060_kernelmodule.Tests.Pcm.{closed}

-- Nothing waits for the transceiver, and three bytes for the file.
abbrev quiet : DuplexRings
quiet = record { buffer_a = ring 1; buffer_b = ring 4 }

quiet-IsValidPair : IsValidPair quiet
quiet-IsValidPair = record {
  valid_a = ring-IsValid 1 (omega arith);
  valid_b = ring-IsValid 4 (omega arith);
}

abbrev ring_object : RingObject
ring_object = record { self = 61; impl_p = 62; buf_p = 63; ring = ring 1 }

abbrev buffer : DuplexObject
buffer = record {
  self = 60;
  size = 16;
  left_end = record { self = 64; ring_end = left_end };
  right_end = record { self = 65; ring_end = right_end };
  impl = record { self = 66; buffer_a = ring_object; buffer_b = ring_object };
}

abbrev device : Chrdev
device = record {
  pcm3060_cfg = pcm3060_cfg_defaults;
  left_file = some 50;
  right_file = none;
  device = record closed {
    pcm3060_ext = some 50;
    refcount = 1;
    left_chan_buffer = some buffer;
    rings = record { left_chan = quiet; right_chan = quiet };
  };
}

abbrev file : File
file = record { private_data = some left_channel; f_pos = 7 }

abbrev heap : List Ptr
heap = 50 ∷ 60 ∷ []

file-IsOpen : IsOpen list_allocator file left_channel device heap
file-IsOpen = record {
  pointer = 50;
  buffer = buffer;
  data_of = refl;
  device = refl;
  device_live = refl;
  has_buffer = refl;
  buffer_live = refl;
  crossed = refl;
}

quiet_fits : FitsInOnePiece (ring 1) 2
unfolding ring_buffer_n_bytes_writable sub32
quiet_fits = record { room = omega arith; ahead = omega arith }

quiet_empty : incoming quiet right ≡ []
unfolding contents slice
quiet_empty = refl

quiet_readable : ring_buffer_n_bytes_readable (ring 4) ≡ 3
unfolding ring_buffer_n_bytes_readable sub32
quiet_readable = refl

abbrev bytes : List ℕ
bytes = 20 ∷ 21 ∷ []

write_queues_example :
    let (arrived, lost) = plain_copy.from_user bytes 2 in
    (d : DuplexRings) × (chrdev_pcm3060_write list_allocator plain_copy file
        (some bytes)
        2
        device
        heap
      ≡ (if lost == 0
          then ok ((2, record file { f_pos = 9 }, set_rings left_channel d device), heap)
          else ok ((0, file, set_rings left_channel d device), heap)))
    × IsValidPair d
    × (incoming d right ≡ incoming quiet right ++ arrived)
    × (incoming d left ≡ incoming quiet left)
    × (length arrived ≡ 2)
    × (lost ≡ 0 → arrived ≡ take 2 bytes)
    × (d.buffer_a.read_idx ≡ 1)
    × (d.buffer_a.size ≡ 8)
write_queues_example =
    write_queues list_allocator plain_copy bytes 2 file-IsOpen quiet-IsValidPair quiet_fits
      (omega arith)

-- Two bytes are written, and the transceiver takes what waits.
one_write :
    (d : DuplexRings) × (d' : DuplexRings) × (t' : Transceiver) × Session list_allocator
      list_controller plain_copy left_channel heap file device
      ((plain_copy.from_user bytes 2).0 ++ [])
      (take (min (length (incoming d right)) 3) t'.mem_tx ++ [])
      (set_rings left_channel d' (set_rings left_channel d device))
one_write =
    let (d, called, valid, _, _, _, _, idx, size) = write_queues_example in
    let (d', t', sent, _, _, _) =
      channel_sends_oldest list_controller plain_copy no_messages 9 valid transceiver-CanSend
        (omega (arith, idx, size)) in
    (
      d,
      d',
      t',
      write bytes 2 quiet_fits (omega arith) called
          (load no_messages 9 transceiver-CanSend (omega (arith, idx, size)) sent Session.done),
    )

Session-order_example :
    let s' = set_rings left_channel one_write.1 (set_rings left_channel one_write.0 device) in
    let t' = one_write.2 in
    (incoming quiet right ++ ((plain_copy.from_user bytes 2).0 ++ [])
      ≡ (take (min (length (incoming one_write.0 right)) 3) t'.mem_tx ++ [])
        ++ incoming s'.device.rings.left_chan right)
    × IsValidPair s'.device.rings.left_chan
Session-order_example =
    Session-order list_controller plain_copy one_write.3 file-IsOpen quiet-IsValidPair

read_returns_lost_example :
    let (out, lost) = plain_copy.to_user (0 ∷ 0 ∷ []) (take 2 (incoming quiet left)) in
    (d : DuplexRings) × (chrdev_pcm3060_read list_allocator plain_copy file
        (some (0 ∷ 0 ∷ []))
        2
        device
        heap
      ≡ ok (
        (lost, some out, record file { f_pos = 7 + lost }, set_rings left_channel d device),
        heap,
      ))
    × IsValidPair d
    × (incoming d left ≡ drop 2 (incoming quiet left))
    × (incoming d right ≡ incoming quiet right)
read_returns_lost_example =
    read_returns_lost list_allocator plain_copy (0 ∷ 0 ∷ []) 2 file-IsOpen quiet-IsValidPair
      (omega (arith, quiet_readable)) (omega arith) (omega arith)

-- A scanner that reads one digit and ignores the rest.
abbrev one_digit : Text
one_digit = record {
  sprintf_d = λ n. n ∷ 10 ∷ [];
  sscanf_d = λ buf. (1, 5);
  sscanf_ret = λ buf. inl (omega arith);
  sscanf_short = λ buf h e. inl (omega arith);
}

rate_never_set_example :
    (sample_rate_store one_digit (52 ∷ 52 ∷ 49 ∷ 48 ∷ 48 ∷ []) 5 device ≡ (neg32 einval, device))
    × (sample_rate_show one_digit
          (sample_rate_store one_digit (52 ∷ 52 ∷ 49 ∷ 48 ∷ 48 ∷ []) 5 device).1
        ≡ sample_rate_show one_digit device)
rate_never_set_example =
    rate_never_set one_digit (52 ∷ 52 ∷ 49 ∷ 48 ∷ 48 ∷ []) device (omega arith) (omega arith)

abbrev unregistered : Registry
unregistered = record {
  major = 0;
  chrdev_class = null;
  channels = [];
  regions = [];
  classes = [];
  cdevs = [];
  nodes = [];
}

-- The device object is there, its configuration is not, and there is no room for it.
abbrev configless : Chrdev
configless = record device { device = record device.device { config = none } }

open_release_counts_example :
    (chrdev_pcm3060_open
        (limited_allocator 1)
        platform
        true
        right_channel
        (some file)
        configless
        heap
      ≡ ok (
        (
          neg32 1,
          some (record file { private_data = some right_channel }),
          set_pcm3060 right_channel
              (some 50)
              (record configless.device { refcount = 2 })
              configless,
        ),
        heap,
      ))
    × (chrdev_pcm3060_release
          (limited_allocator 1)
          true
          (record file { private_data = some right_channel })
          (set_pcm3060 right_channel
            (some 50)
            (record configless.device { refcount = 2 })
            configless)
          heap
        ≡ ok ((0, set_pcm3060 right_channel (some 50) configless.device configless), heap))
open_release_counts_example =
    open_release_counts (limited_allocator 1) platform true right_channel file configless heap
      (record { pointer = refl; some_refs = omega arith; few_refs = omega arith }) refl (λ e. refl)
