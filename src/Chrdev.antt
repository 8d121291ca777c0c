-- ===== src/Chrdev.antt =====
-- src/chrdev_pcm3060.c: one character device per channel, over the device object.
pub mod Sysfs
pub mod Registry
pub mod Open
pub mod Transfer
pub mod Session
use pcm3060_kernelmodule.Prelude.{
  ℕ, zero, suc, ◌+◌, ◌%◌, ◌^◌, Bool, true, false, Option, none, some, List, ◌==◌, if◌then◌else◌,
}
use pcm3060_kernelmodule.Config.{default_fs_hz, default_buf_size}
use pcm3060_kernelmodule.Kernel.Run.{Run}
use pcm3060_kernelmodule.Kernel.User.{UserCopy}
use pcm3060_kernelmodule.Kernel.Alloc.{Ptr, Allocator, Mem, lift, pure, ◌>>=◌, ◌>>◌}
use pcm3060_kernelmodule.Kernel.Platform.{neg32, Platform}
use pcm3060_kernelmodule.DuplexRing.{
  DuplexRings, DuplexRingEnd, duplex_ring_end_copy_from_user, duplex_ring_end_copy_to_user,
}
use pcm3060_kernelmodule.Transceiver.{Rings}
use pcm3060_kernelmodule.Pcm.{
  Pcm3060Config, Pcm3060, access, configure_pcm3060, get_channel_buffer_end, get_pcm3060,
  put_pcm3060,
}

-- `pcm3060_cfg_defaults`
abbrev pub pcm3060_cfg_defaults : Pcm3060Config
pcm3060_cfg_defaults = record { fs = default_fs_hz; buf_size = default_buf_size }

-- `_chrdev_pcm3060_dev_data`, the `pcm3060` pointers of `_chrdev_pcm3060_file_data_array`, and the
-- device object. The channel of each entry is its index.
pub record Chrdev : Type 0 where
  pub pcm3060_cfg : Pcm3060Config
  pub left_file : Option Ptr
  pub right_file : Option Ptr
  pub device : Pcm3060

-- `struct file`: `private_data` names an entry of the array, which there are two of.
pub data Channel : Type 0 where
  left_channel right_channel : Channel

pub record File : Type 0 where
  pub private_data : Option Channel
  pub f_pos : ℕ

abbrev pub number : Channel → ℕ
number left_channel = 0
number right_channel = 1

abbrev pub pcm3060 : Channel → Chrdev → Option Ptr
pcm3060 left_channel s = s.left_file
pcm3060 right_channel s = s.right_file

abbrev pub set_pcm3060 : Channel → Option Ptr → Pcm3060 → Chrdev → Chrdev
set_pcm3060 left_channel p d s = record s { left_file = p; device = d }
set_pcm3060 right_channel p d s = record s { right_file = p; device = d }

abbrev pub set_device : Pcm3060 → Chrdev → Chrdev
set_device d s = record s { device = d }

-- The rings of a channel.
abbrev pub channel_rings : Channel → Chrdev → DuplexRings
channel_rings left_channel s = s.device.rings.left_chan
channel_rings right_channel s = s.device.rings.right_chan

abbrev pub set_rings : Channel → DuplexRings → Chrdev → Chrdev
set_rings left_channel d s =
    set_device (record s.device { rings = record s.device.rings { left_chan = d } }) s
set_rings right_channel d s =
    set_device (record s.device { rings = record s.device.rings { right_chan = d } }) s

-- `chrdev_pcm3060_ioctl`: no command does anything.
unfoldable pub chrdev_pcm3060_ioctl : File → ℕ → ℕ → Chrdev → ℕ × Chrdev
chrdev_pcm3060_ioctl file cmd arg s = (0, s)

module _ (al : Allocator) where
  -- `chrdev_pcm3060_open` for the node of a channel; the flags say whether `node` and `file` are given.
  -- A failed initialisation keeps the reference.
  unfoldable pub chrdev_pcm3060_open :
      Platform → Bool → Channel → Option File → Chrdev → Mem al (ℕ × Option File × Chrdev)
  chrdev_pcm3060_open pl true c (some file) s = do
    got ← get_pcm3060 al pl s.device
    let s' = set_pcm3060 c got.0 got.1 s
    let file' = some (record file { private_data = some c })
    elim got.0 [
      | none ↦ pure (neg32 1, file', s')
      | some p ↦ (do
        access al (some p)
        done ← configure_pcm3060 al pl (some s'.pcm3060_cfg) s'.device
        pure (done.0, file', set_device done.1 s'))
    ]
  chrdev_pcm3060_open pl _ c file s = pure (neg32 1, file, s)

  -- `chrdev_pcm3060_release`; the flag says whether the transceiver's thread ever ran.
  unfoldable pub chrdev_pcm3060_release : Bool → File → Chrdev → Mem al (ℕ × Chrdev)
  chrdev_pcm3060_release ran file s = elim file.private_data [
    | none ↦ pure (0, s)
    | some c ↦ elim (pcm3060 c s) [
      | none ↦ pure (0, s)
      | some p ↦ do d ← put_pcm3060 al ran (some p) s.device; pure (0, set_device d s)
    ]
  ]

  -- The end of the file's channel, through the file's pointer: `none` where the call gives up.
  unfoldable pub ring_end : File → Chrdev → Mem al (Option (Channel × DuplexRingEnd))
  ring_end file s = elim file.private_data [
    | none ↦ pure none
    | some c ↦ elim (pcm3060 c s) [
      | none ↦ pure none
      | some p ↦ do
        access al (some p)
        e ← get_channel_buffer_end al (number c) s.device
        elim e [ none ↦ pure none | some e ↦ pure (some (c, e)) ]
    ]
  ]

  module _ (uc : UserCopy) where
    -- `chrdev_pcm3060_read`, with `count` cut to an `unsigned int` by the call. It returns what the
    -- ring returns.
    unfoldable pub chrdev_pcm3060_read :
        File → Option (List ℕ) → ℕ → Chrdev → Mem al (ℕ × Option (List ℕ) × File × Chrdev)
    chrdev_pcm3060_read file buf count s = do
      found ← ring_end file s
      elim found [
        | none ↦ pure (0, buf, file, s)
        | some (c, e) ↦ do
          x ←
              lift
                (duplex_ring_end_copy_to_user uc (channel_rings c s) (some e) buf (count % 2 ^ 32))
          pure (x.0, x.1, record file { f_pos = file.f_pos + x.0 }, set_rings c x.2 s)
      ]

    -- `chrdev_pcm3060_write`: 0 if any byte is dropped.
    unfoldable pub chrdev_pcm3060_write :
        File → Option (List ℕ) → ℕ → Chrdev → Mem al (ℕ × File × Chrdev)
    chrdev_pcm3060_write file buf count s = do
      found ← ring_end file s
      elim found [
        | none ↦ pure (0, file, s)
        | some (c, e) ↦ do
          x ←
              lift (
                duplex_ring_end_copy_from_user uc (channel_rings c s) (some e) buf (count % 2 ^ 32))
          let s' = set_rings c x.1 s
          if x.0 == 0
              then pure (count, record file { f_pos = file.f_pos + count }, s')
              else pure (0, file, s')
      ]
