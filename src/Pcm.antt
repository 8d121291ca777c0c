-- ===== src/Pcm.antt =====
-- src/periphery/pcm3060.c: the reference-counted device object, with its two channels' rings, the
-- clock and the transceiver. Two calls that overlap are not modelled.
pub mod References
pub mod Errors
pub mod Lifecycle
pub mod Overlap
use pcm3060_kernelmodule.Prelude.{
  ℕ, zero, suc, ◌^◌, Bool, true, false, ◌&&◌, Option, none, some, ltb, ◌==◌, if◌then◌else◌,
}
use pcm3060_kernelmodule.Prelude.Words.{add32, sub32}
use pcm3060_kernelmodule.Config.{clock_sck_f_hz, clock_bck_f_hz}
use pcm3060_kernelmodule.Kernel.Run
use pcm3060_kernelmodule.Kernel.Run.{Run, ok, fault, mutex_lock, mutex_unlock}
use pcm3060_kernelmodule.Kernel.Alloc.{
  Ptr, Allocator, Struct, Mem, malloc, free, lift, pure, ◌>>=◌, ◌>>◌,
}
use pcm3060_kernelmodule.Kernel.Platform.{neg32, Platform}
use pcm3060_kernelmodule.DuplexRing.{DuplexRings, DuplexRingEnd}
use pcm3060_kernelmodule.DuplexRing.Lifetime.{
  DuplexObject, get_duplex_ring_buffer, put_duplex_ring_buffer,
}
use pcm3060_kernelmodule.Devicetree.{dt_find_pcm3060_device}
use pcm3060_kernelmodule.Clock.{ClockGenerator, clock_generator_init, clock_generator_cleanup}
use pcm3060_kernelmodule.Transceiver.{Transceiver, Rings}
use pcm3060_kernelmodule.Transceiver.Setup.{tx_init, tx_cleanup}

-- `pcm3060_config_t`
pub record Pcm3060Config : Type 0 where
  pub fs : ℕ
  pub buf_size : ℕ

-- `_pcm3060_i` and `_pcm3060_mutex`, with what the pointers reach: the configuration, the bytes in the
-- rings, and the state of the clock and of the transceiver.
pub record Pcm3060 : Type 0 where
  pub pcm3060_ext : Option Ptr
  pub pdev : Option ℕ
  pub config : Option Ptr
  pub cfg : Pcm3060Config
  pub left_chan_buffer : Option DuplexObject
  pub right_chan_buffer : Option DuplexObject
  pub rings : Rings
  pub refcount : ℕ
  pub mutex : Bool
  pub clock : ClockGenerator
  pub tx : Transceiver

-- The rings of an object that was just allocated.
abbrev pub rings_of : DuplexObject → DuplexRings
rings_of o = record { buffer_a = o.impl.buffer_a.ring; buffer_b = o.impl.buffer_b.ring }

abbrev pub same_ptr : Option Ptr → Option Ptr → Bool
same_ptr none none = true
same_ptr (some p) (some q) = p == q
same_ptr _ _ = false

-- `_remove_pcm3060_device`; the flag says whether the thread ever ran. Both codes are 0.
unfoldable pub remove_pcm3060_device : Bool → Pcm3060 → Run Pcm3060
remove_pcm3060_device ran s =
    Run.◌>>=◌ (clock_generator_cleanup s.clock)
      λ x. Run.◌>>=◌ (tx_cleanup ran s.tx) λ y. ok (record s { clock = x.1; tx = y.1; pdev = none })

module _ (al : Allocator) where
  open al use {live, sizeof}

  -- An access through a pointer.
  unfoldable pub access : Option Ptr → Mem al (Unit {0})
  access none h = fault
  access (some p) h = if live h p then ok (tt, h) else fault

  -- The object that a channel's buffer pointer reaches.
  unfoldable pub access_buffer : Option DuplexObject → Mem al DuplexObject
  access_buffer none h = fault
  access_buffer (some o) h = if live h o.self then ok (o, h) else fault

  -- `_probe_pcm3060_device`
  unfoldable pub probe_pcm3060_device : Platform → Option ℕ → Pcm3060 → Mem al (ℕ × Pcm3060)
  probe_pcm3060_device pl pdev s = do
    c ← lift (clock_generator_init pl.pwm pdev (clock_sck_f_hz s.cfg.fs) s.clock)
    let s' = record s { clock = c.1 }
    let rest = (do
      l ← access_buffer s'.left_chan_buffer
      r ← access_buffer s'.right_chan_buffer
      t ← lift (
          tx_init pl pdev (some l.right_end.ring_end) (some r.right_end.ring_end)
            (clock_bck_f_hz s'.cfg.fs) s'.tx)
      pure (t.0, record s' { tx = t.1 }))
    if c.0 == 0 then rest else pure (c.0, s')

  -- `_configure_pcm3060`. The labels stand in the wrong order: without a left buffer the
  -- configuration is freed, without a right one only the left buffer is, and every pointer stays.
  unfoldable pub configure_pcm3060 :
      Platform → Option Pcm3060Config → Pcm3060 → Mem al (ℕ × Pcm3060)
  configure_pcm3060 pl none s = pure (neg32 1, s)
  configure_pcm3060 pl (some cfg) s = elim s.config [
    | some old ↦ pure (0, s)
    | none ↦ do
      config ← malloc al (sizeof Struct.pcm3060_config)
      elim config [
        | none ↦ pure (neg32 1, s)
        | some c ↦ do
          left ← get_duplex_ring_buffer al cfg.buf_size
          elim left [
            | none ↦ (do
              free al c.addr
              put_duplex_ring_buffer al none
              pure (neg32 1, record s { config = some c.addr; left_chan_buffer = none }))
            | some l ↦ do
              right ← get_duplex_ring_buffer al cfg.buf_size
              elim right [
                | none ↦ (do
                  put_duplex_ring_buffer al (some l)
                  pure (
                    neg32 1,
                    record s {
                      config = some c.addr;
                      left_chan_buffer = some l;
                      right_chan_buffer = none;
                    },
                  ))
                | some r ↦ probe_pcm3060_device pl s.pdev (record s {
                  config = some c.addr;
                  cfg = cfg;
                  left_chan_buffer = some l;
                  right_chan_buffer = some r;
                  rings = record { left_chan = rings_of l; right_chan = rings_of r };
                })
              ]
          ]
      ]
  ]

  -- `_pcm3060_get_channel_buffer_end`
  unfoldable pub get_channel_buffer_end : ℕ → Pcm3060 → Mem al (Option DuplexRingEnd)
  get_channel_buffer_end zero s = do
    l ← access_buffer s.left_chan_buffer
    pure (some l.left_end.ring_end)
  get_channel_buffer_end (suc zero) s = do
    r ← access_buffer s.right_chan_buffer
    pure (some r.left_end.ring_end)
  get_channel_buffer_end _ s = pure none

  -- The branch of `get_pcm3060` for the first reference.
  unfoldable pub create_pcm3060 : Platform → Pcm3060 → Mem al (Option Ptr × Pcm3060)
  create_pcm3060 pl s = do
    held ← lift (mutex_lock s.mutex)
    newdev ← malloc al (sizeof Struct.pcm3060)
    elim newdev [
      | none ↦ (do
        mutex ← lift (mutex_unlock held)
        pure (none, record s { pcm3060_ext = none; mutex = mutex }))
      | some b ↦ elim (dt_find_pcm3060_device pl.bus) [
        | none ↦ (do
          free al b.addr
          mutex ← lift (mutex_unlock held)
          pure (none, record s { pcm3060_ext = some b.addr; pdev = none; mutex = mutex }))
        | some dev ↦ (do
          mutex ← lift (mutex_unlock held)
          pure (
            some b.addr,
            record s {
              pcm3060_ext = some b.addr;
              pdev = some dev;
              left_chan_buffer = none;
              right_chan_buffer = none;
              config = none;
              mutex = mutex;
            },
          ))
      ]
    ]

  -- `get_pcm3060`; the count is signed, and counts a failed call too.
  unfoldable pub get_pcm3060 : Platform → Pcm3060 → Mem al (Option Ptr × Pcm3060)
  get_pcm3060 pl s =
      let n = add32 s.refcount 1 in
      let s' = record s { refcount = n } in
      let create = create_pcm3060 pl s' in
      if ltb 1 n && ltb n (2 ^ 31) then pure (s'.pcm3060_ext, s') else create

  -- `kfree` and `put_duplex_ring_buffer` of a pointer, unless it is NULL
  unfoldable pub free_some : Option Ptr → Mem al (Unit {0})
  free_some none = pure tt
  free_some (some p) = free al p

  -- The end of `put_pcm3060`, for the last reference.
  unfoldable pub free_pcm3060 : Bool → Pcm3060 → Mem al Pcm3060
  free_pcm3060 ran s = do
    s' ← lift (remove_pcm3060_device ran s)
    free_some s'.pcm3060_ext
    put_duplex_ring_buffer al s'.left_chan_buffer
    put_duplex_ring_buffer al s'.right_chan_buffer
    free_some s'.config
    pure (record s' {
      left_chan_buffer = none;
      right_chan_buffer = none;
      pcm3060_ext = none;
      config = none;
    })

  -- `put_pcm3060`; the flag says whether the transceiver's thread ever ran. A pointer to another
  -- object changes nothing.
  unfoldable pub put_pcm3060 : Bool → Option Ptr → Pcm3060 → Mem al Pcm3060
  put_pcm3060 ran dev_pcm3060 s =
      let n = sub32 s.refcount 1 in
      let s' = record s { refcount = n } in
      let last = free_pcm3060 ran s' in
      if s.refcount == 0
      then pure s
      else if same_ptr s.pcm3060_ext dev_pcm3060
      then (if n == 0 then last else pure s')
      else pure s
