-- ===== src/Transceiver.antt =====
-- src/periphery/transceiver.c: the thread that moves bytes between the two channels' rings and the
-- SPI bus. A message is queued by spi_async with the address of `mem_tx`. What the controller does with
-- it later is not modelled: the message is a local variable of `_tx_rx_on_channel`, which has returned
-- by then, and its one `struct spi_transfer` is set up again by each call while earlier messages may
-- still have it, so that C and the contract of spi_async leave the outcome undefined.
pub mod Channel
pub mod Oldest
pub mod Thread
pub mod Races
pub mod Setup
use pcm3060_kernelmodule.Prelude.{
  ℕ, zero, suc, ◌+◌, ◌-◌, min, Bool, true, false, not, ◌&&◌, ◌||◌, Option, none, some, List, [],
  ◌∷◌, ◌++◌, ltb, ◌==◌, if◌then◌else◌,
}
use pcm3060_kernelmodule.Prelude.Words.{sub32}
use pcm3060_kernelmodule.Config.{n_byte_size_per_tx, spi_n_byte_per_tx, spi_word_len}
use pcm3060_kernelmodule.Kernel.Run.{Run, ok, fault, ◌>>=◌}
use pcm3060_kernelmodule.Kernel.SpiBus.{SpiController, submit}
use pcm3060_kernelmodule.Kernel.User.{UserCopy}
use pcm3060_kernelmodule.Kernel.Completion.{Completion, complete, wait_for_completion}
use pcm3060_kernelmodule.Kernel.Platform.{
  neg32, enxio, KernelPtr, null, err_ptr, object, is_err, Platform,
}
use pcm3060_kernelmodule.DuplexRing.{
  DuplexRings, DuplexRingEnd, duplex_ring_end_read, duplex_ring_end_n_bytes_readable,
  duplex_ring_end_n_bytes_writable,
}
use pcm3060_kernelmodule.Devicetree.{get_gpio}
use pcm3060_kernelmodule.Spi.{spi_get}

-- The fields that the driver sets in the `struct spi_device`.
pub record SpiSettings : Type 0 where
  pub max_speed_hz : ℕ
  pub bits_per_word : ℕ
  pub mode : ℕ

-- The static data of the file: `_internal_data`, `mem_tx`, `mem_rx`, `etx_spi_thread`,
-- `tx_completion`, the count of `spi_completion` and `lrck_level`; and what is outside: whether the
-- thread is alive, the references held to the SPI device, and the level of the LRCK pin.
pub record Transceiver : Type 0 where
  pub spi_dev : KernelPtr
  pub leftchan_buf : Option DuplexRingEnd
  pub rightchan_buf : Option DuplexRingEnd
  pub gpio_num : ℕ
  pub settings : Option SpiSettings
  pub mem_tx : List ℕ
  pub mem_rx : List ℕ
  pub etx_spi_thread : Option ℕ
  pub thread_alive : Bool
  pub spi_refs : ℕ
  pub tx_completion : Completion
  pub spi_completion : ℕ
  pub lrck_level : Bool
  pub lrck_pin : Bool

-- Both channels' rings.
pub record Rings : Type 0 where
  pub left_chan : DuplexRings
  pub right_chan : DuplexRings

-- `spi_complete`
unfoldable pub spi_complete : Transceiver → Transceiver
spi_complete t = record t {
  lrck_pin = t.lrck_level;
  spi_completion = suc t.spi_completion;
  lrck_level = not t.lrck_level;
}

module _ (uc : UserCopy) where
  -- The read of a channel into the front of `mem_tx`, if it has bytes: their number, and the rest of
  -- `mem_tx` stays as it was.
  unfoldable pub load_tx :
      Option DuplexRingEnd → DuplexRings → Transceiver → Run (ℕ × DuplexRings × Transceiver)
  load_tx active_channel d t =
      let readable = duplex_ring_end_n_bytes_readable d active_channel in
      if ltb 0 readable
      then (let n = min readable n_byte_size_per_tx in
          (do
            (dropped, out, d') ← duplex_ring_end_read uc d active_channel (some t.mem_tx) n
            ok (n, d', record t { mem_tx = elim out [ none ↦ t.mem_tx | some bytes ↦ bytes ] })))
      else ok (0, d, t)

module _ (sp : SpiController) where
  open sp use {Bus}

  module _ (uc : UserCopy) where
    -- `_tx_rx_on_channel`, up to its return: the message that `spi_async` got is gone from then on. Nothing
    -- is ever written to the rings here, and the code of `spi_async` is not looked at.
    unfoldable pub tx_rx_on_channel :
        Option DuplexRingEnd
        → DuplexRings
        → Transceiver
        → Bus
        → Run (ℕ × DuplexRings × Transceiver × Bus)
    tx_rx_on_channel active_channel d t b = do
      (n_bytes_to_write_over_spi, d', t') ← load_tx uc active_channel d t
      let n_bytes_to_read_from_spi =
          min (duplex_ring_end_n_bytes_writable d' active_channel) n_byte_size_per_tx
      if n_bytes_to_write_over_spi == 0 && n_bytes_to_read_from_spi == 0
          then ok (neg32 1, d', t', b)
          else (do (code, b') ← submit sp t'.spi_dev b; ok (0, d', t', b'))

    -- One round of the loop of `_tx_run`: does the thread sleep at its end? The codes are 0 or -1, so
    -- that their bitwise or is 0 only if both are.
    unfoldable pub tx_round : Rings → Transceiver → Bus → Run (Bool × Rings × Transceiver × Bus)
    tx_round r t b = do
      (left_err, left', t', b') ← tx_rx_on_channel t.leftchan_buf r.left_chan t b
      (right_err, right', t'', b'') ← tx_rx_on_channel t'.rightchan_buf r.right_chan t' b'
      ok (
        not (left_err == 0 && right_err == 0),
        record { left_chan = left'; right_chan = right' },
        t'',
        b'',
      )

    -- `_tx_run`, for a number of rounds until kthread_should_stop: the number of sleeps.
    unfoldable pub tx_run : ℕ → Rings → Transceiver → Bus → Run (ℕ × Rings × Transceiver × Bus)
    tx_run zero r t b = ok (0, r, record t { tx_completion = complete t.tx_completion }, b)
    tx_run (suc rounds) r t b = do
      (sleeps, r', t', b') ← tx_round r t b
      (rest, r'', t'', b'') ← tx_run rounds r' t' b'
      ok (if sleeps then suc rest else rest, r'', t'', b'')
