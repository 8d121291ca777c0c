-- ===== src/Kernel/SpiBus.antt =====
-- linux/spi/spi.h: a controller that takes messages, by the contract of spi_async: the call only queues
-- the message, or refuses it with a code. What becomes of a queued message is no part of this.
use pcm3060_kernelmodule.Prelude.{ℕ, zero, suc, ◌≡◌, ◌≢◌, List}
use pcm3060_kernelmodule.Kernel.Run.{Run, ok, fault}
use pcm3060_kernelmodule.Kernel.Platform.{KernelPtr, null, err_ptr, object}

-- The messages of one driver: `pending` counts those that are queued, and `sent` has the words of those
-- that were performed.
pub record SpiController : Type 1 where
  pub Bus : Type 0
  pub pending : Bus → ℕ
  pub sent : Bus → List (List ℕ)
  -- the code, for a device
  pub spi_async : ℕ → Bus → ℕ × Bus
  pub spi_async_queues :
      (p : ℕ) (b : Bus)
      → (spi_async p b).0 ≡ 0
      → (pending (spi_async p b).1 ≡ suc (pending b)) × (sent (spi_async p b).1 ≡ sent b)
  pub spi_async_refuses :
      (p : ℕ) (b : Bus)
      → (spi_async p b).0 ≢ 0
      → (pending (spi_async p b).1 ≡ pending b) × (sent (spi_async p b).1 ≡ sent b)

module _ (sp : SpiController) where
  open sp use {Bus, spi_async}

  -- `spi_async` on a pointer to a device, which it reads.
  abbrev pub submit : KernelPtr → Bus → Run (ℕ × Bus)
  submit null b = fault
  submit (err_ptr code) b = fault
  submit (object p) b = ok (spi_async p b)

  -- A number of calls in turn.
  abbrev pub submitted : ℕ → ℕ → Bus → Bus
  submitted p zero b = b
  submitted p (suc n) b = submitted p n (spi_async p b).1
