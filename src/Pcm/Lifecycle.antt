-- ===== src/Pcm/Lifecycle.antt =====
-- get_pcm3060, _configure_pcm3060 and put_pcm3060 in turn, on a platform where every device is found,
-- but where memory may run out at any point.
pub mod Calls
use pcm3060_kernelmodule.Prelude.{ℕ, ◌≡◌, ◌⊎◌, ap, ◌∙◌, subst, true, Option, none, some, [], ◌∷◌}
use pcm3060_kernelmodule.Kernel.Run.{ok}
use pcm3060_kernelmodule.Kernel.Alloc.{Ptr, Allocator}
use pcm3060_kernelmodule.Kernel.Owned.{Owns}
use pcm3060_kernelmodule.Kernel.Completion.{init_completion}
use pcm3060_kernelmodule.Kernel.Platform.{null, object, Platform}
use pcm3060_kernelmodule.Kernel.Returns
use pcm3060_kernelmodule.Pcm.{Pcm3060Config, Pcm3060, configure_pcm3060, get_pcm3060, put_pcm3060}
use pcm3060_kernelmodule.Pcm.Lifecycle.Calls.{
  Serves, opened, unused, GotDevice, get_lem, configure_lem, ends, IsFreed, put_lem,
}

module _ (al : Allocator) where
  open al use {Heap}

  -- The life of a device object on a platform where every device is found and granted, but where each
  -- allocation may fail: `get_pcm3060` returns. If it hands out a pointer, `_configure_pcm3060` with a
  -- valid rate returns. If that succeeds, `put_pcm3060` of the pointer returns once the thread ran: it
  -- stops the thread and leaves no object, no configuration and no buffer, and of all the blocks
  -- allocated just the two ends of each channel's buffer.
  pub open_close_leaks_ends :
      (pl : Platform) (cfg : Pcm3060Config) (q : ℕ) (s : Pcm3060) (h : Heap)
      → Serves pl cfg.fs
      → (s.clock.dev_pwm_sck ≡ null) ⊎ (s.clock.dev_pwm_sck ≡ object q)
      → s.tx.tx_completion ≡ init_completion
      → (o : Option Ptr) × (s1 : Pcm3060) × (h1 : Heap) × (get_pcm3060 al pl (unused al s) h
          ≡ ok ((o, s1), h1))
        × ((p : Ptr)
            → o ≡ some p
            → (code : ℕ) × (s2 : Pcm3060) × (h2 : Heap) × (configure_pcm3060 al pl (some cfg) s1 h1
                ≡ ok ((code, s2), h2))
              × (code ≡ 0
                  → (s3 : Pcm3060) × (h3 : Heap) × (put_pcm3060 al true (some p) s2 h2
                      ≡ ok (s3, h3))
                    × IsFreed al (ends al s2.left_chan_buffer s2.right_chan_buffer) h s3 h3))
  open_close_leaks_ends pl cfg q s h v pwm idle =
      let (x, h1, got, post) = Returns.outcome (get_lem al pl s v.dev h v.on_bus) in
      (x.0, x.1, h1, got, λ p e. used x h1 post p e)
    where
      used :
          (x : Option Ptr × Pcm3060) (h1 : Heap)
          → GotDevice al s v.dev h x h1
          → (p : Ptr) → x.0 ≡ some p
          → (code : ℕ) × (s2 : Pcm3060) × (h2 : Heap) × (configure_pcm3060 al pl (some cfg) x.1 h1
              ≡ ok ((code, s2), h2))
            × (code ≡ 0
                → (s3 : Pcm3060) × (h3 : Heap) × (put_pcm3060 al true (some p) s2 h2 ≡ ok (s3, h3))
                  × IsFreed al (ends al s2.left_chan_buffer s2.right_chan_buffer) h s3 h3)
      used (none, s1) h1 own p e = absurd cc
      used (some b, s1) h1 (own, shape) p e =
          let same : b ≡ p = cc in
          let start : s1 ≡ opened al s v.dev p = shape ∙ ap (opened al s v.dev) same in
          let (y, h2, done, running) =
            Returns.outcome (
              configure_lem al q cfg s p v pwm idle
                (subst (λ b. Owns al (b ∷ []) h h1) same own)) in
          (
            y.0,
            y.1,
            h2,
            ap (λ s. configure_pcm3060 al pl (some cfg) s h1) start ∙ done,
            λ zero_code.
                let (s3, h3, put, freed) = Returns.outcome (put_lem al (running zero_code)) in
                (s3, h3, put, freed),
          )
