-- ===== src/Pcm/Lifecycle/Calls.antt =====
-- What get_pcm3060, _configure_pcm3060 and put_pcm3060 leave, each by itself, on a platform where every
-- device is found, but where memory may run out at any point.
use pcm3060_kernelmodule.Prelude.{
  ℕ, ◌*◌, ◌/◌, ◌≡◌, ◌⊎◌, refl, sym, subst, true, false, Option, none, some, List, [], ◌∷◌, ◌++◌,
  arith, ◌==◌,
}
use pcm3060_kernelmodule.Prelude.Words.{add32, sub32}
use pcm3060_kernelmodule.Config.{is_valid_fs, clock_bck_f_hz}
use pcm3060_kernelmodule.Kernel.Run.{ok}
use pcm3060_kernelmodule.Kernel.Alloc.{Ptr, Allocator, Struct}
use pcm3060_kernelmodule.Kernel.Owned.{Owns, Owns-nil, Owns-live, malloc_lem, free_lem}
use pcm3060_kernelmodule.Kernel.Completion.{init_completion}
use pcm3060_kernelmodule.Kernel.Platform.{neg32, null, object, Platform}
use pcm3060_kernelmodule.Kernel.Returns
use pcm3060_kernelmodule.Kernel.Returns.{Returns, returns}
use pcm3060_kernelmodule.DuplexRing.Lifetime.{
  DuplexObject, impl_blocks, leaked, put_duplex_ring_buffer, get_duplex_ring_buffer_lem,
  put_duplex_ring_buffer_lem,
}
use pcm3060_kernelmodule.Devicetree.{dt_find_pcm3060_device}
use pcm3060_kernelmodule.Clock.{clock_generator_cleanup}
use pcm3060_kernelmodule.Clock.Frequency.{IsGranted, clock_starts}
use pcm3060_kernelmodule.Transceiver.{Transceiver}
use pcm3060_kernelmodule.Transceiver.Setup.{Found, tx_cleanup, init_then_cleanup}
use pcm3060_kernelmodule.Pcm.{
  Pcm3060Config, Pcm3060, access_buffer, probe_pcm3060_device, remove_pcm3060_device,
  configure_pcm3060, create_pcm3060, get_pcm3060, free_some, free_pcm3060, put_pcm3060, rings_of,
}

-- Every device is there, and the kernel grants what is asked for.
pub record Serves (pl : Platform) (fs : ℕ) : Type 0 where
  pub dev : ℕ
  pub spi_dev : ℕ
  pub thread : ℕ
  pub pwm_dev : ℕ
  pub on_bus : dt_find_pcm3060_device pl.bus ≡ some dev
  pub found : Found pl spi_dev
  pub runs : pl.kthread_run ≡ object thread
  pub grants : IsGranted pl.pwm (1000000000 / (fs * 256)) pwm_dev
  pub valid_fs : is_valid_fs fs ≡ true

module _ (al : Allocator) where
  open al use {Heap, live, sizeof}

  -- The blocks of a channel's buffer.
  abbrev buffer_blocks : DuplexObject → List Ptr
  buffer_blocks o = o.right_end.self ∷ o.left_end.self ∷ (impl_blocks al o.impl ++ (o.self ∷ []))

  abbrev pub opened : Pcm3060 → ℕ → Ptr → Pcm3060
  opened s dev p = record s {
    refcount = 1;
    pcm3060_ext = some p;
    pdev = some dev;
    left_chan_buffer = none;
    right_chan_buffer = none;
    config = none;
    mutex = false;
  }

  -- No references yet.
  abbrev pub unused : Pcm3060 → Pcm3060
  unused s = record s { refcount = 0; mutex = false }

  abbrev pub GotDevice : Pcm3060 → ℕ → Heap → Option Ptr × Pcm3060 → Heap → Type 0
  GotDevice s dev h (none, s') g = Owns al [] h g
  GotDevice s dev h (some p, s') g = Owns al (p ∷ []) h g × (s' ≡ opened s dev p)

  pub get_lem :
      (pl : Platform) (s : Pcm3060) (dev : ℕ) (h : Heap)
      → dt_find_pcm3060_device pl.bus ≡ some dev
      → Returns (GotDevice s dev h) (get_pcm3060 al pl (unused s) h)
  unfolding get_pcm3060 create_pcm3060 add32
  get_lem pl s dev h e =
      Returns.bind (malloc_lem al (sizeof Struct.pcm3060) (Owns-nil al h))
        (elim [ none ↦ λ g o. returns o | some b ↦ λ g o. rw e (returns (o.0, refl)) ])

  -- The state in which the device is probed.
  abbrev filled : Pcm3060 → Ptr → Ptr → DuplexObject → DuplexObject → Pcm3060
  filled s p c l r = record s {
    pcm3060_ext = some p;
    refcount = 1;
    config = some c;
    left_chan_buffer = some l;
    right_chan_buffer = some r;
  }

  -- A device that is configured and runs, with its blocks, the last allocated first.
  pub record IsRunning (h : Heap) (p : Ptr) (s : Pcm3060) (g : Heap) : Type 0 where
    base : Pcm3060
    config_ptr : Ptr
    l : DuplexObject
    r : DuplexObject
    pwm_dev : ℕ
    after : Transceiver
    shape : s ≡ filled base p config_ptr l r
    clock : base.clock.dev_pwm_sck ≡ object pwm_dev
    stops : tx_cleanup true base.tx ≡ ok (0, after)
    stopped : after.thread_alive ≡ false
    owns : Owns al (buffer_blocks r ++ (buffer_blocks l ++ config_ptr ∷ p ∷ [])) h g

  abbrev pub Configured : Heap → Ptr → ℕ × Pcm3060 → Heap → Type 0
  Configured h p (code, s') g = code ≡ 0 → IsRunning h p s' g

  probe_lem :
      {pl : Platform} {h g : Heap} (q : ℕ) (s : Pcm3060) (p c : Ptr) (l r : DuplexObject)
      → (v : Serves pl s.cfg.fs) → (s.clock.dev_pwm_sck ≡ null) ⊎ (s.clock.dev_pwm_sck ≡ object q)
      → s.tx.tx_completion ≡ init_completion
      → Owns al (buffer_blocks r ++ (buffer_blocks l ++ c ∷ p ∷ [])) h g
      → Returns (Configured h p) (probe_pcm3060_device al pl (some v.dev) (filled s p c l r) g)
  unfolding probe_pcm3060_device access_buffer
  probe_lem {pl} {h} {g} q s p c l r v pwm idle own =
      let (pwm_dev, clock, started, held) =
        clock_starts pl.pwm s.clock s.cfg.fs v.pwm_dev q v.dev v.valid_fs pwm v.grants in
      let (t, after, inited, stops, _, dead, _, _) =
        init_then_cleanup v.thread v.dev l.right_end.ring_end r.right_end.ring_end
          (clock_bck_f_hz s.cfg.fs) s.tx v.found v.runs idle in
      let l_live : live g l.self ≡ true =
        Owns-live al
          (buffer_blocks r ++ (l.right_end.self ∷ l.left_end.self ∷ impl_blocks al l.impl)) l.self
          (c ∷ p ∷ []) own in
      let r_live : live g r.self ≡ true =
        Owns-live al (r.right_end.self ∷ r.left_end.self ∷ impl_blocks al r.impl) r.self
          (buffer_blocks l ++ c ∷ p ∷ []) own in
      rw (started, l_live, r_live, inited)
        (returns λ done. record {
          base = record s { clock = clock; tx = t };
          config_ptr = c;
          l = l;
          r = r;
          pwm_dev = pwm_dev;
          after = after;
          shape = refl;
          clock = held;
          stops = stops;
          stopped = dead;
          owns = own;
        })

  -- The state before `_configure_pcm3060` and the answers that it gets.
  pub configure_lem :
      {pl : Platform} {h g : Heap} (q : ℕ) (cfg : Pcm3060Config) (s : Pcm3060) (p : Ptr)
      → (v : Serves pl cfg.fs) → (s.clock.dev_pwm_sck ≡ null) ⊎ (s.clock.dev_pwm_sck ≡ object q)
      → s.tx.tx_completion ≡ init_completion
      → Owns al (p ∷ []) h g
      → Returns (Configured h p) (configure_pcm3060 al pl (some cfg) (opened s v.dev p) g)
  unfolding configure_pcm3060 put_duplex_ring_buffer neg32 sub32
  configure_lem {pl} q cfg s p v pwm idle own =
      Returns.bind (malloc_lem al (sizeof Struct.pcm3060_config) own) (elim [
        | none ↦ λ g o. returns λ e. absurd (omega (arith, e))
        | some c ↦ λ g o. Returns.bind (get_duplex_ring_buffer_lem al cfg.buf_size o.0) (elim [
          | none ↦ λ g o.
              Returns.bind (free_lem al [] c.addr (p ∷ []) o)
                λ _ g o. returns λ e. absurd (omega (arith, e))
          | some l ↦ λ g lgot.
              Returns.bind (get_duplex_ring_buffer_lem al cfg.buf_size lgot.0) (elim [
                | none ↦ λ g o.
                    Returns.bind
                      (put_duplex_ring_buffer_lem al (l.right_end.self ∷ l.left_end.self ∷ []) l
                        (c.addr ∷ p ∷ []) o)
                      λ _ g o. returns λ e. absurd (omega (arith, e))
                | some r ↦ λ g rgot.
                    probe_lem q
                      (record (opened s v.dev p) {
                        cfg = cfg;
                        rings = record { left_chan = rings_of l; right_chan = rings_of r };
                      })
                      p c.addr l r v pwm idle rgot.0
              ])
        ])
      ])

  -- What stays of a device that was used: the ends of its two buffers.
  abbrev pub ends : Option DuplexObject → Option DuplexObject → List Ptr
  ends l r = leaked al r ++ leaked al l

  -- No object, and the blocks that stay.
  pub record IsFreed (ps : List Ptr) (h : Heap) (s : Pcm3060) (g : Heap) : Type 0 where
    pub no_refs : s.refcount ≡ 0
    pub no_object : s.pcm3060_ext ≡ none
    pub no_config : s.config ≡ none
    pub no_left : s.left_chan_buffer ≡ none
    pub no_right : s.right_chan_buffer ≡ none
    pub stopped : s.tx.thread_alive ≡ false
    pub owns : Owns al ps h g

  put_filled :
      {h g : Heap} (s : Pcm3060) (p c : Ptr) (l r : DuplexObject) {w : ℕ} {after : Transceiver}
      → s.clock.dev_pwm_sck ≡ object w
      → tx_cleanup true s.tx ≡ ok (0, after)
      → after.thread_alive ≡ false
      → Owns al (buffer_blocks r ++ (buffer_blocks l ++ c ∷ p ∷ [])) h g
      → Returns
          (IsFreed (ends (some l) (some r)) h)
          (put_pcm3060 al true (some p) (filled s p c l r) g)
  unfolding put_pcm3060 free_pcm3060 remove_pcm3060_device clock_generator_cleanup free_some sub32
  put_filled s p c l r clock stops dead own =
      let same : (p == p) ≡ true = ground arith in
      let right_ends = r.right_end.self ∷ r.left_end.self ∷ [] in
      let left_ends = l.right_end.self ∷ l.left_end.self ∷ [] in
      rw (same, clock, stops)
        (Returns.bind (free_lem al (buffer_blocks r ++ (buffer_blocks l ++ c ∷ [])) p [] own)
          λ _ g own.
            Returns.bind
              (put_duplex_ring_buffer_lem al (buffer_blocks r ++ left_ends) l (c ∷ []) own)
              λ _ g own.
                Returns.bind (put_duplex_ring_buffer_lem al right_ends r (left_ends ++ c ∷ []) own)
                  λ _ g own.
                    Returns.bind (free_lem al (right_ends ++ left_ends) c [] own) λ _ g own.
                      returns (record {
                        no_refs = refl;
                        no_object = refl;
                        no_config = refl;
                        no_left = refl;
                        no_right = refl;
                        stopped = dead;
                        owns = own;
                      }))

  pub put_lem :
      {h g : Heap} {p : Ptr} {s : Pcm3060}
      → IsRunning h p s g
      → Returns
          (IsFreed (ends s.left_chan_buffer s.right_chan_buffer) h)
          (put_pcm3060 al true (some p) s g)
  put_lem {h} {g} {p} {s} v =
      subst
        (λ s.
          Returns (IsFreed (ends s.left_chan_buffer s.right_chan_buffer) h)
            (put_pcm3060 al true (some p) s g))
        (sym v.shape) (put_filled v.base p v.config_ptr v.l v.r v.clock v.stops v.stopped v.owns)
