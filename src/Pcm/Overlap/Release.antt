-- ===== src/Pcm/Overlap/Release.antt =====
-- A get_pcm3060 between the count that the last put_pcm3060 lowers and what it then frees.
use pcm3060_kernelmodule.Prelude.{ℕ, ◌≡◌, refl, ◌∙◌, Bool, true, false, some, none, [], arith, ◌==◌}
use pcm3060_kernelmodule.Prelude.Words.{add32, sub32}
use pcm3060_kernelmodule.Kernel.Run.{ok, fault}
use pcm3060_kernelmodule.Kernel.Alloc.{Ptr, Block, Allocator, Struct, malloc}
use pcm3060_kernelmodule.Kernel.Owned.{Owns-nil, Owns-kmalloc, Owns-free}
use pcm3060_kernelmodule.Kernel.Platform.{Platform}
use pcm3060_kernelmodule.DuplexRing.Lifetime.{put_duplex_ring_buffer}
use pcm3060_kernelmodule.Devicetree.{dt_find_pcm3060_device}
use pcm3060_kernelmodule.Clock.{ClockGenerator, clock_generator_cleanup}
use pcm3060_kernelmodule.Transceiver.{Transceiver}
use pcm3060_kernelmodule.Transceiver.Setup.{tx_cleanup}
use pcm3060_kernelmodule.Pcm.{
  Pcm3060, access, create_pcm3060, get_pcm3060, free_some, free_pcm3060, put_pcm3060,
  remove_pcm3060_device,
}

module _ (al : Allocator) (pl : Platform) where
  open al use {Heap, live, kmalloc, sizeof}

  -- One caller holds the object at `p`.
  abbrev pub last_held : Pcm3060 → Ptr → Pcm3060
  last_held s p = record s { refcount = 1; pcm3060_ext = some p; mutex = false }

  -- The last `put_pcm3060` lowers the count, and then frees. Where another caller's `get_pcm3060` comes
  -- between the two, on a device that is found and with memory, it takes the first reference and
  -- returns a new object; what the put then frees is this new object. Its caller is left with one
  -- reference to a freed block, and the old object stays allocated without a pointer to it.
  pub get_during_last_put :
      (ran : Bool) (s : Pcm3060) (h : Heap) (p : Ptr) (b : Block) (dev : ℕ) {c c' : ℕ}
      {clock : ClockGenerator} {tx : Transceiver}
      → live h p ≡ true
      → dt_find_pcm3060_device pl.bus ≡ some dev
      → (kmalloc (sizeof Struct.pcm3060) h).0 ≡ some b
      → clock_generator_cleanup s.clock ≡ ok (c, clock)
      → tx_cleanup ran s.tx ≡ ok (c', tx)
      → let lowered = record (last_held s p) { refcount = 0 } in
        (put_pcm3060 al ran (some p) (last_held s p) h ≡ free_pcm3060 al ran lowered h)
        × (d : Pcm3060) × (h1 : Heap) × (get_pcm3060 al pl lowered h ≡ ok ((some b.addr, d), h1))
        × (d' : Pcm3060) × (h2 : Heap) × (free_pcm3060 al ran d h1 ≡ ok (d', h2))
        × (access al (some b.addr) h2 ≡ fault)
        × (d'.refcount ≡ 1)
        × (live h2 p ≡ true)
  unfolding put_pcm3060 free_pcm3060 remove_pcm3060_device free_some put_duplex_ring_buffer
      get_pcm3060 create_pcm3060 malloc add32 sub32 access
  get_during_last_put ran s h p b dev {clock} {tx} is_live found got stops ends =
      let own = Owns-kmalloc al (sizeof Struct.pcm3060) b (Owns-nil al h) got in
      let (h2, freed, back) = Owns-free al [] b.addr [] own in
      let same : (p == p) ≡ true = ground arith in
      let gone : live h2 b.addr ≡ false =
        back.exact b.addr ∙ al.kmalloc_fresh (sizeof Struct.pcm3060) h b got in
      let d = record (last_held s p) {
        refcount = 1;
        pcm3060_ext = some b.addr;
        pdev = some dev;
        left_chan_buffer = none;
        right_chan_buffer = none;
        config = none;
      } in
      (
        rw same refl,
        d,
        (kmalloc (sizeof Struct.pcm3060) h).1,
        rw (got, found) refl,
        record d { clock = clock; tx = tx; pdev = none; pcm3060_ext = none },
        h2,
        rw (stops, ends, freed) refl,
        rw gone refl,
        refl,
        back.exact p ∙ is_live,
      )
