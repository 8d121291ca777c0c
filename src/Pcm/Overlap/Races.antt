-- ===== src/Pcm/Overlap/Races.antt =====
-- Two calls of get_pcm3060 that overlap while the object is being created.
use pcm3060_kernelmodule.Prelude.{ℕ, ◌≡◌, refl, false, none, some}
use pcm3060_kernelmodule.Prelude.Words.{add32}
use pcm3060_kernelmodule.Kernel.Alloc.{Block, Allocator, Struct}
use pcm3060_kernelmodule.Kernel.Platform.{Platform}
use pcm3060_kernelmodule.Devicetree.{dt_find_pcm3060_device}
use pcm3060_kernelmodule.Pcm.Overlap.{
  Pc, returned, Shared, set_device, Move, take, store, Reach, start, later,
}
use pcm3060_kernelmodule.Pcm.Overlap.Alone.{alloc_as}

module _ (al : Allocator) (pl : Platform) where
  -- The device before its first use.
  abbrev pub unused_device : Shared al → Shared al
  unused_device m =
      set_device (record m.device { refcount = 0; pcm3060_ext = none; mutex = false }) m

  -- Two overlapping calls of `get_pcm3060` where there is no object yet, there is memory and the device
  -- is found. In one order of their steps the first call returns the new object and the second one
  -- NULL, since it reads the pointer before it is stored. In another order the second one returns the
  -- object while neither of its functions is stored yet.
  pub second_call_too_early :
      (m : Shared al) (b : Block) (g : al.Heap) (dev : ℕ)
      → al.kmalloc (al.sizeof Struct.pcm3060) m.heap ≡ (some b, g)
      → dt_find_pcm3060_device pl.bus ≡ some dev
      → ((m' : Shared al) × (pc : ℕ → Pc) × Reach al pl (unused_device m) 2 m' pc
          × (pc 0 ≡ returned (some b.addr))
          × (pc 1 ≡ returned none))
        × ((m' : Shared al) × (pc : ℕ → Pc) × Reach al pl (unused_device m) 2 m' pc
            × (pc 1 ≡ returned (some b.addr))
            × (m'.has_init ≡ false)
            × (m'.has_get ≡ false))
  unfolding add32
  second_call_too_early m b g dev got found = (
    (
      _,
      _,
      (let r1 = later start 0 take in
          let r2 = later r1 1 take in
          let r3 = later r2 1 Move.read in
          let r4 = later r3 0 (Move.lock refl) in
          let r5 = later r4 0 (alloc_as _ got) in
          let r6 = later r5 0 store in
          let r7 = later r6 0 (Move.find dev found) in
          let r8 = later r7 0 Move.clear_left in
          let r9 = later r8 0 Move.clear_right in
          let r10 = later r9 0 Move.clear_config in
          let r11 = later r10 0 Move.set_init in
          let r12 = later r11 0 Move.set_get in
          let r13 = later r12 0 (Move.unlock refl) in later r13 0 Move.read),
      refl,
      refl,
    ),
    (
      _,
      _,
      (let r1 = later start 0 take in
          let r2 = later r1 0 (Move.lock refl) in
          let r3 = later r2 0 (alloc_as _ got) in
          let r4 = later r3 0 store in let r5 = later r4 1 take in later r5 1 Move.read),
      refl,
      refl,
      refl,
    ),
  )
