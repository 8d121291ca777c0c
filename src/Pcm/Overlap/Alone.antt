-- ===== src/Pcm/Overlap/Alone.antt =====
-- A call of get_pcm3060 that no other overlaps, step by step and as a whole.
use pcm3060_kernelmodule.Prelude.{
  ℕ, ◌^◌, ◌≡◌, refl, sym, ap, ◌∙◌, subst, inl, inr, true, false, Option, none, some, arith, ltb,
  ◌&&◌, ◌==◌, Bool-cases,
}
use pcm3060_kernelmodule.Prelude.Words.{add32}
use pcm3060_kernelmodule.Kernel.Alloc.{Ptr, Block, Allocator, Struct}
use pcm3060_kernelmodule.Kernel.Platform.{Platform}
use pcm3060_kernelmodule.Devicetree.{dt_find_pcm3060_device}
use pcm3060_kernelmodule.Pcm.{Pcm3060}
use pcm3060_kernelmodule.Pcm.Overlap.{
  Pc, idle, locking, allocating, storing, clearing_left, returned, Shared, set_device, Move, take,
  store, store_null, alloc,
}
use pcm3060_kernelmodule.Kernel.Run.{ok}
use pcm3060_kernelmodule.Kernel.Alloc.{malloc, free}
use pcm3060_kernelmodule.Pcm.{create_pcm3060, get_pcm3060}

-- One caller on its own, up to its return.
pub data Alone (al : Allocator) (pl : Platform)
    : Shared al → Pc → Shared al → Option Ptr → Type 0 where
  back : {m : Shared al} {o : Option Ptr} → Alone al pl m (returned o) m o
  step :
      {m m' m'' : Shared al} {p p' : Pc} {o : Option Ptr}
      → Move al pl m p m' p'
      → Alone al pl m' p' m'' o
      → Alone al pl m p m'' o

module _ {al : Allocator} where
  pub alloc_as :
      {pl : Platform} (m : Shared al) {o : Option Block} {g : al.Heap}
      → al.kmalloc (al.sizeof Struct.pcm3060) m.heap ≡ (o, g)
      → Move al pl m allocating (record m { heap = g }) (storing o)
  alloc_as {pl} m e =
      subst (λ x. Move al pl m allocating (record m { heap = x.1 }) (storing x.0)) e alloc

  -- The end of the branch, from where the device is found on.
  Alone-clear :
      {pl : Platform} (m : Shared al)
      → m.device.mutex ≡ true
      → Alone al pl m clearing_left
          (record m {
            device = record m.device {
              left_chan_buffer = none;
              right_chan_buffer = none;
              config = none;
              mutex = false;
            };
            has_init = true;
            has_get = true;
          })
          m.device.pcm3060_ext
  Alone-clear m e = step Move.clear_left (
      step Move.clear_right (
        step Move.clear_config
          (step Move.set_init (step Move.set_get (step (Move.unlock e) (step Move.read back))))))

  alloc_live :
      (m : Shared al) (b : Block)
      → (al.kmalloc (al.sizeof Struct.pcm3060) m.heap).0 ≡ some b
      → al.live (al.kmalloc (al.sizeof Struct.pcm3060) m.heap).1 b.addr ≡ true
  alloc_live m b e =
      let same : (b.addr == b.addr) ≡ true = ground arith in
      al.kmalloc_live (al.sizeof Struct.pcm3060) m.heap b e b.addr ∙ rw same refl

  module _ (pl : Platform) (m : Shared al) {b : Block} {g : al.Heap} {dev : ℕ}
      (free_mutex : m.device.mutex ≡ false)
      (got : al.kmalloc (al.sizeof Struct.pcm3060) m.heap ≡ (some b, g))
      (found : dt_find_pcm3060_device pl.bus ≡ some dev) where
    abbrev with_device : Pcm3060
    with_device = record m.device {
      pcm3060_ext = some b.addr;
      pdev = some dev;
      left_chan_buffer = none;
      right_chan_buffer = none;
      config = none;
      mutex = false;
    }

    Alone-found :
        Alone al pl m locking
          (record m { device = with_device; heap = g; has_init = true; has_get = true })
          (some b.addr)
    Alone-found =
        step (Move.lock free_mutex)
          (step (alloc_as _ got) (step store (step (Move.find dev found) (Alone-clear _ refl))))

    create_found : create_pcm3060 al pl m.device m.heap ≡ ok ((some b.addr, with_device), g)
    unfolding create_pcm3060 malloc
    create_found = rw (free_mutex, got, found) refl

  module _ (pl : Platform) (m : Shared al) {b : Block} {g g' : al.Heap}
      (free_mutex : m.device.mutex ≡ false)
      (got : al.kmalloc (al.sizeof Struct.pcm3060) m.heap ≡ (some b, g))
      (missing : dt_find_pcm3060_device pl.bus ≡ none) (freed : al.kfree b.addr g ≡ some g') where
    abbrev without_device : Pcm3060
    without_device = record m.device { pcm3060_ext = some b.addr; pdev = none; mutex = false }

    Alone-missing :
        Alone al pl m locking
          (record m { device = without_device; heap = g'; has_init = false; has_get = false })
          none
    Alone-missing = step (Move.lock free_mutex) (
        step (alloc_as _ got) (
          step store (
            step (Move.miss missing)
              (step (Move.release freed) (step (Move.unlock_failed refl) back)))))

    create_missing : create_pcm3060 al pl m.device m.heap ≡ ok ((none, without_device), g')
    unfolding create_pcm3060 malloc
    create_missing =
        let gone : free al b.addr g ≡ ok (tt, g') = unfold free in rw (free, freed) refl in
        rw (free_mutex, got, missing, gone) refl

  -- The branch of the first reference, alone.
  Alone-create :
      (pl : Platform) (m : Shared al)
      → m.device.mutex ≡ false
      → (o : Option Ptr) × (m' : Shared al) × Alone al pl m locking m' o
        × (create_pcm3060 al pl m.device m.heap ≡ ok ((o, m'.device), m'.heap))
  unfolding create_pcm3060 malloc
  Alone-create pl m e =
      created (al.kmalloc (al.sizeof Struct.pcm3060) m.heap) refl (dt_find_pcm3060_device pl.bus)
        refl
    where
      created :
          (x : Option Block × al.Heap)
          → al.kmalloc (al.sizeof Struct.pcm3060) m.heap ≡ x
          → (found : Option ℕ) → dt_find_pcm3060_device pl.bus ≡ found
          → (o : Option Ptr) × (m' : Shared al) × Alone al pl m locking m' o
            × (create_pcm3060 al pl m.device m.heap ≡ ok ((o, m'.device), m'.heap))
      created (none, g) got found seen = (
        _,
        _,
        step (Move.lock e)
            (step (alloc_as _ got) (step store_null (step (Move.unlock_failed refl) back))),
        rw (e, got) refl,
      )
      created (some b, g) got none seen =
          let is_live : al.live g b.addr ≡ true =
            ap (λ x. al.live x.1 b.addr) (sym got) ∙ alloc_live m b (ap (λ x. x.0) got) in
          let (freed_heap, freed, _) = al.kfree_live b.addr g is_live in
          (none, _, Alone-missing pl m e got seen freed, create_missing pl m e got seen freed)
      created (some b, g) got (some dev) seen =
          (some b.addr, _, Alone-found pl m e got seen, create_found pl m e got seen)

  -- A caller that nobody overlaps, where the mutex is free, returns, and what it returns and leaves is
  -- what the call as a whole returns and leaves, whichever branches it takes.
  pub Alone-get :
      (pl : Platform) (m : Shared al)
      → m.device.mutex ≡ false
      → (o : Option Ptr) × (m' : Shared al) × Alone al pl m idle m' o
        × (get_pcm3060 al pl m.device m.heap ≡ ok ((o, m'.device), m'.heap))
  unfolding get_pcm3060
  Alone-get pl m e =
      let n = add32 m.device.refcount 1 in
      let m1 = set_device (record m.device { refcount = n }) m in
      elim (Bool-cases (ltb 1 n && ltb n (2 ^ 31))) [
        | inl again ↦
            (m.device.pcm3060_ext, m1, step take (rw again (step Move.read back)), rw again refl)
        | inr first ↦
            let (o, m', alone, created) = Alone-create pl m1 e in
            (o, m', step take (rw first alone), rw first created)
      ]
