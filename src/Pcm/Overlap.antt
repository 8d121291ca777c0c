-- ===== src/Pcm/Overlap.antt =====
-- get_pcm3060 in callers that overlap: one step for each access to what they share, in any order.
pub mod Invariant
mod Steps
pub mod Calls
pub mod Alone
pub mod Races
pub mod Release
use pcm3060_kernelmodule.Prelude.{
  ℕ, zero, suc, ◌+◌, ◌^◌, ◌≡◌, refl, Bool, true, false, ◌&&◌, Option, none, some, ltb, ◌==◌,
  if◌then◌else◌,
}
use pcm3060_kernelmodule.Prelude.Words.{add32}
use pcm3060_kernelmodule.Kernel.Alloc.{Ptr, Block, Allocator, Struct}
use pcm3060_kernelmodule.Kernel.Platform.{Platform}
use pcm3060_kernelmodule.Devicetree.{dt_find_pcm3060_device}
use pcm3060_kernelmodule.Pcm.{Pcm3060}

-- Where a caller stands in `get_pcm3060`, with its locals.
pub data Pc : Type 0 where
  -- next `atomic_inc_return(refcount)`
  idle : Pc
  -- the first reference; next `mutex_lock`
  locking : Pc
  -- next `kmalloc`
  allocating : Pc
  -- next the store of what it returned
  storing : Option Block → Pc
  -- next `dt_find_pcm3060_device` and the store of what it returns
  finding : Ptr → Pc
  -- next the stores of NULL, then of the two functions
  clearing_left clearing_right clearing_config setting_init setting_get : Pc
  -- next `mutex_unlock`
  unlocking : Pc
  -- next the read of `pcm3060_ext`
  reading : Pc
  -- the label `r_str`, next `kfree`
  freeing : Ptr → Pc
  -- the label `r_null`, next `mutex_unlock`
  failing : Pc
  -- the call has returned
  returned : Option Ptr → Pc

-- The test of the count that `atomic_inc_return` gave, which is signed.
abbrev pub after_count : ℕ → Pc
after_count n = if ltb 1 n && ltb n (2 ^ 31) then reading else locking

-- The device, the heap, and whether the two function pointers of the object are stored.
pub record Shared (al : Allocator) : Type 0 where
  pub device : Pcm3060
  pub heap : al.Heap
  pub has_init : Bool
  pub has_get : Bool

abbrev pub set_device : {al : Allocator} → Pcm3060 → Shared al → Shared al
set_device d m = record m { device = d }

-- One access of one caller.
pub data Move (al : Allocator) (pl : Platform) (m : Shared al) : Pc → Shared al → Pc → Type 0 where
  take :
      Move al pl m idle
        (set_device (record m.device { refcount = add32 m.device.refcount 1 }) m)
        (after_count (add32 m.device.refcount 1))
  lock :
      m.device.mutex ≡ false
      → Move al pl m locking (set_device (record m.device { mutex = true }) m) allocating
  alloc :
      Move al pl m allocating
        (record m { heap = (al.kmalloc (al.sizeof Struct.pcm3060) m.heap).1 })
        (storing (al.kmalloc (al.sizeof Struct.pcm3060) m.heap).0)
  store_null :
      Move al pl m (storing none) (set_device (record m.device { pcm3060_ext = none }) m) failing
  store :
      {b : Block}
      → Move al pl m
          (storing (some b))
          (record m {
            device = record m.device { pcm3060_ext = some b.addr };
            has_init = false;
            has_get = false;
          })
          (finding b.addr)
  find :
      {p : Ptr} (dev : ℕ)
      → dt_find_pcm3060_device pl.bus ≡ some dev
      → Move al pl m (finding p) (set_device (record m.device { pdev = some dev }) m) clearing_left
  miss :
      {p : Ptr}
      → dt_find_pcm3060_device pl.bus ≡ none
      → Move al pl m (finding p) (set_device (record m.device { pdev = none }) m) (freeing p)
  clear_left :
      Move al pl m clearing_left
        (set_device (record m.device { left_chan_buffer = none }) m)
        clearing_right
  clear_right :
      Move al pl m clearing_right
        (set_device (record m.device { right_chan_buffer = none }) m)
        clearing_config
  clear_config :
      Move al pl m clearing_config (set_device (record m.device { config = none }) m) setting_init
  set_init : Move al pl m setting_init (record m { has_init = true }) setting_get
  set_get : Move al pl m setting_get (record m { has_get = true }) unlocking
  unlock :
      m.device.mutex ≡ true
      → Move al pl m unlocking (set_device (record m.device { mutex = false }) m) reading
  read : Move al pl m reading m (returned m.device.pcm3060_ext)
  release :
      {p : Ptr} {g : al.Heap}
      → al.kfree p m.heap ≡ some g
      → Move al pl m (freeing p) (record m { heap = g }) failing
  unlock_failed :
      m.device.mutex ≡ true
      → Move al pl m failing (set_device (record m.device { mutex = false }) m) (returned none)

abbrev pub update : (ℕ → Pc) → ℕ → Pc → ℕ → Pc
update pc i p j = if i == j then p else pc j

-- The calls that a step begins.
abbrev pub begun : Pc → ℕ
begun idle = 1
begun _ = 0

-- What callers reach from a state in which none of them has called, with the number of calls begun.
pub data Reach (al : Allocator) (pl : Platform) (m0 : Shared al)
    : ℕ → Shared al → (ℕ → Pc) → Type 0 where
  start : Reach al pl m0 0 m0 (λ _. idle)
  later :
      {k : ℕ} {m m' : Shared al} {pc : ℕ → Pc} {p : Pc}
      → Reach al pl m0 k m pc
      → (i : ℕ) → Move al pl m (pc i) m' p
      → Reach al pl m0 (k + begun (pc i)) m' (update pc i p)
