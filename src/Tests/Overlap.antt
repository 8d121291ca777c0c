-- ===== src/Tests/Overlap.antt =====
-- Callers of get_pcm3060 that overlap, on a device that was never used.
use pcm3060_kernelmodule.Prelude.{
  List, ◌∷◌, ℕ, ◌<◌, ◌≡◌, refl, true, false, Option, none, some, [], arith, ◌⊎◌,
}
use pcm3060_kernelmodule.Prelude.Words.{add32}
use pcm3060_kernelmodule.Kernel.Run.{ok}
use pcm3060_kernelmodule.Kernel.Alloc.{Ptr}
use pcm3060_kernelmodule.Devicetree.{dt_find_pcm3060_device}
use pcm3060_kernelmodule.Pcm.{get_pcm3060}
use pcm3060_kernelmodule.Pcm.Overlap.{
  Pc, idle, locking, reading, returned, Shared, Move, take, Reach, start, later, update,
}
use pcm3060_kernelmodule.Pcm.Overlap.Invariant.{IsUnused, creates}
use pcm3060_kernelmodule.Pcm.Overlap.Calls.{steps_left, callers_agree, never_waits}
use pcm3060_kernelmodule.Pcm.Overlap.Alone.{Alone, Alone-get}
use pcm3060_kernelmodule.Pcm.Overlap.Races.{second_call_too_early}
use pcm3060_kernelmodule.Pcm.{Pcm3060, access, put_pcm3060, free_pcm3060}
use pcm3060_kernelmodule.Kernel.Run.{fault}
use pcm3060_kernelmodule.Clock.{clock_generator_cleanup}
use pcm3060_kernelmodule.Transceiver.Setup.{tx_cleanup, stop_thread}
use pcm3060_kernelmodule.Pcm.Overlap.Release.{last_held, get_during_last_put}
use pcm3060_kernelmodule.Tests.Transceiver.{transceiver}
use pcm3060_kernelmodule.Tests.Instances.{list_allocator, take_block}
use pcm3060_kernelmodule.Tests.Platform.{platform}
use pcm3060_kernelmodule.Tests.Pcm.{closed}

abbrev at_rest : Shared list_allocator
at_rest = record { device = closed; heap = []; has_init = false; has_get = false }

at_rest-IsUnused : IsUnused at_rest
at_rest-IsUnused = record { no_refs = refl; no_object = refl; unlocked = refl }

abbrev two_refs : Shared list_allocator
two_refs = record at_rest { device = record closed { refcount = 2 } }

-- The first caller is about to lock, the second one about to read.
two_called :
    Reach list_allocator platform at_rest 2 two_refs
      (update (update (λ _. idle) 0 locking) 1 reading)
unfolding add32
two_called = later (later start 0 take) 1 take

callers_agree_example :
    ((i : ℕ) (p : Ptr)
      → update (update (λ _. idle) 0 locking) 1 reading i ≡ returned (some p)
      → closed.pcm3060_ext ≡ some p)
    × ((i j : ℕ)
        → creates (update (update (λ _. idle) 0 locking) 1 reading i) ≡ true
        → creates (update (update (λ _. idle) 0 locking) 1 reading j) ≡ true
        → i ≡ j)
callers_agree_example = callers_agree two_called at_rest-IsUnused (omega arith)

never_waits_example :
    (((o : Option Ptr) × (locking ≡ returned o))
      ⊎ ((m' : Shared list_allocator) × (p : Pc) × Move list_allocator platform two_refs locking m'
            p))
    × ((m' : Shared list_allocator) (p : Pc)
        → Move list_allocator platform two_refs locking m' p
        → steps_left p < 12)
never_waits_example = never_waits two_called at_rest-IsUnused (omega arith) 0

Alone-get_example :
    (o : Option Ptr) × (m' : Shared list_allocator) × Alone list_allocator platform at_rest idle m'
      o
    × (get_pcm3060 list_allocator platform closed [] ≡ ok ((o, m'.device), m'.heap))
Alone-get_example = Alone-get platform at_rest refl

device_found : dt_find_pcm3060_device platform.bus ≡ some 5
unfolding dt_find_pcm3060_device
device_found = refl

second_call_too_early_example :
    ((m' : Shared list_allocator) × (pc : ℕ → Pc) × Reach list_allocator platform at_rest 2 m' pc
      × (pc 0 ≡ returned (some (take_block 16 []).addr))
      × (pc 1 ≡ returned none))
    × ((m' : Shared list_allocator) × (pc : ℕ → Pc) × Reach list_allocator platform at_rest 2 m' pc
        × (pc 1 ≡ returned (some (take_block 16 []).addr))
        × (m'.has_init ≡ false)
        × (m'.has_get ≡ false))
second_call_too_early_example =
    second_call_too_early list_allocator platform at_rest (take_block 16 [])
      (list_allocator.kmalloc 16 []).1 5 refl device_found

abbrev with_spi : Pcm3060
with_spi = record closed { tx = record transceiver { spi_refs = 1 } }

cleaned : tx_cleanup true with_spi.tx ≡ ok (0, record transceiver { spi_completion = 2 })
unfolding tx_cleanup stop_thread
cleaned = refl

clock_off : clock_generator_cleanup with_spi.clock ≡ ok (0, with_spi.clock)
unfolding clock_generator_cleanup
clock_off = refl

get_during_last_put_example :
    let held = last_held list_allocator platform with_spi 50 in
    let lowered = record held { refcount = 0 } in
    let b = take_block 16 (50 ∷ []) in
    (put_pcm3060 list_allocator true (some 50) held (50 ∷ [])
      ≡ free_pcm3060 list_allocator true lowered (50 ∷ []))
    × (d : Pcm3060) × (h1 : List Ptr) × (get_pcm3060 list_allocator platform lowered (50 ∷ [])
        ≡ ok ((some b.addr, d), h1))
    × (d' : Pcm3060) × (h2 : List Ptr) × (free_pcm3060 list_allocator true d h1 ≡ ok (d', h2))
    × (access list_allocator (some b.addr) h2 ≡ fault)
    × (d'.refcount ≡ 1)
    × (list_allocator.live h2 50 ≡ true)
get_during_last_put_example =
    get_during_last_put list_allocator platform true with_spi (50 ∷ []) 50 (take_block 16 (50 ∷ []))
      5 refl device_found refl clock_off cleaned
