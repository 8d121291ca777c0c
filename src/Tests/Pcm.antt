-- ===== src/Tests/Pcm.antt =====
-- A device object before its first use and after, and an allocator that runs out of memory.
use pcm3060_kernelmodule.Prelude.{
  ◌+◌, ◌<◌, ℕ, ◌≡◌, refl, true, false, Option, none, some, List, [], ◌∷◌, arith, inl,
}
use pcm3060_kernelmodule.Kernel.Run.{ok, fault}
use pcm3060_kernelmodule.Kernel.Alloc.{Ptr, malloc}
use pcm3060_kernelmodule.Kernel.Platform.{neg32, Platform}
use pcm3060_kernelmodule.DuplexRing.Lifetime.{get_duplex_ring_buffer}
use pcm3060_kernelmodule.Devicetree.{dt_find_pcm3060_device}
use pcm3060_kernelmodule.Pcm.{
  Pcm3060Config, Pcm3060, access, configure_pcm3060, get_channel_buffer_end, get_pcm3060,
  put_pcm3060,
}
use pcm3060_kernelmodule.Pcm.References.{
  IsHeld, Calls, done, take, give, get_put_returns, Calls-count,
}
use pcm3060_kernelmodule.Pcm.Lifecycle.Calls.{Serves, ends, IsFreed}
use pcm3060_kernelmodule.Pcm.Lifecycle.{open_close_leaks_ends}
use pcm3060_kernelmodule.Pcm.Errors.{
  IsClosed, failed_get_hands_out_freed, failed_buffer_then_success,
}
use pcm3060_kernelmodule.Tests.Instances.{list_allocator, limited_allocator, take_block}
use pcm3060_kernelmodule.Tests.DuplexRing.{rings}
use pcm3060_kernelmodule.Tests.Platform.{platform, clock}
use pcm3060_kernelmodule.Tests.Transceiver.{transceiver, platform-Found}

abbrev pub small : Pcm3060Config
small = record { fs = 44100; buf_size = 16 }

abbrev pub closed : Pcm3060
closed = record {
  pcm3060_ext = none;
  pdev = none;
  config = none;
  cfg = small;
  left_chan_buffer = none;
  right_chan_buffer = none;
  rings = record { left_chan = rings; right_chan = rings };
  refcount = 0;
  mutex = false;
  clock = clock;
  tx = transceiver;
}

pub closed-IsClosed : IsClosed closed
closed-IsClosed = record { no_refs = refl; unlocked = refl }

abbrev held : Pcm3060
held = record closed { pcm3060_ext = some 50; pdev = some 5; refcount = 1 }

held-IsHeld : IsHeld held 50
held-IsHeld = record { pointer = refl; some_refs = omega arith; few_refs = omega arith }

abbrev heap : List Ptr
heap = 50 ∷ []

-- One reference is taken and given back.
two_calls : Calls list_allocator platform 50 held heap 1 1 held heap
two_calls =
    let (got, put, _) = get_put_returns list_allocator platform true heap held-IsHeld in
    take got (give true (omega arith) put done)

Calls-count_example :
    (held ≡ record held { refcount = 1 }) × (1 + 1 ≡ 1 + 1) × (0 < 1) × (heap ≡ heap)
Calls-count_example = Calls-count two_calls refl (omega arith) (omega arith)

abbrev no_device : Platform
no_device = record platform {
  bus = record { of_find_compatible_node = none; platform_find_device = λ n. none };
}

device_missing : dt_find_pcm3060_device no_device.bus ≡ none
unfolding dt_find_pcm3060_device
device_missing = refl

failed_get_hands_out_freed_example :
    (s' : Pcm3060) × (s'' : Pcm3060) × (h' : List Ptr) × (get_pcm3060 list_allocator no_device
        closed []
      ≡ ok ((none, s'), h'))
    × (get_pcm3060 list_allocator no_device s' h' ≡ ok ((some (take_block 16 []).addr, s''), h'))
    × (access list_allocator (some (take_block 16 []).addr) h' ≡ fault)
failed_get_hands_out_freed_example =
    failed_get_hands_out_freed list_allocator no_device closed [] (take_block 16 []) closed-IsClosed
      device_missing refl

-- Room for one block.
abbrev full : List Ptr
full = (take_block 16 []).addr ∷ []

no_buffer : get_duplex_ring_buffer (limited_allocator 1) 16 full ≡ ok (none, full)
unfolding get_duplex_ring_buffer malloc
no_buffer = refl

failed_buffer_then_success_example :
    (s' : Pcm3060) × (h' : List Ptr) × (configure_pcm3060
        (limited_allocator 1)
        platform
        (some small)
        closed
        []
      ≡ ok ((neg32 1, s'), h'))
    × (configure_pcm3060 (limited_allocator 1) platform (some small) s' h' ≡ ok ((0, s'), h'))
    × (get_channel_buffer_end (limited_allocator 1) 0 s' h' ≡ fault)
failed_buffer_then_success_example =
    failed_buffer_then_success (limited_allocator 1) platform closed small [] full
      (take_block 16 []) refl refl no_buffer

platform-Serves : Serves platform 44100
unfolding dt_find_pcm3060_device
platform-Serves = record {
  dev = 5;
  spi_dev = 9;
  thread = 77;
  pwm_dev = 1;
  on_bus = refl;
  found = platform-Found;
  runs = refl;
  grants = record { duty_ok = refl; period_kept = refl; granted = refl; accepted = λ st. refl };
  valid_fs = refl;
}

open_close_leaks_ends_example :
    (o : Option Ptr) × (s1 : Pcm3060) × (h1 : List Ptr) × (get_pcm3060 list_allocator platform
        closed []
      ≡ ok ((o, s1), h1))
    × ((p : Ptr)
        → o ≡ some p
        → (code : ℕ) × (s2 : Pcm3060) × (h2 : List Ptr) × (configure_pcm3060 list_allocator platform
              (some small)
              s1
              h1
            ≡ ok ((code, s2), h2))
          × (code ≡ 0
              → (s3 : Pcm3060) × (h3 : List Ptr) × (put_pcm3060 list_allocator true (some p) s2 h2
                  ≡ ok (s3, h3))
                × IsFreed list_allocator
                    (ends list_allocator s2.left_chan_buffer s2.right_chan_buffer)
                    []
                    s3
                    h3))
open_close_leaks_ends_example =
    open_close_leaks_ends list_allocator platform small 0 closed [] platform-Serves (inl refl) refl
