-- ===== src/Kernel/Memory.antt =====
-- Byte arrays of the kernel. An access outside an array is a fault.
use pcm3060_kernelmodule.Prelude.{
  ℕ, ◌+◌, ◌≤◌, ◌≡◌, ◌&&◌, List, arith, leb, if◌then◌else◌, length, slice, splice,
}
use pcm3060_kernelmodule.Kernel.Run.{Run, ok, fault}

-- memcpy(dst + to, src + from, n)
unfoldable pub memcpy : List ℕ → ℕ → List ℕ → ℕ → ℕ → Run (List ℕ)
memcpy dst to src from n =
    if leb (to + n) (length dst) && leb (from + n) (length src)
    then ok (splice dst to (slice from n src))
    else fault

pub memcpy_ok :
    (dst : List ℕ) (to : ℕ) (src : List ℕ) (from n : ℕ)
    → to + n ≤ length dst
    → from + n ≤ length src
    → memcpy dst to src from n ≡ ok (splice dst to (slice from n src))
unfolding memcpy
memcpy_ok dst to src from n h k = ground arith
