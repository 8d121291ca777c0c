-- ===== src/Tests/DualBuffer.antt =====
-- A dual buffer of two eight-byte buffers, three bytes of them to read and three written.
use pcm3060_kernelmodule.Prelude.{◌-◌, ◌≡◌, refl, min, ◌++◌, some, arith, length, drop, slice, true}
use pcm3060_kernelmodule.Kernel.Run.{ok}
use pcm3060_kernelmodule.DualBuffer.{DualBuffer, write, copy, read, release_read}
use pcm3060_kernelmodule.DualBuffer.Transfer.{IsValid, written, readable, reader_keeps_buffer}
use pcm3060_kernelmodule.Tests.Buffer.{at_offset, at_offset-IsValid, src}
use pcm3060_kernelmodule.Prelude.{true, false, not, ◌≤◌, ◌≡◌, refl, [], ◌∷◌, arith}
use pcm3060_kernelmodule.Prelude.Words.{add32}
use pcm3060_kernelmodule.DualBuffer.Readers.{
  at_rest, idlers, Reach, here, next, loading, writing, idle, register, begin_write, total, counted,
  swapping,
}
use pcm3060_kernelmodule.DualBuffer.Readers.Swaps.{swaps_keep_both}
use pcm3060_kernelmodule.Tests.Instances.{plain_copy}

abbrev dual : DualBuffer
dual = record {
  n_active_readers = 0;
  read_buf = some (at_offset 3);
  write_buf = some (at_offset 3);
}

unfoldable dual-IsValid : IsValid dual
dual-IsValid = record {
  to_read = at_offset 3;
  to_write = at_offset 3;
  read_buf = refl;
  write_buf = refl;
  valid_read = at_offset-IsValid 3 (omega arith);
  valid_write = at_offset-IsValid 3 (omega arith);
  no_reader = refl;
}

reader_keeps_buffer_example :
    let k = min 2 (length (written dual-IsValid) - 1) in
    (d1 : DualBuffer) × (d2 : DualBuffer) × (d3 : DualBuffer) × (d4 : DualBuffer) × (read
        (some dual)
        true
        0
      ≡ ok ((length (written dual-IsValid), some 0), some d1))
    × (write plain_copy (some d1) (some src) 4 ≡ ok (0, some d2))
    × (copy plain_copy (some d2) (some src) 2 1
        ≡ ok (2 - k, some (slice 1 k (written dual-IsValid) ++ drop k src), some d3))
    × (release_read (some d3) ≡ some d4)
    × ((v' : IsValid d4) × (readable v' ≡ written dual-IsValid) × (written v' ≡ slice 0 4 src))
unfolding dual-IsValid
reader_keeps_buffer_example =
    reader_keeps_buffer plain_copy src src 4 2 1 dual-IsValid (omega arith) (omega arith)
      (omega arith) (omega arith)

-- One reader is about to swap, one writer has started.
two_threads :
    Reach
      (at_rest true)
      (idlers 2)
      (record (at_rest true) { n_active_readers = 1 })
      (loading ∷ writing false ∷ [])
unfolding add32
two_threads = next (loading ∷ []) [] (next [] (idle ∷ []) here register) begin_write

swaps_keep_both_example :
    (1 ≡ total counted (loading ∷ writing false ∷ []))
    × (total swapping (loading ∷ writing false ∷ []) ≤ 1)
    × (total swapping (loading ∷ writing false ∷ []) ≡ 0 → true ≡ not false)
swaps_keep_both_example = swaps_keep_both 2 two_threads refl refl (omega arith)
