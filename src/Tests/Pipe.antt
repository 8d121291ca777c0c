-- ===== src/Tests/Pipe.antt =====
-- A pipe over an eight-byte buffer that holds three bytes.
use pcm3060_kernelmodule.Prelude.{
  ℕ, ◌+◌, ◌≤◌, ◌≡◌, refl, true, [], some, arith, length, leb, if◌then◌else◌,
}
use pcm3060_kernelmodule.Kernel.Run.{ok, blocked}
use pcm3060_kernelmodule.Kernel.Completion.{all_done}
use pcm3060_kernelmodule.Pipe.{
  PipeBuffer, init_pipe, pipe_buffer_copy_from_user, pipe_buffer_read_start, pipe_buffer_read_end,
}
use pcm3060_kernelmodule.Prelude.{true, false, List}
use pcm3060_kernelmodule.Kernel.Alloc.{Ptr, malloc}
use pcm3060_kernelmodule.Kernel.Owned.{Owns, Owns-nil}
use pcm3060_kernelmodule.Kernel.Returns
use pcm3060_kernelmodule.Kernel.Returns.{Returns}
use pcm3060_kernelmodule.Buffer.Lifetime.{get_buffer, get_buffer_impl}
use pcm3060_kernelmodule.Pipe.Lifetime.{
  PipeObject, get_pipe_buffer, get_pipe_buffer_impl, get_pipe_buffer_lem, put_pipe_buffer,
  killed_put_frees_under_reader,
}
use pcm3060_kernelmodule.Tests.Instances.{list_allocator}
use pcm3060_kernelmodule.Pipe.Transfer.{IsValid, held, read_transaction}
use pcm3060_kernelmodule.Tests.Buffer.{at_offset, at_offset-IsValid, src}
use pcm3060_kernelmodule.Tests.Instances.{plain_copy}

abbrev pub pipe : ℕ → PipeBuffer
pipe k = init_pipe (at_offset k)

unfoldable pub pipe-IsValid : (k : ℕ) → k ≤ 7 → IsValid (pipe k)
unfolding init_pipe
pipe-IsValid k h = record {
  inner = at_offset k;
  there = refl;
  valid = at_offset-IsValid k h;
  counted = omega arith;
  no_reader = refl;
}

abbrev three : IsValid (pipe 3)
three = pipe-IsValid 3 (omega arith)

-- The reader takes two of the three bytes.
read_transaction_example :
    (p1 : PipeBuffer) × (p2 : PipeBuffer) × (pipe_buffer_read_start (some (pipe 3)) true
      ≡ ((length (held three), some 0), some p1))
    × (pipe_buffer_copy_from_user plain_copy false (some p1) (some src) 2 ≡ blocked)
    × (pipe_buffer_read_end (some p1) 2 ≡ ok (some p2))
    × (p2.read_completion ≡ all_done)
    × ((v2 : IsValid p2) × (held v2
          ≡ (if leb (length (held three)) ((pipe 3).n_bytes_read + 2) then [] else held three)))
read_transaction_example = read_transaction plain_copy (some src) 2 2 three (omega arith)

-- A new pipe of sixteen bytes.
new_pipe :
    (o : PipeObject) × (h : List Ptr) × (get_pipe_buffer list_allocator 16 [] ≡ ok (some o, h))
unfolding get_pipe_buffer get_pipe_buffer_impl get_buffer get_buffer_impl malloc
new_pipe = (_, _, refl)

-- The same while two readers read.
abbrev reading : PipeObject
reading = record new_pipe.0 {
  pipe = record (init_pipe new_pipe.0.buf.buffer) { n_active_readers = 2; read_completion = 0 };
}

buf_there : reading.pipe.buf ≡ some new_pipe.0.buf.buffer
unfolding init_pipe
buf_there = refl

killed_put_frees_under_reader_example :
    (put_pipe_buffer list_allocator false (some reading) new_pipe.1 ≡ blocked)
    × Returns
        (λ _ h'. Owns list_allocator [] [] h')
        (put_pipe_buffer list_allocator true (some reading) new_pipe.1)
killed_put_frees_under_reader_example =
    let got =
      Returns.at_result (get_pipe_buffer_lem list_allocator 16 (Owns-nil list_allocator []))
        new_pipe.2 in
    killed_put_frees_under_reader list_allocator reading new_pipe.0.buf.buffer (omega arith) refl
      buf_there got.1 got.0
