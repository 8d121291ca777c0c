-- ===== src/Tests/DuplexPipe.antt =====
-- An allocation and its release, on an allocator that never runs out.
use pcm3060_kernelmodule.Prelude.{false, ◌≡◌, Option, List, []}
use pcm3060_kernelmodule.Kernel.Run.{ok}
use pcm3060_kernelmodule.Kernel.Alloc.{Ptr}
use pcm3060_kernelmodule.Kernel.Owned.{Owns}
use pcm3060_kernelmodule.DuplexPipe.Lifetime.{
  DuplexPipeObject, get_duplex_pipe_buffer, put_duplex_pipe_buffer, kept_ends, get_put_keeps_ends,
}
use pcm3060_kernelmodule.Tests.Instances.{list_allocator}

get_put_keeps_ends_example :
    (o : Option DuplexPipeObject) × (h' : List Ptr) × (h'' : List Ptr) × (get_duplex_pipe_buffer
        list_allocator false 16 []
      ≡ ok (o, h'))
    × (put_duplex_pipe_buffer list_allocator false o h' ≡ ok (tt, h''))
    × Owns list_allocator (kept_ends list_allocator false o) [] h''
get_put_keeps_ends_example = get_put_keeps_ends list_allocator false 16 []
