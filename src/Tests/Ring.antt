-- ===== src/Tests/Ring.antt =====
-- Rings of eight bytes: one whose bytes lie in one piece, one whose bytes go round the end.
use pcm3060_kernelmodule.Prelude.{
  ℕ, ◌+◌, ◌-◌, ◌%◌, ◌≡◌, refl, false, none, some, List, [], ◌∷◌, ◌++◌, arith, take, drop, leb,
  slice, splice, if◌then◌else◌,
}
use pcm3060_kernelmodule.Prelude.Words.{add32, sub32}
use pcm3060_kernelmodule.Kernel.Run.{ok, fault}
use pcm3060_kernelmodule.Kernel.Memory.{memcpy}
use pcm3060_kernelmodule.Ring.{
  RingBuffer, write_split, ring_buffer_write, ring_buffer_read, ring_buffer_n_bytes_readable,
  ring_buffer_n_bytes_writable, memcpy_rest, store, fetch, read_split,
}
use pcm3060_kernelmodule.Ring.Bounds.{IsValid, written, write_ok}
use pcm3060_kernelmodule.Ring.Reads.{fetched, read_ok}
use pcm3060_kernelmodule.Ring.Contents.{contents, FitsInOnePiece}
use pcm3060_kernelmodule.Ring.Queue.{
  write_enqueues, read_dequeues, Session, done, put, get, Session-fifo,
}
use pcm3060_kernelmodule.Ring.Limits.{read_ignores_writer}
use pcm3060_kernelmodule.Tests.Instances.{plain_copy}

abbrev ahead : RingBuffer
ahead = record {
  size = 8;
  buf = 10 ∷ 11 ∷ 12 ∷ 13 ∷ 14 ∷ 15 ∷ 16 ∷ 17 ∷ [];
  read_idx = 1;
  write_idx = 4;
  mx = false;
}

abbrev round : RingBuffer
round = record ahead { read_idx = 6; write_idx = 2 }

abbrev empty : RingBuffer
empty = record ahead { read_idx = 0; write_idx = 0 }

abbrev bytes : List ℕ
bytes = 1 ∷ 2 ∷ 3 ∷ 4 ∷ 5 ∷ 6 ∷ 7 ∷ 8 ∷ []

ahead-IsValid : IsValid ahead
ahead-IsValid = record {
  storage = refl;
  small = omega arith;
  read_in = omega arith;
  write_in = omega arith;
  idle = refl;
}

round-IsValid : IsValid round
round-IsValid = record {
  storage = refl;
  small = omega arith;
  read_in = omega arith;
  write_in = omega arith;
  idle = refl;
}

contents-round : contents round ≡ 16 ∷ 17 ∷ 10 ∷ 11 ∷ []
unfolding contents slice
contents-round = refl

write-run :
    ring_buffer_write plain_copy (some ahead) (some bytes) 2
    ≡ ok (0, record ahead { buf = 10 ∷ 11 ∷ 12 ∷ 13 ∷ 1 ∷ 2 ∷ 16 ∷ 17 ∷ []; write_idx = 6 })
unfolding ring_buffer_write write_split store memcpy memcpy_rest add32 sub32 slice splice
write-run = refl

-- The last two of six bytes are lost: the first two are written again in their place.
wrapped_write-run :
    ring_buffer_write plain_copy (some ahead) (some bytes) 6
    ≡ ok (0, record ahead { buf = 1 ∷ 2 ∷ 12 ∷ 13 ∷ 1 ∷ 2 ∷ 3 ∷ 4 ∷ []; write_idx = 2 })
unfolding ring_buffer_write write_split store memcpy memcpy_rest add32 sub32 slice splice
wrapped_write-run = refl

read_wrapped-run :
    ring_buffer_read plain_copy (some round) (some (0 ∷ 0 ∷ 0 ∷ [])) 3
    ≡ ok (0, some (10 ∷ 17 ∷ 0 ∷ []), record round { read_idx = 1 })
unfolding ring_buffer_read read_split fetch memcpy memcpy_rest add32 sub32 slice splice
read_wrapped-run = refl

null_ring-run : ring_buffer_write plain_copy none (some bytes) 2 ≡ fault
unfolding ring_buffer_write
null_ring-run = refl

write_ok_example :
    ring_buffer_write plain_copy (some ahead) (some bytes) 6
    ≡ ok (
      6 - ((write_split ahead 6).0 + (write_split ahead 6).1),
      written ahead bytes (write_split ahead 6).0 (write_split ahead 6).1,
    )
write_ok_example = write_ok plain_copy bytes 6 ahead-IsValid (omega arith) (omega arith)

round_readable : ring_buffer_n_bytes_readable round ≡ 4
unfolding ring_buffer_n_bytes_readable sub32
round_readable = refl

ahead_fits : FitsInOnePiece ahead 2
unfolding ring_buffer_n_bytes_writable sub32
ahead_fits = record { room = omega arith; ahead = omega arith }

read_ok_example :
    let (a, b) = read_split round 3 in
    ring_buffer_read plain_copy (some round) (some (0 ∷ 0 ∷ 0 ∷ [])) 3
    ≡ ok (0, some (fetched round (0 ∷ 0 ∷ 0 ∷ []) a b), record round { read_idx = (6 + 3) % 8 })
read_ok_example =
    read_ok plain_copy (0 ∷ 0 ∷ 0 ∷ []) 3 round-IsValid (omega (arith, round_readable))
      (omega arith)

write_enqueues_example :
    (r' : RingBuffer) × (ring_buffer_write plain_copy (some ahead) (some bytes) 2 ≡ ok (0, r'))
    × IsValid r'
    × (contents r' ≡ contents ahead ++ take 2 bytes)
write_enqueues_example = write_enqueues plain_copy bytes 2 ahead-IsValid ahead_fits (omega arith)

read_dequeues_example :
    (r' : RingBuffer) × (ring_buffer_read plain_copy (some round) (some (0 ∷ 0 ∷ 0 ∷ [])) 2
      ≡ ok (0, some (take 2 (contents round) ++ drop 2 (0 ∷ 0 ∷ 0 ∷ [])), r'))
    × IsValid r'
    × (contents r' ≡ drop 2 (contents round))
read_dequeues_example =
    read_dequeues plain_copy (0 ∷ 0 ∷ 0 ∷ []) 2 round-IsValid (omega (arith, round_readable))
      (omega arith) (omega arith)

-- Two bytes in, three bytes out.
abbrev after_put : RingBuffer
after_put = record ahead { buf = 10 ∷ 11 ∷ 12 ∷ 13 ∷ 1 ∷ 2 ∷ 16 ∷ 17 ∷ []; write_idx = 6 }

abbrev after_get : RingBuffer
after_get = record after_put { read_idx = 4 }

get-run :
    ring_buffer_read plain_copy (some after_put) (some (0 ∷ 0 ∷ 0 ∷ [])) 3
    ≡ ok (0, some (11 ∷ 12 ∷ 13 ∷ []), after_get)
unfolding ring_buffer_read read_split fetch memcpy memcpy_rest add32 sub32 slice splice
get-run = refl

after_put_readable : ring_buffer_n_bytes_readable after_put ≡ 5
unfolding ring_buffer_n_bytes_readable sub32
after_put_readable = refl

session : Session plain_copy ahead (1 ∷ 2 ∷ []) (11 ∷ 12 ∷ 13 ∷ []) after_get
session = put bytes 2 ahead_fits (omega arith) write-run (
    get (0 ∷ 0 ∷ 0 ∷ []) 3 (omega (arith, after_put_readable)) (omega arith) (omega arith) get-run
      done)

Session-fifo_example :
    (contents ahead ++ (1 ∷ 2 ∷ []) ≡ (11 ∷ 12 ∷ 13 ∷ []) ++ contents after_get) × IsValid after_get
Session-fifo_example = Session-fifo plain_copy ahead-IsValid session

-- Five bytes where three are readable.
read_ignores_writer_example : ring_buffer_read plain_copy (some ahead) (some bytes) 5 ≡ (
    if leb (1 + 5) 8
    then ok
        (0, some (splice bytes 0 (slice 1 5 ahead.buf)), record ahead { read_idx = (1 + 5) % 8 })
    else fault)
read_ignores_writer_example =
    read_ignores_writer plain_copy bytes 5 ahead-IsValid (omega arith) (omega arith) (omega arith)
