-- ===== src/Tests/Buffer.antt =====
-- Buffers of eight bytes: an empty one, one with three bytes, one with seven, one that is reserved.
use pcm3060_kernelmodule.Prelude.{
  ℕ, ◌-◌, ◌≤◌, ◌<◌, min, ◌≡◌, ◌⊎◌, refl, false, List, [], ◌∷◌, ◌++◌, some, arith, slice,
}
use pcm3060_kernelmodule.Kernel.Run.{ok, blocked}
use pcm3060_kernelmodule.Buffer.{
  Buffer, init_buffer, buffer_write_copy, buffer_read_copy, buffer_reset,
}
use pcm3060_kernelmodule.Buffer.Invariant.{IsValid, contents, room}
use pcm3060_kernelmodule.Buffer.Transfer.{write_copy_appends, write_read_roundtrip}
use pcm3060_kernelmodule.Buffer.Alone.{Alone, Alone-write}
use pcm3060_kernelmodule.Buffer.LockOut.{at_rest, overlap_locks_out}
use pcm3060_kernelmodule.Buffer.Writers.{Move, System}
use pcm3060_kernelmodule.Prelude.{◌-◌}
use pcm3060_kernelmodule.Buffer.Writers.{
  Pc, pick, Reach, here, next, Apart, low, high, update, idle, entered, enter, writers-Apart,
}
use pcm3060_kernelmodule.Tests.Instances.{plain_copy}

abbrev eight : List ℕ
eight = 10 ∷ 11 ∷ 12 ∷ 13 ∷ 14 ∷ 15 ∷ 16 ∷ 17 ∷ []

abbrev pub at_offset : ℕ → Buffer
at_offset k = record {
  buf = eight;
  bufsize = 8;
  write_off = k;
  n_bytes_written = k;
  n_bytes_written_tmp = 0;
  n_active_writters = 0;
  mlock = false;
}

pub at_offset-IsValid : (k : ℕ) → k ≤ 7 → IsValid (at_offset k)
at_offset-IsValid k h = record {
  storage = refl;
  small = omega arith;
  offset = omega arith;
  counted = omega arith;
  settled = refl;
  alone = refl;
  unlocked = refl;
}

abbrev pub src : List ℕ
src = 20 ∷ 21 ∷ 22 ∷ 23 ∷ 24 ∷ 25 ∷ []

-- Six bytes for a buffer that has room for four.
write_copy_appends_example :
    let w = min 6 (room (at_offset 3)) in
    (b' : Buffer) × (buffer_write_copy plain_copy (some (at_offset 3)) (some src) 6
      ≡ ok (6 - w, some b'))
    × IsValid b'
    × (contents b' ≡ contents (at_offset 3) ++ slice 0 w src)
write_copy_appends_example =
    write_copy_appends plain_copy src 6 (at_offset-IsValid 3 (omega arith)) (omega arith)
      (omega arith)

write_read_roundtrip_example :
    (b' : Buffer) × (buffer_write_copy plain_copy (some (init_buffer eight 8)) (some src) 6
      ≡ ok (0, some b'))
    × (buffer_read_copy plain_copy (some b') (some src) 6 0 ≡ ok (0, some (slice 0 6 src)))
write_read_roundtrip_example =
    write_read_roundtrip plain_copy eight src src 8 6 (omega arith) (omega arith) (omega arith)
      (omega arith) (omega arith)

-- Two writers have passed the first check.
abbrev two_entered : ℕ → Pc
two_entered = update (update (λ _. idle) 0 (entered 2)) 1 (entered 3)

two_entered-Reach : Reach (at_offset 3) (record { mem = at_offset 3; pc = two_entered })
two_entered-Reach =
    next (next here (pick 0 (enter 2 (omega arith) (omega arith))))
      (pick 1 (enter 3 (omega arith) (omega arith)))

writers-Apart_example :
    Apart (two_entered 0) (two_entered 1)
    × ((high (two_entered 0) < 8) ⊎ (high (two_entered 0) ≡ low (two_entered 0)))
writers-Apart_example = writers-Apart (omega arith) two_entered-Reach 0 1 (omega arith)

Alone-write_example :
    (b' : Buffer) × Move (at_offset 3) idle (at_offset 3) (entered 6)
    × Alone (at_offset 3) (entered 6) b'
    × (buffer_write_copy plain_copy (some (at_offset 3)) (some src) 6
        ≡ ok (6 - min 6 (room (at_offset 3)), some b'))
Alone-write_example =
    Alone-write plain_copy src 6 (at_offset-IsValid 3 (omega arith)) (omega arith) (omega arith)
      (omega arith) (omega arith)

overlap_locks_out_example :
    (s : System) × (r : Buffer) × Reach (at_rest (at_offset 3)) s
    × ((i : ℕ) → s.pc i ≡ idle)
    × (buffer_reset (some s.mem) ≡ ok (some r))
    × ((src : List ℕ) (m : ℕ)
        → 0 < m
        → (buffer_write_copy plain_copy (some s.mem) (some src) m ≡ blocked)
          × (buffer_write_copy plain_copy (some r) (some src) m ≡ blocked))
overlap_locks_out_example =
    overlap_locks_out (at_offset 3) 1 2 (omega arith) (omega arith) (omega arith) (omega arith)
      plain_copy
