-- ===== src/DualBuffer/Transfer.antt =====
-- Two buffers behave as a mailbox: a copy hands out what was written since the copy before it.
use pcm3060_kernelmodule.Prelude.{
  ℕ, ◌+◌, ◌-◌, ◌^◌, ◌≤◌, ◌<◌, min, ◌≡◌, refl, ap, ◌∙◌, true, Option, some, List, [], ◌++◌, arith,
  length, drop, slice, slice-zero,
}
use pcm3060_kernelmodule.Prelude.Words.{add32, sub32}
use pcm3060_kernelmodule.Kernel.Run.{ok}
use pcm3060_kernelmodule.Kernel.User.{UserCopy}
use pcm3060_kernelmodule.Buffer.{Buffer, buffer_read}
use pcm3060_kernelmodule.Buffer.Invariant
use pcm3060_kernelmodule.Buffer.Invariant.{contents, room}
use pcm3060_kernelmodule.Buffer.Transfer.{
  write_copy_appends, read_copy_window, reset_empties, length-contents, sync_idle, read_all,
}
use pcm3060_kernelmodule.DualBuffer.{DualBuffer, switch_buf_start, write, copy, read, release_read}

-- Both buffers are there and valid, and nobody reads.
pub record IsValid (d : DualBuffer) : Type 0 where
  pub to_read : Buffer
  pub to_write : Buffer
  pub read_buf : d.read_buf ≡ some to_read
  pub write_buf : d.write_buf ≡ some to_write
  pub valid_read : Invariant.IsValid to_read
  pub valid_write : Invariant.IsValid to_write
  pub no_reader : d.n_active_readers ≡ 0

-- The bytes that the next copy sees, and the bytes that the last one saw.
abbrev pub written : {d : DualBuffer} → IsValid d → List ℕ
written v = contents v.to_write

abbrev pub readable : {d : DualBuffer} → IsValid d → List ℕ
readable v = contents v.to_read

-- What the first reader finds: the written bytes to read, and an empty buffer to write.
start_ok :
    {d : DualBuffer} (v : IsValid d)
    → (e : Buffer) × (switch_buf_start d
        ≡ ok (record { n_active_readers = 1; read_buf = some v.to_write; write_buf = some e }))
      × Invariant.IsValid e
      × (contents e ≡ [])
      × (room e ≡ v.to_read.bufsize - 1)
unfolding switch_buf_start add32
start_ok {d} v =
    let (e, emptied, valid, empty, space) = reset_empties v.valid_read in
    let synced = sync_idle v.valid_write in
    (e, rw (v.read_buf, v.write_buf, v.no_reader, emptied, synced) refl, valid, empty, space)

-- `_copy` at a valid object without readers hands out, from offset `off` on, the bytes written since
-- the last copy, and returns the number of those that are missing. Afterwards the object is valid,
-- what was written is what can be read, and nothing is left to a next copy.
pub copy_switches :
    (uc : UserCopy) {d : DualBuffer} (dst : List ℕ) (n off : ℕ) (v : IsValid d)
    → n < 2 ^ 32
    → n ≤ length dst
    → let k = min n (length (written v) - off) in
      (d' : DualBuffer) × (copy uc (some d) (some dst) n off
        ≡ ok (n - k, some (slice off k (written v) ++ drop k dst), some d'))
      × ((v' : IsValid d') × (readable v' ≡ written v) × (written v' ≡ []))
unfolding copy sub32
copy_switches uc {d} dst n off v small h =
    let (e, started, valid, empty, space) = start_ok v in
    let window = read_copy_window uc dst n off v.valid_write small h in
    let len = length-contents v.valid_write in
    (
      record { n_active_readers = 0; read_buf = some v.to_write; write_buf = some e },
      rw (started, window, len) refl,
      (
        record {
          to_read = v.to_write;
          to_write = e;
          read_buf = refl;
          write_buf = refl;
          valid_read = v.valid_write;
          valid_write = valid;
          no_reader = refl;
        },
        refl,
        empty,
      ),
    )

-- `_write` at a valid object appends what there is room for to what the next copy sees, returns the
-- number of the other bytes, and leaves what was read last, unless the buffer's offset would wrap.
pub write_collects :
    (uc : UserCopy) {d : DualBuffer} (src : List ℕ) (n : ℕ) (v : IsValid d)
    → v.to_write.write_off + n < 2 ^ 32
    → n ≤ length src
    → let w = min n (room v.to_write) in
      (d' : DualBuffer) × (write uc (some d) (some src) n ≡ ok (n - w, some d'))
      × ((v' : IsValid d') × (written v' ≡ written v ++ slice 0 w src) × (readable v' ≡ readable v))
unfolding write
write_collects uc {d} src n v fits h =
    let (b, done, valid, holds) = write_copy_appends uc src n v.valid_write fits h in
    (
      record d { write_buf = some b },
      rw (v.write_buf, done) refl,
      (
        record {
          to_read = v.to_read;
          to_write = b;
          read_buf = v.read_buf;
          write_buf = refl;
          valid_read = v.valid_read;
          valid_write = valid;
          no_reader = v.no_reader;
        },
        holds,
        refl,
      ),
    )

-- A second `_copy` right after a first one hands out nothing, at any offset, even where the first
-- one asked for a part of the bytes only: the rest of them is lost to it.
pub second_copy_finds_nothing :
    (uc : UserCopy) {d : DualBuffer} (dst dst' : List ℕ) (n n' off off' : ℕ)
    → IsValid d
    → n < 2 ^ 32
    → n ≤ length dst
    → n' < 2 ^ 32
    → n' ≤ length dst'
    → (k : ℕ) × (out : Option (List ℕ)) × (d' : DualBuffer) × (d'' : DualBuffer) × (copy uc
          (some d)
          (some dst)
          n
          off
        ≡ ok (k, out, some d'))
      × (copy uc (some d') (some dst') n' off' ≡ ok (n', some dst', some d''))
      × IsValid d''
second_copy_finds_nothing uc dst dst' n n' off off' v small h small' h' =
    let (d', done, (v', same, empty)) = copy_switches uc dst n off v small h in
    let (d'', again, (v'', same', empty')) = copy_switches uc dst' n' off' v' small' h' in
    let none_left : min n' (length (written v') - off') ≡ 0 = omega (arith, ap length empty) in
    let all_left : n' - min n' (length (written v') - off') ≡ n' = omega (arith, none_left) in
    (_, _, d', d'', done, again ∙ rw (all_left, none_left, slice-zero) refl, v'')

-- While a reader has the buffer that `_read` gave it, writes and copies do not disturb it: a write
-- goes to the other buffer, a copy sees the reader's bytes again, and `_release_read` leaves a
-- valid object, with the reader's bytes still to read and the new ones to come.
pub reader_keeps_buffer :
    (uc : UserCopy) {d : DualBuffer} (src dst : List ℕ) (n m off : ℕ) (v : IsValid d)
    → n < v.to_read.bufsize
    → n ≤ length src
    → m < 2 ^ 32
    → m ≤ length dst
    → let k = min m (length (written v) - off) in
      (d1 : DualBuffer) × (d2 : DualBuffer) × (d3 : DualBuffer) × (d4 : DualBuffer) × (read
          (some d)
          true
          0
        ≡ ok ((length (written v), some 0), some d1))
      × (write uc (some d1) (some src) n ≡ ok (0, some d2))
      × (copy uc (some d2) (some dst) m off
          ≡ ok (m - k, some (slice off k (written v) ++ drop k dst), some d3))
      × (release_read (some d3) ≡ some d4)
      × ((v' : IsValid d4) × (readable v' ≡ written v) × (written v' ≡ slice 0 n src))
unfolding read write copy release_read add32 sub32 switch_buf_start buffer_read
reader_keeps_buffer uc {d} src dst n m off v fits h small hd =
    let (e, started, valid, empty, space) = start_ok v in
    let roomy : min n (room e) ≡ n = omega (arith, space) in
    let none_dropped : n - min n (room e) ≡ 0 = omega (arith, space) in
    let off_zero : e.write_off + n < 2 ^ 32 =
      omega (arith, space, length-contents valid, ap length empty) in
    let (b, done, valid_b, holds) = write_copy_appends uc src n valid off_zero h in
    let window = read_copy_window uc dst m off v.valid_write small hd in
    let len = length-contents v.valid_write in
    (
      record { n_active_readers = 1; read_buf = some v.to_write; write_buf = some e },
      record { n_active_readers = 1; read_buf = some v.to_write; write_buf = some b },
      record { n_active_readers = 1; read_buf = some v.to_write; write_buf = some b },
      record { n_active_readers = 0; read_buf = some v.to_write; write_buf = some b },
      rw (started, read_all v.valid_write) refl,
      rw (done, none_dropped) refl,
      rw (window, len) refl,
      refl,
      (
        record {
          to_read = v.to_write;
          to_write = b;
          read_buf = refl;
          write_buf = refl;
          valid_read = v.valid_write;
          valid_write = valid_b;
          no_reader = refl;
        },
        refl,
        rw (holds, empty, roomy) refl,
      ),
    )
