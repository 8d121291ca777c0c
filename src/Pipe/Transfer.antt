-- ===== src/Pipe/Transfer.antt =====
-- A pipe between calls: what was written and not yet read to the end.
use pcm3060_kernelmodule.Prelude.{
  ℕ, zero, suc, ◌+◌, ◌-◌, ◌^◌, ◌≤◌, ◌<◌, min, ◌≡◌, refl, sym, ap, true, false, Option, some, List,
  [], ◌++◌, arith, length, length-append, leb, if◌then◌else◌, dec_le,
}
use pcm3060_kernelmodule.Prelude.Words.{add32, sub32, add32-eq}
use pcm3060_kernelmodule.Prelude.{Bool, false}
use pcm3060_kernelmodule.Kernel.Run.{ok, blocked}
use pcm3060_kernelmodule.Kernel.User.{UserCopy}
use pcm3060_kernelmodule.Kernel.Completion.{Completion, all_done, wait_for_completion_killable}
use pcm3060_kernelmodule.Buffer.{Buffer, buffer_get_n_bytes_readable}
use pcm3060_kernelmodule.Buffer.Invariant
use pcm3060_kernelmodule.Buffer.Invariant.{contents, room}
use pcm3060_kernelmodule.Buffer.Transfer.{reset_empties, length-contents, read_all}
use pcm3060_kernelmodule.Buffer.User.{user_copy_appends}
use pcm3060_kernelmodule.Pipe.{
  PipeBuffer, init_pipe, wait_for_read_complete, notify_data_write, check_reset_after_read,
  pipe_buffer_copy_from_user, pipe_buffer_n_bytes_available, pipe_buffer_read_start,
  pipe_buffer_read_end,
}

-- No reader is active, and the bytes that were read do not exceed the bytes that are there.
pub record IsValid (p : PipeBuffer) : Type 0 where
  pub inner : Buffer
  pub there : p.buf ≡ some inner
  pub valid : Invariant.IsValid inner
  pub counted : p.n_bytes_read ≤ inner.n_bytes_written
  pub no_reader : p.n_active_readers ≡ 0

-- The bytes that the pipe holds.
abbrev pub held : {p : PipeBuffer} → IsValid p → List ℕ
held v = contents v.inner

pub available-held :
    {p : PipeBuffer} (v : IsValid p) → pipe_buffer_n_bytes_available (some p) ≡ length (held v)
unfolding pipe_buffer_n_bytes_available buffer_get_n_bytes_readable
available-held v = rw v.there (sym (length-contents v.valid))

-- `_check_reset_after_read` adds to the bytes that were read, and empties a pipe that was read to
-- the end.
pub check_reset_ok :
    {p : PipeBuffer} (k : ℕ) (v : IsValid p)
    → k < 2 ^ 31
    → (p' : PipeBuffer) × (check_reset_after_read p k ≡ ok p')
      × (p'.read_completion ≡ p.read_completion)
      × (p'.write_completion ≡ p.write_completion)
      × ((v' : IsValid p') × (held v'
            ≡ (if leb (length (held v)) (p.n_bytes_read + k) then [] else held v))
          × (p'.n_bytes_read
              ≡ (if leb (length (held v)) (p.n_bytes_read + k) then 0 else p.n_bytes_read + k)))
unfolding check_reset_after_read buffer_get_n_bytes_readable
check_reset_ok {p} k v small =
    let len = length-contents v.valid in
    let sum = add32-eq p.n_bytes_read k (omega arith) in
    elim (dec_le (length (held v)) (p.n_bytes_read + k)) [
      | yes all ↦
          let (b, done, valid, empty, space) = reset_empties v.valid in
          let test : leb (length (held v)) (p.n_bytes_read + k) ≡ true = ground arith in
          let counted : leb v.inner.n_bytes_written (p.n_bytes_read + k) ≡ true =
            ground (arith, len) in
          (
            record p { n_bytes_read = 0; buf = some b },
            rw (v.there, sum, counted, done) refl,
            refl,
            refl,
            (
              record {
                inner = b;
                there = refl;
                valid = valid;
                counted = omega arith;
                no_reader = v.no_reader;
              },
              rw test empty,
              rw test refl,
            ),
          )
      | no some_left ↦
          let test : leb (length (held v)) (p.n_bytes_read + k) ≡ false = ground arith in
          let counted : leb v.inner.n_bytes_written (p.n_bytes_read + k) ≡ false =
            ground (arith, len) in
          (
            record p { n_bytes_read = p.n_bytes_read + k },
            rw (v.there, sum, counted) refl,
            refl,
            refl,
            (
              record {
                inner = v.inner;
                there = v.there;
                valid = v.valid;
                counted = omega (arith, len);
                no_reader = v.no_reader;
              },
              rw test refl,
              rw test refl,
            ),
          )
    ]

pub init_pipe-IsValid : {b : Buffer} → Invariant.IsValid b → IsValid (init_pipe b)
unfolding init_pipe
init_pipe-IsValid {b} v = record {
  inner = b;
  there = refl;
  valid = v;
  counted = omega arith;
  no_reader = refl;
}

refilled :
    {p : PipeBuffer} {b : Buffer} (bs : List ℕ) (c : Completion) (v : IsValid p)
    → Invariant.IsValid b
    → contents b ≡ held v ++ bs
    → (v' : IsValid (record p { buf = some b; write_completion = c })) × (held v' ≡ held v ++ bs)
refilled {p} {b} bs c v valid holds = (
  record {
    inner = b;
    there = refl;
    valid = valid;
    counted = omega (
      arith,
      length-contents valid,
      length-contents v.valid,
      ap length holds,
      length-append (held v) bs,
    );
    no_reader = v.no_reader;
  },
  holds,
)

-- `pipe_buffer_copy_from_user` on a valid pipe without readers does not wait. It appends what the
-- user copy delivers for as many bytes as there is room for, returns the number of the others and of
-- those that the user copy left out, and lets every waiting reader pass if any byte was asked for,
-- unless the buffer's offset would wrap.
pub pipe_write_appends :
    (uc : UserCopy) {p : PipeBuffer} (killed : Bool) (src : List ℕ) (n : ℕ) (v : IsValid p)
    → v.inner.write_off + n < 2 ^ 32
    → let w = min n (room v.inner) in
      (p' : PipeBuffer) × (pipe_buffer_copy_from_user uc killed (some p) (some src) n
        ≡ ok (n - w + (uc.from_user src w).1, some p'))
      × (0 < n → p'.write_completion ≡ all_done)
      × ((v' : IsValid p') × (held v' ≡ held v ++ (uc.from_user src w).0))
unfolding pipe_buffer_copy_from_user wait_for_read_complete notify_data_write
pipe_write_appends uc {p} killed src zero v fits =
    let (b, done, valid, holds) = user_copy_appends uc src 0 v.valid fits in
    (
      record p { buf = some b },
      rw (v.no_reader, v.there, done) refl,
      (λ none_asked. absurd (omega arith)),
      refilled _ p.write_completion v valid holds,
    )
pipe_write_appends uc {p} killed src (suc n) v fits =
    let (b, done, valid, holds) = user_copy_appends uc src (suc n) v.valid fits in
    (
      record p { buf = some b; write_completion = all_done },
      rw (v.no_reader, v.there, done) refl,
      (λ asked. refl),
      refilled _ all_done v valid holds,
    )

-- One reader at a time. `pipe_buffer_read_start` hands out all the bytes; until the end of the
-- reading a writer has to wait, where no fatal signal comes; `pipe_buffer_read_end` with `k` bytes lets writers go on, and empties
-- the pipe if the bytes read since the last reset are as many as it holds.
pub read_transaction :
    (uc : UserCopy) {p : PipeBuffer} (src : Option (List ℕ)) (n k : ℕ) (v : IsValid p)
    → k < 2 ^ 31
    → (p1 : PipeBuffer) × (p2 : PipeBuffer) × (pipe_buffer_read_start (some p) true
        ≡ ((length (held v), some 0), some p1))
      × (pipe_buffer_copy_from_user uc false (some p1) src n ≡ blocked)
      × (pipe_buffer_read_end (some p1) k ≡ ok (some p2))
      × (p2.read_completion ≡ all_done)
      × ((v2 : IsValid p2) × (held v2
            ≡ (if leb (length (held v)) (p.n_bytes_read + k) then [] else held v)))
unfolding pipe_buffer_read_start pipe_buffer_copy_from_user pipe_buffer_read_end
    wait_for_completion_killable add32 sub32
read_transaction uc {p} src n k v small =
    let idle = record p { n_active_readers = 0; read_completion = 0 } in
    let valid_idle : IsValid idle = record {
      inner = v.inner;
      there = v.there;
      valid = v.valid;
      counted = v.counted;
      no_reader = refl;
    } in
    let (p', done, _, _, (v', holds, _)) = check_reset_ok k valid_idle small in
    (
      record p { n_active_readers = 1; read_completion = 0 },
      record p' { read_completion = all_done },
      rw (v.there, v.no_reader, read_all v.valid) refl,
      refl,
      rw done refl,
      refl,
      (
        record {
          inner = v'.inner;
          there = v'.there;
          valid = v'.valid;
          counted = v'.counted;
          no_reader = v'.no_reader;
        },
        holds,
      ),
    )
