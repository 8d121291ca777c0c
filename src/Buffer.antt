-- ===== src/Buffer.antt =====
-- src/utils/buffer.c and buffer.h: a byte buffer that writers fill from the front until it is reset.
-- The functions as one thread runs them; `Buffer.Writers` has several writers at once.
-- An `atomic_t` is its 32-bit pattern. A call that changes `*this_buffer` returns the new buffer.
pub mod Invariant
pub mod Transfer
pub mod Limits
pub mod Writers
pub mod Alone
pub mod LockOut
pub mod Lifetime
pub mod User
use pcm3060_kernelmodule.Prelude.{
  ℕ, ◌+◌, ◌^◌, min, Bool, true, false, ◌||◌, Option, none, some, List, ltb, leb, ◌==◌,
  if◌then◌else◌,
}
use pcm3060_kernelmodule.Prelude.Words.{add32, sub32}
use pcm3060_kernelmodule.Kernel.Run.{Run, ok, fault, ◌>>=◌, mutex_lock, mutex_unlock}
use pcm3060_kernelmodule.Kernel.Memory.{memcpy}
use pcm3060_kernelmodule.Kernel.User.{UserCopy, copy_from_user, copy_to_user}

-- `_buffer_impl_t`. `mlock` says whether the mutex is held.
pub record Buffer : Type 0 where
  pub buf : List ℕ
  pub bufsize : ℕ
  pub write_off : ℕ
  pub n_bytes_written : ℕ
  pub n_bytes_written_tmp : ℕ
  pub n_active_writters : ℕ
  pub mlock : Bool

-- `_wr_offset_range_t`
pub record WrOffsetRange : Type 0 where
  pub wr_off_start : ℕ
  pub n_bytes_writable : ℕ
  pub n_bytes_dropped : ℕ

-- Is the `int` with this bit pattern below 1?
abbrev pub below_one : ℕ → Bool
below_one w = w == 0 || leb (2 ^ 31) w

-- What `_get_buffer_impl` sets up over the bytes that kmalloc returned.
unfoldable pub init_buffer : List ℕ → ℕ → Buffer
init_buffer bytes size = record {
  buf = bytes;
  bufsize = size;
  write_off = 0;
  n_bytes_written = 0;
  n_bytes_written_tmp = 0;
  n_active_writters = 0;
  mlock = false;
}

-- `buffer_sync` on a buffer: wait for the writers to finish.
unfoldable pub wait_writters : Buffer → Run Buffer
wait_writters b =
    if b.n_active_writters == 0
    then ok b
    else (do held ← mutex_lock b.mlock; ok (record b { mlock = held }))

-- `_sync_buffer_impl`
unfoldable pub sync_buffer_impl : Buffer → Run Buffer
unfolding wait_writters
sync_buffer_impl b = wait_writters (record b { write_off = b.bufsize })

-- `_write_check_full`
unfoldable pub write_check_full : Buffer → Bool
write_check_full b = leb b.bufsize b.write_off

-- The range of a write that has moved the offset to `wr_off_end`.
unfoldable pub off_range : ℕ → ℕ → ℕ → WrOffsetRange
off_range bufsize wr_off_end buflen =
    let start = sub32 wr_off_end buflen in
    if leb bufsize start
    then record { wr_off_start = start; n_bytes_writable = 0; n_bytes_dropped = buflen }
    else (let dropped =
          if leb bufsize wr_off_end then min (add32 (sub32 wr_off_end bufsize) 1) buflen else 0 in
        record {
          wr_off_start = start;
          n_bytes_writable = sub32 buflen dropped;
          n_bytes_dropped = dropped;
        })

-- `_write_request_off_range_sync`. In the branch for a full buffer the range is empty, so that
-- adding it to the count changes nothing there.
unfoldable pub write_request_off_range_sync : Buffer → ℕ → Run (WrOffsetRange × Buffer)
unfolding off_range
write_request_off_range_sync b buflen = do
  let active = add32 b.n_active_writters 1
  held ← if active == 1 then mutex_lock b.mlock else ok b.mlock
  let wr_off_end = add32 b.write_off buflen
  let range = off_range b.bufsize wr_off_end buflen
  let tmp =
      if leb b.bufsize range.wr_off_start
      then b.n_bytes_written_tmp
      else add32 b.n_bytes_written_tmp range.n_bytes_writable
  ok (
    range,
    record b {
      write_off = wr_off_end;
      n_bytes_written_tmp = tmp;
      n_active_writters = active;
      mlock = held;
    },
  )

-- `_write_finish_sync`
unfoldable pub write_finish_sync : Buffer → Run Buffer
write_finish_sync b =
    let active = sub32 b.n_active_writters 1 in
    if active == 0
    then (do
      held ← mutex_unlock b.mlock
      ok (record b {
        n_bytes_written = add32 b.n_bytes_written b.n_bytes_written_tmp;
        n_bytes_written_tmp = 0;
        n_active_writters = active;
        mlock = held;
      }))
    else (do held ← mutex_lock b.mlock; ok (record b { n_active_writters = active; mlock = held }))

module _ (uc : UserCopy) where
  -- The copy of a write: none if no byte is writable. The result has the bytes left out.
  unfoldable pub write_bytes : Bool → Buffer → WrOffsetRange → List ℕ → Run (ℕ × Buffer)
  write_bytes user b range src =
      if ltb 0 range.n_bytes_writable
      then (if user
          then (do
            (buf, left) ← copy_from_user uc b.buf range.wr_off_start src range.n_bytes_writable
            ok (left, record b { buf = buf }))
          else (do
            buf ← memcpy b.buf range.wr_off_start src 0 range.n_bytes_writable
            ok (0, record b { buf = buf })))
      else ok (0, b)

  -- `buffer_write_copy` and `buffer_copy_from_user` differ in the copy alone.
  unfoldable pub write_impl : Bool → Option Buffer → Option (List ℕ) → ℕ → Run (ℕ × Option Buffer)
  unfolding write_bytes write_check_full write_request_off_range_sync write_finish_sync
  write_impl user none src buflen = ok (buflen, none)
  write_impl user (some b) none buflen = ok (buflen, some b)
  write_impl user (some b) (some src) buflen =
      if buflen == 0
      then ok (0, some b)
      else (if write_check_full b then ok (buflen, some b) else (do
        (range, reserved) ← write_request_off_range_sync b buflen
        (left, filled) ← write_bytes user reserved range src
        b' ← write_finish_sync filled
        ok (add32 range.n_bytes_dropped left, some b')))

  unfoldable pub buffer_write_copy : Option Buffer → Option (List ℕ) → ℕ → Run (ℕ × Option Buffer)
  unfolding write_impl
  buffer_write_copy b src buflen = write_impl false b src buflen

  unfoldable pub buffer_copy_from_user :
      Option Buffer → Option (List ℕ) → ℕ → Run (ℕ × Option Buffer)
  unfolding write_impl
  buffer_copy_from_user b src buflen = write_impl true b src buflen

  -- `_copy_impl`: the bytes not copied, and the reader's memory. Its `else` is dead code: a positive
  -- number of bytes is left to copy there.
  unfoldable pub copy_impl :
      Option Buffer → Option (List ℕ) → ℕ → ℕ → Bool → Run (ℕ × Option (List ℕ))
  copy_impl none dst buflen off user = ok (buflen, dst)
  copy_impl (some b) none buflen off user = ok (buflen, none)
  copy_impl (some b) (some dst) buflen off user =
      if buflen == 0
      then ok (0, some dst)
      else (if leb b.n_bytes_written off
          then ok (buflen, some dst)
          else (let n = min (sub32 b.n_bytes_written off) buflen in
              if ltb 0 n
              then (if user
                  then (do
                    (out, left) ← copy_to_user uc dst b.buf off n
                    ok (add32 (sub32 buflen n) left, some out))
                  else (do out ← memcpy dst 0 b.buf off n; ok (sub32 buflen n, some out)))
              else ok (buflen, some dst)))

  unfoldable pub buffer_read_copy :
      Option Buffer → Option (List ℕ) → ℕ → ℕ → Run (ℕ × Option (List ℕ))
  unfolding copy_impl
  buffer_read_copy b dst buflen off = copy_impl b dst buflen off false

  unfoldable pub buffer_copy_to_user :
      Option Buffer → Option (List ℕ) → ℕ → ℕ → Run (ℕ × Option (List ℕ))
  unfolding copy_impl
  buffer_copy_to_user b dst buflen off = copy_impl b dst buflen off true

-- `buffer_read`: the number of bytes and, where `*out_buffer_p` is set, its offset in the bytes.
-- The flag says whether `out_buffer_p` is given.
unfoldable pub buffer_read : Option Buffer → Bool → ℕ → ℕ × Option ℕ
buffer_read none out off = (0, none)
buffer_read (some b) false off = (0, none)
buffer_read (some b) true off =
    if ltb b.n_bytes_written off
    then (b.n_bytes_written, none)
    else (sub32 b.n_bytes_written off, some off)

-- `buffer_write_reserve`: the number of bytes, the offset that `*out_buffer_p` is set to, the buffer.
unfoldable pub buffer_write_reserve : Option Buffer → ℕ → Run (ℕ × Option ℕ × Option Buffer)
unfolding write_check_full write_request_off_range_sync
buffer_write_reserve none n_bytes_requested = ok (0, none, none)
buffer_write_reserve (some b) n_bytes_requested =
    if n_bytes_requested == 0
    then ok (0, none, some b)
    else (if write_check_full b then ok (0, none, some b) else (do
      (range, b') ← write_request_off_range_sync b n_bytes_requested
      ok (
        range.n_bytes_writable,
        (if range.n_bytes_writable == 0 then none else some range.wr_off_start),
        some b',
      )))

unfoldable pub buffer_write_finish : Option Buffer → Run (Option Buffer)
unfolding write_finish_sync
buffer_write_finish none = ok none
buffer_write_finish (some b) =
    if below_one b.n_active_writters
    then ok (some b)
    else (do b' ← write_finish_sync b; ok (some b'))

unfoldable pub buffer_get_n_bytes_readable : Option Buffer → ℕ
buffer_get_n_bytes_readable none = 0
buffer_get_n_bytes_readable (some b) = b.n_bytes_written

unfoldable pub buffer_reset : Option Buffer → Run (Option Buffer)
unfolding sync_buffer_impl
buffer_reset none = ok none
buffer_reset (some b) = do
  b' ← sync_buffer_impl b
  ok (some (record b' { write_off = 0; n_bytes_written = 0; n_bytes_written_tmp = 0 }))

unfoldable pub buffer_sync : Option Buffer → Run (Option Buffer)
unfolding wait_writters
buffer_sync none = ok none
buffer_sync (some b) = do b' ← wait_writters b; ok (some b')
