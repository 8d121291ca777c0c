-- ===== src/Buffer/Transfer.antt =====
-- A buffer between calls is the list of the bytes that it took: writes append, reads copy a window.
use pcm3060_kernelmodule.Prelude.{
  true, ℕ, zero, suc, ◌+◌, ◌-◌, ◌^◌, ◌≤◌, ◌<◌, min, ◌≡◌, ◌⊎◌, inl, inr, slice-zero, refl, ap, ◌∙◌,
  some, List, [], ◌++◌, append-nil, arith, length, drop, slice, length-splice, length-slice,
  slice-splice_end, splice-front, slice-slice_mid, slice-slice_front, drop-all, dec_lt, ℕ_discrete,
}
use pcm3060_kernelmodule.Prelude.Words.{sub32-eq}
use pcm3060_kernelmodule.Kernel.Run.{ok}
use pcm3060_kernelmodule.Kernel.Memory.{memcpy_ok}
use pcm3060_kernelmodule.Kernel.User.{UserCopy}
use pcm3060_kernelmodule.Buffer.{
  Buffer, buffer_write_copy, buffer_read_copy, buffer_reset, buffer_sync, buffer_read, init_buffer,
}
use pcm3060_kernelmodule.Buffer.Invariant.{IsValid, contents, room, filled, write_copy_ok}

pub filled-IsValid :
    {b : Buffer} (n : ℕ) (bs : List ℕ)
    → IsValid b
    → b.write_off < b.bufsize
    → b.write_off + n < 2 ^ 32
    → length bs ≡ min n (room b)
    → IsValid (filled b n bs)
filled-IsValid {b} n bs v free fits len = record {
  storage = length-splice b.buf b.write_off bs (omega arith) ∙ v.storage;
  small = v.small;
  offset = fits;
  counted = omega arith;
  settled = v.settled;
  alone = v.alone;
  unlocked = v.unlocked;
}

pub contents-filled :
    {b : Buffer} (n : ℕ) (bs : List ℕ)
    → IsValid b
    → b.write_off < b.bufsize
    → contents (filled b n bs) ≡ contents b ++ bs
unfolding contents
contents-filled {b} n bs v free =
    let at : b.n_bytes_written ≡ b.write_off = omega arith in
    ground (arith, at, slice-splice_end b.buf b.write_off bs 0)

write_copy_idle :
    (uc : UserCopy) (b : Buffer) (src : List ℕ) (n : ℕ)
    → (n ≡ 0) ⊎ (b.bufsize ≤ b.write_off)
    → buffer_write_copy uc (some b) (some src) n ≡ ok (n, some b)
unfolding buffer_write_copy
write_copy_idle uc b src n h = ground arith

append-none : (b : Buffer) (src : List ℕ) (w : ℕ) → w ≡ 0 → contents b ≡ contents b ++ slice 0 w src
append-none b src w e = rw (e, slice-zero, append-nil)

-- `buffer_write_copy` takes as many bytes as there is room for, short of one byte of the storage,
-- appends exactly those, returns the number of the others and leaves the buffer valid, unless its
-- offset would wrap. A full buffer takes none.
pub write_copy_appends :
    (uc : UserCopy) {b : Buffer} (src : List ℕ) (n : ℕ)
    → IsValid b
    → b.write_off + n < 2 ^ 32
    → n ≤ length src
    → let w = min n (room b) in
      (b' : Buffer) × (buffer_write_copy uc (some b) (some src) n ≡ ok (n - w, some b'))
      × IsValid b'
      × (contents b' ≡ contents b ++ slice 0 w src)
write_copy_appends uc {b} src n v fits h = elim (ℕ_discrete n 0) [
  | yes nothing ↦ (
    b,
    write_copy_idle uc b src n (inl nothing) ∙ ap (λ k. ok (k, some b)) (omega arith),
    v,
    append-none b src _ (omega arith),
  )
  | no some_bytes ↦ elim (dec_lt b.write_off b.bufsize) [
    | yes free ↦
        let w = min n (room b) in
        let len : length (slice 0 w src) ≡ w = omega (arith, length-slice 0 w src) in
        (
          filled b n (slice 0 w src),
          write_copy_ok uc src n v (omega arith) free fits h,
          filled-IsValid n (slice 0 w src) v free fits len,
          contents-filled n (slice 0 w src) v free,
        )
    | no full ↦ (
      b,
      write_copy_idle uc b src n (inr (omega arith)) ∙ ap (λ k. ok (k, some b)) (omega arith),
      v,
      append-none b src _ (omega arith),
    )
  ]
]

read_copy_count :
    (uc : UserCopy) {b : Buffer} (dst : List ℕ) (n off k : ℕ)
    → IsValid b
    → n < 2 ^ 32
    → n ≤ length dst
    → k ≡ min n (b.n_bytes_written - off)
    → buffer_read_copy uc (some b) (some dst) n off
      ≡ ok (n - k, some (slice off k (contents b) ++ drop k dst))
unfolding buffer_read_copy contents
read_copy_count uc {b} dst n off zero v small h e =
    ground (arith, slice-zero off (slice 0 b.n_bytes_written b.buf), sub32-eq b.n_bytes_written off)
read_copy_count uc {b} dst n off (suc k) v small h e = ground (
  arith,
  memcpy_ok dst 0 b.buf off (suc k),
  sub32-eq b.n_bytes_written off,
  sub32-eq n (suc k),
  splice-front dst (slice off (suc k) b.buf),
  slice-slice_mid off (suc k) b.n_bytes_written b.buf,
  length-slice off (suc k) b.buf,
)

-- On a valid buffer, reading `n` bytes from offset `off` on copies what the buffer holds of them to
-- the front of the reader's memory, returns the number of the others, and leaves the rest of that
-- memory.
pub read_copy_window :
    (uc : UserCopy) {b : Buffer} (dst : List ℕ) (n off : ℕ)
    → IsValid b
    → n < 2 ^ 32
    → n ≤ length dst
    → let k = min n (b.n_bytes_written - off) in
      buffer_read_copy uc (some b) (some dst) n off
      ≡ ok (n - k, some (slice off k (contents b) ++ drop k dst))
read_copy_window uc {b} dst n off v small h = read_copy_count uc dst n off _ v small h refl

pub init_buffer-IsValid :
    (bytes : List ℕ) (size : ℕ)
    → length bytes ≡ size
    → size < 2 ^ 31
    → IsValid (init_buffer bytes size)
unfolding init_buffer
init_buffer-IsValid bytes size len small = record {
  storage = len;
  small = small;
  offset = omega arith;
  counted = omega arith;
  settled = refl;
  alone = refl;
  unlocked = refl;
}

pub init_buffer-contents :
    (bytes : List ℕ) (size : ℕ)
    → let b = init_buffer bytes size in (b.write_off ≡ 0) × (room b ≡ size - 1) × (contents b ≡ [])
unfolding init_buffer contents
init_buffer-contents bytes size = (refl, omega arith, slice-zero 0 bytes)

pub length-contents : {b : Buffer} → IsValid b → length (contents b) ≡ b.n_bytes_written
unfolding contents
length-contents {b} v = omega (arith, length-slice 0 b.n_bytes_written b.buf)

-- Writing `n` bytes into a new buffer of more than `n` bytes drops none, and a read of `n` bytes
-- from offset 0 then gives back exactly these.
pub write_read_roundtrip :
    (uc : UserCopy) (bytes src dst : List ℕ) (size n : ℕ)
    → length bytes ≡ size
    → size < 2 ^ 31
    → n < size
    → n ≤ length src
    → length dst ≡ n
    → (b' : Buffer) × (buffer_write_copy uc (some (init_buffer bytes size)) (some src) n
        ≡ ok (0, some b'))
      × (buffer_read_copy uc (some b') (some dst) n 0 ≡ ok (0, some (slice 0 n src)))
write_read_roundtrip uc bytes src dst size n len small lt h hd =
    let v = init_buffer-IsValid bytes size len small in
    let (w, r, c) = init_buffer-contents bytes size in
    let (b', done, valid, holds) = write_copy_appends uc src n v (omega (arith, w)) h in
    let all : min n (room (init_buffer bytes size)) ≡ n = omega (arith, r) in
    let bytes_held : contents b' ≡ slice 0 n src = ground (arith, holds, c, all) in
    let count : b'.n_bytes_written ≡ n =
      omega (arith, length-contents valid, ap length bytes_held, length-slice 0 n src) in
    let read =
      read_copy_count uc dst n 0 n valid (omega arith) (omega arith) (omega (arith, count)) in
    (
      b',
      ground (arith, done, all),
      ground (
        arith,
        read,
        bytes_held,
        slice-slice_front 0 n n src,
        drop-all n dst,
        append-nil (slice 0 n src),
      ),
    )

-- `buffer_reset` on a valid buffer returns and leaves it valid and empty, with room for all but one
-- byte of its storage.
pub reset_empties :
    {b : Buffer}
    → IsValid b
    → (b' : Buffer) × (buffer_reset (some b) ≡ ok (some b'))
      × IsValid b'
      × (contents b' ≡ [])
      × (room b' ≡ b.bufsize - 1)
unfolding buffer_reset contents
reset_empties {b} v = (
  record b { write_off = 0; n_bytes_written = 0; n_bytes_written_tmp = 0 },
  ground arith,
  record {
    storage = v.storage;
    small = v.small;
    offset = omega arith;
    counted = omega arith;
    settled = refl;
    alone = v.alone;
    unlocked = v.unlocked;
  },
  slice-zero 0 b.buf,
  omega arith,
)

-- Without a writer, `buffer_sync` does nothing.
pub sync_idle : {b : Buffer} → IsValid b → buffer_sync (some b) ≡ ok (some b)
unfolding buffer_sync
sync_idle {b} v = ground arith

-- `buffer_read` from the start gives all the bytes.
pub read_all :
    {b : Buffer} → IsValid b → buffer_read (some b) true 0 ≡ (length (contents b), some 0)
unfolding buffer_read
read_all {b} v = ground (arith, length-contents v, sub32-eq b.n_bytes_written 0)
