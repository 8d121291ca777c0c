-- ===== src/Buffer/Alone.antt =====
-- One writer that no other overlaps: the steps of buffer_write_copy against the function.
use pcm3060_kernelmodule.Prelude.{
  ℕ, ◌+◌, ◌-◌, ◌^◌, ◌≤◌, ◌<◌, min, ◌≡◌, refl, sym, ap, ◌∙◌, subst, some, List, arith, length, slice,
  splice, length-slice, false, true,
}
use pcm3060_kernelmodule.Prelude.Words.{add32-eq}
use pcm3060_kernelmodule.Kernel.Run.{ok}
use pcm3060_kernelmodule.Kernel.User.{UserCopy}
use pcm3060_kernelmodule.Buffer.{Buffer, WrOffsetRange, off_range, buffer_write_copy}
use pcm3060_kernelmodule.Buffer.Invariant.{
  IsValid, room, filled, off_range_lem, reserved_range, write_copy_ok,
}
use pcm3060_kernelmodule.Buffer.Writers.{Pc, idle, entered, copying, Move}

-- Steps of one thread, up to its return.
pub data Alone : Buffer → Pc → Buffer → Type 0 where
  back : {b : Buffer} → Alone b idle b
  step : {b b' b'' : Buffer} {p p' : Pc} → Move b p b' p' → Alone b' p' b'' → Alone b p b''

-- The end of a call, from the copy on.
Alone-copy :
    (b : Buffer) (r : WrOffsetRange) (bs : List ℕ)
    → length bs ≡ r.n_bytes_writable
    → b.n_active_writters ≡ 1
    → b.mlock ≡ true
    → Alone b (copying r) (record b {
      buf = splice b.buf r.wr_off_start bs;
      n_bytes_written = b.n_bytes_written + b.n_bytes_written_tmp;
      n_bytes_written_tmp = 0;
      n_active_writters = 0;
      mlock = false;
    })
Alone-copy b r bs len one held = step (Move.copy bs len) (
    step (Move.leave_last one) (step (Move.unlock held) (step Move.publish (step Move.clear back))))

-- The buffer after a whole call, written out.
abbrev after : Buffer → ℕ → ℕ → List ℕ → Buffer
after b n w bs = record b {
  buf = splice b.buf b.write_off bs;
  write_off = b.write_off + n;
  n_bytes_written = b.n_bytes_written + (b.n_bytes_written_tmp + w);
  n_bytes_written_tmp = 0;
  n_active_writters = 0;
  mlock = false;
}

after-filled :
    {b : Buffer} (n w : ℕ) (bs : List ℕ)
    → IsValid b
    → length bs ≡ w
    → after b n w bs ≡ filled b n bs
after-filled {b} n w bs v len = ground (arith, v, len)

Alone-entered :
    {b : Buffer} (n : ℕ) (bs : List ℕ)
    → IsValid b
    → b.write_off < b.bufsize
    → b.write_off + n < 2 ^ 32
    → length bs ≡ min n (room b)
    → Alone b (entered n) (after b n (min n (room b)) bs)
Alone-entered {b} n bs v free fits len =
    let range : off_range b.bufsize (b.write_off + n) n ≡ reserved_range b n =
      ap (λ k. off_range b.bufsize k n) (sym (add32-eq b.write_off n fits))
      ∙ off_range_lem n v free fits in
    step (Move.join_first v.alone) (
      step (Move.lock v.unlocked) (
        step (Move.claim fits)
          (rw range (step Move.count (Alone-copy _ (reserved_range b n) bs len refl refl)))))

-- On a valid buffer that is not full, where the offset does not wrap, `buffer_write_copy` of at least
-- one byte is one writer's steps when nobody overlaps them: from the first to the last, they leave the
-- buffer that the function as a whole leaves, and it returns.
pub Alone-write :
    (uc : UserCopy) {b : Buffer} (src : List ℕ) (n : ℕ)
    → IsValid b
    → 0 < n
    → b.write_off < b.bufsize
    → b.write_off + n < 2 ^ 32
    → n ≤ length src
    → (b' : Buffer) × Move b idle b (entered n)
      × Alone b (entered n) b'
      × (buffer_write_copy uc (some b) (some src) n ≡ ok (n - min n (room b), some b'))
Alone-write uc {b} src n v some_bytes free fits h =
    let w = min n (room b) in
    let bs = slice 0 w src in
    let len : length bs ≡ w = omega (arith, length-slice 0 w src) in
    (
      filled b n bs,
      Move.enter n some_bytes free,
      subst (Alone b (entered n)) (after-filled n w bs v len) (Alone-entered n bs v free fits len),
      write_copy_ok uc src n v some_bytes free fits h,
    )
