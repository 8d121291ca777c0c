-- ===== src/Buffer/LockOut.antt =====
-- What two overlapping writers leave: a mutex that nobody releases.
use pcm3060_kernelmodule.Prelude.{
  ℕ, ◌+◌, ◌^◌, ◌<◌, ◌≡◌, refl, inl, inr, true, false, some, List, replicate, length-replicate,
  splice, arith, ◌==◌, Bool-cases,
}
use pcm3060_kernelmodule.Prelude.Words.{add32}
use pcm3060_kernelmodule.Kernel.Run.{ok, blocked}
use pcm3060_kernelmodule.Kernel.User.{UserCopy}
use pcm3060_kernelmodule.Buffer.{Buffer, WrOffsetRange, buffer_write_copy, buffer_reset}
use pcm3060_kernelmodule.Buffer.Writers.{
  idle, copying, leaving, Move, enter, join_first, join, lock, claim, count, copy, leave,
  leave_last, unlock, publish, clear, wait, System, pick, Reach, here, next,
}

-- No writer, and the mutex free.
abbrev pub at_rest : Buffer → Buffer
at_rest b = record b { n_active_writters = 0; mlock = false }

-- A copy of zeros.
copy_zeros :
    (b : Buffer) (r : WrOffsetRange)
    → Move b
        (copying r)
        (record b { buf = splice b.buf r.wr_off_start (replicate r.n_bytes_writable 0) })
        leaving
copy_zeros b r = copy _ (length-replicate {A = ℕ} r.n_bytes_writable 0)

-- With the mutex held and no writer, a write of at least one byte to a buffer that is not full waits.
write_blocks :
    (uc : UserCopy) (b : Buffer) (src : List ℕ) (n : ℕ)
    → b.n_active_writters ≡ 0
    → b.mlock ≡ true
    → b.write_off < b.bufsize
    → 0 < n
    → buffer_write_copy uc (some b) (some src) n ≡ blocked
unfolding buffer_write_copy add32
write_blocks uc b src n none_active held free some_bytes = ground arith

module _ (b : Buffer) (n k : ℕ) (some_n : 0 < n) (some_k : 0 < k)
    (fits : b.write_off + n + k < b.bufsize) (small : b.bufsize < 2 ^ 31) where
  -- Thread 0 is the first to enter and the first to leave.
  overlap :
      (s : System) × Reach (at_rest b) s
      × ((i : ℕ) → s.pc i ≡ idle)
      × (s.mem.n_active_writters ≡ 0)
      × (s.mem.mlock ≡ true)
      × (s.mem.write_off < s.mem.bufsize)
  overlap = (
    _,
    (let r1 = next here (pick 0 (enter n some_n (omega arith))) in
        let r2 = next r1 (pick 1 (enter k some_k (omega arith))) in
        let r3 = next r2 (pick 0 (join_first refl)) in
        let r4 = next r3 (pick 0 (lock refl)) in
        let r5 = next r4 (pick 0 (claim (omega arith))) in
        let r6 = next r5 (pick 1 (join (omega arith))) in
        let r7 = next r6 (pick 1 (claim (omega arith))) in
        let r8 = next r7 (pick 0 count) in
        let r9 = next r8 (pick 0 (copy_zeros _ _)) in
        let r10 = next r9 (pick 0 (leave (omega arith))) in
        let r11 = next r10 (pick 1 count) in
        let r12 = next r11 (pick 1 (copy_zeros _ _)) in
        let r13 = next r12 (pick 1 (leave_last refl)) in
        let r14 = next r13 (pick 1 (unlock refl)) in
        let r15 = next r14 (pick 1 publish) in
        let r16 = next r15 (pick 1 clear) in next r16 (pick 0 (wait refl))),
    (λ i. elim (Bool-cases (0 == i)) [
      | inl zeroth ↦ rw zeroth refl
      | inr not_zeroth ↦ elim (Bool-cases (1 == i)) [
        | inl first ↦ rw (not_zeroth, first) refl
        | inr other ↦ rw (not_zeroth, other) refl
      ]
    ]),
    refl,
    refl,
    fits,
  )

  -- Two writers of at least one byte each that overlap, where the buffer has room for both: in one
  -- order of their steps both return, and the one that left first has taken the mutex and never
  -- releases it. `buffer_reset` then still returns, but before and after it every write of at least one
  -- byte waits for ever.
  pub overlap_locks_out :
      (uc : UserCopy)
      → (s : System) × (r : Buffer) × Reach (at_rest b) s
        × ((i : ℕ) → s.pc i ≡ idle)
        × (buffer_reset (some s.mem) ≡ ok (some r))
        × ((src : List ℕ) (m : ℕ)
            → 0 < m
            → (buffer_write_copy uc (some s.mem) (some src) m ≡ blocked)
              × (buffer_write_copy uc (some r) (some src) m ≡ blocked))
  unfolding buffer_reset
  overlap_locks_out uc =
      let (s, reached, back, none_active, held, free) = overlap in
      (
        s,
        record s.mem { write_off = 0; n_bytes_written = 0; n_bytes_written_tmp = 0 },
        reached,
        back,
        rw none_active refl,
        λ src m some_bytes. (
          write_blocks uc s.mem src m none_active held free some_bytes,
          write_blocks uc _ src m none_active held (omega arith) some_bytes,
        ),
      )
