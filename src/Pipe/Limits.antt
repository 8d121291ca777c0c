-- ===== src/Pipe/Limits.antt =====
-- Where a pipe fails: a wait for data that waits only once, and reads that are counted twice.
use pcm3060_kernelmodule.Prelude.{
  ℕ, ◌+◌, ◌-◌, ◌*◌, ◌^◌, ◌≤◌, ◌<◌, min, ◌≡◌, refl, ap, ◌∙◌, Bool, true, false, some, List, [],
  arith, length, slice, leb, if◌then◌else◌,
}
use pcm3060_kernelmodule.Prelude.Words.{add32, sub32}
use pcm3060_kernelmodule.Prelude.{Bool, false}
use pcm3060_kernelmodule.Kernel.Run.{ok, blocked}
use pcm3060_kernelmodule.Kernel.User.{UserCopy}
use pcm3060_kernelmodule.Kernel.Completion.{all_done, wait_for_completion_killable}
use pcm3060_kernelmodule.Buffer.{buffer_copy_to_user, buffer_get_n_bytes_readable}
use pcm3060_kernelmodule.Buffer.Transfer.{length-contents}
use pcm3060_kernelmodule.Buffer.User.{user_copy_window}
use pcm3060_kernelmodule.Pipe.{
  PipeBuffer, wait_for_data_write, pipe_buffer_copy_to_user, pipe_buffer_read_start,
  pipe_buffer_read_start_waiting,
}
use pcm3060_kernelmodule.Pipe.Transfer.{IsValid, held, check_reset_ok}

-- On an empty valid pipe, `pipe_buffer_read_start_waiting` waits before the first write, when
-- `write_completion` is 0 and no fatal signal comes; once a writer has marked it with complete_all, it never waits again and
-- starts a read without bytes.
pub waits_until_first_write :
    {p : PipeBuffer} (v : IsValid p) (out : Bool)
    → held v ≡ []
    → (p.write_completion ≡ 0 → pipe_buffer_read_start_waiting false (some p) out ≡ blocked)
      × (p.write_completion ≡ all_done
          → (killed : Bool)
          → pipe_buffer_read_start_waiting killed (some p) out
            ≡ ok (pipe_buffer_read_start (some p) out))
unfolding pipe_buffer_read_start_waiting wait_for_data_write wait_for_completion_killable
    buffer_get_n_bytes_readable
waits_until_first_write {p} v out empty =
    let none_there : v.inner.n_bytes_written ≡ 0 =
      omega (arith, length-contents v.valid, ap length empty) in
    (
      (λ never. rw (v.there, none_there, never) refl),
      (λ written killed. rw (v.there, none_there, written) refl),
    )

-- A copy that the user side takes in full is counted as `n + off` bytes read.
copy_counts :
    (uc : UserCopy) {p : PipeBuffer} (dst : List ℕ) (n off : ℕ) (v : IsValid p)
    → n + off ≤ length (held v)
    → (uc.to_user dst (slice off n (held v))).1 ≡ 0
    → (p' : PipeBuffer) × (pipe_buffer_copy_to_user uc (some p) (some dst) n off
        ≡ ok (0, some (uc.to_user dst (slice off n (held v))).0, some p'))
      × ((v' : IsValid p') × (held v'
            ≡ (if leb (length (held v)) (p.n_bytes_read + (n + off)) then [] else held v))
          × (p'.n_bytes_read ≡ (
              if leb (length (held v)) (p.n_bytes_read + (n + off))
              then 0
              else p.n_bytes_read + (n + off))))
unfolding pipe_buffer_copy_to_user
copy_counts uc {p} dst n off v there taken =
    let len = length-contents v.valid in
    let window = user_copy_window uc dst n off v.valid (omega (arith, len)) in
    let all : min n (v.inner.n_bytes_written - off) ≡ n = omega (arith, len) in
    let none_left : n - n + 0 ≡ 0 = omega arith in
    let (p', done, _, _, counts) = check_reset_ok (n + off) v (omega (arith, len)) in
    let sum : sub32 (add32 n off) 0 ≡ n + off = count n off (omega (arith, len)) in
    let delivered : buffer_copy_to_user uc p.buf (some dst) n off
        ≡ ok (0, some (uc.to_user dst (slice off n (held v))).0) =
      rw (v.there, window, all, taken, none_left) refl in
    (p', rw (delivered, sum, done) refl, counts)
  where
    count : (a b : ℕ) → a + b < 2 ^ 31 → sub32 (add32 a b) 0 ≡ a + b
    count a b h = unfold add32 sub32 in omega arith

-- On a valid pipe of which nothing was read, two successive copies, `n` bytes from the start and `m`
-- from offset `n` on, that the user side takes in full, leave the pipe empty if `2 * n + m` reaches
-- the bytes it holds, although only `n + m` of them, which are fewer, were read: the rest is lost.
pub second_copy_resets_early :
    (uc : UserCopy) {p : PipeBuffer} (dst dst' : List ℕ) (n m : ℕ) (v : IsValid p)
    → p.n_bytes_read ≡ 0
    → n + m < length (held v)
    → length (held v) ≤ 2 * n + m
    → (uc.to_user dst (slice 0 n (held v))).1 ≡ 0
    → (uc.to_user dst' (slice n m (held v))).1 ≡ 0
    → (out : List ℕ) × (out' : List ℕ) × (p1 : PipeBuffer) × (p2 : PipeBuffer)
      × (pipe_buffer_copy_to_user uc (some p) (some dst) n 0 ≡ ok (0, some out, some p1))
      × (pipe_buffer_copy_to_user uc (some p1) (some dst') m n ≡ ok (0, some out', some p2))
      × ((v2 : IsValid p2) × (held v2 ≡ []))
second_copy_resets_early uc {p} dst dst' n m v fresh some_left early e e' =
    let (p1, first, (v1, held1, count1)) = copy_counts uc dst n 0 v (omega arith) e in
    let go_on : leb (length (held v)) (p.n_bytes_read + (n + 0)) ≡ false = ground arith in
    let same : held v1 ≡ held v = held1 ∙ rw go_on refl in
    let counted : p1.n_bytes_read ≡ n = count1 ∙ rw go_on (omega arith) in
    let taken : (uc.to_user dst' (slice n m (held v1))).1 ≡ 0 = rw same e' in
    let (p2, second, (v2, held2, _)) =
      copy_counts uc dst' m n v1 (omega (arith, ap length same)) taken in
    let reset : leb (length (held v1)) (p1.n_bytes_read + (m + n)) ≡ true =
      ground (arith, ap length same) in
    (_, _, p1, p2, first, second, (v2, held2 ∙ rw reset refl))
