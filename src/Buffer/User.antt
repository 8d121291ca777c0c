-- ===== src/Buffer/User.antt =====
-- buffer_copy_from_user and buffer_copy_to_user: as the copies from and to kernel memory, but for
-- the bytes that the user side does not deliver.
use pcm3060_kernelmodule.Prelude.{
  ℕ, zero, suc, ◌+◌, ◌-◌, ◌^◌, ◌≤◌, ◌<◌, min, ◌≡◌, ◌⊎◌, refl, ◌∙◌, inl, inr, true, some, List, [],
  ◌∷◌, ◌++◌, append-nil, arith, length, slice, splice, length-slice, slice-zero, splice-nil,
  slice-slice_mid, dec_lt,
}
use pcm3060_kernelmodule.Prelude.Words.{add32-eq, sub32-eq}
use pcm3060_kernelmodule.Kernel.Run.{ok}
use pcm3060_kernelmodule.Kernel.User.{UserCopy, copy_from_user, copy_to_user}
use pcm3060_kernelmodule.Buffer.{Buffer, write_bytes, buffer_copy_from_user, buffer_copy_to_user}
use pcm3060_kernelmodule.Buffer.Invariant.{
  IsValid, contents, room, filled, request_ok, finish_ok, reserved,
}
use pcm3060_kernelmodule.Buffer.Transfer.{filled-IsValid, contents-filled}

empty_of_length : (bs : List ℕ) → length bs ≡ 0 → bs ≡ []
empty_of_length [] h = refl
empty_of_length (b ∷ bs) h = absurd (omega arith)

-- A user copy of no byte.
from_nothing : (uc : UserCopy) (u : List ℕ) (n : ℕ) → n ≡ 0 → uc.from_user u n ≡ ([], 0)
from_nothing uc u n e =
    let none_there = empty_of_length (uc.from_user u n).0 (omega (arith, uc.from_length u n)) in
    let none_left : (uc.from_user u n).1 ≡ 0 = omega (arith, uc.from_left u n) in cc

pub to_nothing : (uc : UserCopy) (u : List ℕ) → uc.to_user u [] ≡ (u, 0)
to_nothing uc u =
    let same = uc.to_rest u [] in
    let none_left : (uc.to_user u []).1 ≡ 0 = omega (arith, uc.to_left u []) in cc

user_bytes_ok :
    (uc : UserCopy) (b : Buffer) (off n d : ℕ) (src : List ℕ)
    → off + n ≤ length b.buf
    → write_bytes uc true b
        (record { wr_off_start = off; n_bytes_writable = n; n_bytes_dropped = d })
        src
      ≡ ok ((uc.from_user src n).1, record b { buf = splice b.buf off (uc.from_user src n).0 })
unfolding write_bytes copy_from_user
user_bytes_ok uc b off zero d src h = rw (from_nothing uc src 0 refl, splice-nil) refl
user_bytes_ok uc b off (suc n) d src h = ground arith

copy_from_user_idle :
    (uc : UserCopy) (b : Buffer) (src : List ℕ) (n : ℕ)
    → (n ≡ 0) ⊎ (b.bufsize ≤ b.write_off)
    → buffer_copy_from_user uc (some b) (some src) n ≡ ok (n, some b)
unfolding buffer_copy_from_user
copy_from_user_idle uc b src n h = ground arith

copy_from_user_ok :
    (uc : UserCopy) {b : Buffer} (src : List ℕ) (n : ℕ)
    → IsValid b
    → 0 < n
    → b.write_off < b.bufsize
    → b.write_off + n < 2 ^ 32
    → let w = min n (room b) in
      buffer_copy_from_user uc (some b) (some src) n
      ≡ ok (n - w + (uc.from_user src w).1, some (filled b n (uc.from_user src w).0))
unfolding buffer_copy_from_user
copy_from_user_ok uc {b} src n v pos free fits =
    let w = min n (room b) in
    ground (
      arith,
      request_ok n v free fits,
      user_bytes_ok uc (reserved b n) b.write_off w (n - w) src,
      finish_ok (record (reserved b n) { buf = splice b.buf b.write_off (uc.from_user src w).0 }),
      uc.from_length src w,
      uc.from_left src w,
      add32-eq (n - w) (uc.from_user src w).1,
    )

-- `buffer_copy_from_user` appends what the user copy delivers for as many bytes as there is room
-- for, returns the number of the others and of those that the user copy left out, and leaves the
-- buffer valid, unless its offset would wrap.
pub user_copy_appends :
    (uc : UserCopy) {b : Buffer} (src : List ℕ) (n : ℕ)
    → IsValid b
    → b.write_off + n < 2 ^ 32
    → let w = min n (room b) in
      (b' : Buffer) × (buffer_copy_from_user uc (some b) (some src) n
        ≡ ok (n - w + (uc.from_user src w).1, some b'))
      × IsValid b'
      × (contents b' ≡ contents b ++ (uc.from_user src w).0)
user_copy_appends uc {b} src n v fits =
    let w = min n (room b) in
    elim (dec_lt 0 n) [
      | yes pos ↦ elim (dec_lt b.write_off b.bufsize) [
        | yes free ↦ (
          filled b n (uc.from_user src w).0,
          copy_from_user_ok uc src n v pos free fits,
          filled-IsValid n (uc.from_user src w).0 v free fits (uc.from_length src w),
          contents-filled n (uc.from_user src w).0 v free,
        )
        | no full ↦ idle (omega arith) (inr (omega arith))
      ]
      | no nothing ↦ idle (omega arith) (inl (omega arith))
    ]
  where
    idle :
        min n (room b) ≡ 0
        → (n ≡ 0) ⊎ (b.bufsize ≤ b.write_off)
        → (b' : Buffer) × (buffer_copy_from_user uc (some b) (some src) n
            ≡ ok (n - min n (room b) + (uc.from_user src (min n (room b))).1, some b'))
          × IsValid b'
          × (contents b' ≡ contents b ++ (uc.from_user src (min n (room b))).0)
    idle e h =
        let quiet = from_nothing uc src _ e in
        let all_left : n - min n (room b) + 0 ≡ n = omega (arith, e) in
        (
          b,
          copy_from_user_idle uc b src n h ∙ rw (quiet, all_left) refl,
          v,
          rw (quiet, append-nil) refl,
        )

copy_to_user_count :
    (uc : UserCopy) {b : Buffer} (dst : List ℕ) (n off k : ℕ)
    → IsValid b
    → n < 2 ^ 32
    → k ≡ min n (b.n_bytes_written - off)
    → let got = uc.to_user dst (slice off k (contents b)) in
      buffer_copy_to_user uc (some b) (some dst) n off ≡ ok (n - k + got.1, some got.0)
unfolding buffer_copy_to_user copy_to_user contents
copy_to_user_count uc {b} dst n off zero v small e = ground (
  arith,
  slice-zero off (slice 0 b.n_bytes_written b.buf),
  to_nothing uc dst,
  sub32-eq b.n_bytes_written off,
)
copy_to_user_count uc {b} dst n off (suc k) v small e = ground (
  arith,
  sub32-eq b.n_bytes_written off,
  sub32-eq n (suc k),
  slice-slice_mid off (suc k) b.n_bytes_written b.buf,
  length-slice off (suc k) b.buf,
  uc.to_left dst (slice off (suc k) b.buf),
  add32-eq (n - suc k) (uc.to_user dst (slice off (suc k) b.buf)).1,
)

-- `buffer_copy_to_user` hands to the user copy what the buffer holds of the `n` bytes from `off` on,
-- and returns the number of the others and of those that the user copy left out.
pub user_copy_window :
    (uc : UserCopy) {b : Buffer} (dst : List ℕ) (n off : ℕ)
    → IsValid b
    → n < 2 ^ 32
    → let k = min n (b.n_bytes_written - off) in
      let got = uc.to_user dst (slice off k (contents b)) in
      buffer_copy_to_user uc (some b) (some dst) n off ≡ ok (n - k + got.1, some got.0)
user_copy_window uc dst n off v small = copy_to_user_count uc dst n off _ v small refl
