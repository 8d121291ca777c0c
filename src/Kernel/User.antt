-- ===== src/Kernel/User.antt =====
-- `copy_from_user` and `copy_to_user`: the kernel side of each copy is checked against its array;
-- what arrives from the user side is the kernel's, by its documentation.
use pcm3060_kernelmodule.Prelude.{
  ℕ, ◌+◌, ◌-◌, ◌≤◌, ◌≡◌, List, leb, if◌then◌else◌, length, take, drop, slice, splice,
}
use pcm3060_kernelmodule.Kernel.Run.{Run, ok, fault}

pub record UserCopy : Type 0 where
  -- the user memory at the pointer and the number of bytes asked for, to what lands in the kernel
  -- array and the number of bytes that could not be copied
  pub from_user : List ℕ → ℕ → List ℕ × ℕ
  pub from_length : (u : List ℕ) (n : ℕ) → length (from_user u n).0 ≡ n
  pub from_left : (u : List ℕ) (n : ℕ) → (from_user u n).1 ≤ n
  pub from_copied :
      (u : List ℕ) (n : ℕ)
      → take (n - (from_user u n).1) (from_user u n).0 ≡ take (n - (from_user u n).1) u
  -- the user memory at the pointer and the bytes to copy, to the new user memory and the number of
  -- bytes that could not be copied
  pub to_user : List ℕ → List ℕ → List ℕ × ℕ
  pub to_length : (u bs : List ℕ) → length (to_user u bs).0 ≡ length u
  pub to_left : (u bs : List ℕ) → (to_user u bs).1 ≤ length bs
  pub to_copied :
      (u bs : List ℕ)
      → take (length bs - (to_user u bs).1) (to_user u bs).0
        ≡ take (length bs - (to_user u bs).1) bs
  pub to_rest : (u bs : List ℕ) → drop (length bs) (to_user u bs).0 ≡ drop (length bs) u

module _ (uc : UserCopy) where
  -- copy_from_user(dst + to, u, n)
  unfoldable pub copy_from_user : List ℕ → ℕ → List ℕ → ℕ → Run (List ℕ × ℕ)
  copy_from_user dst to u n =
      if leb (to + n) (length dst)
      then (let (bytes, left) = uc.from_user u n in ok (splice dst to bytes, left))
      else fault

  -- copy_to_user(u, src + from, n)
  unfoldable pub copy_to_user : List ℕ → List ℕ → ℕ → ℕ → Run (List ℕ × ℕ)
  copy_to_user u src from n =
      if leb (from + n) (length src) then ok (uc.to_user u (slice from n src)) else fault
