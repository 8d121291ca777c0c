-- ===== src/Chrdev/Sysfs.antt =====
-- The attributes nchannels and sample_rate.
use pcm3060_kernelmodule.Prelude.{
  ℕ, ◌-◌, ◌≤◌, ◌<◌, ◌^◌, ◌≡◌, ◌⊎◌, inl, inr, refl, false, not, ◌&&◌, List, arith, length, ◌==◌,
  if◌then◌else◌, ℕ_discrete,
}
use pcm3060_kernelmodule.Config.{nchannels, is_valid_fs}
use pcm3060_kernelmodule.Kernel.Platform.{neg32, einval}
use pcm3060_kernelmodule.Chrdev.{Chrdev}

-- `sprintf(buf, "%d\n", n)`, and `sscanf(buf, "%d", &n)` with its return value as a `size_t`: the
-- number of conversions, or EOF. A conversion of fewer than five characters gives a number below
-- 10000, or a negative one.
pub record Text : Type 0 where
  pub sprintf_d : ℕ → List ℕ
  pub sscanf_d : List ℕ → ℕ × ℕ
  pub sscanf_ret : (buf : List ℕ) → ((sscanf_d buf).0 ≤ 1) ⊎ ((sscanf_d buf).0 ≡ 2 ^ 64 - 1)
  pub sscanf_short :
      (buf : List ℕ)
      → length buf < 5
      → (sscanf_d buf).0 ≡ 1
      → ((sscanf_d buf).1 < 10000) ⊎ (2 ^ 31 ≤ (sscanf_d buf).1)

module _ (tx : Text) where
  -- `nchannels_show`: the length, and the page.
  unfoldable pub nchannels_show : ℕ × List ℕ
  nchannels_show = let page = tx.sprintf_d nchannels in (length page, page)

  -- `sample_rate_show`
  unfoldable pub sample_rate_show : Chrdev → ℕ × List ℕ
  sample_rate_show s = let page = tx.sprintf_d s.pcm3060_cfg.fs in (length page, page)

  -- `sample_rate_store`
  unfoldable pub sample_rate_store : List ℕ → ℕ → Chrdev → ℕ × Chrdev
  sample_rate_store buf count s =
      let (ret, value) = tx.sscanf_d buf in
      if not (ret == count && is_valid_fs value)
      then (neg32 einval, s)
      else (count, record s { pcm3060_cfg = record s.pcm3060_cfg { fs = value } })

  -- Whatever is written to the attribute sample_rate, from one byte to a page of 4096: `sample_rate_store`
  -- answers -EINVAL and the rate stays, so that `sample_rate_show` shows the same as before. The number
  -- of conversions is compared with the number of bytes, and one byte makes no valid rate.
  pub rate_never_set :
      (buf : List ℕ) (s : Chrdev)
      → 0 < length buf
      → length buf ≤ 4096
      → (sample_rate_store buf (length buf) s ≡ (neg32 einval, s))
        × (sample_rate_show (sample_rate_store buf (length buf) s).1 ≡ sample_rate_show s)
  unfolding sample_rate_store sample_rate_show
  rate_never_set buf s some_byte small = (refused, rw refused refl)
    where
      refused : sample_rate_store buf (length buf) s ≡ (neg32 einval, s)
      refused =
          let fails : (tx.sscanf_d buf).0 ≡ length buf → is_valid_fs (tx.sscanf_d buf).1 ≡ false =
            λ e. elim (tx.sscanf_ret buf) [
              | inl one ↦ ground (arith, tx.sscanf_short buf (omega arith) (omega arith))
              | inr eof ↦ absurd (omega arith)
            ] in
          let test : ((tx.sscanf_d buf).0 == length buf && is_valid_fs (tx.sscanf_d buf).1)
              ≡ false =
            elim (ℕ_discrete (tx.sscanf_d buf).0 (length buf)) [
              | yes e ↦ rw (fails e) (ground arith)
              | no ne ↦ ground arith
            ] in
          rw test refl
